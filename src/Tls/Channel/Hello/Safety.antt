-- ===== src/Tls/Channel/Hello/Safety.antt =====
-- The server's first flight is read inside its bounds, and both loops over it end.
use verimark_linux_driver.Common.{
  fail_if-ne-fault, ℕ, zero, suc, ◌+◌, ◌*◌, ◌^◌, ◌<◌, ◌≤◌, ◌≡◌, ◌≢◌, refl, sym, ap, ◌∙◌, false, not,
  List, [], ◌++◌, ltb, ◌==◌, length, Outcome, ok, err, fault, fail_if, read, copy, u16_be,
  crypto_failed, arith, inl, inr, Bool-cases, if_elim, ltb→ge, copy_inside, copy-eq-ok, go_on-safe,
  >>=-eq-ok, ok-safe, read-safe, copy-safe,
}
use verimark_linux_driver.Tls.Channel.{Tls, each_record}
use verimark_linux_driver.Tls.Channel.Records.{each_record_ends}
use verimark_linux_driver.Tls.Channel.Hello.{
  Rt1, hs_process_rt1, rt1_split, rt1_read, rt1_messages, rt1_message, rt1_switch, message_at,
  on_server_hello, check_suite, rt1_record, check_certificate_request, has_ecdsa,
}

check_suite-safe : (body : List ℕ) → 38 ≤ length body → check_suite body ≢ fault
unfolding check_suite
check_suite-safe body h = read-safe body 34 _ (omega arith) λ ses_len.
    elim (Bool-cases (ltb (length body) (35 + ses_len + 3))) [
      | inl short ↦ rw short (λ e. cc)
      | inr long ↦
          let k = ltb→ge (length body) (35 + ses_len + 3) long in
          rw long (
            read-safe body (35 + ses_len) _ (omega (arith, k)) λ hi.
              read-safe body (35 + ses_len + 1) _ (omega (arith, k))
                λ lo. fail_if-ne-fault (not (u16_be hi lo == 0xc02e)) crypto_failed)
    ]

on_server_hello-safe : (body : List ℕ) (s : Rt1) → (on_server_hello body s).1 ≢ fault
unfolding on_server_hello
on_server_hello-safe body s =
    if_elim (λ (r : Rt1 × Outcome (Unit {0})). r.1 ≢ fault) (ltb (length body) (2 + 32 + 1 + 2 + 1))
      (λ _ e. cc)
      λ long.
        let h = ltb→ge (length body) (2 + 32 + 1 + 2 + 1) long in
        go_on-safe (s, copy body 2 32) _ (rw (copy_inside body 2 32 (omega (arith, h))) (ok-safe _))
          λ random _.
            go_on-safe
              (record s { tls = record s.tls { server_random = random } }, check_suite body) _
              (check_suite-safe body (omega (arith, h))) λ _ _ e. cc

check_certificate_request-safe : (body : List ℕ) → check_certificate_request body ≢ fault
unfolding check_certificate_request
check_certificate_request-safe body = elim (Bool-cases (ltb (length body) 1)) [
  | inl short ↦ rw short (λ e. cc)
  | inr long ↦ rw long (
      read-safe body 0 _ (omega (arith, ltb→ge (length body) 1 long)) λ count.
        elim (Bool-cases (ltb (length body) (1 + count))) [
          | inl cut ↦ rw cut (λ e. cc)
          | inr whole ↦ rw whole (
              copy-safe body 1 count _ (ltb→ge (length body) (1 + count) whole)
                λ types. fail_if-ne-fault (not (has_ecdsa types)) crypto_failed)
        ])
]

rt1_switch-safe : (id : ℕ) (body : List ℕ) (s : Rt1) → (rt1_switch id body s).1 ≢ fault
unfolding rt1_switch
rt1_switch-safe id body s =
    let P : Rt1 × Outcome (Unit {0}) → Type 0 = λ r. r.1 ≢ fault in
    if_elim P (id == 0x02) (λ _. on_server_hello-safe body s)
      λ _.
        if_elim P (id == 0x0b) (λ _ e. cc)
          λ _.
            if_elim P (id == 0x0d) (λ _. check_certificate_request-safe body)
              λ _.
                if_elim P (id == 0x0e) (λ _. if_elim P s.got_server_hello (λ _ e. cc) (λ _ e. cc))
                  (λ _ e. cc)

rt1_message-safe : (id : ℕ) (raw body : List ℕ) (s : Rt1) → (rt1_message id raw body s).1 ≢ fault
unfolding rt1_message
rt1_message-safe id raw body s =
    let hashed : Rt1 = record s { tls = record s.tls { transcript = s.tls.transcript ++ raw } } in
    if_elim (λ (r : Rt1 × Outcome (Unit {0})). r.1 ≢ fault) s.rt1_done (λ _ e. cc)
      (λ _. rt1_switch-safe id body hashed)

message_at_inside :
    (buf : List ℕ) (off id : ℕ) (raw body : List ℕ)
    → message_at buf off ≡ ok (id, raw, body)
    → off + 4 + length body ≤ length buf
unfolding message_at
message_at_inside buf off id raw body h =
    let (u, long, h1) = >>=-eq-ok (fail_if (ltb (length buf) (off + 4)) crypto_failed) _ h in
    let (c, at0, h2) = >>=-eq-ok (read buf off) _ h1 in
    let (hi, at1, h3) = >>=-eq-ok (read buf (off + 1)) _ h2 in
    let (mid, at2, h4) = >>=-eq-ok (read buf (off + 2)) _ h3 in
    let (lo, at3, h5) = >>=-eq-ok (read buf (off + 3)) _ h4 in
    let n : ℕ = hi * 2 ^ 16 + (mid * 2 ^ 8 + lo) in
    let (v, whole, h6) = >>=-eq-ok (fail_if (ltb (length buf) (off + 4 + n)) crypto_failed) _ h5 in
    let (b, cut, h7) = >>=-eq-ok (copy buf (off + 4) n) _ h6 in
    let (r, cut2, h8) = >>=-eq-ok (copy buf off (4 + n)) _ h7 in
    let (fits, size) = copy-eq-ok buf (off + 4) n cut in
    let same : b ≡ body = ground (arith, h8) in
    let size2 : length body ≡ n = ap length (sym same) ∙ size in omega (arith, fits, size2)

message_at-safe : (buf : List ℕ) (off : ℕ) → message_at buf off ≢ fault
unfolding message_at
message_at-safe buf off = elim (Bool-cases (ltb (length buf) (off + 4))) [
  | inl short ↦ rw short (λ e. cc)
  | inr long ↦
      let h = ltb→ge (length buf) (off + 4) long in
      rw long (
        read-safe buf off _ (omega (arith, h)) λ id.
          read-safe buf (off + 1) _ (omega (arith, h)) λ hi.
            read-safe buf (off + 2) _ (omega (arith, h)) λ mid.
              read-safe buf (off + 3) _ (omega (arith, h)) λ lo.
                let n : ℕ = hi * 2 ^ 16 + (mid * 2 ^ 8 + lo) in
                elim (Bool-cases (ltb (length buf) (off + 4 + n))) [
                  | inl cut ↦ rw cut (λ e. cc)
                  | inr whole ↦
                      let k = ltb→ge (length buf) (off + 4 + n) whole in
                      rw whole (
                        copy-safe buf (off + 4) n _ k
                          λ body. copy-safe buf off (4 + n) _ (omega (arith, k)) λ raw e. cc)
                ])
]

rt1_messages-safe :
    (fuel : ℕ) (buf : List ℕ) (off : ℕ) (s : Rt1)
    → off ≤ length buf
    → length buf < fuel + off
    → (rt1_messages fuel buf off s).1 ≢ fault
unfolding rt1_messages
rt1_messages-safe zero buf off s k h = absurd (omega arith)
rt1_messages-safe (suc fuel) buf off s k h =
    if_elim (λ (r : Rt1 × Outcome (Unit {0})). r.1 ≢ fault) (ltb off (length buf))
      (λ _.
        go_on-safe (s, message_at buf off) _ (message_at-safe buf off)
          λ m found.
            go_on-safe (rt1_message m.0 m.1 m.2 s) _ (rt1_message-safe m.0 m.1 m.2 s) λ _ _.
              let inside = message_at_inside buf off m.0 m.1 m.2 found in
              rt1_messages-safe fuel buf (off + 4 + length m.2) (rt1_message m.0 m.1 m.2 s).0
                (omega (arith, inside)) (omega (arith, h)))
      (λ _ e. cc)

rt1_read-safe : (end : Rt1 × Outcome (Unit {0})) → end.1 ≢ fault → (rt1_read end).1 ≢ fault
unfolding rt1_read
rt1_read-safe (s, ok _) h =
    if_elim (λ (r : Outcome (Unit {0})). r ≢ fault) s.rt1_done (λ _ e. cc) (λ _ e. cc)
rt1_read-safe (s, err x) h = λ e. cc
rt1_read-safe (s, fault) h = absurd (h refl)

rt1_split-safe :
    (found : List ℕ × Outcome (Unit {0})) (t : Tls)
    → found.1 ≢ fault
    → (rt1_split found t).1 ≢ fault
unfolding rt1_split
rt1_split-safe (hsbuf, ok _) t h =
    let start : Rt1 = record { tls = t; got_server_hello = false; rt1_done = false } in
    rt1_read-safe (rt1_messages (suc (length hsbuf)) hsbuf 0 start)
      (rt1_messages-safe (suc (length hsbuf)) hsbuf 0 start (omega arith) (omega arith))
rt1_split-safe (hsbuf, err x) t h = λ e. cc
rt1_split-safe (hsbuf, fault) t h = absurd (h refl)

rt1_record-safe : (ct : ℕ) (frag hsbuf : List ℕ) → (rt1_record ct frag hsbuf).1 ≢ fault
unfolding rt1_record
rt1_record-safe ct frag hsbuf =
    if_elim (λ (r : List ℕ × Outcome (Unit {0})). r.1 ≢ fault) (ct == 0x16) (λ _ e. cc) (λ _ e. cc)

pub hs_process_rt1-safe : (resp : List ℕ) (t : Tls) → (hs_process_rt1 resp t).1 ≢ fault
unfolding hs_process_rt1
hs_process_rt1-safe resp t =
    rt1_split-safe (each_record rt1_record (suc (length resp)) resp 0 []) t (
      each_record_ends rt1_record (suc (length resp)) resp 0 [] rt1_record-safe (omega arith)
        (omega arith))
