-- ===== src/Tls/Channel/Hello/Accepts.antt =====
-- The driver accepts an honest server's first flight, however it is cut into records.
use verimark_linux_driver.Common.{
  ℕ, suc, Bool, ◌==◌, ◌||◌, ◌+◌, ◌≤◌, ◌≡◌, refl, sym, ap, ◌∙◌, true, false, List, [], ◌∷◌, ◌++◌,
  length, Outcome, ok, arith, read, copy, copy-at, read-skip, length-append, ge→ltb, All, go_on,
  joined,
}
use mathlib.Core.List.{append_assoc, append-nil, Memᴰ}
use verimark_linux_driver.Tls.Channel.{Tls, hs_bytes, each_record}
use verimark_linux_driver.Tls.Channel.Records.{
  Record, wire, IsShort, length-wire, each_record-append,
}
use verimark_linux_driver.Tls.Channel.Hello.{
  Rt1, rt1_record, rt1_messages, rt1_message, rt1_switch, on_server_hello, check_suite,
  check_certificate_request, has_ecdsa, rt1_read, rt1_split, hs_process_rt1,
}
use verimark_linux_driver.Tls.Channel.Hello.Messages.{
  messages, IsMessage, handled, rt1_messages-append, in_records, rt1_record-in_records,
  length-messages,
}

-- ServerHello, from its version, its random, its session id, and what follows the cipher suite: compression, extensions
abbrev pub server_hello : (major minor : ℕ) (random session tail : List ℕ) → List ℕ
server_hello major minor random session tail =
    major ∷ minor ∷ (random ++ (length session ∷ (session ++ (0xc0 ∷ 0x2e ∷ tail))))

-- What may stand between ServerHello and ServerHelloDone: a Certificate of any body, and a CertificateRequest,
-- from its types and the rest of it.
pub data Middle : Type 0 where
  certificate : (body : List ℕ) → Middle
  certificate_request : (types others : List ℕ) → Middle

unfoldable pub middle_message : Middle → Record
middle_message (certificate body) = (0x0b, body)
middle_message (certificate_request types others) = (0x0d, length types ∷ (types ++ others))

-- A request's types have ECDSA_SIGN.
unfoldable pub IsSigning : Middle → Type 0
IsSigning (certificate body) = Unit {0}
IsSigning (certificate_request types others) = Memᴰ 64 types

unfoldable pub ending : List Middle → List Record
unfolding middle_message
ending [] = (0x0e, []) ∷ []
ending (m ∷ ms) = middle_message m ∷ ending ms

-- ServerHello, the messages behind it, and ServerHelloDone
abbrev pub first_flight :
    (major minor : ℕ) (random session tail : List ℕ) (middles : List Middle) → List Record
first_flight major minor random session tail middles =
    (0x02, server_hello major minor random session tail) ∷ ending middles

check_suite-server_hello :
    (major minor : ℕ) (random session tail : List ℕ)
    → length random ≡ 32
    → 1 ≤ length tail
    → check_suite (server_hello major minor random session tail) ≡ ok tt
unfolding check_suite read
check_suite-server_hello major minor random session tail hr ht =
    let n : ℕ = length session in
    let suite : List ℕ = 0xc0 ∷ 0x2e ∷ tail in
    let body : List ℕ = server_hello major minor random session tail in
    let head : List ℕ = major ∷ minor ∷ random in
    let size = length-append random (n ∷ (session ++ suite)) in
    let size2 = length-append session suite in
    let behind : (i : ℕ) → read body (34 + i) ≡ read (n ∷ (session ++ suite)) i = λ i.
      read-skip head (n ∷ (session ++ suite)) 34 (34 + i) (omega (arith, hr)) (omega arith)
      ∙ ap (λ (k : ℕ). read (n ∷ (session ++ suite)) k) (omega arith) in
    let at : (i : ℕ) → read body (35 + n + i) ≡ read suite i = λ i.
      ap (λ (k : ℕ). read body k) (omega arith)
      ∙ behind (1 + n + i)
      ∙ read-skip (n ∷ session) suite (1 + n) (1 + n + i) (omega arith) (omega arith)
      ∙ ap (λ (k : ℕ). read suite k) (omega arith) in
    let at0 : read body 34 ≡ ok n = behind 0 in
    let at1 : read body (35 + n) ≡ ok 0xc0 = ap (λ (k : ℕ). read body k) (omega arith) ∙ at 0 in
    let at2 : read body (35 + n + 1) ≡ ok 0x2e = at 1 in
    rw (at0, ge→ltb (length body) (35 + n + 3) (omega (arith, size, size2, hr, ht)), at1, at2) refl

on_server_hello-server_hello :
    (major minor : ℕ) (random session tail : List ℕ) (s : Rt1)
    → length random ≡ 32
    → 1 ≤ length tail
    → on_server_hello (server_hello major minor random session tail) s
      ≡ (record s { tls = record s.tls { server_random = random }; got_server_hello = true }, ok tt)
unfolding on_server_hello
on_server_hello-server_hello major minor random session tail s hr ht =
    let n : ℕ = length session in
    let suite : List ℕ = 0xc0 ∷ 0x2e ∷ tail in
    let body : List ℕ = server_hello major minor random session tail in
    let size = length-append random (n ∷ (session ++ suite)) in
    let size2 = length-append session suite in
    let cut : copy body 2 32 ≡ ok random =
      copy-at (major ∷ minor ∷ []) random (n ∷ (session ++ suite)) 2 32 refl hr in
    rw
      (
        ge→ltb (length body) (2 + 32 + 1 + 2 + 1) (omega (arith, size, size2, hr, ht)),
        cut,
        check_suite-server_hello major minor random session tail hr ht,
      )
      refl

check_certificate_request-types :
    (types others : List ℕ)
    → has_ecdsa types ≡ true
    → check_certificate_request (length types ∷ (types ++ others)) ≡ ok tt
unfolding check_certificate_request read
check_certificate_request-types types others h =
    let body : List ℕ = length types ∷ (types ++ others) in
    let size = length-append types others in
    let cut : copy body 1 (length types) ≡ ok types =
      copy-at (length types ∷ []) types others 1 (length types) refl refl in
    rw
      (
        ge→ltb (length body) 1 (omega arith),
        ge→ltb (length body) (1 + length types) (omega (arith, size)),
        cut,
        h,
      )
      refl

or_true : (b : Bool) → (b || true) ≡ true
or_true true = refl
or_true false = refl

has_ecdsa-Memᴰ : (types : List ℕ) → Memᴰ 64 types → has_ecdsa types ≡ true
unfolding has_ecdsa
has_ecdsa-Memᴰ [] mem = elim mem [ ]
has_ecdsa-Memᴰ (type_ ∷ types) (Memᴰ.head same) = rw⁻¹ same refl
has_ecdsa-Memᴰ (type_ ∷ types) (Memᴰ.tail mem) =
    rw (has_ecdsa-Memᴰ types mem) (or_true (type_ == 64))

module _ (t : Tls) where
  -- The loop's state behind a ServerHello, with what was hashed
  abbrev greeted : (transcript : List ℕ) (rt1_done : Bool) → Rt1
  greeted transcript rt1_done = record {
    tls = record t { transcript = transcript };
    got_server_hello = true;
    rt1_done = rt1_done;
  }

  rt1_message-middle :
      (tr : List ℕ) (m : Middle)
      → IsSigning m
      → let msg = middle_message m in
        let raw = hs_bytes msg.0 msg.1 in
        rt1_message msg.0 raw msg.1 (greeted tr false) ≡ (greeted (tr ++ raw) false, ok tt)
  unfolding rt1_message rt1_switch middle_message IsSigning
  rt1_message-middle tr (certificate body) h = refl
  rt1_message-middle tr (certificate_request types others) h =
      rw (check_certificate_request-types types others (has_ecdsa-Memᴰ types h)) refl

  handled-ending :
      (tr : List ℕ) (ms : List Middle)
      → All IsSigning ms
      → handled (ending ms) (greeted tr false) ≡ (greeted (tr ++ messages (ending ms)) true, ok tt)
  unfolding handled ending messages rt1_message rt1_switch
  handled-ending tr [] all =
      ap (λ k. (greeted (tr ++ k) true, ok tt)) (sym (append-nil (hs_bytes 0x0e [])))
  handled-ending tr (m ∷ ms) all =
      let msg : Record = middle_message m in
      let raw : List ℕ = hs_bytes msg.0 msg.1 in
      ap (λ (c : Rt1 × Outcome (Unit {0})). go_on c λ _ s. handled (ending ms) s)
        (rt1_message-middle tr m all.0)
      ∙ handled-ending (tr ++ raw) ms all.1
      ∙ ap (λ k. (greeted k true, ok tt)) (append_assoc tr raw (messages (ending ms)))

handled-first_flight :
    (t : Tls) (major minor : ℕ) (random session tail : List ℕ) (middles : List Middle)
    → length random ≡ 32
    → 1 ≤ length tail
    → All IsSigning middles
    → handled
        (first_flight major minor random session tail middles)
        (record { tls = t; got_server_hello = false; rt1_done = false })
      ≡ (
        greeted
            (record t { server_random = random })
            (t.transcript ++ messages (first_flight major minor random session tail middles))
            true,
        ok tt,
      )
unfolding handled messages rt1_message rt1_switch
handled-first_flight t major minor random session tail middles hr ht all =
    let hello : List ℕ = server_hello major minor random session tail in
    let tr1 : List ℕ = t.transcript ++ hs_bytes 0x02 hello in
    let t1 : Tls = record t { server_random = random } in
    ap (λ (c : Rt1 × Outcome (Unit {0})). go_on c λ _ s. handled (ending middles) s)
      (on_server_hello-server_hello major minor random session tail
        (record { tls = record t { transcript = tr1 }; got_server_hello = false; rt1_done = false })
        hr ht)
    ∙ handled-ending t1 tr1 middles all
    ∙ ap (λ k. (greeted t1 k true, ok tt))
        (append_assoc t.transcript (hs_bytes 0x02 hello) (messages (ending middles)))

-- The driver accepts an honest server's first flight, however its bytes are cut into handshake records of at
-- most 65535 bytes: a ServerHello with any version, a random of 32 bytes, any session id, the cipher
-- suite 0xc02e and a byte at least behind it; then any number of Certificates, and of
-- CertificateRequests whose types have ECDSA_SIGN, in any order; and a ServerHelloDone, each of less
-- than 2 ^ 24 bytes. Reading it succeeds, keeps that random, appends the messages to the transcript,
-- and changes nothing else.
pub hs_process_rt1-first_flight :
    (t : Tls) (major minor : ℕ) (random session tail : List ℕ) (middles : List Middle)
    (frags : List (List ℕ))
    → length random ≡ 32
    → 1 ≤ length tail
    → All IsSigning middles
    → All IsMessage (first_flight major minor random session tail middles)
    → All IsShort (in_records frags)
    → joined frags ≡ messages (first_flight major minor random session tail middles)
    → hs_process_rt1 (wire (in_records frags)) t
      ≡ (record t { server_random = random; transcript = t.transcript ++ joined frags }, ok tt)
unfolding hs_process_rt1 rt1_split rt1_read
hs_process_rt1-first_flight t major minor random session tail middles frags hr ht all sized short
      cut =
    let records : List Record = in_records frags in
    let flight : List Record = first_flight major minor random session tail middles in
    let hsbuf : List ℕ = messages flight in
    let start : Rt1 = record { tls = t; got_server_hello = false; rt1_done = false } in
    let gathered : each_record rt1_record (suc (length (wire records))) (wire records) 0 []
        ≡ (hsbuf, ok tt) =
      each_record-append rt1_record (suc (length (wire records))) [] records [] short
        (omega (arith, length-wire records))
      ∙ rt1_record-in_records frags []
      ∙ ap (λ k. (k, ok tt)) cut in
    let read : rt1_messages (suc (length hsbuf)) hsbuf 0 start ≡ (
      record {
        tls = record t { server_random = random; transcript = t.transcript ++ hsbuf };
        got_server_hello = true;
        rt1_done = true;
      },
      ok tt,
    ) =
      rt1_messages-append (suc (length hsbuf)) [] flight start sized
        (omega (arith, length-messages flight))
      ∙ handled-first_flight t major minor random session tail middles hr ht all in
    rw cut (ap (λ c. rt1_split c t) gathered ∙ ap rt1_read read)
