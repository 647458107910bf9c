-- ===== src/Tls/Channel/Hello/Messages.antt =====
-- The loop over the handshake messages of a flight meets the messages that were written, however they were
-- cut into records.
use verimark_linux_driver.Common.{
  ℕ, zero, suc, ◌+◌, ◌*◌, ◌/◌, ◌%◌, ◌^◌, ◌<◌, ◌≤◌, ◌≡◌, refl, sym, ap, ◌∙◌, List, [], ◌∷◌, ◌++◌,
  length, ok, arith, read, copy, copy-skip, copy-at, read-skip, length-append, ge→ltb, lt→ltb, All,
  Action, go_on, joined, map,
}
use mathlib.Core.List.{append_assoc, append-nil}
use mathlib.Core.Path.{fun_ext}
use verimark_linux_driver.Tls.Channel.{hs_bytes}
use verimark_linux_driver.Tls.Channel.Records.{Record, in_turn}
use verimark_linux_driver.Tls.Channel.Hello.{Rt1, rt1_record, rt1_messages, rt1_message, message_at}

-- Handshake messages, by their ids and their bodies, one after another
unfoldable pub messages : List Record → List ℕ
messages [] = []
messages (m ∷ ms) = hs_bytes m.0 m.1 ++ messages ms

-- The length fits into the three bytes of the header.
abbrev pub IsMessage : Record → Type 0
IsMessage m = length m.1 < 2 ^ 24

length-hs_bytes : (id : ℕ) (body : List ℕ) → length (hs_bytes id body) ≡ 4 + length body
unfolding hs_bytes
length-hs_bytes id body = omega arith

message_at-hs_bytes :
    (pre : List ℕ) (id : ℕ) (body rest : List ℕ)
    → length body < 2 ^ 24
    → message_at (pre ++ (hs_bytes id body ++ rest)) (length pre) ≡ ok (id, hs_bytes id body, body)
unfolding message_at hs_bytes read
message_at-hs_bytes pre id body rest h =
    let n : ℕ = length body in
    let buf : List ℕ = pre ++ (hs_bytes id body ++ rest) in
    let size = length-append pre (hs_bytes id body ++ rest) in
    let size2 = length-append body rest in
    let len : n / 2 ^ 16 % 256 * 2 ^ 16 + (n / 2 ^ 8 % 256 * 2 ^ 8 + n % 256) ≡ n =
      omega (arith, h) in
    let at : (i : ℕ) → read buf (length pre + i) ≡ read (hs_bytes id body ++ rest) i = λ i.
      read-skip pre (hs_bytes id body ++ rest) (length pre) (length pre + i) refl (omega arith)
      ∙ ap (λ (k : ℕ). read (hs_bytes id body ++ rest) k) (omega arith) in
    let at0 : read buf (length pre) ≡ ok id = ap (λ (k : ℕ). read buf k) (omega arith) ∙ at 0 in
    let at1 : read buf (length pre + 1) ≡ ok (n / 2 ^ 16 % 256) = at 1 in
    let at2 : read buf (length pre + 2) ≡ ok (n / 2 ^ 8 % 256) = at 2 in
    let at3 : read buf (length pre + 3) ≡ ok (n % 256) = at 3 in
    let cut : copy buf (length pre + 4) n ≡ ok body =
      copy-skip pre (hs_bytes id body ++ rest) (length pre) (length pre + 4) n refl (omega arith)
      ∙ ap (λ (k : ℕ). copy (hs_bytes id body ++ rest) k n) (omega arith)
      ∙ copy-at (id ∷ n / 2 ^ 16 % 256 ∷ n / 2 ^ 8 % 256 ∷ n % 256 ∷ []) body rest 4 n refl refl in
    let raw : copy buf (length pre) (4 + n) ≡ ok (hs_bytes id body) =
      copy-at pre (hs_bytes id body) rest (length pre) (4 + n) refl (omega arith) in
    rw
      (
        ge→ltb (length buf) (length pre + 4) (omega (arith, size, size2)),
        at0,
        at1,
        at2,
        at3,
        len,
        ge→ltb (length buf) (length pre + 4 + n) (omega (arith, size, size2)),
        cut,
        raw,
      )
      refl

-- What the switch does with the messages in turn
unfoldable pub handled : List Record → Action Rt1 (Unit {0})
handled [] s = (s, ok tt)
handled (m ∷ ms) s = go_on (rt1_message m.0 (hs_bytes m.0 m.1) m.1 s) λ _ s. handled ms s

pub rt1_messages-append :
    (fuel : ℕ) (pre : List ℕ) (ms : List Record) (s : Rt1)
    → All IsMessage ms
    → length ms < fuel
    → rt1_messages fuel (pre ++ messages ms) (length pre) s ≡ handled ms s
unfolding rt1_messages messages handled
rt1_messages-append zero pre ms s short h = absurd (omega arith)
rt1_messages-append (suc fuel) pre [] s short h =
    let all = length-append pre [] in
    rw (ge→ltb (length pre) (length (pre ++ [])) (omega (arith, all))) refl
rt1_messages-append (suc fuel) pre (m ∷ ms) s short h =
    let one : List ℕ = hs_bytes m.0 m.1 in
    let size = length-hs_bytes m.0 m.1 in
    let all = length-append pre (one ++ messages ms) in
    let all2 = length-append one (messages ms) in
    let pre2 = length-append pre one in
    let apart : pre ++ (one ++ messages ms) ≡ pre ++ one ++ messages ms =
      sym (append_assoc pre one (messages ms)) in
    let off : length pre + 4 + length m.1 ≡ length (pre ++ one) = omega (arith, size, pre2) in
    let rest : (t : Rt1)
        → rt1_messages fuel (pre ++ (one ++ messages ms)) (length pre + 4 + length m.1) t
          ≡ handled ms t =
      λ t.
        rw (apart, off) (rt1_messages-append fuel (pre ++ one) ms t short.1 (omega (arith, h))) in
    rw
      (
        lt→ltb (length pre) (length (pre ++ (one ++ messages ms))) (omega (arith, all, all2, size)),
        message_at-hs_bytes pre m.0 m.1 (messages ms) short.0,
      )
      (ap (λ k. go_on (rt1_message m.0 one m.1 s) (λ _. k)) (fun_ext rest))

-- A text in fragments, each in a handshake record
abbrev pub in_records : List (List ℕ) → List Record
in_records = map λ frag. (0x16, frag)

pub rt1_record-in_records :
    (frags : List (List ℕ)) (hsbuf : List ℕ)
    → in_turn rt1_record (in_records frags) hsbuf ≡ (hsbuf ++ joined frags, ok tt)
unfolding in_turn rt1_record
rt1_record-in_records [] hsbuf = ap (λ k. (k, ok tt)) (sym (append-nil hsbuf))
rt1_record-in_records (f ∷ fs) hsbuf =
    rt1_record-in_records fs (hsbuf ++ f) ∙ ap (λ k. (k, ok tt)) (append_assoc hsbuf f (joined fs))

pub length-messages : (ms : List Record) → length ms ≤ length (messages ms)
unfolding messages
length-messages [] = omega arith
length-messages (m ∷ ms) = omega (
  arith,
  length-append (hs_bytes m.0 m.1) (messages ms),
  length-hs_bytes m.0 m.1,
  length-messages ms,
)
