-- ===== src/Tls/Channel/Hello.antt =====
-- driver/verimark-tls.c: ClientHello, and hs_process_rt1, which reads the server's first flight.
pub mod Safety
pub mod Messages
pub mod Accepts
use verimark_linux_driver.Common.{
  ℕ, zero, suc, ◌+◌, ◌*◌, ◌/◌, ◌%◌, ◌^◌, Bool, true, false, not, ◌||◌, List, [], ◌∷◌, ◌++◌, ltb,
  ◌==◌, if◌then◌else◌, length, Outcome, ok, err, fault, ◌>>=◌, ◌>>◌, fail_if, read, copy, u16_be,
  crypto_failed, Action, go_on,
}
use verimark_linux_driver.Tls.Channel.{Tls, rec_write_plain, hs_msg, each_record}

-- ext_supported_groups, ext_ec_point_formats
abbrev pub ext_supported_groups : List ℕ
ext_supported_groups = 0x00 ∷ 0x0a ∷ 0x00 ∷ 0x04 ∷ 0x00 ∷ 0x02 ∷ 0x00 ∷ 0x17 ∷ []

abbrev pub ext_ec_point_formats : List ℕ
ext_ec_point_formats = 0x00 ∷ 0x0b ∷ 0x00 ∷ 0x02 ∷ 0x01 ∷ 0x00 ∷ []

-- The version, the client's random, the session id, the cipher suites, the compression, the extensions
unfoldable pub client_hello_body : (cr : List ℕ) → List ℕ
client_hello_body cr =
    0x03
    ∷ 0x03
    ∷ (cr
        ++ (0x07
            ∷ 0
            ∷ 0
            ∷ 0
            ∷ 0
            ∷ 0
            ∷ 0
            ∷ 0
            ∷ 0x00
            ∷ 0x04
            ∷ 0xc0
            ∷ 0x05
            ∷ 0xc0
            ∷ 0x2e
            ∷ 0x00
            ∷ (ext_supported_groups ++ ext_ec_point_formats)))

-- hs_build_client_hello; `random` is what RAND_bytes draws.
unfoldable pub hs_build_client_hello : (now : ℕ) (random : List ℕ) → Tls → Tls × List ℕ
unfolding client_hello_body
hs_build_client_hello now random t =
    let cr : List ℕ =
      now / 2 ^ 24 % 256 ∷ now / 2 ^ 16 % 256 ∷ now / 2 ^ 8 % 256 ∷ now % 256 ∷ random in
    let sent = hs_msg (record t { client_random = cr }) [] 0x01 (client_hello_body cr) in
    (sent.0, rec_write_plain [] 0x16 sent.1)

-- The first loop of hs_process_rt1: the fragments of handshake records, appended.
unfoldable pub rt1_record : (ct : ℕ) (frag : List ℕ) → Action (List ℕ) (Unit {0})
rt1_record ct frag hsbuf = if ct == 0x16 then (hsbuf ++ frag, ok tt) else (hsbuf, err crypto_failed)

-- The channel, got_server_hello and rt1_done.
pub record Rt1 : Type 0 where
  pub tls : Tls
  pub got_server_hello : Bool
  pub rt1_done : Bool

-- The cipher suite of a ServerHello, behind its session id.
unfoldable pub check_suite : (body : List ℕ) → Outcome (Unit {0})
check_suite body = do
  ses_len ← read body 34
  fail_if (ltb (length body) (35 + ses_len + 3)) crypto_failed
  hi ← read body (35 + ses_len)
  lo ← read body (35 + ses_len + 1)
  fail_if (not (u16_be hi lo == 0xc02e)) crypto_failed

-- `case 0x02`
unfoldable pub on_server_hello : (body : List ℕ) → Action Rt1 (Unit {0})
unfolding check_suite
on_server_hello body s =
    let more =
      go_on (s, copy body 2 32)
        λ random s.
          go_on (record s { tls = record s.tls { server_random = random } }, check_suite body)
            λ _ s. (record s { got_server_hello = true }, ok tt) in
    if ltb (length body) (2 + 32 + 1 + 2 + 1) then (s, err crypto_failed) else more

-- The `for` loop: does a type say ECDSA_SIGN?
unfoldable pub has_ecdsa : (types : List ℕ) → Bool
has_ecdsa [] = false
has_ecdsa (type_ ∷ types) = type_ == 64 || has_ecdsa types

-- `case 0x0d`
unfoldable pub check_certificate_request : (body : List ℕ) → Outcome (Unit {0})
unfolding has_ecdsa
check_certificate_request body = do
  fail_if (ltb (length body) 1) crypto_failed
  count ← read body 0
  fail_if (ltb (length body) (1 + count)) crypto_failed
  types ← copy body 1 count
  fail_if (not (has_ecdsa types)) crypto_failed

-- The `switch` of hs_process_rt1
unfoldable pub rt1_switch : (id : ℕ) (body : List ℕ) → Action Rt1 (Unit {0})
unfolding on_server_hello check_certificate_request
rt1_switch id body s =
    if id == 0x02
    then on_server_hello body s
    else if id == 0x0b
    then (s, ok tt)
    else if id == 0x0d
    then (s, check_certificate_request body)
    else if id == 0x0e
    then (if s.got_server_hello
        then (record s { rt1_done = true }, ok tt)
        else (s, err crypto_failed))
    else (s, err crypto_failed)

-- A handshake message, which is hashed before it is looked at; `raw` is it with its header.
unfoldable pub rt1_message : (id : ℕ) (raw body : List ℕ) → Action Rt1 (Unit {0})
unfolding rt1_switch
rt1_message id raw body s =
    let hashed = record s { tls = record s.tls { transcript = s.tls.transcript ++ raw } } in
    if s.rt1_done then (hashed, err crypto_failed) else rt1_switch id body hashed

-- The head of the second loop: the id, the message and its body at an offset.
unfoldable pub message_at : (buf : List ℕ) (off : ℕ) → Outcome (ℕ × List ℕ × List ℕ)
message_at buf off = do
  fail_if (ltb (length buf) (off + 4)) crypto_failed
  id ← read buf off
  hi ← read buf (off + 1)
  mid ← read buf (off + 2)
  lo ← read buf (off + 3)
  fail_if (ltb (length buf) (off + 4 + (hi * 2 ^ 16 + (mid * 2 ^ 8 + lo)))) crypto_failed
  body ← copy buf (off + 4) (hi * 2 ^ 16 + (mid * 2 ^ 8 + lo))
  raw ← copy buf off (4 + (hi * 2 ^ 16 + (mid * 2 ^ 8 + lo)))
  ok (id, raw, body)

-- The second loop of hs_process_rt1; a fault if the fuel does not last.
unfoldable pub rt1_messages : (fuel : ℕ) (buf : List ℕ) (off : ℕ) → Action Rt1 (Unit {0})
unfolding message_at rt1_message
rt1_messages zero buf off s = (s, fault)
rt1_messages (suc fuel) buf off s =
    let more =
      go_on (s, message_at buf off)
        λ (id, raw, body) s.
          go_on (rt1_message id raw body s)
            λ _ s. rt1_messages fuel buf (off + 4 + length body) s in
    if ltb off (length buf) then more else (s, ok tt)

-- hs_process_rt1 behind its first loop, and behind its second
unfoldable pub rt1_read : Rt1 × Outcome (Unit {0}) → Tls × Outcome (Unit {0})
rt1_read (s, ok _) = (s.tls, if s.rt1_done then ok tt else err crypto_failed)
rt1_read (s, err x) = (s.tls, err x)
rt1_read (s, fault) = (s.tls, fault)

unfoldable pub rt1_split : List ℕ × Outcome (Unit {0}) → Action Tls (Unit {0})
unfolding rt1_messages rt1_read
rt1_split (hsbuf, ok _) t = rt1_read (
    rt1_messages (suc (length hsbuf)) hsbuf 0
      (record { tls = t; got_server_hello = false; rt1_done = false }))
rt1_split (hsbuf, err x) t = (t, err x)
rt1_split (hsbuf, fault) t = (t, fault)

-- Each turn of a loop advances by a header at least, so that the length is fuel enough.
unfoldable pub hs_process_rt1 : (resp : List ℕ) → Action Tls (Unit {0})
unfolding rt1_record rt1_split
hs_process_rt1 resp t = rt1_split (each_record rt1_record (suc (length resp)) resp 0 []) t
