-- ===== src/Tls/Channel.antt =====
-- driver/verimark-tls.c: the channel's state, its records, and the loop over the records of a reply.
pub mod Hello
pub mod Finish
pub mod Session
pub mod Fifo
pub mod Records
use verimark_linux_driver.Common.{
  ℕ, zero, suc, ◌+◌, ◌/◌, ◌%◌, ◌^◌, Bool, true, false, List, [], ◌∷◌, ◌++◌, ltb, ◌==◌,
  if◌then◌else◌, length, Outcome, ok, fault, ◌>>=◌, ◌>>◌, fail_if, read, copy, u16_be,
  crypto_failed, Action, go_on, replicate,
}
use verimark_linux_driver.Tls.Cert.{Cert, Pairing}
use verimark_linux_driver.Tls.Prf.{Keys}

-- struct _VerimarkTls, less the callback and what only the tests set. The digest's context is the list
-- of the bytes that were hashed.
pub record Tls : Type 0 where
  pub have_pairing : Bool
  pub established : Bool
  pub pd : Pairing
  pub client_random : List ℕ
  pub server_random : List ℕ
  pub eph_priv : List ℕ
  pub master_secret : List ℕ
  pub verify_digest : List ℕ
  pub keys : Keys
  pub encr_seq : ℕ
  pub decr_seq : ℕ
  pub transcript : List ℕ

-- g_new0
abbrev pub zero_cert : Cert
zero_cert = record {
  cert_type = 0;
  pub_x = replicate 32 0;
  pub_y = replicate 32 0;
  sign_size = 0;
  signature = replicate 256 0;
}

-- verimark_tls_new
abbrev pub tls_new : Tls
tls_new = record {
  have_pairing = false;
  established = false;
  pd = record { priv_scalar = replicate 32 0; host_cert = zero_cert; sensor_cert = zero_cert };
  client_random = replicate 32 0;
  server_random = replicate 32 0;
  eph_priv = replicate 32 0;
  master_secret = replicate 48 0;
  verify_digest = replicate 32 0;
  keys = record {
    encr_key = replicate 32 0;
    decr_key = replicate 32 0;
    encr_iv = replicate 4 0;
    decr_iv = replicate 4 0;
  };
  encr_seq = 0;
  decr_seq = 0;
  transcript = [];
}

-- verimark_tls_set_pairing
unfoldable pub set_pairing : Tls → Pairing → Tls
set_pairing t pd = record t { pd = pd; have_pairing = true }

-- `t->encr_seq++`, a guint64
abbrev pub next_seq : ℕ → ℕ
next_seq seq = (seq + 1) % 2 ^ 64

-- What rec_write_plain appends: the length's two bytes are casts to guint8.
unfoldable pub rec_plain : (ct : ℕ) (body : List ℕ) → List ℕ
rec_plain ct body = ct ∷ 0x03 ∷ 0x03 ∷ length body / 2 ^ 8 % 256 ∷ length body % 256 ∷ body

unfoldable pub rec_write_plain : (out : List ℕ) (ct : ℕ) (body : List ℕ) → List ℕ
unfolding rec_plain
rec_write_plain out ct body = out ++ rec_plain ct body

-- What hs_msg appends
unfoldable pub hs_bytes : (id : ℕ) (body : List ℕ) → List ℕ
hs_bytes id body =
    id ∷ length body / 2 ^ 16 % 256 ∷ length body / 2 ^ 8 % 256 ∷ length body % 256 ∷ body

-- hs_msg, with what it leaves in `dst`
unfoldable pub hs_msg : Tls → (dst : List ℕ) (id : ℕ) (body : List ℕ) → Tls × List ℕ
unfolding hs_bytes
hs_msg t dst id body =
    let hashed = if id == 0x14 then t.transcript else t.transcript ++ hs_bytes id body in
    (record t { transcript = hashed }, dst ++ hs_bytes id body)

-- The head of the three loops over records: the content type and the fragment at an offset.
unfoldable pub record_at : (buf : List ℕ) (off : ℕ) → Outcome (ℕ × List ℕ)
record_at buf off = do
  fail_if (ltb (length buf) (off + 5)) crypto_failed
  ct ← read buf off
  hi ← read buf (off + 3)
  lo ← read buf (off + 4)
  fail_if (ltb (length buf) (off + 5 + u16_be hi lo)) crypto_failed
  frag ← copy buf (off + 5) (u16_be hi lo)
  ok (ct, frag)

-- The loops `while (off < len)` over records, which hs_process_rt1, hs_process_rt2 and
-- verimark_tls_unwrap each have, by what they do with a record; a fault if the fuel does not last.
unfoldable pub each_record {ℓ} :
    {S : Type ℓ}
    → (handle : ℕ → List ℕ → Action S (Unit {0})) (fuel : ℕ) (buf : List ℕ) (off : ℕ)
    → Action S (Unit {0})
unfolding record_at
each_record handle zero buf off s = (s, fault)
each_record handle (suc fuel) buf off s =
    let more =
      go_on (s, record_at buf off)
        λ (ct, frag) s.
          go_on (handle ct frag s) λ _ s. each_record handle fuel buf (off + 5 + length frag) s in
    if ltb off (length buf) then more else (s, ok tt)
