-- ===== src/Tls/Prf.antt =====
-- driver/verimark-tls-crypto.c: the key derivation. HMAC is OpenSSL's, and a parameter for each digest.
pub mod Expansion
pub mod KeyBlock
use verimark_linux_driver.Common.{
  ℕ, ◌+◌, ◌-◌, ◌<◌, ◌≡◌, zero, suc, min, List, [], ◌∷◌, ◌++◌, Option, none, some, ltb,
  if◌then◌else◌, length, take, Outcome, ok, err, fault, ◌>>=◌, copy, crypto_failed,
}
use verimark_linux_driver.Tls.Cert.{le_field_to_be32}

-- HMAC () with one EVP_MD: the code of a message, as long as the digest, or a failed call.
pub record Hmac : Type 0 where
  pub size : ℕ
  pub size_pos : 0 < size
  pub mac : (key msg : List ℕ) → Option (List ℕ)
  pub length-mac : (key msg code : List ℕ) → mac key msg ≡ some code → length code ≡ size

-- A call of OpenSSL that fails makes its caller fail with VERIMARK_TLS_CRYPTO_ERROR_FAILED.
abbrev pub openssl {ℓ} : {A : Type ℓ} → Option A → Outcome A
openssl none = err crypto_failed
openssl (some a) = ok a

module _ (hmac : Hmac) where
  -- The `while (done < out_len)` loop of verimark_tls_prf with the bytes done in `out`; a fault
  -- if the fuel does not last.
  unfoldable pub prf_loop : (fuel : ℕ) (secret inp a out : List ℕ) (out_len : ℕ) → Outcome (List ℕ)
  prf_loop zero secret inp a out out_len = fault
  prf_loop (suc fuel) secret inp a out out_len =
      let more : Outcome (List ℕ) = openssl (hmac.mac secret (a ++ inp)) >>= λ block.
      openssl (hmac.mac secret a) >>= λ next.
      prf_loop fuel secret inp next (out ++ take (min (length block) (out_len - length out)) block)
        out_len in
      if ltb (length out) out_len then more else ok out

  -- verimark_tls_prf; each turn of the loop makes a byte at least. Where it returns FALSE, its callers
  -- set the error.
  unfoldable pub prf : (secret label seed : List ℕ) (out_len : ℕ) → Outcome (List ℕ)
  unfolding prf_loop
  prf secret label seed out_len = do
    a ← openssl (hmac.mac secret (label ++ seed))
    prf_loop (suc out_len) secret (label ++ seed) a [] out_len

-- "master secret", "key expansion"
abbrev pub master_secret_label : List ℕ
master_secret_label =
    0x6d ∷ 0x61 ∷ 0x73 ∷ 0x74 ∷ 0x65 ∷ 0x72 ∷ 0x20 ∷ 0x73 ∷ 0x65 ∷ 0x63 ∷ 0x72 ∷ 0x65 ∷ 0x74 ∷ []

abbrev pub key_expansion_label : List ℕ
key_expansion_label =
    0x6b ∷ 0x65 ∷ 0x79 ∷ 0x20 ∷ 0x65 ∷ 0x78 ∷ 0x70 ∷ 0x61 ∷ 0x6e ∷ 0x73 ∷ 0x69 ∷ 0x6f ∷ 0x6e ∷ []

-- VerimarkTlsKeys
pub record Keys : Type 0 where
  pub encr_key : List ℕ
  pub decr_key : List ℕ
  pub encr_iv : List ℕ
  pub decr_iv : List ℕ

-- verimark_tls_derive_master_secret
unfoldable pub derive_master_secret :
    Hmac → (premaster client_random server_random : List ℕ) → Outcome (List ℕ)
unfolding prf
derive_master_secret sha384 premaster client_random server_random =
    prf sha384 premaster master_secret_label (client_random ++ server_random) 48

-- verimark_tls_derive_keys
unfoldable pub derive_keys :
    Hmac → (master_secret client_random server_random : List ℕ) → Outcome Keys
unfolding prf
derive_keys sha384 master_secret client_random server_random = do
  block ← prf sha384 master_secret key_expansion_label (client_random ++ server_random) 72
  encr_key ← copy block 0 32
  decr_key ← copy block 32 32
  encr_iv ← copy block 64 4
  decr_iv ← copy block 68 4
  ok (record { encr_key = encr_key; decr_key = decr_key; encr_iv = encr_iv; decr_iv = decr_iv })

-- verimark_load_tsk_pubkey
unfoldable pub load_tsk_pubkey : List ℕ → Outcome (List ℕ × List ℕ)
load_tsk_pubkey buf = do
  x_field ← copy buf 0 0x44
  pub_x ← le_field_to_be32 x_field
  y_field ← copy buf 0x44 0x44
  pub_y ← le_field_to_be32 y_field
  ok (pub_x, pub_y)
