-- ===== src/Tls/Gcm.antt =====
-- driver/verimark-tls-crypto.c: the encryption of a record. AES-256-GCM is OpenSSL's, and a parameter.
pub mod RoundTrip
pub mod Aad
use verimark_linux_driver.Common.{
  ◌-◌, crypto_failed, crypto_invalid_data, zero, suc, ◌+◌, ◌*◌, ◌/◌, ◌%◌, ◌^◌, ◌≤◌, ◌<◌, ◌≡◌, ◌≢◌,
  refl, sym, ap, ◌∙◌, Bool, true, false, not, ◌&&◌, ◌||◌, Option, none, some, List, [], ◌∷◌, ◌++◌,
  ltb, leb, ◌==◌, if◌then◌else◌, length, All, Outcome, ok, err, fault, ◌>>=◌, Error, arith,
  Bool-cases, Option-cases, inl, inr, ◌⊎◌, ==→eq, >>=-eq-ok, map-safe, take, drop, replicate, read,
  copy, fail_if, proto, retry, data_invalid, ℕ, ◌>>◌,
}

-- What the code uses of EVP_aes_256_gcm, with the key, the iv of 12 bytes and the additional data: the
-- ciphertext, as long as the text, and the tag of 16 bytes; and the text again, of what was made
-- with the same key, iv and additional data. `none` is a call that OpenSSL fails.
pub record Aead : Type 0 where
  pub seal : (key iv aad plain : List ℕ) → Option (List ℕ × List ℕ)
  pub open_ : (key iv aad ciphertext tag : List ℕ) → Option (List ℕ)
  pub length-seal :
      (key iv aad plain c tag : List ℕ)
      → seal key iv aad plain ≡ some (c, tag)
      → (length c ≡ length plain) × (length tag ≡ 16)
  pub open-seal :
      (key iv aad plain c tag : List ℕ)
      → seal key iv aad plain ≡ some (c, tag)
      → open_ key iv aad c tag ≡ some plain

unfoldable pub gcm_build_aad : (seq content_type plain_len : ℕ) → List ℕ
gcm_build_aad seq content_type plain_len =
    seq / 2 ^ 56 % 256
    ∷ seq / 2 ^ 48 % 256
    ∷ seq / 2 ^ 40 % 256
    ∷ seq / 2 ^ 32 % 256
    ∷ seq / 2 ^ 24 % 256
    ∷ seq / 2 ^ 16 % 256
    ∷ seq / 2 ^ 8 % 256
    ∷ seq % 256
    ∷ content_type
    ∷ 0x03
    ∷ 0x03
    ∷ plain_len / 2 ^ 8 % 256
    ∷ plain_len % 256
    ∷ []

module _ (aead : Aead) where
  -- verimark_tls_gcm_wrap
  unfoldable pub gcm_wrap :
      (key fixed_iv : List ℕ) (seq content_type : ℕ) (nonce plain : List ℕ) → Outcome (List ℕ)
  gcm_wrap key fixed_iv seq content_type nonce plain =
      elim (aead.seal key (fixed_iv ++ nonce) (gcm_build_aad seq content_type (length plain))
        plain) [ none ↦ err crypto_failed | some (c, tag) ↦ ok (nonce ++ (c ++ tag)) ]

  -- verimark_tls_gcm_unwrap
  unfoldable pub gcm_unwrap :
      (key fixed_iv : List ℕ) (seq content_type : ℕ) (frag : List ℕ) → Outcome (List ℕ)
  gcm_unwrap key fixed_iv seq content_type frag = do
    fail_if (ltb (length frag) 24) crypto_invalid_data
    nonce ← copy frag 0 8
    c ← copy frag 8 (length frag - 24)
    tag ← copy frag (length frag - 16) 16
    elim (aead.open_ key (fixed_iv ++ nonce) (gcm_build_aad seq content_type (length frag - 24)) c
        tag) [ none ↦ err crypto_failed | some plain ↦ ok plain ]
