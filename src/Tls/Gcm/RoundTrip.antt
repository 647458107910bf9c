-- ===== src/Tls/Gcm/RoundTrip.antt =====
-- A record that is wrapped is unwrapped again, and unwrapping reads inside its record.
use verimark_linux_driver.Common.{
  ◌+◌, ◌≡◌, refl, sym, ap, ◌∙◌, false, some, List, ◌++◌, ltb, length, ok, arith, Option-cases, inl,
  inr, copy, ℕ, ◌-◌, copy-front, copy-skip, copy_all, copy-at, length-append, ge→ltb,
}
use verimark_linux_driver.Tls.Gcm.{Aead, gcm_build_aad, gcm_wrap, gcm_unwrap}

-- The parts of a record of a nonce, a ciphertext and a tag.
gcm_unwrap-parts :
    (aead : Aead) (key fixed_iv : List ℕ) (seq content_type : ℕ) (nonce c tag plain : List ℕ)
    → length nonce ≡ 8
    → length tag ≡ 16
    → aead.open_ key (fixed_iv ++ nonce) (gcm_build_aad seq content_type (length c)) c tag
      ≡ some plain
    → gcm_unwrap aead key fixed_iv seq content_type (nonce ++ (c ++ tag)) ≡ ok plain
unfolding gcm_unwrap
gcm_unwrap-parts aead key fixed_iv seq content_type nonce c tag plain hn ht opens =
    let frag : List ℕ = nonce ++ (c ++ tag) in
    let size : length frag ≡ 24 + length c =
      omega (arith, length-append nonce (c ++ tag), length-append c tag, hn, ht) in
    let long : ltb (length frag) 24 ≡ false = ge→ltb (length frag) 24 (omega (arith, size)) in
    let plain_len : length frag - 24 ≡ length c = omega (arith, size) in
    let at_nonce : copy frag 0 8 ≡ ok nonce = copy-front nonce (c ++ tag) 8 hn in
    let at_c : copy frag 8 (length c) ≡ ok c = copy-at nonce c tag 8 (length c) hn refl in
    let at_tag : copy frag (length frag - 16) 16 ≡ ok tag =
      ap (λ k. copy frag k 16) (omega (arith, size))
      ∙ copy-skip nonce (c ++ tag) 8 (8 + length c) 16 hn (omega arith)
      ∙ ap (λ k. copy (c ++ tag) k 16) (omega arith)
      ∙ copy-skip c tag (length c) (length c) 16 refl (omega arith)
      ∙ ap (λ k. copy tag k 16) (omega arith)
      ∙ copy_all tag 16 ht in
    rw (long, at_nonce, at_tag, plain_len, at_c, opens) refl

-- A record that was wrapped is unwrapped, under the same key, iv, sequence number and content type,
-- into the text that was wrapped, and is 24 bytes longer than it.
pub gcm_unwrap-gcm_wrap :
    (aead : Aead) (key fixed_iv : List ℕ) (seq content_type : ℕ) (nonce plain frag : List ℕ)
    → length nonce ≡ 8
    → gcm_wrap aead key fixed_iv seq content_type nonce plain ≡ ok frag
    → (length frag ≡ 24 + length plain)
      × (gcm_unwrap aead key fixed_iv seq content_type frag ≡ ok plain)
unfolding gcm_wrap
gcm_unwrap-gcm_wrap aead key fixed_iv seq content_type nonce plain frag hn h =
    let iv = fixed_iv ++ nonce in
    let aad = gcm_build_aad seq content_type (length plain) in
    elim (Option-cases (aead.seal key iv aad plain)) [
      | inl fails ↦ ground (arith, h, fails)
      | inr ((c, tag), seals) ↦
          let (c_len, tag_len) = aead.length-seal key iv aad plain c tag seals in
          let same : nonce ++ (c ++ tag) ≡ frag = ground (arith, h, seals) in
          let opens : aead.open_ key iv (gcm_build_aad seq content_type (length c)) c tag
              ≡ some plain =
            rw c_len (aead.open-seal key iv aad plain c tag seals) in
          (
            ap length (sym same)
                ∙ omega (
                  arith,
                  length-append nonce (c ++ tag),
                  length-append c tag,
                  hn,
                  c_len,
                  tag_len,
                ),
            rw⁻¹ same (
                gcm_unwrap-parts aead key fixed_iv seq content_type nonce c tag plain hn tag_len
                  opens),
          )
    ]
