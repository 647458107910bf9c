-- ===== src/Tls/Gcm/Aad.antt =====
-- The additional data of a record, and the safety of unwrapping.
use verimark_linux_driver.Common.{
  refl, ◌+◌, ◌*◌, ◌<◌, ◌≡◌, ◌≢◌, List, ◌∷◌, ◌++◌, ltb, length, fault, arith, Bool-cases,
  Option-cases, inl, inr, ℕ, ◌-◌, ◌/◌, ◌%◌, ◌^◌, copy_inside, slice, ltb→ge,
}
use verimark_linux_driver.Tls.Gcm.{Aead, gcm_unwrap, gcm_build_aad}

word_bytes :
    (n : ℕ)
    → n < 2 ^ 64
    → n / 2 ^ 56 % 256 * 2 ^ 56
        + (n / 2 ^ 48 % 256 * 2 ^ 48
            + (n / 2 ^ 40 % 256 * 2 ^ 40
                + (n / 2 ^ 32 % 256 * 2 ^ 32
                    + (n / 2 ^ 24 % 256 * 2 ^ 24
                        + (n / 2 ^ 16 % 256 * 2 ^ 16 + (n / 2 ^ 8 % 256 * 2 ^ 8 + n % 256))))))
      ≡ n
word_bytes n h = omega (arith, h)

-- The sequence number, the content type and the length that 13 bytes of additional data tell.
pub seq_of_aad : List ℕ → ℕ
seq_of_aad (a ∷ b ∷ c ∷ d ∷ e ∷ f ∷ g ∷ h ∷ _) =
    a * 2 ^ 56
    + (b * 2 ^ 48 + (c * 2 ^ 40 + (d * 2 ^ 32 + (e * 2 ^ 24 + (f * 2 ^ 16 + (g * 2 ^ 8 + h))))))
seq_of_aad _ = 0

pub type_of_aad : List ℕ → ℕ
type_of_aad (_ ∷ _ ∷ _ ∷ _ ∷ _ ∷ _ ∷ _ ∷ _ ∷ t ∷ _) = t
type_of_aad _ = 0

pub len_of_aad : List ℕ → ℕ
len_of_aad (_ ∷ _ ∷ _ ∷ _ ∷ _ ∷ _ ∷ _ ∷ _ ∷ _ ∷ _ ∷ _ ∷ hi ∷ lo ∷ _) = hi * 2 ^ 8 + lo
len_of_aad _ = 0

-- The sequence number, the content type and the length of the text can be read back from the
-- additional data that the tag is made over, as far as they fit their fields: records that differ in
-- one of them differ in that data.
pub gcm_build_aad_fields :
    (seq content_type len : ℕ)
    → seq < 2 ^ 64
    → len < 2 ^ 16
    → (seq_of_aad (gcm_build_aad seq content_type len) ≡ seq)
      × (type_of_aad (gcm_build_aad seq content_type len) ≡ content_type)
      × (len_of_aad (gcm_build_aad seq content_type len) ≡ len)
unfolding gcm_build_aad seq_of_aad type_of_aad len_of_aad
gcm_build_aad_fields seq content_type len hs hl = (word_bytes seq hs, refl, omega (arith, hl))

-- A record of any bytes and length is unwrapped or refused without a read outside it.
pub gcm_unwrap-safe :
    (aead : Aead) (key fixed_iv : List ℕ) (seq content_type : ℕ) (frag : List ℕ)
    → gcm_unwrap aead key fixed_iv seq content_type frag ≢ fault
unfolding gcm_unwrap
gcm_unwrap-safe aead key fixed_iv seq content_type frag = elim (Bool-cases (ltb (length frag) 24)) [
  | inl short ↦ rw short (λ e. cc)
  | inr long ↦
      let h = ltb→ge (length frag) 24 long in
      let nonce = slice 0 8 frag in
      let c = slice 8 (length frag - 24) frag in
      let tag = slice (length frag - 16) 16 frag in
      elim (Option-cases (
        aead.open_ key (fixed_iv ++ nonce) (gcm_build_aad seq content_type (length frag - 24)) c
          tag)) [
            | inl fails ↦
                rw
                  (
                    long,
                    copy_inside frag 0 8 (omega arith),
                    copy_inside frag 8 (length frag - 24) (omega arith),
                    copy_inside frag (length frag - 16) 16 (omega arith),
                    fails,
                  )
                  (λ e. cc)
            | inr (plain, opens) ↦
                rw
                  (
                    long,
                    copy_inside frag 0 8 (omega arith),
                    copy_inside frag 8 (length frag - 24) (omega arith),
                    copy_inside frag (length frag - 16) 16 (omega arith),
                    opens,
                  )
                  (λ e. cc)
          ]
]
