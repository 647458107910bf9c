-- ===== src/Examples/Gcm.antt =====
-- The properties of the encrypted records at concrete inputs.
use verimark_linux_driver.Tls.Gcm.{Aead, gcm_wrap, gcm_unwrap}
use verimark_linux_driver.Common.{
  ◌+◌, ◌≡◌, refl, Option, some, List, [], ◌∷◌, ◌++◌, length, ok, arith, replicate, ℕ,
}
use verimark_linux_driver.Tls.Gcm.RoundTrip.{gcm_unwrap-gcm_wrap}

pub length-copied :
    (plain c tag : List ℕ)
    → ◌≡◌ {A = Option (List ℕ × List ℕ)} (some (plain, replicate 16 0)) (some (c, tag))
    → (length c ≡ length plain) × (length tag ≡ 16)
length-copied plain c tag h = (ground (arith, h), ground (arith, h))

pub open-copied :
    (plain c tag : List ℕ)
    → ◌≡◌ {A = Option (List ℕ × List ℕ)} (some (plain, replicate 16 0)) (some (c, tag))
    → ◌≡◌ {A = Option (List ℕ)} (some c) (some plain)
open-copied plain c tag h = ground (arith, h)

-- A cipher with the interface's laws, which encrypts nothing.
abbrev pub copied : Aead
copied = record {
  seal = λ key iv aad plain. some (plain, replicate 16 0);
  open_ = λ key iv aad c tag. some c;
  length-seal = λ key iv aad plain c tag h. length-copied plain c tag h;
  open-seal = λ key iv aad plain c tag h. open-copied plain c tag h;
}

abbrev nonce8 : List ℕ
nonce8 = replicate 8 5

abbrev record_bytes : List ℕ
record_bytes = nonce8 ++ ((0x99 ∷ 0x01 ∷ []) ++ replicate 16 0)

gcm_wrap-copied :
    gcm_wrap copied [] (replicate 4 1) 7 0x17 nonce8 (0x99 ∷ 0x01 ∷ []) ≡ ok record_bytes
unfolding gcm_wrap
gcm_wrap-copied = refl

gcm_unwrap-gcm_wrap_example :
    (26 ≡ 24 + 2)
    × (gcm_unwrap copied [] (replicate 4 1) 7 0x17 record_bytes ≡ ok (0x99 ∷ 0x01 ∷ []))
gcm_unwrap-gcm_wrap_example =
    gcm_unwrap-gcm_wrap copied [] (replicate 4 1) 7 0x17 nonce8 (0x99 ∷ 0x01 ∷ []) record_bytes refl
      gcm_wrap-copied
