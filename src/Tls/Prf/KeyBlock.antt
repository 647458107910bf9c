-- ===== src/Tls/Prf/KeyBlock.antt =====
-- The keys of both directions are cut from one key block.
use verimark_linux_driver.Common.{
  ℕ, ◌≡◌, ◌≢◌, List, ◌++◌, length, take, drop, ok, fault, refl, sym, ap, ◌∙◌, arith, >>=-eq-ok,
  length-drop, take_all, slice, copy_inside, take-append-drop, drop-drop, length-slice, ok-safe,
  Outcome-cases, inl, inr, Error, err,
}
use verimark_linux_driver.Tls.Prf.{Hmac, prf, derive_keys, Keys, key_expansion_label}
use verimark_linux_driver.Tls.Prf.Expansion.{length-prf, prf-safe}

pub record IsKeys (keys : Keys) : Type 0 where
  pub encr_key_size : length keys.encr_key ≡ 32
  pub decr_key_size : length keys.decr_key ≡ 32
  pub encr_iv_size : length keys.encr_iv ≡ 4
  pub decr_iv_size : length keys.decr_iv ≡ 4

-- The four parts of 72 bytes.
key_block : List ℕ → Keys
key_block block = record {
  encr_key = slice 0 32 block;
  decr_key = slice 32 32 block;
  encr_iv = slice 64 4 block;
  decr_iv = slice 68 4 block;
}

joined-key_block :
    (block : List ℕ)
    → length block ≡ 72
    → (key_block block).encr_key
        ++ ((key_block block).decr_key ++ ((key_block block).encr_iv ++ (key_block block).decr_iv))
      ≡ block
unfolding key_block
joined-key_block block h =
    let iv : take 4 (drop 64 block) ++ take 4 (drop 68 block) ≡ drop 64 block =
      rw
        (
          take_all (drop 68 block) 4 (omega (arith, length-drop 68 block, h)),
          sym (drop-drop 4 64 block),
        )
        (take-append-drop 4 (drop 64 block)) in
    let key : take 32 (drop 32 block) ++ drop 64 block ≡ drop 32 block =
      rw (sym (drop-drop 32 32 block)) (take-append-drop 32 (drop 32 block)) in
    rw (iv, key) (take-append-drop 32 block)

key_block-IsKeys : (block : List ℕ) → length block ≡ 72 → IsKeys (key_block block)
unfolding key_block
key_block-IsKeys block h = record {
  encr_key_size = length-slice block 0 32 (omega (arith, h));
  decr_key_size = length-slice block 32 32 (omega (arith, h));
  encr_iv_size = length-slice block 64 4 (omega (arith, h));
  decr_iv_size = length-slice block 68 4 (omega (arith, h));
}

derive_keys-block :
    (sha384 : Hmac) (master_secret client_random server_random block : List ℕ)
    → prf sha384 master_secret key_expansion_label (client_random ++ server_random) 72 ≡ ok block
    → derive_keys sha384 master_secret client_random server_random ≡ ok (key_block block)
unfolding derive_keys key_block
derive_keys-block sha384 ms cr sr block h =
    let size = length-prf sha384 ms key_expansion_label (cr ++ sr) 72 block h in
    rw
      (
        h,
        copy_inside block 0 32 (omega (arith, size)),
        copy_inside block 32 32 (omega (arith, size)),
        copy_inside block 64 4 (omega (arith, size)),
        copy_inside block 68 4 (omega (arith, size)),
      )
      refl

derive_keys_inv :
    (sha384 : Hmac) (master_secret client_random server_random : List ℕ) (keys : Keys)
    → derive_keys sha384 master_secret client_random server_random ≡ ok keys
    → (block : List ℕ) × (prf sha384 master_secret key_expansion_label
          (client_random ++ server_random)
          72
        ≡ ok block)
unfolding derive_keys
derive_keys_inv sha384 ms cr sr keys h =
    let (block, made, behind) = >>=-eq-ok (prf sha384 ms key_expansion_label (cr ++ sr) 72) _ h in
    (block, made)

-- The keys and the ivs of both directions, in the order of RFC 5246, are the 72 bytes that the key
-- expansion makes from the master secret, the client's and then the server's random; each key has
-- 32 bytes, and each iv 4.
pub derive_keys-prf :
    (sha384 : Hmac) (master_secret client_random server_random : List ℕ) (keys : Keys)
    → derive_keys sha384 master_secret client_random server_random ≡ ok keys
    → (prf sha384 master_secret key_expansion_label (client_random ++ server_random) 72
        ≡ ok (keys.encr_key ++ (keys.decr_key ++ (keys.encr_iv ++ keys.decr_iv))))
      × IsKeys keys
derive_keys-prf sha384 ms cr sr keys h =
    let (block, made) = derive_keys_inv sha384 ms cr sr keys h in
    let size = length-prf sha384 ms key_expansion_label (cr ++ sr) 72 block made in
    let same : ok (key_block block) ≡ ok keys =
      sym (derive_keys-block sha384 ms cr sr block made) ∙ h in
    let e : key_block block ≡ keys = cc in
    rw⁻¹ e (made ∙ ap ok (sym (joined-key_block block size)), key_block-IsKeys block size)

derive_keys_fails :
    (sha384 : Hmac) (ms cr sr : List ℕ) (x : Error)
    → prf sha384 ms key_expansion_label (cr ++ sr) 72 ≡ err x
    → derive_keys sha384 ms cr sr ≢ fault
unfolding derive_keys
derive_keys_fails sha384 ms cr sr x fails = rw fails (λ e. cc)

pub derive_keys-safe :
    (sha384 : Hmac) (master_secret client_random server_random : List ℕ)
    → derive_keys sha384 master_secret client_random server_random ≢ fault
derive_keys-safe sha384 ms cr sr =
    elim (Outcome-cases (prf sha384 ms key_expansion_label (cr ++ sr) 72)) [
      | inl (block, made) ↦
          rw (derive_keys-block sha384 ms cr sr block made) (ok-safe (key_block block))
      | inr (inl (x, fails)) ↦ derive_keys_fails sha384 ms cr sr x fails
      | inr (inr faults) ↦ absurd (prf-safe sha384 ms key_expansion_label (cr ++ sr) 72 faults)
    ]
