-- ===== src/Tls/Cert/Safety.antt =====
-- The parsers of the wire forms, and what a certificate's signature covers.
use verimark_linux_driver.Common.{
  ◌>>◌, crypto_invalid_data, >>=-safe, ◌/◌, ◌%◌, ◌≤◌, ◌≡◌, ◌≢◌, sym, ap, ◌∙◌, Bool, true, false,
  not, ◌&&◌, List, [], ◌∷◌, ◌++◌, ◌==◌, length, ok, fault, ◌>>=◌, Error, arith, Bool-cases, inl,
  inr, take, drop, copy, fail_if, ℕ, copy-safe, copy_sized-safe, fail_if-safe, copy_inside, ok-safe,
  take-append, read_inside, length-slice, slice, u16_le, length-append,
}
use verimark_linux_driver.Tls.Cert.{
  Cert, reversed, all_zero, le_field_to_be32, be32_to_le_field, cert_parse, cert_serialize,
  cert_signbytes, pairing_load,
}
use mathlib.Core.List.{append_assoc}
use verimark_linux_driver.Tls.Cert.RoundTrip.{IsCert, length-be32_to_le_field}

le_field_to_be32-safe : (le : List ℕ) → 32 ≤ length le → le_field_to_be32 le ≢ fault
unfolding le_field_to_be32
le_field_to_be32-safe le h =
    fail_if-safe (not (all_zero (drop 32 le))) crypto_invalid_data
      (copy le 0 32 >>= λ low. ok (reversed low))
      λ _. copy-safe le 0 32 (λ low. ok (reversed low)) (omega arith) λ low. ok-safe (reversed low)

fail_if-ok-safe {ℓ} : {A : Type ℓ} (b : Bool) (x : Error) (a : A) → (fail_if b x >> ok a) ≢ fault
fail_if-ok-safe true x a = λ e. cc
fail_if-ok-safe false x a = λ e. cc

pub cert_parse-safe : (buf : List ℕ) → length buf ≡ 400 → cert_parse buf ≢ fault
unfolding cert_parse
cert_parse-safe buf h =
    let (m0, e0) = read_inside buf 0 (omega arith) in
    let (m1, e1) = read_inside buf 1 (omega arith) in
    let (c0, e2) = read_inside buf 2 (omega arith) in
    let (c1, e3) = read_inside buf 3 (omega arith) in
    let (k, e141) = read_inside buf 141 (omega arith) in
    let (lo, e142) = read_inside buf 142 (omega arith) in
    let (hi, e143) = read_inside buf 143 (omega arith) in
    let at_x = copy_inside buf 4 68 (omega arith) in
    let at_y = copy_inside buf 72 68 (omega arith) in
    let at_signature = copy_inside buf 144 256 (omega arith) in
    let x_len = length-slice buf 4 68 (omega arith) in
    let y_len = length-slice buf 72 68 (omega arith) in
    elim (Bool-cases (u16_le m0 m1 == 0x5f3f && u16_le c0 c1 == 23)) [
      | inr bad ↦ rw (e0, e1, e2, e3, bad) (λ e. cc)
      | inl good ↦
          rw (e0, e1, e2, e3, good, at_x, at_y, e141, e142, e143, at_signature)
            (>>=-safe (le_field_to_be32 (slice 4 68 buf)) _ (le_field_to_be32-safe _ (omega arith))
              λ x.
                >>=-safe (le_field_to_be32 (slice 72 68 buf)) _
                  (le_field_to_be32-safe _ (omega arith)) λ y. fail_if-ok-safe _ _ _)
    ]

-- A buffer of 868 bytes is loaded as pairing data, or refused as invalid, without a read outside it.
pub pairing_load-safe : (buf : List ℕ) → length buf ≡ 868 → pairing_load buf ≢ fault
unfolding pairing_load
pairing_load-safe buf h = copy_sized-safe buf 0 68 _ (omega arith) λ s hs.
    >>=-safe (le_field_to_be32 s) _ (le_field_to_be32-safe s (omega arith)) λ _.
      copy_sized-safe buf 68 400 _ (omega arith) λ host hh.
        >>=-safe (cert_parse host) _ (cert_parse-safe host hh) λ _.
          copy_sized-safe buf 468 400 _ (omega arith)
            λ sensor hs'. >>=-safe (cert_parse sensor) _ (cert_parse-safe sensor hs') λ _. ok-safe _

-- What a certificate's signature is made over: the first 142 bytes of its wire form, which hold its
-- type and its public point, as two fields of 68 bytes, and nothing of the signature or its size.
pub cert_signbytes_layout :
    (c : Cert)
    → IsCert c
    → (length (cert_signbytes c) ≡ 142)
      × (cert_signbytes c
          ≡ 0x3f
            ∷ 0x5f
            ∷ 23
            ∷ 0
            ∷ (be32_to_le_field c.pub_x 68
                ++ (be32_to_le_field c.pub_y 68 ++ (0 ∷ c.cert_type ∷ []))))
unfolding cert_signbytes cert_serialize
cert_signbytes_layout c h =
    let x : List ℕ = be32_to_le_field c.pub_x 68 in
    let y : List ℕ = be32_to_le_field c.pub_y 68 in
    let head : List ℕ = 0x3f ∷ 0x5f ∷ 23 ∷ 0 ∷ [] in
    let behind : List ℕ = c.sign_size % 256 ∷ c.sign_size / 256 % 256 ∷ c.signature in
    let last : List ℕ = 0 ∷ c.cert_type ∷ [] in
    let front : List ℕ = head ++ (x ++ (y ++ last)) in
    let size : length front ≡ 142 = omega (
      arith,
      length-append x (y ++ last),
      length-append y last,
      length-be32_to_le_field c.pub_x 68 h.x_size (omega arith),
      length-be32_to_le_field c.pub_y 68 h.y_size (omega arith),
    ) in
    let whole : front ++ behind ≡ head ++ (x ++ (y ++ (last ++ behind))) =
      ap (λ t. head ++ t)
        (append_assoc x (y ++ last) behind ∙ ap (λ t. x ++ t) (append_assoc y last behind)) in
    let cut : take 142 (head ++ (x ++ (y ++ (last ++ behind)))) ≡ front =
      ap (λ t. take 142 t) (sym whole) ∙ take-append front behind 142 size in
    (ap length cut ∙ size, cut)
