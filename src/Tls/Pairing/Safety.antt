-- ===== src/Tls/Pairing/Safety.antt =====
-- Pairing reads inside the sensor's reply.
use verimark_linux_driver.Common.{
  ℕ, ◌≡◌, ◌≢◌, true, Option, List, [], ◌∷◌, ltb, replicate, length, fault, crypto_invalid_data,
  arith, Bool-cases, inl, inr, Action, go_on-safe, >>=-safe, fail_if-safe, copy_sized-safe,
}
use verimark_linux_driver.Tls.Cert.{Cert, cert_parse, cert_signbytes}
use verimark_linux_driver.Tls.Cert.Safety.{cert_parse-safe}
use verimark_linux_driver.Tls.Prf.{Hmac, prf}
use verimark_linux_driver.Tls.Prf.Expansion.{openssl-ne-fault, prf-safe}
use verimark_linux_driver.Tls.Crypto.{Crypto, pub_from_priv, ecdsa_sign}
use verimark_linux_driver.Tls.Pairing.{
  KeyPair, hs_secret, hs_label, hs_seed, hs_key_scalar, ec_keygen, build_host_cert, is_paired_reply,
  paired, pairing_do,
}

hs_key_scalar-safe : (sha256 : Hmac) → hs_key_scalar sha256 ≢ fault
unfolding hs_key_scalar
hs_key_scalar-safe sha256 =
    >>=-safe (prf sha256 hs_secret hs_label hs_seed 32) _
      (prf-safe sha256 hs_secret hs_label hs_seed 32) λ made e. cc

build_host_cert-safe :
    (crypto : Crypto) (draw priv : List ℕ) → build_host_cert crypto draw priv ≢ fault
unfolding build_host_cert pub_from_priv ecdsa_sign
build_host_cert-safe crypto draw priv =
    >>=-safe (pub_from_priv crypto priv) _ (openssl-ne-fault (crypto.mul_base priv)) λ point.
      >>=-safe (hs_key_scalar crypto.sha256) _ (hs_key_scalar-safe crypto.sha256) λ hs.
        let cert : Cert = record {
          cert_type = 0;
          pub_x = point.0;
          pub_y = point.1;
          sign_size = 0;
          signature = replicate 256 0;
        } in
        >>=-safe (ecdsa_sign crypto draw hs (cert_signbytes cert)) _
          (openssl-ne-fault (crypto.ecdsa draw hs (crypto.digest (cert_signbytes cert))))
          λ sig. fail_if-safe (ltb 256 (length sig)) crypto_invalid_data _ λ _ e. cc

length-is_paired_reply : (resp : List ℕ) → is_paired_reply resp ≡ true → length resp ≡ 802
unfolding is_paired_reply
length-is_paired_reply [] h = ground (arith, h)
length-is_paired_reply (a ∷ []) h = ground (arith, h)
length-is_paired_reply (a ∷ b ∷ rest) h = ground (arith, h)

paired-safe : (host_priv resp : List ℕ) → paired host_priv resp ≢ fault
unfolding paired
paired-safe host_priv resp = elim (Bool-cases (is_paired_reply resp)) [
  | inr other ↦ rw other (λ e. cc)
  | inl form ↦
      let size = length-is_paired_reply resp form in
      rw form (
        copy_sized-safe resp 2 400 _ (omega (arith, size)) λ host_buf n.
          >>=-safe (cert_parse host_buf) _ (cert_parse-safe host_buf n) λ host.
            copy_sized-safe resp 402 400 _ (omega (arith, size)) λ sensor_buf m.
              >>=-safe (cert_parse sensor_buf) _ (cert_parse-safe sensor_buf m) λ sensor e. cc)
]

pub pairing_do-safe {ℓ} :
    {W : Type ℓ} (crypto : Crypto) (io : List ℕ → Action W (List ℕ)) (generated : Option KeyPair)
    (draw : List ℕ) (w : W)
    → ((request : List ℕ) (world : W) → (io request world).1 ≢ fault)
    → (pairing_do crypto io generated draw w).1 ≢ fault
unfolding pairing_do ec_keygen
pairing_do-safe crypto io generated draw w h =
    go_on-safe (w, ec_keygen generated) _ (openssl-ne-fault generated)
      λ pair _.
        go_on-safe (w, build_host_cert crypto draw pair.priv) _
          (build_host_cert-safe crypto draw pair.priv)
          λ host _.
            go_on-safe (io (0x93 ∷ host.1) w) _ (h (0x93 ∷ host.1) w)
              λ resp _. paired-safe pair.priv resp
