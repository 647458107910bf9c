-- ===== src/Tls/Pairing/Fresh.antt =====
-- What pairing with the sensor returns.
use verimark_linux_driver.Common.{
  ℕ, ◌≡◌, not, ◌&&◌, some, List, ◌∷◌, ltb, ◌==◌, drop, u16_le, length, Outcome, ok, fail_if, read,
  copy, crypto_invalid_data, refl, ap, sym, ◌∙◌, arith, Action, go_on-eq-ok, >>=-eq-ok, copy-eq-ok,
  ok_eq, fail_if-eq-ok, ltb→ge,
}
use verimark_linux_driver.Tls.Cert.{Cert, Pairing, reversed, cert_parse, le_field_to_be32, all_zero}
use verimark_linux_driver.Tls.Cert.RoundTrip.{IsCert, IsPairing, length-reversed}
use verimark_linux_driver.Tls.Crypto.{Crypto}
use verimark_linux_driver.Tls.Pairing.{
  KeyPair, ec_keygen, build_host_cert, paired, pairing_do, is_paired_reply,
}

length-le_field_to_be32 : (le be : List ℕ) → le_field_to_be32 le ≡ ok be → length be ≡ 32
unfolding le_field_to_be32
length-le_field_to_be32 le be h =
    let (u, small, h1) =
      >>=-eq-ok (fail_if (not (all_zero (drop 32 le))) crypto_invalid_data) _ h in
    let (low, cut, h2) = >>=-eq-ok (copy le 0 32) _ h1 in
    let same : reversed low ≡ be = ground (arith, h2) in
    ap length (sym same) ∙ (length-reversed low ∙ (copy-eq-ok le 0 32 cut).1)

-- A certificate that is parsed has the sizes of its arrays, and a signature's size of at most 256.
pub cert_parse-IsCert : (buf : List ℕ) (cert : Cert) → cert_parse buf ≡ ok cert → IsCert cert
unfolding cert_parse
cert_parse-IsCert buf cert h =
    let (m_lo, r0, h1) = >>=-eq-ok (read buf 0) _ h in
    let (m_hi, r1, h2) = >>=-eq-ok (read buf 1) _ h1 in
    let (c_lo, r2, h3) = >>=-eq-ok (read buf 2) _ h2 in
    let (c_hi, r3, h4) = >>=-eq-ok (read buf 3) _ h3 in
    let (u, magic, h5) =
      >>=-eq-ok
        (fail_if (not (u16_le m_lo m_hi == 0x5f3f && u16_le c_lo c_hi == 23)) crypto_invalid_data) _
        h4 in
    let (x_field, rx, h6) = >>=-eq-ok (copy buf 4 68) _ h5 in
    let (pub_x, px, h7) = >>=-eq-ok (le_field_to_be32 x_field) _ h6 in
    let (y_field, ry, h8) = >>=-eq-ok (copy buf 72 68) _ h7 in
    let (pub_y, py, h9) = >>=-eq-ok (le_field_to_be32 y_field) _ h8 in
    let (type_, r4, h10) = >>=-eq-ok (read buf 141) _ h9 in
    let (s_lo, r5, h11) = >>=-eq-ok (read buf 142) _ h10 in
    let (s_hi, r6, h12) = >>=-eq-ok (read buf 143) _ h11 in
    let (v, fits, h13) =
      >>=-eq-ok (fail_if (ltb 256 (u16_le s_lo s_hi)) crypto_invalid_data) _ h12 in
    let (signature, rs, h14) = >>=-eq-ok (copy buf 144 256) _ h13 in
    let parsed : Cert = record {
      cert_type = type_;
      pub_x = pub_x;
      pub_y = pub_y;
      sign_size = u16_le s_lo s_hi;
      signature = signature;
    } in
    let same : parsed ≡ cert = ok_eq parsed cert h14 in
    rw⁻¹ same (record {
      x_size = length-le_field_to_be32 x_field pub_x px;
      y_size = length-le_field_to_be32 y_field pub_y py;
      signature_size = (copy-eq-ok buf 144 256 rs).1;
      sign_size_le =
          ltb→ge 256 (u16_le s_lo s_hi)
            (fail_if-eq-ok (ltb 256 (u16_le s_lo s_hi)) crypto_invalid_data fits);
    })

paired-IsPairing :
    (host_priv resp : List ℕ) (pd : Pairing)
    → length host_priv ≡ 32
    → paired host_priv resp ≡ ok pd
    → (pd.priv_scalar ≡ host_priv) × IsPairing pd
unfolding paired
paired-IsPairing host_priv resp pd size h =
    let (u, form, h1) = >>=-eq-ok (fail_if (not (is_paired_reply resp)) crypto_invalid_data) _ h in
    let (host_buf, r0, h2) = >>=-eq-ok (copy resp 2 400) _ h1 in
    let (host, p0, h3) = >>=-eq-ok (cert_parse host_buf) _ h2 in
    let (sensor_buf, r1, h4) = >>=-eq-ok (copy resp 402 400) _ h3 in
    let (sensor, p1, h5) = >>=-eq-ok (cert_parse sensor_buf) _ h4 in
    let made : Pairing = record {
      priv_scalar = host_priv;
      host_cert = host;
      sensor_cert = sensor;
    } in
    let same : made ≡ pd = ok_eq made pd h5 in
    rw⁻¹ same (
      refl,
      record {
        scalar_size = size;
        host = cert_parse-IsCert host_buf host p0;
        sensor = cert_parse-IsCert sensor_buf sensor p1;
      },
    )

-- Pairing that succeeds keeps the scalar that was drawn, and has the sizes of its arrays, if the scalar has
-- 32 bytes.
pub pairing_do-IsPairing {ℓ} :
    (crypto : Crypto) {W : Type ℓ} (io : List ℕ → Action W (List ℕ)) (pair : KeyPair)
    (draw : List ℕ) (w : W) (pd : Pairing)
    → length pair.priv ≡ 32
    → (pairing_do crypto io (some pair) draw w).1 ≡ ok pd
    → (pd.priv_scalar ≡ pair.priv) × IsPairing pd
unfolding pairing_do ec_keygen
pairing_do-IsPairing crypto {W = W} io pair draw w pd size h =
    let snd : W × Outcome Pairing → Outcome Pairing = λ r. r.1 in
    let (host, built, e1) = go_on-eq-ok (w, build_host_cert crypto draw pair.priv) _ h in
    let h1 = ap snd (sym e1) ∙ h in
    let (resp, replied, e2) = go_on-eq-ok (io (0x93 ∷ host.1) w) _ h1 in
    paired-IsPairing pair.priv resp pd size (ap snd (sym e2) ∙ h1)
