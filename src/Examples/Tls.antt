-- ===== src/Examples/Tls.antt =====
-- The properties of the certificates at concrete inputs.
use verimark_linux_driver.Common.{
  ◌≡◌, ◌≢◌, refl, [], ◌∷◌, ◌++◌, length, ok, fault, arith, replicate,
}
use verimark_linux_driver.Tls.Cert.{
  Cert, Pairing, be32_to_le_field, cert_signbytes, pairing_load, pairing_save,
}
use verimark_linux_driver.Tls.Cert.RoundTrip.{IsCert, pairing_load-pairing_save}
use verimark_linux_driver.Tls.Cert.Safety.{pairing_load-safe, cert_signbytes_layout}

abbrev pub host : Cert
host = record {
  cert_type = 0;
  pub_x = 1 ∷ replicate 31 2;
  pub_y = 3 ∷ replicate 31 4;
  sign_size = 71;
  signature = replicate 71 5 ++ replicate 185 0;
}

abbrev pub sensor : Cert
sensor = record {
  cert_type = 1;
  pub_x = replicate 32 9;
  pub_y = replicate 32 8;
  sign_size = 256;
  signature = replicate 256 7;
}

abbrev pairing : Pairing
pairing = record { priv_scalar = replicate 31 0 ++ 6 ∷ []; host_cert = host; sensor_cert = sensor }

host_IsCert : IsCert host
host_IsCert = record {
  x_size = refl;
  y_size = refl;
  signature_size = refl;
  sign_size_le = omega arith;
}

sensor_IsCert : IsCert sensor
sensor_IsCert = record {
  x_size = refl;
  y_size = refl;
  signature_size = refl;
  sign_size_le = omega arith;
}

pairing_load-pairing_save_example :
    (length (pairing_save pairing) ≡ 868) × (pairing_load (pairing_save pairing) ≡ ok pairing)
pairing_load-pairing_save_example =
    pairing_load-pairing_save pairing
      (record { scalar_size = refl; host = host_IsCert; sensor = sensor_IsCert })

pairing_load-safe_example : pairing_load (replicate 868 1) ≢ fault
pairing_load-safe_example = pairing_load-safe (replicate 868 1) refl

cert_signbytes_layout_example :
    (length (cert_signbytes host) ≡ 142)
    × (cert_signbytes host
        ≡ 0x3f
          ∷ 0x5f
          ∷ 23
          ∷ 0
          ∷ (be32_to_le_field host.pub_x 68 ++ (be32_to_le_field host.pub_y 68 ++ (0 ∷ 0 ∷ []))))
cert_signbytes_layout_example = cert_signbytes_layout host host_IsCert
