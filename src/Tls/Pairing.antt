-- ===== src/Tls/Pairing.antt =====
-- driver/verimark-pairing.c: the pairing with the sensor, and the file that keeps it. Text is the list of its
-- bytes.
pub mod Files
pub mod Fresh
pub mod Safety
use verimark_linux_driver.Common.{
  ℕ, ◌+◌, ◌-◌, ◌%◌, ◌^◌, Bool, true, false, not, ◌&&◌, Option, none, some, List, [], ◌∷◌, ◌++◌, ltb,
  ◌==◌, length, replicate, Outcome, ok, err, fault, ◌>>=◌, ◌>>◌, fail_if, read, copy,
  crypto_invalid_data, file_error, ◌≡◌, Action, go_on,
}
use verimark_linux_driver.Tls.Cert.{
  Cert, Pairing, reversed, cert_parse, cert_serialize, cert_signbytes, pairing_load, pairing_save,
}
use verimark_linux_driver.Tls.Prf.{Hmac, openssl, prf}
use verimark_linux_driver.Tls.Crypto.{Crypto, pub_from_priv, ecdsa_sign}

abbrev pub hs_secret : List ℕ
hs_secret =
    0x71 ∷ 0x7c ∷ 0xd7 ∷ 0x2d ∷ 0x09 ∷ 0x62 ∷ 0xbc ∷ 0x4a ∷ 0x28 ∷ 0x46 ∷ 0x13 ∷ 0x8d ∷ 0xbb ∷ 0x2c
    ∷ 0x24 ∷ 0x19 ∷ []

abbrev pub hs_seed : List ℕ
hs_seed =
    0x25 ∷ 0x12 ∷ 0xa7 ∷ 0x64 ∷ 0x07 ∷ 0x06 ∷ 0x5f ∷ 0x38 ∷ 0x38 ∷ 0x46 ∷ 0x13 ∷ 0x9d ∷ 0x4b ∷ 0xec
    ∷ 0x20 ∷ 0x33 ∷ 0xaa ∷ 0xaa ∷ []

-- "HS_KEY_PAIR_GEN"
abbrev pub hs_label : List ℕ
hs_label =
    0x48 ∷ 0x53 ∷ 0x5f ∷ 0x4b ∷ 0x45 ∷ 0x59 ∷ 0x5f ∷ 0x50 ∷ 0x41 ∷ 0x49 ∷ 0x52 ∷ 0x5f ∷ 0x47 ∷ 0x45
    ∷ 0x4e ∷ []

-- hs_key_scalar: the loop over 32 bytes reverses them.
unfoldable pub hs_key_scalar : (sha256 : Hmac) → Outcome (List ℕ)
hs_key_scalar sha256 = do made ← prf sha256 hs_secret hs_label hs_seed 32; ok (reversed made)

-- What EC_KEY_generate_key draws: the scalar and the coordinates, each of 32 bytes.
pub record KeyPair : Type 0 where
  pub priv : List ℕ
  pub pub_x : List ℕ
  pub pub_y : List ℕ

unfoldable pub ec_keygen : (generated : Option KeyPair) → Outcome KeyPair
ec_keygen generated = openssl generated

module _ (crypto : Crypto) where
  -- build_host_cert, with the bytes that it serializes.
  unfoldable pub build_host_cert : (draw priv : List ℕ) → Outcome (Cert × List ℕ)
  unfolding hs_key_scalar
  build_host_cert draw priv = do
    point ← pub_from_priv crypto priv
    let cert : Cert = record {
      cert_type = 0;
      pub_x = point.0;
      pub_y = point.1;
      sign_size = 0;
      signature = replicate 256 0;
    }
    hs ← hs_key_scalar crypto.sha256
    sig ← ecdsa_sign crypto draw hs (cert_signbytes cert)
    fail_if (ltb 256 (length sig)) crypto_invalid_data
    let signed : Cert = record cert {
      signature = sig ++ replicate (256 - length sig) 0;
      sign_size = length sig % 2 ^ 16;
    }
    ok (signed, cert_serialize signed)

-- `resp_len == 802 && resp[0] == 0x00 && resp[1] == 0x00`
unfoldable pub is_paired_reply : (resp : List ℕ) → Bool
is_paired_reply (a ∷ b ∷ rest) = length (a ∷ b ∷ rest) == 802 && (a == 0x00 && b == 0x00)
is_paired_reply _ = false

-- verimark_pairing_do from the reply on
unfoldable pub paired : (host_priv resp : List ℕ) → Outcome Pairing
unfolding is_paired_reply
paired host_priv resp = do
  fail_if (not (is_paired_reply resp)) crypto_invalid_data
  host_buf ← copy resp 2 400
  host_cert ← cert_parse host_buf
  sensor_buf ← copy resp 402 400
  sensor_cert ← cert_parse sensor_buf
  ok (record { priv_scalar = host_priv; host_cert = host_cert; sensor_cert = sensor_cert })

-- verimark_pairing_do over the callback VerimarkPairIo
unfoldable pub pairing_do {ℓ} :
    {W : Type ℓ}
    → Crypto
    → (io : List ℕ → Action W (List ℕ)) (generated : Option KeyPair) (draw : List ℕ)
    → Action W Pairing
unfolding ec_keygen build_host_cert paired
pairing_do crypto io generated draw w =
    go_on (w, ec_keygen generated)
      λ pair w1.
        go_on (w1, build_host_cert crypto draw pair.priv)
          λ host w2. go_on (io (0x93 ∷ host.1) w2) λ resp w3. (w3, paired pair.priv resp)
