-- ===== src/Tls/Cert.antt =====
-- driver/verimark-tls-crypto.c: the wire forms of the certificates and of the pairing data. An array
-- of a fixed size is the list of its bytes.
pub mod RoundTrip
pub mod Safety
use verimark_linux_driver.Common.{
  crypto_invalid_data, u16_le, ◌>>◌, ◌-◌, zero, suc, ◌+◌, ◌*◌, ◌/◌, ◌%◌, ◌^◌, ◌≤◌, ◌<◌, ◌≡◌, ◌≢◌,
  refl, sym, ap, ◌∙◌, Bool, true, false, not, ◌&&◌, ◌||◌, Option, none, some, List, [], ◌∷◌, ◌++◌,
  ltb, leb, ◌==◌, if◌then◌else◌, length, All, Outcome, ok, err, fault, ◌>>=◌, Error, arith,
  Bool-cases, Option-cases, inl, inr, ◌⊎◌, ==→eq, >>=-eq-ok, map-safe, take, drop, replicate, read,
  copy, fail_if, proto, retry, data_invalid, ℕ,
}

-- VerimarkCert
pub record Cert : Type 0 where
  pub cert_type : ℕ
  pub pub_x : List ℕ
  pub pub_y : List ℕ
  pub sign_size : ℕ
  pub signature : List ℕ

-- VerimarkPairing
pub record Pairing : Type 0 where
  pub priv_scalar : List ℕ
  pub host_cert : Cert
  pub sensor_cert : Cert

-- The loops `out[i] = in[31 - i]` over 32 bytes
unfoldable pub reversed : List ℕ → List ℕ
reversed [] = []
reversed (b ∷ bs) = reversed bs ++ b ∷ []

-- The first loop of le_field_to_be32, over the bytes from 32 on
unfoldable pub all_zero : List ℕ → Bool
all_zero [] = true
all_zero (b ∷ bs) = b == 0 && all_zero bs

-- le_field_to_be32, on the field
unfoldable pub le_field_to_be32 : List ℕ → Outcome (List ℕ)
unfolding all_zero
le_field_to_be32 le = do
  fail_if (not (all_zero (drop 32 le))) crypto_invalid_data
  low ← copy le 0 32
  ok (reversed low)

-- be32_to_le_field
unfoldable pub be32_to_le_field : List ℕ → ℕ → List ℕ
be32_to_le_field be field_len = reversed be ++ replicate (field_len - 32) 0

unfoldable pub cert_parse : List ℕ → Outcome Cert
cert_parse buf = do
  magic_lo ← read buf 0
  magic_hi ← read buf 1
  curve_lo ← read buf 2
  curve_hi ← read buf 3
  fail_if (not (u16_le magic_lo magic_hi == 0x5f3f && u16_le curve_lo curve_hi == 23))
      crypto_invalid_data
  x_field ← copy buf 4 68
  pub_x ← le_field_to_be32 x_field
  y_field ← copy buf 72 68
  pub_y ← le_field_to_be32 y_field
  cert_type ← read buf 141
  size_lo ← read buf 142
  size_hi ← read buf 143
  fail_if (ltb 256 (u16_le size_lo size_hi)) crypto_invalid_data
  signature ← copy buf 144 256
  ok (record {
    cert_type = cert_type;
    pub_x = pub_x;
    pub_y = pub_y;
    sign_size = u16_le size_lo size_hi;
    signature = signature;
  })

-- cert_serialize; the byte at 140 is padding.
unfoldable pub cert_serialize : Cert → List ℕ
cert_serialize cert =
    0x3f
    ∷ 0x5f
    ∷ 23
    ∷ 0
    ∷ (be32_to_le_field cert.pub_x 68
        ++ (be32_to_le_field cert.pub_y 68
            ++ (0
                ∷ cert.cert_type
                ∷ cert.sign_size % 256
                ∷ cert.sign_size / 256 % 256
                ∷ cert.signature)))

unfoldable pub cert_signbytes : Cert → List ℕ
cert_signbytes cert = take 142 (cert_serialize cert)

unfoldable pub pairing_load : List ℕ → Outcome Pairing
pairing_load buf = do
  scalar_field ← copy buf 0 0x44
  priv_scalar ← le_field_to_be32 scalar_field
  host_buf ← copy buf 0x44 400
  host_cert ← cert_parse host_buf
  sensor_buf ← copy buf (0x44 + 400) 400
  sensor_cert ← cert_parse sensor_buf
  ok (record { priv_scalar = priv_scalar; host_cert = host_cert; sensor_cert = sensor_cert })

unfoldable pub pairing_save : Pairing → List ℕ
pairing_save pd =
    be32_to_le_field pd.priv_scalar 0x44
    ++ (cert_serialize pd.host_cert ++ cert_serialize pd.sensor_cert)
