-- ===== src/Tls/Crypto.antt =====
-- driver/verimark-tls-crypto.c: the calls of elliptic curves. What they use of OpenSSL is a parameter.
use verimark_linux_driver.Common.{
  ℕ, Bool, not, List, Option, ◌==◌, length, Outcome, ok, ◌>>=◌, ◌>>◌, fail_if, crypto_failed,
}
use verimark_linux_driver.Tls.Gcm.{Aead}
use verimark_linux_driver.Tls.Prf.{Hmac, openssl}

-- AES-256-GCM, HMAC, SHA-256, and three operations on the curve P-256, whose values are the bytes of 32
-- byte numbers. `none` and `false` are calls that OpenSSL fails; `draw` is what ECDSA_sign draws.
pub record Crypto : Type 0 where
  pub aead : Aead
  pub sha384 : Hmac
  pub sha256 : Hmac
  pub digest : (bytes : List ℕ) → List ℕ
  pub on_curve : (x y : List ℕ) → Bool
  pub mul_base : (scalar : List ℕ) → Option (List ℕ × List ℕ)
  pub ecdh : (scalar x y : List ℕ) → Option (List ℕ)
  pub ecdsa : (draw scalar hash : List ℕ) → Option (List ℕ)

module _ (crypto : Crypto) where
  -- verimark_pub_from_priv: EC_POINT_mul, and the coordinates of the point.
  unfoldable pub pub_from_priv : (priv : List ℕ) → Outcome (List ℕ × List ℕ)
  pub_from_priv priv = openssl (crypto.mul_base priv)

  -- verimark_ecdh_premaster: EC_KEY_set_public_key_affine_coordinates refuses a point that is not on
  -- the curve.
  unfoldable pub ecdh_premaster : (eph_priv peer_x peer_y : List ℕ) → Outcome (List ℕ)
  ecdh_premaster eph_priv peer_x peer_y = do
    fail_if (not (crypto.on_curve peer_x peer_y)) crypto_failed
    premaster ← openssl (crypto.ecdh eph_priv peer_x peer_y)
    fail_if (not (length premaster == 32)) crypto_failed
    ok premaster

  -- verimark_ecdsa_sign_prehashed
  unfoldable pub ecdsa_sign_prehashed : (draw priv hash : List ℕ) → Outcome (List ℕ)
  ecdsa_sign_prehashed draw priv hash = openssl (crypto.ecdsa draw priv hash)

  -- verimark_ecdsa_sign: EVP_DigestSign with EVP_sha256 signs the digest of the message.
  unfoldable pub ecdsa_sign : (draw priv msg : List ℕ) → Outcome (List ℕ)
  ecdsa_sign draw priv msg = openssl (crypto.ecdsa draw priv (crypto.digest msg))
