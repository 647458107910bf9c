-- ===== src/Tls/Cert/RoundTrip.antt =====
-- What is saved is loaded again.
use verimark_linux_driver.Common.{
  u16_le, zero, suc, ◌+◌, ◌/◌, ◌%◌, ◌≤◌, ◌≡◌, refl, ap, ◌∙◌, true, false, List, [], ◌∷◌, ◌++◌, ltb,
  length, ok, arith, drop, replicate, read, copy, ℕ, length-append, drop-append, copy-front,
  copy-at, copy-skip, read-skip, copy_all, ◌-◌,
}
use verimark_linux_driver.Tls.Cert.{
  Cert, Pairing, reversed, all_zero, le_field_to_be32, be32_to_le_field, cert_parse, cert_serialize,
  pairing_load, pairing_save,
}

-- The sizes of the arrays of a VerimarkCert, and the signature's within it.
pub record IsCert (c : Cert) : Type 0 where
  pub x_size : length c.pub_x ≡ 32
  pub y_size : length c.pub_y ≡ 32
  pub signature_size : length c.signature ≡ 256
  pub sign_size_le : c.sign_size ≤ 256

pub record IsPairing (pd : Pairing) : Type 0 where
  pub scalar_size : length pd.priv_scalar ≡ 32
  pub host : IsCert pd.host_cert
  pub sensor : IsCert pd.sensor_cert

reversed-append : (xs : List ℕ) (b : ℕ) → reversed (xs ++ b ∷ []) ≡ b ∷ reversed xs
unfolding reversed
reversed-append [] b = refl
reversed-append (x ∷ xs) b = ap (λ r. r ++ x ∷ []) (reversed-append xs b)

reversed-reversed : (xs : List ℕ) → reversed (reversed xs) ≡ xs
unfolding reversed
reversed-reversed [] = refl
reversed-reversed (x ∷ xs) =
    reversed-append (reversed xs) x ∙ ap (λ r. x ∷ r) (reversed-reversed xs)

pub length-reversed : (xs : List ℕ) → length (reversed xs) ≡ length xs
unfolding reversed
length-reversed [] = refl
length-reversed (x ∷ xs) = omega (arith, length-append (reversed xs) (x ∷ []), length-reversed xs)

length-zeros : (n : ℕ) → length {A = ℕ} (replicate n 0) ≡ n
length-zeros zero = refl
length-zeros (suc n) = omega (arith, length-zeros n)

all_zero-replicate : (n : ℕ) → all_zero (replicate n 0) ≡ true
unfolding all_zero
all_zero-replicate zero = refl
all_zero-replicate (suc n) = ground (arith, all_zero-replicate n)

pub length-be32_to_le_field :
    (be : List ℕ) (n : ℕ) → length be ≡ 32 → 32 ≤ n → length (be32_to_le_field be n) ≡ n
unfolding be32_to_le_field
length-be32_to_le_field be n h p = omega (
  arith,
  length-append (reversed be) (replicate (n - 32) 0),
  length-reversed be,
  length-zeros (n - 32),
)

le_field_to_be32-be32_to_le_field :
    (be : List ℕ) (n : ℕ) → length be ≡ 32 → le_field_to_be32 (be32_to_le_field be n) ≡ ok be
unfolding le_field_to_be32 be32_to_le_field
le_field_to_be32-be32_to_le_field be n h =
    let size : length (reversed be) ≡ 32 = length-reversed be ∙ h in
    let rest = replicate (n - 32) 0 in
    let zeros : drop 32 (reversed be ++ rest) ≡ rest = drop-append (reversed be) rest 32 size in
    rw (zeros, all_zero-replicate (n - 32), copy-front (reversed be) rest 32 size)
      (ap ok (reversed-reversed be))

read-behind :
    (head x y tail : List ℕ) (i : ℕ)
    → length head ≡ 4
    → length x ≡ 68
    → length y ≡ 68
    → read (head ++ (x ++ (y ++ tail))) (140 + i) ≡ read tail i
read-behind head x y tail i h hx hy =
    read-skip head (x ++ (y ++ tail)) 4 (140 + i) h (omega arith)
    ∙ read-skip x (y ++ tail) 68 (140 + i - 4) hx (omega arith)
    ∙ read-skip y tail 68 (140 + i - 4 - 68) hy (omega arith)
    ∙ ap (λ k. read tail k) (omega arith)

pub length-cert_serialize : (c : Cert) → IsCert c → length (cert_serialize c) ≡ 400
unfolding cert_serialize
length-cert_serialize c h =
    let x = be32_to_le_field c.pub_x 68 in
    let y = be32_to_le_field c.pub_y 68 in
    let tail = 0 ∷ c.cert_type ∷ c.sign_size % 256 ∷ c.sign_size / 256 % 256 ∷ c.signature in
    omega (
      arith,
      length-append x (y ++ tail),
      length-append y tail,
      length-be32_to_le_field c.pub_x 68 h.x_size (omega arith),
      length-be32_to_le_field c.pub_y 68 h.y_size (omega arith),
      h.signature_size,
    )

-- A certificate that is serialized is parsed into the same certificate, if its arrays have their
-- sizes and its signature's size is at most 256.
pub cert_parse-cert_serialize : (c : Cert) → IsCert c → cert_parse (cert_serialize c) ≡ ok c
unfolding cert_parse cert_serialize
cert_parse-cert_serialize c h =
    let x = be32_to_le_field c.pub_x 68 in
    let y = be32_to_le_field c.pub_y 68 in
    let lo = c.sign_size % 256 in
    let hi = c.sign_size / 256 % 256 in
    let tail : List ℕ = 0 ∷ c.cert_type ∷ lo ∷ hi ∷ c.signature in
    let head : List ℕ = 0x3f ∷ 0x5f ∷ 23 ∷ 0 ∷ [] in
    let x_len : length x ≡ 68 = length-be32_to_le_field c.pub_x 68 h.x_size (omega arith) in
    let y_len : length y ≡ 68 = length-be32_to_le_field c.pub_y 68 h.y_size (omega arith) in
    let buf : List ℕ = head ++ (x ++ (y ++ tail)) in
    let at_x : copy buf 4 68 ≡ ok x = copy-at head x (y ++ tail) 4 68 refl x_len in
    let at_y : copy buf 72 68 ≡ ok y =
      copy-skip head (x ++ (y ++ tail)) 4 72 68 refl (omega arith)
      ∙ copy-at x y tail 68 68 x_len y_len in
    let at_signature : copy buf 144 256 ≡ ok c.signature =
      copy-skip head (x ++ (y ++ tail)) 4 144 256 refl (omega arith)
      ∙ copy-skip x (y ++ tail) 68 140 256 x_len (omega arith)
      ∙ copy-skip y tail 68 72 256 y_len (omega arith)
      ∙ copy-skip (0 ∷ c.cert_type ∷ lo ∷ hi ∷ []) c.signature 4 4 256 refl (omega arith)
      ∙ copy_all c.signature 256 h.signature_size in
    let at_tail : (i : ℕ) → read buf (140 + i) ≡ read tail i =
      λ i. read-behind head x y tail i refl x_len y_len in
    let at_type : read buf 141 ≡ ok c.cert_type = at_tail 1 ∙ unfold read in refl in
    let at_lo : read buf 142 ≡ ok lo = at_tail 2 ∙ unfold read in refl in
    let at_hi : read buf 143 ≡ ok hi = at_tail 3 ∙ unfold read in refl in
    let fits : ltb 256 (u16_le lo hi) ≡ false = ground (arith, h.sign_size_le) in
    let magic_lo : read buf 0 ≡ ok 0x3f = unfold read in refl in
    let magic_hi : read buf 1 ≡ ok 0x5f = unfold read in refl in
    let curve_lo : read buf 2 ≡ ok 23 = unfold read in refl in
    let curve_hi : read buf 3 ≡ ok 0 = unfold read in refl in
    let same : u16_le lo hi ≡ c.sign_size = omega (arith, h.sign_size_le) in
    rw
      (
        magic_lo,
        magic_hi,
        curve_lo,
        curve_hi,
        at_x,
        le_field_to_be32-be32_to_le_field c.pub_x 68 h.x_size,
        at_y,
        le_field_to_be32-be32_to_le_field c.pub_y 68 h.y_size,
        at_type,
        at_lo,
        at_hi,
        fits,
        at_signature,
      )
      (ap (λ n. ok (record c { sign_size = n })) same)

-- The pairing data that is saved has 868 bytes and is loaded into the same pairing data, if the
-- scalar has 32 bytes and both certificates have the sizes of their arrays, and a signature's size
-- of at most 256.
pub pairing_load-pairing_save :
    (pd : Pairing)
    → IsPairing pd
    → (length (pairing_save pd) ≡ 868) × (pairing_load (pairing_save pd) ≡ ok pd)
unfolding pairing_load pairing_save
pairing_load-pairing_save pd h =
    let scalar : List ℕ = be32_to_le_field pd.priv_scalar 0x44 in
    let host : List ℕ = cert_serialize pd.host_cert in
    let sensor : List ℕ = cert_serialize pd.sensor_cert in
    let scalar_len : length scalar ≡ 68 =
      length-be32_to_le_field pd.priv_scalar 0x44 h.scalar_size (omega arith) in
    let host_len : length host ≡ 400 = length-cert_serialize pd.host_cert h.host in
    let sensor_len : length sensor ≡ 400 = length-cert_serialize pd.sensor_cert h.sensor in
    let buf : List ℕ = scalar ++ (host ++ sensor) in
    let at_scalar : copy buf 0 0x44 ≡ ok scalar =
      copy-front scalar (host ++ sensor) 0x44 scalar_len in
    let at_host : copy buf 0x44 400 ≡ ok host =
      copy-at scalar host sensor 0x44 400 scalar_len host_len in
    let at_sensor : copy buf (0x44 + 400) 400 ≡ ok sensor =
      copy-skip scalar (host ++ sensor) 68 468 400 scalar_len (omega arith)
      ∙ copy-skip host sensor 400 400 400 host_len (omega arith)
      ∙ copy_all sensor 400 sensor_len in
    (
      omega (arith, length-append scalar (host ++ sensor), length-append host sensor),
      rw
          (
            at_scalar,
            le_field_to_be32-be32_to_le_field pd.priv_scalar 0x44 h.scalar_size,
            at_host,
            cert_parse-cert_serialize pd.host_cert h.host,
            at_sensor,
            cert_parse-cert_serialize pd.sensor_cert h.sensor,
          )
          refl,
    )
