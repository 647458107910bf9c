-- ===== src/Common/Bytes.antt =====
-- Byte buffers as lists of numbers: checked reads, little- and big-endian words, `memcpy`.
use verimark_linux_driver.Common.Results.{◌>>=◌, Outcome, ok, fault}
use mathlib.Core.Logic.{◌≢◌, inl, inr}
use Prim.Native.Nat.{ℕ, zero, suc, ◌+◌, ◌-◌, ◌*◌, ◌/◌, ◌%◌, ◌^◌, ◌≤◌, ◌<◌}
use mathlib.Core.Path.{◌≡◌, refl, ap, ◌∙◌}
use mathlib.Core.Option.{none, some}
use mathlib.Core.Bool.{Bool, true, false, ◌&&◌}
use mathlib.Core.List.{List, [], ◌∷◌, ◌++◌}
use native.Mathlib.Omega.{arith}
use verimark_linux_driver.Common.Tests.{leb, ◌==◌, Bool-cases, if◌then◌else◌}
use verimark_linux_driver.Common.Lists.{
  length, get_elem?, take, drop, length-append, length-take, length-drop, drop-append_ge,
  take-append, take_all,
}

abbrev pub IsByte : ℕ → Type 0
IsByte b = b < 256

-- `n` bytes of `buf` from `off` on.
abbrev pub slice : ℕ → ℕ → List ℕ → List ℕ
slice off n buf = take n (drop off buf)

-- `buf[i]`
unfoldable pub read : List ℕ → ℕ → Outcome ℕ
read buf i = elim (get_elem? buf i) [ some b ↦ ok b | none ↦ fault ]

-- `memcpy (dst, buf + off, n)`
unfoldable pub copy : List ℕ → ℕ → ℕ → Outcome (List ℕ)
copy buf off n = if leb (off + n) (length buf) then ok (slice off n buf) else fault

-- `(guint16) p[0] | ((guint16) p[1] << 8)`: the halves have no bit in common.
abbrev pub u16_le : ℕ → ℕ → ℕ
u16_le lo hi = lo + 256 * hi

abbrev pub u16_be : ℕ → ℕ → ℕ
u16_be hi lo = 256 * hi + lo

-- `wr_u16le`, `wr_u32le`
abbrev pub le16 : ℕ → List ℕ
le16 v = v % 256 ∷ v / 256 % 256 ∷ []

abbrev pub le32 : ℕ → List ℕ
le32 v = v % 256 ∷ v / 2 ^ 8 % 256 ∷ v / 2 ^ 16 % 256 ∷ v / 2 ^ 24 % 256 ∷ []

-- `memcmp (a, b, n) == 0` on buffers of one length
unfoldable pub bytes_eq : List ℕ → List ℕ → Bool
bytes_eq [] [] = true
bytes_eq [] (_ ∷ _) = false
bytes_eq (_ ∷ _) [] = false
bytes_eq (a ∷ as') (b ∷ bs) = a == b && bytes_eq as' bs

pub read_inside : (buf : List ℕ) (i : ℕ) → i < length buf → (b : ℕ) × (read buf i ≡ ok b)
unfolding read
read_inside [] i h = absurd (omega arith)
read_inside (x ∷ xs) zero h = (x, refl)
read_inside (x ∷ xs) (suc i) h = read_inside xs i (omega arith)

pub copy_inside :
    (buf : List ℕ) (off n : ℕ) → off + n ≤ length buf → copy buf off n ≡ ok (slice off n buf)
unfolding copy
copy_inside buf off n h = ground arith

pub length-slice : (buf : List ℕ) (off n : ℕ) → off + n ≤ length buf → length (slice off n buf) ≡ n
length-slice buf off n h = omega (arith, length-take n (drop off buf), length-drop off buf)

-- Reads of an append, before and behind the seam.
pub read-skip :
    (xs r : List ℕ) (m i : ℕ) → length xs ≡ m → m ≤ i → read (xs ++ r) i ≡ read r (i - m)
unfolding read
read-skip [] r m i h k = ap (λ (t : ℕ). read r t) (omega arith)
read-skip (x ∷ xs) r zero i h k = absurd (omega arith)
read-skip (x ∷ xs) r (suc m) zero h k = absurd (omega arith)
read-skip (x ∷ xs) r (suc m) (suc i) h k =
    read-skip xs r m i (omega arith) (omega arith) ∙ ap (λ (t : ℕ). read r t) (omega arith)

pub copy-skip :
    (xs r : List ℕ) (m off n : ℕ)
    → length xs ≡ m
    → m ≤ off
    → copy (xs ++ r) off n ≡ copy r (off - m) n
unfolding copy
copy-skip xs r m off n h k =
    let cut : drop off (xs ++ r) ≡ drop (off - m) r =
      ap (λ (t : ℕ). drop t (xs ++ r)) (omega arith) ∙ drop-append_ge xs r m (off - m) h in
    rw cut (ground (arith, length-append xs r))

pub copy-front : (ys r : List ℕ) (n : ℕ) → length ys ≡ n → copy (ys ++ r) 0 n ≡ ok ys
unfolding copy
copy-front ys r n h = rw (take-append ys r n h) (ground (arith, length-append ys r))

pub copy_all : (ys : List ℕ) (n : ℕ) → length ys ≡ n → copy ys 0 n ≡ ok ys
unfolding copy
copy_all ys n h = rw (take_all ys n (omega arith)) (ground arith)

-- The middle of three parts.
pub copy-at :
    (xs ys r : List ℕ) (off n : ℕ)
    → length xs ≡ off
    → length ys ≡ n
    → copy (xs ++ (ys ++ r)) off n ≡ ok ys
copy-at xs ys r off n h k =
    copy-skip xs (ys ++ r) off off n h (omega arith)
    ∙ ap (λ (t : ℕ). copy (ys ++ r) t n) (omega arith)
    ∙ copy-front ys r n k

-- A chain of checks and reads has no fault, if each read lies inside its buffer and what follows has none.
pub read-safe {ℓ} :
    {A : Type ℓ} (buf : List ℕ) (i : ℕ) (k : ℕ → Outcome A)
    → i < length buf
    → ((b : ℕ) → k b ≢ fault)
    → (read buf i >>= k) ≢ fault
read-safe buf i k h f = let (b, e) = read_inside buf i h in rw e (f b)

pub copy-safe {ℓ} :
    {A : Type ℓ} (buf : List ℕ) (off n : ℕ) (k : List ℕ → Outcome A)
    → off + n ≤ length buf
    → ((b : List ℕ) → k b ≢ fault)
    → (copy buf off n >>= k) ≢ fault
copy-safe buf off n k h f = rw (copy_inside buf off n h) (f _)

pub copy_sized-safe {ℓ} :
    {A : Type ℓ} (buf : List ℕ) (off n : ℕ) (k : List ℕ → Outcome A)
    → off + n ≤ length buf
    → ((b : List ℕ) → length b ≡ n → k b ≢ fault)
    → (copy buf off n >>= k) ≢ fault
copy_sized-safe buf off n k h f = rw (copy_inside buf off n h) (f _ (length-slice buf off n h))

pub bytes_eq-≡ : (xs ys : List ℕ) → bytes_eq xs ys ≡ true → xs ≡ ys
unfolding bytes_eq
bytes_eq-≡ [] [] h = refl
bytes_eq-≡ [] (y ∷ ys) h = ground (arith, h)
bytes_eq-≡ (x ∷ xs) [] h = ground (arith, h)
bytes_eq-≡ (x ∷ xs) (y ∷ ys) h = ground (arith, h, bytes_eq-≡ xs ys)

pub bytes_eq_refl : (xs : List ℕ) → bytes_eq xs xs ≡ true
unfolding bytes_eq
bytes_eq_refl [] = refl
bytes_eq_refl (x ∷ xs) = ground (arith, bytes_eq_refl xs)

-- What a copy that succeeds tells of its buffer.
pub copy-eq-ok :
    (buf : List ℕ) (off n : ℕ) {ys : List ℕ}
    → copy buf off n ≡ ok ys
    → (off + n ≤ length buf) × (length ys ≡ n)
unfolding copy
copy-eq-ok buf off n h = elim (Bool-cases (leb (off + n) (length buf))) [
  | inr outside ↦ ground (arith, h, outside)
  | inl inside ↦
      let fits : off + n ≤ length buf = ground (arith, inside) in
      (fits, ground (arith, h, inside, length-slice buf off n fits))
]
