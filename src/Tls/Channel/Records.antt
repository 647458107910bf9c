-- ===== src/Tls/Channel/Records.antt =====
-- The loop over the records of a reply: it reads inside the reply, it ends, and it meets the records
-- that were written.
use verimark_linux_driver.Common.{
  ℕ, zero, suc, ◌+◌, ◌/◌, ◌%◌, ◌^◌, ◌<◌, ◌≤◌, ◌≡◌, ◌≢◌, refl, sym, ap, ◌∙◌, List, [], ◌∷◌, ◌++◌,
  ltb, length, ok, fault, fail_if, read, copy, u16_be, crypto_failed, Action, go_on, All, arith,
  inl, inr, Bool-cases, ltb→ge, ge→ltb, lt→ltb, read-skip, copy-at, copy-skip, length-append,
  copy_inside, read_inside, go_on-safe, go_on_rel, copy-eq-ok, >>=-eq-ok,
}
use mathlib.Core.List.{append_assoc}
use mathlib.Core.Path.{fun_ext}
use verimark_linux_driver.Tls.Channel.{rec_plain, record_at, each_record}

abbrev pub Record : Type 0
Record = ℕ × List ℕ

-- Records as they are written one after another
unfoldable pub wire : List Record → List ℕ
wire [] = []
wire (r ∷ rs) = rec_plain r.0 r.1 ++ wire rs

-- The length fits into the two bytes of the header.
abbrev pub IsShort : Record → Type 0
IsShort r = length r.1 < 2 ^ 16

-- What the handler does with the records in turn
unfoldable pub in_turn {ℓ} :
    {S : Type ℓ} (handle : ℕ → List ℕ → Action S (Unit {0})) → List Record → Action S (Unit {0})
in_turn handle [] s = (s, ok tt)
in_turn handle (r ∷ rs) s = go_on (handle r.0 r.1 s) λ _ s. in_turn handle rs s

pub length-rec_plain : (ct : ℕ) (body : List ℕ) → length (rec_plain ct body) ≡ 5 + length body
unfolding rec_plain
length-rec_plain ct body = omega arith

pub length-wire : (rs : List Record) → length rs ≤ length (wire rs)
unfolding wire
length-wire [] = omega arith
length-wire (r ∷ rs) =
    omega
      (arith, length-append (rec_plain r.0 r.1) (wire rs), length-rec_plain r.0 r.1, length-wire rs)

record_at-rec_plain :
    (pre : List ℕ) (ct : ℕ) (frag rest : List ℕ)
    → length frag < 2 ^ 16
    → record_at (pre ++ (rec_plain ct frag ++ rest)) (length pre) ≡ ok (ct, frag)
unfolding record_at rec_plain read
record_at-rec_plain pre ct frag rest h =
    let buf : List ℕ = pre ++ (rec_plain ct frag ++ rest) in
    let tail : List ℕ = frag ++ rest in
    let size = length-append pre (rec_plain ct frag ++ rest) in
    let size2 = length-append frag rest in
    let len : u16_be (length frag / 2 ^ 8 % 256) (length frag % 256) ≡ length frag =
      omega (arith, h) in
    let at : (i : ℕ) → read buf (length pre + i) ≡ read (rec_plain ct frag ++ rest) i = λ i.
      read-skip pre (rec_plain ct frag ++ rest) (length pre) (length pre + i) refl (omega arith)
      ∙ ap (λ (k : ℕ). read (rec_plain ct frag ++ rest) k) (omega arith) in
    let at0 : read buf (length pre) ≡ ok ct = ap (λ (k : ℕ). read buf k) (omega arith) ∙ at 0 in
    let at3 : read buf (length pre + 3) ≡ ok (length frag / 2 ^ 8 % 256) = at 3 in
    let at4 : read buf (length pre + 4) ≡ ok (length frag % 256) = at 4 in
    let body : copy buf (length pre + 5) (length frag) ≡ ok frag =
      copy-skip pre (rec_plain ct frag ++ rest) (length pre) (length pre + 5) (length frag) refl
        (omega arith)
      ∙ ap (λ (k : ℕ). copy (rec_plain ct frag ++ rest) k (length frag)) (omega arith)
      ∙ copy-at (ct ∷ 0x03 ∷ 0x03 ∷ length frag / 2 ^ 8 % 256 ∷ length frag % 256 ∷ []) frag rest 5
          (length frag) refl refl in
    rw
      (
        ge→ltb (length buf) (length pre + 5) (omega (arith, size, size2)),
        at0,
        at3,
        at4,
        len,
        ge→ltb (length buf) (length pre + 5 + length frag) (omega (arith, size, size2)),
        body,
      )
      refl

-- The loop over a reply of short records runs the handler on each of them, in their order, if the fuel
-- is more than their number.
pub each_record-append {ℓ} :
    {S : Type ℓ} (handle : ℕ → List ℕ → Action S (Unit {0})) (fuel : ℕ) (pre : List ℕ)
    (rs : List Record) (s : S)
    → All IsShort rs
    → length rs < fuel
    → each_record handle fuel (pre ++ wire rs) (length pre) s ≡ in_turn handle rs s
unfolding each_record wire in_turn
each_record-append handle zero pre rs s short h = absurd (omega arith)
each_record-append handle (suc fuel) pre [] s short h =
    let all = length-append pre [] in
    rw (ge→ltb (length pre) (length (pre ++ [])) (omega (arith, all))) refl
each_record-append {S = S} handle (suc fuel) pre (r ∷ rs) s short h =
    let rec : List ℕ = rec_plain r.0 r.1 in
    let size = length-rec_plain r.0 r.1 in
    let all = length-append pre (rec ++ wire rs) in
    let all2 = length-append rec (wire rs) in
    let pre2 = length-append pre rec in
    let apart : pre ++ (rec ++ wire rs) ≡ pre ++ rec ++ wire rs =
      sym (append_assoc pre rec (wire rs)) in
    let off : length pre + 5 + length r.1 ≡ length (pre ++ rec) = omega (arith, size, pre2) in
    let rest : (t : S)
        → each_record handle fuel (pre ++ (rec ++ wire rs)) (length pre + 5 + length r.1) t
          ≡ in_turn handle rs t =
      λ t.
        rw (apart, off)
          (each_record-append handle fuel (pre ++ rec) rs t short.1 (omega (arith, h))) in
    rw
      (
        lt→ltb (length pre) (length (pre ++ (rec ++ wire rs))) (omega (arith, all, all2, size)),
        record_at-rec_plain pre r.0 r.1 (wire rs) short.0,
      )
      (ap (λ k. go_on (handle r.0 r.1 s) (λ _. k)) (fun_ext rest))

record_at_inside :
    (buf : List ℕ) (off : ℕ) (ct : ℕ) (frag : List ℕ)
    → record_at buf off ≡ ok (ct, frag)
    → off + 5 + length frag ≤ length buf
unfolding record_at
record_at_inside buf off ct frag h =
    let (u, long, h1) = >>=-eq-ok (fail_if (ltb (length buf) (off + 5)) crypto_failed) _ h in
    let (c, at0, h2) = >>=-eq-ok (read buf off) _ h1 in
    let (hi, at3, h3) = >>=-eq-ok (read buf (off + 3)) _ h2 in
    let (lo, at4, h4) = >>=-eq-ok (read buf (off + 4)) _ h3 in
    let (v, whole, h5) =
      >>=-eq-ok (fail_if (ltb (length buf) (off + 5 + u16_be hi lo)) crypto_failed) _ h4 in
    let (body, cut, h6) = >>=-eq-ok (copy buf (off + 5) (u16_be hi lo)) _ h5 in
    let (fits, size) = copy-eq-ok buf (off + 5) (u16_be hi lo) cut in
    let same : body ≡ frag = ground (arith, h6) in
    let size2 : length frag ≡ u16_be hi lo = ap length (sym same) ∙ size in
    omega (arith, fits, size2)

pub record_at-safe : (buf : List ℕ) (off : ℕ) → record_at buf off ≢ fault
unfolding record_at
record_at-safe buf off = elim (Bool-cases (ltb (length buf) (off + 5))) [
  | inl short ↦ rw short (λ e. cc)
  | inr long ↦
      let h = ltb→ge (length buf) (off + 5) long in
      let (ct, at0) = read_inside buf off (omega (arith, h)) in
      let (hi, at3) = read_inside buf (off + 3) (omega (arith, h)) in
      let (lo, at4) = read_inside buf (off + 4) (omega (arith, h)) in
      elim (Bool-cases (ltb (length buf) (off + 5 + u16_be hi lo))) [
        | inl cut ↦ rw (long, at0, at3, at4, cut) (λ e. cc)
        | inr whole ↦
            rw
              (
                long,
                at0,
                at3,
                at4,
                whole,
                copy_inside buf (off + 5) (u16_be hi lo)
                    (ltb→ge (length buf) (off + 5 + u16_be hi lo) whole),
              )
              (λ e. cc)
      ]
]

-- The loop ends within its fuel and reads inside the reply, for handlers without a fault.
pub each_record_ends {ℓ} :
    {S : Type ℓ} (handle : ℕ → List ℕ → Action S (Unit {0})) (fuel : ℕ) (buf : List ℕ) (off : ℕ)
    (s : S)
    → ((ct : ℕ) (frag : List ℕ) (t : S) → (handle ct frag t).1 ≢ fault)
    → off ≤ length buf
    → length buf < fuel + off
    → (each_record handle fuel buf off s).1 ≢ fault
unfolding each_record
each_record_ends handle zero buf off s safe k h = absurd (omega arith)
each_record_ends handle (suc fuel) buf off s safe k h = elim (Bool-cases (ltb off (length buf))) [
  | inr done ↦ rw done (λ e. cc)
  | inl more ↦ rw more (
      go_on-safe (s, record_at buf off) _ (record_at-safe buf off)
        λ r found. go_on-safe (handle r.0 r.1 s) _ (safe r.0 r.1 s) λ _ _.
          let inside = record_at_inside buf off r.0 r.1 found in
          each_record_ends handle fuel buf (off + 5 + length r.1) (handle r.0 r.1 s).0 safe
            (omega (arith, inside)) (omega (arith, h)))
]

-- What holds of the handler's state before the loop, and what each record of the reply keeps, holds after
-- the loop, however it ends.
pub each_record_keeps {ℓ κ} :
    {S : Type ℓ} (P : S → Type κ) (handle : ℕ → List ℕ → Action S (Unit {0})) (fuel : ℕ)
    (buf : List ℕ) (off : ℕ) (s : S)
    → ((o ct : ℕ) (frag : List ℕ) (t : S)
        → record_at buf o ≡ ok (ct, frag)
        → P t
        → P (handle ct frag t).0)
    → P s
    → P (each_record handle fuel buf off s).0
unfolding each_record
each_record_keeps P handle zero buf off s step p = p
each_record_keeps P handle (suc fuel) buf off s step p = elim (Bool-cases (ltb off (length buf))) [
  | inr done ↦ rw done p
  | inl more ↦ rw more (
      go_on_rel (λ _ t. P t) s (s, record_at buf off) _ p
        λ r found _.
          go_on_rel (λ _ t. P t) s (handle r.0 r.1 s) _ (step off r.0 r.1 s found p)
            λ _ _ q.
              each_record_keeps P handle fuel buf (off + 5 + length r.1) (handle r.0 r.1 s).0 step
                q)
]
