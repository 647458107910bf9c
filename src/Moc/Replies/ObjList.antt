-- ===== src/Moc/Replies/ObjList.antt =====
-- The object list as the sensor lays it out, against the parser.
use verimark_linux_driver.Common.{
  zero, ltb→ge, fail_if, fail_if-eq-ok, >>=-eq-ok, ok_eq, copy-eq-ok, copy_inside, slice, get_elem?,
  Option-cases, inl, inr, sym, ◌∙◌, some, moc_invalid_data, joined, copy-at, ℕ, suc, ◌+◌, ◌*◌, ◌≤◌,
  ◌<◌, ◌≡◌, refl, ap, false, List, [], ◌∷◌, ◌++◌, ltb, length, ok, arith, All, le16, length-append,
  read, copy, u16_le, ge→ltb,
}
use mathlib.Core.List.{append_assoc}
use Prim.Native.Nat.{◌^◌, ◌%◌, ◌/◌}
use verimark_linux_driver.Moc.Replies.{rd_u16_le, obj_ids, parse_obj_list}

-- status ‖ count ‖ GUID × count
unfoldable pub obj_list_reply : ℕ → List (List ℕ) → List ℕ
obj_list_reply status ids = le16 status ++ (le16 (length ids) ++ joined ids)

obj_ids-cons :
    (resp : List ℕ) (left i : ℕ) {id : List ℕ} {ids : List (List ℕ)}
    → copy resp (4 + i * 16) 16 ≡ ok id
    → obj_ids resp left (i + 1) ≡ ok ids
    → obj_ids resp (suc left) i ≡ ok (id ∷ ids)
unfolding obj_ids
obj_ids-cons resp left i e e' = ground (arith, e, e')

obj_ids-joined :
    (ids : List (List ℕ)) (front trailing : List ℕ) (i : ℕ)
    → length front ≡ 4 + i * 16
    → All (λ id. length id ≡ 16) ids
    → obj_ids (front ++ (joined ids ++ trailing)) (length ids) i ≡ ok ids
obj_ids-joined [] front trailing i h all = unfold obj_ids in refl
obj_ids-joined (x ∷ xs) front trailing i h (hx, all) =
    let rest = joined xs ++ trailing in
    let regroup : front ++ ((x ++ joined xs) ++ trailing) ≡ front ++ (x ++ rest) =
      ap (λ t. front ++ t) (append_assoc x (joined xs) trailing) in
    let shift : (front ++ x) ++ rest ≡ front ++ (x ++ rest) = append_assoc front x rest in
    let tail =
      obj_ids-joined xs (front ++ x) trailing (i + 1) (omega (arith, length-append front x)) all in
    obj_ids-cons (front ++ (joined (x ∷ xs) ++ trailing)) (length xs) i
      (rw regroup (copy-at front x rest (4 + i * 16) 16 h hx)) (rw regroup (rw shift at tail))

length-joined :
    (ids : List (List ℕ)) → All (λ id. length id ≡ 16) ids → length (joined ids) ≡ length ids * 16
length-joined [] all = refl
length-joined (x ∷ xs) (hx, all) = omega (arith, length-append x (joined xs), length-joined xs all)

-- A reply with a status, the number of the ids and then the ids, each of 16 bytes, is parsed into that
-- status and those ids in their order, whatever follows them.
pub parse_obj_list-obj_list_reply :
    (status : ℕ) (ids : List (List ℕ)) (trailing : List ℕ)
    → status < 2 ^ 16
    → length ids < 2 ^ 16
    → All (λ id. length id ≡ 16) ids
    → parse_obj_list (obj_list_reply status ids ++ trailing) ≡ ok (status, ids)
unfolding parse_obj_list obj_list_reply rd_u16_le read
parse_obj_list-obj_list_reply status ids trailing hs hi all =
    let all_ids =
      obj_ids-joined ids
        (status % 256 ∷ status / 256 % 256 ∷ length ids % 256 ∷ length ids / 256 % 256 ∷ [])
        trailing 0 (omega arith) all in
    let count : u16_le (length ids % 256) (length ids / 256 % 256) ≡ length ids = omega arith in
    let word : u16_le (status % 256) (status / 256 % 256) ≡ status = omega arith in
    let reply = obj_list_reply status ids ++ trailing in
    let long : 4 + length ids * 16 ≤ length reply =
      omega (arith, length-append (joined ids) trailing, length-joined ids all) in
    rw (fits, word, count) (rw (ge→ltb (length reply) (4 + length ids * 16) long) (rw all_ids))
  where
    fits : ltb (suc (suc (suc (suc (length (joined ids ++ trailing)))))) 4 ≡ false
    fits = ground arith

-- A reply of status 0 that lists the ids: the status, the count and the ids are where the layout has them.
pub record IsObjList (resp : List ℕ) (ids : List (List ℕ)) : Type 0 where
  pub status_zero : (get_elem? resp 0 ≡ some 0) × (get_elem? resp 1 ≡ some 0)
  pub lo : ℕ
  pub hi : ℕ
  pub count_at : (get_elem? resp 2 ≡ some lo) × (get_elem? resp 3 ≡ some hi)
  pub count : length ids ≡ lo + 256 * hi
  pub inside : 4 + 16 * length ids ≤ length resp
  pub each : (i : ℕ) → i < length ids → get_elem? ids i ≡ some (slice (4 + 16 * i) 16 resp)

copy-slice :
    (buf : List ℕ) (off n : ℕ) {ys : List ℕ}
    → copy buf off n ≡ ok ys
    → (off + n ≤ length buf) × (ys ≡ slice off n buf)
copy-slice buf off n {ys = ys} h =
    let fits = (copy-eq-ok buf off n h).0 in (fits, ok_eq _ _ (sym h ∙ copy_inside buf off n fits))

read-get_elem? : (buf : List ℕ) (i b : ℕ) → read buf i ≡ ok b → get_elem? buf i ≡ some b
unfolding read
read-get_elem? buf i b h = elim (Option-cases (get_elem? buf i)) [
  | inl out ↦ ground (arith, h, out)
  | inr (c, there) ↦ there ∙ ap some (ok_eq _ _ (ground (arith, h, there)))
]

rd_u16_le-eq-ok :
    (buf : List ℕ) (off n : ℕ)
    → rd_u16_le buf off ≡ ok n
    → (lo hi : ℕ) × (get_elem? buf off ≡ some lo)
      × (get_elem? buf (off + 1) ≡ some hi)
      × (n ≡ lo + 256 * hi)
unfolding rd_u16_le
rd_u16_le-eq-ok buf off n h =
    let (lo, at0, h1) = >>=-eq-ok (read buf off) _ h in
    let (hi, at1, h2) = >>=-eq-ok (read buf (off + 1)) _ h1 in
    (lo, hi, read-get_elem? buf off lo at0, read-get_elem? buf (off + 1) hi at1, sym (ok_eq _ _ h2))

obj_ids-each :
    (resp : List ℕ) (left i : ℕ) (ids : List (List ℕ))
    → obj_ids resp left i ≡ ok ids
    → (length ids ≡ left)
      × ((k : ℕ) → k < length ids → get_elem? ids k ≡ some (slice (4 + 16 * (i + k)) 16 resp))
unfolding obj_ids
obj_ids-each resp zero i ids h =
    let size : length ids ≡ 0 = ap length (sym (ok_eq [] ids h)) in
    (size, λ k lt. absurd (omega (arith, lt, size)))
obj_ids-each resp (suc left) i ids h =
    let (id, cut, h1) = >>=-eq-ok (copy resp (4 + i * 16) 16) _ h in
    let (rest, more, h2) = >>=-eq-ok (obj_ids resp left (i + 1)) _ h1 in
    let e : id ∷ rest ≡ ids = ok_eq _ _ h2 in
    let (size, each) = obj_ids-each resp left (i + 1) rest more in
    let first : id ≡ slice (4 + 16 * (i + 0)) 16 resp =
      (copy-slice resp (4 + i * 16) 16 cut).1 ∙ ap (λ (o : ℕ). slice o 16 resp) (omega arith) in
    rw⁻¹ e (ap suc size, at id rest first each)
  where
    at :
        (id : List ℕ) (rest : List (List ℕ))
        → id ≡ slice (4 + 16 * (i + 0)) 16 resp
        → ((k : ℕ)
            → k < length rest
            → get_elem? rest k ≡ some (slice (4 + 16 * (i + 1 + k)) 16 resp))
        → (k : ℕ) → k < length (id ∷ rest)
        → get_elem? (id ∷ rest) k ≡ some (slice (4 + 16 * (i + k)) 16 resp)
    at id rest first each zero lt = ap some first
    at id rest first each (suc k) lt =
        each k (omega (arith, lt)) ∙ ap (λ (o : ℕ). some (slice o 16 resp)) (omega arith)

-- What a parsed reply of status 0 was.
pub parse_obj_list-IsObjList :
    (resp : List ℕ) (ids : List (List ℕ)) → parse_obj_list resp ≡ ok (0, ids) → IsObjList resp ids
unfolding parse_obj_list
parse_obj_list-IsObjList resp ids h =
    let (u, long, h1) = >>=-eq-ok (fail_if (ltb (length resp) 4) moc_invalid_data) _ h in
    let (status, at0, h2) = >>=-eq-ok (rd_u16_le resp 0) _ h1 in
    let (count, at2, h3) = >>=-eq-ok (rd_u16_le resp 2) _ h2 in
    let (v, whole, h4) =
      >>=-eq-ok (fail_if (ltb (length resp) (4 + count * 16)) moc_invalid_data) _ h3 in
    let (found, each, h5) = >>=-eq-ok (obj_ids resp count 0) _ h4 in
    let same : ◌≡◌ {A = ℕ × List (List ℕ)} (status, found) (0, ids) = ok_eq _ _ h5 in
    let zero_ : status ≡ 0 = ap (λ (r : ℕ × List (List ℕ)). r.0) same in
    let (lo, hi, first, second, status_is) = rd_u16_le-eq-ok resp 0 status at0 in
    let (clo, chi, third, fourth, count_is) = rd_u16_le-eq-ok resp 2 count at2 in
    let (size, at) =
      obj_ids-each resp count 0 ids (each ∙ ap (λ (r : ℕ × List (List ℕ)). ok (r.1)) same) in
    let fits = ltb→ge (length resp) (4 + count * 16) (fail_if-eq-ok _ moc_invalid_data whole) in
    record {
      status_zero = (
        first ∙ ap some (omega (arith, status_is, zero_)),
        second ∙ ap some (omega (arith, status_is, zero_)),
      );
      lo = clo;
      hi = chi;
      count_at = (third, fourth);
      count = size ∙ count_is;
      inside = omega (arith, fits, size);
      each = λ i lt. at i lt ∙ ap (λ (o : ℕ). some (slice (4 + 16 * o) 16 resp)) (omega arith);
    }
