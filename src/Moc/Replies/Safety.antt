-- ===== src/Moc/Replies/Safety.antt =====
-- The parsers read inside the reply, whatever it is.
use verimark_linux_driver.Common.{
  read-safe, copy-safe, fail_if-safe, map-safe, ℕ, zero, suc, ◌+◌, ◌*◌, ◌≤◌, ◌<◌, ◌≢◌, Bool, true,
  false, List, ◌∷◌, length, Outcome, fault, ◌>>=◌, arith, read_inside, copy_inside, ltb→ge,
}
use verimark_linux_driver.Moc.Replies.{
  rd_u16_le, parse_sample, parse_match, parse_verify, obj_ids, parse_obj_list, parse_obj_info,
}

pub rd_u16_le-safe {ℓ} :
    {A : Type ℓ} (buf : List ℕ) (i : ℕ) (k : ℕ → Outcome A)
    → i + 1 < length buf
    → ((b : ℕ) → k b ≢ fault)
    → (rd_u16_le buf i >>= k) ≢ fault
unfolding rd_u16_le
rd_u16_le-safe buf i k h f =
    let (lo, e) = read_inside buf i (omega arith) in
    let (hi, e') = read_inside buf (i + 1) h in rw (e, e') (f _)

pub parse_sample-safe : (resp : List ℕ) → parse_sample resp ≢ fault
unfolding parse_sample
parse_sample-safe resp = fail_if-safe _ _ _ λ long.
    let h = ltb→ge (length resp) 43 long in
    rd_u16_le-safe resp 0 _ (omega arith) λ _. copy-safe resp 2 16 _ (omega arith) λ _.
      read-safe resp 22 _ (omega arith)
        λ _. read-safe resp 24 _ (omega arith) λ _. read-safe resp 42 _ (omega arith) λ _ e. cc

parse_match-safe : (resp : List ℕ) (status : ℕ) (b : Bool) → parse_match resp status b ≢ fault
unfolding parse_match
parse_match-safe resp status true =
    fail_if-safe _ _ _
      λ long. let h = ltb→ge (length resp) 18 long in copy-safe resp 2 16 _ (omega arith) λ _ e. cc
parse_match-safe resp status false = λ e. cc

pub parse_verify-safe : (resp : List ℕ) → parse_verify resp ≢ fault
unfolding parse_verify
parse_verify-safe resp = fail_if-safe _ _ _ λ long.
    let h = ltb→ge (length resp) 2 long in
    rd_u16_le-safe resp 0 _ (omega arith) λ status. parse_match-safe resp status _

obj_ids-safe :
    (resp : List ℕ) (left i : ℕ) → 4 + (i + left) * 16 ≤ length resp → obj_ids resp left i ≢ fault
unfolding obj_ids
obj_ids-safe resp zero i h = λ e. cc
obj_ids-safe resp (suc left) i h = copy-safe resp (4 + i * 16) 16 _ (omega arith) λ id.
    map-safe (obj_ids resp left (i + 1)) (λ ids. id ∷ ids)
      (obj_ids-safe resp left (i + 1) (omega arith))

pub parse_obj_list-safe : (resp : List ℕ) → parse_obj_list resp ≢ fault
unfolding parse_obj_list
parse_obj_list-safe resp = fail_if-safe _ _ _ λ long.
    let h = ltb→ge (length resp) 4 long in
    rd_u16_le-safe resp 0 _ (omega arith) λ status. rd_u16_le-safe resp 2 _ (omega arith) λ count.
      fail_if-safe _ _ _ λ all.
        let h' = ltb→ge (length resp) (4 + count * 16) all in
        map-safe (obj_ids resp count 0) (λ ids. (status, ids))
          (obj_ids-safe resp count 0 (omega arith))

pub parse_obj_info-safe : (resp : List ℕ) → parse_obj_info resp ≢ fault
unfolding parse_obj_info
parse_obj_info-safe resp = fail_if-safe _ _ _ λ long.
    let h = ltb→ge (length resp) 36 long in rw (copy_inside resp 20 16 (omega arith)) (λ e. cc)

-- None of the four reply parsers reads outside the reply, whatever its bytes and its length are.
pub parsers_safe :
    (resp : List ℕ)
    → (parse_sample resp ≢ fault)
      × (parse_verify resp ≢ fault)
      × (parse_obj_list resp ≢ fault)
      × (parse_obj_info resp ≢ fault)
parsers_safe resp = (
  parse_sample-safe resp,
  parse_verify-safe resp,
  parse_obj_list-safe resp,
  parse_obj_info-safe resp,
)
