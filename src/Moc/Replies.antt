-- ===== src/Moc/Replies.antt =====
-- driver/verimark-moc.c: the parsers of the sensor's replies. The length of a reply is that of its
-- list, every read of it is checked, and the pointers are not NULL.
pub mod Safety
pub mod ObjList
use verimark_linux_driver.Common.{
  ℕ, zero, suc, ◌+◌, ◌*◌, Bool, true, false, List, [], ◌∷◌, ltb, ◌==◌, length, replicate, Outcome,
  ok, ◌>>=◌, ◌>>◌, fail_if, moc_invalid_data, read, copy, u16_le,
}

-- rd_u16le, moc_rd_u16le
unfoldable pub rd_u16_le : List ℕ → ℕ → Outcome ℕ
rd_u16_le buf off = do lo ← read buf off; hi ← read buf (off + 1); ok (u16_le lo hi)

-- VerimarkMocSample
pub record Sample : Type 0 where
  pub status : ℕ
  pub template_id : List ℕ
  pub coverage : ℕ
  pub counter : ℕ
  pub quality : ℕ

unfoldable pub parse_sample : List ℕ → Outcome Sample
parse_sample resp = do
  fail_if (ltb (length resp) 43) moc_invalid_data
  status ← rd_u16_le resp 0
  template_id ← copy resp 2 16
  coverage ← read resp 22
  counter ← read resp 24
  quality ← read resp 42
  ok (record {
    status = status;
    template_id = template_id;
    coverage = coverage;
    counter = counter;
    quality = quality;
  })

-- VerimarkMocMatch
pub record Match : Type 0 where
  pub status : ℕ
  pub matched : Bool
  pub template_id : List ℕ

unfoldable pub parse_match : List ℕ → ℕ → Bool → Outcome Match
parse_match resp status true = do
  fail_if (ltb (length resp) 18) moc_invalid_data
  id ← copy resp 2 16
  ok (record { status = status; matched = true; template_id = id })
parse_match resp status false =
    ok (record { status = status; matched = false; template_id = replicate 16 0 })

unfoldable pub parse_verify : List ℕ → Outcome Match
unfolding parse_match
parse_verify resp = do
  fail_if (ltb (length resp) 2) moc_invalid_data
  status ← rd_u16_le resp 0
  parse_match resp status (status == 0x0000)

-- The `for` loop of verimark_moc_parse_obj_list: `left` is `count - i`.
unfoldable pub obj_ids : List ℕ → (left i : ℕ) → Outcome (List (List ℕ))
obj_ids resp zero i = ok []
obj_ids resp (suc left) i = do
  id ← copy resp (4 + i * 16) 16
  ids ← obj_ids resp left (i + 1)
  ok (id ∷ ids)

-- verimark_moc_parse_obj_list: the status and the ids.
unfoldable pub parse_obj_list : List ℕ → Outcome (ℕ × List (List ℕ))
parse_obj_list resp = do
  fail_if (ltb (length resp) 4) moc_invalid_data
  status ← rd_u16_le resp 0
  count ← rd_u16_le resp 2
  fail_if (ltb (length resp) (4 + count * 16)) moc_invalid_data
  ids ← obj_ids resp count 0
  ok (status, ids)

-- verimark_moc_parse_obj_info
unfoldable pub parse_obj_info : List ℕ → Outcome (List ℕ)
parse_obj_info resp = do fail_if (ltb (length resp) 36) moc_invalid_data; copy resp 20 16
