-- ===== src/Framing.antt =====
-- driver/verimark-transport-framing.c: the plan of the EP0 control transfers of one command.
pub mod Padding
pub mod Plan
use verimark_linux_driver.Common.{
  ℕ, zero, suc, ◌+◌, ◌-◌, ◌%◌, ◌^◌, min, bit_or, Bool, true, false, List, [], ◌∷◌, ltb, leb, ◌==◌,
  if◌then◌else◌,
}

-- FRAME_MAXCHUNK
abbrev pub frame_max_chunk : ℕ
frame_max_chunk = 0x1000

-- VERIMARK_WRITE_CHUNKS_MAX
abbrev pub write_chunks_max : ℕ
write_chunks_max = 8

-- VerimarkWriteChunk
pub record WriteChunk : Type 0 where
  pub offset : ℕ
  pub len : ℕ
  pub wvalue : ℕ

-- `-(gssize) n % 8` is `-(n % 8)` in C: at 0 nothing is added, below 0 the code adds 8.
-- The sum of two gsize values wraps.
unfoldable pub frame_padded_len : ℕ → ℕ
frame_padded_len n = let pad = if n % 8 == 0 then 0 else 8 - n % 8 in (n + pad) % 2 ^ 64

-- The wValue of one chunk of the write loop. `n & 7` is `n % 8`.
unfoldable pub chunk_wvalue : Bool → Bool → ℕ → ℕ → ℕ
chunk_wvalue first is_last chunk_len unpadded_len =
    let wvalue = if first then 0x0000 else 0x4000 in
    if is_last
    then bit_or wvalue (unpadded_len % 8)
    else if chunk_len == frame_max_chunk
    then bit_or wvalue 0x8000
    else wvalue

-- The `while` loop. `rounds` is VERIMARK_WRITE_CHUNKS_MAX - n, so the loop's second test is its clause.
unfoldable pub write_loop : (rounds unpadded_len total off : ℕ) → Bool → List WriteChunk
unfolding chunk_wvalue
write_loop zero unpadded_len total off first = []
write_loop (suc rounds) unpadded_len total off first =
    let chunk_len = min (total - off) frame_max_chunk in
    let chunk : WriteChunk = record {
      offset = off;
      len = chunk_len;
      wvalue = chunk_wvalue first (leb total (off + chunk_len)) chunk_len unpadded_len;
    } in
    let rest = write_loop rounds unpadded_len total (off + chunk_len) false in
    if ltb off total then chunk ∷ rest else []

-- verimark_frame_write_chunks
unfoldable pub frame_write_chunks : ℕ → List WriteChunk
frame_write_chunks n =
    let total = frame_padded_len n in
    if total == 0
    then record { offset = 0; len = 0; wvalue = n % 8 } ∷ []
    else write_loop write_chunks_max n total 0 true

-- verimark_frame_read_chunk_next: the length to ask for, and the wValue.
unfoldable pub frame_read_chunk_next : ℕ → Bool → ℕ × ℕ
frame_read_chunk_next remaining first =
    let want = min remaining frame_max_chunk in
    let wvalue = if first then 0x0000 else 0x4000 in
    (want, if want == frame_max_chunk then bit_or wvalue 0x8000 else wvalue)
