-- ===== src/Framing/Padding.antt =====
-- The padding of verimark_frame_padded_len.
use verimark_linux_driver.Common.{ℕ, ◌+◌, ◌%◌, ◌^◌, ◌≤◌, ◌<◌, ◌≡◌, arith}
use verimark_linux_driver.Framing.{frame_padded_len}

-- Where the padded length fits a gsize it is a multiple of 8, not below the length and less than 8 above it.
pub frame_padded_len_bounds :
    (n : ℕ)
    → n + 8 ≤ 2 ^ 64
    → (frame_padded_len n % 8 ≡ 0) × (n ≤ frame_padded_len n) × (frame_padded_len n < n + 8)
unfolding frame_padded_len
frame_padded_len_bounds n h = ground arith
