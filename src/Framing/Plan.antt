-- ===== src/Framing/Plan.antt =====
-- The chunk plan of verimark_frame_write_chunks against what the sensor puts together from it.
use verimark_linux_driver.Common.{
  ◌∙◌, ==→eq, ltb→ge, ltb→lt, ℕ, zero, suc, ◌+◌, ◌-◌, ◌*◌, ◌/◌, ◌%◌, ◌^◌, ◌≤◌, ◌<◌, ◌≡◌, refl, min,
  bit_or, Bool, true, false, List, [], ◌∷◌, arith, ltb, leb, ◌==◌, if◌then◌else◌, length,
  Bool-cases, inl, inr, all_eq, all_eq_sound, lt→ltb, ge→ltb,
}
use verimark_linux_driver.Framing.{
  WriteChunk, write_loop, frame_write_chunks, frame_padded_len, chunk_wvalue, frame_max_chunk,
  write_chunks_max,
}
use verimark_linux_driver.Framing.Padding.{frame_padded_len_bounds}

-- Consecutive chunks from `off` on, none longer than a control transfer, that end at `stop`.
abbrev pub Tiles : ℕ → ℕ → List WriteChunk → Type 0
Tiles off stop [] = off ≡ stop
Tiles off stop (c ∷ cs) = (c.offset ≡ off) × (c.len ≤ frame_max_chunk) × Tiles (off + c.len) stop cs

-- Bit 15 of a chunk with others behind it.
abbrev pub more_bit : List WriteChunk → ℕ
more_bit [] = 0
more_bit (_ ∷ _) = 1

-- Bit 14 marks every chunk but the first, bit 15 every chunk but the last.
abbrev pub IsFlagged : Bool → List WriteChunk → Type 0
IsFlagged first [] = Unit {0}
IsFlagged first (c ∷ cs) =
    (c.wvalue / 2 ^ 14 % 2 ≡ (if first then 0 else 1))
    × (c.wvalue / 2 ^ 15 ≡ more_bit cs)
    × IsFlagged false cs

-- The payload length that a receiver computes: the bytes it got, less the padding that the
-- low three bits of the last wValue tell.
unpad : ℕ → ℕ → ℕ
unpad total low = if low == 0 then total else total - (8 - low)

received : ℕ → ℕ → List WriteChunk → ℕ
unfolding unpad
received total low [] = unpad total low
received total low (c ∷ cs) = received (total + c.len) (c.wvalue % 8) cs

pub received_len : List WriteChunk → ℕ
unfolding received
received_len cs = received 0 0 cs

pub or_first : (x : ℕ) → x < 8 → bit_or 0x0000 x ≡ x
unfolding all_eq
or_first x h = all_eq_sound 8 (bit_or 0x0000) (λ x. x) refl x h

or_next : (x : ℕ) → x < 8 → bit_or 0x4000 x ≡ 0x4000 + x
unfolding all_eq
or_next x h = all_eq_sound 8 (bit_or 0x4000) (λ x. 0x4000 + x) refl x h

pub write_loop-nil :
    (rounds n total off : ℕ) (first : Bool) → total ≤ off → write_loop rounds n total off first ≡ []
unfolding write_loop
write_loop-nil zero n total off first h = refl
write_loop-nil (suc rounds) n total off first h = rw (ge→ltb off total h)

-- One round, inside the total: where it stops, and its wValue.
pub write_loop-cons :
    (rounds n total off : ℕ) (first : Bool)
    → off < total
    → (c : WriteChunk) × (write_loop (suc rounds) n total off first
        ≡ c ∷ write_loop rounds n total (off + c.len) false)
      × (c.offset ≡ off)
      × (c.len ≡ min (total - off) frame_max_chunk)
      × (c.wvalue ≡ chunk_wvalue first (leb total (off + c.len)) c.len n)
unfolding write_loop
write_loop-cons rounds n total off first h =
    let chunk_len : ℕ = min (total - off) frame_max_chunk in
    (
      record {
        offset = off;
        len = chunk_len;
        wvalue = chunk_wvalue first (leb total (off + chunk_len)) chunk_len n;
      },
      rw (lt→ltb off total h),
      refl,
      refl,
      refl,
    )

write_loop-Tiles :
    (rounds n total off : ℕ) (first : Bool)
    → off ≤ total
    → Tiles off (min total (off + rounds * frame_max_chunk)) (write_loop rounds n total off first)
write_loop-Tiles zero n total off first h = unfold write_loop in omega arith
write_loop-Tiles (suc rounds) n total off first h = elim (Bool-cases (ltb off total)) [
  | inr stop ↦
      rw (write_loop-nil (suc rounds) n total off first (ltb→ge off total stop))
        (omega (arith, ltb→ge off total stop))
  | inl go ↦
      let (c, e, at, len, _) = write_loop-cons rounds n total off first (ltb→lt off total go) in
      let seam : min total (off + c.len + rounds * frame_max_chunk)
          ≡ min total (off + suc rounds * frame_max_chunk) =
        omega (arith, len, ltb→lt off total go) in
      let rest =
        write_loop-Tiles rounds n total (off + c.len) false
          (omega (arith, len, ltb→lt off total go)) in
      rw e (at, omega (arith, len), rw seam at rest)
]

-- What one round leaves in the wValue.
chunk_wvalue_bits :
    (first is_last : Bool) (len n : ℕ)
    → (is_last ≡ false → len ≡ frame_max_chunk)
    → (chunk_wvalue first is_last len n / 2 ^ 14 % 2 ≡ (if first then 0 else 1))
      × (chunk_wvalue first is_last len n / 2 ^ 15 ≡ (if is_last then 0 else 1))
      × (is_last ≡ true → chunk_wvalue first is_last len n % 8 ≡ n % 8)
unfolding chunk_wvalue
chunk_wvalue_bits true true len n h = rw (or_first (n % 8) (omega arith)) (omega arith)
chunk_wvalue_bits false true len n h = rw (or_next (n % 8) (omega arith)) (omega arith)
chunk_wvalue_bits true false len n h = rw (h refl) (refl, refl, λ e. cc)
chunk_wvalue_bits false false len n h = rw (h refl) (refl, refl, λ e. cc)

more_bit-write_loop :
    (rounds n total off : ℕ)
    → total ≤ off + rounds * frame_max_chunk
    → more_bit (write_loop rounds n total off false) ≡ (if leb total off then 0 else 1)
unfolding write_loop
more_bit-write_loop zero n total off h = ground arith
more_bit-write_loop (suc rounds) n total off h = ground arith

write_loop-IsFlagged :
    (rounds n total off : ℕ) (first : Bool)
    → total ≤ off + rounds * frame_max_chunk
    → IsFlagged first (write_loop rounds n total off first)
write_loop-IsFlagged zero n total off first h = unfold write_loop in tt
write_loop-IsFlagged (suc rounds) n total off first h = elim (Bool-cases (ltb off total)) [
  | inr stop ↦ rw (write_loop-nil (suc rounds) n total off first (ltb→ge off total stop)) tt
  | inl go ↦
      let lt = ltb→lt off total go in
      let (c, e, _, len, w) = write_loop-cons rounds n total off first lt in
      let fits : total ≤ off + c.len + rounds * frame_max_chunk = omega (arith, len) in
      let bits = chunk_wvalue_bits first (leb total (off + c.len)) c.len n (ground (arith, len)) in
      rw (e, w)
        (
          bits.0,
          rw (more_bit-write_loop rounds n total (off + c.len) fits) bits.1,
          write_loop-IsFlagged rounds n total (off + c.len) false fits,
        )
]

received-write_loop :
    (rounds n total off low : ℕ) (first : Bool)
    → off < total
    → total ≤ off + rounds * frame_max_chunk
    → received off low (write_loop rounds n total off first) ≡ unpad total (n % 8)
unfolding received
received-write_loop zero n total off low first h k = absurd (omega arith)
received-write_loop (suc rounds) n total off low first h k =
    let (c, e, _, len, w) = write_loop-cons rounds n total off first h in
    elim (Bool-cases (ltb (off + c.len) total)) [
      | inl more ↦ rw e (
          received-write_loop rounds n total (off + c.len) (c.wvalue % 8) false
            (ltb→lt (off + c.len) total more) (omega (arith, len)))
      | inr last ↦
          let stop : off + c.len ≡ total = omega (arith, len, ltb→ge (off + c.len) total last) in
          let bits = chunk_wvalue_bits first true c.len n (λ e. cc) in
          rw (e, write_loop-nil rounds n total (off + c.len) false (omega (arith, stop)))
            (rw (w, stop) (rw (leb_refl total) (rw (bits.2 refl) refl)))
    ]
  where
    leb_refl : (m : ℕ) → leb m m ≡ true
    leb_refl m = ground arith

length-write_loop :
    (rounds n total off : ℕ) (first : Bool) → length (write_loop rounds n total off first) ≤ rounds
unfolding write_loop
length-write_loop zero n total off first = omega arith
length-write_loop (suc rounds) n total off first =
    ground (arith, length-write_loop rounds n total (off + min (total - off) frame_max_chunk) false)

length-write_loop_pos :
    (rounds n total off : ℕ) (first : Bool)
    → off < total
    → 1 ≤ length (write_loop (suc rounds) n total off first)
length-write_loop_pos rounds n total off first h =
    let (c, e, _, _, _) = write_loop-cons rounds n total off first h in rw e (omega arith)

unpad-frame_padded_len : (n : ℕ) → n + 8 ≤ 2 ^ 64 → unpad (frame_padded_len n) (n % 8) ≡ n
unfolding unpad frame_padded_len
unpad-frame_padded_len n h = ground arith

frame_padded_len-zero : (n : ℕ) → n + 8 ≤ 2 ^ 64 → frame_padded_len n ≡ 0 → n ≡ 0
frame_padded_len-zero n h e = omega (arith, frame_padded_len_bounds n h)

-- For a payload of any length that a gsize holds with its padding, the plan has one to eight
-- chunks of at most 4096 bytes, which lie behind one another from offset 0 on and end at the
-- padded length, or at 8 * 4096 bytes where the padded length is more than that.
pub frame_write_chunks_tile :
    (n : ℕ)
    → n + 8 ≤ 2 ^ 64
    → (1 ≤ length (frame_write_chunks n))
      × (length (frame_write_chunks n) ≤ write_chunks_max)
      × Tiles 0
          (min (frame_padded_len n) (write_chunks_max * frame_max_chunk))
          (frame_write_chunks n)
unfolding frame_write_chunks
frame_write_chunks_tile n h = elim (Bool-cases (frame_padded_len n == 0)) [
  | inl empty ↦ rw empty (
    omega arith,
    omega arith,
    (refl, omega arith, omega (arith, ==→eq (frame_padded_len n) 0 empty)),
  )
  | inr some_bytes ↦
      let total = frame_padded_len n in
      rw some_bytes (
        length-write_loop_pos 7 n total 0 true (ground arith),
        length-write_loop 8 n total 0 true,
        write_loop-Tiles 8 n total 0 true (omega arith),
      )
]

-- For a payload of at most 8 * 4096 bytes a receiver that adds up the chunks' lengths and takes off
-- the padding told by the last wValue's low three bits gets the payload's length; bit 14 of the
-- wValue is clear on the first chunk alone, and bit 15 is set on every chunk but the last.
pub frame_write_chunks_received :
    (n : ℕ)
    → n ≤ write_chunks_max * frame_max_chunk
    → (received_len (frame_write_chunks n) ≡ n) × IsFlagged true (frame_write_chunks n)
unfolding frame_write_chunks received_len
frame_write_chunks_received n h = elim (Bool-cases (frame_padded_len n == 0)) [
  | inl empty ↦ rw empty (
      rw (frame_padded_len-zero n (omega arith) (==→eq (frame_padded_len n) 0 empty))
        (unfold received unpad in (refl, (refl, refl, tt))))
  | inr some_bytes ↦
      let total = frame_padded_len n in
      let fits : total ≤ 0 + 8 * frame_max_chunk =
        omega (arith, frame_padded_len_bounds n (omega arith)) in
      rw some_bytes (
        received-write_loop 8 n total 0 0 true (ground arith) fits
            ∙ unpad-frame_padded_len n (omega arith),
        write_loop-IsFlagged 8 n total 0 true fits,
      )
]

pub frame_write_chunks_nonempty :
    (n : ℕ) → (c : WriteChunk) × (cs : List WriteChunk) × (frame_write_chunks n ≡ c ∷ cs)
unfolding frame_write_chunks
frame_write_chunks_nonempty n = elim (Bool-cases (frame_padded_len n == 0)) [
  | inl empty ↦ rw empty (_, [], refl)
  | inr some_bytes ↦
      let total = frame_padded_len n in
      let (c, e, _, _, _) = write_loop-cons 7 n total 0 true (ground arith) in
      rw some_bytes (c, write_loop 7 n total (0 + c.len) false, e)
]
