-- ===== src/Transport/Delivers.antt =====
-- A command of one chunk, and a reply that one read takes: what each side gets.
use verimark_linux_driver.Common.{
  ℕ, ◌+◌, ◌-◌, ◌%◌, ◌≤◌, ◌<◌, max, min, ◌≡◌, refl, ap, ◌∙◌, inl, inr, true, false, some, List, [],
  ◌∷◌, ◌++◌, ltb, leb, ◌==◌, if◌then◌else◌, length, replicate, arith, Bool-cases, ok, lt→ltb,
  ltb→ge, length-append, length-replicate, ==→eq, take, take_all, take-append,
}
use mathlib.Core.List.{append-nil}
use verimark_linux_driver.Framing.{
  frame_write_chunks, frame_padded_len, write_loop, chunk_wvalue, frame_read_chunk_next,
}
use verimark_linux_driver.Framing.Padding.{frame_padded_len_bounds}
use verimark_linux_driver.Framing.Plan.{or_first}
use verimark_linux_driver.Usb.{control_write, Answer, arrived}
use verimark_linux_driver.Transport.Command.{Run, issued}
use verimark_linux_driver.Transport.Sync.{
  write_chunks_sync, ctrl_write_sync, ctrl_read_sync, ctrl_cmd_sync,
}
use verimark_linux_driver.Transport.Agree.{read_loop_sync_full}
use verimark_linux_driver.Transport.Reads.{timeouts, read_loop_sync-full, read_loop_sync_resumes}

-- What a sensor takes of a write that is a whole command: the bytes, less the padding that the low three bits of the
-- wValue tell.
abbrev pub payload : (wvalue : ℕ) (bytes : List ℕ) → List ℕ
payload wvalue bytes =
    if wvalue % 8 == 0 then bytes else take (length bytes - (8 - wvalue % 8)) bytes

one_chunk :
    (n : ℕ)
    → 0 < n
    → n ≤ 4088
    → frame_write_chunks n ≡ record { offset = 0; len = frame_padded_len n; wvalue = n % 8 } ∷ []
unfolding frame_write_chunks chunk_wvalue write_loop
one_chunk n pos small =
    let total : ℕ = frame_padded_len n in
    let bounds = frame_padded_len_bounds n (omega (arith, small)) in
    let some_ : (total == 0) ≡ false = ground (arith, bounds, pos) in
    let whole : min (total - 0) 4096 ≡ total = omega (arith, bounds, small) in
    let last : leb total (0 + total) ≡ true = ground arith in
    let done : ltb (0 + total) total ≡ false = ground arith in
    let more : ltb 0 total ≡ true = lt→ltb 0 total (omega (arith, bounds, pos)) in
    rw (some_, whole, last, done, more, or_first (n % 8) (omega arith)) refl

-- The bytes of the only write, from which the sensor gets the command back.
pub payload-padded :
    (bytes : List ℕ)
    → length bytes ≤ 4088
    → payload
        (length bytes % 8)
        (bytes ++ replicate (frame_padded_len (length bytes) - length bytes) 0)
      ≡ bytes
payload-padded bytes small =
    let n : ℕ = length bytes in
    let pad : ℕ = frame_padded_len n - n in
    let bounds = frame_padded_len_bounds n (omega (arith, small)) in
    let size = length-append bytes (replicate pad 0) in
    let zeros = length-replicate {A = ℕ} pad 0 in
    elim (Bool-cases (n % 8 % 8 == 0)) [
      | inl whole ↦
          let none_ : pad ≡ 0 = omega (arith, bounds, ==→eq (n % 8 % 8) 0 whole) in
          rw whole (rw none_ (append-nil bytes))
      | inr part ↦
          let some_ : 0 < n % 8 = ground (arith, part) in
          let rest : length (bytes ++ replicate pad 0) - (8 - n % 8 % 8) ≡ n =
            omega (arith, bounds, size, zeros, some_) in
          rw (part, rest) (take-append bytes (replicate pad 0) n refl)
    ]

-- A command of one chunk is issued whole, and its reply is read behind it.
pub ctrl_cmd_sync-one :
    (bytes : List ℕ) (resp_max : ℕ) (written : List ℕ) (rest : List Answer)
    → 0 < length bytes
    → length bytes ≤ 4088
    → ctrl_cmd_sync bytes resp_max (arrived written ∷ rest)
      ≡ issued
          (control_write
            (length bytes % 8)
            (bytes ++ replicate (frame_padded_len (length bytes) - length bytes) 0))
          (ctrl_read_sync resp_max rest)
unfolding ctrl_cmd_sync ctrl_write_sync write_chunks_sync
ctrl_cmd_sync-one bytes resp_max written rest pos small =
    let pad : ℕ = frame_padded_len (length bytes) - length bytes in
    let wbuf : List ℕ = bytes ++ replicate pad 0 in
    let bounds = frame_padded_len_bounds (length bytes) (omega (arith, small)) in
    let size : length wbuf ≤ frame_padded_len (length bytes) =
      omega
        (arith, bounds, length-append bytes (replicate pad 0), length-replicate {A = ℕ} pad 0) in
    rw (one_chunk (length bytes) pos small, take_all wbuf (frame_padded_len (length bytes)) size)
      refl

-- A reply of less than 4096 bytes, within the limit, is read in one transfer behind up to 25 time-outs.
pub ctrl_read_sync-one :
    (resp_max : ℕ) (response : List ℕ) (busy : ℕ) (later : List Answer)
    → length response < 4096
    → length response ≤ resp_max
    → busy ≤ 25
    → (ctrl_read_sync resp_max (timeouts busy ++ (arrived response ∷ later))).result
      ≡ some (ok response)
unfolding ctrl_read_sync frame_read_chunk_next
ctrl_read_sync-one resp_max response busy later small fits few =
    let rmax : ℕ = max resp_max 1 in
    read_loop_sync_resumes rmax [] true response later busy (omega arith) few
    ∙ ap (λ (r : Run). r.result) (read_loop_sync-full rmax response later [] true 0 (omega arith))
    ∙ elim (Bool-cases (ltb (length response) (min (rmax - 0) 4096))) [
      | inl short ↦ rw short refl
      | inr full ↦
          let reached = ltb→ge (length response) (min (rmax - 0) 4096) full in
          rw full (
            ap (λ (r : Run). r.result)
              (read_loop_sync_full rmax later response false 0 (omega (arith, reached, small))))
    ]
