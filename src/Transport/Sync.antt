-- ===== src/Transport/Sync.antt =====
-- driver/verimark.c: the blocking form of the transport, used while the device is opened.
use verimark_linux_driver.Common.{
  ℕ, ◌+◌, ◌-◌, max, Bool, true, false, ◌&&◌, List, [], ◌∷◌, ◌++◌, ltb, if◌then◌else◌, length,
  replicate, ok, err,
}
use verimark_linux_driver.Framing.{
  WriteChunk, frame_padded_len, frame_write_chunks, frame_read_chunk_next,
}
use verimark_linux_driver.Usb.{Answer, arrived, refused}
use verimark_linux_driver.Transport.Command.{
  Run, finished, waiting, issued, chunk_transfer, read_transfer, is_timed_out,
}

-- VERIMARK_SYNC_READ_MAX_RETRIES
abbrev pub sync_read_max_retries : ℕ
sync_read_max_retries = 25

-- The loop of verimark_ctrl_write_sync over the plan; `then_read` is what the caller goes on with.
unfoldable pub write_chunks_sync :
    List ℕ → List WriteChunk → List Answer → (List Answer → Run) → Run
write_chunks_sync wbuf [] answers then_read = then_read answers
write_chunks_sync wbuf (c ∷ cs) [] then_read = waiting (chunk_transfer wbuf c)
write_chunks_sync wbuf (c ∷ cs) (refused e ∷ rest) then_read =
    issued (chunk_transfer wbuf c) (finished (err e))
write_chunks_sync wbuf (c ∷ cs) (arrived _ ∷ rest) then_read =
    issued (chunk_transfer wbuf c) (write_chunks_sync wbuf cs rest then_read)

-- verimark_ctrl_write_sync
unfoldable pub ctrl_write_sync : List ℕ → List Answer → (List Answer → Run) → Run
ctrl_write_sync bytes answers then_read =
    let pad = frame_padded_len (length bytes) - length bytes in
    write_chunks_sync (bytes ++ replicate pad 0) (frame_write_chunks (length bytes)) answers
      then_read

-- The `while (acc->len < rmax)` loop of verimark_ctrl_read_sync, over the answers.
unfoldable pub read_loop_sync : ℕ → List Answer → List ℕ → Bool → ℕ → Run
read_loop_sync rmax [] acc first retries =
    if ltb (length acc) rmax
    then waiting (read_transfer (frame_read_chunk_next (rmax - length acc) first))
    else finished (ok acc)
read_loop_sync rmax (arrived bytes ∷ rest) acc first retries =
    let ask = frame_read_chunk_next (rmax - length acc) first in
    let more = read_loop_sync rmax rest (acc ++ bytes) false 0 in
    if ltb (length acc) rmax
    then issued (read_transfer ask)
        (if ltb (length bytes) ask.0 then finished (ok (acc ++ bytes)) else more)
    else finished (ok acc)
read_loop_sync rmax (refused e ∷ rest) acc first retries =
    let ask = frame_read_chunk_next (rmax - length acc) first in
    let again = read_loop_sync rmax rest acc first (retries + 1) in
    if ltb (length acc) rmax
    then issued (read_transfer ask)
        (if is_timed_out e && ltb retries sync_read_max_retries then again else finished (err e))
    else finished (ok acc)

-- verimark_ctrl_read_sync
unfoldable pub ctrl_read_sync : ℕ → List Answer → Run
unfolding read_loop_sync
ctrl_read_sync resp_max_len answers = read_loop_sync (max resp_max_len 1) answers [] true 0

-- verimark_ctrl_cmd_sync
unfoldable pub ctrl_cmd_sync : List ℕ → ℕ → List Answer → Run
unfolding ctrl_write_sync ctrl_read_sync
ctrl_cmd_sync bytes resp_max_len answers =
    ctrl_write_sync bytes answers (ctrl_read_sync resp_max_len)
