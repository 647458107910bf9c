-- ===== src/Examples/Transport.antt =====
-- The transport's properties at concrete inputs.
use verimark_linux_driver.Common.{
  max, min, usb_timed_out, ◌*◌, ◌≤◌, ◌≡◌, refl, true, false, Option, none, some, List, [], ◌∷◌,
  ◌++◌, length, ok, err, arith,
}
use verimark_linux_driver.Framing.{
  frame_max_chunk, write_chunks_max, frame_padded_len, write_loop, frame_read_chunk_next,
  frame_write_chunks,
}
use verimark_linux_driver.Ssm.{moved}
use verimark_linux_driver.Usb.{Answer, arrived, refused}
use verimark_linux_driver.Transport.Command.{
  cmd_ssm_handler, cmd_callback, cmd_run, cmd, write_chunk, read_chunk, CmdState,
}
use verimark_linux_driver.Transport.Sync.{read_loop_sync, ctrl_cmd_sync}
use verimark_linux_driver.Framing.Plan.{
  frame_write_chunks_tile, frame_write_chunks_received, Tiles, IsFlagged, received_len,
}
use verimark_linux_driver.Transport.Agree.{cmd-ctrl_cmd_sync}
use verimark_linux_driver.Transport.Reads.{
  length-cmd, read_loop_sync_resumes, read_loop_sync_gives_up, timeouts, Fits,
}

abbrev cmd_next : CmdState → Option CmdState
cmd_next write_chunk = some read_chunk
cmd_next read_chunk = none

-- One chunk of eight bytes is taken, one time-out is passed over, and a short reply comes.
abbrev answers : List Answer
answers = arrived [] ∷ refused usb_timed_out ∷ arrived (0x00 ∷ 0x00 ∷ 0x2a ∷ []) ∷ []

frame_write_chunks_tile_example :
    (1 ≤ length (frame_write_chunks 5000))
    × (length (frame_write_chunks 5000) ≤ write_chunks_max)
    × Tiles 0
        (min (frame_padded_len 5000) (write_chunks_max * frame_max_chunk))
        (frame_write_chunks 5000)
frame_write_chunks_tile_example = frame_write_chunks_tile 5000 (omega arith)

frame_write_chunks_received_example :
    (received_len (frame_write_chunks 5000) ≡ 5000) × IsFlagged true (frame_write_chunks 5000)
frame_write_chunks_received_example = frame_write_chunks_received 5000 (omega arith)

cmd-ctrl_cmd_sync_example :
    cmd cmd_next (0x99 ∷ 0x01 ∷ []) 576 answers ≡ ctrl_cmd_sync (0x99 ∷ 0x01 ∷ []) 576 answers
cmd-ctrl_cmd_sync_example = cmd-ctrl_cmd_sync cmd_next (refl, refl) (0x99 ∷ 0x01 ∷ []) 576 answers

cmd_result :
    (cmd cmd_next (0x99 ∷ 0x01 ∷ []) 576 answers).result ≡ some (ok (0x00 ∷ 0x00 ∷ 0x2a ∷ []))
unfolding cmd cmd_run moved cmd_callback frame_write_chunks frame_padded_len write_loop
    frame_read_chunk_next
cmd_result = refl

answers_fit : Fits (cmd cmd_next (0x99 ∷ 0x01 ∷ []) 576 answers).transfers answers
unfolding cmd cmd_run moved cmd_callback frame_write_chunks frame_padded_len write_loop
    frame_read_chunk_next cmd_ssm_handler
answers_fit = (tt, (tt, (omega arith, tt)))

length-cmd_example : 3 ≤ max 576 1
length-cmd_example =
    length-cmd cmd_next (refl, refl) (0x99 ∷ 0x01 ∷ []) 576 answers (0x00 ∷ 0x00 ∷ 0x2a ∷ [])
      answers_fit cmd_result

read_loop_sync_resumes_example :
    (read_loop_sync 4 (timeouts 25 ++ (arrived (7 ∷ []) ∷ [])) (1 ∷ []) false 0).result
    ≡ (read_loop_sync 4 (arrived (7 ∷ []) ∷ []) (1 ∷ []) false 0).result
read_loop_sync_resumes_example =
    read_loop_sync_resumes 4 (1 ∷ []) false (7 ∷ []) [] 25 (omega arith) (omega arith)

read_loop_sync_gives_up_example :
    (read_loop_sync 4 (timeouts 26 ++ (arrived (7 ∷ []) ∷ [])) (1 ∷ []) false 0).result
    ≡ some (err usb_timed_out)
read_loop_sync_gives_up_example =
    read_loop_sync_gives_up 4 (1 ∷ []) false (7 ∷ []) [] 26 (omega arith) (omega arith)
