-- ===== src/Transport/Agree.antt =====
-- The asynchronous transport of driver/verimark-transport.c and the blocking one of
-- driver/verimark.c, on the same command and the same answers of the device.
use verimark_linux_driver.Common.{
  sym, ℕ, zero, suc, ◌+◌, ◌-◌, ◌≤◌, ◌<◌, max, ◌≡◌, ap, ◌∙◌, Bool, true, false, Option, List, [],
  ◌∷◌, ◌++◌, length, drop, replicate, arith, ok, lt→ltb, ge→ltb,
}
use verimark_linux_driver.Framing.{WriteChunk, frame_padded_len}
use verimark_linux_driver.Framing.Plan.{frame_write_chunks_nonempty}
use verimark_linux_driver.Usb.{Answer, arrived, refused}
use verimark_linux_driver.Ssm.{Follows, moved}
use verimark_linux_driver.Transport.Command.{
  CmdState, write_chunk, read_chunk, CmdCtx, chunk_at, cmd_ssm_handler, cmd_callback, cmd_run, cmd,
  finished,
}
use verimark_linux_driver.Transport.Sync.{write_chunks_sync, read_loop_sync, ctrl_cmd_sync}

-- A full buffer ends the blocking loop before it looks at an answer.
pub read_loop_sync_full :
    (rmax : ℕ) (answers : List Answer) (acc : List ℕ) (first : Bool) (retries : ℕ)
    → rmax ≤ length acc
    → read_loop_sync rmax answers acc first retries ≡ finished (ok acc)
unfolding read_loop_sync
read_loop_sync_full rmax [] acc first retries h = rw (ge→ltb (length acc) rmax h)
read_loop_sync_full rmax (arrived b ∷ rest) acc first retries h = rw (ge→ltb (length acc) rmax h)
read_loop_sync_full rmax (refused e ∷ rest) acc first retries h = rw (ge→ltb (length acc) rmax h)

chunk_at-drop :
    (plan : List WriteChunk) (i : ℕ) (c : WriteChunk) (cs : List WriteChunk)
    → drop i plan ≡ c ∷ cs
    → (chunk_at plan i ≡ c) × (drop (i + 1) plan ≡ cs) × (length plan ≡ i + 1 + length cs)
unfolding chunk_at
chunk_at-drop [] zero c cs e = cc
chunk_at-drop [] (suc i) c cs e = cc
chunk_at-drop (x ∷ xs) zero c cs e = (cc, cc, ground (arith, e))
chunk_at-drop (x ∷ xs) (suc i) c cs e =
    let (at, more, len) = chunk_at-drop xs i c cs e in
    let step : suc i + 1 ≡ suc (i + 1) = omega arith in (at, rw step more, omega (arith, len))

module _ (next : CmdState → Option CmdState)
    (order : Follows next write_chunk (read_chunk ∷ [])) where
  cmd_run-read :
      (answers : List Answer) (ctx : CmdCtx)
      → length ctx.rbuf < ctx.rmax
      → cmd_run next answers read_chunk ctx
        ≡ read_loop_sync ctx.rmax answers ctx.rbuf ctx.rfirst ctx.rretries
  unfolding cmd_run cmd_callback cmd_ssm_handler read_loop_sync moved
  cmd_run-read [] ctx h = rw (lt→ltb (length ctx.rbuf) ctx.rmax h)
  cmd_run-read (refused e ∷ rest) ctx h =
      ground (arith, cmd_run-read rest (record ctx { rretries = ctx.rretries + 1 }))
  cmd_run-read (arrived bytes ∷ rest) ctx h =
      let full = record ctx { rretries = 0; rbuf = ctx.rbuf ++ bytes } in
      ground (
        arith,
        cmd_run-read rest (record full { rfirst = false }),
        read_loop_sync_full ctx.rmax rest (ctx.rbuf ++ bytes) false 0,
      )

  -- The chunks from `wchunk_idx` on, one after the other, and then the reads.
  cmd_run-write :
      (answers : List Answer) (ctx : CmdCtx) (c : WriteChunk) (cs : List WriteChunk)
      → drop ctx.wchunk_idx ctx.wchunks ≡ c ∷ cs
      → length ctx.rbuf < ctx.rmax
      → cmd_run next answers write_chunk ctx
        ≡ write_chunks_sync ctx.wbuf
            (c ∷ cs)
            answers
            (λ rest. read_loop_sync ctx.rmax rest ctx.rbuf ctx.rfirst ctx.rretries)
  unfolding cmd_run cmd_callback cmd_ssm_handler write_chunks_sync moved
  cmd_run-write [] ctx c cs e h = ground (arith, chunk_at-drop ctx.wchunks ctx.wchunk_idx c cs e)
  cmd_run-write (refused x ∷ rest) ctx c cs e h =
      ground (arith, chunk_at-drop ctx.wchunks ctx.wchunk_idx c cs e)
  cmd_run-write (arrived bytes ∷ rest) ctx c [] e h =
      let on = record ctx { wchunk_idx = ctx.wchunk_idx + 1 } in
      ground (arith, order, chunk_at-drop ctx.wchunks ctx.wchunk_idx c [] e, cmd_run-read rest on h)
  cmd_run-write (arrived bytes ∷ rest) ctx c (d ∷ ds) e h =
      let on = record ctx { wchunk_idx = ctx.wchunk_idx + 1 } in
      let (here, more, _) = chunk_at-drop ctx.wchunks ctx.wchunk_idx c (d ∷ ds) e in
      ground (
        arith,
        chunk_at-drop ctx.wchunks ctx.wchunk_idx c (d ∷ ds) e,
        cmd_run-write rest on d ds more h,
      )

  -- On every command, reply limit and sequence of answers the asynchronous transport issues the same
  -- transfers and comes to the same result as the blocking one, whatever the step to the
  -- next state is, if it leads from the write state to the read state.
  pub cmd-ctrl_cmd_sync :
      (bytes : List ℕ) (resp_max_len : ℕ) (answers : List Answer)
      → cmd next bytes resp_max_len answers ≡ ctrl_cmd_sync bytes resp_max_len answers
  unfolding cmd ctrl_cmd_sync
  cmd-ctrl_cmd_sync bytes resp_max_len answers =
      let (c, cs, e) = frame_write_chunks_nonempty (length bytes) in
      cmd_run-write answers _ c cs e (omega arith)
      ∙ ap
          (λ plan.
            write_chunks_sync
              (bytes ++ replicate (frame_padded_len (length bytes) - length bytes) 0) plan answers
              (λ rest. read_loop_sync (max resp_max_len 1) rest [] true 0))
          (sym e)
