-- ===== src/Transport/Command.antt =====
-- driver/verimark-transport.c, verimark_cmd: one command and its reply as an FpiSsm over EP0.
use verimark_linux_driver.Common.{
  ℕ, zero, suc, ◌+◌, ◌-◌, max, Bool, true, false, ◌&&◌, Option, none, some, List, [], ◌∷◌, ◌++◌,
  ltb, leb, if◌then◌else◌, length, replicate, slice, Error, Outcome, ok, err, fault, usb_timed_out,
}
use verimark_linux_driver.Framing.{
  WriteChunk, frame_padded_len, frame_write_chunks, frame_read_chunk_next,
}
use verimark_linux_driver.Usb.{Transfer, control_write, control_read, Answer, arrived, refused}
use verimark_linux_driver.Ssm.{
  Act, next_state, jump_to_state, jump_to_state_delayed, mark_completed, mark_failed, at, completed,
  failed, broken, moved,
}

-- VERIMARK_CTRL_READ_MAX_RETRIES
abbrev pub ctrl_read_max_retries : ℕ
ctrl_read_max_retries = 25

-- VERIMARK_CTRL_READ_RETRY_DELAY_MS
abbrev pub ctrl_read_retry_delay_ms : ℕ
ctrl_read_retry_delay_ms = 20

pub data CmdState : Type 0 where
  write_chunk read_chunk : CmdState

-- VerimarkCmdCtx. `wchunks` holds the first `wchunk_count` slots of the array.
pub record CmdCtx : Type 0 where
  pub wbuf : List ℕ
  pub wchunks : List WriteChunk
  pub wchunk_idx : ℕ
  pub rbuf : List ℕ
  pub rmax : ℕ
  pub rfirst : Bool
  pub rretries : ℕ

-- The slots behind the plan are zero (`g_new0`).
unfoldable pub chunk_at : List WriteChunk → ℕ → WriteChunk
chunk_at [] i = record { offset = 0; len = 0; wvalue = 0 }
chunk_at (c ∷ cs) zero = c
chunk_at (c ∷ cs) (suc i) = chunk_at cs i

abbrev pub is_timed_out : Error → Bool
is_timed_out usb_timed_out = true
is_timed_out _ = false

-- What a run has done: the transfers issued, in order, and its result once it has one.
pub record Run : Type 0 where
  pub transfers : List Transfer
  pub result : Option (Outcome (List ℕ))

abbrev pub finished : Outcome (List ℕ) → Run
finished r = record { transfers = []; result = some r }

-- The transfer has no answer yet.
abbrev pub waiting : Transfer → Run
waiting t = record { transfers = t ∷ []; result = none }

abbrev pub issued : Transfer → Run → Run
issued t r = record { transfers = t ∷ r.transfers; result = r.result }

-- The bytes of one chunk, out of the padded buffer.
abbrev pub chunk_transfer : List ℕ → WriteChunk → Transfer
chunk_transfer wbuf c = control_write c.wvalue (slice c.offset c.len wbuf)

abbrev pub read_transfer : ℕ × ℕ → Transfer
read_transfer p = control_read p.1 p.0

-- The length and wValue of the next read; `rbuf` is shorter than `rmax` whenever one is made.
unfoldable pub next_read : CmdCtx → ℕ × ℕ
next_read ctx = frame_read_chunk_next (ctx.rmax - length ctx.rbuf) ctx.rfirst

-- cmd_ssm_handler
unfoldable pub cmd_ssm_handler : CmdState → CmdCtx → Transfer
unfolding next_read
cmd_ssm_handler write_chunk ctx = chunk_transfer ctx.wbuf (chunk_at ctx.wchunks ctx.wchunk_idx)
cmd_ssm_handler read_chunk ctx = read_transfer (next_read ctx)

unfoldable pub on_write_chunk_done : Answer → CmdCtx → CmdCtx × Act CmdState
on_write_chunk_done (refused e) ctx = (ctx, mark_failed e)
on_write_chunk_done (arrived _) ctx =
    let idx = ctx.wchunk_idx + 1 in
    (
      record ctx { wchunk_idx = idx },
      if ltb idx (length ctx.wchunks) then jump_to_state write_chunk else next_state,
    )

-- `transfer->length` is the length that the handler asked for.
unfoldable pub on_read_chunk_done : Answer → CmdCtx → CmdCtx × Act CmdState
unfolding next_read
on_read_chunk_done (refused e) ctx =
    if is_timed_out e && ltb ctx.rretries ctrl_read_max_retries
    then (
      record ctx { rretries = ctx.rretries + 1 },
      jump_to_state_delayed read_chunk ctrl_read_retry_delay_ms,
    )
    else (ctx, mark_failed e)
on_read_chunk_done (arrived bytes) ctx =
    let rbuf = ctx.rbuf ++ bytes in
    let answered = record ctx { rretries = 0; rbuf = rbuf } in
    if ltb (length bytes) (next_read ctx).0
    then (answered, mark_completed)
    else if leb ctx.rmax (length rbuf)
    then (answered, mark_completed)
    else (record answered { rfirst = false }, jump_to_state read_chunk)

unfoldable pub cmd_callback : CmdState → Answer → CmdCtx → CmdCtx × Act CmdState
unfolding on_write_chunk_done on_read_chunk_done
cmd_callback write_chunk a ctx = on_write_chunk_done a ctx
cmd_callback read_chunk a ctx = on_read_chunk_done a ctx

module _ (next : CmdState → Option CmdState) where
  -- The machine over the answers that the device gives; cmd_ssm_completed hands out `rbuf`.
  unfoldable pub cmd_run : List Answer → CmdState → CmdCtx → Run
  cmd_run [] s ctx = waiting (cmd_ssm_handler s ctx)
  cmd_run (a ∷ rest) s ctx =
      let (ctx', act) = cmd_callback s a ctx in
      issued (cmd_ssm_handler s ctx) (elim (moved next s act) [
        | at t ↦ cmd_run rest t ctx'
        | completed ↦ finished (ok ctx'.rbuf)
        | failed e ↦ finished (err e)
        | broken ↦ finished fault
      ])

  -- verimark_cmd
  unfoldable pub cmd : List ℕ → ℕ → List Answer → Run
  cmd bytes resp_max_len answers = cmd_run answers write_chunk (record {
    wbuf = bytes ++ replicate (frame_padded_len (length bytes) - length bytes) 0;
    wchunks = frame_write_chunks (length bytes);
    wchunk_idx = 0;
    rbuf = [];
    rmax = max resp_max_len 1;
    rfirst = true;
    rretries = 0;
  })
