-- ===== src/Interrupt.antt =====
-- driver/verimark-transport.c: the wait for an interrupt (verimark_intr_wait_async), and the drain of
-- the interrupts that are queued (verimark_intr_drain_sync).
pub mod Waits
pub mod Drains
use verimark_linux_driver.Common.{
  ◌-◌, get_elem?, min, zero, suc, ◌+◌, ◌*◌, ◌/◌, ◌%◌, ◌^◌, ◌≤◌, ◌<◌, ◌≡◌, ◌≢◌, refl, sym, ap, ◌∙◌,
  Bool, true, false, not, ◌&&◌, ◌||◌, Option, none, some, List, [], ◌∷◌, ◌++◌, ltb, leb, ◌==◌,
  if◌then◌else◌, length, All, Outcome, ok, err, fault, ◌>>=◌, Error, arith, Bool-cases,
  Option-cases, inl, inr, ◌⊎◌, ==→eq, >>=-eq-ok, map-safe, take, drop, replicate, read, copy,
  fail_if, proto, retry, data_invalid, ℕ,
}
use verimark_linux_driver.Transport.Command.{
  ctrl_read_max_retries, ctrl_read_retry_delay_ms, CmdState, CmdCtx, chunk_at, is_timed_out, Run,
  finished, waiting, issued, chunk_transfer, read_transfer, next_read, cmd_ssm_handler,
  on_write_chunk_done, on_read_chunk_done, cmd_callback, cmd_run, cmd, write_chunk, read_chunk,
}
use verimark_linux_driver.Usb.{Answer, arrived, refused}

-- VERIMARK_INTR_ATTEMPT_MS, VERIMARK_INTR_DRAIN_MAX_READS
abbrev pub intr_attempt_ms : ℕ
intr_attempt_ms = 500

abbrev pub intr_drain_max_reads : ℕ
intr_drain_max_reads = 16

-- VerimarkIntrCtx, as verimark_intr_wait_async fills it; `none` is the deadline G_MAXINT64.
pub record IntrCtx : Type 0 where
  pub want_type : ℕ
  pub deadline_us : Option ℕ

unfoldable pub intr_ctx : (want_type timeout_ms now : ℕ) → IntrCtx
intr_ctx want_type timeout_ms now = record {
  want_type = want_type;
  deadline_us = if timeout_ms == 0 then none else some (now + timeout_ms * 1000);
}

-- One round of the machine's only state: the clock when the handler runs, what the transfer that it
-- submits is answered with, and the clock when the callback runs.
pub record Attempt : Type 0 where
  pub asked_us : ℕ
  pub answer : Answer
  pub answered_us : ℕ

-- What the callback of the wait is given.
pub data IntrResult : Type 0 where
  got : (seq : ℕ) → IntrResult
  not_got : IntrResult
  wait_failed : Error → IntrResult

-- The time-outs of the transfers submitted, in order, and the result once there is one.
pub record IntrRun : Type 0 where
  pub timeouts_ms : List ℕ
  pub result : Option IntrResult

-- `ctx->deadline_us != G_MAXINT64 && now >= ctx->deadline_us`
unfoldable pub is_late : Option ℕ → ℕ → Bool
is_late none now = false
is_late (some deadline) now = leb deadline now

-- intr_ssm_handler: the time-out of the transfer, or none where the wait is over.
unfoldable pub intr_ssm_handler : Option ℕ → ℕ → Option ℕ
intr_ssm_handler none now = some intr_attempt_ms
intr_ssm_handler (some deadline) now =
    if leb deadline now then none else some (min intr_attempt_ms ((deadline - now + 999) / 1000))

-- The seventh byte of the packet, or 0 where there is none.
unfoldable pub seq_of : List ℕ → ℕ
seq_of packet = elim (get_elem? packet 6) [ some b ↦ b | none ↦ 0 ]

-- `transfer->actual_length >= 1 && transfer->buffer[0] == ctx->want_type`
unfoldable pub is_wanted : ℕ → List ℕ → Bool
is_wanted want [] = false
is_wanted want (b ∷ _) = b == want

-- on_intr_read_done: the result, or none where the state is entered again.
unfoldable pub on_intr_read_done : IntrCtx → Answer → ℕ → Option IntrResult
on_intr_read_done ctx (refused x) now =
    if is_timed_out x
    then (if is_late ctx.deadline_us now then some not_got else none)
    else some (wait_failed x)
on_intr_read_done ctx (arrived packet) now =
    if is_wanted ctx.want_type packet
    then some (got (seq_of packet))
    else if is_late ctx.deadline_us now
    then some not_got
    else none

-- The machine over its attempts; the attempts that it does not make are left over.
unfoldable pub intr_wait : IntrCtx → List Attempt → IntrRun
intr_wait ctx [] = record { timeouts_ms = []; result = none }
intr_wait ctx (a ∷ rest) =
    let more = intr_wait ctx rest in
    elim (intr_ssm_handler ctx.deadline_us a.asked_us) [
      | none ↦ record { timeouts_ms = []; result = some not_got }
      | some ms ↦ elim (on_intr_read_done ctx a.answer a.answered_us) [
        | some r ↦ record { timeouts_ms = ms ∷ []; result = some r }
        | none ↦ record { timeouts_ms = ms ∷ more.timeouts_ms; result = more.result }
      ]
    ]

-- The `for` loop of verimark_intr_drain_sync: the answers that are not asked for. `left` is
-- VERIMARK_INTR_DRAIN_MAX_READS - i.
unfoldable pub drain_loop : (left : ℕ) → List Answer → List Answer
drain_loop zero answers = answers
drain_loop (suc left) [] = []
drain_loop (suc left) (refused _ ∷ rest) = rest
drain_loop (suc left) (arrived [] ∷ rest) = rest
drain_loop (suc left) (arrived (_ ∷ _) ∷ rest) = drain_loop left rest

unfoldable pub intr_drain_sync : List Answer → List Answer
intr_drain_sync answers = drain_loop intr_drain_max_reads answers
