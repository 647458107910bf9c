-- ===== src/Moc/Enroll.antt =====
-- driver/verimark-moc.c: the enroll machine, as verimark_moc_enroll starts it.
pub mod Stages
pub mod Order
use verimark_linux_driver.Moc.Commands.{
  build_enroll_commit, build_finalize, build_enroll_sample, acq_enroll, build_enroll_create,
  acq_verify, build_begin_id,
}
use verimark_linux_driver.Ssm.{
  undefined, jump_to_state, drive, mark_completed, mark_failed, Trace, next_state, Act,
}
use verimark_linux_driver.Common.{
  fault, ◌||◌, not, ok, [], err, proto, ◌*◌, ◌+◌, ◌∷◌, Outcome, leb, ltb, none, some, ◌++◌, ◌==◌,
  Error, List, Option, if◌then◌else◌, ℕ,
}
use verimark_linux_driver.Moc.Prints.{build_print_data, PrintData, zero16}
use verimark_linux_driver.Moc.Io.{send, status_of, capture, Event, Request}
use verimark_linux_driver.Moc.Replies.{Sample, parse_sample}

-- VERIMARK_ENROLL_STAGES, VERIMARK_ENROLL_OVERALL_TIMEOUT_MS
abbrev pub enroll_stages : ℕ
enroll_stages = 8

abbrev pub enroll_overall_timeout_ms : ℕ
enroll_overall_timeout_ms = 150000

-- The anonymous enum of the ENR_ states
pub data EnrState : Type 0 where
  dedup_capture dedup create sample_capture sample finalize commit : EnrState

-- What fpi_device_enroll_progress is told.
pub record Progress : Type 0 where
  pub stage : ℕ
  pub error : Option Error

-- VerimarkEnrollCtx, the device's enroll_ fields, and the progress reported so far.
pub record Enroll : Type 0 where
  pub overall_deadline_us : ℕ
  pub enroll_stage : ℕ
  pub enroll_coverage : ℕ
  pub enroll_template_id : List ℕ
  pub reports : List Progress

-- enroll_ssm_handler. `sid` is what verimark_moc_synth_sid makes of the user and the machine's
-- seed, at each finalize the same; no pointer is NULL, so that it does not fail.
unfoldable pub enroll_ssm_handler : List ℕ → EnrState → Enroll → Request
enroll_ssm_handler sid dedup_capture c = capture acq_verify
enroll_ssm_handler sid dedup c = send build_begin_id 177
enroll_ssm_handler sid create c = send build_enroll_create 177
enroll_ssm_handler sid sample_capture c = capture acq_enroll
enroll_ssm_handler sid sample c = send build_enroll_sample 82
enroll_ssm_handler sid finalize c = send (build_finalize c.enroll_template_id sid) 2
enroll_ssm_handler sid commit c = send build_enroll_commit 2

abbrev pub Step : Type 0
Step = Enroll × Act EnrState

-- fpi_device_enroll_progress
unfoldable pub enroll_progress : Option Error → Enroll → Enroll
enroll_progress error c = record c {
  reports = c.reports ++ record { stage = c.enroll_stage; error = error } ∷ [];
}

-- In the state `s` that the machine is parked in.
unfoldable pub on_enr_capture_done : EnrState → Option Error → ℕ → Enroll → Step
on_enr_capture_done s none now c = (c, next_state)
on_enr_capture_done s (some x) now c =
    if leb c.overall_deadline_us now
    then (c, mark_failed x)
    else (enroll_progress (some x) c, jump_to_state s)

unfoldable pub on_enr_dedup_done : Enroll → Step
on_enr_dedup_done c = (c, next_state)

-- The ends of on_enr_create_done and on_enr_finalize_done: any status but 0 is a failure.
unfoldable pub on_enr_create_done : ℕ → Enroll → Step
on_enr_create_done status c = if status == 0x0000 then (c, next_state) else (c, mark_failed proto)

unfoldable pub on_enr_finalize_done : ℕ → Enroll → Step
on_enr_finalize_done status c = if status == 0x0000 then (c, next_state) else (c, mark_failed proto)

unfoldable pub on_enr_commit_done : ℕ → Enroll → Step
on_enr_commit_done status c =
    if status == 0x0000 then (c, mark_completed) else (c, mark_failed proto)

-- on_enr_sample_done, for a sample that is rejected or leaves the coverage as it is.
unfoldable pub sample_again : ℕ → Enroll → Step
sample_again now c =
    if leb c.overall_deadline_us now
    then (c, mark_failed proto)
    else (c, jump_to_state sample_capture)

-- on_enr_sample_done, for a sample that is taken.
unfoldable pub sample_taken : Sample → Enroll → Step
sample_taken m c =
    let stage = if ltb c.enroll_stage enroll_stages then c.enroll_stage + 1 else c.enroll_stage in
    let c' =
      enroll_progress none (record c { enroll_coverage = m.coverage; enroll_stage = stage }) in
    if m.coverage == 0x7f
    then (record c' { enroll_template_id = m.template_id }, next_state)
    else (c', jump_to_state sample_capture)

-- on_enr_sample_done, by what the parser made of the reply
unfoldable pub sample_parsed : Outcome Sample → (status now : ℕ) → Enroll → Step
sample_parsed (ok m) status now c =
    if not (status == 0x0000) || m.coverage == c.enroll_coverage
    then sample_again now c
    else sample_taken m c
sample_parsed (err _) status now c = sample_again now c
sample_parsed fault status now c = (c, undefined)

unfoldable pub on_enr_sample_done : List ℕ → ℕ → Enroll → Step
on_enr_sample_done resp now c = sample_parsed (parse_sample resp) (status_of resp) now c

-- The callbacks of the sends, behind `if (error != NULL) { fpi_ssm_mark_failed (ssm, error); return; }`.
unfoldable pub enr_reply : EnrState → Event → Enroll → Step
enr_reply dedup_capture e c = on_enr_capture_done dedup_capture none e.now c
enr_reply dedup e c = on_enr_dedup_done c
enr_reply create e c = on_enr_create_done (status_of e.resp) c
enr_reply sample_capture e c = on_enr_capture_done sample_capture none e.now c
enr_reply sample e c = on_enr_sample_done e.resp e.now c
enr_reply finalize e c = on_enr_finalize_done (status_of e.resp) c
enr_reply commit e c = on_enr_commit_done (status_of e.resp) c

unfoldable pub enr_error : EnrState → Error → ℕ → Enroll → Step
enr_error dedup_capture x now c = on_enr_capture_done dedup_capture (some x) now c
enr_error sample_capture x now c = on_enr_capture_done sample_capture (some x) now c
enr_error dedup x now c = (c, mark_failed x)
enr_error create x now c = (c, mark_failed x)
enr_error sample x now c = (c, mark_failed x)
enr_error finalize x now c = (c, mark_failed x)
enr_error commit x now c = (c, mark_failed x)

unfoldable pub enr_answer : Option Error → EnrState → Event → Enroll → Step
enr_answer none s e c = enr_reply s e c
enr_answer (some x) s e c = enr_error s x e.now c

unfoldable pub enr_callback : EnrState → Event → Enroll → Step
enr_callback s e c = enr_answer e.error s e c

-- verimark_moc_enroll, begun at `now`
unfoldable pub enroll_run :
    (EnrState → Option EnrState) → List ℕ → ℕ → List Event → Trace EnrState Enroll Request
enroll_run next sid now events =
    drive next (enroll_ssm_handler sid) enr_callback events dedup_capture (record {
      overall_deadline_us = now + enroll_overall_timeout_ms * 1000;
      enroll_stage = 0;
      enroll_coverage = 0;
      enroll_template_id = zero16;
      reports = [];
    })

-- verimark_enroll_ssm_done: the error, or the data of the print; `user_id` is libfprint's.
unfoldable pub enroll_ssm_done : List ℕ → Option Error → Enroll → Outcome PrintData
enroll_ssm_done user_id (some x) c = err x
enroll_ssm_done user_id none c = ok (build_print_data 1 c.enroll_template_id zero16 user_id)
