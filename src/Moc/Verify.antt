-- ===== src/Moc/Verify.antt =====
-- driver/verimark-moc.c: the machine of verify and identify. The print to verify against, and the
-- prints to identify among, are what libfprint gives.
pub mod Attempts
pub mod Reports
use verimark_linux_driver.Ssm.{
  drive, jump_to_state, undefined, Trace, mark_completed, mark_failed, next_state, Act,
}
use verimark_linux_driver.Common.{
  Error-discrete, zero, suc, ◌+◌, ◌*◌, ◌/◌, ◌%◌, ◌^◌, ◌≤◌, ◌<◌, ◌≡◌, ◌≢◌, refl, sym, ap, ◌∙◌, Bool,
  true, false, not, ◌&&◌, ◌||◌, Option, none, some, List, [], ◌∷◌, ◌++◌, ltb, leb, ◌==◌,
  if◌then◌else◌, length, All, Outcome, ok, err, fault, ◌>>=◌, Error, arith, Bool-cases,
  Option-cases, inl, inr, ◌⊎◌, ==→eq, >>=-eq-ok, map-safe, take, drop, replicate, read, copy,
  fail_if, proto, retry, data_invalid, ℕ,
}
use verimark_linux_driver.Moc.Commands.{build_begin_id, acq_verify}
use verimark_linux_driver.Moc.Replies.{parse_verify, Match}
use verimark_linux_driver.Moc.Io.{Request, capture, send, Event}
use verimark_linux_driver.Moc.Prints.{Print, print_matches_tid}

-- VERIMARK_VERIFY_MAX_ATTEMPTS, VERIMARK_VERIFY_OVERALL_TIMEOUT_MS
abbrev pub verify_max_attempts : ℕ
verify_max_attempts = 8

abbrev pub verify_overall_timeout_ms : ℕ
verify_overall_timeout_ms = 45000

-- The anonymous enum of the VFY_ states
pub data VfyState : Type 0 where
  vfy_capture vfy_match : VfyState

-- fpi_device_get_verify_data, where it gives a print, or fpi_device_get_identify_data
pub data Gallery : Type 0 where
  verify_data : Option Print → Gallery
  identify_data : List Print → Gallery

-- What fpi_device_verify_report and fpi_device_identify_report are told: the print that matched, if
-- one did, or an error.
pub data Report : Type 0 where
  match_success : Print → Report
  match_fail : Report
  match_error : Error → Report

-- VerimarkVerifyCtx, with `gallery` for `is_identify`, and the reports made.
pub record Verify : Type 0 where
  pub gallery : Gallery
  pub attempt : ℕ
  pub overall_deadline_us : ℕ
  pub reports : List Report

-- verify_ssm_handler
unfoldable pub verify_ssm_handler : VfyState → Verify → Request
verify_ssm_handler vfy_capture c = capture acq_verify
verify_ssm_handler vfy_match c = send build_begin_id 177

abbrev pub Step : Type 0
Step = Verify × Act VfyState

unfoldable pub on_vfy_capture_done : Option Error → ℕ → Verify → Step
on_vfy_capture_done none now c = (c, next_state)
on_vfy_capture_done (some x) now c =
    let c' = record c { attempt = c.attempt + 1 } in
    if leb verify_max_attempts c'.attempt || leb c.overall_deadline_us now
    then (c', mark_failed x)
    else (c', jump_to_state vfy_capture)

-- The first of the prints that holds the id.
unfoldable pub first_match : List Print → List ℕ → Option Print
first_match [] tid = none
first_match (p ∷ prints) tid = if print_matches_tid p tid then some p else first_match prints tid

-- The print that is reported for an id of the sensor.
unfoldable pub matched_print : Gallery → List ℕ → Option Print
unfolding first_match
matched_print (verify_data none) tid = none
matched_print (verify_data (some p)) tid = if print_matches_tid p tid then some p else none
matched_print (identify_data prints) tid = first_match prints tid

unfoldable pub report_of : Option Print → Report
report_of (some p) = match_success p
report_of none = match_fail

-- on_vfy_match_done, by what the parser made of the reply
unfoldable pub match_parsed : Outcome Match → Verify → Step
match_parsed (ok m) c =
    let found = if m.matched then matched_print c.gallery m.template_id else none in
    (record c { reports = c.reports ++ report_of found ∷ [] }, mark_completed)
match_parsed (err x) c = (c, mark_failed x)
match_parsed fault c = (c, undefined)

unfoldable pub on_vfy_match_done : Option Error → List ℕ → Verify → Step
on_vfy_match_done none resp c = match_parsed (parse_verify resp) c
on_vfy_match_done (some x) resp c = (c, mark_failed x)

unfoldable pub vfy_callback : VfyState → Event → Verify → Step
vfy_callback vfy_capture e c = on_vfy_capture_done e.error e.now c
vfy_callback vfy_match e c = on_vfy_match_done e.error e.resp c

-- verimark_moc_verify_identify_start, at `now`
unfoldable pub verify_run :
    (VfyState → Option VfyState) → Gallery → ℕ → List Event → Trace VfyState Verify Request
verify_run next gallery now events =
    drive next verify_ssm_handler vfy_callback events vfy_capture (record {
      gallery = gallery;
      attempt = 0;
      overall_deadline_us = now + verify_overall_timeout_ms * 1000;
      reports = [];
    })

-- verimark_verify_ssm_done: all reports, and the error of the completion, which is none after
-- g_steal_pointer has moved it into a report.
unfoldable pub verify_ssm_done : Option Error → Verify → List Report × Option Error
verify_ssm_done none c = (c.reports, none)
verify_ssm_done (some x) c = elim (Error-discrete x retry) [
  | yes _ ↦ (c.reports ++ match_error x ∷ [], none)
  | no _ ↦ (c.reports, some x)
]
