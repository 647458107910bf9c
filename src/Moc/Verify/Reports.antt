-- ===== src/Moc/Verify/Reports.antt =====
-- The report of a verification that completes.
use verimark_linux_driver.Moc.Io.{Event, Request}
use verimark_linux_driver.Common.{
  moc_invalid_data, ◌≡◌, ◌≢◌, refl, sym, ap, ◌∙◌, Bool, true, false, Option, none, some, List, [],
  ◌∷◌, ◌++◌, ltb, ◌==◌, if◌then◌else◌, length, All, Outcome, ok, err, fault, arith, Bool-cases,
  Option-cases, inl, inr, ◌⊎◌, ==→eq, >>=-eq-ok, copy, fail_if, ℕ,
}
use verimark_linux_driver.Moc.Replies.{Match, parse_verify, rd_u16_le, parse_match}
use verimark_linux_driver.Moc.Prints.{Print, print_matches_tid}
use verimark_linux_driver.Ssm.{moved, Follows, Trace, drive, mark_completed, completed}
use verimark_linux_driver.Moc.Verify.{
  VfyState, Gallery, Report, Verify, verify_ssm_handler, on_vfy_capture_done, first_match,
  matched_print, report_of, match_parsed, on_vfy_match_done, vfy_callback, vfy_capture, vfy_match,
  verify_data, identify_data, match_success, match_fail, verify_run,
}
use mathlib.Core.List.{Memᴰ}
use verimark_linux_driver.Ssm.Runs.{drive-at, drive_ends, drive_fails}
use verimark_linux_driver.Moc.Verify.Attempts.{match_acts, capture_acts}
use verimark_linux_driver.Moc.Prints.Holds.{Holds, print_matches_tid-Holds, Holds-print_matches_tid}

abbrev pub members : Gallery → List Print
members (verify_data none) = []
members (verify_data (some p)) = p ∷ []
members (identify_data prints) = prints

-- What a reply of the sensor is worth: a print that holds its id, or none of them does.
pub data Verdict (g : Gallery) (m : Match) : Report → Type 0 where
  success :
      {p : Print}
      → m.status ≡ 0
      → Memᴰ p (members g)
      → Holds p m.template_id
      → Verdict g m (match_success p)
  no_match : m.status ≢ 0 → Verdict g m match_fail
  unknown : m.status ≡ 0 → All (λ p. ¬ Holds p m.template_id) (members g) → Verdict g m match_fail

first_match-Verdict :
    (prints : List Print) (tid : List ℕ)
    → ((p : Print) × (first_match prints tid ≡ some p) × Memᴰ p prints × Holds p tid)
      ⊎ ((first_match prints tid ≡ none) × All (λ p. ¬ Holds p tid) prints)
unfolding first_match
first_match-Verdict [] tid = inr (refl, tt)
first_match-Verdict (p ∷ prints) tid = elim (Bool-cases (print_matches_tid p tid)) [
  | inl hit ↦ inl (p, ground (arith, hit), Memᴰ.head refl, print_matches_tid-Holds p tid hit)
  | inr miss ↦ elim (first_match-Verdict prints tid) [
    | inl (q, found, mem, holds) ↦ inl (q, ground (arith, miss, found), Memᴰ.tail mem, holds)
    | inr (found, all) ↦ inr (
      ground (arith, miss, found),
      (λ h. ground (arith, miss, Holds-print_matches_tid p tid h), all),
    )
  ]
]

-- verify is identify among the one print that there may be.
matched_print-members :
    (g : Gallery) (tid : List ℕ) → matched_print g tid ≡ first_match (members g) tid
unfolding matched_print first_match
matched_print-members (verify_data none) tid = refl
matched_print-members (verify_data (some p)) tid = refl
matched_print-members (identify_data prints) tid = refl

parse_match_matched :
    (resp : List ℕ) (status : ℕ) (b : Bool) (m : Match)
    → parse_match resp status b ≡ ok m
    → (m.matched ≡ b) × (m.status ≡ status)
unfolding parse_match
parse_match_matched resp status true m h =
    let (_, _, more) = >>=-eq-ok (fail_if (ltb (length resp) 18) moc_invalid_data) _ h in
    let (id, _, same) = >>=-eq-ok (copy resp 2 16) _ more in
    (ground (arith, same), ground (arith, same))
parse_match_matched resp status false m h = (ground (arith, h), ground (arith, h))

parse_verify_matched :
    (resp : List ℕ) (m : Match) → parse_verify resp ≡ ok m → m.matched ≡ (m.status == 0)
unfolding parse_verify
parse_verify_matched resp m h =
    let (_, _, more) = >>=-eq-ok (fail_if (ltb (length resp) 2) moc_invalid_data) _ h in
    let (status, _, rest) = >>=-eq-ok (rd_u16_le resp 0) _ more in
    let (matched, same) = parse_match_matched resp status (status == 0) m rest in
    matched ∙ ap (λ n. n == 0) (sym same)

found-Verdict :
    (g : Gallery) (m : Match)
    → m.matched ≡ (m.status == 0)
    → Verdict g m (report_of (if m.matched then matched_print g m.template_id else none))
unfolding report_of
found-Verdict g m h = elim (Bool-cases (m.status == 0)) [
  | inr bad ↦ rw (h, bad) (no_match (λ z. ground (arith, bad, z)))
  | inl good ↦ elim (first_match-Verdict (members g) m.template_id) [
    | inl (p, found, mem, holds) ↦
        rw (h, good, matched_print-members g m.template_id, found)
          (success (==→eq m.status 0 good) mem holds)
    | inr (found, all) ↦
        rw (h, good, matched_print-members g m.template_id, found)
          (unknown (==→eq m.status 0 good) all)
  ]
]

match_parsed_completed :
    (o : Outcome Match) (c : Verify)
    → (match_parsed o c).1 ≡ mark_completed
    → (m : Match) × (o ≡ ok m)
      × ((match_parsed o c).0.reports
          ≡ c.reports
            ++ report_of (if m.matched then matched_print c.gallery m.template_id else none) ∷ [])
unfolding match_parsed
match_parsed_completed (ok m) c h = (m, refl, refl)
match_parsed_completed (err x) c h = cc
match_parsed_completed fault c h = cc

-- The reports of a run that completes from a context in which none was made.
pub record Reported (g : Gallery) (events : List Event) (reports : List Report) : Type 0 where
  pub event : Event
  pub among : Memᴰ event events
  pub no_error : event.error ≡ none
  pub reply : Match
  pub parsed : parse_verify event.resp ≡ ok reply
  pub report : Report
  pub only_report : reports ≡ report ∷ []
  pub verdict : Verdict g reply report

Reported-tail :
    {e : Event} {g : Gallery} {events : List Event} {reports : List Report}
    → Reported g events reports
    → Reported g (e ∷ events) reports
Reported-tail r = record {
  event = r.event;
  among = Memᴰ.tail r.among;
  no_error = r.no_error;
  reply = r.reply;
  parsed = r.parsed;
  report = r.report;
  only_report = r.only_report;
  verdict = r.verdict;
}

match_callback_completed :
    (g : Gallery) (e : Event) (rest : List Event) (c : Verify)
    → c.gallery ≡ g
    → c.reports ≡ []
    → (vfy_callback vfy_match e c).1 ≡ mark_completed
    → Reported g (e ∷ rest) (vfy_callback vfy_match e c).0.reports
unfolding vfy_callback on_vfy_match_done
match_callback_completed g e rest c same empty h = elim (Option-cases e.error) [
  | inr (x, n) ↦ ground (arith, n, h)
  | inl n ↦
      let (m, p, made) = match_parsed_completed (parse_verify e.resp) c (ground (arith, n, h)) in
      record {
        event = e;
        among = Memᴰ.head refl;
        no_error = n;
        reply = m;
        parsed = p;
        report = report_of (if m.matched then matched_print g m.template_id else none);
        only_report = ground (arith, n, made, empty, same);
        verdict = found-Verdict g m (parse_verify_matched e.resp m p);
      }
]

capture_keeps :
    (e : Event) (c : Verify)
    → ((vfy_callback vfy_capture e c).0.gallery ≡ c.gallery)
      × ((vfy_callback vfy_capture e c).0.reports ≡ c.reports)
unfolding vfy_callback on_vfy_capture_done
capture_keeps e c = elim (Option-cases e.error) [
  | inl n ↦ (ground (arith, n), ground (arith, n))
  | inr (x, n) ↦ (ground (arith, n), ground (arith, n))
]

module _ (next : VfyState → Option VfyState)
    (order : Follows next vfy_capture (vfy_match ∷ [])) where
  abbrev run : List Event → VfyState → Verify → Trace VfyState Verify Request
  run = drive next verify_ssm_handler vfy_callback

  match_completed :
      (g : Gallery) (events : List Event) (c : Verify)
      → c.gallery ≡ g
      → c.reports ≡ []
      → (run events vfy_match c).status ≡ completed
      → Reported g events (run events vfy_match c).ctx.reports
  match_completed g [] c same empty h = unfold drive in cc
  match_completed g (e ∷ rest) c same empty h = elim (match_acts e c) [
    | inl done ↦
        rw (drive_ends next verify_ssm_handler vfy_callback e rest vfy_match c done)
          (match_callback_completed g e rest c same empty done)
    | inr (x, fails) ↦
        ground (
          arith,
          rw (drive_fails next verify_ssm_handler vfy_callback e rest vfy_match c fails) at h,
        )
  ]

  attempts_completed :
      (g : Gallery) (events : List Event) (c : Verify)
      → c.gallery ≡ g
      → c.reports ≡ []
      → (run events vfy_capture c).status ≡ completed
      → Reported g events (run events vfy_capture c).ctx.reports
  unfolding moved
  attempts_completed g [] c same empty h = unfold drive in cc
  attempts_completed g (e ∷ rest) c same empty h =
      let (same', empty') = capture_keeps e c in
      elim (capture_acts e c) [
        | inl on ↦
            let d =
              drive-at next verify_ssm_handler vfy_callback e rest vfy_capture c {t = vfy_match}
                (ground (arith, on, order)) in
            rw d
              (Reported-tail (match_completed g rest _ (same' ∙ same) (empty' ∙ empty) (rw d at h)))
        | inr (inl (x, fails)) ↦ ground (
          arith,
          rw (drive_fails next verify_ssm_handler vfy_callback e rest vfy_capture c fails) at h,
        )
        | inr (inr (again, _, _)) ↦
            let d =
              drive-at next verify_ssm_handler vfy_callback e rest vfy_capture c {t = vfy_capture}
                (ground (arith, again)) in
            rw d (
              Reported-tail
                (attempts_completed g rest _ (same' ∙ same) (empty' ∙ empty) (rw d at h)))
      ]

  -- A verification or identification that completes has made one report. It is of a match only
  -- if the sensor's reply has status 0 and the print is among those given and holds, as its
  -- minted id, the id of that reply; it is of no match only if that status is not 0 or none of the
  -- prints given holds that id. `next` is libfprint's step, through the states in the order of the
  -- source.
  pub verify_completed :
      (gallery : Gallery) (now : ℕ) (events : List Event)
      → (verify_run next gallery now events).status ≡ completed
      → Reported gallery events (verify_run next gallery now events).ctx.reports
  unfolding verify_run
  verify_completed gallery now events h = attempts_completed gallery events _ refl refl h
