-- ===== src/Moc/Verify/Attempts.antt =====
-- The attempts of a verification.
use verimark_linux_driver.Moc.Verify.{
  parse_verify, Match, verify_max_attempts, VfyState, Gallery, Verify, verify_ssm_handler,
  on_vfy_capture_done, match_parsed, on_vfy_match_done, vfy_callback, vfy_capture, vfy_match,
  verify_run,
}
use verimark_linux_driver.Moc.Io.{Event, Request}
use verimark_linux_driver.Common.{
  zero, suc, ◌+◌, ◌≤◌, ◌<◌, ◌≡◌, ◌≢◌, refl, ◌||◌, Option, List, [], ◌∷◌, leb, length, Outcome, ok,
  err, fault, Error, arith, Bool-cases, Option-cases, inl, inr, ◌⊎◌, ℕ,
}
use verimark_linux_driver.Ssm.{
  moved, Follows, Trace, stopped, asked, drive, next_state, jump_to_state, mark_completed,
  mark_failed, at, completed, failed, broken,
}
use verimark_linux_driver.Ssm.Runs.{drive-at, drive_ends, drive_fails}
use verimark_linux_driver.Moc.Replies.Safety.{parse_verify-safe}

match_parsed_acts :
    (o : Outcome Match) (c : Verify)
    → o ≢ fault
    → ((match_parsed o c).1 ≡ mark_completed)
      ⊎ ((x : Error) × ((match_parsed o c).1 ≡ mark_failed x))
unfolding match_parsed
match_parsed_acts (ok m) c safe = inl refl
match_parsed_acts (err x) c safe = inr (x, refl)
match_parsed_acts fault c safe = absurd (safe refl)

-- What the callback of the match does, whatever the reply.
pub match_acts :
    (e : Event) (c : Verify)
    → ((vfy_callback vfy_match e c).1 ≡ mark_completed)
      ⊎ ((x : Error) × ((vfy_callback vfy_match e c).1 ≡ mark_failed x))
unfolding vfy_callback on_vfy_match_done
match_acts e c = elim (Option-cases e.error) [
  | inl n ↦ ground (arith, n, match_parsed_acts (parse_verify e.resp) c (parse_verify-safe e.resp))
  | inr (x, n) ↦ inr (x, ground (arith, n))
]

pub capture_acts :
    (e : Event) (c : Verify)
    → ((vfy_callback vfy_capture e c).1 ≡ next_state)
      ⊎ (((x : Error) × ((vfy_callback vfy_capture e c).1 ≡ mark_failed x))
          ⊎ (((vfy_callback vfy_capture e c).1 ≡ jump_to_state vfy_capture)
              × (c.attempt + 1 < verify_max_attempts)
              × ((vfy_callback vfy_capture e c).0.attempt ≡ c.attempt + 1)))
unfolding vfy_callback on_vfy_capture_done
capture_acts e c = elim (Option-cases e.error) [
  | inl n ↦ inl (ground (arith, n))
  | inr (x, n) ↦
      elim (Bool-cases
        (leb verify_max_attempts (c.attempt + 1) || leb c.overall_deadline_us e.now)) [
          | inl over ↦ inr (inl (x, ground (arith, n, over)))
          | inr more ↦
              inr (inr (ground (arith, n, more), ground (arith, more), ground (arith, n, more)))
        ]
]

-- A run of at most `left` more requests, which is through when it has had as many events.
pub record Bounded (left : ℕ) (events : List Event) (t : Trace VfyState Verify Request)
    : Type 0 where
  pub requests_le : length t.requests ≤ left
  pub through : left ≤ length events → (s : VfyState) → t.status ≢ at s
  pub defined : t.status ≢ broken

Bounded-asked :
    {left : ℕ} {e : Event} {rest : List Event} {r : Request} {t : Trace VfyState Verify Request}
    → Bounded left rest t
    → Bounded (left + 1) (e ∷ rest) (asked r t)
Bounded-asked b = record {
  requests_le = ground (arith, b.requests_le);
  through = λ h. b.through (omega (arith, h));
  defined = b.defined;
}

Bounded-completed :
    (left : ℕ) {e : Event} {rest : List Event} (r : Request) (c : Verify)
    → Bounded (left + 1) (e ∷ rest) (stopped r completed c)
Bounded-completed left r c = record {
  requests_le = omega arith;
  through = λ _ s h. cc;
  defined = λ h. cc;
}

Bounded-failed :
    (left : ℕ) {e : Event} {rest : List Event} (r : Request) (x : Error) (c : Verify)
    → Bounded (left + 1) (e ∷ rest) (stopped r (failed x) c)
Bounded-failed left r x c = record {
  requests_le = omega arith;
  through = λ _ s h. cc;
  defined = λ h. cc;
}

Bounded-more :
    (k left : ℕ) {events : List Event} {t : Trace VfyState Verify Request}
    → k ≤ left
    → Bounded k events t
    → Bounded left events t
Bounded-more k left le b = record {
  requests_le = omega (arith, b.requests_le);
  through = λ h. b.through (omega (arith, h));
  defined = b.defined;
}

module _ (next : VfyState → Option VfyState)
    (order : Follows next vfy_capture (vfy_match ∷ [])) where
  abbrev run : List Event → VfyState → Verify → Trace VfyState Verify Request
  run = drive next verify_ssm_handler vfy_callback

  Bounded-none : (left : ℕ) (s : VfyState) (c : Verify) → Bounded (left + 1) [] (run [] s c)
  unfolding drive
  Bounded-none left s c = record {
    requests_le = omega arith;
    through = λ h. absurd (omega (arith, h));
    defined = λ h. cc;
  }

  match-Bounded : (events : List Event) (c : Verify) → Bounded 1 events (run events vfy_match c)
  match-Bounded [] c = Bounded-none 0 vfy_match c
  match-Bounded (e ∷ rest) c = elim (match_acts e c) [
    | inl done ↦
        rw (drive_ends next verify_ssm_handler vfy_callback e rest vfy_match c done)
          (Bounded-completed 0 _ _)
    | inr (x, fails) ↦
        rw (drive_fails next verify_ssm_handler vfy_callback e rest vfy_match c fails)
          (Bounded-failed 0 _ x _)
  ]

  -- `left` captures may yet be asked for.
  capture-Bounded :
      (events : List Event) (left : ℕ) (c : Verify)
      → c.attempt + left ≡ verify_max_attempts
      → 0 < left
      → Bounded (left + 1) events (run events vfy_capture c)
  unfolding moved
  capture-Bounded [] left c h p = Bounded-none left vfy_capture c
  capture-Bounded (e ∷ rest) zero c h p = absurd (omega (arith, p))
  capture-Bounded (e ∷ rest) (suc left) c h p = elim (capture_acts e c) [
    | inl on ↦
        rw
          (drive-at next verify_ssm_handler vfy_callback e rest vfy_capture c {t = vfy_match}
            (ground (arith, on, order)))
          (Bounded-asked (Bounded-more 1 (suc left) (omega arith) (match-Bounded rest _)))
    | inr (inl (x, fails)) ↦
        rw (drive_fails next verify_ssm_handler vfy_callback e rest vfy_capture c fails)
          (Bounded-failed (suc left) _ x _)
    | inr (inr (again, lt, attempt)) ↦
        rw
          (drive-at next verify_ssm_handler vfy_callback e rest vfy_capture c {t = vfy_capture}
            (ground (arith, again)))
          (Bounded-more (left + 1 + 1) (suc left + 1) (omega arith) (
            Bounded-asked
              (capture-Bounded rest left _ (omega (arith, h, attempt)) (omega (arith, h, lt)))))
  ]

  -- A verification or identification asks for at most 9 things (8 captures at the most, and the
  -- match), and reads nothing outside a reply. `next` is libfprint's step, through the states in the
  -- order of the source.
  pub length-verify_run :
      (gallery : Gallery) (now : ℕ) (events : List Event)
      → (length (verify_run next gallery now events).requests ≤ verify_max_attempts + 1)
        × ((verify_run next gallery now events).status ≢ broken)
  unfolding verify_run
  length-verify_run gallery now events =
      let b = capture-Bounded events 8 _ (omega arith) (omega arith) in (b.requests_le, b.defined)

  -- A verification or identification has no state left to enter when 9 of its callbacks have been
  -- called, whatever they are given.
  verify_run_ends :
      (gallery : Gallery) (now : ℕ) (events : List Event) (s : VfyState)
      → verify_max_attempts + 1 ≤ length events
      → (verify_run next gallery now events).status ≢ at s
  unfolding verify_run
  verify_run_ends gallery now events s h =
      (capture-Bounded events 8 _ (omega arith) (omega arith)).through (omega (arith, h)) s
