-- ===== src/Moc/Enroll/Order.antt =====
-- What an enrollment that completes has sent and seen.
use verimark_linux_driver.Common.{
  ◌≡◌, ◌≢◌, refl, ap, ◌∙◌, Bool, true, false, not, ◌||◌, Option, none, List, [], ◌∷◌, ◌++◌, ◌==◌,
  Outcome, ok, err, fault, arith, Bool-cases, Option-cases, inl, inr, ◌⊎◌, ==→eq, proto, ℕ,
}
use verimark_linux_driver.Ssm.{
  Status, moved, Follows, Trace, asked, drive, next_state, jump_to_state, mark_failed, at,
  completed, undefined,
}
use verimark_linux_driver.Moc.Enroll.{
  EnrState, Enroll, enroll_ssm_handler, on_enr_capture_done, on_enr_dedup_done, on_enr_create_done,
  on_enr_finalize_done, on_enr_commit_done, sample_again, sample_taken, sample_parsed,
  on_enr_sample_done, enr_reply, enr_error, enr_answer, enr_callback, dedup_capture, create,
  sample_capture, sample, finalize, commit, enroll_run, dedup,
}
use mathlib.Core.List.{Memᴰ}
use verimark_linux_driver.Ssm.Runs.{drive_completed, drive_one_way}
use verimark_linux_driver.Moc.Commands.{build_enroll_sample, build_finalize, build_enroll_commit}
use verimark_linux_driver.Moc.Replies.{Sample, parse_sample}
use verimark_linux_driver.Moc.Io.{Event, Request, send, status_of}

-- A reply to the sample command that says that the coverage is full, with the id that was minted.
pub record IsLastSample (e : Event) (template_id : List ℕ) : Type 0 where
  pub no_error : e.error ≡ none
  pub status_ok : status_of e.resp ≡ 0
  pub sample : Sample
  pub parsed : parse_sample e.resp ≡ ok sample
  pub full : sample.coverage ≡ 0x7f
  pub minted : sample.template_id ≡ template_id

-- What a completed run has asked for, from any of its states before finalize on.
pub record Enrolled (sid : List ℕ) (events : List Event) (t : Trace EnrState Enroll Request)
    : Type 0 where
  pub before : List Request
  pub sent :
      t.requests
      ≡ before
        ++ (send build_enroll_sample 82
            ∷ send (build_finalize t.ctx.enroll_template_id sid) 2
            ∷ send build_enroll_commit 2
            ∷ [])
  pub seen : (e : Event) × Memᴰ e events × IsLastSample e t.ctx.enroll_template_id

sample_parsed_acts :
    (o : Outcome Sample) (status now : ℕ) (c : Enroll)
    → ((sample_parsed o status now c).1 ≡ jump_to_state sample_capture)
      ⊎ (((sample_parsed o status now c).1 ≡ mark_failed proto)
          ⊎ (((sample_parsed o status now c).1 ≡ undefined)
              ⊎ (((sample_parsed o status now c).1 ≡ next_state)
                  × ((m : Sample) × (o ≡ ok m)
                      × (status ≡ 0)
                      × (m.coverage ≡ 0x7f)
                      × (m.template_id ≡ (sample_parsed o status now c).0.enroll_template_id)))))
unfolding sample_parsed sample_again sample_taken
sample_parsed_acts (ok m) status now c =
    elim (Bool-cases (not (status == 0) || m.coverage == c.enroll_coverage)) [
      | inl again ↦ ground (arith, again)
      | inr new ↦ elim (Bool-cases (m.coverage == 0x7f)) [
        | inl full ↦ inr (
            inr (
              inr (
                rw (new, full) refl,
                (m, refl, ground (arith, new), ==→eq m.coverage 0x7f full, rw (new, full) refl),
              )))
        | inr part ↦ ground (arith, new, part)
      ]
    ]
sample_parsed_acts (err x) status now c = ground arith
sample_parsed_acts fault status now c = ground arith

abbrev before_sample : EnrState → Bool
before_sample dedup_capture = true
before_sample dedup = true
before_sample create = true
before_sample sample_capture = true
before_sample sample = false
before_sample finalize = false
before_sample commit = false

abbrev early : EnrState → Bool
early dedup_capture = true
early dedup = true
early create = true
early sample_capture = true
early sample = true
early finalize = false
early commit = false

early_cases : (s : EnrState) → early s ≡ true → (before_sample s ≡ true) ⊎ (s ≡ sample)
early_cases dedup_capture a = inl refl
early_cases dedup a = inl refl
early_cases create a = inl refl
early_cases sample_capture a = inl refl
early_cases sample a = inr refl
early_cases finalize a = ground (arith, a)
early_cases commit a = ground (arith, a)

Enrolled-asked :
    (e : Event) {sid : List ℕ} {events : List Event} {r : Request}
    {t : Trace EnrState Enroll Request}
    → Enrolled sid events t
    → Enrolled sid (e ∷ events) (asked r t)
Enrolled-asked e {r = r} p = record {
  before = r ∷ p.before;
  sent = ap (λ l. r ∷ l) p.sent;
  seen = (p.seen.0, Memᴰ.tail p.seen.1, p.seen.2);
}

module _ (sid : List ℕ) (next : EnrState → Option EnrState)
    (order : Follows next dedup_capture
      (dedup ∷ create ∷ sample_capture ∷ sample ∷ finalize ∷ commit ∷ [])) where
  abbrev run : List Event → EnrState → Enroll → Trace EnrState Enroll Request
  run = drive next (enroll_ssm_handler sid) enr_callback

  abbrev after : EnrState → Event → Enroll → Status EnrState
  after s e c = moved next s (enr_callback s e c).1

  sample_moves :
      (e : Event) (c : Enroll)
      → ((t : EnrState)
          → after sample e c ≡ at t
          → (t ≡ sample_capture)
            ⊎ ((t ≡ finalize) × IsLastSample e (enr_callback sample e c).0.enroll_template_id))
        × (after sample e c ≢ completed)
  unfolding enr_callback enr_answer enr_error enr_reply on_enr_sample_done moved
  sample_moves e c = elim (Option-cases e.error) [
    | inr (x, h) ↦ (λ t m. ground (arith, h, m), λ m. ground (arith, h, m))
    | inl h ↦ elim (sample_parsed_acts (parse_sample e.resp) (status_of e.resp) e.now c) [
      | inl a ↦ (λ t m. inl (ground (arith, h, m, a)), λ m. ground (arith, h, m, a))
      | inr (inl a) ↦ (λ t m. ground (arith, h, m, a), λ m. ground (arith, h, m, a))
      | inr (inr (inl a)) ↦ (λ t m. ground (arith, h, m, a), λ m. ground (arith, h, m, a))
      | inr (inr (inr (a, (k, p, z, full, minted)))) ↦ (
        λ t m. inr (
          ground (arith, h, m, a, order),
          record {
            no_error = h;
            status_ok = z;
            sample = k;
            parsed = p;
            full = full;
            minted = ground (arith, h, minted);
          },
        ),
        λ m. ground (arith, h, m, a, order),
      )
    ]
  ]

  commit_moves :
      (e : Event) (c : Enroll)
      → ((t : EnrState) → after commit e c ≢ at t)
        × (after commit e c ≡ completed → (enr_callback commit e c).0 ≡ c)
  unfolding enr_callback enr_answer enr_error enr_reply on_enr_commit_done moved
  commit_moves e c = elim (Option-cases e.error) [
    | inr (x, h) ↦ (λ t m. ground (arith, h, m), λ m. ground (arith, h, m))
    | inl h ↦ (λ t m. ground (arith, h, m), λ m. ground (arith, h, m))
  ]

  finalize_moves :
      (e : Event) (c : Enroll)
      → ((t : EnrState)
          → after finalize e c ≡ at t
          → (t ≡ commit) × ((enr_callback finalize e c).0 ≡ c))
        × (after finalize e c ≢ completed)
  unfolding enr_callback enr_answer enr_error enr_reply on_enr_finalize_done moved
  finalize_moves e c = elim (Option-cases e.error) [
    | inr (x, h) ↦ (λ t m. ground (arith, h, m), λ m. ground (arith, h, m))
    | inl h ↦ (λ t m. ground (arith, h, m, order), λ m. ground (arith, h, m, order))
  ]

  -- From a state before the sample's reply the machine stays before finalize.
  early_moves :
      (s : EnrState) (e : Event) (c : Enroll)
      → before_sample s ≡ true
      → ((t : EnrState) → after s e c ≡ at t → early t ≡ true) × (after s e c ≢ completed)
  unfolding enr_callback enr_answer enr_error enr_reply on_enr_dedup_done on_enr_create_done
      on_enr_capture_done moved
  early_moves dedup_capture e c b = elim (Option-cases e.error) [
    | inr (x, h) ↦ (λ u m. ground (arith, h, m), λ m. ground (arith, h, m))
    | inl h ↦ (λ u m. ground (arith, h, m, order), λ m. ground (arith, h, m, order))
  ]
  early_moves dedup e c b = elim (Option-cases e.error) [
    | inr (x, h) ↦ (λ u m. ground (arith, h, m), λ m. ground (arith, h, m))
    | inl h ↦ (λ u m. ground (arith, h, m, order), λ m. ground (arith, h, m, order))
  ]
  early_moves create e c b = elim (Option-cases e.error) [
    | inr (x, h) ↦ (λ u m. ground (arith, h, m), λ m. ground (arith, h, m))
    | inl h ↦ (λ u m. ground (arith, h, m, order), λ m. ground (arith, h, m, order))
  ]
  early_moves sample_capture e c b = elim (Option-cases e.error) [
    | inr (x, h) ↦ (λ u m. ground (arith, h, m), λ m. ground (arith, h, m))
    | inl h ↦ (λ u m. ground (arith, h, m, order), λ m. ground (arith, h, m, order))
  ]
  early_moves sample e c b = ground (arith, b)
  early_moves finalize e c b = ground (arith, b)
  early_moves commit e c b = ground (arith, b)

  commit_completed :
      (events : List Event) (c : Enroll)
      → (run events commit c).status ≡ completed
      → ((run events commit c).requests ≡ send build_enroll_commit 2 ∷ [])
        × ((run events commit c).ctx ≡ c)
  commit_completed [] c h = unfold drive in cc
  commit_completed (e ∷ rest) c h =
      elim (drive_completed next (enroll_ssm_handler sid) enr_callback e rest commit c h) [
        | inl (t, m, _, _) ↦ absurd ((commit_moves e c).0 t m)
        | inr (m, d) ↦ (rw d (unfold enroll_ssm_handler in refl), rw d ((commit_moves e c).1 m))
      ]

  finalize_completed :
      (events : List Event) (c : Enroll)
      → (run events finalize c).status ≡ completed
      → ((run events finalize c).requests
          ≡ send (build_finalize c.enroll_template_id sid) 2 ∷ send build_enroll_commit 2 ∷ [])
        × ((run events finalize c).ctx ≡ c)
  finalize_completed [] c h = unfold drive in cc
  finalize_completed (e ∷ rest) c h =
      let (way, stop) = finalize_moves e c in
      let (h', d, m) =
        drive_one_way next (enroll_ssm_handler sid) enr_callback e rest finalize commit c
          (λ u a. (way u a).0) stop h in
      let same : (enr_callback finalize e c).0 ≡ c = (way commit m).1 in
      let (sent, kept) = commit_completed rest (enr_callback finalize e c).0 h' in
      (rw (d, sent) (unfold enroll_ssm_handler in refl), rw d (kept ∙ same))

  -- The rest of the run, from the context `c` that the last sample leaves.
  last_sample_completed :
      (e : Event) (rest : List Event) (before c : Enroll)
      → IsLastSample e c.enroll_template_id
      → (run rest finalize c).status ≡ completed
      → Enrolled sid (e ∷ rest) (asked (enroll_ssm_handler sid sample before) (run rest finalize c))
  unfolding enroll_ssm_handler
  last_sample_completed e rest before c last h =
      let (sent, kept) = finalize_completed rest c h in
      record { before = []; sent = rw (sent, kept) refl; seen = (e, Memᴰ.head refl, rw kept last) }

  early_completed :
      (events : List Event) (s : EnrState) (c : Enroll)
      → early s ≡ true
      → (run events s c).status ≡ completed
      → Enrolled sid events (run events s c)
  early_completed [] s c a h = unfold drive in cc
  early_completed (e ∷ rest) s c a h =
      let c' : Enroll = (enr_callback s e c).0 in
      elim (drive_completed next (enroll_ssm_handler sid) enr_callback e rest s c h) [
        | inr (m, _) ↦ elim (early_cases s a) [
          | inl b ↦ absurd ((early_moves s e c b).1 m)
          | inr b ↦ absurd ((sample_moves e c).1 (rw b at m))
        ]
        | inl (t, m, h', d) ↦ elim (early_cases s a) [
          | inl b ↦
              rw d (Enrolled-asked e (early_completed rest t c' ((early_moves s e c b).0 t m) h'))
          | inr b ↦ elim ((sample_moves e c).0 t (rw b at m)) [
            | inl again ↦ rw d (Enrolled-asked e (early_completed rest t c' (rw again refl) h'))
            | inr (through, last) ↦
                rw (d, b, through) (last_sample_completed e rest c _ last (rw (b, through) at h'))
          ]
        ]
      ]

  -- In an enrollment that completes, the last three requests are for a sample, for the
  -- finalization of the id that is then kept, under the SID `sid`, and for the commit; and an event
  -- of the run is a sample reply of status 0 that tells of full coverage and carries that id.
  -- `next` is libfprint's step, through the states in the order of the source.
  pub enroll_completed :
      (now : ℕ) (events : List Event)
      → (enroll_run next sid now events).status ≡ completed
      → Enrolled sid events (enroll_run next sid now events)
  unfolding enroll_run
  enroll_completed now events h = early_completed events dedup_capture _ refl h
