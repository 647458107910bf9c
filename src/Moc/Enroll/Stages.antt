-- ===== src/Moc/Enroll/Stages.antt =====
-- The stages that an enrollment reports, and the safety of its callbacks.
use verimark_linux_driver.Moc.Enroll.{
  enr_answer, sample_parsed, parse_sample, Step, on_enr_dedup_done, on_enr_create_done,
  on_enr_finalize_done, on_enr_commit_done, sample_again, on_enr_sample_done, enr_reply, enr_error,
  enr_callback, dedup_capture, create, sample_capture, sample, finalize, commit, enroll_stages,
  EnrState, Enroll, enroll_progress, on_enr_capture_done, sample_taken, enroll_run, dedup,
}
use verimark_linux_driver.Common.{
  ◌+◌, ◌≢◌, refl, Bool, true, false, not, ◌||◌, none, some, [], ◌∷◌, ◌++◌, ltb, leb, ◌==◌,
  if◌then◌else◌, Outcome, ok, err, fault, arith, inl, inr, Error, All, Bool-cases, Option, ◌≤◌,
  List, ℕ,
}
use verimark_linux_driver.Ssm.{Act, broken, undefined}
use verimark_linux_driver.Ssm.Runs.{drive_keeps, drive-ne-broken}
use verimark_linux_driver.Moc.Replies.{Sample}
use verimark_linux_driver.Moc.Replies.Safety.{parse_sample-safe}
use verimark_linux_driver.Moc.Io.{Event}

-- The stage, and every stage that was reported, is one that the device class announces.
pub record InStages (c : Enroll) : Type 0 where
  pub stage_le : c.enroll_stage ≤ enroll_stages
  pub reports_le : All (λ p. p.stage ≤ enroll_stages) c.reports

All-snoc {ℓ κ} :
    {A : Type ℓ} (P : A → Type κ) (xs : List A) (y : A) → All P xs → P y → All P (xs ++ y ∷ [])
All-snoc P [] y a p = (p, tt)
All-snoc P (x ∷ xs) y (h, a) p = (h, All-snoc P xs y a p)

enroll_progress-InStages :
    (o : Option Error) (c : Enroll) → InStages c → InStages (enroll_progress o c)
unfolding enroll_progress
enroll_progress-InStages o c h = record {
  stage_le = h.stage_le;
  reports_le = All-snoc _ c.reports _ h.reports_le h.stage_le;
}

on_enr_capture_done-InStages :
    (s : EnrState) (o : Option Error) (now : ℕ) (c : Enroll)
    → InStages c
    → InStages (on_enr_capture_done s o now c).0
unfolding on_enr_capture_done
on_enr_capture_done-InStages s none now c h = h
on_enr_capture_done-InStages s (some x) now c h =
    elim (Bool-cases (leb c.overall_deadline_us now)) [
      | inl late ↦ rw late h
      | inr early ↦ rw early (enroll_progress-InStages (some x) c h)
    ]

sample_taken-InStages : (m : Sample) (c : Enroll) → InStages c → InStages (sample_taken m c).0
unfolding sample_taken enroll_progress
sample_taken-InStages m c h = elim (Bool-cases (m.coverage == 0x7f)) [
  | inl full ↦
      rw full (record { stage_le = le; reports_le = All-snoc _ c.reports _ h.reports_le le })
  | inr part ↦
      rw part (record { stage_le = le; reports_le = All-snoc _ c.reports _ h.reports_le le })
]
  where
    le :
        (if ltb c.enroll_stage enroll_stages then c.enroll_stage + 1 else c.enroll_stage)
        ≤ enroll_stages
    le = ground (arith, h.stage_le)

sample_again-InStages : (now : ℕ) (c : Enroll) → InStages c → InStages (sample_again now c).0
unfolding sample_again
sample_again-InStages now c h = elim (Bool-cases (leb c.overall_deadline_us now)) [
  | inl late ↦ rw late h
  | inr early ↦ rw early h
]

sample_parsed-InStages :
    (o : Outcome Sample) (status now : ℕ) (c : Enroll)
    → InStages c
    → InStages (sample_parsed o status now c).0
unfolding sample_parsed
sample_parsed-InStages (ok m) status now c h =
    elim (Bool-cases (not (status == 0) || m.coverage == c.enroll_coverage)) [
      | inl again ↦ rw again (sample_again-InStages now c h)
      | inr new ↦ rw new (sample_taken-InStages m c h)
    ]
sample_parsed-InStages (err x) status now c h = sample_again-InStages now c h
sample_parsed-InStages fault status now c h = h

status_test-InStages :
    (b : Bool) (c : Enroll) (a a' : Act EnrState)
    → InStages c
    → InStages (if◌then◌else◌ {A = Step} b (c, a) (c, a')).0
status_test-InStages true c a a' h = h
status_test-InStages false c a a' h = h

enr_reply-InStages :
    (s : EnrState) (e : Event) (c : Enroll) → InStages c → InStages (enr_reply s e c).0
unfolding enr_reply on_enr_sample_done on_enr_dedup_done on_enr_create_done on_enr_finalize_done
    on_enr_commit_done
enr_reply-InStages dedup_capture e c h = on_enr_capture_done-InStages dedup_capture none e.now c h
enr_reply-InStages dedup e c h = h
enr_reply-InStages create e c h = status_test-InStages _ c _ _ h
enr_reply-InStages sample_capture e c h = on_enr_capture_done-InStages sample_capture none e.now c h
enr_reply-InStages sample e c h = sample_parsed-InStages (parse_sample e.resp) _ e.now c h
enr_reply-InStages finalize e c h = status_test-InStages _ c _ _ h
enr_reply-InStages commit e c h = status_test-InStages _ c _ _ h

enr_error-InStages :
    (s : EnrState) (x : Error) (now : ℕ) (c : Enroll)
    → InStages c
    → InStages (enr_error s x now c).0
unfolding enr_error
enr_error-InStages dedup_capture x now c h =
    on_enr_capture_done-InStages dedup_capture (some x) now c h
enr_error-InStages dedup x now c h = h
enr_error-InStages create x now c h = h
enr_error-InStages sample_capture x now c h =
    on_enr_capture_done-InStages sample_capture (some x) now c h
enr_error-InStages sample x now c h = h
enr_error-InStages finalize x now c h = h
enr_error-InStages commit x now c h = h

enr_answer-InStages :
    (o : Option Error) (s : EnrState) (e : Event) (c : Enroll)
    → InStages c
    → InStages (enr_answer o s e c).0
unfolding enr_answer
enr_answer-InStages none s e c h = enr_reply-InStages s e c h
enr_answer-InStages (some x) s e c h = enr_error-InStages s x e.now c h

enr_callback-InStages :
    (s : EnrState) (e : Event) (c : Enroll) → InStages c → InStages (enr_callback s e c).0
unfolding enr_callback
enr_callback-InStages s e c h = enr_answer-InStages e.error s e c h

sample_parsed-defined :
    (o : Outcome Sample) (status now : ℕ) (c : Enroll)
    → o ≢ fault
    → (sample_parsed o status now c).1 ≢ undefined
unfolding sample_parsed sample_again sample_taken
sample_parsed-defined (ok m) status now c safe h = ground (arith, h)
sample_parsed-defined (err x) status now c safe h = ground (arith, h)
sample_parsed-defined fault status now c safe h = safe refl

on_enr_capture_done-defined :
    (s : EnrState) (o : Option Error) (now : ℕ) (c : Enroll)
    → (on_enr_capture_done s o now c).1 ≢ undefined
unfolding on_enr_capture_done
on_enr_capture_done-defined s none now c h = cc
on_enr_capture_done-defined s (some x) now c h = ground (arith, h)

enr_reply-defined : (s : EnrState) (e : Event) (c : Enroll) → (enr_reply s e c).1 ≢ undefined
unfolding enr_reply on_enr_sample_done on_enr_dedup_done on_enr_create_done on_enr_finalize_done
    on_enr_commit_done
enr_reply-defined dedup_capture e c h = on_enr_capture_done-defined dedup_capture none e.now c h
enr_reply-defined dedup e c h = ground (arith, h)
enr_reply-defined create e c h = ground (arith, h)
enr_reply-defined sample_capture e c h = on_enr_capture_done-defined sample_capture none e.now c h
enr_reply-defined sample e c h =
    sample_parsed-defined (parse_sample e.resp) _ e.now c (parse_sample-safe e.resp) h
enr_reply-defined finalize e c h = ground (arith, h)
enr_reply-defined commit e c h = ground (arith, h)

enr_error-defined :
    (s : EnrState) (x : Error) (now : ℕ) (c : Enroll) → (enr_error s x now c).1 ≢ undefined
unfolding enr_error
enr_error-defined dedup_capture x now c h =
    on_enr_capture_done-defined dedup_capture (some x) now c h
enr_error-defined dedup x now c h = cc
enr_error-defined create x now c h = cc
enr_error-defined sample_capture x now c h =
    on_enr_capture_done-defined sample_capture (some x) now c h
enr_error-defined sample x now c h = cc
enr_error-defined finalize x now c h = cc
enr_error-defined commit x now c h = cc

enr_answer-defined :
    (o : Option Error) (s : EnrState) (e : Event) (c : Enroll) → (enr_answer o s e c).1 ≢ undefined
unfolding enr_answer
enr_answer-defined none s e c h = enr_reply-defined s e c h
enr_answer-defined (some x) s e c h = enr_error-defined s x e.now c h

enr_callback-defined : (s : EnrState) (e : Event) (c : Enroll) → (enr_callback s e c).1 ≢ undefined
unfolding enr_callback
enr_callback-defined s e c h = enr_answer-defined e.error s e c h

-- However the captures and the sends of an enrollment end, and whatever `next` does, no callback
-- reads outside a reply, and the stage that is kept and all that were reported are at most the 8
-- that the device class announces.
pub enroll_run-InStages :
    (next : EnrState → Option EnrState) (sid : List ℕ) (now : ℕ) (events : List Event)
    → ((enroll_run next sid now events).status ≢ broken)
      × InStages (enroll_run next sid now events).ctx
unfolding enroll_run
enroll_run-InStages next sid now events = (
  drive-ne-broken next _ enr_callback enr_callback-defined events _ _,
  drive_keeps next _ enr_callback InStages enr_callback-InStages events _ _
      (record { stage_le = omega arith; reports_le = tt }),
)
