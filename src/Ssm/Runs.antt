-- ===== src/Ssm/Runs.antt =====
-- Runs of a machine: taking the first event off, and runs that cannot break.
use verimark_linux_driver.Common.{
  ◌≡◌, ◌≢◌, refl, ◌⊎◌, inl, inr, Option, List, [], ◌∷◌, Error, arith, ap,
}
use verimark_linux_driver.Ssm.{
  Act, next_state, jump_to_state, jump_to_state_delayed, mark_completed, mark_failed, undefined,
  Status, at, completed, failed, broken, moved, Trace, stopped, asked, resumed, drive,
}

module _ {S C E R : Type 0} (next : S → Option S) (handler : S → C → R)
    (callback : S → E → C → C × Act S) where
  pub Status-cases :
      (st : Status S)
      → ((t : S) × (st ≡ at t))
        ⊎ ((st ≡ completed) ⊎ (((x : Error) × (st ≡ failed x)) ⊎ (st ≡ broken)))
  Status-cases (at t) = inl (t, refl)
  Status-cases completed = inr (inl refl)
  Status-cases (failed x) = inr (inr (inl (x, refl)))
  Status-cases broken = inr (inr (inr refl))

  pub drive-at :
      (e : E) (rest : List E) (s : S) (c : C) {t : S}
      → moved next s (callback s e c).1 ≡ at t
      → drive next handler callback (e ∷ rest) s c
        ≡ asked (handler s c) (drive next handler callback rest t (callback s e c).0)
  unfolding drive
  drive-at e rest s c h =
      ap
        (resumed (handler s c) (callback s e c).0
          (λ t. drive next handler callback rest t (callback s e c).0))
        h

  -- A run that completes goes on to a state after its first event, or is complete there.
  pub drive_completed :
      (e : E) (rest : List E) (s : S) (c : C)
      → (drive next handler callback (e ∷ rest) s c).status ≡ completed
      → ((t : S) × (moved next s (callback s e c).1 ≡ at t)
          × ((drive next handler callback rest t (callback s e c).0).status ≡ completed)
          × (drive next handler callback (e ∷ rest) s c
              ≡ asked (handler s c) (drive next handler callback rest t (callback s e c).0)))
        ⊎ ((moved next s (callback s e c).1 ≡ completed)
            × (drive next handler callback (e ∷ rest) s c
                ≡ stopped (handler s c) completed (callback s e c).0))
  unfolding drive
  drive_completed e rest s c h = elim (Status-cases (moved next s (callback s e c).1)) [
    | inl (t, m) ↦ inl (t, m, rw m at h, ap put m)
    | inr (inl m) ↦ inr (m, ap put m)
    | inr (inr (inl (x, m))) ↦ ground (arith, rw m at h)
    | inr (inr (inr m)) ↦ ground (arith, rw m at h)
  ]
    where
      put : Status S → Trace S C R
      put =
          resumed (handler s c) (callback s e c).0
            (λ t. drive next handler callback rest t (callback s e c).0)

  moved-broken : (s : S) (a : Act S) → moved next s a ≡ broken → a ≡ undefined
  unfolding moved
  moved-broken s next_state h = ground (arith, h)
  moved-broken s (jump_to_state t) h = cc
  moved-broken s (jump_to_state_delayed t ms) h = cc
  moved-broken s mark_completed h = cc
  moved-broken s (mark_failed x) h = cc
  moved-broken s undefined h = refl

  pub drive-ne-broken :
      ((s : S) (e : E) (c : C) → (callback s e c).1 ≢ undefined)
      → (events : List E) (s : S) (c : C) → (drive next handler callback events s c).status ≢ broken
  unfolding drive
  drive-ne-broken safe [] s c h = cc
  drive-ne-broken safe (e ∷ rest) s c h = elim (Status-cases (moved next s (callback s e c).1)) [
    | inl (t, m) ↦ drive-ne-broken safe rest t (callback s e c).0 (rw m at h)
    | inr (inl m) ↦ ground (arith, rw m at h)
    | inr (inr (inl (x, m))) ↦ ground (arith, rw m at h)
    | inr (inr (inr m)) ↦ safe s e c (moved-broken s (callback s e c).1 m)
  ]

  -- What every callback keeps, a run keeps.
  pub drive_keeps :
      (P : C → Type 0)
      → ((s : S) (e : E) (c : C) → P c → P (callback s e c).0)
      → (events : List E) (s : S) (c : C) → P c
      → P (drive next handler callback events s c).ctx
  unfolding drive
  drive_keeps P keeps [] s c p = p
  drive_keeps P keeps (e ∷ rest) s c p = elim (Status-cases (moved next s (callback s e c).1)) [
    | inl (t, m) ↦ rw m (drive_keeps P keeps rest t (callback s e c).0 (keeps s e c p))
    | inr (inl m) ↦ rw m (keeps s e c p)
    | inr (inr (inl (x, m))) ↦ rw m (keeps s e c p)
    | inr (inr (inr m)) ↦ rw m (keeps s e c p)
  ]

  -- A run that completes takes the one way out of a state that has one.
  pub drive_one_way :
      (e : E) (rest : List E) (s t : S) (c : C)
      → ((u : S) → moved next s (callback s e c).1 ≡ at u → u ≡ t)
      → moved next s (callback s e c).1 ≢ completed
      → (drive next handler callback (e ∷ rest) s c).status ≡ completed
      → ((drive next handler callback rest t (callback s e c).0).status ≡ completed)
        × (drive next handler callback (e ∷ rest) s c
            ≡ asked (handler s c) (drive next handler callback rest t (callback s e c).0))
        × (moved next s (callback s e c).1 ≡ at t)
  drive_one_way e rest s t c way stop h = elim (drive_completed e rest s c h) [
    | inr (m, _) ↦ absurd (stop m)
    | inl (u, m, h', d) ↦ (rw (way u m) at h', rw (way u m) at d, rw (way u m) at m)
  ]

  pub drive_ends :
      (e : E) (rest : List E) (s : S) (c : C)
      → (callback s e c).1 ≡ mark_completed
      → drive next handler callback (e ∷ rest) s c
        ≡ stopped (handler s c) completed (callback s e c).0
  unfolding drive moved
  drive_ends e rest s c h =
      ap
        (λ a.
          resumed (handler s c) (callback s e c).0
            (λ t. drive next handler callback rest t (callback s e c).0) (moved next s a))
        h

  pub drive_fails :
      (e : E) (rest : List E) (s : S) (c : C) {x : Error}
      → (callback s e c).1 ≡ mark_failed x
      → drive next handler callback (e ∷ rest) s c
        ≡ stopped (handler s c) (failed x) (callback s e c).0
  unfolding drive moved
  drive_fails e rest s c h =
      ap
        (λ a.
          resumed (handler s c) (callback s e c).0
            (λ t. drive next handler callback rest t (callback s e c).0) (moved next s a))
        h
