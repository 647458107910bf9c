-- ===== src/Moc/Capture/Moves.antt =====
-- Where the callbacks of the capture machine lead.
use verimark_linux_driver.Common.{
  Option-cases, ℕ, ◌≡◌, ◌≢◌, true, Option, some, List, [], ◌∷◌, arith, inl, inr, ◌⊎◌,
}
use verimark_linux_driver.Moc.Capture.{
  CapState, arm_press, wait_press, arm_frame, frame_acq, wait_frame, event_clear, frame_finish,
  Capture, on_cap_event_config_done, on_cap_frame_finish_done, on_cap_frame_acq_done,
  on_cap_wait_press_done, cap_reply, cap_callback, capture_ssm_handler,
}
use verimark_linux_driver.Ssm.{Status, drive, moved, Follows, at, completed, Trace}
use verimark_linux_driver.Moc.Io.{Request, Event}
use verimark_linux_driver.Moc.Capture.Frames.{
  IsFrameReply, on_cap_wait_frame_done_frame, on_cap_wait_frame_done_acts,
}

module _ (next : CapState → Option CapState)
    (order : Follows next arm_press
      (wait_press ∷ arm_frame ∷ frame_acq ∷ wait_frame ∷ event_clear ∷ frame_finish ∷ [])) where
  abbrev run : List Event → CapState → Capture → Trace CapState Capture Request
  run = drive next capture_ssm_handler cap_callback

  -- Where the callback of each state leads.
  abbrev after : CapState → Event → Capture → Status CapState
  after s e c = moved next s (cap_callback s e c).1

  pub finish_moves :
      (e : Event) (c : Capture)
      → ((t : CapState) → after frame_finish e c ≢ at t)
        × (after frame_finish e c ≡ completed → c.frame_got ≡ true)
  unfolding cap_callback on_cap_frame_finish_done moved
  finish_moves e c = (λ t h. ground (arith, h), λ h. ground (arith, h))

  pub config_moves :
      (resp : List ℕ) (c : Capture) (s t : CapState)
      → next s ≡ some t
      → ((u : CapState)
          → moved next s (on_cap_event_config_done resp c).1 ≡ at u
          → (u ≡ t)
            × ((on_cap_event_config_done resp c).0.frame_got ≡ c.frame_got)
            × ((on_cap_event_config_done resp c).0.acq_kind ≡ c.acq_kind))
        × (moved next s (on_cap_event_config_done resp c).1 ≢ completed)
  unfolding on_cap_event_config_done moved
  config_moves resp c s t e = (λ u h. ground (arith, h, e), λ h. ground (arith, h, e))

  pub clear_moves :
      (e : Event) (c : Capture)
      → ((t : CapState)
          → after event_clear e c ≡ at t
          → (t ≡ frame_finish) × ((cap_callback event_clear e c).0.frame_got ≡ c.frame_got))
        × (after event_clear e c ≢ completed)
  unfolding cap_callback moved
  clear_moves e c = (
    λ t h.
        ground
          (arith, h, order, (config_moves e.resp c event_clear frame_finish order.1.1.1.1.1.0).0 t),
    λ h.
        ground
          (arith, h, order, (config_moves e.resp c event_clear frame_finish order.1.1.1.1.1.0).1),
  )

  pub poll_moves :
      (e : Event) (c : Capture)
      → ((t : CapState)
          → after wait_frame e c ≡ at t
          → (t ≡ wait_frame)
            ⊎ ((t ≡ event_clear)
                × ((cap_callback wait_frame e c).0.frame_got ≡ true → IsFrameReply e)))
        × (after wait_frame e c ≢ completed)
  unfolding cap_callback cap_reply moved
  poll_moves e c = elim (Option-cases e.error) [
    | inr (x, h) ↦ (λ t m. ground (arith, h, m), λ m. ground (arith, h, m))
    | inl h ↦ elim (on_cap_wait_frame_done_acts e.resp e.now c) [
      | inl a ↦ (
        λ t m. inr (
          ground (arith, h, m, a, order),
          λ got.
              let (ok', frame) =
                on_cap_wait_frame_done_frame e.resp e.now c a (ground (arith, got, h)) in
              record { no_error = h; status_ok = ok'; has_frame = frame },
        ),
        λ m. ground (arith, h, m, a, order),
      )
      | inr (inl a) ↦ (λ t m. inl (ground (arith, h, m, a)), λ m. ground (arith, h, m, a))
      | inr (inr a) ↦ (λ t m. ground (arith, h, m, a), λ m. ground (arith, h, m, a))
    ]
  ]

  pub press_moves :
      (e : Event) (c : Capture)
      → ((t : CapState)
          → after wait_press e c ≡ at t
          → (t ≡ arm_frame) × ((cap_callback wait_press e c).0.acq_kind ≡ c.acq_kind))
        × (after wait_press e c ≢ completed)
  unfolding cap_callback cap_reply on_cap_wait_press_done moved
  press_moves e c = (λ t h. ground (arith, h, order), λ h. ground (arith, h, order))

  pub acq_moves :
      (e : Event) (c : Capture)
      → ((t : CapState) → after frame_acq e c ≡ at t → t ≡ wait_frame)
        × (after frame_acq e c ≢ completed)
  unfolding cap_callback cap_reply on_cap_frame_acq_done moved
  acq_moves e c = (λ t h. ground (arith, h, order), λ h. ground (arith, h, order))

  pub arm_moves :
      (e : Event) (c : Capture)
      → ((t : CapState)
          → after arm_press e c ≡ at t
          → (t ≡ wait_press) × ((cap_callback arm_press e c).0.acq_kind ≡ c.acq_kind))
        × (after arm_press e c ≢ completed)
  unfolding cap_callback cap_reply moved
  arm_moves e c = (
    λ t h. ground (arith, h, order, (config_moves e.resp c arm_press wait_press order.0).0 t),
    λ h. ground (arith, h, order, (config_moves e.resp c arm_press wait_press order.0).1),
  )

  pub frame_moves :
      (e : Event) (c : Capture)
      → ((t : CapState)
          → after arm_frame e c ≡ at t
          → (t ≡ frame_acq) × ((cap_callback arm_frame e c).0.acq_kind ≡ c.acq_kind))
        × (after arm_frame e c ≢ completed)
  unfolding cap_callback cap_reply moved
  frame_moves e c = (
    λ t h. ground (arith, h, order, (config_moves e.resp c arm_frame frame_acq order.1.1.0).0 t),
    λ h. ground (arith, h, order, (config_moves e.resp c arm_frame frame_acq order.1.1.0).1),
  )
