-- ===== src/Moc/Capture/Safety.antt =====
-- The capture machine's callbacks read inside the replies.
use verimark_linux_driver.Common.{
  u16_le, ℕ, zero, suc, ◌+◌, ◌*◌, ◌≤◌, ◌≡◌, ◌≢◌, refl, Bool, false, Option, List, leb, length, ok,
  arith, Bool-cases, inl, inr, read_inside,
}
use verimark_linux_driver.Ssm.{undefined, broken}
use verimark_linux_driver.Ssm.Runs.{drive-ne-broken}
use verimark_linux_driver.Moc.Replies.{rd_u16_le}
use verimark_linux_driver.Moc.Io.{Event}
use verimark_linux_driver.Moc.Capture.{
  CapState, Capture, on_cap_wait_press_done, on_cap_frame_acq_done, on_cap_frame_finish_done,
  poll_again, saw_frame_ready, read_events, on_cap_event_config_done, on_cap_wait_frame_done,
  cap_callback, capture_run,
}

saw_frame_ready_ok :
    (resp : List ℕ) (left i : ℕ) (saw : Bool)
    → (b : Bool) × (saw_frame_ready resp left i saw ≡ ok b)
unfolding saw_frame_ready
saw_frame_ready_ok resp zero i saw = (saw, refl)
saw_frame_ready_ok resp (suc left) i saw =
    elim (Bool-cases (leb (6 + (i + 1) * 12) (length resp))) [
      | inl inside ↦
          let (t, e) = read_inside resp (6 + i * 12) (ground arith) in
          rw (inside, e) (saw_frame_ready_ok resp left (i + 1) _)
      | inr outside ↦ rw outside (saw, refl)
    ]

pub read_events_ok : (resp : List ℕ) → 6 ≤ length resp → (p : ℕ × Bool) × (read_events resp ≡ ok p)
unfolding read_events rd_u16_le
read_events_ok resp h =
    let (lo, e) = read_inside resp 2 (omega arith) in
    let (hi, e') = read_inside resp 3 (omega arith) in
    let (saw, e'') = saw_frame_ready_ok resp (u16_le lo hi) 0 false in
    ((u16_le lo hi, saw), rw (e, e') (rw e''))

on_cap_event_config_done-defined :
    (resp : List ℕ) (c : Capture) → (on_cap_event_config_done resp c).1 ≢ undefined
unfolding on_cap_event_config_done rd_u16_le
on_cap_event_config_done-defined resp c = elim (Bool-cases (leb 0x42 (length resp))) [
  | inr short ↦ rw short (λ h. cc)
  | inl long ↦
      let (lo, e) = read_inside resp 64 (ground arith) in
      let (hi, e') = read_inside resp 65 (ground arith) in rw (long, e, e') (λ h. cc)
]

on_cap_wait_frame_done-defined :
    (resp : List ℕ) (now : ℕ) (c : Capture) → (on_cap_wait_frame_done resp now c).1 ≢ undefined
unfolding on_cap_wait_frame_done poll_again
on_cap_wait_frame_done-defined resp now c = elim (Bool-cases (leb 6 (length resp))) [
  | inr short ↦ rw short (λ h. ground (arith, h))
  | inl long ↦
      let (p, e) = read_events_ok resp (ground arith) in rw (long, e) (λ h. ground (arith, h))
]

cap_callback-defined : (s : CapState) (e : Event) (c : Capture) → (cap_callback s e c).1 ≢ undefined
unfolding cap_callback on_cap_wait_press_done on_cap_frame_acq_done on_cap_frame_finish_done
cap_callback-defined CapState.arm_press e c h =
    ground (arith, on_cap_event_config_done-defined e.resp c)
cap_callback-defined CapState.arm_frame e c h =
    ground (arith, on_cap_event_config_done-defined e.resp c)
cap_callback-defined CapState.event_clear e c h =
    ground (arith, on_cap_event_config_done-defined e.resp c)
cap_callback-defined CapState.wait_frame e c h =
    ground (arith, on_cap_wait_frame_done-defined e.resp e.now c)
cap_callback-defined CapState.wait_press e c h = ground arith
cap_callback-defined CapState.frame_acq e c h = ground arith
cap_callback-defined CapState.frame_finish e c h = ground arith

-- No capture reads outside a reply, whatever the sensor answers.
pub capture_run-ne-broken :
    (next : CapState → Option CapState) (acq_kind event_seq_num : ℕ) (events : List Event)
    → (capture_run next acq_kind event_seq_num events).status ≢ broken
unfolding capture_run
capture_run-ne-broken next acq_kind event_seq_num events =
    drive-ne-broken next _ cap_callback cap_callback-defined events _ _
