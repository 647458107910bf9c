-- ===== src/Moc/Capture.antt =====
-- driver/verimark-moc.c: the capture machine, shared by enroll, verify and identify.
pub mod Safety
pub mod Frames
pub mod Moves
pub mod Order
use verimark_linux_driver.Common.{
  ℕ, zero, suc, ◌+◌, ◌*◌, ◌%◌, ◌^◌, Bool, true, false, ◌&&◌, ◌||◌, Option, none, some, List, [],
  ◌∷◌, leb, ltb, ◌==◌, if◌then◌else◌, length, Outcome, ok, err, fault, ◌>>=◌, read, Error, proto,
  retry,
}
use verimark_linux_driver.Ssm.{
  Act, next_state, jump_to_state_delayed, mark_completed, mark_failed, undefined, Trace, drive,
}
use verimark_linux_driver.Moc.Commands.{
  build_event_config, build_event_read, build_frame_acq, build_frame_finish, evtmask_finger,
  evtmask_frame, evtmask_none,
}
use verimark_linux_driver.Moc.Replies.{rd_u16_le}
use verimark_linux_driver.Moc.Io.{Request, send, wait_intr, Event, status_of}

-- VERIMARK_CAPTURE_PRESS_TIMEOUT_MS, VERIMARK_CAPTURE_FRAME_TIMEOUT_MS,
-- VERIMARK_CAPTURE_FRAME_POLL_DELAY_MS
abbrev pub capture_press_timeout_ms : ℕ
capture_press_timeout_ms = 30000

abbrev pub capture_frame_timeout_ms : ℕ
capture_frame_timeout_ms = 4000

abbrev pub capture_frame_poll_delay_ms : ℕ
capture_frame_poll_delay_ms = 15

-- VERIMARK_EVT_FINGER_PRESS, VERIMARK_EVT_FRAME_READY
abbrev pub evt_finger_press : ℕ
evt_finger_press = 0x01

abbrev pub evt_frame_ready : ℕ
evt_frame_ready = 0x18

-- VERIMARK_EVENT_CONFIG_RESP_LEN, VERIMARK_EVENT_READ_RESP_LEN
abbrev pub event_config_resp_len : ℕ
event_config_resp_len = 0x42

abbrev pub event_read_resp_len : ℕ
event_read_resp_len = 390

-- VerimarkCapState
pub data CapState : Type 0 where
  arm_press wait_press arm_frame frame_acq wait_frame event_clear frame_finish : CapState

-- VerimarkCaptureCtx, and the device's event sequence number (guint16).
pub record Capture : Type 0 where
  pub acq_kind : ℕ
  pub frame_deadline_us : ℕ
  pub frame_got : Bool
  pub event_seq_num : ℕ

-- capture_ssm_handler
unfoldable pub capture_ssm_handler : CapState → Capture → Request
capture_ssm_handler arm_press c = send (build_event_config evtmask_finger) event_config_resp_len
capture_ssm_handler wait_press c = wait_intr evt_finger_press capture_press_timeout_ms
capture_ssm_handler arm_frame c = send (build_event_config evtmask_frame) event_config_resp_len
capture_ssm_handler frame_acq c = send (build_frame_acq c.acq_kind) 2
capture_ssm_handler wait_frame c = send (build_event_read c.event_seq_num) event_read_resp_len
capture_ssm_handler event_clear c = send (build_event_config evtmask_none) event_config_resp_len
capture_ssm_handler frame_finish c = send build_frame_finish 2

abbrev pub Step : Type 0
Step = Capture × Act CapState

unfoldable pub on_cap_event_config_done : List ℕ → Capture → Step
on_cap_event_config_done resp c =
    if leb event_config_resp_len (length resp)
    then elim (rd_u16_le resp 64) [
      | ok seq ↦ (record c { event_seq_num = seq }, next_state)
      | err _ ↦ (c, undefined)
      | fault ↦ (c, undefined)
    ]
    else (c, next_state)

unfoldable pub on_cap_wait_press_done : Bool → Capture → Step
on_cap_wait_press_done got c = if got then (c, next_state) else (c, mark_failed retry)

unfoldable pub on_cap_frame_acq_done : ℕ → Capture → Step
on_cap_frame_acq_done now c =
    (record c { frame_deadline_us = now + capture_frame_timeout_ms * 1000 }, next_state)

-- The `for` loop over the 12-byte event records; `left` is `num_evts - i`.
unfoldable pub saw_frame_ready : List ℕ → (left i : ℕ) → Bool → Outcome Bool
saw_frame_ready resp zero i saw = ok saw
saw_frame_ready resp (suc left) i saw =
    if leb (6 + (i + 1) * 12) (length resp)
    then (do
      type ← read resp (6 + i * 12)
      saw_frame_ready resp left (i + 1) (if type == evt_frame_ready then true else saw))
    else ok saw

-- "No frame yet": the poll is made again until the deadline, and then given up.
unfoldable pub poll_again : Bool → Capture → Step
poll_again past_deadline c =
    if past_deadline
    then (record c { frame_got = false }, next_state)
    else (c, jump_to_state_delayed wait_frame capture_frame_poll_delay_ms)

-- The events of a reply: how many there are, and whether a frame-ready event is among them.
unfoldable pub read_events : List ℕ → Outcome (ℕ × Bool)
unfolding saw_frame_ready
read_events resp = do
  num_evts ← rd_u16_le resp 2
  saw ← saw_frame_ready resp num_evts 0 false
  ok (num_evts, saw)

unfoldable pub on_cap_wait_frame_done : List ℕ → ℕ → Capture → Step
unfolding poll_again
on_cap_wait_frame_done resp now c =
    let status = status_of resp in
    let past_deadline = leb c.frame_deadline_us now in
    if leb 0x0405 status && leb status 0x0407
    then poll_again past_deadline c
    else if status == 0x0000
    then (if leb 6 (length resp)
        then elim (read_events resp) [
          | ok (num_evts, saw) ↦
              let c' = record c { event_seq_num = (c.event_seq_num + num_evts) % 2 ^ 16 } in
              if saw
              then (record c' { frame_got = true }, next_state)
              else poll_again past_deadline c'
          | err _ ↦ (c, undefined)
          | fault ↦ (c, undefined)
        ]
        else poll_again past_deadline c)
    else (c, mark_failed proto)

unfoldable pub on_cap_frame_finish_done : Capture → Step
on_cap_frame_finish_done c = if c.frame_got then (c, mark_completed) else (c, mark_failed retry)

unfoldable pub cap_reply : CapState → Event → Capture → Step
cap_reply arm_press e c = on_cap_event_config_done e.resp c
cap_reply wait_press e c = on_cap_wait_press_done e.got c
cap_reply arm_frame e c = on_cap_event_config_done e.resp c
cap_reply frame_acq e c = on_cap_frame_acq_done e.now c
cap_reply wait_frame e c = on_cap_wait_frame_done e.resp e.now c
cap_reply event_clear e c = on_cap_event_config_done e.resp c
cap_reply frame_finish e c = on_cap_frame_finish_done c

-- Every callback begins with `if (error != NULL) { fpi_ssm_mark_failed (ssm, error); return; }`.
unfoldable pub cap_callback : CapState → Event → Capture → Step
unfolding cap_reply
cap_callback s e c = elim e.error [ some x ↦ (c, mark_failed x) | none ↦ cap_reply s e c ]

-- verimark_moc_capture_ssm_new, started: a context of zeros (`g_new0`) but for the acquisition kind.
unfoldable pub capture_run :
    (CapState → Option CapState) → ℕ → ℕ → List Event → Trace CapState Capture Request
capture_run next acq_kind event_seq_num events =
    drive next capture_ssm_handler cap_callback events arm_press (record {
      acq_kind = acq_kind;
      frame_deadline_us = 0;
      frame_got = false;
      event_seq_num = event_seq_num;
    })
