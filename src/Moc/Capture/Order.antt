-- ===== src/Moc/Capture/Order.antt =====
-- What a completed capture has sent, and what it has seen.
use verimark_linux_driver.Common.{
  ℕ, ◌≡◌, ◌≢◌, refl, true, false, Option, List, [], ◌∷◌, ◌++◌, inl, inr, All, ap, ◌∙◌, sym,
}
use verimark_linux_driver.Moc.Capture.{
  CapState, arm_press, wait_press, arm_frame, frame_acq, wait_frame, event_clear, frame_finish,
  Capture, cap_callback, capture_run, capture_ssm_handler, event_config_resp_len,
  event_read_resp_len, evt_finger_press, capture_press_timeout_ms,
}
use mathlib.Core.List.{Memᴰ}
use verimark_linux_driver.Ssm.{Status, drive, moved, Follows, at, completed, Trace}
use verimark_linux_driver.Ssm.Runs.{drive_completed}
use verimark_linux_driver.Moc.Commands.{
  build_event_config, build_event_read, build_frame_acq, build_frame_finish, evtmask_finger,
  evtmask_frame, evtmask_none,
}
use verimark_linux_driver.Moc.Io.{Request, send, wait_intr, Event}
use verimark_linux_driver.Moc.Capture.Frames.{IsFrameReply}
use verimark_linux_driver.Moc.Capture.Moves.{
  finish_moves, clear_moves, poll_moves, press_moves, acq_moves, arm_moves, frame_moves,
}

abbrev pub IsPoll : Request → Type 0
IsPoll r = (seq : ℕ) × (r ≡ send (build_event_read seq) event_read_resp_len)

asks_for_frame :
    (c : Capture) → capture_ssm_handler frame_acq c ≡ send (build_frame_acq c.acq_kind) 2
unfolding capture_ssm_handler
asks_for_frame c = refl

asks_for_events :
    (c : Capture)
    → capture_ssm_handler wait_frame c ≡ send (build_event_read c.event_seq_num) event_read_resp_len
unfolding capture_ssm_handler
asks_for_events c = refl

abbrev clear_and_finish : List Request
clear_and_finish =
    send (build_event_config evtmask_none) event_config_resp_len ∷ send build_frame_finish 2 ∷ []

-- The reads that poll for the frame, until one of the events says that it is there, and what ends
-- the capture.
pub record Polled (events : List Event) (requests : List Request) : Type 0 where
  pub seq : ℕ
  pub polls : List Request
  pub sent : requests ≡ send (build_event_read seq) event_read_resp_len ∷ polls ++ clear_and_finish
  pub all_polls : All IsPoll polls
  pub frame : (e : Event) × Memᴰ e events × IsFrameReply e

-- All that a capture of the kind has asked for.
pub record Captured (kind : ℕ) (events : List Event) (requests : List Request) : Type 0 where
  pub polling : List Request
  pub sent :
      requests
      ≡ send (build_event_config evtmask_finger) event_config_resp_len
        ∷ wait_intr evt_finger_press capture_press_timeout_ms
        ∷ send (build_event_config evtmask_frame) event_config_resp_len
        ∷ send (build_frame_acq kind) 2
        ∷ polling
  pub polled : Polled events polling

Polled-tail :
    {e : Event} {events : List Event} {requests : List Request}
    → Polled events requests
    → Polled (e ∷ events) requests
Polled-tail p = record {
  seq = p.seq;
  polls = p.polls;
  sent = p.sent;
  all_polls = p.all_polls;
  frame = (p.frame.0, Memᴰ.tail p.frame.1, p.frame.2);
}

module _ (next : CapState → Option CapState)
    (order : Follows next arm_press
      (wait_press ∷ arm_frame ∷ frame_acq ∷ wait_frame ∷ event_clear ∷ frame_finish ∷ [])) where
  abbrev run : List Event → CapState → Capture → Trace CapState Capture Request
  run = drive next capture_ssm_handler cap_callback

  -- Where the callback of each state leads.
  abbrev after : CapState → Event → Capture → Status CapState
  after s e c = moved next s (cap_callback s e c).1

  finish_completed :
      (events : List Event) (c : Capture)
      → (run events frame_finish c).status ≡ completed
      → (c.frame_got ≡ true)
        × ((run events frame_finish c).requests ≡ send build_frame_finish 2 ∷ [])
  finish_completed [] c h = unfold drive in cc
  finish_completed (e ∷ rest) c h =
      elim (drive_completed next capture_ssm_handler cap_callback e rest frame_finish c h) [
        | inl (t, m, _, _) ↦ absurd ((finish_moves next order e c).0 t m)
        | inr (m, d) ↦
            ((finish_moves next order e c).1 m, rw d (unfold capture_ssm_handler in refl))
      ]

  clear_completed :
      (events : List Event) (c : Capture)
      → (run events event_clear c).status ≡ completed
      → (c.frame_got ≡ true) × ((run events event_clear c).requests ≡ clear_and_finish)
  clear_completed [] c h = unfold drive in cc
  clear_completed (e ∷ rest) c h =
      elim (drive_completed next capture_ssm_handler cap_callback e rest event_clear c h) [
        | inr (m, _) ↦ absurd ((clear_moves next order e c).1 m)
        | inl (t, m, h', d) ↦
            let (here, same) = (clear_moves next order e c).0 t m in
            let (got, sent) =
              finish_completed rest (cap_callback event_clear e c).0 (rw here at h') in
            (sym same ∙ got, rw d (unfold capture_ssm_handler in rw here (rw sent)))
      ]

  -- A machine that completes takes the one way out of a state that has one.
  only_way :
      (e : Event) (rest : List Event) (s t : CapState) (c : Capture)
      → ((u : CapState) → after s e c ≡ at u → u ≡ t)
      → after s e c ≢ completed
      → (run (e ∷ rest) s c).status ≡ completed
      → ((run rest t (cap_callback s e c).0).status ≡ completed)
        × ((run (e ∷ rest) s c).requests
            ≡ capture_ssm_handler s c ∷ (run rest t (cap_callback s e c).0).requests)
        × (after s e c ≡ at t)
  only_way e rest s t c way stop h =
      elim (drive_completed next capture_ssm_handler cap_callback e rest s c h) [
        | inr (m, _) ↦ absurd (stop m)
        | inl (u, m, h', d) ↦ (rw (way u m) at h', rw d (rw (way u m)), rw (way u m) at m)
      ]

  poll_completed :
      (events : List Event) (c : Capture)
      → (run events wait_frame c).status ≡ completed
      → Polled events (run events wait_frame c).requests
  poll_completed [] c h = unfold drive in cc
  poll_completed (e ∷ rest) c h =
      let c' : Capture = (cap_callback wait_frame e c).0 in
      elim (drive_completed next capture_ssm_handler cap_callback e rest wait_frame c h) [
        | inr (m, _) ↦ absurd ((poll_moves next order e c).1 m)
        | inl (t, m, h', d) ↦ elim ((poll_moves next order e c).0 t m) [
          | inl again ↦
              let p = poll_completed rest c' (rw again at h') in
              record {
                seq = c.event_seq_num;
                polls = send (build_event_read p.seq) event_read_resp_len ∷ p.polls;
                sent = rw (d, again, p.sent, asks_for_events c);
                all_polls = ((p.seq, refl), p.all_polls);
                frame = (Polled-tail p).frame;
              }
          | inr (through, frame) ↦
              let (got, sent) = clear_completed rest c' (rw through at h') in
              record {
                seq = c.event_seq_num;
                polls = [];
                sent = rw (d, through, sent, asks_for_events c);
                all_polls = tt;
                frame = (e, Memᴰ.head refl, frame got);
              }
        ]
      ]

  acq_completed :
      (events : List Event) (c : Capture)
      → (run events frame_acq c).status ≡ completed
      → (polling : List Request) × ((run events frame_acq c).requests
          ≡ send (build_frame_acq c.acq_kind) 2 ∷ polling)
        × Polled events polling
  acq_completed [] c h = unfold drive in cc
  acq_completed (e ∷ rest) c h =
      let (way, stop) = acq_moves next order e c in
      let (h', sent, _) = only_way e rest frame_acq wait_frame c way stop h in
      (
        _,
        sent
            ∙ ap (λ r. r ∷ (run rest wait_frame (cap_callback frame_acq e c).0).requests)
                (asks_for_frame c),
        Polled-tail (poll_completed rest _ h'),
      )

  arm_frame_completed :
      (events : List Event) (c : Capture)
      → (run events arm_frame c).status ≡ completed
      → (polling : List Request) × ((run events arm_frame c).requests
          ≡ send (build_event_config evtmask_frame) event_config_resp_len
            ∷ send (build_frame_acq c.acq_kind) 2
            ∷ polling)
        × Polled events polling
  arm_frame_completed [] c h = unfold drive in cc
  arm_frame_completed (e ∷ rest) c h =
      let (way, stop) = frame_moves next order e c in
      let (h', sent, m) = only_way e rest arm_frame frame_acq c (λ u a. (way u a).0) stop h in
      let (polling, more, p) = acq_completed rest _ h' in
      (polling, sent ∙ unfold capture_ssm_handler in rw (more, (way frame_acq m).1), Polled-tail p)

  press_completed :
      (events : List Event) (c : Capture)
      → (run events wait_press c).status ≡ completed
      → (polling : List Request) × ((run events wait_press c).requests
          ≡ wait_intr evt_finger_press capture_press_timeout_ms
            ∷ send (build_event_config evtmask_frame) event_config_resp_len
            ∷ send (build_frame_acq c.acq_kind) 2
            ∷ polling)
        × Polled events polling
  press_completed [] c h = unfold drive in cc
  press_completed (e ∷ rest) c h =
      let (way, stop) = press_moves next order e c in
      let (h', sent, m) = only_way e rest wait_press arm_frame c (λ u a. (way u a).0) stop h in
      let (polling, more, p) = arm_frame_completed rest _ h' in
      (polling, sent ∙ unfold capture_ssm_handler in rw (more, (way arm_frame m).1), Polled-tail p)

  -- In a capture that completes, the finger's event is armed and waited for, then the frame's is
  -- armed and the acquisition of the kind asked for is begun, then the event queue is polled until
  -- a reply counts, and holds whole, a frame-ready record; last the events are cleared and the
  -- frame is finished. `next` is libfprint's step, through the states in the order of the source.
  pub capture_completed :
      (kind seq : ℕ) (events : List Event)
      → (capture_run next kind seq events).status ≡ completed
      → Captured kind events (capture_run next kind seq events).requests
  unfolding capture_run
  capture_completed kind seq [] h = unfold drive in cc
  capture_completed kind seq (e ∷ rest) h =
      let c : Capture = record {
        acq_kind = kind;
        frame_deadline_us = 0;
        frame_got = false;
        event_seq_num = seq;
      } in
      let (way, stop) = arm_moves next order e c in
      let (h', sent, m) = only_way e rest arm_press wait_press c (λ u a. (way u a).0) stop h in
      let (polling, more, p) = press_completed rest _ h' in
      record {
        polling = polling;
        sent = sent ∙ unfold capture_ssm_handler in rw (more, (way wait_press m).1);
        polled = Polled-tail p;
      }
