-- ===== src/Moc/Capture/Frames.antt =====
-- What the replies to EVENT_READ say, and what their callback makes of them.
use verimark_linux_driver.Common.{
  proto, ==→eq, ℕ, zero, suc, ◌+◌, ◌*◌, ◌≤◌, ◌<◌, ◌≡◌, Bool, true, false, none, List, leb, length,
  ok, ◌>>=◌, arith, Bool-cases, inl, inr, read, ◌==◌, if◌then◌else◌, ap, ◌∙◌, >>=-eq-ok, ◌⊎◌,
}
use verimark_linux_driver.Moc.Capture.{
  mark_failed, capture_frame_poll_delay_ms, jump_to_state_delayed, next_state, wait_frame, Capture,
  saw_frame_ready, read_events, on_cap_wait_frame_done, poll_again, evt_frame_ready,
}
use mathlib.Core.Bool.{false≢true}
use verimark_linux_driver.Moc.Capture.Safety.{read_events_ok}
use verimark_linux_driver.Moc.Replies.{rd_u16_le}
use verimark_linux_driver.Moc.Io.{Event, status_of}

-- One of the event records that a reply counts, and holds whole, is of the frame-ready type.
pub record HasFrame (resp : List ℕ) : Type 0 where
  pub num_evts : ℕ
  pub index : ℕ
  pub counted : rd_u16_le resp 2 ≡ ok num_evts
  pub index_lt : index < num_evts
  pub inside : 6 + (index + 1) * 12 ≤ length resp
  pub ready : read resp (6 + index * 12) ≡ ok evt_frame_ready

-- A reply to EVENT_READ that says that the frame is there.
pub record IsFrameReply (e : Event) : Type 0 where
  pub no_error : e.error ≡ none
  pub status_ok : status_of e.resp ≡ 0
  pub has_frame : HasFrame e.resp

saw_frame_ready-inside :
    (resp : List ℕ) (left i : ℕ) (saw : Bool)
    → leb (6 + (i + 1) * 12) (length resp) ≡ true
    → saw_frame_ready resp (suc left) i saw ≡ (
        read resp (6 + i * 12) >>= λ type.
        saw_frame_ready resp left (i + 1) (if type == evt_frame_ready then true else saw))
unfolding saw_frame_ready
saw_frame_ready-inside resp left i saw h = rw h

saw_frame_ready-outside :
    (resp : List ℕ) (left i : ℕ) (saw : Bool)
    → leb (6 + (i + 1) * 12) (length resp) ≡ false
    → saw_frame_ready resp (suc left) i saw ≡ ok saw
unfolding saw_frame_ready
saw_frame_ready-outside resp left i saw h = rw h

saw_frame_ready-true :
    (resp : List ℕ) (left i : ℕ) (saw : Bool)
    → saw_frame_ready resp left i saw ≡ ok true
    → (saw ≡ true)
      ⊎ ((j : ℕ) × (i ≤ j)
          × (j < i + left)
          × (6 + (j + 1) * 12 ≤ length resp)
          × (read resp (6 + j * 12) ≡ ok evt_frame_ready))
saw_frame_ready-true resp zero i saw h = inl (unfold saw_frame_ready in ground (arith, h))
saw_frame_ready-true resp (suc left) i saw h =
    elim (Bool-cases (leb (6 + (i + 1) * 12) (length resp))) [
      | inr outside ↦
          inl (ground (arith, rw (saw_frame_ready-outside resp left i saw outside) at h))
      | inl inside ↦
          let (t, e, rest) =
            >>=-eq-ok (read resp (6 + i * 12)) _
              (rw (saw_frame_ready-inside resp left i saw inside) at h) in
          elim (saw_frame_ready-true resp left (i + 1) _ rest) [
            | inr (j, lo, hi, fits, ready) ↦ inr (j, omega arith, omega arith, fits, ready)
            | inl now ↦ elim (Bool-cases (t == evt_frame_ready)) [
              | inl hit ↦ inr (
                i,
                omega arith,
                omega arith,
                ground arith,
                e ∙ ap ok (==→eq t evt_frame_ready hit),
              )
              | inr miss ↦ inl (rw miss at now)
            ]
          ]
    ]

pub read_events-HasFrame : (resp : List ℕ) (n : ℕ) → read_events resp ≡ ok (n, true) → HasFrame resp
unfolding read_events
read_events-HasFrame resp n h =
    let (m, e, rest) = >>=-eq-ok (rd_u16_le resp 2) _ h in
    let (saw, e', done) = >>=-eq-ok (saw_frame_ready resp m 0 false) _ rest in
    let yes' : saw ≡ true = ground (arith, done) in
    elim (saw_frame_ready-true resp m 0 false (e' ∙ ap ok yes')) [
      | inl never ↦ absurd (false≢true never)
      | inr (j, _, hi, fits, ready) ↦ record {
        num_evts = m;
        index = j;
        counted = e;
        index_lt = omega arith;
        inside = fits;
        ready = ready;
      }
    ]

pub on_cap_wait_frame_done_frame :
    (resp : List ℕ) (now : ℕ) (c : Capture)
    → (on_cap_wait_frame_done resp now c).1 ≡ next_state
    → (on_cap_wait_frame_done resp now c).0.frame_got ≡ true
    → (status_of resp ≡ 0) × HasFrame resp
unfolding on_cap_wait_frame_done poll_again
on_cap_wait_frame_done_frame resp now c h g = elim (Bool-cases (leb 6 (length resp))) [
  | inr short ↦ absurd (ground (arith, h, g, short))
  | inl long ↦
      let ((n, saw), e) = read_events_ok resp (ground arith) in
      let hit : saw ≡ true = ground (arith, h, g, long, e) in
      (ground (arith, h, g, long, e), read_events-HasFrame resp n (e ∙ ap (λ b. ok (n, b)) hit))
]

pub on_cap_wait_frame_done_acts :
    (resp : List ℕ) (now : ℕ) (c : Capture)
    → ((on_cap_wait_frame_done resp now c).1 ≡ next_state)
      ⊎ (((on_cap_wait_frame_done resp now c).1
            ≡ jump_to_state_delayed wait_frame capture_frame_poll_delay_ms)
          ⊎ ((on_cap_wait_frame_done resp now c).1 ≡ mark_failed proto))
unfolding on_cap_wait_frame_done poll_again
on_cap_wait_frame_done_acts resp now c = elim (Bool-cases (leb 6 (length resp))) [
  | inr short ↦ ground (arith, short)
  | inl long ↦ let ((n, saw), e) = read_events_ok resp (ground arith) in ground (arith, long, e)
]
