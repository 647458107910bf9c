-- ===== src/Examples/Interrupt.antt =====
-- The properties of the interrupts at concrete inputs.
use verimark_linux_driver.Common.{
  usb_timed_out, ◌≤◌, ◌≡◌, ◌≢◌, refl, none, some, [], ◌∷◌, All, arith,
}
use verimark_linux_driver.Interrupt.{
  intr_attempt_ms, IntrCtx, Attempt, is_late, intr_ssm_handler, seq_of, is_wanted,
  on_intr_read_done, intr_wait, intr_drain_sync, got,
}
use mathlib.Core.List.{Memᴰ}
use verimark_linux_driver.Usb.{arrived, refused}
use verimark_linux_driver.Interrupt.Waits.{
  Pressed, intr_wait-got, intr_wait-timeouts_ms, intr_wait_ends,
}
use verimark_linux_driver.Interrupt.Drains.{queued, intr_drain_sync-queued}

-- The wait for a finger press, of one second.
abbrev wait : IntrCtx
wait = record { want_type = 1; deadline_us = some 1000000 }

abbrev silent : Attempt
silent = record { asked_us = 0; answer = refused usb_timed_out; answered_us = 500000 }

abbrev press : Attempt
press = record {
  asked_us = 500000;
  answer = arrived (1 ∷ 0 ∷ 0 ∷ 0 ∷ 0 ∷ 0 ∷ 42 ∷ []);
  answered_us = 600000;
}

abbrev late : Attempt
late = record { asked_us = 1000001; answer = arrived []; answered_us = 1000002 }

intr_wait_press : (intr_wait wait (silent ∷ press ∷ [])).result ≡ some (got 42)
unfolding intr_wait intr_ssm_handler on_intr_read_done is_late is_wanted seq_of
intr_wait_press = refl

intr_wait-got_example : Pressed 1 42 (silent ∷ press ∷ [])
intr_wait-got_example = intr_wait-got wait (silent ∷ press ∷ []) 42 intr_wait_press

intr_wait-timeouts_ms_example :
    All (λ ms. (1 ≤ ms) × (ms ≤ intr_attempt_ms)) (intr_wait wait (silent ∷ press ∷ [])).timeouts_ms
intr_wait-timeouts_ms_example = intr_wait-timeouts_ms wait (silent ∷ press ∷ [])

intr_wait_ends_example : (intr_wait wait (silent ∷ silent ∷ late ∷ [])).result ≢ none
intr_wait_ends_example =
    intr_wait_ends 1 1000000 (silent ∷ silent ∷ late ∷ []) late
      (Memᴰ.tail (Memᴰ.tail (Memᴰ.head refl))) (omega arith)

intr_drain_sync-queued_example :
    intr_drain_sync
      (queued ((1, 7 ∷ []) ∷ (2, []) ∷ []) (refused usb_timed_out ∷ arrived (1 ∷ []) ∷ []))
    ≡ arrived (1 ∷ []) ∷ []
intr_drain_sync-queued_example =
    intr_drain_sync-queued ((1, 7 ∷ []) ∷ (2, []) ∷ []) usb_timed_out (arrived (1 ∷ []) ∷ [])
      (omega arith)
