-- ===== src/Examples/Machines.antt =====
-- The properties of the match-on-chip machines at concrete runs.
use verimark_linux_driver.Moc.Replies.{
  obj_ids, parse_verify, parse_obj_list, rd_u16_le, parse_obj_info, parse_sample,
}
use verimark_linux_driver.Moc.Io.{status_of, send, Event, Request}
use verimark_linux_driver.Common.{
  bytes_eq, ◌+◌, ◌≤◌, ◌≡◌, ◌≢◌, refl, true, false, Option, none, some, List, [], ◌∷◌, ◌++◌, length,
  ok, Error, replicate, read, copy, retry, ℕ,
}
use verimark_linux_driver.Ssm.{moved, drive, completed, broken, Trace}
use verimark_linux_driver.Moc.Capture.{
  on_cap_event_config_done, on_cap_wait_press_done, on_cap_frame_acq_done, read_events,
  on_cap_wait_frame_done, on_cap_frame_finish_done, cap_callback, wait_press, arm_frame, frame_acq,
  wait_frame, event_clear, frame_finish, capture_run, CapState, arm_press,
}
use verimark_linux_driver.Moc.Enroll.{
  EnrState, enroll_progress, on_enr_capture_done, on_enr_dedup_done, on_enr_create_done,
  on_enr_finalize_done, on_enr_commit_done, sample_again, sample_taken, sample_parsed,
  on_enr_sample_done, enr_reply, enr_error, enr_answer, enr_callback, dedup_capture, dedup, create,
  sample_capture, sample, finalize, commit, enroll_run,
}
use verimark_linux_driver.Moc.Verify.{
  VfyState, Gallery, on_vfy_capture_done, match_parsed, on_vfy_match_done, vfy_callback,
  vfy_capture, vfy_match, identify_data, verify_run, verify_max_attempts,
}
use verimark_linux_driver.Moc.Storage.{
  list_parsed, on_list_done, list_callback, del_info_parsed, on_del_info_done, on_del_delete_done,
  delete_ssm_handler, delete_callback, list_run, delete_run, ListState, DelState, list_get,
  del_info, del_delete, DeleteCtx,
}
use verimark_linux_driver.Moc.Prints.{delete_target, zero16, Print}
use verimark_linux_driver.Moc.Commands.{obj_info_cmd, delete_obj_cmd}
use verimark_linux_driver.Moc.Capture.Order.{Captured, capture_completed}
use verimark_linux_driver.Moc.Capture.Safety.{capture_run-ne-broken}
use verimark_linux_driver.Moc.Enroll.Order.{Enrolled, enroll_completed}
use verimark_linux_driver.Moc.Enroll.Stages.{InStages, enroll_run-InStages}
use verimark_linux_driver.Moc.Verify.Attempts.{length-verify_run}
use verimark_linux_driver.Moc.Verify.Reports.{Reported, verify_completed}
use verimark_linux_driver.Moc.Storage.Runs.{Deleted, delete_completed, Listed, list_completed}

abbrev cap_next : CapState → Option CapState
cap_next arm_press = some wait_press
cap_next wait_press = some arm_frame
cap_next arm_frame = some frame_acq
cap_next frame_acq = some wait_frame
cap_next wait_frame = some event_clear
cap_next event_clear = some frame_finish
cap_next frame_finish = none

abbrev enr_next : EnrState → Option EnrState
enr_next dedup_capture = some dedup
enr_next dedup = some create
enr_next create = some sample_capture
enr_next sample_capture = some sample
enr_next sample = some finalize
enr_next finalize = some commit
enr_next commit = none

abbrev vfy_next : VfyState → Option VfyState
vfy_next vfy_capture = some vfy_match
vfy_next vfy_match = none

abbrev list_next : ListState → Option ListState
list_next list_get = none

abbrev del_next : DelState → Option DelState
del_next del_info = some del_delete
del_next del_delete = none

abbrev answered : List ℕ → Event
answered resp = record { error = none; resp = resp; got = true; now = 0 }

abbrev refused_by : Error → Event
refused_by x = record { error = some x; resp = []; got = false; now = 0 }

abbrev tid : List ℕ
tid = 1 ∷ 2 ∷ 3 ∷ 4 ∷ 5 ∷ 6 ∷ 7 ∷ 8 ∷ 9 ∷ 10 ∷ 11 ∷ 12 ∷ 13 ∷ 14 ∷ 15 ∷ 255 ∷ []

-- The first poll finds no event, the second one a frame-ready record.
abbrev capture_events : List Event
capture_events =
    answered []
    ∷ answered []
    ∷ answered []
    ∷ answered []
    ∷ answered (0x05 ∷ 0x04 ∷ [])
    ∷ answered (0 ∷ 0 ∷ 1 ∷ 0 ∷ 0 ∷ 0 ∷ 0x18 ∷ replicate 11 0)
    ∷ answered []
    ∷ answered []
    ∷ []

capture_run_completed : (capture_run cap_next 0x14 7 capture_events).status ≡ completed
unfolding capture_run drive moved cap_callback on_cap_event_config_done on_cap_wait_press_done
    on_cap_frame_acq_done on_cap_wait_frame_done status_of read_events rd_u16_le read
    on_cap_frame_finish_done
capture_run_completed = refl

capture_completed_example :
    Captured 0x14 capture_events (capture_run cap_next 0x14 7 capture_events).requests
capture_completed_example =
    capture_completed cap_next (refl, (refl, (refl, (refl, (refl, (refl, refl)))))) 0x14 7
      capture_events capture_run_completed

capture_run-ne-broken_example : (capture_run cap_next 0x14 7 capture_events).status ≢ broken
capture_run-ne-broken_example = capture_run-ne-broken cap_next 0x14 7 capture_events

-- The first capture is missed once, and the one sample fills the coverage.
abbrev enroll_events : List Event
enroll_events =
    refused_by retry
    ∷ answered []
    ∷ answered []
    ∷ answered []
    ∷ answered []
    ∷ answered (0 ∷ 0 ∷ (tid ++ (replicate 4 0 ++ 0x7f ∷ replicate 20 0)))
    ∷ answered []
    ∷ answered []
    ∷ []

enroll_run_completed : (enroll_run enr_next (replicate 28 9) 0 enroll_events).status ≡ completed
unfolding enroll_run drive moved enr_callback enr_answer enr_error on_enr_capture_done enr_reply
    on_enr_dedup_done on_enr_create_done status_of on_enr_sample_done sample_parsed parse_sample
    rd_u16_le read copy enroll_progress on_enr_commit_done on_enr_finalize_done sample_again
    sample_taken
enroll_run_completed = refl

enroll_completed_example :
    Enrolled (replicate 28 9) enroll_events (enroll_run enr_next (replicate 28 9) 0 enroll_events)
enroll_completed_example =
    enroll_completed (replicate 28 9) enr_next (refl, (refl, (refl, (refl, (refl, (refl, refl))))))
      0 enroll_events enroll_run_completed

enroll_run-InStages_example :
    ((enroll_run enr_next (replicate 28 9) 0 enroll_events).status ≢ broken)
    × InStages (enroll_run enr_next (replicate 28 9) 0 enroll_events).ctx
enroll_run-InStages_example = enroll_run-InStages enr_next (replicate 28 9) 0 enroll_events

abbrev gallery : Gallery
gallery =
    identify_data
      (none ∷ some (record { finger = 1; minted_tid = tid; list_gid = zero16; user_id = [] }) ∷ [])

abbrev verify_events : List Event
verify_events = refused_by retry ∷ answered [] ∷ answered (0 ∷ 0 ∷ tid) ∷ []

verify_run_completed : (verify_run vfy_next gallery 0 verify_events).status ≡ completed
unfolding verify_run drive moved vfy_callback on_vfy_capture_done on_vfy_match_done match_parsed
    parse_verify rd_u16_le read copy
verify_run_completed = refl

verify_completed_example :
    Reported gallery verify_events (verify_run vfy_next gallery 0 verify_events).ctx.reports
verify_completed_example =
    verify_completed vfy_next (refl, refl) gallery 0 verify_events verify_run_completed

length-verify_run_example :
    (length (verify_run vfy_next gallery 0 verify_events).requests ≤ verify_max_attempts + 1)
    × ((verify_run vfy_next gallery 0 verify_events).status ≢ broken)
length-verify_run_example = length-verify_run vfy_next (refl, refl) gallery 0 verify_events

abbrev list_events : List Event
list_events = answered (0 ∷ 0 ∷ 1 ∷ 0 ∷ tid) ∷ []

list_run_completed : (list_run list_next list_events).status ≡ completed
unfolding list_run drive moved list_callback on_list_done list_parsed parse_obj_list rd_u16_le read
    obj_ids copy
list_run_completed = refl

list_completed_example : Listed list_events (list_run list_next list_events)
list_completed_example = list_completed list_next list_events list_run_completed

abbrev listed : Print
listed = some (record { finger = 1; minted_tid = zero16; list_gid = tid; user_id = [] })

abbrev delete_events : List Event
delete_events = answered (replicate 20 0 ++ tid) ∷ answered [] ∷ []

abbrev deleted : Trace DelState DeleteCtx Request
deleted = record {
  requests = send (obj_info_cmd tid) 0x34 ∷ send (delete_obj_cmd tid) 4 ∷ [];
  status = completed;
  ctx = record { target_gid = tid; child = tid };
}

delete_run-deleted : delete_run del_next listed delete_events ≡ ok deleted
unfolding delete_run delete_target bytes_eq drive moved delete_callback on_del_info_done
    del_info_parsed parse_obj_info copy delete_ssm_handler on_del_delete_done
delete_run-deleted = refl

delete_target_listed : delete_target listed ≡ some tid
unfolding delete_target bytes_eq
delete_target_listed = refl

delete_completed_example : Deleted tid delete_events deleted
delete_completed_example =
    delete_completed del_next (refl, refl) listed tid delete_events deleted delete_target_listed
      delete_run-deleted refl
