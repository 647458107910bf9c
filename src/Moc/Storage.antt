-- ===== src/Moc/Storage.antt =====
-- driver/verimark-moc.c: listing, deleting and clearing the prints on the chip.
pub mod Runs
pub mod Prints
use verimark_linux_driver.Common.{
  bytes_eq, zero, suc, ◌+◌, ◌*◌, ◌/◌, ◌%◌, ◌^◌, ◌≤◌, ◌<◌, ◌≡◌, ◌≢◌, refl, sym, ap, ◌∙◌, Bool, true,
  false, not, ◌&&◌, ◌||◌, Option, none, some, List, [], ◌∷◌, ◌++◌, ltb, leb, ◌==◌, if◌then◌else◌,
  length, All, Outcome, ok, err, fault, ◌>>=◌, Error, arith, Bool-cases, Option-cases, inl, inr,
  ◌⊎◌, ==→eq, >>=-eq-ok, map-safe, take, drop, replicate, read, copy, fail_if, proto, retry,
  data_invalid, ℕ,
}
use verimark_linux_driver.Ssm.{
  Status, moved, Follows, Trace, stopped, asked, resumed, drive, next_state, jump_to_state,
  jump_to_state_delayed, mark_completed, mark_failed, undefined, at, completed, failed, broken, Act,
}
use verimark_linux_driver.Moc.Commands.{
  acq_enroll, acq_verify, build_begin_id, build_enroll_create, build_enroll_sample,
  build_enroll_commit, build_frame_acq, build_frame_finish, win_finalize, splice, build_finalize,
  seed_word, synth_sid, evtmask_finger, evtmask_frame, evtmask_none, build_event_config,
  build_event_read, obj_info_cmd, delete_obj_cmd, format_cmd, obj_list_cmd,
}
use verimark_linux_driver.Moc.Prints.{
  PrintData, build_print_data, parse_print_data, print_matches_tid, delete_target, Print, zero16,
}
use verimark_linux_driver.Moc.Replies.{parse_obj_list, parse_obj_info}
use verimark_linux_driver.Moc.Io.{Request, send, Event}

pub data ListState : Type 0 where
  list_get : ListState

-- VerimarkListCtx: `none` is the NULL that it starts with.
pub record ListCtx : Type 0 where
  pub prints : Option (List Print)

-- One of the "%02x" digits
unfoldable pub hex_digit : ℕ → ℕ
hex_digit n = if ltb n 10 then 0x30 + n else 0x57 + n

-- "verimark-" and the id in hexadecimal, as bytes
unfoldable pub hex_bytes : List ℕ → List ℕ
unfolding hex_digit
hex_bytes [] = []
hex_bytes (b ∷ bs) = hex_digit (b / 16) ∷ hex_digit (b % 16) ∷ hex_bytes bs

unfoldable pub label_of : List ℕ → List ℕ
label_of gid = 0x76 ∷ 0x65 ∷ 0x72 ∷ 0x69 ∷ 0x6d ∷ 0x61 ∷ 0x72 ∷ 0x6b ∷ 0x2d ∷ hex_bytes gid

-- The print that on_list_done makes of a listed id.
unfoldable pub listed_print : List ℕ → Print
listed_print gid = some (build_print_data 1 zero16 gid (label_of gid))

unfoldable pub listed_prints : List (List ℕ) → List Print
listed_prints [] = []
listed_prints (gid ∷ ids) = listed_print gid ∷ listed_prints ids

-- on_list_done, by what the parser made of the reply: the status and the ids
unfoldable pub list_parsed : Outcome (ℕ × List (List ℕ)) → ListCtx → ListCtx × Act ListState
list_parsed (ok (st, ids)) c =
    if st == 0x0000
    then (record { prints = some (listed_prints ids) }, mark_completed)
    else (c, mark_failed proto)
list_parsed (err x) c = (c, mark_failed x)
list_parsed fault c = (c, undefined)

unfoldable pub on_list_done : Option Error → List ℕ → ListCtx → ListCtx × Act ListState
on_list_done none resp c = list_parsed (parse_obj_list resp) c
on_list_done (some x) resp c = (c, mark_failed x)

-- list_ssm_handler
unfoldable pub list_ssm_handler : ListState → ListCtx → Request
list_ssm_handler list_get c = send obj_list_cmd 0x400

unfoldable pub list_callback : ListState → Event → ListCtx → ListCtx × Act ListState
list_callback list_get e c = on_list_done e.error e.resp c

-- verimark_moc_list
unfoldable pub list_run :
    (ListState → Option ListState) → List Event → Trace ListState ListCtx Request
list_run next events =
    drive next list_ssm_handler list_callback events list_get (record { prints = none })

pub data DelState : Type 0 where
  del_info del_delete : DelState

-- VerimarkDeleteCtx
pub record DeleteCtx : Type 0 where
  pub target_gid : List ℕ
  pub child : List ℕ

-- on_del_info_done, by what the parser made of the reply
unfoldable pub del_info_parsed : Outcome (List ℕ) → DeleteCtx → DeleteCtx × Act DelState
del_info_parsed (ok child) c = (record c { child = child }, next_state)
del_info_parsed (err x) c = (c, mark_failed x)
del_info_parsed fault c = (c, undefined)

unfoldable pub on_del_info_done : Option Error → List ℕ → DeleteCtx → DeleteCtx × Act DelState
on_del_info_done none resp c = del_info_parsed (parse_obj_info resp) c
on_del_info_done (some x) resp c = (c, mark_failed x)

unfoldable pub on_del_delete_done : Option Error → DeleteCtx → DeleteCtx × Act DelState
on_del_delete_done none c = (c, mark_completed)
on_del_delete_done (some x) c = (c, mark_failed x)

-- delete_ssm_handler
unfoldable pub delete_ssm_handler : DelState → DeleteCtx → Request
delete_ssm_handler del_info c = send (obj_info_cmd c.target_gid) 0x34
delete_ssm_handler del_delete c = send (delete_obj_cmd c.child) 4

unfoldable pub delete_callback : DelState → Event → DeleteCtx → DeleteCtx × Act DelState
delete_callback del_info e c = on_del_info_done e.error e.resp c
delete_callback del_delete e c = on_del_delete_done e.error c

-- verimark_moc_delete: without a target it fails at once, and no machine is started.
unfoldable pub delete_run :
    (DelState → Option DelState) → Print → List Event → Outcome (Trace DelState DeleteCtx Request)
delete_run next print events = elim (delete_target print) [
  | none ↦ err data_invalid
  | some target ↦ ok (
      drive next delete_ssm_handler delete_callback events del_info
        (record { target_gid = target; child = zero16 }))
]

pub data ClearState : Type 0 where
  clr_format : ClearState

unfoldable pub on_clr_done : Option Error → Act ClearState
on_clr_done none = mark_completed
on_clr_done (some x) = mark_failed x

-- clear_ssm_handler; the machine has no context.
unfoldable pub clear_ssm_handler : ClearState → Request
clear_ssm_handler clr_format = send format_cmd 4

unfoldable pub clear_callback : ClearState → Event → Act ClearState
clear_callback clr_format e = on_clr_done e.error

-- verimark_moc_clear
unfoldable pub clear_run :
    (ClearState → Option ClearState) → List Event → Trace ClearState (Unit {0}) Request
clear_run next events =
    drive next (λ s _. clear_ssm_handler s) (λ s e c. (c, clear_callback s e)) events clr_format tt
