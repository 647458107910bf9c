-- ===== src/Examples/Replies.antt =====
-- The properties of the commands, the replies and the prints at concrete inputs.
use verimark_linux_driver.Common.{
  bytes_eq, IsByte, le32, slice, ◌≡◌, ◌≢◌, refl, none, some, List, [], ◌∷◌, ◌++◌, All, ok, fault,
  arith, take, drop, replicate, ℕ,
}
use verimark_linux_driver.Moc.Commands.{win_finalize, build_finalize, synth_sid}
use verimark_linux_driver.Moc.Replies.{parse_obj_list, parse_sample, parse_verify, parse_obj_info}
use verimark_linux_driver.Moc.Prints.{
  PrintData, zero16, build_print_data, print_matches_tid, delete_target,
}
use verimark_linux_driver.Moc.Commands.Layout.{build_finalize_layout, synth_sid_layout}
use verimark_linux_driver.Moc.Replies.Safety.{parsers_safe}
use verimark_linux_driver.Moc.Replies.ObjList.{parse_obj_list-obj_list_reply, obj_list_reply}
use verimark_linux_driver.Moc.Enroll.{Enroll, enroll_ssm_done}
use verimark_linux_driver.Moc.Storage.{listed_print}
use verimark_linux_driver.Moc.Storage.Prints.{enroll_ssm_done_ids, listed_print_ids}

abbrev id16 : List ℕ
id16 = 1 ∷ 2 ∷ 3 ∷ 4 ∷ 5 ∷ 6 ∷ 7 ∷ 8 ∷ 9 ∷ 10 ∷ 11 ∷ 12 ∷ 13 ∷ 14 ∷ 15 ∷ 255 ∷ []

abbrev sid28 : List ℕ
sid28 = replicate 28 9

abbrev enrolled : Enroll
enrolled = record {
  overall_deadline_us = 0;
  enroll_stage = 8;
  enroll_coverage = 0x7f;
  enroll_template_id = id16;
  reports = [];
}

abbrev enrolled_print : PrintData
enrolled_print = record { finger = 1; minted_tid = id16; list_gid = zero16; user_id = 0x46 ∷ [] }

id16_nonzero : id16 ≢ zero16
id16_nonzero h = ground (arith, h)

id16_bytes : All IsByte id16
id16_bytes = (
  omega arith,
  (
    omega arith,
    (
      omega arith,
      (
        omega arith,
        (
          omega arith,
          (
            omega arith,
            (
              omega arith,
              (
                omega arith,
                (
                  omega arith,
                  (
                    omega arith,
                    (
                      omega arith,
                      (omega arith, (omega arith, (omega arith, (omega arith, (omega arith, tt))))),
                    ),
                  ),
                ),
              ),
            ),
          ),
        ),
      ),
    ),
  ),
)

build_finalize_layout_example :
    build_finalize id16 sid28
    ≡ take 19 win_finalize
      ++ (id16 ++ (slice 35 14 win_finalize ++ (sid28 ++ drop 77 win_finalize)))
build_finalize_layout_example = build_finalize_layout id16 sid28 refl refl

synth_sid_layout_example :
    synth_sid 1000 id16
    ≡ ok (0x01 ∷ 0x05 ∷ 0 ∷ 0 ∷ 0 ∷ 0 ∷ 0 ∷ 0x05 ∷ 21 ∷ 0 ∷ 0 ∷ 0 ∷ (take 12 id16 ++ le32 1000))
synth_sid_layout_example = synth_sid_layout 1000 id16 refl id16_bytes

parsers_safe_example :
    (parse_sample id16 ≢ fault)
    × (parse_verify id16 ≢ fault)
    × (parse_obj_list id16 ≢ fault)
    × (parse_obj_info id16 ≢ fault)
parsers_safe_example = parsers_safe id16

parse_obj_list-obj_list_reply_example :
    parse_obj_list (obj_list_reply 0 (id16 ∷ zero16 ∷ []) ++ 7 ∷ []) ≡ ok (0, id16 ∷ zero16 ∷ [])
parse_obj_list-obj_list_reply_example =
    parse_obj_list-obj_list_reply 0 (id16 ∷ zero16 ∷ []) (7 ∷ []) (omega arith) (omega arith)
      (refl, (refl, tt))

enroll_ssm_done-enrolled : enroll_ssm_done (0x46 ∷ []) none enrolled ≡ ok enrolled_print
unfolding enroll_ssm_done build_print_data
enroll_ssm_done-enrolled = refl

enroll_ssm_done_ids_example :
    (print_matches_tid (some enrolled_print) zero16 ≡ bytes_eq id16 zero16)
    × (delete_target (some enrolled_print) ≡ some id16)
enroll_ssm_done_ids_example =
    enroll_ssm_done_ids (0x46 ∷ []) id16 zero16 enrolled enrolled_print refl refl id16_nonzero
      enroll_ssm_done-enrolled

listed_print_ids_example :
    (delete_target (listed_print id16) ≡ some id16)
    × (print_matches_tid (listed_print id16) id16 ≡ bytes_eq zero16 id16)
listed_print_ids_example = listed_print_ids id16 id16 refl id16_nonzero
