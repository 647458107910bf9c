-- ===== src/Moc/Commands.antt =====
-- driver/verimark-moc.c: the command bytes. A buffer that the C code fills is the list that it ends as.
pub mod Layout
use verimark_linux_driver.Common.{
  ℕ, ◌+◌, ◌*◌, ◌/◌, ◌%◌, ◌^◌, Bool, List, [], ◌∷◌, ◌++◌, ◌==◌, if◌then◌else◌, length, take, drop,
  replicate, Outcome, ok, ◌>>=◌, read, le16, le32,
}

-- VERIMARK_ACQ_ENROLL, VERIMARK_ACQ_VERIFY
abbrev pub acq_enroll : ℕ
acq_enroll = 0x0c

abbrev pub acq_verify : ℕ
acq_verify = 0x14

unfoldable pub build_begin_id : List ℕ
build_begin_id = 0x99 ∷ 0x01 ∷ replicate 11 0

unfoldable pub build_enroll_create : List ℕ
build_enroll_create = 0x96 ∷ 0x01 ∷ replicate 11 0

unfoldable pub build_enroll_sample : List ℕ
build_enroll_sample = 0x96 ∷ 0x02 ∷ 0 ∷ 0 ∷ 0 ∷ []

unfoldable pub build_enroll_commit : List ℕ
build_enroll_commit = 0x96 ∷ 0x04 ∷ 0 ∷ 0 ∷ 0 ∷ []

-- The acquisition kind is byte 1 of the literal.
unfoldable pub build_frame_acq : ℕ → List ℕ
build_frame_acq acq_kind =
    0x80 ∷ acq_kind ∷ 0x00 ∷ 0x00 ∷ 0x00 ∷ 0x01 ∷ 0x00 ∷ 0x00 ∷ 0x00 ∷ 0x01 ∷ 0x00 ∷ 0x00 ∷ 0x08
    ∷ 0x01 ∷ 0x01 ∷ 0x01 ∷ 0x00 ∷ []

unfoldable pub build_frame_finish : List ℕ
build_frame_finish = 0x81 ∷ []

-- WIN_FINALIZE
unfoldable pub win_finalize : List ℕ
win_finalize =
    0x96
      ∷ 0x03
      ∷ 0x00
      ∷ 0x00
      ∷ 0x00
      ∷ 0x00
      ∷ 0x00
      ∷ 0x00
      ∷ 0x00
      ∷ 0x6f
      ∷ 0x00
      ∷ 0x00
      ∷ 0x00
      ∷ 0x00
      ∷ 0x00
      ∷ 0x10
      ∷ 0x00
      ∷ 0x00
      ∷ 0x00
      ∷ 0x45
      ∷ 0x2d
      ∷ 0xec
      ∷ 0x91
      ∷ 0x88
      ∷ 0x13
      ∷ 0x90
      ∷ 0xe4
      ∷ 0x14
      ∷ 0xeb
      ∷ 0x6a
      ∷ 0x58
      ∷ 0x12
      ∷ 0x8e
      ∷ 0x41
      ∷ 0x21
      ∷ 0x01
      ∷ 0x00
      ∷ 0x4c
      ∷ 0x00
      ∷ 0x00
      ∷ 0x00
      ∷ 0x03
      ∷ 0x00
      ∷ 0x00
      ∷ 0x00
      ∷ 0x1c
      ∷ 0x00
      ∷ 0x00
      ∷ 0x00
      ∷ 0x01
      ∷ 0x05
      ∷ 0x00
      ∷ 0x00
      ∷ 0x00
      ∷ 0x00
      ∷ 0x00
      ∷ 0x05
      ∷ 0x15
      ∷ 0x00
      ∷ 0x00
      ∷ 0x00
      ∷ 0x00
      ∷ 0x00
      ∷ 0x00
      ∷ 0x00
      ∷ 0x00
      ∷ 0x00
      ∷ 0x00
      ∷ 0x00
      ∷ 0x00
      ∷ 0x00
      ∷ 0x00
      ∷ 0x00
      ∷ 0xe9
      ∷ 0x03
      ∷ 0x00
      ∷ 0x00
      ∷ 0x00
      ∷ 0x00
      ∷ 0x00
      ∷ 0x00
      ∷ 0x00
      ∷ 0x00
      ∷ 0x00
      ∷ replicate 33 0x00
    ++ (0x02 ∷ 0x00 ∷ 0x01 ∷ 0x00 ∷ 0x00 ∷ 0x00 ∷ 0xf5 ∷ [])

-- `memcpy (buf + off, bytes, length bytes)`
unfoldable pub splice : ℕ → List ℕ → List ℕ → List ℕ
splice off bytes buf = take off buf ++ (bytes ++ drop (off + length bytes) buf)

-- verimark_moc_build_finalize; its pointers are not NULL.
unfoldable pub build_finalize : List ℕ → List ℕ → List ℕ
build_finalize template_id sid = splice 49 sid (splice 19 template_id win_finalize)

-- One `sub` of verimark_moc_synth_sid, out of four bytes of the seed. No two terms share a bit.
unfoldable pub seed_word : List ℕ → ℕ → Outcome ℕ
seed_word seed off = do
  b0 ← read seed off
  b1 ← read seed (off + 1)
  b2 ← read seed (off + 2)
  b3 ← read seed (off + 3)
  ok (b0 + b1 * 2 ^ 8 + b2 * 2 ^ 16 + b3 * 2 ^ 24)

-- verimark_moc_synth_sid. `(guint32) uid` is `uid % 2 ^ 32`.
unfoldable pub synth_sid : ℕ → List ℕ → Outcome (List ℕ)
unfolding seed_word
synth_sid uid machine_seed = do
  a ← seed_word machine_seed 0
  b ← seed_word machine_seed 4
  c ← seed_word machine_seed 8
  ok (
      0x01
      ∷ 0x05
      ∷ 0
      ∷ 0
      ∷ 0
      ∷ 0
      ∷ 0
      ∷ 0x05
      ∷ (le32 21 ++ (le32 a ++ (le32 b ++ (le32 c ++ le32 (uid % 2 ^ 32))))))

-- VERIMARK_EVTMASK_FINGER, VERIMARK_EVTMASK_FRAME, VERIMARK_EVTMASK_NONE
abbrev pub evtmask_finger : ℕ
evtmask_finger = 0x00000006

abbrev pub evtmask_frame : ℕ
evtmask_frame = 0x01000000

abbrev pub evtmask_none : ℕ
evtmask_none = 0

-- build_event_config: the mask eight times, then 4 if it is empty.
unfoldable pub build_event_config : ℕ → List ℕ
build_event_config mask =
    0x86
    ∷ (le32 mask
        ++ (le32 mask
            ++ (le32 mask
                ++ (le32 mask
                    ++ (le32 mask
                        ++ (le32 mask
                            ++ (le32 mask ++ (le32 mask ++ le32 (if mask == 0 then 4 else 0)))))))))

unfoldable pub build_event_read : ℕ → List ℕ
build_event_read seq = 0x87 ∷ (le16 seq ++ (le16 32 ++ le32 1))

-- The storage commands that list_ssm_handler, delete_ssm_handler and clear_ssm_handler write out.
unfoldable pub obj_list_cmd : List ℕ
obj_list_cmd = 0x9f ∷ 0x01 ∷ []

unfoldable pub obj_info_cmd : List ℕ → List ℕ
obj_info_cmd target_gid = 0xa0 ∷ (le32 2 ++ target_gid)

unfoldable pub delete_obj_cmd : List ℕ → List ℕ
delete_obj_cmd child = 0xa3 ∷ (le32 1 ++ child)

unfoldable pub format_cmd : List ℕ
format_cmd = 0xa5 ∷ 0x01 ∷ []
