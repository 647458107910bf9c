-- ===== src/Moc/Prints.antt =====
-- driver/verimark-moc.c: the ids that an FpPrint carries. GVariant is GLib's: the data of a print is the
-- tuple that it holds, and `none` is a print with no data, or with data of another format.
pub mod Holds
use verimark_linux_driver.Common.{
  bytes_eq, ℕ, Bool, true, false, ◌&&◌, not, Option, none, some, List, [], ◌∷◌, ◌==◌, if◌then◌else◌,
  length, replicate,
}

-- The fields of VERIMARK_PRINT_DATA_FORMAT
pub record PrintData : Type 0 where
  pub finger : ℕ
  pub minted_tid : List ℕ
  pub list_gid : List ℕ
  pub user_id : List ℕ

abbrev pub Print : Type 0
Print = Option PrintData

abbrev pub zero16 : List ℕ
zero16 = replicate 16 0

-- verimark_build_print_data
unfoldable pub build_print_data : ℕ → List ℕ → List ℕ → List ℕ → PrintData
build_print_data finger minted_tid list_gid user_id = record {
  finger = finger;
  minted_tid = minted_tid;
  list_gid = list_gid;
  user_id = user_id;
}

-- verimark_parse_print_data: both ids have 16 bytes.
unfoldable pub parse_print_data : Print → Option PrintData
parse_print_data none = none
parse_print_data (some d) =
    if length d.minted_tid == 16 && length d.list_gid == 16 then some d else none

unfoldable pub print_matches_tid : Print → List ℕ → Bool
unfolding parse_print_data
print_matches_tid print tid = elim (parse_print_data print) [
  | none ↦ false
  | some d ↦ bytes_eq d.minted_tid tid
]

-- The choice of verimark_moc_delete: the listed id, or else the minted one, if it is not zero.
unfoldable pub delete_target : Print → Option (List ℕ)
unfolding parse_print_data
delete_target print = elim (parse_print_data print) [
  | none ↦ none
  | some d ↦
      if not (bytes_eq d.list_gid zero16)
      then some d.list_gid
      else if not (bytes_eq d.minted_tid zero16)
      then some d.minted_tid
      else none
]
