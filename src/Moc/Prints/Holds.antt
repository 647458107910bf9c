-- ===== src/Moc/Prints/Holds.antt =====
-- The prints that hold an id, against the comparison of verify.
use verimark_linux_driver.Common.{
  bytes_eq, bytes_eq-≡, bytes_eq_refl, ◌≡◌, refl, true, ◌&&◌, none, some, List, ◌==◌, length, arith,
  Bool-cases, inl, inr, ℕ,
}
use verimark_linux_driver.Moc.Prints.{Print, print_matches_tid, parse_print_data, PrintData}

-- A print that verimark_build_print_data may have made, for the minted id `tid`.
pub record Holds (print : Print) (tid : List ℕ) : Type 0 where
  pub ids : PrintData
  pub is_data : print ≡ some ids
  pub minted : ids.minted_tid ≡ tid
  pub minted_size : length ids.minted_tid ≡ 16
  pub list_size : length ids.list_gid ≡ 16

pub print_matches_tid-Holds :
    (p : Print) (tid : List ℕ) → print_matches_tid p tid ≡ true → Holds p tid
unfolding print_matches_tid parse_print_data
print_matches_tid-Holds none tid h = ground (arith, h)
print_matches_tid-Holds (some d) tid h =
    elim (Bool-cases (length d.minted_tid == 16 && length d.list_gid == 16)) [
      | inr bad ↦ ground (arith, h, bad)
      | inl good ↦ record {
        ids = d;
        is_data = refl;
        minted = bytes_eq-≡ d.minted_tid tid (ground (arith, h, good));
        minted_size = ground (arith, good);
        list_size = ground (arith, good);
      }
    ]

pub Holds-print_matches_tid :
    (p : Print) (tid : List ℕ) → Holds p tid → print_matches_tid p tid ≡ true
unfolding print_matches_tid parse_print_data
Holds-print_matches_tid none tid h = ground (arith, h.is_data)
Holds-print_matches_tid (some d) tid h =
    let same : d ≡ h.ids = ground (arith, h.is_data) in
    let sized : (length d.minted_tid == 16 && length d.list_gid == 16) ≡ true =
      rw same (ground (arith, h.minted_size, h.list_size)) in
    let equal : bytes_eq d.minted_tid tid ≡ true = rw (same, h.minted) (bytes_eq_refl tid) in
    ground (arith, sized, equal)
