-- ===== src/Moc/Storage/Prints.antt =====
-- The ids of the prints that the driver makes.
use verimark_linux_driver.Common.{
  bytes_eq, bytes_eq-≡, bytes_eq_refl, ◌≡◌, ◌≢◌, refl, sym, ap, ◌∙◌, false, none, some, List,
  length, ok, arith, Bool-cases, inl, inr, ℕ,
}
use verimark_linux_driver.Moc.Prints.{
  PrintData, zero16, build_print_data, print_matches_tid, delete_target, parse_print_data,
}
use verimark_linux_driver.Moc.Enroll.{enroll_ssm_done, Enroll}
use verimark_linux_driver.Moc.Storage.{listed_print}

parse_print_data_sized :
    (d : PrintData)
    → length d.minted_tid ≡ 16
    → length d.list_gid ≡ 16
    → parse_print_data (some d) ≡ some d
unfolding parse_print_data
parse_print_data_sized d h k = rw (h, k) refl

delete_target_listed :
    (d : PrintData)
    → length d.minted_tid ≡ 16
    → length d.list_gid ≡ 16
    → bytes_eq d.list_gid zero16 ≡ false
    → delete_target (some d) ≡ some d.list_gid
unfolding delete_target
delete_target_listed d h k z = ground (arith, parse_print_data_sized d h k, z)

delete_target_minted :
    (d : PrintData)
    → length d.minted_tid ≡ 16
    → d.list_gid ≡ zero16
    → bytes_eq d.minted_tid zero16 ≡ false
    → delete_target (some d) ≡ some d.minted_tid
unfolding delete_target
delete_target_minted d h k z = ground (
  arith,
  parse_print_data_sized d h (ap length k),
  z,
  ap (λ g. bytes_eq g zero16) k ∙ bytes_eq_refl zero16,
)

bytes_eq_not : (xs : List ℕ) → xs ≢ zero16 → bytes_eq xs zero16 ≡ false
bytes_eq_not xs z = elim (Bool-cases (bytes_eq xs zero16)) [
  | inl e ↦ absurd (z (bytes_eq-≡ xs zero16 e))
  | inr e ↦ e
]

print_matches_tid_sized :
    (d : PrintData) (other : List ℕ)
    → length d.minted_tid ≡ 16
    → length d.list_gid ≡ 16
    → print_matches_tid (some d) other ≡ bytes_eq d.minted_tid other
unfolding print_matches_tid
print_matches_tid_sized d other h k = ground (arith, parse_print_data_sized d h k)

-- The print that an enrollment leaves for an id of 16 bytes, not all zero, is matched by the ids
-- that equal it and by no other, and is deleted by that id.
pub enroll_ssm_done_ids :
    (user_id tid other : List ℕ) (c : Enroll) (d : PrintData)
    → c.enroll_template_id ≡ tid
    → length tid ≡ 16
    → tid ≢ zero16
    → enroll_ssm_done user_id none c ≡ ok d
    → (print_matches_tid (some d) other ≡ bytes_eq tid other) × (delete_target (some d) ≡ some tid)
unfolding enroll_ssm_done build_print_data
enroll_ssm_done_ids user_id tid other c d t n z h =
    let minted : d.minted_tid ≡ tid = ground (arith, h, t) in
    let listed : d.list_gid ≡ zero16 = ground (arith, h) in
    let sized : length d.minted_tid ≡ 16 = ap length minted ∙ n in
    (
      print_matches_tid_sized d other sized (ap length listed) ∙ ap (λ i. bytes_eq i other) minted,
      delete_target_minted d sized listed (bytes_eq_not _ (λ e. z (sym minted ∙ e)))
          ∙ ap some minted,
    )

-- The print that is listed for an id of 16 bytes, not all zero, is deleted by that id, and is
-- matched only by an id of 16 zeros: a finger is not verified against it.
pub listed_print_ids :
    (gid other : List ℕ)
    → length gid ≡ 16
    → gid ≢ zero16
    → (delete_target (listed_print gid) ≡ some gid)
      × (print_matches_tid (listed_print gid) other ≡ bytes_eq zero16 other)
unfolding listed_print build_print_data
listed_print_ids gid other n z =
    (delete_target_listed _ refl n (bytes_eq_not gid z), print_matches_tid_sized _ other refl n)
