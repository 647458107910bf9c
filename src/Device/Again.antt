-- ===== src/Device/Again.antt =====
-- A sensor's pairing is made once.
use verimark_linux_driver.Common.{
  ℕ, ◌≡◌, some, List, Outcome, ok, err, fault, length, not_found, go_on-eq-ok, refl, sym, ap, ◌∙◌,
  ok_eq, ok_ne_err,
}
use verimark_linux_driver.Tls.Cert.{Pairing}
use verimark_linux_driver.Tls.Cert.RoundTrip.{IsPairing}
use verimark_linux_driver.Tls.Crypto.{Crypto}
use verimark_linux_driver.Tls.Pairing.{KeyPair, pairing_do}
use verimark_linux_driver.Tls.Pairing.Fresh.{pairing_do-IsPairing}
use verimark_linux_driver.Tls.Pairing.Files.{
  Files, pairing_save_file, pairing_load_file, pairing_load_file-pairing_save_file,
}
use verimark_linux_driver.Device.{World, Bus}
use verimark_linux_driver.Device.Commands.{pair_io_sync}
use verimark_linux_driver.Device.Open.{on_files, pair_and_save, loaded, load_or_pair}

load_or_pair-found :
    {F : Type 0} (crypto : Crypto) (files : Files F) (bus : Bus) (sid : List ℕ) (pd : Pairing)
    (w : World F)
    → pairing_load_file files sid w.files ≡ ok pd
    → load_or_pair crypto files bus sid w ≡ (w, ok pd)
unfolding load_or_pair loaded
load_or_pair-found crypto files bus sid pd w h = ap (λ o. loaded crypto files bus sid o w) h

module _ {F : Type 0} (crypto : Crypto) (files : Files F) (bus : Bus) (pair : KeyPair)
    (drawn : bus.generated ≡ some pair) (size : length pair.priv ≡ 32) (sid : List ℕ)
    (pd : Pairing) where
  pair_and_save-stored :
      (w : World F)
      → (pair_and_save crypto files bus sid w).1 ≡ ok pd
      → pairing_load_file files sid (pair_and_save crypto files bus sid w).0.files ≡ ok pd
  unfolding pair_and_save
  pair_and_save-stored w h =
      let snd : World F × Outcome Pairing → Outcome Pairing = λ r. r.1 in
      let made : World F × Outcome Pairing =
        pairing_do crypto pair_io_sync bus.generated bus.signing w in
      let (pd1, done, e1) = go_on-eq-ok made _ h in
      let h1 = ap snd (sym e1) ∙ h in
      let saving : World F × Outcome (Unit {0}) =
        on_files (pairing_save_file files pd1 sid) made.0 in
      let (u, saved, e2) = go_on-eq-ok saving _ h1 in
      let same : pd1 ≡ pd = ok_eq pd1 pd (ap snd (sym e2) ∙ h1) in
      let sized : IsPairing pd1 =
        (pairing_do-IsPairing crypto pair_io_sync pair bus.signing w pd1 size
          (ap (λ g. (pairing_do crypto pair_io_sync g bus.signing w).1) (sym drawn) ∙ done)).1 in
      let back : pairing_load_file files sid saving.0.files ≡ ok pd1 =
        pairing_load_file-pairing_save_file files pd1 sid made.0.files sized saved in
      ap (λ (r : World F × Outcome Pairing). pairing_load_file files sid r.0.files) (e1 ∙ e2)
      ∙ (back ∙ ap ok same)

  loaded-stored :
      (found : Outcome Pairing) (w : World F)
      → pairing_load_file files sid w.files ≡ found
      → (loaded crypto files bus sid found w).1 ≡ ok pd
      → pairing_load_file files sid (loaded crypto files bus sid found w).0.files ≡ ok pd
  unfolding loaded
  loaded-stored (ok p) w e h = e ∙ h
  loaded-stored (err not_found) w e h = pair_and_save-stored w h
  loaded-stored fault w e h = cc
  loaded-stored (err x) w e h = absurd (ok_ne_err (sym h))

  load_or_pair-stored :
      (w : World F)
      → (load_or_pair crypto files bus sid w).1 ≡ ok pd
      → pairing_load_file files sid (load_or_pair crypto files bus sid w).0.files ≡ ok pd
  unfolding load_or_pair
  load_or_pair-stored w h = loaded-stored (pairing_load_file files sid w.files) w refl h

-- A sensor's pairing that an open has found or made, with a scalar of 32 bytes drawn for it, is found again
-- by the next open, whatever that one draws: it returns the same pairing and changes nothing, so
-- that it sends no command.
pub load_or_pair_again :
    {F : Type 0} (crypto : Crypto) (files : Files F) (bus later : Bus) (pair : KeyPair)
    (sid : List ℕ) (pd : Pairing) (w : World F)
    → bus.generated ≡ some pair
    → length pair.priv ≡ 32
    → (load_or_pair crypto files bus sid w).1 ≡ ok pd
    → load_or_pair crypto files later sid (load_or_pair crypto files bus sid w).0
      ≡ ((load_or_pair crypto files bus sid w).0, ok pd)
load_or_pair_again crypto files bus later pair sid pd w drawn size h =
    load_or_pair-found crypto files later sid pd (load_or_pair crypto files bus sid w).0
      (load_or_pair-stored crypto files bus pair drawn size sid pd w h)
