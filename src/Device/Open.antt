-- ===== src/Device/Open.antt =====
-- driver/verimark.c: dev_open and dev_close.
use verimark_linux_driver.Common.{
  ℕ, Bool, true, false, Option, none, some, List, if◌then◌else◌, Outcome, ok, err, fault, general,
  not_found, Action, go_on,
}
use verimark_linux_driver.Interrupt.{intr_drain_sync}
use verimark_linux_driver.Tls.Cert.{Pairing}
use verimark_linux_driver.Tls.Crypto.{Crypto}
use verimark_linux_driver.Tls.Channel.{Tls, tls_new, set_pairing}
use verimark_linux_driver.Tls.Channel.Session.{handshake, close}
use verimark_linux_driver.Tls.Pairing.{pairing_do}
use verimark_linux_driver.Tls.Pairing.Files.{Files, pairing_save_file, pairing_load_file}
use verimark_linux_driver.Device.{
  Device, Interface, World, Bus, vendor_iface, intr_in, find_interface, has_endpoint,
}
use verimark_linux_driver.Device.Commands.{tls_io_sync, pair_io_sync, resolve_sid_sync}

-- A call on the world, or on its files, beside the device.
abbrev pub on_world : {F A : Type 0} → Action (World F) A → Action (Device × World F) A
on_world call (d, w) = let end = call w in ((d, end.0), end.1)

abbrev pub on_files : {F A : Type 0} → Action F A → Action (World F) A
on_files call w = let end = call w.files in (record w { files = end.0 }, end.1)

module _ {F : Type 0} (crypto : Crypto) (files : Files F) (bus : Bus) where
  -- TOFU pairing, whose result is saved.
  unfoldable pub pair_and_save : (sid : List ℕ) → Action (World F) Pairing
  pair_and_save sid w =
      go_on (pairing_do crypto pair_io_sync bus.generated bus.signing w)
        λ pd w1. go_on (on_files (pairing_save_file files pd sid) w1) λ _ w2. (w2, ok pd)

  -- The sensor's pairing: only if it has no file, a new one is made.
  unfoldable pub loaded : (sid : List ℕ) → Outcome Pairing → Action (World F) Pairing
  unfolding pair_and_save
  loaded sid (ok pd) w = (w, ok pd)
  loaded sid (err not_found) w = pair_and_save sid w
  loaded sid (err x) w = (w, err x)
  loaded sid fault w = (w, fault)

  unfoldable pub load_or_pair : (sid : List ℕ) → Action (World F) Pairing
  unfolding loaded
  load_or_pair sid w = loaded sid (pairing_load_file files sid w.files) w

  unfoldable pub released : Outcome (Unit {0}) → World F → World F
  released (ok _) w = record w { claimed = false }
  released _ w = w

  -- verimark_open_fail, up to the completion: what the release answers is ignored.
  unfoldable pub open_fail : Device × World F → Device × World F
  unfolding released
  open_fail (d, w) = (record d { tls = none; iface = 0; ep_intr_in = 0 }, released bus.release w)

  -- A call that verimark_open_fail follows if it fails.
  unfoldable pub or_fail :
      {A : Type 0}
      → (Device × World F) × Outcome A
      → (A → Action (Device × World F) (Unit {0}))
      → (Device × World F) × Outcome (Unit {0})
  unfolding open_fail
  or_fail (s, ok a) behind = behind a s
  or_fail (s, err x) behind = (open_fail s, err x)
  or_fail (s, fault) behind = (s, fault)

  -- The end of dev_open, behind the handshake. One that returned FALSE without an error would complete the
  -- open without an error.
  unfoldable pub finish_open :
      (sid : List ℕ)
      → Pairing
      → Device
      → (Tls × World F) × Outcome Bool
      → (Device × World F) × Outcome (Unit {0})
  unfolding open_fail
  finish_open sid pd d ((t, w), ok true) =
      ((record d { tls = some t; sid = some sid; pairing = some pd }, w), ok tt)
  finish_open sid pd d ((t, w), ok false) = (open_fail (record d { tls = some t }, w), ok tt)
  finish_open sid pd d ((t, w), err x) = (open_fail (record d { tls = some t }, w), err x)
  finish_open sid pd d ((t, w), fault) = ((record d { tls = some t }, w), fault)

  -- The block of dev_open from verimark_resolve_sid_sync on
  unfoldable pub bring_up : Action (Device × World F) (Unit {0})
  unfolding or_fail finish_open load_or_pair
  bring_up s = or_fail (on_world resolve_sid_sync s) λ sid s1.
      or_fail (on_world (load_or_pair sid) s1) λ pd s2.
        finish_open sid pd s2.0
          (handshake crypto tls_io_sync bus.now bus.random bus.draws (set_pairing tls_new pd, s2.1))

  unfoldable pub claim_iface : Outcome (Unit {0}) → Action (World F) (Unit {0})
  claim_iface (ok _) w = (record w { claimed = true }, ok tt)
  claim_iface (err x) w = (w, err x)
  claim_iface fault w = (w, fault)

  -- dev_open behind the choice of the interface
  unfoldable pub open_iface : Option Interface → Action (Device × World F) (Unit {0})
  unfolding claim_iface bring_up
  open_iface none s = (s, err general)
  open_iface (some iface) s =
      let claims = go_on (on_world (claim_iface bus.claim) s) λ _ s1. bring_up (
        record s1.0 {
          iface = vendor_iface;
          ep_intr_in = intr_in;
          tls = none;
          pairing = none;
          sid = none;
        },
        record s1.1 { interrupts = intr_drain_sync s1.1.interrupts },
      ) in
      if has_endpoint iface.endpoints then claims else (s, err general)

  unfoldable pub dev_open : Action (Device × World F) (Unit {0})
  unfolding open_iface
  dev_open s = go_on (s, bus.interfaces) λ interfaces s1. open_iface (find_interface interfaces) s1

  unfoldable pub close_tls : Option Tls → World F → World F
  close_tls none w = w
  close_tls (some t) w = (close crypto tls_io_sync bus.close_nonce (t, w)).1

  -- dev_close; it completes with what the release answers.
  unfoldable pub dev_close : Action (Device × World F) (Unit {0})
  unfolding close_tls released
  dev_close (d, w) = (
    (
      record { iface = 0; ep_intr_in = 0; tls = none; sid = none; pairing = none },
      released bus.release (close_tls d.tls w),
    ),
    bus.release,
  )
