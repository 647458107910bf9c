-- ===== src/Device/Ends.antt =====
-- How opening the device ends: with an established channel, or with everything released.
use verimark_linux_driver.Common.{
  ℕ, ◌≡◌, ◌≢◌, Bool, true, false, Option, none, some, List, ◌∷◌, Outcome, ok, err, fault, Action,
  go_on, if_elim, refl,
}
use verimark_linux_driver.Interrupt.{intr_drain_sync}
use verimark_linux_driver.Tls.Cert.{Pairing}
use verimark_linux_driver.Tls.Crypto.{Crypto}
use verimark_linux_driver.Tls.Channel.{Tls, tls_new, set_pairing}
use verimark_linux_driver.Tls.Channel.Session.{handshake}
use verimark_linux_driver.Tls.Channel.Session.Established.{IsFinishedBy, bool_ne}
use verimark_linux_driver.Tls.Channel.Session.Agreed.{
  IsAgreed, handshake-IsAgreed, handshake_established,
}
use verimark_linux_driver.Tls.Pairing.Files.{Files}
use verimark_linux_driver.Device.{
  Device, Interface, World, Bus, vendor_iface, intr_in, find_interface, has_endpoint,
}
use verimark_linux_driver.Device.Commands.{tls_io_sync, resolve_sid_sync}
use verimark_linux_driver.Device.Safety.{
  IsFaultless, tls_io_sync-safe, resolve_sid_sync-safe, load_or_pair-safe,
}
use verimark_linux_driver.Tls.Channel.Session.Safety.{handshake-safe}
use verimark_linux_driver.Device.Scripts.{
  IsLeft, IsLeft-trans, tls_io_sync-IsLeft, tls_io_sync_told, resolve_sid_sync-IsLeft,
  load_or_pair-IsLeft,
}
use mathlib.Core.List.{Memᴰ}
use verimark_linux_driver.Usb.{Answer}
use verimark_linux_driver.Transport.Sync.{ctrl_cmd_sync}
use verimark_linux_driver.Tls.Channel.Hello.{hs_build_client_hello}
use verimark_linux_driver.Device.Open.{
  on_world, load_or_pair, released, open_fail, or_fail, finish_open, bring_up, claim_iface,
  open_iface, dev_open,
}

-- The fields of a device that is not open.
pub record IsClosed (d : Device) : Type 0 where
  pub no_iface : d.iface ≡ 0
  pub no_endpoint : d.ep_intr_in ≡ 0
  pub no_tls : d.tls ≡ none
  pub no_sid : d.sid ≡ none
  pub no_pairing : d.pairing ≡ none

-- What dev_open has not set before it succeeds
record IsUnpaired (d : Device) : Type 0 where
  no_sid : d.sid ≡ none
  no_pairing : d.pairing ≡ none

-- The fields of a device that is open: its channel is established, and it was by a reply that the transport read from
-- the sensor's answers (of those that the sensor had before the opening) to a command of the channel:
-- the reply has the Finished message of the channel's secrets.
pub record IsOpen (crypto : Crypto) {F : Type 0} (before : World F) (d : Device) : Type 0 where
  pub vendor : d.iface ≡ 1
  pub interrupts : d.ep_intr_in ≡ 0x83
  pub channel : Tls
  pub has_channel : d.tls ≡ some channel
  pub established : channel.established ≡ true
  pub request : List ℕ
  pub script : List Answer
  pub of_sensor : Memᴰ script before.scripts
  pub reply : List ℕ
  pub replied :
      (ctrl_cmd_sync (0x44 ∷ 0x00 ∷ 0x00 ∷ 0x00 ∷ request) 0x100 script).result ≡ some (ok reply)
  pub finished_by : IsFinishedBy crypto channel reply
  pub id : List ℕ
  pub has_id : d.sid ≡ some id
  pub keys : Pairing
  pub has_keys : d.pairing ≡ some keys

-- The two ends of dev_open.
pub Ends :
    {F : Type 0} → Crypto → (before : World F) → (Device × World F) × Outcome (Unit {0}) → Type 0
Ends crypto before ((d, w), ok _) = IsOpen crypto before d
Ends crypto before ((d, w), err x) = IsClosed d × (w.claimed ≡ false)
Ends crypto before ((d, w), fault) = ⊥

module _ {F : Type 0} (crypto : Crypto) (files : Files F) (bus : Bus)
    (can_release : bus.release ≡ ok tt) (faultless : IsFaultless files bus) (before : World F) where
  open_fail-IsClosed :
      (s : Device × World F)
      → IsUnpaired s.0
      → IsClosed (open_fail crypto files bus s).0
        × ((open_fail crypto files bus s).1.claimed ≡ false)
  unfolding open_fail released
  open_fail-IsClosed (d, w) unpaired = (
    record {
      no_iface = refl;
      no_endpoint = refl;
      no_tls = refl;
      no_sid = unpaired.no_sid;
      no_pairing = unpaired.no_pairing;
    },
    rw can_release refl,
  )

  or_fail-Ends :
      {A : Type 0} (call : (Device × World F) × Outcome A)
      (behind : A → Action (Device × World F) (Unit {0}))
      → call.1 ≢ fault
      → IsUnpaired call.0.0
      → ((a : A) → call.1 ≡ ok a → Ends crypto before (behind a call.0))
      → Ends crypto before (or_fail crypto files bus call behind)
  unfolding or_fail Ends
  or_fail-Ends (s, ok a) behind k u h = h a refl
  or_fail-Ends (s, err x) behind k u h = open_fail-IsClosed s u
  or_fail-Ends (s, fault) behind k u h = k refl

  finish_open-Ends :
      (sid : List ℕ) (pd : Pairing) (d : Device) (first : List ℕ) (w : World F)
      (end : (Tls × World F) × Outcome Bool)
      → end.1 ≢ fault
      → IsUnpaired d
      → IsLeft before w
      → d.iface ≡ 1
      → d.ep_intr_in ≡ 0x83
      → (end.0.0.established ≡ true → IsAgreed crypto tls_io_sync first w end)
      → ((b : Bool) → end.1 ≡ ok b → (b ≡ true) × (end.0.0.established ≡ true))
      → Ends crypto before (finish_open crypto files bus sid pd d end)
  unfolding finish_open Ends IsLeft
  finish_open-Ends sid pd d first w0 ((t, w), ok true) k u left hi he agreed sure =
      let set = (sure true refl).1 in
      let a = agreed set in
      let later : World F = (tls_io_sync first w0).0 in
      let (script, mem, read) = tls_io_sync_told a.request later a.reply a.replied in
      record {
        vendor = hi;
        interrupts = he;
        channel = t;
        has_channel = refl;
        established = set;
        request = a.request;
        script = script;
        of_sensor = IsLeft-trans before w0 later left (tls_io_sync-IsLeft first w0) script mem;
        reply = a.reply;
        replied = read;
        finished_by = a.finished_by;
        id = sid;
        has_id = refl;
        keys = pd;
        has_keys = refl;
      }
  finish_open-Ends sid pd d first w0 ((t, w), ok false) k u left hi he agreed sure =
      absurd (bool_ne (sure false refl).0)
  finish_open-Ends sid pd d first w0 ((t, w), err x) k u left hi he agreed sure =
      open_fail-IsClosed (record d { tls = some t }, w)
        (record { no_sid = u.no_sid; no_pairing = u.no_pairing })
  finish_open-Ends sid pd d first w0 ((t, w), fault) k u left hi he agreed sure = k refl

  bring_up-Ends :
      (s : Device × World F)
      → IsUnpaired s.0
      → IsLeft before s.1
      → s.0.iface ≡ 1
      → s.0.ep_intr_in ≡ 0x83
      → Ends crypto before (bring_up crypto files bus s)
  unfolding bring_up set_pairing
  bring_up-Ends s u left hi he =
      or_fail-Ends (on_world resolve_sid_sync s) _ (resolve_sid_sync-safe s.1) u λ sid _.
        let s1 : Device × World F = (on_world resolve_sid_sync s).0 in
        or_fail-Ends (on_world (load_or_pair crypto files bus sid) s1) _
          (load_or_pair-safe crypto files bus faultless sid s1.1) u
          λ pd _.
            let w2 : World F = (load_or_pair crypto files bus sid s1.1).0 in
            let t : Tls = set_pairing tls_new pd in
            let end : (Tls × World F) × Outcome Bool =
              handshake crypto tls_io_sync bus.now bus.random bus.draws (t, w2) in
            let left2 : IsLeft before w2 =
              IsLeft-trans before s1.1 w2
                (IsLeft-trans before s.1 s1.1 left (resolve_sid_sync-IsLeft s.1))
                (load_or_pair-IsLeft crypto files bus sid s1.1) in
            finish_open-Ends sid pd s.0 (hs_build_client_hello bus.now bus.random t).1 w2 end
              (handshake-safe crypto tls_io_sync bus.now bus.random bus.draws t w2 tls_io_sync-safe)
              u left2 hi he
              (handshake-IsAgreed crypto tls_io_sync bus.now bus.random bus.draws t w2 refl)
              (handshake_established crypto tls_io_sync bus.now bus.random bus.draws t w2)

  claim_iface-Ends :
      (answer : Outcome (Unit {0})) (s : Device × World F)
      (behind : Unit {0} → Action (Device × World F) (Unit {0}))
      → answer ≢ fault
      → IsClosed s.0
      → s.1.claimed ≡ false
      → ((u : Unit {0}) → Ends crypto before (behind u (s.0, record s.1 { claimed = true })))
      → Ends crypto before (go_on (on_world (claim_iface crypto files bus answer) s) behind)
  unfolding claim_iface Ends
  claim_iface-Ends (ok u) s behind k closed free h = h tt
  claim_iface-Ends (err x) s behind k closed free h = (closed, free)
  claim_iface-Ends fault s behind k closed free h = k refl

  open_iface-Ends :
      (found : Option Interface) (s : Device × World F)
      → IsClosed s.0
      → s.1.claimed ≡ false
      → IsLeft before s.1
      → Ends crypto before (open_iface crypto files bus found s)
  unfolding open_iface Ends
  open_iface-Ends none s closed free left = (closed, free)
  open_iface-Ends (some iface) s closed free left =
      let opened : Device = record {
        iface = vendor_iface;
        ep_intr_in = intr_in;
        tls = none;
        sid = none;
        pairing = none;
      } in
      if_elim (Ends crypto before) (has_endpoint iface.endpoints)
        (λ _. claim_iface-Ends bus.claim s _ faultless.no_fault_claim closed free λ _.
          bring_up-Ends
            (opened, record s.1 { claimed = true; interrupts = intr_drain_sync s.1.interrupts })
            (record { no_sid = refl; no_pairing = refl }) (unfold IsLeft in left) refl refl)
        (λ _. (closed, free))

  interfaces-Ends :
      (answer : Outcome (List Interface)) (s : Device × World F)
      → answer ≢ fault
      → IsClosed s.0
      → s.1.claimed ≡ false
      → IsLeft before s.1
      → Ends crypto before (
          go_on
            (s, answer)
            λ interfaces s1. open_iface crypto files bus (find_interface interfaces) s1)
  unfolding Ends
  interfaces-Ends (ok interfaces) s k closed free left =
      open_iface-Ends (find_interface interfaces) s closed free left
  interfaces-Ends (err x) s k closed free left = (closed, free)
  interfaces-Ends fault s k closed free left = k refl

-- Opening a closed device ends in one of two ways, whatever the sensor answers, if a release succeeds and the
-- calls of the bus and of the files answer or fail: without an error, and then the interface, the
-- endpoint, the sensor's id and its pairing are set, and the channel is established by a Finished
-- message in a reply that the transport read from answers of the sensor; or with an error, and then
-- the interface, the endpoint, the sensor's id and its pairing are cleared, there is no channel, and
-- the interface is not claimed.
pub dev_open-Ends :
    {F : Type 0} (crypto : Crypto) (files : Files F) (bus : Bus) (s : Device × World F)
    → bus.release ≡ ok tt
    → IsFaultless files bus
    → IsClosed s.0
    → s.1.claimed ≡ false
    → Ends crypto s.1 (dev_open crypto files bus s)
unfolding dev_open
dev_open-Ends crypto files bus s can_release faultless closed free =
    interfaces-Ends crypto files bus can_release faultless s.1 bus.interfaces s
      faultless.no_fault_interfaces closed free (unfold IsLeft in λ script mem. mem)
