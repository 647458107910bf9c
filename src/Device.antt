-- ===== src/Device.antt =====
-- driver/verimark.c: opening the device, from its interfaces to the established channel, and closing it.
pub mod Commands
pub mod Open
pub mod Again
pub mod Scripts
pub mod Ends
pub mod Safety
use verimark_linux_driver.Common.{
  ℕ, Bool, true, false, ◌||◌, Option, none, some, List, [], ◌∷◌, ◌==◌, if◌then◌else◌, Outcome,
}
use verimark_linux_driver.Usb.{Answer}
use verimark_linux_driver.Tls.Cert.{Pairing}
use verimark_linux_driver.Tls.Channel.{Tls}
use verimark_linux_driver.Tls.Channel.Finish.{Draws}
use verimark_linux_driver.Tls.Pairing.{KeyPair}

-- FpiDeviceVerimark: what is kept from the opening to the closing, less the two fields of the older
-- pairing blob, which are only cleared; `none` is NULL.
pub record Device : Type 0 where
  pub iface : ℕ
  pub ep_intr_in : ℕ
  pub tls : Option Tls
  pub sid : Option (List ℕ)
  pub pairing : Option Pairing

-- What g_usb_device_get_interfaces tells of an interface: its number, and its endpoints' addresses.
pub record Interface : Type 0 where
  pub number : ℕ
  pub endpoints : List ℕ

-- What the sensor does, and what the driver has done: the answers to each of its blocking commands in turn,
-- the queued interrupts, the commands sent, whether the interface is claimed, and the files.
pub record World (F : Type 0) : Type 0 where
  pub scripts : List (List Answer)
  pub interrupts : List Answer
  pub sent : List (List ℕ)
  pub claimed : Bool
  pub files : F

-- What the calls of GUsb and OpenSSL answer while the device is opened and closed.
pub record Bus : Type 0 where
  pub interfaces : Outcome (List Interface)
  pub claim : Outcome (Unit {0})
  pub release : Outcome (Unit {0})
  pub generated : Option KeyPair
  pub signing : List ℕ
  pub now : ℕ
  pub random : List ℕ
  pub draws : Draws
  pub close_nonce : List ℕ

-- VERIMARK_IFACE, VERIMARK_EP_INTR_IN
abbrev pub vendor_iface : ℕ
vendor_iface = 1

abbrev pub intr_in : ℕ
intr_in = 0x83

-- The first loop of dev_open
unfoldable pub find_interface : List Interface → Option Interface
find_interface [] = none
find_interface (cur ∷ rest) =
    let later = find_interface rest in if cur.number == vendor_iface then some cur else later

-- The second loop of dev_open
unfoldable pub has_endpoint : (endpoints : List ℕ) → Bool
has_endpoint [] = false
has_endpoint (ep ∷ eps) = ep == intr_in || has_endpoint eps
