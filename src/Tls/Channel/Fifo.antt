-- ===== src/Tls/Channel/Fifo.antt =====
-- What one end wraps and the other unwraps, against a queue of messages.
pub mod Flight
pub mod Refines
use verimark_linux_driver.Common.{
  ℕ, zero, suc, ◌+◌, ◌*◌, ◌/◌, ◌%◌, ◌^◌, ◌<◌, ◌≤◌, ◌≡◌, ◌≢◌, refl, sym, ap, ◌∙◌, Bool, true, false,
  List, [], ◌∷◌, ◌++◌, ltb, ◌==◌, if◌then◌else◌, map, length, Outcome, ok, err, fault, ◌>>=◌,
  Action, go_on, take, drop, joined, All, arith, inl, inr, Bool-cases, Option-cases, length-append,
  Option, some, none, go_on-ok,
}
use mathlib.Core.List.{append_assoc, append-nil}
use verimark_linux_driver.Tls.Gcm.{Aead, gcm_wrap, gcm_unwrap, gcm_build_aad}
use verimark_linux_driver.Tls.Gcm.RoundTrip.{gcm_unwrap-gcm_wrap}
use verimark_linux_driver.Tls.Crypto.{Crypto}
use verimark_linux_driver.Tls.Channel.{Tls, rec_plain, rec_write_plain, each_record, next_seq}
use verimark_linux_driver.Tls.Channel.Records.{Record, wire, IsShort, in_turn, each_record-append}
use verimark_linux_driver.Tls.Channel.Session.{ct_appdata, wrap, unwrap, unwrap_record, unwrap_read}

-- Both ends are established, and one decrypts as the other encrypts.
pub record IsMirror (sender receiver : Tls) : Type 0 where
  pub sends : sender.established ≡ true
  pub receives : receiver.established ≡ true
  pub same_key : receiver.keys.decr_key ≡ sender.keys.encr_key
  pub same_iv : receiver.keys.decr_iv ≡ sender.keys.encr_iv

-- A call of a client: a message to send with the nonce drawn for it, or the records in flight, as many as
-- arrive together, to receive.
pub data Op : Type 0 where
  send : (nonce plain : List ℕ) → Op
  receive : (records : ℕ) → Op

unfoldable pub IsSendable : Op → Type 0
IsSendable (send nonce plain) = (length nonce ≡ 8) × (length plain + 24 < 2 ^ 16)
IsSendable (receive records) = Unit

-- Two ends, and the records that are in flight from one to the other.
pub record Line : Type 0 where
  pub sender : Tls
  pub receiver : Tls
  pub packets : List (List ℕ)

module _ (crypto : Crypto) where
  unfoldable pub sent : Line → Tls × Outcome (List ℕ) → Line
  sent l (t, ok bytes) = record l { sender = t; packets = l.packets ++ bytes ∷ [] }
  sent l (t, err x) = record l { sender = t }
  sent l (t, fault) = record l { sender = t }

  -- The calls on two channels, and what the receiver's calls return.
  unfoldable pub run_line : List Op → Line → List (Outcome (List ℕ))
  unfolding sent
  run_line [] l = []
  run_line (send nonce plain ∷ ops) l = run_line ops (sent l (wrap crypto nonce plain l.sender))
  run_line (receive n ∷ ops) l =
      let got = unwrap crypto (joined (take n l.packets)) l.receiver in
      got.1 ∷ run_line ops (record l { receiver = got.0; packets = drop n l.packets })

-- The same calls on a queue of messages.
unfoldable pub replay : List Op → List (List ℕ) → List (List ℕ)
replay [] queue = []
replay (send nonce plain ∷ ops) queue = replay ops (queue ++ plain ∷ [])
replay (receive n ∷ ops) queue = joined (take n queue) ∷ replay ops (drop n queue)
