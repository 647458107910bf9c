-- ===== src/Device/Scripts.antt =====
-- Which answers of the sensor the open path reads: those that the sensor still has.
use verimark_linux_driver.Common.{
  max, lt→ltb, arith, ap, ℕ, ◌≡◌, ◌≢◌, Option, none, some, List, [], ◌∷◌, Outcome, ok, err, fault,
  go_on_rel, refl, not_found, length, ◌++◌, replicate, ◌-◌,
}
use mathlib.Core.List.{Memᴰ}
use verimark_linux_driver.Usb.{Answer}
use verimark_linux_driver.Framing.{WriteChunk, frame_padded_len, frame_write_chunks}
use verimark_linux_driver.Transport.Command.{Run}
use verimark_linux_driver.Transport.Sync.{
  write_chunks_sync, ctrl_write_sync, read_loop_sync, ctrl_read_sync, ctrl_cmd_sync,
}
use verimark_linux_driver.Tls.Cert.{Pairing}
use verimark_linux_driver.Tls.Crypto.{Crypto}
use verimark_linux_driver.Tls.Pairing.{ec_keygen, build_host_cert, pairing_do}
use verimark_linux_driver.Tls.Pairing.Files.{Files, pairing_save_file, pairing_load_file}
use verimark_linux_driver.Device.{World, Bus}
use verimark_linux_driver.Device.Commands.{
  sync_result, next_cmd, sync_cmd, tls_io_sync, pair_io_sync, resolve_sid_sync, sid_of,
}
use verimark_linux_driver.Device.Open.{on_files, pair_and_save, loaded, load_or_pair}

-- What the sensor has left to answer with, it had before.
unfoldable pub IsLeft : {F : Type 0} → World F → World F → Type 0
IsLeft before after =
    (script : List Answer) → Memᴰ script after.scripts → Memᴰ script before.scripts

next_cmd-IsLeft :
    (bytes : List ℕ) (resp_max : ℕ) (scripts : List (List Answer)) (script : List Answer)
    → Memᴰ script (next_cmd bytes resp_max scripts).0
    → Memᴰ script scripts
unfolding next_cmd
next_cmd-IsLeft bytes resp_max [] script mem = mem
next_cmd-IsLeft bytes resp_max (answers ∷ rest) script mem = Memᴰ.tail mem

IsUnread : List ℕ → Run → Type 0
IsUnread reply r = sync_result r.result ≢ ok reply

unanswered :
    (wbuf : List ℕ) (plan : List WriteChunk) (resp_max : ℕ) (reply : List ℕ)
    → IsUnread reply (write_chunks_sync wbuf plan [] (ctrl_read_sync resp_max))
unfolding IsUnread write_chunks_sync ctrl_read_sync read_loop_sync sync_result
unanswered wbuf [] resp_max reply = rw (lt→ltb 0 (max resp_max 1) (omega arith)) (λ e. cc)
unanswered wbuf (c ∷ cs) resp_max reply = λ e. cc

sync_result-ok :
    (result : Option (Outcome (List ℕ))) (reply : List ℕ)
    → sync_result result ≡ ok reply
    → result ≡ some (ok reply)
unfolding sync_result
sync_result-ok none reply h = cc
sync_result-ok (some r) reply h = ap some h

-- A command that is answered reads one of the scripts.
next_cmd_told :
    (bytes : List ℕ) (resp_max : ℕ) (scripts : List (List Answer)) (reply : List ℕ)
    → (next_cmd bytes resp_max scripts).1 ≡ ok reply
    → (script : List Answer) × Memᴰ script scripts
      × ((ctrl_cmd_sync bytes resp_max script).result ≡ some (ok reply))
unfolding next_cmd ctrl_cmd_sync ctrl_write_sync IsUnread
next_cmd_told bytes resp_max [] reply h = absurd (
    unanswered (bytes ++ replicate (frame_padded_len (length bytes) - length bytes) 0)
      (frame_write_chunks (length bytes)) resp_max reply h)
next_cmd_told bytes resp_max (script ∷ rest) reply h =
    (script, Memᴰ.head refl, sync_result-ok _ reply h)

module _ {F : Type 0} where
  IsLeft-refl : (w : World F) → IsLeft w w
  unfolding IsLeft
  IsLeft-refl w script mem = mem

  pub IsLeft-trans : (a b c : World F) → IsLeft a b → IsLeft b c → IsLeft a c
  unfolding IsLeft
  IsLeft-trans a b c f g script mem = f script (g script mem)

  sync_cmd-IsLeft :
      (bytes : List ℕ) (resp_max : ℕ) (w : World F) → IsLeft w (sync_cmd bytes resp_max w).0
  unfolding sync_cmd IsLeft
  sync_cmd-IsLeft bytes resp_max w = next_cmd-IsLeft bytes resp_max w.scripts

  pub tls_io_sync-IsLeft : (out : List ℕ) (w : World F) → IsLeft w (tls_io_sync out w).0
  unfolding tls_io_sync
  tls_io_sync-IsLeft out w = sync_cmd-IsLeft (0x44 ∷ 0x00 ∷ 0x00 ∷ 0x00 ∷ out) 0x100 w

  pub resolve_sid_sync-IsLeft : (w : World F) → IsLeft w (resolve_sid_sync w).0
  unfolding resolve_sid_sync
  resolve_sid_sync-IsLeft w =
      go_on_rel IsLeft w (sync_cmd (0x01 ∷ []) 256 w) (λ resp w1. (w1, sid_of resp))
        (sync_cmd-IsLeft (0x01 ∷ []) 256 w) (λ _ _ k. k)

  -- A reply over the channel's commands is what the transport makes of the sensor's answers to one of them.
  pub tls_io_sync_told :
      (out : List ℕ) (w : World F) (reply : List ℕ)
      → (tls_io_sync out w).1 ≡ ok reply
      → (script : List Answer) × Memᴰ script w.scripts
        × ((ctrl_cmd_sync (0x44 ∷ 0x00 ∷ 0x00 ∷ 0x00 ∷ out) 0x100 script).result ≡ some (ok reply))
  unfolding tls_io_sync sync_cmd
  tls_io_sync_told out w reply h =
      next_cmd_told (0x44 ∷ 0x00 ∷ 0x00 ∷ 0x00 ∷ out) 0x100 w.scripts reply h

module _ {F : Type 0} (crypto : Crypto) (files : Files F) (bus : Bus) where
  pairing_do-IsLeft :
      (w : World F) → IsLeft w (pairing_do crypto pair_io_sync bus.generated bus.signing w).0
  unfolding pairing_do pair_io_sync
  pairing_do-IsLeft w =
      go_on_rel IsLeft w (w, ec_keygen bus.generated) _ (IsLeft-refl w)
        λ pair _ _.
          go_on_rel IsLeft w (w, build_host_cert crypto bus.signing pair.priv) _ (IsLeft-refl w)
            λ host _ _.
              go_on_rel IsLeft w (sync_cmd (0x93 ∷ host.1) 802 w) _
                (sync_cmd-IsLeft (0x93 ∷ host.1) 802 w) (λ _ _ k. k)

  pair_and_save-IsLeft :
      (sid : List ℕ) (w : World F) → IsLeft w (pair_and_save crypto files bus sid w).0
  unfolding pair_and_save
  pair_and_save-IsLeft sid w =
      let made : World F × Outcome Pairing =
        pairing_do crypto pair_io_sync bus.generated bus.signing w in
      go_on_rel IsLeft w made _ (pairing_do-IsLeft w) λ pd _ k.
        go_on_rel IsLeft w (on_files (pairing_save_file files pd sid) made.0) _ (unfold IsLeft in k)
          (λ _ _ j. j)

  loaded-IsLeft :
      (sid : List ℕ) (found : Outcome Pairing) (w : World F)
      → IsLeft w (loaded crypto files bus sid found w).0
  unfolding loaded
  loaded-IsLeft sid (ok pd) w = IsLeft-refl w
  loaded-IsLeft sid (err not_found) w = pair_and_save-IsLeft sid w
  loaded-IsLeft sid fault w = IsLeft-refl w
  loaded-IsLeft sid (err x) w = IsLeft-refl w

  pub load_or_pair-IsLeft :
      (sid : List ℕ) (w : World F) → IsLeft w (load_or_pair crypto files bus sid w).0
  unfolding load_or_pair
  load_or_pair-IsLeft sid w = loaded-IsLeft sid (pairing_load_file files sid w.files) w
