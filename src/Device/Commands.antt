-- ===== src/Device/Commands.antt =====
-- driver/verimark.c: the blocking commands of the open path.
use verimark_linux_driver.Common.{
  ℕ, not, ◌&&◌, Option, none, some, List, [], ◌∷◌, ◌++◌, ltb, ◌==◌, length, Outcome, ok, err, ◌>>=◌,
  ◌>>◌, fail_if, read, copy, proto, usb_timed_out, Action, go_on,
}
use verimark_linux_driver.Usb.{Answer}
use verimark_linux_driver.Transport.Sync.{ctrl_cmd_sync}
use verimark_linux_driver.Moc.Storage.{hex_bytes}
use verimark_linux_driver.Device.{World}

-- A transfer without an answer times out.
unfoldable pub sync_result : Option (Outcome (List ℕ)) → Outcome (List ℕ)
sync_result none = err usb_timed_out
sync_result (some r) = r

-- verimark_ctrl_cmd_sync on the answers to this command
unfoldable pub next_cmd :
    (bytes : List ℕ) (resp_max : ℕ) → List (List Answer) → List (List Answer) × Outcome (List ℕ)
unfolding sync_result
next_cmd bytes resp_max [] = ([], sync_result (ctrl_cmd_sync bytes resp_max []).result)
next_cmd bytes resp_max (answers ∷ rest) =
    (rest, sync_result (ctrl_cmd_sync bytes resp_max answers).result)

module _ {F : Type 0} where
  unfoldable pub sync_cmd : (bytes : List ℕ) (resp_max : ℕ) → Action (World F) (List ℕ)
  unfolding next_cmd
  sync_cmd bytes resp_max w =
      let r = next_cmd bytes resp_max w.scripts in
      (record w { scripts = r.0; sent = w.sent ++ bytes ∷ [] }, r.1)

  -- verimark_tls_io_sync: VERIMARK_CMD_TLS_DATA, three zeros, and the records.
  unfoldable pub tls_io_sync : (out : List ℕ) → Action (World F) (List ℕ)
  unfolding sync_cmd
  tls_io_sync out = sync_cmd (0x44 ∷ 0x00 ∷ 0x00 ∷ 0x00 ∷ out) 0x100

  -- verimark_pair_io_sync
  unfoldable pub pair_io_sync : (out : List ℕ) → Action (World F) (List ℕ)
  unfolding sync_cmd
  pair_io_sync out = sync_cmd out 802

-- The checks of verimark_resolve_sid_sync, and the sensor's id in hexadecimal.
unfoldable pub sid_of : (resp : List ℕ) → Outcome (List ℕ)
sid_of resp = do
  fail_if (ltb (length resp) 38) proto
  lo ← read resp 0
  hi ← read resp 1
  fail_if (not (lo == 0x00 && hi == 0x00)) proto
  id ← copy resp 18 6
  ok (hex_bytes id)

-- verimark_resolve_sid_sync: VERIMARK_CMD_GET_VERSION
unfoldable pub resolve_sid_sync : {F : Type 0} → Action (World F) (List ℕ)
unfolding sid_of sync_cmd
resolve_sid_sync w = go_on (sync_cmd (0x01 ∷ []) 256 w) λ resp w1. (w1, sid_of resp)
