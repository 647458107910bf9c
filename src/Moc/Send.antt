-- ===== src/Moc/Send.antt =====
-- driver/verimark-moc.c: verimark_moc_send, which wraps a command, sends it over EP0 and unwraps the reply.
pub mod Exchange
use verimark_linux_driver.Common.{
  ℕ, Option, none, some, List, Outcome, ok, err, fault, Action, go_on,
}
use verimark_linux_driver.Usb.{Answer}
use verimark_linux_driver.Transport.Command.{CmdState, Run, cmd}
use verimark_linux_driver.Tls.Crypto.{Crypto}
use verimark_linux_driver.Tls.Channel.{Tls}
use verimark_linux_driver.Tls.Channel.Session.{wrap, unwrap}
use verimark_linux_driver.Moc.Io.{status_of, moc_read_budget}

-- The arguments of a callback without an error
pub record Reply : Type 0 where
  pub status : ℕ
  pub plain : List ℕ

module _ (crypto : Crypto) where
  -- on_moc_raw_resp, on what verimark_cmd hands out
  unfoldable pub on_moc_raw_resp : (response : Outcome (List ℕ)) → Action Tls Reply
  on_moc_raw_resp (ok response) t =
      go_on (unwrap crypto response t)
        λ plain t1. (t1, ok (record { status = status_of plain; plain = plain }))
  on_moc_raw_resp (err x) t = (t, err x)
  on_moc_raw_resp fault t = (t, fault)

  -- The callback of verimark_cmd runs once the command has a result.
  unfoldable pub on_cmd : (result : Option (Outcome (List ℕ))) → Tls → Tls × Option (Outcome Reply)
  unfolding on_moc_raw_resp
  on_cmd none t = (t, none)
  on_cmd (some response) t = let end = on_moc_raw_resp response t in (end.0, some end.1)

  -- verimark_moc_send behind verimark_tls_wrap
  unfoldable pub send_wrapped :
      (next : CmdState → Option CmdState) (resp_hint : ℕ) (answers : List Answer)
      → Tls × Outcome (List ℕ)
      → Tls × Option (Outcome Reply)
  unfolding on_cmd
  send_wrapped next resp_hint answers (t, ok bytes) =
      on_cmd (cmd next bytes (moc_read_budget resp_hint) answers).result t
  send_wrapped next resp_hint answers (t, err x) = (t, some (err x))
  send_wrapped next resp_hint answers (t, fault) = (t, some fault)

  -- verimark_moc_send: what its callback is given, once the device has answered.
  unfoldable pub moc_send :
      (next : CmdState → Option CmdState) (nonce plain_cmd : List ℕ) (resp_hint : ℕ)
      (answers : List Answer)
      → Tls
      → Tls × Option (Outcome Reply)
  unfolding send_wrapped
  moc_send next nonce plain_cmd resp_hint answers t =
      send_wrapped next resp_hint answers (wrap crypto nonce plain_cmd t)
