-- ===== src/Moc/Send/Exchange.antt =====
-- A command and its reply, through the channel and the transport.
use verimark_linux_driver.Common.{
  ◌-◌, ◌*◌, ◌%◌, ◌≤◌, max, ◌++◌, replicate, arith, ℕ, ◌+◌, ◌<◌, ◌^◌, ◌≡◌, true, Option, some, List,
  [], ◌∷◌, length, Outcome, ok, Action, go_on, go_on-eq-ok, if_true, ok_eq, refl, sym, ap, ◌∙◌,
}
use mathlib.Core.List.{append-nil}
use verimark_linux_driver.Usb.{Transfer, control_write, Answer, arrived}
use verimark_linux_driver.Ssm.{Follows}
use verimark_linux_driver.Framing.{frame_padded_len}
use verimark_linux_driver.Transport.Sync.{ctrl_read_sync}
use verimark_linux_driver.Transport.Agree.{cmd-ctrl_cmd_sync}
use verimark_linux_driver.Transport.Reads.{timeouts}
use verimark_linux_driver.Transport.Delivers.{
  payload, payload-padded, ctrl_cmd_sync-one, ctrl_read_sync-one,
}
use verimark_linux_driver.Tls.Gcm.RoundTrip.{gcm_unwrap-gcm_wrap}
use verimark_linux_driver.Tls.Channel.Records.{length-rec_plain}
use verimark_linux_driver.Transport.Command.{CmdState, write_chunk, read_chunk, Run, cmd}
use verimark_linux_driver.Tls.Gcm.{gcm_wrap}
use verimark_linux_driver.Tls.Crypto.{Crypto}
use verimark_linux_driver.Tls.Channel.{Tls, rec_plain, rec_write_plain, next_seq}
use verimark_linux_driver.Tls.Channel.Session.{ct_appdata, wrap, unwrap}
use verimark_linux_driver.Tls.Channel.Fifo.{IsMirror}
use verimark_linux_driver.Tls.Channel.Fifo.Flight.{Sealed, InFlight, unwrap-InFlight}
use verimark_linux_driver.Moc.Io.{status_of, moc_read_budget}
use verimark_linux_driver.Moc.Send.{on_moc_raw_resp, on_cmd, send_wrapped, moc_send}

module _ (crypto : Crypto) where
  -- What an established channel wraps is one sealed record.
  wrap-eq-ok :
      (t : Tls) (nonce plain packet : List ℕ)
      → t.established ≡ true
      → length nonce ≡ 8
      → length plain + 24 < 2 ^ 16
      → (wrap crypto nonce plain t).1 ≡ ok packet
      → Sealed crypto.aead t.keys.encr_key t.keys.encr_iv t.encr_seq packet plain
        × (wrap crypto nonce plain t ≡ (record t { encr_seq = next_seq t.encr_seq }, ok packet))
  unfolding wrap rec_write_plain
  wrap-eq-ok t nonce plain packet e hn short h =
      let call : Tls × Outcome (List ℕ) = (
        t,
        gcm_wrap crypto.aead t.keys.encr_key t.keys.encr_iv t.encr_seq ct_appdata nonce plain,
      ) in
      let behind : List ℕ → Action Tls (List ℕ) = λ frag t1.
        (record t1 { encr_seq = next_seq t1.encr_seq }, ok (rec_plain ct_appdata frag)) in
      let snd : Tls × Outcome (List ℕ) → Outcome (List ℕ) = λ r. r.1 in
      let taken : wrap crypto nonce plain t ≡ go_on call behind = if_true _ _ e in
      let h0 : (go_on call behind).1 ≡ ok packet = ap snd (sym taken) ∙ h in
      let (frag, wrapped, e1) = go_on-eq-ok call behind h0 in
      let same : rec_plain ct_appdata frag ≡ packet = ok_eq _ _ (ap snd (sym e1) ∙ h0) in
      (
        record {
          nonce = nonce;
          frag = frag;
          nonce_size = hn;
          short = short;
          wrapped = wrapped;
          written = sym same;
        },
        taken ∙ (e1 ∙ ap (λ k. (record t { encr_seq = next_seq t.encr_seq }, ok k)) same),
      )

  -- One record, unwrapped by the other end.
  unwrap-Sealed :
      (t : Tls) (packet plain : List ℕ)
      → t.established ≡ true
      → Sealed crypto.aead t.keys.decr_key t.keys.decr_iv t.decr_seq packet plain
      → unwrap crypto packet t ≡ (record t { decr_seq = next_seq t.decr_seq }, ok plain)
  unfolding InFlight
  unwrap-Sealed t packet plain e s =
      ap (λ k. unwrap crypto k t) (sym (append-nil packet))
      ∙ (unwrap-InFlight crypto t (packet ∷ []) (plain ∷ []) (next_seq t.decr_seq) e (s, refl)
          ∙ ap (λ k. (record t { decr_seq = next_seq t.decr_seq }, ok k)) (append-nil plain))

  -- A sealed record is 29 bytes longer than its message.
  length-Sealed :
      (key iv : List ℕ) (seq : ℕ) (packet plain : List ℕ)
      → Sealed crypto.aead key iv seq packet plain
      → length packet ≡ length plain + 29
  length-Sealed key iv seq packet plain s =
      let size =
        (gcm_unwrap-gcm_wrap crypto.aead key iv seq ct_appdata s.nonce plain s.frag s.nonce_size
          s.wrapped).0 in
      ap length s.written ∙ omega (arith, size, length-rec_plain ct_appdata s.frag)

-- What the sensor gets of a command: the transport's first transfer writes it, and the sensor unwraps what is in it.
pub record Reaches (crypto : Crypto) (sensor : Tls) (plain_cmd : List ℕ) (run : Run) : Type 0 where
  pub wvalue : ℕ
  pub bytes : List ℕ
  pub reads : List Transfer
  pub issued_first : run.transfers ≡ control_write wvalue bytes ∷ reads
  pub unwrapped : (unwrap crypto (payload wvalue bytes) sensor).1 ≡ ok plain_cmd

-- A command goes to the sensor, and its answer to the callback of verimark_moc_send, through the channel and the
-- transport. The sensor's end of the channel mirrors the driver's in both directions, the nonces have 8
-- bytes, and the command has at most 4059 bytes. The device takes the write, times out on up to 25
-- reads, and gives the record that the sensor wraps for its answer, of a status of two bytes and a
-- rest, at most 65511 bytes; that record has less than 4096 bytes, and at most 64 more than the caller's hint, or 512.
-- Then the first transfer is a write, from whose bytes, less the padding that its wValue tells, the
-- sensor unwraps the command; and the callback is given the answer, with the status in its first two
-- bytes, the low one first. `next` is libfprint's step, through the states in the order of the source.
pub moc_send-exchange :
    (crypto : Crypto) (next : CmdState → Option CmdState) (driver sensor : Tls)
    (nonce plain_cmd request sensor_nonce : List ℕ) (lo hi : ℕ) (body response : List ℕ)
    (resp_hint busy : ℕ) (written : List ℕ) (later : List Answer)
    → Follows next write_chunk (read_chunk ∷ [])
    → IsMirror driver sensor
    → IsMirror sensor driver
    → sensor.decr_seq ≡ driver.encr_seq
    → driver.decr_seq ≡ sensor.encr_seq
    → length nonce ≡ 8
    → length sensor_nonce ≡ 8
    → length plain_cmd + 29 ≤ 4088
    → length response < 4096
    → length response ≤ max (resp_hint + 64) 512
    → busy ≤ 25
    → (wrap crypto nonce plain_cmd driver).1 ≡ ok request
    → (wrap crypto sensor_nonce (lo ∷ hi ∷ body) sensor).1 ≡ ok response
    → length (lo ∷ hi ∷ body) + 24 < 2 ^ 16
    → let answers = arrived written ∷ (timeouts busy ++ (arrived response ∷ later)) in
      Reaches crypto sensor plain_cmd (cmd next request (moc_read_budget resp_hint) answers)
      × ((moc_send crypto next nonce plain_cmd resp_hint answers driver).1
          ≡ some (ok (record { status = lo + 256 * hi; plain = lo ∷ hi ∷ body })))
unfolding moc_send send_wrapped on_cmd on_moc_raw_resp moc_read_budget status_of
moc_send-exchange crypto next driver sensor nonce plain_cmd request sensor_nonce lo hi body response
      resp_hint busy written later order there back in_step in_step2 hn hn2 short one_read fits few
      wrapped wrapped2 short2 =
    let answer : List ℕ = lo ∷ hi ∷ body in
    let budget : ℕ = max (resp_hint + 64) 512 in
    let behind : List Answer = timeouts busy ++ (arrived response ∷ later) in
    let (s, sends) =
      wrap-eq-ok crypto driver nonce plain_cmd request there.sends hn (omega (arith, short))
        wrapped in
    let (s2, answers2) =
      wrap-eq-ok crypto sensor sensor_nonce answer response back.sends hn2 short2 wrapped2 in
    let sealed : Sealed crypto.aead sensor.keys.decr_key sensor.keys.decr_iv sensor.decr_seq request
        plain_cmd =
      rw (there.same_key, there.same_iv, in_step) s in
    let sealed2 : Sealed crypto.aead driver.keys.decr_key driver.keys.decr_iv driver.decr_seq
        response answer =
      rw (back.same_key, back.same_iv, in_step2) s2 in
    let size =
      length-Sealed crypto driver.keys.encr_key driver.keys.encr_iv driver.encr_seq request
        plain_cmd s in
    let run =
      cmd-ctrl_cmd_sync next order request budget (arrived written ∷ behind)
      ∙ ctrl_cmd_sync-one request budget written behind (omega (arith, size))
          (omega (arith, size, short)) in
    let delivered : (cmd next request budget (arrived written ∷ behind)).result
        ≡ some (ok response) =
      ap (λ (r : Run). r.result) run
      ∙ ctrl_read_sync-one budget response busy later one_read fits few in
    let after : Tls = record driver { encr_seq = next_seq driver.encr_seq } in
    let got = unwrap-Sealed crypto after response answer back.receives sealed2 in
    (
      record {
        wvalue = length request % 8;
        bytes = request ++ replicate (frame_padded_len (length request) - length request) 0;
        reads = (ctrl_read_sync budget behind).transfers;
        issued_first = ap (λ (r : Run). r.transfers) run;
        unwrapped =
            ap (λ k. (unwrap crypto k sensor).1)
              (payload-padded request (omega (arith, size, short)))
            ∙ ap (λ (r : Tls × Outcome (List ℕ)). r.1)
                (unwrap-Sealed crypto sensor request plain_cmd there.receives sealed);
      },
      rw (sends, delivered, got) refl,
    )
