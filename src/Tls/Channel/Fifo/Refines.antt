-- ===== src/Tls/Channel/Fifo/Refines.antt =====
-- Two ends of the channel, seen through what the receiver returns, are a queue of messages.
use verimark_linux_driver.Common.{
  ℕ, ◌+◌, ◌^◌, ◌<◌, ◌≡◌, refl, ap, ◌∙◌, true, List, [], ◌∷◌, ◌++◌, map, length, ok, take, drop,
  joined, All, if_true, some,
}
use verimark_linux_driver.Tls.Gcm.{gcm_wrap, gcm_build_aad}
use verimark_linux_driver.Tls.Crypto.{Crypto}
use verimark_linux_driver.Tls.Channel.{Tls, rec_plain, rec_write_plain, next_seq}
use verimark_linux_driver.Tls.Channel.Session.{ct_appdata, wrap}
use verimark_linux_driver.Tls.Channel.Fifo.{
  IsMirror, Op, send, receive, IsSendable, Line, sent, run_line, replay,
}
use verimark_linux_driver.Tls.Channel.Fifo.Flight.{
  Sealed, InFlight, InFlight-append, InFlight-split, unwrap-InFlight,
}

module _ (crypto : Crypto) where
  -- An established channel wraps into one record, whose number is the next.
  gcm_wrap-seal :
      (t : Tls) (nonce plain c tag : List ℕ)
      → crypto.aead.seal t.keys.encr_key
          (t.keys.encr_iv ++ nonce)
          (gcm_build_aad t.encr_seq ct_appdata (length plain))
          plain
        ≡ some (c, tag)
      → gcm_wrap crypto.aead t.keys.encr_key t.keys.encr_iv t.encr_seq ct_appdata nonce plain
        ≡ ok (nonce ++ (c ++ tag))
  unfolding gcm_wrap
  gcm_wrap-seal t nonce plain c tag h = rw (gcm_wrap, h) refl

  wrap-Sealed :
      (t : Tls) (nonce plain : List ℕ) (made : List ℕ × List ℕ)
      → t.established ≡ true
      → length nonce ≡ 8
      → length plain + 24 < 2 ^ 16
      → crypto.aead.seal t.keys.encr_key
          (t.keys.encr_iv ++ nonce)
          (gcm_build_aad t.encr_seq ct_appdata (length plain))
          plain
        ≡ some made
      → (packet : List ℕ) × (wrap crypto nonce plain t
          ≡ (record t { encr_seq = next_seq t.encr_seq }, ok packet))
        × Sealed crypto.aead t.keys.encr_key t.keys.encr_iv t.encr_seq packet plain
  unfolding wrap rec_write_plain
  wrap-Sealed t nonce plain (c, tag) e hn short seals =
      let frag : List ℕ = nonce ++ (c ++ tag) in
      let wrapped : gcm_wrap crypto.aead t.keys.encr_key t.keys.encr_iv t.encr_seq ct_appdata nonce
            plain
          ≡ ok frag =
        gcm_wrap-seal t nonce plain c tag seals in
      (
        rec_plain ct_appdata frag,
        if_true _ _ e ∙ rw wrapped refl,
        record {
          nonce = nonce;
          frag = frag;
          nonce_size = hn;
          short = short;
          wrapped = wrapped;
          written = refl;
        },
      )

  module _
      (seals : (key iv aad plain : List ℕ)
        → (made : List ℕ × List ℕ) × (crypto.aead.seal key iv aad plain ≡ some made)) where
    run_line-InFlight :
        (ops : List Op) (l : Line) (queue : List (List ℕ))
        → All IsSendable ops
        → IsMirror l.sender l.receiver
        → InFlight crypto.aead l.receiver.keys.decr_key l.receiver.keys.decr_iv l.receiver.decr_seq
            l.packets queue l.sender.encr_seq
        → run_line crypto ops l ≡ map ok (replay ops queue)
    unfolding run_line replay sent IsSendable
    run_line-InFlight [] l queue all m h = refl
    run_line-InFlight (send nonce plain ∷ ops) l queue all m h =
        let t : Tls = l.sender in
        let (made, sealed) =
          seals t.keys.encr_key (t.keys.encr_iv ++ nonce)
            (gcm_build_aad t.encr_seq ct_appdata (length plain)) plain in
        let (packet, wraps, s) = wrap-Sealed t nonce plain made m.sends all.0.0 all.0.1 sealed in
        let s2 : Sealed crypto.aead l.receiver.keys.decr_key l.receiver.keys.decr_iv t.encr_seq
            packet plain =
          rw (m.same_key, m.same_iv) s in
        rw wraps (
          run_line-InFlight ops
            (record l {
              sender = record t { encr_seq = next_seq t.encr_seq };
              packets = l.packets ++ packet ∷ [];
            })
            (queue ++ plain ∷ []) all.1
            (record {
              sends = m.sends;
              receives = m.receives;
              same_key = m.same_key;
              same_iv = m.same_iv;
            })
            (InFlight-append crypto.aead l.receiver.keys.decr_key l.receiver.keys.decr_iv
              l.receiver.decr_seq l.packets queue t.encr_seq packet plain h s2))
    run_line-InFlight (receive n ∷ ops) l queue all m h =
        let t : Tls = l.receiver in
        let (mid, front, back) =
          InFlight-split crypto.aead t.keys.decr_key t.keys.decr_iv n t.decr_seq l.packets queue
            l.sender.encr_seq h in
        let got = unwrap-InFlight crypto t (take n l.packets) (take n queue) mid m.receives front in
        rw got (
          ap (λ k. ok (joined (take n queue)) ∷ k)
            (run_line-InFlight ops
              (record l { receiver = record t { decr_seq = mid }; packets = drop n l.packets })
              (drop n queue) all.1
              (record {
                sends = m.sends;
                receives = m.receives;
                same_key = m.same_key;
                same_iv = m.same_iv;
              })
              back))

-- Of two established ends, where one decrypts with the keys, the iv and the next sequence number that the
-- other encrypts with, and where sealing does not fail, any sequence of calls that send messages
-- of at most 65511 bytes with nonces of 8 bytes, and of calls that receive any number of the records
-- in flight at once, returns what a queue of messages returns: no message is lost, doubled or
-- changed, and they come in their order.
pub run_line-replay :
    (crypto : Crypto) (sender receiver : Tls) (ops : List Op)
    → ((key iv aad plain : List ℕ)
        → (made : List ℕ × List ℕ) × (crypto.aead.seal key iv aad plain ≡ some made))
    → IsMirror sender receiver
    → receiver.decr_seq ≡ sender.encr_seq
    → All IsSendable ops
    → run_line crypto ops (record { sender = sender; receiver = receiver; packets = [] })
      ≡ map ok (replay ops [])
unfolding InFlight
run_line-replay crypto sender receiver ops seals m h all =
    run_line-InFlight crypto seals ops
      (record { sender = sender; receiver = receiver; packets = [] }) [] all m h
