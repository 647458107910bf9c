-- ===== src/Tls/Channel/Session.antt =====
-- driver/verimark-tls.c: the handshake, and the channel that it establishes.
pub mod Established
pub mod Leaves
pub mod Agreed
pub mod Server
pub mod Completes
pub mod Safety
use verimark_linux_driver.Common.{
  ℕ, zero, suc, Bool, true, false, not, List, [], ◌∷◌, ◌++◌, ◌==◌, if◌then◌else◌, length, Outcome,
  ok, err, fault, crypto_failed, Action, go_on,
}
use verimark_linux_driver.Tls.Gcm.{gcm_wrap, gcm_unwrap}
use verimark_linux_driver.Tls.Crypto.{Crypto}
use verimark_linux_driver.Tls.Channel.{Tls, rec_write_plain, each_record, next_seq}
use verimark_linux_driver.Tls.Channel.Hello.{hs_build_client_hello, hs_process_rt1}
use verimark_linux_driver.Tls.Channel.Finish.{Draws, hs_build_rt2, hs_process_rt2}

-- VERIMARK_TLS_CT_APPDATA
abbrev pub ct_appdata : ℕ
ct_appdata = 0x17

-- The callback VerimarkTlsIo on what lies behind it, beside the channel.
abbrev pub on_io {ℓ κ} : {W : Type ℓ} {A : Type κ} → Action W A → Action (Tls × W) A
on_io call (t, w) = let end = call w in ((t, end.0), end.1)

abbrev pub on_tls {ℓ κ} : {W : Type ℓ} {A : Type κ} → Action Tls A → Action (Tls × W) A
on_tls call (t, w) = let end = call t in ((end.0, w), end.1)

module _ (crypto : Crypto) where
  -- verimark_tls_handshake: `now` and `random` are drawn for the ClientHello.
  unfoldable pub handshake {ℓ} :
      {W : Type ℓ}
      → (io : List ℕ → Action W (List ℕ)) (now : ℕ) (random : List ℕ) (draws : Draws)
      → Action (Tls × W) Bool
  handshake io now random draws (t, w) =
      let hello = hs_build_client_hello now random t in
      let more = go_on (on_io (io hello.1) (hello.0, w)) λ in1 s1.
        go_on (on_tls (hs_process_rt1 in1) s1) λ _ s2.
          go_on (on_tls (hs_build_rt2 crypto draws) s2) λ out2 s3.
            go_on (on_io (io out2) s3) λ in2 s4.
              go_on (on_tls (hs_process_rt2 crypto in2) s4) λ _ s5. (s5, ok s5.0.established) in
      if t.have_pairing then more else ((t, w), err crypto_failed)

  -- verimark_tls_wrap; `nonce` is what RAND_bytes draws.
  unfoldable pub wrap : (nonce plain : List ℕ) → Action Tls (List ℕ)
  wrap nonce plain t =
      let more =
        go_on
          (t, gcm_wrap crypto.aead t.keys.encr_key t.keys.encr_iv t.encr_seq ct_appdata nonce plain)
          λ frag t1. (
            record t1 { encr_seq = next_seq t1.encr_seq },
            ok (rec_write_plain [] ct_appdata frag),
          ) in
      if t.established then more else (t, ok plain)

  -- A record of the loop of verimark_tls_unwrap, with what was appended to `out`. An alert and an
  -- unexpected content type set the same error code.
  unfoldable pub unwrap_record : (ct : ℕ) (frag : List ℕ) → Action (Tls × List ℕ) (Unit {0})
  unwrap_record ct frag s =
      go_on (s, gcm_unwrap crypto.aead s.0.keys.decr_key s.0.keys.decr_iv s.0.decr_seq ct frag)
        λ dec s1.
          let t : Tls = record s1.0 { decr_seq = next_seq s1.0.decr_seq } in
          if ct == ct_appdata then ((t, s1.1 ++ dec), ok tt) else ((t, s1.1), err crypto_failed)

  unfoldable pub unwrap_read : (Tls × List ℕ) × Outcome (Unit {0}) → Tls × Outcome (List ℕ)
  unwrap_read ((t, out), ok _) = (t, ok out)
  unwrap_read ((t, out), err x) = (t, err x)
  unwrap_read ((t, out), fault) = (t, fault)

  -- verimark_tls_unwrap
  unfoldable pub unwrap : (bytes : List ℕ) → Action Tls (List ℕ)
  unfolding unwrap_record unwrap_read
  unwrap bytes t =
      let more = unwrap_read (each_record unwrap_record (suc (length bytes)) bytes 0 (t, [])) in
      if t.established then more else (t, ok bytes)

  -- verimark_tls_close: the alert is sent if it can be, and what comes back is dropped.
  unfoldable pub close_sent {ℓ} :
      {W : Type ℓ} (io : List ℕ → Action W (List ℕ)) → Outcome (List ℕ) → Tls × W → Tls × W
  close_sent io (ok frag) (t, w) = (
    record t { encr_seq = next_seq t.encr_seq; established = false },
    (io (rec_write_plain [] 0x15 frag) w).0,
  )
  close_sent io _ (t, w) = (record t { established = false }, w)

  unfoldable pub close {ℓ} :
      {W : Type ℓ} (io : List ℕ → Action W (List ℕ)) (nonce : List ℕ) → Tls × W → Tls × W
  unfolding close_sent
  close io nonce (t, w) =
      let alert =
        gcm_wrap crypto.aead t.keys.encr_key t.keys.encr_iv t.encr_seq 0x15 nonce
          (0x01 ∷ 0x00 ∷ []) in
      if t.established then close_sent io alert (t, w) else (t, w)
