-- ===== src/Tls/Channel/Session/Safety.antt =====
-- Every reply is read inside its bounds, and every loop over it ends.
use verimark_linux_driver.Common.{
  ℕ, suc, ◌≢◌, refl, Bool, List, [], ◌==◌, length, Outcome, ok, err, fault, Action, arith, if_elim,
  go_on-safe,
}
use verimark_linux_driver.Tls.Gcm.{gcm_unwrap}
use verimark_linux_driver.Tls.Gcm.Aad.{gcm_unwrap-safe}
use verimark_linux_driver.Tls.Crypto.{Crypto}
use verimark_linux_driver.Tls.Channel.{Tls, each_record}
use verimark_linux_driver.Tls.Channel.Records.{each_record_ends}
use verimark_linux_driver.Tls.Channel.Hello.{hs_build_client_hello, hs_process_rt1}
use verimark_linux_driver.Tls.Channel.Finish.{Draws, hs_build_rt2, hs_process_rt2}
use verimark_linux_driver.Tls.Channel.Session.{
  handshake, on_io, on_tls, unwrap, unwrap_record, unwrap_read, ct_appdata,
}
use verimark_linux_driver.Tls.Channel.Hello.Safety.{hs_process_rt1-safe}
use verimark_linux_driver.Tls.Channel.Finish.Safety.{hs_process_rt2-safe, hs_build_rt2-safe}

module _ (crypto : Crypto) where
  -- A handshake has no read outside a reply, and its loops end, whatever the replies are, if the callback that
  -- fetches them has no fault.
  pub handshake-safe {ℓ} :
      {W : Type ℓ} (io : List ℕ → Action W (List ℕ)) (now : ℕ) (random : List ℕ) (draws : Draws)
      (t : Tls) (w : W)
      → ((request : List ℕ) (world : W) → (io request world).1 ≢ fault)
      → (handshake crypto io now random draws (t, w)).1 ≢ fault
  unfolding handshake
  handshake-safe {W = W} io now random draws t w io-safe =
      let hello : Tls × List ℕ = hs_build_client_hello now random t in
      if_elim (λ (r : (Tls × W) × Outcome Bool). r.1 ≢ fault) t.have_pairing
        (λ _. go_on-safe (on_io (io hello.1) (hello.0, w)) _ (io-safe hello.1 w) λ in1 _.
          let w1 : W = (io hello.1 w).0 in
          go_on-safe (on_tls (hs_process_rt1 in1) (hello.0, w1)) _ (hs_process_rt1-safe in1 hello.0)
            λ _ _.
              let t2 : Tls = (hs_process_rt1 in1 hello.0).0 in
              go_on-safe (on_tls (hs_build_rt2 crypto draws) (t2, w1)) _
                (hs_build_rt2-safe crypto draws t2)
                λ out2 _.
                  let t3 : Tls = (hs_build_rt2 crypto draws t2).0 in
                  go_on-safe (on_io (io out2) (t3, w1)) _ (io-safe out2 w1) λ in2 _.
                    go_on-safe (on_tls (hs_process_rt2 crypto in2) (t3, (io out2 w1).0)) _
                      (hs_process_rt2-safe crypto in2 t3) λ _ _ e. cc)
        (λ _ e. cc)

  unwrap_record-safe :
      (ct : ℕ) (frag : List ℕ) (s : Tls × List ℕ) → (unwrap_record crypto ct frag s).1 ≢ fault
  unfolding unwrap_record
  unwrap_record-safe ct frag s =
      go_on-safe (s, gcm_unwrap crypto.aead s.0.keys.decr_key s.0.keys.decr_iv s.0.decr_seq ct frag)
        _ (gcm_unwrap-safe crypto.aead s.0.keys.decr_key s.0.keys.decr_iv s.0.decr_seq ct frag)
        λ dec _.
          if_elim (λ (r : (Tls × List ℕ) × Outcome (Unit {0})). r.1 ≢ fault) (ct == ct_appdata)
            (λ _ e. cc) (λ _ e. cc)

  unwrap_read-safe :
      (end : (Tls × List ℕ) × Outcome (Unit {0}))
      → end.1 ≢ fault
      → (unwrap_read crypto end).1 ≢ fault
  unfolding unwrap_read
  unwrap_read-safe ((t, out), ok _) h = λ e. cc
  unwrap_read-safe ((t, out), err x) h = λ e. cc
  unwrap_read-safe ((t, out), fault) h = absurd (h refl)

  -- Unwrapping has no read outside the bytes that came, and its loop ends, whatever the bytes and the channel
  -- are.
  pub unwrap-safe : (bytes : List ℕ) (t : Tls) → (unwrap crypto bytes t).1 ≢ fault
  unfolding unwrap
  unwrap-safe bytes t =
      if_elim (λ (r : Tls × Outcome (List ℕ)). r.1 ≢ fault) t.established
        (λ _.
          unwrap_read-safe (each_record (unwrap_record crypto) (suc (length bytes)) bytes 0 (t, []))
            (each_record_ends (unwrap_record crypto) (suc (length bytes)) bytes 0 (t, [])
              unwrap_record-safe (omega arith) (omega arith)))
        (λ _ e. cc)
