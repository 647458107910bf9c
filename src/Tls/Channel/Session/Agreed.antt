-- ===== src/Tls/Channel/Session/Agreed.antt =====
-- The whole handshake: it succeeds exactly when it leaves the channel established.
use verimark_linux_driver.Common.{
  ℕ, suc, ◌≡◌, refl, sym, ap, ◌∙◌, Bool, true, false, ◌&&◌, List, length, Outcome, ok, err, fault,
  Action, go_on, if_true, if_false, if_elim, go_on_rel, go_on_elim, go_on-ok, Bool-cases, inl, inr,
  ok_ne_err, ok_eq, Error, crypto_failed,
}
use verimark_linux_driver.Tls.Crypto.{Crypto}
use verimark_linux_driver.Tls.Channel.{Tls, hs_msg, each_record}
use verimark_linux_driver.Tls.Channel.Hello.{hs_build_client_hello, hs_process_rt1}
use verimark_linux_driver.Tls.Channel.Finish.{
  Rt2, rt2_record, rt2_read, Draws, hs_build_rt2, hs_process_rt2,
}
use verimark_linux_driver.Tls.Channel.Session.{handshake, on_io, on_tls}
use verimark_linux_driver.Tls.Channel.Session.Established.{
  IsFinishedBy, hs_process_rt2-IsFinishedBy, bool_ne,
}
use verimark_linux_driver.Tls.Channel.Session.Leaves.{hs_process_rt1-Leaves, hs_build_rt2-Leaves}

-- A handshake that succeeded, from its first request on: its second reply holds the server's Finished under the
-- keys that were agreed.
pub record IsAgreed {ℓ} (crypto : Crypto) {W : Type ℓ} (io : List ℕ → Action W (List ℕ))
    (first : List ℕ) (before : W) (end : (Tls × W) × Outcome Bool) : Type ℓ where
  pub succeeds : end.1 ≡ ok true
  pub request : List ℕ
  pub reply : List ℕ
  pub replied : (io request (io first before).0).1 ≡ ok reply
  pub finished_by : IsFinishedBy crypto end.0.0 reply

module _ {ℓ} (crypto : Crypto) {W : Type ℓ} (io : List ℕ → Action W (List ℕ)) (first : List ℕ)
    (before : W) where
  Honest : (Tls × W) × Outcome Bool → Type ℓ
  Honest end = end.0.0.established ≡ true → IsAgreed crypto io first before end

  Honest-closed : (s : Tls × W) (o : Outcome Bool) → s.0.established ≡ false → Honest (s, o)
  unfolding Honest
  Honest-closed s o e h = absurd (bool_ne (sym e ∙ h))

  last_reply-Honest :
      (out2 : List ℕ) (s : Tls × W) (in2 : List ℕ)
      → s.0.established ≡ false
      → (io out2 (io first before).0).1 ≡ ok in2
      → Honest (go_on (on_tls (hs_process_rt2 crypto in2) s) λ _ s5. (s5, ok s5.0.established))
  unfolding Honest
  last_reply-Honest out2 s in2 e replied h =
      let call : (Tls × W) × Outcome (Unit {0}) = on_tls (hs_process_rt2 crypto in2) s in
      let behind : Unit {0} → Action (Tls × W) Bool = λ _ s5. (s5, ok s5.0.established) in
      let left : (go_on call behind).0 ≡ call.0 =
        go_on_rel (λ _ u. u ≡ call.0) call.0 call behind refl (λ _ _ k. k) in
      let set : call.0.0.established ≡ true =
        ap (λ (u : Tls × W). u.0.established) (sym left) ∙ h in
      let (done, finished) = hs_process_rt2-IsFinishedBy crypto s.0 in2 e set in
      rw (go_on-ok call behind tt done) (record {
        succeeds = ap ok set;
        request = out2;
        reply = in2;
        replied = replied;
        finished_by = finished;
      })

handshake-Honest {ℓ} :
    (crypto : Crypto) {W : Type ℓ} (io : List ℕ → Action W (List ℕ)) (now : ℕ) (random : List ℕ)
    (draws : Draws) (t : Tls) (w : W)
    → t.established ≡ false
    → Honest crypto io
        (hs_build_client_hello now random t).1
        w
        (handshake crypto io now random draws (t, w))
unfolding handshake hs_build_client_hello hs_msg
handshake-Honest crypto {W = W} io now random draws t w e =
    let hello : Tls × List ℕ = hs_build_client_hello now random t in
    let P : (Tls × W) × Outcome Bool → Type ℓ = Honest crypto io hello.1 w in
    if_elim P t.have_pairing
      (λ _.
        go_on_elim P (on_io (io hello.1) (hello.0, w)) _
          (λ x. Honest-closed crypto io hello.1 w _ _ e) (Honest-closed crypto io hello.1 w _ _ e)
          λ in1 _.
            let w1 : W = (io hello.1 w).0 in
            let t2 : Tls = (hs_process_rt1 in1 hello.0).0 in
            let e2 : t2.established ≡ false = hs_process_rt1-Leaves in1 hello.0 ∙ e in
            go_on_elim P (on_tls (hs_process_rt1 in1) (hello.0, w1)) _
              (λ x. Honest-closed crypto io hello.1 w _ _ e2)
              (Honest-closed crypto io hello.1 w _ _ e2)
              λ _ _.
                let t3 : Tls = (hs_build_rt2 crypto draws t2).0 in
                let e3 : t3.established ≡ false = hs_build_rt2-Leaves crypto draws t2 ∙ e2 in
                go_on_elim P (on_tls (hs_build_rt2 crypto draws) (t2, w1)) _
                  (λ x. Honest-closed crypto io hello.1 w _ _ e3)
                  (Honest-closed crypto io hello.1 w _ _ e3)
                  λ out2 _.
                    go_on_elim P (on_io (io out2) (t3, w1)) _
                      (λ x. Honest-closed crypto io hello.1 w _ _ e3)
                      (Honest-closed crypto io hello.1 w _ _ e3)
                      λ in2 replied.
                        last_reply-Honest crypto io hello.1 w out2 (t3, (io out2 w1).0) in2 e3
                          replied)
      (λ _. Honest-closed crypto io hello.1 w _ _ e)

-- From a channel that is not established, a handshake that leaves it established, whatever the other side
-- answers, returns success, and the answer to its second request, made behind the ClientHello, has a
-- record that decrypts under the keys that were agreed into a Finished message with the 12 bytes
-- that the master secret and the transcript's digest of the channel give.
pub handshake-IsAgreed {ℓ} :
    (crypto : Crypto) {W : Type ℓ} (io : List ℕ → Action W (List ℕ)) (now : ℕ) (random : List ℕ)
    (draws : Draws) (t : Tls) (w : W)
    → t.established ≡ false
    → (handshake crypto io now random draws (t, w)).0.0.established ≡ true
    → IsAgreed crypto io
        (hs_build_client_hello now random t).1
        w
        (handshake crypto io now random draws (t, w))
unfolding Honest
handshake-IsAgreed crypto io now random draws t w e h =
    handshake-Honest crypto io now random draws t w e h

module _ (crypto : Crypto) where
  rt2_read-ok :
      (end : Rt2 × Outcome (Unit {0})) {u : Unit {0}}
      → (rt2_read crypto end).1 ≡ ok u
      → (rt2_read crypto end).0.established ≡ true
  unfolding rt2_read
  rt2_read-ok (s, ok _) h = elim (Bool-cases (s.ccs_seen && s.fin_seen)) [
    | inl both ↦ ap (λ (r : Tls × Outcome (Unit {0})). r.0.established) (if_true _ _ both)
    | inr other ↦ absurd (
        ok_ne_err (
          sym h
          ∙ ap (λ (r : Tls × Outcome (Unit {0})). r.1)
              (if_false {A = Tls × Outcome (Unit {0})} (record s.tls { established = true }, ok tt)
                (s.tls, err crypto_failed) other)))
  ]
  rt2_read-ok (s, err x) h = cc
  rt2_read-ok (s, fault) h = cc

  hs_process_rt2-ok :
      (resp : List ℕ) (t : Tls) {u : Unit {0}}
      → (hs_process_rt2 crypto resp t).1 ≡ ok u
      → (hs_process_rt2 crypto resp t).0.established ≡ true
  unfolding hs_process_rt2
  hs_process_rt2-ok resp t h =
      rt2_read-ok
        (each_record (rt2_record crypto) (suc (length resp)) resp 0
          (record { tls = t; ccs_seen = false; fin_seen = false }))
        h

module _ {ℓ} (crypto : Crypto) {W : Type ℓ} (b : Bool) where
  Sure : (Tls × W) × Outcome Bool → Type 0
  Sure end = end.1 ≡ ok b → (b ≡ true) × (end.0.0.established ≡ true)

  Sure-err : (s : Tls × W) (x : Error) → Sure (s, err x)
  unfolding Sure
  Sure-err s x h = absurd (ok_ne_err (sym h))

  Sure-fault : (s : Tls × W) → Sure (s, fault)
  unfolding Sure
  Sure-fault s h = cc

  last-Sure :
      (in2 : List ℕ) (s : Tls × W) {u : Unit {0}}
      → (hs_process_rt2 crypto in2 s.0).1 ≡ ok u
      → Sure (
        (on_tls (hs_process_rt2 crypto in2) s).0,
        ok (hs_process_rt2 crypto in2 s.0).0.established,
      )
  unfolding Sure
  last-Sure in2 s done h =
      let set = hs_process_rt2-ok crypto in2 s.0 done in (sym (ok_eq _ _ h) ∙ set, set)

  handshake-Sure :
      (io : List ℕ → Action W (List ℕ)) (now : ℕ) (random : List ℕ) (draws : Draws) (t : Tls)
      (w : W)
      → Sure (handshake crypto io now random draws (t, w))
  unfolding handshake
  handshake-Sure io now random draws t w =
      let hello : Tls × List ℕ = hs_build_client_hello now random t in
      if_elim Sure t.have_pairing
        (λ _.
          go_on_elim Sure (on_io (io hello.1) (hello.0, w)) _ (Sure-err _) (Sure-fault _) λ in1 _.
            go_on_elim Sure (on_tls (hs_process_rt1 in1) (hello.0, (io hello.1 w).0)) _ (Sure-err _)
              (Sure-fault _)
              λ _ _.
                let t2 : Tls = (hs_process_rt1 in1 hello.0).0 in
                go_on_elim Sure (on_tls (hs_build_rt2 crypto draws) (t2, (io hello.1 w).0)) _
                  (Sure-err _) (Sure-fault _)
                  λ out2 _.
                    let s3 : Tls × W = ((hs_build_rt2 crypto draws t2).0, (io hello.1 w).0) in
                    go_on_elim Sure (on_io (io out2) s3) _ (Sure-err _) (Sure-fault _) λ in2 _.
                      let s4 : Tls × W = (s3.0, (io out2 s3.1).0) in
                      go_on_elim Sure (on_tls (hs_process_rt2 crypto in2) s4) _ (Sure-err _)
                        (Sure-fault _) λ _ done. last-Sure in2 s4 done)
        (λ _. Sure-err (t, w) crypto_failed)

-- A handshake that returns without an error returns TRUE, and leaves the channel established.
pub handshake_established {ℓ} :
    (crypto : Crypto) {W : Type ℓ} (io : List ℕ → Action W (List ℕ)) (now : ℕ) (random : List ℕ)
    (draws : Draws) (t : Tls) (w : W) (b : Bool)
    → (handshake crypto io now random draws (t, w)).1 ≡ ok b
    → (b ≡ true) × ((handshake crypto io now random draws (t, w)).0.0.established ≡ true)
unfolding Sure
handshake_established crypto {W = W} io now random draws t w b h =
    handshake-Sure crypto b io now random draws t w h
