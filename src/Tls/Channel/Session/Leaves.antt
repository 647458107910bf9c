-- ===== src/Tls/Channel/Session/Leaves.antt =====
-- What the first three steps of the handshake leave of the channel's flag.
use verimark_linux_driver.Common.{
  ℕ, zero, suc, ◌+◌, ◌≡◌, refl, ap, ◌∙◌, false, List, [], ◌∷◌, ◌++◌, ltb, ◌==◌, length, Outcome, ok,
  err, fault, copy, if_elim, go_on_rel,
}
use verimark_linux_driver.Tls.Gcm.{gcm_wrap}
use verimark_linux_driver.Tls.Prf.{prf, derive_master_secret, derive_keys}
use verimark_linux_driver.Tls.Crypto.{Crypto, pub_from_priv, ecdh_premaster, ecdsa_sign_prehashed}
use verimark_linux_driver.Tls.Channel.{Tls, hs_msg, rec_write_plain, each_record}
use verimark_linux_driver.Tls.Channel.Hello.{
  Rt1, hs_process_rt1, rt1_split, rt1_read, rt1_messages, rt1_message, rt1_switch, message_at,
  on_server_hello, check_suite, rt1_record,
}
use verimark_linux_driver.Tls.Channel.Finish.{
  Draws, hs_build_rt2, build_verify, build_keyed, build_finished, certificate_body,
  client_finished_label,
}

-- The flag of the channel is left as it was.
abbrev pub Leaves : Tls → Tls → Type 0
Leaves t u = u.established ≡ t.established

on_server_hello-Leaves : (body : List ℕ) (s : Rt1) → Leaves s.tls (on_server_hello body s).0.tls
unfolding on_server_hello
on_server_hello-Leaves body s =
    let R : Rt1 → Rt1 → Type 0 = λ a b. Leaves a.tls b.tls in
    if_elim (λ (r : Rt1 × Outcome (Unit {0})). Leaves s.tls r.0.tls)
      (ltb (length body) (2 + 32 + 1 + 2 + 1)) (λ _. refl)
      (λ _.
        go_on_rel R s (s, copy body 2 32) _ refl
          λ random _ _.
            go_on_rel R s
              (record s { tls = record s.tls { server_random = random } }, check_suite body) _ refl
              λ _ _ h. h)

rt1_switch-Leaves : (id : ℕ) (body : List ℕ) (s : Rt1) → Leaves s.tls (rt1_switch id body s).0.tls
unfolding rt1_switch
rt1_switch-Leaves id body s =
    let P : Rt1 × Outcome (Unit {0}) → Type 0 = λ r. Leaves s.tls r.0.tls in
    if_elim P (id == 0x02) (λ _. on_server_hello-Leaves body s)
      λ _.
        if_elim P (id == 0x0b) (λ _. refl)
          λ _.
            if_elim P (id == 0x0d) (λ _. refl)
              λ _.
                if_elim P (id == 0x0e) (λ _. if_elim P s.got_server_hello (λ _. refl) (λ _. refl))
                  (λ _. refl)

rt1_message-Leaves :
    (id : ℕ) (raw body : List ℕ) (s : Rt1) → Leaves s.tls (rt1_message id raw body s).0.tls
unfolding rt1_message
rt1_message-Leaves id raw body s =
    let hashed : Rt1 = record s { tls = record s.tls { transcript = s.tls.transcript ++ raw } } in
    if_elim (λ (r : Rt1 × Outcome (Unit {0})). Leaves s.tls r.0.tls) s.rt1_done (λ _. refl)
      (λ _. rt1_switch-Leaves id body hashed)

rt1_messages-Leaves :
    (fuel : ℕ) (buf : List ℕ) (off : ℕ) (s : Rt1) → Leaves s.tls (rt1_messages fuel buf off s).0.tls
unfolding rt1_messages
rt1_messages-Leaves zero buf off s = refl
rt1_messages-Leaves (suc fuel) buf off s =
    let R : Rt1 → Rt1 → Type 0 = λ a b. Leaves a.tls b.tls in
    if_elim (λ (r : Rt1 × Outcome (Unit {0})). Leaves s.tls r.0.tls) (ltb off (length buf))
      (λ _.
        go_on_rel R s (s, message_at buf off) _ refl
          λ m _ _.
            let step = rt1_message-Leaves m.0 m.1 m.2 s in
            go_on_rel R s (rt1_message m.0 m.1 m.2 s) _ step λ _ _ h.
              rt1_messages-Leaves fuel buf (off + 4 + length m.2) (rt1_message m.0 m.1 m.2 s).0 ∙ h)
      (λ _. refl)

rt1_read-tls : (end : Rt1 × Outcome (Unit {0})) → (rt1_read end).0 ≡ end.0.tls
unfolding rt1_read
rt1_read-tls (s, ok _) = refl
rt1_read-tls (s, err x) = refl
rt1_read-tls (s, fault) = refl

rt1_split-Leaves : (found : List ℕ × Outcome (Unit {0})) (t : Tls) → Leaves t (rt1_split found t).0
unfolding rt1_split
rt1_split-Leaves (hsbuf, ok _) t =
    let start : Rt1 = record { tls = t; got_server_hello = false; rt1_done = false } in
    ap (λ (u : Tls). u.established) (rt1_read-tls (rt1_messages (suc (length hsbuf)) hsbuf 0 start))
    ∙ rt1_messages-Leaves (suc (length hsbuf)) hsbuf 0 start
rt1_split-Leaves (hsbuf, err x) t = refl
rt1_split-Leaves (hsbuf, fault) t = refl

pub hs_process_rt1-Leaves : (resp : List ℕ) (t : Tls) → Leaves t (hs_process_rt1 resp t).0
unfolding hs_process_rt1
hs_process_rt1-Leaves resp t =
    rt1_split-Leaves (each_record rt1_record (suc (length resp)) resp 0 []) t

module _ (crypto : Crypto) where
  build_finished-Leaves :
      (nonce out : List ℕ) (t : Tls) → Leaves t (build_finished crypto nonce out t).0
  unfolding build_finished hs_msg
  build_finished-Leaves nonce out t =
      let t1 : Tls = record t { verify_digest = crypto.digest t.transcript } in
      go_on_rel Leaves t
        (t1, prf crypto.sha384 t1.master_secret client_finished_label t1.verify_digest 12) _ refl
        λ verify_data _ _.
          let sent : Tls × List ℕ = hs_msg t1 [] 0x14 verify_data in
          go_on_rel Leaves t
            (
              sent.0,
              gcm_wrap crypto.aead t1.keys.encr_key t1.keys.encr_iv t1.encr_seq 0x16 nonce sent.1,
            )
            _ refl λ _ _ _. refl

  build_keyed-Leaves :
      (draws : Draws) (out : List ℕ) (t : Tls) → Leaves t (build_keyed crypto draws out t).0
  unfolding build_keyed
  build_keyed-Leaves draws out t =
      go_on_rel Leaves t
        (t, ecdh_premaster crypto draws.eph_priv t.pd.sensor_cert.pub_x t.pd.sensor_cert.pub_y) _
        refl
        λ premaster _ _.
          go_on_rel Leaves t
            (t, derive_master_secret crypto.sha384 premaster t.client_random t.server_random) _ refl
            λ master_secret _ _.
              go_on_rel Leaves t
                (
                  record t { master_secret = master_secret },
                  derive_keys crypto.sha384 master_secret t.client_random t.server_random,
                )
                _ refl
                λ keys _ _. build_finished-Leaves draws.nonce out (record t {
                  master_secret = master_secret;
                  keys = keys;
                  encr_seq = 0;
                  decr_seq = 0;
                })

  pub hs_build_rt2-Leaves : (draws : Draws) (t : Tls) → Leaves t (hs_build_rt2 crypto draws t).0
  unfolding hs_build_rt2 build_verify hs_msg
  hs_build_rt2-Leaves draws t =
      let sent : Tls × List ℕ = hs_msg t [] 0x0b (certificate_body t.pd.host_cert) in
      let t1 : Tls = record sent.0 { eph_priv = draws.eph_priv } in
      go_on_rel Leaves t (t1, pub_from_priv crypto draws.eph_priv) _ refl
        λ point _ _.
          let sent2 : Tls × List ℕ = hs_msg t1 sent.1 0x10 (0x04 ∷ (point.0 ++ point.1)) in
          go_on_rel Leaves t
            (
              sent2.0,
              ecdsa_sign_prehashed crypto draws.signing sent2.0.pd.priv_scalar
                  (crypto.digest sent2.0.transcript),
            )
            _ refl
            λ sig _ _.
              let sent3 : Tls × List ℕ = hs_msg sent2.0 sent2.1 0x0f sig in
              build_keyed-Leaves draws (rec_write_plain [] 0x16 sent3.1) sent3.0
