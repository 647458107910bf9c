-- ===== src/Tls/Channel/Finish/Safety.antt =====
-- The client's last flight is built, and the server's is read, without a read outside a buffer.
use verimark_linux_driver.Common.{
  fail_if-ne-fault, crypto_failed, ℕ, suc, ◌≡◌, ◌≢◌, refl, true, false, not, ◌&&◌, List, [], ◌∷◌,
  ◌++◌, ◌==◌, length, Outcome, ok, err, fault, crypto_failed, Option-cases, bytes_eq, arith, inl,
  inr, Bool-cases, if_elim, go_on-safe, >>=-safe, copy-safe, fail_if-safe,
}
use verimark_linux_driver.Tls.Gcm.{Aead, gcm_build_aad, gcm_unwrap, gcm_wrap}
use verimark_linux_driver.Tls.Gcm.Aad.{gcm_unwrap-safe}
use verimark_linux_driver.Tls.Prf.{
  master_secret_label, prf, derive_master_secret, derive_keys, openssl,
}
use verimark_linux_driver.Tls.Prf.Expansion.{openssl-ne-fault, prf-safe}
use verimark_linux_driver.Tls.Prf.KeyBlock.{derive_keys-safe}
use verimark_linux_driver.Tls.Crypto.{Crypto, pub_from_priv, ecdh_premaster, ecdsa_sign_prehashed}
use verimark_linux_driver.Tls.Channel.{Tls, hs_msg, rec_write_plain, each_record, next_seq}
use verimark_linux_driver.Tls.Channel.Records.{each_record_ends}
use verimark_linux_driver.Tls.Channel.Finish.{
  Rt2, Draws, hs_build_rt2, hs_process_rt2, build_verify, build_keyed, build_finished,
  certificate_body, client_finished_label, server_finished_label, rt2_record, rt2_read, on_finished,
  check_finished, is_finished, is_change_cipher_spec,
}

gcm_wrap-safe :
    (aead : Aead) (key iv : List ℕ) (seq ct : ℕ) (nonce plain : List ℕ)
    → gcm_wrap aead key iv seq ct nonce plain ≢ fault
unfolding gcm_wrap
gcm_wrap-safe aead key iv seq ct nonce plain =
    elim (Option-cases (aead.seal key (iv ++ nonce) (gcm_build_aad seq ct (length plain)) plain)) [
      | inl fails ↦ rw (gcm_wrap, fails) (λ e. cc)
      | inr (made, seals) ↦ rw (gcm_wrap, seals) (λ e. cc)
    ]

-- A finished message of 16 bytes has 12 behind its header.
length-is_finished : (plain : List ℕ) → is_finished plain ≡ true → length plain ≡ 16
unfolding is_finished
length-is_finished [] h = ground (arith, h)
length-is_finished (b ∷ rest) h = ground (arith, h)

module _ (crypto : Crypto) where
  check_finished-safe : (t : Tls) (plain : List ℕ) → check_finished crypto t plain ≢ fault
  unfolding check_finished
  check_finished-safe t plain = elim (Bool-cases (is_finished plain)) [
    | inr other ↦ rw other (λ e. cc)
    | inl form ↦ rw form (
        >>=-safe (prf crypto.sha384 t.master_secret server_finished_label t.verify_digest 12) _
          (prf-safe crypto.sha384 t.master_secret server_finished_label t.verify_digest 12)
          λ expected.
            copy-safe plain 4 12 _ (omega (arith, length-is_finished plain form))
              λ got. fail_if-ne-fault (not (bytes_eq got expected)) crypto_failed)
  ]

  on_finished-safe : (frag : List ℕ) (s : Rt2) → (on_finished crypto frag s).1 ≢ fault
  unfolding on_finished
  on_finished-safe frag s =
      if_elim (λ (r : Rt2 × Outcome (Unit {0})). r.1 ≢ fault) s.ccs_seen
        (λ _.
          go_on-safe
            (
              s,
              gcm_unwrap crypto.aead s.tls.keys.decr_key s.tls.keys.decr_iv s.tls.decr_seq 0x16
                  frag,
            )
            _
            (gcm_unwrap-safe crypto.aead s.tls.keys.decr_key s.tls.keys.decr_iv s.tls.decr_seq 0x16
              frag)
            λ plain _.
              let t : Tls = record s.tls { decr_seq = next_seq s.tls.decr_seq } in
              go_on-safe (record s { tls = t }, check_finished crypto t plain) _
                (check_finished-safe t plain) λ _ _ e. cc)
        (λ _ e. cc)

  rt2_record-safe : (ct : ℕ) (frag : List ℕ) (s : Rt2) → (rt2_record crypto ct frag s).1 ≢ fault
  unfolding rt2_record
  rt2_record-safe ct frag s =
      let P : Rt2 × Outcome (Unit {0}) → Type 0 = λ r. r.1 ≢ fault in
      if_elim P (ct == 0x14) (λ _. if_elim P (is_change_cipher_spec frag) (λ _ e. cc) (λ _ e. cc))
        λ _. if_elim P (ct == 0x16) (λ _. on_finished-safe frag s) (λ _ e. cc)

  rt2_read-safe : (end : Rt2 × Outcome (Unit {0})) → end.1 ≢ fault → (rt2_read crypto end).1 ≢ fault
  unfolding rt2_read
  rt2_read-safe (s, ok _) h =
      if_elim (λ (r : Tls × Outcome (Unit {0})). r.1 ≢ fault) (s.ccs_seen && s.fin_seen) (λ _ e. cc)
        (λ _ e. cc)
  rt2_read-safe (s, err x) h = λ e. cc
  rt2_read-safe (s, fault) h = absurd (h refl)

  pub hs_process_rt2-safe : (resp : List ℕ) (t : Tls) → (hs_process_rt2 crypto resp t).1 ≢ fault
  unfolding hs_process_rt2
  hs_process_rt2-safe resp t =
      let start : Rt2 = record { tls = t; ccs_seen = false; fin_seen = false } in
      rt2_read-safe (each_record (rt2_record crypto) (suc (length resp)) resp 0 start) (
        each_record_ends (rt2_record crypto) (suc (length resp)) resp 0 start rt2_record-safe
          (omega arith) (omega arith))

  ecdh_premaster-safe : (priv x y : List ℕ) → ecdh_premaster crypto priv x y ≢ fault
  unfolding ecdh_premaster
  ecdh_premaster-safe priv x y = fail_if-safe (not (crypto.on_curve x y)) crypto_failed _ λ _.
      >>=-safe (openssl (crypto.ecdh priv x y)) _ (openssl-ne-fault (crypto.ecdh priv x y))
        λ premaster. fail_if-safe (not (length premaster == 32)) crypto_failed _ λ _ e. cc

  build_finished-safe :
      (nonce out : List ℕ) (t : Tls) → (build_finished crypto nonce out t).1 ≢ fault
  unfolding build_finished
  build_finished-safe nonce out t =
      let t1 : Tls = record t { verify_digest = crypto.digest t.transcript } in
      go_on-safe (t1, prf crypto.sha384 t1.master_secret client_finished_label t1.verify_digest 12)
        _ (prf-safe crypto.sha384 t1.master_secret client_finished_label t1.verify_digest 12)
        λ verify_data _.
          let sent : Tls × List ℕ = hs_msg t1 [] 0x14 verify_data in
          go_on-safe
            (
              sent.0,
              gcm_wrap crypto.aead t1.keys.encr_key t1.keys.encr_iv t1.encr_seq 0x16 nonce sent.1,
            )
            _
            (gcm_wrap-safe crypto.aead t1.keys.encr_key t1.keys.encr_iv t1.encr_seq 0x16 nonce
              sent.1)
            λ _ _ e. cc

  build_keyed-safe :
      (draws : Draws) (out : List ℕ) (t : Tls) → (build_keyed crypto draws out t).1 ≢ fault
  unfolding build_keyed derive_master_secret
  build_keyed-safe draws out t =
      go_on-safe
        (t, ecdh_premaster crypto draws.eph_priv t.pd.sensor_cert.pub_x t.pd.sensor_cert.pub_y) _
        (ecdh_premaster-safe draws.eph_priv t.pd.sensor_cert.pub_x t.pd.sensor_cert.pub_y)
        λ premaster _.
          go_on-safe
            (t, derive_master_secret crypto.sha384 premaster t.client_random t.server_random) _
            (prf-safe crypto.sha384 premaster master_secret_label
              (t.client_random ++ t.server_random) 48)
            λ master_secret _.
              go_on-safe
                (
                  record t { master_secret = master_secret },
                  derive_keys crypto.sha384 master_secret t.client_random t.server_random,
                )
                _ (derive_keys-safe crypto.sha384 master_secret t.client_random t.server_random)
                λ keys _. build_finished-safe draws.nonce out (record t {
                  master_secret = master_secret;
                  keys = keys;
                  encr_seq = 0;
                  decr_seq = 0;
                })

  pub hs_build_rt2-safe : (draws : Draws) (t : Tls) → (hs_build_rt2 crypto draws t).1 ≢ fault
  unfolding hs_build_rt2 build_verify pub_from_priv ecdsa_sign_prehashed
  hs_build_rt2-safe draws t =
      let sent : Tls × List ℕ = hs_msg t [] 0x0b (certificate_body t.pd.host_cert) in
      let t1 : Tls = record sent.0 { eph_priv = draws.eph_priv } in
      go_on-safe (t1, pub_from_priv crypto draws.eph_priv) _
        (openssl-ne-fault (crypto.mul_base draws.eph_priv))
        λ point _.
          let sent2 : Tls × List ℕ = hs_msg t1 sent.1 0x10 (0x04 ∷ (point.0 ++ point.1)) in
          go_on-safe
            (
              sent2.0,
              ecdsa_sign_prehashed crypto draws.signing sent2.0.pd.priv_scalar
                  (crypto.digest sent2.0.transcript),
            )
            _
            (openssl-ne-fault (
              crypto.ecdsa draws.signing sent2.0.pd.priv_scalar (crypto.digest sent2.0.transcript)))
            λ sig _.
              let sent3 : Tls × List ℕ = hs_msg sent2.0 sent2.1 0x0f sig in
              build_keyed-safe draws (rec_write_plain [] 0x16 sent3.1) sent3.0
