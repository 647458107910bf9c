-- ===== src/Tls/Channel/Finish/Sends.antt =====
-- What the driver's last flight holds.
use verimark_linux_driver.Common.{ℕ, ◌≡◌, sym, ap, ◌∙◌, List, [], ◌∷◌, ◌++◌, ok}
use mathlib.Core.List.{append_assoc, append-nil}
use verimark_linux_driver.Tls.Gcm.{gcm_wrap}
use verimark_linux_driver.Tls.Prf.{Keys, prf, derive_master_secret, derive_keys}
use verimark_linux_driver.Tls.Crypto.{Crypto, pub_from_priv, ecdh_premaster, ecdsa_sign_prehashed}
use verimark_linux_driver.Tls.Channel.{Tls, rec_write_plain, rec_plain, hs_bytes, hs_msg}
use verimark_linux_driver.Tls.Channel.Records.{wire}
use verimark_linux_driver.Tls.Channel.Finish.{
  Draws, certificate_body, hs_build_rt2, build_verify, build_keyed, build_finished,
  client_finished_label,
}

-- Certificate and ClientKeyExchange
abbrev pub key_messages : Tls → (x y : List ℕ) → List ℕ
key_messages t x y =
    hs_bytes 0x0b (certificate_body t.pd.host_cert) ++ hs_bytes 0x10 (0x04 ∷ (x ++ y))

-- What the cryptography makes of a flight, if no call of it fails.
pub record Secrets (crypto : Crypto) (draws : Draws) (t : Tls) : Type 0 where
  pub x : List ℕ
  pub y : List ℕ
  pub sig : List ℕ
  pub premaster : List ℕ
  pub master_secret : List ℕ
  pub keys : Keys
  pub verify_data : List ℕ
  pub frag : List ℕ
  pub key_drawn : pub_from_priv crypto draws.eph_priv ≡ ok (x, y)
  pub signed :
      ecdsa_sign_prehashed crypto draws.signing t.pd.priv_scalar
        (crypto.digest (t.transcript ++ key_messages t x y))
      ≡ ok sig
  pub shared :
      ecdh_premaster crypto draws.eph_priv t.pd.sensor_cert.pub_x t.pd.sensor_cert.pub_y
      ≡ ok premaster
  pub master_made :
      derive_master_secret crypto.sha384 premaster t.client_random t.server_random
      ≡ ok master_secret
  pub keys_made : derive_keys crypto.sha384 master_secret t.client_random t.server_random ≡ ok keys
  pub verify_made :
      prf crypto.sha384 master_secret client_finished_label
        (crypto.digest (t.transcript ++ (key_messages t x y ++ hs_bytes 0x0f sig)))
        12
      ≡ ok verify_data
  pub wrapped :
      gcm_wrap crypto.aead keys.encr_key keys.encr_iv 0 0x16 draws.nonce (hs_bytes 0x14 verify_data)
      ≡ ok frag

module _ (crypto : Crypto) (draws : Draws) (t : Tls) (made : Secrets crypto draws t) where
  -- The messages of the flight that are not encrypted
  abbrev pub plain_messages : List ℕ
  plain_messages = key_messages t made.x made.y ++ hs_bytes 0x0f made.sig

  -- The channel behind the flight
  abbrev pub keyed : Tls
  keyed = record t {
    eph_priv = draws.eph_priv;
    transcript = t.transcript ++ plain_messages;
    master_secret = made.master_secret;
    keys = made.keys;
    encr_seq = 1;
    decr_seq = 0;
    verify_digest = crypto.digest (t.transcript ++ plain_messages);
  }

  abbrev pub second_flight : List ℕ
  second_flight = wire ((0x16, plain_messages) ∷ (0x14, 0x01 ∷ []) ∷ (0x16, made.frag) ∷ [])

  build_finished-Secrets :
      build_finished crypto draws.nonce
        (rec_plain 0x16 plain_messages)
        (record keyed { encr_seq = 0; verify_digest = t.verify_digest })
      ≡ (keyed, ok second_flight)
  unfolding build_finished hs_msg rec_write_plain wire
  build_finished-Secrets =
      let sent : List ℕ = rec_plain 0x16 plain_messages in
      let ccs : List ℕ = rec_plain 0x14 (0x01 ∷ []) in
      rw (made.verify_made, made.wrapped)
        (ap (λ k. (keyed, ok k))
          (append_assoc sent ccs (rec_plain 0x16 made.frag)
            ∙ ap (λ k. sent ++ (ccs ++ k)) (sym (append-nil (rec_plain 0x16 made.frag)))))

  build_keyed-Secrets :
      build_keyed crypto draws
        (rec_plain 0x16 plain_messages)
        (record t { eph_priv = draws.eph_priv; transcript = t.transcript ++ plain_messages })
      ≡ (keyed, ok second_flight)
  unfolding build_keyed
  build_keyed-Secrets = rw (made.shared, made.master_made, made.keys_made) build_finished-Secrets

  build_verify-Secrets :
      build_verify crypto draws (key_messages t made.x made.y) (record t {
        eph_priv = draws.eph_priv;
        transcript = t.transcript ++ key_messages t made.x made.y;
      })
      ≡ (keyed, ok second_flight)
  unfolding build_verify hs_msg rec_write_plain
  build_verify-Secrets =
      rw
        (
          made.signed,
          append_assoc t.transcript (key_messages t made.x made.y) (hs_bytes 0x0f made.sig),
        )
        build_keyed-Secrets

  pub hs_build_rt2-Secrets : hs_build_rt2 crypto draws t ≡ (keyed, ok second_flight)
  unfolding hs_build_rt2 hs_msg
  hs_build_rt2-Secrets =
      rw
        (
          made.key_drawn,
          append_assoc t.transcript (hs_bytes 0x0b (certificate_body t.pd.host_cert))
              (hs_bytes 0x10 (0x04 ∷ (made.x ++ made.y))),
        )
        build_verify-Secrets
