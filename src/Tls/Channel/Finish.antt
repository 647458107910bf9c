-- ===== src/Tls/Channel/Finish.antt =====
-- driver/verimark-tls.c: hs_build_rt2 and hs_process_rt2, which finish the handshake.
pub mod Safety
pub mod Accepts
pub mod Sends
use verimark_linux_driver.Common.{
  ℕ, suc, Bool, true, false, not, ◌&&◌, List, [], ◌∷◌, ◌++◌, ◌==◌, if◌then◌else◌, length, Outcome,
  ok, err, fault, ◌>>=◌, ◌>>◌, fail_if, copy, crypto_failed, Action, go_on, bytes_eq,
}
use verimark_linux_driver.Tls.Cert.{Cert, cert_serialize}
use verimark_linux_driver.Tls.Gcm.{gcm_wrap, gcm_unwrap}
use verimark_linux_driver.Tls.Prf.{prf, derive_master_secret, derive_keys}
use verimark_linux_driver.Tls.Crypto.{Crypto, pub_from_priv, ecdh_premaster, ecdsa_sign_prehashed}
use verimark_linux_driver.Tls.Channel.{Tls, rec_write_plain, hs_msg, each_record, next_seq}

-- "client finished", "server finished"
abbrev pub client_finished_label : List ℕ
client_finished_label =
    0x63 ∷ 0x6c ∷ 0x69 ∷ 0x65 ∷ 0x6e ∷ 0x74 ∷ 0x20 ∷ 0x66 ∷ 0x69 ∷ 0x6e ∷ 0x69 ∷ 0x73 ∷ 0x68 ∷ 0x65
    ∷ 0x64 ∷ []

abbrev pub server_finished_label : List ℕ
server_finished_label =
    0x73 ∷ 0x65 ∷ 0x72 ∷ 0x76 ∷ 0x65 ∷ 0x72 ∷ 0x20 ∷ 0x66 ∷ 0x69 ∷ 0x6e ∷ 0x69 ∷ 0x73 ∷ 0x68 ∷ 0x65
    ∷ 0x64 ∷ []

-- The body of the client's Certificate: 400 twice, two bytes, and the certificate.
unfoldable pub certificate_body : Cert → List ℕ
certificate_body cert = 0x00 ∷ 0x01 ∷ 0x90 ∷ 0x00 ∷ 0x01 ∷ 0x90 ∷ 0x00 ∷ 0x00 ∷ cert_serialize cert

-- What hs_build_rt2 draws with RAND_bytes, and what the signature draws.
pub record Draws : Type 0 where
  pub eph_priv : List ℕ
  pub signing : List ℕ
  pub nonce : List ℕ

module _ (crypto : Crypto) where
  -- hs_build_rt2 from the ChangeCipherSpec on: `out` holds the handshake record.
  unfoldable pub build_finished : (nonce out : List ℕ) → Action Tls (List ℕ)
  build_finished nonce out t =
      let out1 : List ℕ = rec_write_plain out 0x14 (0x01 ∷ []) in
      let t1 = record t { verify_digest = crypto.digest t.transcript } in
      go_on (t1, prf crypto.sha384 t1.master_secret client_finished_label t1.verify_digest 12)
        λ verify_data t2.
          let sent = hs_msg t2 [] 0x14 verify_data in
          go_on
            (
              sent.0,
              gcm_wrap crypto.aead t2.keys.encr_key t2.keys.encr_iv t2.encr_seq 0x16 nonce sent.1,
            )
            λ frag t3.
              (record t3 { encr_seq = next_seq t3.encr_seq }, ok (rec_write_plain out1 0x16 frag))

  -- hs_build_rt2 from the premaster secret on; the sequence numbers start at 0.
  unfoldable pub build_keyed : (draws : Draws) (out : List ℕ) → Action Tls (List ℕ)
  unfolding build_finished
  build_keyed draws out t =
      go_on (t, ecdh_premaster crypto draws.eph_priv t.pd.sensor_cert.pub_x t.pd.sensor_cert.pub_y)
        λ premaster t1.
          go_on (t1, derive_master_secret crypto.sha384 premaster t1.client_random t1.server_random)
            λ master_secret t2.
              go_on
                (
                  record t2 { master_secret = master_secret },
                  derive_keys crypto.sha384 master_secret t2.client_random t2.server_random,
                )
                λ keys t3.
                  build_finished draws.nonce out
                    (record t3 { keys = keys; encr_seq = 0; decr_seq = 0 })

  -- hs_build_rt2 from the CertificateVerify on: `content` holds the messages before it.
  unfoldable pub build_verify : (draws : Draws) (content : List ℕ) → Action Tls (List ℕ)
  unfolding build_keyed
  build_verify draws content t =
      go_on
        (t, ecdsa_sign_prehashed crypto draws.signing t.pd.priv_scalar (crypto.digest t.transcript))
        λ sig t1.
          let sent = hs_msg t1 content 0x0f sig in
          build_keyed draws (rec_write_plain [] 0x16 sent.1) sent.0

  unfoldable pub hs_build_rt2 : Draws → Action Tls (List ℕ)
  unfolding build_verify certificate_body
  hs_build_rt2 draws t =
      let sent = hs_msg t [] 0x0b (certificate_body t.pd.host_cert) in
      go_on (record sent.0 { eph_priv = draws.eph_priv }, pub_from_priv crypto draws.eph_priv)
        λ point t1.
          let sent2 = hs_msg t1 sent.1 0x10 (0x04 ∷ (point.0 ++ point.1)) in
          build_verify draws sent2.1 sent2.0

-- hs_process_rt2: the channel, ccs_seen and fin_seen.
pub record Rt2 : Type 0 where
  pub tls : Tls
  pub ccs_seen : Bool
  pub fin_seen : Bool

-- `rlen == 1 && frag[0] == 0x01`
unfoldable pub is_change_cipher_spec : (frag : List ℕ) → Bool
is_change_cipher_spec (b ∷ []) = b == 0x01
is_change_cipher_spec _ = false

-- `plain_len == 16 && plain[0] == 0x14`
unfoldable pub is_finished : (plain : List ℕ) → Bool
is_finished [] = false
is_finished (b ∷ rest) = length (b ∷ rest) == 16 && b == 0x14

module _ (crypto : Crypto) where
  -- The server's Finished, decrypted.
  unfoldable pub check_finished : Tls → (plain : List ℕ) → Outcome (Unit {0})
  unfolding is_finished
  check_finished t plain = do
    fail_if (not (is_finished plain)) crypto_failed
    expected ← prf crypto.sha384 t.master_secret server_finished_label t.verify_digest 12
    got ← copy plain 4 12
    fail_if (not (bytes_eq got expected)) crypto_failed

  -- `ct == 0x16`
  unfoldable pub on_finished : (frag : List ℕ) → Action Rt2 (Unit {0})
  unfolding check_finished
  on_finished frag s =
      let more =
        go_on
          (
            s,
            gcm_unwrap crypto.aead s.tls.keys.decr_key s.tls.keys.decr_iv s.tls.decr_seq 0x16 frag,
          )
          λ plain s1.
            let t : Tls = record s1.tls { decr_seq = next_seq s1.tls.decr_seq } in
            go_on (record s1 { tls = t }, check_finished t plain)
              λ _ s2. (record s2 { fin_seen = true }, ok tt) in
      if s.ccs_seen then more else (s, err crypto_failed)

  -- A record of the loop of hs_process_rt2
  unfoldable pub rt2_record : (ct : ℕ) (frag : List ℕ) → Action Rt2 (Unit {0})
  unfolding is_change_cipher_spec on_finished
  rt2_record ct frag s =
      if ct == 0x14
      then (if is_change_cipher_spec frag
          then (record s { ccs_seen = true }, ok tt)
          else (s, err crypto_failed))
      else if ct == 0x16
      then on_finished frag s
      else (s, err crypto_failed)

  -- hs_process_rt2 behind its loop
  unfoldable pub rt2_read : Rt2 × Outcome (Unit {0}) → Tls × Outcome (Unit {0})
  rt2_read (s, ok _) =
      if s.ccs_seen && s.fin_seen
      then (record s.tls { established = true }, ok tt)
      else (s.tls, err crypto_failed)
  rt2_read (s, err x) = (s.tls, err x)
  rt2_read (s, fault) = (s.tls, fault)

  unfoldable pub hs_process_rt2 : (resp : List ℕ) → Action Tls (Unit {0})
  unfolding rt2_record rt2_read
  hs_process_rt2 resp t = rt2_read (
      each_record rt2_record (suc (length resp)) resp 0
        (record { tls = t; ccs_seen = false; fin_seen = false }))
