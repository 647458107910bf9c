-- ===== src/Examples/Channel.antt =====
-- The properties of the key derivation, the handshake and the channel at concrete inputs.
use verimark_linux_driver.Common.{
  ℕ, zero, suc, ◌≡◌, ◌≢◌, refl, true, Option, some, List, [], ◌∷◌, ◌++◌, length, map, ok, fault,
  replicate, arith, Action, take, All, read, copy, bytes_eq,
}
use verimark_linux_driver.Tls.Channel.Hello.{
  hs_build_client_hello, client_hello_body, hs_process_rt1, rt1_record, rt1_split, rt1_read,
  rt1_messages, message_at, rt1_message, rt1_switch, on_server_hello, check_suite,
  check_certificate_request, has_ecdsa,
}
use verimark_linux_driver.Tls.Channel.Finish.{
  hs_build_rt2, certificate_body, build_verify, build_keyed, build_finished, hs_process_rt2,
  rt2_record, rt2_read, on_finished, check_finished, is_finished, is_change_cipher_spec, Draws,
}
use verimark_linux_driver.Tls.Gcm.{gcm_wrap, gcm_unwrap}
use verimark_linux_driver.Examples.Gcm.{copied}
use verimark_linux_driver.Tls.Prf.{
  Hmac, Keys, prf, prf_loop, derive_master_secret, derive_keys, key_expansion_label,
}
use verimark_linux_driver.Tls.Prf.Expansion.{p_hash, prf-p_hash}
use verimark_linux_driver.Tls.Prf.KeyBlock.{IsKeys, derive_keys-prf}
use verimark_linux_driver.Tls.Crypto.{Crypto, pub_from_priv, ecdh_premaster, ecdsa_sign_prehashed}
use verimark_linux_driver.Tls.Channel.{
  Tls, tls_new, rec_plain, rec_write_plain, hs_msg, hs_bytes, each_record, record_at,
}
use verimark_linux_driver.Tls.Channel.Session.{handshake, unwrap}
use verimark_linux_driver.Tls.Channel.Session.Agreed.{IsAgreed, handshake-IsAgreed}
use verimark_linux_driver.Tls.Channel.Session.Safety.{handshake-safe, unwrap-safe}
use verimark_linux_driver.Tls.Channel.Fifo.{Op, send, receive, IsSendable, run_line, replay}
use verimark_linux_driver.Tls.Channel.Fifo.Refines.{run_line-replay}

pub length-sevens :
    (code : List ℕ)
    → ◌≡◌ {A = Option (List ℕ)} (some (replicate 48 7)) (some code)
    → length code ≡ 48
length-sevens code h = ground (arith, h)

-- A digest of 48 bytes with the interface's laws, the same for all messages.
abbrev pub sevens : Hmac
sevens = record {
  size = 48;
  size_pos = omega arith;
  mac = λ key msg. some (replicate 48 7);
  length-mac = λ key msg code h. length-sevens code h;
}

abbrev pub toy : Crypto
toy = record {
  aead = copied;
  sha384 = sevens;
  sha256 = sevens;
  digest = λ bytes. replicate 32 1;
  on_curve = λ x y. true;
  mul_base = λ scalar. some (replicate 32 2, replicate 32 3);
  ecdh = λ scalar x y. some (replicate 32 4);
  ecdsa = λ draw scalar hash. some (0x30 ∷ []);
}

abbrev pub draws : Draws
draws = record { eph_priv = replicate 32 5; signing = []; nonce = replicate 8 6 }

-- ServerHello, CertificateRequest and ServerHelloDone in one record.
abbrev flight1 : List ℕ
flight1 =
    0x16
    ∷ 0x03
    ∷ 0x03
    ∷ 0
    ∷ 52
    ∷ (0x02
        ∷ 0
        ∷ 0
        ∷ 38
        ∷ 0x03
        ∷ 0x83
        ∷ (replicate 32 9
            ++ (0 ∷ 0xc0 ∷ 0x2e ∷ 0 ∷ 0x0d ∷ 0 ∷ 0 ∷ 2 ∷ 1 ∷ 64 ∷ 0x0e ∷ 0 ∷ 0 ∷ 0 ∷ [])))

-- ChangeCipherSpec, and the Finished message that the toy digest makes.
abbrev flight2 : List ℕ
flight2 =
    0x14
    ∷ 0x03
    ∷ 0x03
    ∷ 0
    ∷ 1
    ∷ 0x01
    ∷ 0x16
    ∷ 0x03
    ∷ 0x03
    ∷ 0
    ∷ 40
    ∷ (replicate 8 8 ++ (0x14 ∷ 0 ∷ 0 ∷ 12 ∷ (replicate 12 7 ++ replicate 16 0)))

-- A server that answers the first request with one flight, and any other with the other.
abbrev pub server : List ℕ → Action ℕ (List ℕ)
server request zero = (1, ok flight1)
server request (suc n) = (2, ok flight2)

abbrev pub paired_tls : Tls
paired_tls = record tls_new { have_pairing = true }

established :
    (handshake toy server 1000 (replicate 28 3) draws (paired_tls, 0)).0.0.established ≡ true
unfolding handshake hs_build_client_hello hs_msg hs_bytes rec_plain rec_write_plain
    client_hello_body each_record record_at hs_process_rt1 rt1_record rt1_split rt1_read
    rt1_messages message_at rt1_message rt1_switch on_server_hello check_suite
    check_certificate_request has_ecdsa hs_build_rt2 certificate_body build_verify build_keyed
    build_finished hs_process_rt2 rt2_record rt2_read on_finished check_finished is_finished
    is_change_cipher_spec read copy bytes_eq prf prf_loop derive_keys derive_master_secret gcm_wrap
    gcm_unwrap pub_from_priv ecdh_premaster ecdsa_sign_prehashed
established = refl

prf-p_hash_example :
    prf sevens (1 ∷ []) key_expansion_label (2 ∷ []) 72
    ≡ ok (take 72 (p_hash (λ key msg. replicate 48 7) (1 ∷ []) key_expansion_label (2 ∷ []) 2))
prf-p_hash_example =
    prf-p_hash sevens (λ key msg. replicate 48 7) (λ key msg. refl) (1 ∷ []) key_expansion_label
      (2 ∷ []) 72 2 (omega arith)

abbrev pub seven_keys : Keys
seven_keys = record {
  encr_key = replicate 32 7;
  decr_key = replicate 32 7;
  encr_iv = replicate 4 7;
  decr_iv = replicate 4 7;
}

derived : derive_keys sevens (1 ∷ []) (2 ∷ []) (3 ∷ []) ≡ ok seven_keys
unfolding derive_keys prf prf_loop copy
derived = refl

derive_keys-prf_example :
    (prf sevens (1 ∷ []) key_expansion_label (2 ∷ 3 ∷ []) 72
      ≡ ok (replicate 32 7 ++ (replicate 32 7 ++ (replicate 4 7 ++ replicate 4 7))))
    × IsKeys seven_keys
derive_keys-prf_example = derive_keys-prf sevens (1 ∷ []) (2 ∷ []) (3 ∷ []) seven_keys derived

handshake-IsAgreed_example :
    IsAgreed toy server
      (hs_build_client_hello 1000 (replicate 28 3) paired_tls).1
      0
      (handshake toy server 1000 (replicate 28 3) draws (paired_tls, 0))
handshake-IsAgreed_example =
    handshake-IsAgreed toy server 1000 (replicate 28 3) draws paired_tls 0 refl established

server-safe : (request : List ℕ) (n : ℕ) → (server request n).1 ≢ fault
server-safe request zero = λ e. cc
server-safe request (suc n) = λ e. cc

handshake-safe_example :
    (handshake toy server 1000 (replicate 28 3) draws (paired_tls, 0)).1 ≢ fault
handshake-safe_example =
    handshake-safe toy server 1000 (replicate 28 3) draws paired_tls 0 server-safe

-- Two ends with one key for each direction.
abbrev pub driver_end : Tls
driver_end = record tls_new {
  established = true;
  keys = record seven_keys { decr_key = replicate 32 8 };
  encr_seq = 41;
  decr_seq = 7;
}

abbrev pub sensor_end : Tls
sensor_end = record tls_new {
  established = true;
  keys = record seven_keys { encr_key = replicate 32 8 };
  encr_seq = 7;
  decr_seq = 41;
}

unwrap-safe_example : (unwrap toy flight1 driver_end).1 ≢ fault
unwrap-safe_example = unwrap-safe toy flight1 driver_end

-- Two messages arrive together, and one behind them alone.
abbrev calls : List Op
calls =
    send (replicate 8 1) (0xa0 ∷ 0xa1 ∷ [])
    ∷ send (replicate 8 2) (0xb0 ∷ [])
    ∷ receive 2
    ∷ send (replicate 8 3) []
    ∷ receive 1
    ∷ []

calls-IsSendable : All IsSendable calls
unfolding IsSendable
calls-IsSendable =
    ((refl, omega arith), ((refl, omega arith), (tt, ((refl, omega arith), (tt, tt)))))

run_line-replay_example :
    run_line toy calls (record { sender = driver_end; receiver = sensor_end; packets = [] })
    ≡ map ok (replay calls [])
run_line-replay_example =
    run_line-replay toy driver_end sensor_end calls
      (λ key iv aad plain. ((plain, replicate 16 0), refl))
      (record { sends = refl; receives = refl; same_key = refl; same_iv = refl }) refl
      calls-IsSendable
