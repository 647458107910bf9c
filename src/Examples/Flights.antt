-- ===== src/Examples/Flights.antt =====
-- The properties of the handshake's flights at concrete inputs.
use verimark_linux_driver.Common.{
  zero, suc, copy, Action, ℕ, ◌≡◌, refl, List, [], ◌∷◌, ◌++◌, ok, replicate, arith, take, drop,
}
use verimark_linux_driver.Tls.Gcm.{gcm_wrap}
use verimark_linux_driver.Tls.Prf.{prf, prf_loop, derive_master_secret, derive_keys}
use verimark_linux_driver.Tls.Channel.{tls_new, hs_bytes}
use verimark_linux_driver.Tls.Channel.Records.{Record, wire}
use verimark_linux_driver.Tls.Channel.Hello.{hs_process_rt1}
use verimark_linux_driver.Tls.Channel.Hello.Messages.{messages, IsMessage, in_records}
use verimark_linux_driver.Tls.Channel.Hello.Accepts.{
  Middle, certificate, certificate_request, middle_message, IsSigning, ending, first_flight,
  hs_process_rt1-first_flight,
}
use verimark_linux_driver.Tls.Channel.Finish.Accepts.{last_flight}
use verimark_linux_driver.Tls.Channel.Finish.Sends.{Secrets, plain_messages}
use verimark_linux_driver.Tls.Channel.Session.Server.{
  FirstFlight, greeted, ServerSecrets, on_the_wire, LastFlight,
}
use verimark_linux_driver.Common.{All}
use mathlib.Core.List.{Memᴰ}
use verimark_linux_driver.Tls.Channel.{Tls, zero_cert, hs_msg}
use verimark_linux_driver.Tls.Channel.Hello.{hs_build_client_hello}
use verimark_linux_driver.Tls.Crypto.{pub_from_priv, ecdh_premaster, ecdsa_sign_prehashed}
use verimark_linux_driver.Examples.Channel.{toy, draws, seven_keys, paired_tls}

-- A Certificate of two bytes, and a CertificateRequest.
abbrev middles : List Middle
middles = certificate (0xaa ∷ 0xbb ∷ []) ∷ certificate_request (1 ∷ 64 ∷ []) [] ∷ []

abbrev flight : List Record
flight = first_flight 0x03 0x83 (replicate 32 9) [] (0 ∷ []) middles

-- The flight's bytes: the cut is inside the ServerHello.
abbrev flight_bytes : List ℕ
flight_bytes =
    0x02
    ∷ 0
    ∷ 0
    ∷ 38
    ∷ 0x03
    ∷ 0x83
    ∷ (replicate 32 9
        ++ (0 ∷ 0xc0 ∷ 0x2e ∷ 0 ∷ 0x0b ∷ 0 ∷ 0 ∷ 2 ∷ 0xaa ∷ 0xbb ∷ 0x0d ∷ 0 ∷ 0 ∷ 3 ∷ 2 ∷ 1 ∷ 64
            ∷ 0x0e ∷ 0 ∷ 0 ∷ 0 ∷ []))

abbrev frags : List (List ℕ)
frags = take 10 flight_bytes ∷ drop 10 flight_bytes ∷ []

flight_written : flight_bytes ≡ messages flight
unfolding messages hs_bytes ending middle_message
flight_written = refl

middles-IsSigning : All IsSigning middles
unfolding IsSigning
middles-IsSigning = (tt, (Memᴰ.tail (Memᴰ.head refl), tt))

flight_sized : All IsMessage flight
unfolding ending middle_message
flight_sized = (omega arith, (omega arith, (omega arith, (omega arith, tt))))

hs_process_rt1-first_flight_example :
    hs_process_rt1 (wire (in_records frags)) tls_new
    ≡ (record tls_new { server_random = replicate 32 9; transcript = flight_bytes }, ok tt)
hs_process_rt1-first_flight_example =
    hs_process_rt1-first_flight tls_new 0x03 0x83 (replicate 32 9) [] (0 ∷ []) middles frags refl
      (omega arith) middles-IsSigning flight_sized (omega arith, (omega arith, tt)) flight_written

-- The Finished record that the toy digest and the toy encryption make
abbrev finished_frag : List ℕ
finished_frag = replicate 8 8 ++ (0x14 ∷ 0 ∷ 0 ∷ 12 ∷ (replicate 12 7 ++ replicate 16 0))

-- The ClientHello is hashed, and the server's flight behind it.
abbrev honest_flight : FirstFlight
honest_flight = record {
  major = 0x03;
  minor = 0x83;
  random = replicate 32 9;
  session = [];
  tail = 0 ∷ [];
  middles = middles;
  frags = frags;
  random_size = refl;
  tail_size = omega arith;
  signing = middles-IsSigning;
  sized = flight_sized;
  short = (omega arith, (omega arith, tt));
  cut = flight_written;
}

-- The channel of a driver that knows the sensor's certificate
abbrev certified_tls : Tls
certified_tls = record paired_tls {
  pd = record paired_tls.pd {
    sensor_cert = record zero_cert { pub_x = replicate 32 2; pub_y = replicate 32 3 };
  };
}

abbrev server_tls : Tls
server_tls = greeted 1000 (replicate 28 3) honest_flight certified_tls

abbrev made_keys : Secrets toy draws server_tls
unfolding pub_from_priv ecdsa_sign_prehashed ecdh_premaster derive_master_secret derive_keys prf
    prf_loop gcm_wrap copy hs_bytes
made_keys = record {
  x = replicate 32 2;
  y = replicate 32 3;
  sig = 0x30 ∷ [];
  premaster = replicate 32 4;
  master_secret = replicate 48 7;
  keys = seven_keys;
  verify_data = replicate 12 7;
  frag = replicate 8 6 ++ (0x14 ∷ 0 ∷ 0 ∷ 12 ∷ (replicate 12 7 ++ replicate 16 0));
  key_drawn = refl;
  signed = refl;
  shared = refl;
  master_made = refl;
  keys_made = refl;
  verify_made = refl;
  wrapped = refl;
}

-- The server's private key is of no account to the toy curve.
abbrev own_secrets : ServerSecrets toy server_tls (replicate 32 2) (replicate 32 3)
unfolding derive_master_secret derive_keys prf prf_loop copy hs_build_client_hello hs_msg
own_secrets = record {
  priv = replicate 32 9;
  premaster = replicate 32 4;
  master_secret = replicate 48 7;
  keys = seven_keys;
  own_key = refl;
  shared = refl;
  master_made = refl;
  keys_made = refl;
}

-- What went over the wire
abbrev hashed : List ℕ
hashed =
    on_the_wire (hs_build_client_hello 1000 (replicate 28 3) certified_tls).1
      (plain_messages toy draws server_tls made_keys) honest_flight

abbrev finished : LastFlight toy (replicate 48 7) seven_keys hashed
unfolding prf prf_loop gcm_wrap hs_bytes
finished = record {
  verify_data = replicate 12 7;
  nonce = replicate 8 8;
  frag = finished_frag;
  nonce_size = refl;
  verify_made = refl;
  wrapped = refl;
}

abbrev honest : List ℕ → Action ℕ (List ℕ)
honest request zero = (1, ok (wire (in_records frags)))
honest request (suc n) = (2, ok (last_flight finished_frag))
