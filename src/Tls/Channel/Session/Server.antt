-- ===== src/Tls/Channel/Session/Server.antt =====
-- An honest server: what it sends, what it derives from its own private key, and that these are the driver's secrets.
use verimark_linux_driver.Common.{
  some, none, drop, not, ◌==◌, fail_if, crypto_failed, >>=-eq-ok, ok_eq, sym, ap, ℕ, ◌≤◌, ◌≡◌, ◌∙◌,
  List, ◌++◌, length, ok, All, joined,
}
use verimark_linux_driver.Tls.Gcm.{gcm_wrap, gcm_unwrap}
use verimark_linux_driver.Tls.Prf.{Keys, prf, derive_master_secret, derive_keys, openssl}
use verimark_linux_driver.Tls.Crypto.{Crypto, pub_from_priv, ecdh_premaster}
use verimark_linux_driver.Tls.Channel.{Tls, hs_bytes}
use verimark_linux_driver.Tls.Channel.Records.{IsShort}
use verimark_linux_driver.Tls.Channel.Hello.{hs_build_client_hello}
use mathlib.Core.Option.{Option}
use verimark_linux_driver.Tls.Channel.Hello.Messages.{messages, IsMessage, in_records}
use verimark_linux_driver.Tls.Channel.Hello.Accepts.{Middle, IsSigning, first_flight}
use verimark_linux_driver.Tls.Channel.Finish.{Draws, client_finished_label, server_finished_label}
use verimark_linux_driver.Tls.Channel.Finish.Sends.{Secrets}

-- A first flight that an honest server may send
pub record FirstFlight : Type 0 where
  pub major : ℕ
  pub minor : ℕ
  pub random : List ℕ
  pub session : List ℕ
  pub tail : List ℕ
  pub middles : List Middle
  pub frags : List (List ℕ)
  pub random_size : length random ≡ 32
  pub tail_size : 1 ≤ length tail
  pub signing : All IsSigning middles
  pub sized : All IsMessage (first_flight major minor random session tail middles)
  pub short : All IsShort (in_records frags)
  pub cut : joined frags ≡ messages (first_flight major minor random session tail middles)

-- The channel behind the first round trip
abbrev pub greeted : (now : ℕ) (random : List ℕ) → FirstFlight → Tls → Tls
greeted now random server t =
    let hello = (hs_build_client_hello now random t).0 in
    record hello {
      server_random = server.random;
      transcript = hello.transcript ++ joined server.frags;
    }

-- What a server with the sensor's private key derives from the driver's point (x, y): its premaster secret, and all
-- that follows from it.
pub record ServerSecrets (crypto : Crypto) (t : Tls) (x y : List ℕ) : Type 0 where
  pub priv : List ℕ
  pub premaster : List ℕ
  pub master_secret : List ℕ
  pub keys : Keys
  pub own_key : crypto.mul_base priv ≡ some (t.pd.sensor_cert.pub_x, t.pd.sensor_cert.pub_y)
  pub shared : crypto.ecdh priv x y ≡ some premaster
  pub master_made :
      derive_master_secret crypto.sha384 premaster t.client_random t.server_random
      ≡ ok master_secret
  pub keys_made : derive_keys crypto.sha384 master_secret t.client_random t.server_random ≡ ok keys

-- The handshake messages that went over the wire: ClientHello, out of its record, the server's flight, and the
-- messages of the driver's flight that are not encrypted.
abbrev pub on_the_wire : (request plain : List ℕ) → FirstFlight → List ℕ
on_the_wire request plain server = drop 5 request ++ (joined server.frags ++ plain)

-- The server's Finished, under its own secrets: it writes with the keys that the driver reads with.
pub record LastFlight (crypto : Crypto) (master_secret : List ℕ) (keys : Keys) (hashed : List ℕ)
    : Type 0 where
  pub verify_data : List ℕ
  pub nonce : List ℕ
  pub frag : List ℕ
  pub nonce_size : length nonce ≡ 8
  pub verify_made :
      prf crypto.sha384 master_secret server_finished_label (crypto.digest hashed) 12
      ≡ ok verify_data
  pub wrapped :
      gcm_wrap crypto.aead keys.decr_key keys.decr_iv 0 0x16 nonce (hs_bytes 0x14 verify_data)
      ≡ ok frag

-- ECDH does not depend on the side.
abbrev pub IsSymmetric : Crypto → Type 0
IsSymmetric crypto =
    (a b ax ay bx by : List ℕ)
    → crypto.mul_base a ≡ some (ax, ay)
    → crypto.mul_base b ≡ some (bx, by)
    → crypto.ecdh a bx by ≡ crypto.ecdh b ax ay

-- The server opens the driver's Finished with its own keys, and finds the bytes that its own master secret gives.
pub record Accepted (crypto : Crypto) (master_secret : List ℕ) (keys : Keys) (hashed frag : List ℕ)
    : Type 0 where
  pub verify_data : List ℕ
  pub opened :
      gcm_unwrap crypto.aead keys.encr_key keys.encr_iv 0 0x16 frag ≡ ok (hs_bytes 0x14 verify_data)
  pub expected :
      prf crypto.sha384 master_secret client_finished_label (crypto.digest hashed) 12
      ≡ ok verify_data

-- The driver's secrets are the server's.
pub record Agreed (crypto : Crypto) (draws : Draws) (t : Tls) (made : Secrets crypto draws t)
    (own : ServerSecrets crypto t made.x made.y) : Type 0 where
  pub same_master : made.master_secret ≡ own.master_secret
  pub same_keys : made.keys ≡ own.keys

some_eq : {A : Type 0} {a b : A} → ◌≡◌ {A = Option A} (some a) (some b) → a ≡ b
some_eq h = cc

openssl-some : {A : Type 0} (o : Option A) (a : A) → openssl o ≡ ok a → o ≡ some a
openssl-some none a h = cc
openssl-some (some b) a h = ap some (ok_eq _ _ h)

ecdh_premaster-some :
    (crypto : Crypto) (eph_priv x y premaster : List ℕ)
    → ecdh_premaster crypto eph_priv x y ≡ ok premaster
    → crypto.ecdh eph_priv x y ≡ some premaster
unfolding ecdh_premaster
ecdh_premaster-some crypto eph_priv x y premaster h =
    let (u, on, h1) = >>=-eq-ok (fail_if (not (crypto.on_curve x y)) crypto_failed) _ h in
    let (p, made, h2) = >>=-eq-ok (openssl (crypto.ecdh eph_priv x y)) _ h1 in
    let (v, sized, h3) = >>=-eq-ok (fail_if (not (length p == 32)) crypto_failed) _ h2 in
    openssl-some (crypto.ecdh eph_priv x y) p made ∙ ap some (ok_eq _ _ h3)

pub Secrets-Agreed :
    (crypto : Crypto) (draws : Draws) (t : Tls) (made : Secrets crypto draws t)
    (own : ServerSecrets crypto t made.x made.y)
    → IsSymmetric crypto
    → Agreed crypto draws t made own
unfolding pub_from_priv
Secrets-Agreed crypto draws t made own symmetric =
    let driver_point : crypto.mul_base draws.eph_priv ≡ some (made.x, made.y) =
      openssl-some (crypto.mul_base draws.eph_priv) (made.x, made.y) made.key_drawn in
    let both : crypto.ecdh draws.eph_priv t.pd.sensor_cert.pub_x t.pd.sensor_cert.pub_y
        ≡ crypto.ecdh own.priv made.x made.y =
      symmetric draws.eph_priv own.priv made.x made.y t.pd.sensor_cert.pub_x t.pd.sensor_cert.pub_y
        driver_point own.own_key in
    let premaster : made.premaster ≡ own.premaster = some_eq (
      sym (
        ecdh_premaster-some crypto draws.eph_priv t.pd.sensor_cert.pub_x t.pd.sensor_cert.pub_y
          made.premaster made.shared)
      ∙ both
      ∙ own.shared) in
    let master : made.master_secret ≡ own.master_secret =
      ok_eq _ _ (sym made.master_made ∙ rw premaster own.master_made) in
    record {
      same_master = master;
      same_keys = ok_eq _ _ (sym made.keys_made ∙ rw master own.keys_made);
    }
