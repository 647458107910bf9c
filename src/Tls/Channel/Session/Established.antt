-- ===== src/Tls/Channel/Session/Established.antt =====
-- When the channel is established: only after the server's Finished was decrypted and compared.
use verimark_linux_driver.Common.{
  ℕ, suc, ◌≡◌, refl, sym, ap, ◌∙◌, Bool, true, false, not, ◌&&◌, List, ◌==◌, length, Outcome, ok,
  err, fault, fail_if, copy, arith, inl, inr, Bool-cases, if_true, if_false, if_elim, go_on_rel,
  >>=-eq-ok, bytes_eq-≡, crypto_failed, ==→eq,
}
use verimark_linux_driver.Tls.Gcm.{gcm_unwrap}
use verimark_linux_driver.Tls.Prf.{prf, Keys}
use verimark_linux_driver.Tls.Crypto.{Crypto}
use verimark_linux_driver.Tls.Channel.{Tls, record_at, each_record, next_seq}
use verimark_linux_driver.Tls.Channel.Records.{each_record_keeps}
use verimark_linux_driver.Tls.Channel.Finish.{
  Rt2, rt2_record, rt2_read, on_finished, check_finished, is_finished, is_change_cipher_spec,
  hs_process_rt2, server_finished_label,
}

-- A record of the reply that decrypts, under the channel's key, into a Finished message with the 12 bytes
-- that the master secret and the transcript's digest give.
pub record IsAuthenticated (crypto : Crypto) (keys : Keys)
    (master_secret verify_digest resp : List ℕ) : Type 0 where
  pub off : ℕ
  pub frag : List ℕ
  pub seq : ℕ
  pub plain : List ℕ
  pub verify_data : List ℕ
  pub in_reply : record_at resp off ≡ ok (0x16, frag)
  pub decrypted : gcm_unwrap crypto.aead keys.decr_key keys.decr_iv seq 0x16 frag ≡ ok plain
  pub is_finished_message : is_finished plain ≡ true
  pub expected :
      prf crypto.sha384 master_secret server_finished_label verify_digest 12 ≡ ok verify_data
  pub compared : copy plain 4 12 ≡ ok verify_data

pub bool_ne : ◌≡◌ {A = Bool} false true → ⊥
bool_ne h = cc

-- A record of the flight authenticates the server with the channel's secrets.
abbrev pub IsFinishedBy : Crypto → Tls → List ℕ → Type 0
IsFinishedBy crypto t resp = IsAuthenticated crypto t.keys t.master_secret t.verify_digest resp

-- What the loop keeps: the flag is set by a Finished message only.
record Kept (crypto : Crypto) (before : Bool) (resp : List ℕ) (s : Rt2) : Type 0 where
  established : s.tls.established ≡ before
  finished : s.fin_seen ≡ true → IsFinishedBy crypto s.tls resp

module _ (crypto : Crypto) where
  check_finished-eq-ok :
      (s : Tls) (plain : List ℕ) {u : Unit {0}}
      → check_finished crypto s plain ≡ ok u
      → (is_finished plain ≡ true)
        × ((verify_data : List ℕ) × (prf crypto.sha384 s.master_secret server_finished_label
                s.verify_digest 12
              ≡ ok verify_data)
            × (copy plain 4 12 ≡ ok verify_data))
  unfolding check_finished
  check_finished-eq-ok s plain h =
      let (u, form, h1) = >>=-eq-ok (fail_if (not (is_finished plain)) crypto_failed) _ h in
      let (expected, made, h2) =
        >>=-eq-ok (prf crypto.sha384 s.master_secret server_finished_label s.verify_digest 12) _
          h1 in
      let (got, cut, h3) = >>=-eq-ok (copy plain 4 12) _ h2 in
      (
        ground (arith, form),
        (expected, made, cut ∙ ap ok (bytes_eq-≡ got expected (ground (arith, h3)))),
      )

  module _ (before : Bool) (resp : List ℕ) where
    on_finished-Kept :
        (off : ℕ) (frag : List ℕ) (s : Rt2)
        → record_at resp off ≡ ok (0x16, frag)
        → Kept crypto before resp s
        → Kept crypto before resp (on_finished crypto frag s).0
    unfolding on_finished
    on_finished-Kept off frag s found k =
        if_elim (λ (r : Rt2 × Outcome (Unit {0})). Kept crypto before resp r.0) s.ccs_seen
          (λ _.
            go_on_rel (λ _ u. Kept crypto before resp u) s
              (
                s,
                gcm_unwrap crypto.aead s.tls.keys.decr_key s.tls.keys.decr_iv s.tls.decr_seq 0x16
                    frag,
              )
              _ k
              λ plain opened _.
                let s1 : Rt2 = record s {
                  tls = record s.tls { decr_seq = next_seq s.tls.decr_seq };
                } in
                let k1 : Kept crypto before resp s1 = record {
                  established = k.established;
                  finished = k.finished;
                } in
                go_on_rel (λ _ u. Kept crypto before resp u) s
                  (s1, check_finished crypto s1.tls plain) _ k1
                  λ u checked _.
                    let (form, (verify_data, made, cut)) =
                      check_finished-eq-ok s1.tls plain checked in
                    record {
                      established = k.established;
                      finished = λ _. record {
                        off = off;
                        frag = frag;
                        seq = s.tls.decr_seq;
                        plain = plain;
                        verify_data = verify_data;
                        in_reply = found;
                        decrypted = opened;
                        is_finished_message = form;
                        expected = made;
                        compared = cut;
                      };
                    })
          (λ _. k)

    rt2_record-Kept :
        (off ct : ℕ) (frag : List ℕ) (s : Rt2)
        → record_at resp off ≡ ok (ct, frag)
        → Kept crypto before resp s
        → Kept crypto before resp (rt2_record crypto ct frag s).0
    unfolding rt2_record
    rt2_record-Kept off ct frag s found k =
        let P : Rt2 × Outcome (Unit {0}) → Type 0 = λ r. Kept crypto before resp r.0 in
        if_elim P (ct == 0x14)
          (λ _.
            if_elim P (is_change_cipher_spec frag)
              (λ _. record { established = k.established; finished = k.finished }) (λ _. k))
          (λ _.
            if_elim P (ct == 0x16)
              (λ is16.
                let e : ct ≡ 0x16 = ==→eq ct 0x16 is16 in
                on_finished-Kept off frag s (found ∙ ap (λ c. ok (c, frag)) e) k)
              (λ _. k))

    rt2_read-Kept :
        (end : Rt2 × Outcome (Unit {0}))
        → Kept crypto before resp end.0
        → before ≡ false
        → (rt2_read crypto end).0.established ≡ true
        → ((rt2_read crypto end).1 ≡ ok tt) × IsFinishedBy crypto (rt2_read crypto end).0 resp
    unfolding rt2_read
    rt2_read-Kept (s, ok _) k e h = elim (Bool-cases (s.ccs_seen && s.fin_seen)) [
      | inl both ↦
          rw
            (if_true {A = Tls × Outcome (Unit {0})} (record s.tls { established = true }, ok tt)
              (s.tls, err crypto_failed) both)
            (refl, k.finished (ground (arith, both)))
      | inr not_both ↦ absurd (
          bool_ne (
            sym (k.established ∙ e)
            ∙ sym (
                ap (λ (r : Tls × Outcome (Unit {0})). r.0.established)
                  (if_false {A = Tls × Outcome (Unit {0})}
                    (record s.tls { established = true }, ok tt) (s.tls, err crypto_failed)
                    not_both))
            ∙ h))
    ]
    rt2_read-Kept (s, err x) k e h = absurd (bool_ne (sym (k.established ∙ e) ∙ h))
    rt2_read-Kept (s, fault) k e h = absurd (bool_ne (sym (k.established ∙ e) ∙ h))

-- Reading the server's last flight establishes the channel only if it returns success, and if a record of the
-- flight decrypts under the channel's key into a Finished message with the 12 bytes that the
-- master secret and the transcript's digest give.
pub hs_process_rt2-IsFinishedBy :
    (crypto : Crypto) (t : Tls) (resp : List ℕ)
    → t.established ≡ false
    → (hs_process_rt2 crypto resp t).0.established ≡ true
    → ((hs_process_rt2 crypto resp t).1 ≡ ok tt)
      × IsFinishedBy crypto (hs_process_rt2 crypto resp t).0 resp
unfolding hs_process_rt2
hs_process_rt2-IsFinishedBy crypto t resp e h =
    let start : Rt2 = record { tls = t; ccs_seen = false; fin_seen = false } in
    rt2_read-Kept crypto t.established resp
      (each_record (rt2_record crypto) (suc (length resp)) resp 0 start)
      (each_record_keeps (Kept crypto t.established resp) (rt2_record crypto) (suc (length resp))
        resp 0 start (rt2_record-Kept crypto t.established resp)
        (record { established = refl; finished = λ f. cc }))
      e h
