-- ===== src/Tls/Channel/Finish/Accepts.antt =====
-- The driver accepts what an honest server's last flight holds.
use verimark_linux_driver.Common.{
  ℕ, suc, ◌≡◌, refl, sym, ap, ◌∙◌, true, false, List, [], ◌∷◌, ◌++◌, length, ok, arith, copy,
  copy-skip, copy_all, bytes_eq_refl, go_on,
}
use mathlib.Core.List.{append-nil}
use verimark_linux_driver.Tls.Gcm.{gcm_wrap}
use verimark_linux_driver.Tls.Gcm.RoundTrip.{gcm_unwrap-gcm_wrap}
use verimark_linux_driver.Tls.Prf.{prf}
use verimark_linux_driver.Tls.Prf.Expansion.{length-prf}
use verimark_linux_driver.Tls.Crypto.{Crypto}
use verimark_linux_driver.Tls.Channel.{
  Tls, rec_write_plain, rec_plain, hs_bytes, each_record, next_seq,
}
use verimark_linux_driver.Tls.Channel.Records.{wire, Record, in_turn, each_record-append}
use verimark_linux_driver.Tls.Channel.Finish.{
  Rt2, is_finished, is_change_cipher_spec, check_finished, on_finished, rt2_record, rt2_read,
  hs_process_rt2, server_finished_label,
}

-- ChangeCipherSpec, and an encrypted record behind it
abbrev pub last_flight : (frag : List ℕ) → List ℕ
last_flight frag = rec_write_plain (rec_write_plain [] 0x14 (0x01 ∷ [])) 0x16 frag

module _ (crypto : Crypto) (t : Tls) (verify_data : List ℕ)
    (made : prf crypto.sha384 t.master_secret server_finished_label t.verify_digest 12
      ≡ ok verify_data) where
  length-verify_data : length verify_data ≡ 12
  length-verify_data =
      length-prf crypto.sha384 t.master_secret server_finished_label t.verify_digest 12 verify_data
        made

  check_finished-hs_bytes : check_finished crypto t (hs_bytes 0x14 verify_data) ≡ ok tt
  unfolding check_finished is_finished hs_bytes
  check_finished-hs_bytes =
      let size = length-verify_data in
      let four : List ℕ = 0x14 ∷ 0 ∷ 0 ∷ 12 ∷ [] in
      let cut : copy (four ++ verify_data) 4 12 ≡ ok verify_data =
        copy-skip four verify_data 4 4 12 refl (omega arith) ∙ copy_all verify_data 12 size in
      rw (size, made, cut, bytes_eq_refl verify_data) refl

  module _ (nonce frag : List ℕ) (nonce_size : length nonce ≡ 8)
      (wrapped : gcm_wrap crypto.aead t.keys.decr_key t.keys.decr_iv t.decr_seq 0x16 nonce
          (hs_bytes 0x14 verify_data)
        ≡ ok frag) where
    length-frag : length frag ≡ 40
    unfolding hs_bytes
    length-frag =
        let (size, opens) =
          gcm_unwrap-gcm_wrap crypto.aead t.keys.decr_key t.keys.decr_iv t.decr_seq 0x16 nonce
            (hs_bytes 0x14 verify_data) frag nonce_size wrapped in
        omega (arith, size, length-verify_data)

    on_finished-frag :
        on_finished crypto frag (record { tls = t; ccs_seen = true; fin_seen = false }) ≡ (
          record {
            tls = record t { decr_seq = next_seq t.decr_seq };
            ccs_seen = true;
            fin_seen = true;
          },
          ok tt,
        )
    unfolding on_finished check_finished
    on_finished-frag =
        rw
          (
            (gcm_unwrap-gcm_wrap crypto.aead t.keys.decr_key t.keys.decr_iv t.decr_seq 0x16 nonce
                (hs_bytes 0x14 verify_data) frag nonce_size wrapped).1,
            check_finished-hs_bytes,
          )
          refl

    hs_process_rt2-frag :
        hs_process_rt2 crypto (last_flight frag) t
        ≡ (record t { decr_seq = next_seq t.decr_seq; established = true }, ok tt)
    unfolding hs_process_rt2 in_turn rt2_record is_change_cipher_spec wire rec_write_plain rec_plain
        rt2_read
    hs_process_rt2-frag =
        let records : List Record = (0x14, 0x01 ∷ []) ∷ (0x16, frag) ∷ [] in
        let start : Rt2 = record { tls = t; ccs_seen = false; fin_seen = false } in
        let bytes : List ℕ = last_flight frag in
        let read : each_record (rt2_record crypto) (suc (length bytes)) bytes 0 start ≡ (
          record {
            tls = record t { decr_seq = next_seq t.decr_seq };
            ccs_seen = true;
            fin_seen = true;
          },
          ok tt,
        ) =
          ap (λ b. each_record (rt2_record crypto) (suc (length b)) b 0 start)
            (sym (append-nil bytes))
          ∙ each_record-append (rt2_record crypto) (suc (length (wire records))) [] records start
              (omega arith, (omega (arith, length-frag), tt)) (omega arith)
          ∙ ap (λ c. go_on c λ _ s. (s, ok tt)) on_finished-frag in
        ap (rt2_read crypto) read

-- The driver accepts an honest server's last flight: a ChangeCipherSpec, and a record that the channel's
-- incoming key, iv and number wrap, with a nonce of 8 bytes, from a Finished message with the 12
-- bytes that the master secret and the transcript's digest give. Reading it succeeds, establishes the
-- channel, counts the record, and changes nothing else.
pub hs_process_rt2-last_flight :
    (crypto : Crypto) (t : Tls) (verify_data nonce frag : List ℕ)
    → prf crypto.sha384 t.master_secret server_finished_label t.verify_digest 12 ≡ ok verify_data
    → length nonce ≡ 8
    → gcm_wrap crypto.aead t.keys.decr_key t.keys.decr_iv t.decr_seq 0x16 nonce
        (hs_bytes 0x14 verify_data)
      ≡ ok frag
    → hs_process_rt2 crypto (last_flight frag) t
      ≡ (record t { decr_seq = next_seq t.decr_seq; established = true }, ok tt)
hs_process_rt2-last_flight crypto t verify_data nonce frag made nonce_size wrapped =
    hs_process_rt2-frag crypto t verify_data made nonce frag nonce_size wrapped
