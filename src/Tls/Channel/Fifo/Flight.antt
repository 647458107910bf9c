-- ===== src/Tls/Channel/Fifo/Flight.antt =====
-- Records in flight between the ends of a channel.
use verimark_linux_driver.Common.{
  ℕ, zero, suc, ◌+◌, ◌^◌, ◌<◌, ◌≡◌, refl, sym, ap, ◌∙◌, true, List, [], ◌∷◌, ◌++◌, length, ok, take,
  drop, joined, All, arith, if_true,
}
use mathlib.Core.List.{append_assoc, append-nil}
use verimark_linux_driver.Tls.Gcm.{Aead, gcm_wrap}
use verimark_linux_driver.Tls.Gcm.RoundTrip.{gcm_unwrap-gcm_wrap}
use verimark_linux_driver.Tls.Crypto.{Crypto}
use verimark_linux_driver.Tls.Channel.{Tls, rec_plain, each_record, next_seq}
use verimark_linux_driver.Tls.Channel.Records.{
  Record, wire, IsShort, in_turn, length-wire, each_record-append,
}
use verimark_linux_driver.Tls.Channel.Session.{ct_appdata, unwrap, unwrap_record, unwrap_read}

module _ (aead : Aead) (key iv : List ℕ) where
  -- A packet holds a message, wrapped with the sequence number.
  pub record Sealed (seq : ℕ) (packet plain : List ℕ) : Type 0 where
    pub nonce : List ℕ
    pub frag : List ℕ
    pub nonce_size : length nonce ≡ 8
    pub short : length plain + 24 < 2 ^ 16
    pub wrapped : gcm_wrap aead key iv seq ct_appdata nonce plain ≡ ok frag
    pub written : packet ≡ rec_plain ct_appdata frag

  -- Packets of consecutive numbers, up to the number that comes next.
  unfoldable pub InFlight : (seq : ℕ) (packets queue : List (List ℕ)) (next : ℕ) → Type 0
  InFlight seq [] [] next = seq ≡ next
  InFlight seq [] (m ∷ ms) next = ⊥
  InFlight seq (p ∷ ps) [] next = ⊥
  InFlight seq (p ∷ ps) (m ∷ ms) next = Sealed seq p m × InFlight (next_seq seq) ps ms next

  pub InFlight-append :
      (seq : ℕ) (ps ms : List (List ℕ)) (next : ℕ) (p m : List ℕ)
      → InFlight seq ps ms next
      → Sealed next p m
      → InFlight seq (ps ++ p ∷ []) (ms ++ m ∷ []) (next_seq next)
  unfolding InFlight
  InFlight-append seq [] [] next p m h s = (rw h s, rw h refl)
  InFlight-append seq [] (_ ∷ _) next p m h s = absurd h
  InFlight-append seq (_ ∷ _) [] next p m h s = absurd h
  InFlight-append seq (q ∷ ps) (n ∷ ms) next p m h s =
      (h.0, InFlight-append (next_seq seq) ps ms next p m h.1 s)

  -- The first packets, and the rest.
  pub InFlight-split :
      (n seq : ℕ) (ps ms : List (List ℕ)) (next : ℕ)
      → InFlight seq ps ms next
      → (mid : ℕ) × InFlight seq (take n ps) (take n ms) mid
        × InFlight mid (drop n ps) (drop n ms) next
  unfolding InFlight
  InFlight-split zero seq ps ms next h = (seq, refl, h)
  InFlight-split (suc n) seq [] [] next h = (seq, refl, h)
  InFlight-split (suc n) seq [] (_ ∷ _) next h = absurd h
  InFlight-split (suc n) seq (_ ∷ _) [] next h = absurd h
  InFlight-split (suc n) seq (p ∷ ps) (m ∷ ms) next h =
      let (mid, front, back) = InFlight-split n (next_seq seq) ps ms next h.1 in
      (mid, (h.0, front), back)

-- What a channel makes of packets in flight to it.
record Arrives (crypto : Crypto) (t : Tls) (out : List ℕ) (ps ms : List (List ℕ)) (next : ℕ)
    : Type 0 where
  records : List Record
  on_wire : joined ps ≡ wire records
  short : All IsShort records
  read_as :
      in_turn (unwrap_record crypto) records (t, out)
      ≡ ((record t { decr_seq = next }, out ++ joined ms), ok tt)

module _ (crypto : Crypto) where
  unwrap_record-gcm_wrap :
      (t : Tls) (out nonce plain frag : List ℕ)
      → length nonce ≡ 8
      → gcm_wrap crypto.aead t.keys.decr_key t.keys.decr_iv t.decr_seq ct_appdata nonce plain
        ≡ ok frag
      → unwrap_record crypto ct_appdata frag (t, out)
        ≡ ((record t { decr_seq = next_seq t.decr_seq }, out ++ plain), ok tt)
  unfolding unwrap_record
  unwrap_record-gcm_wrap t out nonce plain frag hn h =
      rw
        ((gcm_unwrap-gcm_wrap crypto.aead t.keys.decr_key t.keys.decr_iv t.decr_seq ct_appdata nonce
          plain frag hn h).1)
        refl

  InFlight-Arrives :
      (t : Tls) (out : List ℕ) (ps ms : List (List ℕ)) (next : ℕ)
      → InFlight crypto.aead t.keys.decr_key t.keys.decr_iv t.decr_seq ps ms next
      → Arrives crypto t out ps ms next
  unfolding InFlight in_turn wire
  InFlight-Arrives t out [] [] next h = record {
    records = [];
    on_wire = refl;
    short = tt;
    read_as = rw⁻¹ h (ap (λ k. ((t, k), ok tt)) (sym (append-nil out)));
  }
  InFlight-Arrives t out [] (_ ∷ _) next h = absurd h
  InFlight-Arrives t out (_ ∷ _) [] next h = absurd h
  InFlight-Arrives t out (p ∷ ps) (m ∷ ms) next h =
      let (s, behind) = h in
      let t1 : Tls = record t { decr_seq = next_seq t.decr_seq } in
      let a = InFlight-Arrives t1 (out ++ m) ps ms next behind in
      record {
        records = (ct_appdata, s.frag) ∷ a.records;
        on_wire = rw (s.written, a.on_wire) refl;
        short = (
          omega (
            arith,
            (gcm_unwrap-gcm_wrap crypto.aead t.keys.decr_key t.keys.decr_iv t.decr_seq ct_appdata
                s.nonce m s.frag s.nonce_size s.wrapped).0,
            s.short,
          ),
          a.short,
        );
        read_as = rw (unwrap_record-gcm_wrap t out s.nonce m s.frag s.nonce_size s.wrapped) (
            a.read_as
            ∙ ap (λ k. ((record t { decr_seq = next }, k), ok tt))
                (append_assoc out m (joined ms)));
      }

  -- The packets that arrive together are unwrapped into their messages, one after another.
  pub unwrap-InFlight :
      (t : Tls) (ps ms : List (List ℕ)) (next : ℕ)
      → t.established ≡ true
      → InFlight crypto.aead t.keys.decr_key t.keys.decr_iv t.decr_seq ps ms next
      → unwrap crypto (joined ps) t ≡ (record t { decr_seq = next }, ok (joined ms))
  unfolding unwrap unwrap_read
  unwrap-InFlight t ps ms next e h =
      let a = InFlight-Arrives t [] ps ms next h in
      let bytes : List ℕ = joined ps in
      let enough = length-wire a.records in
      let whole : each_record (unwrap_record crypto) (suc (length bytes)) bytes 0 (t, [])
          ≡ ((record t { decr_seq = next }, joined ms), ok tt) =
        rw (a.on_wire) (
          each_record-append (unwrap_record crypto) (suc (length (wire a.records))) [] a.records
            (t, []) a.short (omega (arith, enough))
          ∙ a.read_as) in
      if_true _ _ e ∙ ap (unwrap_read crypto) whole
