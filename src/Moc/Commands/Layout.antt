-- ===== src/Moc/Commands/Layout.antt =====
-- What the spliced and the synthesized commands hold.
use verimark_linux_driver.Common.{
  ℕ, ◌+◌, ◌*◌, ◌%◌, ◌^◌, ◌≤◌, ◌<◌, ◌≡◌, refl, ap, ◌∙◌, sym, List, [], ◌∷◌, ◌++◌, length, take, drop,
  slice, arith, ok, All, IsByte, le32, read, take-append, drop-append, drop-append_ge,
  length-append,
}
use mathlib.Core.List.{append_assoc}
use verimark_linux_driver.Moc.Commands.{win_finalize, splice, build_finalize, synth_sid}

splice-append :
    (a b c bytes : List ℕ)
    → length b ≡ length bytes
    → splice (length a) bytes (a ++ (b ++ c)) ≡ a ++ (bytes ++ c)
unfolding splice
splice-append a b c bytes h = rw (
  take-append a (b ++ c) (length a) refl,
  drop-append_ge a (b ++ c) (length a) (length bytes) refl,
  drop-append b c (length bytes) h,
)

regroup : (a b c d : List ℕ) → (a ++ (b ++ c)) ++ d ≡ a ++ (b ++ (c ++ d))
regroup a b c d = append_assoc a (b ++ c) d ∙ ap (λ t. a ++ t) (append_assoc b c d)

-- The finalize command is the captured literal with the template id of 16 bytes at [19:35] and the SID of 28
-- bytes at [49:77], and with nothing else changed.
pub build_finalize_layout :
    (template_id sid : List ℕ)
    → length template_id ≡ 16
    → length sid ≡ 28
    → build_finalize template_id sid
      ≡ take 19 win_finalize
        ++ (template_id ++ (slice 35 14 win_finalize ++ (sid ++ drop 77 win_finalize)))
unfolding build_finalize
build_finalize_layout template_id sid ht hs =
    let a = take 19 win_finalize in
    let mid = slice 35 14 win_finalize in
    let s49 = slice 49 28 win_finalize in
    let c = drop 77 win_finalize in
    let front = a ++ (template_id ++ mid) in
    let whole : win_finalize ≡ a ++ (slice 19 16 win_finalize ++ (mid ++ (s49 ++ c))) =
      unfold win_finalize in refl in
    let at_19 : length a ≡ 19 = unfold win_finalize in refl in
    let fourteen : length mid ≡ 14 = unfold win_finalize in refl in
    let at_49 : length front ≡ 49 = omega (
      arith,
      at_19,
      fourteen,
      length-append a (template_id ++ mid),
      length-append template_id mid,
    ) in
    let first =
      splice-append a (slice 19 16 win_finalize) (mid ++ (s49 ++ c)) template_id
        (rw ht (unfold win_finalize in refl)) in
    let second = splice-append front s49 c sid (rw hs (unfold win_finalize in refl)) in
    ap (λ w. splice 49 sid (splice 19 template_id w)) whole
    ∙ ap
        (λ (n : ℕ).
          splice 49 sid
            (splice n template_id (a ++ (slice 19 16 win_finalize ++ (mid ++ (s49 ++ c))))))
        (sym at_19)
    ∙ ap (splice 49 sid) (first ∙ sym (regroup a template_id mid (s49 ++ c)))
    ∙ ap (λ (n : ℕ). splice n sid (front ++ (s49 ++ c))) (sym at_49)
    ∙ second
    ∙ regroup a template_id mid (sid ++ c)

four : (xs : List ℕ) → 4 ≤ length xs → (a b c d : ℕ) × (r : List ℕ) × (xs ≡ a ∷ b ∷ c ∷ d ∷ r)
four [] h = absurd (omega arith)
four (a ∷ []) h = absurd (omega arith)
four (a ∷ b ∷ []) h = absurd (omega arith)
four (a ∷ b ∷ c ∷ []) h = absurd (omega arith)
four (a ∷ b ∷ c ∷ d ∷ r) h = (a, b, c, d, r, refl)

-- The four bytes of a word that was put together from four bytes, in front of a list.
le32_word :
    (a b c d : ℕ) (t : List ℕ)
    → a < 256
    → b < 256
    → c < 256
    → d < 256
    → le32 (a + b * 2 ^ 8 + c * 2 ^ 16 + d * 2 ^ 24) ++ t ≡ a ∷ b ∷ c ∷ d ∷ t
le32_word a b c d t ha hb hc hd = ground arith

le32_wrap : (n : ℕ) → le32 (n % 2 ^ 32) ≡ le32 n
le32_wrap n = ground arith

synth_sid_bytes :
    (uid a b c d e f g h i j k l : ℕ) (r : List ℕ)
    → All IsByte (a ∷ b ∷ c ∷ d ∷ e ∷ f ∷ g ∷ h ∷ i ∷ j ∷ k ∷ l ∷ r)
    → synth_sid uid (a ∷ b ∷ c ∷ d ∷ e ∷ f ∷ g ∷ h ∷ i ∷ j ∷ k ∷ l ∷ r)
      ≡ ok (
          0x01
          ∷ 0x05
          ∷ 0
          ∷ 0
          ∷ 0
          ∷ 0
          ∷ 0
          ∷ 0x05
          ∷ 21
          ∷ 0
          ∷ 0
          ∷ 0
          ∷ a
          ∷ b
          ∷ c
          ∷ d
          ∷ e
          ∷ f
          ∷ g
          ∷ h
          ∷ i
          ∷ j
          ∷ k
          ∷ l
          ∷ le32 uid)
unfolding synth_sid read
synth_sid_bytes uid a b c d e f g h i j k l r
      (ha, (hb, (hc, (hd, (he, (hf, (hg, (hh, (hi, (hj, (hk, (hl, _)))))))))))) =
    ap (λ t. ok (0x01 ∷ 0x05 ∷ 0 ∷ 0 ∷ 0 ∷ 0 ∷ 0 ∷ 0x05 ∷ 21 ∷ 0 ∷ 0 ∷ 0 ∷ t))
      (le32_word a b c d _ ha hb hc hd
        ∙ ap (λ t. a ∷ b ∷ c ∷ d ∷ t)
            (le32_word e f g h _ he hf hg hh
              ∙ ap (λ t. e ∷ f ∷ g ∷ h ∷ t)
                  (le32_word i j k l _ hi hj hk hl ∙ ap (λ t. i ∷ j ∷ k ∷ l ∷ t) (le32_wrap uid))))

-- The synthesized SID is S-1-5-21 with the first 12 bytes of the machine seed as they stand and the low 32 bits of
-- the uid, little-endian; the seed's last four bytes do not matter.
pub synth_sid_layout :
    (uid : ℕ) (seed : List ℕ)
    → length seed ≡ 16
    → All IsByte seed
    → synth_sid uid seed
      ≡ ok (0x01 ∷ 0x05 ∷ 0 ∷ 0 ∷ 0 ∷ 0 ∷ 0 ∷ 0x05 ∷ 21 ∷ 0 ∷ 0 ∷ 0 ∷ (take 12 seed ++ le32 uid))
unfolding synth_sid read
synth_sid_layout uid seed h all =
    let (a, b, c, d, r, e) = four seed (omega arith) in
    let (a', b', c', d', r', e') = four r (omega (arith, ap length e)) in
    let (a'', b'', c'', d'', r'', e'') = four r' (omega (arith, ap length e, ap length e')) in
    let whole : seed ≡ a ∷ b ∷ c ∷ d ∷ a' ∷ b' ∷ c' ∷ d' ∷ a'' ∷ b'' ∷ c'' ∷ d'' ∷ r'' =
      cc (e, e', e'') in
    rw whole (synth_sid_bytes uid a b c d a' b' c' d' a'' b'' c'' d'' r'' (rw whole at all))
