-- ===== src/Tls/Prf/Expansion.antt =====
-- The key derivation against the P_hash of RFC 5246, section 5.
use verimark_linux_driver.Common.{
  Option, none, ℕ, ◌+◌, ◌-◌, ◌*◌, ◌<◌, ◌≤◌, ◌≡◌, ◌≢◌, zero, suc, min, List, [], ◌∷◌, ◌++◌, some,
  ltb, length, take, ok, fault, refl, sym, ap, ◌∙◌, arith, Bool-cases, Option-cases, inl, inr,
  >>=-eq-ok, length-append, length-take, ltb→lt, ltb→ge, ge→ltb, ok-safe,
}
use mathlib.Core.List.{append_assoc, append-nil}
use verimark_linux_driver.Tls.Prf.{Hmac, openssl, prf_loop, prf}

module _ (hash : (key msg : List ℕ) → List ℕ) (secret inp : List ℕ) where
  -- A(i + 1) = HMAC(secret, A(i)), from a = A(1) on, and the blocks HMAC(secret, A(i) ‖ inp).
  pub p_hash_from : (a : List ℕ) (blocks : ℕ) → List ℕ
  p_hash_from a zero = []
  p_hash_from a (suc n) = hash secret (a ++ inp) ++ p_hash_from (hash secret a) n

-- P_hash(secret, label ‖ seed), as far as so many blocks go.
pub p_hash : (hash : (key msg : List ℕ) → List ℕ) (secret label seed : List ℕ) (blocks : ℕ) → List ℕ
unfolding p_hash_from
p_hash hash secret label seed blocks =
    let inp : List ℕ = label ++ seed in p_hash_from hash secret inp (hash secret inp) blocks

take-append_min :
    (n : ℕ) (xs ys : List ℕ)
    → take n (xs ++ ys) ≡ take (min (length xs) n) xs ++ take (n - length xs) ys
take-append_min zero xs ys =
    let e : min (length xs) 0 ≡ 0 = omega arith in
    let d : 0 - length xs ≡ 0 = omega arith in rw (e, d) refl
take-append_min (suc n) [] ys =
    let e : min 0 (suc n) ≡ 0 = omega arith in
    let d : suc n - 0 ≡ suc n = omega arith in rw (e, d) refl
take-append_min (suc n) (x ∷ xs) ys =
    let e : min (suc (length xs)) (suc n) ≡ suc (min (length xs) n) = omega arith in
    let d : suc n - suc (length xs) ≡ n - length xs = omega arith in
    rw (e, d) (ap (λ t. x ∷ t) (take-append_min n xs ys))

-- What a turn of the loop adds to the bytes done.
length-turn :
    (out block : List ℕ) (out_len size : ℕ)
    → length block ≡ size
    → length (out ++ take (min (length block) (out_len - length out)) block)
      ≡ length out + min size (out_len - length out)
length-turn out block out_len size h = omega (
  arith,
  length-append out (take (min (length block) (out_len - length out)) block),
  length-take (min (length block) (out_len - length out)) block,
  h,
)

-- A turn of the loop takes its share of what is left to do.
turn-take :
    (out block more : List ℕ) (out_len size : ℕ)
    → length block ≡ size
    → out
        ++ take (min (length block) (out_len - length out)) block
        ++ take
            (out_len - length (out ++ take (min (length block) (out_len - length out)) block))
            more
      ≡ out ++ take (out_len - length out) (block ++ more)
turn-take out block more out_len size h =
    let left : out_len - length (out ++ take (min (length block) (out_len - length out)) block)
        ≡ out_len - length out - length block =
      omega (arith, length-turn out block out_len size h, h) in
    rw (left, take-append_min (out_len - length out) block more)
      (append_assoc out (take (min (length block) (out_len - length out)) block)
        (take (out_len - length out - length block) more))

pub openssl-ne-fault {ℓ} : {A : Type ℓ} (o : Option A) → openssl o ≢ fault
openssl-ne-fault none = λ e. cc
openssl-ne-fault (some a) = λ e. cc

module _ (hmac : Hmac) where
  -- The loop ends, whatever HMAC does, as each of its turns makes a byte.
  prf_loop-safe :
      (fuel : ℕ) (secret inp a out : List ℕ) (out_len : ℕ)
      → length out ≤ out_len
      → out_len < fuel + length out
      → prf_loop hmac fuel secret inp a out out_len ≢ fault
  unfolding prf_loop
  prf_loop-safe zero secret inp a out out_len k h = absurd (omega arith)
  prf_loop-safe (suc fuel) secret inp a out out_len k h =
      elim (Bool-cases (ltb (length out) out_len)) [
        | inr done ↦ rw done (ok-safe out)
        | inl more ↦ elim (Option-cases (hmac.mac secret (a ++ inp))) [
          | inl fails ↦ rw (more, fails) (λ e. cc)
          | inr (block, made) ↦ elim (Option-cases (hmac.mac secret a)) [
            | inl fails ↦ rw (more, made, fails) (λ e. cc)
            | inr (next, chained) ↦
                let len =
                  length-turn out block out_len hmac.size
                    (hmac.length-mac secret (a ++ inp) block made) in
                let pos = hmac.size_pos in
                let lt = ltb→lt (length out) out_len more in
                rw (more, made, chained)
                  (prf_loop-safe fuel secret inp next
                    (out ++ take (min (length block) (out_len - length out)) block) out_len
                    (omega (arith, len)) (omega (arith, len, pos, lt, h)))
          ]
        ]
      ]

  length-prf_loop :
      (fuel : ℕ) (secret inp a out : List ℕ) (out_len : ℕ) (r : List ℕ)
      → length out ≤ out_len
      → prf_loop hmac fuel secret inp a out out_len ≡ ok r
      → length r ≡ out_len
  unfolding prf_loop
  length-prf_loop zero secret inp a out out_len r k h = cc
  length-prf_loop (suc fuel) secret inp a out out_len r k h =
      elim (Bool-cases (ltb (length out) out_len)) [
        | inr done ↦ ground (arith, h, done)
        | inl more ↦
            let (block, made, h1) =
              >>=-eq-ok (openssl (hmac.mac secret (a ++ inp))) _ (rw more at h) in
            let (next, chained, h2) = >>=-eq-ok (openssl (hmac.mac secret a)) _ h1 in
            length-prf_loop fuel secret inp next
              (out ++ take (min (length block) (out_len - length out)) block) out_len r
              (omega (arith, length-turn out block out_len (length block) refl)) h2
      ]

  -- The key derivation ends for every length: its fuel lasts, whatever HMAC answers.
  pub prf-safe :
      (secret label seed : List ℕ) (out_len : ℕ) → prf hmac secret label seed out_len ≢ fault
  unfolding prf
  prf-safe secret label seed out_len = elim (Option-cases (hmac.mac secret (label ++ seed))) [
    | inl fails ↦ rw fails (λ e. cc)
    | inr (a, made) ↦ rw made (
        prf_loop-safe (suc out_len) secret (label ++ seed) a [] out_len (omega arith) (omega arith))
  ]

  -- What the key derivation returns is as long as was asked for.
  pub length-prf :
      (secret label seed : List ℕ) (out_len : ℕ) (r : List ℕ)
      → prf hmac secret label seed out_len ≡ ok r
      → length r ≡ out_len
  unfolding prf
  length-prf secret label seed out_len r h =
      let (a, made, h1) = >>=-eq-ok (openssl (hmac.mac secret (label ++ seed))) _ h in
      length-prf_loop (suc out_len) secret (label ++ seed) a [] out_len r (omega arith) h1

  module _ (hash : (key msg : List ℕ) → List ℕ)
      (total : (key msg : List ℕ) → hmac.mac key msg ≡ some (hash key msg)) where
    length-hash : (key msg : List ℕ) → length (hash key msg) ≡ hmac.size
    length-hash key msg = hmac.length-mac key msg (hash key msg) (total key msg)

    prf_loop-p_hash :
        (fuel blocks : ℕ) (secret inp a out : List ℕ) (out_len : ℕ)
        → length out ≤ out_len
        → out_len < fuel + length out
        → out_len ≤ length out + blocks * hmac.size
        → prf_loop hmac fuel secret inp a out out_len
          ≡ ok (out ++ take (out_len - length out) (p_hash_from hash secret inp a blocks))
    unfolding prf_loop p_hash_from
    prf_loop-p_hash zero blocks secret inp a out out_len k h e = absurd (omega arith)
    prf_loop-p_hash (suc fuel) zero secret inp a out out_len k h e =
        let nil : out_len - length out ≡ 0 = omega (arith, e) in
        rw (ge→ltb (length out) out_len (omega (arith, e)), nil) (ap ok (sym (append-nil out)))
    prf_loop-p_hash (suc fuel) (suc n) secret inp a out out_len k h e =
        elim (Bool-cases (ltb (length out) out_len)) [
          | inr done ↦
              let nil : out_len - length out ≡ 0 =
                omega (arith, ltb→ge (length out) out_len done) in
              rw (done, nil) (ap ok (sym (append-nil out)))
          | inl more ↦
              let block = hash secret (a ++ inp) in
              let len = length-turn out block out_len hmac.size (length-hash secret (a ++ inp)) in
              let pos = hmac.size_pos in
              let lt = ltb→lt (length out) out_len more in
              rw (more, total secret (a ++ inp), total secret a)
                (prf_loop-p_hash fuel n secret inp (hash secret a)
                    (out ++ take (min (length block) (out_len - length out)) block) out_len
                    (omega (arith, len)) (omega (arith, len, pos, lt, h)) (omega (arith, len, e))
                  ∙ ap ok (
                      turn-take out block (p_hash_from hash secret inp (hash secret a) n) out_len
                        hmac.size (length-hash secret (a ++ inp))))
        ]

    -- Where HMAC does not fail, the key derivation returns the first bytes of P_hash, as many as were
    -- asked for, of any number of blocks that is enough.
    pub prf-p_hash :
        (secret label seed : List ℕ) (out_len blocks : ℕ)
        → out_len ≤ blocks * hmac.size
        → prf hmac secret label seed out_len
          ≡ ok (take out_len (p_hash hash secret label seed blocks))
    unfolding prf p_hash
    prf-p_hash secret label seed out_len blocks enough =
        let whole : out_len - 0 ≡ out_len = omega arith in
        rw (total secret (label ++ seed)) (
          prf_loop-p_hash (suc out_len) blocks secret (label ++ seed) (hash secret (label ++ seed))
            [] out_len (omega arith) (omega arith) (omega (arith, enough))
          ∙ ap
              (λ k. ok (
                take k
                  (p_hash_from hash secret (label ++ seed) (hash secret (label ++ seed)) blocks)))
              whole)
