-- ===== src/Interrupt/Waits.antt =====
-- What an interrupt wait ends with, and how long its transfers may take.
use verimark_linux_driver.Common.{
  get_elem?, ==→eq, min, ◌+◌, ◌/◌, ◌≤◌, ◌<◌, ◌≡◌, ◌≢◌, refl, ap, ◌∙◌, true, Option, none, some,
  List, [], ◌∷◌, leb, All, arith, Bool-cases, Option-cases, inl, inr, ◌⊎◌, ℕ, ◌-◌,
}
use verimark_linux_driver.Usb.{Answer, arrived, refused}
use verimark_linux_driver.Interrupt.{
  intr_attempt_ms, IntrCtx, Attempt, IntrResult, intr_ssm_handler, seq_of, is_wanted,
  on_intr_read_done, intr_wait, got, not_got,
}
use mathlib.Core.List.{Memᴰ}

-- An attempt that was answered with a packet whose first byte is the wanted type. The sequence number is its
-- seventh byte, or 0 where the packet is shorter.
pub record IsPress (want seq : ℕ) (a : Attempt) : Type 0 where
  pub packet : List ℕ
  pub answered : a.answer ≡ arrived packet
  pub wanted : get_elem? packet 0 ≡ some want
  pub sequence : (get_elem? packet 6 ≡ some seq) ⊎ ((get_elem? packet 6 ≡ none) × (seq ≡ 0))

-- One of the attempts was.
pub record Pressed (want seq : ℕ) (attempts : List Attempt) : Type 0 where
  pub attempt : Attempt
  pub among : Memᴰ attempt attempts
  pub press : IsPress want seq attempt

Pressed-tail :
    {want seq : ℕ} {a : Attempt} {rest : List Attempt}
    → Pressed want seq rest
    → Pressed want seq (a ∷ rest)
Pressed-tail p = record { attempt = p.attempt; among = Memᴰ.tail p.among; press = p.press }

is_wanted-first :
    (want : ℕ) (packet : List ℕ) → is_wanted want packet ≡ true → get_elem? packet 0 ≡ some want
unfolding is_wanted
is_wanted-first want [] h = cc
is_wanted-first want (b ∷ _) h = ap some (==→eq b want h)

seq_of-seventh :
    (packet : List ℕ) (seq : ℕ)
    → seq_of packet ≡ seq
    → (get_elem? packet 6 ≡ some seq) ⊎ ((get_elem? packet 6 ≡ none) × (seq ≡ 0))
unfolding seq_of
seq_of-seventh packet seq h = elim (Option-cases (get_elem? packet 6)) [
  | inl short ↦ inr (short, ground (arith, h, short))
  | inr (b, there) ↦ inl (there ∙ ap some (ground (arith, h, there)))
]

on_intr_read_done-got :
    (ctx : IntrCtx) (a : Attempt) (seq : ℕ)
    → on_intr_read_done ctx a.answer a.answered_us ≡ some (got seq)
    → IsPress ctx.want_type seq a
on_intr_read_done-got ctx a seq h = on_answer a.answer refl
  where
    on_answer : (answer : Answer) → a.answer ≡ answer → IsPress ctx.want_type seq a
    on_answer (refused x) e = unfold on_intr_read_done in ground (arith, rw e at h)
    on_answer (arrived packet) e = elim (Bool-cases (is_wanted ctx.want_type packet)) [
      | inl yes_ ↦ record {
        packet = packet;
        answered = e;
        wanted = is_wanted-first ctx.want_type packet yes_;
        sequence =
            seq_of-seventh packet seq (unfold on_intr_read_done in ground (arith, rw e at h, yes_));
      }
      | inr no_ ↦ unfold on_intr_read_done in ground (arith, rw e at h, no_)
    ]

-- The three ways of one round.
intr_wait-cons :
    (ctx : IntrCtx) (a : Attempt) (rest : List Attempt)
    → ((intr_ssm_handler ctx.deadline_us a.asked_us ≡ none)
        × (intr_wait ctx (a ∷ rest) ≡ record { timeouts_ms = []; result = some not_got }))
      ⊎ ((ms : ℕ) × (intr_ssm_handler ctx.deadline_us a.asked_us ≡ some ms)
          × (((r : IntrResult) × (on_intr_read_done ctx a.answer a.answered_us ≡ some r)
                × (intr_wait ctx (a ∷ rest) ≡ record { timeouts_ms = ms ∷ []; result = some r }))
              ⊎ (intr_wait ctx (a ∷ rest) ≡ record {
                timeouts_ms = ms ∷ (intr_wait ctx rest).timeouts_ms;
                result = (intr_wait ctx rest).result;
              })))
unfolding intr_wait
intr_wait-cons ctx a rest = elim (Option-cases (intr_ssm_handler ctx.deadline_us a.asked_us)) [
  | inl over ↦ inl (over, ground (arith, over))
  | inr (ms, asks) ↦ elim (Option-cases (on_intr_read_done ctx a.answer a.answered_us)) [
    | inl again ↦ inr (ms, asks, inr (ground (arith, asks, again)))
    | inr (r, ends) ↦ inr (ms, asks, inl (r, ends, ground (arith, asks, ends)))
  ]
]

-- A wait reports an interrupt only if a transfer of the wait has brought a packet whose first byte is the
-- wanted type, and then with that packet's seventh byte, or 0 where it has none.
pub intr_wait-got :
    (ctx : IntrCtx) (attempts : List Attempt) (seq : ℕ)
    → (intr_wait ctx attempts).result ≡ some (got seq)
    → Pressed ctx.want_type seq attempts
intr_wait-got ctx [] seq h = unfold intr_wait in ground (arith, h)
intr_wait-got ctx (a ∷ rest) seq h = elim (intr_wait-cons ctx a rest) [
  | inl (_, same) ↦ ground (arith, rw same at h)
  | inr (ms, _, inl (r, ends, same)) ↦ record {
    attempt = a;
    among = Memᴰ.head refl;
    press = on_intr_read_done-got ctx a seq (ends ∙ (rw same at h));
  }
  | inr (ms, _, inr same) ↦ Pressed-tail (intr_wait-got ctx rest seq (rw same at h))
]

intr_ssm_handler-bounds :
    (deadline : Option ℕ) (now ms : ℕ)
    → intr_ssm_handler deadline now ≡ some ms
    → (1 ≤ ms) × (ms ≤ intr_attempt_ms)
unfolding intr_ssm_handler
intr_ssm_handler-bounds none now ms h = (ground (arith, h), ground (arith, h))
intr_ssm_handler-bounds (some d) now ms h = elim (Bool-cases (leb d now)) [
  | inl late ↦ ground (arith, h, late)
  | inr early ↦
      let same : min intr_attempt_ms ((d - now + 999) / 1000) ≡ ms = ground (arith, h, early) in
      let before : now < d = ground (arith, early) in
      (omega (arith, same, before), omega (arith, same))
]

-- Every transfer of a wait is submitted with a time-out of at least 1 ms, as 0 would be no limit at
-- all, and at most 500 ms.
pub intr_wait-timeouts_ms :
    (ctx : IntrCtx) (attempts : List Attempt)
    → All (λ ms. (1 ≤ ms) × (ms ≤ intr_attempt_ms)) (intr_wait ctx attempts).timeouts_ms
intr_wait-timeouts_ms ctx [] = unfold intr_wait in tt
intr_wait-timeouts_ms ctx (a ∷ rest) = elim (intr_wait-cons ctx a rest) [
  | inl (_, same) ↦ rw same tt
  | inr (ms, asks, inl (r, _, same)) ↦
      rw same (intr_ssm_handler-bounds ctx.deadline_us a.asked_us ms asks, tt)
  | inr (ms, asks, inr same) ↦
      rw same
        (intr_ssm_handler-bounds ctx.deadline_us a.asked_us ms asks, intr_wait-timeouts_ms ctx rest)
]

late-intr_ssm_handler :
    (deadline now : ℕ) → deadline ≤ now → intr_ssm_handler (some deadline) now ≡ none
unfolding intr_ssm_handler
late-intr_ssm_handler deadline now h = ground (arith, h)

-- A wait with a deadline has a result as soon as its state is entered at or after the deadline.
pub intr_wait_ends :
    (want deadline : ℕ) (attempts : List Attempt) (late : Attempt)
    → Memᴰ late attempts
    → deadline ≤ late.asked_us
    → (intr_wait (record { want_type = want; deadline_us = some deadline }) attempts).result ≢ none
intr_wait_ends want deadline [] late mem h e = elim mem [ ]
intr_wait_ends want deadline (a ∷ rest) late (Memᴰ.head same_) h e =
    let late_ : deadline ≤ a.asked_us = rw⁻¹ (ap (λ x. x.asked_us) same_) h in
    elim (intr_wait-cons (record { want_type = want; deadline_us = some deadline }) a rest) [
      | inl (_, same) ↦ ground (arith, rw same at e)
      | inr (ms, asks, _) ↦ ground (arith, asks, late-intr_ssm_handler deadline a.asked_us late_)
    ]
intr_wait_ends want deadline (a ∷ rest) late (Memᴰ.tail mem) h e =
    elim (intr_wait-cons (record { want_type = want; deadline_us = some deadline }) a rest) [
      | inl (_, same) ↦ ground (arith, rw same at e)
      | inr (ms, _, inl (r, _, same)) ↦ ground (arith, rw same at e)
      | inr (ms, _, inr same) ↦ intr_wait_ends want deadline rest late mem h (rw same at e)
    ]
