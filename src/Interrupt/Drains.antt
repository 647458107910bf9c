-- ===== src/Interrupt/Drains.antt =====
-- What a drain leaves queued.
use verimark_linux_driver.Common.{
  zero, suc, ◌+◌, ◌≤◌, ◌<◌, ◌≡◌, refl, List, [], ◌∷◌, length, Error, arith, ℕ,
}
use verimark_linux_driver.Usb.{Answer, arrived, refused}
use verimark_linux_driver.Interrupt.{drain_loop, intr_drain_sync}

-- The packets that are queued, each of one byte and more.
abbrev pub queued : List (ℕ × List ℕ) → List Answer → List Answer
queued [] behind = behind
queued ((b, bs) ∷ packets) behind = arrived (b ∷ bs) ∷ queued packets behind

drain_loop-queued :
    (left : ℕ) (packets : List (ℕ × List ℕ)) (x : Error) (behind : List Answer)
    → length packets < left
    → drain_loop left (queued packets (refused x ∷ behind)) ≡ behind
unfolding drain_loop
drain_loop-queued zero packets x behind h = absurd (omega (arith, h))
drain_loop-queued (suc left) [] x behind h = refl
drain_loop-queued (suc left) (p ∷ packets) x behind h =
    drain_loop-queued left packets x behind (omega (arith, h))

-- A drain takes all the packets that are queued, if they are less than 16, and asks for nothing more
-- once a read has found none.
pub intr_drain_sync-queued :
    (packets : List (ℕ × List ℕ)) (x : Error) (behind : List Answer)
    → length packets < 16
    → intr_drain_sync (queued packets (refused x ∷ behind)) ≡ behind
unfolding intr_drain_sync
intr_drain_sync-queued packets x behind h = drain_loop-queued 16 packets x behind h

drain_loop-length :
    (left : ℕ) (answers : List Answer) → length answers ≤ length (drain_loop left answers) + left
unfolding drain_loop
drain_loop-length zero answers = omega arith
drain_loop-length (suc left) [] = omega arith
drain_loop-length (suc left) (refused _ ∷ rest) = omega arith
drain_loop-length (suc left) (arrived [] ∷ rest) = omega arith
drain_loop-length (suc left) (arrived (_ ∷ _) ∷ rest) = omega (arith, drain_loop-length left rest)

-- A drain makes at most 16 reads, whatever they are answered with.
pub intr_drain_sync-length :
    (answers : List Answer) → length answers ≤ length (intr_drain_sync answers) + 16
unfolding intr_drain_sync
intr_drain_sync-length answers = drain_loop-length 16 answers
