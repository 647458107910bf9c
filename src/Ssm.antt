-- ===== src/Ssm.antt =====
-- The driver's use of libfprint's FpiSsm. libfprint is not part of the repository: what
-- `fpi_ssm_next_state` does is a parameter, and its documented behaviour a hypothesis.
pub mod Runs
use verimark_linux_driver.Common.{ℕ, ◌≡◌, Option, none, some, List, [], ◌∷◌, Error}

-- What a callback does to its machine. `undefined` is no call of libfprint's: the callback read
-- outside a buffer.
pub data Act (S : Type 0) : Type 0 where
  next_state : Act S
  jump_to_state : S → Act S
  jump_to_state_delayed : S → (ms : ℕ) → Act S
  mark_completed : Act S
  mark_failed : Error → Act S
  undefined : Act S

pub data Status (S : Type 0) : Type 0 where
  at : S → Status S
  completed : Status S
  failed : Error → Status S
  broken : Status S

-- `next` stands for libfprint's step to the following state, with none behind the last one.
unfoldable pub moved : {S : Type 0} → (S → Option S) → S → Act S → Status S
moved next s next_state = elim (next s) [ none ↦ completed | some t ↦ at t ]
moved next s (jump_to_state t) = at t
moved next s (jump_to_state_delayed t ms) = at t
moved next s mark_completed = completed
moved next s (mark_failed e) = failed e
moved next s undefined = broken

-- The documented behaviour of `fpi_ssm_next_state`: from the state `s` through those behind it in
-- the enumeration, and past the last one the machine is complete.
abbrev pub Follows : {S : Type 0} → (S → Option S) → S → List S → Type 0
Follows next s [] = next s ≡ none
Follows next s (t ∷ r) = (next s ≡ some t) × Follows next t r

-- A run of one machine: what its states asked for, in order, and how far it has come.
pub record Trace (S C R : Type 0) : Type 0 where
  pub requests : List R
  pub status : Status S
  pub ctx : C

abbrev pub stopped : {S C R : Type 0} → R → Status S → C → Trace S C R
stopped r st ctx = record { requests = r ∷ []; status = st; ctx = ctx }

abbrev pub asked : {S C R : Type 0} → R → Trace S C R → Trace S C R
asked r more = record { requests = r ∷ more.requests; status = more.status; ctx = more.ctx }

-- What the run makes of a callback: it goes on (`more`), or the machine is through.
abbrev pub resumed : {S C R : Type 0} → R → C → (S → Trace S C R) → Status S → Trace S C R
resumed r ctx more (at t) = asked r (more t)
resumed r ctx more completed = stopped r completed ctx
resumed r ctx more (failed x) = stopped r (failed x) ctx
resumed r ctx more broken = stopped r broken ctx

module _ {S C E R : Type 0} (next : S → Option S) (handler : S → C → R)
    (callback : S → E → C → C × Act S) where
  -- The machine from the state `s`, over the events that its callbacks are given.
  unfoldable pub drive : List E → S → C → Trace S C R
  drive [] s ctx = stopped (handler s ctx) (at s) ctx
  drive (e ∷ rest) s ctx =
      let (ctx', act) = callback s e ctx in
      resumed (handler s ctx) ctx' (λ t. drive rest t ctx') (moved next s act)
