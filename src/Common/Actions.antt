-- ===== src/Common/Actions.antt =====
-- Calls that change a state and may fail: the state goes through each call, and is kept when one fails.
use mathlib.Core.Path.{◌≡◌, refl, ap}
use mathlib.Core.Logic.{◌≢◌}
use verimark_linux_driver.Common.Results.{Error, Outcome, ok, err, fault}

abbrev pub Action {ℓ κ} : Type ℓ → Type κ → Type (ℓ ⊔ κ)
Action S A = S → S × Outcome A

module _ {ℓ κ ι} {S : Type ℓ} {A : Type κ} {B : Type ι} where
  -- What follows a call runs in the state that the call left, if it has set no error.
  abbrev pub go_on : S × Outcome A → (A → Action S B) → S × Outcome B
  go_on (s, ok a) behind = behind a s
  go_on (s, err x) behind = (s, err x)
  go_on (s, fault) behind = (s, fault)

  pub go_on-ok :
      (call : S × Outcome A) (behind : A → Action S B) (a : A)
      → call.1 ≡ ok a
      → go_on call behind ≡ behind a call.0
  go_on-ok (s, ok b) behind a h = ap (λ x. behind x s) (cc)
  go_on-ok (s, err x) behind a h = cc
  go_on-ok (s, fault) behind a h = cc

  pub go_on-eq-ok :
      (call : S × Outcome A) (behind : A → Action S B) {b : B}
      → (go_on call behind).1 ≡ ok b
      → (a : A) × (call.1 ≡ ok a) × (go_on call behind ≡ behind a call.0)
  go_on-eq-ok (s, ok a) behind h = (a, refl, refl)
  go_on-eq-ok (s, err x) behind h = cc
  go_on-eq-ok (s, fault) behind h = cc

  -- A chain of calls has no fault, if each call has none and what follows it has none.
  pub go_on-safe :
      (call : S × Outcome A) (behind : A → Action S B)
      → call.1 ≢ fault
      → ((a : A) → call.1 ≡ ok a → (behind a call.0).1 ≢ fault)
      → (go_on call behind).1 ≢ fault
  go_on-safe (s, ok a) behind h f = f a refl
  go_on-safe (s, err x) behind h f = λ e. cc
  go_on-safe (s, fault) behind h f = absurd (h refl)

  -- A relation between the states before and after, which holds for a call that fails too, holds for a
  -- chain of calls.
  pub go_on_rel {μ} :
      (R : S → S → Type μ) (s : S) (call : S × Outcome A) (behind : A → Action S B)
      → R s call.0
      → ((a : A) → call.1 ≡ ok a → R s call.0 → R s (behind a call.0).0)
      → R s (go_on call behind).0
  go_on_rel R s (t, ok a) behind r f = f a refl r
  go_on_rel R s (t, err x) behind r f = r
  go_on_rel R s (t, fault) behind r f = r

  -- A property of the end of a chain of calls: of its failure, and of what follows its first call.
  pub go_on_elim {μ} :
      (P : S × Outcome B → Type μ) (call : S × Outcome A) (behind : A → Action S B)
      → ((x : Error) → P (call.0, err x))
      → P (call.0, fault)
      → ((a : A) → call.1 ≡ ok a → P (behind a call.0))
      → P (go_on call behind)
  go_on_elim P (s, ok a) behind e f g = g a refl
  go_on_elim P (s, err x) behind e f g = e x
  go_on_elim P (s, fault) behind e f g = f
