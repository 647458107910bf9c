-- ===== src/Common/Results.antt =====
-- What a call of the driver ends with: a value, one of the `GError`s that the code sets, or a fault.
use mathlib.Core.Path.{◌≡◌, refl}
use mathlib.Core.Bool.{Bool, true, false}
use mathlib.Core.Logic.{◌≢◌, ◌⊎◌, inl, inr}

pub data Error : Type 0 where
  moc_invalid_data : Error  -- VERIMARK_MOC_ERROR_INVALID_DATA
  crypto_invalid_data crypto_failed : Error  -- VERIMARK_TLS_CRYPTO_ERROR_*
  proto general data_invalid : Error  -- FP_DEVICE_ERROR_*
  retry : Error  -- FP_DEVICE_RETRY_GENERAL
  usb_timed_out usb_error : Error  -- G_USB_DEVICE_ERROR_TIMED_OUT, and any other of that domain
  cancelled : Error  -- G_IO_ERROR_CANCELLED
  not_found file_error : Error  -- G_FILE_ERROR_NOENT, and any other of that domain

pub Error-discrete : Discrete Error
Error-discrete = hlevel

-- `fault` is a read outside its buffer, which C leaves undefined.
pub data Outcome {ℓ} (A : Type ℓ) : Type ℓ where
  ok : A → Outcome A
  err : Error → Outcome A
  fault : Outcome A

module _ {ℓ κ} {A : Type ℓ} {B : Type κ} where
  -- The code behind a call runs if the call has set no error.
  infixl 5 ◌>>=◌
  abbrev pub ◌>>=◌ : Outcome A → (A → Outcome B) → Outcome B
  fault >>= _ = fault
  err x >>= _ = err x
  ok v >>= behind = behind v

  pub >>=-eq-ok :
      (call : Outcome A) (behind : A → Outcome B) {w : B}
      → (call >>= behind) ≡ ok w
      → (v : A) × (call ≡ ok v) × (behind v ≡ ok w)
  >>=-eq-ok fault behind both = cc
  >>=-eq-ok (err x) behind both = cc
  >>=-eq-ok (ok v) behind both = (v, refl, both)

-- `if (bad) { g_set_error (…); return FALSE; }`
abbrev pub fail_if : Bool → Error → Outcome (Unit {0})
fail_if false _ = ok tt
fail_if true x = err x

infixl 5 ◌>>◌
abbrev pub ◌>>◌ {κ} : {B : Type κ} → Outcome (Unit {0}) → Outcome B → Outcome B
check >> behind = check >>= λ _. behind

pub map-safe {ℓ κ} :
    {A : Type ℓ} {B : Type κ} (m : Outcome A) (f : A → B)
    → m ≢ fault
    → (m >>= λ a. ok (f a)) ≢ fault
map-safe (ok a) f h = λ e. cc
map-safe (err x) f h = λ e. cc
map-safe fault f h = absurd (h refl)

pub Outcome-cases {ℓ} :
    {A : Type ℓ} (o : Outcome A)
    → ((a : A) × (o ≡ ok a)) ⊎ (((x : Error) × (o ≡ err x)) ⊎ (o ≡ fault))
Outcome-cases (ok a) = inl (a, refl)
Outcome-cases (err x) = inr (inl (x, refl))
Outcome-cases fault = inr (inr refl)

pub fail_if-safe {ℓ} :
    {A : Type ℓ} (b : Bool) (x : Error) (k : Outcome A)
    → (b ≡ false → k ≢ fault)
    → (fail_if b x >> k) ≢ fault
fail_if-safe true x k f = λ e. cc
fail_if-safe false x k f = f refl

pub >>=-safe {ℓ κ} :
    {A : Type ℓ} {B : Type κ} (call : Outcome A) (behind : A → Outcome B)
    → call ≢ fault
    → ((a : A) → behind a ≢ fault)
    → (call >>= behind) ≢ fault
>>=-safe (ok a) behind h f = f a
>>=-safe (err x) behind h f = λ e. cc
>>=-safe fault behind h f = absurd (h refl)

pub ok-safe {ℓ} : {A : Type ℓ} (a : A) → ok a ≢ fault
ok-safe a = λ e. cc

pub ok_eq {ℓ} : {A : Type ℓ} (a b : A) → ok a ≡ ok b → a ≡ b
ok_eq a b h = cc

pub fail_if-eq-ok : (b : Bool) (x : Error) {u : Unit {0}} → fail_if b x ≡ ok u → b ≡ false
fail_if-eq-ok false x h = refl
fail_if-eq-ok true x h = cc

pub ok_ne_err {ℓ} : {A : Type ℓ} {a : A} {x : Error} → ok a ≢ err x
ok_ne_err h = cc

pub fail_if-ne-fault : (b : Bool) (x : Error) → fail_if b x ≢ fault
fail_if-ne-fault true x = λ e. cc
fail_if-ne-fault false x = λ e. cc
