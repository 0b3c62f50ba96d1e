-- ===== src/Base/Outcome.antt =====
-- How an operation of the program can stop instead of returning.
use mathlib.Core.Path.{◌≡◌, refl}
use mathlib.Core.Bool.{Bool, true, false}
use mathlib.Core.Option.{Option, none, some}
use mathlib.Core.Logic.{◌⊎◌, inl, inr}

-- `assertion`: a failed `assert` (the build does not define NDEBUG). `fatal`: LOG_FATAL,
-- LOG_SYSFATAL or `abort`. `out_of_range` and `bad_function_call`: the standard library's
-- exceptions, which nothing catches. `dangling`: a pointer to no live object is followed.
pub data Fault : Type 0 where
  assertion fatal out_of_range bad_function_call dangling : Fault

pub data Result {ℓ} (A : Type ℓ) : Type ℓ where
  err : (fault : Fault) → Result A
  ok : (value : A) → Result A

infixl 5 ◌>>=◌ ◌>>◌
-- What follows is skipped after a fault.
abbrev pub ◌>>=◌ {ℓ κ} : {A : Type ℓ} {B : Type κ} → Result A → (A → Result B) → Result B
(err fault) >>= _ = err fault
(ok value) >>= then_do = then_do value

-- Following a pointer.
abbrev pub deref {ℓ} : {A : Type ℓ} → Option A → Result A
deref none = err dangling
deref (some a) = ok a

-- `assert(b)`, and the like for the other faults.
abbrev pub check : Bool → Fault → Result (Unit {0})
check false fault = err fault
check true fault = ok tt

abbrev pub ◌>>◌ {ℓ} : {B : Type ℓ} → Result (Unit {0}) → Result B → Result B
first >> second = first >>= λ _. second

pub Result-cases {ℓ} :
    {A : Type ℓ} (m : Result A) → ((a : A) × (m ≡ ok a)) ⊎ ((e : Fault) × (m ≡ err e))
Result-cases (err e) = inr (e, refl)
Result-cases (ok a) = inl (a, refl)
