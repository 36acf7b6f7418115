-- ===== src/Prelude/Outcome.antt =====
-- Exceptions, and methods of an object: a call returns its result beside the new state, also when
-- it raises, since what it changed before the exception stays changed.
use mathlib.Core.Path.{◌≡◌, refl, ap}
use mathlib.Core.Logic.{◌⊎◌, inl, inr}

pub data Error : Type 0 where
  value_error index_error key_error memory_error runtime_error : Error
  -- A loop of the model ran out of its rounds; no theorem's run does.
  out_of_rounds : Error

pub data Result {ℓ} (A : Type ℓ) : Type ℓ where
  ok : A → Result A
  raise : Error → Result A

abbrev pub Method : Type 0 → Type 0 → Type 0
Method S A = S → Result A × S

abbrev pub return : {S A : Type 0} → A → Method S A
return a s = (ok a, s)

abbrev pub throw : {S A : Type 0} → Error → Method S A
throw e s = (raise e, s)

-- What follows a call, by its result.
abbrev pub and_then : {S A B : Type 0} → Result A → (A → Method S B) → Method S B
and_then (ok a) f s = f a s
and_then (raise e) f s = (raise e, s)

infixl 5 ◌>>=◌ ◌>>◌
abbrev pub ◌>>=◌ : {S A B : Type 0} → Method S A → (A → Method S B) → Method S B
◌>>=◌ m f s = and_then (m s).0 f (m s).1

abbrev pub ◌>>◌ : {S B : Type 0} → Method S (Unit {0}) → Method S B → Method S B
m >> k = m >>= λ _. k

pub Result-cases {ℓ} :
    {A : Type ℓ} (r : Result A) → ((a : A) × (r ≡ ok a)) ⊎ ((e : Error) × (r ≡ raise e))
Result-cases (ok a) = inl (a, refl)
Result-cases (raise e) = inr (e, refl)

-- After a call that returned, the rest runs.
pub bind-ok :
    {S A B : Type 0} (m : Method S A) (f : A → Method S B) {s s' : S} {a : A}
    → m s ≡ (ok a, s')
    → (m >>= f) s ≡ f a s'
bind-ok {S} {A} {B} m f e = ap (λ (r : Result A × S). and_then r.0 f r.1) e

-- After a call that raised, nothing more runs.
pub bind-raise :
    {S A B : Type 0} (m : Method S A) (f : A → Method S B) {s s' : S} {e : Error}
    → m s ≡ (raise e, s')
    → (m >>= f) s ≡ (raise e, s')
bind-raise {S} {A} {B} m f e = ap (λ (r : Result A × S). and_then r.0 f r.1) e
