-- ===== src/Prelude/Index.antt =====
-- Reading a list at an index, and how often its entries are counted.
use Prim.Native.Nat.{ℕ, zero, suc, ◌≤◌, ◌<◌}
use mathlib.Core.Path.{◌≡◌, refl, ap}
use mathlib.Core.Logic.{◌≢◌}
use mathlib.Core.List.{List, [], ◌∷◌, ◌++◌}
use mathlib.Core.Option.{none, some}
use native.Mathlib.Omega.{arith}
use paged_serve.Prelude.Lists.{length, get_elem?, count}

module _ {ℓ} {A : Type ℓ} where
  pub get_elem?_of_lt : (xs : List A) (i : ℕ) → i < length xs → (a : A) × (get_elem? xs i ≡ some a)
  get_elem?_of_lt [] i h = elim h [ ]
  get_elem?_of_lt (x ∷ xs) zero h = (x, refl)
  get_elem?_of_lt (x ∷ xs) (suc i) h = get_elem?_of_lt xs i (omega arith)

  pub get_elem?_of_ge : (xs : List A) (i : ℕ) → length xs ≤ i → get_elem? xs i ≡ none
  get_elem?_of_ge [] i h = refl
  get_elem?_of_ge (x ∷ xs) zero h = absurd (omega arith)
  get_elem?_of_ge (x ∷ xs) (suc i) h = get_elem?_of_ge xs i (omega arith)

  pub get_elem?_lt : (xs : List A) (i : ℕ) {a : A} → get_elem? xs i ≡ some a → i < length xs
  get_elem?_lt [] i h = absurd (ground arith)
  get_elem?_lt (x ∷ xs) zero h = omega arith
  get_elem?_lt (x ∷ xs) (suc i) h = omega (arith, get_elem?_lt xs i h)

  pub get_elem?-append_lt :
      (xs ys : List A) (i : ℕ) → i < length xs → get_elem? (xs ++ ys) i ≡ get_elem? xs i
  get_elem?-append_lt [] ys i h = absurd (omega arith)
  get_elem?-append_lt (x ∷ xs) ys zero h = refl
  get_elem?-append_lt (x ∷ xs) ys (suc i) h = get_elem?-append_lt xs ys i (omega arith)

pub count-get_elem? : (xs : List ℕ) (i : ℕ) {a : ℕ} → get_elem? xs i ≡ some a → 0 < count a xs
count-get_elem? [] i h = absurd (ground arith)
count-get_elem? (x ∷ xs) zero h = ground arith
count-get_elem? (x ∷ xs) (suc i) {a} h = omega (arith, count-get_elem? xs i h)

-- An entry at two places is counted twice.
pub count-get_elem?_twice :
    (xs : List ℕ) (i j : ℕ) {a : ℕ}
    → get_elem? xs i ≡ some a
    → get_elem? xs j ≡ some a
    → i ≢ j
    → 1 < count a xs
count-get_elem?_twice [] i j hi hj ne = absurd (ground arith)
count-get_elem?_twice (x ∷ xs) zero zero hi hj ne = absurd (ne refl)
count-get_elem?_twice (x ∷ xs) zero (suc j) hi hj ne = ground (arith, count-get_elem? xs j hj)
count-get_elem?_twice (x ∷ xs) (suc i) zero hi hj ne = ground (arith, count-get_elem? xs i hi)
count-get_elem?_twice (x ∷ xs) (suc i) (suc j) {a} hi hj ne =
    omega (arith, count-get_elem?_twice xs i j hi hj (λ e. ne (ap suc e)))
