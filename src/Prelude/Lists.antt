-- ===== src/Prelude/Lists.antt =====
-- Lists measured and indexed by native numbers, under the library's names.
use Prim.Native.Nat.{ℕ, zero, suc, ◌+◌, ◌-◌, ◌≤◌, ◌<◌}
use mathlib.Core.Path.{◌≡◌, refl}
use mathlib.Core.Logic.{◌≢◌}
use mathlib.Core.List.{List, [], ◌∷◌, ◌++◌}
use mathlib.Core.Option.{Option, none, some}
use native.Mathlib.Omega.{arith}
use paged_serve.Prelude.Tests.{◌==◌, if◌then◌else◌}

module _ {ℓ} {A : Type ℓ} where
  abbrev pub length : List A → ℕ
  length [] = 0
  length (x ∷ xs) = suc (length xs)

  abbrev pub get_elem? : List A → ℕ → Option A
  get_elem? [] i = none
  get_elem? (x ∷ xs) zero = some x
  get_elem? (x ∷ xs) (suc i) = get_elem? xs i

  -- A write out of bounds changes nothing.
  abbrev pub set : List A → ℕ → A → List A
  set [] i v = []
  set (x ∷ xs) zero v = v ∷ xs
  set (x ∷ xs) (suc i) v = x ∷ set xs i v

  abbrev pub take : ℕ → List A → List A
  take zero xs = []
  take (suc n) [] = []
  take (suc n) (x ∷ xs) = x ∷ take n xs

  abbrev pub drop : ℕ → List A → List A
  drop zero xs = xs
  drop (suc n) [] = []
  drop (suc n) (x ∷ xs) = drop n xs

  pub length-append : (xs ys : List A) → length (xs ++ ys) ≡ length xs + length ys
  length-append [] ys = omega arith
  length-append (x ∷ xs) ys = omega (arith, length-append xs ys)

-- How often a number stands in a list.
abbrev pub count : ℕ → List ℕ → ℕ
count x [] = 0
count x (y ∷ ys) = (if x == y then 1 else 0) + count x ys

-- `l.remove(x)`: the list without the first `x`.
abbrev pub erase : ℕ → List ℕ → List ℕ
erase x [] = []
erase x (y ∷ ys) = if x == y then ys else y ∷ erase x ys

pub count-append : (x : ℕ) (xs ys : List ℕ) → count x (xs ++ ys) ≡ count x xs + count x ys
count-append x [] ys = omega arith
count-append x (y ∷ xs) ys = omega (arith, count-append x xs ys)

pub count-erase_self : (x : ℕ) (xs : List ℕ) → count x (erase x xs) ≡ count x xs - 1
count-erase_self x [] = omega arith
count-erase_self x (y ∷ ys) = ground (arith, count-erase_self x ys)

pub count-erase_ne : (x y : ℕ) (xs : List ℕ) → x ≢ y → count x (erase y xs) ≡ count x xs
count-erase_ne x y [] h = refl
count-erase_ne x y (z ∷ zs) h = ground (arith, count-erase_ne x y zs)

pub length-erase : (x : ℕ) (xs : List ℕ) → 0 < count x xs → length (erase x xs) + 1 ≡ length xs
length-erase x [] h = absurd (omega arith)
length-erase x (y ∷ ys) h = ground (arith, length-erase x ys)

pub erase_absent : (x : ℕ) (xs : List ℕ) → count x xs ≡ 0 → erase x xs ≡ xs
erase_absent x [] h = refl
erase_absent x (y ∷ ys) h = ground (arith, erase_absent x ys)

pub length-erase-le : (x : ℕ) (xs : List ℕ) → length xs ≤ length (erase x xs) + 1
length-erase-le x [] = omega arith
length-erase-le x (y ∷ ys) = ground (arith, length-erase-le x ys)

pub count-erase :
    (x y : ℕ) (xs : List ℕ) → count x (erase y xs) ≡ (if x == y then count x xs - 1 else count x xs)
count-erase x y [] = ground arith
count-erase x y (z ∷ zs) = ground (arith, count-erase x y zs)
