-- ===== src/Attention/Rows.antt =====
-- The lists that describe the rows of a flattened batch, and what stands in them for one row.
use paged_serve.Prelude.{
  ℕ, zero, suc, ◌+◌, ◌≤◌, ◌<◌, ◌≡◌, ◌≢◌, refl, sym, ap, ◌∙◌, arith, List, [], ◌∷◌, ◌++◌, some, map,
  length, length-append, get_elem?, take, drop, count, count-append, ◌==◌, ◌&&◌, if◌then◌else◌,
  Bool-cases, inl, inr,
}
use native.Mathlib.Decide.{ℕ_discrete}

-- The sum of the entries before an index.
abbrev pub prefix : List ℕ → ℕ → ℕ
prefix [] r = 0
prefix (n ∷ ns) zero = 0
prefix (n ∷ ns) (suc r) = n + prefix ns r

abbrev pub offsets_from : ℕ → List ℕ → List ℕ
offsets_from offset [] = []
offsets_from offset (n ∷ ns) = offset ∷ offsets_from (offset + n) ns

-- The rows of one token, and the others.
abbrev pub ones : ℕ → List ℕ → List ℕ
ones row [] = []
ones row (n ∷ ns) = let rest = ones (row + 1) ns in if n == 1 then row ∷ rest else rest

abbrev pub longer : ℕ → List ℕ → List ℕ
longer row [] = []
longer row (n ∷ ns) = let rest = longer (row + 1) ns in if n == 1 then rest else row ∷ rest

-- The lists of the ids, one behind the other.
abbrev pub flat : {A : Type 0} → (ℕ → List A) → List ℕ → List A
flat f [] = []
flat f (x ∷ ids) = f x ++ flat f ids

-- What stands in such lists at an index.
pub get_elem?-map :
    {B : Type 0} (f : ℕ → B) (ids : List ℕ) (r : ℕ) {x : ℕ}
    → get_elem? ids r ≡ some x
    → get_elem? (map f ids) r ≡ some (f x)
get_elem?-map f [] r e = absurd (ground arith)
get_elem?-map f (y ∷ ids) zero e = ground arith
get_elem?-map f (y ∷ ids) (suc r) e = get_elem?-map f ids r e

pub get_elem?-offsets_from :
    (offset : ℕ) (ns : List ℕ) (r : ℕ)
    → r < length ns
    → get_elem? (offsets_from offset ns) r ≡ some (offset + prefix ns r)
get_elem?-offsets_from offset [] r h = absurd (omega arith)
get_elem?-offsets_from offset (n ∷ ns) zero h = ap some (omega arith)
get_elem?-offsets_from offset (n ∷ ns) (suc r) h =
    get_elem?-offsets_from (offset + n) ns r (omega arith) ∙ ap some (omega arith)

plus_suc : (row r : ℕ) → row + suc r ≡ row + 1 + r
plus_suc row r = omega arith

pub count-ones :
    (row : ℕ) (ns : List ℕ) (r : ℕ) → get_elem? ns r ≡ some 1 → 0 < count (row + r) (ones row ns)
count-ones row [] r e = absurd (ground arith)
count-ones row (n ∷ ns) zero e = ground arith
count-ones row (n ∷ ns) (suc r) e =
    rw (plus_suc row r) (ground (arith, count-ones (row + 1) ns r e))

pub count-longer :
    (row : ℕ) (ns : List ℕ) (r : ℕ) {k : ℕ}
    → get_elem? ns r ≡ some k
    → k ≢ 1
    → 0 < count (row + r) (longer row ns)
count-longer row [] r e ne = absurd (ground arith)
count-longer row (n ∷ ns) zero {k} e ne = ground arith
count-longer row (n ∷ ns) (suc r) e ne =
    rw (plus_suc row r) (ground (arith, count-longer (row + 1) ns r e ne))

-- Only such rows stand in the two lists.
pub ones-entry :
    (row : ℕ) (ns : List ℕ) (r : ℕ)
    → 0 < count r (ones row ns)
    → (i : ℕ) × (r ≡ row + i) × (get_elem? ns i ≡ some 1)
ones-entry row [] r h = absurd (omega arith)
ones-entry row (n ∷ ns) r h = elim (Bool-cases (n == 1 && r == row)) [
  | inl e ↦ (0, ground arith, ground arith)
  | inr e ↦ let (i, f, g) = ones-entry (row + 1) ns r (ground arith) in (suc i, omega arith, g)
]

pub longer-entry :
    (row : ℕ) (ns : List ℕ) (r : ℕ)
    → 0 < count r (longer row ns)
    → (i : ℕ) × (r ≡ row + i) × (i < length ns)
longer-entry row [] r h = absurd (omega arith)
longer-entry row (n ∷ ns) r h = elim (Bool-cases (r == row)) [
  | inl e ↦ (0, ground arith, omega arith)
  | inr e ↦
      let (i, f, g) = longer-entry (row + 1) ns r (ground arith) in
      (suc i, omega arith, omega arith)
]

module _ {A : Type 0} where
  take-append : (xs ys : List A) → take (length xs) (xs ++ ys) ≡ xs
  take-append [] ys = refl
  take-append (x ∷ xs) ys = ap (λ l. x ∷ l) (take-append xs ys)

  drop-append : (xs ys : List A) (k : ℕ) → drop (length xs + k) (xs ++ ys) ≡ drop k ys
  drop-append [] ys k = ap (λ n. drop n ys) (omega arith)
  drop-append (x ∷ xs) ys k =
      let e : length (x ∷ xs) + k ≡ suc (length xs + k) = omega arith in rw e (drop-append xs ys k)

  -- The part of a row.
  pub take-drop-flat :
      (f : ℕ → List A) (n : ℕ → ℕ) (ids : List ℕ)
      → ((x : ℕ) → 0 < count x ids → length (f x) ≡ n x)
      → (r : ℕ) {x : ℕ} → get_elem? ids r ≡ some x
      → take (n x) (drop (prefix (map n ids) r) (flat f ids)) ≡ f x
  take-drop-flat f n [] len r e = absurd (ground arith)
  take-drop-flat f n (y ∷ ids) len zero {x} e =
      let same : x ≡ y = ground arith in
      rw (same, ← len y (ground arith)) (take-append (f y) (flat f ids))
  take-drop-flat f n (y ∷ ids) len (suc r) {x} e =
      ap (λ k. take (n x) (drop (k + prefix (map n ids) r) (f y ++ flat f ids)))
        (sym (len y (ground arith)))
      ∙ ap (take (n x)) (drop-append (f y) (flat f ids) (prefix (map n ids) r))
      ∙ take-drop-flat f n ids (λ z c. len z (omega arith)) r e

  pub length-take-drop :
      (start n : ℕ) (xs : List A) → start + n ≤ length xs → length (take n (drop start xs)) ≡ n
  length-take-drop zero zero xs h = refl
  length-take-drop zero (suc n) [] h = absurd (omega arith)
  length-take-drop zero (suc n) (x ∷ xs) h = ap suc (length-take-drop zero n xs (omega arith))
  length-take-drop (suc start) zero [] h = refl
  length-take-drop (suc start) (suc n) [] h = absurd (omega arith)
  length-take-drop (suc start) n (x ∷ xs) h = length-take-drop start n xs (omega arith)

  pub get_elem?-take-drop :
      (start n : ℕ) (xs : List A) (i : ℕ)
      → i < n
      → get_elem? (take n (drop start xs)) i ≡ get_elem? xs (start + i)
  get_elem?-take-drop zero zero xs i h = absurd (omega arith)
  get_elem?-take-drop zero (suc n) [] i h = refl
  get_elem?-take-drop zero (suc n) (x ∷ xs) zero h = refl
  get_elem?-take-drop zero (suc n) (x ∷ xs) (suc i) h =
      let e : 0 + suc i ≡ suc (0 + i) = omega arith in
      rw e (get_elem?-take-drop zero n xs i (omega arith))
  get_elem?-take-drop (suc start) zero [] i h = refl
  get_elem?-take-drop (suc start) (suc n) [] i h = refl
  get_elem?-take-drop (suc start) n (x ∷ xs) i h =
      let e : suc start + i ≡ suc (start + i) = omega arith in
      rw e (get_elem?-take-drop start n xs i h)

  -- The rows are as long as their numbers say.
  pub length-flat :
      (f : ℕ → List A) (n : ℕ → ℕ)
      → ((x : ℕ) → length (f x) ≡ n x)
      → (ids : List ℕ) → length (flat f ids) ≡ prefix (map n ids) (length ids)
  length-flat f n len [] = refl
  length-flat f n len (x ∷ ids) =
      omega (arith, length-append (f x) (flat f ids), len x, length-flat f n len ids)

-- A later row starts where an earlier one has ended, or behind it.
pub prefix_next :
    (ns : List ℕ) (r q : ℕ) {n : ℕ}
    → get_elem? ns r ≡ some n
    → r < q
    → prefix ns r + n ≤ prefix ns q
prefix_next [] r q e lt = absurd (ground arith)
prefix_next (m ∷ ns) r zero e lt = absurd (omega arith)
prefix_next (m ∷ ns) zero (suc q) {n} e lt = let same : m ≡ n = ground arith in omega arith
prefix_next (m ∷ ns) (suc r) (suc q) e lt = omega (arith, prefix_next ns r q e (omega arith))

-- How often a number stands in the lists of the ids.
module _ (a : ℕ) (f : ℕ → List ℕ) where
  pub count-flat_zero :
      (ids : List ℕ) → ((x : ℕ) → 0 < count x ids → count a (f x) ≡ 0) → count a (flat f ids) ≡ 0
  count-flat_zero [] h = refl
  count-flat_zero (x ∷ ids) h = omega (
    arith,
    count-append a (f x) (flat f ids),
    h x (ground arith),
    count-flat_zero ids (λ y c. h y (omega arith)),
  )

  pub count-flat_once :
      (x : ℕ) (ids : List ℕ)
      → count x ids ≤ 1
      → count a (f x) ≤ 1
      → ((y : ℕ) → 0 < count y ids → y ≢ x → count a (f y) ≡ 0)
      → count a (flat f ids) ≤ 1
  count-flat_once x [] once le h = omega arith
  count-flat_once x (y ∷ ids) once le h =
      let split = count-append a (f y) (flat f ids) in
      elim (ℕ_discrete y x) [
        | yes e ↦
            let none_left : count x ids ≡ 0 = ground arith in
            let rest =
              count-flat_zero ids
                (λ z c. h z (omega arith) (λ g. absurd (omega (arith, ap (λ w. count w ids) g)))) in
            omega (arith, split, rest, ap (λ w. count a (f w)) e)
        | no ne ↦
            let rest = count-flat_once x ids (omega arith) le (λ z c. h z (omega arith)) in
            omega (arith, split, rest, h y (ground arith) ne)
      ]
