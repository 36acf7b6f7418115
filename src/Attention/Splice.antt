-- ===== src/Attention/Splice.antt =====
-- The writes of rows into an output: each index holds what the last write at it put there.
use paged_serve.Prelude.{
  ℕ, zero, suc, ◌+◌, ◌≤◌, ◌<◌, ◌≡◌, ◌≢◌, ◌⊎◌, inl, inr, refl, ap, ◌∙◌, arith, List, [], ◌∷◌, ◌++◌,
  Option, some, length, get_elem?, set, count,
}
use native.Mathlib.Decide.{ℕ_discrete}
use paged_serve.Attention.Gather.{splice}

module _ {A : Type 0} where
  length-set : (xs : List A) (i : ℕ) (v : A) → length (set xs i v) ≡ length xs
  length-set [] i v = refl
  length-set (x ∷ xs) zero v = refl
  length-set (x ∷ xs) (suc i) v = ap suc (length-set xs i v)

  get_elem?-set_self :
      (xs : List A) (i : ℕ) (v : A) → i < length xs → get_elem? (set xs i v) i ≡ some v
  get_elem?-set_self [] i v h = absurd (omega arith)
  get_elem?-set_self (x ∷ xs) zero v h = refl
  get_elem?-set_self (x ∷ xs) (suc i) v h = get_elem?-set_self xs i v (omega arith)

  get_elem?-set_ne :
      (xs : List A) (i j : ℕ) (v : A) → i ≢ j → get_elem? (set xs i v) j ≡ get_elem? xs j
  get_elem?-set_ne [] i j v ne = refl
  get_elem?-set_ne (x ∷ xs) zero zero v ne = absurd (ne refl)
  get_elem?-set_ne (x ∷ xs) zero (suc j) v ne = refl
  get_elem?-set_ne (x ∷ xs) (suc i) zero v ne = refl
  get_elem?-set_ne (x ∷ xs) (suc i) (suc j) v ne = get_elem?-set_ne xs i j v (λ e. ne (ap suc e))

module _ {O : Type 0} where
  length-splice :
      (start : ℕ) (os : List O) (out : List (Option O)) → length (splice start os out) ≡ length out
  unfolding splice
  length-splice start [] out = refl
  length-splice start (o ∷ os) out =
      length-splice (suc start) os (set out start (some o)) ∙ length-set out start (some o)

  splice_outside :
      (start : ℕ) (os : List O) (out : List (Option O)) (j : ℕ)
      → (j < start) ⊎ (start + length os ≤ j)
      → get_elem? (splice start os out) j ≡ get_elem? out j
  unfolding splice
  splice_outside start [] out j h = refl
  splice_outside start (o ∷ os) out j h =
      splice_outside (suc start) os (set out start (some o)) j
        (elim h [ inl lt ↦ inl (omega arith) | inr le ↦ inr (omega arith) ])
      ∙ get_elem?-set_ne out start j (some o)
          (elim h [ inl lt ↦ omega arith | inr le ↦ omega arith ])

  splice_inside :
      (start : ℕ) (os : List O) (out : List (Option O)) (i : ℕ) {o : O}
      → start + length os ≤ length out
      → get_elem? os i ≡ some o
      → get_elem? (splice start os out) (start + i) ≡ some (some o)
  unfolding splice
  splice_inside start [] out i h e = absurd (ground arith)
  splice_inside start (p ∷ os) out zero {o} h e =
      let first : p ≡ o = ground arith in
      let here : start + 0 ≡ start = omega arith in
      rw here (
        splice_outside (suc start) os (set out start (some p)) start (inl (omega arith))
        ∙ get_elem?-set_self out start (some p) (omega arith)
        ∙ ap (λ v. some (some v)) first)
  splice_inside start (p ∷ os) out (suc i) h e =
      let next : start + suc i ≡ suc start + i = omega arith in
      rw next (
        splice_inside (suc start) os (set out start (some p)) i
          (rw (length-set out start (some p)) (omega arith)) e)

-- Rows with a start and a list of entries, written one behind the other.
module _ {O : Type 0} (starts : ℕ → ℕ) (entries : ℕ → List O) where
  abbrev pub write_rows : List ℕ → List (Option O) → List (Option O)
  write_rows [] out = out
  write_rows (r ∷ rs) out = write_rows rs (splice (starts r) (entries r) out)

  pub write_rows-append :
      (rs qs : List ℕ) (out : List (Option O))
      → write_rows (rs ++ qs) out ≡ write_rows qs (write_rows rs out)
  write_rows-append [] qs out = refl
  write_rows-append (r ∷ rs) qs out = write_rows-append rs qs (splice (starts r) (entries r) out)

  pub length-write_rows :
      (rs : List ℕ) (out : List (Option O)) → length (write_rows rs out) ≡ length out
  length-write_rows [] out = refl
  length-write_rows (r ∷ rs) out =
      length-write_rows rs (splice (starts r) (entries r) out)
      ∙ length-splice (starts r) (entries r) out

  -- The region of a row lies before that of another, or behind it.
  abbrev pub Apart : ℕ → ℕ → Type 0
  Apart r q =
      (starts r + length (entries r) ≤ starts q) ⊎ (starts q + length (entries q) ≤ starts r)

  -- An entry of a row stands in the output if the row is written, or if it stood there before, as
  -- long as the other rows are apart from it.
  pub write_rows_holds :
      (rs : List ℕ) (out : List (Option O)) (r i : ℕ) {o : O}
      → ((q : ℕ) → 0 < count q rs → starts q + length (entries q) ≤ length out)
      → ((q : ℕ) → 0 < count q rs → q ≢ r → Apart q r)
      → get_elem? (entries r) i ≡ some o
      → i < length (entries r)
      → (get_elem? out (starts r + i) ≡ some (some o)) ⊎ (0 < count r rs)
      → get_elem? (write_rows rs out) (starts r + i) ≡ some (some o)
  write_rows_holds [] out r i bounds apart e lt (inl here) = here
  write_rows_holds [] out r i bounds apart e lt (inr c) = absurd (omega arith)
  write_rows_holds (q ∷ rs) out r i {o} bounds apart e lt h =
      let next = splice (starts q) (entries q) out in
      write_rows_holds rs next r i
        (λ p c. rw (length-splice (starts q) (entries q) out) (bounds p (omega arith)))
        (λ p c ne. apart p (omega arith) ne) e lt
        (elim (ℕ_discrete q r) [
          | yes same ↦
              let bound : starts r + length (entries r) ≤ length out =
                rw (← same) (bounds q (ground arith)) in
              inl (rw same (splice_inside (starts r) (entries r) out i bound e))
          | no ne ↦
              let aside : (starts r + i < starts q)
                  ⊎ (starts q + length (entries q) ≤ starts r + i) =
                elim (apart q (ground arith) ne) [
                  | inl before ↦ inr (omega arith)
                  | inr behind ↦ inl (omega arith)
                ] in
              elim h [
                | inl here ↦
                    inl (splice_outside (starts q) (entries q) out (starts r + i) aside ∙ here)
                | inr c ↦ inr (ground arith)
              ]
        ])
