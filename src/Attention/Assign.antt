-- ===== src/Attention/Assign.antt =====
-- The assignment of K or V to a plane of the dense cache, in `forward` of contiguous.py.
use paged_serve.Prelude.{
  ℕ, zero, suc, min, ◌+◌, ◌-◌, ◌≤◌, ◌<◌, ◌≡◌, ◌⊎◌, inl, inr, refl, sym, ap, ◌∙◌, arith, true, false,
  List, [], ◌∷◌, some, length, get_elem?, get_elem?_lt, ◌==◌, ==_self, Bool-cases,
}
use paged_serve.BlockManager.{range_from}
use paged_serve.BlockManager.Invariant.{count-range_from}
use paged_serve.Attention.Contiguous.{broadcast, broadcast_rows, write_seqs, write_dense}
use paged_serve.Attention.Visible.{get_elem?-range_from}
use paged_serve.Attention.Layout.{some-injective}
use paged_serve.Attention.Isolation.{index_copy_inside, index_copy_outside}

-- A tensor of K or V rows: as many sequences, each of as many rows.
abbrev pub Shaped : {A : Type 0} → ℕ → ℕ → List (List A) → Type 0
Shaped {A} num_seqs width rows =
    (length rows ≡ num_seqs)
    × ((r : ℕ) (xs : List A) → get_elem? rows r ≡ some xs → length xs ≡ width)

-- What an assignment does to a plane: the rows are at their sequence's slot, from `start` on, and
-- all else is as before.
pub record Assigned {R : Type 0} (start width : ℕ) (rows : List (List R)) (old new : ℕ → ℕ → R)
    : Type 0 where
  pub inside :
      (r j : ℕ) (xs : List R) (x : R)
      → get_elem? rows r ≡ some xs
      → get_elem? xs j ≡ some x
      → new r (start + j) ≡ x
  pub outside :
      (r p : ℕ) → (p < start) ⊎ ((start + width ≤ p) ⊎ (length rows ≤ r)) → new r p ≡ old r p

broadcast-same : {A : Type 0} (n : ℕ) (xs : List A) → length xs ≡ n → broadcast n xs ≡ some xs
unfolding broadcast
broadcast-same n xs e = let fits : (length xs == n) ≡ true = ground (arith, e) in rw fits refl

zero_plus : (n : ℕ) → 0 + n ≡ n
zero_plus n = omega arith

module _ {R : Type 0} where
  broadcast_rows-same :
      (n : ℕ) (rows : List (List R))
      → ((r : ℕ) (xs : List R) → get_elem? rows r ≡ some xs → length xs ≡ n)
      → broadcast_rows n rows ≡ some rows
  unfolding broadcast_rows
  broadcast_rows-same n [] h = refl
  broadcast_rows-same n (xs ∷ rows) h =
      rw
        (
          broadcast_rows,
          broadcast-same n xs (h 0 xs refl),
          broadcast_rows-same n rows (λ r. h (suc r)),
        )
        refl

  -- A slot before the first sequence is not written to.
  write_seqs_before :
      (seq start : ℕ) (rows : List (List R)) (plane : ℕ → ℕ → R) (k p : ℕ)
      → k < seq
      → write_seqs seq start rows plane k p ≡ plane k p
  unfolding write_seqs
  write_seqs_before seq start [] plane k p h = refl
  write_seqs_before seq start (xs ∷ rows) plane k p h =
      let other : (k == seq) ≡ false = ground (arith, h) in
      write_seqs_before (suc seq) start rows _ k p (omega (arith, h)) ∙ rw other refl

  write_seqs_inside :
      (seq start : ℕ) (rows : List (List R)) (plane : ℕ → ℕ → R) (r j : ℕ) (xs : List R) (x : R)
      → get_elem? rows r ≡ some xs
      → get_elem? xs j ≡ some x
      → j < length xs
      → write_seqs seq start rows plane (seq + r) (start + j) ≡ x
  unfolding write_seqs
  write_seqs_inside seq start [] plane r j xs x e f h = absurd (ground arith)
  write_seqs_inside seq start (ys ∷ rows) plane zero j xs x e f h =
      let same : ys ≡ xs = some-injective e in
      let here : seq + 0 ≡ seq = omega arith in
      let once = count-range_from (start + j) start (length xs) in
      rw (here, same)
        (write_seqs_before (suc seq) start rows _ seq (start + j) (omega arith)
          ∙ rw (==_self seq) (
              index_copy_inside (range_from start (length xs)) xs (plane seq) j (start + j)
                (get_elem?-range_from j start (length xs) h) f (ground (arith, once))))
  write_seqs_inside seq start (ys ∷ rows) plane (suc r) j xs x e f h =
      let next : seq + suc r ≡ suc seq + r = omega arith in
      rw next (write_seqs_inside (suc seq) start rows _ r j xs x e f h)

  write_seqs_outside :
      (seq start width : ℕ) (rows : List (List R)) (plane : ℕ → ℕ → R) (k p : ℕ)
      → ((r : ℕ) (xs : List R) → get_elem? rows r ≡ some xs → length xs ≡ width)
      → (p < start) ⊎ ((start + width ≤ p) ⊎ (seq + length rows ≤ k))
      → write_seqs seq start rows plane k p ≡ plane k p
  unfolding write_seqs
  write_seqs_outside seq start width [] plane k p h out = refl
  write_seqs_outside seq start width (xs ∷ rows) plane k p h out =
      let len = h 0 xs refl in
      let none_ = count-range_from p start (length xs) in
      write_seqs_outside (suc seq) start width rows _ k p (λ r. h (suc r))
        (elim out [
          | inl before ↦ inl before
          | inr (inl behind) ↦ inr (inl behind)
          | inr (inr beyond) ↦ inr (inr (omega (arith, beyond)))
        ])
      ∙ elim (Bool-cases (k == seq)) [
        | inl here ↦ rw here (
            index_copy_outside (range_from start (length xs)) xs (plane k) p (elim out [
              | inl before ↦ ground (arith, none_, before)
              | inr (inl behind) ↦ ground (arith, none_, behind, len)
              | inr (inr beyond) ↦ absurd (ground (arith, beyond, here))
            ]))
        | inr other ↦ rw other refl
      ]

  pub write_dense-Assigned :
      (num_seqs start width max_seq_len : ℕ) (rows : List (List R)) (plane : ℕ → ℕ → R)
      → Shaped num_seqs width rows
      → start + width ≤ max_seq_len
      → (new : ℕ → ℕ → R) × (write_dense num_seqs start (start + width) rows max_seq_len plane
          ≡ some new)
        × Assigned start width rows plane new
  unfolding write_dense
  write_dense-Assigned num_seqs start width max_seq_len rows plane (number, widths) fits =
      let room : min (start + width) max_seq_len - start ≡ width = omega (arith, fits) in
      (
        write_seqs 0 start rows plane,
        rw
            (
              write_dense,
              broadcast-same num_seqs rows number,
              room,
              broadcast_rows-same width rows widths,
            )
            refl,
        record {
          inside = λ r j xs x e f.
              ap (λ k. write_seqs 0 start rows plane k (start + j)) (sym (zero_plus r))
              ∙ write_seqs_inside 0 start rows plane r j xs x e f (get_elem?_lt xs j f);
          outside = λ r p out.
              write_seqs_outside 0 start width rows plane r p widths
                (rw (zero_plus (length rows)) out);
        },
      )
