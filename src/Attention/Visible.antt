-- ===== src/Attention/Visible.antt =====
-- What a query may see through a block table: the rows at the slots of its sequence's positions.
use paged_serve.Prelude.{
  get_elem?-append_lt, ℕ, zero, suc, ◌+◌, ◌-◌, ◌*◌, ◌/◌, ◌%◌, ◌≤◌, ◌<◌, ◌≡◌, refl, ap, ◌∙◌, sym,
  arith, List, [], ◌∷◌, ◌++◌, some, map, length, length-append, get_elem?, get_elem?_lt, take, ltb,
  leb, ltb-true, ltb-false, ◌&&◌, min, ok, inl, inr, Bool-cases,
}
use paged_serve.Block.{BlockTable, capacity, slot, slots}
use paged_serve.Block.Slots.{slots_of_le, slot-fields}
use paged_serve.BlockManager.{range_from}
use paged_serve.Attention.{gather_rows, unmasked, row_mask}

-- The slots that a gather of blocks reads.
abbrev pub block_slots : ℕ → List ℕ → List ℕ
block_slots n [] = []
block_slots n (b ∷ bs) = range_from (b * n) n ++ block_slots n bs

module _ {A B : Type 0} (f : A → B) where
  pub map-append_lem : (xs ys : List A) → map f (xs ++ ys) ≡ map f xs ++ map f ys
  map-append_lem [] ys = refl
  map-append_lem (x ∷ xs) ys = ap (λ l. f x ∷ l) (map-append_lem xs ys)

  pub length-map_lem : (xs : List A) → length (map f xs) ≡ length xs
  length-map_lem [] = refl
  length-map_lem (x ∷ xs) = ap suc (length-map_lem xs)

  pub take-map : (n : ℕ) (xs : List A) → take n (map f xs) ≡ map f (take n xs)
  take-map zero xs = refl
  take-map (suc n) [] = refl
  take-map (suc n) (x ∷ xs) = ap (λ l. f x ∷ l) (take-map n xs)

gather_rows_lem :
    {R : Type 0} (n : ℕ) (plane : ℕ → R) (bs : List ℕ)
    → gather_rows n plane bs ≡ map plane (block_slots n bs)
unfolding gather_rows
gather_rows_lem n plane [] = refl
gather_rows_lem n plane (b ∷ bs) =
    ap (λ l. map plane (range_from (b * n) n) ++ l) (gather_rows_lem n plane bs)
    ∙ sym (map-append_lem plane (range_from (b * n) n) (block_slots n bs))

pub take_nil : {A : Type 0} (n : ℕ) → take {A = A} n [] ≡ []
take_nil zero = refl
take_nil (suc n) = refl

module _ {A : Type 0} where
  -- A mask of two bounds takes the entries below both.
  unmasked-row_mask :
      (width start seq_len pos : ℕ) (xs : List A)
      → length xs ≡ width
      → unmasked (map (λ key. ltb key seq_len && leb key pos) (range_from start width)) xs
        ≡ take (min seq_len (suc pos) - start) xs
  unmasked-row_mask zero start seq_len pos [] e = sym (take_nil (min seq_len (suc pos) - start))
  unmasked-row_mask zero start seq_len pos (x ∷ xs) e = absurd (omega arith)
  unmasked-row_mask (suc width) start seq_len pos [] e = absurd (omega arith)
  unmasked-row_mask (suc width) start seq_len pos (x ∷ xs) e =
      let rest = unmasked-row_mask width (suc start) seq_len pos xs (omega arith) in
      elim (Bool-cases (ltb start seq_len && leb start pos)) [
        | inl seen ↦
            let k : min seq_len (suc pos) - start ≡ suc (min seq_len (suc pos) - suc start) =
              ground arith in
            rw (seen, k, rest) refl
        | inr hidden ↦
            let k : min seq_len (suc pos) - start ≡ 0 = ground arith in
            let k' : min seq_len (suc pos) - suc start ≡ 0 = ground arith in
            rw (hidden, k, rest, k') refl
      ]

-- The entry of a run of blocks at a position.
pub get_elem?-range_from :
    (i start n : ℕ) → i < n → get_elem? (range_from start n) i ≡ some (start + i)
get_elem?-range_from zero start zero h = absurd (omega arith)
get_elem?-range_from zero start (suc n) h = ap some (omega arith)
get_elem?-range_from (suc i) start zero h = absurd (omega arith)
get_elem?-range_from (suc i) start (suc n) h =
    get_elem?-range_from i (suc start) n (omega arith) ∙ ap some (omega arith)

module _ {A : Type 0} where
  pub get_elem?-append_ge :
      (xs ys : List A) (i : ℕ)
      → length xs ≤ i
      → get_elem? (xs ++ ys) i ≡ get_elem? ys (i - length xs)
  get_elem?-append_ge [] ys i h = ap (get_elem? ys) (omega arith)
  get_elem?-append_ge (x ∷ xs) ys zero h = absurd (omega arith)
  get_elem?-append_ge (x ∷ xs) ys (suc i) h =
      get_elem?-append_ge xs ys i (omega arith) ∙ ap (get_elem? ys) (omega arith)

  -- A prefix is known by its entries.
  pub take_ext :
      (n : ℕ) (xs l : List A)
      → length l ≡ n
      → ((i : ℕ) → i < n → get_elem? xs i ≡ get_elem? l i)
      → take n xs ≡ l
  take_ext zero xs [] e h = refl
  take_ext zero xs (y ∷ l) e h = absurd (omega arith)
  take_ext (suc n) xs [] e h = absurd (omega arith)
  take_ext (suc n) [] (y ∷ l) e h = absurd (ground (arith, h 0 (omega arith)))
  take_ext (suc n) (x ∷ xs) (y ∷ l) e h =
      let first : x ≡ y = ground (arith, h 0 (omega arith)) in
      let rest = take_ext n xs l (omega arith) (λ i lt. h (suc i) (omega arith)) in
      rw (first, rest) refl

pub length-range_from : (start n : ℕ) → length (range_from start n) ≡ n
length-range_from start zero = refl
length-range_from start (suc n) = ap suc (length-range_from (suc start) n)

length-block_slots : (n : ℕ) (bs : List ℕ) → length (block_slots n bs) ≡ length bs * n
length-block_slots n [] = omega arith
length-block_slots n (b ∷ bs) =
    length-append (range_from (b * n) n) (block_slots n bs)
    ∙ grind (arith, length-range_from (b * n) n, length-block_slots n bs)

module _ (n : ℕ) (positive : 0 < n) where
  -- `slot` reads the slots of its blocks at the position.
  get_elem?-block_slots :
      (bs : List ℕ) (p b : ℕ)
      → get_elem? bs (p / n) ≡ some b
      → get_elem? (block_slots n bs) p ≡ some (b * n + p % n)
  get_elem?-block_slots [] p b e = absurd (ground arith)
  get_elem?-block_slots (c ∷ bs) p b e = elim (Bool-cases (ltb p n)) [
    | inl lt ↦
        let first : p / n ≡ 0 = grind arith in
        let same : p % n ≡ p = grind arith in
        let f : get_elem? (c ∷ bs) 0 ≡ some b = rw first at e in
        let g : c ≡ b = ground arith in
        get_elem?-append_lt (range_from (c * n) n) (block_slots n bs) p
          (rw (length-range_from (c * n) n) (ltb-true p n lt))
        ∙ get_elem?-range_from p (c * n) n (ltb-true p n lt)
        ∙ rw (g, same) refl
    | inr ge ↦
        let le : n ≤ p = ltb-false p n ge in
        let next : p / n ≡ suc ((p - n) / n) = grind arith in
        let same : p % n ≡ (p - n) % n = grind arith in
        let f : get_elem? (c ∷ bs) (suc ((p - n) / n)) ≡ some b = rw next at e in
        get_elem?-append_ge (range_from (c * n) n) (block_slots n bs) p
          (rw (length-range_from (c * n) n) le)
        ∙ ap (λ k. get_elem? (block_slots n bs) (p - k)) (length-range_from (c * n) n)
        ∙ get_elem?-block_slots bs (p - n) b f
        ∙ ap (λ r. some (b * n + r)) (sym same)
  ]

address : (s n : ℕ) → 0 < n → s / n * n + s % n ≡ s
address s n h = grind arith

minus_zero : (n : ℕ) → n - 0 ≡ n
minus_zero n = omega arith

zero_plus : (i : ℕ) → 0 + i ≡ i
zero_plus i = omega arith

module _ (t : BlockTable) (positive : 0 < t.block_size) where
  -- Padding behind a table does not move the slots of its positions.
  pub slot-block_slots :
      (padding : List ℕ) (p : ℕ) {s : ℕ}
      → slot t p ≡ ok s
      → get_elem? (block_slots t.block_size (t.blocks ++ padding)) p ≡ some s
  slot-block_slots padding p {s} f =
      let (b, off) = slot-fields t positive p f in
      get_elem?-block_slots t.block_size positive (t.blocks ++ padding) p (s / t.block_size) (
        get_elem?-append_lt t.blocks padding (p / t.block_size)
          (get_elem?_lt t.blocks (p / t.block_size) b)
        ∙ b)
      ∙ ap (λ r. some (s / t.block_size * t.block_size + r)) (sym off)
      ∙ ap some (address s t.block_size positive)

  -- A query at a position sees the rows at the slots of the positions up to its own, in order,
  -- whatever pads the table.
  pub unmasked-gather_rows :
      (padding : List ℕ) (width seq_len pos : ℕ)
      → length t.blocks + length padding ≡ width
      → min seq_len (suc pos) ≤ capacity t
      → (l : List ℕ) × (slots t 0 (min seq_len (suc pos)) ≡ ok l)
        × (length l ≡ min seq_len (suc pos))
        × ((R : Type 0) (plane : ℕ → R)
            → unmasked
                (row_mask (width * t.block_size) seq_len pos)
                (gather_rows t.block_size plane (t.blocks ++ padding))
              ≡ map plane l)
  unmasked-gather_rows padding width seq_len pos w fits =
      let n = min seq_len (suc pos) in
      let all = block_slots t.block_size (t.blocks ++ padding) in
      let (l, e, len, at) = slots_of_le t positive 0 n (omega arith) in
      let first : take n all ≡ l = take_ext n all l len (λ i lt.
        let (s, here, f) = at i lt in
        slot-block_slots padding i (rw (← zero_plus i) f) ∙ sym here) in
      let size : length all ≡ width * t.block_size =
        length-block_slots t.block_size (t.blocks ++ padding)
        ∙ ap (λ k. k * t.block_size) (length-append t.blocks padding ∙ w) in
      (
        l,
        e,
        len,
        λ R plane.
            ap (unmasked (row_mask (width * t.block_size) seq_len pos))
              (gather_rows_lem t.block_size plane (t.blocks ++ padding))
            ∙ unmasked-row_mask (width * t.block_size) 0 seq_len pos (map plane all)
                (length-map_lem plane all ∙ size)
            ∙ ap (λ k. take k (map plane all)) (minus_zero n)
            ∙ take-map plane n all
            ∙ ap (map plane) first,
      )
