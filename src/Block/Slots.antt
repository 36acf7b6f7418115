-- ===== src/Block/Slots.antt =====
-- `slot` and `slots` of block.py: the addresses of logical positions.
use paged_serve.Prelude.{
  ℕ, suc, zero, ◌+◌, ◌*◌, ◌/◌, ◌%◌, ◌≤◌, ◌<◌, ◌≡◌, refl, sym, ◌∙◌, arith, some, List, [], ◌∷◌,
  length, get_elem?, count, ok, raise, index_error, get_elem?_of_lt, get_elem?_of_ge,
  count-get_elem?, count-get_elem?_twice,
}
use native.Mathlib.Decide.{ℕ_discrete}
use paged_serve.Block.{BlockTable, capacity, slot, slots}

-- The quotient and the remainder of an address.
div-address : (b r n : ℕ) → r < n → (b * n + r) / n ≡ b
div-address b r n h = grind arith

mod-address : (b r n : ℕ) → r < n → (b * n + r) % n ≡ r
mod-address b r n h = grind arith

same_position : (p q n : ℕ) → 0 < n → p / n ≡ q / n → p % n ≡ q % n → p ≡ q
same_position p q n h e f = grind arith

plus_zero : (a : ℕ) → a + 0 ≡ a
plus_zero a = omega arith

plus_suc : (a i : ℕ) → a + suc i ≡ a + 1 + i
plus_suc a i = omega arith

module _ (t : BlockTable) (positive : 0 < t.block_size) where
  -- What an address says: its block is the table's entry, its offset the position's.
  pub slot-fields :
      (p : ℕ) {s : ℕ}
      → slot t p ≡ ok s
      → (get_elem? t.blocks (p / t.block_size) ≡ some (s / t.block_size))
        × (s % t.block_size ≡ p % t.block_size)
  unfolding slot
  slot-fields p {s} h = grind (arith, div-address, mod-address)

  pub slot_of_lt : (p : ℕ) → p < capacity t → (s : ℕ) × (slot t p ≡ ok s)
  unfolding slot capacity
  slot_of_lt p h =
      let (b, e) = get_elem?_of_lt t.blocks (p / t.block_size) (grind arith) in
      (b * t.block_size + p % t.block_size, rw (e, slot))

  pub slot_of_ge : (p : ℕ) → capacity t ≤ p → slot t p ≡ raise index_error
  unfolding slot capacity
  slot_of_ge p h = rw (get_elem?_of_ge t.blocks (p / t.block_size) (grind arith), slot)

  -- For a table with a positive block size in which no block stands twice, two positions with the
  -- same slot are the same position.
  pub slot-injective :
      ((x : ℕ) → count x t.blocks ≤ 1)
      → (p q : ℕ) {s : ℕ} → slot t p ≡ ok s
      → slot t q ≡ ok s
      → p ≡ q
  slot-injective once p q {s} hp hq = elim (ℕ_discrete (p / t.block_size) (q / t.block_size)) [
    | yes same ↦
        same_position p q t.block_size positive same
          (sym (slot-fields p hp).1 ∙ (slot-fields q hq).1)
    | no other ↦
        let twice : 1 < count (s / t.block_size) t.blocks =
          count-get_elem?_twice t.blocks (p / t.block_size) (q / t.block_size) (slot-fields p hp).0
            (slot-fields q hq).0 other in
        absurd (omega (arith, once (s / t.block_size)))
  ]

  -- An address holds a block of the table.
  pub slot-mem : (p : ℕ) {s : ℕ} → slot t p ≡ ok s → 0 < count (s / t.block_size) t.blocks
  slot-mem p h = count-get_elem? t.blocks (p / t.block_size) (slot-fields p h).0

  -- For a table with a positive block size, a run of positions within the capacity has slots, in
  -- order: the list that `slots` returns has the run's length and, at index i, the slot of
  -- position start + i.
  pub slots_of_le :
      (start n : ℕ)
      → start + n ≤ capacity t
      → (l : List ℕ) × (slots t start n ≡ ok l)
        × (length l ≡ n)
        × ((i : ℕ) → i < n → (s : ℕ) × (get_elem? l i ≡ some s) × (slot t (start + i) ≡ ok s))
  unfolding slots
  slots_of_le start zero h = ([], refl, refl, λ i lt. elim lt [ ])
  slots_of_le start (suc n) h =
      let (s, e) = slot_of_lt start (omega arith) in
      let (l, f, len, at) = slots_of_le (start + 1) n (omega arith) in
      (s ∷ l, rw (e, f), omega arith, entry s l e at)
    where
      entry :
          (s : ℕ) (l : List ℕ)
          → slot t start ≡ ok s
          → ((i : ℕ)
              → i < n
              → (s' : ℕ) × (get_elem? l i ≡ some s') × (slot t (start + 1 + i) ≡ ok s'))
          → (i : ℕ) → i < suc n
          → (s' : ℕ) × (get_elem? (s ∷ l) i ≡ some s') × (slot t (start + i) ≡ ok s')
      entry s l e at zero lt = (s, refl, rw (plus_zero start) e)
      entry s l e at (suc i) lt =
          let (s', found, here) = at i (omega arith) in (s', found, rw (plus_suc start i) here)

  -- For a table with a positive block size, `slots` raises `IndexError` for a run that starts
  -- within the capacity or at its end and leaves it.
  pub slots_of_gt :
      (start n : ℕ)
      → start ≤ capacity t
      → capacity t < start + n
      → slots t start n ≡ raise index_error
  unfolding slots
  slots_of_gt start zero lo h = absurd (omega arith)
  slots_of_gt start (suc n) lo h = elim (ℕ_discrete start (capacity t)) [
    | yes e ↦ rw (slot_of_ge start (omega arith))
    | no ne ↦
        let (s, e) = slot_of_lt start (omega arith) in
        rw (e, slots_of_gt (start + 1) n (omega arith) (omega arith))
  ]
