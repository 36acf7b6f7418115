-- ===== src/BlockManager/Invariant.antt =====
-- The invariant of block_manager.py: every block is free, reclaimable or referenced, one of the
-- three, and its reference count is the number of references that the tables hold.
-- During a method some references are in no table yet (`allocate`, `fork`) or no longer (`free`):
-- those are `pending`.
use paged_serve.Prelude.{
  ℕ, zero, suc, ◌+◌, ◌≤◌, ◌<◌, ◌≡◌, ◌≢◌, refl, arith, List, [], ◌∷◌, none, count, ltb,
  if◌then◌else◌,
}
use paged_serve.Block.{BlockTable}
use paged_serve.PrefixCache.Index.{IsIndexed}
use paged_serve.BlockManager.{BlockManager, range_from, find_table}

-- The references to a block that the tables hold.
abbrev pub held : ℕ → List (ℕ × BlockTable) → ℕ
held b [] = 0
held b ((j, t) ∷ l) = count b t.blocks + held b l

-- 1 if the number is positive.
abbrev pub sign : ℕ → ℕ
sign zero = 0
sign (suc n) = 1

-- No sequence has two tables.
abbrev pub Distinct : List (ℕ × BlockTable) → Type 0
Distinct [] = Unit
Distinct ((j, t) ∷ l) = (find_table j l ≡ none) × Distinct l

pub record IsConsistent (pending : List ℕ) (m : BlockManager) : Type 0 where
  pub index : IsIndexed m.prefix_cache
  -- Reference counts are exact.
  pub refs : (b : ℕ) → m.ref_count b ≡ count b pending + held b m.block_tables
  -- Of the free list, the pool and the referenced blocks, one has the block.
  pub places :
      (b : ℕ)
      → count b m.free_blocks + count b m.prefix_cache.pool + sign (m.ref_count b)
        ≡ (if ltb b m.num_blocks then 1 else 0)
  -- An indexed block is in the pool or referenced, never free.
  pub cached :
      (b : ℕ)
      → m.prefix_cache.by_block b ≢ none
      → count b m.prefix_cache.pool + sign (m.ref_count b) ≡ 1
  pub distinct : Distinct m.block_tables

-- Between two calls nothing is pending.
abbrev pub IsValid : BlockManager → Type 0
IsValid = IsConsistent []

pub sign_zero : (n : ℕ) → sign n ≡ 0 → n ≡ 0
sign_zero zero h = refl
sign_zero (suc n) h = absurd (omega arith)

pub sign_le : (n : ℕ) → sign n ≤ n
sign_le zero = omega arith
sign_le (suc n) = omega arith

pub sign_pos : (n : ℕ) → 0 < n → sign n ≡ 1
sign_pos zero h = elim h [ ]
sign_pos (suc n) h = refl

pub count-range_from :
    (b start n : ℕ)
    → count b (range_from start n) ≡ (if ltb b start then 0 else if ltb b (start + n) then 1 else 0)
count-range_from b start zero = ground arith
count-range_from b start (suc n) = ground (arith, count-range_from b (suc start) n)
