-- ===== src/BlockManager/Checks.antt =====
-- `check_invariants` of block_manager.py, the run-time test of the allocator's invariant. A Python
-- set is the list of its elements, each once; where the source raises `AssertionError` the test is
-- `false`.
use paged_serve.Prelude.{
  ℕ, ◌+◌, Bool, true, not, ◌&&◌, List, [], ◌∷◌, ◌++◌, Option, none, some, length, count, ltb, ◌==◌,
  if◌then◌else◌,
}
use paged_serve.Block.{BlockTable, blocks_needed}
use paged_serve.PrefixCache
use paged_serve.BlockManager.{BlockManager, find_table, range_from}

abbrev pub has : ℕ → List ℕ → Bool
has x xs = ltb 0 (count x xs)

-- `set(xs)`
unfoldable pub set_of : List ℕ → List ℕ
set_of [] = []
set_of (x ∷ xs) = let rest = set_of xs in if has x rest then rest else x ∷ rest

-- `xs - ys`
unfoldable pub minus : List ℕ → List ℕ → List ℕ
minus [] ys = []
minus (x ∷ xs) ys = let rest = minus xs ys in if has x ys then rest else x ∷ rest

-- `not (xs & ys)`
unfoldable pub disjoint : List ℕ → List ℕ → Bool
disjoint [] ys = true
disjoint (x ∷ xs) ys = not (has x ys) && disjoint xs ys

-- The references of all tables, block by block.
unfoldable pub references : List (ℕ × BlockTable) → List ℕ
references [] = []
references ((k, t) ∷ l) = t.blocks ++ references l

unfoldable pub tables_disjoint : List ℕ → List (ℕ × BlockTable) → Bool
tables_disjoint free [] = true
tables_disjoint free ((k, t) ∷ l) = disjoint free t.blocks && tables_disjoint free l

-- The count of each held block is its number of references, and not zero.
unfoldable pub counts_exact : (ℕ → ℕ) → List ℕ → List ℕ → Bool
counts_exact ref_count [] held = true
counts_exact ref_count (b ∷ bs) held =
    (ref_count b == count b held) && not (ref_count b == 0) && counts_exact ref_count bs held

unfoldable pub sum_refs : (ℕ → ℕ) → List ℕ → ℕ
sum_refs ref_count [] = 0
sum_refs ref_count (b ∷ bs) = ref_count b + sum_refs ref_count bs

-- The size of each table whose length is given.
unfoldable pub sizes_exact : BlockManager → List (ℕ × ℕ) → Bool
sizes_exact m [] = true
sizes_exact m ((k, n) ∷ l) =
    let rest = sizes_exact m l in
    elim (find_table k m.block_tables) [
      | none ↦ rest
      | some t ↦ (length t.blocks == blocks_needed m.block_size n) && rest
    ]

abbrev pub lengths_exact : Option (List (ℕ × ℕ)) → BlockManager → Bool
lengths_exact none m = true
lengths_exact (some l) m = sizes_exact m l

unfoldable pub check_invariants : BlockManager → Option (List (ℕ × ℕ)) → Bool
check_invariants m sequence_lengths =
    let free = set_of m.free_blocks in
    let held = references m.block_tables in
    let allocated = set_of held in
    let reclaimable = minus (set_of (PrefixCache.reclaimable_blocks m.prefix_cache)) allocated in
    (length free == length m.free_blocks)
    && tables_disjoint free m.block_tables
    && (length free + length allocated + length reclaimable == m.num_blocks)
    && disjoint free reclaimable
    && disjoint free allocated
    && counts_exact m.ref_count allocated held
    && (sum_refs m.ref_count (range_from 0 m.num_blocks) == length held)
    && lengths_exact sequence_lengths m
