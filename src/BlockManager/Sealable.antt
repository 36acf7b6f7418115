-- ===== src/BlockManager/Sealable.antt =====
-- What `seal` of block_manager.py relies on: a block beyond the sealed part of its table is not in the
-- index, and no other table has it.
use paged_serve.Prelude.{
  ℕ, zero, suc, ◌≤◌, ◌<◌, ◌≡◌, ◌≢◌, ◌⊎◌, inl, inr, sym, ◌∙◌, arith, List, [], ◌∷◌, ◌++◌, some, none,
  length, get_elem?, count, count-get_elem?,
}
use mathlib.Core.Path.{subst}
use native.Mathlib.Decide.{ℕ_discrete}
use paged_serve.Block.{BlockTable}
use paged_serve.BlockManager.{BlockManager, find_table, chain_of}
use paged_serve.BlockManager.Invariant.{IsValid, held}
use paged_serve.BlockManager.Tables.{held-find_table}

abbrev pub IsOwn : BlockManager → ℕ → Type 0
IsOwn m b = (m.prefix_cache.by_block b ≡ none) × (m.ref_count b ≡ 1)

abbrev pub Sealable : BlockManager → Type 0
Sealable m =
    (k : ℕ) (t : BlockTable) (j b : ℕ)
    → find_table k m.block_tables ≡ some t
    → length (chain_of (m.chains k)) ≤ j
    → get_elem? t.blocks j ≡ some b
    → IsOwn m b

-- A block stays its table's own if it is not indexed and gains no reference.
pub IsOwn-kept :
    (m n : BlockManager) (k b : ℕ) (t : BlockTable)
    → IsValid m
    → IsValid n
    → (m.prefix_cache.by_block b ≡ none → n.prefix_cache.by_block b ≡ none)
    → find_table k n.block_tables ≡ some t
    → 0 < count b t.blocks
    → held b n.block_tables ≤ held b m.block_tables
    → IsOwn m b
    → IsOwn n b
IsOwn-kept m n k b t v w index e c le own = (
  index own.0,
  omega (arith, own.1, v.refs b, w.refs b, held-find_table k b n.block_tables {t = t} e),
)

-- A call for the sequence `k` that leaves the others and keeps every block that is its table's own.
pub changed-Sealable :
    (k : ℕ) (m n : BlockManager)
    → ((x : ℕ) → IsOwn m x → IsOwn n x)
    → ((i : ℕ) → i ≢ k → find_table i n.block_tables ≡ find_table i m.block_tables)
    → ((i : ℕ) → i ≢ k → n.chains i ≡ m.chains i)
    → ((t : BlockTable) (j b : ℕ)
        → find_table k n.block_tables ≡ some t
        → length (chain_of (n.chains k)) ≤ j
        → get_elem? t.blocks j ≡ some b
        → IsOwn n b)
    → Sealable m
    → Sealable n
changed-Sealable k m n kept others chains mine own i t j b e le at = elim (ℕ_discrete i k) [
  | yes f ↦
      mine t j b (subst (λ y. find_table y n.block_tables ≡ some t) f e)
        (subst (λ y. length (chain_of (n.chains y)) ≤ j) f le) at
  | no ne ↦ kept b (
      own i t j b (sym (others i ne) ∙ e) (subst (λ c. length (chain_of c) ≤ j) (chains i ne) le)
        at)
]

-- An entry of a list with one more element is the last, or one of the list.
pub get_elem?-snoc :
    (xs : List ℕ) (j b : ℕ) {c : ℕ}
    → get_elem? (xs ++ b ∷ []) j ≡ some c
    → (get_elem? xs j ≡ some c) ⊎ (c ≡ b)
get_elem?-snoc [] zero b {c} e = inr (ground arith)
get_elem?-snoc [] (suc j) b e = absurd (ground arith)
get_elem?-snoc (x ∷ xs) zero b e = inl e
get_elem?-snoc (x ∷ xs) (suc j) b e = get_elem?-snoc xs j b e

-- An entry of the second half of a list stands in it.
pub count-get_elem?_append :
    (xs ys : List ℕ) (j : ℕ) {c : ℕ}
    → length xs ≤ j
    → get_elem? (xs ++ ys) j ≡ some c
    → 0 < count c ys
count-get_elem?_append [] ys j le e = count-get_elem? ys j e
count-get_elem?_append (x ∷ xs) ys zero le e = absurd (omega arith)
count-get_elem?_append (x ∷ xs) ys (suc j) le e = count-get_elem?_append xs ys j (omega arith) e
