-- ===== src/BlockManager/Diverge.antt =====
-- `copy_on_write` of block_manager.py.
use paged_serve.Prelude.{
  ℕ, zero, suc, ◌+◌, ◌-◌, ◌≤◌, ◌<◌, ◌≡◌, ◌≢◌, arith, List, [], ◌∷◌, none, some, get_elem?, set,
  count, count-erase, ◌==◌, if◌then◌else◌, ok, ◌∙◌, ap,
}
use paged_serve.Block.{BlockTable}
use paged_serve.PrefixCache
use paged_serve.PrefixCache.Index.{forget-IsIndexed, by_block-unindex, pool-unindex}
use paged_serve.BlockManager.Invariant.{IsConsistent, IsValid, sign_pos}
use paged_serve.BlockManager.Tables.{find_table-put_table, put_table-Distinct, held-put_table_old}
use paged_serve.BlockManager.Take.{Taken, take_free_block-Taken}
use paged_serve.BlockManager.{
  BlockManager, num_free_blocks, copy_on_write, divert, find_table, take_free_block,
}

-- A write into a list trades one entry for another.
count-set :
    (x d : ℕ) (l : List ℕ) (i : ℕ) {s : ℕ}
    → get_elem? l i ≡ some s
    → count x (set l i d) + (if x == s then 1 else 0) ≡ count x l + (if x == d then 1 else 0)
count-set x d [] i e = absurd (ground arith)
count-set x d (y ∷ l) zero {s} e = ground arith
count-set x d (y ∷ l) (suc i) {s} e = ground (arith, count-set x d l i {s = s} e)

-- `forget` at a block that is referenced changes the index of no other block and not the pool.
module _ (pending : List ℕ) (m : BlockManager) (b : ℕ) (v : IsConsistent pending m)
    (live : 0 < m.ref_count b) where
  out_of_pool : count b m.prefix_cache.pool ≡ 0
  out_of_pool = ground (arith, v.places b)

  count-pool-forget :
      (x : ℕ) → count x (PrefixCache.forget m.prefix_cache b).pool ≡ count x m.prefix_cache.pool
  unfolding PrefixCache.forget
  count-pool-forget x =
      ground
        (arith, pool-unindex m.prefix_cache b, count-erase x b m.prefix_cache.pool, out_of_pool)

  by_block-forget :
      (x : ℕ)
      → (PrefixCache.forget m.prefix_cache b).by_block x
        ≡ (if b == x then none else m.prefix_cache.by_block x)
  unfolding PrefixCache.forget
  by_block-forget x = by_block-unindex m.prefix_cache b x

-- What `copy_on_write` promises.
pub record Diverged (k i source destination : ℕ) (t : BlockTable) (m n : BlockManager)
    : Type 0 where
  pub valid : IsValid n
  pub stored : find_table k n.block_tables ≡ some (record t { blocks = set t.blocks i destination })
  pub others : (j : ℕ) → j ≢ k → find_table j n.block_tables ≡ find_table j m.block_tables
  pub exclusive : n.ref_count destination ≡ 1
  pub was_unused : m.ref_count destination ≡ 0
  pub uncached : n.prefix_cache.by_block destination ≡ none
  pub source_left : n.ref_count source + 1 ≡ m.ref_count source

module _ (k i : ℕ) (m : BlockManager) (t : BlockTable) (source : ℕ) (v : IsValid m)
    (e : find_table k m.block_tables ≡ some t) (at : get_elem? t.blocks i ≡ some source) where
  -- An exclusive block needs no copy.
  pub copy_on_write_exclusive : m.ref_count source ≤ 1 → copy_on_write k i m ≡ (ok none, m)
  unfolding copy_on_write
  copy_on_write_exclusive h = ground arith

  module _ (b : ℕ) (n : BlockManager) (x : Taken [] m b n) (shared : 1 < m.ref_count source) where
    abbrev own : BlockTable
    own = record t { blocks = set t.blocks i b }

    stands : find_table k n.block_tables ≡ some t
    stands = ap (find_table k) x.same.tables ∙ e

    -- The references to the source, before and after.
    source_refs : (n.ref_count source ≡ m.ref_count source) × (source ≢ b)
    source_refs =
        let other : source ≢ b = λ f. ground (arith, x.unused) in
        (ground (arith, x.consistent.refs source, v.refs source, x.same.tables), other)

    live : 0 < n.ref_count b
    live = ground (arith, x.consistent.refs b)

    taken_once : n.ref_count b ≡ 1
    taken_once = ground (arith, x.consistent.refs b, v.refs b, x.unused, x.same.tables)

    divert-IsValid : IsValid (divert k t i source b n)
    divert-IsValid = record {
      index = forget-IsIndexed n.prefix_cache x.consistent.index b;
      refs = λ y. ground (
        arith,
        x.consistent.refs y,
        held-put_table_old k y own n.block_tables stands,
        count-set y b t.blocks i at,
        source_refs.0,
      );
      places = λ y. ground (
        arith,
        x.consistent.places y,
        count-pool-forget (b ∷ []) n b x.consistent live y,
        source_refs.0,
        sign_pos (n.ref_count source),
        sign_pos (n.ref_count source - 1),
      );
      cached = λ y c. ground (
        arith,
        x.consistent.cached y,
        by_block-forget (b ∷ []) n b x.consistent live y,
        count-pool-forget (b ∷ []) n b x.consistent live y,
        source_refs.0,
        sign_pos (n.ref_count source),
        sign_pos (n.ref_count source - 1),
      );
      distinct = put_table-Distinct k own n.block_tables x.consistent.distinct;
    }

    copy_on_write_takes :
        take_free_block m ≡ (ok b, n)
        → copy_on_write k i m ≡ (ok (some (source, b)), divert k t i source b n)
    unfolding copy_on_write
    copy_on_write_takes f = ground arith

  -- On a valid allocator with a block available, `copy_on_write` on a table's entry whose block
  -- is shared returns the old block and a new one. The new one had no reference, has one now and
  -- is not cached; it takes the old one's place in this table, the other tables are unchanged,
  -- the old block has one reference less, and the allocator is valid again.
  pub copy_on_write-Diverged :
      1 < m.ref_count source
      → 0 < num_free_blocks m
      → (b : ℕ) × (n : BlockManager) × (copy_on_write k i m ≡ (ok (some (source, b)), n))
        × Diverged k i source b t m n
  copy_on_write-Diverged shared h =
      let (b, n, f, x) = take_free_block-Taken [] m v h in
      let refs = source_refs b n x shared in
      (
        b,
        divert k t i source b n,
        copy_on_write_takes b n x shared f,
        record {
          valid = divert-IsValid b n x shared;
          stored = ground (arith, find_table-put_table k k (own b n x shared) n.block_tables);
          others = λ j ne.
              ground
                (arith, find_table-put_table k j (own b n x shared) n.block_tables, x.same.tables);
          exclusive = ground (arith, taken_once b n x shared, refs.1);
          was_unused = x.unused;
          uncached =
              ground (arith, by_block-forget (b ∷ []) n b x.consistent (live b n x shared) b);
          source_left = ground (arith, refs.0);
        },
      )
