-- ===== src/BlockManager/Growth.antt =====
-- `append_slot` and `fork` of block_manager.py, the constructor and `reset`.
use paged_serve.Prelude.{
  ℕ, zero, suc, ◌+◌, ◌≤◌, ◌<◌, ◌≡◌, ◌≢◌, ◌⊎◌, refl, sym, arith, Bool, List, [], ◌∷◌, ◌++◌, none,
  some, length, inl, inr, count, count-append, ltb_of_le, ok, append-nil, ◌∙◌, ap,
}
use mathlib.Core.Path.{subst}
use paged_serve.Block
use paged_serve.Block.{BlockTable, blocks_needed}
use paged_serve.PrefixCache
use paged_serve.PrefixCache.Index.{IsIndexed, init-IsIndexed, reset-IsIndexed}
use paged_serve.BlockManager.Sealable.{Sealable, IsOwn, changed-Sealable, get_elem?-snoc}
use paged_serve.BlockManager.Invariant.{IsConsistent, IsValid, Distinct, held, count-range_from}
use paged_serve.BlockManager.Tables.{
  find_table-put_table, put_table-Distinct, held-put_table_old, held-find_table,
}
use paged_serve.BlockManager.Take.{Taken, take_free_block-Taken, IsConsistent-count}
use paged_serve.BlockManager.Allocate.{new_table-IsValid}
use paged_serve.BlockManager.{
  BlockManager, fresh, init, reset, num_free_blocks, append_slot, fork, share_blocks, find_table,
  set_table, set_ref, take_free_block, range_from,
}

-- A table is replaced by one that holds the pending references too.
pub retable-IsValid :
    (pending : List ℕ) (n : BlockManager) (k : ℕ) (t : BlockTable) {u : BlockTable}
    → IsConsistent pending n
    → find_table k n.block_tables ≡ some u
    → ((x : ℕ) → count x t.blocks ≡ count x u.blocks + count x pending)
    → IsValid (set_table n k t)
retable-IsValid pending n k t {u} v e h = record {
  index = v.index;
  refs = λ x. omega (arith, v.refs x, h x, held-put_table_old k x t n.block_tables {u = u} e);
  places = v.places;
  cached = v.cached;
  distinct = put_table-Distinct k t n.block_tables v.distinct;
}

-- What `append_slot` promises: one more block at the end of the table.
pub record Appended (k b : ℕ) (t : BlockTable) (m n : BlockManager) : Type 0 where
  pub valid : IsValid n
  pub available : num_free_blocks n + 1 ≡ num_free_blocks m
  pub stored : find_table k n.block_tables ≡ some (Block.append t b)
  pub others : (j : ℕ) → j ≢ k → find_table j n.block_tables ≡ find_table j m.block_tables
  pub blocks : n.num_blocks ≡ m.num_blocks
  pub size : n.block_size ≡ m.block_size
  pub watermark : n.watermark_blocks ≡ m.watermark_blocks
  pub enabled : n.prefix_cache.enabled ≡ m.prefix_cache.enabled
  pub sealable : Sealable m → Sealable n

module _ (k len : ℕ) (m : BlockManager) (t : BlockTable) (v : IsValid m)
    (e : find_table k m.block_tables ≡ some t) where
  abbrev wanted : ℕ
  wanted = blocks_needed m.block_size len

  pub append_slot_fits : wanted ≤ length t.blocks → append_slot k len m ≡ (ok none, m)
  unfolding append_slot
  append_slot_fits h = ground arith

  append_slot_takes :
      (b : ℕ) (n : BlockManager)
      → length t.blocks < wanted
      → wanted ≤ length t.blocks + num_free_blocks m
      → take_free_block m ≡ (ok b, n)
      → append_slot k len m ≡ (ok (some b), set_table n k (Block.append t b))
  unfolding append_slot
  append_slot_takes b n lo hi f = ground arith

  -- A block that is its table's own stays that, and the new block is one.
  append-IsOwn :
      (b : ℕ) (n : BlockManager) (x : ℕ)
      → Taken [] m b n
      → (IsOwn m x) ⊎ (x ≡ b)
      → IsOwn (set_table n k (Block.append t b)) x
  append-IsOwn b n x taken (inl own) = (
    taken.same.index x own.0,
    ground (
      arith,
      own.1,
      v.refs x,
      taken.consistent.refs x,
      ap (held x) taken.same.tables,
      taken.unused,
    ),
  )
  append-IsOwn b n x taken (inr f) = (
    ground (arith, taken.unindexed),
    ground
        (arith, f, v.refs x, taken.consistent.refs x, ap (held x) taken.same.tables, taken.unused),
  )

  append_slot-Sealable :
      (b : ℕ) (n : BlockManager)
      → Taken [] m b n
      → Sealable m
      → Sealable (set_table n k (Block.append t b))
  unfolding Block.append
  append_slot-Sealable b n taken own =
      let o = set_table n k (Block.append t b) in
      changed-Sealable k m o (λ x h. append-IsOwn b n x taken (inl h))
        (λ i ne.
          ground
            (arith, find_table-put_table k i (Block.append t b) n.block_tables, taken.same.tables))
        (λ i ne. ap (λ c. c i) taken.same.chains)
        (λ u j x at le elem.
          elim (get_elem?-snoc t.blocks j b {c = x} (
            ground (arith, at, elem, find_table-put_table k k (Block.append t b) n.block_tables))) [
              | inl old ↦
                  append-IsOwn b n x taken
                    (inl (own k t j x e (ground (arith, le, taken.same.chains)) old))
              | inr new ↦ append-IsOwn b n x taken (inr new)
            ])
        own

  -- On a valid allocator, for a sequence whose table is too short for a length and whose missing
  -- blocks are available, `append_slot` returns one new block, which stands at the end of the
  -- table; one block fewer is available, the other tables are unchanged, and the allocator is
  -- valid again.
  pub append_slot-Appended :
      length t.blocks < wanted
      → wanted ≤ length t.blocks + num_free_blocks m
      → (b : ℕ) × (n : BlockManager) × (append_slot k len m ≡ (ok (some b), n)) × Appended k b t m n
  unfolding append_slot Block.append num_free_blocks
  append_slot-Appended lo hi =
      let (b, n, f, x) = take_free_block-Taken [] m v (omega arith) in
      let stands : find_table k n.block_tables ≡ some t = ap (find_table k) x.same.tables ∙ e in
      (
        b,
        set_table n k (Block.append t b),
        append_slot_takes b n lo hi f,
        record {
          valid =
              retable-IsValid (b ∷ []) n k (Block.append t b) x.consistent stands
                (λ y. count-append y t.blocks (b ∷ []));
          available = x.available;
          stored = ground (arith, find_table-put_table k k (Block.append t b) n.block_tables);
          others = λ j ne.
              ground
                (arith, find_table-put_table k j (Block.append t b) n.block_tables, x.same.tables);
          blocks = x.same.blocks;
          size = x.same.size;
          watermark = x.same.watermark;
          enabled = x.same.enabled;
          sealable = append_slot-Sealable b n x;
        },
      )

-- Sharing adds one pending reference for each block of a table.
share_blocks-IsConsistent :
    (bs pending : List ℕ) (m : BlockManager)
    → IsConsistent pending m
    → ((x : ℕ) → 0 < count x bs → 0 < m.ref_count x)
    → IsConsistent (bs ++ pending) (share_blocks bs m)
unfolding share_blocks
share_blocks-IsConsistent [] pending m v live = v
share_blocks-IsConsistent (b ∷ bs) pending m v live =
    IsConsistent-count
      (λ x. ground (arith, count-append x bs (b ∷ pending), count-append x bs pending))
      (share_blocks-IsConsistent bs (b ∷ pending) (set_ref m b (m.ref_count b + 1))
        (record {
          index = v.index;
          refs = λ x. ground (arith, v.refs x);
          places = λ x. ground (arith, v.places x, live b);
          cached = λ x c. ground (arith, v.cached x, live b);
          distinct = v.distinct;
        })
        (λ x h. ground (arith, live x)))

-- What `fork` promises: the child has the parent's blocks, and none is taken off the free list.
pub record Forked (child : ℕ) (t : BlockTable) (m n : BlockManager) : Type 0 where
  pub valid : IsValid n
  pub stored : find_table child n.block_tables ≡ some t
  pub others : (j : ℕ) → j ≢ child → find_table j n.block_tables ≡ find_table j m.block_tables
  pub available : num_free_blocks n ≡ num_free_blocks m
  pub references : (x : ℕ) → n.ref_count x ≡ m.ref_count x + count x t.blocks
  pub size : n.block_size ≡ m.block_size

share_blocks-block_size :
    (bs : List ℕ) (m : BlockManager) → (share_blocks bs m).block_size ≡ m.block_size
unfolding share_blocks
share_blocks-block_size [] m = refl
share_blocks-block_size (b ∷ bs) m = share_blocks-block_size bs (set_ref m b (m.ref_count b + 1))

share_blocks-frame :
    (bs : List ℕ) (m : BlockManager)
    → ((share_blocks bs m).block_tables ≡ m.block_tables)
      × (num_free_blocks (share_blocks bs m) ≡ num_free_blocks m)
unfolding share_blocks num_free_blocks
share_blocks-frame [] m = (refl, refl)
share_blocks-frame (b ∷ bs) m = share_blocks-frame bs (set_ref m b (m.ref_count b + 1))

ref_count-share_blocks :
    (bs : List ℕ) (m : BlockManager) (x : ℕ)
    → (share_blocks bs m).ref_count x ≡ m.ref_count x + count x bs
unfolding share_blocks
ref_count-share_blocks [] m x = omega arith
ref_count-share_blocks (b ∷ bs) m x =
    ground (arith, ref_count-share_blocks bs (set_ref m b (m.ref_count b + 1)) x)

-- On a valid allocator, `fork` from a sequence with a table to one without returns the parent's
-- table, which the child has now. Each block gains as many references as it stands in the table,
-- the other tables and the number of available blocks are unchanged, and the allocator is valid
-- again.
pub fork-Forked :
    (parent child : ℕ) (m : BlockManager) (t : BlockTable)
    → IsValid m
    → find_table parent m.block_tables ≡ some t
    → find_table child m.block_tables ≡ none
    → (n : BlockManager) × (fork parent child m ≡ (ok t, n)) × Forked child t m n
unfolding fork Block.copy num_free_blocks
fork-Forked parent child m t v e absent =
    let s = share_blocks t.blocks m in
    let frame = share_blocks-frame t.blocks m in
    let shared : IsConsistent (t.blocks ++ []) s =
      share_blocks-IsConsistent t.blocks [] m v
        (λ x h. omega (arith, v.refs x, held-find_table parent x m.block_tables {t = t} e)) in
    let valid : IsValid (set_table s child t) =
      new_table-IsValid (t.blocks ++ []) s child t shared (ap (find_table child) frame.0 ∙ absent)
        (λ x. ap (count x) (sym (append-nil t.blocks))) in
    (
      set_table s child t,
      ground arith,
      record {
        valid = valid;
        stored = ground (arith, find_table-put_table child child t s.block_tables);
        others = λ j ne. ground (arith, find_table-put_table child j t s.block_tables, frame.0);
        available = frame.1;
        references = λ x. ref_count-share_blocks t.blocks m x;
        size = share_blocks-block_size t.blocks m;
      },
    )

-- A new allocator is valid, and so is one that was reset: every block is free.
fresh-IsConsistent :
    (m : BlockManager)
    → IsIndexed m.prefix_cache
    → m.prefix_cache.pool ≡ []
    → ((x : ℕ) → m.prefix_cache.by_block x ≡ none)
    → ((x : ℕ) → m.ref_count x ≡ 0)
    → m.free_blocks ≡ range_from 0 m.num_blocks
    → m.block_tables ≡ []
    → IsValid m
fresh-IsConsistent m index pool unindexed unreferenced free empty = record {
  index = index;
  refs = λ x. ground (arith, unreferenced x);
  places = λ x. ground (arith, unreferenced x, count-range_from x 0 m.num_blocks);
  cached = λ x c. absurd (c (unindexed x));
  distinct = subst Distinct (sym empty) tt;
}

pub fresh-IsValid :
    (num_blocks block_size watermark : ℕ) (enabled : Bool)
    → IsValid (fresh num_blocks block_size watermark enabled)
unfolding PrefixCache.init
fresh-IsValid num_blocks block_size watermark enabled =
    fresh-IsConsistent (fresh num_blocks block_size watermark enabled)
      (init-IsIndexed block_size enabled) refl (λ x. refl) (λ x. refl) refl refl

length-range_from : (start n : ℕ) → length (range_from start n) ≡ n
length-range_from start zero = refl
length-range_from start (suc n) = ap suc (length-range_from (suc start) n)

-- What a new allocator is.
pub record Started (num_blocks block_size watermark : ℕ) (enabled : Bool) (m : BlockManager)
    : Type 0 where
  pub valid : IsValid m
  pub available : num_free_blocks m ≡ num_blocks
  pub empty : m.block_tables ≡ []
  pub blocks : m.num_blocks ≡ num_blocks
  pub size : m.block_size ≡ block_size
  pub watermark_kept : m.watermark_blocks ≡ watermark
  pub caching : m.prefix_cache.enabled ≡ enabled

-- With a positive number of blocks and a positive block size the constructor returns a valid
-- allocator without tables, in which all blocks are available.
pub init-Started :
    (num_blocks block_size watermark : ℕ) (enabled : Bool)
    → 0 < num_blocks
    → 0 < block_size
    → (m : BlockManager) × (init num_blocks block_size watermark enabled ≡ ok m)
      × Started num_blocks block_size watermark enabled m
unfolding init num_free_blocks PrefixCache.init
init-Started num_blocks block_size watermark enabled h g = (
  fresh num_blocks block_size watermark enabled,
  rw (ltb_of_le num_blocks 1 h, ltb_of_le block_size 1 g),
  record {
    valid = fresh-IsValid num_blocks block_size watermark enabled;
    available = omega (arith, length-range_from 0 num_blocks);
    empty = refl;
    blocks = refl;
    size = refl;
    watermark_kept = refl;
    caching = refl;
  },
)

pub reset-IsValid : (m : BlockManager) → IsValid (reset m)
unfolding reset PrefixCache.reset
reset-IsValid m =
    fresh-IsConsistent (reset m) (reset-IsIndexed m.prefix_cache) refl (λ x. refl) (λ x. refl) refl
      refl
