-- ===== src/BlockManager/Take.antt =====
-- `_take_free_block` of block_manager.py, and the loop of `allocate` over it.
use paged_serve.Prelude.{
  ℕ, zero, suc, ◌+◌, ◌≤◌, ◌<◌, ◌≡◌, refl, arith, List, [], ◌∷◌, ◌++◌, length, count, count-append,
  none, Option-cases, inl, inr, ok, raise, memory_error, bind-ok, append-nil, append_assoc, ◌∙◌, ap,
}
use mathlib.Core.Path.{subst}
use paged_serve.Block
use paged_serve.Block.{BlockTable}
use paged_serve.PrefixCache
use paged_serve.PrefixCache.{PrefixCache, evict_from, unindex}
use paged_serve.PrefixCache.Index.{
  IsIndexed, evict-IsIndexed, by_block-unindex, pool-unindex, enabled-unindex,
}
use native.Mathlib.Decide.{ℕ_discrete}
use paged_serve.BlockManager.Invariant.{IsConsistent, held, sign_zero}
use paged_serve.BlockManager.{
  BlockManager, num_free_blocks, take_free_block, take_blocks, set_ref, set_free, set_cache,
}

-- What no allocation of a block touches.
pub record SameTables (m n : BlockManager) : Type 0 where
  pub tables : n.block_tables ≡ m.block_tables
  pub chains : n.chains ≡ m.chains
  pub blocks : n.num_blocks ≡ m.num_blocks
  pub size : n.block_size ≡ m.block_size
  pub watermark : n.watermark_blocks ≡ m.watermark_blocks
  pub enabled : n.prefix_cache.enabled ≡ m.prefix_cache.enabled
  -- No block is indexed anew.
  pub index : (x : ℕ) → m.prefix_cache.by_block x ≡ none → n.prefix_cache.by_block x ≡ none

pub SameTables-refl : (m : BlockManager) → SameTables m m
SameTables-refl m = record {
  tables = refl;
  chains = refl;
  blocks = refl;
  size = refl;
  watermark = refl;
  enabled = refl;
  index = λ x e. e;
}

pub SameTables-trans : {m n o : BlockManager} → SameTables m n → SameTables n o → SameTables m o
SameTables-trans s t = record {
  tables = t.tables ∙ s.tables;
  chains = t.chains ∙ s.chains;
  blocks = t.blocks ∙ s.blocks;
  size = t.size ∙ s.size;
  watermark = t.watermark ∙ s.watermark;
  enabled = t.enabled ∙ s.enabled;
  index = λ x e. t.index x (s.index x e);
}

-- `b` was obtained: one block fewer is available, and one more reference is pending.
pub record Taken (pending : List ℕ) (m : BlockManager) (b : ℕ) (n : BlockManager) : Type 0 where
  pub consistent : IsConsistent (b ∷ pending) n
  pub unused : m.ref_count b ≡ 0
  pub unindexed : n.prefix_cache.by_block b ≡ none
  pub available : num_free_blocks n + 1 ≡ num_free_blocks m
  pub same : SameTables m n

module _ (pending : List ℕ) (m : BlockManager) (v : IsConsistent pending m) where
  -- A block on the free list or in the pool has no reference.
  unreferenced :
      (b : ℕ) → 0 < count b m.free_blocks + count b m.prefix_cache.pool → m.ref_count b ≡ 0
  unreferenced b h = sign_zero (m.ref_count b) (ground (arith, v.places b))

  -- A block on the free list is not indexed.
  free_unindexed : (b : ℕ) → 0 < count b m.free_blocks → m.prefix_cache.by_block b ≡ none
  free_unindexed b h = elim (Option-cases (m.prefix_cache.by_block b)) [
    | inl e ↦ e
    | inr (x, e) ↦
        (let indexed = v.cached b (λ f. cc) in absurd (ground (arith, v.places b, indexed)))
  ]

  take_from_free :
      (b : ℕ) (rest : List ℕ)
      → m.free_blocks ≡ b ∷ rest
      → Taken pending m b (set_ref (set_free m rest) b 1)
  unfolding num_free_blocks
  take_from_free b rest e = record {
    consistent = record {
      index = v.index;
      refs = λ x. ground (arith, v.refs x, unreferenced b);
      places = λ x. ground (arith, v.places x, unreferenced b);
      cached = λ x h. ground (arith, v.places x, v.cached x h, unreferenced b);
      distinct = v.distinct;
    };
    unused = unreferenced b (ground arith);
    unindexed = free_unindexed b (ground arith);
    available = ground arith;
    same = record {
      tables = refl;
      chains = refl;
      blocks = refl;
      size = refl;
      watermark = refl;
      enabled = refl;
      index = λ x e. e;
    };
  }

  -- The state after the eviction of the head of the pool.
  abbrev evicted : ℕ → List ℕ → PrefixCache
  evicted b rest = (evict_from (b ∷ rest) m.prefix_cache).1

  take_from_pool :
      (b : ℕ) (rest : List ℕ)
      → m.free_blocks ≡ []
      → m.prefix_cache.pool ≡ b ∷ rest
      → IsIndexed (evicted b rest)
      → Taken pending m b (set_ref (set_free (set_cache m (evicted b rest)) []) b 1)
  unfolding num_free_blocks
  take_from_pool b rest none_free e w =
      let c = record m.prefix_cache { pool = rest } in
      record {
        consistent = record {
          index = w;
          refs = λ x. ground (arith, v.refs x, unreferenced b);
          places = λ x. ground (arith, v.places x, unreferenced b, pool-unindex c b);
          cached = λ x h. ground (
            arith,
            v.places x,
            v.cached x,
            unreferenced b,
            pool-unindex c b,
            by_block-unindex c b x,
          );
          distinct = v.distinct;
        };
        unused = unreferenced b (ground arith);
        unindexed = ground (arith, by_block-unindex c b b);
        available = ground (arith, pool-unindex c b);
        same = record {
          tables = refl;
          chains = refl;
          blocks = refl;
          size = refl;
          watermark = refl;
          enabled = enabled-unindex c b;
          index = λ x e. ground (arith, e, by_block-unindex c b x);
        };
      }

  -- While a block is free or reclaimable, `_take_free_block` hands one out.
  pub take_free_block-Taken :
      0 < num_free_blocks m
      → (b : ℕ) × (n : BlockManager) × (take_free_block m ≡ (ok b, n)) × Taken pending m b n
  unfolding take_free_block num_free_blocks PrefixCache.evict
  take_free_block-Taken h = by_free m.free_blocks m.prefix_cache.pool refl refl
    where
      by_free :
          (free pool : List ℕ)
          → m.free_blocks ≡ free
          → m.prefix_cache.pool ≡ pool
          → (b : ℕ) × (n : BlockManager) × (take_free_block m ≡ (ok b, n)) × Taken pending m b n
      by_free (b ∷ rest) pool e f = (
        b,
        set_ref (set_free m rest) b 1,
        ground (arith, unreferenced b),
        take_from_free b rest e,
      )
      by_free [] (b ∷ rest) e f = (
        b,
        set_ref (set_free (set_cache m (evicted b rest)) []) b 1,
        ground (arith, unreferenced b),
        take_from_pool b rest e f (
            subst (λ p. IsIndexed (evict_from p m.prefix_cache).1) f
              (evict-IsIndexed m.prefix_cache v.index)),
      )
      by_free [] [] e f = absurd (ground arith)

  -- With nothing free and nothing reclaimable it raises, and changes nothing.
  pub take_free_block-raises : num_free_blocks m ≡ 0 → take_free_block m ≡ (raise memory_error, m)
  unfolding take_free_block num_free_blocks PrefixCache.evict
  take_free_block-raises h = by_free m.free_blocks m.prefix_cache.pool refl refl
    where
      by_free :
          (free pool : List ℕ)
          → m.free_blocks ≡ free
          → m.prefix_cache.pool ≡ pool
          → take_free_block m ≡ (raise memory_error, m)
      by_free (b ∷ rest) pool e f = absurd (ground arith)
      by_free [] (b ∷ rest) e f = absurd (ground arith)
      by_free [] [] e f = ground arith

-- The loop: `k` blocks are obtained, in order, and stand at the end of the table.
pub record TakenAll (pending : List ℕ) (m : BlockManager) (k : ℕ) (got : List ℕ) (n : BlockManager)
    : Type 0 where
  pub consistent : IsConsistent (got ++ pending) n
  pub available : num_free_blocks n + k ≡ num_free_blocks m
  pub number : length got ≡ k
  -- The blocks were nobody's, are not indexed, and are different ones.
  pub unused : (x : ℕ) → 0 < count x got → m.ref_count x ≡ 0
  pub unindexed : (x : ℕ) → 0 < count x got → n.prefix_cache.by_block x ≡ none
  pub once : (x : ℕ) → count x got ≤ 1
  pub same : SameTables m n

-- The pending references count as a multiset.
pub IsConsistent-count :
    {p q : List ℕ} {m : BlockManager}
    → ((x : ℕ) → count x p ≡ count x q)
    → IsConsistent p m
    → IsConsistent q m
IsConsistent-count e v = record {
  index = v.index;
  refs = λ x. omega (arith, v.refs x, e x);
  places = v.places;
  cached = v.cached;
  distinct = v.distinct;
}

take_unused :
    (pending : List ℕ) (m : BlockManager) (v : IsConsistent pending m) (b : ℕ) (n : BlockManager)
    → Taken pending m b n
    → (got : List ℕ) (x : ℕ) → ((y : ℕ) → 0 < count y got → n.ref_count y ≡ 0)
    → 0 < count x (b ∷ got)
    → m.ref_count x ≡ 0
take_unused pending m v b n taken got x rest c = elim (ℕ_discrete x b) [
  | yes e ↦ rw e taken.unused
  | no ne ↦ omega (
    arith,
    rest x (ground arith),
    v.refs x,
    taken.consistent.refs x,
    ap (held x) taken.same.tables,
  )
]

pub take_blocks-TakenAll :
    (k : ℕ) (pending : List ℕ) (m : BlockManager) (t : BlockTable)
    → IsConsistent pending m
    → k ≤ num_free_blocks m
    → (got : List ℕ) × (n : BlockManager) × (take_blocks k t m
        ≡ (ok (record t { blocks = t.blocks ++ got }), n))
      × TakenAll pending m k got n
unfolding take_blocks Block.append
take_blocks-TakenAll zero pending m t v h = (
  [],
  m,
  rw append-nil,
  record {
    consistent = v;
    available = omega arith;
    number = refl;
    unused = λ x c. absurd (omega arith);
    unindexed = λ x c. absurd (omega arith);
    once = λ x. omega arith;
    same = SameTables-refl m;
  },
)
take_blocks-TakenAll (suc k) pending m t v h =
    let (b, n, e, taken) = take_free_block-Taken pending m v (omega arith) in
    let (got, o, f, all) =
      take_blocks-TakenAll k (b ∷ pending) n (Block.append t b) taken.consistent
        (omega (arith, taken.available)) in
    let same_list = append_assoc t.blocks (b ∷ []) got in
    (
      b ∷ got,
      o,
      bind-ok take_free_block _ e ∙ f ∙ ap (λ l. (ok (record t { blocks = l }), o)) same_list,
      record {
        consistent =
            IsConsistent-count
              (λ x. ground (arith, count-append x got (b ∷ pending), count-append x got pending))
              all.consistent;
        available = omega (arith, taken.available, all.available);
        number = omega (arith, all.number);
        unused = λ x c. take_unused pending m v b n taken got x all.unused c;
        unindexed = λ x c. elim (ℕ_discrete x b) [
          | yes e ↦ rw e (all.same.index b taken.unindexed)
          | no ne ↦ all.unindexed x (ground arith)
        ];
        once = λ x. ground (arith, all.once x, all.unused x, taken.consistent.refs x);
        same = SameTables-trans taken.same all.same;
      },
    )
