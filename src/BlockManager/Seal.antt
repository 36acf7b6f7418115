-- ===== src/BlockManager/Seal.antt =====
-- `seal` of block_manager.py.
use paged_serve.Prelude.{
  ℕ, zero, suc, ◌+◌, ◌-◌, ◌*◌, ◌/◌, ◌≤◌, ◌<◌, ◌≡◌, ◌≢◌, refl, sym, arith, true, List, [], ◌∷◌, ◌++◌,
  Option, none, some, length, length-append, get_elem?, get_elem?_of_lt, count, count-get_elem?,
  count-get_elem?_twice, take, drop, min, ok, ◌∙◌, ap, inl,
}
use native.Mathlib.Decide.{ℕ_discrete}
use paged_serve.Block.{BlockTable}
use paged_serve.PrefixCache
use paged_serve.PrefixCache.{PrefixCache}
use paged_serve.PrefixCache.Hash.{chain_hash}
use paged_serve.PrefixCache.Index.{insert-IsIndexed}
use paged_serve.BlockManager.Invariant.{IsValid, sign_pos}
use paged_serve.BlockManager.Allocate.{set_chain-IsConsistent}
use paged_serve.BlockManager.Tables.{held-find_table}
use paged_serve.BlockManager.Sealable.{Sealable, IsOwn}
use paged_serve.BlockManager.{
  BlockManager, num_free_blocks, seal, seal_rounds, find_table, set_cache, set_chain, chain_of,
  last_of,
}

-- The index after one insertion.
by_block-insert :
    (c : PrefixCache) (h b x : ℕ) → x ≢ b → (PrefixCache.insert c h b).by_block x ≡ c.by_block x
unfolding PrefixCache.insert
by_block-insert c h b x ne = ground arith

by_hash-insert :
    (c : PrefixCache) (h b : ℕ) → c.enabled ≡ true → (PrefixCache.insert c h b).by_hash h ≢ none
unfolding PrefixCache.insert
by_hash-insert c h b on = ground arith

by_hash-insert_keeps :
    (c : PrefixCache) (h b k : ℕ) → c.by_hash k ≢ none → (PrefixCache.insert c h b).by_hash k ≢ none
unfolding PrefixCache.insert
by_hash-insert_keeps c h b k old = ground arith

pool-insert : (c : PrefixCache) (h b : ℕ) → (PrefixCache.insert c h b).pool ≡ c.pool
unfolding PrefixCache.insert
pool-insert c h b = ground arith

enabled-insert : (c : PrefixCache) (h b : ℕ) → (PrefixCache.insert c h b).enabled ≡ c.enabled
unfolding PrefixCache.insert
enabled-insert c h b = ground arith

-- Blocks from index `i` on are not indexed, and no other table has them.
abbrev pub IsUnsealed : ℕ → BlockTable → BlockManager → Type 0
IsUnsealed i t m = (j b : ℕ) → i ≤ j → get_elem? t.blocks j ≡ some b → IsOwn m b

insert-IsValid :
    (m : BlockManager) (h b : ℕ)
    → IsValid m
    → 0 < m.ref_count b
    → m.prefix_cache.by_block b ≡ none
    → IsValid (set_cache m (PrefixCache.insert m.prefix_cache h b))
insert-IsValid m h b v live new = record {
  index = insert-IsIndexed m.prefix_cache v.index h b (inl new);
  refs = v.refs;
  places = λ x. ground (arith, v.places x, pool-insert m.prefix_cache h b);
  cached = λ x c. elim (ℕ_discrete x b) [
    | yes e ↦ ground (arith, v.places x, pool-insert m.prefix_cache h b, sign_pos (m.ref_count b))
    | no ne ↦
        ground (
          arith,
          v.cached x,
          pool-insert m.prefix_cache h b,
          by_block-insert m.prefix_cache h b x ne,
        )
  ];
  distinct = v.distinct;
}

-- What the rounds from index `i` to `i + n` do.
pub record Sealed (k i n : ℕ) (t : BlockTable) (m o : BlockManager) : Type 0 where
  pub valid : IsValid o
  pub available : num_free_blocks o ≡ num_free_blocks m
  pub tables : o.block_tables ≡ m.block_tables
  pub blocks : o.num_blocks ≡ m.num_blocks
  pub size : o.block_size ≡ m.block_size
  pub watermark : o.watermark_blocks ≡ m.watermark_blocks
  pub enabled : o.prefix_cache.enabled ≡ m.prefix_cache.enabled
  -- Only the blocks of these rounds are indexed anew.
  pub only :
      (x : ℕ)
      → ((j : ℕ) → i ≤ j → j < i + n → get_elem? t.blocks j ≢ some x)
      → o.prefix_cache.by_block x ≡ m.prefix_cache.by_block x
  pub references : o.ref_count ≡ m.ref_count
  pub chain : m.prefix_cache.enabled ≡ true → length (chain_of (o.chains k)) ≡ i + n
  pub chains : (j : ℕ) → j ≢ k → o.chains j ≡ m.chains j

module _ (digest : List ℕ → ℕ) (k : ℕ) (t : BlockTable) (ids : List ℕ) where
  abbrev next_hash : List ℕ → Option ℕ → BlockManager → ℕ
  next_hash chain parent m =
      chain_hash digest parent (take m.block_size (drop (length chain * m.block_size) ids))

  abbrev sealed_once : List ℕ → Option ℕ → ℕ → BlockManager → BlockManager
  sealed_once chain parent b m =
      set_cache (set_chain m k (some (chain ++ next_hash chain parent m ∷ [])))
        (PrefixCache.insert m.prefix_cache (next_hash chain parent m) b)

  seal_rounds-suc :
      (n : ℕ) (chain : List ℕ) (parent : Option ℕ) (b : ℕ) (m : BlockManager)
      → get_elem? t.blocks (length chain) ≡ some b
      → seal_rounds digest (suc n) k t ids chain parent m
        ≡ seal_rounds digest n k t ids
            (chain ++ next_hash chain parent m ∷ [])
            (some (next_hash chain parent m))
            (sealed_once chain parent b m)
  unfolding seal_rounds
  seal_rounds-suc n chain parent b m e = rw (e, seal_rounds)

  -- A block stands at one place of the table.
  one_place :
      (i j b : ℕ)
      → count b t.blocks ≤ 1
      → get_elem? t.blocks i ≡ some b
      → get_elem? t.blocks j ≡ some b
      → j < i
      → ⊥
  one_place i j b once at at' lt =
      let twice : 1 < count b t.blocks =
        count-get_elem?_twice t.blocks i j at at' (λ e. omega arith) in
      omega (arith, once)

  -- The rounds never raise: each block stands in the table.
  pub seal_rounds-Sealed :
      (n : ℕ) (chain : List ℕ) (parent : Option ℕ) (m : BlockManager)
      → IsValid m
      → ((x : ℕ) → count x t.blocks ≤ m.ref_count x)
      → IsUnsealed (length chain) t m
      → length (chain_of (m.chains k)) ≡ length chain
      → n ≤ length t.blocks - length chain
      → (o : BlockManager) × (seal_rounds digest n k t ids chain parent m ≡ (ok tt, o))
        × Sealed k (length chain) n t m o
  unfolding seal_rounds num_free_blocks
  seal_rounds-Sealed zero chain parent m v live new len h = (
    m,
    refl,
    record {
      valid = v;
      available = refl;
      tables = refl;
      blocks = refl;
      size = refl;
      watermark = refl;
      enabled = refl;
      only = λ x other. refl;
      references = refl;
      chain = λ on. omega (arith, len);
      chains = λ j ne. refl;
    },
  )
  seal_rounds-Sealed (suc n) chain parent m v live new len h =
      let (b, e) = get_elem?_of_lt t.blocks (length chain) (omega arith) in
      let hash = next_hash chain parent m in
      let unindexed = (new (length chain) b (omega arith) e).0 in
      let m' = sealed_once chain parent b m in
      let longer = length-append chain (hash ∷ []) in
      let (o, f, s) =
        seal_rounds-Sealed n (chain ++ hash ∷ []) (some hash) m'
          (set_chain-IsConsistent [] (set_cache m (PrefixCache.insert m.prefix_cache hash b)) k _ (
            insert-IsValid m hash b v
              (omega (arith, count-get_elem? t.blocks (length chain) e, live b)) unindexed))
          live
          (λ j c le at.
            let own = new j c (omega (arith, longer)) at in
            (
              by_block-insert m.prefix_cache hash b c (λ same.
                    one_place j (length chain) c (omega (arith, live c, own.1)) at
                      (e ∙ ap some (sym same)) (omega (arith, longer)))
                  ∙ own.0,
              own.1,
            ))
          (ground arith) (omega (arith, longer)) in
      (
        o,
        seal_rounds-suc n chain parent b m e ∙ f,
        record {
          valid = s.valid;
          available = omega (arith, s.available, ap length (pool-insert m.prefix_cache hash b));
          tables = s.tables;
          blocks = s.blocks;
          size = s.size;
          watermark = s.watermark;
          enabled = s.enabled ∙ enabled-insert m.prefix_cache hash b;
          only = λ x other.
              s.only x (λ j lo hi. other j (omega (arith, longer)) (omega (arith, longer)))
              ∙ by_block-insert m.prefix_cache hash b x (λ same.
                other (length chain) (omega arith) (omega arith) (e ∙ ap some (sym same)));
          references = s.references;
          chain = λ on. s.chain (enabled-insert m.prefix_cache hash b ∙ on) ∙ omega (arith, longer);
          chains = λ j ne. s.chains j ne ∙ ground (arith, ne);
        },
      )

  -- The number of blocks that are full and computed.
  abbrev complete : ℕ → BlockManager → ℕ
  complete num_computed m = min num_computed (length ids) / m.block_size

  -- The state in which `seal` begins its rounds, and their number.
  abbrev opened : BlockManager → BlockManager
  opened m = set_chain m k (some (chain_of (m.chains k)))

  abbrev pub rounds : ℕ → BlockManager → ℕ
  rounds num_computed m =
      min (complete num_computed m) (length t.blocks) - length (chain_of (m.chains k))

  pub seal-Sealed_on :
      (num_computed : ℕ) (m : BlockManager)
      → IsValid m
      → find_table k m.block_tables ≡ some t
      → Sealable m
      → m.prefix_cache.enabled ≡ true
      → (o : BlockManager) × (seal digest k ids num_computed m ≡ (ok tt, o))
        × Sealed k (length (chain_of (m.chains k))) (rounds num_computed m) t m o
  unfolding seal num_free_blocks
  seal-Sealed_on num_computed m v e own on =
      let chain = chain_of (m.chains k) in
      let m' = opened m in
      let (o, f, s) =
        seal_rounds-Sealed (rounds num_computed m) chain (last_of chain) m'
          (set_chain-IsConsistent [] m k (some chain) v)
          (λ x. omega (arith, v.refs x, held-find_table k x m.block_tables {t = t} e))
          (λ j b le at. own k t j b e le at) (ground arith) (omega arith) in
      (
        o,
        rw (on, e, seal) f,
        record {
          valid = s.valid;
          available = s.available;
          tables = s.tables;
          blocks = s.blocks;
          size = s.size;
          watermark = s.watermark;
          enabled = s.enabled;
          only = s.only;
          references = s.references;
          chain = s.chain;
          chains = λ j ne. s.chains j ne ∙ ground (arith, ne);
        },
      )
