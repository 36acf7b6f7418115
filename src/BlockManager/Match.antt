-- ===== src/BlockManager/Match.antt =====
-- The loop of `allocate` of block_manager.py over the hashes of a prompt.
use paged_serve.Prelude.{
  ℕ, ◌+◌, ◌*◌, ◌≤◌, ◌≡◌, ◌≢◌, refl, sym, arith, true, List, [], ◌∷◌, ◌++◌, Option, none, some,
  length, length-append, count, count-append, count-erase, erase, length-erase-le, append-nil,
  append_assoc, ◌∙◌, ap, Option-cases, inl, inr,
}
use mathlib.Core.Path.{subst₂}
use paged_serve.Block
use paged_serve.Block.{BlockTable}
use paged_serve.PrefixCache
use paged_serve.PrefixCache.{PrefixCache}
use paged_serve.PrefixCache.Leading.{
  leading, lookup_result, by_hash-lookup, by_block-lookup, enabled-lookup, pool-lookup_hit,
  pool-lookup_miss,
}
use paged_serve.PrefixCache.Index.{lookup-IsIndexed}
use paged_serve.BlockManager.Invariant.{IsConsistent}
use paged_serve.BlockManager.Take.{
  SameTables, SameTables-refl, SameTables-trans, IsConsistent-count,
}
use paged_serve.BlockManager.{
  BlockManager, Matched, num_free_blocks, match_blocks, discard_free, reuse, set_ref, set_cache,
}

module _ (pending : List ℕ) (m : BlockManager) (h : ℕ) (v : IsConsistent pending m)
    (on : m.prefix_cache.enabled ≡ true) where
  abbrev looked : BlockManager
  looked = set_cache m (PrefixCache.lookup m.prefix_cache h).1

  missed-IsConsistent : m.prefix_cache.by_hash h ≡ none → IsConsistent pending looked
  missed-IsConsistent e = record {
    index = lookup-IsIndexed m.prefix_cache v.index h;
    refs = v.refs;
    places = λ x.
        ground
          (arith, v.places x, lookup_result m.prefix_cache h on, pool-lookup_miss m.prefix_cache h);
    cached = λ x c. ground (
      arith,
      v.cached x,
      lookup_result m.prefix_cache h on,
      pool-lookup_miss m.prefix_cache h,
      by_block-lookup m.prefix_cache h,
    );
    distinct = v.distinct;
  }

  module _ (b : ℕ) (e : m.prefix_cache.by_hash h ≡ some b) where
    is_indexed : m.prefix_cache.by_block b ≢ none
    is_indexed f = ground (arith, v.index.block_of h b e)

    not_free : count b m.free_blocks ≡ 0
    not_free = ground (arith, v.places b, v.cached b is_indexed)

    pool_after : (PrefixCache.lookup m.prefix_cache h).1.pool ≡ erase b m.prefix_cache.pool
    pool_after = pool-lookup_hit m.prefix_cache h (lookup_result m.prefix_cache h on ∙ e)

    -- The guard of `_discard_free` never fires: an indexed block is not on the free list.
    reuse-set_ref : reuse looked b ≡ set_ref looked b (m.ref_count b + 1)
    unfolding discard_free
    reuse-set_ref = ground (arith, not_free)

    reused-IsConsistent : IsConsistent (b ∷ pending) (set_ref looked b (m.ref_count b + 1))
    reused-IsConsistent = record {
      index = lookup-IsIndexed m.prefix_cache v.index h;
      refs = λ x. ground (arith, v.refs x);
      places = λ x. ground (
        arith,
        v.places x,
        v.cached b is_indexed,
        pool_after,
        count-erase x b m.prefix_cache.pool,
      );
      cached = λ x c. ground (
        arith,
        v.cached x,
        v.cached b is_indexed,
        pool_after,
        count-erase x b m.prefix_cache.pool,
        by_block-lookup m.prefix_cache h,
      );
      distinct = v.distinct;
    }

    reused_available :
        num_free_blocks m ≤ num_free_blocks (set_ref looked b (m.ref_count b + 1)) + 1
    unfolding num_free_blocks
    reused_available = ground (arith, pool_after, length-erase-le b m.prefix_cache.pool)

-- One round of the loop.
abbrev pub grown : BlockManager → Matched → ℕ → ℕ → Matched
grown m found h b = record {
  table = Block.append found.table b;
  chain = found.chain ++ h ∷ [];
  cached_tokens = found.cached_tokens + m.block_size;
}

module _ (pending : List ℕ) (m : BlockManager) (h : ℕ) (v : IsConsistent pending m)
    (on : m.prefix_cache.enabled ≡ true) where
  match_blocks_miss :
      (hs : List ℕ) (found : Matched)
      → m.prefix_cache.by_hash h ≡ none
      → match_blocks (h ∷ hs) found m ≡ (found, looked pending m h v on)
  unfolding match_blocks
  match_blocks_miss hs found e = ground (arith, lookup_result m.prefix_cache h on)

  match_blocks_hit :
      (b : ℕ) (e : m.prefix_cache.by_hash h ≡ some b) (hs : List ℕ) (found : Matched)
      → match_blocks (h ∷ hs) found m
        ≡ match_blocks hs
            (grown m found h b)
            (set_ref (looked pending m h v on) b (m.ref_count b + 1))
  unfolding match_blocks
  match_blocks_hit b e hs found =
      ground (arith, lookup_result m.prefix_cache h on, reuse-set_ref pending m h v on b e)

leading_miss : (f : ℕ → Option ℕ) (h : ℕ) (hs : List ℕ) → f h ≡ none → leading f (h ∷ hs) ≡ []
leading_miss f h hs e = ground arith

leading_hit :
    (f : ℕ → Option ℕ) (h : ℕ) (hs : List ℕ) {b : ℕ}
    → f h ≡ some b
    → leading f (h ∷ hs) ≡ b ∷ leading f hs
leading_hit f h hs e = ground arith

-- What the loop has done: `got` are the blocks found, references to them are pending.
pub record Extended (found : Matched) (pending : List ℕ) (m : BlockManager) (got : List ℕ)
    (r : Matched × BlockManager) : Type 0 where
  pub consistent : IsConsistent (got ++ pending) r.1
  pub available : num_free_blocks m ≤ num_free_blocks r.1 + length got
  pub blocks : r.0.table.blocks ≡ found.table.blocks ++ got
  pub table_size : r.0.table.block_size ≡ found.table.block_size
  pub tokens : r.0.cached_tokens ≡ found.cached_tokens + length got * m.block_size
  pub chain_length : length r.0.chain ≡ length found.chain + length got
  pub same : SameTables m r.1

-- The loop takes exactly the longest leading run of indexed hashes.
pub match_blocks-Extended :
    (hs : List ℕ) (found : Matched) (pending : List ℕ) (m : BlockManager)
    → IsConsistent pending m
    → m.prefix_cache.enabled ≡ true
    → Extended found pending m (leading m.prefix_cache.by_hash hs) (match_blocks hs found m)
unfolding match_blocks Block.append
match_blocks-Extended [] found pending m v on = record {
  consistent = v;
  available = omega arith;
  blocks = sym (append-nil found.table.blocks);
  table_size = refl;
  tokens = omega arith;
  chain_length = omega arith;
  same = SameTables-refl m;
}
match_blocks-Extended (h ∷ hs) found pending m v on =
    elim (Option-cases (m.prefix_cache.by_hash h)) [
      | inl e ↦
          subst₂ (Extended found pending m) (sym (leading_miss m.prefix_cache.by_hash h hs e))
            (sym (match_blocks_miss pending m h v on hs found e))
            (record {
              consistent = missed-IsConsistent pending m h v on e;
              available =
                  unfold num_free_blocks in
                  (omega (
                    arith,
                    ap length
                        (pool-lookup_miss m.prefix_cache h (lookup_result m.prefix_cache h on ∙ e)),
                  ));
              blocks = sym (append-nil found.table.blocks);
              table_size = refl;
              tokens = omega arith;
              chain_length = omega arith;
              same = record {
                tables = refl;
                chains = refl;
                blocks = refl;
                size = refl;
                watermark = refl;
                enabled = enabled-lookup m.prefix_cache h;
                index = λ x e. ground (arith, e, by_block-lookup m.prefix_cache h);
              };
            })
      | inr (b, e) ↦
          let n = set_ref (looked pending m h v on) b (m.ref_count b + 1) in
          let same_hash = ap (λ f. leading f hs) (by_hash-lookup m.prefix_cache h) in
          let x : Extended (grown m found h b) (b ∷ pending) n (leading n.prefix_cache.by_hash hs)
              (match_blocks hs (grown m found h b) n) =
            match_blocks-Extended hs (grown m found h b) (b ∷ pending) n
              (reused-IsConsistent pending m h v on b e) (enabled-lookup m.prefix_cache h ∙ on) in
          subst₂ (Extended found pending m)
            (ap (◌∷◌ b) same_hash ∙ sym (leading_hit m.prefix_cache.by_hash h hs e))
            (sym (match_blocks_hit pending m h v on b e hs found))
            (record {
              consistent =
                  IsConsistent-count
                    (λ y. ground (
                      arith,
                      count-append y (leading n.prefix_cache.by_hash hs) (b ∷ pending),
                      count-append y (leading n.prefix_cache.by_hash hs) pending,
                    ))
                    x.consistent;
              available = omega (arith, x.available, reused_available pending m h v on b e);
              blocks =
                  x.blocks
                  ∙ append_assoc found.table.blocks (b ∷ []) (leading n.prefix_cache.by_hash hs);
              table_size = x.table_size;
              tokens = grind (arith, x.tokens);
              chain_length = omega (arith, x.chain_length, length-append found.chain (h ∷ []));
              same =
                  SameTables-trans
                    (record {
                      tables = refl;
                      chains = refl;
                      blocks = refl;
                      size = refl;
                      watermark = refl;
                      enabled = enabled-lookup m.prefix_cache h;
                      index = λ x e. ground (arith, e, by_block-lookup m.prefix_cache h);
                    })
                    x.same;
            })
    ]
