-- ===== src/PrefixCache/Leading.antt =====
-- A lookup, and the runs of lookups of prefix_cache.py (`match`) and block_manager.py (`allocate`).
use paged_serve.Prelude.{
  ℕ, ◌≡◌, sym, arith, true, List, [], ◌∷◌, ◌++◌, Option, none, some, erase, Option-cases, inl, inr,
  append-nil, append_assoc,
}
use paged_serve.PrefixCache.{PrefixCache, lookup, match, match_from}

-- The blocks of the hashes up to the first that is not indexed.
abbrev pub leading : (ℕ → Option ℕ) → List ℕ → List ℕ
leading by_hash [] = []
leading by_hash (h ∷ hs) = elim (by_hash h) [ none ↦ [] | some b ↦ b ∷ leading by_hash hs ]

module _ (c : PrefixCache) (h : ℕ) where
  pub lookup_result : c.enabled ≡ true → (lookup c h).0 ≡ c.by_hash h
  unfolding lookup
  lookup_result on = ground arith

  pub by_hash-lookup : (lookup c h).1.by_hash ≡ c.by_hash
  unfolding lookup
  by_hash-lookup = ground arith

  pub by_block-lookup : (lookup c h).1.by_block ≡ c.by_block
  unfolding lookup
  by_block-lookup = ground arith

  pub enabled-lookup : (lookup c h).1.enabled ≡ c.enabled
  unfolding lookup
  enabled-lookup = ground arith

  -- Only a hit changes the pool: it takes the block out.
  pub pool-lookup_hit : {b : ℕ} → (lookup c h).0 ≡ some b → (lookup c h).1.pool ≡ erase b c.pool
  unfolding lookup
  pool-lookup_hit e = ground arith

  pub pool-lookup_miss : (lookup c h).0 ≡ none → (lookup c h).1.pool ≡ c.pool
  unfolding lookup
  pool-lookup_miss e = ground arith

match_from-leading :
    (hs : List ℕ) (c : PrefixCache) (acc : List ℕ)
    → c.enabled ≡ true
    → (match_from hs c acc).0 ≡ acc ++ leading c.by_hash hs
unfolding match_from
match_from-leading [] c acc on = sym (append-nil acc)
match_from-leading (h ∷ hs) c acc on = elim (Option-cases (c.by_hash h)) [
  | inl e ↦ ground (arith, lookup_result c h on, append-nil acc)
  | inr (b, e) ↦
      let next = (lookup c h).1 in
      ground (
        arith,
        lookup_result c h on,
        by_hash-lookup c h,
        enabled-lookup c h,
        match_from-leading hs next (acc ++ b ∷ []),
        append_assoc acc (b ∷ []) (leading c.by_hash hs),
      )
]

-- With caching enabled, `match` returns the blocks of the longest leading run of hashes that are
-- all indexed.
pub match-leading :
    (c : PrefixCache) (hs : List ℕ) → c.enabled ≡ true → (match c hs).0 ≡ leading c.by_hash hs
unfolding match
match-leading c hs on = ground (arith, match_from-leading hs c [] on)
