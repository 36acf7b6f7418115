-- ===== src/PrefixCache.antt =====
-- pagedserve/memory/prefix_cache.py, the class `PrefixCache`: an index of blocks by prefix hash, and
-- the pool of those that nobody references, least recently released first. The two dictionaries are
-- functions into `Option`, the ordered dictionary is the list of its keys.
pub mod Hash
pub mod Index
pub mod Leading
use paged_serve.Prelude.{
  ℕ, ◌+◌, ◌*◌, Bool, true, false, List, [], ◌∷◌, ◌++◌, Option, none, some, length, erase, ltb, ◌==◌,
  if◌then◌else◌,
}

pub record Stats : Type 0 where
  pub lookups : ℕ
  pub hits : ℕ
  pub blocks_reused : ℕ
  pub tokens_saved : ℕ
  pub evictions : ℕ

abbrev pub no_stats : Stats
no_stats = record { lookups = 0; hits = 0; blocks_reused = 0; tokens_saved = 0; evictions = 0 }

pub record PrefixCache : Type 0 where
  pub block_size : ℕ
  pub enabled : Bool
  pub stats : Stats
  pub by_hash : ℕ → Option ℕ
  pub by_block : ℕ → Option ℕ
  pub pool : List ℕ

-- `d[k] = v` and `d.pop(k, None)`.
abbrev pub assign : (ℕ → Option ℕ) → ℕ → ℕ → ℕ → Option ℕ
assign f k v x = if k == x then some v else f x

abbrev pub unassign : (ℕ → Option ℕ) → ℕ → ℕ → Option ℕ
unassign f k x = if k == x then none else f x

unfoldable pub init : ℕ → Bool → PrefixCache
init block_size enabled = record {
  block_size = block_size;
  enabled = enabled;
  stats = no_stats;
  by_hash = λ _. none;
  by_block = λ _. none;
  pool = [];
}

unfoldable pub num_reclaimable : PrefixCache → ℕ
num_reclaimable c = length c.pool

unfoldable pub reclaimable_blocks : PrefixCache → List ℕ
reclaimable_blocks c = c.pool

unfoldable pub is_cached : PrefixCache → ℕ → Bool
is_cached c block_id = elim (c.by_block block_id) [ none ↦ false | some _ ↦ true ]

-- `self.stats.lookups += 1`
abbrev pub count_lookup : PrefixCache → PrefixCache
count_lookup c = record c { stats = record (c.stats) { lookups = c.stats.lookups + 1 } }

-- `self.stats.hits += 1` and `self._pool.pop(block_id, None)`
abbrev pub count_hit : PrefixCache → ℕ → PrefixCache
count_hit c block_id = record c {
  stats = record (c.stats) { hits = c.stats.hits + 1 };
  pool = erase block_id c.pool;
}

abbrev pub found : Option ℕ → PrefixCache → Option ℕ × PrefixCache
found none c = (none, c)
found (some block_id) c = (some block_id, count_hit c block_id)

unfoldable pub lookup : PrefixCache → ℕ → Option ℕ × PrefixCache
lookup c block_hash = if c.enabled then found (c.by_hash block_hash) (count_lookup c) else (none, c)

-- The loop of `match`, with the blocks matched so far.
unfoldable pub match_from : List ℕ → PrefixCache → List ℕ → List ℕ × PrefixCache
match_from [] c matched = (matched, c)
match_from (block_hash ∷ rest) c matched = elim ((lookup c block_hash).0) [
  | none ↦ (matched, (lookup c block_hash).1)
  | some block_id ↦ match_from rest (lookup c block_hash).1 (matched ++ block_id ∷ [])
]

-- `blocks_reused += n` and `tokens_saved += t`
abbrev pub count_reuse : PrefixCache → ℕ → ℕ → PrefixCache
count_reuse c n t = record c {
  stats = record (c.stats) {
    blocks_reused = c.stats.blocks_reused + n;
    tokens_saved = c.stats.tokens_saved + t;
  };
}

-- `if matched:` the statistics
abbrev pub after_match : List ℕ × PrefixCache → List ℕ × PrefixCache
after_match r =
    if ltb 0 (length r.0)
    then (r.0, count_reuse r.1 (length r.0) (length r.0 * r.1.block_size))
    else r

unfoldable pub match : PrefixCache → List ℕ → List ℕ × PrefixCache
unfolding match_from
match c hashes = after_match (match_from hashes c [])

unfoldable pub insert : PrefixCache → ℕ → ℕ → PrefixCache
insert c block_hash block_id =
    if c.enabled
    then elim (c.by_hash block_hash) [
      | some _ ↦ c
      | none ↦ record c {
        by_hash = assign c.by_hash block_hash block_id;
        by_block = assign c.by_block block_id block_hash;
      }
    ]
    else c

-- The block becomes the newest of the pool: set, then moved to the end.
unfoldable pub release : PrefixCache → ℕ → PrefixCache
release c block_id = elim (c.by_block block_id) [
  | none ↦ c
  | some _ ↦ record c { pool = erase block_id c.pool ++ block_id ∷ [] }
]

-- Both dictionaries forget the block: what `evict` and `forget` share.
abbrev pub unindex : PrefixCache → ℕ → PrefixCache
unindex c block_id = elim (c.by_block block_id) [
  | none ↦ c
  | some block_hash ↦ record c {
    by_hash = unassign c.by_hash block_hash;
    by_block = unassign c.by_block block_id;
  }
]

abbrev pub count_eviction : PrefixCache → PrefixCache
count_eviction c = record c { stats = record (c.stats) { evictions = c.stats.evictions + 1 } }

-- `popitem(last=False)`, on the pool.
abbrev pub evict_from : List ℕ → PrefixCache → Option ℕ × PrefixCache
evict_from [] c = (none, c)
evict_from (block_id ∷ rest) c =
    (some block_id, count_eviction (unindex (record c { pool = rest }) block_id))

unfoldable pub evict : PrefixCache → Option ℕ × PrefixCache
evict c = evict_from c.pool c

-- `_pool.pop(block_id, None)`
abbrev pub unpool : PrefixCache → ℕ → PrefixCache
unpool c block_id = record c { pool = erase block_id c.pool }

unfoldable pub forget : PrefixCache → ℕ → PrefixCache
forget c block_id = unpool (unindex c block_id) block_id

unfoldable pub reset : PrefixCache → PrefixCache
reset c = record c { by_hash = λ _. none; by_block = λ _. none; pool = []; stats = no_stats }
