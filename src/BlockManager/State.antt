-- ===== src/BlockManager/State.antt =====
-- pagedserve/memory/block_manager.py: the state of `BlockManager`, its constructor and its
-- accounting. `blocks` is a function from a block's id to its reference count, `block_tables` an
-- association list in insertion order, `_chains` a function into `Option`.
use paged_serve.Prelude.{
  ℕ, zero, suc, ◌+◌, ◌-◌, Bool, List, [], ◌∷◌, Option, none, some, length, ltb, ◌==◌, if◌then◌else◌,
  Result, ok, raise, value_error,
}
use paged_serve.Block.{BlockTable, blocks_needed}
use paged_serve.PrefixCache
use paged_serve.PrefixCache.{PrefixCache}

pub data AllocStatus : Type 0 where
  ready later never : AllocStatus

pub record BlockManager : Type 0 where
  pub num_blocks : ℕ
  pub block_size : ℕ
  pub watermark_blocks : ℕ
  pub ref_count : ℕ → ℕ
  pub free_blocks : List ℕ
  pub block_tables : List (ℕ × BlockTable)
  pub prefix_cache : PrefixCache
  pub chains : ℕ → Option (List ℕ)

-- `range(start, start + n)`
abbrev pub range_from : ℕ → ℕ → List ℕ
range_from start zero = []
range_from start (suc n) = start ∷ range_from (suc start) n

-- The fields that the constructor sets.
abbrev pub fresh : ℕ → ℕ → ℕ → Bool → BlockManager
fresh num_blocks block_size watermark_blocks enable_prefix_caching = record {
  num_blocks = num_blocks;
  block_size = block_size;
  watermark_blocks = watermark_blocks;
  ref_count = λ _. 0;
  free_blocks = range_from 0 num_blocks;
  block_tables = [];
  prefix_cache = PrefixCache.init block_size enable_prefix_caching;
  chains = λ _. none;
}

-- `watermark_blocks` is `int(num_blocks * watermark)`, a number that the caller computes.
unfoldable pub init : ℕ → ℕ → ℕ → Bool → Result BlockManager
init num_blocks block_size watermark_blocks enable_prefix_caching =
    if ltb num_blocks 1
    then raise value_error
    else if ltb block_size 1
    then raise value_error
    else ok (fresh num_blocks block_size watermark_blocks enable_prefix_caching)

unfoldable pub trash_block_id : BlockManager → ℕ
trash_block_id m = m.num_blocks

unfoldable pub num_cache_blocks : BlockManager → ℕ
num_cache_blocks m = m.num_blocks + 1

unfoldable pub num_free_blocks : BlockManager → ℕ
unfolding PrefixCache.num_reclaimable
num_free_blocks m = length m.free_blocks + PrefixCache.num_reclaimable m.prefix_cache

unfoldable pub num_used_blocks : BlockManager → ℕ
num_used_blocks m = m.num_blocks - length m.free_blocks

unfoldable pub can_allocate : BlockManager → ℕ → AllocStatus
can_allocate m num_tokens =
    let needed = blocks_needed m.block_size num_tokens in
    if ltb m.num_blocks needed
    then AllocStatus.never
    else if ltb (num_free_blocks m) (needed + m.watermark_blocks)
    then AllocStatus.later
    else AllocStatus.ready

-- `d.get(k)`, `d[k] = v` and `d.pop(k, None)` on the tables.
abbrev pub find_table : ℕ → List (ℕ × BlockTable) → Option BlockTable
find_table k [] = none
find_table k ((j, t) ∷ l) = if j == k then some t else find_table k l

abbrev pub put_table : ℕ → BlockTable → List (ℕ × BlockTable) → List (ℕ × BlockTable)
put_table k t [] = (k, t) ∷ []
put_table k t ((j, u) ∷ l) = if j == k then (k, t) ∷ l else (j, u) ∷ put_table k t l

abbrev pub drop_table : ℕ → List (ℕ × BlockTable) → List (ℕ × BlockTable)
drop_table k [] = []
drop_table k ((j, u) ∷ l) = if j == k then l else (j, u) ∷ drop_table k l

-- `blocks[b].ref_count = n`
abbrev pub set_ref : BlockManager → ℕ → ℕ → BlockManager
set_ref m b n = record m { ref_count = λ x. if x == b then n else m.ref_count x }

abbrev pub set_cache : BlockManager → PrefixCache → BlockManager
set_cache m c = record m { prefix_cache = c }

abbrev pub set_free : BlockManager → List ℕ → BlockManager
set_free m free = record m { free_blocks = free }

abbrev pub set_table : BlockManager → ℕ → BlockTable → BlockManager
set_table m k t = record m { block_tables = put_table k t m.block_tables }

abbrev pub set_chain : BlockManager → ℕ → Option (List ℕ) → BlockManager
set_chain m k chain = record m { chains = λ j. if j == k then chain else m.chains j }
