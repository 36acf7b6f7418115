-- ===== src/BlockManager.antt =====
-- pagedserve/memory/block_manager.py: the methods of `BlockManager`. A method returns its result
-- beside the new state, also when it raises.
pub mod State
pub mod Invariant
pub mod Tables
pub mod Take
pub mod Sealable
pub mod Release
pub mod Match
pub mod Allocate
pub mod Rewrite
pub mod Growth
pub mod Capacity
pub mod Checks
pub mod Seal
pub mod Sealing
pub mod Diverge
pub mod Contract
use paged_serve.Prelude.{
  ℕ, zero, suc, ◌+◌, ◌-◌, ◌*◌, ◌/◌, min, Bool, true, false, List, [], ◌∷◌, ◌++◌, Option, none, some,
  length, get_elem?, set, take, drop, erase, count, ltb, leb, ◌==◌, if◌then◌else◌, Result, ok,
  raise, value_error, index_error, key_error, memory_error, runtime_error, Method, return, throw,
  and_then, ◌>>=◌, ◌>>◌,
}
use paged_serve.Block
use paged_serve.Block.{BlockTable, blocks_needed}
use paged_serve.PrefixCache
use paged_serve.PrefixCache.{PrefixCache, count_reuse}
use paged_serve.PrefixCache.Hash.{chain_hash, block_hashes}
pub use State.{
  BlockManager, AllocStatus, fresh, range_from, find_table, put_table, drop_table, set_ref,
  set_cache, set_free, set_table, set_chain,
}
unfoldable pub use State.{
  init, trash_block_id, num_cache_blocks, num_free_blocks, num_used_blocks, can_allocate,
}

-- `popleft`, the check of the reference count, and the first reference.
abbrev pub claim : ℕ → Method BlockManager ℕ
claim b m = if m.ref_count b == 0 then (ok b, set_ref m b 1) else (raise runtime_error, m)

-- The block that an eviction gives goes onto the empty free list and is popped from it.
abbrev pub reclaim : Option ℕ × PrefixCache → Method BlockManager ℕ
reclaim (none, c) m = (raise memory_error, set_cache m c)
reclaim (some b, c) m = claim b (set_free (set_cache m c) [])

abbrev pub take_from : List ℕ → Method BlockManager ℕ
take_from [] m = reclaim (PrefixCache.evict m.prefix_cache) m
take_from (b ∷ rest) m = claim b (set_free m rest)

unfoldable pub take_free_block : Method BlockManager ℕ
take_free_block m = take_from m.free_blocks m

-- `for _ in range(remaining): table.append(self._take_free_block())`
unfoldable pub take_blocks : ℕ → BlockTable → Method BlockManager BlockTable
take_blocks zero t = return t
take_blocks (suc n) t = take_free_block >>= λ b. take_blocks n (Block.append t b)

abbrev pub or_key_error : {S A : Type 0} → Option A → Method S A
or_key_error none = throw key_error
or_key_error (some a) = return a

-- `_table`
abbrev pub table_of : ℕ → Method BlockManager BlockTable
table_of seq_id m = or_key_error (find_table seq_id m.block_tables) m

unfoldable pub block_table : ℕ → Method BlockManager BlockTable
block_table seq_id = table_of seq_id

abbrev pub lift : {S A : Type 0} → Result A → Method S A
lift r s = (r, s)

unfoldable pub slots : ℕ → ℕ → ℕ → Method BlockManager (List ℕ)
slots seq_id start n = table_of seq_id >>= λ t. lift (Block.slots t start n)

-- A block leaves the free list if it stands there.
unfoldable pub discard_free : BlockManager → ℕ → BlockManager
discard_free m b = if ltb 0 (count b m.free_blocks) then set_free m (erase b m.free_blocks) else m

-- What the loop over the hashes of a prompt has found so far.
pub record Matched : Type 0 where
  pub table : BlockTable
  pub chain : List ℕ
  pub cached_tokens : ℕ

-- A hit: one more reference, off the free list, and one more block of the table.
abbrev pub reuse : BlockManager → ℕ → BlockManager
reuse m b = discard_free (set_ref m b (m.ref_count b + 1)) b

unfoldable pub match_blocks : List ℕ → Matched → BlockManager → Matched × BlockManager
match_blocks [] found m = (found, m)
match_blocks (h ∷ hs) found m =
    let (hit, cache) = PrefixCache.lookup m.prefix_cache h in
    elim hit [
      | none ↦ (found, set_cache m cache)
      | some b ↦
          match_blocks hs
            (record {
              table = Block.append found.table b;
              chain = found.chain ++ h ∷ [];
              cached_tokens = found.cached_tokens + m.block_size;
            })
            (reuse (set_cache m cache) b)
    ]

-- `if cached_tokens:` the statistics.
abbrev pub count_matched : Matched × BlockManager → Matched × BlockManager
count_matched (found, m) =
    if ltb 0 found.cached_tokens
    then (
      found,
      set_cache m (count_reuse m.prefix_cache (length found.table.blocks) found.cached_tokens),
    )
    else (found, m)

-- `ref_count -= 1` for each block, when the allocation fails.
unfoldable pub undo_refs : List ℕ → BlockManager → BlockManager
undo_refs [] m = m
undo_refs (b ∷ bs) m = undo_refs bs (set_ref m b (m.ref_count b - 1))

abbrev pub no_match : BlockManager → Matched
no_match m = record {
  table = record { block_size = m.block_size; blocks = [] };
  chain = [];
  cached_tokens = 0;
}

-- The blocks that the prefix gives do not suffice: the rest comes off the free list.
unfoldable pub fill : ℕ → ℕ → ℕ → Matched → Method BlockManager (BlockTable × ℕ)
fill seq_id num_tokens needed found m =
    let remaining = needed - length found.table.blocks in
    if ltb (num_free_blocks m) remaining
    then (raise memory_error, undo_refs found.table.blocks m)
    else (take_blocks remaining found.table >>= λ t m'. (
      ok (t, min found.cached_tokens (num_tokens - 1)),
      set_chain (set_table m' seq_id t) seq_id (some found.chain),
    ))
        m

-- `chain[-1] if chain else None`
abbrev pub last_of : List ℕ → Option ℕ
last_of [] = none
last_of (h ∷ []) = some h
last_of (h ∷ h' ∷ hs) = last_of (h' ∷ hs)

-- `self._chains.setdefault(seq_id, [])`
abbrev pub chain_of : Option (List ℕ) → List ℕ
chain_of none = []
chain_of (some chain) = chain

module _ (digest : List ℕ → ℕ) where
  -- `if token_ids is not None and self.prefix_cache.enabled:`
  unfoldable pub match_prefix : ℕ → Option (List ℕ) → Method BlockManager Matched
  match_prefix needed none m = (ok (no_match m), m)
  match_prefix needed (some token_ids) m =
      if m.prefix_cache.enabled
      then and_then (block_hashes digest token_ids m.block_size none)
          (λ hashes m'.
            let r = count_matched (match_blocks (take needed hashes) (no_match m') m') in
            (ok r.0, r.1))
          m
      else (ok (no_match m), m)

  unfoldable pub allocate : ℕ → ℕ → Option (List ℕ) → Method BlockManager (BlockTable × ℕ)
  allocate seq_id num_tokens token_ids m = elim (find_table seq_id m.block_tables) [
    | some _ ↦ (raise value_error, m)
    | none ↦
        (match_prefix (blocks_needed m.block_size num_tokens) token_ids
            >>= fill seq_id num_tokens (blocks_needed m.block_size num_tokens))
          m
  ]

  -- A round of the loop of `seal`: the next full block gets its hash and is indexed. `chain` is
  -- the list in the dictionary, `parent` its last entry.
  unfoldable pub seal_rounds :
      ℕ → ℕ → BlockTable → List ℕ → List ℕ → Option ℕ → Method BlockManager (Unit {0})
  seal_rounds zero seq_id t token_ids chain parent m = (ok tt, m)
  seal_rounds (suc n) seq_id t token_ids chain parent m =
      let index = length chain in
      let h =
        chain_hash digest parent (take m.block_size (drop (index * m.block_size) token_ids)) in
      let m' = set_chain m seq_id (some (chain ++ h ∷ [])) in
      elim (get_elem? t.blocks index) [
        | none ↦ (raise index_error, m')
        | some b ↦
            seal_rounds n seq_id t token_ids (chain ++ h ∷ []) (some h)
              (set_cache m' (PrefixCache.insert m'.prefix_cache h b))
      ]

  unfoldable pub seal : ℕ → List ℕ → ℕ → Method BlockManager (Unit {0})
  seal seq_id token_ids num_computed m =
      if m.prefix_cache.enabled
      then elim (find_table seq_id m.block_tables) [
        | none ↦ (ok tt, m)
        | some t ↦
            let chain = chain_of (m.chains seq_id) in
            let complete = min num_computed (length token_ids) / m.block_size in
            seal_rounds (min complete (length t.blocks) - length chain) seq_id t token_ids chain
              (last_of chain) (set_chain m seq_id (some chain))
      ]
      else (ok tt, m)

-- `table.blocks[logical_block] = destination`, and the source loses a reference.
abbrev pub divert : ℕ → BlockTable → ℕ → ℕ → ℕ → BlockManager → BlockManager
divert seq_id t logical_block source destination m =
    let m' = set_table m seq_id (record t { blocks = set t.blocks logical_block destination }) in
    let m'' = set_ref m' source (m'.ref_count source - 1) in
    set_cache m'' (PrefixCache.forget m''.prefix_cache destination)

unfoldable pub copy_on_write : ℕ → ℕ → Method BlockManager (Option (ℕ × ℕ))
copy_on_write seq_id logical_block m = elim (find_table seq_id m.block_tables) [
  | none ↦ (raise key_error, m)
  | some t ↦ elim (get_elem? t.blocks logical_block) [
    | none ↦ (raise index_error, m)
    | some source ↦
        if leb (m.ref_count source) 1
        then (ok none, m)
        else (take_free_block >>= λ destination m'. (
          ok (some (source, destination)),
          divert seq_id t logical_block source destination m',
        ))
            m
  ]
]

unfoldable pub append_slot : ℕ → ℕ → Method BlockManager (Option ℕ)
append_slot seq_id new_length m = elim (find_table seq_id m.block_tables) [
  | none ↦ (raise key_error, m)
  | some t ↦
      let needed = blocks_needed m.block_size new_length in
      if leb needed (length t.blocks)
      then (ok none, m)
      else if ltb (num_free_blocks m) (needed - length t.blocks)
      then (raise memory_error, m)
      else (take_free_block >>= λ b m'. (ok (some b), set_table m' seq_id (Block.append t b))) m
]

-- One reference less. Where Python's count would turn negative the call raises.
unfoldable pub release_block : ℕ → Method BlockManager (Unit {0})
release_block b m =
    if m.ref_count b == 0
    then (raise runtime_error, m)
    else let m' = set_ref m b (m.ref_count b - 1) in
      if m'.ref_count b == 0
      then (if PrefixCache.is_cached m'.prefix_cache b
          then (ok tt, set_cache m' (PrefixCache.release m'.prefix_cache b))
          else (ok tt, set_free m' (m'.free_blocks ++ b ∷ [])))
      else (ok tt, m')

unfoldable pub release_blocks : List ℕ → Method BlockManager (Unit {0})
release_blocks [] = return tt
release_blocks (b ∷ bs) = release_block b >>= λ _. release_blocks bs

unfoldable pub free : ℕ → Method BlockManager (Unit {0})
free seq_id m =
    let m' = set_chain (record m { block_tables = drop_table seq_id m.block_tables }) seq_id none in
    elim (find_table seq_id m.block_tables) [
      | none ↦ (ok tt, m')
      | some t ↦ release_blocks t.blocks m'
    ]

unfoldable pub share_blocks : List ℕ → BlockManager → BlockManager
share_blocks [] m = m
share_blocks (b ∷ bs) m = share_blocks bs (set_ref m b (m.ref_count b + 1))

unfoldable pub fork : ℕ → ℕ → Method BlockManager BlockTable
fork parent_id child_id m = elim (find_table child_id m.block_tables) [
  | some _ ↦ (raise value_error, m)
  | none ↦ elim (find_table parent_id m.block_tables) [
    | none ↦ (raise key_error, m)
    | some parent ↦ (
      ok (Block.copy parent),
      set_table (share_blocks parent.blocks m) child_id (Block.copy parent),
    )
  ]
]

unfoldable pub reset : BlockManager → BlockManager
reset m = record m {
  block_tables = [];
  chains = λ _. none;
  prefix_cache = PrefixCache.reset m.prefix_cache;
  ref_count = λ _. 0;
  free_blocks = range_from 0 m.num_blocks;
}
