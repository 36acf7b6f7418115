-- ===== src/Swap.antt =====
-- pagedserve/worker/cache_engine.py, the class `SwapSpace`: host blocks for the KV of preempted
-- sequences. A KV tensor maps a layer, K or V (0 or 1) and a block to the block's row, whose bits are
-- read as one number. Streams and pinning are not modelled: the copies are complete when a call ends.
pub mod Roundtrip
pub mod Restore
use paged_serve.Prelude.{
  ℕ, zero, suc, ◌*◌, ◌/◌, ◌-◌, Bool, ◌&&◌, List, [], ◌∷◌, ◌++◌, Option, none, some, length, map,
  ltb, leb, ◌==◌, if◌then◌else◌, Result, ok, raise, value_error, index_error, memory_error, Method,
}

abbrev pub KvCache : Type 0
KvCache = ℕ → ℕ → ℕ → ℕ

pub record SwapSpace : Type 0 where
  pub num_layers : ℕ
  pub num_cpu_blocks : ℕ
  pub cpu_cache : KvCache
  pub free_cpu_blocks : List ℕ

-- `list(range(n))`, built from its end.
abbrev pub range : ℕ → List ℕ
range zero = []
range (suc n) = range n ++ n ∷ []

unfoldable pub init : ℕ → ℕ → SwapSpace
init num_layers num_cpu_blocks = record {
  num_layers = num_layers;
  num_cpu_blocks = num_cpu_blocks;
  cpu_cache = λ layer kv block. 0;
  free_cpu_blocks = range num_cpu_blocks;
}

unfoldable pub num_free_blocks : SwapSpace → ℕ
num_free_blocks s = length s.free_cpu_blocks

unfoldable pub can_swap_out : SwapSpace → ℕ → Bool
can_swap_out s num_blocks = leb num_blocks (num_free_blocks s)

-- `list.pop()`: the last entry and the rest.
unfoldable pub pop : List ℕ → Option (ℕ × List ℕ)
pop [] = none
pop (x ∷ xs) = elim (pop xs) [ none ↦ some (x, []) | some (y, rest) ↦ some (y, x ∷ rest) ]

-- `[self.free_cpu_blocks.pop() for _ in gpu_blocks]`: the popped entries, and what is left.
unfoldable pub pop_each : List ℕ → List ℕ → Option (List ℕ × List ℕ)
pop_each [] free = some ([], free)
pop_each (_ ∷ bs) free = elim (pop free) [
  | none ↦ none
  | some (c, rest) ↦ elim (pop_each bs rest) [ none ↦ none | some (cs, left) ↦ some (c ∷ cs, left) ]
]

-- `target.index_copy_(0, destination, source_rows.index_select(0, source))` on one plane.
unfoldable pub copy_rows : List ℕ → List ℕ → (ℕ → ℕ) → (ℕ → ℕ) → ℕ → ℕ
copy_rows [] destination rows target = target
copy_rows (s ∷ source) [] rows target = target
copy_rows (s ∷ source) (d ∷ destination) rows target =
    copy_rows source destination rows (λ b. if b == d then rows s else target b)

-- The two loops over the layers and over K and V.
abbrev pub copy_planes : ℕ → List ℕ → List ℕ → KvCache → KvCache → KvCache
copy_planes num_layers source destination from target layer kv =
    if ltb layer num_layers && ltb kv 2
    then copy_rows source destination (from layer kv) (target layer kv)
    else target layer kv

unfoldable pub swap_out : KvCache → List ℕ → Method SwapSpace (List ℕ)
swap_out gpu_cache gpu_blocks s =
    if can_swap_out s (length gpu_blocks)
    then elim (pop_each gpu_blocks s.free_cpu_blocks) [
      | none ↦ (raise index_error, s)
      | some (cpu_blocks, left) ↦ (
        ok cpu_blocks,
        record s {
          free_cpu_blocks = left;
          cpu_cache = copy_planes s.num_layers gpu_blocks cpu_blocks gpu_cache s.cpu_cache;
        },
      )
    ]
    else (raise memory_error, s)

-- Returns the new contents of the GPU's cache.
unfoldable pub swap_in : KvCache → List ℕ → List ℕ → Method SwapSpace KvCache
swap_in gpu_cache cpu_blocks gpu_blocks s =
    if length cpu_blocks == length gpu_blocks
    then (
      ok (copy_planes s.num_layers cpu_blocks gpu_blocks s.cpu_cache gpu_cache),
      record s { free_cpu_blocks = s.free_cpu_blocks ++ cpu_blocks },
    )
    else (raise value_error, s)

-- The sizing of the cache. `budget_bytes` is `int(total_bytes * utilization)`, a number that the
-- caller computes; what is left of it may be negative in Python, which the test covers.
unfoldable pub blocks_from_budget : ℕ → ℕ → ℕ → ℕ → Result ℕ
blocks_from_budget budget_bytes weights_bytes peak_activation_bytes block_bytes =
    if leb block_bytes 0
    then raise value_error
    else if ltb (budget_bytes - weights_bytes - peak_activation_bytes) block_bytes
    then raise value_error
    else ok ((budget_bytes - weights_bytes - peak_activation_bytes) / block_bytes)

-- `block_size * model.kv_bytes_per_token(dtype)`
unfoldable pub bytes_per_block : ℕ → ℕ → ℕ
bytes_per_block block_size kv_bytes_per_token = block_size * kv_bytes_per_token

-- `ModelConfig.kv_bytes_per_token`, with the width of the dtype in bits.
unfoldable pub kv_bytes_per_token : ℕ → ℕ → ℕ → ℕ → ℕ
kv_bytes_per_token num_layers num_kv_heads head_dim bits =
    2 * num_layers * num_kv_heads * head_dim * bits / 8

-- `CacheConfig` of config.py, without the share of the memory to use, a float.
pub record CacheConfig : Type 0 where
  pub max_seq_len : ℕ
  pub max_num_seqs : ℕ
  pub block_size : ℕ
  pub num_blocks_override : Option ℕ
  pub swap_space_blocks : ℕ
  pub enable_prefix_caching : Bool

-- `CacheConfig.__post_init__`
unfoldable pub check_cache_config : CacheConfig → Result CacheConfig
check_cache_config c =
    if ltb c.max_seq_len 1
    then raise value_error
    else if ltb c.max_num_seqs 1
    then raise value_error
    else ok c
