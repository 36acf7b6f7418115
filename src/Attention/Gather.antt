-- ===== src/Attention/Gather.antt =====
-- pagedserve/attention/gather.py: the paged backend that gathers blocks. `scaled_dot_product_attention`
-- is the parameter `sdpa`, for one query: its keys, its values and its mask. Rows that several query
-- heads share are rows of the parameter, so `repeat_interleave` has no case here. The plan of a step,
-- which keeps tensors from one layer to the next, only saves work and is computed where it is used.
use paged_serve.Prelude.{
  ℕ, suc, ◌+◌, ◌*◌, ◌/◌, ◌==◌, if◌then◌else◌, Bool, List, [], ◌∷◌, Option, none, some, length,
  get_elem?, set, take, drop, map, ok, raise, runtime_error, value_error, index_error, Method,
  return, ◌>>◌,
}
use paged_serve.Swap.{kv_bytes_per_token}
use paged_serve.Engine.{RaggedBatch}
use paged_serve.Attention.{KvMemoryStats, StepInput, Layer, index_copy, gather_rows, row_mask}

pub record PagedMetadata : Type 0 where
  pub slot_mapping : List ℕ
  pub block_tables : List (List ℕ)
  -- For each sequence and query, the keys that are allowed.
  pub attn_bias : List (List (List Bool))
  pub gathered_len : ℕ
  pub live_tokens : ℕ
  pub used_blocks : ℕ

pub record Paged (R : Type 0) : Type 0 where
  pub num_layers : ℕ
  pub num_kv_heads : ℕ
  pub head_dim : ℕ
  -- The width of the dtype.
  pub bits : ℕ
  pub num_blocks : ℕ
  pub block_size : ℕ
  pub kv_cache : Option (ℕ → Layer R)
  pub live_tokens : ℕ
  pub used_blocks : ℕ

abbrev pub sum : List ℕ → ℕ
sum [] = 0
sum (n ∷ ns) = n + sum ns

-- `block_tables.shape[1]`
abbrev width : List (List ℕ) → ℕ
width [] = 0
width (t ∷ ts) = length t

-- `_build_attn_bias`: one mask for each query of each sequence.
abbrev build_attn_bias : ℕ → List ℕ → List (List ℕ) → List (List (List Bool))
build_attn_bias gathered_len [] positions = []
build_attn_bias gathered_len (n ∷ seq_lens) [] = []
build_attn_bias gathered_len (n ∷ seq_lens) (ps ∷ positions) =
    map (row_mask gathered_len n) ps ∷ build_attn_bias gathered_len seq_lens positions

module _ {R : Type 0} where
  unfoldable pub trash_block_id : Paged R → ℕ
  trash_block_id b = b.num_blocks

  unfoldable pub free : Paged R → Paged R
  free b = record b { kv_cache = none; live_tokens = 0; used_blocks = 0 }

  -- `torch.zeros`: every row is the given one.
  unfoldable pub allocate : R → Paged R → Paged R
  unfolding free
  allocate zeros b = record (free b) {
    kv_cache = some (λ _. record { keys = λ _. zeros; values = λ _. zeros });
  }

  unfoldable pub set_used_blocks : ℕ → Paged R → Paged R
  set_used_blocks used b = record b { used_blocks = used }

  unfoldable pub begin_step : StepInput → Method (Paged R) PagedMetadata
  begin_step step b = elim b.kv_cache [
    | none ↦ (raise runtime_error, b)
    | some _ ↦ elim step.slot_mapping [
      | none ↦ (raise value_error, b)
      | some slots ↦ elim step.block_tables [
        | none ↦ (raise value_error, b)
        | some tables ↦ elim step.query_positions [
          | none ↦ (raise value_error, b)
          | some positions ↦ (
            ok (record {
              slot_mapping = slots;
              block_tables = tables;
              attn_bias = build_attn_bias (width tables * b.block_size) step.seq_lens positions;
              gathered_len = width tables * b.block_size;
              live_tokens = sum step.seq_lens;
              used_blocks = b.used_blocks;
            }),
            record b { live_tokens = sum step.seq_lens },
          )
        ]
      ]
    ]
  ]

  unfoldable pub memory_stats : Paged R → KvMemoryStats
  memory_stats b = elim b.kv_cache [
    | none ↦ record { allocated_bytes = 0; live_bytes = 0 }
    | some _ ↦
        let per_token = kv_bytes_per_token b.num_layers b.num_kv_heads b.head_dim b.bits in
        record {
          allocated_bytes = b.used_blocks * b.block_size * per_token;
          live_bytes = b.live_tokens * per_token;
        }
  ]

  -- `numel() * element_size()`
  unfoldable pub cache_bytes : Paged R → ℕ
  cache_bytes b = elim b.kv_cache [
    | none ↦ 0
    | some _ ↦
        b.num_layers
        * 2
        * (b.num_blocks + 1)
        * b.block_size
        * b.num_kv_heads
        * b.head_dim
        * (b.bits / 8)
  ]

  -- The fused write of a step's K and V.
  abbrev pub write_layer : List ℕ → List R → List R → Layer R → Layer R
  write_layer slots key value layer = record {
    keys = index_copy slots key layer.keys;
    values = index_copy slots value layer.values;
  }

  abbrev pub set_layer : ℕ → Layer R → (ℕ → Layer R) → ℕ → Layer R
  set_layer layer_idx layer cache i = if i == layer_idx then layer else cache i

module _ {O : Type 0} where
  -- `out[start : start + length] = attended`, on an output of which `none` is not yet written.
  unfoldable pub splice : ℕ → List O → List (Option O) → List (Option O)
  splice start [] out = out
  splice start (o ∷ os) out = splice (suc start) os (set out start (some o))

module _ {Q O : Type 0} where
  -- `torch.empty_like(flat_q)`
  abbrev pub unwritten : List Q → List (Option O)
  unwritten query = map (λ _. none) query

module _ {Q R O : Type 0} (sdpa : Q → List R → List R → List Bool → O) where
  -- One call of `scaled_dot_product_attention` for the queries of one sequence.
  abbrev pub attend_each : List R → List R → List Q → List (List Bool) → List O
  attend_each keys values [] masks = []
  attend_each keys values (q ∷ qs) [] = []
  attend_each keys values (q ∷ qs) (m ∷ masks) =
      sdpa q keys values m ∷ attend_each keys values qs masks

  abbrev attend_seqs :
      ℕ → Layer R → List (List ℕ) → List (List Q) → List (List (List Bool)) → List (List O)
  attend_seqs block_size layer [] queries masks = []
  attend_seqs block_size layer (t ∷ tables) [] masks = []
  attend_seqs block_size layer (t ∷ tables) (qs ∷ queries) [] = []
  attend_seqs block_size layer (t ∷ tables) (qs ∷ queries) (ms ∷ masks) =
      attend_each (gather_rows block_size layer.keys t) (gather_rows block_size layer.values t) qs
        ms
      ∷ attend_seqs block_size layer tables queries masks

  -- `forward` with the metadata of `begin_step`.
  unfoldable pub forward :
      ℕ → List (List Q) → List R → List R → PagedMetadata → Method (Paged R) (List (List O))
  forward layer_idx query key value md b = elim b.kv_cache [
    | none ↦ (raise runtime_error, b)
    | some cache ↦
        let layer = write_layer md.slot_mapping key value (cache layer_idx) in
        (
          ok (attend_seqs b.block_size layer md.block_tables query md.attn_bias),
          record b { kv_cache = some (set_layer layer_idx layer cache) },
        )
  ]

  -- What one row of the batch attends to, with its block table and its queries from `start` on.
  abbrev pub answers : ℕ → Layer R → RaggedBatch → List Q → ℕ → ℕ → ℕ → List ℕ → List O
  answers block_size layer md query query_len start seq_len blocks =
      attend_each (gather_rows block_size layer.keys blocks)
        (gather_rows block_size layer.values blocks) (take query_len (drop start query))
        (map (row_mask md.gathered_len seq_len) (take query_len (drop start md.flat_positions)))

  -- One row of the batch.
  unfoldable pub attend_row :
      ℕ → Layer R → RaggedBatch → List Q → ℕ → ℕ → Method (List (Option O)) (Unit {0})
  attend_row block_size layer md query row query_len out = elim (get_elem? md.query_offsets row) [
    | none ↦ (raise index_error, out)
    | some start ↦ elim (get_elem? md.seq_lens row) [
      | none ↦ (raise index_error, out)
      | some seq_len ↦ elim (get_elem? md.block_tables row) [
        | none ↦ (raise index_error, out)
        | some blocks ↦ (
          ok tt,
          splice start (answers block_size layer md query query_len start seq_len blocks) out,
        )
      ]
    ]
  ]

  -- `_attend_decode_rows`: the rows of one token.
  unfoldable pub attend_decode_rows :
      ℕ → Layer R → RaggedBatch → List Q → List ℕ → Method (List (Option O)) (Unit {0})
  attend_decode_rows block_size layer md query [] = return tt
  attend_decode_rows block_size layer md query (row ∷ rows) =
      attend_row block_size layer md query row 1
      >> attend_decode_rows block_size layer md query rows

  -- `_attend_prefill_rows`: the others.
  unfoldable pub attend_prefill_rows :
      ℕ → Layer R → RaggedBatch → List Q → List ℕ → Method (List (Option O)) (Unit {0})
  attend_prefill_rows block_size layer md query [] out = (ok tt, out)
  attend_prefill_rows block_size layer md query (row ∷ rows) out =
      elim (get_elem? md.query_lens row) [
        | none ↦ (raise index_error, out)
        | some query_len ↦
            (attend_row block_size layer md query row query_len
                >> attend_prefill_rows block_size layer md query rows)
              out
      ]

  -- `_forward_ragged`: the write, then the decodes, then the prefills.
  unfoldable pub forward_ragged :
      ℕ → List Q → List R → List R → RaggedBatch → Method (Paged R) (List (Option O))
  forward_ragged layer_idx query key value md b = elim b.kv_cache [
    | none ↦ (raise runtime_error, b)
    | some cache ↦
        let layer = write_layer md.slot_mapping key value (cache layer_idx) in
        let b' = record b { kv_cache = some (set_layer layer_idx layer cache) } in
        let run =
          attend_decode_rows b.block_size layer md query md.decode_rows
          >> attend_prefill_rows b.block_size layer md query md.prefill_rows
          >> λ out. (ok out, out) in
        ((run (unwritten query)).0, b')
  ]
