-- ===== src/Attention/Contiguous.antt =====
-- pagedserve/attention/contiguous.py: the dense backend. A layer has one row of token rows for each
-- sequence slot. Beyond `scaled_dot_product_attention`, the parameter `sdpa` for one query, nothing of
-- the tensor library is left open.
use paged_serve.Prelude.{
  ℕ, suc, min, ◌+◌, ◌-◌, ◌*◌, ◌/◌, Bool, ◌&&◌, List, [], ◌∷◌, Option, none, some, length, take, map,
  ltb, leb, ◌==◌, if◌then◌else◌, ok, raise, runtime_error, value_error, Method,
}
use paged_serve.BlockManager.{range_from}
use paged_serve.Attention.{KvMemoryStats, StepInput, key_len, index_copy}
use paged_serve.Attention.Gather.{attend_each, sum}

pub record DenseMetadata : Type 0 where
  pub write_start : ℕ
  pub query_len : ℕ
  pub key_len : ℕ
  -- For each sequence and query, the keys that are allowed.
  pub attn_bias : List (List (List Bool))
  pub live_tokens : ℕ

-- One layer: a row for each sequence slot and position.
pub record DenseLayer (R : Type 0) : Type 0 where
  pub keys : ℕ → ℕ → R
  pub values : ℕ → ℕ → R

pub record Dense (R : Type 0) : Type 0 where
  pub num_layers : ℕ
  pub num_kv_heads : ℕ
  pub head_dim : ℕ
  -- The width of the dtype.
  pub bits : ℕ
  -- The two limits of `CacheConfig`.
  pub cache_num_seqs : ℕ
  pub cache_seq_len : ℕ
  pub kv_cache : Option (ℕ → DenseLayer R)
  pub num_seq_slots : ℕ
  pub max_seq_len : ℕ
  pub live_tokens : ℕ

-- `keep & causal` on one row.
abbrev pub both : List Bool → List Bool → List Bool
both [] ms = []
both (k ∷ ks) [] = []
both (k ∷ ks) (m ∷ ms) = (k && m) ∷ both ks ms

-- The mask of one query: real tokens, up to the query's own index in the cache.
abbrev pub dense_mask : ℕ → List Bool → ℕ → List Bool
dense_mask key_len padding query_pos =
    both (take key_len padding) (map (λ key_pos. leb key_pos query_pos) (range_from 0 key_len))

-- `_build_attn_bias`
unfoldable pub build_attn_bias : StepInput → List (List (List Bool))
build_attn_bias step =
    map
      (λ padding.
        map (dense_mask (key_len step) padding) (range_from step.context_len step.query_len))
      step.padding_mask

-- One dimension of a tensor that is assigned to a slice of `n`: a single entry is repeated, and any
-- other number but `n` raises.
unfoldable pub broadcast : {A : Type 0} → ℕ → List A → Option (List A)
broadcast n xs = if length xs == n then some xs else elim xs [
  | [] ↦ none
  | x ∷ rest ↦ if leb (length rest) 0 then some (map (λ _. x) (range_from 0 n)) else none
]

module _ {R : Type 0} where
  unfoldable pub free : Dense R → Dense R
  free b = record b { kv_cache = none; num_seq_slots = 0; max_seq_len = 0; live_tokens = 0 }

  -- `torch.zeros`: every row is the given one.
  unfoldable pub allocate : R → Dense R → Dense R
  unfolding free
  allocate zeros b = record (free b) {
    num_seq_slots = b.cache_num_seqs;
    max_seq_len = b.cache_seq_len;
    kv_cache = some (λ _. record { keys = λ _ _. zeros; values = λ _ _. zeros });
  }

  unfoldable pub begin_step : StepInput → Method (Dense R) DenseMetadata
  begin_step step b = elim b.kv_cache [
    | none ↦ (raise runtime_error, b)
    | some _ ↦ if ltb b.max_seq_len (key_len step) then (raise value_error, b) else (
      ok (record {
        write_start = step.context_len;
        query_len = step.query_len;
        key_len = key_len step;
        attn_bias = build_attn_bias step;
        live_tokens = sum step.seq_lens;
      }),
      record b { live_tokens = sum step.seq_lens },
    )
  ]

  unfoldable pub memory_stats : Dense R → KvMemoryStats
  memory_stats b = elim b.kv_cache [
    | none ↦ record { allocated_bytes = 0; live_bytes = 0 }
    | some _ ↦
        let element_size = b.bits / 8 in
        let per_token = 2 * b.num_layers * b.num_kv_heads * b.head_dim * element_size in
        record {
          allocated_bytes =
              b.num_layers * 2 * b.num_seq_slots * b.max_seq_len * b.num_kv_heads * b.head_dim
              * element_size;
          live_bytes = b.live_tokens * per_token;
        }
  ]

  unfoldable pub broadcast_rows : ℕ → List (List R) → Option (List (List R))
  broadcast_rows n [] = some []
  broadcast_rows n (rows ∷ rest) = elim (broadcast n rows) [
    | none ↦ none
    | some rows' ↦ elim (broadcast_rows n rest) [ none ↦ none | some rest' ↦ some (rows' ∷ rest') ]
  ]

  -- `kv_cache[layer_idx, kv, :num_seqs, start:end] = rows`, from sequence slot `seq` on.
  unfoldable pub write_seqs : ℕ → ℕ → List (List R) → (ℕ → ℕ → R) → ℕ → ℕ → R
  write_seqs seq start [] plane = plane
  write_seqs seq start (rows ∷ rest) plane = write_seqs (suc seq) start rest (λ x.
      if x == seq then index_copy (range_from start (length rows)) rows (plane x) else plane x)

  -- The assignment to one plane: the slice ends at the last position, and a tensor that does not fit
  -- it raises.
  unfoldable pub write_dense : ℕ → ℕ → ℕ → List (List R) → ℕ → (ℕ → ℕ → R) → Option (ℕ → ℕ → R)
  write_dense num_seqs start end_ rows max_seq_len plane = elim (broadcast num_seqs rows) [
    | none ↦ none
    | some seqs ↦ elim (broadcast_rows (min end_ max_seq_len - start) seqs) [
      | none ↦ none
      | some fit ↦ some (write_seqs 0 start fit plane)
    ]
  ]

  abbrev pub set_dense : ℕ → DenseLayer R → (ℕ → DenseLayer R) → ℕ → DenseLayer R
  set_dense layer_idx layer cache i = if i == layer_idx then layer else cache i

module _ {Q R O : Type 0} (sdpa : Q → List R → List R → List Bool → O) where
  -- The sequences from slot `seq` on.
  abbrev pub attend_dense :
      ℕ → ℕ → DenseLayer R → List (List Q) → List (List (List Bool)) → List (List O)
  attend_dense seq n layer [] masks = []
  attend_dense seq n layer (qs ∷ queries) [] = []
  attend_dense seq n layer (qs ∷ queries) (ms ∷ masks) =
      attend_each sdpa (map (layer.keys seq) (range_from 0 n))
        (map (layer.values seq) (range_from 0 n)) qs ms
      ∷ attend_dense (suc seq) n layer queries masks

  -- K is written before V. A batch of more sequences than slots has no place in the tensor: the
  -- assignment raises.
  unfoldable pub forward :
      ℕ
      → List (List Q)
      → List (List R)
      → List (List R)
      → DenseMetadata
      → Method (Dense R) (List (List O))
  forward layer_idx query key value md b = elim b.kv_cache [
    | none ↦ (raise runtime_error, b)
    | some cache ↦
        if ltb b.num_seq_slots (length query)
        then (raise runtime_error, b)
        else let num_seqs = length query in
          let end_ = md.write_start + md.query_len in
          let old = cache layer_idx in
          elim (write_dense num_seqs md.write_start end_ key b.max_seq_len old.keys) [
            | none ↦ (raise runtime_error, b)
            | some ks ↦
                elim (write_dense num_seqs md.write_start end_ value b.max_seq_len old.values) [
                  | none ↦ (
                    raise runtime_error,
                    record b {
                      kv_cache = some (set_dense layer_idx (record old { keys = ks }) cache);
                    },
                  )
                  | some vs ↦
                      let layer : DenseLayer R = record { keys = ks; values = vs } in
                      (
                        ok (attend_dense 0 md.key_len layer query md.attn_bias),
                        record b { kv_cache = some (set_dense layer_idx layer cache) },
                      )
                ]
          ]
  ]
