-- ===== src/Tests/Backends.antt =====
-- The attention backends on concrete inputs.
use paged_serve.Prelude.{
  zero, suc, ◌≢◌, sym, ap, get_elem?, ◌≤◌, count, ℕ, ◌+◌, ◌≡◌, refl, arith, Bool, true, false, List,
  [], ◌∷◌, ◌++◌, Option, none, some, length, ok,
}
use paged_serve.Block
use paged_serve.BlockManager
use paged_serve.BlockManager.{trash_block_id, num_used_blocks}
use paged_serve.Engine.{RaggedBatch, assemble, add_rows, tables_of, longest, pad, query_len_of}
use paged_serve.Attention.{Layer, unmasked, StepInput, key_len}
use paged_serve.Attention.Contiguous.{Dense, DenseLayer, DenseMetadata, begin_step, forward}
use paged_serve.Attention.Assign.{Shaped, Assigned}
use paged_serve.Attention.Layout.{some-injective}
use paged_serve.Attention.Dense.{DenseAttends, forward-DenseAttends}
use paged_serve.Attention.Gather.{Paged, forward_ragged, write_layer, set_layer}
use paged_serve.Attention.Isolation.{Kept, Written, write_layer-Isolated}
use paged_serve.Attention.Paged.{Attends, forward_ragged-Attends}
use paged_serve.Tests.Data.{roomy, roomy-Ready}

-- The batch of the last token of sequence 7.
abbrev last_token : RaggedBatch
last_token = record {
  flat_tokens = 14 ∷ [];
  flat_positions = 3 ∷ [];
  slot_mapping = 3 ∷ [];
  query_lens = 1 ∷ [];
  query_offsets = 0 ∷ [];
  seq_lens = 4 ∷ [];
  logits_indices = 0 ∷ [];
  decode_rows = 0 ∷ [];
  prefill_rows = [];
  sample_rows = 0 ∷ [];
  offset = 1;
  block_tables = (0 ∷ 1 ∷ []) ∷ [];
  gathered_len = 4;
  live_tokens = 4;
  used_blocks = 2;
}

assemble_last : assemble (7 ∷ []) roomy ≡ (ok last_token, roomy)
unfolding assemble add_rows tables_of longest pad query_len_of BlockManager.slots
    BlockManager.block_table BlockManager.table_of BlockManager.lift Block.slots Block.slot
    trash_block_id num_used_blocks
assemble_last = refl

-- An attention that lists what it saw.
abbrev lists : ℕ → List ℕ → List ℕ → List ℕ
lists q ks vs = q ∷ (ks ++ vs)

abbrev lists_unmasked : ℕ → List ℕ → List ℕ → List Bool → List ℕ
lists_unmasked q ks vs mask = lists q (unmasked mask ks) (unmasked mask vs)

-- A cache whose rows are their slots.
abbrev slots_cache : ℕ → Layer ℕ
slots_cache layer = record { keys = λ slot. slot; values = λ slot. 100 + slot }

abbrev backend : Paged ℕ
backend = record {
  num_layers = 1;
  num_kv_heads = 1;
  head_dim = 1;
  bits = 16;
  num_blocks = 4;
  block_size = 2;
  kv_cache = some slots_cache;
  live_tokens = 0;
  used_blocks = 2;
}

abbrev written : Layer ℕ
written = write_layer last_token.slot_mapping (70 ∷ []) (170 ∷ []) (slots_cache 0)

forward_ragged-Attends_example :
    (out : List (Option (List ℕ))) × (forward_ragged lists_unmasked 0
        (5 ∷ [])
        (70 ∷ [])
        (170 ∷ [])
        last_token
        backend
      ≡ (ok out, record backend { kv_cache = some (set_layer 0 written slots_cache) }))
    × (length out ≡ 1)
    × Attends lists written roomy (7 ∷ []) (5 ∷ []) out
forward_ragged-Attends_example =
    forward_ragged-Attends lists_unmasked lists (λ q ks vs mask h. refl) roomy roomy-Ready (7 ∷ [])
      (λ x c. record { queued_up = c; runs_now = refl; computed = omega arith }) last_token 0
      (5 ∷ []) (70 ∷ []) (170 ∷ []) slots_cache backend (omega arith) assemble_last refl refl refl

once_7 : (x : ℕ) → count x (7 ∷ []) ≤ 1
once_7 x = ground arith

write_layer-Isolated_example :
    Kept roomy (7 ∷ []) (slots_cache 0) written
    × Written roomy (7 ∷ []) (70 ∷ []) (170 ∷ []) written
write_layer-Isolated_example =
    write_layer-Isolated roomy roomy-Ready (7 ∷ [])
      (λ x c. record { queued_up = c; runs_now = refl; computed = omega arith }) once_7
      (λ x c. omega arith) last_token (70 ∷ []) (170 ∷ []) (slots_cache 0) (omega arith)
      assemble_last

-- Two prompts of two and three tokens, padded to three, and the step that feeds both.
abbrev padded_prompts : StepInput
padded_prompts = record {
  seq_lens = 2 ∷ 3 ∷ [];
  context_len = 0;
  query_len = 3;
  padding_mask = (false ∷ true ∷ true ∷ true ∷ []) ∷ (true ∷ true ∷ true ∷ true ∷ []) ∷ [];
  is_prefill = true;
  query_positions = none;
  block_tables = none;
  slot_mapping = none;
}

abbrev dense_cache : ℕ → DenseLayer ℕ
dense_cache layer = record { keys = λ seq key. 0; values = λ seq key. 0 }

abbrev dense : Dense ℕ
dense = record {
  num_layers = 1;
  num_kv_heads = 1;
  head_dim = 1;
  bits = 16;
  cache_num_seqs = 2;
  cache_seq_len = 4;
  kv_cache = some dense_cache;
  num_seq_slots = 2;
  max_seq_len = 4;
  live_tokens = 0;
}

abbrev prompt_queries : List (List ℕ)
prompt_queries = (1 ∷ 2 ∷ 3 ∷ []) ∷ (4 ∷ 5 ∷ 6 ∷ []) ∷ []

abbrev prompt_keys : List (List ℕ)
prompt_keys = (10 ∷ 11 ∷ 12 ∷ []) ∷ (20 ∷ 21 ∷ 22 ∷ []) ∷ []

prompt_keys-Shaped : Shaped 2 3 prompt_keys
prompt_keys-Shaped = (refl, widths)
  where
    widths : (r : ℕ) (xs : List ℕ) → get_elem? prompt_keys r ≡ some xs → length xs ≡ 3
    widths zero xs e = ap length (sym (some-injective e))
    widths (suc zero) xs e = ap length (sym (some-injective e))
    widths (suc (suc r)) xs e = absurd (ground (arith, e))

forward-DenseAttends_example :
    (md : DenseMetadata) × (out : List (List (List ℕ))) × (b1 : Dense ℕ) × (b2 : Dense ℕ)
    × (cache' : ℕ → DenseLayer ℕ) × (begin_step padded_prompts dense ≡ (ok md, b1))
    × (forward lists_unmasked 0 prompt_queries prompt_keys prompt_keys md b1 ≡ (ok out, b2))
    × (b2.kv_cache ≡ some cache')
    × ((i : ℕ) → i ≢ 0 → cache' i ≡ dense_cache i)
    × Assigned 0 3 prompt_keys (dense_cache 0).keys (cache' 0).keys
    × Assigned 0 3 prompt_keys (dense_cache 0).values (cache' 0).values
    × DenseAttends lists (cache' 0) padded_prompts (1 ∷ 0 ∷ []) prompt_queries out
unfolding key_len
forward-DenseAttends_example =
    forward-DenseAttends lists_unmasked lists (λ q ks vs mask h. refl) padded_prompts (1 ∷ 0 ∷ [])
      refl 0 prompt_queries prompt_keys prompt_keys dense_cache dense refl (omega arith)
      (omega arith) prompt_keys-Shaped prompt_keys-Shaped
