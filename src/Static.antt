-- ===== src/Static.antt =====
-- `LLMEngine.generate`, `_build_step` and `_left_pad` of pagedserve/engine.py: static batching, one
-- left-padded batch from its prompts to its last token. The tensors and lists that have one row for
-- each prompt are one list of records. The run-time check of `debug_invariants` is off.
pub mod Agreement
pub mod Generate
pub mod Outputs
pub mod Padding
pub mod Rounds
pub mod Rows
pub use Rows.{Row, falses, trues, left_pad_row, emitted, all_finished}
unfoldable pub use Rows.{left_pad, record_token, record_rows, feed, feed_rows}
use paged_serve.Prelude.{
  ℕ, zero, suc, ◌+◌, ◌-◌, ◌*◌, Bool, true, false, ◌&&◌, ◌||◌, List, [], ◌∷◌, ◌++◌, Option, none,
  some, length, take, drop, map, ltb, ◌==◌, if◌then◌else◌, Result, ok, raise, index_error,
  value_error, Method, return, throw, and_then, ◌>>=◌, ◌>>◌,
}
use paged_serve.Block.{BlockTable, slot, cons_slot}
use paged_serve.BlockManager
use paged_serve.BlockManager.{
  BlockManager, AllocStatus, can_allocate, trash_block_id, num_used_blocks,
}
use paged_serve.Sequence.{FinishReason}
use paged_serve.Engine.{longest, pad}
use paged_serve.Attention.{KvMemoryStats, StepInput}

-- The methods of the installed backend, and the model on top of it. `forward` stands for `begin_step`,
-- the layers of the model and `greedy`: it maps a step, its tokens and their positions to the next
-- token of each row.
pub record Backend (B : Type 0) : Type 0 where
  pub allocate : B → B
  pub set_used_blocks : ℕ → B → B
  pub memory_stats : B → KvMemoryStats
  pub forward : StepInput → List (List ℕ) → List (List ℕ) → Method B (ℕ → ℕ)

-- `reported` is what `on_step` was called with.
pub record Static (B : Type 0) : Type 0 where
  pub block_manager : Option BlockManager
  pub backend : B
  pub step_stats : List KvMemoryStats
  pub reported : List (List (Option ℕ))

pub record GenerationOutput : Type 0 where
  pub token_ids : List (List ℕ)
  pub finish_reasons : List FinishReason
  pub step_stats : List KvMemoryStats

-- The slots of one row of `_build_step`: padding goes to the trash block.
unfoldable pub row_slots : ℕ → BlockTable → ℕ → List Bool → Result (List ℕ)
row_slots trash table logical [] = ok []
row_slots trash table logical (false ∷ real) =
    cons_slot (ok trash) (row_slots trash table logical real)
row_slots trash table logical (true ∷ real) =
    cons_slot (slot table logical) (row_slots trash table (logical + 1) real)

-- The loop over the sequences from `seq_id` on.
unfoldable pub slots_from : ℕ → List (List Bool) → List ℕ → Method BlockManager (List ℕ)
slots_from seq_id [] starts = return []
slots_from seq_id (real ∷ token_is_real) [] = throw index_error
slots_from seq_id (real ∷ token_is_real) (logical ∷ starts) =
    BlockManager.block_table seq_id >>= λ table m.
    ((λ m'. (row_slots (trash_block_id m * m.block_size) table logical real, m')) >>= λ slots.
    slots_from (suc seq_id) token_is_real starts >>= λ rest. return (slots ++ rest))
      m

unfoldable pub tables_from : ℕ → ℕ → Method BlockManager (List (List ℕ))
tables_from seq_id zero = return []
tables_from seq_id (suc n) = BlockManager.block_table seq_id >>= λ table.
    tables_from (suc seq_id) n >>= λ rest. return (table.blocks ∷ rest)

-- The loop over `range(batch)`: each table is long enough for its sequence.
unfoldable pub grow_tables : ℕ → List Row → Method BlockManager (Unit {0})
grow_tables seq_id [] = return tt
grow_tables seq_id (row ∷ rows) =
    BlockManager.append_slot seq_id row.seq_len >>= λ _. grow_tables (suc seq_id) rows

-- The loop of `generate` that admits the prompts, whose `LATER` is left to `allocate`.
unfoldable pub admit : (List ℕ → ℕ) → ℕ → ℕ → List (List ℕ) → Method BlockManager (Unit {0})
admit digest max_tokens seq_id [] m = (ok tt, m)
admit digest max_tokens seq_id (ids ∷ prompts) m = elim (can_allocate m (length ids + max_tokens)) [
  | AllocStatus.never ↦ (raise value_error, m)
  | _ ↦
      (BlockManager.allocate digest seq_id (length ids) none >>= λ _.
      admit digest max_tokens (suc seq_id) prompts)
        m
]

abbrev pub emptied : Option BlockManager → Option BlockManager
emptied none = none
emptied (some m) = some (BlockManager.reset m)

unfoldable pub prefill_step : ℕ → List Row → StepInput
prefill_step max_prompt rows = record {
  query_len = max_prompt;
  context_len = 0;
  seq_lens = map (λ row. row.seq_len) rows;
  padding_mask = map (λ row. take max_prompt row.padding_mask) rows;
  query_positions = some (map (λ row. take max_prompt row.position_ids) rows);
  is_prefill = true;
  block_tables = none;
  slot_mapping = none;
}

abbrev pub column : {A : Type 0} → ℕ → List A → List A
column position xs = take 1 (drop position xs)

unfoldable pub decode_step : ℕ → List Row → StepInput
decode_step position rows = record {
  query_len = 1;
  context_len = position;
  seq_lens = map (λ row. row.seq_len) rows;
  padding_mask = map (λ row. take (position + 1) row.padding_mask) rows;
  query_positions = some (map (λ row. column position row.position_ids) rows);
  is_prefill = false;
  block_tables = none;
  slot_mapping = none;
}

module _ {B : Type 0} (ops : Backend B) where
  -- A call of the allocator, which an engine without a paged backend does not make.
  abbrev pub if_paged : Method BlockManager (Unit {0}) → Method (Static B) (Unit {0})
  if_paged f s = elim s.block_manager [
    | none ↦ (ok tt, s)
    | some m ↦ ((f m).0, record s { block_manager = some (f m).1 })
  ]

  -- `_build_step`: `dense` is the step without tables and slots.
  unfoldable pub build_step : StepInput → List (List Bool) → List ℕ → Method (Static B) StepInput
  build_step dense token_is_real logical_starts s = elim s.block_manager [
    | none ↦ (ok dense, s)
    | some m ↦
        and_then {A = List ℕ × List (List ℕ)}
          ((slots_from 0 token_is_real logical_starts >>= λ slots.
              tables_from 0 (length token_is_real) >>= λ tables. return (slots, tables))
            m).0
          (λ found s'. (
            ok (record dense {
              block_tables = some (pad (longest found.1) (trash_block_id m) found.1);
              slot_mapping = some found.0;
            }),
            record s' { backend = ops.set_used_blocks (num_used_blocks m) s'.backend },
          ))
          s
  ]

  -- `begin_step`, the model and the figures of one step.
  unfoldable pub run_step : StepInput → List (List ℕ) → List (List ℕ) → Method (Static B) (ℕ → ℕ)
  run_step step input_ids position_ids s =
      let ran = ops.forward step input_ids position_ids s.backend in
      and_then ran.0
        (λ tokens s'.
          (ok tokens, record s' { step_stats = s'.step_stats ++ ops.memory_stats s'.backend ∷ [] }))
        (record s { backend = ran.1 })

  -- The whole padded prompt in one pass.
  unfoldable pub prefill : ℕ → List Row → Method (Static B) (ℕ → ℕ)
  prefill max_prompt rows =
      build_step (prefill_step max_prompt rows) (map (λ row. take max_prompt row.padding_mask) rows)
        (map (λ row. 0) rows)
      >>= λ step.
          run_step step (map (λ row. take max_prompt row.input_ids) rows)
            (map (λ row. take max_prompt row.position_ids) rows)

  -- The part of the loop behind its breaks, on rows that were fed.
  unfoldable pub run_decode : ℕ → List Row → Method (Static B) (ℕ → ℕ)
  run_decode position rows =
      if_paged (grow_tables 0 rows)
      >> build_step (decode_step position rows) (map (λ row. true ∷ []) rows)
          (map (λ row. row.seq_len - 1) rows)
      >>= λ step.
          run_step step (map (λ row. column position row.input_ids) rows)
            (map (λ row. column position row.position_ids) rows)

  -- The `for` loop, with the rounds that are left of `max_tokens`.
  unfoldable pub decode : List ℕ → ℕ → ℕ → ℕ → (ℕ → ℕ) → List Row → Method (Static B) (List Row)
  decode eos max_tokens zero position tokens rows s = (ok rows, s)
  decode eos max_tokens (suc left) position tokens rows s =
      let rows' = record_rows eos max_tokens 0 tokens rows in
      let s' = record s { reported = s.reported ++ emitted 0 tokens rows ∷ [] } in
      elim (all_finished rows' || (left == 0)) [
        | true ↦ (ok rows', s')
        | false ↦
            (let fed = feed_rows 0 position tokens rows' in
                run_decode position fed >>= λ next.
                decode eos max_tokens left (position + 1) next fed)
              s'
      ]

  abbrev pub output_of : List Row → Method (Static B) GenerationOutput
  output_of rows s = (
    ok (record {
      token_ids = map (λ row. row.output) rows;
      finish_reasons = map (λ row. row.finish_reason) rows;
      step_stats = s.step_stats;
    }),
    s,
  )

  -- `self.backend.allocate()`, with the figures and reports of a new call.
  abbrev pub begin : Static B → Static B
  begin s = record s {
    backend = ops.allocate s.backend;
    block_manager = emptied s.block_manager;
    step_stats = [];
    reported = [];
  }

  -- Behind the guards.
  unfoldable pub generate_batch :
      (List ℕ → ℕ) → List ℕ → ℕ → ℕ → List (List ℕ) → Method (Static B) GenerationOutput
  generate_batch digest eos max_tokens cache_len prompts s =
      let rows = left_pad prompts cache_len in
      (if_paged (admit digest max_tokens 0 prompts) >> prefill (longest prompts) rows >>= λ tokens.
      decode eos max_tokens max_tokens (longest prompts) tokens rows >>= output_of)
        (begin s)

  -- `cache_len` and `max_num_seqs` are the limits of `CacheConfig`.
  unfoldable pub generate :
      (List ℕ → ℕ) → List ℕ → ℕ → ℕ → ℕ → List (List ℕ) → Method (Static B) GenerationOutput
  generate digest eos max_tokens cache_len max_num_seqs [] s =
      (ok (record { token_ids = []; finish_reasons = []; step_stats = [] }), s)
  generate digest eos max_tokens cache_len max_num_seqs (ids ∷ prompts) s =
      if ltb cache_len (longest (ids ∷ prompts) + max_tokens)
      then (raise value_error, s)
      else if ltb max_num_seqs (length (ids ∷ prompts))
      then (raise value_error, s)
      else generate_batch digest eos max_tokens cache_len (ids ∷ prompts) s
