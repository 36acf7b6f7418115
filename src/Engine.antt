-- ===== src/Engine.antt =====
-- pagedserve/engine.py: `LLMEngine` as the driver of the scheduler. The model and the sampler, which
-- compute on tensors, are one parameter `sample`: it maps a batch and the sequences whose last token
-- is in it to a token for each. CUDA graphs, which only replace the eager path, are left
-- out, and so is the run-time check of `debug_invariants`, which is off by default.
pub mod Batch
pub mod Advance
pub mod Record
pub mod Step
pub mod Run
pub mod Serve
pub mod Start
use paged_serve.Prelude.{
  ℕ, zero, suc, ◌+◌, ◌-◌, ◌*◌, Bool, true, false, List, [], ◌∷◌, ◌++◌, Option, none, some, length,
  take, drop, map, min, max, ltb, leb, ◌==◌, if◌then◌else◌, Result, ok, raise, runtime_error,
  value_error, Method, return, and_then, ◌>>=◌, ◌>>◌,
}
use paged_serve.BlockManager
use paged_serve.BlockManager.{BlockManager, range_from, trash_block_id, num_used_blocks}
use paged_serve.Block.{BlockTable}
use paged_serve.Sequence.{
  Sequence, SequenceStatus, total_len, all_token_ids, append_token, check_stop,
}
use paged_serve.Swap
use paged_serve.Swap.{SwapSpace, KvCache}
use paged_serve.Scheduler
use paged_serve.Scheduler.{
  Scheduler, Config, PreemptionMode, Output, scheduled, is_empty, on_manager, set_seq,
  num_unfinished,
}

-- `_RaggedBatch` and `RaggedMetadata`: the tensors as lists.
pub record RaggedBatch : Type 0 where
  pub flat_tokens : List ℕ
  pub flat_positions : List ℕ
  pub slot_mapping : List ℕ
  pub query_lens : List ℕ
  pub query_offsets : List ℕ
  pub seq_lens : List ℕ
  pub logits_indices : List ℕ
  pub decode_rows : List ℕ
  pub prefill_rows : List ℕ
  pub sample_rows : List ℕ
  pub offset : ℕ
  pub block_tables : List (List ℕ)
  pub gathered_len : ℕ
  pub live_tokens : ℕ
  pub used_blocks : ℕ

abbrev pub empty_batch : RaggedBatch
empty_batch = record {
  flat_tokens = [];
  flat_positions = [];
  slot_mapping = [];
  query_lens = [];
  query_offsets = [];
  seq_lens = [];
  logits_indices = [];
  decode_rows = [];
  prefill_rows = [];
  sample_rows = [];
  offset = 0;
  block_tables = [];
  gathered_len = 0;
  live_tokens = 0;
  used_blocks = 0;
}

-- `min(sequence.num_scheduled_tokens or remaining, remaining)`
unfoldable pub query_len_of : Sequence → ℕ
query_len_of q =
    let remaining = total_len q - q.num_computed_tokens in
    min (if q.num_scheduled_tokens == 0 then remaining else q.num_scheduled_tokens) remaining

-- The body of the first loop of `_assemble`, with the slots of the row.
abbrev pub add_row : ℕ → Sequence → List ℕ → RaggedBatch → RaggedBatch
add_row row q slots b =
    let start = q.num_computed_tokens in
    let query_len = query_len_of q in
    let end_ = start + query_len in
    record b {
      flat_tokens = b.flat_tokens ++ take query_len (drop start (all_token_ids q));
      flat_positions = b.flat_positions ++ range_from start query_len;
      slot_mapping = b.slot_mapping ++ slots;
      query_lens = b.query_lens ++ query_len ∷ [];
      query_offsets = b.query_offsets ++ b.offset ∷ [];
      seq_lens = b.seq_lens ++ end_ ∷ [];
      logits_indices =
          (if end_ == total_len q
            then b.logits_indices ++ (b.offset + query_len - 1) ∷ []
            else b.logits_indices);
      sample_rows = (if end_ == total_len q then b.sample_rows ++ row ∷ [] else b.sample_rows);
      decode_rows = (if query_len == 1 then b.decode_rows ++ row ∷ [] else b.decode_rows);
      prefill_rows = (if query_len == 1 then b.prefill_rows else b.prefill_rows ++ row ∷ []);
      offset = b.offset + query_len;
      live_tokens = b.live_tokens + end_;
    }

unfoldable pub add_rows : ℕ → List ℕ → RaggedBatch → Method Scheduler RaggedBatch
add_rows row [] b s = (ok b, s)
add_rows row (id ∷ ids) b s =
    (on_manager (
          BlockManager.slots id (s.sequences id).num_computed_tokens
            (query_len_of (s.sequences id)))
        >>= λ slots. add_rows (row + 1) ids (add_row row (s.sequences id) slots b))
      s

-- `max(len(table) for ...)` over the scheduled sequences, and their tables.
unfoldable pub tables_of : List ℕ → Method Scheduler (List (List ℕ))
tables_of [] = return []
tables_of (id ∷ ids) =
    on_manager (BlockManager.block_table id) >>= λ t. tables_of ids >>= λ ts. return (t.blocks ∷ ts)

unfoldable pub longest : List (List ℕ) → ℕ
longest [] = 0
longest (t ∷ ts) = max (length t) (longest ts)

abbrev pub repeat : ℕ → ℕ → List ℕ
repeat zero x = []
repeat (suc n) x = x ∷ repeat n x

-- Padded with the trash block.
unfoldable pub pad : ℕ → ℕ → List (List ℕ) → List (List ℕ)
pad width trash [] = []
pad width trash (t ∷ ts) = (t ++ repeat (width - length t) trash) ∷ pad width trash ts

-- `_assemble`. `max` raises on an empty batch.
unfoldable pub assemble : List ℕ → Method Scheduler RaggedBatch
assemble ids = add_rows 0 ids empty_batch >>= λ b. tables_of ids >>= λ ts s.
    if leb (length ids) 0 then (raise value_error, s) else (
      ok (record b {
        block_tables = pad (longest ts) (trash_block_id s.block_manager) ts;
        gathered_len = longest ts * s.block_manager.block_size;
        used_blocks = num_used_blocks s.block_manager;
      }),
      s,
    )

-- `[output.scheduled[row] for row in sample_rows]`
unfoldable pub rows_of : ℕ → List ℕ → List ℕ → List ℕ
rows_of row [] sample_rows = []
rows_of row (id ∷ ids) [] = []
rows_of row (id ∷ ids) (r ∷ rs) =
    if row == r then id ∷ rows_of (row + 1) ids rs else rows_of (row + 1) ids (r ∷ rs)

module _ (digest : List ℕ → ℕ) where
  -- `zip(output.scheduled, query_lens, strict=True)`: count the computed tokens and seal.
  unfoldable pub advance : List ℕ → List ℕ → Method Scheduler (Unit {0})
  advance [] [] s = (ok tt, s)
  advance [] (n ∷ ns) s = (raise value_error, s)
  advance (id ∷ ids) [] s = (raise value_error, s)
  advance (id ∷ ids) (n ∷ ns) s =
      let q = s.sequences id in
      let q' = record q {
        num_computed_tokens = q.num_computed_tokens + n;
        num_scheduled_tokens = 0;
      } in
      (on_manager (BlockManager.seal digest id (all_token_ids q') q'.num_computed_tokens) >>= λ _.
      advance ids ns)
        (set_seq s id q')

-- `zip(completing, tokens, strict=True)`: each sampled sequence gets its token.
unfoldable pub record_tokens : List ℕ → List ℕ → Method Scheduler (Unit {0})
record_tokens [] [] s = (ok tt, s)
record_tokens [] (t ∷ ts) s = (raise value_error, s)
record_tokens (id ∷ ids) [] s = (raise value_error, s)
record_tokens (id ∷ ids) (t ∷ ts) s =
    record_tokens ids ts (set_seq s id (check_stop (append_token (s.sequences id) t)).1)

pub record Engine : Type 0 where
  pub scheduler : Option Scheduler
  pub next_seq_id : ℕ
  pub eos_token_ids : List ℕ

-- A call of the scheduler, which `start` must have made.
abbrev pub on_scheduler : {A : Type 0} → Method Scheduler A → Method Engine A
on_scheduler f e = elim (e.scheduler) [
  | none ↦ (raise runtime_error, e)
  | some s ↦ ((f s).0, record e { scheduler = some (f s).1 })
]

abbrev pub swap_for : PreemptionMode → ℕ → ℕ → Option SwapSpace
swap_for PreemptionMode.recompute num_layers n = none
swap_for PreemptionMode.swap num_layers n = some (Swap.init num_layers n)

-- `start`: the allocator is emptied, and the scheduler is made anew. A missing allocator is an engine
-- without a paged backend; the swap space is made if the policy is SWAP. `fresh_sequences` are the
-- objects before any request, which nothing reads.
unfoldable pub start :
    Config
    → PreemptionMode
    → Option BlockManager
    → ℕ
    → ℕ
    → KvCache
    → (ℕ → Sequence)
    → Method Engine (Unit {0})
start config policy none num_layers swap_space_blocks gpu_cache fresh_sequences e =
    (raise value_error, e)
start config policy (some manager) num_layers swap_space_blocks gpu_cache fresh_sequences e =
    elim (Scheduler.init config policy (BlockManager.reset manager)
      (swap_for policy num_layers swap_space_blocks) gpu_cache fresh_sequences) [
        | raise x ↦ (raise x, e)
        | ok s ↦ (ok tt, record e { scheduler = some s; next_seq_id = 0 })
      ]

module _ (digest : List ℕ → ℕ) (sample : RaggedBatch → List Sequence → List ℕ) where
  -- The part of `step` behind the early return.
  unfoldable pub run_batch : Output → Method Scheduler Output
  run_batch out = assemble (scheduled out) >>= λ b s.
      (let completing = rows_of 0 (scheduled out) b.sample_rows in
          let tokens =
            (if leb (length completing) 0 then [] else sample b (map s.sequences completing)) in
          advance digest (scheduled out) b.query_lens
          >> record_tokens completing tokens
          >> Scheduler.append_slots (scheduled out)
          >> return out)
        s

  unfoldable pub step : Method Engine Output
  step =
      on_scheduler
        (Scheduler.schedule digest >>= λ out. if is_empty out then return out else run_batch out)

  -- The sequence that `add_request` makes.
  abbrev pub request : ℕ → List ℕ → ℕ → List ℕ → Sequence
  request seq_id prompt_token_ids max_tokens stop_token_ids = record {
    seq_id = seq_id;
    prompt_token_ids = prompt_token_ids;
    max_tokens = max_tokens;
    stop_token_ids = stop_token_ids;
    output_token_ids = [];
    status = SequenceStatus.waiting;
    num_computed_tokens = 0;
    num_preemptions = 0;
    finish_reason = none;
    arrival_index = 0;
    num_scheduled_tokens = 0;
  }

  abbrev pub or_else : Option (List ℕ) → List ℕ → List ℕ
  or_else none l = l
  or_else (some k) l = k

  -- A request without an id takes the engine's next one.
  abbrev pub id_of : Option ℕ → ℕ → ℕ
  id_of none next = next
  id_of (some id) next = id

  abbrev pub next_of : Option ℕ → ℕ → ℕ
  next_of none next = next + 1
  next_of (some id) next = next

  -- Returns the id; the sequence is what the scheduler has under it.
  unfoldable pub add_request : List ℕ → ℕ → Option (List ℕ) → Option ℕ → Method Engine ℕ
  add_request prompt_token_ids max_tokens stop_token_ids seq_id e = elim (e.scheduler) [
    | none ↦ (raise runtime_error, e)
    | some s ↦
        let id = id_of seq_id e.next_seq_id in
        let q = request id prompt_token_ids max_tokens (or_else stop_token_ids e.eos_token_ids) in
        (
          ok id,
          record e {
            scheduler = some (Scheduler.add_request (set_seq s id q) id);
            next_seq_id = next_of seq_id e.next_seq_id;
          },
        )
  ]

  unfoldable pub submit : List (List ℕ) → ℕ → Option (List ℕ) → Method Engine (List ℕ)
  submit [] max_tokens stop_token_ids = return []
  submit (prompt ∷ prompts) max_tokens stop_token_ids =
      add_request prompt max_tokens stop_token_ids none >>= λ id.
      submit prompts max_tokens stop_token_ids >>= λ ids. return (id ∷ ids)

  -- The `while` loop of `generate_continuous`, with the steps that are left of `max_steps`.
  unfoldable pub run_steps : ℕ → Method Engine (Unit {0})
  run_steps zero e = (ok tt, e)
  run_steps (suc n) e = elim (e.scheduler) [
    | none ↦ (raise runtime_error, e)
    | some s ↦ if leb (num_unfinished s) 0 then (ok tt, e) else (step >>= λ _. run_steps n) e
  ]

  -- `generate_continuous`, with what its `start` is given: the configuration that it chooses and the
  -- engine's allocator.
  unfoldable pub generate_continuous :
      Config
      → PreemptionMode
      → Option BlockManager
      → ℕ
      → ℕ
      → KvCache
      → (ℕ → Sequence)
      → List (List ℕ)
      → ℕ
      → Option (List ℕ)
      → ℕ
      → Method Engine (List ℕ)
  generate_continuous config policy manager num_layers swap_space_blocks gpu_cache fresh_sequences
        prompts max_tokens stop_token_ids max_steps =
      start config policy manager num_layers swap_space_blocks gpu_cache fresh_sequences
      >> (submit prompts max_tokens stop_token_ids >>= λ submitted. run_steps max_steps >> λ e.
          elim (e.scheduler) [
            | none ↦ (raise runtime_error, e)
            | some s ↦
                if leb (num_unfinished s) 0 then (ok submitted, e) else (raise runtime_error, e)
          ])
