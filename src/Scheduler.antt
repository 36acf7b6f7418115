-- ===== src/Scheduler.antt =====
-- pagedserve/core/scheduler.py: the methods of `Scheduler`. A loop over a queue recurs on the queue;
-- the `while True` of `_make_room_for_running` has rounds, one more than there are running sequences.
pub mod State
pub mod Invariant
pub mod Evict
pub mod Room
pub mod Join
pub mod Resume
pub mod Fill
pub mod Admit
pub mod Admissions
pub mod Grant
pub mod Append
pub mod Growing
pub mod Requests
pub mod Starvation
pub mod Idle
pub mod Iteration
pub mod Retire
pub mod Finish
use paged_serve.Prelude.{
  ℕ, zero, suc, ◌+◌, ◌-◌, Bool, true, false, not, ◌&&◌, ◌||◌, List, [], ◌∷◌, ◌++◌, Option, none,
  some, length, take, erase, ltb, leb, ◌==◌, if◌then◌else◌, Result, ok, raise, Method, return,
  throw, and_then, ◌>>=◌, ◌>>◌, out_of_rounds, runtime_error,
}
use paged_serve.Block.{BlockTable, blocks_needed}
use paged_serve.BlockManager
use paged_serve.BlockManager.{BlockManager, AllocStatus}
use paged_serve.Sequence.{
  Sequence, SequenceStatus, FinishReason, total_len, all_token_ids, num_uncomputed_tokens,
  is_prefill, finish, reset_for_recompute,
}
use paged_serve.Swap
use paged_serve.Swap.{SwapSpace, KvCache}
pub use State.{
  Scheduler, Config, Output, PreemptionMode, empty_output, scheduled, set_seq, set_status, runs,
  on_manager,
}
unfoldable pub use State.{
  check_config, batch_size, is_empty, init, needs_new_block, growth_of, running_growth_reserve,
  chunk, select_victim,
}

unfoldable pub add_request : Scheduler → ℕ → Scheduler
add_request s id = record s {
  sequences = λ x.
      if x == id
      then record (s.sequences id) { status = SequenceStatus.waiting; arrival_index = s.arrivals }
      else s.sequences x;
  arrivals = s.arrivals + 1;
  waiting = s.waiting ++ id ∷ [];
}

unfoldable pub num_unfinished : Scheduler → ℕ
num_unfinished s = length s.waiting + length s.running + length s.swapped

unfoldable pub has_work : Scheduler → Bool
has_work s = ltb 0 (length s.waiting) || ltb 0 (length s.running) || ltb 0 (length s.swapped)

-- The loop of `_retire_finished`, with the sequences that stay.
unfoldable pub retire_from : List ℕ → List ℕ → Output → Method Scheduler Output
retire_from [] still out s = (ok out, record s { running = still })
retire_from (id ∷ ids) still out s = elim ((s.sequences id).status) [
  | SequenceStatus.finished ↦
      (on_manager (BlockManager.free id) >>= λ _.
      retire_from ids still (record out { finished = out.finished ++ id ∷ [] }))
        s
  | _ ↦ retire_from ids (still ++ id ∷ []) out s
]

unfoldable pub retire_finished : Output → Method Scheduler Output
retire_finished out s = retire_from s.running [] out s

-- Drop the KV and requeue at the front: RECOMPUTE, and SWAP when the host is full.
abbrev pub requeue : ℕ → Method Scheduler (Unit {0})
requeue victim = on_manager (BlockManager.free victim) >>= λ _ s. (
  ok tt,
  record (set_seq s victim (reset_for_recompute (s.sequences victim))) {
    waiting = victim ∷ s.waiting;
  },
)

-- `_do_swap_out`, on the space that is there.
abbrev pub do_swap_out : SwapSpace → List ℕ → Method Scheduler (List ℕ)
do_swap_out space blocks s = (
  (Swap.swap_out s.gpu_cache blocks space).0,
  record s { swap_space = some (Swap.swap_out s.gpu_cache blocks space).1 },
)

-- The sequence is parked: its blocks are on the host, those of the GPU are free.
abbrev pub park : ℕ → List ℕ → Method Scheduler (Unit {0})
park victim cpu_blocks s =
    (on_manager (BlockManager.free victim) >>= λ _ s'. (
      ok tt,
      record (set_seq s' victim (record (s'.sequences victim) {
        num_preemptions = (s'.sequences victim).num_preemptions + 1;
        status = SequenceStatus.swapped;
      })) { swapped = victim ∷ s'.swapped },
    ))
      (record s {
        swapped_blocks = λ x. if x == victim then some cpu_blocks else s.swapped_blocks x;
      })

abbrev pub swap_out_of : Option SwapSpace → ℕ → BlockTable → Method Scheduler (Unit {0})
swap_out_of none victim t = requeue victim
swap_out_of (some space) victim t =
    if Swap.can_swap_out space (length t.blocks)
    then do_swap_out space t.blocks >>= park victim
    else requeue victim

unfoldable pub swap_out : ℕ → Method Scheduler (Unit {0})
swap_out victim =
    on_manager (BlockManager.block_table victim) >>= λ t s. swap_out_of s.swap_space victim t s

abbrev pub evict_by : PreemptionMode → ℕ → Method Scheduler (Unit {0})
evict_by PreemptionMode.recompute victim = requeue victim
evict_by PreemptionMode.swap victim = swap_out victim

unfoldable pub preempt : ℕ → Output → Method Scheduler Output
preempt victim out s =
    (evict_by s.policy victim >>= λ _.
    return (record out { preempted = out.preempted ++ victim ∷ [] }))
      (record s { running = erase victim s.running; num_preemptions = s.num_preemptions + 1 })

unfoldable pub make_room : ℕ → Output → Method Scheduler Output
make_room zero out s = (raise out_of_rounds, s)
make_room (suc rounds) out s =
    if leb (running_growth_reserve s) (BlockManager.num_free_blocks s.block_manager)
    then (ok out, s)
    else elim (select_victim s s.running) [
      | none ↦ (ok out, s)
      | some victim ↦ (preempt victim out >>= make_room rounds) s
    ]

unfoldable pub make_room_for_running : Output → Method Scheduler Output
make_room_for_running out s = make_room (length s.running + 1) out s

-- What an iteration may still spend.
pub record Budget : Type 0 where
  pub tokens : ℕ
  pub seqs : ℕ

abbrev pub spend : Budget → ℕ → Budget
spend b tokens = record { tokens = b.tokens - tokens; seqs = b.seqs - 1 }

abbrev pub add_prefill : Output → ℕ → ℕ → Output
add_prefill out id tokens = record out {
  prefills = out.prefills ++ id ∷ [];
  num_batched_tokens = out.num_batched_tokens + tokens;
}

abbrev pub add_decode : Output → ℕ → ℕ → Output
add_decode out id tokens = record out {
  decodes = out.decodes ++ id ∷ [];
  num_batched_tokens = out.num_batched_tokens + tokens;
}

-- Output, budget and state, which the three loops of `schedule` pass on.
pub record Plan : Type 0 where
  pub out : Output
  pub budget : Budget
  pub state : Scheduler

abbrev pub set_scheduled : Scheduler → ℕ → ℕ → Scheduler
set_scheduled s id tokens = set_seq s id (record (s.sequences id) { num_scheduled_tokens = tokens })

-- One running sequence gets its tokens.
abbrev pub grant : ℕ → ℕ → Plan → Plan
grant id tokens p = record {
  out =
      (if is_prefill (p.state.sequences id)
        then add_prefill p.out id tokens
        else add_decode p.out id tokens);
  budget = spend p.budget tokens;
  state = set_scheduled p.state id tokens;
}

-- The loop over the running sequences; `break` ends it.
unfoldable pub grant_running : List ℕ → Plan → Plan
grant_running [] p = p
grant_running (id ∷ ids) p = elim (runs p.state id) [
  | false ↦ grant_running ids p
  | true ↦
      let tokens =
        chunk p.state.config (num_uncomputed_tokens (p.state.sequences id)) p.budget.tokens in
      elim (ltb p.budget.tokens tokens || leb p.budget.seqs 0) [
        | true ↦ p
        | false ↦ grant_running ids (grant id tokens p)
      ]
]

-- The host blocks of a sequence, `[]` if it has none.
abbrev pub parked_blocks : Scheduler → ℕ → List ℕ
parked_blocks s id = elim (s.swapped_blocks id) [ none ↦ [] | some cpu_blocks ↦ cpu_blocks ]

-- The blocks of a sequence's tokens, and the block that its next token may need on top.
abbrev pub blocks_of : Scheduler → ℕ → ℕ
blocks_of s id = blocks_needed s.block_manager.block_size (total_len (s.sequences id))

abbrev pub growth : Scheduler → ℕ → ℕ
growth s id =
    blocks_needed s.block_manager.block_size (total_len (s.sequences id) + 1) - blocks_of s id

abbrev pub next_tokens : Scheduler → ℕ → Budget → ℕ
next_tokens s id b = chunk s.config (num_uncomputed_tokens (s.sequences id)) b.tokens

-- `needed + growth > num_free_blocks - reserve`, without the subtraction.
abbrev pub lacks_room : Scheduler → ℕ → ℕ → Bool
lacks_room s id reserve =
    ltb (BlockManager.num_free_blocks s.block_manager) (blocks_of s id + growth s id + reserve)

-- The tests of a round of `_resume_swapped`: whether the loop goes on.
abbrev pub can_resume : Scheduler → ℕ → ℕ → Budget → Bool
can_resume s id reserve b =
    if leb b.seqs 0
    then false
    else if lacks_room s id reserve
    then false
    else if ltb (blocks_of s id) (length (parked_blocks s id))
    then false
    else not (ltb b.tokens (next_tokens s id b))

-- `_do_swap_in`
abbrev pub do_swap_in : List ℕ → List ℕ → Method Scheduler (Unit {0})
do_swap_in cpu_blocks gpu_blocks s = elim (s.swap_space) [
  | none ↦ (raise runtime_error, s)
  | some space ↦
      and_then (Swap.swap_in s.gpu_cache cpu_blocks gpu_blocks space).0
        (λ cache s'. (ok tt, record s' { gpu_cache = cache }))
        (record s { swap_space = some (Swap.swap_in s.gpu_cache cpu_blocks gpu_blocks space).1 })
]

-- The sequence runs again.
abbrev pub wake : ℕ → Method Scheduler (Unit {0})
wake id s = (
  ok tt,
  record (set_status s id SequenceStatus.running) {
    swapped_blocks = λ x. if x == id then none else s.swapped_blocks x;
    running = s.running ++ id ∷ [];
  },
)

-- A request that can never fit is rejected.
abbrev pub reject : Scheduler → ℕ → List ℕ → Scheduler
reject s id rest =
    set_seq (record s { waiting = rest }) id (finish (s.sequences id) FinishReason.too_long)

-- `num_computed_tokens = cached` if that is more, then the tokens of this iteration.
abbrev pub with_cached : Sequence → ℕ → Sequence
with_cached q cached =
    if ltb q.num_computed_tokens cached then record q { num_computed_tokens = cached } else q

abbrev pub admitted : Sequence → ℕ → ℕ → Sequence
admitted q cached tokens = record (with_cached q cached) {
  num_scheduled_tokens = tokens;
  status = SequenceStatus.running;
}

-- Whether the loop of `_admit_waiting` stops at a request that fits the cache.
abbrev pub can_admit : Scheduler → ℕ → ℕ → Budget → Bool
can_admit s id reserve b =
    if lacks_room s id reserve then false else not (ltb b.tokens (next_tokens s id b))

module _ (digest : List ℕ → ℕ) where
  unfoldable pub resume : ℕ → List ℕ → ℕ → Method Scheduler (Unit {0})
  resume id rest tokens s =
      (on_manager (BlockManager.allocate digest id (total_len (s.sequences id)) none) >>= λ r.
      do_swap_in (parked_blocks s id) (take (length (parked_blocks s id)) (r.0).blocks) >> wake id)
        (set_scheduled (record s { swapped = rest }) id tokens)

  unfoldable pub resume_from : List ℕ → ℕ → Output → Budget → Method Scheduler (Output × Budget)
  resume_from [] reserve out b s = (ok (out, b), s)
  resume_from (id ∷ rest) reserve out b s = elim (can_resume s id reserve b) [
    | false ↦ (ok (out, b), s)
    | true ↦
        let tokens = next_tokens s id b in
        (resume id rest tokens >>= λ _.
        resume_from rest (reserve + growth s id) (add_decode out id tokens) (spend b tokens))
          s
  ]

  unfoldable pub resume_swapped : Output → Budget → Method Scheduler (Output × Budget)
  resume_swapped out b s = resume_from s.swapped (running_growth_reserve s) out b s

  -- Returns the tokens that the sequence runs.
  unfoldable pub admit : ℕ → List ℕ → Budget → Method Scheduler ℕ
  admit id rest b s =
      (on_manager (
            BlockManager.allocate digest id (total_len (s.sequences id))
              (some (all_token_ids (s.sequences id))))
          >>= λ r s'.
              let q = s'.sequences id in
              let tokens = chunk s'.config (num_uncomputed_tokens (with_cached q r.1)) b.tokens in
              (
                ok tokens,
                record (set_seq s' id (admitted q r.1 tokens)) { running = s'.running ++ id ∷ [] },
              ))
        (record s { waiting = rest })

  unfoldable pub admit_from : List ℕ → ℕ → Output → Budget → Method Scheduler Output
  admit_from [] reserve out b s = (ok out, s)
  admit_from (id ∷ rest) reserve out b s = elim (leb b.seqs 0) [
    | true ↦ (ok out, s)
    | false ↦ elim (BlockManager.can_allocate s.block_manager (total_len (s.sequences id))) [
      | AllocStatus.never ↦
          admit_from rest reserve (record out { finished = out.finished ++ id ∷ [] }) b
            (reject s id rest)
      | AllocStatus.later ↦ (ok out, s)
      | AllocStatus.ready ↦ elim (can_admit s id reserve b) [
        | false ↦ (ok out, s)
        | true ↦
            (admit id rest b >>= λ tokens.
            admit_from rest (reserve + growth s id) (add_prefill out id tokens) (spend b tokens))
              s
      ]
    ]
  ]

  unfoldable pub admit_waiting : Output → Budget → Method Scheduler Output
  admit_waiting out b s = admit_from s.waiting (running_growth_reserve s) out b s

-- `[s for s in ids if s.is_prefill is b]`
unfoldable pub prefill_is : Bool → Scheduler → List ℕ → List ℕ
prefill_is b s [] = []
prefill_is b s (id ∷ ids) =
    let rest = prefill_is b s ids in
    if is_prefill (s.sequences id)
    then (if b then id ∷ rest else rest)
    else (if b then rest else id ∷ rest)

-- The order in which the running sequences claim the budget: with chunked prefill decodes first.
abbrev pub claim_order : Scheduler → List ℕ
claim_order s =
    if s.config.enable_chunked_prefill
    then prefill_is false s s.running ++ prefill_is true s s.running
    else s.running

-- Static batching admits only into an empty engine.
abbrev pub may_admit : Scheduler → Bool
may_admit s =
    not (s.config.static_batching && (ltb 0 (length s.running) || ltb 0 (length s.swapped)))

abbrev pub full_budget : Scheduler → Budget
full_budget s = record { tokens = s.config.max_num_batched_tokens; seqs = s.config.max_num_seqs }

module _ (digest : List ℕ → ℕ) where
  -- The last part of `schedule`: swapped sequences first, then new ones, if any may be admitted.
  unfoldable pub fill_batch : Bool → Plan → Result Output × Scheduler
  fill_batch admits p =
      (resume_swapped digest p.out p.budget >>= λ r.
      if admits then admit_waiting digest r.0 r.1 else return r.0)
        p.state

  unfoldable pub schedule : Method Scheduler Output
  schedule = retire_finished empty_output >>= make_room_for_running >>= λ out s.
      fill_batch (may_admit s)
        (grant_running (claim_order s) (record { out = out; budget = full_budget s; state = s }))

unfoldable pub append_slots : List ℕ → Method Scheduler (Unit {0})
append_slots [] s = (ok tt, s)
append_slots (id ∷ ids) s = elim (runs s id) [
  | false ↦ append_slots ids s
  | true ↦
      (on_manager (BlockManager.append_slot id (total_len (s.sequences id))) >>= λ _.
      append_slots ids)
        s
]

-- `[s for s in self.running if s.status is SequenceStatus.FINISHED]`, and the others.
unfoldable pub finished_is : Bool → Scheduler → List ℕ → List ℕ
finished_is b s [] = []
finished_is b s (id ∷ ids) =
    let rest = finished_is b s ids in
    elim ((s.sequences id).status) [
      | SequenceStatus.finished ↦ if b then id ∷ rest else rest
      | _ ↦ if b then rest else id ∷ rest
    ]

unfoldable pub free_each : List ℕ → Method Scheduler (Unit {0})
free_each [] s = (ok tt, s)
free_each (id ∷ ids) s = (on_manager (BlockManager.free id) >>= λ _. free_each ids) s

unfoldable pub free_finished : Method Scheduler (List ℕ)
free_finished s =
    (free_each (finished_is true s s.running) >>= λ _ s'.
    (ok (finished_is true s s.running), record s' { running = finished_is false s' s'.running }))
      s

unfoldable pub reset : Scheduler → Scheduler
reset s = record s {
  waiting = [];
  running = [];
  swapped = [];
  swapped_blocks = λ _. none;
  num_preemptions = 0;
  arrivals = 0;
  block_manager = BlockManager.reset s.block_manager;
}
