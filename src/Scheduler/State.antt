-- ===== src/Scheduler/State.antt =====
-- pagedserve/core/scheduler.py: the state of `Scheduler`, and SchedulerConfig of config.py.
-- Sequences are shared objects: a queue holds their ids, and `sequences` maps an id to the object.
use paged_serve.Prelude.{
  ℕ, ◌+◌, Bool, false, ◌&&◌, List, [], ◌∷◌, ◌++◌, Option, none, some, length, ltb, leb, ◌==◌,
  if◌then◌else◌, min, Result, ok, raise, value_error, Method,
}
use paged_serve.Block.{blocks_needed}
use paged_serve.BlockManager.{BlockManager, find_table}
use paged_serve.Sequence.{Sequence, SequenceStatus, is_running, total_len}
use paged_serve.Swap.{SwapSpace, KvCache}

pub data PreemptionMode : Type 0 where
  recompute swap : PreemptionMode

pub record Config : Type 0 where
  pub max_num_batched_tokens : ℕ
  pub max_num_seqs : ℕ
  pub enable_chunked_prefill : Bool
  pub static_batching : Bool

-- `SchedulerConfig.__post_init__`
unfoldable pub check_config : Config → Result Config
check_config c =
    if ltb c.max_num_batched_tokens 1
    then raise value_error
    else if ltb c.max_num_seqs 1
    then raise value_error
    else ok c

pub record Output : Type 0 where
  pub prefills : List ℕ
  pub decodes : List ℕ
  pub preempted : List ℕ
  pub finished : List ℕ
  pub num_batched_tokens : ℕ

abbrev pub empty_output : Output
empty_output = record {
  prefills = [];
  decodes = [];
  preempted = [];
  finished = [];
  num_batched_tokens = 0;
}

abbrev pub scheduled : Output → List ℕ
scheduled o = o.prefills ++ o.decodes

unfoldable pub batch_size : Output → ℕ
batch_size o = length o.prefills + length o.decodes

unfoldable pub is_empty : Output → Bool
is_empty o = leb (length o.prefills) 0 && leb (length o.decodes) 0

pub record Scheduler : Type 0 where
  pub config : Config
  pub policy : PreemptionMode
  pub block_manager : BlockManager
  pub swap_space : Option SwapSpace
  -- The tensor that `attach_kv_cache` gives access to.
  pub gpu_cache : KvCache
  pub sequences : ℕ → Sequence
  pub waiting : List ℕ
  pub running : List ℕ
  pub swapped : List ℕ
  pub swapped_blocks : ℕ → Option (List ℕ)
  pub num_preemptions : ℕ
  pub arrivals : ℕ

-- The constructor: SWAP needs a swap space.
unfoldable pub init :
    Config
    → PreemptionMode
    → BlockManager
    → Option SwapSpace
    → KvCache
    → (ℕ → Sequence)
    → Result Scheduler
init config policy block_manager swap_space gpu_cache sequences =
    let fresh : Scheduler = record {
      config = config;
      policy = policy;
      block_manager = block_manager;
      swap_space = swap_space;
      gpu_cache = gpu_cache;
      sequences = sequences;
      waiting = [];
      running = [];
      swapped = [];
      swapped_blocks = λ _. none;
      num_preemptions = 0;
      arrivals = 0;
    } in
    elim policy [
      | PreemptionMode.recompute ↦ ok fresh
      | PreemptionMode.swap ↦ elim swap_space [ none ↦ raise value_error | some _ ↦ ok fresh ]
    ]

-- A write through a reference to a sequence.
abbrev pub set_seq : Scheduler → ℕ → Sequence → Scheduler
set_seq s id q = record s { sequences = λ x. if x == id then q else s.sequences x }

abbrev pub set_status : Scheduler → ℕ → SequenceStatus → Scheduler
set_status s id status = set_seq s id (record (s.sequences id) { status = status })

abbrev pub runs : Scheduler → ℕ → Bool
runs s id = is_running (s.sequences id).status

-- A call of the allocator, or of the swap space, from a method of the scheduler.
abbrev pub on_manager : {A : Type 0} → Method BlockManager A → Method Scheduler A
on_manager f s = ((f s.block_manager).0, record s { block_manager = (f s.block_manager).1 })

-- `_needs_new_block`
unfoldable pub needs_new_block : Scheduler → ℕ → Bool
needs_new_block s id = elim (find_table id s.block_manager.block_tables) [
  | none ↦ false
  | some t ↦
      ltb (length t.blocks)
        (blocks_needed s.block_manager.block_size (total_len (s.sequences id) + 1))
]

-- `sum(1 for s in self.running if s.status is RUNNING and self._needs_new_block(s))`, which
-- `_make_room_for_running` and `_running_growth_reserve` both compute.
unfoldable pub growth_of : Scheduler → List ℕ → ℕ
growth_of s [] = 0
growth_of s (id ∷ ids) = (if runs s id && needs_new_block s id then 1 else 0) + growth_of s ids

unfoldable pub running_growth_reserve : Scheduler → ℕ
running_growth_reserve s = growth_of s s.running

-- `_chunk`
unfoldable pub chunk : Config → ℕ → ℕ → ℕ
chunk c tokens budget_tokens =
    if c.enable_chunked_prefill && ltb 0 budget_tokens then min tokens budget_tokens else tokens

-- `select_victim` of core/policy.py: the first RUNNING sequence from the end.
unfoldable pub select_victim : Scheduler → List ℕ → Option ℕ
select_victim s [] = none
select_victim s (id ∷ ids) = elim (select_victim s ids) [
  | some v ↦ some v
  | none ↦ if runs s id then some id else none
]
