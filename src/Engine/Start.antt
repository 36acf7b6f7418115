-- ===== src/Engine/Start.antt =====
-- `start` and `generate_continuous` of engine.py, from an allocator to the answer.
use paged_serve.Prelude.{
  ℕ, ◌<◌, ◌≡◌, ◌≢◌, ◌⊎◌, refl, arith, List, [], Option, none, some, length, leb, if◌then◌else◌, ok,
  raise, runtime_error, Method, Result,
}
use paged_serve.BlockManager
use paged_serve.BlockManager.{BlockManager}
use paged_serve.BlockManager.Growth.{reset-IsValid}
use paged_serve.Sequence.{Sequence}
use paged_serve.Swap.{KvCache}
use paged_serve.Scheduler
use paged_serve.Scheduler.{Scheduler, Config, PreemptionMode, num_unfinished}
use paged_serve.Scheduler.Invariant.{Ready}
use paged_serve.Engine.{RaggedBatch, Engine, start, swap_for}
use paged_serve.Engine.Serve.{Serves}

module _ (config : Config) (manager : BlockManager) (num_layers swap_space_blocks : ℕ)
    (gpu_cache : KvCache) (fresh_sequences : ℕ → Sequence) where
  abbrev started : PreemptionMode → Scheduler
  started policy = record {
    config = config;
    policy = policy;
    block_manager = BlockManager.reset manager;
    swap_space = swap_for policy num_layers swap_space_blocks;
    gpu_cache = gpu_cache;
    sequences = fresh_sequences;
    waiting = [];
    running = [];
    swapped = [];
    swapped_blocks = λ _. none;
    num_preemptions = 0;
    arrivals = 0;
  }

  started-Ready :
      (policy : PreemptionMode)
      → 0 < manager.block_size
      → (policy ≡ PreemptionMode.swap → swap_for policy num_layers swap_space_blocks ≢ none)
      → Ready (started policy)
  unfolding BlockManager.reset
  started-Ready policy positive host = record {
    manager = reset-IsValid manager;
    sealable = λ k t j b e. absurd (cc);
    positive = positive;
    host = λ x c. absurd (omega arith);
    policy_host = host;
    places = λ x. record {
      once = omega arith;
      table = λ c. absurd (omega arith);
      no_table = λ c. refl;
      waits = λ c. absurd (omega arith);
      active = λ c. absurd (omega arith);
      parked = λ c. absurd (omega arith);
      computed = λ c. absurd (omega arith);
    };
  }

  -- With an allocator of a positive block size `start` returns, under either policy and whatever
  -- the allocator held before. The engine has a scheduler then that satisfies the invariant and
  -- has nothing unfinished, and the next id is 0.
  pub start-Serves :
      (policy : PreemptionMode) (e : Engine)
      → 0 < manager.block_size
      → (e' : Engine) × (s : Scheduler) × (start config policy
            (some manager)
            num_layers
            swap_space_blocks
            gpu_cache
            fresh_sequences
            e
          ≡ (ok tt, e'))
        × Serves e' s
        × (num_unfinished s ≡ 0)
        × (e'.next_seq_id ≡ 0)
  unfolding start Scheduler.init num_unfinished
  start-Serves PreemptionMode.recompute e positive = (
    _,
    started PreemptionMode.recompute,
    refl,
    record {
      started = refl;
      ready = started-Ready PreemptionMode.recompute positive (λ f. absurd (cc));
      below = λ x c. absurd (omega arith);
    },
    refl,
    refl,
  )
  start-Serves PreemptionMode.swap e positive = (
    _,
    started PreemptionMode.swap,
    refl,
    record {
      started = refl;
      ready = started-Ready PreemptionMode.swap positive (λ f g. cc);
      below = λ x c. absurd (omega arith);
    },
    refl,
    refl,
  )

module _ (digest : List ℕ → ℕ) (sample : RaggedBatch → List Sequence → List ℕ)
    (one_each : (b : RaggedBatch) (qs : List Sequence) → length (sample b qs) ≡ length qs)
    (max_tokens max_steps : ℕ) (stops : Option (List ℕ)) where
  -- How `generate_continuous` ends: all is done, or its steps ran out.
  abbrev pub Ends : List ℕ → Result (List ℕ) × Engine → Engine → Scheduler → Type 0
  Ends ids r e' s' =
      ((r ≡ (ok ids, e')) × (num_unfinished s' ≡ 0))
      ⊎ ((r ≡ (raise runtime_error, e')) × (0 < num_unfinished s'))

  -- What follows the loop of steps.
  abbrev reply : List ℕ → Engine → Scheduler → Result (List ℕ) × Engine
  reply ids e s = if leb (num_unfinished s) 0 then (ok ids, e) else (raise runtime_error, e)

  abbrev finish : List ℕ → Method Engine (List ℕ)
  finish ids e = elim (e.scheduler) [ none ↦ (raise runtime_error, e) | some s ↦ reply ids e s ]
