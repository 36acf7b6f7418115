-- ===== src/Tests/Data.antt =====
-- The concrete allocators and schedulers that the tests run on.
use paged_serve.Prelude.{
  ◌==◌, ℕ, ◌+◌, ◌*◌, ◌%◌, ◌^◌, ◌≡◌, refl, arith, true, false, List, [], ◌∷◌, none, count, ltb,
  if◌then◌else◌, inl, get_elem?, some, zero, suc, sym, ap, ◌∙◌,
}
use paged_serve.Block.{BlockTable, blocks_needed}
use paged_serve.PrefixCache
use paged_serve.PrefixCache.{PrefixCache}
use paged_serve.PrefixCache.Index.{IsIndexed, init-IsIndexed}
use paged_serve.BlockManager.{BlockManager, fresh, num_free_blocks}
use paged_serve.BlockManager.Invariant.{IsValid}
use paged_serve.BlockManager.Sealable.{Sealable}
use paged_serve.Sequence.{Sequence, SequenceStatus}
use paged_serve.Scheduler.{
  Scheduler, PreemptionMode, growth_of, needs_new_block, running_growth_reserve,
}
use paged_serve.Scheduler.Invariant.{Ready}
use paged_serve.Scheduler.Room.{HasRoom}

abbrev pub digest : List ℕ → ℕ
digest [] = 7
digest (x ∷ l) = (x + 31 * digest l) % 2 ^ 64

-- Two full blocks.
abbrev pub two_blocks : BlockTable
two_blocks = record { block_size = 2; blocks = 0 ∷ 1 ∷ [] }

-- Four blocks of two tokens, all free.
abbrev pub unused : BlockManager
unused = fresh 4 2 0 true

-- Sequence 7 holds the blocks 0 and 1; `spare` blocks are free.
abbrev pub holding : List ℕ → ℕ → BlockManager
holding spare num_blocks = record (fresh num_blocks 2 0 true) {
  free_blocks = spare;
  ref_count = λ b. if ltb b 2 then 1 else 0;
  block_tables = (7, two_blocks) ∷ [];
}

pub holding-IsValid :
    (spare : List ℕ) (num_blocks : ℕ)
    → ((b : ℕ) → count b spare + (if ltb b 2 then 1 else 0) ≡ (if ltb b num_blocks then 1 else 0))
    → IsValid (holding spare num_blocks)
unfolding PrefixCache.init
holding-IsValid spare num_blocks h = record {
  index = init-IsIndexed 2 true;
  refs = λ b. ground arith;
  places = λ b. ground (arith, h b);
  cached = λ b c. absurd (c refl);
  distinct = (refl, tt);
}

pub holding-Sealable : (spare : List ℕ) (num_blocks : ℕ) → Sealable (holding spare num_blocks)
unfolding PrefixCache.init
holding-Sealable spare num_blocks k t j b e le at =
    let its : t ≡ two_blocks = ground (arith, e) in
    (refl, own j (ap (λ u. get_elem? u.blocks j) (sym its) ∙ at))
  where
    own :
        (j : ℕ) {b : ℕ}
        → get_elem? two_blocks.blocks j ≡ some b
        → ◌≡◌ {A = ℕ} (if ltb b 2 then 1 else 0) 1
    own zero e = ground (arith, e)
    own (suc zero) e = ground (arith, e)
    own (suc (suc j)) e = absurd (ground (arith, e))

-- The same blocks, shared by the sequences 7 and 8.
abbrev pub sharing : BlockManager
sharing = record (fresh 4 2 0 true) {
  free_blocks = 2 ∷ 3 ∷ [];
  ref_count = λ b. if ltb b 2 then 2 else 0;
  block_tables = (7, two_blocks) ∷ (8, two_blocks) ∷ [];
}

pub sharing-IsValid : IsValid sharing
unfolding PrefixCache.init
sharing-IsValid = record {
  index = init-IsIndexed 2 true;
  refs = λ b. ground arith;
  places = λ b. ground arith;
  cached = λ b c. absurd (c refl);
  distinct = (refl, (refl, tt));
}

-- The blocks 0 and 1 are indexed, and in the pool.
abbrev pub pooled : PrefixCache
pooled = record (PrefixCache.init 2 true) {
  by_hash = λ h. if h == 16 then some 0 else if h == 24 then some 1 else none;
  by_block = λ b. if b == 0 then some 16 else if b == 1 then some 24 else none;
  pool = 0 ∷ 1 ∷ [];
}

pub pooled-IsIndexed : IsIndexed pooled
pooled-IsIndexed = record {
  hash_of = λ b h e. ground (arith, e);
  block_of = λ h b e. ground (arith, e);
  pooled = λ b h e. ground (arith, e, h);
  once = λ b. ground arith;
}

-- An allocator that nobody uses, and that has these blocks in its cache.
abbrev pub remembering : BlockManager
remembering = record (fresh 4 2 0 true) { free_blocks = 2 ∷ 3 ∷ []; prefix_cache = pooled }

pub remembering-IsValid : IsValid remembering
remembering-IsValid = record {
  index = pooled-IsIndexed;
  refs = λ b. refl;
  places = λ b. ground arith;
  cached = λ b c. ground (arith, c);
  distinct = tt;
}

-- A sequence of four tokens.
abbrev pub four_tokens : SequenceStatus → Sequence
four_tokens status = record {
  seq_id = 7;
  prompt_token_ids = 11 ∷ 12 ∷ 13 ∷ [];
  max_tokens = 9;
  stop_token_ids = 99 ∷ [];
  output_token_ids = 14 ∷ [];
  status = status;
  num_computed_tokens = 3;
  num_preemptions = 0;
  finish_reason = none;
  arrival_index = 0;
  num_scheduled_tokens = 1;
}

-- Sequence 7 runs.
abbrev pub busy : List ℕ → ℕ → Scheduler
busy spare num_blocks = record {
  config = record {
    max_num_batched_tokens = 8;
    max_num_seqs = 2;
    enable_chunked_prefill = false;
    static_batching = false;
  };
  policy = PreemptionMode.recompute;
  block_manager = holding spare num_blocks;
  swap_space = none;
  gpu_cache = λ layer kv block. 0;
  sequences = λ x. four_tokens SequenceStatus.running;
  waiting = [];
  running = 7 ∷ [];
  swapped = [];
  swapped_blocks = λ x. none;
  num_preemptions = 0;
  arrivals = 1;
}

pub busy-Ready :
    (spare : List ℕ) (num_blocks : ℕ)
    → ((b : ℕ) → count b spare + (if ltb b 2 then 1 else 0) ≡ (if ltb b num_blocks then 1 else 0))
    → Ready (busy spare num_blocks)
unfolding blocks_needed
busy-Ready spare num_blocks h = record {
  manager = holding-IsValid spare num_blocks h;
  sealable = holding-Sealable spare num_blocks;
  positive = omega arith;
  host = λ x c. absurd (omega arith);
  policy_host = λ e. absurd (ground arith);
  places = λ x. record {
    once = ground arith;
    table = λ c. (two_blocks, ground arith, refl, λ st. refl);
    no_table = λ c. ground arith;
    waits = λ c. absurd (omega arith);
    active = λ c. inl refl;
    parked = λ c. absurd (omega arith);
    computed = λ c. omega arith;
  };
}

-- With two blocks to spare, and with none.
abbrev pub roomy : Scheduler
roomy = busy (2 ∷ 3 ∷ []) 4

abbrev pub tight : Scheduler
tight = busy [] 2

pub roomy-Ready : Ready roomy
roomy-Ready = busy-Ready (2 ∷ 3 ∷ []) 4 (λ b. ground arith)

pub tight-Ready : Ready tight
tight-Ready = busy-Ready [] 2 (λ b. ground arith)

pub roomy-HasRoom : HasRoom roomy
unfolding running_growth_reserve growth_of needs_new_block blocks_needed num_free_blocks
    PrefixCache.num_reclaimable
roomy-HasRoom = omega arith
