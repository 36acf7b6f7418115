-- ===== src/Tests/Schedulers.antt =====
-- scheduler.py on concrete inputs.
use paged_serve.Prelude.{
  true, ℕ, ◌+◌, ◌≡◌, ◌<◌, refl, arith, [], ◌∷◌, count, ◌==◌, if◌then◌else◌, ok, inl,
}
use paged_serve.Sequence.{Sequence, SequenceStatus, append_token}
use paged_serve.Scheduler
use paged_serve.Scheduler.{Scheduler, Output, empty_output, scheduled, PreemptionMode, evict_by}
use paged_serve.Scheduler.Invariant.{Ready, queued}
use paged_serve.Scheduler.Evict.{Evicted, evict_by-Evicted}
use paged_serve.Scheduler.Room.{Preempted, HasRoom, make_room_for_running-Preempted}
use paged_serve.Scheduler.Append.{IsStep, SameQueues, stepped}
use paged_serve.Scheduler.Growing.{append_slots-Ready}
use paged_serve.Scheduler.Requests.{add_request-Ready}
use paged_serve.Block.{blocks_needed}
use paged_serve.Scheduler.Starvation.{lacks_room_starves}
use paged_serve.Scheduler.Iteration.{Scheduled, schedule-Scheduled}
use paged_serve.PrefixCache
use paged_serve.BlockManager.{num_free_blocks}
use paged_serve.BlockManager.Growth.{fresh-IsValid}
use paged_serve.Scheduler.Idle.{idle, schedule_serves}
use paged_serve.Tests.Data.{
  unused, digest, four_tokens, roomy, roomy-Ready, roomy-HasRoom, tight, tight-Ready,
}

add_request-Ready_example :
    Ready (Scheduler.add_request roomy 5)
    × ((x : ℕ)
        → queued (Scheduler.add_request roomy 5) x ≡ queued roomy x + (if x == 5 then 1 else 0))
add_request-Ready_example = add_request-Ready 5 roomy roomy-Ready refl (omega arith)

-- One sequence runs and one waits.
schedule-Scheduled_example :
    (out : Output) × (s' : Scheduler) × (Scheduler.schedule digest (Scheduler.add_request roomy 5)
      ≡ (ok out, s'))
    × Scheduled (Scheduler.add_request roomy 5) out s'
schedule-Scheduled_example =
    schedule-Scheduled digest (Scheduler.add_request roomy 5)
      (add_request-Ready 5 roomy roomy-Ready refl (omega arith)).0

-- No block is free, and the running sequence needs one.
make_room_for_running-Preempted_example :
    (out' : Output) × (s' : Scheduler) × (Scheduler.make_room_for_running empty_output tight
      ≡ (ok out', s'))
    × Preempted empty_output out' tight s'
    × HasRoom s'
make_room_for_running-Preempted_example =
    make_room_for_running-Preempted empty_output tight tight-Ready

evict_by-Evicted_example :
    (s' : Scheduler) × (evict_by PreemptionMode.recompute 7 tight ≡ (ok tt, s'))
    × Evicted (λ x. count x tight.running) 7 tight s'
evict_by-Evicted_example =
    evict_by-Evicted (λ x. count x tight.running) 7 tight tight-Ready (omega arith)
      PreemptionMode.recompute

-- Sequence 7 gets its fifth token.
abbrev grown : ℕ → Sequence
grown x =
    if x == 7
    then append_token (four_tokens SequenceStatus.running) 15
    else four_tokens SequenceStatus.running

grown-IsStep : IsStep (7 ∷ []) roomy.sequences grown
unfolding append_token
grown-IsStep = record {
  status = λ x. inl (ground arith);
  grown = λ x. ground arith;
  settled = λ x c st. ground (arith, c);
  computed = λ x c. ground (arith, c);
}

append_slots-Ready_example :
    (s' : Scheduler) × (Scheduler.append_slots (7 ∷ []) (stepped roomy grown) ≡ (ok tt, s'))
    × Ready s'
    × (s'.sequences ≡ grown)
    × SameQueues roomy s'
append_slots-Ready_example =
    append_slots-Ready (7 ∷ []) grown roomy roomy-Ready roomy-HasRoom grown-IsStep
      (λ x. omega arith)

-- A cache of two blocks of two tokens, and a sequence of four tokens.
lacks_room_starves_example : Scheduler.lacks_room tight 7 0 ≡ true
lacks_room_starves_example =
    lacks_room_starves tight 7 0 tight-Ready (unfold blocks_needed in omega arith)

-- Nothing runs, and sequence 7 waits for its two blocks and the block of its next token.
abbrev resting : Scheduler
resting = record roomy {
  block_manager = unused;
  sequences = λ x. four_tokens SequenceStatus.waiting;
}

resting-Ready : Ready (idle resting 7 [])
unfolding blocks_needed PrefixCache.init
resting-Ready = record {
  manager = fresh-IsValid 4 2 0 true;
  sealable = λ k t j b e. absurd (cc);
  positive = omega arith;
  host = λ x c. absurd (omega arith);
  policy_host = λ e. absurd (ground arith);
  places = λ x. record {
    once = ground arith;
    table = λ c. absurd (omega arith);
    no_table = λ c. refl;
    waits = λ c. refl;
    active = λ c. absurd (omega arith);
    parked = λ c. absurd (omega arith);
    computed = λ c. omega arith;
  };
}

schedule_serves_example :
    (out : Output) × (s' : Scheduler) × (Scheduler.schedule digest (idle resting 7 [])
      ≡ (ok out, s'))
    × (0 < count 7 (scheduled out))
schedule_serves_example =
    schedule_serves digest resting 7 [] resting-Ready (omega arith) (omega arith)
      (unfold blocks_needed num_free_blocks PrefixCache.num_reclaimable PrefixCache.init in
        omega arith)
      (unfold blocks_needed num_free_blocks PrefixCache.num_reclaimable PrefixCache.init in
        omega arith)
