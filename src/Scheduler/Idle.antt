-- ===== src/Scheduler/Idle.antt =====
-- `schedule` of scheduler.py on an engine in which nothing runs: the first request is served.
use paged_serve.Prelude.{
  ℕ, ◌+◌, ◌≤◌, ◌<◌, ◌≡◌, refl, arith, true, List, [], ◌∷◌, count, ◌∙◌, ap, ok, Result, bind-ok,
  ◌>>=◌,
}
use paged_serve.Block.{blocks_needed}
use paged_serve.BlockManager.{AllocStatus, can_allocate, num_free_blocks}
use paged_serve.BlockManager.Capacity.{num_free_blocks-le}
use paged_serve.Sequence.{total_len}
use paged_serve.Scheduler.Invariant.{Ready}
use paged_serve.Scheduler.Room.{HasRoom}
use paged_serve.Scheduler.Admissions.{admit_waiting_head}
use paged_serve.Scheduler.{
  Scheduler, Output, Budget, Plan, empty_output, scheduled, full_budget, retire_finished,
  retire_from, make_room, make_room_for_running, claim_order, grant_running, prefill_is, may_admit,
  fill_batch, resume_swapped, resume_from, schedule, running_growth_reserve, growth_of, can_admit,
  chunk,
}

-- Nothing runs and nothing is swapped out; `y` is the first that waits.
abbrev pub idle : Scheduler → ℕ → List ℕ → Scheduler
idle s y rest = record s { waiting = y ∷ rest; running = []; swapped = [] }

module _ (s : Scheduler) (y : ℕ) (rest : List ℕ) where
  retire-idle : (out : Output) → retire_finished out (idle s y rest) ≡ (ok out, idle s y rest)
  unfolding retire_finished retire_from
  retire-idle out = refl

  idle-HasRoom : HasRoom (idle s y rest)
  unfolding running_growth_reserve growth_of
  idle-HasRoom = omega arith

  room-idle : (out : Output) → make_room_for_running out (idle s y rest) ≡ (ok out, idle s y rest)
  unfolding make_room_for_running make_room running_growth_reserve growth_of
  room-idle out = ground arith

  claims-idle : claim_order (idle s y rest) ≡ []
  unfolding prefill_is
  claims-idle = ground arith

  admits-idle : may_admit (idle s y rest) ≡ true
  admits-idle = ground arith

module _ (digest : List ℕ → ℕ) (s : Scheduler) (y : ℕ) (rest : List ℕ) (h : Ready (idle s y rest))
    (seqs : 0 < s.config.max_num_seqs)
    (budget : total_len (s.sequences y) ≤ s.config.max_num_batched_tokens)
    (fits : blocks_needed s.block_manager.block_size (total_len (s.sequences y))
        + s.block_manager.watermark_blocks
      ≤ num_free_blocks s.block_manager)
    (grows : blocks_needed s.block_manager.block_size (total_len (s.sequences y) + 1)
      ≤ num_free_blocks s.block_manager) where
  can_allocate-idle : can_allocate s.block_manager (total_len (s.sequences y)) ≡ AllocStatus.ready
  unfolding can_allocate
  can_allocate-idle = ground (arith, fits, num_free_blocks-le s.block_manager h.manager)

  can_admit-idle :
      can_admit (idle s y rest) y (running_growth_reserve (idle s y rest)) (full_budget s) ≡ true
  unfolding running_growth_reserve growth_of chunk
  can_admit-idle = ground (arith, fits, grows, budget)

  -- Nothing is granted and nothing resumed, so that the request is the first to be considered.
  fill-idle :
      (out' : Output) × (b' : Budget) × (s' : Scheduler) × (fill_batch digest true
          (record { out = empty_output; budget = full_budget s; state = idle s y rest })
        ≡ (ok out', s'))
      × (0 < count y (scheduled out'))
  unfolding fill_batch resume_swapped resume_from
  fill-idle =
      let (out', b', s', f, x, placed) =
        admit_waiting_head digest y rest empty_output (full_budget s) (idle s y rest) h
          (idle-HasRoom s y rest) refl seqs can_allocate-idle can_admit-idle in
      (out', b', s', f, placed)

  -- If nothing runs and nothing is swapped out on a scheduler that satisfies the invariant, at
  -- least one sequence may run, and the first waiting request has no more tokens than the budget
  -- of tokens, its blocks and the watermark together are available, and so are the blocks for its
  -- tokens and the next one, then the next `schedule` returns a batch that has this request,
  -- whatever waits behind it and with either kind of batching and of prefill.
  pub schedule_serves :
      (out : Output) × (s' : Scheduler) × (schedule digest (idle s y rest) ≡ (ok out, s'))
      × (0 < count y (scheduled out))
  unfolding schedule grant_running
  schedule_serves =
      let (out', b', s', f, placed) = fill-idle in
      let plan : Plan = record {
        out = empty_output;
        budget = full_budget s;
        state = idle s y rest;
      } in
      let step : Output → Scheduler → Result Output × Scheduler = λ out s.
        fill_batch digest (may_admit s) (
          grant_running (claim_order s)
            (record { out = out; budget = full_budget s; state = s })) in
      (
        out',
        s',
        bind-ok (retire_finished empty_output >>= make_room_for_running) step (
              bind-ok (retire_finished empty_output) make_room_for_running
                (retire-idle s y rest empty_output)
              ∙ room-idle s y rest empty_output)
            ∙ ap (λ a. fill_batch digest a (grant_running (claim_order (idle s y rest)) plan))
                (admits-idle s y rest)
            ∙ ap (λ ids. fill_batch digest true (grant_running ids plan)) (claims-idle s y rest)
            ∙ f,
        placed,
      )
