-- ===== src/Scheduler/Iteration.antt =====
-- `schedule` of scheduler.py: one iteration from end to end.
use paged_serve.Prelude.{
  ℕ, ◌+◌, ◌≤◌, ◌≡◌, refl, arith, Bool, true, false, List, [], ◌∷◌, count, count-append,
  if◌then◌else◌, ◌∙◌, ap, Bool-cases, inl, inr, ok, ◌>>=◌, bind-ok, return,
}
use paged_serve.Sequence.{is_prefill}
use paged_serve.Scheduler.Invariant.{tokens_of, Ready, AllRun, queued}
use paged_serve.Scheduler.Retire.{Retired, retire_finished-Retired}
use paged_serve.Scheduler.Room.{Preempted, HasRoom, make_room_for_running-Preempted}
use paged_serve.Scheduler.Fill.{Filled, Filled-trans, Filled-weaken, resume_swapped-Filled}
use paged_serve.Scheduler.Admissions.{admit_waiting-Filled}
use paged_serve.Scheduler.Grant.{grant_running-Filled}
use paged_serve.Scheduler.{
  Scheduler, Output, Budget, Plan, batch_size, empty_output, full_budget, may_admit, claim_order,
  grant_running, retire_finished, make_room_for_running, resume_swapped, admit_waiting, fill_batch,
  schedule, scheduled, prefill_is,
}

-- What one iteration promises.
pub record Scheduled (s : Scheduler) (out : Output) (s' : Scheduler) : Type 0 where
  pub ready : Ready s'
  pub kept : (x : ℕ) → tokens_of (s'.sequences x) ≡ tokens_of (s.sequences x)
  pub queues : (x : ℕ) → queued s' x + count x out.finished ≡ queued s x
  pub token_budget : out.num_batched_tokens ≤ s.config.max_num_batched_tokens
  pub seq_budget : batch_size out ≤ s.config.max_num_seqs
  pub room : HasRoom s'
  pub alive : AllRun s'
  pub batch : (x : ℕ) → count x (scheduled out) ≤ count x s'.running

-- The claims are the running sequences, in another order.
count-prefill_is :
    (x : ℕ) (s : Scheduler) (ids : List ℕ)
    → count x (prefill_is false s ids) + count x (prefill_is true s ids) ≡ count x ids
unfolding prefill_is
count-prefill_is x s [] = refl
count-prefill_is x s (y ∷ ids) = elim (Bool-cases (is_prefill (s.sequences y))) [
  | inl e ↦ ground (arith, e, count-prefill_is x s ids)
  | inr e ↦ ground (arith, e, count-prefill_is x s ids)
]

count-claim_order : (x : ℕ) (s : Scheduler) → count x (claim_order s) ≡ count x s.running
count-claim_order x s = ground (
  arith,
  count-prefill_is x s s.running,
  count-append x (prefill_is false s s.running) (prefill_is true s s.running),
)

module _ (digest : List ℕ → ℕ) where
  fill_batch-Filled :
      (admits : Bool) (p : Plan)
      → Ready p.state
      → HasRoom p.state
      → (out' : Output) × (b' : Budget) × (s' : Scheduler) × (fill_batch digest admits p
          ≡ (ok out', s'))
        × Filled [] p.out p.budget p.state out' b' s'
  unfolding fill_batch
  fill_batch-Filled admits p h room =
      let (out1, b1, s1, e, x) = resume_swapped-Filled digest p.out p.budget p.state h room in
      elim (Bool-cases admits) [
        | inr closed ↦ (
          out1,
          b1,
          s1,
          bind-ok (resume_swapped digest p.out p.budget)
                (λ r. if admits then admit_waiting digest r.0 r.1 else return r.0) e
              ∙ rw closed refl,
          x,
        )
        | inl open_ ↦
            let (out2, b2, s2, f, y) = admit_waiting-Filled digest out1 b1 s1 x.ready x.room in
            (
              out2,
              b2,
              s2,
              bind-ok (resume_swapped digest p.out p.budget)
                    (λ r. if admits then admit_waiting digest r.0 r.1 else return r.0) e
                  ∙ rw open_ f,
              Filled-trans x y,
            )
      ]

  abbrev plan_of : Output → Scheduler → Plan
  plan_of out s = record { out = out; budget = full_budget s; state = s }

  -- All three loops together, on a state that has room.
  batch-Filled :
      (out : Output) (s : Scheduler)
      → Ready s
      → HasRoom s
      → (out' : Output) × (b' : Budget) × (s' : Scheduler) × (fill_batch digest
            (may_admit s)
            (grant_running (claim_order s) (plan_of out s))
          ≡ (ok out', s'))
        × Filled (claim_order s) out (full_budget s) s out' b' s'
  batch-Filled out s h room =
      let q = grant_running (claim_order s) (plan_of out s) in
      let step : Filled (claim_order s) out (full_budget s) s q.out q.budget q.state =
        grant_running-Filled (claim_order s) (plan_of out s) h room in
      let (out', b', s', e, x) = fill_batch-Filled (may_admit s) q step.ready step.room in
      (
        out',
        b',
        s',
        e,
        Filled-weaken (λ y. omega (arith, count-append y (claim_order s) [])) (Filled-trans step x),
      )

  -- The parts of an iteration, one after the other.
  together :
      {s s1 s2 s3 : Scheduler} {out1 out2 out3 : Output} {b3 : Budget}
      → Retired s.running [] empty_output out1 s s1
      → Preempted out1 out2 s1 s2
      → Filled (claim_order s2) out2 (full_budget s2) s2 out3 b3 s3
      → Scheduled s out3 s3
  unfolding batch_size
  together {s} {s1} {s2} {s3} r p x = record {
    ready = x.ready;
    kept = λ y. x.kept y ∙ p.tokens y ∙ ap tokens_of (r.sequences y);
    queues = λ y. ground (
      arith,
      x.queues y,
      p.queues y,
      p.finished,
      r.moved y,
      ap (count y) r.waiting,
      ap (count y) r.swapped,
    );
    token_budget = ground (arith, x.batched, p.batched, r.batched, p.config, r.config);
    seq_budget =
        ground (arith, x.size, p.prefills, p.decodes, r.prefills, r.decodes, p.config, r.config);
    room = x.room;
    alive = x.alive (p.alive r.alive);
    batch = λ y.
        ground
          (arith, x.batch y, count-claim_order y s2, p.prefills, p.decodes, r.prefills, r.decodes);
  }

  -- On a scheduler that satisfies the invariant, `schedule` ends without raising, whatever the
  -- digest. The new state satisfies the invariant, no sequence loses a token, every id is in the
  -- queues as often as before except that the ids in `finished` left them, the batch respects the
  -- budgets of tokens and of sequences, and as many blocks are available as running sequences
  -- will grow into with their next token.
  pub schedule-Scheduled :
      (s : Scheduler)
      → Ready s
      → (out : Output) × (s' : Scheduler) × (schedule digest s ≡ (ok out, s')) × Scheduled s out s'
  unfolding schedule
  schedule-Scheduled s h =
      let (out1, s1, e1, r) = retire_finished-Retired empty_output s h in
      let (out2, s2, e2, p, room) = make_room_for_running-Preempted out1 s1 r.ready in
      let (out3, b3, s3, e3, x) = batch-Filled out2 s2 p.ready room in
      (
        out3,
        s3,
        bind-ok (retire_finished empty_output >>= make_room_for_running)
              (λ out s.
                fill_batch digest (may_admit s) (grant_running (claim_order s) (plan_of out s)))
              (bind-ok (retire_finished empty_output) make_room_for_running e1 ∙ e2)
            ∙ e3,
        together r p x,
      )
