-- ===== src/Engine/Run.antt =====
-- `step` and `generate_continuous` of engine.py.
use mathlib.Core.Path.{subst}
use paged_serve.Prelude.{
  ℕ, ◌+◌, ◌≤◌, ◌<◌, ◌≡◌, inl, inr, refl, arith, false, List, some, length, length-append, count,
  if◌then◌else◌, ◌∙◌, ok, Method, bind-ok, ◌>>=◌, return, Bool-cases,
}
use paged_serve.Sequence.{Sequence}
use paged_serve.Scheduler
use paged_serve.Scheduler.{Scheduler, Output, scheduled, is_empty, batch_size, num_unfinished}
use paged_serve.Scheduler.Invariant.{tokens_of, Ready, queued}
use paged_serve.Scheduler.Iteration.{Scheduled, schedule-Scheduled}
use paged_serve.Engine.{RaggedBatch, Engine, run_batch, step}
use paged_serve.Engine.Step.{Extends, Ran, run_batch-Ran}

-- What a whole step promises.
pub record Stepped (out : Output) (s s' : Scheduler) : Type 0 where
  pub ready : Ready s'
  pub tokens :
      (x : ℕ) → Extends (scheduled out) x (tokens_of (s.sequences x)) (tokens_of (s'.sequences x))
  pub queues : (x : ℕ) → queued s' x + count x out.finished ≡ queued s x
  pub batch : (x : ℕ) → count x (scheduled out) ≤ queued s x
  pub token_budget : out.num_batched_tokens ≤ s.config.max_num_batched_tokens
  pub seq_budget : batch_size out ≤ s.config.max_num_seqs

idle-Stepped : (out : Output) (s s' : Scheduler) → Scheduled s out s' → Stepped out s s'
idle-Stepped out s s' x = record {
  ready = x.ready;
  tokens = λ y. inl (x.kept y);
  queues = x.queues;
  batch = λ y. omega (arith, x.batch y, x.queues y);
  token_budget = x.token_budget;
  seq_budget = x.seq_budget;
}

busy-Stepped :
    (out : Output) (s s1 s' : Scheduler) → Scheduled s out s1 → Ran out s1 s' → Stepped out s s'
busy-Stepped out s s1 s' x r = record {
  ready = r.ready;
  tokens = λ y.
      subst (λ l. Extends (scheduled out) y l (tokens_of (s'.sequences y))) (x.kept y) (r.tokens y);
  queues = λ y. omega (arith, r.queues y, x.queues y);
  batch = λ y. omega (arith, x.batch y, x.queues y);
  token_budget = x.token_budget;
  seq_budget = x.seq_budget;
}

nonempty_batch : (out : Output) → is_empty out ≡ false → 0 < length (scheduled out)
unfolding is_empty
nonempty_batch out e = ground (arith, e, length-append out.prefills out.decodes)

module _ (digest : List ℕ → ℕ) (sample : RaggedBatch → List Sequence → List ℕ)
    (one_each : (b : RaggedBatch) (qs : List Sequence) → length (sample b qs) ≡ length qs) where
  scheduled-Stepped :
      (s : Scheduler)
      → Ready s
      → (out : Output) × (s' : Scheduler) × ((Scheduler.schedule digest >>= λ out.
              if is_empty out then return out else run_batch digest sample out)
            s
          ≡ (ok out, s'))
        × Stepped out s s'
  scheduled-Stepped s h =
      let (out, s1, e, x) = schedule-Scheduled digest s h in
      let next : Output → Method Scheduler Output =
        λ o. if is_empty o then return o else run_batch digest sample o in
      elim (Bool-cases (is_empty out)) [
        | inl idle ↦ (
          out,
          s1,
          bind-ok (Scheduler.schedule digest) next {s = s} e ∙ rw idle refl,
          idle-Stepped out s s1 x,
        )
        | inr busy ↦
            let (s', f, r) =
              run_batch-Ran digest sample one_each out s1 x.ready x.room x.alive x.batch
                (nonempty_batch out busy) in
            (
              out,
              s',
              bind-ok (Scheduler.schedule digest) next {s = s} e ∙ rw busy f,
              busy-Stepped out s s1 s' x r,
            )
      ]

  abbrev pub with_scheduler : Engine → Scheduler → Engine
  with_scheduler e s = record e { scheduler = some s }

  -- On an engine whose scheduler satisfies the invariant, with a sampler that returns one token
  -- for each row, `step` does not raise, whatever the model answers. It returns the schedule's
  -- output, and the scheduler satisfies the invariant again, which includes that the table of
  -- every running sequence has the size of its tokens. Each sequence keeps its tokens, and only
  -- one of the batch may have got a token more, at the end; every id is in the queues as often as
  -- before, except that the ids in `finished` left them; the batch respects both budgets.
  pub step-Stepped :
      (e : Engine) (s : Scheduler)
      → e.scheduler ≡ some s
      → Ready s
      → (out : Output) × (s' : Scheduler) × (step digest sample e ≡ (ok out, with_scheduler e s'))
        × Stepped out s s'
  unfolding step
  step-Stepped e s is h =
      let (out, s', f, x) = scheduled-Stepped s h in (out, s', rw (is, f) refl, x)
