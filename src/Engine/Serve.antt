-- ===== src/Engine/Serve.antt =====
-- `add_request`, the submission of prompts and the loop of `generate_continuous` of engine.py.
use paged_serve.Prelude.{
  ℕ, zero, suc, ◌+◌, ◌<◌, ◌≡◌, ◌≢◌, inl, inr, refl, arith, List, [], ◌∷◌, Option, none, some,
  length, leb, ltb, if◌then◌else◌, ◌∙◌, ap, ok, raise, runtime_error, Result, bind-ok, ◌>>=◌,
  return, Bool-cases, ◌==◌,
}
use paged_serve.BlockManager.{range_from}
use paged_serve.Sequence.{Sequence}
use paged_serve.Scheduler
use paged_serve.Scheduler.{Scheduler, num_unfinished, set_seq}
use paged_serve.Scheduler.Invariant.{tokens_of, Ready, IsReady-update, queued}
use paged_serve.Scheduler.Requests.{add_request-Ready}
use paged_serve.Engine.{RaggedBatch, Engine, step, add_request, submit, run_steps, request, or_else}
use paged_serve.Engine.Run.{Stepped, step-Stepped, with_scheduler}

-- An engine with a scheduler whose queues have only ids that it has given out.
pub record Serves (e : Engine) (s : Scheduler) : Type 0 where
  pub started : e.scheduler ≡ some s
  pub ready : Ready s
  pub below : (x : ℕ) → 0 < queued s x → x < e.next_seq_id

-- A new request, with the prompt and no output.
pub record Asked (id : ℕ) (prompt : List ℕ) (s s' : Scheduler) : Type 0 where
  pub queues : (x : ℕ) → queued s' x ≡ queued s x + (if x == id then 1 else 0)
  pub sequences : (x : ℕ) → x ≢ id → s'.sequences x ≡ s.sequences x
  pub tokens : tokens_of (s'.sequences id) ≡ (prompt, [])

next_absent : (e : Engine) (s : Scheduler) → Serves e s → queued s e.next_seq_id ≡ 0
next_absent e s v = elim (Bool-cases (ltb 0 (queued s e.next_seq_id))) [
  | inl c ↦ absurd (ground (arith, v.below e.next_seq_id, c))
  | inr c ↦ ground arith
]

-- A sequence that is in no queue may be replaced.
set_seq-Ready :
    (s : Scheduler) (id : ℕ) (q : Sequence) → Ready s → queued s id ≡ 0 → Ready (set_seq s id q)
set_seq-Ready s id q h absent =
    let p = h.places id in
    IsReady-update id h h.manager h.sealable
      (record {
        size = refl;
        config = refl;
        policy = refl;
        space = λ e. e;
        sequences = λ x ne. ground arith;
        tables = λ x ne. refl;
      })
      (λ x ne. (refl, refl, refl))
      (record {
        once = p.once;
        table = λ c. absurd (omega (arith, absent));
        no_table = p.no_table;
        waits = λ c. absurd (omega (arith, absent));
        active = λ c. absurd (omega (arith, absent));
        parked = λ c. absurd (omega (arith, absent));
        computed = λ c. absurd (omega (arith, absent));
      })
      (λ c. absurd (omega (arith, absent)))

module _ (digest : List ℕ → ℕ) (sample : RaggedBatch → List Sequence → List ℕ)
    (one_each : (b : RaggedBatch) (qs : List Sequence) → length (sample b qs) ≡ length qs) where
  module _ (max_tokens : ℕ) (stops : Option (List ℕ)) where
    abbrev asked : Engine → Scheduler → List ℕ → Scheduler
    asked e s prompt =
        Scheduler.add_request
          (set_seq s e.next_seq_id (
            request digest sample e.next_seq_id prompt max_tokens
              (or_else digest sample stops e.eos_token_ids)))
          e.next_seq_id

    pub add_request-Serves :
        (prompt : List ℕ) (e : Engine) (s : Scheduler)
        → Serves e s
        → (e' : Engine) × (s' : Scheduler) × (add_request digest sample prompt max_tokens stops none
              e
            ≡ (ok e.next_seq_id, e'))
          × Serves e' s'
          × (e'.next_seq_id ≡ e.next_seq_id + 1)
          × Asked e.next_seq_id prompt s s'
    unfolding add_request Scheduler.add_request
    add_request-Serves prompt e s v =
        let id = e.next_seq_id in
        let q =
          request digest sample id prompt max_tokens
            (or_else digest sample stops e.eos_token_ids) in
        let absent : queued s id ≡ 0 = next_absent e s v in
        let (ready, more) =
          add_request-Ready id (set_seq s id q) (set_seq-Ready s id q v.ready absent) absent
            (ground arith) in
        (
          record e { scheduler = some (asked e s prompt); next_seq_id = e.next_seq_id + 1 },
          asked e s prompt,
          rw v.started refl,
          record {
            started = refl;
            ready = ready;
            below = λ x c. ground (arith, more x, v.below x, c);
          },
          refl,
          record { queues = more; sequences = λ x ne. ground arith; tokens = ground arith },
        )

    pub submit-Serves :
        (prompts : List (List ℕ)) (e : Engine) (s : Scheduler)
        → Serves e s
        → (e' : Engine) × (s' : Scheduler) × (submit digest sample prompts max_tokens stops e
            ≡ (ok (range_from e.next_seq_id (length prompts)), e'))
          × Serves e' s'
    unfolding submit
    submit-Serves [] e s v = (e, s, refl, v)
    submit-Serves (prompt ∷ prompts) e s v =
        let (e1, s1, f, v1, after, a) = add_request-Serves prompt e s v in
        let (e2, s2, g, v2) = submit-Serves prompts e1 s1 v1 in
        (
          e2,
          s2,
          bind-ok (add_request digest sample prompt max_tokens stops none) _ {s = e} f
              ∙ bind-ok (submit digest sample prompts max_tokens stops)
                  (λ ids. return (e.next_seq_id ∷ ids)) {s = e1} g
              ∙ ap (λ n. (ok (e.next_seq_id ∷ range_from n (length prompts)), e2))
                  (omega (arith, after)),
          v2,
        )

  Stepped-Serves :
      (e : Engine) (s s' : Scheduler) {out : Scheduler.Output}
      → Serves e s
      → Stepped out s s'
      → Serves (with_scheduler digest sample one_each e s') s'
  Stepped-Serves e s s' v x = record {
    started = refl;
    ready = x.ready;
    below = λ y c. v.below y (omega (arith, c, x.queues y));
  }

  -- A round of the loop, on an engine that was started.
  abbrev round : ℕ → Engine → Option Scheduler → Result (Unit {0}) × Engine
  round n e none = (raise runtime_error, e)
  round n e (some s) =
      if leb (num_unfinished s) 0
      then (ok tt, e)
      else (step digest sample >>= λ _. run_steps digest sample n) e

  run_steps-suc : (n : ℕ) (e : Engine) → run_steps digest sample (suc n) e ≡ round n e e.scheduler
  unfolding run_steps
  run_steps-suc n e = by_cases e.scheduler
    where
      by_cases :
          (o : Option Scheduler)
          → (elim o [
            | none ↦ (raise runtime_error, e)
            | some s ↦
                if leb (num_unfinished s) 0
                then (ok tt, e)
                else (step digest sample >>= λ _. run_steps digest sample n) e
          ])
            ≡ round n e o
      by_cases none = refl
      by_cases (some s) = refl

  -- The loop of steps never raises, and stops early only if nothing is left to do.
  pub run_steps-Serves :
      (n : ℕ) (e : Engine) (s : Scheduler)
      → Serves e s
      → (e' : Engine) × (s' : Scheduler) × (run_steps digest sample n e ≡ (ok tt, e'))
        × Serves e' s'
  unfolding run_steps
  run_steps-Serves zero e s v = (e, s, refl, v)
  run_steps-Serves (suc n) e s v = elim (Bool-cases (leb (num_unfinished s) 0)) [
    | inl done ↦ (e, s, run_steps-suc n e ∙ ap (round n e) v.started ∙ rw done refl, v)
    | inr more ↦
        let (out, s1, f, x) = step-Stepped digest sample one_each e s v.started v.ready in
        let e1 = with_scheduler digest sample one_each e s1 in
        let (e2, s2, g, v2) = run_steps-Serves n e1 s1 (Stepped-Serves e s s1 v x) in
        (
          e2,
          s2,
          run_steps-suc n e
              ∙ ap (round n e) v.started
              ∙ rw more
                  (bind-ok (step digest sample) (λ _. run_steps digest sample n) {s = e} f ∙ g),
          v2,
        )
  ]
