-- ===== src/Server/Loop.antt =====
-- `_run` of api.py, a round from end to end.
use paged_serve.Prelude.{
  ℕ, ◌≡◌, refl, arith, Bool, true, false, List, [], Option, some, none, length, ◌∙◌, ap, ok,
  bind-ok, ◌>>=◌, Result, if◌then◌else◌,
}
use paged_serve.Sequence.{Sequence}
use paged_serve.Scheduler
use paged_serve.Scheduler.{Scheduler, Output, scheduled, has_work}
use paged_serve.Scheduler.Finish.{free_finished-Finished}
use paged_serve.Engine.{RaggedBatch, on_scheduler}
use paged_serve.Engine.Run.{Stepped, step-Stepped}
use paged_serve.Engine.Serve.{Serves}
use paged_serve.Server.{Runner, settle, on_engine, after_step, abort_each, threaded_step, run_round}
use paged_serve.Server.Settle.{Noted, abort_each-Noted, release_each-Settled}
use paged_serve.Server.Round.{IsRunner}
use paged_serve.Server.Delivery.{with_state, on_engine-ok, Rounded, r5, delivered-Rounded}

-- `_run` behind a step that returned.
after_step-Rounded :
    (during : List ℕ) (r r1 : Runner) (s s1 : Scheduler) (out : Output)
    → IsRunner r s
    → Noted during (record r { stepping = true }) r1
    → Serves (record (r1.engine) { scheduler = some s1 }) s1
    → Stepped out s s1
    → (r' : Runner) × (s' : Scheduler) × (after_step (ok out) (with_state r1 s1) ≡ (ok true, r'))
      × Rounded during r s r' s'
unfolding after_step
after_step-Rounded during r r1 s s1 out h noted v x =
    let r2 = with_state r1 s1 in
    let (r3, s2, e, st) =
      release_each-Settled r1.pending_aborts (record r2 { stepping = false; pending_aborts = [] })
        s1 v in
    let (fin, s3, f, fi) = free_finished-Finished s2 st.serves.ready in
    (
      r5 during r r1 r3 s s1 s2 s3 out fin h noted x st fi,
      s3,
      bind-ok settle _ {s = r2} e
          ∙ bind-ok (on_engine (on_scheduler Scheduler.free_finished)) _ {s = r3}
              (on_engine-ok Scheduler.free_finished r3 s2 s3 fin st.serves.started f)
          ∙ refl,
      delivered-Rounded during r r1 r3 s s1 s2 s3 out fin h noted x st fi,
    )

module _ (digest : List ℕ → ℕ) (sample : RaggedBatch → List Sequence → List ℕ)
    (one_each : (b : RaggedBatch) (qs : List Sequence) → length (sample b qs) ≡ length qs) where
  busy-Rounded :
      (during : List ℕ) (r : Runner) (s : Scheduler)
      → IsRunner r s
      → (r' : Runner) × (s' : Scheduler) × ((abort_each during >>= λ _. threaded_step digest sample)
            (record r { stepping = true })
          ≡ (ok true, r'))
        × Rounded during r s r' s'
  busy-Rounded during r s h =
      let (r1, e, noted) = abort_each-Noted during (record r { stepping = true }) refl in
      let v : Serves r1.engine s = rw noted.engine h.serves in
      let (out, s1, f, x) = step-Stepped digest sample one_each r1.engine s v.started v.ready in
      let v1 : Serves (record (r1.engine) { scheduler = some s1 }) s1 = record {
        started = refl;
        ready = x.ready;
        below = λ y c. v.below y (omega (arith, c, x.queues y));
      } in
      let (r', s', g, k) = after_step-Rounded during r r1 s s1 out h noted v1 x in
      (
        r',
        s',
        bind-ok (abort_each during) (λ _. threaded_step digest sample)
              {s = record r { stepping = true }} e
            ∙ ap (λ p. after_step p.0 (record r1 { engine = p.1 })) f
            ∙ g,
        k,
      )

  -- A round of the loop on a scheduler that is there.
  abbrev round_on : List ℕ → Runner → Scheduler → Result Bool × Runner
  round_on during r s =
      if has_work s
      then (abort_each during >>= λ _. threaded_step digest sample) (record r { stepping = true })
      else (ok true, r)

  run_round-round_on :
      (during : List ℕ) (r : Runner) (s : Scheduler)
      → r.engine.scheduler ≡ some s
      → run_round digest sample during r ≡ round_on during r s
  unfolding run_round
  run_round-round_on during r s is = by_cases r.engine.scheduler is
    where
      by_cases :
          (o : Option Scheduler)
          → o ≡ some s
          → ◌≡◌ {A = Result Bool × Runner}
              (elim o [ none ↦ (ok true, r) | some u ↦ round_on during r u ])
              (round_on during r s)
      by_cases none f = absurd (cc)
      by_cases (some u) f = ap (round_on during r) (let same : u ≡ s = cc in same)

  pub run_round-Rounded :
      (during : List ℕ) (r : Runner) (s : Scheduler)
      → IsRunner r s
      → has_work s ≡ true
      → (r' : Runner) × (s' : Scheduler) × (run_round digest sample during r ≡ (ok true, r'))
        × Rounded during r s r' s'
  run_round-Rounded during r s h work =
      let (r', s', e, k) = busy-Rounded during r s h in
      (r', s', run_round-round_on during r s h.serves.started ∙ rw work e, k)

  pub run_round_idle :
      (during : List ℕ) (r : Runner) (s : Scheduler)
      → IsRunner r s
      → has_work s ≡ false
      → run_round digest sample during r ≡ (ok true, r)
  run_round_idle during r s h none_ = run_round-round_on during r s h.serves.started ∙ rw none_ refl
