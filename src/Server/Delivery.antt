-- ===== src/Server/Delivery.antt =====
-- The delivery of `_run` of api.py behind the aborts, and what a whole round promises.
use paged_serve.Prelude.{
  ℕ, ◌≤◌, ◌<◌, ◌≡◌, ◌++◌, refl, sym, arith, true, false, List, [], some, length, count, ◌∙◌, ap, ok,
  Method, Bool-cases, inl, inr,
}
use mathlib.Core.Path.{subst}
use paged_serve.Sequence.{is_terminal}
use paged_serve.Scheduler.{Scheduler, Output, scheduled}
use paged_serve.Scheduler.Invariant.{queued, tokens_of}
use paged_serve.Scheduler.Finish.{Finished}
use paged_serve.Engine.{on_scheduler}
use paged_serve.Engine.Step.{Extends}
use paged_serve.Engine.Run.{Stepped}
use paged_serve.Server.{Runner, new_items, already_of, on_engine, deliver}
use paged_serve.Server.Feed.{stream, end_mark, Fed, deliver-Fed, deliver-SameEngine}
use paged_serve.Server.Settle.{Noted, Settled}
use paged_serve.Server.Round.{IsRunner, round-IsFed, round_marks, unqueued_of_terminal}

abbrev pub with_state : Runner → Scheduler → Runner
with_state r s = record r { engine = record (r.engine) { scheduler = some s } }

-- A call of the scheduler that returns, on a runner whose engine was started.
pub on_engine-ok :
    {A : Type 0} (f : Method Scheduler A) (r : Runner) (s s' : Scheduler) (a : A)
    → r.engine.scheduler ≡ some s
    → f s ≡ (ok a, s')
    → on_engine (on_scheduler f) r ≡ (ok a, with_state r s')
on_engine-ok f r s s' a started e = rw (started, e) refl

-- What a round with work promises.
pub record Rounded (during : List ℕ) (r : Runner) (s : Scheduler) (r' : Runner) (s' : Scheduler)
    : Type 0 where
  pub runner : IsRunner r' s'
  -- An aborted request is out of the engine, and its queue is closed; no other one is.
  pub gone : (y : ℕ) → 0 < count y during → (queued s' y ≡ 0) × (r'.queues y ≡ false)
  pub open_ : (y : ℕ) → r'.queues y ≡ true → r.queues y ≡ true
  -- The batch: its open queues have the whole output, and the end mark if it is finished.
  pub batch : List ℕ
  pub marked :
      (y : ℕ)
      → 0 < count y batch
      → r'.queues y ≡ true
      → r'.sent y ≡ stream (s'.sequences y).output_token_ids ++ end_mark (s'.sequences y)
  -- What is sent stays sent.
  pub rest : (y : ℕ) → count y batch ≡ 0 → r'.sent y ≡ r.sent y

-- The runner behind the aborts, the release and the freeing of finished sequences.
module _ (during : List ℕ) (r r1 r3 : Runner) (s s1 s2 s3 : Scheduler) (out : Output) (fin : List ℕ)
    (h : IsRunner r s) (noted : Noted during (record r { stepping = true }) r1)
    (x : Stepped out s s1)
    (st : Settled r1.pending_aborts
      (record r1 {
        engine = record (r1.engine) { scheduler = some s1 };
        stepping = false;
        pending_aborts = [];
      })
      r3
      s1
      s2)
    (fi : Finished s2 fin s3) where
  abbrev r4 : Runner
  r4 = with_state r3 s3

  abbrev pub r5 : Runner
  r5 = deliver (scheduled out) s3.sequences r4

  still_le : (y : ℕ) → queued s3 y ≤ queued s2 y
  still_le y = omega (arith, ap (count y) fi.waiting, ap (count y) fi.swapped, fi.moved y)

  less : (y : ℕ) → queued s3 y ≤ queued s y
  less y = omega (arith, still_le y, st.queued_le y, x.queues y)

  was_open :
      (y : ℕ)
      → r5.queues y ≡ true
      → (r.queues y ≡ true) × (count y during ≡ 0) × (r1.delivered y ≡ r.delivered y)
  was_open y o = noted.open_ y (
      ap (λ f. f y) (sym st.queues)
      ∙ ap (λ f. f y) (sym (deliver-SameEngine (scheduled out) s3.sequences r4).queues)
      ∙ o)

  sequence-kept : (y : ℕ) → count y during ≡ 0 → s3.sequences y ≡ s1.sequences y
  sequence-kept y c =
      ap (λ f. f y) fi.sequences
      ∙ st.sequences y (rw (noted.pending ∙ ap (λ l. l ++ during) h.none_pending) c)

  delivery-Fed : (y : ℕ) → Fed (scheduled out) s3.sequences y r4 r5
  delivery-Fed y =
      deliver-Fed (scheduled out) s3.sequences y r4
        (omega (arith, x.batch y, (h.serves.ready.places y).once))

  sent-kept : (y : ℕ) → r4.sent y ≡ r.sent y
  sent-kept y = ap (λ f. f y) (st.sent ∙ noted.sent)

  delivered-kept : (y : ℕ) → r5.queues y ≡ true → r4.delivered y ≡ r.delivered y
  delivered-kept y o = ap (λ f. f y) st.delivered ∙ (was_open y o).2

  more-sent :
      (y : ℕ)
      → 0 < count y (scheduled out)
      → r5.queues y ≡ true
      → (r5.sent y ≡ r.sent y ++ new_items (s3.sequences y) (already_of (r.delivered y)))
        × (r5.delivered y ≡ some (length (s3.sequences y).output_token_ids))
  more-sent y z o =
      let (a, b) =
        (delivery-Fed y).fed z
          (ap (λ f. f y) (sym (deliver-SameEngine (scheduled out) s3.sequences r4).queues) ∙ o) in
      (rw (sym (sent-kept y), sym (delivered-kept y o)) a, b)

  extended :
      (y : ℕ)
      → count y during ≡ 0
      → Extends (scheduled out) y (tokens_of (s.sequences y)) (tokens_of (s3.sequences y))
  extended y c =
      subst (λ q. Extends (scheduled out) y (tokens_of (s.sequences y)) (tokens_of q))
        (sym (sequence-kept y c)) (x.tokens y)

  delivered-IsRunner : IsRunner r5 s3
  delivered-IsRunner =
      let same = deliver-SameEngine (scheduled out) s3.sequences r4 in
      record {
        serves = rw (same.engine) (record {
          started = refl;
          ready = fi.ready;
          below = λ y c. st.serves.below y (omega (arith, c, still_le y));
        });
        idle = same.stepping ∙ st.stepping;
        none_pending = same.pending ∙ st.pending;
        fed = λ y o.
            let (was, c, number) = was_open y o in
            round-IsFed (scheduled out) y (queued s y) (queued s3 y) (s.sequences y)
              (s3.sequences y) (r.sent y) (r5.sent y) (r.delivered y) (r5.delivered y) (h.fed y was)
              (extended y c) (x.batch y) (less y)
              (λ e.
                unqueued_of_terminal s2 s3 fin y st.serves.ready fi
                  (ap (λ f. is_terminal (f y).status) (sym fi.sequences) ∙ e))
              (λ z.
                let (a, b) = (delivery-Fed y).skipped z in
                (a ∙ sent-kept y, b ∙ delivered-kept y o))
              (λ z. more-sent y z o);
      }

  pub delivered-Rounded : Rounded during r s r5 s3
  delivered-Rounded = record {
    runner = delivered-IsRunner;
    gone = λ y c. (
      omega (
        arith,
        still_le y,
        st.gone y (rw (noted.pending ∙ ap (λ l. l ++ during) h.none_pending) c),
      ),
      elim (Bool-cases (r5.queues y)) [
        | inl o ↦ absurd (omega (arith, (was_open y o).1))
        | inr o ↦ o
      ],
    );
    open_ = λ y o. (was_open y o).0;
    batch = scheduled out;
    marked = λ y z o.
        let (was, c, number) = was_open y o in
        round_marks (scheduled out) y (queued s y) (s.sequences y) (s3.sequences y) (r.sent y)
          (r5.sent y) (r.delivered y) (h.fed y was) (extended y c) (omega (arith, x.batch y))
          (more-sent y z o).0;
    rest = λ y z. ((delivery-Fed y).skipped z).0 ∙ sent-kept y;
  }
