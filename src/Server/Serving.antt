-- ===== src/Server/Serving.antt =====
-- The server of api.py over time: requests come and are aborted, and the loop runs.
use paged_serve.Prelude.{
  ℕ, ◌≤◌, ◌≡◌, ◌≢◌, refl, sym, arith, true, false, List, [], Option, some, none, length, ◌∙◌, ap,
  ok, bind-ok, Result, Bool-cases, inl, inr,
}
use mathlib.Core.Path.{subst}
use native.Mathlib.Decide.{ℕ_discrete}
use paged_serve.Sequence.{Sequence, is_terminal}
use paged_serve.Scheduler.{Scheduler, has_work}
use paged_serve.Scheduler.Invariant.{queued}
use paged_serve.Engine
use paged_serve.Engine.{RaggedBatch, Engine}
use paged_serve.Engine.Serve.{add_request-Serves}
use paged_serve.Server.{
  Runner, close_stream, Item, release, update, close, on_engine, abort, submit, run_round,
}
use paged_serve.Server.Feed.{IsFed}
use paged_serve.Server.Settle.{release-Settled}
use paged_serve.Server.Round.{IsRunner}
use paged_serve.Server.Loop.{run_round-Rounded, run_round_idle}

-- Outside a step an abort takes the request out at once.
pub record Aborted (id : ℕ) (r : Runner) (s : Scheduler) (r' : Runner) (s' : Scheduler)
    : Type 0 where
  pub runner : IsRunner r' s'
  pub gone : queued s' id ≡ 0
  pub closed : r'.queues id ≡ false
  pub sent : r'.sent ≡ r.sent

abort_idle : (id : ℕ) (r : Runner) → r.stepping ≡ false → abort id r ≡ release id (close id r)
unfolding abort
abort_idle id r e = rw e refl

-- Where the sequence, its queue and its count are the same, or it is in fewer queues.
IsFed-kept :
    {n n' : ℕ} {q q' : Sequence} {sent sent' : List Item} {delivered delivered' : Option ℕ}
    → n' ≤ n
    → q' ≡ q
    → sent' ≡ sent
    → delivered' ≡ delivered
    → IsFed n q sent delivered
    → IsFed n' q' sent' delivered'
IsFed-kept le eq es ed f =
    rw (eq, es, ed)
      (record {
        counted = f.counted;
        items = elim (f.items) [ inl e ↦ inl e | inr (e, z) ↦ inr (e, omega arith) ];
      })

-- On a server between two rounds whose scheduler satisfies the invariant and whose open queues
-- have been sent their sequences' outputs so far, in order, and perhaps the end mark, `abort`
-- does not raise and all of this holds again. The sequence is in no queue of the scheduler any
-- more, its own queue is closed, and nothing is sent.
pub abort-Aborted :
    (id : ℕ) (r : Runner) (s : Scheduler)
    → IsRunner r s
    → (r' : Runner) × (s' : Scheduler) × (abort id r ≡ (ok tt, r')) × Aborted id r s r' s'
abort-Aborted id r s h =
    let (r', s', e, st) = release-Settled id (close id r) s h.serves in
    (
      r',
      s',
      abort_idle id r h.idle ∙ e,
      record {
        runner = record {
          serves = st.serves;
          idle = st.stepping ∙ h.idle;
          none_pending = st.pending ∙ h.none_pending;
          fed = λ x o.
              let was : update id false r.queues x ≡ true = ap (λ f. f x) (sym st.queues) ∙ o in
              let ne : x ≢ id = λ f. ground (arith, f, was) in
              IsFed-kept (st.queued_le x) (st.sequences x (ground (arith, ne)))
                (ap (λ f. f x) st.sent) (ap (λ f. f x) st.delivered ∙ ground (arith, ne))
                (h.fed x (ground (arith, was, ne)));
        };
        gone = st.gone id (ground arith);
        closed = ap (λ f. f id) st.queues ∙ ground arith;
        sent = st.sent;
      },
    )

-- Only open queues matter.
close-IsRunner : (id : ℕ) (r : Runner) (s : Scheduler) → IsRunner r s → IsRunner (close id r) s
close-IsRunner id r s h = record {
  serves = h.serves;
  idle = h.idle;
  none_pending = h.none_pending;
  fed = λ x o.
      let ne : x ≢ id = λ f. ground (arith, f, o) in
      IsFed-kept (omega arith) refl refl (ground (arith, ne)) (h.fed x (ground (arith, o, ne)));
}

-- A stream that ends, for whatever reason, leaves the server as it should be.
pub close_stream-IsRunner :
    (q : Sequence) (id : ℕ) (r : Runner) (s : Scheduler)
    → IsRunner r s
    → (r' : Runner) × (s' : Scheduler) × (close_stream q id r ≡ (ok tt, r')) × IsRunner r' s'
unfolding close_stream
close_stream-IsRunner q id r s h = elim (Bool-cases (is_terminal q.status)) [
  | inl over ↦ (close id r, s, rw over refl, close-IsRunner id r s h)
  | inr goes ↦
      let (r', s', e, a) = abort-Aborted id r s h in
      (
        close id r',
        s',
        rw goes (bind-ok (abort id) (λ _ r. (ok tt, close id r)) {s = r} e),
        close-IsRunner id r' s' a.runner,
      )
]

-- The queue of a new request.
new-IsFed :
    (id n : ℕ) (q : Sequence) (sent : ℕ → List Item) (delivered : ℕ → Option ℕ)
    → q.output_token_ids ≡ []
    → IsFed n q (update id [] sent id) (update id (some 0) delivered id)
new-IsFed id n q sent delivered e = record {
  counted = rw e (ground arith);
  items = inl (rw e (ground arith));
}

module _ (digest : List ℕ → ℕ) (sample : RaggedBatch → List Sequence → List ℕ)
    (one_each : (b : RaggedBatch) (qs : List Sequence) → length (sample b qs) ≡ length qs) where
  -- A request opens an empty queue.
  pub submit-IsRunner :
      (prompt : List ℕ) (max_tokens : ℕ) (r : Runner) (s : Scheduler)
      → IsRunner r s
      → (r' : Runner) × (s' : Scheduler) × (submit digest sample prompt max_tokens r
          ≡ (ok r.engine.next_seq_id, r'))
        × IsRunner r' s'
  unfolding submit
  submit-IsRunner prompt max_tokens r s h =
      let id = r.engine.next_seq_id in
      let (e', s', f, v, after, a) =
        add_request-Serves digest sample one_each max_tokens none prompt r.engine s h.serves in
      (
        record r {
          engine = e';
          queues = update id true r.queues;
          sent = update id [] r.sent;
          delivered = update id (some 0) r.delivered;
        },
        s',
        bind-ok (on_engine (Engine.add_request digest sample prompt max_tokens none none)) _ {s = r}
            (ap (λ p. (p.0, record r { engine = p.1 })) f),
        record {
          serves = v;
          idle = h.idle;
          none_pending = h.none_pending;
          fed = λ x o. elim (ℕ_discrete x id) [
            | yes z ↦
                subst
                  (λ y.
                    IsFed (queued s' y) (s'.sequences y) (update id [] r.sent y)
                      (update id (some 0) r.delivered y))
                  (sym z)
                  (new-IsFed id (queued s' id) (s'.sequences id) r.sent r.delivered
                    (ap (λ p. p.1) a.tokens))
            | no ne ↦
                IsFed-kept (ground (arith, a.queues x, ne)) (a.sequences x ne) (ground (arith, ne))
                  (ground (arith, ne)) (h.fed x (ground (arith, o, ne)))
          ];
        },
      )

  -- What may happen to the server: a request, an abort or the end of a stream outside a step, or a
  -- round of the loop with aborts during its step.
  pub data Event : Runner → Runner → Type 0 where
    submitted :
        {r r' : Runner} (prompt : List ℕ) (max_tokens id : ℕ)
        → submit digest sample prompt max_tokens r ≡ (ok id, r')
        → Event r r'
    aborted : {r r' : Runner} (id : ℕ) → abort id r ≡ (ok tt, r') → Event r r'
    stream_closed :
        {r r' : Runner} (q : Sequence) (id : ℕ) → close_stream q id r ≡ (ok tt, r') → Event r r'
    rounded :
        {r r' : Runner} (during : List ℕ)
        → run_round digest sample during r ≡ (ok true, r')
        → Event r r'

  pub data Reach (r : Runner) : Runner → Type 0 where
    here : Reach r r
    next : {r' r'' : Runner} → Reach r r' → Event r' r'' → Reach r r''

  abbrev pub IsGood : Runner → Type 0
  IsGood r = (s : Scheduler) × IsRunner r s

  -- Two outcomes of one call have one state.
  one_state :
      {A : Type 0} {a : Result A × Runner} {x y : Result A} {r r' : Runner}
      → a ≡ (x, r)
      → a ≡ (y, r')
      → IsGood r
      → IsGood r'
  one_state e f good = subst IsGood (ap (λ p. p.1) (sym e ∙ f)) good

  Event-IsGood : {r r' : Runner} → Event r r' → IsGood r → IsGood r'
  Event-IsGood (submitted {r} prompt max_tokens id f) (s, h) =
      let (r1, s1, e, k) = submit-IsRunner prompt max_tokens r s h in one_state e f (s1, k)
  Event-IsGood (aborted {r} id f) (s, h) =
      let (r1, s1, e, k) = abort-Aborted id r s h in one_state e f (s1, k.runner)
  Event-IsGood (stream_closed {r} q id f) (s, h) =
      let (r1, s1, e, k) = close_stream-IsRunner q id r s h in one_state e f (s1, k)
  Event-IsGood (rounded {r} during f) (s, h) = elim (Bool-cases (has_work s)) [
    | inl work ↦
        let (r1, s1, e, k) = run_round-Rounded digest sample one_each during r s h work in
        one_state e f (s1, k.runner)
    | inr idle ↦ one_state (run_round_idle digest sample one_each during r s h idle) f (s, h)
  ]

  -- From a server between two rounds whose scheduler satisfies the invariant and whose open
  -- queues have been sent their sequences' outputs so far, in order, and perhaps the end mark,
  -- any succession of requests, aborts, ends of streams and rounds of the loop, with aborts
  -- during their steps, leads to a server of which the same holds, if the sampler returns one
  -- token for each row.
  pub Reach-IsGood : {r r' : Runner} → Reach r r' → IsGood r → IsGood r'
  Reach-IsGood here good = good
  Reach-IsGood (next path event) good = Event-IsGood event (Reach-IsGood path good)
