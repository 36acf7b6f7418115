-- ===== src/Server/Settle.antt =====
-- Aborts in api.py: those that come during a step are noted, and carried out behind it.
use paged_serve.Prelude.{
  ℕ, ◌≤◌, ◌<◌, ◌≡◌, refl, sym, arith, true, List, [], ◌∷◌, ◌++◌, Option, some, none, count, ◌∙◌, ap,
  append-nil, append_assoc, ok, bind-ok, Result,
}
use native.Mathlib.Decide.{ℕ_discrete}
use paged_serve.Scheduler.{Scheduler}
use paged_serve.Scheduler.Invariant.{queued}
use paged_serve.Engine.{Engine}
use paged_serve.Engine.Serve.{Serves}
use paged_serve.Server.{Runner, close, release_in, release, abort, abort_each, release_each}
use paged_serve.Server.Release.{release_in-Dropped}

-- What the aborts during a step do.
pub record Noted (ids : List ℕ) (r r' : Runner) : Type 0 where
  pub engine : r'.engine ≡ r.engine
  pub stepping : r'.stepping ≡ r.stepping
  pub pending : r'.pending_aborts ≡ r.pending_aborts ++ ids
  pub sent : r'.sent ≡ r.sent
  pub open_ :
      (x : ℕ)
      → r'.queues x ≡ true
      → (r.queues x ≡ true) × (count x ids ≡ 0) × (r'.delivered x ≡ r.delivered x)

abbrev noted : ℕ → Runner → Runner
noted id r = record (close id r) { pending_aborts = r.pending_aborts ++ id ∷ [] }

abort_stepping : (id : ℕ) (r : Runner) → r.stepping ≡ true → abort id r ≡ (ok tt, noted id r)
unfolding abort
abort_stepping id r e = rw e refl

pub abort_each-Noted :
    (ids : List ℕ) (r : Runner)
    → r.stepping ≡ true
    → (r' : Runner) × (abort_each ids r ≡ (ok tt, r')) × Noted ids r r'
unfolding abort_each
abort_each-Noted [] r e = (
  r,
  refl,
  record {
    engine = refl;
    stepping = refl;
    pending = sym (append-nil r.pending_aborts);
    sent = refl;
    open_ = λ x f. (f, refl, refl);
  },
)
abort_each-Noted (id ∷ ids) r e =
    let (r', f, k) = abort_each-Noted ids (noted id r) e in
    (
      r',
      bind-ok (abort id) (λ _. abort_each ids) {s = r} (abort_stepping id r e) ∙ f,
      record {
        engine = k.engine;
        stepping = k.stepping;
        pending = k.pending ∙ append_assoc r.pending_aborts (id ∷ []) ids;
        sent = k.sent;
        open_ = λ x g.
            let (o, c, d) = k.open_ x g in
            (ground (arith, o), ground (arith, o, c), ground (arith, o, d));
      },
    )

-- What carrying out aborts does.
pub record Settled (ids : List ℕ) (r r' : Runner) (s s' : Scheduler) : Type 0 where
  pub serves : Serves r'.engine s'
  pub queues : r'.queues ≡ r.queues
  pub sent : r'.sent ≡ r.sent
  pub delivered : r'.delivered ≡ r.delivered
  pub stepping : r'.stepping ≡ r.stepping
  pub pending : r'.pending_aborts ≡ r.pending_aborts
  pub sequences : (x : ℕ) → count x ids ≡ 0 → s'.sequences x ≡ s.sequences x
  pub queued_le : (x : ℕ) → queued s' x ≤ queued s x
  pub gone : (x : ℕ) → 0 < count x ids → queued s' x ≡ 0

-- `release` on an engine that was started.
abbrev with_engine : Runner → Engine → Runner
with_engine r e = record r { engine = e }

abbrev released : ℕ → Runner → Option Scheduler → Result (Unit {0}) × Runner
released id r none = (ok tt, r)
released id r (some s) = (
  (release_in id s).0,
  record r { engine = record (r.engine) { scheduler = some (release_in id s).1 } },
)

release-released : (id : ℕ) (r : Runner) → release id r ≡ released id r r.engine.scheduler
unfolding release
release-released id r = by_cases r.engine.scheduler
  where
    by_cases :
        (o : Option Scheduler)
        → (elim o [
          | none ↦ (ok tt, r)
          | some s ↦ (
            (release_in id s).0,
            record r { engine = record (r.engine) { scheduler = some (release_in id s).1 } },
          )
        ])
          ≡ released id r o
    by_cases none = refl
    by_cases (some s) = refl

pub release-Settled :
    (id : ℕ) (r : Runner) (s : Scheduler)
    → Serves r.engine s
    → (r' : Runner) × (s' : Scheduler) × (release id r ≡ (ok tt, r')) × Settled (id ∷ []) r r' s s'
release-Settled id r s v =
    let (s', e, d) = release_in-Dropped id s v.ready in
    let r' : Runner = with_engine r (record (r.engine) { scheduler = some s' }) in
    (
      r',
      s',
      release-released id r
          ∙ ap (released id r) v.started
          ∙ ap (λ p. (p.0, with_engine r (record (r.engine) { scheduler = some p.1 }))) e,
      record {
        serves = record {
          started = refl;
          ready = d.ready;
          below = λ x c. ground (arith, v.below x, d.queues x, c);
        };
        queues = refl;
        sent = refl;
        delivered = refl;
        stepping = refl;
        pending = refl;
        sequences = λ x c. d.sequences x (λ f. ground (arith, f, c));
        queued_le = λ x. ground (arith, d.queues x);
        gone = λ x c. ground (arith, d.queues x, c);
      },
    )

pub release_each-Settled :
    (ids : List ℕ) (r : Runner) (s : Scheduler)
    → Serves r.engine s
    → (r' : Runner) × (s' : Scheduler) × (release_each ids r ≡ (ok tt, r')) × Settled ids r r' s s'
unfolding release_each
release_each-Settled [] r s v = (
  r,
  s,
  refl,
  record {
    serves = v;
    queues = refl;
    sent = refl;
    delivered = refl;
    stepping = refl;
    pending = refl;
    sequences = λ x c. refl;
    queued_le = λ x. omega arith;
    gone = λ x c. absurd (omega arith);
  },
)
release_each-Settled (id ∷ ids) r s v =
    let (r1, s1, e, a) = release-Settled id r s v in
    let (r2, s2, f, b) = release_each-Settled ids r1 s1 a.serves in
    (
      r2,
      s2,
      bind-ok (release id) (λ _. release_each ids) {s = r} e ∙ f,
      record {
        serves = b.serves;
        queues = b.queues ∙ a.queues;
        sent = b.sent ∙ a.sent;
        delivered = b.delivered ∙ a.delivered;
        stepping = b.stepping ∙ a.stepping;
        pending = b.pending ∙ a.pending;
        sequences = λ x c. b.sequences x (omega (arith, c)) ∙ a.sequences x (omega (arith, c));
        queued_le = λ x. omega (arith, a.queued_le x, b.queued_le x);
        gone = λ x c. elim (ℕ_discrete x id) [
          | yes z ↦ omega (arith, b.queued_le x, a.gone x (ground (arith, z)))
          | no ne ↦ b.gone x (ground (arith, c, ne))
        ];
      },
    )
