-- ===== src/Scheduler/Retire.antt =====
-- `_retire_finished` of scheduler.py.
use paged_serve.Prelude.{
  ℕ, ◌+◌, ◌<◌, ◌≡◌, refl, arith, List, [], ◌∷◌, ◌++◌, count, count-append, ◌∙◌, ap, inl, inr, ok,
  bind-ok,
}
use native.Mathlib.Decide.{ℕ_discrete}
use paged_serve.BlockManager
use paged_serve.BlockManager.{BlockManager, num_free_blocks}
use paged_serve.BlockManager.Release.{Freed, free-Freed}
use paged_serve.Sequence.{SequenceStatus}
use paged_serve.Scheduler.Invariant.{IsReady, Ready, IsReady-count, IsReady-update, status_of}
use paged_serve.Scheduler.{Scheduler, Output, on_manager, retire_from, retire_finished}

pub record Retired (ids still : List ℕ) (out out' : Output) (s s' : Scheduler) : Type 0 where
  pub ready : Ready s'
  pub config : s'.config ≡ s.config
  pub policy : s'.policy ≡ s.policy
  pub sequences : (x : ℕ) → s'.sequences x ≡ s.sequences x
  pub waiting : s'.waiting ≡ s.waiting
  pub swapped : s'.swapped ≡ s.swapped
  pub moved :
      (x : ℕ)
      → count x s'.running + count x out'.finished
        ≡ count x ids + count x still + count x out.finished
  pub alive : (x : ℕ) → 0 < count x s'.running → status_of s' x ≡ SequenceStatus.running
  pub prefills : out'.prefills ≡ out.prefills
  pub decodes : out'.decodes ≡ out.decodes
  pub batched : out'.num_batched_tokens ≡ out.num_batched_tokens

-- The queues while the loop runs.
abbrev pub Mid : List ℕ → List ℕ → Scheduler → Type 0
Mid ids still s =
    IsReady (λ x. count x s.waiting) (λ x. count x ids + count x still) (λ x. count x s.swapped) s

abbrev pub with_manager : Scheduler → BlockManager → Scheduler
with_manager s n = record s { block_manager = n }

pub Freed-Mid :
    (y : ℕ) (ids still : List ℕ) (s : Scheduler) (n : BlockManager)
    → Mid (y ∷ ids) still s
    → Freed y s.block_manager n
    → Mid ids still (with_manager s n)
Freed-Mid y ids still s n h f =
    let p = h.places y in
    IsReady-update y h f.valid (f.sealable h.sealable)
      (record {
        size = f.size;
        config = refl;
        policy = refl;
        space = λ e. e;
        sequences = λ x ne. refl;
        tables = λ x ne. f.others x ne;
      })
      (λ x ne. (refl, ground arith, refl))
      (record {
        once = omega (arith, p.once);
        table = λ c. absurd (ground (arith, p.once));
        no_table = λ c. f.gone;
        waits = p.waits;
        active = λ c. absurd (ground (arith, p.once));
        parked = p.parked;
        computed = λ c. p.computed (ground arith);
      })
      (h.host y)

pub still-IsReady :
    (still : List ℕ) (s : Scheduler) → Mid [] still s → Ready (record s { running = still })
still-IsReady still s h =
    let k : IsReady (λ x. count x s.waiting) (λ x. count x still) (λ x. count x s.swapped) s =
      IsReady-count h (λ x. refl) (λ x. omega arith) (λ x. refl) in
    record {
      manager = k.manager;
      sealable = k.sealable;
      positive = k.positive;
      host = k.host;
      policy_host = k.policy_host;
      places = k.places;
    }

retire_from-Retired :
    (ids still : List ℕ) (out : Output) (s : Scheduler)
    → Mid ids still s
    → ((x : ℕ) → 0 < count x still → status_of s x ≡ SequenceStatus.running)
    → (out' : Output) × (s' : Scheduler) × (retire_from ids still out s ≡ (ok out', s'))
      × Retired ids still out out' s s'
unfolding retire_from
retire_from-Retired [] still out s h alive = (
  out,
  record s { running = still },
  refl,
  record {
    ready = still-IsReady still s h;
    config = refl;
    policy = refl;
    sequences = λ x. refl;
    waiting = refl;
    swapped = refl;
    moved = λ x. omega arith;
    alive = alive;
    prefills = refl;
    decodes = refl;
    batched = refl;
  },
)
retire_from-Retired (y ∷ ids) still out s h alive = elim ((h.places y).active (ground arith)) [
  | inl e ↦
      let k =
        IsReady-count h (λ x. refl) (λ x. ground (arith, count-append x still (y ∷ [])))
          (λ x. refl) in
      let (out', s', f, r) = retire_from-Retired ids (still ++ y ∷ []) out s k (λ x c.
        elim (ℕ_discrete x y) [
          | yes z ↦ rw z e
          | no ne ↦ alive x (ground (arith, count-append x still (y ∷ []), c))
        ]) in
      (
        out',
        s',
        rw (e, retire_from) f,
        record {
          ready = r.ready;
          config = r.config;
          policy = r.policy;
          sequences = r.sequences;
          waiting = r.waiting;
          swapped = r.swapped;
          moved = λ x. ground (arith, r.moved x, count-append x still (y ∷ []));
          alive = r.alive;
          prefills = r.prefills;
          decodes = r.decodes;
          batched = r.batched;
        },
      )
  | inr e ↦
      let (n, g, f) = free-Freed y s.block_manager h.manager in
      let out1 : Output = record out { finished = out.finished ++ y ∷ [] } in
      let (out', s', k, r) =
        retire_from-Retired ids still out1 (with_manager s n) (Freed-Mid y ids still s n h f)
          alive in
      (
        out',
        s',
        rw (e, retire_from)
            (bind-ok (on_manager (BlockManager.free y)) (λ _. retire_from ids still out1)
                (ap (λ r. (r.0, with_manager s r.1)) g)
              ∙ k),
        record {
          ready = r.ready;
          config = r.config;
          policy = r.policy;
          sequences = r.sequences;
          waiting = r.waiting;
          swapped = r.swapped;
          moved = λ x. ground (arith, r.moved x, count-append x out.finished (y ∷ []));
          alive = r.alive;
          prefills = r.prefills;
          decodes = r.decodes;
          batched = r.batched;
        },
      )
]

pub retire_finished-Retired :
    (out : Output) (s : Scheduler)
    → Ready s
    → (out' : Output) × (s' : Scheduler) × (retire_finished out s ≡ (ok out', s'))
      × Retired s.running [] out out' s s'
unfolding retire_finished
retire_finished-Retired out s h =
    retire_from-Retired s.running [] out s
      (IsReady-count h (λ x. refl) (λ x. omega arith) (λ x. refl)) (λ x c. absurd (omega arith))
