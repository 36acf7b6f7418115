-- ===== src/Scheduler/Room.antt =====
-- `_preempt` and `_make_room_for_running` of scheduler.py, with `select_victim` of policy.py.
use paged_serve.Prelude.{
  ℕ, zero, suc, ◌+◌, ◌≤◌, ◌<◌, ◌≡◌, refl, arith, true, List, [], ◌∷◌, ◌++◌, none, some, length,
  length-erase, count, count-erase, erase, leb, leb-true, ◌∙◌, Option-cases, ap, Bool-cases, inl,
  inr, ok, bind-ok, return,
}
use native.Mathlib.Decide.{ℕ_discrete}
use paged_serve.BlockManager.{num_free_blocks}
use paged_serve.Scheduler.Invariant.{tokens_of, IsReady, Ready, IsReady-count, AllRun, queued}
use paged_serve.Scheduler.Evict.{Evicted, evict_by-Evicted}
use paged_serve.Scheduler.{
  Scheduler, Output, runs, preempt, make_room, make_room_for_running, select_victim, growth_of,
  running_growth_reserve, evict_by,
}

-- The victim is a running sequence, and there is one unless nothing runs.
pub select_victim-some :
    (s : Scheduler) (ids : List ℕ) (v : ℕ)
    → select_victim s ids ≡ some v
    → (0 < count v ids) × (runs s v ≡ true)
unfolding select_victim
select_victim-some s [] v e = absurd (cc)
select_victim-some s (y ∷ ids) v e = elim (Option-cases (select_victim s ids)) [
  | inl n ↦ ground (arith, n, e)
  | inr (u, f) ↦ let h = select_victim-some s ids u f in ground (arith, f, e, h)
]

pub select_victim-none :
    (s : Scheduler) (ids : List ℕ) → select_victim s ids ≡ none → growth_of s ids ≡ 0
unfolding select_victim growth_of
select_victim-none s [] e = refl
select_victim-none s (y ∷ ids) e = elim (Option-cases (select_victim s ids)) [
  | inl n ↦ let h = select_victim-none s ids n in ground (arith, n, e, h)
  | inr (u, f) ↦ absurd (ground (arith, f, e))
]

-- The tokens of every sequence are kept, and no sequence is lost.
pub record Preempted (out out' : Output) (s s' : Scheduler) : Type 0 where
  pub ready : Ready s'
  pub config : s'.config ≡ s.config
  pub policy : s'.policy ≡ s.policy
  pub tokens : (x : ℕ) → tokens_of (s'.sequences x) ≡ tokens_of (s.sequences x)
  pub queues : (x : ℕ) → queued s' x ≡ queued s x
  pub prefills : out'.prefills ≡ out.prefills
  pub decodes : out'.decodes ≡ out.decodes
  pub finished : out'.finished ≡ out.finished
  pub alive : AllRun s → AllRun s'
  pub batched : out'.num_batched_tokens ≡ out.num_batched_tokens

module _ (v : ℕ) (s : Scheduler) (h : Ready s) (c : 0 < count v s.running) where
  abbrev off : Scheduler
  off = record s { running = erase v s.running; num_preemptions = s.num_preemptions + 1 }

  off-IsReady :
      IsReady (λ x. count x off.waiting) (λ x. count x s.running) (λ x. count x off.swapped) off
  off-IsReady = record {
    manager = h.manager;
    sealable = h.sealable;
    positive = h.positive;
    host = h.host;
    policy_host = h.policy_host;
    places = h.places;
  }

  Evicted-queued :
      (s' : Scheduler)
      → Evicted (λ x. count x s.running) v off s'
      → (x : ℕ) → queued s' x ≡ queued s x
  Evicted-queued s' e x = elim (e.queues) [
    | inl (w, p) ↦ rw (w, e.running, p) (ground (arith, count-erase x v s.running, c))
    | inr (w, p) ↦ rw (w, e.running, p) (ground (arith, count-erase x v s.running, c))
  ]

  Evicted-tokens :
      (s' : Scheduler)
      → Evicted (λ x. count x s.running) v off s'
      → (x : ℕ) → tokens_of (s'.sequences x) ≡ tokens_of (s.sequences x)
  Evicted-tokens s' e x = elim (ℕ_discrete x v) [
    | yes f ↦ rw f e.tokens
    | no ne ↦ ap tokens_of (e.touches.sequences x ne)
  ]

  Evicted-Ready : (s' : Scheduler) → Evicted (λ x. count x s.running) v off s' → Ready s'
  Evicted-Ready s' e =
      IsReady-count e.ready (λ x. refl)
        (λ x. rw e.running (ground (arith, count-erase x v s.running, (h.places x).once)))
        (λ x. refl)

  Evicted-AllRun :
      (s' : Scheduler) → Evicted (λ x. count x s.running) v off s' → AllRun s → AllRun s'
  Evicted-AllRun s' e a x lt = elim (ℕ_discrete x v) [
    | yes f ↦ absurd (
        ground (arith, f, lt, ap (count x) e.running, count-erase v v s.running, (h.places v).once))
    | no ne ↦
        ap (λ q. q.status) (e.touches.sequences x ne)
        ∙ a x (ground (arith, lt, ap (count x) e.running, count-erase x v s.running, ne))
  ]

  -- A preemption succeeds, and one sequence fewer runs.
  pub preempt-Preempted :
      (out : Output)
      → (out' : Output) × (s' : Scheduler) × (preempt v out s ≡ (ok out', s'))
        × Preempted out out' s s'
        × (length s'.running + 1 ≡ length s.running)
  unfolding preempt
  preempt-Preempted out =
      let (s', e, x) = evict_by-Evicted (λ x. count x s.running) v off off-IsReady c s.policy in
      (
        record out { preempted = out.preempted ++ v ∷ [] },
        s',
        bind-ok (evict_by s.policy v)
            (λ _. return (record out { preempted = out.preempted ++ v ∷ [] })) e,
        record {
          ready = Evicted-Ready s' x;
          config = x.touches.config;
          policy = x.touches.policy;
          tokens = Evicted-tokens s' x;
          queues = Evicted-queued s' x;
          prefills = refl;
          decodes = refl;
          finished = refl;
          alive = λ a. Evicted-AllRun s' x a;
          batched = refl;
        },
        rw x.running (length-erase v s.running c),
      )

pub Preempted-refl : (out : Output) (s : Scheduler) → Ready s → Preempted out out s s
Preempted-refl out s h = record {
  ready = h;
  config = refl;
  policy = refl;
  tokens = λ x. refl;
  queues = λ x. refl;
  prefills = refl;
  decodes = refl;
  finished = refl;
  alive = λ a. a;
  batched = refl;
}

pub Preempted-trans :
    {o o' o'' : Output} {s s' s'' : Scheduler}
    → Preempted o o' s s'
    → Preempted o' o'' s' s''
    → Preempted o o'' s s''
Preempted-trans h k = record {
  ready = k.ready;
  config = k.config ∙ h.config;
  policy = k.policy ∙ h.policy;
  tokens = λ x. k.tokens x ∙ h.tokens x;
  queues = λ x. k.queues x ∙ h.queues x;
  prefills = k.prefills ∙ h.prefills;
  decodes = k.decodes ∙ h.decodes;
  finished = k.finished ∙ h.finished;
  alive = λ a. k.alive (h.alive a);
  batched = k.batched ∙ h.batched;
}

-- What the loop leaves behind: a free block for every running sequence that grows.
abbrev pub HasRoom : Scheduler → Type 0
HasRoom s = running_growth_reserve s ≤ num_free_blocks s.block_manager

make_room-Preempted :
    (rounds : ℕ) (out : Output) (s : Scheduler)
    → Ready s
    → length s.running < rounds
    → (out' : Output) × (s' : Scheduler) × (make_room rounds out s ≡ (ok out', s'))
      × Preempted out out' s s'
      × HasRoom s'
unfolding make_room running_growth_reserve
make_room-Preempted zero out s h len = absurd (omega arith)
make_room-Preempted (suc rounds) out s h len =
    elim (Bool-cases (leb (running_growth_reserve s) (num_free_blocks s.block_manager))) [
      | inl yes_room ↦ (out, s, rw yes_room, Preempted-refl out s h, leb-true _ _ yes_room)
      | inr lacks ↦ elim (Option-cases (select_victim s s.running)) [
        | inl n ↦ (
          out,
          s,
          rw (lacks, n),
          Preempted-refl out s h,
          omega (arith, select_victim-none s s.running n),
        )
        | inr (v, e) ↦
            let (c, running) = select_victim-some s s.running v e in
            let (out1, s1, f, p, len1) = preempt-Preempted v s h c out in
            let (out2, s2, g, q, room) = make_room-Preempted rounds out1 s1 p.ready (omega arith) in
            (
              out2,
              s2,
              rw (lacks, e) (bind-ok (preempt v out) (make_room rounds) f ∙ g),
              Preempted-trans p q,
              room,
            )
      ]
    ]

-- On a scheduler that satisfies the invariant, `_make_room_for_running` ends before its rounds
-- run out and does not raise. Afterwards the invariant holds, a block is available for each
-- running sequence that grows, no sequence loses a token or its place in the queues, and the
-- batch and the finished list are unchanged.
pub make_room_for_running-Preempted :
    (out : Output) (s : Scheduler)
    → Ready s
    → (out' : Output) × (s' : Scheduler) × (make_room_for_running out s ≡ (ok out', s'))
      × Preempted out out' s s'
      × HasRoom s'
unfolding make_room_for_running
make_room_for_running-Preempted out s h =
    make_room-Preempted (length s.running + 1) out s h (omega arith)
