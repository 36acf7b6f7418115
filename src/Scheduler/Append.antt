-- ===== src/Scheduler/Append.antt =====
-- `append_slots` of scheduler.py, after a step has appended the new tokens: what a step may do, and
-- one sequence's table grown.
use paged_serve.Prelude.{
  ℕ, ◌+◌, ◌≤◌, ◌<◌, ◌≡◌, ◌≢◌, refl, sym, arith, List, [], ◌∷◌, some, length, count, ◌==◌,
  if◌then◌else◌, ◌∙◌, inl, inr, ◌⊎◌,
}
use native.Mathlib.Decide.{ℕ_discrete}
use paged_serve.Block.{BlockTable, blocks_needed}
use paged_serve.BlockManager.{BlockManager, find_table}
use paged_serve.BlockManager.Invariant.{IsValid}
use paged_serve.BlockManager.Sealable.{Sealable}
use paged_serve.Sequence.{Sequence, SequenceStatus, total_len}
use paged_serve.Scheduler.Invariant.{Ready, IsReady-update, Touches, grows-Touches, growth_of-cong}
use paged_serve.Scheduler.{Scheduler, growth_of}

-- What a step of the engine may do to the sequences: each grows by one token at most, a running one
-- may finish, and a sequence that still runs grew only if it is on the list.
pub record IsStep (todo : List ℕ) (old new : ℕ → Sequence) : Type 0 where
  pub status :
      (x : ℕ)
      → ((new x).status ≡ (old x).status)
        ⊎ (((old x).status ≡ SequenceStatus.running) × ((new x).status ≡ SequenceStatus.finished))
  pub grown :
      (x : ℕ)
      → (total_len (old x) ≤ total_len (new x)) × (total_len (new x) ≤ total_len (old x) + 1)
  pub settled :
      (x : ℕ)
      → count x todo ≡ 0
      → (new x).status ≡ SequenceStatus.running
      → total_len (new x) ≡ total_len (old x)
  pub computed :
      (x : ℕ)
      → (old x).num_computed_tokens ≤ total_len (old x)
      → (new x).num_computed_tokens ≤ total_len (new x)

-- The queues of two states.
pub record SameQueues (s s' : Scheduler) : Type 0 where
  pub waiting : s'.waiting ≡ s.waiting
  pub running : s'.running ≡ s.running
  pub swapped : s'.swapped ≡ s.swapped

pub SameQueues-refl : (s : Scheduler) → SameQueues s s
SameQueues-refl s = record { waiting = refl; running = refl; swapped = refl }

pub SameQueues-trans :
    {s s' s'' : Scheduler} → SameQueues s s' → SameQueues s' s'' → SameQueues s s''
SameQueues-trans h k = record {
  waiting = k.waiting ∙ h.waiting;
  running = k.running ∙ h.running;
  swapped = k.swapped ∙ h.swapped;
}

-- The state with the sequences as the step left them.
abbrev pub stepped : Scheduler → (ℕ → Sequence) → Scheduler
stepped s new = record s { sequences = new }

pub stepped-Ready :
    (s : Scheduler) (new : ℕ → Sequence)
    → Ready s
    → IsStep [] s.sequences new
    → Ready (stepped s new)
stepped-Ready s new h k = record {
  manager = h.manager;
  sealable = h.sealable;
  positive = h.positive;
  host = h.host;
  policy_host = h.policy_host;
  places = λ x.
      let p = h.places x in
      record {
        once = p.once;
        table = λ c.
            let (u, e, size, f) = p.table c in
            (
              u,
              e,
              size,
              λ st. elim (k.status x) [
                | inl same ↦ rw (k.settled x refl st) (f (sym same ∙ st))
                | inr (_, gone) ↦ absurd (cc)
              ],
            );
        no_table = p.no_table;
        waits = λ c. elim (k.status x) [
          | inl same ↦ same ∙ p.waits c
          | inr (was, _) ↦ absurd (ground (arith, was, p.waits c))
        ];
        active =
            λ c. elim (k.status x) [ inl same ↦ rw same (p.active c) | inr (_, gone) ↦ inr gone ];
        parked = λ c. elim (k.status x) [
          | inl same ↦ same ∙ p.parked c
          | inr (was, _) ↦ absurd (ground (arith, was, p.parked c))
        ];
        computed = λ c. k.computed x (p.computed c);
      };
}

module _ (y : ℕ) (new : ℕ → Sequence) (s : Scheduler) (h : Ready s) (going : 0 < count y s.running)
    (runs_on : (new y).status ≡ SequenceStatus.running) where
  -- The sequence `y` as the step left it, with its table grown.
  abbrev pub caught_up : BlockManager → Scheduler
  caught_up n = record s {
    block_manager = n;
    sequences = λ x. if x == y then new y else s.sequences x;
  }

  caught_up-Touches :
      (n : BlockManager)
      → n.block_size ≡ s.block_manager.block_size
      → ((j : ℕ) → j ≢ y → find_table j n.block_tables ≡ find_table j s.block_manager.block_tables)
      → Touches y s (caught_up n)
  caught_up-Touches n size others = record {
    size = size;
    config = refl;
    policy = refl;
    space = λ e. e;
    sequences = λ x ne. ground arith;
    tables = λ x ne. others x ne;
  }

  pub caught_up-Ready :
      (n : BlockManager) (t : BlockTable)
      → IsValid n
      → Sealable n
      → n.block_size ≡ s.block_manager.block_size
      → find_table y n.block_tables ≡ some t
      → ((j : ℕ) → j ≢ y → find_table j n.block_tables ≡ find_table j s.block_manager.block_tables)
      → t.block_size ≡ n.block_size
      → length t.blocks ≡ blocks_needed n.block_size (total_len (new y))
      → (new y).num_computed_tokens ≤ total_len (new y)
      → Ready (caught_up n)
  caught_up-Ready n t valid own size stored others table_size exact computed =
      let p = h.places y in
      IsReady-update y h valid own (caught_up-Touches n size others) (λ x ne. (refl, refl, refl))
        (record {
          once = p.once;
          table = λ c. (t, stored, table_size, λ st. ground (arith, exact));
          no_table = λ c. absurd (omega arith);
          waits = λ c. absurd (omega (arith, p.once));
          active = λ c. inl (ground (arith, runs_on));
          parked = λ c. absurd (omega (arith, p.once));
          computed = λ c. ground (arith, computed);
        })
        (h.host y)

  pub caught_up-growth :
      (n : BlockManager) (rest : List ℕ)
      → n.block_size ≡ s.block_manager.block_size
      → ((j : ℕ) → j ≢ y → find_table j n.block_tables ≡ find_table j s.block_manager.block_tables)
      → count y rest ≡ 0
      → growth_of (caught_up n) rest ≡ growth_of s rest
  caught_up-growth n rest size others once = growth_of-cong s (caught_up n) rest (λ x c.
      grows-Touches y s (caught_up n) (caught_up-Touches n size others) x
        (λ e. absurd (ground (arith, once, e, c))))

pub caught_up-IsStep :
    (y : ℕ) (rest : List ℕ) (old new : ℕ → Sequence)
    → IsStep (y ∷ rest) old new
    → IsStep rest (λ x. if x == y then new y else old x) new
caught_up-IsStep y rest old new k = record {
  status = λ x. elim (ℕ_discrete x y) [
    | yes e ↦ inl (ground (arith, e))
    | no ne ↦ ground (arith, k.status x, ne)
  ];
  grown = λ x. ground (arith, k.grown x);
  settled = λ x c st. ground (arith, k.settled x, c, st);
  computed = λ x c. ground (arith, k.computed x, c);
}
