-- ===== src/Scheduler/Invariant.antt =====
-- The invariant of scheduler.py: which queue a sequence stands in decides its status and whether it
-- has a block table. The queues are read as functions that count a sequence's id, so that the loops
-- can be followed while a queue is taken apart.
use paged_serve.Prelude.{
  ℕ, ◌+◌, ◌≤◌, ◌<◌, ◌≡◌, ◌≢◌, refl, sym, arith, Bool, ◌&&◌, List, [], ◌∷◌, ◌++◌, Option, none, some,
  length, count, erase, count-erase, ◌∙◌, ◌⊎◌,
}
use mathlib.Core.Path.{subst}
use native.Mathlib.Decide.{ℕ_discrete}
use paged_serve.Block.{BlockTable, blocks_needed}
use paged_serve.BlockManager.{find_table}
use paged_serve.BlockManager.Invariant.{IsValid}
use paged_serve.BlockManager.Sealable.{Sealable}
use paged_serve.Sequence.{Sequence, SequenceStatus, total_len}
use paged_serve.Scheduler.{Scheduler, PreemptionMode, runs, needs_new_block, growth_of}

abbrev pub status_of : Scheduler → ℕ → SequenceStatus
status_of s x = (s.sequences x).status

-- The tokens of a sequence: its prompt and its output.
abbrev pub tokens_of : Sequence → List ℕ × List ℕ
tokens_of q = (q.prompt_token_ids, q.output_token_ids)

abbrev pub table_of : Scheduler → ℕ → Option BlockTable
table_of s x = find_table x s.block_manager.block_tables

-- The blocks that a sequence's tokens need.
abbrev pub need : Scheduler → ℕ → ℕ
need s x = blocks_needed s.block_manager.block_size (total_len (s.sequences x))

-- Where one sequence stands: in one queue at most, with that queue's status. It has a table exactly
-- if it is in the running queue, and the table has the size that its tokens need unless it finished.
pub record IsPlaced (waiting running swapped : ℕ) (q : Sequence) (t : Option BlockTable)
    (block_size : ℕ) : Type 0 where
  pub once : waiting + running + swapped ≤ 1
  pub table :
      0 < running
      → (u : BlockTable) × (t ≡ some u)
        × (u.block_size ≡ block_size)
        × (q.status ≡ SequenceStatus.running
            → length u.blocks ≡ blocks_needed block_size (total_len q))
  pub no_table : running ≡ 0 → t ≡ none
  pub waits : 0 < waiting → q.status ≡ SequenceStatus.waiting
  pub active :
      0 < running → (q.status ≡ SequenceStatus.running) ⊎ (q.status ≡ SequenceStatus.finished)
  pub parked : 0 < swapped → q.status ≡ SequenceStatus.swapped
  pub computed : 0 < waiting + running + swapped → q.num_computed_tokens ≤ total_len q

pub IsPlaced-cong :
    {w w' r r' p p' : ℕ} {q q' : Sequence} {t t' : Option BlockTable} {n n' : ℕ}
    → IsPlaced w r p q t n
    → w' ≡ w
    → r' ≡ r
    → p' ≡ p
    → q' ≡ q
    → t' ≡ t
    → n' ≡ n
    → IsPlaced w' r' p' q' t' n'
IsPlaced-cong h ew er ep eq et en = rw (ew, er, ep, eq, et, en) h

pub record IsReady (waiting running swapped : ℕ → ℕ) (s : Scheduler) : Type 0 where
  pub manager : IsValid s.block_manager
  pub sealable : Sealable s.block_manager
  pub positive : 0 < s.block_manager.block_size
  pub host : (x : ℕ) → 0 < swapped x → s.swap_space ≢ none
  pub policy_host : s.policy ≡ PreemptionMode.swap → s.swap_space ≢ none
  pub places :
      (x : ℕ)
      → IsPlaced
          (waiting x)
          (running x)
          (swapped x)
          (s.sequences x)
          (table_of s x)
          s.block_manager.block_size

-- The invariant between two calls.
abbrev pub Ready : Scheduler → Type 0
Ready s = IsReady (λ x. count x s.waiting) (λ x. count x s.running) (λ x. count x s.swapped) s

-- Every sequence of the running queue runs. It holds from `_retire_finished` on, until a step
-- finishes a sequence.
abbrev pub AllRun : Scheduler → Type 0
AllRun s = (x : ℕ) → 0 < count x s.running → status_of s x ≡ SequenceStatus.running

-- Only how often an id stands in a queue matters.
pub IsReady-count :
    {w w' r r' p p' : ℕ → ℕ} {s : Scheduler}
    → IsReady w r p s
    → ((x : ℕ) → w x ≡ w' x)
    → ((x : ℕ) → r x ≡ r' x)
    → ((x : ℕ) → p x ≡ p' x)
    → IsReady w' r' p' s
IsReady-count v ew er ep = record {
  manager = v.manager;
  sealable = v.sealable;
  positive = v.positive;
  host = λ x h. v.host x (omega (arith, ep x));
  policy_host = v.policy_host;
  places = λ x. IsPlaced-cong (v.places x) (sym (ew x)) (sym (er x)) (sym (ep x)) refl refl refl;
}

-- A step that touches one sequence only.
pub record Touches (v : ℕ) (s s' : Scheduler) : Type 0 where
  pub size : s'.block_manager.block_size ≡ s.block_manager.block_size
  pub config : s'.config ≡ s.config
  pub policy : s'.policy ≡ s.policy
  pub space : s'.swap_space ≡ none → s.swap_space ≡ none
  pub sequences : (x : ℕ) → x ≢ v → s'.sequences x ≡ s.sequences x
  pub tables : (x : ℕ) → x ≢ v → table_of s' x ≡ table_of s x

-- Such a step keeps the invariant if the sequence itself is well placed behind it.
pub IsReady-update :
    {w r p w' r' p' : ℕ → ℕ} (v : ℕ) {s s' : Scheduler}
    → IsReady w r p s
    → IsValid s'.block_manager
    → Sealable s'.block_manager
    → Touches v s s'
    → ((x : ℕ) → x ≢ v → (w' x ≡ w x) × (r' x ≡ r x) × (p' x ≡ p x))
    → IsPlaced (w' v) (r' v) (p' v) (s'.sequences v) (table_of s' v) s'.block_manager.block_size
    → (0 < p' v → s'.swap_space ≢ none)
    → IsReady w' r' p' s'
IsReady-update {w} {r} {p} {w'} {r'} {p'} v {s} {s'} h valid own t same here host = record {
  manager = valid;
  sealable = own;
  positive = rw t.size h.positive;
  host = λ x c. elim (ℕ_discrete x v) [
    | yes e ↦ host (subst (λ y. 0 < p' y) e c)
    | no ne ↦ λ f. h.host x (omega (arith, same x ne)) (t.space f)
  ];
  policy_host = λ e f. h.policy_host (sym t.policy ∙ e) (t.space f);
  places = λ x. elim (ℕ_discrete x v) [
    | yes e ↦
        subst
          (λ y.
            IsPlaced (w' y) (r' y) (p' y) (s'.sequences y) (table_of s' y)
              s'.block_manager.block_size)
          (sym e) here
    | no ne ↦
        let (ew, er, ep) = same x ne in
        IsPlaced-cong (h.places x) ew er ep (t.sequences x ne) (t.tables x ne) t.size
  ];
}

-- How often an id stands in the queues.
abbrev pub queued : Scheduler → ℕ → ℕ
queued s x = count x s.waiting + count x s.running + count x s.swapped

-- Whether a sequence will take a block for its next token.
abbrev pub grows : Scheduler → ℕ → Bool
grows s x = runs s x && needs_new_block s x

pub grows-Touches :
    (v : ℕ) (s s' : Scheduler) → Touches v s s' → (x : ℕ) → x ≢ v → grows s' x ≡ grows s x
unfolding needs_new_block
grows-Touches v s s' t x ne = ground (arith, t.sequences x ne, t.tables x ne, t.size)

pub growth_of-cong :
    (s s' : Scheduler) (ids : List ℕ)
    → ((x : ℕ) → 0 < count x ids → grows s' x ≡ grows s x)
    → growth_of s' ids ≡ growth_of s ids
unfolding growth_of
growth_of-cong s s' [] h = refl
growth_of-cong s s' (y ∷ ids) h =
    let rest = growth_of-cong s s' ids (λ x c. h x (omega arith)) in
    let here = h y (ground arith) in rw (here, rest)

pub growth_of-append :
    (s : Scheduler) (ids more : List ℕ)
    → growth_of s (ids ++ more) ≡ growth_of s ids + growth_of s more
unfolding growth_of
growth_of-append s [] more = omega arith
growth_of-append s (y ∷ ids) more = omega (arith, growth_of-append s ids more)

growth_of-erase :
    (s : Scheduler) (y : ℕ) (ids : List ℕ)
    → 0 < count y ids
    → growth_of s ids ≡ growth_of s (y ∷ erase y ids)
unfolding growth_of
growth_of-erase s y [] h = absurd (omega arith)
growth_of-erase s y (z ∷ ids) h = ground (arith, growth_of-erase s y ids)

-- Fewer sequences, less growth.
pub growth_of_mono :
    (s : Scheduler) (ids more : List ℕ)
    → ((x : ℕ) → count x ids ≤ count x more)
    → growth_of s ids ≤ growth_of s more
unfolding growth_of
growth_of_mono s [] more h = omega arith
growth_of_mono s (y ∷ ids) more h =
    let rest =
      growth_of_mono s ids (erase y more) (λ x. ground (arith, h x, count-erase x y more)) in
    omega (arith, rest, growth_of-erase s y more (ground (arith, h y)))
