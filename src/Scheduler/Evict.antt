-- ===== src/Scheduler/Evict.antt =====
-- The eviction in `_preempt` and `_swap_out` of scheduler.py, under either policy.
use paged_serve.Prelude.{
  ℕ, ◌+◌, ◌≤◌, ◌<◌, ◌≡◌, refl, arith, true, List, ◌∷◌, Option, none, some, length, count, ◌==◌,
  if◌then◌else◌, ◌∙◌, Bool-cases, inl, inr, ◌⊎◌, ok, ◌>>=◌, bind-ok,
}
use paged_serve.Block.{BlockTable}
use paged_serve.BlockManager
use paged_serve.BlockManager.{BlockManager, num_free_blocks, find_table}
use paged_serve.BlockManager.Release.{Freed, free-Freed}
use paged_serve.Sequence.{SequenceStatus, reset_for_recompute}
use paged_serve.Swap
use paged_serve.Swap.{SwapSpace}
use paged_serve.Swap.Roundtrip.{swap_out-Takes}
use paged_serve.Scheduler.Invariant.{tokens_of, IsReady, IsReady-update, Touches, table_of}
use paged_serve.Scheduler.{
  Scheduler, PreemptionMode, set_seq, on_manager, requeue, park, do_swap_out, swap_out, swap_out_of,
  evict_by,
}

-- An id leaves a queue.
abbrev pub less : (ℕ → ℕ) → ℕ → ℕ → ℕ
less f v x = if x == v then 0 else f x

-- What an eviction does. The sequence keeps its tokens.
pub record Evicted (r : ℕ → ℕ) (v : ℕ) (s s' : Scheduler) : Type 0 where
  pub ready : IsReady (λ x. count x s'.waiting) (less r v) (λ x. count x s'.swapped) s'
  pub touches : Touches v s s'
  pub available : num_free_blocks s.block_manager ≤ num_free_blocks s'.block_manager
  pub running : s'.running ≡ s.running
  pub queues :
      ((s'.waiting ≡ v ∷ s.waiting) × (s'.swapped ≡ s.swapped))
      ⊎ ((s'.waiting ≡ s.waiting) × (s'.swapped ≡ v ∷ s.swapped))
  pub tokens : tokens_of (s'.sequences v) ≡ tokens_of (s.sequences v)

module _ (r : ℕ → ℕ) (v : ℕ) (s : Scheduler)
    (ready : IsReady (λ x. count x s.waiting) r (λ x. count x s.swapped) s)
    (in_running : 0 < r v) where
  alone : (count v s.waiting ≡ 0) × (r v ≡ 1) × (count v s.swapped ≡ 0)
  alone =
      let p = ready.places v in
      (omega (arith, p.once), omega (arith, p.once), omega (arith, p.once))

  abbrev to_waiting : BlockManager → Scheduler
  to_waiting n =
      record (set_seq (record s { block_manager = n }) v (reset_for_recompute (s.sequences v))) {
        waiting = v ∷ s.waiting;
      }

  to_waiting-Evicted : (n : BlockManager) → Freed v s.block_manager n → Evicted r v s (to_waiting n)
  unfolding reset_for_recompute
  to_waiting-Evicted n f =
      let t : Touches v s (to_waiting n) = record {
        size = f.size;
        config = refl;
        policy = refl;
        space = λ e. e;
        sequences = λ x ne. ground arith;
        tables = λ x ne. f.others x ne;
      } in
      record {
        ready =
            IsReady-update v ready f.valid (f.sealable ready.sealable) t
              (λ x ne. (ground arith, ground arith, refl))
              (record {
                once = ground (arith, alone);
                table = λ h. absurd (ground arith);
                no_table = λ h. f.gone;
                waits = λ h. ground arith;
                active = λ h. absurd (ground arith);
                parked = λ h. absurd (omega (arith, alone.2));
                computed = λ h. ground arith;
              })
              (λ h. absurd (omega (arith, alone.2)));
        touches = t;
        available = f.available;
        running = refl;
        queues = inl (refl, refl);
        tokens = ground arith;
      }

  pub requeue-Evicted : (s' : Scheduler) × (requeue v s ≡ (ok tt, s')) × Evicted r v s s'
  requeue-Evicted =
      let (n, e, f) = free-Freed v s.block_manager ready.manager in
      (to_waiting n, ground arith, to_waiting-Evicted n f)

  abbrev to_swapped : SwapSpace → List ℕ → BlockManager → Scheduler
  to_swapped space cpu_blocks n =
      record (set_seq (record s { block_manager = n }) v
        (record (s.sequences v) {
          num_preemptions = (s.sequences v).num_preemptions + 1;
          status = SequenceStatus.swapped;
        })) {
          swap_space = some space;
          swapped_blocks = λ x. if x == v then some cpu_blocks else s.swapped_blocks x;
          swapped = v ∷ s.swapped;
        }

  to_swapped-Evicted :
      (space : SwapSpace) (cpu_blocks : List ℕ) (n : BlockManager)
      → Freed v s.block_manager n
      → Evicted r v s (to_swapped space cpu_blocks n)
  to_swapped-Evicted space cpu_blocks n f =
      let t : Touches v s (to_swapped space cpu_blocks n) = record {
        size = f.size;
        config = refl;
        policy = refl;
        space = λ e. absurd (cc);
        sequences = λ x ne. ground arith;
        tables = λ x ne. f.others x ne;
      } in
      record {
        ready =
            IsReady-update v ready f.valid (f.sealable ready.sealable) t
              (λ x ne. (refl, ground arith, ground arith))
              (record {
                once = ground (arith, alone);
                table = λ h. absurd (ground arith);
                no_table = λ h. f.gone;
                waits = λ h. absurd (omega (arith, alone.0));
                active = λ h. absurd (ground arith);
                parked = λ h. ground arith;
                computed = λ h. ground (arith, (ready.places v).computed, in_running);
              })
              (λ h e. cc);
        touches = t;
        available = f.available;
        running = refl;
        queues = inr (refl, refl);
        tokens = ground arith;
      }

  -- With room on the host the blocks are copied out and the sequence is parked.
  parked-Evicted :
      (space : SwapSpace) (t : BlockTable)
      → Swap.can_swap_out space (length t.blocks) ≡ true
      → (s' : Scheduler) × ((do_swap_out space t.blocks >>= park v) s ≡ (ok tt, s'))
        × Evicted r v s s'
  parked-Evicted space t room =
      let (cs, space', e, out) = swap_out-Takes s.gpu_cache t.blocks space room in
      let (n, g, f) = free-Freed v s.block_manager ready.manager in
      (to_swapped space' cs n, ground arith, to_swapped-Evicted space' cs n f)

  swap_out_of-Evicted :
      (space : Option SwapSpace) (t : BlockTable)
      → (s' : Scheduler) × (swap_out_of space v t s ≡ (ok tt, s')) × Evicted r v s s'
  swap_out_of-Evicted none t = requeue-Evicted
  swap_out_of-Evicted (some space) t =
      elim (Bool-cases (Swap.can_swap_out space (length t.blocks))) [
        | inl room ↦ let (s', e, x) = parked-Evicted space t room in (s', rw room e, x)
        | inr full ↦ let (s', e, x) = requeue-Evicted in (s', rw full e, x)
      ]

  reads :
      (t : BlockTable)
      → table_of s v ≡ some t
      → on_manager (BlockManager.block_table v) s ≡ (ok t, s)
  unfolding BlockManager.block_table
  reads t e = rw e

  swap_out-Evicted : (s' : Scheduler) × (swap_out v s ≡ (ok tt, s')) × Evicted r v s s'
  unfolding swap_out
  swap_out-Evicted =
      let (t, e, size, len) = (ready.places v).table in_running in
      let (s', f, x) = swap_out_of-Evicted s.swap_space t in
      (
        s',
        bind-ok (on_manager (BlockManager.block_table v)) (λ t s. swap_out_of s.swap_space v t s)
              (reads t e)
            ∙ f,
        x,
      )

  -- Under either policy, evicting a sequence that ran, on a state that satisfies the invariant,
  -- does not raise, whether the host has room or not. Afterwards the invariant holds with the
  -- sequence at the front of the waiting or the swapped queue and out of the running one, it
  -- keeps its tokens, and no available block is lost.
  pub evict_by-Evicted :
      (policy : PreemptionMode)
      → (s' : Scheduler) × (evict_by policy v s ≡ (ok tt, s')) × Evicted r v s s'
  evict_by-Evicted PreemptionMode.recompute = requeue-Evicted
  evict_by-Evicted PreemptionMode.swap = swap_out-Evicted
