-- ===== src/Scheduler/Join.antt =====
-- scheduler.py, what `_resume_swapped` and `_admit_waiting` share: a sequence that has no blocks
-- gets them and joins the running queue.
use paged_serve.Prelude.{
  ℕ, ◌+◌, ◌≤◌, ◌≡◌, ◌≢◌, refl, sym, arith, false, List, [], ◌∷◌, ◌++◌, count, count-append, ltb,
  ltb-false, ◌==◌, if◌then◌else◌, ◌∙◌, ap, Bool-cases, inl, inr,
}
use native.Mathlib.Decide.{ℕ_discrete}
use paged_serve.Block.{BlockTable, blocks_needed}
use paged_serve.BlockManager.{num_free_blocks}
use paged_serve.BlockManager.Allocate.{Allocated}
use paged_serve.Sequence.{SequenceStatus, total_len}
use paged_serve.Scheduler.Invariant.{
  tokens_of, Ready, AllRun, IsReady-update, Touches, status_of, need, queued, grows, grows-Touches,
  growth_of-cong, growth_of-append,
}
use paged_serve.Scheduler.{
  Scheduler, growth, lacks_room, needs_new_block, growth_of, running_growth_reserve,
}

-- A step that only moves `y` to the end of the running queue.
pub record Joins (y : ℕ) (s s' : Scheduler) : Type 0 where
  pub touches : Touches y s s'
  pub running : s'.running ≡ s.running ++ y ∷ []
  pub status : status_of s' y ≡ SequenceStatus.running
  pub tokens : tokens_of (s'.sequences y) ≡ tokens_of (s.sequences y)
  pub computed : (s'.sequences y).num_computed_tokens ≤ total_len (s'.sequences y)
  pub total : total_len (s'.sequences y) ≡ total_len (s.sequences y)
  pub queues :
      (x : ℕ)
      → x ≢ y
      → (count x s'.waiting ≡ count x s.waiting) × (count x s'.swapped ≡ count x s.swapped)
  pub was_queued : count y s.waiting + count y s.swapped ≡ 1
  pub left : (count y s'.waiting ≡ 0) × (count y s'.swapped ≡ 0)

module _ (y cached : ℕ) (bs : List ℕ) (t : BlockTable) (s s' : Scheduler) (h : Ready s)
    (a : Allocated y
      (need s y)
      (total_len (s.sequences y))
      bs
      s.block_manager
      t
      cached
      s'.block_manager)
    (j : Joins y s s') where
  pub joined-Ready : Ready s'
  joined-Ready =
      let p = h.places y in
      IsReady-update y h a.valid (a.sealable h.sealable) j.touches
        (λ x ne.
          let (w, q) = j.queues x ne in
          (w, rw j.running (ground (arith, count-append x s.running (y ∷ []))), q))
        (record {
          once =
              rw j.running
                (ground (arith, count-append y s.running (y ∷ []), j.left, p.once, j.was_queued));
          table = λ c. (
            t,
            a.stored,
            a.table_size ∙ sym a.size,
            λ st. a.exact ∙ sym (rw (j.total, a.size) refl),
          );
          no_table = λ c.
              absurd (ground (arith, ap (count y) j.running, count-append y s.running (y ∷ [])));
          waits = λ c. absurd (omega (arith, j.left.0));
          active = λ c. inl j.status;
          parked = λ c. absurd (omega (arith, j.left.1));
          computed = λ c. j.computed;
        })
        (λ c. absurd (omega (arith, j.left.1)))

  pub joined-queued : (x : ℕ) → queued s' x ≡ queued s x
  joined-queued x = elim (ℕ_discrete x y) [
    | yes e ↦
        rw (e, j.running) (ground (arith, j.left, j.was_queued, count-append y s.running (y ∷ [])))
    | no ne ↦ rw j.running (ground (arith, j.queues x ne, count-append x s.running (y ∷ [])))
  ]

  pub joined-tokens : (x : ℕ) → tokens_of (s'.sequences x) ≡ tokens_of (s.sequences x)
  joined-tokens x = elim (ℕ_discrete x y) [
    | yes e ↦ rw e j.tokens
    | no ne ↦ ap tokens_of (j.touches.sequences x ne)
  ]

  pub joined-AllRun : AllRun s → AllRun s'
  joined-AllRun a x lt = elim (ℕ_discrete x y) [
    | yes e ↦ rw e j.status
    | no ne ↦
        ap (λ q. q.status) (j.touches.sequences x ne)
        ∙ a x (ground (arith, lt, ap (count x) j.running, count-append x s.running (y ∷ []), ne))
  ]

  -- A sequence that joins the running queue may be in the batch.
  pub joined-batch : (x : ℕ) → count x s.running + (if x == y then 1 else 0) ≤ count x s'.running
  joined-batch x = ground (arith, ap (count x) j.running, count-append x s.running (y ∷ []))

  needs-joined :
      needs_new_block s' y
      ≡ ltb (need s y) (blocks_needed s.block_manager.block_size (total_len (s.sequences y) + 1))
  unfolding needs_new_block
  needs-joined = rw (a.stored, needs_new_block) (rw (a.exact, a.size, j.total) refl)

  grows-joined : (if grows s' y then 1 else 0) ≤ growth s y
  grows-joined = elim (Bool-cases (grows s' y)) [
    | inl e ↦ rw e (ground (arith, e, needs-joined))
    | inr e ↦ rw e (omega arith)
  ]

  -- The next token of every running sequence has its block.
  pub joined-room :
      (reserve : ℕ)
      → running_growth_reserve s ≤ reserve
      → lacks_room s y reserve ≡ false
      → (running_growth_reserve s' ≤ reserve + growth s y)
        × (reserve + growth s y ≤ num_free_blocks s'.block_manager)
  unfolding running_growth_reserve growth_of
  joined-room reserve le room =
      let same : growth_of s' s.running ≡ growth_of s s.running =
        growth_of-cong s s' s.running (λ x c.
          grows-Touches y s s' j.touches x
            (λ e. absurd (ground (arith, (h.places y).once, j.was_queued, e, c)))) in
      (
        omega (
          arith,
          ap (growth_of s') j.running,
          growth_of-append s' s.running (y ∷ []),
          same,
          grows-joined,
        ),
        omega (arith, a.available, ltb-false _ _ room),
      )
