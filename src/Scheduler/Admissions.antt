-- ===== src/Scheduler/Admissions.antt =====
-- The loop of `_admit_waiting` in scheduler.py.
use paged_serve.Prelude.{
  ℕ, ◌+◌, ◌≤◌, ◌<◌, ◌≡◌, refl, arith, true, false, List, [], ◌∷◌, length-append, count, leb,
  leb-false, ◌∙◌, ap, Bool-cases, inl, inr, ◌⊎◌, ok, ◌>>=◌, bind-ok,
}
use paged_serve.BlockManager.{AllocStatus, can_allocate}
use paged_serve.Sequence.{total_len}
use paged_serve.Scheduler.Invariant.{Ready}
use paged_serve.Scheduler.Join.{
  joined-Ready, joined-queued, joined-tokens, joined-room, joined-AllRun, joined-batch,
}
use paged_serve.Scheduler.Fill.{Filled, prefill-batch, Filled-refl, Filled-trans}
use paged_serve.Scheduler.Admit.{
  given, with_cached-tokens, admit-Joins, reject-growth, reject-Filled,
}
use paged_serve.Scheduler.Room.{HasRoom}
use paged_serve.Scheduler.{
  Scheduler, Output, Budget, spend, batch_size, scheduled, add_prefill, growth, next_tokens,
  lacks_room, can_admit, admit, reject, admit_from, admit_waiting, running_growth_reserve,
}

AllocStatus-cases :
    (a : AllocStatus)
    → (a ≡ AllocStatus.ready) ⊎ ((a ≡ AllocStatus.later) ⊎ (a ≡ AllocStatus.never))
AllocStatus-cases AllocStatus.ready = inl refl
AllocStatus-cases AllocStatus.later = inr (inl refl)
AllocStatus-cases AllocStatus.never = inr (inr refl)

can_admit-true :
    (s : Scheduler) (y reserve : ℕ) (b : Budget)
    → can_admit s y reserve b ≡ true
    → (lacks_room s y reserve ≡ false) × (next_tokens s y b ≤ b.tokens)
can_admit-true s y reserve b e = ground (arith, e)

module _ (digest : List ℕ → ℕ) where
  -- Where the loop ends, from a given point on.
  abbrev Ends : List ℕ → ℕ → Output → Budget → Scheduler → Type 0
  Ends ids reserve out b s =
      (out' : Output) × (b' : Budget) × (s' : Scheduler) × (admit_from digest ids reserve out b s
        ≡ (ok out', s'))
      × Filled [] out b s out' b' s'

  -- One round, if the rest of the queue is dealt with.
  pub admit_round :
      (y : ℕ) (rest : List ℕ) (reserve : ℕ) (out : Output) (b : Budget) (s : Scheduler)
      → Ready s
      → s.waiting ≡ y ∷ rest
      → running_growth_reserve s ≤ reserve
      → 0 < b.seqs
      → lacks_room s y reserve ≡ false
      → next_tokens s y b ≤ b.tokens
      → ((out1 : Output) (b1 : Budget) (s1 : Scheduler) (reserve1 : ℕ)
          → Ready s1
          → s1.waiting ≡ rest
          → running_growth_reserve s1 ≤ reserve1
          → HasRoom s1
          → Ends rest reserve1 out1 b1 s1)
      → (out' : Output) × (b' : Budget) × (s' : Scheduler) × ((admit digest y rest b >>= λ tokens.
              admit_from digest rest
                (reserve + growth s y)
                (add_prefill out y tokens)
                (spend b tokens))
            s
          ≡ (ok out', s'))
        × Filled [] out b s out' b' s'
        × (0 < count y (scheduled out'))
  admit_round y rest reserve out b s h first le seqs lacks fit then_ =
      let (t, cached, bs, s1, e, a, j, left) =
        admit-Joins digest y rest reserve b s h first lacks in
      let (le1, room1) = joined-room y cached bs t s s1 h a j reserve le lacks in
      let tokens = given digest y rest reserve b s h first cached in
      let step : Filled [] out b s (add_prefill out y tokens) (spend b tokens) s1 = record {
        ready = joined-Ready y cached bs t s s1 h a j;
        kept = joined-tokens y cached bs t s s1 h a j;
        queues = λ x. ap (λ n. n + count x out.finished) (joined-queued y cached bs t s s1 h a j x);
        batched = omega (arith, with_cached-tokens s y cached b fit);
        size = (unfold batch_size in omega (arith, seqs, length-append out.prefills (y ∷ [])));
        room = omega (arith, le1, room1);
        alive = joined-AllRun y cached bs t s s1 h a j;
        more = λ x. omega (arith, prefill-batch x y tokens out);
        batch = λ x.
            omega (arith, prefill-batch x y tokens out, joined-batch y cached bs t s s1 h a j x);
      } in
      let (out', b', s', f, x) =
        then_ (add_prefill out y tokens) (spend b tokens) s1 (reserve + growth s y) step.ready left
          le1 step.room in
      (
        out',
        b',
        s',
        bind-ok (admit digest y rest b)
              (λ tokens.
                admit_from digest rest (reserve + growth s y) (add_prefill out y tokens)
                  (spend b tokens))
              e
            ∙ f,
        Filled-trans step x,
        ground (arith, x.more y, prefill-batch y y tokens out),
      )

  admit_from-Filled :
      (ids : List ℕ) (reserve : ℕ) (out : Output) (b : Budget) (s : Scheduler)
      → Ready s
      → s.waiting ≡ ids
      → running_growth_reserve s ≤ reserve
      → HasRoom s
      → Ends ids reserve out b s
  unfolding admit_from
  admit_from-Filled [] reserve out b s h first le room =
      (out, b, s, refl, Filled-refl out b s h room)
  admit_from-Filled (y ∷ rest) reserve out b s h first le room = elim (Bool-cases (leb b.seqs 0)) [
    | inl spent ↦ (out, b, s, rw (spent, admit_from), Filled-refl out b s h room)
    | inr left ↦
        elim (AllocStatus-cases (can_allocate s.block_manager (total_len (s.sequences y)))) [
          | inr (inl later) ↦ (out, b, s, rw (left, later, admit_from), Filled-refl out b s h room)
          | inr (inr never) ↦
              let step = reject-Filled digest y rest reserve b s h first out room in
              let (out', b', s', f, x) =
                admit_from-Filled rest reserve _ b (reject s y rest) step.ready refl
                  (omega (arith, reject-growth digest y rest reserve b s h first)) step.room in
              (out', b', s', rw (left, never, admit_from) f, Filled-trans step x)
          | inl ready ↦ elim (Bool-cases (can_admit s y reserve b)) [
            | inr stops ↦
                (out, b, s, rw (left, ready, stops, admit_from), Filled-refl out b s h room)
            | inl goes ↦
                let (lacks, fit) = can_admit-true s y reserve b goes in
                let (out', b', s', f, x, placed) =
                  admit_round y rest reserve out b s h first le (leb-false _ _ left) lacks fit
                    (λ out1 b1 s1 reserve1 h1 first1 le1 room1.
                      admit_from-Filled rest reserve1 out1 b1 s1 h1 first1 le1 room1) in
                (out', b', s', rw (left, ready, goes, admit_from) f, x)
          ]
        ]
  ]

  pub admit_waiting-Filled :
      (out : Output) (b : Budget) (s : Scheduler)
      → Ready s
      → HasRoom s
      → (out' : Output) × (b' : Budget) × (s' : Scheduler) × (admit_waiting digest out b s
          ≡ (ok out', s'))
        × Filled [] out b s out' b' s'
  unfolding admit_waiting
  admit_waiting-Filled out b s h room =
      admit_from-Filled s.waiting (running_growth_reserve s) out b s h refl (omega arith) room

  -- The head of the queue is admitted if it passes the tests.
  pub admit_waiting_head :
      (y : ℕ) (rest : List ℕ) (out : Output) (b : Budget) (s : Scheduler)
      → Ready s
      → HasRoom s
      → s.waiting ≡ y ∷ rest
      → 0 < b.seqs
      → can_allocate s.block_manager (total_len (s.sequences y)) ≡ AllocStatus.ready
      → can_admit s y (running_growth_reserve s) b ≡ true
      → (out' : Output) × (b' : Budget) × (s' : Scheduler) × (admit_waiting digest out b s
          ≡ (ok out', s'))
        × Filled [] out b s out' b' s'
        × (0 < count y (scheduled out'))
  unfolding admit_waiting admit_from
  admit_waiting_head y rest out b s h room first seqs ready goes =
      let (lacks, fit) = can_admit-true s y (running_growth_reserve s) b goes in
      let left : leb b.seqs 0 ≡ false = ground arith in
      let (out', b', s', f, x, placed) =
        admit_round y rest (running_growth_reserve s) out b s h first (omega arith) seqs lacks fit
          (λ out1 b1 s1 reserve1 h1 first1 le1 room1.
            admit_from-Filled rest reserve1 out1 b1 s1 h1 first1 le1 room1) in
      (
        out',
        b',
        s',
        ap (λ ids. admit_from digest ids (running_growth_reserve s) out b s) first
            ∙ rw (left, ready, goes, admit_from) f,
        x,
        placed,
      )
