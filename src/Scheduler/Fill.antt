-- ===== src/Scheduler/Fill.antt =====
-- The loop of `_resume_swapped` in scheduler.py, and what it shares with that of `_admit_waiting`.
use paged_serve.Prelude.{
  ℕ, ◌+◌, ◌≤◌, ◌<◌, ◌≡◌, refl, arith, true, false, List, [], ◌∷◌, ◌++◌, length, length-append,
  count, count-append, ◌==◌, if◌then◌else◌, ◌∙◌, ap, Bool-cases, inl, inr, ok, bind-ok,
}
use paged_serve.Scheduler.Invariant.{tokens_of, Ready, AllRun, need, queued}
use paged_serve.Scheduler.Join.{
  joined-Ready, joined-queued, joined-tokens, joined-room, joined-AllRun, joined-batch,
}
use paged_serve.Scheduler.Resume.{resume-Joins}
use paged_serve.Scheduler.Room.{HasRoom}
use paged_serve.Scheduler.{
  Scheduler, Output, Budget, spend, batch_size, scheduled, add_prefill, add_decode, growth,
  next_tokens, parked_blocks, lacks_room, can_resume, resume, resume_from, resume_swapped,
  running_growth_reserve,
}

-- What a part of `schedule` that spends a budget promises: no sequence or token is lost, and what it
-- adds to the batch it takes from the budget, and from `claims` or the sequences that it lets run.
pub record Filled (claims : List ℕ) (out : Output) (b : Budget) (s : Scheduler) (out' : Output)
    (b' : Budget) (s' : Scheduler) : Type 0 where
  pub ready : Ready s'
  pub kept : (x : ℕ) → tokens_of (s'.sequences x) ≡ tokens_of (s.sequences x)
  pub queues : (x : ℕ) → queued s' x + count x out'.finished ≡ queued s x + count x out.finished
  pub batched : out'.num_batched_tokens + b'.tokens ≤ out.num_batched_tokens + b.tokens
  pub size : batch_size out' + b'.seqs ≤ batch_size out + b.seqs
  pub room : HasRoom s'
  pub alive : AllRun s → AllRun s'
  -- What is in the batch stays there.
  pub more : (x : ℕ) → count x (scheduled out) ≤ count x (scheduled out')
  pub batch :
      (x : ℕ)
      → count x (scheduled out') + count x s.running
        ≤ count x (scheduled out) + count x s'.running + count x claims

pub Filled-refl :
    (out : Output) (b : Budget) (s : Scheduler) → Ready s → HasRoom s → Filled [] out b s out b s
Filled-refl out b s h room = record {
  ready = h;
  kept = λ x. refl;
  queues = λ x. refl;
  batched = omega arith;
  size = omega arith;
  room = room;
  alive = λ a. a;
  more = λ x. omega arith;
  batch = λ x. omega arith;
}

pub Filled-trans :
    {l l' : List ℕ} {o o' o'' : Output} {b b' b'' : Budget} {s s' s'' : Scheduler}
    → Filled l o b s o' b' s'
    → Filled l' o' b' s' o'' b'' s''
    → Filled (l ++ l') o b s o'' b'' s''
Filled-trans {l} {l'} h k = record {
  ready = k.ready;
  kept = λ x. k.kept x ∙ h.kept x;
  queues = λ x. k.queues x ∙ h.queues x;
  batched = omega (arith, h.batched, k.batched);
  size = omega (arith, h.size, k.size);
  room = k.room;
  alive = λ a. k.alive (h.alive a);
  more = λ x. omega (arith, h.more x, k.more x);
  batch = λ x. omega (arith, h.batch x, k.batch x, count-append x l l');
}

pub Filled-weaken :
    {l l' : List ℕ} {o o' : Output} {b b' : Budget} {s s' : Scheduler}
    → ((x : ℕ) → count x l ≤ count x l')
    → Filled l o b s o' b' s'
    → Filled l' o b s o' b' s'
Filled-weaken le h = record {
  ready = h.ready;
  kept = h.kept;
  queues = h.queues;
  batched = h.batched;
  size = h.size;
  room = h.room;
  alive = h.alive;
  more = h.more;
  batch = λ x. omega (arith, le x, h.batch x);
}

-- A sequence that is added to the batch, in either list.
pub prefill-batch :
    (x y tokens : ℕ) (out : Output)
    → count x (scheduled (add_prefill out y tokens))
      ≡ count x (scheduled out) + (if x == y then 1 else 0)
prefill-batch x y tokens out = ground (
  arith,
  count-append x (out.prefills ++ y ∷ []) out.decodes,
  count-append x out.prefills (y ∷ []),
  count-append x out.prefills out.decodes,
)

pub decode-batch :
    (x y tokens : ℕ) (out : Output)
    → count x (scheduled (add_decode out y tokens))
      ≡ count x (scheduled out) + (if x == y then 1 else 0)
decode-batch x y tokens out = ground (
  arith,
  count-append x out.prefills (out.decodes ++ y ∷ []),
  count-append x out.decodes (y ∷ []),
  count-append x out.prefills out.decodes,
)

can_resume-true :
    (s : Scheduler) (y reserve : ℕ) (b : Budget)
    → can_resume s y reserve b ≡ true
    → (0 < b.seqs)
      × (lacks_room s y reserve ≡ false)
      × (length (parked_blocks s y) ≤ need s y)
      × (next_tokens s y b ≤ b.tokens)
can_resume-true s y reserve b e = ground (arith, e)

module _ (digest : List ℕ → ℕ) where
  pub resume_from-Filled :
      (ids : List ℕ) (reserve : ℕ) (out : Output) (b : Budget) (s : Scheduler)
      → Ready s
      → s.swapped ≡ ids
      → running_growth_reserve s ≤ reserve
      → HasRoom s
      → (out' : Output) × (b' : Budget) × (s' : Scheduler) × (resume_from digest ids reserve out b s
          ≡ (ok (out', b'), s'))
        × Filled [] out b s out' b' s'
  unfolding resume_from
  resume_from-Filled [] reserve out b s h first le room =
      (out, b, s, refl, Filled-refl out b s h room)
  resume_from-Filled (y ∷ rest) reserve out b s h first le room =
      elim (Bool-cases (can_resume s y reserve b)) [
        | inr stops ↦ (out, b, s, rw (stops, resume_from), Filled-refl out b s h room)
        | inl goes ↦
            let (seqs, lacks, fits, tokens_fit) = can_resume-true s y reserve b goes in
            let tokens = next_tokens s y b in
            let (t, cached, bs, s1, e, a, j, left) =
              resume-Joins digest y rest tokens reserve s h first lacks fits in
            let (le1, room1) = joined-room y cached bs t s s1 h a j reserve le lacks in
            let step : Filled [] out b s (add_decode out y tokens) (spend b tokens) s1 = record {
              ready = joined-Ready y cached bs t s s1 h a j;
              kept = joined-tokens y cached bs t s s1 h a j;
              queues = λ x.
                  ap (λ n. n + count x out.finished) (joined-queued y cached bs t s s1 h a j x);
              batched = omega (arith, tokens_fit);
              size = (unfold batch_size in omega (arith, seqs, length-append out.decodes (y ∷ [])));
              room = omega (arith, le1, room1);
              alive = joined-AllRun y cached bs t s s1 h a j;
              more = λ x. omega (arith, decode-batch x y tokens out);
              batch = λ x.
                  omega
                    (arith, decode-batch x y tokens out, joined-batch y cached bs t s s1 h a j x);
            } in
            let (out', b', s', f, x) =
              resume_from-Filled rest (reserve + growth s y) (add_decode out y tokens)
                (spend b tokens) s1 (joined-Ready y cached bs t s s1 h a j) left le1
                (omega (arith, le1, room1)) in
            (
              out',
              b',
              s',
              rw (goes, resume_from)
                  (bind-ok (resume digest y rest tokens)
                      (λ _.
                        resume_from digest rest (reserve + growth s y) (add_decode out y tokens)
                          (spend b tokens))
                      e
                    ∙ f),
              Filled-trans step x,
            )
      ]

  pub resume_swapped-Filled :
      (out : Output) (b : Budget) (s : Scheduler)
      → Ready s
      → HasRoom s
      → (out' : Output) × (b' : Budget) × (s' : Scheduler) × (resume_swapped digest out b s
          ≡ (ok (out', b'), s'))
        × Filled [] out b s out' b' s'
  unfolding resume_swapped
  resume_swapped-Filled out b s h room =
      resume_from-Filled s.swapped (running_growth_reserve s) out b s h refl (omega arith) room
