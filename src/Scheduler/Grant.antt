-- ===== src/Scheduler/Grant.antt =====
-- The loop of `schedule` of scheduler.py over the running sequences.
use paged_serve.Prelude.{
  ℕ, ◌≤◌, ◌<◌, ◌≡◌, sym, arith, ◌||◌, List, [], ◌∷◌, length-append, ltb, leb, ◌∙◌, Bool-cases, inl,
  inr,
}
use paged_serve.Sequence.{total_len, num_uncomputed_tokens}
use paged_serve.Scheduler.Invariant.{Ready, status_of, growth_of-cong}
use paged_serve.Scheduler.Fill.{
  Filled, Filled-refl, Filled-trans, Filled-weaken, prefill-batch, decode-batch,
}
use paged_serve.Scheduler.Room.{HasRoom}
use paged_serve.Scheduler.{
  Scheduler, Plan, runs, batch_size, set_scheduled, grant, grant_running, chunk, needs_new_block,
  running_growth_reserve,
}

module _ (s : Scheduler) (y tokens : ℕ) where
  same_status : (x : ℕ) → status_of (set_scheduled s y tokens) x ≡ status_of s x
  same_status x = ground arith

  same_total :
      (x : ℕ) → total_len ((set_scheduled s y tokens).sequences x) ≡ total_len (s.sequences x)
  same_total x = ground arith

  set_scheduled-Ready : Ready s → Ready (set_scheduled s y tokens)
  set_scheduled-Ready h = record {
    manager = h.manager;
    sealable = h.sealable;
    positive = h.positive;
    host = h.host;
    policy_host = h.policy_host;
    places = λ x.
        let p = h.places x in
        record {
          once = p.once;
          table = λ c.
              let (u, e, size, f) = p.table c in
              (u, e, size, λ st. rw (same_total x) (f (sym (same_status x) ∙ st)));
          no_table = p.no_table;
          waits = λ c. same_status x ∙ p.waits c;
          active = λ c. rw (same_status x) (p.active c);
          parked = λ c. same_status x ∙ p.parked c;
          computed = λ c. ground (arith, p.computed c);
        };
  }

  set_scheduled-growth :
      running_growth_reserve (set_scheduled s y tokens) ≡ running_growth_reserve s
  unfolding running_growth_reserve needs_new_block
  set_scheduled-growth =
      growth_of-cong s (set_scheduled s y tokens) s.running
        (λ x c. ground (arith, same_status x, same_total x))

grant-Filled :
    (y tokens : ℕ) (p : Plan)
    → Ready p.state
    → HasRoom p.state
    → tokens ≤ (p.budget).tokens
    → 0 < (p.budget).seqs
    → let q = grant y tokens p in Filled (y ∷ []) p.out p.budget p.state q.out q.budget q.state
unfolding batch_size
grant-Filled y tokens p h room fit seqs = record {
  ready = set_scheduled-Ready p.state y tokens h;
  kept = λ x. ground arith;
  queues = λ x. ground arith;
  batched = ground (arith, fit);
  size = ground (
    arith,
    seqs,
    length-append (p.out).prefills (y ∷ []),
    length-append (p.out).decodes (y ∷ []),
  );
  room = omega (arith, set_scheduled-growth p.state y tokens, room);
  more = λ x. ground (arith, prefill-batch x y tokens p.out, decode-batch x y tokens p.out);
  alive = λ a x lt. same_status p.state y tokens x ∙ a x lt;
  batch = λ x. ground (arith, prefill-batch x y tokens p.out, decode-batch x y tokens p.out);
}

pub grant_running-Filled :
    (ids : List ℕ) (p : Plan)
    → Ready p.state
    → HasRoom p.state
    → let q = grant_running ids p in Filled ids p.out p.budget p.state q.out q.budget q.state
unfolding grant_running
grant_running-Filled [] p h room = Filled-refl p.out p.budget p.state h room
grant_running-Filled (y ∷ ids) p h room = elim (Bool-cases (runs p.state y)) [
  | inr rests ↦
      rw (rests, grant_running)
        (Filled-weaken (λ x. omega arith) (grant_running-Filled ids p h room))
  | inl going ↦
      let tokens =
        chunk p.state.config (num_uncomputed_tokens (p.state.sequences y)) (p.budget).tokens in
      elim (Bool-cases (ltb (p.budget).tokens tokens || leb (p.budget).seqs 0)) [
        | inl stops ↦
            rw (going, stops, grant_running)
              (Filled-weaken (λ x. omega arith) (Filled-refl p.out p.budget p.state h room))
        | inr goes ↦
            let step =
              grant-Filled y tokens p h room (ground (arith, goes)) (ground (arith, goes)) in
            rw (going, goes, grant_running)
              (Filled-trans step (grant_running-Filled ids (grant y tokens p) step.ready step.room))
      ]
]
