-- ===== src/Scheduler/Requests.antt =====
-- `add_request` of scheduler.py.
use paged_serve.Prelude.{ℕ, ◌+◌, ◌≤◌, ◌≡◌, refl, arith, [], ◌∷◌, count-append, ◌==◌, if◌then◌else◌}
use paged_serve.Sequence.{total_len}
use paged_serve.Scheduler.Invariant.{Ready, IsReady-update, queued}
use paged_serve.Scheduler.{Scheduler, add_request}

-- On a scheduler that satisfies the invariant, `add_request` of an id that is in no queue and
-- whose computed tokens it has, keeps the invariant and adds that id, once, to the queues.
pub add_request-Ready :
    (id : ℕ) (s : Scheduler)
    → Ready s
    → queued s id ≡ 0
    → (s.sequences id).num_computed_tokens ≤ total_len (s.sequences id)
    → Ready (add_request s id)
      × ((x : ℕ) → queued (add_request s id) x ≡ queued s x + (if x == id then 1 else 0))
unfolding add_request
add_request-Ready id s h absent fresh =
    let p = h.places id in
    (
      IsReady-update id h h.manager h.sealable
          (record {
            size = refl;
            config = refl;
            policy = refl;
            space = λ e. e;
            sequences = λ x ne. ground arith;
            tables = λ x ne. refl;
          })
          (λ x ne. (ground (arith, count-append x s.waiting (id ∷ [])), refl, refl))
          (record {
            once = ground (arith, absent, count-append id s.waiting (id ∷ []));
            table = λ c. absurd (omega (arith, absent));
            no_table = p.no_table;
            waits = λ c. ground arith;
            active = λ c. absurd (omega (arith, absent));
            parked = λ c. absurd (omega (arith, absent));
            computed = λ c. ground (arith, fresh);
          })
          (λ c. absurd (omega (arith, absent))),
      λ x. ground (arith, count-append x s.waiting (id ∷ [])),
    )
