-- ===== src/Scheduler/Admit.antt =====
-- One round of `_admit_waiting` of scheduler.py: a request is admitted, or rejected.
use paged_serve.Prelude.{
  ℕ, ◌≤◌, ◌≡◌, refl, arith, false, List, [], ◌∷◌, ◌++◌, some, count, count-append, ltb-false, ap,
  ok,
}
use paged_serve.Block.{BlockTable}
use paged_serve.BlockManager.{BlockManager}
use paged_serve.BlockManager.Allocate.{Allocated, allocate-Allocated}
use paged_serve.Sequence.{total_len, all_token_ids, num_uncomputed_tokens}
use paged_serve.Scheduler.Invariant.{Ready, IsReady-update, need, growth_of-cong, grows-Touches}
use paged_serve.Scheduler.Join.{Joins}
use paged_serve.Scheduler.Fill.{Filled}
use paged_serve.Scheduler.Room.{HasRoom}
use paged_serve.Scheduler.{
  Scheduler, Output, Budget, batch_size, next_tokens, lacks_room, with_cached, admitted, admit,
  reject, running_growth_reserve, chunk, set_seq,
}

-- Fewer tokens left to compute, fewer tokens scheduled.
pub with_cached-tokens :
    (s : Scheduler) (y cached : ℕ) (b : Budget)
    → next_tokens s y b ≤ b.tokens
    → chunk s.config (num_uncomputed_tokens (with_cached (s.sequences y) cached)) b.tokens
      ≤ b.tokens
unfolding chunk
with_cached-tokens s y cached b h = ground (arith, h)

module _ (digest : List ℕ → ℕ) (y : ℕ) (rest : List ℕ) (reserve : ℕ) (b : Budget) (s : Scheduler)
    (h : Ready s) (first : s.waiting ≡ y ∷ rest) where
  in_waiting :
      (count y s.waiting ≡ 1)
      × (count y s.running ≡ 0)
      × (count y s.swapped ≡ 0)
      × (count y rest ≡ 0)
  in_waiting =
      let p = h.places y in
      let c = ap (count y) first in
      (
        ground (arith, p.once, c),
        ground (arith, p.once, c),
        ground (arith, p.once, c),
        ground (arith, p.once, c),
      )

  abbrev pub given : ℕ → ℕ
  given cached =
      chunk s.config (num_uncomputed_tokens (with_cached (s.sequences y) cached)) b.tokens

  abbrev admitted_state : ℕ → BlockManager → Scheduler
  admitted_state cached n =
      record (set_seq (record s { waiting = rest; block_manager = n }) y
        (admitted (s.sequences y) cached (given cached))) { running = s.running ++ y ∷ [] }

  admitted-Joins :
      (t : BlockTable) (cached : ℕ) (bs : List ℕ) (n : BlockManager)
      → Allocated y (need s y) (total_len (s.sequences y)) bs s.block_manager t cached n
      → Joins y s (admitted_state cached n)
  admitted-Joins t cached bs n a = record {
    touches = record {
      size = a.size;
      config = refl;
      policy = refl;
      space = λ e. e;
      sequences = λ x ne. ground arith;
      tables = λ x ne. a.others x ne;
    };
    running = refl;
    status = ground arith;
    tokens = ground arith;
    total = ground arith;
    computed = ground (arith, a.reused, (h.places y).computed (omega (arith, in_waiting)));
    queues = λ x ne. (ground (arith, ap (count x) first), refl);
    was_queued = omega (arith, in_waiting);
    left = (in_waiting.3, in_waiting.2);
  }

  pub admit-Joins :
      lacks_room s y reserve ≡ false
      → (t : BlockTable) × (cached : ℕ) × (bs : List ℕ) × (s' : Scheduler) × (admit digest y rest b
            s
          ≡ (ok (given cached), s'))
        × Allocated y
            (need s y)
            (total_len (s.sequences y))
            bs
            s.block_manager
            t
            cached
            s'.block_manager
        × Joins y s s'
        × (s'.waiting ≡ rest)
  unfolding admit
  admit-Joins room =
      let (t, cached, n, e, a) =
        allocate-Allocated digest y (total_len (s.sequences y))
          (some (all_token_ids (s.sequences y))) s.block_manager h.manager h.positive
          ((h.places y).no_table in_waiting.1) (omega (arith, ltb-false _ _ room)) in
      (t, cached, _, admitted_state cached n, rw e refl, a, admitted-Joins t cached _ n a, refl)

  -- A rejected request leaves the queues.
  reject-Ready : Ready (reject s y rest)
  reject-Ready =
      let p = h.places y in
      IsReady-update y h h.manager h.sealable
        (record {
          size = refl;
          config = refl;
          policy = refl;
          space = λ e. e;
          sequences = λ x ne. ground arith;
          tables = λ x ne. refl;
        })
        (λ x ne. (ground (arith, ap (count x) first), refl, refl))
        (record {
          once = omega (arith, in_waiting);
          table = λ c. absurd (omega (arith, in_waiting));
          no_table = p.no_table;
          waits = λ c. absurd (omega (arith, in_waiting));
          active = λ c. absurd (omega (arith, in_waiting));
          parked = λ c. absurd (omega (arith, in_waiting));
          computed = λ c. absurd (omega (arith, in_waiting));
        })
        (λ c. absurd (omega (arith, in_waiting)))

  pub reject-growth : running_growth_reserve (reject s y rest) ≡ running_growth_reserve s
  unfolding running_growth_reserve
  reject-growth = growth_of-cong s (reject s y rest) s.running (λ x c.
      grows-Touches y s (reject s y rest)
        (record {
          size = refl;
          config = refl;
          policy = refl;
          space = λ e. e;
          sequences = λ x ne. ground arith;
          tables = λ x ne. refl;
        })
        x (λ e. absurd (ground (arith, in_waiting, e, c))))

  pub reject-Filled :
      (out : Output)
      → HasRoom s
      → Filled [] out b s (record out { finished = out.finished ++ y ∷ [] }) b (reject s y rest)
  reject-Filled out room = record {
    ready = reject-Ready;
    kept = λ x. ground arith;
    queues = λ x. ground (arith, ap (count x) first, count-append x out.finished (y ∷ []));
    batched = omega arith;
    size = (unfold batch_size in omega arith);
    room = omega (arith, reject-growth, room);
    more = λ x. omega arith;
    alive = λ a x lt. ground (arith, a x, lt, in_waiting);
    batch = λ x. omega arith;
  }
