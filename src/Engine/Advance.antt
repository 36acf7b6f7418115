-- ===== src/Engine/Advance.antt =====
-- The loop of `step` in engine.py that counts the computed tokens of a batch and seals its blocks.
use paged_serve.Prelude.{
  ℕ, ◌+◌, ◌≤◌, ◌<◌, ◌≡◌, ◌≢◌, refl, arith, List, [], ◌∷◌, count, ◌∙◌, ap, ok, bind-ok,
}
use paged_serve.Block.{BlockTable}
use paged_serve.BlockManager
use paged_serve.BlockManager.{BlockManager, num_free_blocks, chain_of}
use paged_serve.BlockManager.Seal.{Sealed}
use paged_serve.BlockManager.Sealing.{seal-Sealed}
use paged_serve.BlockManager.Sealable.{Sealable}
use paged_serve.Sequence.{Sequence, total_len, all_token_ids}
use paged_serve.Scheduler.{Scheduler, on_manager, set_seq, running_growth_reserve, needs_new_block}
use paged_serve.Scheduler.Invariant.{tokens_of, Ready, IsReady-update, status_of, growth_of-cong}
use paged_serve.Scheduler.Room.{HasRoom}
use paged_serve.Engine.{query_len_of, advance}
use paged_serve.Engine.Batch.{query_lens_of, query_len_of-le}

-- What the loop promises: no queue, table or token changes.
pub record Advanced (s s' : Scheduler) : Type 0 where
  pub ready : Ready s'
  pub waiting : s'.waiting ≡ s.waiting
  pub running : s'.running ≡ s.running
  pub swapped : s'.swapped ≡ s.swapped
  pub config : s'.config ≡ s.config
  pub status : (x : ℕ) → status_of s' x ≡ status_of s x
  pub total : (x : ℕ) → total_len (s'.sequences x) ≡ total_len (s.sequences x)
  pub tokens : (x : ℕ) → tokens_of (s'.sequences x) ≡ tokens_of (s.sequences x)
  pub room : HasRoom s → HasRoom s'

pub Advanced-refl : (s : Scheduler) → Ready s → Advanced s s
Advanced-refl s h = record {
  ready = h;
  waiting = refl;
  running = refl;
  swapped = refl;
  config = refl;
  status = λ x. refl;
  total = λ x. refl;
  tokens = λ x. refl;
  room = λ r. r;
}

pub Advanced-trans : {s s' s'' : Scheduler} → Advanced s s' → Advanced s' s'' → Advanced s s''
Advanced-trans h k = record {
  ready = k.ready;
  waiting = k.waiting ∙ h.waiting;
  running = k.running ∙ h.running;
  swapped = k.swapped ∙ h.swapped;
  config = k.config ∙ h.config;
  status = λ x. k.status x ∙ h.status x;
  total = λ x. k.total x ∙ h.total x;
  tokens = λ x. k.tokens x ∙ h.tokens x;
  room = λ r. k.room (h.room r);
}

-- The sequence after its row has run.
abbrev ran : Sequence → Sequence
ran q = record q {
  num_computed_tokens = q.num_computed_tokens + query_len_of q;
  num_scheduled_tokens = 0;
}

module _ (digest : List ℕ → ℕ) (y : ℕ) (s : Scheduler) (h : Ready s)
    (going : 0 < count y s.running) where
  abbrev counted : Scheduler
  counted = set_seq s y (ran (s.sequences y))

  abbrev sealed : BlockManager → Scheduler
  sealed o = record counted { block_manager = o }

  sealed-Advanced :
      (o : BlockManager) {k i n : ℕ} {t : BlockTable}
      → Sealed k i n t s.block_manager o
      → Sealable o
      → Advanced s (sealed o)
  unfolding running_growth_reserve
  sealed-Advanced o f own =
      let p = h.places y in
      record {
        ready =
            IsReady-update y h f.valid own
              (record {
                size = f.size;
                config = refl;
                policy = refl;
                space = λ e. e;
                sequences = λ x ne. ground arith;
                tables = λ x ne. ground (arith, f.tables);
              })
              (λ x ne. (refl, refl, refl))
              (record {
                once = p.once;
                table = λ c.
                    let (u, e, size, len) = p.table c in
                    (
                      u,
                      ground (arith, f.tables),
                      ground (arith, f.size),
                      λ st. ground (arith, len, f.size),
                    );
                no_table = λ c. absurd (omega arith);
                waits = λ c. absurd (omega (arith, p.once));
                active = λ c. ground (arith, p.active c);
                parked = λ c. absurd (omega (arith, p.once));
                computed = λ c. ground (arith, query_len_of-le (s.sequences y) (p.computed c));
              })
              (λ c. absurd (omega (arith, p.once)));
        waiting = refl;
        running = refl;
        swapped = refl;
        config = refl;
        status = λ x. ground arith;
        total = λ x. ground arith;
        tokens = λ x. ground arith;
        room = λ r. omega (
          arith,
          r,
          f.available,
          growth_of-cong s (sealed o) s.running
              (λ x c. unfold needs_new_block in ground (arith, f.tables, f.size)),
        );
      }

  round-Advanced :
      (s' : Scheduler) × (on_manager
          (BlockManager.seal digest y
            (all_token_ids (ran (s.sequences y)))
            (ran (s.sequences y)).num_computed_tokens)
          counted
        ≡ (ok tt, s'))
      × Advanced s s'
      × ((x : ℕ) → x ≢ y → s'.sequences x ≡ s.sequences x)
  round-Advanced =
      let (t, e, size, len) = (h.places y).table going in
      let (o, f, x, own) =
        seal-Sealed digest y t (all_token_ids (ran (s.sequences y)))
          (ran (s.sequences y)).num_computed_tokens s.block_manager h.manager e h.sealable in
      (
        sealed o,
        ap (λ r. (r.0, record counted { block_manager = r.1 })) f,
        sealed-Advanced o x own,
        λ x ne. ground arith,
      )

query_lens_of-cong :
    (s s' : Scheduler) (ids : List ℕ)
    → ((x : ℕ) → 0 < count x ids → s'.sequences x ≡ s.sequences x)
    → query_lens_of s ids ≡ query_lens_of s' ids
query_lens_of-cong s s' [] e = refl
query_lens_of-cong s s' (x ∷ ids) e =
    let here = e x (ground arith) in
    let rest = query_lens_of-cong s s' ids (λ z c. e z (omega arith)) in rw (here, rest) refl

module _ (digest : List ℕ → ℕ) where
  pub advance-Advanced :
      (ids : List ℕ) (s : Scheduler)
      → Ready s
      → ((x : ℕ) → count x ids ≤ count x s.running)
      → (s' : Scheduler) × (advance digest ids (query_lens_of s ids) s ≡ (ok tt, s'))
        × Advanced s s'
  unfolding advance
  advance-Advanced [] s h within = (s, refl, Advanced-refl s h)
  advance-Advanced (y ∷ ids) s h within =
      let going : 0 < count y s.running = ground (arith, within y) in
      let (s1, e1, a1, others) = round-Advanced digest y s h going in
      let same : query_lens_of s ids ≡ query_lens_of s1 ids =
        query_lens_of-cong s s1 ids
          (λ x c. others x (λ f. absurd (ground (arith, f, c, within y, (h.places y).once)))) in
      let (s2, e2, a2) =
        advance-Advanced ids s1 a1.ready (λ x. rw a1.running (omega (arith, within x))) in
      (
        s2,
        bind-ok
              (on_manager (
                BlockManager.seal digest y (all_token_ids (ran (s.sequences y)))
                  (ran (s.sequences y)).num_computed_tokens))
              (λ _. advance digest ids (query_lens_of s ids)) e1
            ∙ ap (λ l. advance digest ids l s1) same
            ∙ e2,
        Advanced-trans a1 a2,
      )
