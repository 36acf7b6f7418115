-- ===== src/Engine/Step.antt =====
-- `step` of engine.py behind the schedule: the batch, its loops and the new block slots.
use paged_serve.Prelude.{
  ℕ, suc, ◌≤◌, ◌<◌, ◌≡◌, ◌⊎◌, inl, inr, refl, arith, List, [], ◌∷◌, ◌++◌, map, length, count, leb,
  leb-true, if◌then◌else◌, ◌∙◌, ap, ok, bind-ok, ◌>>◌, return, Bool-cases,
}
use paged_serve.Sequence.{Sequence}
use paged_serve.Scheduler
use paged_serve.Scheduler.{Scheduler, Output, scheduled, is_empty, batch_size}
use paged_serve.Scheduler.Invariant.{tokens_of, Ready, AllRun, queued}
use paged_serve.Scheduler.Room.{HasRoom}
use paged_serve.Scheduler.Append.{IsStep}
use paged_serve.Scheduler.Growing.{append_slots-Ready}
use paged_serve.Engine.{RaggedBatch, assemble, advance, record_tokens, rows_of, run_batch}
use paged_serve.Engine.Batch.{query_lens_of, assemble-IsRagged}
use paged_serve.Engine.Advance.{Advanced, advance-Advanced}
use paged_serve.Engine.Record.{
  Recorded, Recorded-cases, Recorded-IsStep, record_tokens-Recorded, count-rows_of, given-tokens,
}

length-map : {A : Type 0} (f : ℕ → A) (ids : List ℕ) → length (map f ids) ≡ length ids
length-map f [] = refl
length-map f (x ∷ ids) = ap suc (length-map f ids)

abbrev pub with_token : List ℕ × List ℕ → ℕ → List ℕ × List ℕ
with_token p t = (p.0, p.1 ++ t ∷ [])

-- Tokens after a step: as before, or one more at the end for a sequence of the batch.
abbrev pub Extends : List ℕ → ℕ → List ℕ × List ℕ → List ℕ × List ℕ → Type 0
Extends batch x old new = (new ≡ old) ⊎ ((0 < count x batch) × ((t : ℕ) × (new ≡ with_token old t)))

-- What the part of a step behind the schedule promises.
pub record Ran (out : Output) (s s' : Scheduler) : Type 0 where
  pub ready : Ready s'
  pub tokens :
      (x : ℕ) → Extends (scheduled out) x (tokens_of (s.sequences x)) (tokens_of (s'.sequences x))
  pub queues : (x : ℕ) → queued s' x ≡ queued s x

-- The loops of a step, for sampled rows and their tokens.
module _ (digest : List ℕ → ℕ) (out : Output) (completing tokens : List ℕ) (s : Scheduler)
    (h : Ready s) (room : HasRoom s) (alive : AllRun s)
    (within : (x : ℕ) → count x (scheduled out) ≤ count x s.running)
    (rows : (x : ℕ) → count x completing ≤ count x (scheduled out))
    (one_each : length tokens ≡ length completing) where
  loops-tokens :
      (s1 s' : Scheduler) (new : ℕ → Sequence)
      → Advanced s s1
      → Recorded completing s1.sequences new
      → s'.sequences ≡ new
      → (x : ℕ) → Extends (scheduled out) x (tokens_of (s.sequences x)) (tokens_of (s'.sequences x))
  loops-tokens s1 s' new a r e x =
      let final : tokens_of (s'.sequences x) ≡ tokens_of (new x) = ap (λ f. tokens_of (f x)) e in
      elim (Recorded-cases completing s1.sequences new r x) [
        | inl f ↦ inl (final ∙ ap tokens_of f ∙ a.tokens x)
        | inr (c, (t, f)) ↦ inr (
          omega (arith, rows x),
          (
            t,
            final
                ∙ ap tokens_of f
                ∙ given-tokens (s1.sequences x) t
                ∙ ap (λ p. with_token p t) (a.tokens x),
          ),
        )
      ]

  loops-Ran :
      (s' : Scheduler) × ((advance digest (scheduled out) (query_lens_of s (scheduled out))
            >> record_tokens completing tokens
            >> Scheduler.append_slots (scheduled out)
            >> return out)
          s
        ≡ (ok out, s'))
      × Ran out s s'
  loops-Ran =
      let ids = scheduled out in
      let (s1, f, a) = advance-Advanced digest ids s h within in
      let (new, g, r) =
        record_tokens-Recorded completing tokens s1 one_each
          (λ x. omega (arith, rows x, within x, (h.places x).once)) in
      let k : IsStep ids s1.sequences new =
        Recorded-IsStep completing ids s1.sequences new r rows
          (λ x c. a.status x ∙ alive x (omega (arith, rows x, within x))) in
      let (s', e, ready, same, queues) =
        append_slots-Ready ids new s1 a.ready (a.room room) k
          (λ x. rw a.running (omega (arith, within x))) in
      let first = advance digest ids (query_lens_of s ids) in
      let second = record_tokens completing tokens in
      let third = Scheduler.append_slots ids in
      (
        s',
        bind-ok (first >> second >> third) (λ _. return out)
            (bind-ok (first >> second) (λ _. third) (bind-ok first (λ _. second) {s = s} f ∙ g)
              ∙ e),
        record {
          ready = ready;
          tokens = loops-tokens s1 s' new a r same;
          queues = λ x. ground (
            arith,
            ap (count x) queues.waiting,
            ap (count x) queues.running,
            ap (count x) queues.swapped,
            ap (count x) a.waiting,
            ap (count x) a.running,
            ap (count x) a.swapped,
          );
        },
      )

module _ (digest : List ℕ → ℕ) (sample : RaggedBatch → List Sequence → List ℕ)
    (one_each : (b : RaggedBatch) (qs : List Sequence) → length (sample b qs) ≡ length qs) where
  -- One token for each sampled row, also if there is none.
  sampled_length :
      (b : RaggedBatch) (s : Scheduler) (ids : List ℕ)
      → length (if leb (length ids) 0 then [] else sample b (map s.sequences ids)) ≡ length ids
  sampled_length b s ids = elim (Bool-cases (leb (length ids) 0)) [
    | inl e ↦ rw e (omega (arith, leb-true _ _ e))
    | inr e ↦ rw e (one_each b (map s.sequences ids) ∙ length-map s.sequences ids)
  ]

  pub run_batch-Ran :
      (out : Output) (s : Scheduler)
      → Ready s
      → HasRoom s
      → AllRun s
      → ((x : ℕ) → count x (scheduled out) ≤ count x s.running)
      → 0 < length (scheduled out)
      → (s' : Scheduler) × (run_batch digest sample out s ≡ (ok out, s')) × Ran out s s'
  unfolding run_batch
  run_batch-Ran out s h room alive within nonempty =
      let ids = scheduled out in
      let (b, e, r, len, lens) = assemble-IsRagged s h ids nonempty (λ x c. record {
        queued_up = omega (arith, within x);
        runs_now = alive x (omega (arith, within x));
        computed = (h.places x).computed (omega (arith, within x));
      }) in
      let completing = rows_of 0 ids b.sample_rows in
      let tokens =
        (if leb (length completing) 0 then [] else sample b (map s.sequences completing)) in
      let counts : length tokens ≡ length completing = sampled_length b s completing in
      let (s', f, x) =
        loops-Ran digest out completing tokens s h room alive within
          (λ x. count-rows_of x 0 ids b.sample_rows) counts in
      (
        s',
        bind-ok (assemble ids) _ {s = s} e
            ∙ ap
                (λ l.
                  (advance digest ids l
                      >> record_tokens completing tokens
                      >> Scheduler.append_slots ids
                      >> return out)
                    s)
                lens
            ∙ f,
        x,
      )
