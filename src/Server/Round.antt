-- ===== src/Server/Round.antt =====
-- A round of `_run` of api.py: the step, the aborts that came during it, and the delivery.
use paged_serve.Prelude.{
  ℕ, suc, zero, ◌≤◌, ◌<◌, ◌≡◌, ◌⊎◌, inl, inr, refl, arith, true, false, List, [], ◌∷◌, ◌++◌, Option,
  some, length, count, ◌∙◌, ap, append-nil, Bool-cases, ltb,
}
use paged_serve.Sequence.{Sequence, SequenceStatus, is_terminal}
use paged_serve.Scheduler.{Scheduler}
use paged_serve.Scheduler.Invariant.{Ready, queued, tokens_of, status_of}
use paged_serve.Scheduler.Finish.{Finished}
use paged_serve.Engine.Step.{Extends}
use paged_serve.Engine.Serve.{Serves}
use paged_serve.Server.{Runner, Item, already_of, new_items}
use paged_serve.Server.Feed.{IsFed, stream, end_mark, fed-items}

-- The state of the server between two rounds.
pub record IsRunner (r : Runner) (s : Scheduler) : Type 0 where
  pub serves : Serves r.engine s
  pub idle : r.stepping ≡ false
  pub none_pending : r.pending_aborts ≡ []
  pub fed :
      (x : ℕ) → r.queues x ≡ true → IsFed (queued s x) (s.sequences x) (r.sent x) (r.delivered x)

terminal-finished : (k : SequenceStatus) → is_terminal k ≡ true → k ≡ SequenceStatus.finished
unfolding is_terminal
terminal-finished SequenceStatus.waiting e = absurd (cc)
terminal-finished SequenceStatus.running e = absurd (cc)
terminal-finished SequenceStatus.swapped e = absurd (cc)
terminal-finished SequenceStatus.finished e = refl

nothing : (n : ℕ) → (0 < n → ⊥) → n ≡ 0
nothing zero never = refl
nothing (suc n) never = absurd (never (omega arith))

-- A sequence that is finished and in no queue that runs is in no queue.
pub unqueued_of_terminal :
    (s s' : Scheduler) (ids : List ℕ) (x : ℕ)
    → Ready s
    → Finished s ids s'
    → is_terminal (s.sequences x).status ≡ true
    → queued s' x ≡ 0
unfolding is_terminal
unqueued_of_terminal s s' ids x h f e =
    let p = f.ready.places x in
    let over : status_of s' x ≡ SequenceStatus.finished =
      ap (λ g. (g x).status) f.sequences ∙ terminal-finished (status_of s x) e in
    let waiting = nothing (count x s'.waiting) (λ c. let w = p.waits c in absurd (cc)) in
    let swapped = nothing (count x s'.swapped) (λ c. let w = p.parked c in absurd (cc)) in
    let running =
      nothing (count x s'.running) (λ c. f.going x c (terminal-finished (status_of s x) e)) in
    omega (arith, waiting, swapped, running)

-- A queue of the batch has the whole output behind the delivery, and the end mark if the sequence
-- is finished.
pub round_marks :
    (ids : List ℕ) (x n : ℕ) (q q' : Sequence) (sent sent' : List Item) (delivered : Option ℕ)
    → IsFed n q sent delivered
    → Extends ids x (tokens_of q) (tokens_of q')
    → 0 < n
    → sent' ≡ sent ++ new_items q' (already_of delivered)
    → sent' ≡ stream q'.output_token_ids ++ end_mark q'
round_marks ids x n q q' sent sent' delivered f e pos more =
    let known : already_of delivered ≡ length q.output_token_ids = rw (f.counted) refl in
    let grown : (q'.output_token_ids ≡ q.output_token_ids)
        ⊎ ((t : ℕ) × (q'.output_token_ids ≡ q.output_token_ids ++ t ∷ [])) =
      elim e [ inl g ↦ inl (ap (λ p. p.1) g) | inr (_, (t, g)) ↦ inr (t, ap (λ p. p.1) g) ] in
    let before : sent ≡ stream q.output_token_ids = elim (f.items) [
      | inl g ↦ g
      | inr (g, z) ↦ absurd (omega arith)
    ] in
    more
    ∙ ap (λ k. sent ++ new_items q' k) known
    ∙ fed-items q.output_token_ids q'.output_token_ids q' sent refl before grown

-- The queue of one request before and after the delivery.
pub round-IsFed :
    (ids : List ℕ) (x n n' : ℕ) (q q' : Sequence) (sent sent' : List Item)
    (delivered delivered' : Option ℕ)
    → IsFed n q sent delivered
    → Extends ids x (tokens_of q) (tokens_of q')
    → count x ids ≤ n
    → n' ≤ n
    → (is_terminal q'.status ≡ true → n' ≡ 0)
    → (count x ids ≡ 0 → (sent' ≡ sent) × (delivered' ≡ delivered))
    → (0 < count x ids
        → (sent' ≡ sent ++ new_items q' (already_of delivered))
          × (delivered' ≡ some (length q'.output_token_ids)))
    → IsFed n' q' sent' delivered'
round-IsFed ids x n n' q q' sent sent' delivered delivered' f e batch less ended skipped fed =
    elim (Bool-cases (ltb 0 (count x ids))) [
      | inr out ↦
          let c : count x ids ≡ 0 = ground arith in
          let same : q'.output_token_ids ≡ q.output_token_ids = elim e [
            | inl g ↦ ap (λ p. p.1) g
            | inr (lt, g) ↦ absurd (omega arith)
          ] in
          let (keep, number) = skipped c in
          record {
            counted = rw same (number ∙ f.counted);
            items = elim (f.items) [
              | inl g ↦ inl (rw same (keep ∙ g))
              | inr (g, z) ↦ inr (rw same (keep ∙ g), omega (arith, z))
            ];
          }
      | inl lt ↦
          let c : 0 < count x ids = ground arith in
          let (more, number) = fed c in
          record {
            counted = number;
            items =
                let all =
                  round_marks ids x n q q' sent sent' delivered f e (omega (arith, batch)) more in
                elim (Bool-cases (is_terminal q'.status)) [
                  | inl over ↦ inr (all ∙ rw over refl, ended over)
                  | inr goes ↦ inl (all ∙ rw goes (append-nil (stream q'.output_token_ids)))
                ];
          }
    ]
