-- ===== src/Engine/Record.antt =====
-- The loop of `step` in engine.py that gives each sampled sequence its token.
use paged_serve.Prelude.{
  ℕ, ◌+◌, ◌≤◌, ◌<◌, ◌≡◌, ◌⊎◌, inl, inr, Bool-cases, ltb, refl, arith, List, [], ◌∷◌, ◌++◌, length,
  length-append, count, ◌==◌, if◌then◌else◌, ap, ok,
}
use native.Mathlib.Decide.{ℕ_discrete}
use paged_serve.Sequence.{Sequence, SequenceStatus, total_len, append_token, check_stop}
use paged_serve.Scheduler.{Scheduler, set_seq}
use paged_serve.Scheduler.Invariant.{tokens_of}
use paged_serve.Scheduler.Append.{IsStep, stepped}
use paged_serve.Engine.{record_tokens, rows_of}

-- A sequence after it got a token.
abbrev pub given : Sequence → ℕ → Sequence
given q t = (check_stop (append_token q t)).1

-- Each sequence of the list has got a token, and no other one has changed.
pub record Recorded (ids : List ℕ) (old new : ℕ → Sequence) : Type 0 where
  pub others : (x : ℕ) → count x ids ≡ 0 → new x ≡ old x
  pub got : (x : ℕ) → 0 < count x ids → (t : ℕ) × (new x ≡ given (old x) t)

abbrev first_given : (ℕ → Sequence) → ℕ → ℕ → ℕ → Sequence
first_given old y t = λ x. if x == y then given (old y) t else old x

Recorded-cons :
    (y t : ℕ) (ids : List ℕ) (old new : ℕ → Sequence)
    → count y ids ≡ 0
    → Recorded ids (first_given old y t) new
    → Recorded (y ∷ ids) old new
Recorded-cons y t ids old new once r = record {
  others = λ x c. ground (arith, r.others x, c);
  got = λ x c. elim (ℕ_discrete x y) [
    | yes e ↦ (t, ground (arith, e, r.others x, once))
    | no ne ↦ let (u, e) = r.got x (ground arith) in (u, ground (arith, e))
  ];
}

pub record_tokens-Recorded :
    (ids ts : List ℕ) (s : Scheduler)
    → length ts ≡ length ids
    → ((x : ℕ) → count x ids ≤ 1)
    → (new : ℕ → Sequence) × (record_tokens ids ts s ≡ (ok tt, stepped s new))
      × Recorded ids s.sequences new
unfolding record_tokens
record_tokens-Recorded [] [] s len once =
    (s.sequences, refl, record { others = λ x c. refl; got = λ x c. absurd (omega arith) })
record_tokens-Recorded [] (t ∷ ts) s len once = absurd (omega arith)
record_tokens-Recorded (y ∷ ids) [] s len once = absurd (omega arith)
record_tokens-Recorded (y ∷ ids) (t ∷ ts) s len once =
    let (new, e, r) =
      record_tokens-Recorded ids ts (set_seq s y (given (s.sequences y) t)) (omega arith)
        (λ x. omega (arith, once x)) in
    (new, e, Recorded-cons y t ids s.sequences new (ground (arith, once y)) r)

-- What `check_stop` does to a running sequence that got a token.
module _ (q : Sequence) (t : ℕ) where
  given-status :
      q.status ≡ SequenceStatus.running
      → ((given q t).status ≡ q.status)
        ⊎ ((q.status ≡ SequenceStatus.running) × ((given q t).status ≡ SequenceStatus.finished))
  unfolding check_stop append_token
  given-status e = ground arith

  given-total : total_len (given q t) ≡ total_len q + 1
  unfolding check_stop append_token
  given-total = ground (arith, length-append q.output_token_ids (t ∷ []))

  given-computed : (given q t).num_computed_tokens ≡ q.num_computed_tokens
  unfolding check_stop append_token
  given-computed = ground arith

  pub given-tokens : tokens_of (given q t) ≡ (q.prompt_token_ids, q.output_token_ids ++ t ∷ [])
  unfolding check_stop append_token
  given-tokens = ground arith

pub Recorded-cases :
    (ids : List ℕ) (old new : ℕ → Sequence)
    → Recorded ids old new
    → (x : ℕ) → (new x ≡ old x) ⊎ ((0 < count x ids) × ((t : ℕ) × (new x ≡ given (old x) t)))
Recorded-cases ids old new r x = elim (Bool-cases (ltb 0 (count x ids))) [
  | inl e ↦ let c : 0 < count x ids = ground arith in inr (c, r.got x c)
  | inr e ↦ inl (r.others x (ground arith))
]

pub Recorded-IsStep :
    (ids todo : List ℕ) (old new : ℕ → Sequence)
    → Recorded ids old new
    → ((x : ℕ) → count x ids ≤ count x todo)
    → ((x : ℕ) → 0 < count x ids → (old x).status ≡ SequenceStatus.running)
    → IsStep todo old new
Recorded-IsStep ids todo old new r within going = record {
  status = λ x. elim (Recorded-cases ids old new r x) [
    | inl e ↦ inl (ap (λ q. q.status) e)
    | inr (c, (t, e)) ↦ rw e (given-status (old x) t (going x c))
  ];
  grown = λ x. elim (Recorded-cases ids old new r x) [
    | inl e ↦ rw e (omega arith, omega arith)
    | inr (c, (t, e)) ↦
        rw e (omega (arith, given-total (old x) t), omega (arith, given-total (old x) t))
  ];
  settled = λ x c st. ap total_len (r.others x (omega (arith, within x)));
  computed = λ x c. elim (Recorded-cases ids old new r x) [
    | inl e ↦ rw e c
    | inr (lt, (t, e)) ↦ rw e (omega (arith, c, given-total (old x) t, given-computed (old x) t))
  ];
}

-- The sampled rows are rows of the batch.
pub count-rows_of : (x row : ℕ) (ids rows : List ℕ) → count x (rows_of row ids rows) ≤ count x ids
unfolding rows_of
count-rows_of x row [] rows = omega arith
count-rows_of x row (y ∷ ids) [] = omega arith
count-rows_of x row (y ∷ ids) (r ∷ rows) =
    ground (arith, count-rows_of x (row + 1) ids rows, count-rows_of x (row + 1) ids (r ∷ rows))
