-- ===== src/Scheduler/Finish.antt =====
-- `free_finished` of scheduler.py.
use paged_serve.Prelude.{
  ℕ, ◌+◌, ◌<◌, ◌≡◌, ◌≢◌, ◌⊎◌, refl, sym, arith, true, false, Bool, List, [], ◌∷◌, count, ◌∙◌, ap,
  ok, bind-ok, if◌then◌else◌, inl, inr,
}
use native.Mathlib.Decide.{ℕ_discrete}
use paged_serve.BlockManager
use paged_serve.BlockManager.{BlockManager}
use paged_serve.BlockManager.Release.{free-Freed}
use paged_serve.Sequence.{SequenceStatus}
use paged_serve.Scheduler.Invariant.{Ready, IsReady-count, status_of}
use paged_serve.Scheduler.Retire.{Mid, Freed-Mid, still-IsReady, with_manager}
use paged_serve.Scheduler.{Scheduler, on_manager, finished_is, free_each, free_finished}

-- `finished_is` on a sequence of a given status.
finished_is-cons :
    (b : Bool) (s : Scheduler) (y : ℕ) (ids : List ℕ)
    → ((status_of s y ≡ SequenceStatus.finished)
        × (finished_is b s (y ∷ ids)
            ≡ (if b then y ∷ finished_is b s ids else finished_is b s ids)))
      ⊎ ((status_of s y ≢ SequenceStatus.finished)
          × (finished_is b s (y ∷ ids)
              ≡ (if b then finished_is b s ids else y ∷ finished_is b s ids)))
unfolding finished_is
finished_is-cons b s y ids = by_status (status_of s y) refl
  where
    by_status :
        (k : SequenceStatus)
        → status_of s y ≡ k
        → ((status_of s y ≡ SequenceStatus.finished)
            × (finished_is b s (y ∷ ids)
                ≡ (if b then y ∷ finished_is b s ids else finished_is b s ids)))
          ⊎ ((status_of s y ≢ SequenceStatus.finished)
              × (finished_is b s (y ∷ ids)
                  ≡ (if b then finished_is b s ids else y ∷ finished_is b s ids)))
    by_status SequenceStatus.waiting e = inr (λ f. cc, rw (e, finished_is) refl)
    by_status SequenceStatus.running e = inr (λ f. cc, rw (e, finished_is) refl)
    by_status SequenceStatus.swapped e = inr (λ f. cc, rw (e, finished_is) refl)
    by_status SequenceStatus.finished e = inl (e, rw (e, finished_is) refl)

count-finished_is :
    (x : ℕ) (s : Scheduler) (ids : List ℕ)
    → count x (finished_is true s ids) + count x (finished_is false s ids) ≡ count x ids
unfolding finished_is
count-finished_is x s [] = refl
count-finished_is x s (y ∷ ids) =
    let rest = count-finished_is x s ids in
    elim (finished_is-cons true s y ids) [
      | inl (e, f) ↦ elim (finished_is-cons false s y ids) [
        | inl (_, g) ↦ rw (f, g) (omega (arith, rest))
        | inr (ne, _) ↦ absurd (ne e)
      ]
      | inr (ne, f) ↦ elim (finished_is-cons false s y ids) [
        | inl (e, _) ↦ absurd (ne e)
        | inr (_, g) ↦ rw (f, g) (omega (arith, rest))
      ]
    ]

-- The lists hold the sequences of their status only.
finished-status :
    (x : ℕ) (s : Scheduler) (ids : List ℕ)
    → 0 < count x (finished_is true s ids)
    → status_of s x ≡ SequenceStatus.finished
unfolding finished_is
finished-status x s [] c = absurd (omega arith)
finished-status x s (y ∷ ids) c = elim (finished_is-cons true s y ids) [
  | inl (e, f) ↦ elim (ℕ_discrete x y) [
    | yes same ↦ rw same e
    | no ne ↦ finished-status x s ids (ground (arith, c, ap (count x) f, ne))
  ]
  | inr (ne, f) ↦ finished-status x s ids (omega (arith, c, ap (count x) f))
]

unfinished-status :
    (x : ℕ) (s : Scheduler) (ids : List ℕ)
    → 0 < count x (finished_is false s ids)
    → status_of s x ≢ SequenceStatus.finished
unfolding finished_is
unfinished-status x s [] c = absurd (omega arith)
unfinished-status x s (y ∷ ids) c = elim (finished_is-cons false s y ids) [
  | inr (e, f) ↦ elim (ℕ_discrete x y) [
    | yes same ↦ λ z. e (ap (status_of s) (sym same) ∙ z)
    | no ne ↦ unfinished-status x s ids (ground (arith, c, ap (count x) f, ne))
  ]
  | inl (e, f) ↦ unfinished-status x s ids (omega (arith, c, ap (count x) f))
]

free_each-Mid :
    (ids still : List ℕ) (s : Scheduler)
    → Mid ids still s
    → (n : BlockManager) × (free_each ids s ≡ (ok tt, with_manager s n))
      × Mid [] still (with_manager s n)
unfolding free_each
free_each-Mid [] still s h = (s.block_manager, refl, h)
free_each-Mid (y ∷ ids) still s h =
    let (n, e, f) = free-Freed y s.block_manager h.manager in
    let (o, g, k) = free_each-Mid ids still (with_manager s n) (Freed-Mid y ids still s n h f) in
    (
      o,
      bind-ok (on_manager (BlockManager.free y)) (λ _. free_each ids)
            (ap (λ r. (r.0, with_manager s r.1)) e)
          ∙ g,
      k,
    )

abbrev keep : Bool → SequenceStatus → ℕ → List ℕ → List ℕ
keep b k y rest = elim k [
  | SequenceStatus.finished ↦ if b then y ∷ rest else rest
  | _ ↦ if b then rest else y ∷ rest
]

-- It reads the sequences only.
finished_is-with_manager :
    (b : Bool) (s : Scheduler) (n : BlockManager) (ids : List ℕ)
    → finished_is b (with_manager s n) ids ≡ finished_is b s ids
unfolding finished_is
finished_is-with_manager b s n [] = refl
finished_is-with_manager b s n (y ∷ ids) =
    ap (keep b (status_of s y) y) (finished_is-with_manager b s n ids)

-- What `free_finished` promises.
pub record Finished (s : Scheduler) (ids : List ℕ) (s' : Scheduler) : Type 0 where
  pub ready : Ready s'
  pub sequences : s'.sequences ≡ s.sequences
  pub waiting : s'.waiting ≡ s.waiting
  pub swapped : s'.swapped ≡ s.swapped
  pub moved : (x : ℕ) → count x s'.running + count x ids ≡ count x s.running
  pub done : (x : ℕ) → 0 < count x ids → status_of s x ≡ SequenceStatus.finished
  pub going : (x : ℕ) → 0 < count x s'.running → status_of s x ≢ SequenceStatus.finished

pub free_finished-Finished :
    (s : Scheduler)
    → Ready s
    → (ids : List ℕ) × (s' : Scheduler) × (free_finished s ≡ (ok ids, s')) × Finished s ids s'
unfolding free_finished
free_finished-Finished s h =
    let ids = finished_is true s s.running in
    let still = finished_is false s s.running in
    let (n, e, k) =
      free_each-Mid ids still s
        (IsReady-count h (λ x. refl) (λ x. sym (count-finished_is x s s.running)) (λ x. refl)) in
    let s' : Scheduler = record (with_manager s n) { running = still } in
    (
      ids,
      s',
      bind-ok (free_each ids) _ {s = s} e
          ∙ ap (λ l. (ok ids, record (with_manager s n) { running = l }))
              (finished_is-with_manager false s n s.running),
      record {
        ready = still-IsReady still (with_manager s n) k;
        sequences = refl;
        waiting = refl;
        swapped = refl;
        moved = λ x. omega (arith, count-finished_is x s s.running);
        done = λ x c. finished-status x s s.running c;
        going = λ x c. unfinished-status x s s.running c;
      },
    )
