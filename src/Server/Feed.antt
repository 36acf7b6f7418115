-- ===== src/Server/Feed.antt =====
-- The delivery in `_run` of api.py: what the queues of the requests have been sent.
use paged_serve.Prelude.{
  ℕ, ◌≤◌, ◌<◌, ◌≡◌, ◌≢◌, ◌⊎◌, inl, inr, refl, sym, arith, true, List, [], ◌∷◌, ◌++◌, Option, some,
  map, drop, length, count, if◌then◌else◌, ◌∙◌, ap, append_assoc, Bool-cases,
}
use native.Mathlib.Decide.{ℕ_discrete}
use paged_serve.Sequence.{Sequence, is_terminal}
use paged_serve.Server.{Runner, Item, token, done, new_items, already_of, deliver_to, deliver}

-- All tokens of an output, as items.
abbrev pub stream : List ℕ → List Item
stream outs = map token outs

-- The end mark of a finished sequence.
abbrev pub end_mark : Sequence → List Item
end_mark q = if is_terminal q.status then done ∷ [] else []

-- What an open queue has: the output so far, in order, and then perhaps the end mark, after which no
-- token comes.
pub record IsFed (n : ℕ) (q : Sequence) (sent : List Item) (delivered : Option ℕ) : Type 0 where
  pub counted : delivered ≡ some (length q.output_token_ids)
  pub items :
      (sent ≡ stream q.output_token_ids)
      ⊎ ((sent ≡ stream q.output_token_ids ++ done ∷ []) × (n ≡ 0))

-- What the delivery does to the queue of one id.
pub record Fed (ids : List ℕ) (sequences : ℕ → Sequence) (x : ℕ) (r r' : Runner) : Type 0 where
  pub skipped : count x ids ≡ 0 → (r'.sent x ≡ r.sent x) × (r'.delivered x ≡ r.delivered x)
  pub fed :
      0 < count x ids
      → r.queues x ≡ true
      → (r'.sent x ≡ r.sent x ++ new_items (sequences x) (already_of (r.delivered x)))
        × (r'.delivered x ≡ some (length (sequences x).output_token_ids))

-- The parts of the runner that a delivery does not touch.
pub record SameEngine (r r' : Runner) : Type 0 where
  pub engine : r'.engine ≡ r.engine
  pub stepping : r'.stepping ≡ r.stepping
  pub pending : r'.pending_aborts ≡ r.pending_aborts
  pub queues : r'.queues ≡ r.queues

deliver_to-SameEngine : (y : ℕ) (q : Sequence) (r : Runner) → SameEngine r (deliver_to y q r)
unfolding deliver_to
deliver_to-SameEngine y q r = elim (Bool-cases (r.queues y)) [
  | inl e ↦ rw e (record { engine = refl; stepping = refl; pending = refl; queues = refl })
  | inr e ↦ rw e (record { engine = refl; stepping = refl; pending = refl; queues = refl })
]

pub deliver-SameEngine :
    (ids : List ℕ) (sequences : ℕ → Sequence) (r : Runner) → SameEngine r (deliver ids sequences r)
unfolding deliver
deliver-SameEngine [] sequences r = record {
  engine = refl;
  stepping = refl;
  pending = refl;
  queues = refl;
}
deliver-SameEngine (y ∷ ids) sequences r =
    let a = deliver_to-SameEngine y (sequences y) r in
    let b = deliver-SameEngine ids sequences (deliver_to y (sequences y) r) in
    record {
      engine = b.engine ∙ a.engine;
      stepping = b.stepping ∙ a.stepping;
      pending = b.pending ∙ a.pending;
      queues = b.queues ∙ a.queues;
    }

deliver_to-other :
    (y : ℕ) (q : Sequence) (r : Runner) (x : ℕ)
    → x ≢ y
    → ((deliver_to y q r).sent x ≡ r.sent x) × ((deliver_to y q r).delivered x ≡ r.delivered x)
unfolding deliver_to
deliver_to-other y q r x ne = (ground arith, ground arith)

deliver_to-open :
    (y : ℕ) (q : Sequence) (r : Runner)
    → r.queues y ≡ true
    → ((deliver_to y q r).sent y ≡ r.sent y ++ new_items q (already_of (r.delivered y)))
      × ((deliver_to y q r).delivered y ≡ some (length q.output_token_ids))
unfolding deliver_to
deliver_to-open y q r e = (rw e (ground arith), rw e (ground arith))

pub deliver-Fed :
    (ids : List ℕ) (sequences : ℕ → Sequence) (x : ℕ) (r : Runner)
    → count x ids ≤ 1
    → Fed ids sequences x r (deliver ids sequences r)
unfolding deliver
deliver-Fed [] sequences x r once = record {
  skipped = λ c. (refl, refl);
  fed = λ c. absurd (omega arith);
}
deliver-Fed (y ∷ ids) sequences x r once =
    let r1 = deliver_to y (sequences y) r in
    let f = deliver-Fed ids sequences x r1 (omega (arith, once)) in
    elim (ℕ_discrete x y) [
      | yes e ↦ record {
        skipped = λ c. absurd (ground (arith, e, c));
        fed = λ c open_.
            let (s, d) = f.skipped (ground (arith, once, e)) in
            let (s', d') = deliver_to-open y (sequences y) r (ap r.queues (sym e) ∙ open_) in
            (s ∙ rw e s', d ∙ rw e d');
      }
      | no ne ↦
          let (s, d) = deliver_to-other y (sequences y) r x ne in
          record {
            skipped = λ c. let (s', d') = f.skipped (ground (arith, c)) in (s' ∙ s, d' ∙ d);
            fed = λ c open_.
                let (s', d') =
                  f.fed (ground (arith, c))
                    (ap (λ g. g x) (deliver_to-SameEngine y (sequences y) r).queues ∙ open_) in
                (s' ∙ rw (s, d) refl, d');
          }
    ]

drop_all : (l : List ℕ) → drop (length l) l ≡ []
drop_all [] = refl
drop_all (x ∷ l) = drop_all l

drop_old : (l : List ℕ) (t : ℕ) → drop (length l) (l ++ t ∷ []) ≡ t ∷ []
drop_old [] t = refl
drop_old (x ∷ l) t = drop_old l t

stream-append : (l k : List ℕ) → stream (l ++ k) ≡ stream l ++ stream k
stream-append [] k = refl
stream-append (x ∷ l) k = ap (λ i. token x ∷ i) (stream-append l k)

-- A delivery brings an open queue of a sequence of the batch up to date.
pub fed-items :
    (old new : List ℕ) (q : Sequence) (sent : List Item)
    → q.output_token_ids ≡ new
    → sent ≡ stream old
    → (new ≡ old) ⊎ ((t : ℕ) × (new ≡ old ++ t ∷ []))
    → sent ++ new_items q (length old) ≡ stream new ++ end_mark q
fed-items old new q sent out e (inl same) = rw (out, e, same, drop_all old) refl
fed-items old new q sent out e (inr (t, more)) =
    rw (out, e, more, drop_old old t)
      (sym (append_assoc (stream old) (stream (t ∷ [])) (end_mark q))
        ∙ ap (λ l. l ++ end_mark q) (sym (stream-append old (t ∷ []))))
