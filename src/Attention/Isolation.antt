-- ===== src/Attention/Isolation.antt =====
-- The write of a step: each token's row stands at its own slot, and no other row that a sequence has
-- computed is changed.
use mathlib.Core.Path.{subst}
use paged_serve.Prelude.{
  ℕ, zero, suc, ◌+◌, ◌*◌, ◌≤◌, ◌<◌, ◌≡◌, ◌≢◌, ◌⊎◌, inl, inr, refl, sym, ap, ◌∙◌, arith, List, [],
  ◌∷◌, some, none, length, get_elem?, get_elem?_lt, take, drop, count, count-get_elem?, ◌==◌,
  if◌then◌else◌, Bool-cases, ok,
}
use native.Mathlib.Decide.{ℕ_discrete, dec_lt}
use paged_serve.Block.{BlockTable, slot}
use paged_serve.BlockManager.{chain_of}
use paged_serve.Scheduler.{Scheduler}
use paged_serve.Scheduler.Invariant.{Ready, table_of}
use paged_serve.Engine.{RaggedBatch, query_len_of, assemble}
use paged_serve.Engine.Batch.{IsScheduled, query_lens_of}
use paged_serve.Attention.{Layer, index_copy}
use paged_serve.Attention.Gather.{write_layer}
use paged_serve.Attention.Rows.{
  prefix, flat, take-drop-flat, get_elem?-take-drop, count-flat_zero, count-flat_once,
}
use paged_serve.Attention.Layout.{
  slots_of, slots_of-entries, placed_table, some-injective, assemble-IsBatch,
}
use paged_serve.Attention.Private.{slot-other, slot-same}
use paged_serve.Attention.Paged.{ok-injective}

module _ {R : Type 0} where
  pub index_copy_outside :
      (slots : List ℕ) (rows : List R) (plane : ℕ → R) (a : ℕ)
      → count a slots ≡ 0
      → index_copy slots rows plane a ≡ plane a
  unfolding index_copy
  index_copy_outside [] rows plane a h = refl
  index_copy_outside (s ∷ slots) [] plane a h = refl
  index_copy_outside (s ∷ slots) (row ∷ rows) plane a h =
      index_copy_outside slots rows (λ x. if x == s then row else plane x) a (omega arith)
      ∙ ground arith

  pub index_copy_inside :
      (slots : List ℕ) (rows : List R) (plane : ℕ → R) (j a : ℕ) {row : R}
      → get_elem? slots j ≡ some a
      → get_elem? rows j ≡ some row
      → count a slots ≤ 1
      → index_copy slots rows plane a ≡ row
  unfolding index_copy
  index_copy_inside [] rows plane j a e f h = absurd (ground arith)
  index_copy_inside (s ∷ slots) [] plane j a e f h = absurd (ground arith)
  index_copy_inside (s ∷ slots) (r ∷ rows) plane zero a {row} e f h =
      let same : s ≡ a = some-injective e in
      let first : r ≡ row = some-injective f in
      let here : (if a == s then r else plane a) ≡ row = ground arith in
      index_copy_outside slots rows (λ x. if x == s then r else plane x) a (ground arith) ∙ here
  index_copy_inside (s ∷ slots) (r ∷ rows) plane (suc j) a e f h =
      index_copy_inside slots rows (λ x. if x == s then r else plane x) j a e f (omega arith)

get_elem?_of_count : (xs : List ℕ) (a : ℕ) → 0 < count a xs → (i : ℕ) × (get_elem? xs i ≡ some a)
get_elem?_of_count [] a h = absurd (omega arith)
get_elem?_of_count (x ∷ xs) a h = elim (Bool-cases (a == x)) [
  | inl e ↦ (0, ground arith)
  | inr e ↦ let (i, f) = get_elem?_of_count xs a (ground arith) in (suc i, f)
]

-- A number that stands in a list twice stands at two places.
get_elem?_of_count_twice :
    (xs : List ℕ) (a : ℕ)
    → 1 < count a xs
    → (i : ℕ) × (j : ℕ) × (i < j) × (get_elem? xs i ≡ some a) × (get_elem? xs j ≡ some a)
get_elem?_of_count_twice [] a h = absurd (omega arith)
get_elem?_of_count_twice (x ∷ xs) a h = elim (Bool-cases (a == x)) [
  | inl e ↦
      let (j, f) = get_elem?_of_count xs a (ground arith) in
      (0, suc j, omega arith, ground arith, f)
  | inr e ↦
      let (i, j, lt, f, g) = get_elem?_of_count_twice xs a (ground arith) in
      (suc i, suc j, omega arith, f, g)
]

none-ne-some : {A : Type 0} {a : A} → none ≢ some a
none-ne-some e = ground (arith, e)

same_result : {A : Type 0} {a b : A} → ok a ≡ ok b → a ≡ b
same_result e = ground (arith, e)

-- Every slot that a sequence outside the batch holds, or a sequence of the batch before its new
-- tokens, keeps its rows.
abbrev pub Kept : {R : Type 0} → Scheduler → List ℕ → Layer R → Layer R → Type 0
Kept s ids old new =
    (y q a : ℕ) (u : BlockTable)
    → table_of s y ≡ some u
    → slot u q ≡ ok a
    → (count y ids ≡ 0) ⊎ (q < (s.sequences y).num_computed_tokens)
    → (new.keys a ≡ old.keys a) × (new.values a ≡ old.values a)

-- Every new token's slot has that token's rows.
abbrev pub Written : {R : Type 0} → Scheduler → List ℕ → List R → List R → Layer R → Type 0
Written {R} s ids key value new =
    (r x i a : ℕ) (t : BlockTable) (k v : R)
    → get_elem? ids r ≡ some x
    → table_of s x ≡ some t
    → i < query_len_of (s.sequences x)
    → slot t ((s.sequences x).num_computed_tokens + i) ≡ ok a
    → get_elem? key (prefix (query_lens_of s ids) r + i) ≡ some k
    → get_elem? value (prefix (query_lens_of s ids) r + i) ≡ some v
    → (new.keys a ≡ k) × (new.values a ≡ v)

module _ (s : Scheduler) (h : Ready s) (ids : List ℕ)
    (all : (x : ℕ) → 0 < count x ids → IsScheduled s x) (once : (x : ℕ) → count x ids ≤ 1)
    (unsealed : (x : ℕ)
      → 0 < count x ids
      → length (chain_of (s.block_manager.chains x)) * s.block_manager.block_size
        ≤ (s.sequences x).num_computed_tokens) where
  -- The table of a sequence of the batch.
  table_in : (x : ℕ) → 0 < count x ids → (t : BlockTable) × (table_of s x ≡ some t)
  table_in x c = let (t, e, size, more) = (h.places x).table (all x c).queued_up in (t, e)

  -- Only running sequences have tables.
  any_size :
      (y : ℕ) (u : BlockTable) → table_of s y ≡ some u → u.block_size ≡ s.block_manager.block_size
  any_size y u e = elim (dec_lt 0 (count y s.running)) [
    | yes c ↦ let (t, f, size, more) = (h.places y).table c in rw (some-injective (sym e ∙ f)) size
    | no none_ ↦
        let gone = (h.places y).no_table (omega arith) in absurd (none-ne-some (sym gone ∙ e))
  ]

  -- A slot in the list of a row is that of one of its new positions.
  in_slots_of :
      (x i a : ℕ) (t : BlockTable)
      → 0 < count x ids
      → table_of s x ≡ some t
      → get_elem? (slots_of s x) i ≡ some a
      → slot t ((s.sequences x).num_computed_tokens + i) ≡ ok a
  in_slots_of x i a t c e f =
      let (len, at) = slots_of-entries s h (all x c) e in
      let (b, g, here) = at i (rw (← len) (get_elem?_lt (slots_of s x) i f)) in
      here ∙ ap ok (some-injective (sym g ∙ f))

  -- Such a slot is no other sequence's.
  not_other :
      (x y q a : ℕ) (u : BlockTable)
      → 0 < count x ids
      → y ≢ x
      → table_of s y ≡ some u
      → slot u q ≡ ok a
      → count a (slots_of s x) ≡ 0
  not_other x y q a u c ne e at = elim (dec_lt 0 (count a (slots_of s x))) [
    | no none_ ↦ omega arith
    | yes some_ ↦
        let (i, f) = get_elem?_of_count (slots_of s x) a some_ in
        let (t, g) = table_in x c in
        let (positive, size, fits) = placed_table s h (all x c) g in
        absurd (
          slot-other s.block_manager h.manager h.sealable h.positive x t g size
            ((s.sequences x).num_computed_tokens + i) (omega (arith, unsealed x c))
            (in_slots_of x i a t c g f) y q u ne e (any_size y u e) at)
  ]

  -- Nor is it one of the sequence's own earlier positions.
  not_earlier :
      (x q a : ℕ) (t : BlockTable)
      → 0 < count x ids
      → table_of s x ≡ some t
      → slot t q ≡ ok a
      → q < (s.sequences x).num_computed_tokens
      → count a (slots_of s x) ≡ 0
  not_earlier x q a t c g at lt = elim (dec_lt 0 (count a (slots_of s x))) [
    | no none_ ↦ omega arith
    | yes some_ ↦
        let (i, f) = get_elem?_of_count (slots_of s x) a some_ in
        let (positive, size, fits) = placed_table s h (all x c) g in
        let same =
          slot-same s.block_manager h.manager h.sealable h.positive x t g size
            ((s.sequences x).num_computed_tokens + i) (omega (arith, unsealed x c))
            (in_slots_of x i a t c g f) q at in
        absurd (omega arith)
  ]

  -- And it stands there once.
  slots_of_once : (x a : ℕ) → 0 < count x ids → count a (slots_of s x) ≤ 1
  slots_of_once x a c = elim (dec_lt 1 (count a (slots_of s x))) [
    | no few ↦ omega arith
    | yes many ↦
        let (i, j, lt, f, g) = get_elem?_of_count_twice (slots_of s x) a many in
        let (t, e) = table_in x c in
        let (positive, size, fits) = placed_table s h (all x c) e in
        let same =
          slot-same s.block_manager h.manager h.sealable h.positive x t e size
            ((s.sequences x).num_computed_tokens + i) (omega (arith, unsealed x c))
            (in_slots_of x i a t c e f) ((s.sequences x).num_computed_tokens + j)
            (in_slots_of x j a t c e g) in
        absurd (omega arith)
  ]

  -- A slot of another sequence, or of an earlier position, is not written.
  unwritten_slot :
      (y q a : ℕ) (u : BlockTable)
      → table_of s y ≡ some u
      → slot u q ≡ ok a
      → (count y ids ≡ 0) ⊎ (q < (s.sequences y).num_computed_tokens)
      → count a (flat (slots_of s) ids) ≡ 0
  unwritten_slot y q a u f at (inl out) = count-flat_zero a (slots_of s) ids (λ x c.
      elim (ℕ_discrete y x) [
        | yes same ↦ absurd (omega (arith, ap (λ z. count z ids) same))
        | no ne ↦ not_other x y q a u c ne f at
      ])
  unwritten_slot y q a u f at (inr before) = count-flat_zero a (slots_of s) ids (λ x c.
      elim (ℕ_discrete y x) [
        | yes same ↦
            not_earlier x q a u c (subst (λ z. table_of s z ≡ some u) same f) at
              (subst (λ z. q < (s.sequences z).num_computed_tokens) same before)
        | no ne ↦ not_other x y q a u c ne f at
      ])

  -- The slot of a new position stands at its token's place, and nowhere else.
  written_slot :
      (r x i a : ℕ) (t : BlockTable)
      → get_elem? ids r ≡ some x
      → table_of s x ≡ some t
      → i < query_len_of (s.sequences x)
      → slot t ((s.sequences x).num_computed_tokens + i) ≡ ok a
      → (get_elem? (flat (slots_of s) ids) (prefix (query_lens_of s ids) r + i) ≡ some a)
        × (count a (flat (slots_of s) ids) ≤ 1)
  written_slot r x i a t f g lt at =
      let c = count-get_elem? ids r f in
      let k = query_len_of (s.sequences x) in
      let from = prefix (query_lens_of s ids) r in
      let (len, entries) = slots_of-entries s h (all x c) g in
      let (b, found, here) = entries i lt in
      let same : b ≡ a = same_result (sym here ∙ at) in
      let part : take k (drop from (flat (slots_of s) ids)) ≡ slots_of s x =
        take-drop-flat (slots_of s) (λ y. query_len_of (s.sequences y)) ids
          (λ y d. let (u, e) = table_in y d in (slots_of-entries s h (all y d) e).0) r f in
      (
        sym (get_elem?-take-drop from k (flat (slots_of s) ids) i lt)
            ∙ ap (λ l. get_elem? l i) part
            ∙ found
            ∙ ap some same,
        count-flat_once a (slots_of s) x ids (once x) (slots_of_once x a c) (λ y d ne.
            not_other y x ((s.sequences x).num_computed_tokens + i) a t d (λ e. ne (sym e)) g at),
      )

  -- On a scheduler that satisfies the invariant, take a batch that `_assemble` made of different
  -- running sequences with computed tokens that they have, none of which has sealed a block
  -- beyond them. The write of a step puts each new token's K and V row at the slot of its
  -- position, and changes no row at a slot that another sequence's table gives for any position,
  -- or that a table of the batch gives for a position before the new ones.
  pub write_layer-Isolated :
      {R : Type 0} (md : RaggedBatch) (key value : List R) (layer : Layer R)
      → 0 < length ids
      → assemble ids s ≡ (ok md, s)
      → Kept s ids layer (write_layer md.slot_mapping key value layer)
        × Written s ids key value (write_layer md.slot_mapping key value layer)
  write_layer-Isolated {R} md key value layer some_ e =
      let (md', width, e', batch) = assemble-IsBatch s h ids some_ all in
      let same : md' ≡ md = ok-injective (sym e' ∙ e) in
      let slots : md.slot_mapping ≡ flat (slots_of s) ids =
        ap (λ (b : RaggedBatch). b.slot_mapping) (sym same) ∙ batch.slots in
      (
        λ y q a u f at out.
            let none_ : count a md.slot_mapping ≡ 0 =
              ap (count a) slots ∙ unwritten_slot y q a u f at out in
            (
              index_copy_outside md.slot_mapping key layer.keys a none_,
              index_copy_outside md.slot_mapping value layer.values a none_,
            ),
        λ r x i a t k v f g lt at key_at value_at.
            let (found, few) = written_slot r x i a t f g lt at in
            let j = prefix (query_lens_of s ids) r + i in
            let found' : get_elem? md.slot_mapping j ≡ some a =
              ap (λ l. get_elem? l j) slots ∙ found in
            let few' : count a md.slot_mapping ≤ 1 = rw slots few in
            (
              index_copy_inside md.slot_mapping key layer.keys j a found' key_at few',
              index_copy_inside md.slot_mapping value layer.values j a found' value_at few',
            ),
      )
