-- ===== src/Attention/Ragged.antt =====
-- `_forward_ragged` of gather.py on a batch of `_assemble`: what each query attends to.
use paged_serve.Prelude.{
  ℕ, zero, suc, ◌+◌, ◌<◌, ◌≡◌, refl, sym, ap, ◌∙◌, arith, Bool, List, [], ◌∷◌, ◌++◌, Option, none,
  some, length, get_elem?, get_elem?_lt, get_elem?_of_lt, count, count-get_elem?, ok, bind-ok,
}
use paged_serve.Block.{BlockTable}
use paged_serve.Scheduler.{Scheduler}
use paged_serve.Scheduler.Invariant.{Ready, table_of}
use paged_serve.Engine.{RaggedBatch, query_len_of}
use paged_serve.Engine.Batch.{IsScheduled, query_lens_of}
use paged_serve.Attention.{Layer}
use paged_serve.Attention.Gather.{
  answers, attend_each, attend_row, attend_decode_rows, attend_prefill_rows, splice,
}
use paged_serve.Attention.Rows.{get_elem?-map, prefix}
use paged_serve.Attention.Layout.{IsRow, IsBatch, some-injective, length-query_lens_of}
use paged_serve.Attention.Splice.{write_rows}

module _ {Q R O : Type 0} (sdpa : Q → List R → List R → List Bool → O) (n : ℕ) (layer : Layer R)
    (md : RaggedBatch) (query : List Q) where
  -- What a row of the batch answers, from the batch's own lists.
  unfoldable pub entries : (ℕ → ℕ) → ℕ → List O
  entries starts r = elim (get_elem? md.query_lens r) [
    | none ↦ []
    | some k ↦ elim (get_elem? md.seq_lens r) [
      | none ↦ []
      | some seq_len ↦ elim (get_elem? md.block_tables r) [
        | none ↦ []
        | some blocks ↦ answers sdpa n layer md query k (starts r) seq_len blocks
      ]
    ]
  ]

  module _ (s : Scheduler) (ids : List ℕ) (width : ℕ) where
    abbrev pub starts : ℕ → ℕ
    starts = prefix (query_lens_of s ids)

    module _ (r x : ℕ) (t : BlockTable) (row : IsRow s ids md width r x t) where
      pub entries_lem :
          entries starts r
          ≡ answers sdpa n layer md query
              (query_len_of (s.sequences x))
              (starts r)
              ((s.sequences x).num_computed_tokens + query_len_of (s.sequences x))
              (t.blocks ++ row.padding)
      unfolding entries
      entries_lem = rw (row.query_len, row.seq_len, row.table, entries) refl

      pub attend_row_lem :
          (out : List (Option O))
          → attend_row sdpa n layer md query r (query_len_of (s.sequences x)) out
            ≡ (ok tt, splice (starts r) (entries starts r) out)
      unfolding attend_row
      attend_row_lem out = rw (row.offset, row.seq_len, row.table, entries_lem, attend_row) refl

-- The entries of one answer.
module _ {Q R O : Type 0} (sdpa : Q → List R → List R → List Bool → O) (ks vs : List R) where
  pub length-attend_each :
      (qs : List Q) (ms : List (List Bool))
      → length qs ≡ length ms
      → length (attend_each sdpa ks vs qs ms) ≡ length qs
  length-attend_each [] ms e = refl
  length-attend_each (q ∷ qs) [] e = absurd (omega arith)
  length-attend_each (q ∷ qs) (m ∷ ms) e = ap suc (length-attend_each qs ms (omega arith))

  pub get_elem?-attend_each :
      (qs : List Q) (ms : List (List Bool)) (i : ℕ) {q : Q} {m : List Bool}
      → get_elem? qs i ≡ some q
      → get_elem? ms i ≡ some m
      → get_elem? (attend_each sdpa ks vs qs ms) i ≡ some (sdpa q ks vs m)
  get_elem?-attend_each [] ms i e f = absurd (ground arith)
  get_elem?-attend_each (q ∷ qs) [] i e f = absurd (ground arith)
  get_elem?-attend_each (q ∷ qs) (m ∷ ms) zero e f = rw (some-injective e, some-injective f) refl
  get_elem?-attend_each (q ∷ qs) (m ∷ ms) (suc i) e f = get_elem?-attend_each qs ms i e f

pub get_elem?-query_lens_of :
    (s : Scheduler) (ids : List ℕ) (r : ℕ) {x : ℕ}
    → get_elem? ids r ≡ some x
    → get_elem? (query_lens_of s ids) r ≡ some (query_len_of (s.sequences x))
get_elem?-query_lens_of s ids r e = get_elem?-map (λ y. query_len_of (s.sequences y)) ids r e

module _ {Q R O : Type 0} (sdpa : Q → List R → List R → List Bool → O) (n : ℕ) (layer : Layer R)
    (md : RaggedBatch) (query : List Q) (s : Scheduler) (h : Ready s) (ids : List ℕ) (width : ℕ)
    (all : (x : ℕ) → 0 < count x ids → IsScheduled s x) (batch : IsBatch s ids width md)
    (matches : length query ≡ length md.flat_positions) where
  abbrev pub from : ℕ → ℕ
  from = prefix (query_lens_of s ids)

  abbrev pub given : ℕ → List O
  given = entries sdpa n layer md query from

  -- Every row is one of a sequence with a table.
  pub batch-IsRow :
      (r : ℕ)
      → r < length ids
      → (x : ℕ) × (t : BlockTable) × (get_elem? ids r ≡ some x)
        × (table_of s x ≡ some t)
        × IsRow s ids md width r x t
  batch-IsRow r lt =
      let (x, e) = get_elem?_of_lt ids r lt in
      let (t, f, size, more) = (h.places x).table (all x (count-get_elem? ids r e)).queued_up in
      (x, t, e, f, batch.rows r x t e f)

  pub decodes_lem :
      (rs : List ℕ) (out : List (Option O))
      → ((r : ℕ) → 0 < count r rs → get_elem? (query_lens_of s ids) r ≡ some 1)
      → attend_decode_rows sdpa n layer md query rs out ≡ (ok tt, write_rows from given rs out)
  unfolding attend_decode_rows
  decodes_lem [] out ok_ = refl
  decodes_lem (r ∷ rs) out ok_ =
      let here = ok_ r (ground arith) in
      let lt : r < length ids =
        rw (← length-query_lens_of s ids) (get_elem?_lt (query_lens_of s ids) r here) in
      let (x, t, e, f, row) = batch-IsRow r lt in
      let one : query_len_of (s.sequences x) ≡ 1 =
        some-injective (sym (get_elem?-query_lens_of s ids r e) ∙ here) in
      let first : attend_row sdpa n layer md query r 1 out
          ≡ (ok tt, splice (from r) (given r) out) =
        rw (← one) (attend_row_lem sdpa n layer md query s ids width r x t row out) in
      bind-ok (attend_row sdpa n layer md query r 1)
        (λ _. attend_decode_rows sdpa n layer md query rs) first
      ∙ decodes_lem rs (splice (from r) (given r) out) (λ q c. ok_ q (omega arith))

  pub prefills_lem :
      (rs : List ℕ) (out : List (Option O))
      → ((r : ℕ) → 0 < count r rs → r < length ids)
      → attend_prefill_rows sdpa n layer md query rs out ≡ (ok tt, write_rows from given rs out)
  unfolding attend_prefill_rows
  prefills_lem [] out ok_ = refl
  prefills_lem (r ∷ rs) out ok_ =
      let (x, t, e, f, row) = batch-IsRow r (ok_ r (ground arith)) in
      rw (row.query_len, attend_prefill_rows)
        (bind-ok (attend_row sdpa n layer md query r (query_len_of (s.sequences x)))
            (λ _. attend_prefill_rows sdpa n layer md query rs)
            (attend_row_lem sdpa n layer md query s ids width r x t row out)
          ∙ prefills_lem rs (splice (from r) (given r) out) (λ q c. ok_ q (omega arith)))
