-- ===== src/Attention/Forward.antt =====
-- The rows of a batch in `_forward_ragged` of gather.py: what each query of a row answers, and that
-- rows do not overlap.
use paged_serve.Prelude.{
  ℕ, suc, ◌+◌, ◌*◌, ◌≤◌, ◌<◌, ◌≡◌, ◌≢◌, inl, inr, sym, ap, ◌∙◌, arith, Bool, List, ◌++◌, some, map,
  length, get_elem?, get_elem?_lt, get_elem?_of_lt, take, drop, count, count-append,
  count-get_elem?, min, ok,
}
use native.Mathlib.Decide.{ℕ_discrete, dec_lt}
use paged_serve.Block.{BlockTable, slots}
use paged_serve.BlockManager.{range_from}
use paged_serve.Scheduler.{Scheduler}
use paged_serve.Scheduler.Invariant.{Ready, table_of}
use paged_serve.Engine.{RaggedBatch, query_len_of}
use paged_serve.Engine.Batch.{IsScheduled, query_lens_of}
use paged_serve.Attention.{Layer, unmasked, row_mask, gather_rows}
use paged_serve.Attention.Visible.{
  unmasked-gather_rows, length-map_lem, length-range_from, get_elem?-range_from,
}
use paged_serve.Attention.Rows.{
  get_elem?-map, prefix, prefix_next, ones, longer, ones-entry, longer-entry, count-ones,
  count-longer, length-take-drop, get_elem?-take-drop,
}
use paged_serve.Attention.Layout.{IsBatch, length-query_lens_of, placed_table}
use paged_serve.Attention.Splice.{Apart}
use paged_serve.Attention.Ragged.{
  entries, entries_lem, length-attend_each, get_elem?-attend_each, get_elem?-query_lens_of,
  batch-IsRow,
}

zero_plus : (n : ℕ) → 0 + n ≡ n
zero_plus n = omega arith

module _ {Q R O : Type 0} (sdpa : Q → List R → List R → List Bool → O)
    (attend : Q → List R → List R → O)
    (masked_out : (q : Q) (ks vs : List R) (mask : List Bool)
      → 0 < length (unmasked mask ks)
      → sdpa q ks vs mask ≡ attend q (unmasked mask ks) (unmasked mask vs))
    (layer : Layer R) (md : RaggedBatch) (query : List Q) (s : Scheduler) (h : Ready s)
    (ids : List ℕ) (width : ℕ) (all : (x : ℕ) → 0 < count x ids → IsScheduled s x)
    (batch : IsBatch s ids width md) (matches : length query ≡ length md.flat_positions) where
  abbrev pub n : ℕ
  n = s.block_manager.block_size

  abbrev pub from : ℕ → ℕ
  from = prefix (query_lens_of s ids)

  abbrev pub given : ℕ → List O
  given = entries sdpa n layer md query from

  -- The row of a batch ends within it.
  row_fits :
      (r : ℕ) {x : ℕ}
      → get_elem? ids r ≡ some x
      → from r + query_len_of (s.sequences x) ≤ length query
  row_fits r e = omega (
    arith,
    prefix_next (query_lens_of s ids) r (length ids) (get_elem?-query_lens_of s ids r e)
        (get_elem?_lt ids r e),
    batch.total,
    matches,
  )

  module _ (r x : ℕ) (t : BlockTable) (e : get_elem? ids r ≡ some x)
      (f : table_of s x ≡ some t) where
    abbrev pub k : ℕ
    k = query_len_of (s.sequences x)

    abbrev pub start : ℕ
    start = (s.sequences x).num_computed_tokens

    abbrev pub masks : List (List Bool)
    masks = map (row_mask md.gathered_len (start + k)) (take k (drop (from r) md.flat_positions))

    length-masks : length masks ≡ k
    length-masks =
        length-map_lem (row_mask md.gathered_len (start + k))
          (take k (drop (from r) md.flat_positions))
        ∙ ap length (batch.rows r x t e f).positions
        ∙ length-range_from start k

    pub length-given : length (given r) ≡ k
    length-given =
        let row = batch.rows r x t e f in
        let queries = length-take-drop (from r) k query (row_fits r e) in
        ap length (entries_lem sdpa n layer md query s ids width r x t row)
        ∙ length-attend_each sdpa (gather_rows n layer.keys (t.blocks ++ row.padding))
            (gather_rows n layer.values (t.blocks ++ row.padding)) (take k (drop (from r) query))
            masks (queries ∙ sym length-masks)
        ∙ queries

    -- What one query of the row answers.
    pub given_at :
        (i : ℕ) (q : Q)
        → i < k
        → get_elem? query (from r + i) ≡ some q
        → (l : List ℕ) × (slots t 0 (start + i + 1) ≡ ok l)
          × (get_elem? (given r) i ≡ some (attend q (map layer.keys l) (map layer.values l)))
    given_at i q lt g =
        let row = batch.rows r x t e f in
        let (positive, size, fits) = placed_table s h (all x (count-get_elem? ids r e)) f in
        let bound : min (start + k) (suc (start + i)) ≡ start + i + 1 = ground arith in
        let (l, found, len, see) =
          unmasked-gather_rows t positive row.padding width (start + k) (start + i) row.padded
            (rw bound (omega arith)) in
        let mask = row_mask md.gathered_len (start + k) (start + i) in
        let blocks = t.blocks ++ row.padding in
        let gathered : md.gathered_len ≡ width * t.block_size =
          batch.gathered ∙ ap (λ b. width * b) (sym size) in
        let seen : (plane : ℕ → R) → unmasked mask (gather_rows n plane blocks) ≡ map plane l =
          λ plane.
            ap (λ g. unmasked (row_mask g (start + k) (start + i)) (gather_rows n plane blocks))
              gathered
            ∙ ap
                (λ b.
                  unmasked (row_mask (width * t.block_size) (start + k) (start + i))
                    (gather_rows b plane blocks))
                (sym size)
            ∙ see R plane in
        let keys_seen : length (unmasked mask (gather_rows n layer.keys blocks)) ≡ start + i + 1 =
          ap length (seen layer.keys) ∙ length-map_lem layer.keys l ∙ len ∙ bound in
        let masked : get_elem? masks i ≡ some mask =
          ap (λ ps. get_elem? (map (row_mask md.gathered_len (start + k)) ps) i) row.positions
          ∙ get_elem?-map (row_mask md.gathered_len (start + k)) (range_from start k) i
              (get_elem?-range_from i start k lt) in
        (
          l,
          ap (slots t 0) (sym bound) ∙ found,
          ap (λ os. get_elem? os i) (entries_lem sdpa n layer md query s ids width r x t row)
              ∙ get_elem?-attend_each sdpa (gather_rows n layer.keys blocks)
                  (gather_rows n layer.values blocks) (take k (drop (from r) query)) masks i
                  (get_elem?-take-drop (from r) k query i lt ∙ g) masked
              ∙ ap some (
                  masked_out q (gather_rows n layer.keys blocks) (gather_rows n layer.values blocks)
                    mask (omega (arith, keys_seen)))
              ∙ ap (λ ks. some (attend q ks (unmasked mask (gather_rows n layer.values blocks))))
                  (seen layer.keys)
              ∙ ap (λ vs. some (attend q (map layer.keys l) vs)) (seen layer.values),
        )

  -- The rows of one token, and then the others, are all rows.
  abbrev pub order : List ℕ
  order = ones 0 (query_lens_of s ids) ++ longer 0 (query_lens_of s ids)

  pub in_order : (r : ℕ) → r < length ids → 0 < count r order
  in_order r lt =
      let lens = query_lens_of s ids in
      let (n, e) = get_elem?_of_lt lens r (rw (length-query_lens_of s ids) lt) in
      let sum = count-append r (ones 0 lens) (longer 0 lens) in
      elim (ℕ_discrete n 1) [
        | yes one ↦
            let c = count-ones 0 lens r (e ∙ ap some one) in
            omega (arith, sum, ap (λ y. count y (ones 0 lens)) (zero_plus r))
        | no more ↦
            let c = count-longer 0 lens r e more in
            omega (arith, sum, ap (λ y. count y (longer 0 lens)) (zero_plus r))
      ]

  pub order-lt : (r : ℕ) → 0 < count r order → r < length ids
  order-lt r c =
      let lens = query_lens_of s ids in
      let sum = count-append r (ones 0 lens) (longer 0 lens) in
      rw (← length-query_lens_of s ids) (elim (dec_lt 0 (count r (ones 0 lens))) [
        | yes some_ ↦
            let (i, e, f) = ones-entry 0 lens r some_ in omega (arith, get_elem?_lt lens i f)
        | no none_ ↦ let (i, e, f) = longer-entry 0 lens r (omega arith) in omega arith
      ])

  pub row_at :
      (r : ℕ)
      → r < length ids
      → (x : ℕ) × (t : BlockTable) × (get_elem? ids r ≡ some x) × (table_of s x ≡ some t)
  row_at r lt =
      let (x, t, e, f, row) =
        batch-IsRow sdpa n layer md query s h ids width all batch matches r lt in
      (x, t, e, f)

  -- Two rows of the batch do not overlap, and none leaves it.
  pub rows-Apart : (r q : ℕ) → r < length ids → q < length ids → q ≢ r → Apart from given q r
  rows-Apart r q lt lq ne =
      let (x, t, e, f) = row_at r lt in
      let (y, u, e', f') = row_at q lq in
      let mine = get_elem?-query_lens_of s ids r e in
      let other = get_elem?-query_lens_of s ids q e' in
      elim (dec_lt q r) [
        | yes before ↦ inl (
            omega
              (arith, length-given q y u e' f', prefix_next (query_lens_of s ids) q r other before))
        | no behind ↦ inr (
            omega (
              arith,
              length-given r x t e f,
              prefix_next (query_lens_of s ids) r q mine (omega arith),
            ))
      ]

  pub row_ends : (r : ℕ) → r < length ids → from r + length (given r) ≤ length query
  row_ends r lt =
      let (x, t, e, f) = row_at r lt in omega (arith, length-given r x t e f, row_fits r e)
