-- ===== src/Attention/Paged.antt =====
-- `_forward_ragged` of gather.py as a whole, on a batch of `_assemble`.
use mathlib.Core.Path.{subst}
use paged_serve.Prelude.{
  ℕ, ◌+◌, ◌<◌, ◌≡◌, inr, refl, sym, ap, ◌∙◌, arith, Bool, List, Option, none, some, map, length,
  get_elem?, get_elem?_lt, count, ok, ◌>>◌, bind-ok, Result,
}
use paged_serve.Block.{BlockTable, slots}
use paged_serve.Scheduler.{Scheduler}
use paged_serve.Scheduler.Invariant.{Ready, table_of}
use paged_serve.Engine.{RaggedBatch, query_len_of, assemble}
use paged_serve.Engine.Batch.{IsScheduled, query_lens_of}
use paged_serve.Attention.{Layer, unmasked}
use paged_serve.Attention.Gather.{
  Paged, attend_decode_rows, attend_prefill_rows, unwritten, write_layer, set_layer, forward_ragged,
}
use paged_serve.Attention.Visible.{length-map_lem}
use paged_serve.Attention.Rows.{prefix, ones, longer, ones-entry, longer-entry}
use paged_serve.Attention.Layout.{IsBatch, length-query_lens_of, assemble-IsBatch}
use paged_serve.Attention.Splice.{
  write_rows, write_rows-append, length-write_rows, write_rows_holds,
}
use paged_serve.Attention.Ragged.{entries, decodes_lem, prefills_lem}
use paged_serve.Attention.Forward.{given_at, in_order, order-lt, rows-Apart, row_ends, order}

-- What each query of a batch attends to, in a layer that has the batch's rows: the rows at the
-- slots of its sequence's positions, up to its own, in order.
abbrev pub Attends :
    {Q R O : Type 0}
    → (Q → List R → List R → O)
    → Layer R
    → Scheduler
    → List ℕ
    → List Q
    → List (Option O)
    → Type 0
Attends {Q} attend layer s ids query out =
    (r x : ℕ) (t : BlockTable) (i : ℕ) (q : Q)
    → get_elem? ids r ≡ some x
    → table_of s x ≡ some t
    → i < query_len_of (s.sequences x)
    → get_elem? query (prefix (query_lens_of s ids) r + i) ≡ some q
    → (l : List ℕ) × (slots t 0 ((s.sequences x).num_computed_tokens + i + 1) ≡ ok l)
      × (get_elem? out (prefix (query_lens_of s ids) r + i)
          ≡ some (some (attend q (map layer.keys l) (map layer.values l))))

zero_plus : (n : ℕ) → 0 + n ≡ n
zero_plus n = omega arith

pub ok-injective :
    {A S : Type 0} {a b : A} {s t : S} → ◌≡◌ {A = Result A × S} (ok a, s) (ok b, t) → a ≡ b
ok-injective e = ground (arith, e)

module _ {Q R O : Type 0} (sdpa : Q → List R → List R → List Bool → O)
    (attend : Q → List R → List R → O)
    (masked_out : (q : Q) (ks vs : List R) (mask : List Bool)
      → 0 < length (unmasked mask ks)
      → sdpa q ks vs mask ≡ attend q (unmasked mask ks) (unmasked mask vs))
    (s : Scheduler) (h : Ready s) (ids : List ℕ)
    (all : (x : ℕ) → 0 < count x ids → IsScheduled s x) where
  rows-Attends :
      (layer : Layer R) (md : RaggedBatch) (query : List Q) (width : ℕ)
      → IsBatch s ids width md
      → length query ≡ length md.flat_positions
      → (out : List (Option O)) × (((attend_decode_rows sdpa s.block_manager.block_size layer md
                query md.decode_rows
              >> attend_prefill_rows sdpa s.block_manager.block_size layer md query md.prefill_rows
              >> λ out. (ok out, out))
            (unwritten query)
          ≡ (ok out, out)))
        × (length out ≡ length query)
        × Attends attend layer s ids query out
  rows-Attends layer md query width batch matches =
      let n = s.block_manager.block_size in
      let lens = query_lens_of s ids in
      let from = prefix lens in
      let given = entries sdpa n layer md query from in
      let fresh : List (Option O) = unwritten query in
      let after = write_rows from given (ones 0 lens) fresh in
      let done = write_rows from given (longer 0 lens) after in
      let size : length fresh ≡ length query = length-map_lem (λ _. none) query in
      let all_rows = order sdpa attend masked_out layer md query s h ids width all batch matches in
      let whole : write_rows from given all_rows fresh ≡ done =
        write_rows-append from given (ones 0 lens) (longer 0 lens) fresh in
      let decodes = attend_decode_rows sdpa n layer md query md.decode_rows in
      let prefills = attend_prefill_rows sdpa n layer md query md.prefill_rows in
      let f : decodes fresh ≡ (ok tt, after) =
        ap (λ rs. attend_decode_rows sdpa n layer md query rs fresh) batch.decodes
        ∙ decodes_lem sdpa n layer md query s h ids width all batch matches (ones 0 lens) fresh
            (λ r c.
              let (i, e, g) = ones-entry 0 lens r c in ap (get_elem? lens) (e ∙ zero_plus i) ∙ g) in
      let g : prefills after ≡ (ok tt, done) =
        ap (λ rs. attend_prefill_rows sdpa n layer md query rs after) batch.prefills
        ∙ prefills_lem sdpa n layer md query s h ids width all batch matches (longer 0 lens) after
            (λ r c.
              let (i, e, lt) = longer-entry 0 lens r c in
              omega (arith, length-query_lens_of s ids)) in
      (
        done,
        bind-ok (decodes >> prefills) (λ _ out. (ok out, out))
            (bind-ok decodes (λ _. prefills) f ∙ g),
        ap length (sym whole) ∙ length-write_rows from given all_rows fresh ∙ size,
        λ r x t i q e k lt p.
            let (l, found, here) =
              given_at sdpa attend masked_out layer md query s h ids width all batch matches r x t e
                k i q lt p in
            let in_batch = get_elem?_lt ids r e in
            (
              l,
              found,
              ap (λ out. get_elem? out (from r + i)) (sym whole)
                  ∙ write_rows_holds from given all_rows fresh r i
                      (λ q c. rw size (
                        row_ends sdpa attend masked_out layer md query s h ids width all batch
                          matches q
                          (order-lt sdpa attend masked_out layer md query s h ids width all batch
                            matches q c)))
                      (λ q c ne.
                        rows-Apart sdpa attend masked_out layer md query s h ids width all batch
                          matches r q in_batch
                          (order-lt sdpa attend masked_out layer md query s h ids width all batch
                            matches q c)
                          ne)
                      here (get_elem?_lt (given r) i here)
                      (inr (
                        in_order sdpa attend masked_out layer md query s h ids width all batch
                          matches r in_batch)),
            ),
      )

  -- Let the attention of one query depend only on the keys and values that its mask allows, if
  -- there are any. On a scheduler that satisfies the invariant, for a batch that `_assemble` made
  -- of running sequences with computed tokens that they have, on an allocated cache with the
  -- allocator's block size and with as many queries as tokens, `_forward_ragged` does not raise
  -- and changes only the layer that it writes. It answers every query, decode or prefill: the
  -- query at a position of a sequence attends to exactly the rows, in that layer, at the slots
  -- that its block table gives for the positions 0 up to its own, in order, whatever else the
  -- gathered blocks hold.
  pub forward_ragged-Attends :
      (md : RaggedBatch) (layer_idx : ℕ) (query : List Q) (key value : List R) (cache : ℕ → Layer R)
      (b : Paged R)
      → 0 < length ids
      → assemble ids s ≡ (ok md, s)
      → length query ≡ length md.flat_positions
      → b.kv_cache ≡ some cache
      → b.block_size ≡ s.block_manager.block_size
      → let layer = write_layer md.slot_mapping key value (cache layer_idx) in
        (out : List (Option O)) × (forward_ragged sdpa layer_idx query key value md b
          ≡ (ok out, record b { kv_cache = some (set_layer layer_idx layer cache) }))
        × (length out ≡ length query)
        × Attends attend layer s ids query out
  unfolding forward_ragged
  forward_ragged-Attends md layer_idx query key value cache b some_ e matches held size =
      let layer = write_layer md.slot_mapping key value (cache layer_idx) in
      let (md', width, e', batch') = assemble-IsBatch s h ids some_ all in
      let same : md' ≡ md = ok-injective (sym e' ∙ e) in
      let batch : IsBatch s ids width md = subst (IsBatch s ids width) same batch' in
      let (out, f, len, answers) = rows-Attends layer md query width batch matches in
      let ran = ap (λ (r : Result (List (Option O)) × List (Option O)). r.0) f in
      (out, rw (held, size, forward_ragged) (rw ran refl), len, answers)
