-- ===== src/Engine/Batch.antt =====
-- `_assemble` of engine.py: the rows of a batch and how its lists fit together.
use paged_serve.Prelude.{
  ℕ, zero, suc, ◌+◌, ◌-◌, ◌*◌, ◌≤◌, ◌<◌, ◌≡◌, refl, ap, ◌∙◌, arith, false, List, [], ◌∷◌, ◌++◌, map,
  append-nil, append_assoc, sym, length, length-append, count, take, drop, leb, ok, bind-ok,
}
use mathlib.Core.Path.{subst}
use paged_serve.Block.{capacity}
use paged_serve.Block.Ceiling.{blocks_needed_bounds}
use paged_serve.Block.Slots.{slots_of_le}
use paged_serve.BlockManager
use paged_serve.BlockManager.{BlockManager, range_from, trash_block_id, num_used_blocks, find_table}
use paged_serve.Sequence.{Sequence, SequenceStatus, total_len, all_token_ids}
use paged_serve.Scheduler.{Scheduler, on_manager}
use paged_serve.Scheduler.Invariant.{Ready, status_of}
use paged_serve.Engine.{
  RaggedBatch, empty_batch, query_len_of, add_row, add_rows, tables_of, longest, pad, assemble,
}

-- What a sequence of a batch is: running, with computed tokens that it has.
pub record IsScheduled (s : Scheduler) (x : ℕ) : Type 0 where
  pub queued_up : 0 < count x s.running
  pub runs_now : status_of s x ≡ SequenceStatus.running
  pub computed : (s.sequences x).num_computed_tokens ≤ total_len (s.sequences x)

-- How the lists of a batch of `n` rows fit together.
pub record IsRagged (n : ℕ) (b : RaggedBatch) : Type 0 where
  pub tokens : length b.flat_tokens ≡ b.offset
  pub positions : length b.flat_positions ≡ b.offset
  pub slots : length b.slot_mapping ≡ b.offset
  pub query_lens : length b.query_lens ≡ n
  pub query_offsets : length b.query_offsets ≡ n
  pub seq_lens : length b.seq_lens ≡ n
  pub kinds : length b.decode_rows + length b.prefill_rows ≡ n
  pub samples : length b.logits_indices ≡ length b.sample_rows

plus_zero : (n : ℕ) → n ≡ n + 0
plus_zero n = omega arith

plus_suc : (n k : ℕ) → n + 1 + k ≡ n + suc k
plus_suc n k = omega arith

zero_plus : (n : ℕ) → 0 + n ≡ n
zero_plus n = omega arith

length-pad : (width trash : ℕ) (ts : List (List ℕ)) → length (pad width trash ts) ≡ length ts
unfolding pad
length-pad width trash [] = refl
length-pad width trash (t ∷ ts) = ap suc (length-pad width trash ts)

none_yet : IsRagged 0 empty_batch
none_yet = record {
  tokens = refl;
  positions = refl;
  slots = refl;
  query_lens = refl;
  query_offsets = refl;
  seq_lens = refl;
  kinds = omega arith;
  samples = refl;
}

length-range : (start n : ℕ) → length (range_from start n) ≡ n
length-range start zero = refl
length-range start (suc n) = ap suc (length-range (suc start) n)

length-take-drop :
    (start n : ℕ) (xs : List ℕ) → start + n ≤ length xs → length (take n (drop start xs)) ≡ n
length-take-drop zero zero xs h = refl
length-take-drop zero (suc n) [] h = absurd (omega arith)
length-take-drop zero (suc n) (x ∷ xs) h = ap suc (length-take-drop zero n xs (omega arith))
length-take-drop (suc start) zero [] h = refl
length-take-drop (suc start) zero (x ∷ xs) h = length-take-drop start zero xs (omega arith)
length-take-drop (suc start) (suc n) [] h = absurd (omega arith)
length-take-drop (suc start) (suc n) (x ∷ xs) h = length-take-drop start (suc n) xs (omega arith)

pub query_len_of-le :
    (q : Sequence)
    → q.num_computed_tokens ≤ total_len q
    → q.num_computed_tokens + query_len_of q ≤ total_len q
unfolding query_len_of
query_len_of-le q h = ground arith

add_row-IsRagged :
    (n row : ℕ) (q : Sequence) (l : List ℕ) (b : RaggedBatch)
    → IsRagged n b
    → q.num_computed_tokens ≤ total_len q
    → length l ≡ query_len_of q
    → IsRagged (n + 1) (add_row row q l b)
add_row-IsRagged n row q l b h le len =
    let within : q.num_computed_tokens + query_len_of q ≤ length (all_token_ids q) =
      omega (arith, query_len_of-le q le, length-append q.prompt_token_ids q.output_token_ids) in
    let taken = length-take-drop q.num_computed_tokens (query_len_of q) (all_token_ids q) within in
    record {
      tokens = omega (
        arith,
        h.tokens,
        taken,
        length-append b.flat_tokens
            (take (query_len_of q) (drop q.num_computed_tokens (all_token_ids q))),
      );
      positions = omega (
        arith,
        h.positions,
        length-range q.num_computed_tokens (query_len_of q),
        length-append b.flat_positions (range_from q.num_computed_tokens (query_len_of q)),
      );
      slots = omega (arith, h.slots, len, length-append b.slot_mapping l);
      query_lens = omega (arith, h.query_lens, length-append b.query_lens (query_len_of q ∷ []));
      query_offsets = omega (arith, h.query_offsets, length-append b.query_offsets (b.offset ∷ []));
      seq_lens = omega (
        arith,
        h.seq_lens,
        length-append b.seq_lens ((q.num_computed_tokens + query_len_of q) ∷ []),
      );
      kinds = ground (
        arith,
        h.kinds,
        length-append b.decode_rows (row ∷ []),
        length-append b.prefill_rows (row ∷ []),
      );
      samples = ground (
        arith,
        h.samples,
        length-append b.logits_indices ((b.offset + query_len_of q - 1) ∷ []),
        length-append b.sample_rows (row ∷ []),
      );
    }

-- The query lengths of the rows.
abbrev pub query_lens_of : Scheduler → List ℕ → List ℕ
query_lens_of s ids = map (λ x. query_len_of (s.sequences x)) ids

module _ (s : Scheduler) (h : Ready s) where
  -- The positions that a row runs have slots.
  pub row-slots :
      (x : ℕ)
      → IsScheduled s x
      → (l : List ℕ) × (on_manager
            (BlockManager.slots x
              (s.sequences x).num_computed_tokens
              (query_len_of (s.sequences x)))
            s
          ≡ (ok l, s))
        × (length l ≡ query_len_of (s.sequences x))
  unfolding BlockManager.slots capacity
  row-slots x i =
      let (t, e, size, f) = (h.places x).table i.queued_up in
      let q = s.sequences x in
      let holds = blocks_needed_bounds s.block_manager.block_size (total_len q) h.positive in
      let fits : q.num_computed_tokens + query_len_of q ≤ capacity t =
        rw (size, f i.runs_now) (omega (arith, holds.0, query_len_of-le q i.computed)) in
      let (l, g, len, at) =
        slots_of_le t (rw size h.positive) q.num_computed_tokens (query_len_of q) fits in
      (l, rw (e, g) refl, len)

  add_rows-IsRagged :
      (ids : List ℕ) (n row : ℕ) (b : RaggedBatch)
      → IsRagged n b
      → ((x : ℕ) → 0 < count x ids → IsScheduled s x)
      → (b' : RaggedBatch) × (add_rows row ids b s ≡ (ok b', s))
        × IsRagged (n + length ids) b'
        × (b'.query_lens ≡ b.query_lens ++ query_lens_of s ids)
  unfolding add_rows
  add_rows-IsRagged [] n row b r all =
      (b, refl, subst (λ k. IsRagged k b) (plus_zero n) r, sym (append-nil b.query_lens))
  add_rows-IsRagged (x ∷ ids) n row b r all =
      let i = all x (ground arith) in
      let q = s.sequences x in
      let (l, e, len) = row-slots x i in
      let (b', f, r', lens) =
        add_rows-IsRagged ids (n + 1) (row + 1) (add_row row q l b)
          (add_row-IsRagged n row q l b r i.computed len) (λ y c. all y (omega arith)) in
      (
        b',
        bind-ok (on_manager (BlockManager.slots x q.num_computed_tokens (query_len_of q)))
              (λ slots. add_rows (row + 1) ids (add_row row q slots b)) e
            ∙ f,
        subst (λ k. IsRagged k b') (plus_suc n (length ids)) r',
        lens ∙ append_assoc b.query_lens (query_len_of q ∷ []) (query_lens_of s ids),
      )

  tables_of-length :
      (ids : List ℕ)
      → ((x : ℕ) → 0 < count x ids → IsScheduled s x)
      → (ts : List (List ℕ)) × (tables_of ids s ≡ (ok ts, s)) × (length ts ≡ length ids)
  unfolding tables_of BlockManager.block_table
  tables_of-length [] all = ([], refl, refl)
  tables_of-length (x ∷ ids) all =
      let (t, e, size, f) = (h.places x).table (all x (ground arith)).queued_up in
      let (ts, g, len) = tables_of-length ids (λ y c. all y (omega arith)) in
      (t.blocks ∷ ts, rw (e, g) refl, ap suc len)

  pub assemble-IsRagged :
      (ids : List ℕ)
      → 0 < length ids
      → ((x : ℕ) → 0 < count x ids → IsScheduled s x)
      → (b : RaggedBatch) × (assemble ids s ≡ (ok b, s))
        × IsRagged (length ids) b
        × (length b.block_tables ≡ length ids)
        × (b.query_lens ≡ query_lens_of s ids)
  unfolding assemble
  assemble-IsRagged ids some_ all =
      let (b, f, r, lens) = add_rows-IsRagged ids 0 0 empty_batch none_yet all in
      let (ts, g, len) = tables_of-length ids all in
      let nonempty : leb (length ids) 0 ≡ false = ground arith in
      (
        record b {
          block_tables = pad (longest ts) (trash_block_id s.block_manager) ts;
          gathered_len = longest ts * s.block_manager.block_size;
          used_blocks = num_used_blocks s.block_manager;
        },
        rw (f, g, nonempty) refl,
        record {
          tokens = r.tokens;
          positions = r.positions;
          slots = r.slots;
          query_lens = r.query_lens ∙ zero_plus (length ids);
          query_offsets = r.query_offsets ∙ zero_plus (length ids);
          seq_lens = r.seq_lens ∙ zero_plus (length ids);
          kinds = r.kinds ∙ zero_plus (length ids);
          samples = r.samples;
        },
        length-pad (longest ts) (trash_block_id s.block_manager) ts ∙ len,
        lens,
      )
