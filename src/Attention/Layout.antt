-- ===== src/Attention/Layout.antt =====
-- Where `_assemble` of engine.py puts the entries of each row: what the attention reads of a batch.
use paged_serve.Prelude.{
  Result, raise, ℕ, zero, suc, ◌+◌, ◌-◌, ◌*◌, ◌≤◌, ◌<◌, ◌≡◌, refl, sym, ap, ◌∙◌, arith, List, [],
  ◌∷◌, ◌++◌, some, map, append-nil, append_assoc, length, get_elem?, get_elem?_lt, take, drop,
  count, false, leb, ok, bind-ok, ◌==◌, if◌then◌else◌, Bool-cases, inl, inr,
}
use paged_serve.Block.{BlockTable, capacity, slot, blocks_needed}
use paged_serve.Block.Ceiling.{blocks_needed_bounds}
use paged_serve.Block.Slots.{slots_of_le}
use paged_serve.BlockManager
use paged_serve.BlockManager.{range_from, trash_block_id, num_used_blocks}
use paged_serve.Scheduler.{Scheduler, on_manager}
use paged_serve.Scheduler.Invariant.{Ready, table_of}
use paged_serve.Sequence.{total_len}
use paged_serve.Engine.{
  RaggedBatch, empty_batch, query_len_of, add_row, add_rows, tables_of, longest, pad, repeat,
  assemble,
}
use paged_serve.Engine.Batch.{IsScheduled, query_lens_of, query_len_of-le, row-slots}
use paged_serve.Attention.Rows.{
  prefix, offsets_from, ones, longer, flat, get_elem?-map, get_elem?-offsets_from, take-drop-flat,
  length-flat,
}
use paged_serve.Attention.Visible.{length-range_from}

abbrev pub ends_of : Scheduler → List ℕ → List ℕ
ends_of s ids = map (λ x. (s.sequences x).num_computed_tokens + query_len_of (s.sequences x)) ids

-- The slots that `_assemble` is given for a row.
abbrev listed : Result (List ℕ) → List ℕ
listed (ok l) = l
listed (raise e) = []

abbrev pub slots_of : Scheduler → ℕ → List ℕ
slots_of s x =
    listed
      (on_manager
        (BlockManager.slots x (s.sequences x).num_computed_tokens (query_len_of (s.sequences x)))
        s).0

abbrev pub positions_of : Scheduler → ℕ → List ℕ
positions_of s x = range_from (s.sequences x).num_computed_tokens (query_len_of (s.sequences x))

pub some-injective : {A : Type 0} {a b : A} → some a ≡ some b → a ≡ b
some-injective e = ground (arith, e)

-- What the rows of `ids` add to a batch.
pub record LaidOut (s : Scheduler) (row : ℕ) (ids : List ℕ) (b b' : RaggedBatch) : Type 0 where
  pub query_lens : b'.query_lens ≡ b.query_lens ++ query_lens_of s ids
  pub offsets : b'.query_offsets ≡ b.query_offsets ++ offsets_from b.offset (query_lens_of s ids)
  pub seq_lens : b'.seq_lens ≡ b.seq_lens ++ ends_of s ids
  pub positions : b'.flat_positions ≡ b.flat_positions ++ flat (positions_of s) ids
  pub slots : b'.slot_mapping ≡ b.slot_mapping ++ flat (slots_of s) ids
  pub decodes : b'.decode_rows ≡ b.decode_rows ++ ones row (query_lens_of s ids)
  pub prefills : b'.prefill_rows ≡ b.prefill_rows ++ longer row (query_lens_of s ids)

laid_first : (s : Scheduler) (row : ℕ) (b : RaggedBatch) → LaidOut s row [] b b
laid_first s row b = record {
  query_lens = sym (append-nil b.query_lens);
  offsets = sym (append-nil b.query_offsets);
  seq_lens = sym (append-nil b.seq_lens);
  positions = sym (append-nil b.flat_positions);
  slots = sym (append-nil b.slot_mapping);
  decodes = sym (append-nil b.decode_rows);
  prefills = sym (append-nil b.prefill_rows);
}

-- A list that got an entry under a test, and then more.
snoc_if :
    (c : ℕ) (xs rest : List ℕ) (row : ℕ)
    → (if c == 1 then xs ++ row ∷ [] else xs) ++ rest ≡ xs ++ (if c == 1 then row ∷ rest else rest)
snoc_if c xs rest row = elim (Bool-cases (c == 1)) [
  | inl e ↦ rw e (append_assoc xs (row ∷ []) rest)
  | inr e ↦ rw e
]

snoc_unless :
    (c : ℕ) (xs rest : List ℕ) (row : ℕ)
    → (if c == 1 then xs else xs ++ row ∷ []) ++ rest ≡ xs ++ (if c == 1 then rest else row ∷ rest)
snoc_unless c xs rest row = elim (Bool-cases (c == 1)) [
  | inl e ↦ rw e
  | inr e ↦ rw e (append_assoc xs (row ∷ []) rest)
]

laid_next :
    (s : Scheduler) (row x : ℕ) (ids l : List ℕ) (b b' : RaggedBatch)
    → slots_of s x ≡ l
    → LaidOut s (row + 1) ids (add_row row (s.sequences x) l b) b'
    → LaidOut s row (x ∷ ids) b b'
laid_next s row x ids l b b' given h =
    let q = s.sequences x in
    let n = query_len_of q in
    record {
      query_lens = h.query_lens ∙ append_assoc b.query_lens (n ∷ []) (query_lens_of s ids);
      offsets =
          h.offsets
          ∙ append_assoc b.query_offsets (b.offset ∷ [])
              (offsets_from (b.offset + n) (query_lens_of s ids));
      seq_lens =
          h.seq_lens ∙ append_assoc b.seq_lens ((q.num_computed_tokens + n) ∷ []) (ends_of s ids);
      positions =
          h.positions
          ∙ append_assoc b.flat_positions (positions_of s x) (flat (positions_of s) ids);
      slots =
          h.slots
          ∙ append_assoc b.slot_mapping l (flat (slots_of s) ids)
          ∙ ap (λ k. b.slot_mapping ++ (k ++ flat (slots_of s) ids)) (sym given);
      decodes = h.decodes ∙ snoc_if n b.decode_rows (ones (row + 1) (query_lens_of s ids)) row;
      prefills =
          h.prefills ∙ snoc_unless n b.prefill_rows (longer (row + 1) (query_lens_of s ids)) row;
    }

module _ (s : Scheduler) (h : Ready s) where
  add_rows-LaidOut :
      (ids : List ℕ) (row : ℕ) (b : RaggedBatch)
      → ((x : ℕ) → 0 < count x ids → IsScheduled s x)
      → (b' : RaggedBatch) × (add_rows row ids b s ≡ (ok b', s)) × LaidOut s row ids b b'
  unfolding add_rows
  add_rows-LaidOut [] row b all = (b, refl, laid_first s row b)
  add_rows-LaidOut (x ∷ ids) row b all =
      let q = s.sequences x in
      let (l, e, len) = row-slots s h x (all x (ground arith)) in
      let (b', f, r) =
        add_rows-LaidOut ids (row + 1) (add_row row q l b) (λ y c. all y (omega arith)) in
      (
        b',
        bind-ok (on_manager (BlockManager.slots x q.num_computed_tokens (query_len_of q)))
              (λ slots. add_rows (row + 1) ids (add_row row q slots b)) e
            ∙ f,
        laid_next s row x ids l b b' (ap (λ (r : Result (List ℕ) × Scheduler). listed r.0) e) r,
      )

  -- The table of a scheduled sequence has the allocator's block size and holds the row's positions.
  pub placed_table :
      {x : ℕ} {t : BlockTable}
      → IsScheduled s x
      → table_of s x ≡ some t
      → (0 < t.block_size)
        × (t.block_size ≡ s.block_manager.block_size)
        × ((s.sequences x).num_computed_tokens + query_len_of (s.sequences x) ≤ capacity t)
  unfolding capacity
  placed_table {x} {t} i f =
      let n = s.block_manager.block_size in
      let (u, here, size, more) = (h.places x).table i.queued_up in
      let same : u ≡ t = some-injective (sym here ∙ f) in
      let size' : t.block_size ≡ n = rw (← same) size in
      let full : length t.blocks ≡ blocks_needed n (total_len (s.sequences x)) =
        rw (← same) (more i.runs_now) in
      let holds = blocks_needed_bounds n (total_len (s.sequences x)) h.positive in
      (
        rw size' h.positive,
        size',
        rw (size', full) (omega (arith, holds.0, query_len_of-le (s.sequences x) i.computed)),
      )

  -- The slots of a row are those of its positions, in order.
  pub slots_of-entries :
      {x : ℕ} {t : BlockTable}
      → IsScheduled s x
      → table_of s x ≡ some t
      → (length (slots_of s x) ≡ query_len_of (s.sequences x))
        × ((i : ℕ)
            → i < query_len_of (s.sequences x)
            → (a : ℕ) × (get_elem? (slots_of s x) i ≡ some a)
              × (slot t ((s.sequences x).num_computed_tokens + i) ≡ ok a))
  unfolding BlockManager.slots
  slots_of-entries {x} {t} i f =
      let start = (s.sequences x).num_computed_tokens in
      let k = query_len_of (s.sequences x) in
      let (positive, size, fits) = placed_table i f in
      let (l, g, len, at) = slots_of_le t positive start k fits in
      let run : on_manager (BlockManager.slots x start k) s ≡ (ok l, s) = rw (f, g) refl in
      let same : slots_of s x ≡ l = ap (λ (r : Result (List ℕ) × Scheduler). listed r.0) run in
      (
        ap length same ∙ len,
        λ j lt. let (a, found, here) = at j lt in (a, ap (λ m. get_elem? m j) same ∙ found, here),
      )

  -- The tables of the rows, in order.
  tables_of-entries :
      (ids : List ℕ)
      → ((x : ℕ) → 0 < count x ids → IsScheduled s x)
      → (ts : List (List ℕ)) × (tables_of ids s ≡ (ok ts, s))
        × ((r x : ℕ) (t : BlockTable)
            → get_elem? ids r ≡ some x
            → table_of s x ≡ some t
            → get_elem? ts r ≡ some t.blocks)
  unfolding tables_of BlockManager.block_table
  tables_of-entries [] all = ([], refl, λ r x t e f. absurd (ground arith))
  tables_of-entries (y ∷ ids) all =
      let (u, e, size, f) = (h.places y).table (all y (ground arith)).queued_up in
      let (ts, g, at) = tables_of-entries ids (λ z c. all z (omega arith)) in
      (u.blocks ∷ ts, rw (e, g) refl, entry u ts e at)
    where
      entry :
          (u : BlockTable) (ts : List (List ℕ))
          → table_of s y ≡ some u
          → ((r x : ℕ) (t : BlockTable)
              → get_elem? ids r ≡ some x
              → table_of s x ≡ some t
              → get_elem? ts r ≡ some t.blocks)
          → (r x : ℕ) (t : BlockTable) → get_elem? (y ∷ ids) r ≡ some x
          → table_of s x ≡ some t
          → get_elem? (u.blocks ∷ ts) r ≡ some t.blocks
      entry u ts e at zero x t f g =
          let same : y ≡ x = ground arith in
          let k : some u ≡ some t = sym e ∙ ap (table_of s) same ∙ g in ground arith
      entry u ts e at (suc r) x t f g = at r x t f g

zero_plus : (n : ℕ) → 0 + n ≡ n
zero_plus n = omega arith

pub length-query_lens_of :
    (s : Scheduler) (ids : List ℕ) → length (query_lens_of s ids) ≡ length ids
length-query_lens_of s [] = refl
length-query_lens_of s (x ∷ ids) = ap suc (length-query_lens_of s ids)

longest-le :
    (ts : List (List ℕ)) (r : ℕ) {t : List ℕ} → get_elem? ts r ≡ some t → length t ≤ longest ts
unfolding longest
longest-le [] r e = absurd (ground arith)
longest-le (u ∷ ts) zero {t} e = omega (arith, ap length (some-injective e))
longest-le (u ∷ ts) (suc r) e = omega (arith, longest-le ts r e)

get_elem?-pad :
    (width trash : ℕ) (ts : List (List ℕ)) (r : ℕ) {t : List ℕ}
    → get_elem? ts r ≡ some t
    → get_elem? (pad width trash ts) r ≡ some (t ++ repeat (width - length t) trash)
unfolding pad
get_elem?-pad width trash [] r e = absurd (ground arith)
get_elem?-pad width trash (u ∷ ts) zero e =
    ap (λ t. some (t ++ repeat (width - length t) trash)) (some-injective e)
get_elem?-pad width trash (u ∷ ts) (suc r) e = get_elem?-pad width trash ts r e

length-repeat : (n x : ℕ) → length (repeat n x) ≡ n
length-repeat zero x = refl
length-repeat (suc n) x = ap suc (length-repeat n x)

-- What a batch says of row `r`, which is that of the sequence `x` with the table `t`.
pub record IsRow (s : Scheduler) (ids : List ℕ) (md : RaggedBatch) (width r x : ℕ) (t : BlockTable)
    : Type 0 where
  pub offset : get_elem? md.query_offsets r ≡ some (prefix (query_lens_of s ids) r)
  pub query_len : get_elem? md.query_lens r ≡ some (query_len_of (s.sequences x))
  pub seq_len :
      get_elem? md.seq_lens r
      ≡ some ((s.sequences x).num_computed_tokens + query_len_of (s.sequences x))
  pub padding : List ℕ
  pub table : get_elem? md.block_tables r ≡ some (t.blocks ++ padding)
  pub padded : length t.blocks + length padding ≡ width
  pub positions :
      take (query_len_of (s.sequences x)) (drop (prefix (query_lens_of s ids) r) md.flat_positions)
      ≡ positions_of s x

-- A batch of `ids`, row by row.
pub record IsBatch (s : Scheduler) (ids : List ℕ) (width : ℕ) (md : RaggedBatch) : Type 0 where
  pub rows :
      (r x : ℕ) (t : BlockTable)
      → get_elem? ids r ≡ some x
      → table_of s x ≡ some t
      → IsRow s ids md width r x t
  pub decodes : md.decode_rows ≡ ones 0 (query_lens_of s ids)
  pub prefills : md.prefill_rows ≡ longer 0 (query_lens_of s ids)
  pub slots : md.slot_mapping ≡ flat (slots_of s) ids
  pub total : length md.flat_positions ≡ prefix (query_lens_of s ids) (length ids)
  pub gathered : md.gathered_len ≡ width * s.block_manager.block_size

-- `_assemble` returns such a batch.
pub assemble-IsBatch :
    (s : Scheduler)
    → Ready s
    → (ids : List ℕ) → 0 < length ids
    → ((x : ℕ) → 0 < count x ids → IsScheduled s x)
    → (md : RaggedBatch) × (width : ℕ) × (assemble ids s ≡ (ok md, s)) × IsBatch s ids width md
unfolding assemble
assemble-IsBatch s h ids some_ all =
    let (b, f, laid) = add_rows-LaidOut s h ids 0 empty_batch all in
    let (ts, g, at) = tables_of-entries s h ids all in
    let nonempty : leb (length ids) 0 ≡ false = ground arith in
    (
      record b {
        block_tables = pad (longest ts) (trash_block_id s.block_manager) ts;
        gathered_len = longest ts * s.block_manager.block_size;
        used_blocks = num_used_blocks s.block_manager;
      },
      longest ts,
      rw (f, g, nonempty) refl,
      record {
        rows = λ r x t e k. record {
          offset =
              ap (λ l. get_elem? l r) laid.offsets
              ∙ get_elem?-offsets_from 0 (query_lens_of s ids) r
                  (rw (length-query_lens_of s ids) (get_elem?_lt ids r e))
              ∙ ap some (zero_plus (prefix (query_lens_of s ids) r));
          query_len =
              ap (λ l. get_elem? l r) laid.query_lens
              ∙ get_elem?-map (λ y. query_len_of (s.sequences y)) ids r e;
          seq_len =
              ap (λ l. get_elem? l r) laid.seq_lens
              ∙ get_elem?-map
                  (λ y. (s.sequences y).num_computed_tokens + query_len_of (s.sequences y)) ids r e;
          padding = repeat (longest ts - length t.blocks) (trash_block_id s.block_manager);
          table = get_elem?-pad (longest ts) (trash_block_id s.block_manager) ts r (at r x t e k);
          padded = omega (
            arith,
            length-repeat (longest ts - length t.blocks) (trash_block_id s.block_manager),
            longest-le ts r (at r x t e k),
          );
          positions =
              ap
                (λ l. take (query_len_of (s.sequences x)) (drop (prefix (query_lens_of s ids) r) l))
                laid.positions
              ∙ take-drop-flat (positions_of s) (λ y. query_len_of (s.sequences y)) ids
                  (λ y c.
                    length-range_from (s.sequences y).num_computed_tokens
                      (query_len_of (s.sequences y)))
                  r e;
        };
        decodes = laid.decodes;
        prefills = laid.prefills;
        slots = laid.slots;
        total =
            ap length laid.positions
            ∙ length-flat (positions_of s) (λ y. query_len_of (s.sequences y))
                (λ y.
                  length-range_from (s.sequences y).num_computed_tokens
                    (query_len_of (s.sequences y)))
                ids;
        gathered = refl;
      },
    )
