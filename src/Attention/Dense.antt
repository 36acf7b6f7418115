-- ===== src/Attention/Dense.antt =====
-- `begin_step` and `forward` of contiguous.py together: what a query of a left-padded batch attends to.
use paged_serve.Prelude.{
  ℕ, zero, suc, ◌+◌, ◌-◌, ◌≤◌, ◌<◌, ◌≡◌, ◌≢◌, ==_self, ==_of_ne, refl, ap, ◌∙◌, arith, Bool, false,
  ◌&&◌, List, [], ◌∷◌, some, map, length, get_elem?, take, min, max, leb, ltb_of_le, Bool-cases,
  inl, inr, ok,
}
use paged_serve.BlockManager.{range_from}
use paged_serve.Attention.{StepInput, key_len, unmasked}
use paged_serve.Attention.Gather.{attend_each, sum}
use paged_serve.Attention.Contiguous.{
  Dense, DenseLayer, DenseMetadata, both, dense_mask, build_attn_bias, begin_step, set_dense,
  attend_dense, forward,
}
use paged_serve.Attention.Assign.{Shaped, Assigned, write_dense-Assigned}
use paged_serve.Attention.Visible.{length-map_lem, length-range_from, get_elem?-range_from}
use paged_serve.Attention.Layout.{some-injective}
use paged_serve.Attention.Rows.{get_elem?-map}
use paged_serve.Attention.Ragged.{get_elem?-attend_each}

-- A mask whose first `pad` entries are padding.
abbrev pub left_padded : ℕ → ℕ → List Bool
left_padded pad n = map (λ key. leb pad key) (range_from 0 n)

both-map : (f g : ℕ → Bool) (xs : List ℕ) → both (map f xs) (map g xs) ≡ map (λ x. f x && g x) xs
both-map f g [] = refl
both-map f g (x ∷ xs) = ap (λ l. (f x && g x) ∷ l) (both-map f g xs)

-- A key that is hidden is padding, or lies behind the query.
skip :
    {A : Type 0} (f : ℕ → A) (pad pos start n : ℕ)
    → (leb pad start && leb start pos) ≡ false
    → map f (range_from (max (suc start) pad) (min (suc start + n) (pos + 1) - max (suc start) pad))
      ≡ map f (range_from (max start pad) (min (start + suc n) (pos + 1) - max start pad))
skip f pad pos start n hidden = elim (Bool-cases (leb pad start)) [
  | inl real ↦
      let here : min (suc start + n) (pos + 1) - max (suc start) pad ≡ 0 = ground arith in
      let there : min (start + suc n) (pos + 1) - max start pad ≡ 0 = ground arith in
      rw (here, there) refl
  | inr padding ↦
      let first : max (suc start) pad ≡ max start pad = ground arith in
      let end_ : suc start + n ≡ start + suc n = omega arith in
      ap (λ k. map f (range_from k (min (suc start + n) (pos + 1) - k))) first
      ∙ ap (λ k. map f (range_from (max start pad) (min k (pos + 1) - max start pad))) end_
]

-- A query sees the keys from the first real one up to its own.
unmasked-between :
    {A : Type 0} (f : ℕ → A) (pad pos start n : ℕ)
    → unmasked
        (map (λ key. leb pad key && leb key pos) (range_from start n))
        (map f (range_from start n))
      ≡ map f (range_from (max start pad) (min (start + n) (pos + 1) - max start pad))
unmasked-between f pad pos start zero =
    let none_ : min (start + 0) (pos + 1) - max start pad ≡ 0 = omega arith in rw none_ refl
unmasked-between f pad pos start (suc n) =
    let rest = unmasked-between f pad pos (suc start) n in
    let end_ : suc start + n ≡ start + suc n = omega arith in
    elim (Bool-cases (leb pad start && leb start pos)) [
      | inl seen ↦
          let first : max start pad ≡ start = ground arith in
          let next : max (suc start) pad ≡ suc start = ground arith in
          let more : min (start + suc n) (pos + 1) - start
              ≡ suc (min (start + suc n) (pos + 1) - suc start) =
            ground arith in
          rw (seen, first, more)
            (ap (λ l. f start ∷ l)
              (rest
                ∙ ap (λ k. map f (range_from k (min (suc start + n) (pos + 1) - k))) next
                ∙ ap (λ k. map f (range_from (suc start) (min k (pos + 1) - suc start))) end_))
      | inr hidden ↦ rw hidden (rest ∙ skip f pad pos start n hidden)
    ]

-- The entries of the batch, by sequence.
module _ {Q R O : Type 0} (sdpa : Q → List R → List R → List Bool → O) (n : ℕ)
    (layer : DenseLayer R) where
  get_elem?-attend_dense :
      (seq : ℕ) (query : List (List Q)) (masks : List (List (List Bool))) (r : ℕ) {qs : List Q}
      {ms : List (List Bool)}
      → get_elem? query r ≡ some qs
      → get_elem? masks r ≡ some ms
      → get_elem? (attend_dense sdpa seq n layer query masks) r
        ≡ some (
            attend_each sdpa
              (map (layer.keys (seq + r)) (range_from 0 n))
              (map (layer.values (seq + r)) (range_from 0 n))
              qs
              ms)
  get_elem?-attend_dense seq [] masks r e f = absurd (ground arith)
  get_elem?-attend_dense seq (q ∷ query) [] r e f = absurd (ground arith)
  get_elem?-attend_dense seq (q ∷ query) (m ∷ masks) zero e f =
      let here : seq + 0 ≡ seq = omega arith in rw (here, some-injective e, some-injective f) refl
  get_elem?-attend_dense seq (q ∷ query) (m ∷ masks) (suc r) e f =
      let next : seq + suc r ≡ suc seq + r = omega arith in
      rw next (get_elem?-attend_dense (suc seq) query masks r e f)

pub get_elem?-map_list :
    {A B : Type 0} (f : A → B) (xs : List A) (r : ℕ) {x : A}
    → get_elem? xs r ≡ some x
    → get_elem? (map f xs) r ≡ some (f x)
get_elem?-map_list f [] r e = absurd (ground arith)
get_elem?-map_list f (y ∷ xs) zero e = ap (λ z. some (f z)) (some-injective e)
get_elem?-map_list f (y ∷ xs) (suc r) e = get_elem?-map_list f xs r e

get_elem?-map_back :
    {A B : Type 0} (f : A → B) (xs : List A) (r : ℕ) {y : B}
    → get_elem? (map f xs) r ≡ some y
    → (x : A) × (get_elem? xs r ≡ some x) × (f x ≡ y)
get_elem?-map_back f [] r e = absurd (ground arith)
get_elem?-map_back f (x ∷ xs) zero e = (x, refl, some-injective e)
get_elem?-map_back f (x ∷ xs) (suc r) e = get_elem?-map_back f xs r e

key_len_lem : (step : StepInput) → key_len step ≡ step.context_len + step.query_len
unfolding key_len
key_len_lem step = refl

zero_plus : (n : ℕ) → 0 + n ≡ n
zero_plus n = omega arith

-- What each query of a left-padded batch attends to: the rows of its own sequence slot from the
-- first real token up to its own position, in order. `pads` has the padding of each sequence.
abbrev pub DenseAttends :
    {Q R O : Type 0}
    → (Q → List R → List R → O)
    → DenseLayer R
    → StepInput
    → List ℕ
    → List (List Q)
    → List (List O)
    → Type 0
DenseAttends {Q} {R} {O} attend layer step pads query out =
    (r i pad : ℕ) (qs : List Q) (q : Q)
    → get_elem? pads r ≡ some pad
    → get_elem? query r ≡ some qs
    → get_elem? qs i ≡ some q
    → i < step.query_len
    → pad ≤ step.context_len + i
    → let seen = range_from pad (step.context_len + i + 1 - pad) in
      (os : List O) × (get_elem? out r ≡ some os)
      × (get_elem? os i ≡ some (attend q (map (layer.keys r) seen) (map (layer.values r) seen)))

module _ {Q R O : Type 0} (sdpa : Q → List R → List R → List Bool → O)
    (attend : Q → List R → List R → O)
    (masked_out : (q : Q) (ks vs : List R) (mask : List Bool)
      → 0 < length (unmasked mask ks)
      → sdpa q ks vs mask ≡ attend q (unmasked mask ks) (unmasked mask vs)) where
  dense_attends :
      (step : StepInput) (pads : List ℕ)
      → map (take (key_len step)) step.padding_mask
        ≡ map (λ pad. left_padded pad (key_len step)) pads
      → (layer : DenseLayer R) (query : List (List Q))
      → DenseAttends attend layer step pads query
          (attend_dense sdpa 0 (key_len step) layer query (build_attn_bias step))
  unfolding build_attn_bias
  dense_attends step pads lefts layer query r i pad qs q e f g lt real =
      let n = key_len step in
      let back =
        get_elem?-map_back (take n) step.padding_mask r
          (ap (λ l. get_elem? l r) lefts ∙ get_elem?-map_list (λ k. left_padded k n) pads r e) in
      let mask = back.0 in
      let padded : take n mask ≡ left_padded pad n = back.2 in
      let p = step.context_len + i in
      let seen = range_from pad (p + 1 - pad) in
      let masks = map (dense_mask n mask) (range_from step.context_len step.query_len) in
      let keys = map (layer.keys r) (range_from 0 n) in
      let values = map (layer.values r) (range_from 0 n) in
      let here : dense_mask n mask p ≡ map (λ key. leb pad key && leb key p) (range_from 0 n) =
        ap (λ l. both l (map (λ key. leb key p) (range_from 0 n))) padded
        ∙ both-map (λ key. leb pad key) (λ key. leb key p) (range_from 0 n) in
      let first : max 0 pad ≡ pad = omega arith in
      let last : min (0 + n) (p + 1) ≡ p + 1 = omega (arith, key_len_lem step) in
      let see : (plane : ℕ → R)
          → unmasked (dense_mask n mask p) (map plane (range_from 0 n)) ≡ map plane seen =
        λ plane.
          ap (λ m. unmasked m (map plane (range_from 0 n))) here
          ∙ unmasked-between plane pad p 0 n
          ∙ ap (λ k. map plane (range_from k (min (0 + n) (p + 1) - k))) first
          ∙ ap (λ k. map plane (range_from pad (k - pad))) last in
      let count_seen : length (unmasked (dense_mask n mask p) keys) ≡ p + 1 - pad =
        ap length (see (layer.keys r))
        ∙ length-map_lem (layer.keys r) seen
        ∙ length-range_from pad (p + 1 - pad) in
      let own : get_elem? masks i ≡ some (dense_mask n mask p) =
        get_elem?-map (dense_mask n mask) (range_from step.context_len step.query_len) i
          (get_elem?-range_from i step.context_len step.query_len lt) in
      (
        attend_each sdpa keys values qs masks,
        get_elem?-attend_dense sdpa n layer 0 query (build_attn_bias step) r f (
              get_elem?-map_list
                (λ padding. map (dense_mask n padding) (range_from step.context_len step.query_len))
                step.padding_mask r back.1)
            ∙ ap
                (λ k. some (
                  attend_each sdpa (map (layer.keys k) (range_from 0 n))
                    (map (layer.values k) (range_from 0 n)) qs masks))
                (zero_plus r),
        get_elem?-attend_each sdpa keys values qs masks i g own
            ∙ ap some (masked_out q keys values (dense_mask n mask p) (omega (arith, count_seen)))
            ∙ ap (λ ks. some (attend q ks (unmasked (dense_mask n mask p) values)))
                (see (layer.keys r))
            ∙ ap (λ vs. some (attend q (map (layer.keys r) seen) vs)) (see (layer.values r)),
      )

  -- Let the attention of one query depend only on the keys and values that its mask allows, if
  -- there are any. On an allocated dense cache with enough positions and sequence slots, for a
  -- step in which the padding of each sequence stands at the left, and for K and V with a row for
  -- each sequence of the batch and position of the step, `begin_step` and then `forward` do not
  -- raise. Of the cache only the given layer changes: each sequence's slot has its K and V rows
  -- at the step's positions, and all else of the layer is as before. Each query of a real token
  -- attends to exactly the rows, in that layer, of its own sequence slot from the first real
  -- token up to its own position, in order.
  pub forward-DenseAttends :
      (step : StepInput) (pads : List ℕ)
      → map (take (key_len step)) step.padding_mask
        ≡ map (λ pad. left_padded pad (key_len step)) pads
      → (layer_idx : ℕ) (query : List (List Q)) (key value : List (List R))
        (cache : ℕ → DenseLayer R) (b : Dense R)
      → b.kv_cache ≡ some cache
      → key_len step ≤ b.max_seq_len
      → length query ≤ b.num_seq_slots
      → Shaped (length query) step.query_len key
      → Shaped (length query) step.query_len value
      → (md : DenseMetadata) × (out : List (List O)) × (b1 : Dense R) × (b2 : Dense R) × (cache' : ℕ
          → DenseLayer R)
        × (begin_step step b ≡ (ok md, b1))
        × (forward sdpa layer_idx query key value md b1 ≡ (ok out, b2))
        × (b2.kv_cache ≡ some cache')
        × ((i : ℕ) → i ≢ layer_idx → cache' i ≡ cache i)
        × Assigned step.context_len step.query_len key
            (cache layer_idx).keys
            (cache' layer_idx).keys
        × Assigned step.context_len step.query_len value
            (cache layer_idx).values
            (cache' layer_idx).values
        × DenseAttends attend (cache' layer_idx) step pads query out
  unfolding begin_step forward
  forward-DenseAttends step pads lefts layer_idx query key value cache b held fits slots key_shape
        value_shape =
      let old = cache layer_idx in
      let room : step.context_len + step.query_len ≤ b.max_seq_len =
        omega (arith, fits, key_len_lem step) in
      let (ks, e, k) =
        write_dense-Assigned (length query) step.context_len step.query_len b.max_seq_len key
          old.keys key_shape room in
      let (vs, f, v) =
        write_dense-Assigned (length query) step.context_len step.query_len b.max_seq_len value
          old.values value_shape room in
      let layer : DenseLayer R = record { keys = ks; values = vs } in
      let b1 = record b { live_tokens = sum step.seq_lens; kv_cache = some cache } in
      let here : set_dense layer_idx layer cache layer_idx ≡ layer = rw (==_self layer_idx) refl in
      (
        record {
          write_start = step.context_len;
          query_len = step.query_len;
          key_len = key_len step;
          attn_bias = build_attn_bias step;
          live_tokens = sum step.seq_lens;
        },
        attend_dense sdpa 0 (key_len step) layer query (build_attn_bias step),
        b1,
        record b1 { kv_cache = some (set_dense layer_idx layer cache) },
        set_dense layer_idx layer cache,
        rw (held, ltb_of_le b.max_seq_len (key_len step) fits) refl,
        rw (ltb_of_le b.num_seq_slots (length query) slots, e, f) refl,
        refl,
        λ i ne. rw (==_of_ne i layer_idx ne) refl,
        rw here k,
        rw here v,
        rw here (dense_attends step pads lefts layer query),
      )
