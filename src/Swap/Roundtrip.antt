-- ===== src/Swap/Roundtrip.antt =====
-- `swap_out` of cache_engine.py: which host blocks a call takes, and what it copies to them.
use paged_serve.Prelude.{
  zero, suc, get_elem?, ltb, ltb_of_lt, ◌==◌, ◌&&◌, if◌then◌else◌, Bool-cases, inl, inr, ℕ, ◌+◌,
  ◌≤◌, ◌<◌, ◌≡◌, refl, ap, ◌∙◌, arith, true, List, [], ◌∷◌, ◌++◌, some, length, length-append,
  count, count-append, leb-true, ok,
}
use paged_serve.Swap.{
  SwapSpace, KvCache, num_free_blocks, can_swap_out, pop, pop_each, copy_rows, copy_planes,
  swap_out,
}

-- `pop` takes the last entry.
pub pop-some :
    (l : List ℕ)
    → 0 < length l
    → (c : ℕ) × (rest : List ℕ) × (pop l ≡ some (c, rest)) × (l ≡ rest ++ c ∷ [])
unfolding pop
pop-some [] h = absurd (omega arith)
pop-some (x ∷ []) h = (x, [], refl, refl)
pop-some (x ∷ y ∷ l) h =
    let (c, rest, e, f) = pop-some (y ∷ l) (omega arith) in
    (c, x ∷ rest, ground arith, ap (◌∷◌ x) f)

-- With enough entries each pop succeeds, and the popped ones and the rest are what was there.
pub pop_each-some :
    (bs l : List ℕ)
    → length bs ≤ length l
    → (cs : List ℕ) × (left : List ℕ) × (pop_each bs l ≡ some (cs, left))
      × (length cs ≡ length bs)
      × (length l ≡ length left + length bs)
      × ((x : ℕ) → count x l ≡ count x cs + count x left)
unfolding pop_each
pop_each-some [] l h = ([], l, refl, refl, omega arith, λ x. omega arith)
pop_each-some (b ∷ bs) l h =
    let (c, rest, e, f) = pop-some l (omega arith) in
    let shorter = ap length f ∙ length-append rest (c ∷ []) in
    let (cs, left, g, len, total, counts) = pop_each-some bs rest (omega (arith, shorter)) in
    (
      c ∷ cs,
      left,
      rw (e, pop_each) (rw (g, pop_each)),
      omega (arith, len),
      omega (arith, total, shorter),
      λ x. omega (arith, ap (count x) f, count-append x rest (c ∷ []), counts x),
    )

-- A row that is no destination stays.
copy_rows_other :
    (source destination : List ℕ) (rows target : ℕ → ℕ) (b : ℕ)
    → count b destination ≡ 0
    → copy_rows source destination rows target b ≡ target b
unfolding copy_rows
copy_rows_other [] destination rows target b h = refl
copy_rows_other (s ∷ source) [] rows target b h = refl
copy_rows_other (s ∷ source) (d ∷ destination) rows target b h =
    copy_rows_other source destination rows (λ x. if x == d then rows s else target x) b
      (omega arith)
    ∙ ground (arith, h)

-- A destination that stands once gets the row of its source.
copy_rows_at :
    (source destination : List ℕ) (rows target : ℕ → ℕ) (i a b : ℕ)
    → ((x : ℕ) → count x destination ≤ 1)
    → get_elem? source i ≡ some a
    → get_elem? destination i ≡ some b
    → copy_rows source destination rows target b ≡ rows a
unfolding copy_rows
copy_rows_at [] destination rows target i a b once e f = absurd (ground arith)
copy_rows_at (s ∷ source) [] rows target i a b once e f = absurd (ground arith)
copy_rows_at (s ∷ source) (d ∷ destination) rows target zero a b once e f =
    copy_rows_other source destination rows (λ x. if x == d then rows s else target x) b
      (ground (arith, once b, f))
    ∙ ground (arith, e, f)
copy_rows_at (s ∷ source) (d ∷ destination) rows target (suc i) a b once e f =
    copy_rows_at source destination rows (λ x. if x == d then rows s else target x) i a b
      (λ x. omega (arith, once x)) e f

pub copy_planes_at :
    (num_layers : ℕ) (source destination : List ℕ) (from target : KvCache) (layer kv i a b : ℕ)
    → layer < num_layers
    → kv < 2
    → ((x : ℕ) → count x destination ≤ 1)
    → get_elem? source i ≡ some a
    → get_elem? destination i ≡ some b
    → copy_planes num_layers source destination from target layer kv b ≡ from layer kv a
copy_planes_at num_layers source destination from target layer kv i a b l k once e f =
    rw (ltb_of_lt layer num_layers l, ltb_of_lt kv 2 k)
      (copy_rows_at source destination (from layer kv) (target layer kv) i a b once e f)

-- The lists of a call.
pub record Takes (gpu : KvCache) (bs cs : List ℕ) (s s' : SwapSpace) : Type 0 where
  pub number : length cs ≡ length bs
  pub room : num_free_blocks s ≡ num_free_blocks s' + length bs
  pub counts : (x : ℕ) → count x s.free_cpu_blocks ≡ count x cs + count x s'.free_cpu_blocks
  pub contents : s'.cpu_cache ≡ copy_planes s.num_layers bs cs gpu s.cpu_cache
  pub layers : s'.num_layers ≡ s.num_layers

pub swap_out-Takes :
    (gpu : KvCache) (bs : List ℕ) (s : SwapSpace)
    → can_swap_out s (length bs) ≡ true
    → (cs : List ℕ) × (s' : SwapSpace) × (swap_out gpu bs s ≡ (ok cs, s')) × Takes gpu bs cs s s'
unfolding swap_out can_swap_out num_free_blocks
swap_out-Takes gpu bs s h =
    let (cs, left, e, len, total, counts) =
      pop_each-some bs s.free_cpu_blocks (leb-true (length bs) (length s.free_cpu_blocks) h) in
    (
      cs,
      record s {
        free_cpu_blocks = left;
        cpu_cache = copy_planes s.num_layers bs cs gpu s.cpu_cache;
      },
      rw (h, e),
      record { number = len; room = total; counts = counts; contents = refl; layers = refl },
    )

-- What `swap_out` promises: the rows of each block are in its host block, and every other host block
-- keeps its rows.
pub record SwappedOut (gpu : KvCache) (bs cs : List ℕ) (s s' : SwapSpace) : Type 0 where
  pub number : length cs ≡ length bs
  pub room : num_free_blocks s ≡ num_free_blocks s' + length bs
  pub counts : (x : ℕ) → count x s.free_cpu_blocks ≡ count x cs + count x s'.free_cpu_blocks
  pub rows :
      (layer kv i a c : ℕ)
      → layer < s.num_layers
      → kv < 2
      → get_elem? bs i ≡ some a
      → get_elem? cs i ≡ some c
      → s'.cpu_cache layer kv c ≡ gpu layer kv a
  pub others : (layer kv c : ℕ) → count c cs ≡ 0 → s'.cpu_cache layer kv c ≡ s.cpu_cache layer kv c

copy_planes_other :
    (num_layers : ℕ) (source destination : List ℕ) (from target : KvCache) (layer kv b : ℕ)
    → count b destination ≡ 0
    → copy_planes num_layers source destination from target layer kv b ≡ target layer kv b
copy_planes_other num_layers source destination from target layer kv b h =
    elim (Bool-cases (ltb layer num_layers && ltb kv 2)) [
      | inl copied ↦
          rw copied (copy_rows_other source destination (from layer kv) (target layer kv) b h)
      | inr kept ↦ rw kept refl
    ]

-- If the host has room for the blocks and has no free block twice, `swap_out` does not raise: it
-- returns as many host blocks as it was given, which leave the free list with their counts. Each
-- has the rows of the block at the same index, for each layer's K and V, and every other host
-- block keeps its rows.
pub swap_out-SwappedOut :
    (gpu : KvCache) (bs : List ℕ) (s : SwapSpace)
    → can_swap_out s (length bs) ≡ true
    → ((x : ℕ) → count x s.free_cpu_blocks ≤ 1)
    → (cs : List ℕ) × (s' : SwapSpace) × (swap_out gpu bs s ≡ (ok cs, s'))
      × SwappedOut gpu bs cs s s'
swap_out-SwappedOut gpu bs s room once =
    let (cs, s', e, x) = swap_out-Takes gpu bs s room in
    (
      cs,
      s',
      e,
      record {
        number = x.number;
        room = x.room;
        counts = x.counts;
        rows = λ layer kv i a c l k at_b at_c. rw x.contents (
            copy_planes_at s.num_layers bs cs gpu s.cpu_cache layer kv i a c l k
              (λ y. omega (arith, x.counts y, once y)) at_b at_c);
        others = λ layer kv c h.
            rw x.contents (copy_planes_other s.num_layers bs cs gpu s.cpu_cache layer kv c h);
      },
    )
