-- ===== src/Swap/Restore.antt =====
-- `swap_out` followed by `swap_in` of cache_engine.py.
use paged_serve.Prelude.{
  ℕ, ◌≤◌, ◌<◌, ◌≡◌, refl, sym, ◌∙◌, arith, true, List, ◌++◌, some, length, length-append, get_elem?,
  get_elem?_of_lt, get_elem?_lt, count, count-append, ==_self, ok,
}
use paged_serve.Swap.{
  SwapSpace, KvCache, num_free_blocks, can_swap_out, copy_planes, swap_out, swap_in,
}
use paged_serve.Swap.Roundtrip.{copy_planes_at, swap_out-Takes}

-- What the two calls promise together; `ds` are the blocks that the sequence gets.
pub record Restored (gpu gpu' : KvCache) (bs ds : List ℕ) (s s' : SwapSpace) : Type 0 where
  pub room : num_free_blocks s' ≡ num_free_blocks s
  pub counts : (x : ℕ) → count x s'.free_cpu_blocks ≡ count x s.free_cpu_blocks
  pub rows :
      (layer kv i a b : ℕ)
      → layer < s.num_layers
      → kv < 2
      → get_elem? bs i ≡ some a
      → get_elem? ds i ≡ some b
      → gpu' layer kv b ≡ gpu layer kv a

-- If the host has room for the blocks and has no free block twice, and the blocks to copy back to
-- are as many and have no block twice, then `swap_out` and a later `swap_in`, whatever the GPU's
-- cache holds by then, do not raise. Each block gets the rows of the block at the same index that
-- was copied out, for each layer's K and V, and the host has as many free blocks as before, each
-- as often.
pub swap_in-swap_out :
    (gpu now : KvCache) (bs ds : List ℕ) (s : SwapSpace)
    → can_swap_out s (length bs) ≡ true
    → ((x : ℕ) → count x s.free_cpu_blocks ≤ 1)
    → ((x : ℕ) → count x ds ≤ 1)
    → length ds ≡ length bs
    → (cs : List ℕ) × (s1 : SwapSpace) × (gpu' : KvCache) × (s2 : SwapSpace) × (swap_out gpu bs s
        ≡ (ok cs, s1))
      × (swap_in now cs ds s1 ≡ (ok gpu', s2))
      × Restored gpu gpu' bs ds s s2
unfolding swap_in num_free_blocks
swap_in-swap_out gpu now bs ds s room once_host once len =
    let (cs, s1, e, x) = swap_out-Takes gpu bs s room in
    let same : length cs ≡ length ds = x.number ∙ sym len in
    (
      cs,
      s1,
      copy_planes s1.num_layers cs ds s1.cpu_cache now,
      record s1 { free_cpu_blocks = s1.free_cpu_blocks ++ cs },
      e,
      rw (same, ==_self (length ds)) refl,
      record {
        room = omega (arith, x.room, x.number, length-append s1.free_cpu_blocks cs);
        counts = λ y. omega (arith, x.counts y, count-append y s1.free_cpu_blocks cs);
        rows = λ layer kv i a b l k at_b at_d.
            let (c, at_c) = get_elem?_of_lt cs i (omega (arith, get_elem?_lt ds i at_d, same)) in
            copy_planes_at s1.num_layers cs ds s1.cpu_cache now layer kv i c b (rw x.layers l) k
              once at_c at_d
            ∙ rw x.contents (
                copy_planes_at s.num_layers bs cs gpu s.cpu_cache layer kv i a c l k
                  (λ y. omega (arith, x.counts y, once_host y)) at_b at_c);
      },
    )
