-- ===== src/Tests/Blocks.antt =====
-- block.py, prefix_cache.py, sequence.py and cache_engine.py on concrete inputs.
use paged_serve.Prelude.{
  ℕ, ◌+◌, ◌*◌, ◌≤◌, ◌<◌, ◌≡◌, refl, arith, true, false, ◌⊎◌, ◌++◌, List, [], ◌∷◌, some, length,
  get_elem?, ok,
}
use paged_serve.Tests.Data.{pooled}
use paged_serve.Block.{BlockTable, blocks_needed, capacity, slot, slots}
use paged_serve.Block.Ceiling.{blocks_needed_bounds}
use paged_serve.Block.Slots.{slot-injective, slots_of_le}
use paged_serve.PrefixCache
use paged_serve.PrefixCache.{PrefixCache}
use paged_serve.PrefixCache.Leading.{leading, match-leading}
use paged_serve.Sequence.{SequenceStatus, append_token, check_stop, is_terminal}
use paged_serve.Sequence.Lifecycle.{IsGoing, EndedBy, check_stop-append_token}
use paged_serve.Swap
use paged_serve.Swap.{SwapSpace, KvCache}
use paged_serve.Swap.Roundtrip.{SwappedOut, swap_out-SwappedOut}
use paged_serve.Tests.Data.{four_tokens}

blocks_needed_bounds_example :
    (33 ≤ blocks_needed 16 33 * 16) × (blocks_needed 16 33 * 16 < 33 + 16)
blocks_needed_bounds_example = blocks_needed_bounds 16 33 (omega arith)

-- A table whose blocks are out of order.
abbrev mixed : BlockTable
mixed = record { block_size = 2; blocks = 5 ∷ 3 ∷ [] }

abbrev last_position : ℕ
last_position = 3

last_slot : slot mixed last_position ≡ ok 7
unfolding slot
last_slot = refl

slot-injective_example : last_position ≡ last_position
slot-injective_example =
    slot-injective mixed (omega arith) (λ x. ground arith) last_position last_position last_slot
      last_slot

slots_of_le_example :
    (l : List ℕ) × (slots mixed 1 3 ≡ ok l)
    × (length l ≡ 3)
    × ((i : ℕ) → i < 3 → (s : ℕ) × (get_elem? l i ≡ some s) × (slot mixed (1 + i) ≡ ok s))
slots_of_le_example = slots_of_le mixed (omega arith) 1 3 (unfold capacity in omega arith)

match-leading_example :
    (PrefixCache.match pooled (16 ∷ 24 ∷ 32 ∷ [])).0 ≡ leading pooled.by_hash (16 ∷ 24 ∷ 32 ∷ [])
unfolding PrefixCache.init
match-leading_example = match-leading pooled (16 ∷ 24 ∷ 32 ∷ []) refl

-- Token 99 is no stop token, and the cap of 9 tokens is not reached.
check_stop-append_token_example :
    let s = four_tokens SequenceStatus.running in
    let r = check_stop (append_token s 99) in
    ((r.1).output_token_ids ≡ s.output_token_ids ++ 99 ∷ [])
    × (((r.0 ≡ false) × IsGoing r.1)
        ⊎ ((r.0 ≡ true) × (is_terminal (r.1).status ≡ true) × EndedBy 99 r.1))
check_stop-append_token_example =
    check_stop-append_token (four_tokens SequenceStatus.running) 99
      (record { unfinished = unfold is_terminal in refl; clean = refl; below = omega arith })

abbrev cells : KvCache
cells layer kv block = 10 * layer + 100 * kv + block

swap_out-SwappedOut_example :
    (cs : List ℕ) × (s' : SwapSpace) × (Swap.swap_out cells (4 ∷ 6 ∷ []) (Swap.init 2 3)
      ≡ (ok cs, s'))
    × SwappedOut cells (4 ∷ 6 ∷ []) cs (Swap.init 2 3) s'
unfolding Swap.can_swap_out Swap.num_free_blocks Swap.init
swap_out-SwappedOut_example =
    swap_out-SwappedOut cells (4 ∷ 6 ∷ []) (Swap.init 2 3) refl (λ x. ground arith)
