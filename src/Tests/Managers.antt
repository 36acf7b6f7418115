-- ===== src/Tests/Managers.antt =====
-- block_manager.py on concrete inputs.
use paged_serve.Prelude.{
  ◌+◌, ◌≢◌, none, length, get_elem?, ℕ, ◌-◌, ◌/◌, ◌≡◌, refl, arith, true, List, [], ◌∷◌, some, min,
  ok,
}
use paged_serve.Block.{BlockTable, blocks_needed}
use paged_serve.PrefixCache
use paged_serve.BlockManager
use paged_serve.BlockManager.{
  BlockManager, AllocStatus, num_free_blocks, fresh, chain_of, find_table,
}
use paged_serve.BlockManager.Invariant.{IsValid}
use paged_serve.BlockManager.Take.{Taken, take_free_block-Taken}
use paged_serve.BlockManager.Release.{Freed, free-Freed}
use paged_serve.BlockManager.Allocate.{Allocated, reusable, allocate-Allocated}
use paged_serve.BlockManager.Rewrite.{allocate_rewrites}
use paged_serve.PrefixCache.Hash.{
  hashes_from, chain_hash, parent_bytes, token_bytes, to_bytes, range_length,
}
use paged_serve.BlockManager.Growth.{
  Started, init-Started, fresh-IsValid, Appended, append_slot-Appended, Forked, fork-Forked,
}
use paged_serve.BlockManager.Seal.{Sealed}
use paged_serve.BlockManager.Sealing.{seal-Sealed}
use paged_serve.BlockManager.Sealable.{Sealable}
use paged_serve.BlockManager.Diverge.{Diverged, copy_on_write-Diverged}
use paged_serve.BlockManager.Contract.{
  View, Call, Step, Steps, Implements, put, size_of, perform_all, perform_all-Implements,
}
use paged_serve.BlockManager.Capacity.{can_allocate_starves}
use paged_serve.Tests.Data.{
  pooled, remembering, remembering-IsValid, digest, two_blocks, holding, holding-IsValid,
  holding-Sealable, sharing, sharing-IsValid,
}

abbrev prompt : List ℕ
prompt = 11 ∷ 12 ∷ 13 ∷ 14 ∷ []

abbrev half : BlockManager
half = holding (2 ∷ 3 ∷ []) 4

half-IsValid : IsValid half
half-IsValid = holding-IsValid (2 ∷ 3 ∷ []) 4 (λ b. ground arith)

init-Started_example :
    (m : BlockManager) × (BlockManager.init 4 2 0 true ≡ ok m) × Started 4 2 0 true m
init-Started_example = init-Started 4 2 0 true (omega arith) (omega arith)

take_free_block-Taken_example :
    (b : ℕ) × (n : BlockManager) × (BlockManager.take_free_block half ≡ (ok b, n))
    × Taken [] half b n
take_free_block-Taken_example =
    take_free_block-Taken [] half half-IsValid
      (unfold num_free_blocks PrefixCache.num_reclaimable in omega arith)

allocate-Allocated_example :
    (t : BlockTable) × (cached : ℕ) × (n : BlockManager) × (BlockManager.allocate digest 9 4
        (some prompt)
        half
      ≡ (ok (t, cached), n))
    × Allocated 9
        (blocks_needed 2 4)
        4
        (reusable digest (blocks_needed 2 4) (some prompt) half)
        half
        t
        cached
        n
allocate-Allocated_example =
    allocate-Allocated digest 9 4 (some prompt) half half-IsValid (omega arith) refl (
      unfold num_free_blocks PrefixCache.num_reclaimable blocks_needed PrefixCache.init in
      omega arith)

-- A digest that finds the whole prompt.
abbrev by_length : List ℕ → ℕ
by_length l = length l

whole_prompt : reusable by_length 2 (some prompt) remembering ≡ 0 ∷ 1 ∷ []
unfolding hashes_from chain_hash parent_bytes token_bytes to_bytes range_length PrefixCache.init
whole_prompt = refl

allocate_rewrites_example :
    (t : BlockTable) × (cached : ℕ) × (b : ℕ) × (n : BlockManager) × (BlockManager.allocate
        by_length 9 4
        (some prompt)
        remembering
      ≡ (ok (t, cached), n))
    × (cached + 1 ≡ 4)
    × (get_elem? t.blocks (cached / 2) ≡ some b)
    × (pooled.by_block b ≢ none)
allocate_rewrites_example =
    allocate_rewrites by_length 9 4 (some prompt) remembering remembering-IsValid (omega arith) refl
      (unfold num_free_blocks PrefixCache.num_reclaimable blocks_needed in omega arith)
      (omega arith) (unfold blocks_needed in rw whole_prompt (omega arith))

free-Freed_example : (n : BlockManager) × (BlockManager.free 7 half ≡ (ok tt, n)) × Freed 7 half n
free-Freed_example = free-Freed 7 half half-IsValid

append_slot-Appended_example :
    (b : ℕ) × (n : BlockManager) × (BlockManager.append_slot 7 5 half ≡ (ok (some b), n))
    × Appended 7 b two_blocks half n
append_slot-Appended_example =
    append_slot-Appended 7 5 half two_blocks half-IsValid refl (unfold blocks_needed in omega arith)
      (unfold blocks_needed num_free_blocks PrefixCache.num_reclaimable in omega arith)

fork-Forked_example :
    (n : BlockManager) × (BlockManager.fork 7 8 half ≡ (ok two_blocks, n))
    × Forked 8 two_blocks half n
fork-Forked_example = fork-Forked 7 8 half two_blocks half-IsValid refl refl

copy_on_write-Diverged_example :
    (b : ℕ) × (n : BlockManager) × (BlockManager.copy_on_write 7 1 sharing ≡ (ok (some (1, b)), n))
    × Diverged 7 1 1 b two_blocks sharing n
copy_on_write-Diverged_example =
    copy_on_write-Diverged 7 1 sharing two_blocks 1 sharing-IsValid refl refl (omega arith)
      (unfold num_free_blocks PrefixCache.num_reclaimable in omega arith)

seal-Sealed_example :
    (o : BlockManager) × (BlockManager.seal digest 7 prompt 3 half ≡ (ok tt, o))
    × Sealed 7 0 (min (min 3 4 / 2) 2 - 0) two_blocks half o
    × Sealable o
unfolding PrefixCache.init
seal-Sealed_example =
    seal-Sealed digest 7 two_blocks prompt 3 half half-IsValid refl
      (holding-Sealable (2 ∷ 3 ∷ []) 4)

-- 100 blocks of one token, of which one is the watermark: a prompt of 100 tokens waits for ever.
can_allocate_starves_example :
    BlockManager.can_allocate (fresh 100 1 1 true) 100 ≡ AllocStatus.later
can_allocate_starves_example =
    can_allocate_starves (fresh 100 1 1 true) 100 (fresh-IsValid 100 1 1 true)
      (unfold blocks_needed in omega arith) (unfold blocks_needed in omega arith)

abbrev half_view : View
half_view = record { budget = 2; sizes = λ k. size_of (find_table k half.block_tables) }

half-Implements : Implements half half_view
half-Implements = record {
  valid = half-IsValid;
  positive = omega arith;
  budget = unfold num_free_blocks PrefixCache.num_reclaimable PrefixCache.init in omega arith;
  sizes = λ k. refl;
}

-- Sequence 7, with two blocks, gets its third for a fifth token and is forked. The child needs no
-- block for the sixth token, and a new sequence takes the last one.
abbrev calls : List Call
calls =
    Call.append_slot 7 5
    ∷ Call.fork 7 8
    ∷ Call.free 7
    ∷ Call.append_slot 8 6
    ∷ Call.allocate 9 2 none
    ∷ []

abbrev last_view : View
last_view = record {
  budget = 2 - 1 - 1;
  sizes = put 9 (some 1) (put 7 none (put 8 (some 3) (put 7 (some 3) half_view.sizes)));
}

calls-Steps : Steps 2 calls half_view last_view
unfolding blocks_needed
calls-Steps = Steps.next (Step.grown {size = 2} refl refl (omega arith)) (
    Steps.next (Step.forked {size = 3} refl refl) (
      Steps.next Step.freed (
        Steps.next (Step.kept {size = 3} refl (omega arith))
          (Steps.next (Step.allocated refl (omega arith)) Steps.done))))

perform_all-Implements_example :
    (n : BlockManager) × (perform_all digest calls half ≡ (ok tt, n)) × Implements n last_view
perform_all-Implements_example =
    perform_all-Implements digest calls half_view last_view half half-Implements calls-Steps
