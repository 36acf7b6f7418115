-- ===== src/Scheduler/Starvation.antt =====
-- The test for room that `_resume_swapped` and `_admit_waiting` of scheduler.py share.
use paged_serve.Prelude.{ℕ, ◌+◌, ◌<◌, ◌≡◌, arith, true}
use paged_serve.BlockManager.Capacity.{num_free_blocks-le}
use paged_serve.Scheduler.Invariant.{Ready}
use paged_serve.Scheduler.{Scheduler, blocks_of, growth, lacks_room}

-- On a scheduler that satisfies the invariant, a sequence whose blocks and the block that its
-- next token may need are together more than all blocks never passes the test for room, whatever
-- the reserve and however many blocks are free.
pub lacks_room_starves :
    (s : Scheduler) (id reserve : ℕ)
    → Ready s
    → s.block_manager.num_blocks < blocks_of s id + growth s id
    → lacks_room s id reserve ≡ true
lacks_room_starves s id reserve h tight =
    ground (arith, num_free_blocks-le s.block_manager h.manager)
