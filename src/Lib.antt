-- ===== src/Lib.antt =====
-- PagedServe (pagedserve/): an LLM serving engine whose KV cache is split into fixed-size blocks.
-- The parts modelled here decide who holds which block and who runs next. The scheduler
-- (core/scheduler.py) keeps three queues of sequences (sequence.py) and asks the allocator
-- (memory/block_manager.py) for blocks; the allocator keeps a table of blocks (memory/block.py)
-- for each sequence, a free list, and an index of finished prefixes (memory/prefix_cache.py), whose
-- unreferenced blocks can be reclaimed. A preempted sequence is recomputed, or its blocks are copied
-- to the swap space on the host (worker/cache_engine.py, `SwapSpace`).
--
-- Files.
--   Prelude: numbers, lists, options, results and methods. A method is a function from a state to a
--     result and a new state, so what a call did before it raised is kept, as in Python.
--   Block: memory/block.py. Block/Ceiling: the number of blocks; Block/Slots: addresses.
--   PrefixCache: memory/prefix_cache.py. PrefixCache/Hash: `chain_hash` and `block_hashes`;
--     PrefixCache/Index: the invariant of the index; PrefixCache/Leading: `match`.
--   BlockManager: memory/block_manager.py, with its state in BlockManager/State. The reference count
--     of `PhysicalBlock` is the function `ref_count`; the dictionary of tables is an association list.
--     BlockManager/Invariant states the invariant: reference counts are exact, and every block is
--     either referenced, in the reclaimable pool or on the free list, once. Take, Release, Match,
--     Allocate, Rewrite, Growth, Seal, Sealing, Diverge and Capacity are about the operations, Sealable
--     about the blocks that are yet to be sealed, Tables about the lists; Contract runs a client's
--     calls beside an abstract machine; Checks is the run-time test `check_invariants`.
--   Sequence: sequence.py, without the sampling parameters that only the sampler reads.
--   Swap: `SwapSpace`, `blocks_from_budget` and `bytes_per_block` of worker/cache_engine.py, and
--     `ModelConfig.kv_bytes_per_token` of config.py. Swap/Roundtrip: `swap_out`; Swap/Restore:
--     both copies together.
--   Scheduler: core/scheduler.py, with the policies of core/policy.py and `SchedulerConfig` of
--     config.py; its state is in Scheduler/State. A queue holds ids, and `sequences` maps an id to the
--     object that the Python queues share. Scheduler/Invariant states the invariant; Evict, Room,
--     Retire, Finish, Join, Resume, Fill, Admit, Admissions, Grant and Iteration follow `schedule`
--     through its parts; Append and Growing are about `append_slots`, Requests about `add_request`,
--     Starvation about the test for room, Idle about an engine in which nothing runs.
--   Engine: the continuous batching of engine.py (`start`, `add_request`, `step`, `_assemble`,
--     `generate_continuous`). Engine/Batch: what `_assemble` flattens; Advance, Record and Step follow
--     the loops of `step`, Run is the whole step, Serve the submission of prompts and the loop of
--     steps, Start `start` and the answer.
--   Static: static batching of engine.py (`generate`, `_build_step`, `_left_pad`). Rows: what is
--     kept for one prompt; Outputs: one row's tokens;
--     Agreement: its stopping rule beside `check_stop` of sequence.py; Rounds: the decode loop;
--     Generate: the whole call on an engine without an allocator;
--     Padding: the padded prompts on the dense backend.
--   Server: `EngineRunner` of server/api.py, which drives the engine and feeds the queues of the
--     requests. Release: `_release`; Feed: the delivery to one queue; Settle: aborts that are deferred;
--     Round, Delivery and Loop: a round of `_run`; Serving: rounds, requests and aborts in any order;
--     Stream and Stream/Seen: `stream_tokens`.
--   Attention: attention/backend.py and the tensor operations that the backends share.
--     Attention/Gather: the paged backend of attention/gather.py. Visible: the gathered blocks of one
--     table under a mask; Rows, Layout and Splice: the lists of a flattened batch; Ragged, Forward and
--     Paged: `_forward_ragged` on a batch of `_assemble`; Private and Isolation: where a step writes.
--     Attention/Contiguous: the dense backend of attention/contiguous.py; Assign: the write to
--     its cache; Dense: its mask and forward pass.
--   Tests: the theorems on concrete inputs.
--
-- Parameters. In static batching the backend and the model are the interface `Backend`. Elsewhere
-- the model and the sampler are the parameter `sample`, which maps a batch and its sequences to
-- tokens. BLAKE2b with a digest of eight bytes, which `chain_hash` uses, is the parameter `digest`:
-- nothing is assumed of it here. What is asked of `sample` is a token for each row, the hypothesis
-- `one_each`. The tokenizer's `decode` is a parameter of the text streams. The attention of one
-- query, `scaled_dot_product_attention`, is the parameter `sdpa` of the backends, with the
-- hypothesis `masked_out` that it depends on the allowed keys and values only, if there are any.
-- The watermark, `int(num_blocks * watermark)` with a float, is a number that the caller gives, and
-- so is `int(total_bytes * utilization)`.
--
-- Threads. `engine.step` runs in a worker thread while the event loop serves the clients. An abort that
-- comes then writes what the step does not read, so a round takes the aborts first and the step behind
-- them. A request that comes during a step is not in the model: there it comes between two rounds.
--
-- Loops. A loop over a queue or a list recurs on it. The `while True` of `_make_room_for_running`
-- runs on rounds, one more than there are running sequences; each round preempts one of them, so the
-- loop ends before the rounds do. The loop of `seal` has as many rounds as blocks are left to seal.
--
-- Not modelled: the reference and CUDA kernels of paged attention (attention/paged_reference.py,
-- attention/cuda_paged.py, csrc/), the models and the sampler (model/), which compute on tensors
-- and floats; the routes and request formats of the server (server/) and the cancellation of its
-- task; CUDA graphs, the extension loader and the profiling of memory; the benchmarks and scripts.
-- Logging, representations and the counters' `to_dict` are left out of the parts that are modelled,
-- and so are `utilization` and `hit_rate`, which are floats.
mod Prelude
pub mod Block
pub mod PrefixCache
pub mod BlockManager
pub mod Sequence
pub mod Swap
pub mod Scheduler
pub mod Engine
pub mod Attention
pub mod Server
pub mod Static
mod Tests
