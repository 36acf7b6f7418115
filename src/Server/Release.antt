-- ===== src/Server/Release.antt =====
-- `_release` of api.py on the scheduler: a sequence is taken out of the engine, wherever it is.
use paged_serve.Prelude.{
  ℕ, ◌≤◌, ◌≡◌, ◌≢◌, refl, arith, some, none, count, count-erase, erase, ◌==◌, if◌then◌else◌, ap, ok,
  bind-ok,
}
use paged_serve.BlockManager
use paged_serve.BlockManager.{BlockManager, num_free_blocks}
use paged_serve.BlockManager.Release.{Freed, free-Freed}
use paged_serve.Sequence.{Sequence, SequenceStatus}
use paged_serve.Scheduler.{Scheduler, set_seq, on_manager}
use paged_serve.Scheduler.Invariant.{Ready, IsReady-update, queued, tokens_of, status_of, table_of}
use paged_serve.Server.{release_in, or_abort}

pub record Dropped (id : ℕ) (s s' : Scheduler) : Type 0 where
  pub ready : Ready s'
  pub sequences : (x : ℕ) → x ≢ id → s'.sequences x ≡ s.sequences x
  pub tokens : tokens_of (s'.sequences id) ≡ tokens_of (s.sequences id)
  pub ended : status_of s' id ≡ SequenceStatus.finished
  pub queues : (x : ℕ) → queued s' x ≡ (if x == id then 0 else queued s x)
  pub gone : table_of s' id ≡ none
  pub tables : (x : ℕ) → x ≢ id → table_of s' x ≡ table_of s x
  pub available : num_free_blocks s.block_manager ≤ num_free_blocks s'.block_manager
  -- The host's blocks stay as they are, also if the sequence was swapped out.
  pub host : s'.swap_space ≡ s.swap_space

module _ (id : ℕ) (s : Scheduler) (h : Ready s) where
  abbrev ended : Sequence
  ended = record (s.sequences id) {
    status = SequenceStatus.finished;
    finish_reason = some (or_abort (s.sequences id).finish_reason);
  }

  abbrev dropped : BlockManager → Scheduler
  dropped n = record (set_seq s id ended) {
    block_manager = n;
    waiting = erase id s.waiting;
    swapped = erase id s.swapped;
    running = erase id s.running;
  }

  dropped-queues :
      (n : BlockManager) (x : ℕ)
      → (count x (dropped n).waiting ≡ (if x == id then 0 else count x s.waiting))
        × (count x (dropped n).running ≡ (if x == id then 0 else count x s.running))
        × (count x (dropped n).swapped ≡ (if x == id then 0 else count x s.swapped))
  dropped-queues n x =
      let once = (h.places id).once in
      (
        ground (arith, count-erase x id s.waiting, once),
        ground (arith, count-erase x id s.running, once),
        ground (arith, count-erase x id s.swapped, once),
      )

  dropped-Dropped : (n : BlockManager) → Freed id s.block_manager n → Dropped id s (dropped n)
  dropped-Dropped n f =
      let (w, r, p) = dropped-queues n id in
      record {
        ready =
            IsReady-update id h f.valid (f.sealable h.sealable)
              (record {
                size = f.size;
                config = refl;
                policy = refl;
                space = λ e. e;
                sequences = λ x ne. ground arith;
                tables = λ x ne. f.others x ne;
              })
              (λ x ne.
                let (w, r, p) = dropped-queues n x in
                (ground (arith, w, ne), ground (arith, r, ne), ground (arith, p, ne)))
              (record {
                once = ground (arith, w, r, p);
                table = λ c. absurd (ground (arith, r));
                no_table = λ c. f.gone;
                waits = λ c. absurd (ground (arith, w));
                active = λ c. absurd (ground (arith, r));
                parked = λ c. absurd (ground (arith, p));
                computed = λ c. absurd (ground (arith, w, r, p));
              })
              (λ c. absurd (ground (arith, p)));
        sequences = λ x ne. ground arith;
        tokens = ground arith;
        ended = ground arith;
        queues = λ x. let (w, r, p) = dropped-queues n x in ground (arith, w, r, p);
        gone = f.gone;
        tables = λ x ne. f.others x ne;
        available = f.available;
        host = refl;
      }

  -- On a scheduler that satisfies the invariant, `_release` of a sequence, wherever it is, does
  -- not raise. The invariant holds afterwards; the sequence is finished, in no queue and without
  -- a table, and keeps its tokens; the other sequences, their queues and their tables are
  -- unchanged, and no available block is lost. The swap space is unchanged too, also if the
  -- sequence was swapped out.
  pub release_in-Dropped : (s' : Scheduler) × (release_in id s ≡ (ok tt, s')) × Dropped id s s'
  unfolding release_in
  release_in-Dropped =
      let (n, e, f) = free-Freed id s.block_manager h.manager in
      (
        dropped n,
        bind-ok (on_manager (BlockManager.free id)) _ {s = set_seq s id ended}
            (ap (λ r. (r.0, record (set_seq s id ended) { block_manager = r.1 })) e),
        dropped-Dropped n f,
      )
