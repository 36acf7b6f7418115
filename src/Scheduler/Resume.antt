-- ===== src/Scheduler/Resume.antt =====
-- One round of `_resume_swapped` of scheduler.py, with `_do_swap_in`.
use paged_serve.Prelude.{
  ℕ, zero, suc, ◌≤◌, ◌≡◌, refl, sym, arith, false, List, [], ◌∷◌, ◌++◌, none, some, length, take,
  count, ltb-false, ==_self, ◌∙◌, ap, Option-cases, inl, inr, ok, ◌>>◌, bind-ok,
}
use paged_serve.Block.{BlockTable}
use paged_serve.BlockManager
use paged_serve.BlockManager.{BlockManager, num_free_blocks}
use paged_serve.BlockManager.Allocate.{Allocated, allocate-Allocated}
use paged_serve.Sequence.{total_len}
use paged_serve.Swap
use paged_serve.Swap.{SwapSpace, KvCache}
use paged_serve.Scheduler.Invariant.{Ready, need}
use paged_serve.Scheduler.Join.{Joins}
use paged_serve.Scheduler.{
  Scheduler, set_scheduled, on_manager, parked_blocks, lacks_room, do_swap_in, wake, resume,
}

length-take : (n : ℕ) (xs : List ℕ) → n ≤ length xs → length (take n xs) ≡ n
length-take zero xs h = refl
length-take (suc n) [] h = absurd (omega arith)
length-take (suc n) (x ∷ xs) h = ap suc (length-take n xs (omega arith))

-- As many host blocks as GPU blocks: the copy succeeds.
do_swap_in_ok :
    (cpu_blocks gpu_blocks : List ℕ) (space : SwapSpace) (s : Scheduler)
    → s.swap_space ≡ some space
    → length cpu_blocks ≡ length gpu_blocks
    → (cache : KvCache) × (space' : SwapSpace) × (do_swap_in cpu_blocks gpu_blocks s
        ≡ (ok tt, record s { swap_space = some space'; gpu_cache = cache }))
unfolding Swap.swap_in
do_swap_in_ok cpu_blocks gpu_blocks space s e len = (
  Swap.copy_planes space.num_layers cpu_blocks gpu_blocks space.cpu_cache s.gpu_cache,
  record space { free_cpu_blocks = space.free_cpu_blocks ++ cpu_blocks },
  rw (e, len, ==_self (length gpu_blocks)) refl,
)

module _ (digest : List ℕ → ℕ) (y : ℕ) (rest : List ℕ) (tokens reserve : ℕ) (s : Scheduler)
    (h : Ready s) (first : s.swapped ≡ y ∷ rest) (room : lacks_room s y reserve ≡ false)
    (host_fits : length (parked_blocks s y) ≤ need s y) where
  abbrev start : Scheduler
  start = set_scheduled (record s { swapped = rest }) y tokens

  abbrev resumed : BlockManager → KvCache → SwapSpace → Scheduler
  resumed n cache space =
      (wake y (record start { block_manager = n; gpu_cache = cache; swap_space = some space })).1

  in_swapped :
      (count y s.waiting ≡ 0)
      × (count y s.running ≡ 0)
      × (count y s.swapped ≡ 1)
      × (count y rest ≡ 0)
  in_swapped =
      let p = h.places y in
      let c = ap (count y) first in
      (
        ground (arith, p.once, c),
        ground (arith, p.once, c),
        ground (arith, p.once, c),
        ground (arith, p.once, c),
      )

  resumed-Joins :
      (t : BlockTable) (cached : ℕ) (bs : List ℕ) (n : BlockManager) (cache : KvCache)
      (space : SwapSpace)
      → Allocated y (need s y) (total_len (s.sequences y)) bs s.block_manager t cached n
      → Joins y s (resumed n cache space)
  resumed-Joins t cached bs n cache space a = record {
    touches = record {
      size = a.size;
      config = refl;
      policy = refl;
      space = λ e. absurd (cc);
      sequences = λ x ne. ground arith;
      tables = λ x ne. a.others x ne;
    };
    running = refl;
    status = ground arith;
    tokens = ground arith;
    total = ground arith;
    computed = ground (arith, (h.places y).computed (omega (arith, in_swapped)));
    queues = λ x ne. (refl, ground (arith, ap (count x) first));
    was_queued = omega (arith, in_swapped);
    left = (in_swapped.0, in_swapped.3);
  }

  pub resume-Joins :
      (t : BlockTable) × (cached : ℕ) × (bs : List ℕ) × (s' : Scheduler) × (resume digest y rest
          tokens s
        ≡ (ok tt, s'))
      × Allocated y
          (need s y)
          (total_len (s.sequences y))
          bs
          s.block_manager
          t
          cached
          s'.block_manager
      × Joins y s s'
      × (s'.swapped ≡ rest)
  unfolding resume
  resume-Joins =
      let (t, cached, n, e, a) =
        allocate-Allocated digest y (total_len (s.sequences y)) none s.block_manager h.manager
          h.positive ((h.places y).no_table in_swapped.1) (omega (arith, ltb-false _ _ room)) in
      elim (Option-cases s.swap_space) [
        | inl none_ ↦ absurd (h.host y (omega (arith, in_swapped.2)) none_)
        | inr (space, f) ↦
            let gpu_blocks = take (length (parked_blocks s y)) t.blocks in
            let (cache, space', g) =
              do_swap_in_ok (parked_blocks s y) gpu_blocks space
                (record start { block_manager = n }) f
                (sym (
                  length-take (length (parked_blocks s y)) t.blocks
                    (omega (arith, a.exact, host_fits)))) in
            (
              t,
              cached,
              _,
              resumed n cache space',
              bind-ok (on_manager (BlockManager.allocate digest y (total_len (s.sequences y)) none))
                    (λ r.
                      do_swap_in (parked_blocks s y)
                        (take (length (parked_blocks s y)) (r.0).blocks)
                      >> wake y)
                    (ap (λ r. (r.0, record start { block_manager = r.1 })) e)
                  ∙ bind-ok (do_swap_in (parked_blocks s y) gpu_blocks) (λ _. wake y) g,
              a,
              resumed-Joins t cached _ n cache space' a,
              refl,
            )
      ]
