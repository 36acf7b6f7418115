-- ===== src/Scheduler/Growing.antt =====
-- The loop of `append_slots` in scheduler.py.
use paged_serve.Prelude.{
  ℕ, ◌+◌, ◌≤◌, ◌<◌, ◌≡◌, refl, sym, arith, true, false, List, [], ◌∷◌, Option, none, some, length,
  length-append, count, ltb, ltb-true, ltb-false, ◌∙◌, ap, Bool-cases, inl, inr, ok, bind-ok,
}
use native.Mathlib.Decide.{ℕ_discrete}
use paged_serve.Block
use paged_serve.Block.{BlockTable, blocks_needed}
use paged_serve.Block.Ceiling.{blocks_needed_mono, blocks_needed_suc}
use paged_serve.BlockManager
use paged_serve.BlockManager.{BlockManager, num_free_blocks}
use paged_serve.BlockManager.Growth.{append_slot_fits, append_slot-Appended}
use paged_serve.Sequence.{Sequence, SequenceStatus, is_running, total_len}
use paged_serve.Scheduler.Invariant.{Ready, status_of, table_of, need, grows, growth_of_mono}
use paged_serve.Scheduler.Append.{
  IsStep, SameQueues, SameQueues-trans, stepped, stepped-Ready, caught_up, caught_up-Ready,
  caught_up-growth, caught_up-IsStep,
}
use paged_serve.Scheduler.Room.{HasRoom}
use paged_serve.Scheduler.{
  Scheduler, on_manager, growth_of, needs_new_block, running_growth_reserve, append_slots,
}

module _ (y : ℕ) (rest : List ℕ) (new : ℕ → Sequence) (s : Scheduler) (h : Ready s)
    (k : IsStep (y ∷ rest) s.sequences new) (going : 0 < count y s.running)
    (once : count y rest ≡ 0) (runs_on : (new y).status ≡ SequenceStatus.running)
    (room : growth_of s (y ∷ rest) ≤ num_free_blocks s.block_manager) where
  was_running : status_of s y ≡ SequenceStatus.running
  was_running = elim (k.status y) [ inl same ↦ sym same ∙ runs_on | inr (was, gone) ↦ was ]

  abbrev wanted : ℕ
  wanted = blocks_needed s.block_manager.block_size (total_len (new y))

  wanted-bounds :
      (need s y ≤ wanted)
      × (wanted ≤ blocks_needed s.block_manager.block_size (total_len (s.sequences y) + 1))
      × (wanted ≤ need s y + 1)
  wanted-bounds =
      let (lo, hi) = k.grown y in
      let up = blocks_needed_mono s.block_manager.block_size _ _ h.positive hi in
      (
        blocks_needed_mono s.block_manager.block_size _ _ h.positive lo,
        up,
        omega (
          arith,
          up,
          blocks_needed_suc s.block_manager.block_size (total_len (s.sequences y)) h.positive,
        ),
      )

  -- A table that has to grow was counted.
  counted :
      (t : BlockTable)
      → table_of s y ≡ some t
      → length t.blocks ≡ need s y
      → length t.blocks < wanted
      → growth_of s rest + 1 ≤ num_free_blocks s.block_manager
  unfolding growth_of needs_new_block
  counted t e len lo =
      let big : length t.blocks
          < blocks_needed s.block_manager.block_size (total_len (s.sequences y) + 1) =
        omega (arith, wanted-bounds.1) in
      let here : grows s y ≡ true = ground (arith, was_running, e, big) in
      ground (arith, room, here)

  append-length :
      (t : BlockTable) (b : ℕ) (n : BlockManager)
      → n.block_size ≡ s.block_manager.block_size
      → length t.blocks ≡ need s y
      → length t.blocks < wanted
      → length (Block.append t b).blocks ≡ blocks_needed n.block_size (total_len (new y))
  unfolding Block.append
  append-length t b n size len lo =
      rw size (omega (arith, length-append t.blocks (b ∷ []), wanted-bounds.2))

  still_within : (new y).num_computed_tokens ≤ total_len (new y)
  still_within = k.computed y ((h.places y).computed (omega (arith, going)))

  -- One round of the loop.
  round :
      (o : Option ℕ) × (s' : Scheduler) × (on_manager
          (BlockManager.append_slot y (total_len (new y)))
          (stepped s new)
        ≡ (ok o, stepped s' new))
      × Ready s'
      × IsStep rest s'.sequences new
      × (growth_of s' rest ≤ num_free_blocks s'.block_manager)
      × SameQueues s s'
  round =
      let m = s.block_manager in
      let (t, e, size, f) = (h.places y).table going in
      let len = f was_running in
      elim (Bool-cases (ltb (length t.blocks) wanted)) [
        | inr fits ↦ (
          none,
          caught_up y new s h going runs_on m,
          ap (λ r. (r.0, record (stepped s new) { block_manager = r.1 }))
              (append_slot_fits y (total_len (new y)) m t h.manager e (ltb-false _ _ fits)),
          caught_up-Ready y new s h going runs_on m t h.manager h.sealable refl e (λ j ne. refl)
              size (omega (arith, ltb-false _ _ fits, wanted-bounds.0)) still_within,
          caught_up-IsStep y rest s.sequences new k,
          (unfold growth_of in
              omega (
                arith,
                caught_up-growth y new s h going runs_on m rest refl (λ j ne. refl) once,
                room,
              )),
          record { waiting = refl; running = refl; swapped = refl },
        )
        | inl short ↦
            let lo = ltb-true _ _ short in
            let free = counted t e len lo in
            let (b, n, g, a) =
              append_slot-Appended y (total_len (new y)) m t h.manager e lo
                (omega (arith, wanted-bounds.2, free)) in
            (
              some b,
              caught_up y new s h going runs_on n,
              ap (λ r. (r.0, record (stepped s new) { block_manager = r.1 })) g,
              caught_up-Ready y new s h going runs_on n (Block.append t b) a.valid
                  (a.sealable h.sealable) a.size a.stored a.others
                  (unfold Block.append in size ∙ sym a.size) (append-length t b n a.size len lo)
                  still_within,
              caught_up-IsStep y rest s.sequences new k,
              omega (
                arith,
                caught_up-growth y new s h going runs_on n rest a.size a.others once,
                a.available,
                free,
              ),
              record { waiting = refl; running = refl; swapped = refl },
            )
      ]

-- A sequence that finished in the step needs no block.
skip-IsStep :
    (y : ℕ) (rest : List ℕ) (old new : ℕ → Sequence)
    → IsStep (y ∷ rest) old new
    → is_running (new y).status ≡ false
    → IsStep rest old new
skip-IsStep y rest old new k rests = record {
  status = k.status;
  grown = k.grown;
  computed = k.computed;
  settled = λ x c st. elim (ℕ_discrete x y) [
    | yes e ↦ absurd (ground (arith, e, st, rests))
    | no ne ↦ k.settled x (ground (arith, c, ne)) st
  ];
}

append_each :
    (ids : List ℕ) (new : ℕ → Sequence) (s : Scheduler)
    → Ready s
    → IsStep ids s.sequences new
    → ((x : ℕ) → count x ids ≤ count x s.running)
    → growth_of s ids ≤ num_free_blocks s.block_manager
    → (s' : Scheduler) × (append_slots ids (stepped s new) ≡ (ok tt, s'))
      × Ready s'
      × (s'.sequences ≡ new)
      × SameQueues s s'
unfolding append_slots
append_each [] new s h k within room = (
  stepped s new,
  refl,
  stepped-Ready s new h k,
  refl,
  record { waiting = refl; running = refl; swapped = refl },
)
append_each (y ∷ rest) new s h k within room =
    let once : count y rest ≡ 0 = ground (arith, within y, (h.places y).once) in
    elim (Bool-cases (is_running (new y).status)) [
      | inr rests ↦
          let (s', e, r, q, qs) =
            append_each rest new s h (skip-IsStep y rest s.sequences new k rests)
              (λ x. omega (arith, within x)) (unfold growth_of in omega (arith, room)) in
          (s', rw (rests, append_slots) e, r, q, qs)
      | inl goes ↦
          let runs_on : (new y).status ≡ SequenceStatus.running = ground (arith, goes) in
          let (o, s1, e1, h1, k1, room1, same) =
            round y rest new s h k (ground (arith, within y)) once runs_on room in
          let (s', e, r, q, qs) =
            append_each rest new s1 h1 k1 (λ x. rw same.running (omega (arith, within x))) room1 in
          (
            s',
            rw (goes, append_slots)
                (bind-ok (on_manager (BlockManager.append_slot y (total_len (new y))))
                    (λ _. append_slots rest) e1
                  ∙ e),
            r,
            q,
            SameQueues-trans same qs,
          )
    ]

-- Take a scheduler that satisfies the invariant and has a block available for each running
-- sequence that grows. If a step gives each sequence at most one token, may finish running
-- sequences, lets only listed ones grow among those that still run, and the list has no id more
-- often than the running queue, then `append_slots` on the list returns without raising, the
-- invariant holds afterwards, the sequences are as the step left them, and the queues are
-- unchanged.
pub append_slots-Ready :
    (ids : List ℕ) (new : ℕ → Sequence) (s : Scheduler)
    → Ready s
    → HasRoom s
    → IsStep ids s.sequences new
    → ((x : ℕ) → count x ids ≤ count x s.running)
    → (s' : Scheduler) × (append_slots ids (stepped s new) ≡ (ok tt, s'))
      × Ready s'
      × (s'.sequences ≡ new)
      × SameQueues s s'
unfolding running_growth_reserve
append_slots-Ready ids new s h room k within =
    append_each ids new s h k within (omega (arith, growth_of_mono s ids s.running within, room))
