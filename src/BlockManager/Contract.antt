-- ===== src/BlockManager/Contract.antt =====
-- What block_manager.py promises a client that knows neither blocks nor hashes: an abstract machine
-- that has for each sequence a number of blocks, and a number of blocks that it may still ask for.
use mathlib.Core.Path.{subst}
use paged_serve.Prelude.{
  ℕ, ◌+◌, ◌-◌, ◌≤◌, ◌<◌, ◌≡◌, ◌≢◌, inl, inr, refl, sym, arith, List, [], ◌∷◌, Option, none, some,
  length, length-append, ok, ◌>>=◌, ◌>>◌, return, Method, bind-ok, ◌∙◌, ap, ◌==◌, if◌then◌else◌,
  Bool-cases,
}
use paged_serve.Block
use paged_serve.Block.{BlockTable, blocks_needed}
use paged_serve.BlockManager
use paged_serve.BlockManager.{BlockManager, num_free_blocks, find_table}
use paged_serve.BlockManager.Invariant.{IsValid}
use paged_serve.BlockManager.Allocate.{allocate-Allocated}
use paged_serve.BlockManager.Growth.{append_slot_fits, append_slot-Appended, fork-Forked}
use paged_serve.BlockManager.Release.{free-Freed}

-- The state of the abstract machine. It has no blocks: `budget` is what the client may count on.
pub record View : Type 0 where
  pub budget : ℕ
  pub sizes : ℕ → Option ℕ

abbrev pub put : ℕ → Option ℕ → (ℕ → Option ℕ) → ℕ → Option ℕ
put k o f j = if j == k then o else f j

-- The calls of a client.
pub data Call : Type 0 where
  allocate : (seq_id num_tokens : ℕ) (token_ids : Option (List ℕ)) → Call
  append_slot : (seq_id new_length : ℕ) → Call
  fork : (parent_id child_id : ℕ) → Call
  free : (seq_id : ℕ) → Call

-- What a call does to the machine, if it is allowed. A sequence grows by one block at most, and a
-- freed sequence's blocks may be shared, so that the client cannot count on them.
pub data Step (block_size : ℕ) : Call → View → View → Type 0 where
  allocated :
      {k n : ℕ} {ids : Option (List ℕ)} {v : View}
      → v.sizes k ≡ none
      → blocks_needed block_size n ≤ v.budget
      → Step block_size (Call.allocate k n ids) v (record {
        budget = v.budget - blocks_needed block_size n;
        sizes = put k (some (blocks_needed block_size n)) v.sizes;
      })
  kept :
      {k n size : ℕ} {v : View}
      → v.sizes k ≡ some size
      → blocks_needed block_size n ≤ size
      → Step block_size (Call.append_slot k n) v v
  grown :
      {k n size : ℕ} {v : View}
      → v.sizes k ≡ some size
      → blocks_needed block_size n ≡ size + 1
      → 0 < v.budget
      → Step block_size (Call.append_slot k n) v (record {
        budget = v.budget - 1;
        sizes = put k (some (blocks_needed block_size n)) v.sizes;
      })
  forked :
      {parent child size : ℕ} {v : View}
      → v.sizes parent ≡ some size
      → v.sizes child ≡ none
      → Step block_size
          (Call.fork parent child)
          v
          (record { budget = v.budget; sizes = put child (some size) v.sizes })
  freed :
      {k : ℕ} {v : View}
      → Step block_size (Call.free k) v (record { budget = v.budget; sizes = put k none v.sizes })

-- A run of calls.
pub data Steps (block_size : ℕ) : List Call → View → View → Type 0 where
  done : {v : View} → Steps block_size [] v v
  next :
      {c : Call} {cs : List Call} {v w x : View}
      → Step block_size c v w
      → Steps block_size cs w x
      → Steps block_size (c ∷ cs) v x

abbrev pub size_of : Option BlockTable → Option ℕ
size_of none = none
size_of (some t) = some (length t.blocks)

-- An allocator that the machine describes.
pub record Implements (m : BlockManager) (v : View) : Type 0 where
  pub valid : IsValid m
  pub positive : 0 < m.block_size
  pub budget : v.budget ≤ num_free_blocks m
  pub sizes : (k : ℕ) → size_of (find_table k m.block_tables) ≡ v.sizes k

size_of-none : (o : Option BlockTable) → size_of o ≡ none → o ≡ none
size_of-none none e = refl
size_of-none (some t) e = absurd (cc)

size_of-some :
    (o : Option BlockTable) (n : ℕ)
    → size_of o ≡ some n
    → (t : BlockTable) × (o ≡ some t) × (length t.blocks ≡ n)
size_of-some none n e = absurd (cc)
size_of-some (some t) n e = (t, refl, cc)

appended_size :
    (t : BlockTable) (b size : ℕ)
    → length t.blocks ≡ size
    → length (Block.append t b).blocks ≡ size + 1
unfolding Block.append
appended_size t b size e = omega (arith, length-append t.blocks (b ∷ []), e)

-- One table has changed.
put_sizes :
    (k : ℕ) (o : Option ℕ) (f : ℕ → Option ℕ) (m n : BlockManager)
    → ((j : ℕ) → size_of (find_table j m.block_tables) ≡ f j)
    → size_of (find_table k n.block_tables) ≡ o
    → ((j : ℕ) → j ≢ k → find_table j n.block_tables ≡ find_table j m.block_tables)
    → (j : ℕ) → size_of (find_table j n.block_tables) ≡ put k o f j
put_sizes k o f m n before here others j = elim (Bool-cases (j == k)) [
  | inl e ↦
      let same : j ≡ k = ground (arith, e) in
      ap (λ i. size_of (find_table i n.block_tables)) same ∙ here ∙ rw e refl
  | inr e ↦ let ne : j ≢ k = ground (arith, e) in ap size_of (others j ne) ∙ before j ∙ rw e refl
]

module _ (digest : List ℕ → ℕ) where
  abbrev pub perform : Call → Method BlockManager (Unit {0})
  perform (Call.allocate k n ids) = BlockManager.allocate digest k n ids >>= λ r. return tt
  perform (Call.append_slot k n) = BlockManager.append_slot k n >>= λ r. return tt
  perform (Call.fork parent child) = BlockManager.fork parent child >>= λ r. return tt
  perform (Call.free k) = BlockManager.free k

  abbrev pub perform_all : List Call → Method BlockManager (Unit {0})
  perform_all [] = return tt
  perform_all (c ∷ cs) = perform c >> perform_all cs

  abbrev Performed : Call → View → BlockManager → Type 0
  Performed c w m =
      (n : BlockManager) × (perform c m ≡ (ok tt, n))
      × (n.block_size ≡ m.block_size)
      × Implements n w

  perform-Implements :
      (m : BlockManager) {c : Call} {v w : View}
      → Implements m v
      → Step m.block_size c v w
      → Performed c w m
  perform-Implements m {v = v} i (allocated {k} {n = tokens} {ids} absent enough) =
      let (t, cached, n, e, a) =
        allocate-Allocated digest k tokens ids m i.valid i.positive
          (size_of-none (find_table k m.block_tables) (i.sizes k ∙ absent))
          (omega (arith, enough, i.budget)) in
      (
        n,
        bind-ok (BlockManager.allocate digest k tokens ids) _ {s = m} e,
        a.size,
        record {
          valid = a.valid;
          positive = omega (arith, i.positive, a.size);
          budget = omega (arith, i.budget, a.available, enough);
          sizes =
              put_sizes k _ v.sizes m n i.sizes (ap size_of a.stored ∙ ap some a.exact) a.others;
        },
      )
  perform-Implements m i (kept {k} {n = len} {size} is fits) =
      let (t, e, number) = size_of-some (find_table k m.block_tables) size (i.sizes k ∙ is) in
      (
        m,
        bind-ok (BlockManager.append_slot k len) _ {s = m}
            (append_slot_fits k len m t i.valid e (omega (arith, fits, number))),
        refl,
        i,
      )
  perform-Implements m {v = v} i (grown {k} {n = len} {size} is one room) =
      let (t, e, number) = size_of-some (find_table k m.block_tables) size (i.sizes k ∙ is) in
      let (b, n, f, a) =
        append_slot-Appended k len m t i.valid e (omega (arith, one, number))
          (omega (arith, one, number, room, i.budget)) in
      (
        n,
        bind-ok (BlockManager.append_slot k len) _ {s = m} f,
        a.size,
        record {
          valid = a.valid;
          positive = omega (arith, i.positive, a.size);
          budget = omega (arith, i.budget, a.available, room);
          sizes =
              put_sizes k _ v.sizes m n i.sizes
                (ap size_of a.stored ∙ ap some (appended_size t b size number ∙ sym one)) a.others;
        },
      )
  perform-Implements m {v = v} i (forked {parent} {child} {size} is absent) =
      let (t, e, number) =
        size_of-some (find_table parent m.block_tables) size (i.sizes parent ∙ is) in
      let (n, f, a) =
        fork-Forked parent child m t i.valid e
          (size_of-none (find_table child m.block_tables) (i.sizes child ∙ absent)) in
      (
        n,
        bind-ok (BlockManager.fork parent child) _ {s = m} f,
        a.size,
        record {
          valid = a.valid;
          positive = omega (arith, i.positive, a.size);
          budget = omega (arith, i.budget, a.available);
          sizes =
              put_sizes child _ v.sizes m n i.sizes (ap size_of a.stored ∙ ap some number) a.others;
        },
      )
  perform-Implements m {v = v} i (freed {k}) =
      let (n, e, f) = free-Freed k m i.valid in
      (
        n,
        e,
        f.size,
        record {
          valid = f.valid;
          positive = omega (arith, i.positive, f.size);
          budget = omega (arith, i.budget, f.available);
          sizes = put_sizes k none v.sizes m n i.sizes (ap size_of f.gone) f.others;
        },
      )

  -- Take an abstract machine that knows for each sequence a number of blocks and has a budget, no
  -- more than the available blocks. `allocate` of a new sequence costs the blocks of its tokens;
  -- `append_slot` costs nothing if the sequence's blocks hold the length, and one block if
  -- exactly one is missing; `fork` gives the child the parent's number of blocks for nothing;
  -- `free` takes a sequence's number away and gives nothing back, as blocks may be shared. If the
  -- machine describes a valid allocator with a positive block size and can make a run of such
  -- calls, with any tokens and digest, then none of these calls on the allocator raises, the
  -- allocator is valid at the end, and the machine's last state describes it: each sequence has
  -- as many blocks as the machine says, and the remaining budget is available.
  pub perform_all-Implements :
      (calls : List Call) (v w : View) (m : BlockManager)
      → Implements m v
      → Steps m.block_size calls v w
      → (n : BlockManager) × (perform_all calls m ≡ (ok tt, n)) × Implements n w
  perform_all-Implements [] v w m i done = (m, refl, i)
  perform_all-Implements (c ∷ calls) v w m i (next {w = u} step rest) =
      let (n, e, same, j) = perform-Implements m i step in
      let (o, f, k) =
        perform_all-Implements calls u w n j
          (subst (λ size. Steps size calls u w) (sym same) rest) in
      (o, bind-ok (perform c) (λ _. perform_all calls) {s = m} e ∙ f, k)
