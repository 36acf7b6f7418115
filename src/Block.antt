-- ===== src/Block.antt =====
-- pagedserve/memory/block.py: a sequence's table from logical to physical blocks. A block is its
-- id; the reference counts of `PhysicalBlock` are a field of the allocator (BlockManager).
pub mod Ceiling
pub mod Slots
use paged_serve.Prelude.{
  ℕ, zero, suc, ◌+◌, ◌*◌, ◌/◌, ◌%◌, List, [], ◌∷◌, ◌++◌, none, some, length, get_elem?, leb, ◌==◌,
  if◌then◌else◌, Result, ok, raise, index_error,
}

pub record BlockTable : Type 0 where
  pub block_size : ℕ
  pub blocks : List ℕ

-- `len(self.blocks) * self.block_size`
unfoldable pub capacity : BlockTable → ℕ
capacity t = length t.blocks * t.block_size

-- `-(-n // block_size)`: the floor of the negated number, negated again. The early return for
-- `num_tokens <= 0` is the same value, `0 / block_size`, but stands first as in the source.
unfoldable pub blocks_needed : ℕ → ℕ → ℕ
blocks_needed block_size num_tokens =
    if leb num_tokens 0
    then 0
    else num_tokens / block_size + (if num_tokens % block_size == 0 then 0 else 1)

-- A logical position is a natural number, so the guard against negative ones has no case here.
unfoldable pub slot : BlockTable → ℕ → Result ℕ
slot t logical_position = elim (get_elem? t.blocks (logical_position / t.block_size)) [
  | none ↦ raise index_error
  | some block ↦ ok (block * t.block_size + logical_position % t.block_size)
]

-- One entry of the comprehension put in front of the rest.
abbrev pub cons_slot : Result ℕ → Result (List ℕ) → Result (List ℕ)
cons_slot (raise e) rest = raise e
cons_slot (ok s) (raise e) = raise e
cons_slot (ok s) (ok rest) = ok (s ∷ rest)

-- `[self.slot(start + i) for i in range(count)]`
unfoldable pub slots : BlockTable → ℕ → ℕ → Result (List ℕ)
slots t start zero = ok []
slots t start (suc n) = cons_slot (slot t start) (slots t (start + 1) n)

unfoldable pub append : BlockTable → ℕ → BlockTable
append t block_id = record t { blocks = t.blocks ++ block_id ∷ [] }

-- `list(blocks) if blocks else []` is the list itself, copied.
unfoldable pub copy : BlockTable → BlockTable
copy t = record { block_size = t.block_size; blocks = t.blocks }
