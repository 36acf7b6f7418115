-- ===== src/Attention.antt =====
-- pagedserve/attention/backend.py: what a step hands to an attention backend, and the operations on
-- tensors that the backends share. A layer's K or V is a function from a token slot to a row, which
-- stands for all heads of one token; a batch of tokens is a list. A mask is the list of what is
-- allowed; the additive bias has zero there and the least number elsewhere.
pub mod Gather
pub mod Assign
pub mod Contiguous
pub mod Visible
pub mod Rows
pub mod Splice
pub mod Ragged
pub mod Forward
pub mod Paged
pub mod Private
pub mod Isolation
pub mod Dense
pub mod Layout
use paged_serve.Prelude.{
  ℕ, zero, suc, ◌+◌, ◌-◌, ◌*◌, Bool, true, false, ◌&&◌, List, [], ◌∷◌, ◌++◌, Option, none, some,
  length, map, ltb, leb, ◌==◌, if◌then◌else◌,
}
use paged_serve.BlockManager.{range_from}

pub record KvMemoryStats : Type 0 where
  pub allocated_bytes : ℕ
  pub live_bytes : ℕ

-- `max(0, self.allocated_bytes - self.live_bytes)`
unfoldable pub wasted_bytes : KvMemoryStats → ℕ
wasted_bytes s = s.allocated_bytes - s.live_bytes

pub record StepInput : Type 0 where
  pub query_len : ℕ
  pub context_len : ℕ
  pub seq_lens : List ℕ
  pub padding_mask : List (List Bool)
  pub is_prefill : Bool
  pub query_positions : Option (List (List ℕ))
  pub block_tables : Option (List (List ℕ))
  pub slot_mapping : Option (List ℕ)

unfoldable pub num_seqs : StepInput → ℕ
num_seqs s = length s.padding_mask

unfoldable pub key_len : StepInput → ℕ
key_len s = s.context_len + s.query_len

-- One layer of a cache.
pub record Layer (R : Type 0) : Type 0 where
  pub keys : ℕ → R
  pub values : ℕ → R

module _ {R : Type 0} where
  -- `plane.index_copy_(0, slots, rows)`
  unfoldable pub index_copy : List ℕ → List R → (ℕ → R) → ℕ → R
  index_copy [] rows plane = plane
  index_copy (s ∷ slots) [] plane = plane
  index_copy (s ∷ slots) (row ∷ rows) plane =
      index_copy slots rows (λ x. if x == s then row else plane x)

  -- `index_select` of whole blocks: the rows of each block's slots, in order.
  unfoldable pub gather_rows : ℕ → (ℕ → R) → List ℕ → List R
  gather_rows block_size plane [] = []
  gather_rows block_size plane (b ∷ blocks) =
      map plane (range_from (b * block_size) block_size) ++ gather_rows block_size plane blocks

-- What a query may see: the entries that its mask allows.
module _ {A : Type 0} where
  abbrev pub unmasked : List Bool → List A → List A
  unmasked [] xs = []
  unmasked (m ∷ ms) [] = []
  unmasked (m ∷ ms) (x ∷ xs) = if m then x ∷ unmasked ms xs else unmasked ms xs

-- `(key_pos < seq_len) & (key_pos <= query_pos)` for the gathered key positions.
abbrev pub row_mask : ℕ → ℕ → ℕ → List Bool
row_mask gathered_len seq_len query_pos =
    map (λ key_pos. ltb key_pos seq_len && leb key_pos query_pos) (range_from 0 gathered_len)
