-- ===== src/Attention/Private.antt =====
-- Where a step writes: in blocks that no other sequence holds, so that it changes no row that another
-- sequence reads.
use paged_serve.Prelude.{
  ℕ, ◌*◌, ◌/◌, ◌%◌, ◌≤◌, ◌<◌, ◌≡◌, ◌≢◌, sym, ap, ◌∙◌, arith, some, length, count,
  count-get_elem?_twice, ok,
}
use native.Mathlib.Decide.{ℕ_discrete}
use paged_serve.Block.{BlockTable, slot}
use paged_serve.Block.Slots.{slot-fields, slot-mem}
use paged_serve.BlockManager.{BlockManager, find_table, chain_of}
use paged_serve.BlockManager.Invariant.{IsValid}
use paged_serve.BlockManager.Sealable.{Sealable, IsOwn}
use paged_serve.BlockManager.Sealing.{one_table}
use paged_serve.BlockManager.Tables.{held-find_table}

same_position : (p q n : ℕ) → 0 < n → p / n ≡ q / n → p % n ≡ q % n → p ≡ q
same_position p q n h e f = grind arith

le-div : (c p n : ℕ) → 0 < n → c * n ≤ p → c ≤ p / n
le-div c p n h le = grind arith

-- A position behind the sealed part of its table.
module _ (m : BlockManager) (v : IsValid m) (own : Sealable m) (positive : 0 < m.block_size) (k : ℕ)
    (t : BlockTable) (e : find_table k m.block_tables ≡ some t) (size : t.block_size ≡ m.block_size)
    (p : ℕ) (unsealed : length (chain_of (m.chains k)) * m.block_size ≤ p) {a : ℕ}
    (at : slot t p ≡ ok a) where
  table_positive : 0 < t.block_size
  table_positive = rw size positive

  -- Its block has one reference.
  slot-IsOwn : IsOwn m (a / t.block_size)
  slot-IsOwn =
      let (b, off) = slot-fields t table_positive p at in
      let sealed : length (chain_of (m.chains k)) * t.block_size ≤ p = rw size unsealed in
      own k t (p / t.block_size) (a / t.block_size) e
        (le-div (length (chain_of (m.chains k))) p t.block_size table_positive sealed) b

  in_table : 0 < count (a / t.block_size) t.blocks
  in_table = slot-mem t table_positive p at

  -- No position of another table has its slot.
  pub slot-other :
      (i q : ℕ) (u : BlockTable)
      → i ≢ k
      → find_table i m.block_tables ≡ some u
      → u.block_size ≡ m.block_size
      → slot u q ≢ ok a
  slot-other i q u ne f size' at' =
      let there : 0 < count (a / u.block_size) u.blocks = slot-mem u (rw size' positive) q at' in
      let same : a / u.block_size ≡ a / t.block_size = ap (λ n. a / n) (size' ∙ sym size) in
      omega (
        arith,
        ap (λ b. count b u.blocks) same,
        there,
        in_table,
        slot-IsOwn.1,
        one_table i k (a / t.block_size) m {t = u} {u = t} v ne f e,
      )

  -- No other position of its own table has its slot.
  pub slot-same : (q : ℕ) → slot t q ≡ ok a → q ≡ p
  slot-same q at' = elim (ℕ_discrete (q / t.block_size) (p / t.block_size)) [
    | yes same ↦
        same_position q p t.block_size table_positive same
          (sym (slot-fields t table_positive q at').1 ∙ (slot-fields t table_positive p at).1)
    | no other ↦
        let twice =
          count-get_elem?_twice t.blocks (q / t.block_size) (p / t.block_size)
            (slot-fields t table_positive q at').0 (slot-fields t table_positive p at).0 other in
        absurd (
          omega (
            arith,
            twice,
            slot-IsOwn.1,
            v.refs (a / t.block_size),
            held-find_table k (a / t.block_size) m.block_tables {t = t} e,
          ))
  ]
