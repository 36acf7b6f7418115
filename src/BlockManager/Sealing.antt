-- ===== src/BlockManager/Sealing.antt =====
-- What `seal` of block_manager.py leaves for the next call of it, and for the other sequences.
use paged_serve.Prelude.{
  ℕ, ◌+◌, ◌≤◌, ◌<◌, ◌≡◌, ◌≢◌, refl, sym, arith, true, List, some, length, get_elem?, count,
  count-get_elem?, count-get_elem?_twice, ok, ◌∙◌, ap, Bool-cases, inl, inr,
}
use native.Mathlib.Decide.{ℕ_discrete}
use mathlib.Core.Path.{subst}
use paged_serve.Block.{BlockTable}
use paged_serve.BlockManager.Invariant.{IsValid}
use paged_serve.BlockManager.Tables.{held-drop_table, held-find_table, find_table-drop_table_ne}
use paged_serve.BlockManager.Sealable.{Sealable, IsOwn}
use paged_serve.BlockManager.Seal.{Sealed, rounds, seal-Sealed_on}
use paged_serve.BlockManager.{BlockManager, seal, find_table, drop_table, chain_of}

-- A block with one reference stands in one table.
pub one_table :
    (i k x : ℕ) (m : BlockManager) {t u : BlockTable}
    → IsValid m
    → i ≢ k
    → find_table i m.block_tables ≡ some t
    → find_table k m.block_tables ≡ some u
    → count x t.blocks + count x u.blocks ≤ m.ref_count x
one_table i k x m {t} {u} v ne e f =
    let rest : find_table i (drop_table k m.block_tables) ≡ some t =
      find_table-drop_table_ne k i m.block_tables ne ∙ e in
    omega (
      arith,
      v.refs x,
      held-drop_table k x m.block_tables {t = u} f,
      held-find_table i x (drop_table k m.block_tables) {t = t} rest,
    )

module _ (k n : ℕ) (t : BlockTable) (m o : BlockManager) (v : IsValid m)
    (e : find_table k m.block_tables ≡ some t) (own : Sealable m)
    (s : Sealed k (length (chain_of (m.chains k))) n t m o) where
  -- A block that these rounds do not seal is as it was.
  kept-IsOwn :
      (x : ℕ)
      → ((j : ℕ)
          → length (chain_of (m.chains k)) ≤ j
          → j < length (chain_of (m.chains k)) + n
          → get_elem? t.blocks j ≢ some x)
      → IsOwn m x
      → IsOwn o x
  kept-IsOwn x other h = (s.only x other ∙ h.0, ap (λ f. f x) s.references ∙ h.1)

  -- The blocks of the table beyond the sealed part.
  rest-IsOwn :
      (j b : ℕ) → length (chain_of (m.chains k)) + n ≤ j → get_elem? t.blocks j ≡ some b → IsOwn o b
  rest-IsOwn j b le at =
      let h = own k t j b e (omega arith) at in
      kept-IsOwn b
        (λ l lo hi same. omega (
          arith,
          count-get_elem?_twice t.blocks j l at same (λ f. omega arith),
          v.refs b,
          held-find_table k b m.block_tables {t = t} e,
          h.1,
        ))
        h

  sealed-Sealable : m.prefix_cache.enabled ≡ true → Sealable o
  sealed-Sealable on i u j b f le at =
      let before = ap (find_table i) (sym s.tables) ∙ f in
      elim (ℕ_discrete i k) [
        | yes same ↦
            rest-IsOwn j b (ground (arith, le, same, s.chain on))
              (ground (arith, at, same, before, e))
        | no ne ↦
            let h =
              own i u j b before (subst (λ c. length (chain_of c) ≤ j) (s.chains i ne) le) at in
            kept-IsOwn b
              (λ l lo hi mine. omega (
                arith,
                one_table i k b m {t = u} {u = t} v ne before e,
                count-get_elem? u.blocks j at,
                count-get_elem? t.blocks l mine,
                h.1,
              ))
              h
      ]

module _ (digest : List ℕ → ℕ) where
  -- On a valid allocator in which each block beyond the sealed part of its table is not indexed
  -- and has one reference, `seal` of a sequence with a table returns. The allocator stays valid
  -- and the blocks beyond the sealed parts stay so; tables, reference counts, available blocks
  -- and the other sequences' chains are unchanged; with caching enabled the chain has grown by
  -- one hash for each newly sealed block, and only those blocks change their entry in the index.
  pub seal-Sealed :
      (k : ℕ) (t : BlockTable) (ids : List ℕ) (num_computed : ℕ) (m : BlockManager)
      → IsValid m
      → find_table k m.block_tables ≡ some t
      → Sealable m
      → (o : BlockManager) × (seal digest k ids num_computed m ≡ (ok tt, o))
        × Sealed k (length (chain_of (m.chains k))) (rounds digest k t ids num_computed m) t m o
        × Sealable o
  unfolding seal
  seal-Sealed k t ids num_computed m v e own = elim (Bool-cases m.prefix_cache.enabled) [
    | inl on ↦
        let (o, f, s) = seal-Sealed_on digest k t ids num_computed m v e own on in
        (o, f, s, sealed-Sealable k (rounds digest k t ids num_computed m) t m o v e own s on)
    | inr off ↦ (
      m,
      rw (off, seal),
      record {
        valid = v;
        available = refl;
        tables = refl;
        blocks = refl;
        size = refl;
        watermark = refl;
        enabled = refl;
        only = λ x other. refl;
        references = refl;
        chain = λ on. absurd (ground arith);
        chains = λ j ne. refl;
      },
      own,
    )
  ]
