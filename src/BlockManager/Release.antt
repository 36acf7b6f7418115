-- ===== src/BlockManager/Release.antt =====
-- `free` and the loop of `fork`: giving references back, and taking more of them.
use mathlib.Core.Path.{subst}
use native.Mathlib.Decide.{ℕ_discrete}
use paged_serve.Block.{BlockTable}
use paged_serve.BlockManager.Sealable.{Sealable, IsOwn-kept}
use paged_serve.Prelude.{
  ℕ, ◌+◌, ◌-◌, ◌≤◌, ◌<◌, ◌≡◌, ◌≢◌, refl, sym, arith, List, [], ◌∷◌, ◌++◌, none, some, length-append,
  count-get_elem?, count, count-append, erase, length-erase-le, ◌==◌, ok, bind-ok, append-nil, ◌∙◌,
  ap, Option-cases, Bool-cases, inl, inr,
}
use paged_serve.PrefixCache
use paged_serve.PrefixCache.{PrefixCache, is_cached}
use paged_serve.PrefixCache.Index.{release-IsIndexed, count-move_to_end}
use paged_serve.BlockManager.Invariant.{IsConsistent, IsValid, held}
use paged_serve.BlockManager.Tables.{
  held-drop_table, drop_table-Distinct, find_table-drop_table, find_table-drop_table_ne,
  drop_table_absent,
}
use paged_serve.BlockManager.Take.{SameTables, SameTables-refl, SameTables-trans}
use paged_serve.BlockManager.{
  BlockManager, num_free_blocks, release_block, release_blocks, free, find_table, drop_table,
  set_ref, set_free, set_cache, set_chain,
}

-- One pending reference was given back: no block became unavailable.
pub record Released (pending : List ℕ) (m n : BlockManager) : Type 0 where
  pub consistent : IsConsistent pending n
  pub available : num_free_blocks m ≤ num_free_blocks n
  pub same : SameTables m n

module _ (pending : List ℕ) (m : BlockManager) (b : ℕ) (v : IsConsistent (b ∷ pending) m) where
  abbrev dropped : BlockManager
  dropped = set_ref m b (m.ref_count b - 1)

  referenced : 0 < m.ref_count b
  referenced = ground (arith, v.refs b)

  shared-Released : 1 < m.ref_count b → Released pending m dropped
  unfolding num_free_blocks
  shared-Released h = record {
    consistent = record {
      index = v.index;
      refs = λ x. ground (arith, v.refs x);
      places = λ x. ground (arith, v.places x);
      cached = λ x c. ground (arith, v.cached x c);
      distinct = v.distinct;
    };
    available = omega arith;
    same = record {
      tables = refl;
      chains = refl;
      blocks = refl;
      size = refl;
      watermark = refl;
      enabled = refl;
      index = λ x e. e;
    };
  }

  freed-Released :
      m.ref_count b ≡ 1
      → m.prefix_cache.by_block b ≡ none
      → Released pending m (set_free dropped (m.free_blocks ++ b ∷ []))
  unfolding num_free_blocks
  freed-Released h fresh = record {
    consistent = record {
      index = v.index;
      refs = λ x. ground (arith, v.refs x);
      places = λ x. ground (arith, v.places x, count-append x m.free_blocks (b ∷ []));
      cached = λ x c. ground (arith, v.cached x c);
      distinct = v.distinct;
    };
    available = omega (arith, length-append m.free_blocks (b ∷ []));
    same = record {
      tables = refl;
      chains = refl;
      blocks = refl;
      size = refl;
      watermark = refl;
      enabled = refl;
      index = λ x e. e;
    };
  }

  kept-Released :
      (h : ℕ)
      → m.ref_count b ≡ 1
      → m.prefix_cache.by_block b ≡ some h
      → Released pending m (set_cache dropped (PrefixCache.release m.prefix_cache b))
  unfolding num_free_blocks PrefixCache.release
  kept-Released h one e = record {
    consistent = record {
      index = release-IsIndexed m.prefix_cache v.index b;
      refs = λ x. ground (arith, v.refs x);
      places =
          λ x. ground (arith, v.places x, v.places b, count-move_to_end x b m.prefix_cache.pool);
      cached =
          λ x c. ground (arith, v.cached x, v.places b, count-move_to_end x b m.prefix_cache.pool);
      distinct = v.distinct;
    };
    available = ground (
      arith,
      length-append (erase b m.prefix_cache.pool) (b ∷ []),
      length-erase-le b m.prefix_cache.pool,
    );
    same = record {
      tables = refl;
      chains = refl;
      blocks = refl;
      size = refl;
      watermark = refl;
      enabled = ground arith;
      index = λ x f. ground (arith, f);
    };
  }

  pub release_block-Released :
      (n : BlockManager) × (release_block b m ≡ (ok tt, n)) × Released pending m n
  unfolding release_block is_cached
  release_block-Released = elim (Bool-cases (m.ref_count b == 1)) [
    | inl one ↦ elim (Option-cases (m.prefix_cache.by_block b)) [
      | inl e ↦ (_, ground arith, freed-Released (ground arith) e)
      | inr (h, e) ↦ (_, ground arith, kept-Released h (ground arith) e)
    ]
    | inr more ↦ (_, ground (arith, referenced), shared-Released (ground (arith, referenced)))
  ]

pub release_blocks-Released :
    (bs pending : List ℕ) (m : BlockManager)
    → IsConsistent (bs ++ pending) m
    → (n : BlockManager) × (release_blocks bs m ≡ (ok tt, n)) × Released pending m n
unfolding release_blocks
release_blocks-Released [] pending m v =
    (m, refl, record { consistent = v; available = omega arith; same = SameTables-refl m })
release_blocks-Released (b ∷ bs) pending m v =
    let (n, e, r) = release_block-Released (bs ++ pending) m b v in
    let (o, f, s) = release_blocks-Released bs pending n r.consistent in
    (
      o,
      bind-ok (release_block b) (λ _. release_blocks bs) {s = m} e ∙ f,
      record {
        consistent = s.consistent;
        available = omega (arith, r.available, s.available);
        same = SameTables-trans r.same s.same;
      },
    )

-- What `free` leaves: the sequence's table is gone, the others are as they were, and every block
-- that was available still is.
pub record Freed (k : ℕ) (m n : BlockManager) : Type 0 where
  pub valid : IsValid n
  pub available : num_free_blocks m ≤ num_free_blocks n
  pub gone : find_table k n.block_tables ≡ none
  pub others : (j : ℕ) → j ≢ k → find_table j n.block_tables ≡ find_table j m.block_tables
  pub blocks : n.num_blocks ≡ m.num_blocks
  pub size : n.block_size ≡ m.block_size
  pub watermark : n.watermark_blocks ≡ m.watermark_blocks
  pub enabled : n.prefix_cache.enabled ≡ m.prefix_cache.enabled
  pub sealable : Sealable m → Sealable n

-- The state in which `free` begins to give the blocks back.
abbrev popped : ℕ → BlockManager → BlockManager
popped k m = set_chain (record m { block_tables = drop_table k m.block_tables }) k none

popped-IsConsistent :
    (k : ℕ) (m : BlockManager) (bs : List ℕ)
    → IsValid m
    → ((b : ℕ) → held b m.block_tables ≡ count b bs + held b (drop_table k m.block_tables))
    → IsConsistent bs (popped k m)
popped-IsConsistent k m bs v e = record {
  index = v.index;
  refs = λ b. omega (arith, v.refs b, e b);
  places = v.places;
  cached = v.cached;
  distinct = drop_table-Distinct k m.block_tables v.distinct;
}

popped_absent :
    (k : ℕ) (m : BlockManager)
    → IsValid m
    → find_table k m.block_tables ≡ none
    → IsValid (popped k m)
popped_absent k m v e =
    popped-IsConsistent k m [] v
      (λ b. omega (arith, ap (held b) (drop_table_absent k m.block_tables e)))

held-drop_table-le : (k b : ℕ) (l : List (ℕ × BlockTable)) → held b (drop_table k l) ≤ held b l
held-drop_table-le k b l = elim (Option-cases (find_table k l)) [
  | inl e ↦ omega (arith, ap (held b) (drop_table_absent k l e))
  | inr (t, e) ↦ omega (arith, held-drop_table k b l {t = t} e)
]

-- The other sequences keep the blocks that are their own.
freed-Sealable :
    (k : ℕ) (m n : BlockManager)
    → IsValid m
    → IsValid n
    → SameTables (popped k m) n
    → Sealable m
    → Sealable n
freed-Sealable k m n v w same own i t j b e le at = elim (ℕ_discrete i k) [
  | yes f ↦
      absurd (ground (arith, f, e, same.tables, find_table-drop_table k m.block_tables v.distinct))
  | no ne ↦
      let before : find_table i m.block_tables ≡ some t =
        sym (find_table-drop_table_ne k i m.block_tables ne)
        ∙ ap (find_table i) (sym same.tables)
        ∙ e in
      IsOwn-kept m n i b t v w (same.index b) e (count-get_elem? t.blocks j at)
        (omega (arith, ap (held b) same.tables, held-drop_table-le k b m.block_tables))
        (own i t j b before (ground (arith, le, same.chains, ne)) at)
]

-- On a valid allocator `free` never raises, also for an unknown sequence. Afterwards the
-- allocator is valid, the sequence has no table, the other tables are unchanged, and no available
-- block is lost.
pub free-Freed :
    (k : ℕ) (m : BlockManager)
    → IsValid m
    → (n : BlockManager) × (free k m ≡ (ok tt, n)) × Freed k m n
unfolding free num_free_blocks
free-Freed k m v = elim (Option-cases (find_table k m.block_tables)) [
  | inl e ↦ (
    popped k m,
    rw (e, free),
    record {
      valid = popped_absent k m v e;
      sealable =
          freed-Sealable k m (popped k m) v (popped_absent k m v e) (SameTables-refl (popped k m));
      available = omega arith;
      gone = find_table-drop_table k m.block_tables v.distinct;
      others = λ j ne. find_table-drop_table_ne k j m.block_tables ne;
      blocks = refl;
      size = refl;
      watermark = refl;
      enabled = refl;
    },
  )
  | inr (t, e) ↦
      let (n, f, r) = release_blocks-Released t.blocks [] (popped k m) (
        subst (λ bs. IsConsistent bs (popped k m)) (sym (append-nil t.blocks))
          (popped-IsConsistent k m t.blocks v (λ b. held-drop_table k b m.block_tables e))) in
      (
        n,
        rw (e, free) f,
        record {
          valid = r.consistent;
          available = omega (arith, r.available);
          gone =
              ap (find_table k) r.same.tables ∙ find_table-drop_table k m.block_tables v.distinct;
          others = λ j ne.
              ap (find_table j) r.same.tables ∙ find_table-drop_table_ne k j m.block_tables ne;
          blocks = r.same.blocks;
          size = r.same.size;
          watermark = r.same.watermark;
          enabled = r.same.enabled;
          sealable = freed-Sealable k m n v r.consistent r.same;
        },
      )
]
