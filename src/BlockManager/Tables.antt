-- ===== src/BlockManager/Tables.antt =====
-- The dictionary of block tables: what a lookup finds after a write or a removal, and the
-- references that the tables hold.
use paged_serve.Prelude.{
  ℕ, ◌+◌, ◌≤◌, ◌≡◌, ◌≢◌, refl, arith, List, [], ◌∷◌, none, some, count, ◌==◌, if◌then◌else◌,
  Bool-cases, inl, inr,
}
use paged_serve.Block.{BlockTable}
use paged_serve.BlockManager.{find_table, put_table, drop_table}
use paged_serve.BlockManager.Invariant.{held, Distinct}

pub held-drop_table :
    (k b : ℕ) (l : List (ℕ × BlockTable)) {t : BlockTable}
    → find_table k l ≡ some t
    → held b l ≡ count b t.blocks + held b (drop_table k l)
held-drop_table k b [] h = absurd (ground arith)
held-drop_table k b ((j, u) ∷ l) {t} h = ground (arith, held-drop_table k b l {t = t})

pub drop_table_absent :
    (k : ℕ) (l : List (ℕ × BlockTable)) → find_table k l ≡ none → drop_table k l ≡ l
drop_table_absent k [] h = refl
drop_table_absent k ((j, u) ∷ l) h = ground (arith, drop_table_absent k l)

pub find_table-drop_table_ne :
    (k j : ℕ) (l : List (ℕ × BlockTable)) → j ≢ k → find_table j (drop_table k l) ≡ find_table j l
find_table-drop_table_ne k j [] h = refl
find_table-drop_table_ne k j ((i, u) ∷ l) h = ground (arith, find_table-drop_table_ne k j l)

pub find_table-drop_table :
    (k : ℕ) (l : List (ℕ × BlockTable)) → Distinct l → find_table k (drop_table k l) ≡ none
find_table-drop_table k [] d = refl
find_table-drop_table k ((j, u) ∷ l) d = ground (arith, find_table-drop_table k l d.1)

pub drop_table-Distinct :
    (k : ℕ) (l : List (ℕ × BlockTable)) → Distinct l → Distinct (drop_table k l)
drop_table-Distinct k [] d = tt
drop_table-Distinct k ((j, u) ∷ l) d = elim (Bool-cases (j == k)) [
  | inl e ↦ rw e d.1
  | inr e ↦ rw e (ground (arith, find_table-drop_table_ne k j l, d.0), drop_table-Distinct k l d.1)
]

pub find_table-put_table :
    (k j : ℕ) (t : BlockTable) (l : List (ℕ × BlockTable))
    → find_table j (put_table k t l) ≡ (if k == j then some t else find_table j l)
find_table-put_table k j t [] = refl
find_table-put_table k j t ((i, u) ∷ l) = ground (arith, find_table-put_table k j t l)

pub put_table-Distinct :
    (k : ℕ) (t : BlockTable) (l : List (ℕ × BlockTable)) → Distinct l → Distinct (put_table k t l)
put_table-Distinct k t [] d = (refl, tt)
put_table-Distinct k t ((j, u) ∷ l) d = elim (Bool-cases (j == k)) [
  | inl e ↦ rw e (ground (arith, d.0), d.1)
  | inr e ↦ rw e (ground (arith, find_table-put_table k j t l, d.0), put_table-Distinct k t l d.1)
]

-- A new entry adds its references, a changed one replaces them.
pub held-put_table_new :
    (k b : ℕ) (t : BlockTable) (l : List (ℕ × BlockTable))
    → find_table k l ≡ none
    → held b (put_table k t l) ≡ count b t.blocks + held b l
held-put_table_new k b t [] h = refl
held-put_table_new k b t ((j, u) ∷ l) h = ground (arith, held-put_table_new k b t l)

pub held-put_table_old :
    (k b : ℕ) (t : BlockTable) (l : List (ℕ × BlockTable)) {u : BlockTable}
    → find_table k l ≡ some u
    → held b (put_table k t l) + count b u.blocks ≡ count b t.blocks + held b l
held-put_table_old k b t [] h = absurd (ground arith)
held-put_table_old k b t ((j, w) ∷ l) {u} h = ground (arith, held-put_table_old k b t l {u = u})

-- The references of one table are among those held.
pub held-find_table :
    (k x : ℕ) (l : List (ℕ × BlockTable)) {t : BlockTable}
    → find_table k l ≡ some t
    → count x t.blocks ≤ held x l
held-find_table k x l {t} e = omega (arith, held-drop_table k x l {t = t} e)
