-- ===== src/PrefixCache/Index.antt =====
-- The invariant of the index of prefix_cache.py: the two dictionaries and the pool.
use paged_serve.Prelude.{
  ℕ, ◌+◌, ◌-◌, ◌≤◌, ◌<◌, ◌≡◌, ◌≢◌, refl, arith, Bool, List, [], ◌∷◌, ◌++◌, none, some, erase, count,
  count-append, count-erase, count-erase_self, ◌==◌, if◌then◌else◌, Option-cases, Bool-cases, inl,
  inr, ◌⊎◌,
}
use paged_serve.PrefixCache.{
  PrefixCache, init, lookup, insert, release, evict, evict_from, unindex, forget, reset, unpool,
}

pub record IsIndexed (c : PrefixCache) : Type 0 where
  pub hash_of : (b h : ℕ) → c.by_block b ≡ some h → c.by_hash h ≡ some b
  pub block_of : (h b : ℕ) → c.by_hash h ≡ some b → c.by_block b ≡ some h
  pub pooled : (b : ℕ) → 0 < count b c.pool → c.by_block b ≢ none
  pub once : (b : ℕ) → count b c.pool ≤ 1

pub init-IsIndexed : (block_size : ℕ) (enabled : Bool) → IsIndexed (init block_size enabled)
unfolding init
init-IsIndexed block_size enabled = record {
  hash_of = λ b h e. absurd (ground arith);
  block_of = λ h b e. absurd (ground arith);
  pooled = λ b h. absurd (omega arith);
  once = λ b. omega arith;
}

count-erase-le : (x y : ℕ) (xs : List ℕ) → count x (erase y xs) ≤ count x xs
count-erase-le x y [] = omega arith
count-erase-le x y (z ∷ zs) = ground (arith, count-erase-le x y zs)

-- Moving to the end keeps the counts of the others, and leaves one of the moved.
pub count-move_to_end :
    (x b : ℕ) (xs : List ℕ)
    → count x (erase b xs ++ b ∷ []) ≡ (if x == b then count x xs - 1 + 1 else count x xs)
count-move_to_end x b xs = ground (arith, count-append x (erase b xs) (b ∷ []), count-erase x b xs)

module _ (c : PrefixCache) where
  pub found_pool : (h x : ℕ) → count x (lookup c h).1.pool ≤ count x c.pool
  unfolding lookup
  found_pool h x = elim (Bool-cases c.enabled) [
    | inl on ↦ elim (Option-cases (c.by_hash h)) [
      | inl e ↦ rw (on, e) (omega arith)
      | inr (b, e) ↦ rw (on, e) (count-erase-le x b c.pool)
    ]
    | inr off ↦ rw off (omega arith)
  ]

module _ (c : PrefixCache) (v : IsIndexed c) where
  -- A hit takes the block out of the pool and leaves the index as it was; a miss changes no entry.
  pub lookup-IsIndexed : (h : ℕ) → IsIndexed (lookup c h).1
  unfolding lookup
  lookup-IsIndexed h = record {
    hash_of = λ b k e. ground (arith, v.hash_of b k);
    block_of = λ k b e. ground (arith, v.block_of k b);
    pooled = λ b p. ground (arith, v.pooled b, found_pool c h b);
    once = λ b. ground (arith, v.once b, found_pool c h b);
  }

  -- `insert` of a hash at a block that is not indexed, or that the hash already has, keeps the
  -- two dictionaries inverse to each other and the pool within the indexed blocks.
  pub insert-IsIndexed :
      (h b : ℕ) → (c.by_block b ≡ none) ⊎ (c.by_hash h ≡ some b) → IsIndexed (insert c h b)
  unfolding insert
  insert-IsIndexed h b fresh = record {
    hash_of = λ x k e. ground (arith, v.hash_of x k, v.block_of k x, v.block_of h b);
    block_of = λ k x e. ground (arith, v.hash_of x k, v.block_of k x);
    pooled = λ x p. ground (arith, v.pooled x);
    once = λ x. ground (arith, v.once x);
  }

  pub release-IsIndexed : (b : ℕ) → IsIndexed (release c b)
  unfolding release
  release-IsIndexed b = record {
    hash_of = λ x k e. ground (arith, v.hash_of x k);
    block_of = λ k x e. ground (arith, v.block_of k x);
    pooled = λ x p. ground (arith, v.pooled x, count-move_to_end x b c.pool);
    once = λ x. ground (arith, v.once x, count-move_to_end x b c.pool);
  }

  unindex-IsIndexed : (b : ℕ) → count b c.pool ≡ 0 → IsIndexed (unindex c b)
  unindex-IsIndexed b out = record {
    hash_of = λ x k e. ground (arith, v.hash_of x k, v.hash_of b k);
    block_of = λ k x e. ground (arith, v.block_of k x, v.hash_of b k);
    pooled = λ x p. ground (arith, v.pooled x);
    once = λ x. ground (arith, v.once x);
  }

smaller_pool-IsIndexed :
    (c : PrefixCache) (pool : List ℕ)
    → IsIndexed c
    → ((x : ℕ) → count x pool ≤ count x c.pool)
    → IsIndexed (record c { pool = pool })
smaller_pool-IsIndexed c pool v le = record {
  hash_of = v.hash_of;
  block_of = v.block_of;
  pooled = λ b h. v.pooled b (omega (arith, le b));
  once = λ b. omega (arith, le b, v.once b);
}

unindex-unpool : (c : PrefixCache) (b : ℕ) → unindex (unpool c b) b ≡ unpool (unindex c b) b
unindex-unpool c b = ground arith

module _ (c : PrefixCache) (v : IsIndexed c) where
  -- `forget` keeps the two dictionaries inverse to each other and the pool within the indexed
  -- blocks.
  pub forget-IsIndexed : (b : ℕ) → IsIndexed (forget c b)
  unfolding forget
  forget-IsIndexed b = rw (← unindex-unpool c b) (
      unindex-IsIndexed (unpool c b)
        (smaller_pool-IsIndexed c (erase b c.pool) v (λ x. count-erase-le x b c.pool)) b
        (omega (arith, v.once b, count-erase_self b c.pool)))

  evict_from-IsIndexed : (pool : List ℕ) → c.pool ≡ pool → IsIndexed (evict_from pool c).1
  evict_from-IsIndexed [] e = v
  evict_from-IsIndexed (b ∷ rest) e =
      let w : IsIndexed (unindex (record c { pool = rest }) b) =
        unindex-IsIndexed (record c { pool = rest })
          (smaller_pool-IsIndexed c rest v (λ x. ground arith)) b (ground (arith, v.once b)) in
      record { hash_of = w.hash_of; block_of = w.block_of; pooled = w.pooled; once = w.once }

  -- `evict` keeps the two dictionaries inverse to each other and the pool within the indexed
  -- blocks.
  pub evict-IsIndexed : IsIndexed (evict c).1
  unfolding evict
  evict-IsIndexed = evict_from-IsIndexed c.pool refl

pub reset-IsIndexed : (c : PrefixCache) → IsIndexed (reset c)
unfolding reset
reset-IsIndexed c = record {
  hash_of = λ b h e. absurd (ground arith);
  block_of = λ h b e. absurd (ground arith);
  pooled = λ b h. absurd (omega arith);
  once = λ b. omega arith;
}

-- What dropping a block leaves of the index.
pub by_block-unindex :
    (c : PrefixCache) (b x : ℕ) → (unindex c b).by_block x ≡ (if b == x then none else c.by_block x)
by_block-unindex c b x = ground arith

pub pool-unindex : (c : PrefixCache) (b : ℕ) → (unindex c b).pool ≡ c.pool
pool-unindex c b = ground arith

pub enabled-unindex : (c : PrefixCache) (b : ℕ) → (unindex c b).enabled ≡ c.enabled
enabled-unindex c b = ground arith
