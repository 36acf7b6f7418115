-- ===== src/BlockManager/Allocate.antt =====
-- `allocate` of block_manager.py.
use mathlib.Core.Path.{subst}
use paged_serve.Prelude.{
  ℕ, zero, suc, ◌+◌, ◌-◌, ◌*◌, ◌≤◌, ◌<◌, ◌≡◌, ◌≢◌, refl, sym, arith, true, List, [], ◌∷◌, ◌++◌,
  Option, none, some, length, length-append, count, count-append, take, min, ltb, ltb_of_le,
  if◌then◌else◌, ok, bind-ok, ◌∙◌, ap, Bool-cases, Option-cases, inl, inr,
}
use native.Mathlib.Decide.{ℕ_discrete}
use paged_serve.BlockManager.Sealable.{Sealable, IsOwn, changed-Sealable, count-get_elem?_append}
use paged_serve.Block.{BlockTable, blocks_needed}
use paged_serve.PrefixCache.{count_reuse}
use paged_serve.PrefixCache.Hash.{hashes_from, range_length, block_hashes_of_pos}
use paged_serve.PrefixCache.Leading.{leading}
use paged_serve.BlockManager.Invariant.{IsConsistent, IsValid, held}
use paged_serve.BlockManager.Tables.{find_table-put_table, put_table-Distinct, held-put_table_new}
use paged_serve.BlockManager.Take.{SameTables, TakenAll, take_blocks-TakenAll, IsConsistent-count}
use paged_serve.BlockManager.Match.{Extended, match_blocks-Extended}
use paged_serve.BlockManager.{
  BlockManager, Matched, no_match, num_free_blocks, match_blocks, count_matched, match_prefix, fill,
  allocate, find_table, set_table, set_chain, set_cache, take_blocks,
}

-- The pending references become those of a new table.
pub new_table-IsValid :
    (pending : List ℕ) (n : BlockManager) (k : ℕ) (t : BlockTable)
    → IsConsistent pending n
    → find_table k n.block_tables ≡ none
    → ((x : ℕ) → count x t.blocks ≡ count x pending)
    → IsValid (set_table n k t)
new_table-IsValid pending n k t v absent e = record {
  index = v.index;
  refs = λ x. omega (arith, v.refs x, e x, held-put_table_new k x t n.block_tables absent);
  places = v.places;
  cached = v.cached;
  distinct = put_table-Distinct k t n.block_tables v.distinct;
}

-- The hashes of a sequence play no part in the invariant.
pub set_chain-IsConsistent :
    (pending : List ℕ) (n : BlockManager) (k : ℕ) (chain : Option (List ℕ))
    → IsConsistent pending n
    → IsConsistent pending (set_chain n k chain)
set_chain-IsConsistent pending n k chain v = record {
  index = v.index;
  refs = v.refs;
  places = v.places;
  cached = v.cached;
  distinct = v.distinct;
}

store-IsValid :
    (pending : List ℕ) (n : BlockManager) (k : ℕ) (t : BlockTable) (chain : Option (List ℕ))
    → IsConsistent pending n
    → find_table k n.block_tables ≡ none
    → ((x : ℕ) → count x t.blocks ≡ count x pending)
    → IsValid (set_chain (set_table n k t) k chain)
store-IsValid pending n k t chain v absent e =
    set_chain-IsConsistent [] (set_table n k t) k chain (new_table-IsValid pending n k t v absent e)

-- What `allocate` promises; `bs` are the blocks that it found in the cache.
pub record Allocated (k needed tokens : ℕ) (bs : List ℕ) (m : BlockManager) (t : BlockTable)
    (cached : ℕ) (n : BlockManager) : Type 0 where
  pub valid : IsValid n
  pub fresh : List ℕ
  pub prefix : t.blocks ≡ bs ++ fresh
  pub reused : cached ≡ min (length bs * m.block_size) (tokens - 1)
  pub exact : length t.blocks ≡ needed
  pub table_size : t.block_size ≡ m.block_size
  pub available : num_free_blocks m ≤ num_free_blocks n + needed
  pub stored : find_table k n.block_tables ≡ some t
  pub others : (j : ℕ) → j ≢ k → find_table j n.block_tables ≡ find_table j m.block_tables
  pub blocks : n.num_blocks ≡ m.num_blocks
  pub size : n.block_size ≡ m.block_size
  pub watermark : n.watermark_blocks ≡ m.watermark_blocks
  pub enabled : n.prefix_cache.enabled ≡ m.prefix_cache.enabled
  pub sealable : Sealable m → Sealable n

-- What the first half of `allocate` hands to the second.
pub record Prefixed (needed : ℕ) (bs : List ℕ) (m : BlockManager) (found : Matched)
    (n : BlockManager) : Type 0 where
  pub consistent : IsConsistent found.table.blocks n
  pub blocks : found.table.blocks ≡ bs
  pub tokens : found.cached_tokens ≡ length bs * m.block_size
  pub within : length found.table.blocks ≤ needed
  pub available : num_free_blocks m ≤ num_free_blocks n + length found.table.blocks
  pub table_size : found.table.block_size ≡ m.block_size
  pub chain_length : length found.chain ≡ length bs
  pub indexed : (x : ℕ) → 0 < count x bs → m.prefix_cache.by_block x ≢ none
  pub same : SameTables m n

-- The new table holds the reused blocks, which are indexed, and the fresh ones, which are its own.
module _ (k needed r : ℕ) (bs got : List ℕ) (m : BlockManager) (found : Matched)
    (n o : BlockManager) (v : IsValid m) (p : Prefixed needed bs m found n)
    (all : TakenAll found.table.blocks n r got o) where
  stays-IsOwn : (x : ℕ) → IsOwn m x → IsOwn o x
  stays-IsOwn x own = (
    all.same.index x (p.same.index x own.0),
    elim (Bool-cases (ltb 0 (count x bs))) [
      | inl pos ↦ absurd (p.indexed x (ground arith) own.0)
      | inr e ↦ ground (
        arith,
        e,
        own.1,
        v.refs x,
        all.unused x,
        p.consistent.refs x,
        all.consistent.refs x,
        count-append x got found.table.blocks,
        ap (held x) all.same.tables,
        ap (held x) p.same.tables,
        ap (count x) p.blocks,
      )
    ],
  )

  fresh-IsOwn : (x : ℕ) → 0 < count x got → IsOwn o x
  fresh-IsOwn x c = (
    all.unindexed x c,
    omega (
      arith,
      all.once x,
      all.unused x c,
      p.consistent.refs x,
      all.consistent.refs x,
      count-append x got found.table.blocks,
      ap (held x) all.same.tables,
    ),
  )

  fill-Sealable :
      (t : BlockTable)
      → t.blocks ≡ found.table.blocks ++ got
      → Sealable m
      → Sealable (set_chain (set_table o k t) k (some found.chain))
  fill-Sealable t e own =
      let w = set_chain (set_table o k t) k (some found.chain) in
      changed-Sealable k m w stays-IsOwn
        (λ i ne.
          ground (arith, find_table-put_table k i t o.block_tables, all.same.tables, p.same.tables))
        (λ i ne. ground (arith, all.same.chains, p.same.chains))
        (λ u j x at le elem. fresh-IsOwn x (
          count-get_elem?_append found.table.blocks got j
            (ground (arith, le, p.chain_length, ap length p.blocks))
            (ground (arith, at, elem, e, find_table-put_table k k t o.block_tables))))
        own

fill-Allocated :
    (k tokens needed : ℕ) (reusable : List ℕ) (m : BlockManager) (found : Matched)
    (n : BlockManager)
    → IsValid m
    → find_table k m.block_tables ≡ none
    → Prefixed needed reusable m found n
    → needed ≤ num_free_blocks m
    → (t : BlockTable) × (o : BlockManager) × (fill k tokens needed found n
        ≡ (ok (t, min found.cached_tokens (tokens - 1)), o))
      × Allocated k needed tokens reusable m t (min found.cached_tokens (tokens - 1)) o
unfolding fill
fill-Allocated k tokens needed reusable m found n v absent p enough =
    let bs = found.table.blocks in
    let (got, o, e, all) =
      take_blocks-TakenAll (needed - length bs) bs n found.table p.consistent
        (omega (arith, p.available, p.within)) in
    let t : BlockTable = record (found.table) { blocks = bs ++ got } in
    let absent' : find_table k o.block_tables ≡ none =
      ap (find_table k) (all.same.tables ∙ p.same.tables) ∙ absent in
    (
      t,
      set_chain (set_table o k t) k (some found.chain),
      rw
          (
            ltb_of_le (num_free_blocks n) (needed - length bs)
                (omega (arith, p.available, p.within)),
            fill,
          )
          (bind-ok (take_blocks (needed - length bs) found.table)
            (λ t' m'. (
              ok (t', min found.cached_tokens (tokens - 1)),
              set_chain (set_table m' k t') k (some found.chain),
            ))
            {s = n} e),
      record {
        valid =
            store-IsValid (got ++ bs) o k t (some found.chain) all.consistent absent'
              (λ x. ground (arith, count-append x bs got, count-append x got bs));
        exact = omega (arith, length-append bs got, all.number, p.within);
        table_size = p.table_size;
        available = (unfold num_free_blocks in omega (arith, all.available, p.available, p.within));
        fresh = got;
        prefix = ap (λ l. l ++ got) p.blocks;
        reused = ap (λ c. min c (tokens - 1)) p.tokens;
        stored = ground (arith, find_table-put_table k k t o.block_tables);
        others = λ j ne.
            ground
              (arith, find_table-put_table k j t o.block_tables, all.same.tables, p.same.tables);
        blocks = all.same.blocks ∙ p.same.blocks;
        size = all.same.size ∙ p.same.size;
        watermark = all.same.watermark ∙ p.same.watermark;
        enabled = all.same.enabled ∙ p.same.enabled;
        sealable =
            fill-Sealable k needed (needed - length bs) reusable got m found n o v p all t refl;
      },
    )

length-leading-le : (f : ℕ → Option ℕ) (hs : List ℕ) → length (leading f hs) ≤ length hs
length-leading-le f [] = omega arith
length-leading-le f (h ∷ hs) = ground (arith, length-leading-le f hs)

length-take-le : (n : ℕ) (hs : List ℕ) → length (take n hs) ≤ n
length-take-le zero hs = omega arith
length-take-le (suc n) [] = omega arith
length-take-le (suc n) (h ∷ hs) = omega (arith, length-take-le n hs)

no_match-Prefixed :
    (needed : ℕ) (m : BlockManager) → IsValid m → Prefixed needed [] m (no_match m) m
no_match-Prefixed needed m v = record {
  consistent = v;
  blocks = refl;
  tokens = omega arith;
  within = omega arith;
  available = omega arith;
  table_size = refl;
  chain_length = refl;
  indexed = λ x c. absurd (omega arith);
  same = record {
    tables = refl;
    chains = refl;
    blocks = refl;
    size = refl;
    watermark = refl;
    enabled = refl;
    index = λ x e. e;
  };
}

-- The blocks of the longest leading run of indexed hashes among those that the sequence needs.
abbrev pub prefix_blocks : ℕ → List ℕ → BlockManager → List ℕ
prefix_blocks needed hashes m = leading m.prefix_cache.by_hash (take needed hashes)

-- The blocks of a run of indexed hashes are indexed.
leading-indexed :
    (m : BlockManager)
    → IsValid m
    → (hs : List ℕ) (x : ℕ) → 0 < count x (leading m.prefix_cache.by_hash hs)
    → m.prefix_cache.by_block x ≢ none
leading-indexed m v [] x c = absurd (omega arith)
leading-indexed m v (h ∷ hs) x c = elim (Option-cases (m.prefix_cache.by_hash h)) [
  | inl e ↦ absurd (ground arith)
  | inr (b, e) ↦ elim (ℕ_discrete x b) [
    | yes f ↦ λ g. ground (arith, f, g, v.index.block_of h b e)
    | no ne ↦ leading-indexed m v hs x (ground arith)
  ]
]

-- Counting a reuse in the statistics changes nothing else.
set_stats-Prefixed :
    (needed n t : ℕ) (bs : List ℕ) (m : BlockManager) (found : Matched) (o : BlockManager)
    → Prefixed needed bs m found o
    → Prefixed needed bs m found (set_cache o (count_reuse o.prefix_cache n t))
unfolding num_free_blocks
set_stats-Prefixed needed n t bs m found o p = record {
  consistent = record {
    index = record {
      hash_of = p.consistent.index.hash_of;
      block_of = p.consistent.index.block_of;
      pooled = p.consistent.index.pooled;
      once = p.consistent.index.once;
    };
    refs = p.consistent.refs;
    places = p.consistent.places;
    cached = p.consistent.cached;
    distinct = p.consistent.distinct;
  };
  blocks = p.blocks;
  tokens = p.tokens;
  within = p.within;
  available = p.available;
  table_size = p.table_size;
  chain_length = p.chain_length;
  indexed = p.indexed;
  same = record {
    tables = p.same.tables;
    chains = p.same.chains;
    blocks = p.same.blocks;
    size = p.same.size;
    watermark = p.same.watermark;
    enabled = p.same.enabled;
    index = p.same.index;
  };
}

count_matched-Prefixed :
    (needed : ℕ) (bs : List ℕ) (m : BlockManager) (r : Matched × BlockManager)
    → Prefixed needed bs m r.0 r.1
    → Prefixed needed bs m (count_matched r).0 (count_matched r).1
count_matched-Prefixed needed bs m r p = elim (Bool-cases (ltb 0 r.0.cached_tokens)) [
  | inl e ↦ rw e (set_stats-Prefixed needed _ _ bs m r.0 r.1 p)
  | inr e ↦ rw e p
]

counted-Prefixed :
    (needed : ℕ) (hashes : List ℕ) (m : BlockManager)
    → IsValid m
    → m.prefix_cache.enabled ≡ true
    → let r = count_matched (match_blocks (take needed hashes) (no_match m) m) in
      Prefixed needed (prefix_blocks needed hashes m) m r.0 r.1
counted-Prefixed needed hashes m v on =
    let r = match_blocks (take needed hashes) (no_match m) m in
    let got = prefix_blocks needed hashes m in
    let x : Extended (no_match m) [] m got r =
      match_blocks-Extended (take needed hashes) (no_match m) [] m v on in
    count_matched-Prefixed needed got m r (record {
      consistent =
          IsConsistent-count (λ y. ground (arith, count-append y got [], ap (count y) x.blocks))
            x.consistent;
      blocks = x.blocks;
      tokens = omega (arith, x.tokens);
      within = omega (
        arith,
        ap length x.blocks,
        length-leading-le m.prefix_cache.by_hash (take needed hashes),
        length-take-le needed hashes,
      );
      available = omega (arith, x.available, ap length x.blocks);
      table_size = x.table_size;
      chain_length = omega (arith, x.chain_length);
      indexed = λ y c. leading-indexed m v (take needed hashes) y c;
      same = x.same;
    })

module _ (digest : List ℕ → ℕ) where
  abbrev pub prompt_hashes : List ℕ → BlockManager → List ℕ
  prompt_hashes ids m =
      hashes_from digest m.block_size ids
        (range_length (length ids + 1 - m.block_size) m.block_size) 0 none

  -- The blocks that `allocate` reuses for a prompt.
  abbrev pub reusable : ℕ → Option (List ℕ) → BlockManager → List ℕ
  reusable needed none m = []
  reusable needed (some ids) m =
      if m.prefix_cache.enabled then prefix_blocks needed (prompt_hashes ids m) m else []

  pub reusable-indexed :
      (needed : ℕ) (ids : Option (List ℕ)) (m : BlockManager)
      → IsValid m
      → (x : ℕ) → 0 < count x (reusable needed ids m)
      → m.prefix_cache.by_block x ≢ none
  reusable-indexed needed none m v x c = absurd (omega arith)
  reusable-indexed needed (some ids) m v x c = elim (Bool-cases m.prefix_cache.enabled) [
    | inl on ↦ leading-indexed m v (take needed (prompt_hashes ids m)) x (ground (arith, on, c))
    | inr off ↦ absurd (ground (arith, off, c))
  ]

  -- The first half of `allocate`, whatever is known of the tokens.
  match_prefix-Prefixed :
      (needed : ℕ) (ids : Option (List ℕ)) (m : BlockManager)
      → IsValid m
      → 0 < m.block_size
      → (found : Matched) × (n : BlockManager) × (match_prefix digest needed ids m ≡ (ok found, n))
        × Prefixed needed (reusable needed ids m) m found n
  unfolding match_prefix
  match_prefix-Prefixed needed none m v h = (no_match m, m, refl, no_match-Prefixed needed m v)
  match_prefix-Prefixed needed (some ids) m v h = elim (Bool-cases m.prefix_cache.enabled) [
    | inl on ↦
        let hashes = prompt_hashes ids m in
        let r = count_matched (match_blocks (take needed hashes) (no_match m) m) in
        (
          r.0,
          r.1,
          rw (on, block_hashes_of_pos digest ids m.block_size none h, match_prefix),
          subst (λ c. Prefixed needed (if c then prefix_blocks needed hashes m else []) m r.0 r.1)
              (sym on) (counted-Prefixed needed hashes m v on),
        )
    | inr off ↦ (
      no_match m,
      m,
      rw (off, match_prefix),
      subst
          (λ c.
            Prefixed needed (if c then prefix_blocks needed (prompt_hashes ids m) m else []) m
              (no_match m) m)
          (sym off) (no_match-Prefixed needed m v),
    )
  ]

  -- On a valid allocator with a positive block size, for a sequence without a table whose blocks
  -- are available, `allocate` returns. The table has exactly the blocks that the tokens need, the
  -- reusable prefix first and then fresh ones, the reported cached tokens are those of the reused
  -- blocks but never all tokens, the other tables are unchanged, the allocator is valid again,
  -- and the available blocks shrink by no more than the table's size.
  pub allocate-Allocated :
      (k tokens : ℕ) (ids : Option (List ℕ)) (m : BlockManager)
      → IsValid m
      → 0 < m.block_size
      → find_table k m.block_tables ≡ none
      → blocks_needed m.block_size tokens ≤ num_free_blocks m
      → (t : BlockTable) × (cached : ℕ) × (n : BlockManager) × (allocate digest k tokens ids m
          ≡ (ok (t, cached), n))
        × Allocated k
            (blocks_needed m.block_size tokens)
            tokens
            (reusable (blocks_needed m.block_size tokens) ids m)
            m
            t
            cached
            n
  unfolding allocate
  allocate-Allocated k tokens ids m v h absent enough =
      let needed = blocks_needed m.block_size tokens in
      let (found, n, e, p) = match_prefix-Prefixed needed ids m v h in
      let (t, o, f, a) = fill-Allocated k tokens needed _ m found n v absent p enough in
      (
        t,
        min found.cached_tokens (tokens - 1),
        o,
        rw (absent, allocate)
            (bind-ok (match_prefix digest needed ids) (fill k tokens needed) {s = m} e ∙ f),
        a,
      )
