-- ===== src/PrefixCache/Hash.antt =====
-- pagedserve/memory/prefix_cache.py: `chain_hash` and `block_hashes`, over the digest function of
-- hashlib, which maps a byte string to the number that its eight bytes spell.
-- A token id is a natural number. Python's conversion to eight signed bytes raises above 2^63 - 1,
-- far past any vocabulary; here it wraps.
use paged_serve.Prelude.{
  ℕ, zero, suc, ◌+◌, ◌-◌, ◌/◌, ◌%◌, List, [], ◌∷◌, ◌++◌, Option, none, some, length, take, drop,
  ltb, ltb_of_le, ◌<◌, ◌≡◌, if◌then◌else◌, Result, ok, raise, value_error,
}

-- `n.to_bytes(width, "little")`
unfoldable pub to_bytes : ℕ → ℕ → List ℕ
to_bytes zero n = []
to_bytes (suc width) n = n % 256 ∷ to_bytes width (n / 256)

-- The bytes of a block: eight for each token.
unfoldable pub token_bytes : List ℕ → List ℕ
token_bytes [] = []
token_bytes (token ∷ tokens) = to_bytes 8 token ++ token_bytes tokens

unfoldable pub parent_bytes : Option ℕ → List ℕ
parent_bytes none = []
parent_bytes (some parent) = to_bytes 8 parent

-- The number of rounds of `range(0, stop, step)`.
unfoldable pub range_length : ℕ → ℕ → ℕ
range_length stop step = (stop + step - 1) / step

module _ (digest : List ℕ → ℕ) where
  -- The updates of the digest object concatenate.
  unfoldable pub chain_hash : Option ℕ → List ℕ → ℕ
  chain_hash parent tokens = digest (parent_bytes parent ++ token_bytes tokens)

  -- The loop of `block_hashes`, by the rounds left; a round reads the tokens at `start`.
  unfoldable pub hashes_from : ℕ → List ℕ → ℕ → ℕ → Option ℕ → List ℕ
  hashes_from block_size token_ids zero start current = []
  hashes_from block_size token_ids (suc rounds) start current =
      let h = chain_hash current (take block_size (drop start token_ids)) in
      h ∷ hashes_from block_size token_ids rounds (start + block_size) (some h)

  unfoldable pub block_hashes : List ℕ → ℕ → Option ℕ → Result (List ℕ)
  block_hashes token_ids block_size parent =
      if ltb block_size 1
      then raise value_error
      else ok (
          hashes_from block_size token_ids
            (range_length (length token_ids + 1 - block_size) block_size) 0 parent)

  -- With a positive block size nothing is raised.
  pub block_hashes_of_pos :
      (token_ids : List ℕ) (block_size : ℕ) (parent : Option ℕ)
      → 0 < block_size
      → block_hashes token_ids block_size parent
        ≡ ok (
            hashes_from block_size token_ids
              (range_length (length token_ids + 1 - block_size) block_size)
              0
              parent)
  unfolding block_hashes
  block_hashes_of_pos token_ids block_size parent h = rw (ltb_of_le block_size 1 h)
