-- ===== src/Static/Outputs.antt =====
-- What `generate` of engine.py answers when no allocator is installed.
use paged_serve.Prelude.{
  ℕ, suc, ◌≤◌, ◌<◌, ◌≡◌, refl, ap, ◌∙◌, ◌⊎◌, inl, inr, arith, Bool, true, false, List, [], ◌∷◌,
  ◌++◌, length, length-append, count, ltb, leb, if◌then◌else◌, Bool-cases,
}
use paged_serve.Sequence.{FinishReason}
use paged_serve.Sequence.Lifecycle.{no_stop, no_stop-append}
use paged_serve.Static.{Row, record_token, record_rows, all_finished, feed, feed_rows}

-- How an output ends: with its first stop token, or at the cap without one.
abbrev pub Ended : List ℕ → ℕ → List ℕ → FinishReason → Type 0
Ended eos max_tokens output reason =
    ((reason ≡ FinishReason.stop)
      × (run : List ℕ) × (token : ℕ) × (output ≡ run ++ token ∷ [])
      × (no_stop eos run ≡ true)
      × (0 < count token eos)
      × (length output ≤ max_tokens))
    ⊎ ((reason ≡ FinishReason.length_cap)
        × (no_stop eos output ≡ true)
        × (length output ≡ max_tokens))

-- The state of a row between two rounds.
pub data Going (eos : List ℕ) (max_tokens done : ℕ) (row : Row) : Type 0 where
  over :
      row.finished ≡ true
      → Ended eos max_tokens row.output row.finish_reason
      → Going eos max_tokens done row
  on :
      row.finished ≡ false
      → row.finish_reason ≡ FinishReason.length_cap
      → no_stop eos row.output ≡ true
      → length row.output ≡ done
      → Going eos max_tokens done row

abbrev pub AllRows : (Row → Type 0) → List Row → Type 0
AllRows P [] = Unit {0}
AllRows P (row ∷ rows) = P row × AllRows P rows

pub if_true : {A : Type 0} {b : Bool} (x y : A) → b ≡ true → (if b then x else y) ≡ x
if_true x y e = rw e refl

pub record_token_over :
    (eos : List ℕ) (max_tokens token : ℕ) (row : Row)
    → row.finished ≡ true
    → record_token eos max_tokens token row ≡ row
unfolding record_token
record_token_over eos max_tokens token row f = if_true row _ f

-- What a token does to a row: it goes on below the cap.
Next : List ℕ → ℕ → ℕ → Row → Type 0
Next eos max_tokens done row =
    Going eos max_tokens done row × (row.finished ≡ false → done < max_tokens)

record_token_on :
    (eos : List ℕ) (max_tokens done token : ℕ) (row : Row)
    → done < max_tokens
    → row.finished ≡ false
    → row.finish_reason ≡ FinishReason.length_cap
    → no_stop eos row.output ≡ true
    → length row.output ≡ done
    → Next eos max_tokens (suc done) (record_token eos max_tokens token row)
unfolding record_token Next
record_token_on eos max_tokens done token row lt f reason clean len =
    let size : length (row.output ++ token ∷ []) ≡ suc done =
      length-append row.output (token ∷ []) ∙ omega (arith, len) in
    elim (Bool-cases (ltb 0 (count token eos))) [
      | inl stops ↦
          rw (f, stops)
            (
              over refl (
                  inl (
                    refl,
                    row.output,
                    token,
                    refl,
                    clean,
                    ground (arith, stops),
                    omega (arith, size),
                  )),
              λ h. absurd (ground (arith, h)),
            )
      | inr goes ↦
          let clean' = no_stop-append eos row.output token clean (ground (arith, goes)) in
          elim (Bool-cases (leb max_tokens (length (row.output ++ token ∷ [])))) [
            | inl cap ↦
                rw (f, goes, cap)
                  (
                    over refl (inr (reason, clean', ground (arith, cap, size))),
                    λ h. absurd (ground (arith, h)),
                  )
            | inr more ↦
                rw (f, goes, more) (on refl reason clean' size, λ h. ground (arith, more, size))
          ]
    ]

record_token-Going :
    (eos : List ℕ) (max_tokens done token : ℕ) (row : Row)
    → done < max_tokens
    → Going eos max_tokens done row
    → Next eos max_tokens (suc done) (record_token eos max_tokens token row)
unfolding Next
record_token-Going eos max_tokens done token row lt (over f e) =
    rw (record_token_over eos max_tokens token row f) (over f e, λ h. absurd (ground (arith, f, h)))
record_token-Going eos max_tokens done token row lt (on f reason clean len) =
    record_token_on eos max_tokens done token row lt f reason clean len

pub record_rows-Going :
    (eos : List ℕ) (max_tokens done i : ℕ) (tokens : ℕ → ℕ) (rows : List Row)
    → done < max_tokens
    → AllRows (Going eos max_tokens done) rows
    → AllRows (Going eos max_tokens (suc done)) (record_rows eos max_tokens i tokens rows)
      × (all_finished (record_rows eos max_tokens i tokens rows) ≡ false → suc done < max_tokens)
      × (length (record_rows eos max_tokens i tokens rows) ≡ length rows)
unfolding record_rows Next
record_rows-Going eos max_tokens done i tokens [] lt h = (tt, λ e. absurd (ground (arith, e)), refl)
record_rows-Going eos max_tokens done i tokens (row ∷ rows) lt (h, hs) =
    let (one, more) = record_token-Going eos max_tokens done (tokens i) row lt h in
    let (all, mores, len) = record_rows-Going eos max_tokens done (suc i) tokens rows lt hs in
    (
      (one, all),
      λ e. elim (Bool-cases (record_token eos max_tokens (tokens i) row).finished) [
        | inl f ↦ mores (ground (arith, f, e))
        | inr f ↦ more f
      ],
      ap suc len,
    )

pub feed_rows-Going :
    (eos : List ℕ) (max_tokens done i position : ℕ) (tokens : ℕ → ℕ) (rows : List Row)
    → AllRows (Going eos max_tokens done) rows
    → AllRows (Going eos max_tokens done) (feed_rows i position tokens rows)
      × (length (feed_rows i position tokens rows) ≡ length rows)
unfolding feed_rows feed
feed_rows-Going eos max_tokens done i position tokens [] h = (tt, refl)
feed_rows-Going eos max_tokens done i position tokens (row ∷ rows) (over f e, hs) =
    let (all, len) = feed_rows-Going eos max_tokens done (suc i) position tokens rows hs in
    ((over f e, all), ap suc len)
feed_rows-Going eos max_tokens done i position tokens (row ∷ rows) (on f r c l, hs) =
    let (all, len) = feed_rows-Going eos max_tokens done (suc i) position tokens rows hs in
    ((on f r c l, all), ap suc len)

-- A row that cannot get a further token has ended.
pub Going-Ended :
    (eos : List ℕ) (max_tokens done : ℕ) (row : Row)
    → Going eos max_tokens done row
    → (row.finished ≡ false → done ≡ max_tokens)
    → Ended eos max_tokens row.output row.finish_reason
Going-Ended eos max_tokens done row (over f e) h = e
Going-Ended eos max_tokens done row (on f r c l) h = inr (r, c, l ∙ h f)
