-- ===== src/Static/Agreement.antt =====
-- The stopping rule of static batching in engine.py beside `append_token` and `check_stop` of sequence.py.
use paged_serve.Prelude.{
  ℕ, ◌≡◌, refl, sym, ap, ◌∙◌, arith, true, false, List, [], ◌∷◌, ◌++◌, some, length, count, ltb,
  leb, if◌then◌else◌, Bool-cases, inl, inr,
}
use paged_serve.Sequence.{Sequence, FinishReason, append_token, check_stop, is_terminal}
use paged_serve.Sequence.Lifecycle.{ends_with_stop-append}
use paged_serve.Engine.{RaggedBatch, request}
use paged_serve.Static.{Row, left_pad_row, record_token}
use paged_serve.Static.Outputs.{record_token_over}

-- The tokens that a model gives, one after the other, to a row of `generate`,
abbrev pub feed_row : List ℕ → ℕ → List ℕ → Row → Row
feed_row eos max_tokens [] row = row
feed_row eos max_tokens (t ∷ ts) row =
    feed_row eos max_tokens ts (record_token eos max_tokens t row)

-- and to a sequence, until it is finished.
abbrev pub feed_sequence : List ℕ → Sequence → Sequence
feed_sequence [] s = s
feed_sequence (t ∷ ts) s =
    if is_terminal s.status then s else feed_sequence ts (check_stop (append_token s t)).1

-- A row and a sequence with the same output, which have both finished, for the same reason, or not.
pub record Agrees (row : Row) (s : Sequence) : Type 0 where
  pub output : row.output ≡ s.output_token_ids
  pub finished : row.finished ≡ is_terminal s.status
  pub ended : row.finished ≡ true → s.finish_reason ≡ some row.finish_reason
  pub going : row.finished ≡ false → row.finish_reason ≡ FinishReason.length_cap

record_token-Agrees :
    (t : ℕ) (row : Row) (s : Sequence)
    → Agrees row s
    → row.finished ≡ false
    → let s' = (check_stop (append_token s t)).1 in
      Agrees (record_token s.stop_token_ids s.max_tokens t row) s'
      × (s'.stop_token_ids ≡ s.stop_token_ids)
      × (s'.max_tokens ≡ s.max_tokens)
unfolding record_token check_stop append_token is_terminal
record_token-Agrees t row s h f =
    let last = ends_with_stop-append s.stop_token_ids s.output_token_ids t in
    let same : row.output ++ t ∷ [] ≡ s.output_token_ids ++ t ∷ [] =
      ap (λ l. l ++ t ∷ []) h.output in
    elim (Bool-cases (ltb 0 (count t s.stop_token_ids))) [
      | inl stops ↦
          rw (f, last, stops)
            (
              record {
                output = same;
                finished = refl;
                ended = λ e. refl;
                going = λ e. absurd (ground (arith, e));
              },
              refl,
              refl,
            )
      | inr goes ↦ elim (Bool-cases (leb s.max_tokens (length (s.output_token_ids ++ t ∷ [])))) [
        | inl cap ↦
            rw (f, last, goes, same, cap)
              (
                record {
                  output = refl;
                  finished = refl;
                  ended = λ e. ap some (sym (h.going f));
                  going = λ e. absurd (ground (arith, e));
                },
                refl,
                refl,
              )
        | inr more ↦
            rw (f, last, goes, same, more)
              (
                record {
                  output = refl;
                  finished = sym f ∙ h.finished;
                  ended = λ e. absurd (ground (arith, e));
                  going = λ e. h.going f;
                },
                refl,
                refl,
              )
      ]
    ]

feed_row_over :
    (eos : List ℕ) (max_tokens : ℕ) (ts : List ℕ) (row : Row)
    → row.finished ≡ true
    → feed_row eos max_tokens ts row ≡ row
feed_row_over eos max_tokens [] row f = refl
feed_row_over eos max_tokens (t ∷ ts) row f =
    ap (feed_row eos max_tokens ts) (record_token_over eos max_tokens t row f)
    ∙ feed_row_over eos max_tokens ts row f

feed_row-Agrees :
    (eos : List ℕ) (max_tokens : ℕ) (ts : List ℕ) (row : Row) (s : Sequence)
    → s.stop_token_ids ≡ eos
    → s.max_tokens ≡ max_tokens
    → Agrees row s
    → Agrees (feed_row eos max_tokens ts row) (feed_sequence ts s)
feed_row-Agrees eos max_tokens [] row s stops cap h = h
feed_row-Agrees eos max_tokens (t ∷ ts) row s stops cap h = elim (Bool-cases row.finished) [
  | inl over ↦
      let ended : is_terminal s.status ≡ true = sym h.finished ∙ over in
      rw (ended, feed_row_over eos max_tokens (t ∷ ts) row over) h
  | inr goes ↦
      let running : is_terminal s.status ≡ false = sym h.finished ∙ goes in
      let (next, stops', cap') = record_token-Agrees t row s h goes in
      rw running (
        feed_row-Agrees eos max_tokens ts (record_token eos max_tokens t row)
          (check_stop (append_token s t)).1 (stops' ∙ stops) (cap' ∙ cap) (rw⁻¹ (stops, cap) next))
]

module _ (digest : List ℕ → ℕ) (sample : RaggedBatch → List Sequence → List ℕ) where
  -- Static and continuous batching stop alike: given the same tokens one after the other, a row
  -- of `generate` that `_left_pad` made and the sequence of a new request with the same prompt,
  -- stop tokens and cap have the same output, have both finished or not, and have finished for
  -- the same reason.
  pub left_pad_row-Agrees :
      (width cache_len id max_tokens : ℕ) (prompt eos tokens : List ℕ)
      → Agrees
          (feed_row eos max_tokens tokens (left_pad_row width cache_len prompt))
          (feed_sequence tokens (request digest sample id prompt max_tokens eos))
  unfolding is_terminal
  left_pad_row-Agrees width cache_len id max_tokens prompt eos tokens =
      feed_row-Agrees eos max_tokens tokens (left_pad_row width cache_len prompt)
        (request digest sample id prompt max_tokens eos) refl refl
        (record {
          output = refl;
          finished = refl;
          ended = λ e. absurd (ground (arith, e));
          going = λ e. refl;
        })
