-- ===== src/Static/Rounds.antt =====
-- The prefill and the decode loop of `generate` of engine.py without an allocator: they return.
use paged_serve.Prelude.{
  ℕ, zero, suc, ◌+◌, ◌-◌, ◌≤◌, ◌≡◌, refl, sym, ap, ◌∙◌, inl, inr, arith, Bool, true, false, ◌||◌,
  List, [], ◌∷◌, ◌++◌, none, length, map, take, ◌==◌, Bool-cases, Result, ok, Method, and_then,
  ◌>>=◌, bind-ok,
}
use paged_serve.BlockManager.{BlockManager}
use paged_serve.Sequence.{FinishReason}
use paged_serve.Attention.{StepInput, key_len, num_seqs}
use paged_serve.Attention.Visible.{length-map_lem}
use paged_serve.Static.{
  Row, Backend, Static, left_pad_row, record_rows, emitted, all_finished, feed_rows, grow_tables,
  if_paged, build_step, run_step, prefill_step, prefill, decode_step, run_decode, decode, column,
}
use paged_serve.Static.Outputs.{
  Ended, Going, on, AllRows, record_rows-Going, feed_rows-Going, Going-Ended,
}

-- Each output with its reason.
abbrev pub AllEnded : List ℕ → ℕ → List (List ℕ) → List FinishReason → Type 0
AllEnded eos max_tokens [] [] = Unit {0}
AllEnded eos max_tokens [] (r ∷ rs) = ⊥
AllEnded eos max_tokens (o ∷ os) [] = ⊥
AllEnded eos max_tokens (o ∷ os) (r ∷ rs) = Ended eos max_tokens o r × AllEnded eos max_tokens os rs

all-Ended :
    (eos : List ℕ) (max_tokens done : ℕ) (rows : List Row)
    → AllRows (Going eos max_tokens done) rows
    → (all_finished rows ≡ false → done ≡ max_tokens)
    → AllEnded eos max_tokens (map (λ row. row.output) rows) (map (λ row. row.finish_reason) rows)
all-Ended eos max_tokens done [] h last = tt
all-Ended eos max_tokens done (row ∷ rows) (h, hs) last = (
  Going-Ended eos max_tokens done row h (λ f. last (ground (arith, f))),
  all-Ended eos max_tokens done rows hs (λ f. elim (Bool-cases row.finished) [
    | inl y ↦ last (ground (arith, y, f))
    | inr n ↦ last (ground (arith, n))
  ]),
)

pub left_pad-Going :
    (eos : List ℕ) (max_tokens width cache_len : ℕ) (prompts : List (List ℕ))
    → AllRows (Going eos max_tokens 0) (map (left_pad_row width cache_len) prompts)
left_pad-Going eos max_tokens width cache_len [] = tt
left_pad-Going eos max_tokens width cache_len (ids ∷ prompts) =
    (on refl refl refl refl, left_pad-Going eos max_tokens width cache_len prompts)

module _ {B : Type 0} (ops : Backend B) (Ready : B → Type 0) (cache_len max_num_seqs : ℕ)
    (serves : (step : StepInput) (input_ids position_ids : List (List ℕ)) (b : B)
      → Ready b
      → key_len step ≤ cache_len
      → num_seqs step ≤ max_num_seqs
      → length input_ids ≡ num_seqs step
      → (tokens : ℕ → ℕ) × (b' : B) × (ops.forward step input_ids position_ids b ≡ (ok tokens, b'))
        × Ready b') where
  decode_step-len :
      (position : ℕ) (rows : List Row)
      → position + 1 ≤ cache_len
      → key_len (decode_step position rows) ≤ cache_len
  unfolding key_len decode_step
  decode_step-len position rows long = long

  decode_step-seqs :
      (position : ℕ) (rows : List Row)
      → length rows ≤ max_num_seqs
      → num_seqs (decode_step position rows) ≤ max_num_seqs
  unfolding num_seqs decode_step
  decode_step-seqs position rows many =
      omega (arith, length-map_lem (λ (row : Row). take (position + 1) row.padding_mask) rows, many)

  decode_step-same :
      (position : ℕ) (rows : List Row)
      → length (map (λ row. column position row.input_ids) rows)
        ≡ num_seqs (decode_step position rows)
  unfolding num_seqs decode_step
  decode_step-same position rows =
      length-map_lem (λ (row : Row). column position row.input_ids) rows
      ∙ sym (length-map_lem (λ (row : Row). take (position + 1) row.padding_mask) rows)

  prefill_step-same :
      (max_prompt : ℕ) (rows : List Row)
      → length (map (λ row. take max_prompt row.input_ids) rows)
        ≡ num_seqs (prefill_step max_prompt rows)
  unfolding num_seqs prefill_step
  prefill_step-same max_prompt rows =
      length-map_lem (λ (row : Row). take max_prompt row.input_ids) rows
      ∙ sym (length-map_lem (λ (row : Row). take max_prompt row.padding_mask) rows)

  prefill_step-len :
      (max_prompt : ℕ) (rows : List Row)
      → max_prompt ≤ cache_len
      → key_len (prefill_step max_prompt rows) ≤ cache_len
  unfolding key_len prefill_step
  prefill_step-len max_prompt rows long = omega (arith, long)

  prefill_step-seqs :
      (max_prompt : ℕ) (rows : List Row)
      → length rows ≤ max_num_seqs
      → num_seqs (prefill_step max_prompt rows) ≤ max_num_seqs
  unfolding num_seqs prefill_step
  prefill_step-seqs max_prompt rows many =
      omega (arith, length-map_lem (λ (row : Row). take max_prompt row.padding_mask) rows, many)

  -- A call that returns and leaves the backend ready.
  unfoldable pub Runs : {A : Type 0} → Method (Static B) A → Static B → (A → Type 0) → Type 0
  Runs {A} f s P =
      (a : A) × (s' : Static B) × (f s ≡ (ok a, s'))
      × (s'.block_manager ≡ none)
      × Ready s'.backend
      × P a

  run-Runs :
      (step : StepInput) (real : List (List Bool)) (starts : List ℕ)
      (input_ids position_ids : List (List ℕ)) (s : Static B)
      → s.block_manager ≡ none
      → Ready s.backend
      → key_len step ≤ cache_len
      → num_seqs step ≤ max_num_seqs
      → length input_ids ≡ num_seqs step
      → Runs
          (build_step ops step real starts >>= λ st. run_step ops st input_ids position_ids)
          s
          (λ _. Unit {0})
  unfolding Runs build_step run_step
  run-Runs step real starts input_ids position_ids s dense ready long many same =
      let (tokens, b', ran, ready') =
        serves step input_ids position_ids s.backend ready long many same in
      (
        tokens,
        record s { backend = b'; step_stats = s.step_stats ++ ops.memory_stats b' ∷ [] },
        rw (dense, ran) refl,
        dense,
        ready',
        tt,
      )

  pub if_paged-none :
      (f : Method BlockManager (Unit {0})) (s : Static B)
      → s.block_manager ≡ none
      → if_paged ops f s ≡ (ok tt, s)
  if_paged-none f s dense = rw dense refl

  run_decode-Runs :
      (position : ℕ) (rows : List Row) (s : Static B)
      → s.block_manager ≡ none
      → Ready s.backend
      → position + 1 ≤ cache_len
      → length rows ≤ max_num_seqs
      → Runs (run_decode ops position rows) s (λ _. Unit {0})
  unfolding Runs run_decode
  run_decode-Runs position rows s dense ready long many =
      let (tokens, s', ran, dense', ready', u) =
        run-Runs (decode_step position rows) (map (λ row. true ∷ []) rows)
          (map (λ row. row.seq_len - 1) rows) (map (λ row. column position row.input_ids) rows)
          (map (λ row. column position row.position_ids) rows) s dense ready
          (decode_step-len position rows long) (decode_step-seqs position rows many)
          (decode_step-same position rows) in
      let bs =
        build_step ops (decode_step position rows) (map (λ row. true ∷ []) rows)
          (map (λ row. row.seq_len - 1) rows) in
      let k : StepInput → Method (Static B) (ℕ → ℕ) = λ st.
        run_step ops st (map (λ row. column position row.input_ids) rows)
          (map (λ row. column position row.position_ids) rows) in
      (
        tokens,
        s',
        ap
              (λ (r : Result (Unit {0}) × Static B).
                and_then (and_then r.0 (λ _. bs) r.1).0 k (and_then r.0 (λ _. bs) r.1).1)
              (if_paged-none (grow_tables 0 rows) s dense)
            ∙ ran,
        dense',
        ready',
        u,
      )

  pub prefill-Runs :
      (max_prompt : ℕ) (rows : List Row) (s : Static B)
      → s.block_manager ≡ none
      → Ready s.backend
      → max_prompt ≤ cache_len
      → length rows ≤ max_num_seqs
      → Runs (prefill ops max_prompt rows) s (λ _. Unit {0})
  unfolding Runs prefill
  prefill-Runs max_prompt rows s dense ready long many =
      run-Runs (prefill_step max_prompt rows) (map (λ row. take max_prompt row.padding_mask) rows)
        (map (λ row. 0) rows) (map (λ row. take max_prompt row.input_ids) rows)
        (map (λ row. take max_prompt row.position_ids) rows) s dense ready
        (prefill_step-len max_prompt rows long) (prefill_step-seqs max_prompt rows many)
        (prefill_step-same max_prompt rows)

  pub decode-Runs :
      (eos : List ℕ) (max_tokens done left position : ℕ) (tokens : ℕ → ℕ) (rows : List Row)
      (s : Static B)
      → s.block_manager ≡ none
      → Ready s.backend
      → done + left ≡ max_tokens
      → position + left ≤ cache_len
      → length rows ≤ max_num_seqs
      → AllRows (Going eos max_tokens done) rows
      → Runs (decode ops eos max_tokens left position tokens rows) s (λ rows'.
        (length rows' ≡ length rows)
        × AllEnded eos max_tokens
            (map (λ row. row.output) rows')
            (map (λ row. row.finish_reason) rows'))
  unfolding Runs decode
  decode-Runs eos max_tokens done zero position tokens rows s dense ready total fits many going = (
    rows,
    s,
    refl,
    dense,
    ready,
    (refl, all-Ended eos max_tokens done rows going (λ _. omega (arith, total))),
  )
  decode-Runs eos max_tokens done (suc left) position tokens rows s dense ready total fits many
        going =
      let (going1, more, len1) =
        record_rows-Going eos max_tokens done 0 tokens rows (omega (arith, total)) going in
      let rows1 = record_rows eos max_tokens 0 tokens rows in
      let len2 = feed_rows-Going eos max_tokens (suc done) 0 position tokens rows1 going1 in
      let fed = feed_rows 0 position tokens rows1 in
      let s1 = record s { reported = s.reported ++ emitted 0 tokens rows ∷ [] } in
      elim (Bool-cases (all_finished rows1 || (left == 0))) [
        | inl over ↦ (
          rows1,
          s1,
          rw (decode, over) refl,
          dense,
          ready,
          (
            len1,
            all-Ended eos max_tokens (suc done) rows1 going1 (λ f. ground (arith, f, over, total)),
          ),
        )
        | inr on_ ↦
            let (next, s2, ran, dense2, ready2, u) =
              run_decode-Runs position fed s1 dense ready (ground (arith, on_, fits))
                (omega (arith, len1, len2.1, many)) in
            let (rows', s3, rest, dense3, ready3, (len3, ended)) =
              decode-Runs eos max_tokens (suc done) left (position + 1) next fed s2 dense2 ready2
                (omega (arith, total)) (omega (arith, fits)) (omega (arith, len1, len2.1, many))
                len2.0 in
            (
              rows',
              s3,
              rw (decode, on_)
                  (bind-ok (run_decode ops position fed)
                      (λ next'. decode ops eos max_tokens left (position + 1) next' fed) ran
                    ∙ rest),
              dense3,
              ready3,
              (len3 ∙ len2.1 ∙ len1, ended),
            )
      ]
