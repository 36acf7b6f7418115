-- ===== src/Static/Generate.antt =====
-- `generate` of engine.py on an engine without an allocator, the dense arm: it returns, and how.
use paged_serve.Prelude.{
  ℕ, ◌+◌, ◌≤◌, ◌≡◌, refl, ap, ◌∙◌, arith, List, [], ◌∷◌, none, length, map, ltb_of_le, Result, ok,
  Method, ◌>>=◌, ◌>>◌, bind-ok,
}
use paged_serve.Engine.{longest}
use paged_serve.Attention.{StepInput, key_len, num_seqs}
use paged_serve.Attention.Visible.{length-map_lem}
use paged_serve.Static.{
  Row, Backend, Static, GenerationOutput, left_pad_row, left_pad, admit, prefill, decode, output_of,
  begin, emptied, generate_batch, generate,
}
use paged_serve.Static.Rounds.{
  AllEnded, left_pad-Going, Runs, if_paged-none, prefill-Runs, decode-Runs,
}

module _ {B : Type 0} (ops : Backend B) (Ready : B → Type 0) (cache_len max_num_seqs : ℕ)
    (serves : (step : StepInput) (input_ids position_ids : List (List ℕ)) (b : B)
      → Ready b
      → key_len step ≤ cache_len
      → num_seqs step ≤ max_num_seqs
      → length input_ids ≡ num_seqs step
      → (tokens : ℕ → ℕ) × (b' : B) × (ops.forward step input_ids position_ids b ≡ (ok tokens, b'))
        × Ready b')
    (allocated : (b : B) → Ready (ops.allocate b)) where
  generate_batch-AllEnded :
      (digest : List ℕ → ℕ) (eos : List ℕ) (max_tokens : ℕ) (prompts : List (List ℕ)) (s : Static B)
      → s.block_manager ≡ none
      → longest prompts + max_tokens ≤ cache_len
      → length prompts ≤ max_num_seqs
      → (out : GenerationOutput) × (s' : Static B) × (generate_batch ops digest eos max_tokens
            cache_len prompts s
          ≡ (ok out, s'))
        × (length out.token_ids ≡ length prompts)
        × AllEnded eos max_tokens out.token_ids out.finish_reasons
  unfolding generate_batch left_pad Runs
  generate_batch-AllEnded digest eos max_tokens prompts s dense fits many =
      let rows = left_pad prompts cache_len in
      let rows_len : length rows ≡ length prompts =
        length-map_lem (left_pad_row (longest prompts) cache_len) prompts in
      let dense0 : (begin ops s).block_manager ≡ none = ap emptied dense in
      let (tokens, s1, ran, dense1, ready1, u) =
        prefill-Runs ops Ready cache_len max_num_seqs serves (longest prompts) rows (begin ops s)
          dense0 (allocated s.backend) (omega (arith, fits)) (omega (arith, rows_len, many)) in
      let (rows', s2, went, dense2, ready2, (len, ended)) =
        decode-Runs ops Ready cache_len max_num_seqs serves eos max_tokens 0 max_tokens
          (longest prompts) tokens rows s1 dense1 ready1 (omega arith) fits
          (omega (arith, rows_len, many))
          (left_pad-Going eos max_tokens (longest prompts) cache_len prompts) in
      let ended_by : (ℕ → ℕ) → Method (Static B) GenerationOutput = λ next.
        decode ops eos max_tokens max_tokens (longest prompts) next rows >>= output_of ops in
      (
        record {
          token_ids = map (λ row. row.output) rows';
          finish_reasons = map (λ row. row.finish_reason) rows';
          step_stats = s2.step_stats;
        },
        s2,
        ap
              (λ (r : Result (Unit {0}) × Static B).
                (((λ _. r) >> prefill ops (longest prompts) rows) >>= ended_by) (begin ops s))
              (if_paged-none ops Ready cache_len max_num_seqs serves
                (admit digest max_tokens 0 prompts) (begin ops s) dense0)
            ∙ bind-ok (prefill ops (longest prompts) rows) ended_by ran
            ∙ bind-ok (decode ops eos max_tokens max_tokens (longest prompts) tokens rows)
                (output_of ops) went,
        length-map_lem (λ (row : Row). row.output) rows' ∙ len ∙ rows_len,
        ended,
      )

  -- On an engine without an allocator, let the backend and the model be ready after `allocate`,
  -- and, when ready, answer a step on no more positions and sequences than the cache has, and be
  -- ready again. If the longest prompt and the cap together fit the positions and the prompts fit
  -- the slots, `generate` returns, with one output for each prompt. An output with the reason
  -- "stop" has no more tokens than the cap, and its last token and no earlier one is a stop
  -- token; one with the reason "length" has as many tokens as the cap and no stop token.
  pub generate-AllEnded :
      (digest : List ℕ → ℕ) (eos : List ℕ) (max_tokens : ℕ) (prompts : List (List ℕ)) (s : Static B)
      → s.block_manager ≡ none
      → longest prompts + max_tokens ≤ cache_len
      → length prompts ≤ max_num_seqs
      → (out : GenerationOutput) × (s' : Static B) × (generate ops digest eos max_tokens cache_len
            max_num_seqs prompts s
          ≡ (ok out, s'))
        × (length out.token_ids ≡ length prompts)
        × AllEnded eos max_tokens out.token_ids out.finish_reasons
  unfolding generate
  generate-AllEnded digest eos max_tokens [] s dense fits many =
      (record { token_ids = []; finish_reasons = []; step_stats = [] }, s, refl, refl, tt)
  generate-AllEnded digest eos max_tokens (ids ∷ prompts) s dense fits many =
      let (out, s', went, len, ended) =
        generate_batch-AllEnded digest eos max_tokens (ids ∷ prompts) s dense fits many in
      (
        out,
        s',
        rw
            (
              ltb_of_le cache_len (longest (ids ∷ prompts) + max_tokens) fits,
              ltb_of_le max_num_seqs (length (ids ∷ prompts)) many,
            )
            went,
        len,
        ended,
      )
