-- ===== src/Tests/Statics.antt =====
-- Static batching on concrete inputs.
use paged_serve.Prelude.{
  zero, suc, sym, ap, get_elem?, ℕ, ◌+◌, ◌≡◌, refl, arith, Bool, List, [], ◌∷◌, ◌++◌, none, some,
  length, ok,
}
use paged_serve.Engine.{longest, request}
use paged_serve.Static.{
  Backend, Static, GenerationOutput, left_pad, left_pad_row, prefill_step, generate,
}
use paged_serve.Attention.{unmasked}
use paged_serve.Attention.Contiguous.{Dense, DenseLayer, DenseMetadata, begin_step, forward}
use paged_serve.Attention.Assign.{Shaped}
use paged_serve.Attention.Layout.{some-injective}
use paged_serve.Static.Padding.{PromptAttends, prefill_step-PromptAttends}
use paged_serve.Static.Agreement.{feed_row, feed_sequence, Agrees, left_pad_row-Agrees}
use paged_serve.Tests.Data.{digest}
use paged_serve.Tests.Steps.{answers}
use paged_serve.Static.Rounds.{AllEnded}
use paged_serve.Static.Generate.{generate-AllEnded}

-- A backend that counts its steps; row `i` gets the number of the step plus `i`.
abbrev counting : Backend ℕ
counting = record {
  allocate = λ b. 0;
  set_used_blocks = λ used b. b;
  memory_stats = λ b. record { allocated_bytes = 8; live_bytes = b };
  forward = λ step input_ids position_ids b. (ok (λ i. b + i), b + 1);
}

abbrev idle_engine : Static ℕ
idle_engine = record { block_manager = none; backend = 0; step_stats = []; reported = [] }

abbrev two_prompts : List (List ℕ)
two_prompts = (5 ∷ 6 ∷ []) ∷ (7 ∷ []) ∷ []

generate-AllEnded_example :
    (out : GenerationOutput) × (s' : Static ℕ) × (generate counting
        (λ bytes. 0)
        (2 ∷ [])
        3
        8
        2
        two_prompts
        idle_engine
      ≡ (ok out, s'))
    × (length out.token_ids ≡ 2)
    × AllEnded (2 ∷ []) 3 out.token_ids out.finish_reasons
unfolding longest
generate-AllEnded_example =
    generate-AllEnded counting (λ b. Unit {0}) 8 2
      (λ step input_ids position_ids b ready long many same. (λ i. b + i, b + 1, refl, tt))
      (λ b. tt) (λ bytes. 0) (2 ∷ []) 3 two_prompts idle_engine refl (omega arith) (omega arith)

-- An attention that lists what it saw.
abbrev seen_rows : ℕ → List ℕ → List ℕ → List ℕ
seen_rows q ks vs = q ∷ (ks ++ vs)

abbrev masked_rows : ℕ → List ℕ → List ℕ → List Bool → List ℕ
masked_rows q ks vs mask = seen_rows q (unmasked mask ks) (unmasked mask vs)

abbrev empty_rows : ℕ → DenseLayer ℕ
empty_rows layer = record { keys = λ seq key. 0; values = λ seq key. 0 }

abbrev small_cache : Dense ℕ
small_cache = record {
  num_layers = 1;
  num_kv_heads = 1;
  head_dim = 1;
  bits = 16;
  cache_num_seqs = 2;
  cache_seq_len = 8;
  kv_cache = some empty_rows;
  num_seq_slots = 2;
  max_seq_len = 8;
  live_tokens = 0;
}

-- The second prompt's first entry is padding.
abbrev prompt_rows : List (List ℕ)
prompt_rows = (50 ∷ 60 ∷ []) ∷ (99 ∷ 70 ∷ []) ∷ []

prompt_rows-Shaped : Shaped 2 2 prompt_rows
prompt_rows-Shaped = (refl, widths)
  where
    widths : (r : ℕ) (xs : List ℕ) → get_elem? prompt_rows r ≡ some xs → length xs ≡ 2
    widths zero xs e = ap length (sym (some-injective e))
    widths (suc zero) xs e = ap length (sym (some-injective e))
    widths (suc (suc r)) xs e = absurd (ground (arith, e))

prefill_step-PromptAttends_example :
    (md : DenseMetadata) × (out : List (List (List ℕ))) × (b1 : Dense ℕ) × (b2 : Dense ℕ)
    × (begin_step (prefill_step (longest two_prompts) (left_pad two_prompts 8)) small_cache
        ≡ (ok md, b1))
    × (forward masked_rows 0 prompt_rows prompt_rows prompt_rows md b1 ≡ (ok out, b2))
    × PromptAttends seen_rows two_prompts prompt_rows prompt_rows prompt_rows out
unfolding longest
prefill_step-PromptAttends_example =
    prefill_step-PromptAttends masked_rows seen_rows (λ q ks vs mask h. refl) two_prompts 8 0
      prompt_rows prompt_rows prompt_rows empty_rows small_cache refl (omega arith) (omega arith)
      prompt_rows-Shaped prompt_rows-Shaped

-- The stop token 2 comes second; the model's further tokens are not taken.
left_pad_row-Agrees_example :
    Agrees
      (feed_row (2 ∷ []) 5 (9 ∷ 2 ∷ 8 ∷ []) (left_pad_row 3 8 (7 ∷ [])))
      (feed_sequence (9 ∷ 2 ∷ 8 ∷ []) (request digest answers 0 (7 ∷ []) 5 (2 ∷ [])))
left_pad_row-Agrees_example =
    left_pad_row-Agrees digest answers 3 8 0 5 (7 ∷ []) (2 ∷ []) (9 ∷ 2 ∷ 8 ∷ [])
