-- ===== src/Static/Rows.antt =====
-- `_left_pad` of pagedserve/engine.py, and what `generate` does to one row of its lists and tensors.
use paged_serve.Prelude.{
  ℕ, zero, suc, ◌+◌, ◌-◌, Bool, true, false, ◌&&◌, List, [], ◌∷◌, ◌++◌, Option, none, some, length,
  set, map, count, ltb, leb, if◌then◌else◌,
}
use paged_serve.BlockManager.{range_from}
use paged_serve.Sequence.{FinishReason}
use paged_serve.Engine.{longest, repeat}

-- What `generate` keeps for one prompt.
pub record Row : Type 0 where
  pub input_ids : List ℕ
  pub padding_mask : List Bool
  pub position_ids : List ℕ
  pub seq_len : ℕ
  pub output : List ℕ
  pub finished : Bool
  pub finish_reason : FinishReason

abbrev pub falses : ℕ → List Bool
falses zero = []
falses (suc n) = false ∷ falses n

abbrev pub trues : ℕ → List Bool
trues zero = []
trues (suc n) = true ∷ trues n

-- `_left_pad` on one prompt, with the values that `generate` starts from.
abbrev pub left_pad_row : ℕ → ℕ → List ℕ → Row
left_pad_row max_prompt cache_len ids =
    let start = max_prompt - length ids in
    let behind = cache_len - max_prompt in
    record {
      input_ids = repeat start 0 ++ (ids ++ repeat behind 0);
      padding_mask = falses start ++ (trues (length ids) ++ falses behind);
      position_ids = repeat start 0 ++ (range_from 0 (length ids) ++ repeat behind 0);
      seq_len = length ids;
      output = [];
      finished = false;
      finish_reason = FinishReason.length_cap;
    }

unfoldable pub left_pad : List (List ℕ) → ℕ → List Row
left_pad prompts cache_len = map (left_pad_row (longest prompts) cache_len) prompts

-- The body of the loop over `token_list`.
unfoldable pub record_token : List ℕ → ℕ → ℕ → Row → Row
record_token eos max_tokens token row =
    if row.finished
    then row
    else let output = row.output ++ token ∷ [] in
      if ltb 0 (count token eos)
      then record row { output = output; finished = true; finish_reason = FinishReason.stop }
      else record row { output = output; finished = leb max_tokens (length output) }

unfoldable pub record_rows : List ℕ → ℕ → ℕ → (ℕ → ℕ) → List Row → List Row
record_rows eos max_tokens i tokens [] = []
record_rows eos max_tokens i tokens (row ∷ rows) =
    record_token eos max_tokens (tokens i) row ∷ record_rows eos max_tokens (suc i) tokens rows

-- What `on_step` is told: no token for a row that had finished before.
abbrev pub emitted : ℕ → (ℕ → ℕ) → List Row → List (Option ℕ)
emitted i tokens [] = []
emitted i tokens (row ∷ rows) =
    (if row.finished then none else some (tokens i)) ∷ emitted (suc i) tokens rows

abbrev pub all_finished : List Row → Bool
all_finished [] = true
all_finished (row ∷ rows) = row.finished && all_finished rows

-- The row takes its next token in at the index `position` of the batch.
unfoldable pub feed : ℕ → ℕ → Row → Row
feed position token row =
    let seq_len = (if row.finished then row.seq_len else row.seq_len + 1) in
    record row {
      seq_len = seq_len;
      input_ids = set row.input_ids position token;
      padding_mask = set row.padding_mask position true;
      position_ids = set row.position_ids position (seq_len - 1);
    }

unfoldable pub feed_rows : ℕ → ℕ → (ℕ → ℕ) → List Row → List Row
feed_rows i position tokens [] = []
feed_rows i position tokens (row ∷ rows) =
    feed position (tokens i) row ∷ feed_rows (suc i) position tokens rows
