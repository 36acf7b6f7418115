-- ===== src/Sequence.antt =====
-- pagedserve/sequence.py: one request and its life cycle. The sampling parameters, which only the
-- sampler reads, are left out; a missing `finish_reason` is `none`.
pub mod Lifecycle
use paged_serve.Prelude.{
  ℕ, ◌+◌, ◌-◌, Bool, true, false, ◌&&◌, List, [], ◌∷◌, ◌++◌, Option, none, some, length, count, ltb,
  leb, if◌then◌else◌,
}

pub data SequenceStatus : Type 0 where
  waiting running swapped finished : SequenceStatus

pub data FinishReason : Type 0 where
  stop length_cap too_long abort : FinishReason

pub record Sequence : Type 0 where
  pub seq_id : ℕ
  pub prompt_token_ids : List ℕ
  pub max_tokens : ℕ
  pub stop_token_ids : List ℕ
  pub output_token_ids : List ℕ
  pub status : SequenceStatus
  pub num_computed_tokens : ℕ
  pub num_preemptions : ℕ
  pub finish_reason : Option FinishReason
  pub arrival_index : ℕ
  pub num_scheduled_tokens : ℕ

unfoldable pub is_terminal : SequenceStatus → Bool
is_terminal SequenceStatus.finished = true
is_terminal _ = false

-- `status is SequenceStatus.RUNNING`
abbrev pub is_running : SequenceStatus → Bool
is_running SequenceStatus.running = true
is_running _ = false

abbrev pub prompt_len : Sequence → ℕ
prompt_len s = length s.prompt_token_ids

abbrev pub output_len : Sequence → ℕ
output_len s = length s.output_token_ids

abbrev pub total_len : Sequence → ℕ
total_len s = prompt_len s + output_len s

abbrev pub all_token_ids : Sequence → List ℕ
all_token_ids s = s.prompt_token_ids ++ s.output_token_ids

-- `max(0, total_len - num_computed_tokens)`
abbrev pub num_uncomputed_tokens : Sequence → ℕ
num_uncomputed_tokens s = total_len s - s.num_computed_tokens

abbrev pub is_prefill : Sequence → Bool
is_prefill s = ltb 1 (num_uncomputed_tokens s)

unfoldable pub append_token : Sequence → ℕ → Sequence
append_token s token_id = record s { output_token_ids = s.output_token_ids ++ token_id ∷ [] }

-- `self.output_token_ids and self.output_token_ids[-1] in self.stop_token_ids`
unfoldable pub ends_with_stop : List ℕ → List ℕ → Bool
ends_with_stop [] stops = false
ends_with_stop (x ∷ []) stops = ltb 0 (count x stops)
ends_with_stop (x ∷ y ∷ l) stops = ends_with_stop (y ∷ l) stops

abbrev pub finish : Sequence → FinishReason → Sequence
finish s reason = record s { status = SequenceStatus.finished; finish_reason = some reason }

unfoldable pub check_stop : Sequence → Bool × Sequence
check_stop s =
    if ends_with_stop s.output_token_ids s.stop_token_ids
    then (true, finish s FinishReason.stop)
    else if leb s.max_tokens (output_len s)
    then (true, finish s FinishReason.length_cap)
    else (false, s)

unfoldable pub fork : Sequence → ℕ → Sequence
fork s seq_id = record {
  seq_id = seq_id;
  prompt_token_ids = s.prompt_token_ids;
  max_tokens = s.max_tokens;
  stop_token_ids = s.stop_token_ids;
  output_token_ids = s.output_token_ids;
  status = s.status;
  num_computed_tokens = s.num_computed_tokens;
  num_preemptions = 0;
  finish_reason = none;
  arrival_index = 0;
  num_scheduled_tokens = 0;
}

unfoldable pub reset_for_recompute : Sequence → Sequence
reset_for_recompute s = record s {
  num_computed_tokens = 0;
  num_preemptions = s.num_preemptions + 1;
  status = SequenceStatus.waiting;
}
