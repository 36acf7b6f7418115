-- ===== src/Tests/Steps.antt =====
-- Steps of engine.py on concrete inputs.
use paged_serve.Prelude.{ℕ, ◌≡◌, refl, arith, List, [], ◌∷◌, none, some, length, ok, ap, suc}
use paged_serve.Sequence.{Sequence, SequenceStatus}
use paged_serve.Swap.{KvCache}
use paged_serve.Scheduler.{Scheduler, Output, PreemptionMode, num_unfinished}
use paged_serve.Engine.{RaggedBatch, Engine, start, step}
use paged_serve.Engine.Run.{Stepped, step-Stepped, with_scheduler}
use paged_serve.Engine.Serve.{Serves}
use paged_serve.Engine.Start.{start-Serves}
use paged_serve.Tests.Data.{digest, four_tokens, roomy, roomy-Ready, unused}

-- A model that always answers 15, and an engine on it with one running sequence.
abbrev pub answers : RaggedBatch → List Sequence → List ℕ
answers b [] = []
answers b (q ∷ qs) = 15 ∷ answers b qs

pub length-answers : (b : RaggedBatch) (qs : List Sequence) → length (answers b qs) ≡ length qs
length-answers b [] = refl
length-answers b (q ∷ qs) = ap suc (length-answers b qs)

abbrev pub engine : Engine
engine = record { scheduler = some roomy; next_seq_id = 8; eos_token_ids = [] }

pub engine-Serves : Serves engine roomy
engine-Serves = record { started = refl; ready = roomy-Ready; below = λ x c. ground (arith, c) }

step-Stepped_example :
    (out : Output) × (s' : Scheduler) × (step digest answers engine
      ≡ (ok out, with_scheduler digest answers length-answers engine s'))
    × Stepped out roomy s'
step-Stepped_example = step-Stepped digest answers length-answers engine roomy refl roomy-Ready

abbrev blank : KvCache
blank layer kv block = 0

-- An engine before `start`, and the allocator that it is given.
abbrev idle : Engine
idle = record { scheduler = none; next_seq_id = 3; eos_token_ids = [] }

start-Serves_example :
    (e' : Engine) × (s : Scheduler) × (start roomy.config PreemptionMode.swap
        (some unused)
        1
        6
        blank
        (λ x. four_tokens SequenceStatus.waiting)
        idle
      ≡ (ok tt, e'))
    × Serves e' s
    × (num_unfinished s ≡ 0)
    × (e'.next_seq_id ≡ 0)
start-Serves_example =
    start-Serves roomy.config unused 1 6 blank (λ x. four_tokens SequenceStatus.waiting)
      PreemptionMode.swap idle (omega arith)
