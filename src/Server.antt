-- ===== src/Server.antt =====
-- pagedserve/server/api.py: `EngineRunner`, which drives the engine and fans the tokens out to the
-- queues of the requests. A queue object outlives its entry in `_queues`, so `queues` says which ids
-- have an entry, and `sent` is all that was ever put into the queue of an id. `_run` is one round of
-- its loop after another; while `engine.step` runs in the worker thread, the event loop can only
-- abort and submit requests.
pub mod Release
pub mod Feed
pub mod Settle
pub mod Round
pub mod Delivery
pub mod Loop
pub mod Serving
pub mod Stream
use paged_serve.Prelude.{
  ℕ, ◌+◌, Bool, true, false, List, [], ◌∷◌, ◌++◌, Option, none, some, length, drop, map, erase, ltb,
  ◌==◌, if◌then◌else◌, Result, Error, ok, raise, Method, return, ◌>>=◌, ◌>>◌,
}
use paged_serve.BlockManager
use paged_serve.Sequence.{Sequence, SequenceStatus, FinishReason, is_terminal}
use paged_serve.Scheduler
use paged_serve.Scheduler.{Scheduler, Output, scheduled, set_seq, on_manager, has_work}
use paged_serve.Engine
use paged_serve.Engine.{RaggedBatch, Engine, on_scheduler}

-- What a request's queue carries: a token, the end mark `None`, or an exception.
pub data Item : Type 0 where
  token : ℕ → Item
  done : Item
  failed : Error → Item

pub record Runner : Type 0 where
  pub engine : Engine
  pub queues : ℕ → Bool
  pub sent : ℕ → List Item
  pub delivered : ℕ → Option ℕ
  pub stepping : Bool
  pub pending_aborts : List ℕ

-- A write to an entry of a dictionary.
abbrev pub update {ℓ} : {A : Type ℓ} → ℕ → A → (ℕ → A) → ℕ → A
update k a f x = if x == k then a else f x

abbrev pub on_engine : {A : Type 0} → Method Engine A → Method Runner A
on_engine f r = ((f r.engine).0, record r { engine = (f r.engine).1 })

-- `sequence.finish_reason or "abort"`
abbrev pub or_abort : Option FinishReason → FinishReason
or_abort none = FinishReason.abort
or_abort (some reason) = reason

-- `_release`, on the scheduler that is there.
unfoldable pub release_in : ℕ → Method Scheduler (Unit {0})
release_in id s =
    let q = s.sequences id in
    (on_manager (BlockManager.free id) >>= λ _ s'. (
      ok tt,
      record s' {
        waiting = erase id s'.waiting;
        swapped = erase id s'.swapped;
        running = erase id s'.running;
      },
    ))
      (set_seq s id (record q {
        status = SequenceStatus.finished;
        finish_reason = some (or_abort q.finish_reason);
      }))

unfoldable pub release : ℕ → Method Runner (Unit {0})
release id r = elim (r.engine.scheduler) [
  | none ↦ (ok tt, r)
  | some s ↦ (
    (release_in id s).0,
    record r { engine = record (r.engine) { scheduler = some (release_in id s).1 } },
  )
]

-- The two `pop`s.
abbrev pub close : ℕ → Runner → Runner
close id r = record r { queues = update id false r.queues; delivered = update id none r.delivered }

unfoldable pub abort : ℕ → Method Runner (Unit {0})
abort id r =
    if (close id r).stepping
    then (ok tt, record (close id r) { pending_aborts = r.pending_aborts ++ id ∷ [] })
    else release id (close id r)

unfoldable pub release_each : List ℕ → Method Runner (Unit {0})
release_each [] r = (ok tt, r)
release_each (id ∷ ids) r = (release id >>= λ _. release_each ids) r

-- One entry of `output.scheduled`: what its queue does not have yet, and the end mark if it is
-- finished.
abbrev pub new_items : Sequence → ℕ → List Item
new_items q already =
    map token (drop already q.output_token_ids) ++ (if is_terminal q.status then done ∷ [] else [])

abbrev pub already_of : Option ℕ → ℕ
already_of none = 0
already_of (some n) = n

unfoldable pub deliver_to : ℕ → Sequence → Runner → Runner
deliver_to id q r =
    if r.queues id
    then record r {
      sent = update id (r.sent id ++ new_items q (already_of (r.delivered id))) r.sent;
      delivered = update id (some (length q.output_token_ids)) r.delivered;
    }
    else r

unfoldable pub deliver : List ℕ → (ℕ → Sequence) → Runner → Runner
deliver [] sequences r = r
deliver (id ∷ ids) sequences r = deliver ids sequences (deliver_to id (sequences id) r)

-- The exception goes to every open queue.
abbrev pub broadcast : Error → Runner → Runner
broadcast e r = record r { sent = λ x. if r.queues x then r.sent x ++ failed e ∷ [] else r.sent x }

-- `finally`: the aborts that came during the step.
abbrev pub settle : Method Runner (Unit {0})
settle r = release_each r.pending_aborts (record r { stepping = false; pending_aborts = [] })

-- The sequence objects, which `output.scheduled` refers to.
abbrev pub read_sequences : Method Runner (ℕ → Sequence)
read_sequences = on_engine (on_scheduler (λ s. (ok s.sequences, s)))

-- What `_run` does behind the step: whether its loop goes on.
unfoldable pub after_step : Result Output → Method Runner Bool
after_step (raise e) r = (settle >> return false) (broadcast e r)
after_step (ok out) r =
    (settle >>= λ _. on_engine (on_scheduler Scheduler.free_finished) >>= λ _.
    read_sequences >>= λ sequences r'. (ok true, deliver (scheduled out) sequences r'))
      r

unfoldable pub abort_each : List ℕ → Method Runner (Unit {0})
abort_each [] r = (ok tt, r)
abort_each (id ∷ ids) r = (abort id >>= λ _. abort_each ids) r

-- The `finally` of `stream_tokens`, which runs on every way out of it.
unfoldable pub close_stream : Sequence → ℕ → Method Runner (Unit {0})
close_stream q id =
    (if is_terminal q.status then return tt else abort id) >>= λ _ r. (ok tt, close id r)

module _ (digest : List ℕ → ℕ) (sample : RaggedBatch → List Sequence → List ℕ) where
  -- The step in the worker thread, and what follows it.
  abbrev pub threaded_step : Method Runner Bool
  threaded_step r =
      let done_ = Engine.step digest sample r.engine in
      after_step done_.0 (record r { engine = done_.1 })

  -- A round of `_run`, during whose step the ids `during` are aborted. An abort then writes what the
  -- step does not read, so it does not matter when it comes.
  unfoldable pub run_round : List ℕ → Method Runner Bool
  run_round during r = elim (r.engine.scheduler) [
    | none ↦ (ok true, r)
    | some s ↦
        if has_work s
        then (abort_each during >>= λ _. threaded_step) (record r { stepping = true })
        else (ok true, r)
  ]

  -- The new queue is empty.
  unfoldable pub submit : List ℕ → ℕ → Method Runner ℕ
  submit prompt_token_ids max_tokens =
      on_engine (Engine.add_request digest sample prompt_token_ids max_tokens none none) >>= λ id r.
      (
        ok id,
        record r {
          queues = update id true r.queues;
          sent = update id [] r.sent;
          delivered = update id (some 0) r.delivered;
        },
      )
