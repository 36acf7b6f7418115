-- ===== src/Server/Stream.antt =====
-- `stream_tokens` of server/api.py: the items of a queue become the text that a client sees. The
-- tokenizer is the parameter `decode`; a text is a list of characters. The abort in `finally` is
-- `abort` of Server, which the caller of a stream makes.
pub mod Seen
use paged_serve.Prelude.{
  ℕ, zero, suc, ◌+◌, ◌-◌, ◌≤◌, ◌<◌, ◌≡◌, Bool, true, false, List, [], ◌∷◌, ◌++◌, Option, none, some,
  length, take, drop, ltb, ◌==◌, if◌then◌else◌, Error,
}
use paged_serve.Sequence.{FinishReason}
use paged_serve.Server.{Item, token, done, failed}

-- `text.startswith(s)`
abbrev pub starts_with : List ℕ → List ℕ → Bool
starts_with text [] = true
starts_with [] (x ∷ s) = false
starts_with (y ∷ text) (x ∷ s) = if y == x then starts_with text s else false

-- `text.index(s)`, if `s in text`
abbrev pub index_of : List ℕ → List ℕ → Option ℕ
index_of [] s = if starts_with [] s then some 0 else none
index_of (y ∷ text) s =
    let rest = index_of text s in
    if starts_with (y ∷ text) s then some 0 else elim rest [ none ↦ none | some i ↦ some (i + 1) ]

-- `next((s for s in stop_strings if s and s in text), None)`, with the place of the first occurrence.
unfoldable pub first_hit : List (List ℕ) → List ℕ → Option ℕ
first_hit [] text = none
first_hit ([] ∷ stops) text = first_hit stops text
first_hit ((x ∷ s) ∷ stops) text =
    let rest = first_hit stops text in
    elim (index_of text (x ∷ s)) [ none ↦ rest | some i ↦ some i ]

pub record Chunk : Type 0 where
  pub text : List ℕ
  pub finish : Option FinishReason

-- How a stream stands: it waits for an item, it returned, or the item was an exception.
pub data Ending : Type 0 where
  waits returned : Ending
  raised : Error → Ending

pub record Streamed : Type 0 where
  pub chunks : List Chunk
  -- Whether a stop string made it abort the sequence.
  pub aborts : Bool
  pub ending : Ending

abbrev pub plain : List ℕ → Chunk
plain text = record { text = text; finish = none }

abbrev pub last_chunk : FinishReason → Chunk
last_chunk reason = record { text = []; finish = some reason }

-- `if delta: yield delta, None`
abbrev pub yield_text : List ℕ → Streamed → Streamed
yield_text [] s = s
yield_text (x ∷ delta) s = record s { chunks = plain (x ∷ delta) ∷ s.chunks }

-- `sequence.finish_reason or "stop"`
abbrev pub or_stop : Option FinishReason → FinishReason
or_stop none = FinishReason.stop
or_stop (some reason) = reason

-- A round's text, if a stop string stands at `cut`, and if none does: `shown` is the length of what
-- was sent, `delta` what is new.
abbrev pub round : Option ℕ → List ℕ → List ℕ → ℕ → Streamed → Streamed
round none text delta shown rest = yield_text delta rest
round (some cut) text delta shown rest =
    yield_text (if ltb shown cut then drop shown (take cut text) else []) (record {
      chunks = last_chunk FinishReason.stop ∷ [];
      aborts = true;
      ending = Ending.returned;
    })

module _ (decode : List ℕ → List ℕ) (stop_strings : List (List ℕ))
    (reason : Option FinishReason) where
  -- The loop, on the items that have come.
  unfoldable pub stream_tokens : List ℕ → List ℕ → List Item → Streamed
  stream_tokens tokens emitted [] = record { chunks = []; aborts = false; ending = Ending.waits }
  stream_tokens tokens emitted (failed e ∷ items) = record {
    chunks = [];
    aborts = false;
    ending = Ending.raised e;
  }
  stream_tokens tokens emitted (done ∷ items) = record {
    chunks = last_chunk (or_stop reason) ∷ [];
    aborts = false;
    ending = Ending.returned;
  }
  stream_tokens tokens emitted (token t ∷ items) =
      let text = decode (tokens ++ t ∷ []) in
      let delta = drop (length emitted) text in
      let rest = stream_tokens (tokens ++ t ∷ []) text items in
      let shown = length text - length delta in
      round (first_hit stop_strings text) text delta shown rest
