-- ===== src/Server/Stream/Seen.antt =====
-- The text that a client of `stream_tokens` of server/api.py has seen in all.
use paged_serve.Prelude.{ℕ, ◌≡◌, List, [], ◌∷◌, ◌++◌, Option, none, some, length, take, max}
use paged_serve.Sequence.{FinishReason}
use paged_serve.Server.{Item, token, done, failed}
use paged_serve.Server.Stream.{Chunk, first_hit}

-- All text of a stream.
abbrev pub joined : List Chunk → List ℕ
joined [] = []
joined (c ∷ cs) = c.text ++ joined cs

-- The text behind a round: up to the stop string, or what has been sent if that is more.
abbrev pub seen_round : Option ℕ → List ℕ → List ℕ → List ℕ → List ℕ
seen_round none text old later = later
seen_round (some cut) text old later = take (max cut (length old)) text

module _ (decode : List ℕ → List ℕ) (stop_strings : List (List ℕ))
    (reason : Option FinishReason) where
  -- Each round's text begins with the text of the round before, up to the end of the stream or the
  -- first stop string: no token of the run ends inside a character.
  abbrev pub Extending : List ℕ → List Item → Type 0
  Extending tokens [] = Unit
  Extending tokens (failed e ∷ items) = Unit
  Extending tokens (done ∷ items) = Unit
  Extending tokens (token t ∷ items) =
      let text = decode (tokens ++ t ∷ []) in
      ((l : List ℕ) × (text ≡ decode tokens ++ l))
      × (first_hit stop_strings text ≡ none → Extending (tokens ++ t ∷ []) items)

  -- The decoded text of all tokens, up to the first round in which a stop string stands in it.
  abbrev pub seen : List ℕ → List Item → List ℕ
  seen tokens [] = decode tokens
  seen tokens (failed e ∷ items) = decode tokens
  seen tokens (done ∷ items) = decode tokens
  seen tokens (token t ∷ items) =
      let text = decode (tokens ++ t ∷ []) in
      seen_round (first_hit stop_strings text) text (decode tokens) (seen (tokens ++ t ∷ []) items)
