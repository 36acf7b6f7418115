-- ===== src/Tests/Servers.antt =====
-- server/api.py on concrete inputs.
use paged_serve.Prelude.{
  List, ℕ, ◌≡◌, ◌∙◌, ap, sym, refl, arith, false, [], ◌∷◌, none, some, ok, ◌==◌, if◌then◌else◌, inl,
}
use paged_serve.Scheduler
use paged_serve.Scheduler.{Scheduler}
use paged_serve.Server.{Runner, token, done, release_in, abort}
use paged_serve.Server.Release.{Dropped, release_in-Dropped}
use paged_serve.Server.Stream.{stream_tokens, first_hit}
use paged_serve.Server.Stream.Seen.{joined}
use paged_serve.Server.Round.{IsRunner}
use paged_serve.Server.Serving.{Aborted, abort-Aborted, IsGood, Reach, Event, Reach-IsGood}
use paged_serve.Tests.Data.{digest, roomy, roomy-Ready}
use paged_serve.Tests.Steps.{answers, length-answers, engine, engine-Serves}

-- The request 7 has got its first token.
abbrev server : Runner
server = record {
  engine = engine;
  queues = λ x. x == 7;
  sent = λ x. if x == 7 then token 14 ∷ [] else [];
  delivered = λ x. if x == 7 then some 1 else none;
  stepping = false;
  pending_aborts = [];
}

server-IsRunner : IsRunner server roomy
server-IsRunner = record {
  serves = engine-Serves;
  idle = refl;
  none_pending = refl;
  fed = λ x o. record { counted = ground (arith, o); items = inl (ground (arith, o)) };
}

release_in-Dropped_example :
    (s' : Scheduler) × (release_in 7 roomy ≡ (ok tt, s')) × Dropped 7 roomy s'
release_in-Dropped_example = release_in-Dropped 7 roomy roomy-Ready

abort-Aborted_example :
    (r' : Runner) × (s' : Scheduler) × (abort 7 server ≡ (ok tt, r')) × Aborted 7 server roomy r' s'
abort-Aborted_example = abort-Aborted 7 server roomy server-IsRunner

-- The server behind an abort.
abbrev aborted_server : Runner
aborted_server = (abort 7 server).1

abort_event : abort 7 server ≡ (ok tt, aborted_server)
abort_event =
    let e = (abort-Aborted 7 server roomy server-IsRunner).2 in e ∙ ap (λ p. (ok tt, p.1)) (sym e)

Reach-IsGood_example : IsGood digest answers length-answers aborted_server
Reach-IsGood_example =
    Reach-IsGood digest answers length-answers (Reach.next Reach.here (Event.aborted 7 abort_event))
      (roomy, server-IsRunner)

-- The first part of that stop string is sent.
stop_string_split :
    joined
      (stream_tokens
        (λ l. l)
        ((3 ∷ 4 ∷ []) ∷ [])
        none
        []
        []
        (token 1 ∷ token 3 ∷ token 4 ∷ token 5 ∷ [])).chunks
    ≡ 1 ∷ 3 ∷ []
unfolding stream_tokens first_hit
stop_string_split = refl

-- A tokenizer for which the tokens 1 and 2 are the halves of the character 233.
abbrev halves : List ℕ → List ℕ
halves [] = []
halves (x ∷ []) = 65533 ∷ []
halves (x ∷ y ∷ l) = 233 ∷ halves l

-- The replacement character stays.
half_character :
    joined (stream_tokens halves [] none [] [] (token 1 ∷ token 2 ∷ done ∷ [])).chunks ≡ 65533 ∷ []
unfolding stream_tokens first_hit
half_character = refl
