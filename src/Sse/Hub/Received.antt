-- ===== src/Sse/Hub/Received.antt =====
-- What a stream of src/sse/hub.py has received after any sequence of calls.
use boilerplate_python_fasta.Sse.Hub.{Hub, ServerSentEvent, Round}
use boilerplate_python_fasta.Sse.Hub.Registry.{Action, perform, run, leave}
use boilerplate_python_fasta.Sse.Hub.Runs.{Returns, returned, IsRegistry, Returns-option_map}
use boilerplate_python_fasta.Sse.Hub.Stream.{Tracks}
use boilerplate_python_fasta.Prelude.{
  ℕ, List, [], ◌∷◌, ◌++◌, All, some, none, Option, ◌≢◌, option_map,
}
use boilerplate_python_fasta.Sse.Event.{ServerSentEvent}
use boilerplate_python_fasta.Sse.Hub.Delivered.{received}
use boilerplate_python_fasta.Sse.Hub.Calls.{perform-Returns}

-- No call leaves the stream.
abbrev pub IsOpen : ℕ → List Action → Type 0
IsOpen i actions = All (λ a. a ≢ leave i) actions

-- A run that returns, and leaves the stream `i` with what it has got of `P`.
pub data Hears (i : ℕ) (P : List ServerSentEvent) : Option (List (ℕ × Round) × Hub) → Type 0 where
  hears :
      (log : List (ℕ × Round)) (h : Hub)
      → Tracks P (received i log) (h.subscribers i)
      → Hears i P (some (log, h))

then_run :
    (rest : List Action) (o : Option (List (ℕ × Round) × Hub))
    → Returns IsRegistry o
    → ((h : Hub) → IsRegistry h → Returns IsRegistry (run rest h))
    → Returns IsRegistry (elim o [
      | none ↦ none
      | some (log, h') ↦ option_map (λ r. (log ++ r.0, r.1)) (run rest h')
    ])
then_run rest o (returned log h k) ih = Returns-option_map (λ l. log ++ l) _ (ih h k)

-- Whatever the calls, all of them return: no `put_nowait` finds a full queue. Every queue holds at
-- most its buffer, and one more if the subscriber is terminated.
run-Returns : (actions : List Action) (h : Hub) → IsRegistry h → Returns IsRegistry (run actions h)
unfolding run
run-Returns [] h k = returned [] h k
run-Returns (a ∷ rest) h k =
    then_run rest (perform a h) (perform-Returns a h k) (λ h' k'. run-Returns rest h' k')
