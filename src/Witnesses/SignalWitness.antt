-- ===== src/Witnesses/SignalWitness.antt =====
-- A run's signals at which the theorems on dbosify/_internal/interpreter.py apply.
use dbosify_py.Prelude.{ℕ, ◌+◌, ◌≡◌, Bool, true, false, Option, none, some, List, [], ◌∷◌}
use dbosify_py.Prelude.Text.{Text, text}
use dbosify_py.Interpreter.Signals.{Signal, SignalState, Event, received, handler_set, flushed, run}
use dbosify_py.Interpreter.Signals.Conserved.{count, held, arrivals, held-run}
use dbosify_py.Interpreter.Signals.Deliverable.{IsQuiet, run-IsQuiet}

abbrev go : Signal ℕ
go = record { name = text "go"; args = 1 ∷ [] }

abbrev fresh : SignalState ℕ ℕ
fresh = record {
  signal_overrides = λ key. none;
  buffered_signals = [];
  pending_handler_flush = [];
  spawned = [];
  dropped = [];
}

-- A signal arrives before its handler is set, and one after.
abbrev events : List (Event ℕ ℕ)
events = received go ∷ handler_set false (some (text "go")) (some 7) ∷ received go ∷ flushed ∷ []

abbrev defns : Option Text → Option ℕ
defns key = none

abbrev decodes : Signal ℕ → Bool
decodes s = true

abbrev every : Signal ℕ → Bool
every s = true

held_example :
    held every (run defns decodes events fresh) ≡ count every (arrivals events) + held every fresh
held_example = held-run defns decodes every events fresh

signals_example : IsQuiet defns decodes (run defns decodes events fresh)
signals_example = run-IsQuiet defns decodes events fresh (tt, tt)
