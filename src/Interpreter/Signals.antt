-- ===== src/Interpreter/Signals.antt =====
-- Signals in dbosify/_internal/interpreter.py: the handler of a name, the buffer for signals without
-- one, and the queue of those that a new handler takes over. A handler is opaque; whether a signal's
-- arguments can be decoded is a parameter. A spawned handler is a row of the state.
pub mod Conserved
pub mod Deliverable
use dbosify_py.Prelude.{Bool, true, false, Option, none, some, List, [], ◌∷◌, ◌++◌, if◌then◌else◌}
use dbosify_py.Prelude.Result.{Result, ok, err}
use dbosify_py.Prelude.Text.{Text, text_eq}

-- A handler's key: a signal name, or None for the dynamic handler.
unfoldable pub key_eq : Option Text → Option Text → Bool
key_eq none none = true
key_eq (some m) (some n) = text_eq m n
key_eq _ _ = false

-- A signal's envelope, by its name and its encoded arguments.
pub record Signal (P : Type 0) : Type 0 where
  pub name : Text
  pub args : List P

-- The parts of the interpreter that signals touch. An override that is None takes a handler away.
pub record SignalState (H P : Type 0) : Type 0 where
  pub signal_overrides : Option Text → Option (Option H)
  pub buffered_signals : List (Text × List (Signal P))
  pub pending_handler_flush : List (Signal P)
  pub spawned : List (H × Signal P)
  pub dropped : List (Signal P)

pub data ReadOnlyError : Type 0 where
  read_only_context : ReadOnlyError

or_else : {A : Type 0} → Option A → Option A → Option A
or_else none b = b
or_else (some a) b = some a

-- The dynamic handler: its override where that is one, else the decorated one.
unfoldable pub dynamic_handler :
    {H : Type 0} → (Option Text → Option (Option H)) → (Option Text → Option H) → Option H
unfolding or_else
dynamic_handler overrides defns = elim (overrides none) [
  | none ↦ defns none
  | some entry ↦ or_else entry (defns none)
]

-- `_resolve`
unfoldable pub resolve :
    {H : Type 0}
    → (Option Text → Option (Option H))
    → (Option Text → Option H)
    → Option Text
    → Option H
unfolding or_else
resolve overrides defns name = elim (overrides name) [
  | none ↦ or_else (defns name) (dynamic_handler overrides defns)
  | some entry ↦ or_else entry (dynamic_handler overrides defns)
]

unfoldable pub set_override :
    {H : Type 0}
    → Option Text
    → Option H
    → (Option Text → Option (Option H))
    → Option Text
    → Option (Option H)
set_override name handler overrides key = if key_eq key name then some handler else overrides key

module _ {P : Type 0} where
  -- `setdefault(name, []).append(envelope)`
  unfoldable pub add_to : Signal P → List (Text × List (Signal P)) → List (Text × List (Signal P))
  add_to s [] = (s.name, s ∷ []) ∷ []
  add_to s ((n, ss) ∷ rest) =
      if text_eq n s.name then (n, ss ++ s ∷ []) ∷ rest else (n, ss) ∷ add_to s rest

  -- `pop(name)`: what it returns, and what it leaves.
  unfoldable pub popped : Text → List (Text × List (Signal P)) → List (Signal P)
  popped name [] = []
  popped name ((n, ss) ∷ rest) = if text_eq n name then ss else popped name rest

  unfoldable pub without : Text → List (Text × List (Signal P)) → List (Text × List (Signal P))
  without name [] = []
  without name ((n, ss) ∷ rest) = if text_eq n name then rest else (n, ss) ∷ without name rest

  unfoldable pub all_buffered : List (Text × List (Signal P)) → List (Signal P)
  all_buffered [] = []
  all_buffered ((n, ss) ∷ rest) = ss ++ all_buffered rest

module _ {H P : Type 0} where
  -- What a handler that is set takes over from the buffer.
  unfoldable pub take_over : Option Text → Option H → SignalState H P → SignalState H P
  take_over name none st = st
  take_over none (some h) st = record st {
    pending_handler_flush = st.pending_handler_flush ++ all_buffered st.buffered_signals;
    buffered_signals = [];
  }
  take_over (some n) (some h) st = record st {
    pending_handler_flush = st.pending_handler_flush ++ popped n st.buffered_signals;
    buffered_signals = without n st.buffered_signals;
  }

  -- `runtime_set_handler` for the category "signal".
  unfoldable pub set_signal_handler :
      (read_only : Bool)
      → Option Text
      → Option H
      → SignalState H P
      → Result ReadOnlyError (SignalState H P)
  set_signal_handler true name handler st = err read_only_context
  set_signal_handler false name handler st = ok (
      take_over name handler
        (record st { signal_overrides = set_override name handler st.signal_overrides }))

module _ {H P : Type 0} (defns : Option Text → Option H) (decodes : Signal P → Bool) where
  unfoldable pub handler_of : SignalState H P → Text → Option H
  handler_of st name = resolve st.signal_overrides defns (some name)

  unfoldable pub apply_signal : Signal P → SignalState H P → SignalState H P
  apply_signal s st = elim (handler_of st s.name) [
    | none ↦ record st { buffered_signals = add_to s st.buffered_signals }
    | some h ↦
        if decodes s
        then record st { spawned = st.spawned ++ (h, s) ∷ [] }
        else record st { dropped = st.dropped ++ s ∷ [] }
  ]

  unfoldable pub apply_signals : List (Signal P) → SignalState H P → SignalState H P
  apply_signals [] st = st
  apply_signals (s ∷ ss) st = apply_signals ss (apply_signal s st)

  -- `_flush_pending_handler_signals`
  unfoldable pub flush_pending_handler_signals : SignalState H P → SignalState H P
  flush_pending_handler_signals st =
      apply_signals st.pending_handler_flush (record st { pending_handler_flush = [] })

-- What happens to the signals of a run: one arrives, workflow code sets a handler, or the loop
-- flushes. A call that is refused leaves the state as it was.
pub data Event (H P : Type 0) : Type 0 where
  received : Signal P → Event H P
  handler_set : (read_only : Bool) → (name : Option Text) → (handler : Option H) → Event H P
  flushed : Event H P

kept_on_error :
    {H P : Type 0} → SignalState H P → Result ReadOnlyError (SignalState H P) → SignalState H P
kept_on_error st (err e) = st
kept_on_error st (ok st') = st'

module _ {H P : Type 0} (defns : Option Text → Option H) (decodes : Signal P → Bool) where
  unfoldable pub step : Event H P → SignalState H P → SignalState H P
  unfolding kept_on_error
  step (received s) st = apply_signal defns decodes s st
  step (handler_set ro name h) st = kept_on_error st (set_signal_handler ro name h st)
  step flushed st = flush_pending_handler_signals defns decodes st

  unfoldable pub run : List (Event H P) → SignalState H P → SignalState H P
  run [] st = st
  run (e ∷ es) st = run es (step e st)
