-- ===== src/Interpreter/Signals/Conserved.antt =====
-- No signal is lost or delivered twice (dbosify/_internal/interpreter.py).
use dbosify_py.Prelude.{
  ℕ, ◌+◌, ◌≡◌, refl, Bool, true, false, Option, none, some, List, [], ◌∷◌, ◌++◌, arith,
  if◌then◌else◌, Bool-cases, Option-cases, inl, inr,
}
use dbosify_py.Prelude.Text.{Text, text_eq}
use dbosify_py.Interpreter.Signals.{
  Signal, SignalState, set_override, add_to, popped, without, all_buffered, take_over,
  set_signal_handler, handler_of, apply_signal, apply_signals, flush_pending_handler_signals, Event,
  received, handler_set, flushed, kept_on_error, step, run,
}

-- How many signals pass a test.
abbrev pub count : {P : Type 0} → (Signal P → Bool) → List (Signal P) → ℕ
count p [] = 0
count p (s ∷ ss) = (if p s then 1 else 0) + count p ss

abbrev pub count_spawned : {H P : Type 0} → (Signal P → Bool) → List (H × Signal P) → ℕ
count_spawned p [] = 0
count_spawned p ((h, s) ∷ rows) = (if p s then 1 else 0) + count_spawned p rows

-- The signals of a state that pass a test: with a handler, dropped, buffered or waiting for the
-- flush.
abbrev pub held : {H P : Type 0} → (Signal P → Bool) → SignalState H P → ℕ
held p st =
    count_spawned p st.spawned
    + count p st.dropped
    + count p (all_buffered st.buffered_signals)
    + count p st.pending_handler_flush

-- The signals that arrive in a run.
abbrev pub arrivals : {H P : Type 0} → List (Event H P) → List (Signal P)
arrivals [] = []
arrivals (received s ∷ es) = s ∷ arrivals es
arrivals (handler_set ro name h ∷ es) = arrivals es
arrivals (flushed ∷ es) = arrivals es

module _ {P : Type 0} (p : Signal P → Bool) where
  count-append : (xs ys : List (Signal P)) → count p (xs ++ ys) ≡ count p xs + count p ys
  count-append [] ys = omega arith
  count-append (x ∷ xs) ys = omega (arith, count-append xs ys)

  count_spawned-append :
      {H : Type 0} (xs ys : List (H × Signal P))
      → count_spawned p (xs ++ ys) ≡ count_spawned p xs + count_spawned p ys
  count_spawned-append [] ys = omega arith
  count_spawned-append ((h, s) ∷ xs) ys = omega (arith, count_spawned-append xs ys)

  count-add_to :
      (s : Signal P) (b : List (Text × List (Signal P)))
      → count p (all_buffered (add_to s b)) ≡ count p (s ∷ []) + count p (all_buffered b)
  unfolding add_to all_buffered
  count-add_to s [] = omega arith
  count-add_to s ((n, ss) ∷ rest) = elim (Bool-cases (text_eq n s.name)) [
    | inl here ↦
        rw
          (
            here,
            add_to,
            all_buffered,
            count-append (ss ++ s ∷ []),
            count-append ss (s ∷ []),
            count-append ss (all_buffered rest),
          )
          (omega arith)
    | inr there ↦
        rw
          (
            there,
            add_to,
            all_buffered,
            count-append ss (all_buffered (add_to s rest)),
            count-add_to s rest,
            count-append ss (all_buffered rest),
          )
          (omega arith)
  ]

  count-popped :
      (n : Text) (b : List (Text × List (Signal P)))
      → count p (popped n b) + count p (all_buffered (without n b)) ≡ count p (all_buffered b)
  unfolding popped without all_buffered
  count-popped n [] = refl
  count-popped n ((m, ss) ∷ rest) = elim (Bool-cases (text_eq m n)) [
    | inl here ↦ rw (here, count-append ss (all_buffered rest)) refl
    | inr there ↦
        rw
          (
            there,
            count-append ss (all_buffered rest),
            count-append ss (all_buffered (without n rest)),
          )
          (omega (arith, count-popped n rest))
  ]

module _ {H P : Type 0} (defns : Option Text → Option H) (decodes p : Signal P → Bool) where
  held-apply_signal :
      (s : Signal P) (st : SignalState H P)
      → held p (apply_signal defns decodes s st) ≡ count p (s ∷ []) + held p st
  unfolding apply_signal
  held-apply_signal s st = elim (Option-cases (handler_of defns decodes st s.name)) [
    | inl missing ↦ rw (missing, apply_signal, count-add_to p s st.buffered_signals) (omega arith)
    | inr (h, found) ↦ elim (Bool-cases (decodes s)) [
      | inl good ↦ rw (found, good, apply_signal, count_spawned-append p st.spawned) (omega arith)
      | inr bad ↦ rw (found, bad, apply_signal, count-append p st.dropped) (omega arith)
    ]
  ]

  held-apply_signals :
      (ss : List (Signal P)) (st : SignalState H P)
      → held p (apply_signals defns decodes ss st) ≡ count p ss + held p st
  unfolding apply_signals
  held-apply_signals [] st = omega arith
  held-apply_signals (s ∷ ss) st =
      omega (arith, held-apply_signals ss (apply_signal defns decodes s st), held-apply_signal s st)

  held-take_over :
      (name : Option Text) (h : Option H) (st : SignalState H P)
      → held p (take_over name h st) ≡ held p st
  unfolding take_over all_buffered
  held-take_over name none st = refl
  held-take_over none (some h) st = rw count-append (omega arith)
  held-take_over (some n) (some h) st =
      rw count-append (omega (arith, count-popped p n st.buffered_signals))

  held-step :
      (e : Event H P) (st : SignalState H P)
      → held p (step defns decodes e st) ≡ count p (arrivals (e ∷ [])) + held p st
  unfolding step flush_pending_handler_signals set_signal_handler kept_on_error
  held-step (received s) st = held-apply_signal s st
  held-step (handler_set true name h) st = omega arith
  held-step (handler_set false name h) st = omega (
    arith,
    held-take_over name h
        (record st { signal_overrides = set_override name h st.signal_overrides }),
  )
  held-step flushed st = omega (
    arith,
    held-apply_signals st.pending_handler_flush (record st { pending_handler_flush = [] }),
  )

  arrivals_cons :
      (e : Event H P) (es : List (Event H P))
      → count p (arrivals (e ∷ es)) ≡ count p (arrivals (e ∷ [])) + count p (arrivals es)
  arrivals_cons (received s) es = omega arith
  arrivals_cons (handler_set ro name h) es = omega arith
  arrivals_cons flushed es = omega arith

  -- Whatever arrives, whichever handlers are set and however often the loop flushes, every signal
  -- is held once: with the handler that was spawned for it, among the dropped, in the buffer, or in
  -- the queue for the flush. A signal is counted by any test.
  pub held-run :
      (es : List (Event H P)) (st : SignalState H P)
      → held p (run defns decodes es st) ≡ count p (arrivals es) + held p st
  unfolding run
  held-run [] st = omega arith
  held-run (e ∷ es) st =
      omega (arith, held-run es (step defns decodes e st), held-step e st, arrivals_cons e es)
