-- ===== src/Interpreter/Signals/Deliverable.antt =====
-- No signal stays in the buffer once there is a handler for it (dbosify/_internal/interpreter.py).
use dbosify_py.Prelude.{
  ◌≡◌, subst, Bool, true, false, Option, none, some, List, [], ◌∷◌, arith, Bool-cases, Option-cases,
  inl, inr,
}
use dbosify_py.Prelude.Text.{Text, text_eq, text_eq→eq, text_eq_sym}
use dbosify_py.Interpreter.Signals.{
  Signal, SignalState, key_eq, dynamic_handler, resolve, set_override, add_to, without, take_over,
  set_signal_handler, handler_of, apply_signal, apply_signals, flush_pending_handler_signals, Event,
  received, handler_set, flushed, kept_on_error, step, run,
}

-- Every name of a buffer satisfies a predicate.
abbrev pub Names : {P : Type 0} → (Text → Type 0) → List (Text × List (Signal P)) → Type 0
Names Good [] = Unit
Names Good ((n, ss) ∷ rest) = Good n × Names Good rest

module _ {P : Type 0} where
  Names-map :
      (F G : Text → Type 0) (b : List (Text × List (Signal P)))
      → ((n : Text) → F n → G n)
      → Names F b
      → Names G b
  Names-map F G [] f h = tt
  Names-map F G ((n, ss) ∷ rest) f h = (f n h.0, Names-map F G rest f h.1)

  Names-both :
      (b : List (Text × List (Signal P))) (E F G : Text → Type 0)
      → ((n : Text) → E n → F n → G n)
      → Names E b
      → Names F b
      → Names G b
  Names-both [] E F G f e h = tt
  Names-both ((n, ss) ∷ rest) E F G f e h = (f n e.0 h.0, Names-both rest E F G f e.1 h.1)

  Names-add_to :
      (F : Text → Type 0) (s : Signal P) (b : List (Text × List (Signal P)))
      → F s.name
      → Names F b
      → Names F (add_to s b)
  unfolding add_to
  Names-add_to F s [] f h = (f, tt)
  Names-add_to F s ((n, ss) ∷ rest) f h = elim (Bool-cases (text_eq n s.name)) [
    | inl here ↦ rw (here, add_to) (h.0, h.1)
    | inr there ↦ rw (there, add_to) (h.0, Names-add_to F s rest f h.1)
  ]

-- The buffer has one row for a name.
abbrev pub Distinct : {P : Type 0} → List (Text × List (Signal P)) → Type 0
Distinct [] = Unit
Distinct ((n, ss) ∷ rest) = Names (λ m. text_eq m n ≡ false) rest × Distinct rest

module _ {P : Type 0} where
  Distinct-add_to :
      (s : Signal P) (b : List (Text × List (Signal P))) → Distinct b → Distinct (add_to s b)
  unfolding add_to
  Distinct-add_to s [] h = (tt, tt)
  Distinct-add_to s ((n, ss) ∷ rest) h = elim (Bool-cases (text_eq n s.name)) [
    | inl here ↦ rw (here, add_to) (h.0, h.1)
    | inr there ↦
        rw (there, add_to)
          (
            Names-add_to (λ m. text_eq m n ≡ false) s rest (text_eq_sym n s.name there) h.0,
            Distinct-add_to s rest h.1,
          )
  ]

  Names-without :
      (F : Text → Type 0) (n : Text) (b : List (Text × List (Signal P)))
      → Names F b
      → Names F (without n b)
  unfolding without
  Names-without F n [] h = tt
  Names-without F n ((m, ss) ∷ rest) h = elim (Bool-cases (text_eq m n)) [
    | inl here ↦ rw (here, without) h.1
    | inr there ↦ rw (there, without) (h.0, Names-without F n rest h.1)
  ]

  Distinct-without :
      (n : Text) (b : List (Text × List (Signal P)))
      → Distinct b
      → Distinct (without n b) × Names (λ m. text_eq m n ≡ false) (without n b)
  unfolding without
  Distinct-without n [] h = (tt, tt)
  Distinct-without n ((m, ss) ∷ rest) h = elim (Bool-cases (text_eq m n)) [
    | inl here ↦
        rw (here, without)
          (h.1, subst (λ k. Names (λ x. text_eq x k ≡ false) rest) (text_eq→eq m n here) h.0)
    | inr there ↦
        let r = Distinct-without n rest h.1 in
        rw (there, without)
          ((Names-without (λ x. text_eq x m ≡ false) n rest h.0, r.0), (there, r.1))
  ]

module _ {H P : Type 0} (defns : Option Text → Option H) (decodes : Signal P → Bool) where
  -- The buffered signals have no handler.
  abbrev pub IsQuiet : SignalState H P → Type 0
  IsQuiet st =
      Distinct st.buffered_signals
      × Names (λ n. resolve st.signal_overrides defns (some n) ≡ none) st.buffered_signals

  still_none :
      (key : Option Text) (overrides : Option Text → Option (Option H)) (n : Text)
      → resolve overrides defns (some n) ≡ none
      → resolve (set_override key none overrides) defns (some n) ≡ none
  unfolding resolve dynamic_handler set_override key_eq
  still_none key overrides n h = ground arith

  other_name :
      (k n : Text) (handler : Option H) (overrides : Option Text → Option (Option H))
      → text_eq n k ≡ false
      → resolve overrides defns (some n) ≡ none
      → resolve (set_override (some k) handler overrides) defns (some n) ≡ none
  unfolding resolve dynamic_handler set_override key_eq
  other_name k n handler overrides e h = ground arith

  apply_signal-IsQuiet :
      (s : Signal P) (st : SignalState H P) → IsQuiet st → IsQuiet (apply_signal defns decodes s st)
  unfolding apply_signal handler_of
  apply_signal-IsQuiet s st q =
      elim (Option-cases (resolve st.signal_overrides defns (some s.name))) [
        | inl missing ↦
            rw (missing, apply_signal)
              (
                Distinct-add_to s st.buffered_signals q.0,
                Names-add_to (λ n. resolve st.signal_overrides defns (some n) ≡ none) s
                    st.buffered_signals missing q.1,
              )
        | inr (h, found) ↦ elim (Bool-cases (decodes s)) [
          | inl good ↦ rw (found, good, apply_signal) q
          | inr bad ↦ rw (found, bad, apply_signal) q
        ]
      ]

  apply_signals-IsQuiet :
      (ss : List (Signal P)) (st : SignalState H P)
      → IsQuiet st
      → IsQuiet (apply_signals defns decodes ss st)
  unfolding apply_signals
  apply_signals-IsQuiet [] st q = q
  apply_signals-IsQuiet (s ∷ ss) st q =
      apply_signals-IsQuiet ss (apply_signal defns decodes s st) (apply_signal-IsQuiet s st q)

  set_handler-IsQuiet :
      (name : Option Text) (handler : Option H) (st : SignalState H P)
      → IsQuiet st
      → IsQuiet (
          take_over name handler
            (record st { signal_overrides = set_override name handler st.signal_overrides }))
  unfolding take_over
  set_handler-IsQuiet name none st q =
      (q.0, Names-map _ _ st.buffered_signals (λ n h. still_none name st.signal_overrides n h) q.1)
  set_handler-IsQuiet none (some h) st q = (tt, tt)
  set_handler-IsQuiet (some k) (some h) st q =
      let r = Distinct-without k st.buffered_signals q.0 in
      (
        r.0,
        Names-both (without k st.buffered_signals) (λ n. text_eq n k ≡ false)
            (λ n. resolve st.signal_overrides defns (some n) ≡ none)
            (λ n.
              resolve (set_override (some k) (some h) st.signal_overrides) defns (some n) ≡ none)
            (λ n e g. other_name k n (some h) st.signal_overrides e g) r.1
            (Names-without (λ n. resolve st.signal_overrides defns (some n) ≡ none) k
              st.buffered_signals q.1),
      )

  step-IsQuiet :
      (e : Event H P) (st : SignalState H P) → IsQuiet st → IsQuiet (step defns decodes e st)
  unfolding step flush_pending_handler_signals set_signal_handler kept_on_error
  step-IsQuiet (received s) st q = apply_signal-IsQuiet s st q
  step-IsQuiet (handler_set true name h) st q = q
  step-IsQuiet (handler_set false name h) st q = set_handler-IsQuiet name h st q
  step-IsQuiet flushed st q =
      apply_signals-IsQuiet st.pending_handler_flush (record st { pending_handler_flush = [] }) q

  -- From a state whose buffered signals have no handler, every state of a run has none buffered
  -- that has one, by name or dynamic, whatever arrives and whichever handlers are set or taken
  -- away; the buffer keeps one row for a name.
  pub run-IsQuiet :
      (es : List (Event H P)) (st : SignalState H P)
      → IsQuiet st
      → IsQuiet (run defns decodes es st)
  unfolding run
  run-IsQuiet [] st q = q
  run-IsQuiet (e ∷ es) st q = run-IsQuiet es (step defns decodes e st) (step-IsQuiet e st q)
