-- ===== src/Witnesses/UpdateWitness.antt =====
-- A run's updates at which the theorem on dbosify/_internal/interpreter.py applies.
use dbosify_py.Prelude.{ℕ, refl, none, some, List, [], ◌∷◌, arith}
use dbosify_py.Prelude.Text.{text}
use dbosify_py.Interpreter.Updates.{
  UpdateState, UpdateEvent, delivered, handler_ended, run_closed, unvalidated, validated, returned,
  update_run,
}
use dbosify_py.Interpreter.Updates.Replies.{IsAnswered, IsApart, update_run-IsAnswered}

abbrev unanswered : UpdateState ℕ ℕ
unanswered = record { seen_update_ids = []; outbox = []; inflight_handlers = [] }

-- The update u1 is delivered twice and completed; u2 is abandoned; u3 is rejected.
abbrev history : List (UpdateEvent ℕ ℕ)
history =
    delivered (text "u1") unvalidated
    ∷ delivered (text "u1") unvalidated
    ∷ delivered (text "u2") (validated none)
    ∷ delivered (text "u3") (validated (some 4))
    ∷ handler_ended (text "u1") (returned 8)
    ∷ run_closed 9
    ∷ []

IsApart-u1 : IsApart (text "u1") (text "u1")
IsApart-u1 = (λ h. cc, λ h. cc)

IsApart-u2 : IsApart (text "u1") (text "u2")
IsApart-u2 = (λ h. cc, λ h. cc)

IsApart-u3 : IsApart (text "u1") (text "u3")
IsApart-u3 = (λ h. cc, λ h. cc)

updates_example : IsAnswered (text "u1") (update_run history unanswered)
updates_example =
    update_run-IsAnswered (text "u1") history unanswered
      (IsApart-u1, (IsApart-u1, (IsApart-u2, (IsApart-u3, (IsApart-u1, (tt, tt)))))) tt
      (refl, omega arith)
