-- ===== src/Witnesses/QueryWitness.antt =====
-- Queries and rows at which the theorems on dbosify/_internal/visibility.py apply.
use dbosify_py.Visibility.Parser.Termination.{parse_query_returns}
use dbosify_py.Prelude.{
  is_some, ℕ, ◌≡◌, refl, ◌&&◌, Bool, true, false, Option, none, some, [], ◌∷◌, ◌++◌,
}
use dbosify_py.Prelude.{false}
use dbosify_py.Prelude.Result.{ok}
use dbosify_py.Prelude.Text.{Text, text, text_eq, str}
use dbosify_py.Status.{canceled, error, serialized_workflow_cancellation}
use dbosify_py.Visibility.{Query, new_query, equal, less, literal, scalar, system_field, lower}
use dbosify_py.Visibility.Clauses.{
  apply_clause, apply_field, apply_start, at_datetime, parse_datetime,
}
use dbosify_py.Visibility.Clauses.Meaning.{Facts, selects, asks, selects-apply_clause}
use dbosify_py.Visibility.Filters.{Row}
use dbosify_py.Visibility.Parser.{ident, parse_query, is_keyword, is_word}
use dbosify_py.Visibility.Parser.RoundTrip.{
  Clause, compares, among, print_clause, print_rest, ArePrintable, apply_all, parse_query-print,
}

abbrev query : Query ℕ
query = record new_query {
  statuses = some (canceled ∷ []);
  type_not_in = text "Report" ∷ [];
  workflow_id_chain = some (text "order-7");
}

abbrev row : Row
row = record {
  workflow_id = text "order-7--r1";
  status = error;
  recorded_error = serialized_workflow_cancellation;
  name = some (text "wf:Order");
}

abbrev iso : Text → Option ℕ
iso t = if_noon (text_eq t (text "2026-01-01"))
  where
    if_noon : Bool → Option ℕ
    if_noon true = some 1000
    if_noon false = none

abbrev facts : Facts
facts = record { type_name = text "Order"; status = canceled; started = 900; closed = 1200 }

abbrev before_new_year : Query ℕ
before_new_year = record query { start_time_hi = some 1000 }

narrowing :
    apply_clause str iso query (text "StartTime") less (scalar (literal (text "2026-01-01")))
    ≡ ok before_new_year
unfolding apply_clause apply_field system_field lower text_eq at_datetime parse_datetime apply_start
narrowing = refl

clause_example : selects before_new_year facts ≡ (
    selects query facts
    && asks str iso
        (system_field (text "StartTime"))
        (text "StartTime")
        less
        (scalar (literal (text "2026-01-01")))
        facts)
clause_example =
    selects-apply_clause str iso facts query (text "StartTime") less
      (scalar (literal (text "2026-01-01"))) before_new_year narrowing

abbrev first_clause : Clause ℕ
first_clause = compares (text "WorkflowType") equal (literal (text "Order"))

abbrev second_clause : Clause ℕ
second_clause =
    among (text "ExecutionStatus") (literal (text "Failed") ∷ literal (text "Canceled") ∷ [])

printable : ArePrintable (first_clause ∷ second_clause ∷ [])
unfolding is_keyword is_word text_eq
printable = ((refl, tt), ((refl, (tt, (tt, tt))), tt))

parse_example :
    parse_query str iso (print_clause first_clause ++ print_rest (second_clause ∷ []))
    ≡ some (apply_all str iso new_query (first_clause ∷ second_clause ∷ []))
parse_example = parse_query-print str iso first_clause (second_clause ∷ []) printable

returns_example :
    is_some (
      parse_query str iso
        (print_clause first_clause ++ ident (text "OR") ∷ print_clause second_clause))
    ≡ true
returns_example =
    parse_query_returns str iso
      (print_clause first_clause ++ ident (text "OR") ∷ print_clause second_clause)
