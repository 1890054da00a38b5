-- ===== src/Visibility/Parser.antt =====
-- `parse_query` of dbosify/_internal/visibility.py, from the tokens on: the regular expression that
-- makes them is not modelled. What is left of the token list stands for the index into it.
pub mod RoundTrip
pub mod Termination
use dbosify_py.Prelude.{
  ℕ, zero, suc, ◌+◌, ◌-◌, String, Bool, true, false, not, ◌&&◌, ◌||◌, Option, none, some, List, [],
  ◌∷◌, map, leb, if◌then◌else◌, length,
}
use dbosify_py.Prelude.Result.{Result, ok, err}
use dbosify_py.Prelude.Text.{Text, text, text_eq}
use dbosify_py.Visibility.{
  lower, system_field, workflow_type, execution_status, SystemField, Op, in_list, begins_with,
  Scalar, literal, number, boolean, Value, scalar, listed, GroupField, by_execution_status,
  by_workflow_type, Query, new_query, QueryError, syntax_error,
}
use dbosify_py.Visibility.Clauses.{apply_clause}

pub data Token (N : Type 0) : Type 0 where
  op : Op → Token N
  lparen rparen comma : Token N
  num : N → Token N
  ident : Text → Token N
  string : Text → Token N

abbrev pub upper_code : ℕ → ℕ
upper_code c = if leb 97 c && leb c 122 then c - 32 else c

-- `str(tok.value).upper() == word`
unfoldable pub is_word : Text → Text → Bool
is_word word t = text_eq (map upper_code t) word

unfoldable pub is_keyword : Text → Bool
is_keyword t =
    is_word (text "AND") t
    || (is_word (text "OR") t
        || (is_word (text "ORDER") t
            || (is_word (text "GROUP") t
                || (is_word (text "IN") t || is_word (text "STARTS_WITH") t))))

-- A VisibilityQueryError, by its message.
abbrev pub fail : {A : Type 0} → String → Result QueryError A
fail message = err (syntax_error message)

group_field : Option SystemField → Option GroupField
group_field (some execution_status) = some by_execution_status
group_field (some workflow_type) = some by_workflow_type
group_field field = none

module _ {N : Type 0} where
  unfoldable pub ident_literal : Text → Scalar N
  ident_literal t =
      if text_eq (lower t) (text "true")
      then boolean true
      else if text_eq (lower t) (text "false")
      then boolean false
      else literal t

  unfoldable pub parse_operator : List (Token N) → Result QueryError (Op × List (Token N))
  parse_operator [] = fail "Expected an operator."
  parse_operator (op o ∷ tokens) = ok (o, tokens)
  parse_operator (ident t ∷ tokens) =
      if is_word (text "IN") t
      then ok (in_list, tokens)
      else if is_word (text "STARTS_WITH") t
      then ok (begins_with, tokens)
      else fail "Expected an operator."
  parse_operator (tok ∷ tokens) = fail "Expected an operator."

  unfoldable pub cons_item :
      Scalar N
      → Result QueryError (List (Scalar N) × List (Token N))
      → Result QueryError (List (Scalar N) × List (Token N))
  cons_item v (err e) = err e
  cons_item v (ok (items, tokens)) = ok (v ∷ items, tokens)

  -- The literals of an IN list, up to its ")"; the flag is whether a separator comes next.
  unfoldable pub parse_items :
      Bool → List (Token N) → Result QueryError (List (Scalar N) × List (Token N))
  parse_items separator [] = fail "Unterminated IN list (missing ')')."
  parse_items separator (rparen ∷ tokens) = ok ([], tokens)
  parse_items true (comma ∷ tokens) = parse_items false tokens
  parse_items true (tok ∷ tokens) = fail "Expected ',' or ')' in IN list."
  parse_items false (string t ∷ tokens) = cons_item (literal t) (parse_items true tokens)
  parse_items false (num n ∷ tokens) = cons_item (number n) (parse_items true tokens)
  parse_items false (tok ∷ tokens) = fail "IN list takes literals."

  as_list :
      Result QueryError (List (Scalar N) × List (Token N))
      → Result QueryError (Value N × List (Token N))
  as_list (err e) = err e
  as_list (ok (items, tokens)) = ok (listed items, tokens)

  unfoldable pub parse_listed : List (Token N) → Result QueryError (Value N × List (Token N))
  unfolding as_list
  parse_listed [] = fail "Expected a value."
  parse_listed (lparen ∷ tokens) = as_list (parse_items false tokens)
  parse_listed (tok ∷ tokens) = fail "IN requires a parenthesized list, e.g. IN ('a', 'b')."

  unfoldable pub parse_scalar : List (Token N) → Result QueryError (Value N × List (Token N))
  parse_scalar [] = fail "Expected a value."
  parse_scalar (lparen ∷ tokens) = fail "Parenthesized values are only valid after IN."
  parse_scalar (ident t ∷ tokens) = ok (scalar (ident_literal t), tokens)
  parse_scalar (string t ∷ tokens) = ok (scalar (literal t), tokens)
  parse_scalar (num n ∷ tokens) = ok (scalar (number n), tokens)
  parse_scalar (tok ∷ tokens) = fail "Expected a value."

  unfoldable pub parse_value : Op → List (Token N) → Result QueryError (Value N × List (Token N))
  parse_value in_list tokens = parse_listed tokens
  parse_value o tokens = parse_scalar tokens

  -- What follows GROUP: BY, a field, and the end.
  unfoldable pub parse_group : Query N → List (Token N) → Result QueryError (Query N)
  unfolding group_field
  parse_group q (ident by ∷ ident field ∷ rest) =
      if not (is_word (text "BY") by)
      then fail "Expected 'BY' after GROUP."
      else elim (group_field (system_field field)) [
        | none ↦ fail "GROUP BY supports only ExecutionStatus or WorkflowType."
        | some g ↦ elim rest [
          | [] ↦ ok (record q { group_by = some g })
          | tok ∷ more ↦ fail "GROUP BY must be the final clause."
        ]
      ]
  parse_group q (ident by ∷ rest) =
      if not (is_word (text "BY") by)
      then fail "Expected 'BY' after GROUP."
      else fail "GROUP BY requires a field name."
  parse_group q tokens = fail "Expected 'BY' after GROUP."

  -- What stands between two clauses; `more` goes on with the loop.
  unfoldable pub after_clause :
      (List (Token N) → Option (Result QueryError (Query N)))
      → Query N
      → List (Token N)
      → Option (Result QueryError (Query N))
  after_clause more q [] = some (ok q)
  after_clause more q (ident t ∷ []) =
      if is_word (text "AND") t
      then some (fail "Trailing AND with no clause.")
      else if is_word (text "GROUP") t
      then more (ident t ∷ [])
      else if is_word (text "OR") t
      then some (fail "OR is not supported; only AND.")
      else some (fail "Expected AND or end of query.")
  after_clause more q (ident t ∷ tok ∷ tokens) =
      if is_word (text "AND") t
      then more (tok ∷ tokens)
      else if is_word (text "GROUP") t
      then more (ident t ∷ tok ∷ tokens)
      else if is_word (text "OR") t
      then some (fail "OR is not supported; only AND.")
      else some (fail "Expected AND or end of query.")
  after_clause more q (tok ∷ tokens) = some (fail "Expected AND or end of query.")

  -- An operator and its value.
  unfoldable pub parse_condition :
      List (Token N) → Result QueryError (Op × (Value N × List (Token N)))
  parse_condition tokens = elim (parse_operator tokens) [
    | err e ↦ err e
    | ok (o, rest) ↦ elim (parse_value o rest) [ err e ↦ err e | ok found ↦ ok (o, found) ]
  ]

module _ {N : Type 0} (show : N → Text) (fromisoformat : Text → Option ℕ) where
  -- `while i < n`; `none` when the fuel runs out.
  unfoldable pub parse_clauses : ℕ → Query N → List (Token N) → Option (Result QueryError (Query N))
  parse_clauses zero q tokens = none
  parse_clauses (suc fuel) q [] = some (ok q)
  parse_clauses (suc fuel) q (ident t ∷ tokens) = elim (is_word (text "GROUP") t) [
    | true ↦ some (parse_group q tokens)
    | false ↦ elim (is_keyword t) [
      | true ↦ some (fail "Unexpected keyword where a field was expected.")
      | false ↦ elim (parse_condition tokens) [
        | err e ↦ some (err e)
        | ok (o, (v, rest)) ↦ elim (apply_clause show fromisoformat q t o v) [
          | err e ↦ some (err e)
          | ok q' ↦ after_clause (parse_clauses fuel q') q' rest
        ]
      ]
    ]
  ]
  parse_clauses (suc fuel) q (tok ∷ tokens) = some (fail "Expected a field name.")

  -- A query that is None or blank has no tokens.
  unfoldable pub parse_query : List (Token N) → Option (Result QueryError (Query N))
  parse_query tokens = parse_clauses (suc (length tokens)) new_query tokens
