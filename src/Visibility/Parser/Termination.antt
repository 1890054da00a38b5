-- ===== src/Visibility/Parser/Termination.antt =====
-- The parser's loop ends on every list of tokens (`parse_query` of dbosify/_internal/visibility.py).
use dbosify_py.Prelude.{
  ℕ, zero, suc, ◌≤◌, ◌<◌, ◌≡◌, refl, Bool, true, false, Option, some, List, [], ◌∷◌, arith, length,
  is_some, Bool-cases, inl, inr,
}
use dbosify_py.Prelude.Result.{Result, ok, err}
use dbosify_py.Prelude.Text.{Text, text}
use dbosify_py.Visibility.{Op, in_list, Scalar, Value, Query, new_query, QueryError}
use dbosify_py.Visibility.Clauses.{apply_clause}
use dbosify_py.Visibility.Parser.{
  Token, op, lparen, rparen, comma, num, ident, string, is_word, is_keyword, parse_operator,
  cons_item, parse_items, as_list, parse_listed, parse_scalar, parse_value, after_clause,
  parse_condition, parse_clauses, parse_query,
}

-- What is left is no longer than a bound.
abbrev AtMost : {A N : Type 0} → ℕ → Result QueryError (A × List (Token N)) → Type 0
AtMost n (err e) = Unit
AtMost n (ok (a, rest)) = length rest ≤ n

abbrev Conditioned : {N : Type 0} → ℕ → Result QueryError (Op × (Value N × List (Token N))) → Type 0
Conditioned n (err e) = Unit
Conditioned n (ok (o, (v, rest))) = length rest ≤ n

module _ {N : Type 0} where
  cons_item-AtMost :
      (n : ℕ) (v : Scalar N) (r : Result QueryError (List (Scalar N) × List (Token N)))
      → AtMost n r
      → AtMost (suc n) (cons_item v r)
  unfolding cons_item
  cons_item-AtMost n v (err e) h = tt
  cons_item-AtMost n v (ok (items, rest)) h = omega (arith, h)

  weaken :
      {A : Type 0} (m n : ℕ) (r : Result QueryError (A × List (Token N)))
      → m ≤ n
      → AtMost m r
      → AtMost n r
  weaken m n (err e) le h = tt
  weaken m n (ok (a, rest)) le h = omega (arith, h)

  parse_items-AtMost :
      (separator : Bool) (tokens : List (Token N))
      → AtMost (length tokens) (parse_items separator tokens)
  unfolding parse_items
  parse_items-AtMost true [] = tt
  parse_items-AtMost false [] = tt
  parse_items-AtMost true (rparen ∷ tokens) = omega arith
  parse_items-AtMost false (rparen ∷ tokens) = omega arith
  parse_items-AtMost true (comma ∷ tokens) =
      weaken (length tokens) (suc (length tokens)) (parse_items false tokens) (omega arith)
        (parse_items-AtMost false tokens)
  parse_items-AtMost true (tok ∷ tokens) = tt
  parse_items-AtMost false (string t ∷ tokens) =
      cons_item-AtMost (length tokens) _ (parse_items true tokens) (parse_items-AtMost true tokens)
  parse_items-AtMost false (num n ∷ tokens) =
      cons_item-AtMost (length tokens) _ (parse_items true tokens) (parse_items-AtMost true tokens)
  parse_items-AtMost false (tok ∷ tokens) = tt

  as_list-AtMost :
      (n : ℕ) (r : Result QueryError (List (Scalar N) × List (Token N)))
      → AtMost n r
      → AtMost n (as_list r)
  unfolding as_list
  as_list-AtMost n (err e) h = tt
  as_list-AtMost n (ok (items, rest)) h = h

  parse_scalar-AtMost : (tokens : List (Token N)) → AtMost (length tokens) (parse_scalar tokens)
  unfolding parse_scalar
  parse_scalar-AtMost [] = tt
  parse_scalar-AtMost (ident t ∷ tokens) = omega arith
  parse_scalar-AtMost (string t ∷ tokens) = omega arith
  parse_scalar-AtMost (num n ∷ tokens) = omega arith
  parse_scalar-AtMost (tok ∷ tokens) = tt

  parse_listed-AtMost : (tokens : List (Token N)) → AtMost (length tokens) (parse_listed tokens)
  unfolding parse_listed
  parse_listed-AtMost [] = tt
  parse_listed-AtMost (lparen ∷ tokens) =
      weaken (length tokens) (suc (length tokens)) (as_list (parse_items false tokens))
        (omega arith)
        (as_list-AtMost (length tokens) (parse_items false tokens)
          (parse_items-AtMost false tokens))
  parse_listed-AtMost (tok ∷ tokens) = tt

  parse_value-AtMost :
      (o : Op) (tokens : List (Token N)) → AtMost (length tokens) (parse_value o tokens)
  unfolding parse_value
  parse_value-AtMost in_list tokens = parse_listed-AtMost tokens
  parse_value-AtMost o tokens = parse_scalar-AtMost tokens

  parse_operator-AtMost : (tokens : List (Token N)) → AtMost (length tokens) (parse_operator tokens)
  unfolding parse_operator
  parse_operator-AtMost [] = tt
  parse_operator-AtMost (op o ∷ tokens) = omega arith
  parse_operator-AtMost (ident t ∷ tokens) = elim (Bool-cases (is_word (text "IN") t)) [
    | inl listing ↦ rw (listing, parse_operator) (omega arith)
    | inr other ↦ elim (Bool-cases (is_word (text "STARTS_WITH") t)) [
      | inl prefix ↦ rw (other, prefix, parse_operator) (omega arith)
      | inr neither ↦ rw (other, neither, parse_operator) tt
    ]
  ]
  parse_operator-AtMost (tok ∷ tokens) = tt

  with_value :
      (n : ℕ) (o : Op) (found : Result QueryError (Value N × List (Token N)))
      → AtMost n found
      → Conditioned n (elim found [ err e ↦ err e | ok v ↦ ok (o, v) ])
  with_value n o (err e) h = tt
  with_value n o (ok (v, rest)) h = h

  with_operator :
      (n : ℕ) (found : Result QueryError (Op × List (Token N)))
      → AtMost n found
      → Conditioned n (elim found [
        | err e ↦ err e
        | ok (o, rest) ↦ elim (parse_value o rest) [ err e ↦ err e | ok v ↦ ok (o, v) ]
      ])
  with_operator n (err e) h = tt
  with_operator n (ok (o, rest)) h =
      with_value n o (parse_value o rest)
        (weaken (length rest) n (parse_value o rest) h (parse_value-AtMost o rest))

  parse_condition-Conditioned :
      (tokens : List (Token N)) → Conditioned (length tokens) (parse_condition tokens)
  unfolding parse_condition
  parse_condition-Conditioned tokens =
      with_operator (length tokens) (parse_operator tokens) (parse_operator-AtMost tokens)

  -- What follows a clause goes on with no more tokens than there were.
  after_clause_returns :
      (n : ℕ) (more : List (Token N) → Option (Result QueryError (Query N))) (q : Query N)
      (tokens : List (Token N))
      → length tokens ≤ n
      → ((rest : List (Token N)) → length rest ≤ n → is_some (more rest) ≡ true)
      → is_some (after_clause more q tokens) ≡ true
  unfolding after_clause
  after_clause_returns n more q [] le h = refl
  after_clause_returns n more q (ident t ∷ []) le h = ground (arith, h (ident t ∷ []) le)
  after_clause_returns n more q (ident t ∷ tok ∷ tokens) le h =
      ground (arith, h (ident t ∷ tok ∷ tokens) le, h (tok ∷ tokens) (omega (arith, le)))
  after_clause_returns n more q (tok ∷ tokens) le h = refl

module _ {N : Type 0} (show : N → Text) (fromisoformat : Text → Option ℕ) where
  clauses_return :
      (fuel : ℕ) (q : Query N) (tokens : List (Token N))
      → length tokens < fuel
      → is_some (parse_clauses show fromisoformat fuel q tokens) ≡ true
  unfolding parse_clauses
  clauses_return zero q tokens f = absurd (omega arith)
  clauses_return (suc fuel) q [] f = refl
  clauses_return (suc fuel) q (ident t ∷ tokens) f = elim (Bool-cases (is_word (text "GROUP") t)) [
    | inl group ↦ rw (group, parse_clauses) refl
    | inr other ↦ elim (Bool-cases (is_keyword t)) [
      | inl keyword ↦ rw (other, keyword, parse_clauses) refl
      | inr name ↦
          rw (other, name, parse_clauses)
            (conditioned
              (λ q' more shorter. clauses_return fuel q' more (omega (arith, f, shorter)))
              (parse_condition tokens) (parse_condition-Conditioned tokens))
    ]
  ]
    where
      applied :
          ((q' : Query N) (more : List (Token N))
            → length more ≤ length tokens
            → is_some (parse_clauses show fromisoformat fuel q' more) ≡ true)
          → (rest : List (Token N)) (r : Result QueryError (Query N)) → length rest ≤ length tokens
          → is_some (elim r [
            | err e ↦ some (err e)
            | ok q' ↦ after_clause (parse_clauses show fromisoformat fuel q') q' rest
          ])
            ≡ true
      applied go rest (err e) le = refl
      applied go rest (ok q') le =
          after_clause_returns (length tokens) (parse_clauses show fromisoformat fuel q') q' rest le
            (go q')

      conditioned :
          ((q' : Query N) (more : List (Token N))
            → length more ≤ length tokens
            → is_some (parse_clauses show fromisoformat fuel q' more) ≡ true)
          → (r : Result QueryError (Op × (Value N × List (Token N))))
          → Conditioned (length tokens) r
          → is_some (elim r [
            | err e ↦ some (err e)
            | ok (o, (v, rest)) ↦ elim (apply_clause show fromisoformat q t o v) [
              | err e ↦ some (err e)
              | ok q' ↦ after_clause (parse_clauses show fromisoformat fuel q') q' rest
            ]
          ])
            ≡ true
      conditioned go (err e) h = refl
      conditioned go (ok (o, (v, rest))) h =
          applied go rest (apply_clause show fromisoformat q t o v) h
  clauses_return (suc fuel) q (tok ∷ tokens) f = refl

  -- On every list of tokens the parser returns, with a query or an error.
  pub parse_query_returns :
      (tokens : List (Token N)) → is_some (parse_query show fromisoformat tokens) ≡ true
  unfolding parse_query
  parse_query_returns tokens = clauses_return (suc (length tokens)) new_query tokens (omega arith)
