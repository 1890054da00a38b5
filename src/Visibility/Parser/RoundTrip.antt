-- ===== src/Visibility/Parser/RoundTrip.antt =====
-- A conjunction of clauses, written as tokens, is read back clause by clause
-- (`parse_query` of dbosify/_internal/visibility.py).
use dbosify_py.Prelude.{
  ℕ, zero, suc, ◌≤◌, ◌<◌, ◌≡◌, refl, true, false, Option, some, List, [], ◌∷◌, ◌++◌, arith, length,
  length-append, ◌∙◌,
}
use dbosify_py.Prelude.Result.{Result, ok, err}
use dbosify_py.Prelude.Text.{Text, text, text_eq}
use dbosify_py.Visibility.{
  lower, Op, equal, not_equal, less, less_equal, greater, greater_equal, in_list, begins_with,
  Scalar, literal, number, boolean, Value, scalar, listed, Query, new_query, QueryError,
}
use dbosify_py.Visibility.Clauses.{apply_clause}
use dbosify_py.Visibility.Parser.{
  Token, op, lparen, rparen, comma, num, ident, string, is_word, is_keyword, ident_literal,
  parse_operator, cons_item, parse_items, parse_listed, parse_scalar, parse_value, after_clause,
  parse_condition, parse_clauses, parse_query,
}

-- A clause of a query: a comparison with one value, a prefix, or a list that is not empty.
pub data Clause (N : Type 0) : Type 0 where
  compares : (name : Text) → (o : Op) → Scalar N → Clause N
  starts_with : (name : Text) → Scalar N → Clause N
  among : (name : Text) → (items : List (Scalar N)) → Clause N

-- The operators that are written as signs.
abbrev IsSign : Op → Type 0
IsSign in_list = ⊥
IsSign begins_with = ⊥
IsSign o = Unit

module _ {N : Type 0} where
  abbrev pub print_scalar : Scalar N → Token N
  print_scalar (literal t) = string t
  print_scalar (number n) = num n
  print_scalar (boolean true) = ident (text "true")
  print_scalar (boolean false) = ident (text "false")

  abbrev pub print_items : List (Scalar N) → List (Token N)
  print_items [] = rparen ∷ []
  print_items (v ∷ []) = print_scalar v ∷ rparen ∷ []
  print_items (v ∷ w ∷ vs) = print_scalar v ∷ comma ∷ print_items (w ∷ vs)

  abbrev pub print_clause : Clause N → List (Token N)
  print_clause (compares name o v) = ident name ∷ op o ∷ print_scalar v ∷ []
  print_clause (starts_with name v) = ident name ∷ ident (text "STARTS_WITH") ∷ print_scalar v ∷ []
  print_clause (among name items) = ident name ∷ ident (text "IN") ∷ lparen ∷ print_items items

  abbrev pub print_rest : List (Clause N) → List (Token N)
  print_rest [] = []
  print_rest (c ∷ cs) = ident (text "AND") ∷ (print_clause c ++ print_rest cs)

  abbrev IsItem : Scalar N → Type 0
  IsItem (boolean b) = ⊥
  IsItem v = Unit

  abbrev AreItems : List (Scalar N) → Type 0
  AreItems [] = Unit
  AreItems (v ∷ vs) = IsItem v × AreItems vs

  abbrev pub IsPrintable : Clause N → Type 0
  IsPrintable (compares name o v) = (is_keyword name ≡ false) × IsSign o
  IsPrintable (starts_with name v) = is_keyword name ≡ false
  IsPrintable (among name items) = (is_keyword name ≡ false) × AreItems items

  abbrev pub ArePrintable : List (Clause N) → Type 0
  ArePrintable [] = Unit
  ArePrintable (c ∷ cs) = IsPrintable c × ArePrintable cs

  items_round :
      (items : List (Scalar N)) (rest : List (Token N))
      → AreItems items
      → parse_items false (print_items items ++ rest) ≡ ok (items, rest)
  unfolding parse_items cons_item
  items_round [] rest h = refl
  items_round (literal t ∷ []) rest h = refl
  items_round (number n ∷ []) rest h = refl
  items_round (boolean b ∷ vs) rest h = absurd h.0
  items_round (literal t ∷ w ∷ vs) rest h = rw (items_round (w ∷ vs) rest h.1)
  items_round (number n ∷ w ∷ vs) rest h = rw (items_round (w ∷ vs) rest h.1)

  scalar_round :
      (v : Scalar N) (rest : List (Token N))
      → parse_scalar (print_scalar v ∷ rest) ≡ ok (scalar v, rest)
  unfolding parse_scalar ident_literal lower text_eq
  scalar_round (literal t) rest = refl
  scalar_round (number n) rest = refl
  scalar_round (boolean true) rest = refl
  scalar_round (boolean false) rest = refl

  abbrev pub name_of : Clause N → Text
  name_of (compares name o v) = name
  name_of (starts_with name v) = name
  name_of (among name items) = name

  abbrev pub op_of : Clause N → Op
  op_of (compares name o v) = o
  op_of (starts_with name v) = begins_with
  op_of (among name items) = in_list

  abbrev pub value_of : Clause N → Value N
  value_of (compares name o v) = scalar v
  value_of (starts_with name v) = scalar v
  value_of (among name items) = listed items

  abbrev pub condition_of : Clause N → List (Token N)
  condition_of (compares name o v) = op o ∷ print_scalar v ∷ []
  condition_of (starts_with name v) = ident (text "STARTS_WITH") ∷ print_scalar v ∷ []
  condition_of (among name items) = ident (text "IN") ∷ lparen ∷ print_items items

  condition_round :
      (c : Clause N) (rest : List (Token N))
      → IsPrintable c
      → parse_condition (condition_of c ++ rest) ≡ ok (op_of c, (value_of c, rest))
  unfolding parse_condition parse_operator parse_value parse_listed is_word text_eq
  condition_round (compares name equal v) rest h = rw (scalar_round v rest, parse_condition)
  condition_round (compares name not_equal v) rest h = rw (scalar_round v rest, parse_condition)
  condition_round (compares name less v) rest h = rw (scalar_round v rest, parse_condition)
  condition_round (compares name less_equal v) rest h = rw (scalar_round v rest, parse_condition)
  condition_round (compares name greater v) rest h = rw (scalar_round v rest, parse_condition)
  condition_round (compares name greater_equal v) rest h = rw (scalar_round v rest, parse_condition)
  condition_round (compares name in_list v) rest h = absurd h.1
  condition_round (compares name begins_with v) rest h = absurd h.1
  condition_round (starts_with name v) rest h = rw (scalar_round v rest, parse_condition)
  condition_round (among name items) rest h = rw (items_round items rest h.1, parse_condition)

  keyword_free : (c : Clause N) → IsPrintable c → is_keyword (name_of c) ≡ false
  keyword_free (compares name o v) h = h.0
  keyword_free (starts_with name v) h = h
  keyword_free (among name items) h = h.0

  printed :
      (c : Clause N) (rest : List (Token N))
      → print_clause c ++ rest ≡ ident (name_of c) ∷ (condition_of c ++ rest)
  printed (compares name o v) rest = refl
  printed (starts_with name v) rest = refl
  printed (among name items) rest = refl

no_group : (t : Text) → is_keyword t ≡ false → is_word (text "GROUP") t ≡ false
unfolding is_keyword
no_group t h = ground arith

module _ {N : Type 0} (show : N → Text) (fromisoformat : Text → Option ℕ) where
  -- The clauses applied one after the other.
  abbrev pub apply_all : Query N → List (Clause N) → Result QueryError (Query N)
  apply_all q [] = ok q
  apply_all q (c ∷ cs) =
      elim (apply_clause show fromisoformat q (name_of c) (op_of c) (value_of c)) [
        | err e ↦ err e
        | ok q' ↦ apply_all q' cs
      ]

  join :
      (r : Result QueryError (Query N)) (next : Query N → Option (Result QueryError (Query N)))
      (last : Query N → Result QueryError (Query N))
      → ((q : Query N) → next q ≡ some (last q))
      → elim r [ err e ↦ some (err e) | ok q ↦ next q ]
        ≡ some (elim r [ err e ↦ err e | ok q ↦ last q ])
  join (err e) next last h = refl
  join (ok q) next last h = h q

  and_next :
      (more : List (Token N) → Option (Result QueryError (Query N))) (q : Query N) (d : Clause N)
      (rest : List (Token N))
      → after_clause more q (ident (text "AND") ∷ (print_clause d ++ rest))
        ≡ more (print_clause d ++ rest)
  unfolding after_clause is_word text_eq
  and_next more q (compares name o v) rest = refl
  and_next more q (starts_with name v) rest = refl
  and_next more q (among name items) rest = refl

  one_clause :
      (cs : List (Clause N)) (c : Clause N) (q : Query N) (fuel : ℕ)
      → IsPrintable c
      → ((q' : Query N)
          → after_clause (parse_clauses show fromisoformat fuel q') q' (print_rest cs)
            ≡ some (apply_all q' cs))
      → parse_clauses show fromisoformat (suc fuel) q (print_clause c ++ print_rest cs)
        ≡ some (apply_all q (c ∷ cs))
  unfolding parse_clauses
  one_clause cs c q fuel h rest =
      rw
        (
          printed c (print_rest cs),
          parse_clauses,
          no_group (name_of c) (keyword_free c h),
          keyword_free c h,
          condition_round c (print_rest cs) h,
        )
        (join (apply_clause show fromisoformat q (name_of c) (op_of c) (value_of c)) _
          (λ q'. apply_all q' cs) rest)

  clauses_round :
      (cs : List (Clause N)) (c : Clause N) (q : Query N) (fuel : ℕ)
      → ArePrintable (c ∷ cs)
      → length cs < fuel
      → parse_clauses show fromisoformat fuel q (print_clause c ++ print_rest cs)
        ≡ some (apply_all q (c ∷ cs))
  unfolding after_clause
  clauses_round cs c q zero h f = absurd (omega arith)
  clauses_round [] c q (suc fuel) h f = one_clause [] c q fuel h.0 (λ q'. refl)
  clauses_round (d ∷ ds) c q (suc fuel) h f = one_clause (d ∷ ds) c q fuel h.0 (λ q'.
      and_next (parse_clauses show fromisoformat fuel q') q' d (print_rest ds)
      ∙ clauses_round ds d q' fuel h.1 (omega arith))

  rest_long : (cs : List (Clause N)) → length cs ≤ length (print_rest cs)
  rest_long [] = omega arith
  rest_long (c ∷ cs) = rw length-append (omega (arith, rest_long cs))

  -- A conjunction of clauses, written with AND between them, is parsed into the query that results
  -- from applying the clauses in their order, or into the error of the first that is refused; no
  -- field name is a keyword, and no list holds a Boolean word.
  pub parse_query-print :
      (c : Clause N) (cs : List (Clause N))
      → ArePrintable (c ∷ cs)
      → parse_query show fromisoformat (print_clause c ++ print_rest cs)
        ≡ some (apply_all new_query (c ∷ cs))
  unfolding parse_query
  parse_query-print c cs h =
      clauses_round cs c new_query (suc (length (print_clause c ++ print_rest cs))) h
        (rw length-append (omega (arith, rest_long cs)))
