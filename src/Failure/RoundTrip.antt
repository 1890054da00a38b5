-- ===== src/Failure/RoundTrip.antt =====
-- A failure envelope (dbosify/_internal/payloads.py) rebuilds the exception that it was made from.
use mathlib.Core.Option
use dbosify_py.Prelude.{
  String, ◌≡◌, refl, Bool, true, false, Option, none, some, List, [], ◌∷◌, map, arith, ap, ◌∙◌,
}
use dbosify_py.Prelude.Result.{ok}
use dbosify_py.Failure.{
  TimeoutType, RetryState, Category, unspecified, Kind, application, cancelled, terminated,
  timed_out, activity, child, server, asyncio_cancelled, other, Exc, exc, Link, no_link, link,
  Cause, no_cause, timeout_type_int, timeout_type_of, retry_state_int, retry_state_of, category_int,
  category_of, enum_or_none, serialize_kind, serialize_failure, serialize_cause, serialize_link,
  deserialize_kind, deserialize_failure, deserialize_cause,
}

-- An exception's class and fields as they are read back: the values in its details went through the
-- converter, the event ids are 0, and one that the envelope has no class for is an ApplicationError
-- that has the class name for its type.
abbrev pub coerced : {V : Type 0} → (V → V) → Kind V → Kind V
coerced converted (application m t ds nr c delay) = application m t (map converted ds) nr c delay
coerced converted (cancelled m ds) = cancelled m (map converted ds)
coerced converted (terminated m ds) = terminated m (map converted ds)
coerced converted (timed_out m t ds) = timed_out m t (map converted ds)
coerced converted (activity m at aid i x y rs) = activity m at aid i 0 0 rs
coerced converted (child m ns w r wt x y rs) = child m ns w r wt 0 0 rs
coerced converted (server m nr) = server m nr
coerced converted (asyncio_cancelled m) =
    application m (some "CancelledError") [] false unspecified none
coerced converted (other name m) = application m (some name) [] false unspecified none

-- An exception as the reader sees it: its explicit cause, or else its context unless that is
-- suppressed, is the explicit cause; there is no traceback.
abbrev pub chained : {V : Type 0} → Kind V → Link V → Exc V
chained k no_link = exc k none no_link no_link false
chained k (link e) = exc k none (link e) no_link true

unfoldable mutual
  pub rebuilt : {V : Type 0} → (V → V) → Exc V → Exc V
  rebuilt converted (exc k trace cause context suppress) = chained (coerced converted k) (
      rebuilt_cause converted cause
        (elim suppress [ true ↦ no_link | false ↦ rebuilt_link converted context ]))

  pub rebuilt_cause : {V : Type 0} → (V → V) → Link V → Link V → Link V
  rebuilt_cause converted no_link fallback = fallback
  rebuilt_cause converted (link e) fallback = link (rebuilt converted e)

  pub rebuilt_link : {V : Type 0} → (V → V) → Link V → Link V
  rebuilt_link converted no_link = no_link
  rebuilt_link converted (link e) = link (rebuilt converted e)

timeout_type_round :
    (t : Option TimeoutType) → enum_or_none timeout_type_of (Option.map timeout_type_int t) ≡ ok t
unfolding enum_or_none timeout_type_of timeout_type_int
timeout_type_round t = ground arith

retry_state_round :
    (t : Option RetryState) → enum_or_none retry_state_of (Option.map retry_state_int t) ≡ ok t
unfolding enum_or_none retry_state_of retry_state_int
retry_state_round t = ground arith

category_round : (c : Category) → enum_or_none category_of (some (category_int c)) ≡ ok (some c)
unfolding enum_or_none category_of category_int
category_round c = ground arith

-- A value as it is read back.
abbrev pub through : {V P : Type 0} → (V → P) → (P → V) → V → V
through encode decode v = decode (encode v)

module _ {V P : Type 0} (encode : V → P) (decode : P → V) where
  values_round : (vs : List V) → map decode (map encode vs) ≡ map (through encode decode) vs
  values_round [] = refl
  values_round (v ∷ vs) = cc (values_round vs)

  kind_round :
      (k : Kind V) (trace : Option String)
      → deserialize_kind decode (serialize_kind encode k trace)
        ≡ ok (coerced (through encode decode) k)
  unfolding deserialize_kind serialize_kind
  kind_round (application m t ds nr c delay) trace = rw (category_round, values_round)
  kind_round (cancelled m ds) trace = rw values_round
  kind_round (terminated m ds) trace = rw values_round
  kind_round (timed_out m t ds) trace = rw (timeout_type_round, values_round)
  kind_round (activity m at aid i x y rs) trace = rw retry_state_round
  kind_round (child m ns w r wt x y rs) trace = rw retry_state_round
  kind_round (server m nr) trace = refl
  kind_round (asyncio_cancelled m) trace = refl
  kind_round (other name m) trace = refl

mutual
  unfolding serialize_failure deserialize_failure rebuilt

  failure_round :
      {V P : Type 0} (encode : V → P) (decode : P → V) (e : Exc V)
      → deserialize_failure decode (serialize_failure encode e)
        ≡ ok (rebuilt (through encode decode) e)
  failure_round encode decode (exc k trace cause context true) =
      rw (kind_round encode decode k trace) (
        cause_round encode decode cause no_cause no_link (λ _. refl)
          (coerced (through encode decode) k))
  failure_round encode decode (exc k trace cause context false) =
      rw (kind_round encode decode k trace) (
        cause_round encode decode cause (serialize_link encode context)
          (rebuilt_link (through encode decode) context) (λ k'. link_round encode decode context k')
          (coerced (through encode decode) k))

  cause_round :
      {V P : Type 0} (encode : V → P) (decode : P → V) (cause : Link V) (fallback : Cause P)
      (l : Link V)
      → ((k : Kind V) → deserialize_cause decode k fallback ≡ ok (chained k l))
      → (k : Kind V)
      → deserialize_cause decode k (serialize_cause encode cause fallback)
        ≡ ok (chained k (rebuilt_cause (through encode decode) cause l))
  cause_round encode decode no_link fallback l h k = h k
  cause_round encode decode (link e) fallback l h k = rw (failure_round encode decode e)

  link_round :
      {V P : Type 0} (encode : V → P) (decode : P → V) (context : Link V) (k : Kind V)
      → deserialize_cause decode k (serialize_link encode context)
        ≡ ok (chained k (rebuilt_link (through encode decode) context))
  link_round encode decode no_link k = refl
  link_round encode decode (link e) k = rw (failure_round encode decode e)

-- A class that the envelope has, with values that the converter reads back as they were, and with the
-- event ids 0.
abbrev pub IsModelled : {V : Type 0} → (V → V) → Kind V → Type 0
IsModelled converted (application m t ds nr c delay) = map converted ds ≡ ds
IsModelled converted (cancelled m ds) = map converted ds ≡ ds
IsModelled converted (terminated m ds) = map converted ds ≡ ds
IsModelled converted (timed_out m t ds) = map converted ds ≡ ds
IsModelled converted (activity m at aid i x y rs) = (x ≡ 0) × (y ≡ 0)
IsModelled converted (child m ns w r wt x y rs) = (x ≡ 0) × (y ≡ 0)
IsModelled converted (server m nr) = Unit
IsModelled converted (asyncio_cancelled m) = ⊥
IsModelled converted (other name m) = ⊥

abbrev pub has_link : {V : Type 0} → Link V → Bool
has_link no_link = false
has_link (link e) = true

-- An exception of modelled classes alone that was not raised, down an explicit chain of causes.
unfoldable mutual
  pub IsExact : {V : Type 0} → (V → V) → Exc V → Type 0
  IsExact converted (exc k trace cause context suppress) =
      IsModelled converted k
      × (trace ≡ none)
      × (context ≡ no_link)
      × (suppress ≡ has_link cause)
      × IsExactLink converted cause

  pub IsExactLink : {V : Type 0} → (V → V) → Link V → Type 0
  IsExactLink converted no_link = Unit
  IsExactLink converted (link e) = IsExact converted e

coerced-IsModelled :
    {V : Type 0} (converted : V → V) (k : Kind V) → IsModelled converted k → coerced converted k ≡ k
coerced-IsModelled converted (application m t ds nr c delay) h = rw h
coerced-IsModelled converted (cancelled m ds) h = rw h
coerced-IsModelled converted (terminated m ds) h = rw h
coerced-IsModelled converted (timed_out m t ds) h = rw h
coerced-IsModelled converted (activity m at aid i x y rs) h = rw (h.0, h.1)
coerced-IsModelled converted (child m ns w r wt x y rs) h = rw (h.0, h.1)
coerced-IsModelled converted (server m nr) h = refl
coerced-IsModelled converted (asyncio_cancelled m) h = absurd h
coerced-IsModelled converted (other name m) h = absurd h

rebuilt-IsExact :
    {V : Type 0} (converted : V → V) (e : Exc V) → IsExact converted e → rebuilt converted e ≡ e
unfolding rebuilt IsExact
rebuilt-IsExact converted (exc k trace no_link context suppress) h =
    rw (h.3, h.2, h.1, coerced-IsModelled converted k h.0)
rebuilt-IsExact converted (exc k trace (link e) context suppress) h =
    rw (h.3, h.2, h.1, coerced-IsModelled converted k h.0, rebuilt-IsExact converted e h.4)

module _ {V P : Type 0} (encode : V → P) (decode : P → V) where
  -- Every exception reads back from its envelope as what a reader sees of it, all along its chain
  -- of causes; the values in details are what the converter makes of them, and event ids are lost.
  pub deserialize-serialize :
      (e : Exc V)
      → deserialize_failure decode (serialize_failure encode e)
        ≡ ok (rebuilt (through encode decode) e)
  deserialize-serialize e = failure_round encode decode e

  -- An exception of the modelled classes with explicit causes, no event ids, and values that the
  -- converter reads back as they were, reads back as an equal exception.
  pub deserialize-serialize_exact :
      (e : Exc V)
      → IsExact (through encode decode) e
      → deserialize_failure decode (serialize_failure encode e) ≡ ok e
  deserialize-serialize_exact e h =
      failure_round encode decode e ∙ ap ok (rebuilt-IsExact (through encode decode) e h)
