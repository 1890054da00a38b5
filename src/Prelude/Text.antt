-- ===== src/Prelude/Text.antt =====
-- Texts as lists of code points (ASCII), with the `str` operations that the program uses:
-- `==`, `startswith`, `in`, `rpartition`, `isdigit`, `int` and `str` of a number.
use Prim.Native.Char.{code}
use Prim.Native.String.{String}
use Prim.Native.Nat.{ℕ, zero, suc, ◌+◌, ◌-◌, ◌*◌, ◌/◌, ◌%◌, ◌<◌}
use mathlib.Core.Path.{◌≡◌, refl, ap}
use mathlib.Core.Bool.{Bool, true, false, ◌&&◌, ◌||◌}
use mathlib.Core.Option.{Option, none, some}
use mathlib.Core.List.{List, [], ◌∷◌, ◌++◌}
use mathlib.Core.Logic.{◌≢◌, inl, inr}
use native.Mathlib.Omega.{arith}
use dbosify_py.Prelude.Lists.{length, drop}
use dbosify_py.Prelude.Tests.{ltb, leb, ◌==◌, if◌then◌else◌, Bool-cases}

abbrev pub Text : Type 0
Text = List ℕ

abbrev pub text : String → Text
text String.[] = []
text (String.◌∷◌ c s) = code c ∷ text s

unfoldable pub text_eq : Text → Text → Bool
text_eq [] [] = true
text_eq [] (d ∷ t) = false
text_eq (c ∷ s) [] = false
text_eq (c ∷ s) (d ∷ t) = c == d && text_eq s t

pub text_eq_refl : (s : Text) → text_eq s s ≡ true
unfolding text_eq
text_eq_refl [] = refl
text_eq_refl (c ∷ s) = ground (arith, text_eq_refl s)

pub text_eq→eq : (s t : Text) → text_eq s t ≡ true → s ≡ t
unfolding text_eq
text_eq→eq [] [] h = refl
text_eq→eq [] (d ∷ t) h = ground arith
text_eq→eq (c ∷ s) [] h = ground arith
text_eq→eq (c ∷ s) (d ∷ t) h = ground (arith, text_eq→eq s t)

pub text_eq_sym : (s t : Text) → text_eq s t ≡ false → text_eq t s ≡ false
text_eq_sym s t h = elim (Bool-cases (text_eq t s)) [
  | inl same ↦ absurd (cc (h, ap (text_eq s) (text_eq→eq t s same), text_eq_refl s))
  | inr other ↦ other
]

-- `s.startswith(p)`
unfoldable pub starts_with : Text → Text → Bool
starts_with [] s = true
starts_with (c ∷ p) [] = false
starts_with (c ∷ p) (d ∷ s) = c == d && starts_with p s

pub starts_with-append : (p s : Text) → starts_with p (p ++ s) ≡ true
unfolding starts_with
starts_with-append [] s = refl
starts_with-append (c ∷ p) s = ground (arith, starts_with-append p s)

-- `p in s`
unfoldable pub contains : Text → Text → Bool
contains p [] = starts_with p []
contains p (c ∷ s) = starts_with p (c ∷ s) || contains p s

abbrev pub is_digit : ℕ → Bool
is_digit c = leb 48 c && leb c 57

abbrev pub all_digits : Text → Bool
all_digits [] = true
all_digits (c ∷ s) = is_digit c && all_digits s

-- `s.isdigit()`: false on the empty text.
unfoldable pub isdigit : Text → Bool
isdigit [] = false
isdigit (c ∷ s) = all_digits (c ∷ s)

-- `int(s)` of digits
unfoldable pub read_from : ℕ → Text → ℕ
read_from acc [] = acc
read_from acc (c ∷ s) = read_from (acc * 10 + (c - 48)) s

abbrev pub int : Text → ℕ
int s = read_from 0 s

-- `str(n)`: the digits, last first; `n` rounds suffice.
unfoldable pub digits_onto : ℕ → ℕ → Text → Text
digits_onto zero n out = out
digits_onto (suc fuel) n out = elim (ltb n 10) [
  | true ↦ (48 + n) ∷ out
  | false ↦ digits_onto fuel (n / 10) ((48 + n % 10) ∷ out)
]

abbrev pub str : ℕ → Text
str n = digits_onto (suc n) n []

pub read_from-digits_onto :
    (fuel n : ℕ) (out : Text) → n < fuel → read_from 0 (digits_onto fuel n out) ≡ read_from n out
unfolding read_from digits_onto
read_from-digits_onto zero n out h = absurd (omega arith)
read_from-digits_onto (suc fuel) n out h =
    ground (arith, read_from-digits_onto fuel (n / 10) ((48 + n % 10) ∷ out))

pub int-str : (n : ℕ) → int (str n) ≡ n
unfolding read_from
int-str n = read_from-digits_onto (suc n) n [] (omega arith)

-- A text of digits stays one as `str` puts digits in front.
all_digits-digits_onto :
    (fuel n : ℕ) (out : Text)
    → n < fuel
    → all_digits out ≡ true
    → all_digits (digits_onto fuel n out) ≡ true
unfolding digits_onto
all_digits-digits_onto zero n out h d = absurd (omega arith)
all_digits-digits_onto (suc fuel) n out h d =
    ground (arith, all_digits-digits_onto fuel (n / 10) ((48 + n % 10) ∷ out))

isdigit_of_all : (t : Text) → all_digits t ≡ true → t ≢ [] → isdigit t ≡ true
unfolding isdigit
isdigit_of_all [] h ne = absurd (ne refl)
isdigit_of_all (c ∷ t) h ne = h

digits_onto-ne-nil : (fuel n : ℕ) (out : Text) → out ≢ [] → digits_onto fuel n out ≢ []
unfolding digits_onto
digits_onto-ne-nil zero n out h = h
digits_onto-ne-nil (suc fuel) n out h =
    ground (arith, digits_onto-ne-nil fuel (n / 10) ((48 + n % 10) ∷ out))

str-ne-nil : (n : ℕ) → str n ≢ []
unfolding digits_onto
str-ne-nil n = ground (arith, digits_onto-ne-nil n (n / 10) ((48 + n % 10) ∷ []))

pub all_digits-str : (n : ℕ) → all_digits (str n) ≡ true
all_digits-str n = all_digits-digits_onto (suc n) n [] (omega arith) refl

pub isdigit-str : (n : ℕ) → isdigit (str n) ≡ true
isdigit-str n = isdigit_of_all (str n) (all_digits-str n) (str-ne-nil n)

-- `s.rpartition(sep)` for a separator that is not empty: the text before and behind its last
-- occurrence; `none` where it does not occur.
unfoldable pub rpartition : Text → Text → Option (Text × Text)
rpartition sep [] = none
rpartition sep (c ∷ s) = elim (rpartition sep s) [
  | some (before, behind) ↦ some (c ∷ before, behind)
  | none ↦ if starts_with sep (c ∷ s) then some ([], drop (length sep) (c ∷ s)) else none
]

-- Text in front moves the last occurrence and keeps what is behind it.
pub rpartition-append :
    (sep s w before behind : Text)
    → rpartition sep s ≡ some (before, behind)
    → rpartition sep (w ++ s) ≡ some (w ++ before, behind)
unfolding rpartition
rpartition-append sep s [] before behind h = h
rpartition-append sep s (c ∷ w) before behind h =
    ground (arith, rpartition-append sep s w before behind)

pub contains-append : (p w s : Text) → contains p s ≡ true → contains p (w ++ s) ≡ true
unfolding contains
contains-append p [] s h = h
contains-append p (c ∷ w) s h = ground (arith, contains-append p w s h)
