-- ===== src/Ids/RunIds.antt =====
-- Run ids name their workflow id and index: `parse_run` and `run_index_of` undo `run_dbos_id`.
use mathlib.Core.List.{append-nil, append_assoc}
use dbosify_py.Prelude.{
  ℕ, ◌+◌, ◌≡◌, ◌≢◌, refl, ap, ◌∙◌, true, false, none, some, List, [], ◌∷◌, ◌++◌, arith, ◌==◌,
  length, drop, length-append, drop-append, Bool-cases, inl, inr,
}
use dbosify_py.Prelude.Result.{ok}
use dbosify_py.Prelude.Text.{
  Text, text_eq, contains, starts_with, str, rpartition, all_digits, text_eq_refl, int-str,
  isdigit-str, all_digits-str, rpartition-append, contains-append, starts_with-append,
}
use dbosify_py.Ids.{
  run_separator, activity_separator, verify_separator, rehydrate_separator, check_separators,
  validate_workflow_id, run_dbos_id, parse_run, run_index_of,
}

rpartition-digits : (t : Text) → all_digits t ≡ true → rpartition run_separator t ≡ none
unfolding rpartition starts_with
rpartition-digits [] h = refl
rpartition-digits (c ∷ t) h = ground (arith, rpartition-digits t)

rpartition-run_separator :
    (w t : Text)
    → all_digits t ≡ true
    → rpartition run_separator (w ++ (run_separator ++ t)) ≡ some (w, t)
rpartition-run_separator w t h =
    rpartition-append run_separator (run_separator ++ t) w [] t
      (unfold rpartition starts_with in rw (rpartition-digits t h))
    ∙ rw append-nil

contains-run_separator : (w t : Text) → contains run_separator (w ++ (run_separator ++ t)) ≡ true
contains-run_separator w t =
    contains-append run_separator w (run_separator ++ t) (unfold contains starts_with in refl)

pub check_separators-contains :
    (w sep : Text) (rest : List Text)
    → check_separators w (sep ∷ rest) ≡ ok tt
    → (contains sep w ≡ false) × (check_separators w rest ≡ ok tt)
unfolding check_separators
check_separators-contains w sep rest h = ground arith

pub validate-run_separator :
    (w : Text) → validate_workflow_id w ≡ ok tt → contains run_separator w ≡ false
unfolding validate_workflow_id
validate-run_separator [] h = cc
validate-run_separator (c ∷ w) h =
    (check_separators-contains (c ∷ w) run_separator
      (activity_separator ∷ verify_separator ∷ rehydrate_separator ∷ []) h).0

parse_run-suc : (w : Text) (n : ℕ) → n ≢ 0 → parse_run (w ++ (run_separator ++ str n)) ≡ (w, n)
unfolding parse_run
parse_run-suc w n h = rw (
  contains-run_separator w (str n),
  rpartition-run_separator w (str n) (all_digits-str n),
  isdigit-str,
  int-str,
)

-- A validated workflow id and a run index are read back from the run's DBOS id.
pub parse_run-run_dbos_id :
    (w : Text) (n : ℕ) → validate_workflow_id w ≡ ok tt → parse_run (run_dbos_id w n) ≡ (w, n)
unfolding run_dbos_id
parse_run-run_dbos_id w n h = elim (Bool-cases (n == 0)) [
  | inl zero_index ↦
      unfold parse_run in
      rw (zero_index, validate-run_separator w h) (ap (λ k. (w, k)) (ground arith))
  | inr later ↦ rw later (parse_run-suc w n (ground arith))
]

text_eq_longer : (w t : Text) (c : ℕ) → text_eq (w ++ c ∷ t) w ≡ false
unfolding text_eq
text_eq_longer [] t c = refl
text_eq_longer (d ∷ w) t c = ground (arith, text_eq_longer w t c)

starts_with-run : (w t : Text) → starts_with (w ++ run_separator) (w ++ (run_separator ++ t)) ≡ true
starts_with-run w t =
    rw (← append_assoc w run_separator t) (starts_with-append (w ++ run_separator) t)

drop-run : (w t : Text) → drop (length w + length run_separator) (w ++ (run_separator ++ t)) ≡ t
drop-run w t =
    rw (← append_assoc w run_separator t, ← length-append w run_separator)
      (drop-append (w ++ run_separator) t)

run_index_of-suc : (w : Text) (n : ℕ) → run_index_of w (w ++ (run_separator ++ str n)) ≡ some n
unfolding run_index_of
run_index_of-suc w n =
    rw (text_eq_longer w _ _, starts_with-run w (str n), drop-run w (str n), isdigit-str, int-str)

-- Every run of a workflow id has its index read back, whatever the id's text.
pub run_index_of-run_dbos_id : (w : Text) (n : ℕ) → run_index_of w (run_dbos_id w n) ≡ some n
unfolding run_dbos_id
run_index_of-run_dbos_id w n = elim (Bool-cases (n == 0)) [
  | inl zero_index ↦ unfold run_index_of in rw (zero_index, text_eq_refl) (ap some (ground arith))
  | inr later ↦ rw later (run_index_of-suc w n)
]

-- Distinct run indexes of one workflow id have distinct DBOS ids.
pub run_dbos_id-injective : (w : Text) (m n : ℕ) → run_dbos_id w m ≡ run_dbos_id w n → m ≡ n
run_dbos_id-injective w m n e = cc (run_index_of-run_dbos_id w m, run_index_of-run_dbos_id w n)
