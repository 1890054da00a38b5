-- ===== src/Ids/Scratch.antt =====
-- Replay scratch ids (dbosify/_internal/ids.py): the mode is read back from the id, and no run of
-- a validated workflow id is taken for a scratch run.
use dbosify_py.Prelude.{
  ℕ, ◌≡◌, ◌≢◌, refl, true, false, ◌||◌, some, [], ◌∷◌, ◌++◌, arith, ◌==◌, Bool-cases, inl, inr,
}
use dbosify_py.Prelude.Result.{ok}
use dbosify_py.Prelude.Text.{
  Text, contains, starts_with, str, all_digits, all_digits-str, contains-append,
}
use dbosify_py.Ids.{
  run_separator, activity_separator, verify_separator, rehydrate_separator, validate_workflow_id,
  run_dbos_id, activity_dbos_id, ReplayMode, verify, rehydrate, replay_scratch_id,
  replay_scratch_mode, is_replay_scratch,
}
use dbosify_py.Ids.RunIds.{check_separators-contains}

-- A separator: two dashes and a letter.
abbrev marker : ℕ → Text
marker x = b'-' ∷ b'-' ∷ x ∷ []

-- A separator in between neither makes nor hides another one.
contains-marker :
    (x y : ℕ) (w s : Text)
    → x ≢ y
    → x ≢ b'-'
    → y ≢ b'-'
    → contains (marker x) (w ++ (marker y ++ s)) ≡ (contains (marker x) w || contains (marker x) s)
unfolding contains starts_with
contains-marker x y [] s ne dash dash' = ground arith
contains-marker x y (a ∷ []) s ne dash dash' = ground arith
contains-marker x y (a ∷ b ∷ []) s ne dash dash' = ground arith
contains-marker x y (a ∷ b ∷ c ∷ w) s ne dash dash' =
    ground (arith, contains-marker x y (b ∷ c ∷ w) s ne dash dash')

contains-marker_self : (x : ℕ) (w s : Text) → contains (marker x) (w ++ (marker x ++ s)) ≡ true
contains-marker_self x w s =
    contains-append (marker x) w (marker x ++ s) (unfold contains starts_with in ground arith)

contains-digits : (x : ℕ) (t : Text) → all_digits t ≡ true → contains (marker x) t ≡ false
unfolding contains starts_with
contains-digits x [] h = refl
contains-digits x (c ∷ t) h = ground (arith, contains-digits x t)

-- The mode of a scratch id is read back from the id alone, where neither the run id nor the unique
-- suffix holds the separator of verification.
pub replay_scratch_mode-replay_scratch_id :
    (run suffix : Text) (mode : ReplayMode)
    → contains verify_separator run ≡ false
    → contains verify_separator suffix ≡ false
    → replay_scratch_mode (replay_scratch_id run mode suffix) ≡ some mode
unfolding replay_scratch_mode replay_scratch_id
replay_scratch_mode-replay_scratch_id run suffix verify r s =
    rw (contains-marker_self b'v' run suffix)
replay_scratch_mode-replay_scratch_id run suffix rehydrate r s = rw (
  contains-marker b'v' b'q' run suffix (omega arith) (omega arith) (omega arith),
  r,
  s,
  contains-marker_self b'q' run suffix,
)

abbrev NoScratch : Text → Type 0
NoScratch w = (contains verify_separator w ≡ false) × (contains rehydrate_separator w ≡ false)

validate-NoScratch : (w : Text) → validate_workflow_id w ≡ ok tt → NoScratch w
unfolding validate_workflow_id
validate-NoScratch [] h = cc
validate-NoScratch (c ∷ w) h =
    let last = rehydrate_separator ∷ [] in
    let later = verify_separator ∷ last in
    let run = check_separators-contains (c ∷ w) run_separator (activity_separator ∷ later) h in
    let activity = check_separators-contains (c ∷ w) activity_separator later run.1 in
    let first = check_separators-contains (c ∷ w) verify_separator last activity.1 in
    (first.0, (check_separators-contains (c ∷ w) rehydrate_separator [] first.1).0)

NoScratch-append :
    (y seq : ℕ) (w : Text)
    → y ≢ b'v'
    → y ≢ b'q'
    → y ≢ b'-'
    → NoScratch w
    → NoScratch (w ++ (marker y ++ str seq))
NoScratch-append y seq w v q dash h = (
  rw (contains-marker b'v' y w (str seq) (omega arith) (omega arith) dash, h.0)
      (contains-digits b'v' (str seq) (all_digits-str seq)),
  rw (contains-marker b'q' y w (str seq) (omega arith) (omega arith) dash, h.1)
      (contains-digits b'q' (str seq) (all_digits-str seq)),
)

NoScratch-run_dbos_id : (w : Text) (n : ℕ) → NoScratch w → NoScratch (run_dbos_id w n)
unfolding run_dbos_id
NoScratch-run_dbos_id w n h = elim (Bool-cases (n == 0)) [
  | inl first ↦ rw first h
  | inr later ↦ rw later (NoScratch-append b'r' n w (omega arith) (omega arith) (omega arith) h)
]

is_replay_scratch-NoScratch : (w : Text) → NoScratch w → is_replay_scratch w ≡ false
unfolding is_replay_scratch replay_scratch_mode
is_replay_scratch-NoScratch w h = rw (h.0, h.1)

-- Of a validated workflow id, neither a run nor an activity of a run is taken for a scratch run.
pub run_not_scratch :
    (w : Text) (n seq : ℕ)
    → validate_workflow_id w ≡ ok tt
    → (is_replay_scratch (run_dbos_id w n) ≡ false)
      × (is_replay_scratch (activity_dbos_id (run_dbos_id w n) seq) ≡ false)
unfolding activity_dbos_id
run_not_scratch w n seq h =
    let run = NoScratch-run_dbos_id w n (validate-NoScratch w h) in
    (
      is_replay_scratch-NoScratch (run_dbos_id w n) run,
      is_replay_scratch-NoScratch (run_dbos_id w n ++ (marker b'a' ++ str seq)) (
          NoScratch-append b'a' seq (run_dbos_id w n) (omega arith) (omega arith) (omega arith)
            run),
    )
