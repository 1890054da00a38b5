-- ===== src/Interpreter/Activities/Tracked.antt =====
-- What is kept of an activity in every state (dbosify/_internal/interpreter.py), and how the parts of
-- a state that it reads change with an update, a removal and a launch.
pub mod Parts
pub mod Parked
pub mod Timed
pub mod Windows
pub mod Completed
pub mod Ended
pub mod Delivered
pub mod Started
pub mod Reached
pub mod Swept
pub mod Looped
use dbosify_py.Prelude.{
  ℕ, suc, ◌+◌, ◌≡◌, refl, ap, Bool, true, false, not, ◌&&◌, ◌||◌, Option, none, some, List, [], ◌∷◌,
  ◌++◌, any, keep, ◌==◌, if◌then◌else◌, is_some, is_none, ltb, arith, Bool-cases, Option-cases, inl,
  inr, ==_iff,
}
use dbosify_py.Interpreter.Activities.{
  WaiterKind, inbox, activity, q_activity, act_s2c, act_hb, Waiter, kind_eq, waiter_eq,
  ActivityExec, Resolution, ActivityState, find, without_seq, put,
}
use dbosify_py.Interpreter.Activities.Attempts.{async_pending_by_id}
use dbosify_py.Interpreter.Activities.Delivery.{remove}
use dbosify_py.Prelude.Text.{Text, text_eq}

unfoldable pub mem : ℕ → List ℕ → Bool
mem k [] = false
mem k (j ∷ ks) = j == k || mem k ks

abbrev pub count : {P : Type 0} → ℕ → List (ℕ × Resolution P) → ℕ
count k [] = 0
count k ((j, r) ∷ rows) = (if j == k then 1 else 0) + count k rows

abbrev pub at : ℕ → WaiterKind → Waiter
at k kind = record { kind = kind; seq = k }

unfoldable pub waits : WaiterKind → ℕ → List Waiter → Bool
unfolding kind_eq
waits kind k [] = false
waits kind k (w ∷ ws) = waiter_eq w (record { kind = kind; seq = k }) || waits kind k ws

-- A parked activity has the timers of its bounds; any other has an attempt, a backoff or a queued
-- run under way.
unfoldable pub is_armed : {P : Type 0} → ActivityExec P → (attempt queued park window : Bool) → Bool
is_armed e attempt queued park window =
    if e.async_pending
    then (not (is_some e.start_to_close || is_some e.schedule_to_close) || park)
      && (not (is_some e.heartbeat_timeout) || window)
    else attempt || queued

-- No other execution has the number.
unfoldable pub single : {P : Type 0} → ℕ → List (ActivityExec P) → Bool
single k [] = true
single k (e ∷ es) = if e.seq == k then is_none (find k es) else single k es

-- The future of an activity is resolved `n` times in all: `ends` times so far, and once more while it
-- is open. An open one is commanded or armed, and no sweep is due for it; one that is cancelled is
-- due. Nothing is due for a number that was not given.
unfoldable pub tracked :
    {P : Type 0} (n : ℕ)
    → (only : Bool) → Option (ActivityExec P)
    → (ends : ℕ) → (commanded due attempt queued park window : Bool) → Bool
unfolding is_armed
tracked n only none ends commanded due attempt queued park window =
    only && ends == n && (not due || ltb 0 n)
tracked n only (some e) ends commanded due attempt queued park window =
    only
    && (if e.future_cancelled
        then ends == n && due && ltb 0 n
        else suc ends == n
          && not due
          && (commanded && not e.async_pending || is_armed e attempt queued park window))

-- What is due and what is commanded is told by the lists of the state; the list of the cancelled may
-- have to pass a test too, and some waiters are counted as if they were still there.
abbrev pub TrackedBy :
    {P : Type 0}
    → (due : List ℕ → Bool) → (calm : List ℕ → ℕ → Bool) → (cmd : List ℕ → Bool) → List Waiter
    → (n k : ℕ) → ActivityState P
    → Type 0
TrackedBy due calm cmd extra n k st =
    tracked n (calm st.cancelled_activity_seqs st.last_seq && single k st.pending_activities)
      (find k st.pending_activities) (count k st.resolved) (cmd st.commands)
      (due st.cancelled_activity_seqs) (waits activity k (extra ++ st.waiters))
      (waits q_activity k (extra ++ st.waiters)) (waits act_s2c k (extra ++ st.waiters))
      (waits act_hb k (extra ++ st.waiters))
    ≡ true

-- The number that was given last.
abbrev pub last_is : ℕ → List ℕ → ℕ → Bool
last_is last ks l = l == last

abbrev pub Tracked : {P : Type 0} → (last n k : ℕ) → ActivityState P → Type 0
Tracked last n k st = TrackedBy (mem k) (last_is last) (mem k) [] n k st

abbrev pub never : List ℕ → Bool
never ks = false

abbrev pub is_nil : List ℕ → Bool
is_nil [] = true
is_nil (k ∷ ks) = false

abbrev pub swept_at : ℕ → List ℕ → ℕ → Bool
swept_at last ks l = is_nil ks && l == last

-- Behind a sweep nothing is due.
abbrev pub Calm :
    {P : Type 0} → List Waiter → (List ℕ → ℕ → Bool) → (n k : ℕ) → ActivityState P → Type 0
Calm extra calm n k st = TrackedBy never calm (mem k) extra n k st

pub mem-append : (k : ℕ) (xs ys : List ℕ) → mem k (xs ++ ys) ≡ (mem k xs || mem k ys)
unfolding mem
mem-append k [] ys = refl
mem-append k (x ∷ xs) ys = ground (arith, mem-append k xs ys)

pub waits-append :
    (kind : WaiterKind) (k : ℕ) (vs ws : List Waiter)
    → waits kind k (vs ++ ws) ≡ (waits kind k vs || waits kind k ws)
unfolding waits
waits-append kind k [] ws = refl
waits-append kind k (v ∷ vs) ws = ground (arith, waits-append kind k vs ws)

pub waits_launch :
    (kind added : WaiterKind) (k j : ℕ) (ws : List Waiter)
    → waits kind k (ws ++ (record { kind = added; seq = j }) ∷ [])
      ≡ (waits kind k ws || (kind_eq added kind && j == k))
unfolding waits
waits_launch kind added k j [] = ground arith
waits_launch kind added k j (w ∷ ws) = ground (arith, waits_launch kind added k j ws)

-- A waiter that is launched, and counted before.
pub waits_moved :
    (kind added : WaiterKind) (k j : ℕ) (vs ws : List Waiter)
    → (j == k) ≡ true
    → waits kind k (vs ++ (ws ++ (record { kind = added; seq = j }) ∷ []))
      ≡ waits kind k ((record { kind = added; seq = k }) ∷ (vs ++ ws))
unfolding waits
waits_moved kind added k j [] ws same = ground (arith, waits_launch kind added k j ws)
waits_moved kind added k j (v ∷ vs) ws same = ground (arith, waits_moved kind added k j vs ws same)

module _ {P : Type 0} where
  pub count-append :
      (k : ℕ) (xs ys : List (ℕ × Resolution P)) → count k (xs ++ ys) ≡ count k xs + count k ys
  count-append k [] ys = omega arith
  count-append k ((j, r) ∷ xs) ys = omega (arith, count-append k xs ys)

  pub find-seq :
      (k : ℕ) (es : List (ActivityExec P)) (e : ActivityExec P) → find k es ≡ some e → e.seq ≡ k
  unfolding find
  find-seq k [] e h = ground arith
  find-seq k (x ∷ es) e h = ground (arith, find-seq k es e)

  pub find-without_seq :
      (k j : ℕ) (es : List (ActivityExec P))
      → find k (without_seq j es) ≡ (if j == k then none else find k es)
  unfolding find without_seq
  find-without_seq k j [] = ground arith
  find-without_seq k j (x ∷ es) = ground (arith, find-without_seq k j es)

  abbrev pub replaced : Option (ActivityExec P) → ActivityExec P → Option (ActivityExec P)
  replaced none e = none
  replaced (some x) e = some e

  pub find-put :
      (k : ℕ) (e : ActivityExec P) (es : List (ActivityExec P))
      → find k (put e es) ≡ (if e.seq == k then replaced (find k es) e else find k es)
  unfolding find put
  find-put k e [] = ground arith
  find-put k e (x ∷ es) = ground (arith, find-put k e es)

  pub single-without_seq :
      (k j : ℕ) (es : List (ActivityExec P)) → single k (without_seq j es) ≡ (j == k || single k es)
  unfolding single find without_seq
  single-without_seq k j [] = ground arith
  single-without_seq k j (x ∷ es) =
      ground (arith, single-without_seq k j es, find-without_seq k j es)

  pub single-put :
      (k : ℕ) (e : ActivityExec P) (es : List (ActivityExec P)) → single k (put e es) ≡ single k es
  unfolding single find put
  single-put k e [] = refl
  single-put k e (x ∷ es) = ground (arith, single-put k e es, find-put k e es)

  pub async_pending_by_id-found :
      (id : Text) (e : ActivityExec P) (es : List (ActivityExec P))
      → async_pending_by_id id es ≡ some e
      → (is_some (find e.seq es) ≡ true) × (e.async_pending ≡ true)
  unfolding find async_pending_by_id
  async_pending_by_id-found id e [] h = ground arith
  async_pending_by_id-found id e (x ∷ es) h = ground (arith, async_pending_by_id-found id e es)

  pub find-async_pending_by_id :
      (id : Text) (e : ActivityExec P) (es : List (ActivityExec P))
      → async_pending_by_id id es ≡ some e
      → single e.seq es ≡ true
      → find e.seq es ≡ some e
  unfolding single find async_pending_by_id
  find-async_pending_by_id id e [] h s = ground arith
  find-async_pending_by_id id e (x ∷ es) h s =
      ground (arith, find-async_pending_by_id id e es, async_pending_by_id-found id e es)

  abbrev pub first_of : Option (ActivityExec P) → Option (ActivityExec P) → Option (ActivityExec P)
  first_of none o = o
  first_of (some x) o = some x

  pub find-append :
      (k : ℕ) (xs ys : List (ActivityExec P)) → find k (xs ++ ys) ≡ first_of (find k xs) (find k ys)
  unfolding find
  find-append k [] ys = refl
  find-append k (x ∷ xs) ys = ground (arith, find-append k xs ys)

kind_eq→eq : (a b : WaiterKind) → kind_eq a b ≡ true → a ≡ b
unfolding kind_eq
kind_eq→eq inbox b h = ground arith
kind_eq→eq activity b h = ground arith
kind_eq→eq q_activity b h = ground arith
kind_eq→eq act_s2c b h = ground arith
kind_eq→eq act_hb b h = ground arith

waiter_eq→eq : (v w : Waiter) → waiter_eq v w ≡ true → (v.kind ≡ w.kind) × (v.seq ≡ w.seq)
waiter_eq→eq v w h = ground (arith, kind_eq→eq v.kind w.kind)

-- A waiter that is taken out, and counted as if it were there.
pub waits-remove :
    (kind : WaiterKind) (k : ℕ) (w : Waiter) (ws rest : List Waiter)
    → remove w ws ≡ some rest
    → waits kind k (w ∷ rest) ≡ waits kind k ws
unfolding waits remove
waits-remove kind k w [] rest h = ground arith
waits-remove kind k w (v ∷ ws) rest h = elim (Bool-cases (waiter_eq v w)) [
  | inl same ↦ ground (arith, waiter_eq→eq v w same)
  | inr other ↦ elim (Option-cases (remove w ws)) [
    | inl missing ↦ ground arith
    | inr (left, found) ↦ ground (arith, waits-remove kind k w ws left found)
  ]
]

module _ {P : Type 0} where
  pub single-append :
      (k : ℕ) (e : ActivityExec P) (es : List (ActivityExec P))
      → single k (es ++ e ∷ []) ≡ (single k es && not (e.seq == k && is_some (find k es)))
  unfolding single find
  single-append k e [] = ground arith
  single-append k e (x ∷ es) = ground (arith, single-append k e es, find-append k es (e ∷ []))
