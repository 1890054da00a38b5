-- ===== src/Interpreter/Activities.antt =====
-- Activities in dbosify/_internal/interpreter.py: the state that they share, their start and the
-- request to cancel them. Times are ticks of a millisecond. A future that is resolved is a row of
-- `resolved`, and what is done to the outside a row of `effects`. The schedule-to-start bound and
-- the arguments only pass through, and are left out.
pub mod Attempts
pub mod Delivery
pub mod Loop
pub mod Tracked
pub mod Races
use dbosify_py.Prelude.{
  ℕ, ◌+◌, Bool, true, false, not, ◌&&◌, ◌||◌, String, Option, none, some, List, [], ◌∷◌, ◌++◌, map,
  any, keep, ◌==◌, if◌then◌else◌, is_none, is_some,
}
use dbosify_py.Prelude.Result.{Result, ok, err}
use dbosify_py.Prelude.Text.{Text, text_eq, str}
use dbosify_py.Failure.{Envelope, RetryState, TimeoutType, start_to_close}
use dbosify_py.Retry.{RetryPolicy, default_policy, PolicyError, validate, Bound}

pub data WaiterKind : Type 0 where
  inbox activity q_activity act_s2c act_hb : WaiterKind

pub record Waiter : Type 0 where
  pub kind : WaiterKind
  pub seq : ℕ

unfoldable pub kind_eq : WaiterKind → WaiterKind → Bool
kind_eq inbox inbox = true
kind_eq activity activity = true
kind_eq q_activity q_activity = true
kind_eq act_s2c act_s2c = true
kind_eq act_hb act_hb = true
kind_eq _ _ = false

abbrev pub waiter_eq : Waiter → Waiter → Bool
waiter_eq v w = kind_eq v.kind w.kind && v.seq == w.seq

-- `_ActivityExec`; `future_cancelled` is the state of its future.
pub record ActivityExec (P : Type 0) : Type 0 where
  pub seq : ℕ
  pub activity_name : String
  pub activity_id : Text
  pub retry_policy : RetryPolicy
  pub start_to_close : Option ℕ
  pub schedule_to_close : Option ℕ
  pub heartbeat_timeout : Option ℕ
  pub scheduled_at : ℕ
  pub cancellation_type : ℕ
  pub attempt : ℕ
  pub in_backoff : Bool
  pub pending_wait : ℕ
  pub last_failure : Option (Envelope P)
  pub cancel_requested : Bool
  pub async_pending : Bool
  pub async_park_timeout_type : TimeoutType
  pub async_hb_seen : Bool
  pub task_queue : Option String
  pub queued_dbos_id : Option Text
  pub future_cancelled : Bool

-- How a future ends: the result, a cancellation, the ActivityError by its cause and retry state,
-- or the error of a schedule that failed. `wrapped` is a cause inside a schedule-to-close timeout.
pub data Resolution (P : Type 0) : Type 0 where
  result : P → Resolution P
  cancelled : Resolution P
  activity_error : Envelope P → Option RetryState → (wrapped : Bool) → Resolution P
  schedule_error : Resolution P

pub data Effect : Type 0 where
  run_attempt : (seq attempt : ℕ) → (deadline : Option ℕ) → Bound → Effect
  enqueue_activity : (queue : String) → (dbos_id : Text) → Effect
  request_cancel : (seq : ℕ) → Effect
  set_cancel_event : (activity_id : Text) → Effect
  send_cancelled : (dbos_id : Text) → Effect
  set_gone : (activity_id : Text) → Effect

-- `commands` has the sequence numbers of the queued activity commands; `last_seq` is `_seqs`'s. After
-- an exception, `raised` is set and the rest of the state is not read.
pub record ActivityState (P : Type 0) : Type 0 where
  pub time : ℕ
  pub last_seq : ℕ
  pub pending_activities : List (ActivityExec P)
  pub commands : List ℕ
  pub waiters : List Waiter
  pub cancelled_activity_seqs : List ℕ
  pub queued_wait_cancel_seqs : List ℕ
  pub resolved : List (ℕ × Resolution P)
  pub effects : List Effect
  pub raised : Bool

module _ {P : Type 0} where
  unfoldable pub find : ℕ → List (ActivityExec P) → Option (ActivityExec P)
  find k [] = none
  find k (e ∷ es) = if e.seq == k then some e else find k es

  unfoldable pub without_seq : ℕ → List (ActivityExec P) → List (ActivityExec P)
  without_seq k es = keep (λ e. not (e.seq == k)) es

  -- What mutating an execution does to the dictionary that holds it.
  unfoldable pub put : ActivityExec P → List (ActivityExec P) → List (ActivityExec P)
  put e [] = []
  put e (x ∷ es) = (if x.seq == e.seq then e else x) ∷ put e es

  abbrev pub update : ActivityExec P → ActivityState P → ActivityState P
  update e st = record st { pending_activities = put e st.pending_activities }

  abbrev pub delete : ℕ → ActivityState P → ActivityState P
  delete k st = record st { pending_activities = without_seq k st.pending_activities }

  abbrev pub resolve : ℕ → Resolution P → ActivityState P → ActivityState P
  resolve k r st = record st { resolved = st.resolved ++ (k, r) ∷ [] }

  abbrev pub launch_waiter : WaiterKind → ℕ → ActivityState P → ActivityState P
  launch_waiter kind k st = record st {
    waiters = st.waiters ++ (record { kind = kind; seq = k }) ∷ [];
  }

  abbrev pub perform : List Effect → ActivityState P → ActivityState P
  perform effects st = record st { effects = st.effects ++ effects }

-- The arguments of a start; the activity's type is known to this worker, or it goes elsewhere.
pub record Start : Type 0 where
  pub activity_name : String
  pub is_known : Bool
  pub retry_policy : Option RetryPolicy
  pub activity_id : Option Text
  pub start_to_close : Option ℕ
  pub schedule_to_close : Option ℕ
  pub heartbeat_timeout : Option ℕ
  pub cancellation_type : ℕ
  pub task_queue : Option String

pub data StartError : Type 0 where
  read_only_context unknown_activity : StartError
  activity_id_in_use : Text → StartError
  bad_policy : PolicyError → StartError

unfoldable pub resolved_activity_id : Option Text → ℕ → Text
resolved_activity_id none seq = str seq
resolved_activity_id (some []) seq = str seq
resolved_activity_id (some (c ∷ id)) seq = c ∷ id

-- A time span of 0 is falsy, as None is.
positive : Option ℕ → Option ℕ
positive none = none
positive (some t) = if t == 0 then none else some t

policy_or_default : Option RetryPolicy → RetryPolicy
policy_or_default none = default_policy
policy_or_default (some p) = p

module _ {P : Type 0} where
  unfoldable pub new_exec : Start → ℕ → ℕ → ActivityExec P
  unfolding positive policy_or_default resolved_activity_id
  new_exec s seq time = record {
    seq = seq;
    activity_name = s.activity_name;
    activity_id = resolved_activity_id s.activity_id seq;
    retry_policy = policy_or_default s.retry_policy;
    start_to_close = positive s.start_to_close;
    schedule_to_close = positive s.schedule_to_close;
    heartbeat_timeout = positive s.heartbeat_timeout;
    scheduled_at = time;
    cancellation_type = s.cancellation_type;
    attempt = 1;
    in_backoff = false;
    pending_wait = 0;
    last_failure = none;
    cancel_requested = false;
    async_pending = false;
    async_park_timeout_type = start_to_close;
    async_hb_seen = false;
    task_queue = s.task_queue;
    queued_dbos_id = none;
    future_cancelled = false;
  }

  abbrev pub register : ActivityExec P → ActivityState P → ActivityState P
  register e st = record st {
    pending_activities = st.pending_activities ++ e ∷ [];
    commands = st.commands ++ e.seq ∷ [];
  }

  -- The checks behind the claim of the sequence number, which stays claimed when one fails.
  unfoldable pub admit : ActivityExec P → ActivityState P → Result StartError ℕ × ActivityState P
  admit e st =
      if any (λ open_one. text_eq open_one.activity_id e.activity_id) st.pending_activities
      then (err (activity_id_in_use e.activity_id), st)
      else elim (validate e.retry_policy) [
        | err why ↦ (err (bad_policy why), st)
        | ok _ ↦ (ok e.seq, register e st)
      ]

  -- `runtime_start_activity`
  unfoldable pub start_activity :
      (read_only : Bool) → Start → ActivityState P → Result StartError ℕ × ActivityState P
  unfolding admit new_exec
  start_activity read_only s st =
      if read_only
      then (err read_only_context, st)
      else if is_none s.task_queue && not s.is_known
      then (err unknown_activity, st)
      else admit (new_exec s (st.last_seq + 1) st.time) (record st { last_seq = st.last_seq + 1 })

  -- The future of an open activity is cancelled, with the callback of its start.
  unfoldable pub cancel_future : ActivityExec P → ActivityState P → ActivityState P
  cancel_future e st = if e.future_cancelled then st else record st {
    pending_activities = put (record e { future_cancelled = true }) st.pending_activities;
    cancelled_activity_seqs = st.cancelled_activity_seqs ++ e.seq ∷ [];
    resolved = st.resolved ++ (e.seq, cancelled) ∷ [];
  }

  unfoldable pub mark_cancel_requested : ActivityExec P → ActivityState P → ActivityState P
  mark_cancel_requested e st =
      let st' = update (record e { cancel_requested = true }) st in
      if is_some e.queued_dbos_id
      then record st' { queued_wait_cancel_seqs = st.queued_wait_cancel_seqs ++ e.seq ∷ [] }
      else perform (request_cancel e.seq ∷ []) st'

  -- `_request_activity_cancel`
  unfoldable pub request_activity_cancel : ℕ → ActivityState P → ActivityState P
  unfolding cancel_future mark_cancel_requested
  request_activity_cancel seq st = elim (find seq st.pending_activities) [
    | none ↦ st
    | some e ↦
        if e.cancellation_type == 1 && not e.async_pending
        then mark_cancel_requested e st
        else cancel_future e st
  ]

  -- The coroutine that awaits the activity is cancelled.
  unfoldable pub cancel_await : ℕ → ActivityState P → ActivityState P
  unfolding cancel_future
  cancel_await seq st = elim (find seq st.pending_activities) [
    | none ↦ st
    | some e ↦ cancel_future e st
  ]
