-- ===== src/Failure.antt =====
-- The exception tree of dbosify/exceptions.py and its failure envelope, with `serialize_failure`
-- and `deserialize_failure` of dbosify/_internal/payloads.py. Durations are natural numbers of
-- ticks. The values in details and their payloads are parameters, with the converter's encoding.
pub mod RoundTrip
use dbosify_py.Prelude.{
  ℕ, zero, suc, String, Bool, true, false, ◌&&◌, ◌||◌, Option, none, some, List, [], ◌∷◌, map,
}
use dbosify_py.Prelude.Result.{Result, ok, err, ◌>>=◌}
use mathlib.Core.Option

pub data TimeoutType : Type 0 where
  start_to_close schedule_to_start schedule_to_close heartbeat : TimeoutType

pub data RetryState : Type 0 where
  in_progress non_retryable_failure timeout maximum_attempts_reached : RetryState
  retry_policy_not_set internal_server_error cancel_requested : RetryState

pub data Category : Type 0 where
  unspecified benign : Category

-- The numbers of the `IntEnum`s: `int(t)` and `T(n)`, which raises ValueError.
unfoldable pub timeout_type_int : TimeoutType → ℕ
timeout_type_int start_to_close = 1
timeout_type_int schedule_to_start = 2
timeout_type_int schedule_to_close = 3
timeout_type_int heartbeat = 4

unfoldable pub timeout_type_of : ℕ → Option TimeoutType
timeout_type_of (suc zero) = some start_to_close
timeout_type_of (suc (suc zero)) = some schedule_to_start
timeout_type_of (suc (suc (suc zero))) = some schedule_to_close
timeout_type_of (suc (suc (suc (suc zero)))) = some heartbeat
timeout_type_of _ = none

unfoldable pub retry_state_int : RetryState → ℕ
retry_state_int in_progress = 1
retry_state_int non_retryable_failure = 2
retry_state_int timeout = 3
retry_state_int maximum_attempts_reached = 4
retry_state_int retry_policy_not_set = 5
retry_state_int internal_server_error = 6
retry_state_int cancel_requested = 7

unfoldable pub retry_state_of : ℕ → Option RetryState
retry_state_of (suc zero) = some in_progress
retry_state_of (suc (suc zero)) = some non_retryable_failure
retry_state_of (suc (suc (suc zero))) = some timeout
retry_state_of (suc (suc (suc (suc zero)))) = some maximum_attempts_reached
retry_state_of (suc (suc (suc (suc (suc zero))))) = some retry_policy_not_set
retry_state_of (suc (suc (suc (suc (suc (suc zero)))))) = some internal_server_error
retry_state_of (suc (suc (suc (suc (suc (suc (suc zero))))))) = some cancel_requested
retry_state_of _ = none

unfoldable pub category_int : Category → ℕ
category_int unspecified = 0
category_int benign = 1

unfoldable pub category_of : ℕ → Option Category
category_of zero = some unspecified
category_of (suc zero) = some benign
category_of _ = none

-- The exception classes with their fields. `other` is any other exception, asyncio's
-- CancelledError apart: its class name and its text.
pub data Kind (V : Type 0) : Type 0 where
  application :
      (message : String)
      → (type : Option String) → (details : List V) → (non_retryable : Bool) → (category : Category)
      → (next_retry_delay : Option ℕ) → Kind V
  cancelled terminated : (message : String) → (details : List V) → Kind V
  timed_out :
      (message : String) → (type : Option TimeoutType) → (last_heartbeat_details : List V) → Kind V
  activity :
      (message activity_type activity_id identity : String)
      → (scheduled_event_id started_event_id : ℕ) → (retry_state : Option RetryState) → Kind V
  child :
      (message namespace workflow_id run_id workflow_type : String)
      → (initiated_event_id started_event_id : ℕ) → (retry_state : Option RetryState) → Kind V
  server : (message : String) → (non_retryable : Bool) → Kind V
  asyncio_cancelled : (message : String) → Kind V
  other : (class_name message : String) → Kind V

-- An exception with the text of its traceback, `__cause__`, `__context__` and
-- `__suppress_context__`.
mutual
  pub data Exc (V : Type 0) : Type 0 where
    exc : Kind V → Option String → Link V → Link V → Bool → Exc V

  pub data Link (V : Type 0) : Type 0 where
    no_link : Link V
    link : Exc V → Link V

-- The value of the envelope's key "cls".
pub data Cls : Type 0 where
  application_error cancelled_error terminated_error timeout_error : Cls
  activity_error child_workflow_error server_error : Cls
  unknown_class : String → Cls

-- The envelope's keys but "cause"; a key that is absent or None is `none`, as `env.get` reads it.
pub record Fields (P : Type 0) : Type 0 where
  pub cls : Cls
  pub message : String
  pub type_name : Option String
  pub details : List P
  pub non_retryable : Bool
  pub category : Option ℕ
  pub next_retry_delay : Option ℕ
  pub timeout_type : Option ℕ
  pub last_heartbeat_details : List P
  pub activity_type : Option String
  pub activity_id : Option String
  pub identity : Option String
  pub namespace : Option String
  pub workflow_id : Option String
  pub run_id : Option String
  pub workflow_type : Option String
  pub retry_state : Option ℕ
  pub stack_trace : Option String

mutual
  pub data Envelope (P : Type 0) : Type 0 where
    envelope : Fields P → Cause P → Envelope P

  pub data Cause (P : Type 0) : Type 0 where
    no_cause : Cause P
    caused_by : Envelope P → Cause P

-- An envelope with a class and a message, and nothing else.
abbrev pub bare : {P : Type 0} → Cls → String → Option String → Fields P
bare cls message trace = record {
  cls = cls;
  message = message;
  type_name = none;
  details = [];
  non_retryable = false;
  category = none;
  next_retry_delay = none;
  timeout_type = none;
  last_heartbeat_details = [];
  activity_type = none;
  activity_id = none;
  identity = none;
  namespace = none;
  workflow_id = none;
  run_id = none;
  workflow_type = none;
  retry_state = none;
  stack_trace = trace;
}

module _ {V P : Type 0} (encode : V → P) where
  unfoldable pub serialize_kind : Kind V → Option String → Fields P
  serialize_kind (application m t ds nr c delay) trace = record (bare application_error m trace) {
    type_name = t;
    details = map encode ds;
    non_retryable = nr;
    category = some (category_int c);
    next_retry_delay = delay;
  }
  serialize_kind (cancelled m ds) trace = record (bare cancelled_error m trace) {
    details = map encode ds;
  }
  serialize_kind (terminated m ds) trace = record (bare terminated_error m trace) {
    details = map encode ds;
  }
  serialize_kind (timed_out m t ds) trace = record (bare timeout_error m trace) {
    timeout_type = Option.map timeout_type_int t;
    last_heartbeat_details = map encode ds;
  }
  serialize_kind (activity m at aid i scheduled_id started_id rs) trace =
      record (bare activity_error m trace) {
        activity_type = some at;
        activity_id = some aid;
        identity = some i;
        retry_state = Option.map retry_state_int rs;
      }
  serialize_kind (child m ns w r wt initiated_id started_id rs) trace =
      record (bare child_workflow_error m trace) {
        namespace = some ns;
        workflow_id = some w;
        run_id = some r;
        workflow_type = some wt;
        retry_state = Option.map retry_state_int rs;
      }
  serialize_kind (server m nr) trace = record (bare server_error m trace) { non_retryable = nr }
  serialize_kind (asyncio_cancelled m) trace = record (bare application_error m trace) {
    type_name = some "CancelledError";
  }
  serialize_kind (other name m) trace = record (bare application_error m trace) {
    type_name = some name;
  }

-- An explicit cause wins; else the context, unless it is suppressed.
unfoldable mutual
  pub serialize_failure : {V P : Type 0} (encode : V → P) → Exc V → Envelope P
  serialize_failure encode (exc k trace cause context suppress) =
      envelope (serialize_kind encode k trace) (
        serialize_cause encode cause
          (elim suppress [ true ↦ no_cause | false ↦ serialize_link encode context ]))

  pub serialize_cause : {V P : Type 0} (encode : V → P) → Link V → Cause P → Cause P
  serialize_cause encode no_link fallback = fallback
  serialize_cause encode (link e) fallback = caused_by (serialize_failure encode e)

  pub serialize_link : {V P : Type 0} (encode : V → P) → Link V → Cause P
  serialize_link encode no_link = no_cause
  serialize_link encode (link e) = caused_by (serialize_failure encode e)

-- `is_cancelled_exception` of dbosify/exceptions.py; an exception's `cause` is its `__cause__`.
is_cancelled_kind : {V : Type 0} → Kind V → Bool
is_cancelled_kind (asyncio_cancelled m) = true
is_cancelled_kind (cancelled m ds) = true
is_cancelled_kind _ = false

has_cancelled_cause : {V : Type 0} → Link V → Bool
has_cancelled_cause (link (exc (cancelled m ds) t c x s)) = true
has_cancelled_cause _ = false

wraps_cause : {V : Type 0} → Kind V → Bool
wraps_cause (activity m at aid i x y rs) = true
wraps_cause (child m ns w r wt x y rs) = true
wraps_cause _ = false

unfoldable pub is_cancelled_exception : {V : Type 0} → Exc V → Bool
unfolding is_cancelled_kind has_cancelled_cause wraps_cause
is_cancelled_exception (exc k t cause x s) =
    is_cancelled_kind k || (wraps_cause k && has_cancelled_cause cause)

pub data DecodeError : Type 0 where
  unknown_envelope_class : String → DecodeError
  key_error : String → DecodeError
  not_in_enum : ℕ → DecodeError

-- `env[key]`
require : String → Option String → Result DecodeError String
require key none = err (key_error key)
require key (some v) = ok v

-- `T(n) if n is not None else None`
enum_or_none : {T : Type 0} → (ℕ → Option T) → Option ℕ → Result DecodeError (Option T)
enum_or_none of none = ok none
enum_or_none of (some n) = elim (of n) [ none ↦ err (not_in_enum n) | some t ↦ ok (some t) ]

-- `env.get(key, "")`
or_empty : Option String → String
or_empty none = ""
or_empty (some s) = s

category_or_unspecified : Option Category → Category
category_or_unspecified none = unspecified
category_or_unspecified (some c) = c

module _ {V P : Type 0} (decode : P → V) where
  kind_of_cls : Cls → Fields P → Result DecodeError (Kind V)
  kind_of_cls application_error f = do
    category ← enum_or_none category_of f.category
    ok (
        application f.message f.type_name (map decode f.details) f.non_retryable
          (category_or_unspecified category) f.next_retry_delay)
  kind_of_cls cancelled_error f = ok (cancelled f.message (map decode f.details))
  kind_of_cls terminated_error f = ok (terminated f.message (map decode f.details))
  kind_of_cls timeout_error f = do
    t ← enum_or_none timeout_type_of f.timeout_type
    ok (timed_out f.message t (map decode f.last_heartbeat_details))
  kind_of_cls activity_error f = do
    at ← require "activity_type" f.activity_type
    aid ← require "activity_id" f.activity_id
    rs ← enum_or_none retry_state_of f.retry_state
    ok (activity f.message at aid (or_empty f.identity) 0 0 rs)
  kind_of_cls child_workflow_error f = do
    w ← require "workflow_id" f.workflow_id
    wt ← require "workflow_type" f.workflow_type
    rs ← enum_or_none retry_state_of f.retry_state
    ok (child f.message (or_empty f.namespace) w (or_empty f.run_id) wt 0 0 rs)
  kind_of_cls server_error f = ok (server f.message f.non_retryable)
  kind_of_cls (unknown_class c) f = err (unknown_envelope_class c)

  unfoldable pub deserialize_kind : Fields P → Result DecodeError (Kind V)
  unfolding kind_of_cls require enum_or_none or_empty category_or_unspecified
  deserialize_kind f = kind_of_cls f.cls f

-- Setting `__cause__` also suppresses the context.
unfoldable mutual
  pub deserialize_failure :
      {V P : Type 0} (decode : P → V) → Envelope P → Result DecodeError (Exc V)
  deserialize_failure decode (envelope f cause) = do
    kind ← deserialize_kind decode f
    deserialize_cause decode kind cause

  pub deserialize_cause :
      {V P : Type 0} (decode : P → V) → Kind V → Cause P → Result DecodeError (Exc V)
  deserialize_cause decode kind no_cause = ok (exc kind none no_link no_link false)
  deserialize_cause decode kind (caused_by e) = do
    cause ← deserialize_failure decode e
    ok (exc kind none (link cause) no_link true)
