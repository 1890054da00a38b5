-- ===== src/RunInput.antt =====
-- The input envelope of dbosify/_internal/payloads.py: a run's start arguments with its metadata.
-- Payload dicts and the encoded attributes are opaque.
pub mod RoundTrip
use dbosify_py.Prelude.{
  ℕ, String, Bool, true, false, ◌&&◌, Option, none, some, List, [], ◌∷◌, ◌==◌, is_none,
}
use dbosify_py.Prelude.Text.{Text}
use dbosify_py.Failure.{Envelope}
use dbosify_py.Retry.{RetryPolicy, Fraction}

-- `serialize_retry_policy` and `deserialize_retry_policy`: the stored dict, whose last three keys
-- may be missing.
pub record StoredPolicy : Type 0 where
  pub initial_interval : ℕ
  pub backoff_coefficient : Fraction
  pub maximum_interval : Option ℕ
  pub maximum_attempts : Option ℕ
  pub non_retryable_error_types : Option (List String)

unfoldable pub serialize_retry_policy : RetryPolicy → StoredPolicy
serialize_retry_policy p = record {
  initial_interval = p.initial_interval;
  backoff_coefficient = p.backoff_coefficient;
  maximum_interval = p.maximum_interval;
  maximum_attempts = some p.maximum_attempts;
  non_retryable_error_types = p.non_retryable_error_types;
}

unfoldable pub deserialize_retry_policy : StoredPolicy → RetryPolicy
deserialize_retry_policy env = record {
  initial_interval = env.initial_interval;
  backoff_coefficient = env.backoff_coefficient;
  maximum_interval = env.maximum_interval;
  maximum_attempts = elim env.maximum_attempts [ none ↦ 0 | some n ↦ n ];
  non_retryable_error_types = env.non_retryable_error_types;
}

-- `last_completion` holds the value of `{"value": ...}`; a root is a workflow id and a run id.
pub record RunMeta (P A : Type 0) : Type 0 where
  pub cron : Option String
  pub attempt : ℕ
  pub retry_policy : Option RetryPolicy
  pub run_timeout : Option ℕ
  pub last_completion : Option P
  pub last_failure : Option (Envelope P)
  pub attributes : Option A
  pub headers : Option (List (String × P))
  pub root : Option (Text × Text)

abbrev pub new_meta : {P A : Type 0} → RunMeta P A
new_meta = record {
  cron = none;
  attempt = 1;
  retry_policy = none;
  run_timeout = none;
  last_completion = none;
  last_failure = none;
  attributes = none;
  headers = none;
  root = none;
}

-- `not self.headers`
unfoldable pub no_headers : {P : Type 0} → Option (List (String × P)) → Bool
no_headers none = true
no_headers (some []) = true
no_headers (some (h ∷ hs)) = false

module _ {P A : Type 0} where
  unfoldable pub is_empty : RunMeta P A → Bool
  unfolding no_headers
  is_empty m =
      is_none m.cron
      && (m.attempt == 1
          && (is_none m.retry_policy
              && (is_none m.run_timeout
                  && (is_none m.last_completion
                      && (is_none m.last_failure
                          && (is_none m.attributes && (no_headers m.headers && is_none m.root)))))))

  unfoldable pub carried_forward : RunMeta P A → RunMeta P A
  carried_forward m = record m { attempt = 1 }

-- The stored metadata: a key that is absent reads as `none`, and an attempt that is absent as 1.
pub record StoredMeta (P A : Type 0) : Type 0 where
  pub cron : Option String
  pub attempt : Option ℕ
  pub retry_policy : Option RetryPolicy
  pub run_timeout : Option ℕ
  pub last_completion : Option P
  pub last_failure : Option (Envelope P)
  pub attributes : Option A
  pub headers : Option (List (String × P))
  pub root : Option (Text × Text)

-- A bare list of arguments, or the envelope, whose "meta" may be absent.
pub data Input (P A : Type 0) : Type 0 where
  bare_args : List P → Input P A
  enveloped : List P → Option (StoredMeta P A) → Input P A

module _ {P A : Type 0} where
  stored : RunMeta P A → StoredMeta P A
  stored m = record {
    cron = m.cron;
    attempt = some m.attempt;
    retry_policy = m.retry_policy;
    run_timeout = m.run_timeout;
    last_completion = m.last_completion;
    last_failure = m.last_failure;
    attributes = m.attributes;
    headers = m.headers;
    root = m.root;
  }

  unfoldable pub wrap_input : List P → Option (RunMeta P A) → Input P A
  unfolding stored
  wrap_input args none = bare_args args
  wrap_input args (some m) = elim (is_empty m) [
    | true ↦ bare_args args
    | false ↦ enveloped args (some (stored m))
  ]

  unfoldable pub unwrap_input : Input P A → List P × RunMeta P A
  unwrap_input (bare_args args) = (args, new_meta)
  unwrap_input (enveloped args none) = (args, new_meta)
  unwrap_input (enveloped args (some raw)) = (
    args,
    record {
      cron = raw.cron;
      attempt = elim raw.attempt [ none ↦ 1 | some n ↦ n ];
      retry_policy = raw.retry_policy;
      run_timeout = raw.run_timeout;
      last_completion = raw.last_completion;
      last_failure = raw.last_failure;
      attributes = raw.attributes;
      headers = raw.headers;
      root = raw.root;
    },
  )
