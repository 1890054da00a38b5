-- ===== src/Witnesses/ChainWitness.antt =====
-- Runs, failures and messages at which the theorems on dbosify/_internal/dispatcher.py,
-- dbosify/_internal/payloads.py and dbosify/_internal/inbox.py apply.
use dbosify_py.Prelude.{any, inr, ℕ, ◌+◌, ◌≡◌, refl, none, some, [], ◌∷◌, true, false}
use dbosify_py.Prelude.Result.{ok}
use dbosify_py.Prelude.Text.{text}
use dbosify_py.Failure.{
  Exc, exc, link, no_link, application, activity, benign, serialize_failure, deserialize_failure,
}
use dbosify_py.Failure.RoundTrip.{
  rebuilt, IsExact, through, deserialize-serialize, deserialize-serialize_exact,
}
use dbosify_py.Retry.{default_policy}
use dbosify_py.RunInput.{RunMeta, new_meta, wrap_input, unwrap_input}
use dbosify_py.RunInput.RoundTrip.{unwrap_input-wrap_input}
use dbosify_py.Inbox.{message, cancel, signal, is_cancel}
use dbosify_py.Dispatcher.ChainHops.{Closing, failed, dispatch, drain_unconsumed_inbox}
use dbosify_py.Dispatcher.ChainHops.Successor.{IsHop, dispatch-IsHop, dispatch-cancel}

abbrev no_funds : Exc ℕ
no_funds =
    exc (application "no funds" (some "Funds") (7 ∷ []) true benign none) none no_link no_link false

-- The converter of the example adds one to a number that it reads back.
abbrev broken : Exc ℕ
broken =
    exc (activity "activity failed" "charge" "3" "worker-1" 5 6 none) none (link no_funds) no_link
      true

broken_example :
    deserialize_failure (λ v. v + 1) (serialize_failure (λ v. v) broken)
    ≡ ok (rebuilt (through (λ v. v) (λ v. v + 1)) broken)
broken_example = deserialize-serialize (λ v. v) (λ v. v + 1) broken

abbrev unnumbered : Exc ℕ
unnumbered =
    exc (activity "activity failed" "charge" "3" "worker-1" 0 0 none) none (link no_funds) no_link
      true

unnumbered-IsExact : IsExact (through (λ v. v) (λ v. v)) unnumbered
unfolding IsExact
unnumbered-IsExact = ((refl, refl), refl, refl, refl, (refl, refl, refl, refl, tt))

exact_example : deserialize_failure (λ v. v) (serialize_failure (λ v. v) unnumbered) ≡ ok unnumbered
exact_example = deserialize-serialize_exact (λ v. v) (λ v. v) unnumbered unnumbered-IsExact

abbrev nightly : RunMeta ℕ ℕ
nightly = record new_meta {
  cron = some "0 3 * * *";
  attempt = 2;
  retry_policy = some default_policy;
}

input_example : unwrap_input (wrap_input (1 ∷ 2 ∷ []) (some nightly)) ≡ (1 ∷ 2 ∷ [], nightly)
input_example = unwrap_input-wrap_input (1 ∷ 2 ∷ []) nightly (λ e. cc)

abbrev closing : Closing ℕ ℕ
closing = record {
  workflow_id = text "order-7--r2";
  type_name = "Order";
  meta = nightly;
  cron_delay = λ cron. 60;
  cancel_observed = false;
  deliveries = some (message (signal "go" (1 ∷ [])) none) ∷ none ∷ [];
}

abbrev stopping : Closing ℕ ℕ
stopping = record closing { deliveries = some (message (cancel "stop") none) ∷ [] }

stopping_cancel : any is_cancel (drain_unconsumed_inbox stopping.deliveries) ≡ true
unfolding drain_unconsumed_inbox is_cancel
stopping_cancel = refl

hop_example : IsHop closing (dispatch (λ v. v) closing (1 ∷ []) (failed broken)).1
hop_example = dispatch-IsHop (λ v. v) closing (1 ∷ []) (failed broken)

cancel_example : (dispatch (λ v. v) stopping (1 ∷ []) (failed broken)).1 ≡ []
cancel_example = dispatch-cancel (λ v. v) stopping (1 ∷ []) (failed broken) (inr stopping_cancel)
