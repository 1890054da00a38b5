-- ===== src/Inbox.antt =====
-- dbosify/_internal/inbox.py: the messages to a run, and the keys of the events that answer them.
-- Names, arguments and headers are carried and not looked into.
use dbosify_py.Prelude.{ℕ, String, Bool, true, false, ◌≡◌, refl, Option, List, ◌++◌}
use dbosify_py.Prelude.Text.{Text, text}
use dbosify_py.Failure.{Envelope}

-- The body of an envelope by its "kind"; `unknown` is any other kind.
pub data Body (P : Type 0) : Type 0 where
  signal : (name : String) → (args : List P) → Body P
  update : (name : String) → (args : List P) → (update_id : Text) → Body P
  query : (name : String) → (args : List P) → (request_id : Text) → Body P
  cancel : (reason : String) → Body P
  activity_result :
      (activity_id : Text)
      → (ok : Bool) → (result : P) → (failure : Option (Envelope P)) → (cancelled : Bool) → Body P
  activity_heartbeat : (activity_id : Text) → (details : List P) → Body P
  rehydrate_stop : Body P
  unknown : String → Body P

-- A message of the inbox: an envelope with its "sent_at", or what is no dict with a "kind".
pub data Message (P : Type 0) : Type 0 where
  message : Body P → (sent_at : Option ℕ) → Message P
  malformed : Message P

module _ {P : Type 0} where
  unfoldable pub is_cancel : Message P → Bool
  is_cancel (message (cancel reason) at) = true
  is_cancel _ = false

  -- Completions and heartbeats address the activities of one run.
  unfoldable pub is_run_scoped : Message P → Bool
  is_run_scoped (message (activity_result id ok r f c) at) = true
  is_run_scoped (message (activity_heartbeat id ds) at) = true
  is_run_scoped _ = false

unfoldable pub update_acceptance_key : Text → Text
update_acceptance_key id = text "__dbosify_upd_" ++ (id ++ text "_accepted")

unfoldable pub update_result_key : Text → Text
update_result_key id = text "__dbosify_upd_" ++ id

unfoldable pub query_result_key : Text → Text
query_result_key id = text "__dbosify_q_" ++ id

unfoldable pub async_activity_gone_key : Text → Text
async_activity_gone_key id = text "__dbosify_act_" ++ (id ++ text "_gone")

unfoldable pub activity_cancel_key : Text → Text
activity_cancel_key id = text "__dbosify_act_" ++ (id ++ text "_cancel")

-- The result key of an update whose id ends in "_accepted" is the acceptance key of another update.
pub update_keys_collide :
    (id : Text) → update_result_key (id ++ text "_accepted") ≡ update_acceptance_key id
unfolding update_result_key update_acceptance_key
update_keys_collide id = refl
