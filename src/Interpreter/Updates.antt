-- ===== src/Interpreter/Updates.antt =====
-- Updates in dbosify/_internal/interpreter.py: their deduplication, validation, replies and
-- handlers. Which handler a name has, what its validator says and how a handler ends come with the
-- events; failures and results are opaque.
pub mod Replies
use dbosify_py.Prelude.{
  Bool, true, false, Option, none, some, List, [], ◌∷◌, ◌++◌, ◌||◌, any, if◌then◌else◌,
}
use dbosify_py.Prelude.Text.{Text, text_eq}
use dbosify_py.Inbox.{update_acceptance_key, update_result_key}

-- The payload of a reply event.
pub data ReplyStatus (F R : Type 0) : Type 0 where
  accepted : ReplyStatus F R
  rejected failed : F → ReplyStatus F R
  completed : R → ReplyStatus F R

-- A reply: the key of its event, and the payload.
pub record Reply (F R : Type 0) : Type 0 where
  pub key : Text
  pub status : ReplyStatus F R

-- A reply on the acceptance event or on the result event of an update.
abbrev pub acceptance : {F R : Type 0} → (update_id : Text) → ReplyStatus F R → Reply F R
acceptance id s = record { key = update_acceptance_key id; status = s }

abbrev pub result : {F R : Type 0} → (update_id : Text) → ReplyStatus F R → Reply F R
result id s = record { key = update_result_key id; status = s }

-- The resolved handler of an update, and the recorded verdict of its validator where it has one.
pub data Resolved (F : Type 0) : Type 0 where
  no_handler : (not_found : F) → Resolved F
  unvalidated : Resolved F
  validated : (failure : Option F) → Resolved F

-- How an update handler ends.
pub data HandlerEnd (F R : Type 0) : Type 0 where
  returned : R → HandlerEnd F R
  raised_failure : F → HandlerEnd F R
  raised_continue_as_new raised_other : HandlerEnd F R

-- `_outbox` holds the replies in their order; the handlers in flight are known by their update ids.
pub record UpdateState (F R : Type 0) : Type 0 where
  pub seen_update_ids : List Text
  pub outbox : List (Reply F R)
  pub inflight_handlers : List Text

abbrev pub mem_id : Text → List Text → Bool
mem_id id ids = any (text_eq id) ids

unfoldable pub discard : Text → List Text → List Text
discard id [] = []
discard id (x ∷ ids) = if text_eq x id then ids else x ∷ discard id ids

module _ {F R : Type 0} where
  unfoldable pub reply : List (Reply F R) → UpdateState F R → UpdateState F R
  reply replies st = record st { outbox = st.outbox ++ replies }

  -- Both events tell that the update is rejected.
  rejection : Text → F → List (Reply F R)
  rejection id failure = acceptance id (rejected failure) ∷ result id (rejected failure) ∷ []

  unfoldable pub accept : Text → UpdateState F R → UpdateState F R
  unfolding reply
  accept id st = record (reply (acceptance id accepted ∷ []) st) {
    inflight_handlers = st.inflight_handlers ++ id ∷ [];
  }

  unfoldable pub respond : Text → Resolved F → UpdateState F R → UpdateState F R
  unfolding rejection
  respond id (no_handler failure) st = reply (rejection id failure) st
  respond id unvalidated st = accept id st
  respond id (validated none) st = accept id st
  respond id (validated (some failure)) st = reply (rejection id failure) st

  -- `_apply_update`
  unfoldable pub apply_update : Text → Resolved F → UpdateState F R → UpdateState F R
  apply_update id handler st =
      if mem_id id st.seen_update_ids
      then st
      else respond id handler (record st { seen_update_ids = id ∷ st.seen_update_ids })

  -- The reply at the end of `_run_update_handler`. An update whose handler continues as new, or
  -- fails the workflow task, gets none.
  end_replies : Text → HandlerEnd F R → List (Reply F R)
  end_replies id (returned r) = result id (completed r) ∷ []
  end_replies id (raised_failure f) = result id (failed f) ∷ []
  end_replies id raised_continue_as_new = []
  end_replies id raised_other = []

  -- A handler that is in flight ends.
  unfoldable pub run_update_handler : Text → HandlerEnd F R → UpdateState F R → UpdateState F R
  unfolding end_replies
  run_update_handler id end st =
      if mem_id id st.inflight_handlers
      then reply (end_replies id end)
          (record st { inflight_handlers = discard id st.inflight_handlers })
      else st

  abandoned : F → List Text → List (Reply F R)
  abandoned failure [] = []
  abandoned failure (id ∷ ids) = result id (failed failure) ∷ abandoned failure ids

  -- `_fail_abandoned_updates`, at the close of the run.
  unfoldable pub fail_abandoned_updates : F → UpdateState F R → UpdateState F R
  unfolding abandoned
  fail_abandoned_updates failure st = record (reply (abandoned failure st.inflight_handlers) st) {
    inflight_handlers = [];
  }

pub data UpdateEvent (F R : Type 0) : Type 0 where
  delivered : (update_id : Text) → Resolved F → UpdateEvent F R
  handler_ended : (update_id : Text) → HandlerEnd F R → UpdateEvent F R
  run_closed : (failure : F) → UpdateEvent F R

module _ {F R : Type 0} where
  unfoldable pub update_step : UpdateEvent F R → UpdateState F R → UpdateState F R
  update_step (delivered id handler) st = apply_update id handler st
  update_step (handler_ended id end) st = run_update_handler id end st
  update_step (run_closed failure) st = fail_abandoned_updates failure st

  unfoldable pub update_run : List (UpdateEvent F R) → UpdateState F R → UpdateState F R
  update_run [] st = st
  update_run (e ∷ es) st = update_run es (update_step e st)
