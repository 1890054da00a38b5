-- ===== src/Interpreter/Updates/Replies.antt =====
-- Every update is answered at most once (dbosify/_internal/interpreter.py).
use mathlib.Core.List.{append_cancel_left, append_cancel_right}
use dbosify_py.Prelude.{
  ℕ, ◌+◌, ◌≤◌, ◌≡◌, ◌≢◌, refl, sym, ◌∙◌, true, false, none, some, List, [], ◌∷◌, ◌++◌, All, arith,
  if◌then◌else◌, Bool-cases, inl, inr,
}
use dbosify_py.Prelude.Text.{Text, text, text_eq, text_eq→eq, text_eq_sym, text_eq_refl}
use dbosify_py.Inbox.{update_acceptance_key, update_result_key}
use dbosify_py.Interpreter.Updates.{
  Reply, accepted, acceptance, Resolved, no_handler, unvalidated, validated, HandlerEnd, returned,
  raised_failure, raised_continue_as_new, raised_other, UpdateState, mem_id, discard, reply,
  rejection, accept, respond, apply_update, end_replies, run_update_handler, abandoned,
  fail_abandoned_updates, UpdateEvent, delivered, handler_ended, run_closed, update_step,
  update_run,
}

text_eq_injective :
    (f : Text → Text) (s t : Text) → (f s ≡ f t → s ≡ t) → text_eq (f s) (f t) ≡ text_eq s t
text_eq_injective f s t back = elim (Bool-cases (text_eq s t)) [
  | inl same ↦ rw (text_eq→eq s t same) (text_eq_refl (f t) ∙ sym (text_eq_refl t))
  | inr apart ↦ elim (Bool-cases (text_eq (f s) (f t))) [
    | inl images ↦
        let known : text_eq s t ≡ true =
          rw (back (text_eq→eq (f s) (f t) images)) (text_eq_refl t) in
        absurd (ground arith)
    | inr images ↦ images ∙ sym apart
  ]
]

text_eq_apart : (s t : Text) → s ≢ t → text_eq s t ≡ false
text_eq_apart s t h = elim (Bool-cases (text_eq s t)) [
  | inl same ↦ absurd (h (text_eq→eq s t same))
  | inr apart ↦ apart
]

module _ (k : Text) where
  abbrev pub one : Text → ℕ
  one id = if text_eq k id then 1 else 0

  -- No event of update `id` has the key of the other event of update `k`.
  abbrev pub IsApart : Text → Type 0
  IsApart id = (k ++ text "_accepted" ≢ id) × (k ≢ id ++ text "_accepted")

  -- The replies on an event.
  abbrev pub replies_on : {F R : Type 0} → Text → List (Reply F R) → ℕ
  replies_on key [] = 0
  replies_on key (r ∷ replies) = (if text_eq key r.key then 1 else 0) + replies_on key replies

  -- The replies on the acceptance event, and on the result event, of update `k`.
  abbrev pub acceptances : {F R : Type 0} → List (Reply F R) → ℕ
  acceptances replies = replies_on (update_acceptance_key k) replies

  abbrev pub results : {F R : Type 0} → List (Reply F R) → ℕ
  results replies = replies_on (update_result_key k) replies

  own_acceptance :
      (id : Text) → text_eq (update_acceptance_key k) (update_acceptance_key id) ≡ text_eq k id
  unfolding update_acceptance_key
  own_acceptance id =
      text_eq_injective (λ t. text "__dbosify_upd_" ++ (t ++ text "_accepted")) k id
        (λ h. append_cancel_right k id (text "_accepted") (
          append_cancel_left (text "__dbosify_upd_") (k ++ text "_accepted")
            (id ++ text "_accepted") h))

  own_result : (id : Text) → text_eq (update_result_key k) (update_result_key id) ≡ text_eq k id
  unfolding update_result_key
  own_result id =
      text_eq_injective (λ t. text "__dbosify_upd_" ++ t) k id
        (λ h. append_cancel_left (text "__dbosify_upd_") k id h)

  other_result :
      (id : Text) → IsApart id → text_eq (update_acceptance_key k) (update_result_key id) ≡ false
  unfolding update_acceptance_key update_result_key
  other_result id away =
      text_eq_apart _ _
        (λ h. away.0 (append_cancel_left (text "__dbosify_upd_") (k ++ text "_accepted") id h))

  other_acceptance :
      (id : Text) → IsApart id → text_eq (update_result_key k) (update_acceptance_key id) ≡ false
  unfolding update_acceptance_key update_result_key
  other_acceptance id away =
      text_eq_apart _ _
        (λ h. away.1 (append_cancel_left (text "__dbosify_upd_") k (id ++ text "_accepted") h))

  abbrev pub handlers : List Text → ℕ
  handlers [] = 0
  handlers (id ∷ ids) = one id + handlers ids

  abbrev pub delivered_once : List Text → ℕ
  delivered_once seen = if mem_id k seen then 1 else 0

  -- An update that was delivered has one acceptance reply, and a result or a handler in flight but
  -- not both nor more; one that was not has none of these.
  abbrev pub IsAnswered : {F R : Type 0} → UpdateState F R → Type 0
  IsAnswered st =
      (acceptances st.outbox ≡ delivered_once st.seen_update_ids)
      × (results st.outbox + handlers st.inflight_handlers ≤ delivered_once st.seen_update_ids)

  on-append :
      {F R : Type 0} (key : Text) (xs ys : List (Reply F R))
      → replies_on key (xs ++ ys) ≡ replies_on key xs + replies_on key ys
  on-append key [] ys = omega arith
  on-append key (r ∷ xs) ys = omega (arith, on-append key xs ys)

  acceptances-append :
      {F R : Type 0} (xs ys : List (Reply F R))
      → acceptances (xs ++ ys) ≡ acceptances xs + acceptances ys
  acceptances-append xs ys = on-append (update_acceptance_key k) xs ys

  results-append :
      {F R : Type 0} (xs ys : List (Reply F R)) → results (xs ++ ys) ≡ results xs + results ys
  results-append xs ys = on-append (update_result_key k) xs ys

  handlers-append : (xs ys : List Text) → handlers (xs ++ ys) ≡ handlers xs + handlers ys
  handlers-append [] ys = omega arith
  handlers-append (x ∷ xs) ys = omega (arith, handlers-append xs ys)

  handlers-discard :
      (id : Text) (ids : List Text)
      → mem_id id ids ≡ true
      → one id + handlers (discard id ids) ≡ handlers ids
  unfolding discard
  handlers-discard id [] h = absurd (ground arith)
  handlers-discard id (x ∷ ids) h = elim (Bool-cases (text_eq x id)) [
    | inl here ↦ rw (here, discard, text_eq→eq x id here) refl
    | inr there ↦
        let rest : mem_id id ids ≡ true = ground (arith, text_eq_sym x id there) in
        rw (there, discard) (omega (arith, handlers-discard id ids rest))
  ]

  abandoned-results :
      {F : Type 0} (R : Type 0) (failure : F) (ids : List Text)
      → All IsApart ids
      → (results (abandoned {R = R} failure ids) ≡ handlers ids)
        × (acceptances (abandoned {R = R} failure ids) ≡ 0)
  unfolding abandoned
  abandoned-results R failure [] h = (refl, refl)
  abandoned-results R failure (id ∷ ids) h =
      let r = abandoned-results R failure ids h.1 in
      (ground (arith, r.0, own_result id), ground (arith, r.1, other_result id h.0))

  -- What the replies to update `id` add.
  rejection_lem :
      {F : Type 0} (R : Type 0) (id : Text) (f : F)
      → IsApart id
      → (acceptances (rejection {R = R} id f) ≡ one id)
        × (results (rejection {R = R} id f) ≡ one id)
  unfolding rejection
  rejection_lem R id f away = (
    ground (arith, own_acceptance id, other_result id away),
    ground (arith, other_acceptance id away, own_result id),
  )

  accepted_lem :
      (F R : Type 0) (id : Text)
      → IsApart id
      → (acceptances {F = F} {R = R} (acceptance id accepted ∷ []) ≡ one id)
        × (results {F = F} {R = R} (acceptance id accepted ∷ []) ≡ 0)
  accepted_lem F R id away =
      (ground (arith, own_acceptance id), ground (arith, other_acceptance id away))

  -- Replies to a delivered update that is not `k`, or to `k` before it was delivered.
  IsAnswered-respond :
      {F R : Type 0} (id : Text) (handler : Resolved F) (st : UpdateState F R)
      → IsApart id
      → acceptances st.outbox + one id ≡ delivered_once st.seen_update_ids
      → results st.outbox + handlers st.inflight_handlers + one id
        ≤ delivered_once st.seen_update_ids
      → IsAnswered (respond id handler st)
  unfolding respond reply accept
  IsAnswered-respond {R = R} id (no_handler f) st away a r =
      let added = rejection_lem R id f away in
      (
        rw acceptances-append (omega (arith, a, added.0)),
        rw results-append (omega (arith, r, added.1)),
      )
  IsAnswered-respond {F} {R} id unvalidated st away a r =
      let added = accepted_lem F R id away in
      (
        rw acceptances-append (omega (arith, a, added.0)),
        rw (results-append, handlers-append) (omega (arith, r, added.1)),
      )
  IsAnswered-respond {F} {R} id (validated none) st away a r =
      let added = accepted_lem F R id away in
      (
        rw acceptances-append (omega (arith, a, added.0)),
        rw (results-append, handlers-append) (omega (arith, r, added.1)),
      )
  IsAnswered-respond {R = R} id (validated (some f)) st away a r =
      let added = rejection_lem R id f away in
      (
        rw acceptances-append (omega (arith, a, added.0)),
        rw results-append (omega (arith, r, added.1)),
      )

  end_replies_lem :
      {F R : Type 0} (id : Text) (end : HandlerEnd F R)
      → IsApart id
      → (acceptances (end_replies id end) ≡ 0) × (results (end_replies id end) ≤ one id)
  unfolding end_replies
  end_replies_lem id (returned r) away =
      (ground (arith, other_result id away), ground (arith, own_result id))
  end_replies_lem id (raised_failure f) away =
      (ground (arith, other_result id away), ground (arith, own_result id))
  end_replies_lem id raised_continue_as_new away = (refl, omega arith)
  end_replies_lem id raised_other away = (refl, omega arith)

  -- Another update becomes known, or `k` itself does.
  delivered_once-cons :
      (id : Text) (seen : List Text)
      → mem_id id seen ≡ false
      → delivered_once (id ∷ seen) ≡ delivered_once seen + one id
  delivered_once-cons id seen h = elim (Bool-cases (text_eq k id)) [
    | inl same ↦
        let fresh : mem_id k seen ≡ false = rw (text_eq→eq k id same) h in
        ground (arith, same, fresh)
    | inr other ↦ ground (arith, other)
  ]

  discard-IsApart : (id : Text) (ids : List Text) → All IsApart ids → All IsApart (discard id ids)
  unfolding discard
  discard-IsApart id [] h = tt
  discard-IsApart id (x ∷ ids) h = elim (Bool-cases (text_eq x id)) [
    | inl here ↦ rw (here, discard) h.1
    | inr there ↦ rw (there, discard) (h.0, discard-IsApart id ids h.1)
  ]

  one_more-IsApart :
      (id : Text) (ids : List Text) → IsApart id → All IsApart ids → All IsApart (ids ++ id ∷ [])
  one_more-IsApart id [] away h = (away, tt)
  one_more-IsApart id (x ∷ ids) away h = (h.0, one_more-IsApart id ids away h.1)

  -- Only updates whose keys are apart have handlers in flight.
  abbrev AreApart : {F R : Type 0} → UpdateState F R → Type 0
  AreApart st = All IsApart st.inflight_handlers

  -- An event of an update whose keys are apart.
  abbrev pub EventIsApart : {F R : Type 0} → UpdateEvent F R → Type 0
  EventIsApart (delivered id handler) = IsApart id
  EventIsApart (handler_ended id end) = IsApart id
  EventIsApart (run_closed failure) = Unit

  respond-AreApart :
      {F R : Type 0} (id : Text) (handler : Resolved F) (st : UpdateState F R)
      → IsApart id
      → AreApart st
      → AreApart (respond id handler st)
  unfolding respond reply accept
  respond-AreApart id (no_handler f) st away h = h
  respond-AreApart id unvalidated st away h = one_more-IsApart id st.inflight_handlers away h
  respond-AreApart id (validated none) st away h = one_more-IsApart id st.inflight_handlers away h
  respond-AreApart id (validated (some f)) st away h = h

  step-AreApart :
      {F R : Type 0} (e : UpdateEvent F R) (st : UpdateState F R)
      → EventIsApart e
      → AreApart st
      → AreApart (update_step e st)
  unfolding update_step apply_update run_update_handler reply fail_abandoned_updates
  step-AreApart (delivered id handler) st away h =
      elim (Bool-cases (mem_id id st.seen_update_ids)) [
        | inl again ↦ rw (again, update_step, apply_update) h
        | inr fresh ↦
            rw (fresh, update_step, apply_update)
              (respond-AreApart id handler (record st { seen_update_ids = id ∷ st.seen_update_ids })
                away h)
      ]
  step-AreApart (handler_ended id end) st away h =
      elim (Bool-cases (mem_id id st.inflight_handlers)) [
        | inl running ↦
            rw (running, update_step, run_update_handler)
              (discard-IsApart id st.inflight_handlers h)
        | inr gone ↦ rw (gone, update_step, run_update_handler) h
      ]
  step-AreApart (run_closed failure) st away h = tt

  IsAnswered-step :
      {F R : Type 0} (e : UpdateEvent F R) (st : UpdateState F R)
      → EventIsApart e
      → AreApart st
      → IsAnswered st
      → IsAnswered (update_step e st)
  unfolding update_step apply_update run_update_handler reply fail_abandoned_updates
  IsAnswered-step (delivered id handler) st away apart h =
      elim (Bool-cases (mem_id id st.seen_update_ids)) [
        | inl again ↦ rw (again, update_step, apply_update) h
        | inr fresh ↦
            let known = delivered_once-cons id st.seen_update_ids fresh in
            rw (fresh, update_step, apply_update)
              (IsAnswered-respond id handler
                (record st { seen_update_ids = id ∷ st.seen_update_ids }) away
                (omega (arith, known, h.0)) (omega (arith, known, h.1)))
      ]
  IsAnswered-step (handler_ended id end) st away apart h =
      elim (Bool-cases (mem_id id st.inflight_handlers)) [
        | inl running ↦
            let left = handlers-discard id st.inflight_handlers running in
            let replies = end_replies_lem id end away in
            rw (running, update_step, run_update_handler)
              (
                rw acceptances-append (omega (arith, replies.0, h.0)),
                rw results-append (omega (arith, replies.1, h.1, left)),
              )
        | inr gone ↦ rw (gone, update_step, run_update_handler) h
      ]
  IsAnswered-step {R = R} (run_closed failure) st away apart h =
      let replies = abandoned-results R failure st.inflight_handlers apart in
      (
        rw acceptances-append (omega (arith, replies.1, h.0)),
        rw results-append (omega (arith, replies.0, h.1)),
      )

  -- Whatever is delivered, and however the handlers end, the state keeps this for update `k`: once
  -- it was delivered there is exactly one reply on its acceptance event, and at most one on its result
  -- event or handler in flight; before, there is neither a reply on its events nor a handler. No other
  -- update of the run has the id of `k` with "_accepted" behind it, nor the other way round, as the
  -- two would then share an event.
  pub update_run-IsAnswered :
      {F R : Type 0} (es : List (UpdateEvent F R)) (st : UpdateState F R)
      → All EventIsApart es
      → All IsApart st.inflight_handlers
      → IsAnswered st
      → IsAnswered (update_run es st)
  unfolding update_run
  update_run-IsAnswered [] st away apart h = h
  update_run-IsAnswered (e ∷ es) st away apart h =
      update_run-IsAnswered es (update_step e st) away.1 (step-AreApart e st away.0 apart)
        (IsAnswered-step e st away.0 apart h)
