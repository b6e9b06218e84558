-- ===== src/Xswd/Dispatcher/Answers.antt =====
-- How an outcome of Dart, a cancellation or a failure becomes an answer.
use xelis_wallet_flutter.Base.{
  ℕ, Bool, true, false, ◌&&◌, List, [], ◌∷◌, String, nat_eq, string_eq, ◌==◌, if◌then◌else◌,
}
use xelis_wallet_flutter.Base.Results.{Result, ok, err}
use xelis_wallet_flutter.Xswd.Dispatcher.{
  Permission, PermissionResult, UserPermissionDecision, XswdDecisionCallbackOutcome,
  permission_reply, prefetch_reply, cancel_reply, Effect, sent, PendingXswdResponse,
  permission_response, prefetch_response, ActiveXswdCallbackKind, decision_kind, notification_kind,
  XswdActiveCallbackOutcome, decision_outcome, notification_outcome, ActiveXswdCallback,
  XswdNotificationKind,
}

pub decision_failure_code : XswdDecisionCallbackOutcome → String
decision_failure_code XswdDecisionCallbackOutcome.invalid_payload = "XSWD_CALLBACK_PAYLOAD_INVALID"
decision_failure_code XswdDecisionCallbackOutcome.timeout = "XSWD_CALLBACK_TIMEOUT"
decision_failure_code XswdDecisionCallbackOutcome.exception = "XSWD_CALLBACK_EXCEPTION"
decision_failure_code _ = "XSWD_CALLBACK_OUTCOME_INVALID"

unfoldable pub permission_result_from_outcome :
    XswdDecisionCallbackOutcome → Result String PermissionResult
unfolding decision_failure_code
permission_result_from_outcome XswdDecisionCallbackOutcome.accept = ok PermissionResult.accept
permission_result_from_outcome XswdDecisionCallbackOutcome.reject = ok PermissionResult.reject
permission_result_from_outcome XswdDecisionCallbackOutcome.always_accept =
    ok PermissionResult.always_accept
permission_result_from_outcome XswdDecisionCallbackOutcome.always_reject =
    ok PermissionResult.always_reject
permission_result_from_outcome failure = err (decision_failure_code failure)

-- `IndexMap::insert`, which keeps the place of a key that it holds.
unfoldable pub insert_key {ℓ} : {V : Type ℓ} → String → V → List (String × V) → List (String × V)
insert_key k v [] = (k, v) ∷ []
insert_key k v ((j, w) ∷ m) =
    let rest = insert_key k v m in if j == k then (j, v) ∷ m else (j, w) ∷ rest

abbrev pub is_accepted : UserPermissionDecision → Bool
is_accepted UserPermissionDecision.accept = true
is_accepted UserPermissionDecision.always_accept = true
is_accepted _ = false

unfoldable pub allow_each : List String → List (String × Permission) → List (String × Permission)
unfolding insert_key
allow_each [] results = results
allow_each (p ∷ ps) results = allow_each ps (insert_key p Permission.allow results)

unfoldable pub prefetch_permissions_from_decision :
    UserPermissionDecision → List String → List (String × Permission)
unfolding allow_each
prefetch_permissions_from_decision decision permissions =
    if is_accepted decision then allow_each permissions [] else []

unfoldable pub prefetch_result :
    XswdDecisionCallbackOutcome → List String → Result String (List (String × Permission))
unfolding prefetch_permissions_from_decision decision_failure_code
prefetch_result XswdDecisionCallbackOutcome.accept permissions =
    ok (prefetch_permissions_from_decision UserPermissionDecision.accept permissions)
prefetch_result XswdDecisionCallbackOutcome.always_accept permissions =
    ok (prefetch_permissions_from_decision UserPermissionDecision.accept permissions)
prefetch_result XswdDecisionCallbackOutcome.reject permissions = ok []
prefetch_result XswdDecisionCallbackOutcome.always_reject permissions = ok []
prefetch_result failure permissions = err (decision_failure_code failure)

module _ {N F : Type 0} where
  abbrev pub send_permission_failure : ℕ → String → Effect N F
  send_permission_failure callback code = sent callback (permission_reply (err code))

  abbrev pub send_prefetch_failure : ℕ → String → Effect N F
  send_prefetch_failure callback code = sent callback (prefetch_reply (err code))

  abbrev pub acknowledge_cancelled_request : ℕ → Effect N F
  acknowledge_cancelled_request callback = sent callback cancel_reply

  abbrev pub complete_response : PendingXswdResponse N → XswdDecisionCallbackOutcome → Effect N F
  complete_response (permission_response callback) outcome =
      sent callback (permission_reply (permission_result_from_outcome outcome))
  complete_response (prefetch_response permissions callback) outcome =
      sent callback (prefetch_reply (prefetch_result outcome permissions.permissions))

  abbrev pub fail_response : PendingXswdResponse N → String → Effect N F
  fail_response (permission_response callback) code = send_permission_failure callback code
  fail_response (prefetch_response permissions callback) code = send_prefetch_failure callback code

  -- Where the kinds differ nothing is sent. The outcome of a notification is only logged.
  unfoldable pub complete_kind :
      ActiveXswdCallbackKind N → XswdActiveCallbackOutcome → List (Effect N F)
  complete_kind (decision_kind response admission) (decision_outcome outcome) =
      complete_response response outcome ∷ []
  complete_kind (notification_kind kind) (notification_outcome outcome) = []
  complete_kind kind outcome = []

  unfoldable pub fail_kind : ActiveXswdCallbackKind N → String → List (Effect N F)
  fail_kind (decision_kind response admission) code = fail_response response code ∷ []
  fail_kind (notification_kind kind) code = []

  unfoldable pub cancel_active : ActiveXswdCallback N → List (Effect N F)
  unfolding fail_kind
  cancel_active active = fail_kind active.kind "XSWD_REQUEST_CANCELLED"

module _ {N : Type 0} where
  abbrev pub is_decision : ActiveXswdCallbackKind N → Bool
  is_decision (decision_kind response admission) = true
  is_decision (notification_kind kind) = false

  abbrev pub is_admission : ActiveXswdCallbackKind N → Bool
  is_admission (decision_kind response admission) = admission
  is_admission (notification_kind kind) = false

  abbrev pub is_disconnect : ActiveXswdCallbackKind N → Bool
  is_disconnect (notification_kind XswdNotificationKind.app_disconnect) = true
  is_disconnect _ = false

  abbrev pub is_decision_for : ActiveXswdCallback N → ℕ → Bool
  is_decision_for active state = is_decision active.kind && active.state == state

  abbrev pub is_application_admission : ActiveXswdCallback N → Bool
  is_application_admission active = is_admission active.kind

  abbrev pub is_disconnect_for : ActiveXswdCallback N → ℕ → Bool
  is_disconnect_for active state = is_disconnect active.kind && active.state == state
