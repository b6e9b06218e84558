-- ===== src/Xswd/Dispatcher/Prepare.antt =====
-- From rust/src/api/xswd/impl.rs: what Dart is shown of a request, and what an event leads to.
use xelis_wallet_flutter.Base.{ℕ, Bool, true, false, Option, none, some, List, [], ◌∷◌, map, String}
use xelis_wallet_flutter.Base.Results.{Result, ok, err}
use xelis_wallet_flutter.Xswd.Limits.{NativeXswdProjectionLimits}
use xelis_wallet_flutter.Xswd.Payload.{
  JsonNumbers, NativeXswdPayloadToken, XswdPayloadProjectionError,
}
use xelis_wallet_flutter.Xswd.Payload
use xelis_wallet_flutter.Xswd.Registry.{
  XswdSessionRegistry, XswdSessionReferenceError, register, code, invalid,
}
use xelis_wallet_flutter.Xswd.Registry
use xelis_wallet_flutter.Xswd.Dispatcher.{
  Permission, PermissionPolicy, AppState, AppInfo, XswdRequestType, application, permission,
  XswdRequestSummary, XswdEvent, request_application, request_permission, prefetch_permissions,
  cancel_request, app_disconnect, Effect, asked_application, asked_permission, asked_prefetch,
  told_cancel, told_disconnect, XswdNotificationKind, PreparedXswdNotification, PendingXswdResponse,
  permission_response, prefetch_response, decision_kind, notification_kind, ActiveXswdCallback,
  decision_future, notification_future,
}
use xelis_wallet_flutter.Xswd.Dispatcher.Answers.{
  send_permission_failure, send_prefetch_failure, acknowledge_cancelled_request,
}

-- The states of applications when the task reads them: which are alive, and what they hold.
pub record Moment : Type 0 where
  pub alive : ℕ → Bool
  pub app : ℕ → AppState

pub data XswdLifecycleEvent : Type 0 where
  cancelled_event : (state callback : ℕ) → XswdLifecycleEvent
  disconnected_event : (state : ℕ) → XswdLifecycleEvent

pub record PendingXswdDecision (N : Type 0) : Type 0 where
  pub state : ℕ
  pub response : PendingXswdResponse N
  pub is_application_admission : Bool

pub data PreparedXswdEvent (N : Type 0) : Type 0 where
  decision : PendingXswdDecision N → PreparedXswdEvent N
  lifecycle : XswdLifecycleEvent → PreparedXswdEvent N
  handled : PreparedXswdEvent N

abbrev pub policy_of : Permission → PermissionPolicy
policy_of Permission.ask = PermissionPolicy.ask
policy_of Permission.allow = PermissionPolicy.accept
policy_of Permission.reject = PermissionPolicy.reject

abbrev pub create_app_info_with_session_ref : AppState → Bool → ℕ → AppInfo
create_app_info_with_session_ref app is_relayer session_ref = record {
  session_ref = session_ref;
  id = app.id;
  name = app.name;
  description = app.description;
  url = app.url;
  permissions = map (λ p. (p.0, policy_of p.1)) app.permissions;
  is_relayer = is_relayer;
}

-- The panic of `register` does not happen (Registry/Lookup.antt); it is read as a refusal.
abbrev pub registered :
    XswdSessionRegistry × Option (Result XswdSessionReferenceError ℕ)
    → XswdSessionRegistry × Result XswdSessionReferenceError ℕ
registered (r, none) = (r, err invalid)
registered (r, some result) = (r, result)

-- The flag is kept for a cancellation only.
abbrev pub admission_flag : XswdNotificationKind → Bool → Bool
admission_flag XswdNotificationKind.cancel_request cancelled = cancelled
admission_flag XswdNotificationKind.app_disconnect cancelled = false

abbrev pub into_active : {N : Type 0} → PendingXswdDecision N → ActiveXswdCallback N
into_active d = record {
  state = d.state;
  kind = decision_kind d.response d.is_application_admission;
  future = decision_future;
}

-- What an event leads to, with the registry and what was sent or asked on the way.
abbrev pub Preparation : Type 0 → Type 0 → Type 0
Preparation N F = XswdSessionRegistry × List (Effect N F) × PreparedXswdEvent N

module _ {F : Type 0} where
  abbrev pub summary_of :
      Moment
      → ℕ
      → XswdRequestType F
      → XswdSessionRegistry × Result XswdSessionReferenceError ℕ
      → XswdSessionRegistry × Result XswdSessionReferenceError (XswdRequestSummary F)
  summary_of m state event_type (r, err e) = (r, err e)
  summary_of m state event_type (r, ok session_ref) = (
    r,
    ok (record {
      event_type = event_type;
      application_info = create_app_info_with_session_ref (m.app state) false session_ref;
    }),
  )

  unfoldable pub create_event_summary :
      Moment
      → XswdSessionRegistry
      → ℕ
      → XswdRequestType F
      → XswdSessionRegistry × Result XswdSessionReferenceError (XswdRequestSummary F)
  create_event_summary m r state event_type =
      summary_of m state event_type (registered (register m.alive r state))

  unfoldable pub create_lifecycle_event_summary :
      Moment
      → XswdSessionRegistry
      → ℕ
      → XswdRequestType F
      → XswdSessionRegistry × Result XswdSessionReferenceError (XswdRequestSummary F)
  create_lifecycle_event_summary m r state event_type =
      summary_of m state event_type (Registry.project m.alive r state)

  abbrev pub notification_type : XswdNotificationKind → XswdRequestType F
  notification_type XswdNotificationKind.cancel_request = XswdRequestType.cancel_request
  notification_type XswdNotificationKind.app_disconnect = XswdRequestType.app_disconnect

  abbrev pub notification_with :
      ℕ
      → XswdNotificationKind
      → Bool
      → XswdSessionRegistry × Result XswdSessionReferenceError (XswdRequestSummary F)
      → XswdSessionRegistry × Option (PreparedXswdNotification F)
  notification_with state kind cancelled (r, err e) = (r, none)
  notification_with state kind cancelled (r, ok summary) = (
    r,
    some (record {
      state = state;
      summary = summary;
      kind = kind;
      cancelled_application_admission = admission_flag kind cancelled;
    }),
  )

  unfoldable pub prepare_xswd_lifecycle_notification :
      Moment
      → XswdSessionRegistry
      → ℕ
      → XswdNotificationKind
      → Bool
      → XswdSessionRegistry × Option (PreparedXswdNotification F)
  unfolding create_lifecycle_event_summary
  prepare_xswd_lifecycle_notification m r state kind cancelled =
      notification_with state kind cancelled
        (create_lifecycle_event_summary m r state (notification_type kind))

module _ {N F : Type 0} where
  abbrev pub ask :
      (XswdRequestSummary F → Effect N F)
      → (String → Effect N F)
      → PendingXswdDecision N
      → XswdSessionRegistry × Result XswdSessionReferenceError (XswdRequestSummary F)
      → Preparation N F
  ask callback fail pending (r, err e) = (r, fail (code e) ∷ [], handled)
  ask callback fail pending (r, ok summary) = (r, callback summary ∷ [], decision pending)

  unfoldable pub start_notification :
      PreparedXswdNotification F → ActiveXswdCallback N × List (Effect N F)
  start_notification n = (
    record { state = n.state; kind = notification_kind n.kind; future = notification_future },
    elim n.kind [
      | XswdNotificationKind.cancel_request ↦
          told_cancel n.summary n.cancelled_application_admission ∷ []
      | XswdNotificationKind.app_disconnect ↦ told_disconnect n.summary ∷ []
    ],
  )

  abbrev pub acknowledge : XswdLifecycleEvent → ℕ × XswdNotificationKind × List (Effect N F)
  acknowledge (cancelled_event state callback) =
      (state, XswdNotificationKind.cancel_request, acknowledge_cancelled_request callback ∷ [])
  acknowledge (disconnected_event state) = (state, XswdNotificationKind.app_disconnect, [])

  abbrev pub with_payload :
      XswdSessionRegistry
      → (String → Effect N F)
      → Result XswdPayloadProjectionError (List (NativeXswdPayloadToken F))
      → (List (NativeXswdPayloadToken F) → Preparation N F)
      → Preparation N F
  with_payload r fail (err e) next = (r, fail "XSWD_PAYLOAD_PROJECTION_FAILED" ∷ [], handled)
  with_payload r fail (ok payload) next = next payload

module _ {N F : Type 0} (numbers : JsonNumbers N F) (usize_max : ℕ)
    (projection_limits : NativeXswdProjectionLimits) where
  unfoldable pub prepare_xswd_event : Moment → XswdSessionRegistry → XswdEvent N → Preparation N F
  unfolding create_event_summary
  prepare_xswd_event m r (request_application state callback) =
      ask asked_application (send_permission_failure callback)
        (record {
          state = state;
          response = permission_response callback;
          is_application_admission = true;
        })
        (create_event_summary m r state application)
  prepare_xswd_event m r (request_permission state request callback) =
      with_payload r (send_permission_failure callback)
        (Payload.project numbers usize_max projection_limits request)
        λ payload.
          ask asked_permission (send_permission_failure callback)
            (record {
              state = state;
              response = permission_response callback;
              is_application_admission = false;
            })
            (create_event_summary m r state (permission payload))
  prepare_xswd_event m r (prefetch_permissions state permissions callback) =
      with_payload r (send_prefetch_failure callback)
        (Payload.project numbers usize_max projection_limits permissions.json)
        λ payload.
          ask asked_prefetch (send_prefetch_failure callback)
            (record {
              state = state;
              response = prefetch_response permissions callback;
              is_application_admission = false;
            })
            (create_event_summary m r state (XswdRequestType.prefetch_permissions payload))
  prepare_xswd_event m r (cancel_request state callback) =
      (r, [], lifecycle (cancelled_event state callback))
  prepare_xswd_event m r (app_disconnect state) = (r, [], lifecycle (disconnected_event state))
