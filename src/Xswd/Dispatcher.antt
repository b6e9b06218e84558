-- ===== src/Xswd/Dispatcher.antt =====
-- rust/src/api/xswd/impl/dispatcher.rs and rust/src/api/xswd/impl.rs: the task that takes the
-- requests of applications from a channel, asks the user through callbacks into Dart, and answers.
-- An `AppState` and a `Sender` are named by numbers. What the task does to the outside, in order, is
-- a list of effects. This file has the data; the children have the operations, in their order.
pub mod Answers
pub mod Queue
pub mod Prepare
pub mod Loop
pub mod Bounded
pub mod Shape
pub mod Debt
pub mod Settles
pub mod Answered
pub mod Exactly
pub mod Disconnect
pub mod Sessions
pub mod Revoked
pub mod Disconnected
pub mod Examples
use xelis_wallet_flutter.Base.{ℕ, Bool, Option, none, some, List, String}
use xelis_wallet_flutter.Base.Results.{Result}
use xelis_wallet_flutter.Xswd.Payload.{Value, NativeXswdPayloadToken}
use xelis_wallet_flutter.Xswd.Registry.{XswdSessionRegistry}

abbrev pub max_deferred_xswd_events : ℕ
max_deferred_xswd_events = 64

abbrev pub max_xswd_receive_burst : ℕ
max_xswd_receive_burst = 16

pub data Permission : Type 0 where
  allow reject ask : Permission

pub data PermissionPolicy : Type 0 where
  ask accept reject : PermissionPolicy

pub data PermissionResult : Type 0 where
  accept reject always_accept always_reject : PermissionResult

pub data UserPermissionDecision : Type 0 where
  accept reject always_accept always_reject : UserPermissionDecision

pub data XswdDecisionCallbackOutcome : Type 0 where
  accept reject always_accept always_reject : XswdDecisionCallbackOutcome
  invalid_payload timeout exception : XswdDecisionCallbackOutcome

pub data XswdNotificationCallbackOutcome : Type 0 where
  completed invalid_payload timeout exception : XswdNotificationCallbackOutcome

-- What the task reads of the state of an application.
pub record AppState : Type 0 where
  pub id : String
  pub name : String
  pub description : String
  pub url : Option String
  pub permissions : List (String × Permission)

pub record AppInfo : Type 0 where
  pub session_ref : ℕ
  pub id : String
  pub name : String
  pub description : String
  pub url : Option String
  pub permissions : List (String × PermissionPolicy)
  pub is_relayer : Bool

pub data XswdRequestType (F : Type 0) : Type 0 where
  application cancel_request app_disconnect : XswdRequestType F
  permission prefetch_permissions : List (NativeXswdPayloadToken F) → XswdRequestType F

pub record XswdRequestSummary (F : Type 0) : Type 0 where
  pub event_type : XswdRequestType F
  pub application_info : AppInfo

-- The permissions asked for, and the request as JSON.
pub record XswdPrefetchPermissions (N : Type 0) : Type 0 where
  pub permissions : List String
  pub json : Option (Value N)

-- An event names the state of its application and, last, the sender that its answer goes to. A
-- request for a permission is given as JSON.
pub data XswdEvent (N : Type 0) : Type 0 where
  request_application : (state callback : ℕ) → XswdEvent N
  request_permission : (state : ℕ) → Option (Value N) → (callback : ℕ) → XswdEvent N
  prefetch_permissions : (state : ℕ) → XswdPrefetchPermissions N → (callback : ℕ) → XswdEvent N
  cancel_request : (state callback : ℕ) → XswdEvent N
  app_disconnect : (state : ℕ) → XswdEvent N

-- What is sent to a sender; an error is its text.
pub data Reply : Type 0 where
  permission_reply : Result String PermissionResult → Reply
  prefetch_reply : Result String (List (String × Permission)) → Reply
  cancel_reply : Reply

-- An event taken from the channel, an answer sent, and the five callbacks into Dart.
pub data Effect (N F : Type 0) : Type 0 where
  received : XswdEvent N → Effect N F
  sent : (callback : ℕ) → Reply → Effect N F
  asked_application asked_permission asked_prefetch : XswdRequestSummary F → Effect N F
  told_cancel : XswdRequestSummary F → Bool → Effect N F
  told_disconnect : XswdRequestSummary F → Effect N F

pub data XswdNotificationKind : Type 0 where
  cancel_request app_disconnect : XswdNotificationKind

pub record PreparedXswdNotification (F : Type 0) : Type 0 where
  pub state : ℕ
  pub summary : XswdRequestSummary F
  pub kind : XswdNotificationKind
  pub cancelled_application_admission : Bool

pub data DeferredXswdEvent (N F : Type 0) : Type 0 where
  raw : XswdEvent N → DeferredXswdEvent N F
  deferred_notification : PreparedXswdNotification F → DeferredXswdEvent N F

pub data PendingXswdResponse (N : Type 0) : Type 0 where
  permission_response : (callback : ℕ) → PendingXswdResponse N
  prefetch_response : XswdPrefetchPermissions N → (callback : ℕ) → PendingXswdResponse N

pub data ActiveXswdCallbackKind (N : Type 0) : Type 0 where
  decision_kind :
      PendingXswdResponse N → (is_application_admission : Bool) → ActiveXswdCallbackKind N
  notification_kind : XswdNotificationKind → ActiveXswdCallbackKind N

pub data XswdActiveCallbackOutcome : Type 0 where
  decision_outcome : XswdDecisionCallbackOutcome → XswdActiveCallbackOutcome
  notification_outcome : XswdNotificationCallbackOutcome → XswdActiveCallbackOutcome

-- The boxed future of an active callback, by what it wraps the answer of Dart in.
pub data ActiveFuture : Type 0 where
  decision_future notification_future : ActiveFuture

pub record ActiveXswdCallback (N : Type 0) : Type 0 where
  pub state : ℕ
  pub kind : ActiveXswdCallbackKind N
  pub future : ActiveFuture

-- The variables of `run`, the registry, and what has happened. `is_closed` is set by `break`.
pub record Handler (N F : Type 0) : Type 0 where
  pub xswd_sessions : XswdSessionRegistry
  pub deferred : List (DeferredXswdEvent N F)
  pub active : Option (ActiveXswdCallback N)
  pub receive_burst : ℕ
  pub observed_states : List ℕ
  pub effects : List (Effect N F)
  pub is_closed : Bool
