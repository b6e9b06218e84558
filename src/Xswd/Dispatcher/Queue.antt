-- ===== src/Xswd/Dispatcher/Queue.antt =====
-- The queue of deferred events of rust/src/api/xswd/impl/dispatcher.rs. Each function gives the queue
-- that it leaves and what it sends.
use xelis_wallet_flutter.Base.{
  ℕ, Bool, true, false, ◌&&◌, ◌||◌, Option, none, some, List, [], ◌∷◌, ◌++◌, String, nat_eq, ◌==◌,
  any, length, ltb, leb, if◌then◌else◌,
}
use xelis_wallet_flutter.Xswd.Dispatcher.{
  max_deferred_xswd_events, XswdEvent, request_application, request_permission,
  prefetch_permissions, cancel_request, app_disconnect, Effect, XswdNotificationKind,
  PreparedXswdNotification, DeferredXswdEvent, raw, deferred_notification, ActiveXswdCallback,
}
use xelis_wallet_flutter.Xswd.Dispatcher.Answers.{
  send_permission_failure, send_prefetch_failure, acknowledge_cancelled_request, is_disconnect_for,
}

abbrev pub is_decision_event : {N : Type 0} → XswdEvent N → Bool
is_decision_event (cancel_request s callback) = false
is_decision_event (app_disconnect s) = false
is_decision_event _ = true

abbrev pub is_app_disconnect : XswdNotificationKind → Bool
is_app_disconnect XswdNotificationKind.app_disconnect = true
is_app_disconnect XswdNotificationKind.cancel_request = false

module _ {N F : Type 0} where
  -- Also says whether the request of an application to be admitted was cancelled.
  unfoldable pub cancel_deferred_xswd_decisions :
      List (DeferredXswdEvent N F) → ℕ → List (DeferredXswdEvent N F) × List (Effect N F) × Bool
  cancel_deferred_xswd_decisions [] state = ([], [], false)
  cancel_deferred_xswd_decisions (raw (request_application s callback) ∷ ds) state =
      let (retained, effects, admission) = cancel_deferred_xswd_decisions ds state in
      if s == state
      then (retained, send_permission_failure callback "XSWD_REQUEST_CANCELLED" ∷ effects, true)
      else (raw (request_application s callback) ∷ retained, effects, admission)
  cancel_deferred_xswd_decisions (raw (request_permission s request callback) ∷ ds) state =
      let (retained, effects, admission) = cancel_deferred_xswd_decisions ds state in
      if s == state
      then (
        retained,
        send_permission_failure callback "XSWD_REQUEST_CANCELLED" ∷ effects,
        admission,
      )
      else (raw (request_permission s request callback) ∷ retained, effects, admission)
  cancel_deferred_xswd_decisions (raw (prefetch_permissions s permissions callback) ∷ ds) state =
      let (retained, effects, admission) = cancel_deferred_xswd_decisions ds state in
      if s == state
      then (retained, send_prefetch_failure callback "XSWD_REQUEST_CANCELLED" ∷ effects, admission)
      else (raw (prefetch_permissions s permissions callback) ∷ retained, effects, admission)
  cancel_deferred_xswd_decisions (event ∷ ds) state =
      let (retained, effects, admission) = cancel_deferred_xswd_decisions ds state in
      (event ∷ retained, effects, admission)

  -- The answer to an event that is dropped.
  unfoldable pub fail_event : XswdEvent N → String → List (Effect N F)
  fail_event (request_application s callback) code = send_permission_failure callback code ∷ []
  fail_event (request_permission s request callback) code =
      send_permission_failure callback code ∷ []
  fail_event (prefetch_permissions s permissions callback) code =
      send_prefetch_failure callback code ∷ []
  fail_event (cancel_request s callback) code = acknowledge_cancelled_request callback ∷ []
  fail_event (app_disconnect s) code = []

  unfoldable pub defer_xswd_decision :
      List (DeferredXswdEvent N F) → XswdEvent N → List (DeferredXswdEvent N F) × List (Effect N F)
  unfolding fail_event
  defer_xswd_decision deferred event =
      if ltb (length deferred) max_deferred_xswd_events
      then (deferred ++ raw event ∷ [], [])
      else (deferred, fail_event event "XSWD_REQUEST_QUEUE_FULL")

  unfoldable pub fail_deferred_xswd_event : DeferredXswdEvent N F → String → List (Effect N F)
  unfolding fail_event
  fail_deferred_xswd_event (raw event) code = fail_event event code
  fail_deferred_xswd_event (deferred_notification notification) code = []

  unfoldable pub fail_deferred_xswd_events :
      List (DeferredXswdEvent N F) → String → List (Effect N F)
  unfolding fail_deferred_xswd_event
  fail_deferred_xswd_events [] code = []
  fail_deferred_xswd_events (event ∷ ds) code =
      fail_deferred_xswd_event event code ++ fail_deferred_xswd_events ds code

  abbrev pub is_xswd_decision_event : DeferredXswdEvent N F → Bool
  is_xswd_decision_event (raw event) = is_decision_event event
  is_xswd_decision_event (deferred_notification notification) = false

  abbrev pub is_disconnect_of : ℕ → DeferredXswdEvent N F → Bool
  is_disconnect_of state (raw event) = false
  is_disconnect_of state (deferred_notification n) = is_app_disconnect n.kind && n.state == state

  -- `position` of the first decision and `remove`.
  unfoldable pub remove_decision :
      List (DeferredXswdEvent N F) → Option (DeferredXswdEvent N F × List (DeferredXswdEvent N F))
  remove_decision [] = none
  remove_decision (event ∷ ds) =
      let rest = remove_decision ds in
      if is_xswd_decision_event event
      then some (event, ds)
      else elim rest [ none ↦ none | some (found, others) ↦ some (found, event ∷ others) ]

  abbrev pub notification_of : DeferredXswdEvent N F → Option (PreparedXswdNotification F)
  notification_of (deferred_notification n) = some n
  notification_of (raw event) = none

  abbrev pub saturated :
      List (DeferredXswdEvent N F)
      → PreparedXswdNotification F
      → List (DeferredXswdEvent N F) × List (Effect N F) × Option (PreparedXswdNotification F)
  saturated [] notification = (deferred_notification notification ∷ [], [], none)
  saturated (event ∷ ds) notification =
      (ds ++ deferred_notification notification ∷ [], [], notification_of event)

  abbrev pub push_if_room :
      List (DeferredXswdEvent N F) → PreparedXswdNotification F → List (DeferredXswdEvent N F)
  push_if_room deferred notification =
      if ltb (length deferred) max_deferred_xswd_events
      then deferred ++ deferred_notification notification ∷ []
      else deferred

  abbrev pub already_deferred :
      List (DeferredXswdEvent N F) → Option (ActiveXswdCallback N) → ℕ → Bool
  already_deferred deferred none state = any (is_disconnect_of state) deferred
  already_deferred deferred (some active) state =
      is_disconnect_for active state || any (is_disconnect_of state) deferred

  unfoldable pub defer_xswd_disconnect :
      List (DeferredXswdEvent N F)
      → Option (ActiveXswdCallback N)
      → PreparedXswdNotification F
      → List (DeferredXswdEvent N F) × List (Effect N F) × Option (PreparedXswdNotification F)
  unfolding remove_decision fail_deferred_xswd_event
  defer_xswd_disconnect deferred active notification =
      if already_deferred deferred active notification.state
      then (deferred, [], none)
      else if leb max_deferred_xswd_events (length deferred)
      then elim (remove_decision deferred) [
        | some (event, others) ↦ (
          push_if_room others notification,
          fail_deferred_xswd_event event "XSWD_REQUEST_QUEUE_FULL",
          none,
        )
        | none ↦ saturated deferred notification
      ]
      else (push_if_room deferred notification, [], none)
