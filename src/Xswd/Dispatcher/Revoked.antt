-- ===== src/Xswd/Dispatcher/Revoked.antt =====
-- What the handler of an input does to the registry, as calls on it.
use xelis_wallet_flutter.Base.{
  ℕ, ◌≡◌, refl, sym, subst, Bool, true, false, Option, none, some, List, [], ◌∷◌, ◌++◌, keep_if,
  arith, ◌&&◌, ◌||◌,
}
use xelis_wallet_flutter.Xswd.Registry.{XswdSessionRegistry, invalidate_state}
use xelis_wallet_flutter.Xswd.Dispatcher.{
  XswdEvent, request_application, request_permission, prefetch_permissions, cancel_request,
  app_disconnect, Effect, PreparedXswdNotification, DeferredXswdEvent, XswdNotificationKind,
  ActiveXswdCallback, Handler,
}
use xelis_wallet_flutter.Xswd.Dispatcher.Answers.{
  acknowledge_cancelled_request, is_decision_for, is_application_admission,
}
use xelis_wallet_flutter.Xswd.Dispatcher.Queue.{
  cancel_deferred_xswd_decisions, defer_xswd_disconnect, is_app_disconnect,
}
use xelis_wallet_flutter.Xswd.Dispatcher.Prepare.{
  Moment, decision, lifecycle, handled, disconnected_event, Preparation, acknowledge,
  prepare_xswd_lifecycle_notification,
}
use xelis_wallet_flutter.Xswd.Dispatcher.Loop.{
  XswdHandlerInput, callback_input, event_input, closed_input, waiting, take_event, next_burst,
  begin, begin_if, handle_lifecycle, handle_prepared, handle_callback, handle_closed, drop_active,
  queue_cancellation, handle_cancel_request, preempt, queue_disconnect, notify_disconnect,
  handle_app_disconnect, defer_event, handle_arrived, handle_input, emit, invalidate_if,
}
use xelis_wallet_flutter.Xswd.Dispatcher.Shape.{cancelled}
use xelis_wallet_flutter.Xswd.Dispatcher.Sessions.{
  Reaches, stays, Reaches-trans, invalidate_state-Reaches, invalidate_if-Reaches,
  invalidate_each-Reaches, notification-Reaches,
}

module _ {N F : Type 0} (P : (ℕ → Bool) → Type 0) (m : Moment) (here : P m.alive) where
  pub begin_if-sessions :
      (h : Handler N F) (n : XswdSessionRegistry × Option (PreparedXswdNotification F))
      → (begin_if h n).xswd_sessions ≡ n.0
  unfolding begin_if begin
  begin_if-sessions h (r, none) = refl
  begin_if-sessions h (r, some n) = refl

  pub handle_prepared-Reaches :
      (p : Preparation N F) (h : Handler N F) → Reaches P p.0 (handle_prepared m p h).xswd_sessions
  unfolding handle_prepared handle_lifecycle
  handle_prepared-Reaches (r, es, decision d) h = stays P r
  handle_prepared-Reaches (r, es, handled) h = stays P r
  handle_prepared-Reaches (r, es, lifecycle event) h =
      let (state, kind, fs) = acknowledge {N = N} {F = F} event in
      let q = invalidate_if (is_app_disconnect kind) m state r in
      subst (Reaches P r)
        (sym (
          begin_if-sessions (record h { xswd_sessions = r; effects = (h.effects ++ es) ++ fs })
            (prepare_xswd_lifecycle_notification m q state kind false)))
        (Reaches-trans P
          (invalidate_if-Reaches P m.alive here (is_app_disconnect kind) m.app r state)
          (notification-Reaches P m here F q state kind false))

  pub handle_disconnected-Reaches :
      (state : ℕ) (h : Handler N F)
      → Reaches P
          (invalidate_state m.alive h.xswd_sessions state)
          (handle_lifecycle m (disconnected_event state) h).xswd_sessions
  unfolding handle_lifecycle
  handle_disconnected-Reaches state h =
      let q = invalidate_state m.alive h.xswd_sessions state in
      subst (Reaches P q)
        (sym (
          begin_if-sessions (emit [] h) (
            prepare_xswd_lifecycle_notification m q state XswdNotificationKind.app_disconnect
              false)))
        (notification-Reaches P m here F q state XswdNotificationKind.app_disconnect false)

  queue_cancellation-sessions :
      (cancels : Bool) (h : Handler N F)
      (n : XswdSessionRegistry × Option (PreparedXswdNotification F))
      → (queue_cancellation cancels h n).xswd_sessions ≡ n.0
  unfolding queue_cancellation begin
  queue_cancellation-sessions cancels h (r, none) = refl
  queue_cancellation-sessions true h (r, some n) = refl
  queue_cancellation-sessions false h (r, some n) = ground arith

  handle_cancel_request-Reaches :
      (active : ActiveXswdCallback N) (state callback : ℕ) (h : Handler N F)
      → Reaches P h.xswd_sessions (handle_cancel_request m active state callback h).xswd_sessions
  unfolding handle_cancel_request
  handle_cancel_request-Reaches active state callback h =
      let cancels = is_decision_for active state in
      let adm =
        (cancel_deferred_xswd_decisions h.deferred state).2
        || cancels && is_application_admission active in
      let q = invalidate_if adm m state h.xswd_sessions in
      subst (Reaches P h.xswd_sessions)
        (sym (
          queue_cancellation-sessions cancels
            (emit (acknowledge_cancelled_request callback ∷ [])
              (drop_active cancels active (cancelled state h)))
            (prepare_xswd_lifecycle_notification m q state XswdNotificationKind.cancel_request
              adm)))
        (Reaches-trans P (invalidate_if-Reaches P m.alive here adm m.app h.xswd_sessions state)
          (notification-Reaches P m here F q state XswdNotificationKind.cancel_request adm))

  preempt-Reaches :
      (active : ActiveXswdCallback N)
      (q : List (DeferredXswdEvent N F) × List (Effect N F) × Option (PreparedXswdNotification F))
      (h : Handler N F)
      → Reaches P h.xswd_sessions (preempt m active q h).xswd_sessions
  unfolding preempt begin
  preempt-Reaches active (ds, es, none) h = stays P h.xswd_sessions
  preempt-Reaches active (ds, es, some n) h =
      invalidate_if-Reaches P m.alive here (is_application_admission active) m.app h.xswd_sessions
        active.state

  notify_disconnect-Reaches :
      (cancels : Bool) (active : ActiveXswdCallback N) (h : Handler N F)
      (n : XswdSessionRegistry × Option (PreparedXswdNotification F))
      → Reaches P n.0 (notify_disconnect cancels m active h n).xswd_sessions
  unfolding notify_disconnect queue_disconnect
  notify_disconnect-Reaches true active h n =
      subst (Reaches P n.0) (sym (begin_if-sessions h n)) (stays P n.0)
  notify_disconnect-Reaches false active h (r, none) = stays P r
  notify_disconnect-Reaches false active h (r, some n) =
      preempt-Reaches active (defer_xswd_disconnect h.deferred (some active) n)
        (record h { xswd_sessions = r })

  pub handle_app_disconnect-Reaches :
      (active : ActiveXswdCallback N) (state : ℕ) (h : Handler N F)
      → Reaches P
          (invalidate_state m.alive h.xswd_sessions state)
          (handle_app_disconnect m active state h).xswd_sessions
  unfolding handle_app_disconnect
  handle_app_disconnect-Reaches active state h =
      let cancels = is_decision_for active state in
      let q = invalidate_state m.alive h.xswd_sessions state in
      Reaches-trans P
        (notification-Reaches P m here F q state XswdNotificationKind.app_disconnect false)
        (notify_disconnect-Reaches cancels active (drop_active cancels active (cancelled state h))
          (prepare_xswd_lifecycle_notification m q state XswdNotificationKind.app_disconnect false))

  handle_arrived-Reaches :
      (active : ActiveXswdCallback N) (event : XswdEvent N) (h : Handler N F)
      → Reaches P h.xswd_sessions (handle_arrived m active event h).xswd_sessions
  unfolding handle_arrived defer_event
  handle_arrived-Reaches active (request_application x k) h = stays P h.xswd_sessions
  handle_arrived-Reaches active (request_permission x r k) h = stays P h.xswd_sessions
  handle_arrived-Reaches active (prefetch_permissions x p k) h = stays P h.xswd_sessions
  handle_arrived-Reaches active (cancel_request x k) h = handle_cancel_request-Reaches active x k h
  handle_arrived-Reaches active (app_disconnect x) h =
      Reaches-trans P (invalidate_state-Reaches P m.alive here h.xswd_sessions x)
        (handle_app_disconnect-Reaches active x h)

  pub handle_input-Reaches :
      (active : ActiveXswdCallback N) (input : XswdHandlerInput N) (h : Handler N F)
      → Reaches P h.xswd_sessions (handle_input m active input h).xswd_sessions
  unfolding handle_input handle_callback handle_closed take_event
  handle_input-Reaches active (callback_input o) h = stays P h.xswd_sessions
  handle_input-Reaches active waiting h = stays P h.xswd_sessions
  handle_input-Reaches active closed_input h =
      invalidate_each-Reaches P m.alive here (keep_if m.alive h.observed_states) h.xswd_sessions
  handle_input-Reaches active (event_input event) h =
      handle_arrived-Reaches active event
        (take_event m event (record h { receive_burst = next_burst h.receive_burst }))
