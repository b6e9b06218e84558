-- ===== src/Xswd/Dispatcher/Disconnect.antt =====
-- The disconnection of an application while a callback is active.
use xelis_wallet_flutter.Base.{
  ◌⊎◌, ℕ, ◌≡◌, refl, subst, ◌∙◌, Bool, true, false, Option, none, some, List, [], ◌∷◌, ◌++◌, any,
  arith, inl, inr, Bool-cases, Option-cases, ◌||◌, nat_eq, eq_refl,
}
use xelis_wallet_flutter.Xswd.Registry.{
  XswdSessionRegistry, XswdSessionReferenceError, invalidate_state,
}
use xelis_wallet_flutter.Base.Results.{Result, ok, err}
use xelis_wallet_flutter.Xswd.Dispatcher.{
  Effect, XswdRequestSummary, PreparedXswdNotification, DeferredXswdEvent, deferred_notification,
  ActiveXswdCallback, Handler, XswdNotificationKind,
}
use xelis_wallet_flutter.Xswd.Dispatcher.Answers.{is_decision_for, is_disconnect_for}
use xelis_wallet_flutter.Xswd.Dispatcher.Queue.{
  defer_xswd_disconnect, is_disconnect_of, remove_decision, saturated, already_deferred,
}
use xelis_wallet_flutter.Xswd.Dispatcher.Prepare.{
  Moment, start_notification, prepare_xswd_lifecycle_notification, create_lifecycle_event_summary,
  notification_type, notification_with,
}
use xelis_wallet_flutter.Xswd.Dispatcher.Loop.{
  begin, begin_if, drop_active, preempt, queue_disconnect, notify_disconnect, handle_app_disconnect,
}
use xelis_wallet_flutter.Xswd.Dispatcher.Bounded.{remove_decision-some, Fits}
use xelis_wallet_flutter.Xswd.Dispatcher.Shape.{Running, drop_active-Running, cancelled-Running}
use xelis_wallet_flutter.Xswd.Dispatcher.Shape.{cancelled, dropped-kept}

abbrev pub active_disconnect : {N : Type 0} → ℕ → Option (ActiveXswdCallback N) → Bool
active_disconnect state none = false
active_disconnect state (some active) = is_disconnect_for active state

-- Dart is being told, or will be told, that the application has disconnected.
abbrev pub Announced : {N F : Type 0} → ℕ → Handler N F → Type 0
Announced state h =
    (active_disconnect state h.active || any (is_disconnect_of state) h.deferred) ≡ true

-- A notification that is prepared of a disconnection names its application.
prepared-is :
    {F : Type 0} (m : Moment) (state : ℕ) (r r' : XswdSessionRegistry)
    (n : PreparedXswdNotification F)
    → prepare_xswd_lifecycle_notification m r state XswdNotificationKind.app_disconnect false
      ≡ (r', some n)
    → (n.kind ≡ XswdNotificationKind.app_disconnect) × (n.state ≡ state)
unfolding prepare_xswd_lifecycle_notification
prepared-is {F} m state r r' n h =
    with-is
      (create_lifecycle_event_summary m r state
        (notification_type XswdNotificationKind.app_disconnect))
      h
  where
    with-is :
        (x : XswdSessionRegistry × Result XswdSessionReferenceError (XswdRequestSummary F))
        → notification_with state XswdNotificationKind.app_disconnect false x ≡ (r', some n)
        → (n.kind ≡ XswdNotificationKind.app_disconnect) × (n.state ≡ state)
    with-is (q, ok s) h = ground arith
    with-is (q, err e) h = ground arith

module _ {N F : Type 0} where
  any-snoc :
      (p : DeferredXswdEvent N F → Bool) (ds : List (DeferredXswdEvent N F))
      (d : DeferredXswdEvent N F)
      → p d ≡ true
      → any p (ds ++ d ∷ []) ≡ true
  any-snoc p [] d h = ground arith
  any-snoc p (x ∷ ds) d h = ground (arith, any-snoc p ds d h)

  module _ (n : PreparedXswdNotification F)
      (tells : n.kind ≡ XswdNotificationKind.app_disconnect) where
    begin-Announced : (h : Handler N F) → Announced n.state (begin n h)
    unfolding begin start_notification
    begin-Announced h = ground (arith, tells, eq_refl n.state)

    queued :
        (ds : List (DeferredXswdEvent N F))
        → any (is_disconnect_of n.state) (ds ++ deferred_notification n ∷ []) ≡ true
    queued ds =
        any-snoc (is_disconnect_of n.state) ds (deferred_notification n)
          (ground (arith, tells, eq_refl n.state))

    saturated-queued :
        (ds : List (DeferredXswdEvent N F))
        → any (is_disconnect_of n.state) (saturated ds n).0 ≡ true
    saturated-queued [] = queued []
    saturated-queued (d ∷ ds) = queued ds

    -- The notification is in the queue, unless the active callback tells the same.
    defer_disconnect-cases :
        (ds : List (DeferredXswdEvent N F)) (active : ActiveXswdCallback N)
        → Fits ds
        → let (deferred, effects, next) = defer_xswd_disconnect ds (some active) n in
          (any (is_disconnect_of n.state) deferred ≡ true)
          ⊎ ((is_disconnect_for active n.state ≡ true) × (next ≡ none))
    unfolding defer_xswd_disconnect
    defer_disconnect-cases ds active fits =
        elim (Bool-cases (already_deferred ds (some active) n.state)) [
          | inl already ↦ rw already (elim (Bool-cases (is_disconnect_for active n.state)) [
            | inl tells ↦ inr (tells, refl)
            | inr other ↦ inl (ground (arith, other, already))
          ])
          | inr fresh ↦ rw fresh (elim (Option-cases (remove_decision ds)) [
            | inl absent ↦ inl (ground (arith, absent, saturated-queued ds, queued ds))
            | inr ((e, rest), found) ↦ inl (
                ground (
                  arith,
                  found,
                  queued rest,
                  queued ds,
                  fits.1,
                  remove_decision-some ds e rest found fits.0,
                ))
          ])
        ]

    preempt-Announced :
        (m : Moment) (active : ActiveXswdCallback N) (h : Handler N F)
        (q : List (DeferredXswdEvent N F) × List (Effect N F) × Option (PreparedXswdNotification F))
        → h.active ≡ some active
        → (any (is_disconnect_of n.state) q.0 ≡ true)
          ⊎ ((is_disconnect_for active n.state ≡ true) × (q.2 ≡ none))
        → Announced n.state (preempt m active q h)
    unfolding preempt begin start_notification
    preempt-Announced m active h (ds, es, none) is cases = ground (arith, is, cases)
    preempt-Announced m active h (ds, es, some next) is cases = ground (arith, is, cases)

    notify_disconnect-Announced :
        (cancels : Bool) (m : Moment) (active : ActiveXswdCallback N) (h : Handler N F)
        (r : XswdSessionRegistry)
        → (cancels ≡ false → h.active ≡ some active)
        → Fits h.deferred
        → Announced n.state (notify_disconnect cancels m active h (r, some n))
    unfolding notify_disconnect begin_if queue_disconnect
    notify_disconnect-Announced true m active h r is fits =
        begin-Announced (record h { xswd_sessions = r })
    notify_disconnect-Announced false m active h r is fits =
        preempt-Announced m active (record h { xswd_sessions = r })
          (defer_xswd_disconnect h.deferred (some active) n) (is refl)
          (defer_disconnect-cases h.deferred active fits)

-- When an application disconnects while a callback is active, and what Dart is to be shown can be
-- prepared, then Dart is being told of it or will be: the notification is active or in the queue,
-- also where the queue was full.
pub handle_app_disconnect-Announced :
    {N F : Type 0} (m : Moment) (active : ActiveXswdCallback N) (state : ℕ) (h : Handler N F)
    (r : XswdSessionRegistry) (n : PreparedXswdNotification F)
    → h.active ≡ some active
    → Running h
    → prepare_xswd_lifecycle_notification m
        (invalidate_state m.alive h.xswd_sessions state)
        state
        XswdNotificationKind.app_disconnect
        false
      ≡ (r, some n)
    → Announced state (handle_app_disconnect m active state h)
unfolding handle_app_disconnect
handle_app_disconnect-Announced {N} {F} m active state h r n is s prepared =
    let (kind, names) =
      prepared-is m state (invalidate_state m.alive h.xswd_sessions state) r n prepared in
    let cancels = is_decision_for active state in
    rw prepared (
      subst
        (λ k. Announced k (
          notify_disconnect cancels m active (drop_active cancels active (cancelled state h))
            (r, some n)))
        names
        (notify_disconnect-Announced n kind cancels m active
          (drop_active cancels active (cancelled state h)) r
          (λ no. dropped-kept cancels active (cancelled state h) no ∙ is)
          (drop_active-Running cancels active (cancelled state h)
            (cancelled-Running state h s)).fits))
