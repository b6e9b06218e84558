-- ===== src/Xswd/Dispatcher/Bounded.antt =====
-- The queue of deferred events is bounded, and holds requests and notifications.
use xelis_wallet_flutter.Base.{
  ℕ, ◌+◌, ◌≤◌, ◌≡◌, Bool, true, false, Option, none, some, List, [], ◌∷◌, ◌++◌, nat_eq, length,
  length-append, All, arith, inl, inr, Option-cases,
}
use xelis_wallet_flutter.Xswd.Dispatcher.{
  max_deferred_xswd_events, XswdEvent, request_application, request_permission,
  prefetch_permissions, cancel_request, app_disconnect, PreparedXswdNotification, DeferredXswdEvent,
  raw, deferred_notification, ActiveXswdCallbackKind, decision_kind, notification_kind,
  ActiveFuture, decision_future, notification_future, ActiveXswdCallback,
}
use xelis_wallet_flutter.Xswd.Dispatcher.Queue.{
  cancel_deferred_xswd_decisions, defer_xswd_decision, defer_xswd_disconnect, is_decision_event,
  remove_decision, saturated, push_if_room,
}

abbrev pub IsQueued : {N F : Type 0} → DeferredXswdEvent N F → Type 0
IsQueued (raw event) = is_decision_event event ≡ true
IsQueued (deferred_notification n) = Unit

abbrev pub IsNotification : {N F : Type 0} → DeferredXswdEvent N F → Type 0
IsNotification (raw event) = ⊥
IsNotification (deferred_notification n) = Unit

abbrev pub fits_kind : {N : Type 0} → ActiveXswdCallbackKind N → ActiveFuture → Bool
fits_kind (decision_kind response admission) decision_future = true
fits_kind (notification_kind kind) notification_future = true
fits_kind kind future = false

abbrev pub IsMatched : {N : Type 0} → Option (ActiveXswdCallback N) → Type 0
IsMatched none = Unit
IsMatched (some a) = fits_kind a.kind a.future ≡ true

abbrev pub Fits : {N F : Type 0} → List (DeferredXswdEvent N F) → Type 0
Fits deferred = All IsQueued deferred × (length deferred ≤ max_deferred_xswd_events)

module _ {N F : Type 0} where
  pub All-snoc :
      (P : DeferredXswdEvent N F → Type 0) (ds : List (DeferredXswdEvent N F))
      (d : DeferredXswdEvent N F)
      → All P ds
      → P d
      → All P (ds ++ d ∷ [])
  All-snoc P [] d all one = (one, tt)
  All-snoc P (x ∷ ds) d all one = (all.0, All-snoc P ds d all.1 one)

  pub cancel_deferred-Fits :
      (ds : List (DeferredXswdEvent N F)) (state : ℕ)
      → All IsQueued ds
      → All IsQueued (cancel_deferred_xswd_decisions ds state).0
        × (length (cancel_deferred_xswd_decisions ds state).0 ≤ length ds)
  unfolding cancel_deferred_xswd_decisions
  cancel_deferred-Fits [] state all = (tt, omega arith)
  cancel_deferred-Fits (raw (request_application s c) ∷ ds) state all =
      ground (arith, cancel_deferred-Fits ds state all.1)
  cancel_deferred-Fits (raw (request_permission s r c) ∷ ds) state all =
      ground (arith, cancel_deferred-Fits ds state all.1)
  cancel_deferred-Fits (raw (prefetch_permissions s p c) ∷ ds) state all =
      ground (arith, cancel_deferred-Fits ds state all.1)
  cancel_deferred-Fits (raw (cancel_request s c) ∷ ds) state all = cc (all.0)
  cancel_deferred-Fits (raw (app_disconnect s) ∷ ds) state all = cc (all.0)
  cancel_deferred-Fits (deferred_notification n ∷ ds) state all =
      ground (arith, cancel_deferred-Fits ds state all.1)

  pub defer_xswd_decision-Fits :
      (ds : List (DeferredXswdEvent N F)) (event : XswdEvent N)
      → is_decision_event event ≡ true
      → Fits ds
      → Fits (defer_xswd_decision ds event).0
  unfolding defer_xswd_decision
  defer_xswd_decision-Fits ds event asks fits =
      ground
        (arith, All-snoc IsQueued ds (raw event) fits.0 asks, length-append ds (raw event ∷ []))

  -- Taking out the first request leaves one event less; without one there are only notifications.
  pub remove_decision-some :
      (ds : List (DeferredXswdEvent N F)) (event : DeferredXswdEvent N F)
      (others : List (DeferredXswdEvent N F))
      → remove_decision ds ≡ some (event, others)
      → All IsQueued ds
      → All IsQueued others × (length others + 1 ≡ length ds)
  unfolding remove_decision
  remove_decision-some [] event others h all = cc
  remove_decision-some (raw e ∷ ds) event others h all = ground (arith, all.0)
  remove_decision-some (deferred_notification n ∷ ds) event others h all =
      elim (Option-cases (remove_decision ds)) [
        | inl absent ↦ ground arith
        | inr ((e, rest), found) ↦ ground (arith, remove_decision-some ds e rest found all.1)
      ]

  pub remove_decision-none :
      (ds : List (DeferredXswdEvent N F))
      → remove_decision ds ≡ none
      → All IsQueued ds
      → All IsNotification ds
  unfolding remove_decision
  remove_decision-none [] h all = tt
  remove_decision-none (raw e ∷ ds) h all = ground (arith, all.0)
  remove_decision-none (deferred_notification n ∷ ds) h all = (
    tt,
    remove_decision-none ds
        (elim (Option-cases (remove_decision ds)) [
          | inl absent ↦ absent
          | inr (found, is) ↦ ground arith
        ])
        all.1,
  )

  push_if_room-Fits :
      (ds : List (DeferredXswdEvent N F)) (n : PreparedXswdNotification F)
      → Fits ds
      → Fits (push_if_room ds n)
  push_if_room-Fits ds n fits =
      let d : DeferredXswdEvent N F = deferred_notification n in
      ground (arith, All-snoc IsQueued ds d fits.0 tt, length-append ds (d ∷ []))

  saturated-Fits :
      (ds : List (DeferredXswdEvent N F)) (n : PreparedXswdNotification F)
      → Fits ds
      → Fits (saturated ds n).0
  saturated-Fits [] n fits = ((tt, tt), omega arith)
  saturated-Fits (e ∷ ds) n fits =
      let d : DeferredXswdEvent N F = deferred_notification n in
      (All-snoc IsQueued ds d fits.0.1 tt, omega (arith, fits.1, length-append ds (d ∷ [])))

  pub defer_xswd_disconnect-Fits :
      (ds : List (DeferredXswdEvent N F)) (active : Option (ActiveXswdCallback N))
      (n : PreparedXswdNotification F)
      → Fits ds
      → Fits (defer_xswd_disconnect ds active n).0
  unfolding defer_xswd_disconnect
  defer_xswd_disconnect-Fits ds active n fits = elim (Option-cases (remove_decision ds)) [
    | inl absent ↦ ground (arith, saturated-Fits ds n fits, push_if_room-Fits ds n fits)
    | inr ((e, rest), found) ↦
        let (all, less) = remove_decision-some ds e rest found fits.0 in
        ground (
          arith,
          push_if_room-Fits rest n (all, omega (arith, fits.1, less)),
          push_if_room-Fits ds n fits,
        )
  ]
