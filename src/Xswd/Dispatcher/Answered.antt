-- ===== src/Xswd/Dispatcher/Answered.antt =====
-- While a callback is active, every input leaves what was received answered or owed.
use xelis_wallet_flutter.Base.{
  ℕ, ◌+◌, ◌≡◌, refl, sym, subst, ap, ◌∙◌, Bool, true, false, Option, none, some, List, [], ◌∷◌,
  ◌++◌, arith, inl, inr, Bool-cases, ◌&&◌, ◌||◌, leb, nat_eq,
}
use xelis_wallet_flutter.Xswd.Registry.{XswdSessionRegistry, invalidate_state}
use xelis_wallet_flutter.Xswd.Dispatcher.{
  XswdEvent, request_application, request_permission, prefetch_permissions, cancel_request,
  app_disconnect, Effect, received, PreparedXswdNotification, DeferredXswdEvent,
  deferred_notification, ActiveXswdCallback, ActiveFuture, max_xswd_receive_burst, Handler,
  XswdNotificationKind,
}
use xelis_wallet_flutter.Xswd.Dispatcher.Answers.{
  acknowledge_cancelled_request, complete_kind, fail_kind, is_decision_for,
  is_application_admission,
}
use xelis_wallet_flutter.Xswd.Dispatcher.Queue.{
  cancel_deferred_xswd_decisions, defer_xswd_decision, defer_xswd_disconnect,
  fail_deferred_xswd_events,
}
use xelis_wallet_flutter.Xswd.Dispatcher.Prepare.{
  Moment, start_notification, prepare_xswd_lifecycle_notification,
}
use xelis_wallet_flutter.Xswd.Dispatcher.Loop.{
  Round, Incoming, pending, closed, arrived, XswdHandlerInput, callback_input, event_input,
  closed_input, waiting, take_event, begin, handle_callback, handle_closed, drop_active,
  queue_cancellation, handle_cancel_request, preempt, queue_disconnect, notify_disconnect,
  handle_app_disconnect, defer_event, handle_arrived, handle_input, select_input, emit,
  invalidate_if, outcome_of, DartAnswer, event_or, callback_or, next_burst,
}
use xelis_wallet_flutter.Xswd.Dispatcher.Bounded.{IsMatched, fits_kind}
use xelis_wallet_flutter.Xswd.Dispatcher.Shape.{
  Running, drop_active-Running, cancelled-Running, take_event-Running, burst-Running, cancelled,
  dropped-kept,
}
use xelis_wallet_flutter.Xswd.Dispatcher.Debt.{
  hit, owes, owed_kind, owed_active, owed_deferred, asked, answered, asked-append, answered-append,
  Pays, Pays-append, fail_kind-Pays, cancel_deferred-Pays, defer_xswd_decision-Pays,
  fail_deferred_events-Pays, defer_xswd_disconnect-Pays, owed-snoc,
}
use xelis_wallet_flutter.Xswd.Dispatcher.Settles.{
  debt, Settles, Settles-trans, begin-Settles, begin_if-Settles, emit-Settles, drop_active-Settles,
}

-- An outcome is one that the future of the active callback gives.
abbrev pub Fitting : {N : Type 0} → ActiveFuture → XswdHandlerInput N → Type 0
Fitting future (callback_input outcome) = (a : DartAnswer) × (outcome ≡ outcome_of future a)
Fitting future _ = Unit

module _ {N : Type 0} where
  event_or-Fitting :
      (future : ActiveFuture) (incoming : Incoming N) (other : XswdHandlerInput N)
      → Fitting future other
      → Fitting future (event_or incoming other)
  event_or-Fitting future (arrived event) other fitting = tt
  event_or-Fitting future closed other fitting = tt
  event_or-Fitting future pending other fitting = fitting

  callback_or-Fitting :
      (future : ActiveFuture) (answer : Option DartAnswer) (other : XswdHandlerInput N)
      → Fitting future other
      → Fitting future (callback_or future answer other)
  callback_or-Fitting future none other fitting = fitting
  callback_or-Fitting future (some a) other fitting = (a, refl)

  pub select_input-Fitting :
      (burst : ℕ) (r : Round N) (future : ActiveFuture)
      → Fitting future (select_input burst r future)
  unfolding select_input
  select_input-Fitting burst r future = elim (Bool-cases (leb max_xswd_receive_burst burst)) [
    | inl full ↦
        rw full
          (callback_or-Fitting future r.answer _ (event_or-Fitting future r.incoming waiting tt))
    | inr room ↦
        rw room
          (event_or-Fitting future r.incoming _ (callback_or-Fitting future r.answer waiting tt))
  ]

  complete_kind-Pays :
      (F : Type 0) (c : ℕ) (active : ActiveXswdCallback N) (a : DartAnswer)
      → fits_kind active.kind active.future ≡ true
      → Pays {F = F} c
          (owed_kind c active.kind)
          (complete_kind active.kind (outcome_of active.future a))
  unfolding complete_kind
  complete_kind-Pays F c active a fits = ground arith

module _ {N F : Type 0} (c : ℕ) where
  queue_cancellation-Settles :
      (cancels : Bool) (h : Handler N F)
      (n : XswdSessionRegistry × Option (PreparedXswdNotification F))
      → (cancels ≡ true → owed_active c h.active ≡ 0)
      → Settles c 0 h (queue_cancellation cancels h n)
  unfolding queue_cancellation
  queue_cancellation-Settles cancels h (r, none) idle = ground arith
  queue_cancellation-Settles true h (r, some n) idle =
      let s = begin-Settles c n (record h { xswd_sessions = r }) (idle refl) in
      record { taken = s.taken; paid = s.paid }
  queue_cancellation-Settles false h (r, some n) idle =
      let d : DeferredXswdEvent N F = deferred_notification n in
      ground (arith, owed-snoc c h.deferred d)

  preempt-Settles :
      (m : Moment) (active : ActiveXswdCallback N)
      (q : List (DeferredXswdEvent N F) × List (Effect N F) × Option (PreparedXswdNotification F))
      (h : Handler N F)
      → h.active ≡ some active
      → asked c q.1 ≡ 0
      → owed_deferred c h.deferred ≡ answered c q.1 + owed_deferred c q.0
      → Settles c 0 h (preempt m active q h)
  unfolding preempt begin start_notification
  preempt-Settles m active (ds, es, none) h is quiet pays =
      ground (arith, asked-append c h.effects es, answered-append c h.effects es)
  preempt-Settles m active (ds, es, some n) h is quiet pays =
      let fs = fail_kind {F = F} active.kind "XSWD_HANDLER_OVERLOADED" in
      let gs = (start_notification {N = N} n).1 in
      ground (
        arith,
        is,
        fail_kind-Pays F c active.kind "XSWD_HANDLER_OVERLOADED",
        asked-append c es fs,
        asked-append c h.effects (es ++ fs),
        asked-append c (h.effects ++ (es ++ fs)) gs,
        answered-append c es fs,
        answered-append c h.effects (es ++ fs),
        answered-append c (h.effects ++ (es ++ fs)) gs,
      )

  queue_disconnect-Settles :
      (m : Moment) (active : ActiveXswdCallback N) (h : Handler N F)
      (n : XswdSessionRegistry × Option (PreparedXswdNotification F))
      → h.active ≡ some active
      → Running h
      → Settles c 0 h (queue_disconnect m active h n)
  unfolding queue_disconnect
  queue_disconnect-Settles m active h (r, none) is s = ground arith
  queue_disconnect-Settles m active h (r, some n) is s =
      let (quiet, pays) = defer_xswd_disconnect-Pays c h.deferred (some active) n s.fits.0 in
      let t =
        preempt-Settles m active (defer_xswd_disconnect h.deferred (some active) n)
          (record h { xswd_sessions = r }) is quiet pays in
      record { taken = t.taken; paid = t.paid }

  notify_disconnect-Settles :
      (cancels : Bool) (m : Moment) (active : ActiveXswdCallback N) (h : Handler N F)
      (n : XswdSessionRegistry × Option (PreparedXswdNotification F))
      → (cancels ≡ true → owed_active c h.active ≡ 0)
      → (cancels ≡ false → h.active ≡ some active)
      → Running h
      → Settles c 0 h (notify_disconnect cancels m active h n)
  unfolding notify_disconnect
  notify_disconnect-Settles true m active h n idle is s = begin_if-Settles c h n (idle refl)
  notify_disconnect-Settles false m active h n idle is s =
      queue_disconnect-Settles m active h n (is refl) s

  dropped-idle :
      (b : Bool) (active : ActiveXswdCallback N) (h : Handler N F)
      → b ≡ true
      → owed_active c (drop_active b active h).active ≡ 0
  unfolding drop_active
  dropped-idle true active h e = refl
  dropped-idle false active h e = cc

  module _ (state : ℕ) (h : Handler N F) where
    cancelled-Settles : Settles c 0 h (cancelled state h)
    cancelled-Settles =
        let (retained, effects, admission) = cancel_deferred_xswd_decisions h.deferred state in
        let pays = cancel_deferred-Pays c h.deferred state in
        ground (arith, pays, asked-append c h.effects effects, answered-append c h.effects effects)

    handle_cancel_request-Settles :
        (m : Moment) (active : ActiveXswdCallback N) (callback : ℕ)
        → h.active ≡ some active
        → Settles c (hit c callback) h (handle_cancel_request m active state callback h)
    unfolding handle_cancel_request
    handle_cancel_request-Settles m active callback is =
        let cancels = is_decision_for active state in
        let adm =
          (cancel_deferred_xswd_decisions h.deferred state).2
          || cancels && is_application_admission active in
        let h' = drop_active cancels active (cancelled state h) in
        let ack = acknowledge_cancelled_request {N = N} {F = F} callback ∷ [] in
        let dropped =
          Settles-trans c cancelled-Settles
            (drop_active-Settles c cancels active (cancelled state h) is) in
        let acked =
          Settles-trans c dropped (emit-Settles c (hit c callback) ack h' (omega arith)) in
        let queued =
          queue_cancellation-Settles cancels (emit ack h')
            (prepare_xswd_lifecycle_notification m (invalidate_if adm m state h.xswd_sessions) state
              XswdNotificationKind.cancel_request adm)
            (dropped-idle cancels active (cancelled state h)) in
        record { taken = queued.taken ∙ acked.taken; paid = omega (arith, queued.paid, acked.paid) }

    handle_app_disconnect-Settles :
        (m : Moment) (active : ActiveXswdCallback N)
        → h.active ≡ some active
        → Running h
        → Settles c 0 h (handle_app_disconnect m active state h)
    unfolding handle_app_disconnect
    handle_app_disconnect-Settles m active is s =
        let cancels = is_decision_for active state in
        let h' = drop_active cancels active (cancelled state h) in
        let dropped =
          Settles-trans c cancelled-Settles
            (drop_active-Settles c cancels active (cancelled state h) is) in
        let notified =
          notify_disconnect-Settles cancels m active h'
            (prepare_xswd_lifecycle_notification m (invalidate_state m.alive h.xswd_sessions state)
              state XswdNotificationKind.app_disconnect false)
            (dropped-idle cancels active (cancelled state h))
            (λ no. dropped-kept cancels active (cancelled state h) no ∙ is)
            (drop_active-Running cancels active (cancelled state h)
              (cancelled-Running state h s)) in
        record {
          taken = notified.taken ∙ dropped.taken;
          paid = omega (arith, notified.paid, dropped.paid);
        }

  defer_event-Settles :
      (event : XswdEvent N) (h : Handler N F) → Settles c (owes c event) h (defer_event event h)
  unfolding defer_event
  defer_event-Settles event h =
      let pays = defer_xswd_decision-Pays {F = F} c h.deferred event in
      let es = (defer_xswd_decision h.deferred event).1 in
      ground (arith, pays, asked-append c h.effects es, answered-append c h.effects es)

  handle_arrived-Settles :
      (m : Moment) (active : ActiveXswdCallback N) (event : XswdEvent N) (h : Handler N F)
      → h.active ≡ some active
      → Running h
      → Settles c (owes c event) h (handle_arrived m active event h)
  unfolding handle_arrived
  handle_arrived-Settles m active (request_application x k) h is s = defer_event-Settles _ h
  handle_arrived-Settles m active (request_permission x r k) h is s = defer_event-Settles _ h
  handle_arrived-Settles m active (prefetch_permissions x p k) h is s = defer_event-Settles _ h
  handle_arrived-Settles m active (cancel_request x k) h is s =
      handle_cancel_request-Settles x h m active k is
  handle_arrived-Settles m active (app_disconnect x) h is s =
      handle_app_disconnect-Settles x h m active is s

  -- The events that were received are answered or owed.
  abbrev pub Balanced : Handler N F → Type 0
  Balanced h = asked c h.effects ≡ debt c h

  pub Settles-Balanced :
      {n : ℕ} {h h' : Handler N F}
      → Settles c n h h'
      → asked c h.effects ≡ debt c h + n
      → Balanced h'
  Settles-Balanced s b = omega (arith, s.taken, s.paid, b)

  pub take_event-active :
      (m : Moment) (event : XswdEvent N) (h : Handler N F)
      → (take_event m event h).active ≡ h.active
  unfolding take_event
  take_event-active m event h = refl

  pub take_event-owes :
      (m : Moment) (event : XswdEvent N) (h : Handler N F)
      → Balanced h
      → asked c (take_event m event h).effects ≡ debt c (take_event m event h) + owes c event
  unfolding take_event
  take_event-owes m event h b = ground (
    arith,
    asked-append c h.effects (received event ∷ []),
    answered-append c h.effects (received event ∷ []),
  )

  pub handle_input-Balanced :
      (m : Moment) (active : ActiveXswdCallback N) (input : XswdHandlerInput N) (h : Handler N F)
      → h.active ≡ some active
      → Fitting active.future input
      → Running h
      → Balanced h
      → Balanced (handle_input m active input h)
  unfolding handle_input handle_callback handle_closed
  handle_input-Balanced m active waiting h is fitting s b = b
  handle_input-Balanced m active (callback_input outcome) h is (a, same) s b =
      let es = complete_kind {F = F} active.kind outcome in
      let pays =
        subst (λ o. Pays {F = F} c (owed_kind c active.kind) (complete_kind active.kind o))
          (sym same) (complete_kind-Pays F c active a (subst IsMatched is s.matched)) in
      omega (
        arith,
        b,
        pays,
        asked-append c h.effects es,
        answered-append c h.effects es,
        ap (owed_active c) is,
      )
  handle_input-Balanced m active closed_input h is fitting s b =
      let es = fail_kind {F = F} active.kind "XSWD_HANDLER_CLOSED" in
      let fs = fail_deferred_xswd_events h.deferred "XSWD_HANDLER_CLOSED" in
      let pays =
        Pays-append c _ _ es fs (fail_kind-Pays F c active.kind "XSWD_HANDLER_CLOSED")
          (fail_deferred_events-Pays c h.deferred "XSWD_HANDLER_CLOSED") in
      omega (
        arith,
        b,
        pays,
        asked-append c h.effects (es ++ fs),
        answered-append c h.effects (es ++ fs),
        ap (owed_active c) is,
      )
  handle_input-Balanced m active (event_input event) h is fitting s b =
      let g = record h { receive_burst = next_burst h.receive_burst } in
      let taken = take_event m event g in
      Settles-Balanced
        (handle_arrived-Settles m active event taken (take_event-active m event g ∙ is)
          (take_event-Running m event g (burst-Running h s)))
        (take_event-owes m event g b)
