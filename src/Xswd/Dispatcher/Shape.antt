-- ===== src/Xswd/Dispatcher/Shape.antt =====
-- The shape of the handler's state, which every round keeps.
use xelis_wallet_flutter.Base.{
  ◌⊎◌, ℕ, ◌≤◌, ◌≡◌, refl, sym, subst, Bool, true, false, Option, none, some, List, [], ◌∷◌, ◌++◌,
  length-append, arith, inl, inr, if◌then◌else◌, ◌&&◌, ◌||◌, nat_eq,
}
use xelis_wallet_flutter.Xswd.Limits.{NativeXswdProjectionLimits}
use xelis_wallet_flutter.Xswd.Payload.{JsonNumbers}
use xelis_wallet_flutter.Xswd.Registry.{XswdSessionRegistry}
use xelis_wallet_flutter.Xswd.Registry
use xelis_wallet_flutter.Xswd.Dispatcher.{
  max_xswd_receive_burst, XswdEvent, request_application, request_permission, prefetch_permissions,
  cancel_request, app_disconnect, Effect, PreparedXswdNotification, DeferredXswdEvent, raw,
  deferred_notification, ActiveXswdCallback, Handler, XswdNotificationKind,
}
use xelis_wallet_flutter.Xswd.Dispatcher.Answers.{
  acknowledge_cancelled_request, is_decision_for, is_application_admission,
}
use xelis_wallet_flutter.Xswd.Dispatcher.Queue.{
  cancel_deferred_xswd_decisions, defer_xswd_disconnect, is_decision_event,
}
use xelis_wallet_flutter.Xswd.Dispatcher.Prepare.{
  Moment, decision, lifecycle, handled, Preparation, start_notification,
  prepare_xswd_lifecycle_notification,
}
use xelis_wallet_flutter.Xswd.Dispatcher.Loop.{
  Round, Incoming, pending, closed, arrived, XswdHandlerInput, callback_input, event_input,
  closed_input, waiting, take_event, begin, begin_if, handle_lifecycle, handle_prepared,
  handle_callback, handle_closed, drop_active, queue_cancellation, handle_cancel_request, preempt,
  queue_disconnect, notify_disconnect, handle_app_disconnect, defer_event, handle_arrived,
  handle_input, handle_raw, idle_round, open_round, round, run, idle_handler, next_burst, emit,
  invalidate_if,
}
use xelis_wallet_flutter.Xswd.Dispatcher.Bounded.{
  IsQueued, IsMatched, Fits, cancel_deferred-Fits, defer_xswd_decision-Fits,
  defer_xswd_disconnect-Fits, All-snoc,
}

-- The queue fits, an active callback waits for the kind of answer that its future gives, and the
-- burst is within its bound.
pub record Running {N F : Type 0} (h : Handler N F) : Type 0 where
  pub going : h.is_closed ≡ false
  pub fits : Fits h.deferred
  pub matched : IsMatched h.active
  pub burst : h.receive_burst ≤ max_xswd_receive_burst

-- A closed handler has nothing left.
pub record Ended {N F : Type 0} (h : Handler N F) : Type 0 where
  pub over : h.is_closed ≡ true
  pub idle : h.active ≡ none
  pub empty : h.deferred ≡ []

module _ {N F : Type 0} where
  kept :
      {h : Handler N F} {r : XswdSessionRegistry} {es : List (Effect N F)} {observed : List ℕ}
      → Running h
      → Running (record h { xswd_sessions = r; effects = es; observed_states = observed })
  kept s = ground arith

  begin-Running :
      (n : PreparedXswdNotification F) (h : Handler N F)
      → h.is_closed ≡ false
      → Fits h.deferred
      → Running (begin n h)
  unfolding begin start_notification
  begin-Running n h going fits = record {
    going = going;
    fits = fits;
    matched = refl;
    burst = omega arith;
  }

  begin_if-Running :
      (h : Handler N F) (n : XswdSessionRegistry × Option (PreparedXswdNotification F))
      → Running h
      → Running (begin_if h n)
  unfolding begin_if begin start_notification
  begin_if-Running h (r, none) s = ground arith
  begin_if-Running h (r, some n) s = record {
    going = s.going;
    fits = s.fits;
    matched = refl;
    burst = omega arith;
  }

  handle_prepared-Running :
      (m : Moment) (p : Preparation N F) (h : Handler N F)
      → Running h
      → Running (handle_prepared m p h)
  unfolding handle_prepared handle_lifecycle
  handle_prepared-Running m (r, es, decision d) h s = record {
    going = s.going;
    fits = s.fits;
    matched = refl;
    burst = omega arith;
  }
  handle_prepared-Running m (r, es, lifecycle e) h s = search (begin_if-Running, kept s)
  handle_prepared-Running m (r, es, handled) h s = ground arith

  queue_cancellation-Running :
      (cancels : Bool) (h : Handler N F)
      (n : XswdSessionRegistry × Option (PreparedXswdNotification F))
      → Running h
      → Running (queue_cancellation cancels h n)
  unfolding queue_cancellation begin start_notification
  queue_cancellation-Running cancels h (r, none) s = ground arith
  queue_cancellation-Running true h (r, some n) s = record {
    going = s.going;
    fits = s.fits;
    matched = refl;
    burst = omega arith;
  }
  queue_cancellation-Running false h (r, some n) s =
      let d : DeferredXswdEvent N F = deferred_notification n in
      ground (arith, All-snoc IsQueued h.deferred d s.fits.0 tt, length-append h.deferred (d ∷ []))

  pub drop_active-Running :
      (cancels : Bool) (active : ActiveXswdCallback N) (h : Handler N F)
      → Running h
      → Running (drop_active cancels active h)
  unfolding drop_active
  drop_active-Running true active h s = ground arith
  drop_active-Running false active h s = s

  pub dropped-kept :
      (b : Bool) (active : ActiveXswdCallback N) (h : Handler N F)
      → b ≡ false
      → (drop_active b active h).active ≡ h.active
  unfolding drop_active
  dropped-kept true active h e = cc
  dropped-kept false active h e = refl

  module _ (state : ℕ) (h : Handler N F) where
    -- The deferred requests of `state` are cancelled.
    abbrev pub cancelled : Handler N F
    cancelled =
        let (retained, effects, admission) = cancel_deferred_xswd_decisions h.deferred state in
        record h { deferred = retained; effects = h.effects ++ effects }

  module _ (state : ℕ) (h : Handler N F) (s : Running h) where
    pub cancelled-Running : Running (record h {
      deferred = (cancel_deferred_xswd_decisions h.deferred state).0;
      effects = h.effects ++ (cancel_deferred_xswd_decisions h.deferred state).1;
    })
    cancelled-Running =
        let (all, less) = cancel_deferred-Fits h.deferred state s.fits.0 in
        record {
          going = s.going;
          fits = (all, omega (arith, less, s.fits.1));
          matched = s.matched;
          burst = s.burst;
        }

    handle_cancel_request-Running :
        (m : Moment) (active : ActiveXswdCallback N) (callback : ℕ)
        → Running (handle_cancel_request m active state callback h)
    unfolding handle_cancel_request
    handle_cancel_request-Running m active callback =
        let (retained, effects, admission) = cancel_deferred_xswd_decisions h.deferred state in
        let cancels = is_decision_for active state in
        let cancelled = admission || cancels && is_application_admission active in
        let h' =
          drop_active cancels active
            (record h { deferred = retained; effects = h.effects ++ effects }) in
        queue_cancellation-Running cancels (emit (acknowledge_cancelled_request callback ∷ []) h')
          (prepare_xswd_lifecycle_notification m (invalidate_if cancelled m state h.xswd_sessions)
            state XswdNotificationKind.cancel_request cancelled)
          (kept (drop_active-Running cancels active _ cancelled-Running))

    preempt-Running :
        (m : Moment) (active : ActiveXswdCallback N)
        (q : List (DeferredXswdEvent N F) × List (Effect N F) × Option (PreparedXswdNotification F))
        → Fits q.0
        → Running (preempt m active q h)
    unfolding preempt begin start_notification
    preempt-Running m active (ds, es, none) fits = ground arith
    preempt-Running m active (ds, es, some n) fits = record {
      going = s.going;
      fits = fits;
      matched = refl;
      burst = omega arith;
    }

  queue_disconnect-Running :
      (m : Moment) (active : ActiveXswdCallback N) (h : Handler N F)
      (n : XswdSessionRegistry × Option (PreparedXswdNotification F))
      → Running h
      → Running (queue_disconnect m active h n)
  unfolding queue_disconnect
  queue_disconnect-Running m active h (r, none) s = ground arith
  queue_disconnect-Running m active h (r, some n) s =
      preempt-Running active.state (record h { xswd_sessions = r }) (kept s) m active
        (defer_xswd_disconnect h.deferred (some active) n)
        (defer_xswd_disconnect-Fits h.deferred (some active) n s.fits)

  notify_disconnect-Running :
      (cancels : Bool) (m : Moment) (active : ActiveXswdCallback N) (h : Handler N F)
      (n : XswdSessionRegistry × Option (PreparedXswdNotification F))
      → Running h
      → Running (notify_disconnect cancels m active h n)
  unfolding notify_disconnect
  notify_disconnect-Running true m active h n s = begin_if-Running h n s
  notify_disconnect-Running false m active h n s = queue_disconnect-Running m active h n s

  handle_app_disconnect-Running :
      (m : Moment) (active : ActiveXswdCallback N) (state : ℕ) (h : Handler N F)
      → Running h
      → Running (handle_app_disconnect m active state h)
  unfolding handle_app_disconnect
  handle_app_disconnect-Running m active state h s =
      notify_disconnect-Running (is_decision_for active state) m active _ _
        (drop_active-Running (is_decision_for active state) active _ (cancelled-Running state h s))

  defer_event-Running :
      (event : XswdEvent N) (h : Handler N F)
      → is_decision_event event ≡ true
      → Running h
      → Running (defer_event event h)
  unfolding defer_event
  defer_event-Running event h asks s = record {
    going = s.going;
    fits = defer_xswd_decision-Fits h.deferred event asks s.fits;
    matched = s.matched;
    burst = s.burst;
  }

  handle_arrived-Running :
      (m : Moment) (active : ActiveXswdCallback N) (event : XswdEvent N) (h : Handler N F)
      → Running h
      → Running (handle_arrived m active event h)
  unfolding handle_arrived
  handle_arrived-Running m active (request_application x c) h s = defer_event-Running _ h refl s
  handle_arrived-Running m active (request_permission x r c) h s = defer_event-Running _ h refl s
  handle_arrived-Running m active (prefetch_permissions x p c) h s = defer_event-Running _ h refl s
  handle_arrived-Running m active (cancel_request x c) h s =
      handle_cancel_request-Running x h s m active c
  handle_arrived-Running m active (app_disconnect x) h s =
      handle_app_disconnect-Running m active x h s

  pub take_event-Running :
      (m : Moment) (event : XswdEvent N) (h : Handler N F)
      → Running h
      → Running (take_event m event h)
  unfolding take_event
  take_event-Running m event h s = ground arith

  pub burst-Running :
      (h : Handler N F)
      → Running h
      → Running (record h { receive_burst = next_burst h.receive_burst })
  burst-Running h s = record {
    going = s.going;
    fits = s.fits;
    matched = s.matched;
    burst = ground (arith, s.burst);
  }

  handle_input-Shape :
      (m : Moment) (active : ActiveXswdCallback N) (input : XswdHandlerInput N) (h : Handler N F)
      → Running h
      → Running (handle_input m active input h) ⊎ Ended (handle_input m active input h)
  unfolding handle_input
  handle_input-Shape m active (callback_input outcome) h s =
      unfold handle_callback in
      inl (record { going = s.going; fits = s.fits; matched = tt; burst = omega arith })
  handle_input-Shape m active closed_input h s =
      unfold handle_closed in inr (record { over = refl; idle = refl; empty = refl })
  handle_input-Shape m active (event_input event) h s =
      inl
        (handle_arrived-Running m active event _ (take_event-Running m event _ (burst-Running h s)))
  handle_input-Shape m active waiting h s = inl s

module _ {N F : Type 0} (numbers : JsonNumbers N F) (usize_max : ℕ)
    (limits : NativeXswdProjectionLimits) where
  pub shorter :
      (d : DeferredXswdEvent N F) (ds : List (DeferredXswdEvent N F)) (h : Handler N F)
      → h.deferred ≡ d ∷ ds
      → Running h
      → Running (record h { deferred = ds })
  shorter d ds h queue s =
      let fits : Fits (d ∷ ds) = subst Fits queue s.fits in
      record {
        going = s.going;
        fits = (fits.0.1, omega (arith, fits.1));
        matched = s.matched;
        burst = s.burst;
      }

  idle_round-Shape :
      (m : Moment) (incoming : Incoming N) (ds : List (DeferredXswdEvent N F)) (h : Handler N F)
      → h.deferred ≡ ds
      → h.active ≡ none
      → Running h
      → Running (idle_round numbers usize_max limits m incoming ds h)
        ⊎ Ended (idle_round numbers usize_max limits m incoming ds h)
  unfolding idle_round handle_raw
  idle_round-Shape m incoming (raw e ∷ ds) h queue idle s =
      inl (search (handle_prepared-Running, shorter (raw e) ds h queue s))
  idle_round-Shape m incoming (deferred_notification n ∷ ds) h queue idle s = inl (
      begin-Running n (record h { deferred = ds }) s.going
        (shorter (deferred_notification n) ds h queue s).fits)
  idle_round-Shape m (arrived event) [] h queue idle s =
      inl (search (handle_prepared-Running, take_event-Running m event h s))
  idle_round-Shape m closed [] h queue idle s =
      inr (record { over = refl; idle = idle; empty = queue })
  idle_round-Shape m pending [] h queue idle s = inl s

  open_round-Shape :
      (r : Round N) (active : Option (ActiveXswdCallback N)) (h : Handler N F)
      → h.active ≡ active
      → Running h
      → Running (open_round numbers usize_max limits r active h)
        ⊎ Ended (open_round numbers usize_max limits r active h)
  unfolding open_round
  open_round-Shape r none h is s = idle_round-Shape r.moment r.incoming h.deferred h refl is s
  open_round-Shape r (some active) h is s = handle_input-Shape r.moment active _ h s

  pub round-Shape :
      (r : Round N) (h : Handler N F)
      → Running h ⊎ Ended h
      → Running (round numbers usize_max limits r h) ⊎ Ended (round numbers usize_max limits r h)
  unfolding round
  round-Shape r h start =
      let h' = record h { xswd_sessions = Registry.run h.xswd_sessions r.others } in
      let next = open_round numbers usize_max limits r h.active h' in
      let P = λ (b : Bool). Running (if b then h' else next) ⊎ Ended (if b then h' else next) in
      elim start [
        | inr e ↦ subst P (sym e.over) (inr (ground arith))
        | inl s ↦ subst P (sym s.going) (open_round-Shape r h.active h' refl (ground arith))
      ]

  run_from-Shape :
      (rounds : List (Round N)) (h : Handler N F)
      → Running h ⊎ Ended h
      → Running (run numbers usize_max limits rounds h)
        ⊎ Ended (run numbers usize_max limits rounds h)
  unfolding run
  run_from-Shape [] h s = s
  run_from-Shape (r ∷ rs) h s = run_from-Shape rs _ (round-Shape r h s)

  -- From its start, and through any rounds, whatever Dart, the channel and other tasks do, the handler
  -- defers at most 64 events, all of them requests or notifications; an active callback waits for
  -- the kind of answer that its future gives; the counter of the receive burst is at most 16; and once
  -- the channel is closed nothing is active or deferred.
  pub run-Shape :
      (sessions : XswdSessionRegistry) (rounds : List (Round N))
      → let h = run numbers usize_max limits rounds (idle_handler sessions) in Running h ⊎ Ended h
  run-Shape sessions rounds =
      run_from-Shape rounds _
        (inl (record { going = refl; fits = (tt, omega arith); matched = tt; burst = omega arith }))
