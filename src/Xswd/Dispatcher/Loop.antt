-- ===== src/Xswd/Dispatcher/Loop.antt =====
-- `run` of rust/src/api/xswd/impl/dispatcher.rs. A round is one turn of its loop, or one wait in it
-- that nothing has ended yet.
use xelis_wallet_flutter.Base.{
  ℕ, ◌+◌, Bool, true, false, ◌&&◌, ◌||◌, Option, none, some, List, [], ◌∷◌, ◌++◌, nat_eq, ◌==◌, any,
  keep_if, length, ltb, leb, if◌then◌else◌,
}
use xelis_wallet_flutter.Xswd.Limits.{NativeXswdProjectionLimits}
use xelis_wallet_flutter.Xswd.Payload.{JsonNumbers}
use xelis_wallet_flutter.Xswd.Registry.{XswdSessionRegistry, Call, invalidate_state, empty_registry}
use xelis_wallet_flutter.Xswd.Registry
use xelis_wallet_flutter.Xswd.Dispatcher.{
  max_deferred_xswd_events, max_xswd_receive_burst, XswdDecisionCallbackOutcome,
  XswdNotificationCallbackOutcome, XswdEvent, request_application, request_permission,
  prefetch_permissions, cancel_request, app_disconnect, Effect, received, XswdNotificationKind,
  PreparedXswdNotification, DeferredXswdEvent, raw, deferred_notification,
  XswdActiveCallbackOutcome, decision_outcome, notification_outcome, ActiveFuture, decision_future,
  notification_future, ActiveXswdCallback, Handler,
}
use xelis_wallet_flutter.Xswd.Dispatcher.Answers.{
  acknowledge_cancelled_request, complete_kind, fail_kind, cancel_active, is_decision_for,
  is_application_admission,
}
use xelis_wallet_flutter.Xswd.Dispatcher.Queue.{
  cancel_deferred_xswd_decisions, defer_xswd_decision, defer_xswd_disconnect,
  fail_deferred_xswd_events, is_app_disconnect,
}
use xelis_wallet_flutter.Xswd.Dispatcher.Prepare.{
  Moment, decision, lifecycle, handled, XswdLifecycleEvent, Preparation,
  prepare_xswd_lifecycle_notification, prepare_xswd_event, start_notification, into_active,
  acknowledge,
}

-- What the channel holds when it is polled.
pub data Incoming (N : Type 0) : Type 0 where
  pending closed : Incoming N
  arrived : XswdEvent N → Incoming N

-- What Dart answers, if the active callback asks for a decision and if it is a notification.
pub record DartAnswer : Type 0 where
  pub decision : XswdDecisionCallbackOutcome
  pub notification : XswdNotificationCallbackOutcome

-- What a round finds: the calls of other tasks on the registry since the last one, the applications,
-- the channel, and the answer of Dart if there is one.
pub record Round (N : Type 0) : Type 0 where
  pub others : List ((ℕ → Bool) × Call)
  pub moment : Moment
  pub incoming : Incoming N
  pub answer : Option DartAnswer

pub data XswdHandlerInput (N : Type 0) : Type 0 where
  callback_input : XswdActiveCallbackOutcome → XswdHandlerInput N
  event_input : XswdEvent N → XswdHandlerInput N
  closed_input waiting : XswdHandlerInput N

abbrev pub outcome_of : ActiveFuture → DartAnswer → XswdActiveCallbackOutcome
outcome_of decision_future a = decision_outcome a.decision
outcome_of notification_future a = notification_outcome a.notification

module _ {N : Type 0} where
  abbrev pub event_or : Incoming N → XswdHandlerInput N → XswdHandlerInput N
  event_or (arrived event) other = event_input event
  event_or closed other = closed_input
  event_or pending other = other

  abbrev pub callback_or :
      ActiveFuture → Option DartAnswer → XswdHandlerInput N → XswdHandlerInput N
  callback_or future none other = other
  callback_or future (some a) other = callback_input (outcome_of future a)

  -- The two biased `select!`: after a burst of events the callback is polled first.
  unfoldable pub select_input : ℕ → Round N → ActiveFuture → XswdHandlerInput N
  select_input receive_burst r future =
      if leb max_xswd_receive_burst receive_burst
      then callback_or future r.answer (event_or r.incoming waiting)
      else event_or r.incoming (callback_or future r.answer waiting)

-- Only a live state is tracked, and once.
unfoldable pub track_xswd_state : (ℕ → Bool) → List ℕ → ℕ → List ℕ
track_xswd_state alive observed state =
    if any (λ s. s == state) (keep_if alive observed)
    then keep_if alive observed
    else keep_if alive observed ++ state ∷ []

unfoldable pub invalidate_each : (ℕ → Bool) → List ℕ → XswdSessionRegistry → XswdSessionRegistry
invalidate_each alive [] r = r
invalidate_each alive (state ∷ states) r =
    invalidate_each alive states (invalidate_state alive r state)

abbrev pub invalidate_observed_xswd_states :
    (ℕ → Bool) → List ℕ → XswdSessionRegistry → XswdSessionRegistry
invalidate_observed_xswd_states alive observed r = invalidate_each alive (keep_if alive observed) r

abbrev pub xswd_event_state : {N : Type 0} → XswdEvent N → ℕ
xswd_event_state (request_application state callback) = state
xswd_event_state (request_permission state request callback) = state
xswd_event_state (prefetch_permissions state permissions callback) = state
xswd_event_state (cancel_request state callback) = state
xswd_event_state (app_disconnect state) = state

abbrev pub invalidate_if : Bool → Moment → ℕ → XswdSessionRegistry → XswdSessionRegistry
invalidate_if test m state r = if test then invalidate_state m.alive r state else r

-- `receive_burst` restarts where it made the callback be polled first.
abbrev pub next_burst : ℕ → ℕ
next_burst receive_burst =
    (if leb max_xswd_receive_burst receive_burst then 0 else receive_burst) + 1

module _ {N F : Type 0} where
  abbrev pub emit : List (Effect N F) → Handler N F → Handler N F
  emit effects h = record h { effects = h.effects ++ effects }

  -- An event is taken from the channel.
  unfoldable pub take_event : Moment → XswdEvent N → Handler N F → Handler N F
  unfolding track_xswd_state
  take_event m event h = record h {
    effects = h.effects ++ received event ∷ [];
    observed_states = track_xswd_state m.alive h.observed_states (xswd_event_state event);
  }

  -- `active = Some(notification.start(..)); receive_burst = 0`.
  unfoldable pub begin : PreparedXswdNotification F → Handler N F → Handler N F
  unfolding start_notification
  begin n h =
      let (active, effects) = start_notification n in
      record h { active = some active; receive_burst = 0; effects = h.effects ++ effects }

  unfoldable pub begin_if :
      Handler N F → XswdSessionRegistry × Option (PreparedXswdNotification F) → Handler N F
  unfolding begin
  begin_if h (r, none) = record h { xswd_sessions = r }
  begin_if h (r, some n) = begin n (record h { xswd_sessions = r })

  -- An event or notification that is handled while no callback is active.
  unfoldable pub handle_lifecycle : Moment → XswdLifecycleEvent → Handler N F → Handler N F
  unfolding begin_if
  handle_lifecycle m event h =
      let (state, kind, effects) = acknowledge {N = N} {F = F} event in
      begin_if (emit effects h) (
        prepare_xswd_lifecycle_notification m
          (invalidate_if (is_app_disconnect kind) m state h.xswd_sessions) state kind false)

  unfoldable pub handle_prepared : Moment → Preparation N F → Handler N F → Handler N F
  unfolding handle_lifecycle
  handle_prepared m (r, effects, decision d) h = record h {
    xswd_sessions = r;
    effects = h.effects ++ effects;
    active = some (into_active d);
    receive_burst = 0;
  }
  handle_prepared m (r, effects, lifecycle event) h =
      handle_lifecycle m event (record h { xswd_sessions = r; effects = h.effects ++ effects })
  handle_prepared m (r, effects, handled) h = record h {
    xswd_sessions = r;
    effects = h.effects ++ effects;
  }

  unfoldable pub handle_callback :
      ActiveXswdCallback N → XswdActiveCallbackOutcome → Handler N F → Handler N F
  unfolding complete_kind
  handle_callback active outcome h = record h {
    receive_burst = 0;
    active = none;
    effects = h.effects ++ complete_kind active.kind outcome;
  }

  unfoldable pub handle_closed : Moment → ActiveXswdCallback N → Handler N F → Handler N F
  unfolding fail_kind fail_deferred_xswd_events
  handle_closed m active h = record h {
    xswd_sessions = invalidate_observed_xswd_states m.alive h.observed_states h.xswd_sessions;
    active = none;
    deferred = [];
    effects =
        h.effects
        ++ (fail_kind active.kind "XSWD_HANDLER_CLOSED"
            ++ fail_deferred_xswd_events h.deferred "XSWD_HANDLER_CLOSED");
    is_closed = true;
  }

  -- The active callback is cancelled if `cancels_active`.
  unfoldable pub drop_active : Bool → ActiveXswdCallback N → Handler N F → Handler N F
  unfolding cancel_active
  drop_active cancels_active active h =
      if cancels_active
      then record h { active = none; effects = h.effects ++ cancel_active active }
      else h

  unfoldable pub queue_cancellation :
      Bool → Handler N F → XswdSessionRegistry × Option (PreparedXswdNotification F) → Handler N F
  unfolding begin
  queue_cancellation cancels_active h (r, none) = record h { xswd_sessions = r }
  queue_cancellation cancels_active h (r, some n) =
      if cancels_active
      then begin n (record h { xswd_sessions = r })
      else if ltb (length h.deferred) max_deferred_xswd_events
      then record h { xswd_sessions = r; deferred = h.deferred ++ deferred_notification n ∷ [] }
      else record h { xswd_sessions = r }

  unfoldable pub handle_cancel_request :
      Moment → ActiveXswdCallback N → ℕ → ℕ → Handler N F → Handler N F
  unfolding drop_active queue_cancellation
  handle_cancel_request m active state callback h =
      let (retained, effects, deferred_admission) =
        cancel_deferred_xswd_decisions h.deferred state in
      let cancels_active = is_decision_for active state in
      let cancelled_admission =
        deferred_admission || cancels_active && is_application_admission active in
      let h' =
        drop_active cancels_active active
          (record h { deferred = retained; effects = h.effects ++ effects }) in
      queue_cancellation cancels_active (emit (acknowledge_cancelled_request callback ∷ []) h') (
        prepare_xswd_lifecycle_notification m
          (invalidate_if cancelled_admission m state h.xswd_sessions) state
          XswdNotificationKind.cancel_request cancelled_admission)

  -- The notification whose place in a saturated queue the new one took is started at once.
  unfoldable pub preempt :
      Moment
      → ActiveXswdCallback N
      → List (DeferredXswdEvent N F) × List (Effect N F) × Option (PreparedXswdNotification F)
      → Handler N F
      → Handler N F
  unfolding begin fail_kind
  preempt m active (deferred, effects, none) h = record h {
    deferred = deferred;
    effects = h.effects ++ effects;
  }
  preempt m active (deferred, effects, some next) h = begin next (record h {
    deferred = deferred;
    effects = h.effects ++ (effects ++ fail_kind active.kind "XSWD_HANDLER_OVERLOADED");
    xswd_sessions = invalidate_if (is_application_admission active) m active.state h.xswd_sessions;
  })

  unfoldable pub queue_disconnect :
      Moment
      → ActiveXswdCallback N
      → Handler N F
      → XswdSessionRegistry × Option (PreparedXswdNotification F)
      → Handler N F
  unfolding preempt
  queue_disconnect m active h (r, none) = record h { xswd_sessions = r }
  queue_disconnect m active h (r, some n) =
      preempt m active (defer_xswd_disconnect h.deferred (some active) n)
        (record h { xswd_sessions = r })

  unfoldable pub notify_disconnect :
      Bool
      → Moment
      → ActiveXswdCallback N
      → Handler N F
      → XswdSessionRegistry × Option (PreparedXswdNotification F)
      → Handler N F
  unfolding begin_if queue_disconnect
  notify_disconnect true m active h notification = begin_if h notification
  notify_disconnect false m active h notification = queue_disconnect m active h notification

  unfoldable pub handle_app_disconnect :
      Moment → ActiveXswdCallback N → ℕ → Handler N F → Handler N F
  unfolding drop_active notify_disconnect
  handle_app_disconnect m active state h =
      let (retained, effects, admission) = cancel_deferred_xswd_decisions h.deferred state in
      let disconnects_active = is_decision_for active state in
      let h' =
        drop_active disconnects_active active
          (record h { deferred = retained; effects = h.effects ++ effects }) in
      let notification =
        prepare_xswd_lifecycle_notification m (invalidate_state m.alive h.xswd_sessions state) state
          XswdNotificationKind.app_disconnect false in
      notify_disconnect disconnects_active m active h' notification

  unfoldable pub defer_event : XswdEvent N → Handler N F → Handler N F
  unfolding defer_xswd_decision
  defer_event event h =
      let (deferred, effects) = defer_xswd_decision h.deferred event in
      record h { deferred = deferred; effects = h.effects ++ effects }

  unfoldable pub handle_arrived :
      Moment → ActiveXswdCallback N → XswdEvent N → Handler N F → Handler N F
  unfolding handle_cancel_request handle_app_disconnect defer_event
  handle_arrived m active (cancel_request state callback) h =
      handle_cancel_request m active state callback h
  handle_arrived m active (app_disconnect state) h = handle_app_disconnect m active state h
  handle_arrived m active event h = defer_event event h

  unfoldable pub handle_input :
      Moment → ActiveXswdCallback N → XswdHandlerInput N → Handler N F → Handler N F
  unfolding handle_callback handle_closed handle_arrived take_event
  handle_input m active (callback_input outcome) h = handle_callback active outcome h
  handle_input m active closed_input h = handle_closed m active h
  handle_input m active (event_input event) h =
      handle_arrived m active event
        (take_event m event (record h { receive_burst = next_burst h.receive_burst }))
  handle_input m active waiting h = h

module _ {N F : Type 0} (numbers : JsonNumbers N F) (usize_max : ℕ)
    (projection_limits : NativeXswdProjectionLimits) where
  unfoldable pub handle_raw : Moment → XswdEvent N → Handler N F → Handler N F
  unfolding handle_prepared
  handle_raw m event h =
      handle_prepared m
        (prepare_xswd_event numbers usize_max projection_limits m h.xswd_sessions event) h

  -- No callback is active: the first deferred event, or else one from the channel.
  unfoldable pub idle_round :
      Moment → Incoming N → List (DeferredXswdEvent N F) → Handler N F → Handler N F
  unfolding handle_raw begin take_event
  idle_round m incoming (raw event ∷ deferred) h =
      handle_raw m event (record h { deferred = deferred })
  idle_round m incoming (deferred_notification n ∷ deferred) h =
      begin n (record h { deferred = deferred })
  idle_round m (arrived event) [] h = handle_raw m event (take_event m event h)
  idle_round m closed [] h = record h {
    xswd_sessions = invalidate_observed_xswd_states m.alive h.observed_states h.xswd_sessions;
    is_closed = true;
  }
  idle_round m pending [] h = h

  unfoldable pub open_round : Round N → Option (ActiveXswdCallback N) → Handler N F → Handler N F
  unfolding idle_round handle_input select_input
  open_round r none h = idle_round r.moment r.incoming h.deferred h
  open_round r (some active) h =
      handle_input r.moment active (select_input h.receive_burst r active.future) h

  unfoldable pub round : Round N → Handler N F → Handler N F
  unfolding open_round
  round r h =
      let h' = record h { xswd_sessions = Registry.run h.xswd_sessions r.others } in
      if h.is_closed then h' else open_round r h.active h'

  unfoldable pub run : List (Round N) → Handler N F → Handler N F
  run [] h = h
  run (r ∷ rs) h = run rs (round r h)

-- The handler as it starts.
abbrev pub idle_handler : {N F : Type 0} → XswdSessionRegistry → Handler N F
idle_handler r = record {
  xswd_sessions = r;
  deferred = [];
  active = none;
  receive_burst = 0;
  observed_states = [];
  effects = [];
  is_closed = false;
}
