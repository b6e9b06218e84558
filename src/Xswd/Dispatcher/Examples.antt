-- ===== src/Xswd/Dispatcher/Examples.antt =====
-- A short life of the handler: an application asks to be admitted and then for a permission, is
-- admitted, disconnects, and the channel is closed.
use xelis_wallet_flutter.Base.{
  ◌⊎◌, ℕ, ◌+◌, ◌≡◌, ◌≢◌, refl, true, false, Option, none, some, List, [], ◌∷◌, inr, nat_eq, arith,
}
use xelis_wallet_flutter.Base.Results.{err}
use xelis_wallet_flutter.Base.Words.{u64_max}
use xelis_wallet_flutter.Xswd.Limits.{default_limits}
use xelis_wallet_flutter.Xswd.Payload.{JsonNumbers, object, close, project}
use xelis_wallet_flutter.Xswd.Registry.{
  XswdSessionRegistry, XswdSessionReferenceError, register, resolve, invalidate_state,
  empty_registry,
}
use xelis_wallet_flutter.Xswd.Registry
use xelis_wallet_flutter.Xswd.Dispatcher.{
  AppState, XswdRequestType, request_application, request_permission, app_disconnect, Handler,
  ActiveXswdCallback, PreparedXswdNotification, XswdNotificationKind, XswdDecisionCallbackOutcome,
  XswdNotificationCallbackOutcome, decision_kind, permission_response, decision_future,
}
use xelis_wallet_flutter.Xswd.Dispatcher.Prepare.{
  Moment, create_app_info_with_session_ref, prepare_xswd_event, prepare_xswd_lifecycle_notification,
}
use xelis_wallet_flutter.Xswd.Dispatcher.Loop.{
  Round, Incoming, pending, closed, arrived, DartAnswer, run, round, idle_handler, select_input,
  handle_app_disconnect,
}
use xelis_wallet_flutter.Xswd.Dispatcher.Shape.{Running, Ended, run-Shape}
use xelis_wallet_flutter.Xswd.Dispatcher.Debt.{asked, answered, owed_deferred, owed_active}
use xelis_wallet_flutter.Xswd.Dispatcher.Exactly.{run-Balanced, run-closed}
use xelis_wallet_flutter.Xswd.Dispatcher.Disconnected.{Takes, disconnected_for_good}
use xelis_wallet_flutter.Xswd.Dispatcher.Disconnect.{Announced, handle_app_disconnect-Announced}

abbrev whole_numbers : JsonNumbers ℕ ℕ
whole_numbers = record {
  as_i64 = λ n. none;
  as_u64 = λ n. some n;
  as_f64 = λ n. none;
  i64_to_string = λ i. "";
  u64_to_string = λ n. "0";
}

abbrev wallet_app : AppState
wallet_app = record { id = "app"; name = "App"; description = ""; url = none; permissions = [] }

abbrev noon : Moment
noon = record { alive = λ s. true; app = λ s. wallet_app }

abbrev at : Incoming ℕ → Option DartAnswer → Round ℕ
at incoming answer = record { others = []; moment = noon; incoming = incoming; answer = answer }

abbrev accepts : DartAnswer
accepts = record {
  decision = XswdDecisionCallbackOutcome.accept;
  notification = XswdNotificationCallbackOutcome.completed;
}

abbrev asking : List (Round ℕ)
asking =
    at (arrived (request_application 1 10)) none
    ∷ at (arrived (request_permission 1 (some (object close)) 11)) none
    ∷ at pending (some accepts)
    ∷ at pending none
    ∷ []

abbrev closing : List (Round ℕ)
closing =
    at (arrived (request_application 1 10)) none
    ∷ at (arrived (request_permission 1 (some (object close)) 11)) none
    ∷ at pending (some accepts)
    ∷ at pending none
    ∷ at closed none
    ∷ []

abbrev sessions : XswdSessionRegistry
sessions = empty_registry 1

run-Shape_example :
    Running (run {F = ℕ} whole_numbers u64_max default_limits closing (idle_handler sessions))
    ⊎ Ended (run {F = ℕ} whole_numbers u64_max default_limits closing (idle_handler sessions))
run-Shape_example = run-Shape whole_numbers u64_max default_limits sessions closing

run-Balanced_example :
    let h = run {F = ℕ} whole_numbers u64_max default_limits asking (idle_handler sessions) in
    asked 11 h.effects
    ≡ answered 11 h.effects + (owed_deferred 11 h.deferred + owed_active 11 h.active)
run-Balanced_example = run-Balanced whole_numbers u64_max default_limits 11 sessions asking

closes :
    (run {F = ℕ} whole_numbers u64_max default_limits closing (idle_handler sessions)).is_closed
    ≡ true
unfolding run round prepare_xswd_event register project Registry.project Registry.run
closes = refl

run-closed_example :
    asked 11
      (run {F = ℕ} whole_numbers u64_max default_limits closing (idle_handler sessions)).effects
    ≡ answered 11
        (run {F = ℕ} whole_numbers u64_max default_limits closing (idle_handler sessions)).effects
run-closed_example = run-closed whole_numbers u64_max default_limits 11 sessions closing closes

-- The sender of the permission was answered once.
answered_once :
    answered 11
      (run {F = ℕ} whole_numbers u64_max default_limits closing (idle_handler sessions)).effects
    ≡ 1
unfolding run round prepare_xswd_event register project Registry.project Registry.run
answered_once = refl

abbrev admission : List (Round ℕ)
admission = at (arrived (request_application 1 10)) none ∷ []

abbrev leaving : Round ℕ
leaving = at (arrived (app_disconnect 1)) none

abbrev after_leaving : List (Round ℕ)
after_leaving = at pending (some accepts) ∷ at (arrived (request_application 1 12)) none ∷ []

abbrev admitting : Handler ℕ ℕ
unfolding run round prepare_xswd_event register project Registry.project Registry.run
admitting =
    run {F = ℕ} whole_numbers u64_max default_limits admission
      (idle_handler (Registry.run sessions []))

abbrev asks_admission : ActiveXswdCallback ℕ
asks_admission = record {
  state = 1;
  kind = decision_kind (permission_response 10) true;
  future = decision_future;
}

reached :
    run {F = ℕ} whole_numbers u64_max default_limits admission
      (idle_handler (Registry.run sessions []))
    ≡ admitting
unfolding admitting run round prepare_xswd_event register project Registry.project Registry.run
reached = refl

admitting-open : admitting.is_closed ≡ false
unfolding admitting run round prepare_xswd_event register project Registry.project Registry.run
admitting-open = refl

leaving-Takes : Takes leaving (app_disconnect 1) admitting
unfolding admitting run round prepare_xswd_event register project Registry.project Registry.run
    select_input
leaving-Takes = inr (asks_admission, refl, refl)

disconnected_for_good_example :
    let next = round whole_numbers u64_max default_limits leaving admitting in
    let after = (run whole_numbers u64_max default_limits after_leaving next).xswd_sessions in
    ((e : XswdSessionReferenceError) × ((register (λ s. true) after 1).1 ≡ some (err e)))
    × ((session_ref : ℕ) → (resolve (λ s. true) after session_ref).1 ≢ some 1)
disconnected_for_good_example =
    disconnected_for_good whole_numbers u64_max default_limits 1 [] admission after_leaving leaving
      1 admitting (λ s. true) reached admitting-open leaving-Takes refl
      ((refl, tt), ((refl, tt), tt)) refl

abbrev told_leaving : PreparedXswdNotification ℕ
told_leaving = record {
  state = 1;
  summary = record {
    event_type = XswdRequestType.app_disconnect;
    application_info = create_app_info_with_session_ref wallet_app false 1;
  };
  kind = XswdNotificationKind.app_disconnect;
  cancelled_application_admission = false;
}

admitting-Running : Running admitting
unfolding admitting run round prepare_xswd_event register project Registry.project Registry.run
admitting-Running = record {
  going = refl;
  fits = (tt, omega arith);
  matched = refl;
  burst = omega arith;
}

admitting-asks : admitting.active ≡ some asks_admission
unfolding admitting run round prepare_xswd_event register project Registry.project Registry.run
admitting-asks = refl

leaving-prepared :
    prepare_xswd_lifecycle_notification noon
      (invalidate_state (λ s. true) admitting.xswd_sessions 1)
      1
      XswdNotificationKind.app_disconnect
      false
    ≡ (invalidate_state (λ s. true) admitting.xswd_sessions 1, some told_leaving)
unfolding admitting run round prepare_xswd_event prepare_xswd_lifecycle_notification
    invalidate_state register project Registry.project Registry.run
leaving-prepared = refl

handle_app_disconnect-Announced_example :
    Announced 1 (handle_app_disconnect noon asks_admission 1 admitting)
handle_app_disconnect-Announced_example =
    handle_app_disconnect-Announced noon asks_admission 1 admitting
      (invalidate_state (λ s. true) admitting.xswd_sessions 1) told_leaving admitting-asks
      admitting-Running leaving-prepared
