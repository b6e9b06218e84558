-- ===== src/Xswd/Dispatcher/Exactly.antt =====
-- Every event that the handler receives is answered as often as it asks for an answer.
use xelis_wallet_flutter.Base.{
  ◌⊎◌, ℕ, ◌+◌, ◌≡◌, refl, sym, subst, ap, ◌∙◌, true, false, Option, none, some, List, [], ◌∷◌,
  arith, inl, inr, if◌then◌else◌, nat_eq,
}
use xelis_wallet_flutter.Xswd.Limits.{NativeXswdProjectionLimits}
use xelis_wallet_flutter.Xswd.Payload.{
  JsonNumbers, NativeXswdPayloadToken, XswdPayloadProjectionError,
}
use xelis_wallet_flutter.Xswd.Payload
use xelis_wallet_flutter.Xswd.Registry.{
  XswdSessionRegistry, XswdSessionReferenceError, code, invalidate_state,
}
use xelis_wallet_flutter.Xswd.Registry
use xelis_wallet_flutter.Xswd.Dispatcher.{
  XswdEvent, request_application, request_permission, prefetch_permissions, cancel_request,
  app_disconnect, application, permission, XswdRequestType, asked_application, asked_permission,
  asked_prefetch, DeferredXswdEvent, raw, deferred_notification, permission_response,
  prefetch_response, ActiveXswdCallback, Handler,
}
use xelis_wallet_flutter.Xswd.Dispatcher.Answers.{send_permission_failure, send_prefetch_failure}
use xelis_wallet_flutter.Xswd.Dispatcher.Prepare.{Moment, create_event_summary, prepare_xswd_event}
use xelis_wallet_flutter.Xswd.Dispatcher.Loop.{
  Round, Incoming, pending, closed, arrived, take_event, handle_raw, idle_round, open_round, round,
  run, idle_handler, select_input,
}
use xelis_wallet_flutter.Xswd.Dispatcher.Shape.{Running, Ended, round-Shape, run-Shape}
use xelis_wallet_flutter.Xswd.Dispatcher.Debt.{
  hit, owes, owed_active, owed_deferred, asked, answered,
}
use xelis_wallet_flutter.Xswd.Dispatcher.Settles.{
  Settles, begin-Settles, Prepares, ask-Prepares, with_payload-Prepares, handle_prepared-Settles,
}
use xelis_wallet_flutter.Xswd.Dispatcher.Answered.{
  Balanced, Settles-Balanced, take_event-owes, take_event-active, select_input-Fitting,
  handle_input-Balanced,
}

module _ {N F : Type 0} (numbers : JsonNumbers N F) (usize_max : ℕ)
    (limits : NativeXswdProjectionLimits) (c : ℕ) where
  prepare-Prepares :
      (m : Moment) (r : XswdSessionRegistry) (event : XswdEvent N)
      → Prepares c (owes c event) (prepare_xswd_event numbers usize_max limits m r event)
  unfolding prepare_xswd_event
  prepare-Prepares m r (request_application state k) =
      ask-Prepares c (hit c k) asked_application (send_permission_failure k)
        (record {
          state = state;
          response = permission_response k;
          is_application_admission = true;
        })
        (create_event_summary m r state application) (λ s. omega arith) (λ t. omega arith) refl
  prepare-Prepares m r (request_permission state request k) =
      with_payload-Prepares c (hit c k) r (send_permission_failure k)
        (Payload.project numbers usize_max limits request) _ (λ t. omega arith)
        λ payload.
          ask-Prepares c (hit c k) asked_permission (send_permission_failure k)
            (record {
              state = state;
              response = permission_response k;
              is_application_admission = false;
            })
            (create_event_summary m r state (permission payload)) (λ s. omega arith)
            (λ t. omega arith) refl
  prepare-Prepares m r (prefetch_permissions state p k) =
      with_payload-Prepares c (hit c k) r (send_prefetch_failure k)
        (Payload.project numbers usize_max limits p.json) _ (λ t. omega arith)
        λ payload.
          ask-Prepares c (hit c k) asked_prefetch (send_prefetch_failure k)
            (record {
              state = state;
              response = prefetch_response p k;
              is_application_admission = false;
            })
            (create_event_summary m r state (XswdRequestType.prefetch_permissions payload))
            (λ s. omega arith) (λ t. omega arith) refl
  prepare-Prepares m r (cancel_request state k) = record { no_event = refl; owed = omega arith }
  prepare-Prepares m r (app_disconnect state) = record { no_event = refl; owed = refl }

  handle_raw-Settles :
      (m : Moment) (event : XswdEvent N) (h : Handler N F)
      → owed_active c h.active ≡ 0
      → Settles c (owes c event) h (handle_raw numbers usize_max limits m event h)
  unfolding handle_raw
  handle_raw-Settles m event h idle =
      handle_prepared-Settles c (owes c event) m
        (prepare_xswd_event numbers usize_max limits m h.xswd_sessions event) h
        (prepare-Prepares m h.xswd_sessions event) idle

  idle_round-Balanced :
      (m : Moment) (incoming : Incoming N) (ds : List (DeferredXswdEvent N F)) (h : Handler N F)
      → h.deferred ≡ ds
      → owed_active c h.active ≡ 0
      → Balanced c h
      → Balanced c (idle_round numbers usize_max limits m incoming ds h)
  unfolding idle_round
  idle_round-Balanced m incoming (raw e ∷ ds) h queue idle b =
      Settles-Balanced c (handle_raw-Settles m e (record h { deferred = ds }) idle)
        (omega (arith, b, ap (owed_deferred c) queue))
  idle_round-Balanced m incoming (deferred_notification n ∷ ds) h queue idle b =
      Settles-Balanced c (begin-Settles c n (record h { deferred = ds }) idle)
        (omega (arith, b, ap (owed_deferred c) queue))
  idle_round-Balanced m (arrived event) [] h queue idle b =
      Settles-Balanced c
        (handle_raw-Settles m event (take_event m event h)
          (ap (owed_active c) (take_event-active c m event h) ∙ idle))
        (take_event-owes c m event h b)
  idle_round-Balanced m closed [] h queue idle b = b
  idle_round-Balanced m pending [] h queue idle b = b

  open_round-Balanced :
      (r : Round N) (active : Option (ActiveXswdCallback N)) (h : Handler N F)
      → h.active ≡ active
      → Running h
      → Balanced c h
      → Balanced c (open_round numbers usize_max limits r active h)
  unfolding open_round
  open_round-Balanced r none h is s b =
      idle_round-Balanced r.moment r.incoming h.deferred h refl (ap (owed_active c) is) b
  open_round-Balanced r (some active) h is s b =
      handle_input-Balanced c r.moment active (select_input h.receive_burst r active.future) h is
        (select_input-Fitting h.receive_burst r active.future) s b

  round-Balanced :
      (r : Round N) (h : Handler N F)
      → Running h ⊎ Ended h
      → Balanced c h
      → Balanced c (round numbers usize_max limits r h)
  unfolding round
  round-Balanced r h shape b =
      let h' = record h { xswd_sessions = Registry.run h.xswd_sessions r.others } in
      let next = open_round numbers usize_max limits r h.active h' in
      elim shape [
        | inl s ↦
            subst (λ x. Balanced c (if x then h' else next)) (sym s.going)
              (open_round-Balanced r h.active h' refl (ground arith) b)
        | inr e ↦ subst (λ x. Balanced c (if x then h' else next)) (sym e.over) b
      ]

  run_from-Balanced :
      (rounds : List (Round N)) (h : Handler N F)
      → Running h ⊎ Ended h
      → Balanced c h
      → Balanced c (run numbers usize_max limits rounds h)
  unfolding run
  run_from-Balanced [] h s b = b
  run_from-Balanced (r ∷ rs) h s b =
      run_from-Balanced rs _ (round-Shape numbers usize_max limits r h s) (round-Balanced r h s b)

  -- At any point of any run, whatever Dart, the channel and other tasks do, each sender was sent as
  -- many answers as received events wait on it, less those that are deferred or with Dart.
  pub run-Balanced :
      (sessions : XswdSessionRegistry) (rounds : List (Round N))
      → let h = run numbers usize_max limits rounds (idle_handler sessions) in
        asked c h.effects
        ≡ answered c h.effects + (owed_deferred c h.deferred + owed_active c h.active)
  run-Balanced sessions rounds =
      run_from-Balanced rounds _
        (inl (record { going = refl; fits = (tt, omega arith); matched = tt; burst = omega arith }))
        (omega arith)

  -- When the handler has ended, each sender was sent exactly as many answers as received events wait
  -- on it.
  pub run-closed :
      (sessions : XswdSessionRegistry) (rounds : List (Round N))
      → (run numbers usize_max limits rounds (idle_handler sessions)).is_closed ≡ true
      → asked c (run numbers usize_max limits rounds (idle_handler sessions)).effects
        ≡ answered c (run numbers usize_max limits rounds (idle_handler sessions)).effects
  run-closed sessions rounds over =
      let h : Handler N F = run numbers usize_max limits rounds (idle_handler sessions) in
      let b = run-Balanced sessions rounds in
      elim (run-Shape numbers usize_max limits sessions rounds) [
        | inl s ↦ ground (arith, s.going)
        | inr e ↦ omega (arith, b, ap (owed_deferred c) e.empty, ap (owed_active c) e.idle)
      ]
