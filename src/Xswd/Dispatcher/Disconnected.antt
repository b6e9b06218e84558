-- ===== src/Xswd/Dispatcher/Disconnected.antt =====
-- A session whose application has disconnected keeps no authority, whatever follows.
use xelis_wallet_flutter.Base.{
  ◌⊎◌, ℕ, ◌≡◌, ◌≢◌, refl, sym, subst, ap, ◌∙◌, Bool-cases, String, Bool, true, false, Option, none,
  some, List, [], ◌∷◌, ◌++◌, All, keep_if, inl, inr, if◌then◌else◌,
}
use xelis_wallet_flutter.Base.Results.{Result, ok, err}
use xelis_wallet_flutter.Xswd.Limits.{NativeXswdProjectionLimits}
use xelis_wallet_flutter.Xswd.Payload.{
  JsonNumbers, NativeXswdPayloadToken, XswdPayloadProjectionError,
}
use xelis_wallet_flutter.Xswd.Payload
use xelis_wallet_flutter.Xswd.Registry.{
  XswdSessionRegistry, XswdSessionReferenceError, Call, register_call, project_call,
  invalidate_call, register, resolve, invalidate_state, empty_registry,
}
use xelis_wallet_flutter.Xswd.Registry
use xelis_wallet_flutter.Xswd.Registry.Lookup.{invalidated_for_good}
use xelis_wallet_flutter.Xswd.Dispatcher.{
  XswdEvent, request_application, request_permission, prefetch_permissions, cancel_request,
  app_disconnect, Effect, XswdRequestSummary, XswdRequestType, application, permission,
  asked_application, asked_permission, asked_prefetch, DeferredXswdEvent, raw,
  deferred_notification, ActiveXswdCallback, Handler,
}
use xelis_wallet_flutter.Xswd.Dispatcher.Answers.{send_permission_failure, send_prefetch_failure}
use xelis_wallet_flutter.Xswd.Dispatcher.Prepare.{
  Moment, PendingXswdDecision, Preparation, ask, with_payload, create_event_summary,
  prepare_xswd_event,
}
use xelis_wallet_flutter.Xswd.Dispatcher.Loop.{
  Round, Incoming, pending, closed, arrived, event_input, take_event, next_burst, begin,
  handle_lifecycle, handle_prepared, handle_arrived, handle_input, handle_raw, idle_round,
  open_round, round, run, idle_handler, select_input,
}
use xelis_wallet_flutter.Xswd.Dispatcher.Sessions.{
  Calls, Reaches, stays, Reaches-trans, invalidate_each-Reaches, summary-Reaches,
}
use xelis_wallet_flutter.Xswd.Dispatcher.Revoked.{
  handle_disconnected-Reaches, handle_prepared-Reaches, handle_app_disconnect-Reaches,
  handle_input-Reaches,
}

module _ {N F : Type 0} (numbers : JsonNumbers N F) (usize_max : ℕ)
    (limits : NativeXswdProjectionLimits) (P : (ℕ → Bool) → Type 0) where
  module _ (m : Moment) (here : P m.alive) where
    ask-sessions :
        (callback : XswdRequestSummary F → Effect N F) (fail : String → Effect N F)
        (d : PendingXswdDecision N)
        (result : XswdSessionRegistry × Result XswdSessionReferenceError (XswdRequestSummary F))
        → (ask callback fail d result).0 ≡ result.0
    ask-sessions callback fail d (r, ok s) = refl
    ask-sessions callback fail d (r, err e) = refl

    with_payload-Reaches :
        (r : XswdSessionRegistry) (fail : String → Effect N F)
        (payload : Result XswdPayloadProjectionError (List (NativeXswdPayloadToken F)))
        (next : List (NativeXswdPayloadToken F) → Preparation N F)
        → ((tokens : List (NativeXswdPayloadToken F)) → Reaches P r (next tokens).0)
        → Reaches P r (with_payload r fail payload next).0
    with_payload-Reaches r fail (ok tokens) next rest = rest tokens
    with_payload-Reaches r fail (err e) next rest = stays P r

    prepare-Reaches :
        (r : XswdSessionRegistry) (event : XswdEvent N)
        → Reaches P r (prepare_xswd_event numbers usize_max limits m r event).0
    unfolding prepare_xswd_event
    prepare-Reaches r (request_application state k) =
        subst (Reaches P r)
          (sym (
            ask-sessions asked_application (send_permission_failure k) _
              (create_event_summary m r state application)))
          (summary-Reaches P m here r state application)
    prepare-Reaches r (request_permission state request k) =
        with_payload-Reaches r (send_permission_failure k)
          (Payload.project numbers usize_max limits request) _
          λ payload.
            subst (Reaches P r)
              (sym (
                ask-sessions asked_permission (send_permission_failure k) _
                  (create_event_summary m r state (permission payload))))
              (summary-Reaches P m here r state (permission payload))
    prepare-Reaches r (prefetch_permissions state p k) =
        with_payload-Reaches r (send_prefetch_failure k)
          (Payload.project numbers usize_max limits p.json) _
          λ payload.
            subst (Reaches P r)
              (sym (
                ask-sessions asked_prefetch (send_prefetch_failure k) _
                  (create_event_summary m r state (XswdRequestType.prefetch_permissions payload))))
              (summary-Reaches P m here r state (XswdRequestType.prefetch_permissions payload))
    prepare-Reaches r (cancel_request state k) = stays P r
    prepare-Reaches r (app_disconnect state) = stays P r

    handle_raw-Reaches :
        (event : XswdEvent N) (h : Handler N F)
        → Reaches P h.xswd_sessions (handle_raw numbers usize_max limits m event h).xswd_sessions
    unfolding handle_raw
    handle_raw-Reaches event h = Reaches-trans P (prepare-Reaches h.xswd_sessions event) (
        handle_prepared-Reaches P m here
          (prepare_xswd_event numbers usize_max limits m h.xswd_sessions event) h)

    idle_round-Reaches :
        (incoming : Incoming N) (ds : List (DeferredXswdEvent N F)) (h : Handler N F)
        → Reaches P h.xswd_sessions
            (idle_round numbers usize_max limits m incoming ds h).xswd_sessions
    unfolding idle_round begin take_event
    idle_round-Reaches incoming (raw e ∷ ds) h = handle_raw-Reaches e (record h { deferred = ds })
    idle_round-Reaches incoming (deferred_notification n ∷ ds) h = stays P h.xswd_sessions
    idle_round-Reaches (arrived event) [] h = handle_raw-Reaches event (take_event m event h)
    idle_round-Reaches closed [] h =
        invalidate_each-Reaches P m.alive here (keep_if m.alive h.observed_states) h.xswd_sessions
    idle_round-Reaches pending [] h = stays P h.xswd_sessions

  -- `P` holds of every moment of a round.
  abbrev pub Throughout : Round N → Type 0
  Throughout r = P r.moment.alive × All (λ c. P c.0) r.others

  open_round-Reaches :
      (r : Round N) (active : Option (ActiveXswdCallback N)) (h : Handler N F)
      → P r.moment.alive
      → Reaches P h.xswd_sessions (open_round numbers usize_max limits r active h).xswd_sessions
  unfolding open_round
  open_round-Reaches r none h here = idle_round-Reaches r.moment here r.incoming h.deferred h
  open_round-Reaches r (some active) h here =
      handle_input-Reaches P r.moment here active (select_input h.receive_burst r active.future) h

  round-Reaches :
      (r : Round N) (h : Handler N F)
      → Throughout r
      → Reaches P h.xswd_sessions (round numbers usize_max limits r h).xswd_sessions
  unfolding round
  round-Reaches r h all =
      let h' = record h { xswd_sessions = Registry.run h.xswd_sessions r.others } in
      let others : Reaches P h.xswd_sessions h'.xswd_sessions = record {
        calls = r.others;
        made = all.1;
        path = refl;
      } in
      elim (Bool-cases h.is_closed) [
        | inl over ↦
            subst
              (λ b.
                Reaches P h.xswd_sessions
                  (if b
                    then h'
                    else open_round numbers usize_max limits r h.active h').xswd_sessions)
              (sym over) others
        | inr going ↦
            subst
              (λ b.
                Reaches P h.xswd_sessions
                  (if b
                    then h'
                    else open_round numbers usize_max limits r h.active h').xswd_sessions)
              (sym going) (Reaches-trans P others (open_round-Reaches r h.active h' all.0))
      ]

  run-Reaches :
      (rounds : List (Round N)) (h : Handler N F)
      → All Throughout rounds
      → Reaches P h.xswd_sessions (run numbers usize_max limits rounds h).xswd_sessions
  unfolding run
  run-Reaches [] h all = stays P h.xswd_sessions
  run-Reaches (r ∷ rs) h all =
      Reaches-trans P (round-Reaches r h all.0)
        (run-Reaches rs (round numbers usize_max limits r h) all.1)

-- The round takes the event from the channel: nothing is active or deferred and the event is there,
-- or it is polled before the active callback.
abbrev pub Takes : {N F : Type 0} → Round N → XswdEvent N → Handler N F → Type 0
Takes {N} r event h =
    ((h.active ≡ none) × (h.deferred ≡ []) × (r.incoming ≡ arrived event))
    ⊎ ((active : ActiveXswdCallback N) × (h.active ≡ some active)
        × (select_input h.receive_burst r active.future ≡ event_input event))

module _ {N F : Type 0} (numbers : JsonNumbers N F) (usize_max : ℕ)
    (limits : NativeXswdProjectionLimits) where
  module _ (P : (ℕ → Bool) → Type 0) (m : Moment) (here : P m.alive) where
    idle_disconnect :
        (state : ℕ) (h : Handler N F)
        → Reaches P
            (invalidate_state m.alive h.xswd_sessions state)
            (idle_round numbers usize_max limits m
              (arrived (app_disconnect state))
              []
              h).xswd_sessions
    unfolding idle_round handle_raw prepare_xswd_event handle_prepared handle_lifecycle take_event
    idle_disconnect state h =
        let taken = take_event m (app_disconnect state) h in
        handle_disconnected-Reaches P m here state (record taken { effects = taken.effects ++ [] })

    active_disconnects :
        (active : ActiveXswdCallback N) (state : ℕ) (h : Handler N F)
        → Reaches P
            (invalidate_state m.alive h.xswd_sessions state)
            (handle_input m active (event_input (app_disconnect state)) h).xswd_sessions
    unfolding handle_input handle_arrived take_event
    active_disconnects active state h = handle_app_disconnect-Reaches P m here active state (
        take_event m (app_disconnect state)
          (record h { receive_burst = next_burst h.receive_burst }))

  -- The rounds that take a disconnection invalidate the session first.
  disconnect-Reaches :
      (P : (ℕ → Bool) → Type 0) (r : Round N) (state : ℕ) (h : Handler N F)
      → P r.moment.alive
      → h.is_closed ≡ false
      → Takes r (app_disconnect state) h
      → Reaches P
          (invalidate_state r.moment.alive (Registry.run h.xswd_sessions r.others) state)
          (round numbers usize_max limits r h).xswd_sessions
  unfolding round
  disconnect-Reaches P r state h here going taken =
      let h' = record h { xswd_sessions = Registry.run h.xswd_sessions r.others } in
      let q = invalidate_state r.moment.alive h'.xswd_sessions state in
      let P' = λ (b : Bool).
        Reaches P q
          (if b then h' else open_round numbers usize_max limits r h.active h').xswd_sessions in
      subst P' (sym going) (elim taken [
        | inl (idle, empty, there) ↦
            subst (λ a. Reaches P q (open_round numbers usize_max limits r a h').xswd_sessions)
              (sym idle)
              (subst
                (λ ds.
                  Reaches P q
                    (idle_round numbers usize_max limits r.moment r.incoming ds h').xswd_sessions)
                (sym empty)
                (subst
                  (λ i.
                    Reaches P q
                      (idle_round numbers usize_max limits r.moment i [] h').xswd_sessions)
                  (sym there) (idle_disconnect P r.moment here state h')))
        | inr (active, is, chosen) ↦
            subst (λ a. Reaches P q (open_round numbers usize_max limits r a h').xswd_sessions)
              (sym is)
              (subst (λ i. Reaches P q (handle_input r.moment active i h').xswd_sessions)
                (sym chosen) (active_disconnects P r.moment here active state h'))
      ])

  -- Once the handler takes the disconnection of an application, in any state that it can come to, no
  -- later rounds give the session authority again, whatever Dart, the channel and other tasks do: as
  -- long as the session is alive, registering it fails, and no reference resolves to it.
  pub disconnected_for_good :
      (counter : ℕ) (before : Calls) (earlier later : List (Round N)) (r : Round N) (state : ℕ)
      (h : Handler N F) (alive : ℕ → Bool)
      → run numbers usize_max limits earlier
          (idle_handler (Registry.run (empty_registry counter) before))
        ≡ h
      → h.is_closed ≡ false
      → Takes r (app_disconnect state) h
      → r.moment.alive state ≡ true
      → All (Throughout numbers usize_max limits (λ a. a state ≡ true)) later
      → alive state ≡ true
      → let after =
          (run numbers usize_max limits later (round numbers usize_max limits r h)).xswd_sessions in
        ((e : XswdSessionReferenceError) × ((register alive after state).1 ≡ some (err e)))
        × ((session_ref : ℕ) → (resolve alive after session_ref).1 ≢ some state)
  disconnected_for_good counter before earlier later r state h alive reached going taken live lives
        live' =
      let start = Registry.run (empty_registry counter) before in
      let Any = λ (a : ℕ → Bool). Unit {0} in
      let Live = λ (a : ℕ → Bool). a state ≡ true in
      let opened : Reaches Any (empty_registry counter) start = record {
        calls = before;
        made = anywhere before;
        path = refl;
      } in
      let there : Reaches Any start h.xswd_sessions =
        subst (λ g. Reaches Any start g.xswd_sessions) reached
          (run-Reaches numbers usize_max limits Any earlier (idle_handler start)
            (always earlier)) in
      let others : Reaches Any h.xswd_sessions (Registry.run h.xswd_sessions r.others) = record {
        calls = r.others;
        made = anywhere r.others;
        path = refl;
      } in
      let past = Reaches-trans Any (Reaches-trans Any opened there) others in
      let next = round numbers usize_max limits r h in
      let future =
        Reaches-trans Live (disconnect-Reaches Live r state h live going taken)
          (run-Reaches numbers usize_max limits Live later next lives) in
      let lost =
        invalidated_for_good counter past.calls future.calls state r.moment.alive alive future.made
          live' in
      subst
        (λ q.
          ((e : XswdSessionReferenceError) × ((register alive q state).1 ≡ some (err e)))
          × ((session_ref : ℕ) → (resolve alive q session_ref).1 ≢ some state))
        (sym (
          future.path
          ∙ ap (λ q. Registry.run (invalidate_state r.moment.alive q state) future.calls)
              past.path))
        lost
    where
      anywhere : (calls : Calls) → All (λ c. Unit {0}) calls
      anywhere [] = tt
      anywhere (c ∷ cs) = (tt, anywhere cs)

      always :
          (rounds : List (Round N))
          → All (Throughout numbers usize_max limits (λ a. Unit {0})) rounds
      always [] = tt
      always (x ∷ xs) = ((tt, anywhere x.others), always xs)
