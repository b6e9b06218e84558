-- ===== src/Xswd/Dispatcher/Debt.antt =====
-- What the handler owes to a sender: the answers to the events that it has received, deferred and put
-- to Dart, counted for one sender.
use xelis_wallet_flutter.Base.{
  ℕ, ◌+◌, ◌≡◌, refl, Option, none, some, List, [], ◌∷◌, ◌++◌, String, nat_eq, ◌==◌, All, arith, inl,
  inr, Option-cases, if◌then◌else◌,
}
use xelis_wallet_flutter.Xswd.Dispatcher.{
  XswdEvent, request_application, request_permission, prefetch_permissions, cancel_request,
  app_disconnect, Effect, received, sent, PreparedXswdNotification, DeferredXswdEvent, raw,
  deferred_notification, PendingXswdResponse, permission_response, prefetch_response,
  ActiveXswdCallbackKind, decision_kind, notification_kind, ActiveXswdCallback,
}
use xelis_wallet_flutter.Xswd.Dispatcher.Answers.{fail_kind}
use xelis_wallet_flutter.Xswd.Dispatcher.Queue.{
  cancel_deferred_xswd_decisions, fail_event, defer_xswd_decision, fail_deferred_xswd_event,
  fail_deferred_xswd_events, remove_decision, saturated, push_if_room, defer_xswd_disconnect,
}
use xelis_wallet_flutter.Xswd.Dispatcher.Bounded.{IsQueued, IsNotification, remove_decision-none}

abbrev pub hit : ℕ → ℕ → ℕ
hit sender callback = if callback == sender then 1 else 0

-- 1 for an event that the sender waits on.
abbrev pub owes : {N : Type 0} → ℕ → XswdEvent N → ℕ
owes sender (request_application state callback) = hit sender callback
owes sender (request_permission state request callback) = hit sender callback
owes sender (prefetch_permissions state permissions callback) = hit sender callback
owes sender (cancel_request state callback) = hit sender callback
owes sender (app_disconnect state) = 0

abbrev pub owed_response : {N : Type 0} → ℕ → PendingXswdResponse N → ℕ
owed_response sender (permission_response callback) = hit sender callback
owed_response sender (prefetch_response permissions callback) = hit sender callback

abbrev pub owed_kind : {N : Type 0} → ℕ → ActiveXswdCallbackKind N → ℕ
owed_kind sender (decision_kind response admission) = owed_response sender response
owed_kind sender (notification_kind kind) = 0

abbrev pub owed_active : {N : Type 0} → ℕ → Option (ActiveXswdCallback N) → ℕ
owed_active sender none = 0
owed_active sender (some active) = owed_kind sender active.kind

module _ {N F : Type 0} where
  abbrev pub owed_one : ℕ → DeferredXswdEvent N F → ℕ
  owed_one sender (raw event) = owes sender event
  owed_one sender (deferred_notification n) = 0

  abbrev pub owed_deferred : ℕ → List (DeferredXswdEvent N F) → ℕ
  owed_deferred sender [] = 0
  owed_deferred sender (d ∷ ds) = owed_one sender d + owed_deferred sender ds

  abbrev pub asks : ℕ → Effect N F → ℕ
  asks sender (received event) = owes sender event
  asks sender _ = 0

  -- How many received events the sender waits on.
  abbrev pub asked : ℕ → List (Effect N F) → ℕ
  asked sender [] = 0
  asked sender (e ∷ es) = asks sender e + asked sender es

  abbrev pub answers : ℕ → Effect N F → ℕ
  answers sender (sent callback reply) = hit sender callback
  answers sender _ = 0

  -- How many answers were sent to the sender.
  abbrev pub answered : ℕ → List (Effect N F) → ℕ
  answered sender [] = 0
  answered sender (e ∷ es) = answers sender e + answered sender es

-- Effects that take no event and send `n` answers to the sender.
abbrev pub Pays : {N F : Type 0} → ℕ → ℕ → List (Effect N F) → Type 0
Pays c n es = (asked c es ≡ 0) × (answered c es ≡ n)

module _ {N : Type 0} (F : Type 0) (c : ℕ) where
  pub fail_event-Pays :
      (event : XswdEvent N) (code : String) → Pays {F = F} c (owes c event) (fail_event event code)
  unfolding fail_event
  fail_event-Pays (request_application s k) code = omega arith
  fail_event-Pays (request_permission s r k) code = omega arith
  fail_event-Pays (prefetch_permissions s p k) code = omega arith
  fail_event-Pays (cancel_request s k) code = omega arith
  fail_event-Pays (app_disconnect s) code = omega arith

  pub fail_kind-Pays :
      (kind : ActiveXswdCallbackKind N) (code : String)
      → Pays {F = F} c (owed_kind c kind) (fail_kind kind code)
  unfolding fail_kind
  fail_kind-Pays (decision_kind (permission_response k) admission) code = omega arith
  fail_kind-Pays (decision_kind (prefetch_response p k) admission) code = omega arith
  fail_kind-Pays (notification_kind kind) code = omega arith

module _ {N F : Type 0} (c : ℕ) where
  pub asked-append : (es fs : List (Effect N F)) → asked c (es ++ fs) ≡ asked c es + asked c fs
  asked-append [] fs = omega arith
  asked-append (e ∷ es) fs = omega (arith, asked-append es fs)

  pub answered-append :
      (es fs : List (Effect N F)) → answered c (es ++ fs) ≡ answered c es + answered c fs
  answered-append [] fs = omega arith
  answered-append (e ∷ es) fs = omega (arith, answered-append es fs)

  pub owed-snoc :
      (ds : List (DeferredXswdEvent N F)) (d : DeferredXswdEvent N F)
      → owed_deferred c (ds ++ d ∷ []) ≡ owed_deferred c ds + owed_one c d
  owed-snoc [] d = omega arith
  owed-snoc (x ∷ ds) d = omega (arith, owed-snoc ds d)

  pub Pays-append :
      (m n : ℕ) (es fs : List (Effect N F)) → Pays c m es → Pays c n fs → Pays c (m + n) (es ++ fs)
  Pays-append m n es fs a b = omega (arith, asked-append es fs, answered-append es fs)

  pub cancel_deferred-Pays :
      (ds : List (DeferredXswdEvent N F)) (state : ℕ)
      → let (retained, effects, admission) = cancel_deferred_xswd_decisions ds state in
        (asked c effects ≡ 0) × (owed_deferred c ds ≡ answered c effects + owed_deferred c retained)
  unfolding cancel_deferred_xswd_decisions
  cancel_deferred-Pays [] state = omega arith
  cancel_deferred-Pays (raw (request_application s k) ∷ ds) state =
      ground (arith, cancel_deferred-Pays ds state)
  cancel_deferred-Pays (raw (request_permission s r k) ∷ ds) state =
      ground (arith, cancel_deferred-Pays ds state)
  cancel_deferred-Pays (raw (prefetch_permissions s p k) ∷ ds) state =
      ground (arith, cancel_deferred-Pays ds state)
  cancel_deferred-Pays (raw (cancel_request s k) ∷ ds) state =
      ground (arith, cancel_deferred-Pays ds state)
  cancel_deferred-Pays (raw (app_disconnect s) ∷ ds) state =
      ground (arith, cancel_deferred-Pays ds state)
  cancel_deferred-Pays (deferred_notification n ∷ ds) state =
      ground (arith, cancel_deferred-Pays ds state)

  pub fail_deferred_event-Pays :
      (d : DeferredXswdEvent N F) (code : String)
      → Pays c (owed_one c d) (fail_deferred_xswd_event d code)
  unfolding fail_deferred_xswd_event
  fail_deferred_event-Pays (raw event) code = fail_event-Pays F c event code
  fail_deferred_event-Pays (deferred_notification n) code = omega arith

  pub fail_deferred_events-Pays :
      (ds : List (DeferredXswdEvent N F)) (code : String)
      → Pays c (owed_deferred c ds) (fail_deferred_xswd_events ds code)
  unfolding fail_deferred_xswd_events
  fail_deferred_events-Pays [] code = omega arith
  fail_deferred_events-Pays (d ∷ ds) code =
      Pays-append (owed_one c d) (owed_deferred c ds) _ _ (fail_deferred_event-Pays d code)
        (fail_deferred_events-Pays ds code)

  pub defer_xswd_decision-Pays :
      (ds : List (DeferredXswdEvent N F)) (event : XswdEvent N)
      → let (deferred, effects) = defer_xswd_decision ds event in
        (asked c effects ≡ 0)
        × (owed_deferred c ds + owes c event ≡ answered c effects + owed_deferred c deferred)
  unfolding defer_xswd_decision
  defer_xswd_decision-Pays ds event =
      ground (arith, owed-snoc ds (raw event), fail_event-Pays F c event "XSWD_REQUEST_QUEUE_FULL")

  remove_decision-owed :
      (ds : List (DeferredXswdEvent N F)) (event : DeferredXswdEvent N F)
      (others : List (DeferredXswdEvent N F))
      → remove_decision ds ≡ some (event, others)
      → owed_deferred c ds ≡ owed_one c event + owed_deferred c others
  unfolding remove_decision
  remove_decision-owed [] event others h = cc
  remove_decision-owed (d ∷ ds) event others h = elim (Option-cases (remove_decision ds)) [
    | inl absent ↦ ground arith
    | inr ((e, rest), found) ↦ ground (arith, remove_decision-owed ds e rest found)
  ]

  notifications-owed :
      (ds : List (DeferredXswdEvent N F)) → All IsNotification ds → owed_deferred c ds ≡ 0
  notifications-owed [] all = refl
  notifications-owed (raw e ∷ ds) all = absurd (all.0)
  notifications-owed (deferred_notification n ∷ ds) all = omega (arith, notifications-owed ds all.1)

  push_if_room-owed :
      (ds : List (DeferredXswdEvent N F)) (n : PreparedXswdNotification F)
      → owed_deferred c (push_if_room ds n) ≡ owed_deferred c ds
  push_if_room-owed ds n =
      let d : DeferredXswdEvent N F = deferred_notification n in ground (arith, owed-snoc ds d)

  saturated-owed :
      (ds : List (DeferredXswdEvent N F)) (n : PreparedXswdNotification F)
      → All IsNotification ds
      → Pays c 0 (saturated ds n).1 × (owed_deferred c (saturated ds n).0 ≡ 0)
  saturated-owed [] n all = (omega arith, omega arith)
  saturated-owed (d ∷ ds) n all =
      let e : DeferredXswdEvent N F = deferred_notification n in
      (omega arith, omega (arith, owed-snoc ds e, notifications-owed ds all.1))

  pub defer_xswd_disconnect-Pays :
      (ds : List (DeferredXswdEvent N F)) (active : Option (ActiveXswdCallback N))
      (n : PreparedXswdNotification F)
      → All IsQueued ds
      → let (deferred, effects, next) = defer_xswd_disconnect ds active n in
        (asked c effects ≡ 0) × (owed_deferred c ds ≡ answered c effects + owed_deferred c deferred)
  unfolding defer_xswd_disconnect
  defer_xswd_disconnect-Pays ds active n all = elim (Option-cases (remove_decision ds)) [
    | inl absent ↦
        let only = remove_decision-none ds absent all in
        ground (arith, saturated-owed ds n only, notifications-owed ds only, push_if_room-owed ds n)
    | inr ((e, rest), found) ↦ ground (
      arith,
      remove_decision-owed ds e rest found,
      push_if_room-owed rest n,
      push_if_room-owed ds n,
      fail_deferred_event-Pays e "XSWD_REQUEST_QUEUE_FULL",
    )
  ]
