-- ===== src/Xswd/Dispatcher/Sessions.antt =====
-- What the handler does to the registry of sessions, as calls on it.
use xelis_wallet_flutter.Base.{
  ℕ, ◌≡◌, refl, sym, subst, ap, ◌∙◌, Bool, true, false, Option, none, some, List, [], ◌∷◌, ◌++◌,
  All,
}
use xelis_wallet_flutter.Base.Results.{Result, ok, err}
use xelis_wallet_flutter.Xswd.Registry.{
  XswdSessionRegistry, XswdSessionReferenceError, Call, register_call, project_call,
  invalidate_call, register, resolve, invalidate_state, empty_registry,
}
use xelis_wallet_flutter.Xswd.Registry
use xelis_wallet_flutter.Xswd.Dispatcher.{AppState, XswdRequestType, XswdNotificationKind}
use xelis_wallet_flutter.Xswd.Dispatcher.Prepare.{
  Moment, summary_of, registered, notification_with, notification_type, create_event_summary,
  prepare_xswd_lifecycle_notification,
}
use xelis_wallet_flutter.Xswd.Dispatcher.Loop.{invalidate_if, invalidate_each}

abbrev pub Calls : Type 0
Calls = List ((ℕ → Bool) × Call)

-- From `r` the registry comes to `r'` by calls made at moments that `P` holds of.
pub record Reaches (P : (ℕ → Bool) → Type 0) (r r' : XswdSessionRegistry) : Type 0 where
  pub calls : Calls
  pub made : All (λ c. P c.0) calls
  pub path : r' ≡ Registry.run r calls

module _ (P : (ℕ → Bool) → Type 0) where
  pub run-append :
      (r : XswdSessionRegistry) (xs ys : Calls)
      → Registry.run r (xs ++ ys) ≡ Registry.run (Registry.run r xs) ys
  unfolding Registry.run
  run-append r [] ys = refl
  run-append r ((alive, call) ∷ xs) ys = run-append (Registry.step alive r call) xs ys

  All-append :
      (xs ys : Calls) → All (λ c. P c.0) xs → All (λ c. P c.0) ys → All (λ c. P c.0) (xs ++ ys)
  All-append [] ys hx hy = hy
  All-append (x ∷ xs) ys hx hy = (hx.0, All-append xs ys hx.1 hy)

  pub stays : (r : XswdSessionRegistry) → Reaches P r r
  unfolding Registry.run
  stays r = record { calls = []; made = tt; path = refl }

  pub Reaches-trans : {r s t : XswdSessionRegistry} → Reaches P r s → Reaches P s t → Reaches P r t
  Reaches-trans {r} a b = record {
    calls = a.calls ++ b.calls;
    made = All-append a.calls b.calls a.made b.made;
    path = b.path ∙ (ap (λ q. Registry.run q b.calls) a.path ∙ sym (run-append r a.calls b.calls));
  }

  module _ (alive : ℕ → Bool) (here : P alive) where
    by_call : (r : XswdSessionRegistry) (call : Call) → Reaches P r (Registry.step alive r call)
    unfolding Registry.run
    by_call r call = record { calls = (alive, call) ∷ []; made = (here, tt); path = refl }

    pub invalidate_state-Reaches :
        (r : XswdSessionRegistry) (state : ℕ) → Reaches P r (invalidate_state alive r state)
    invalidate_state-Reaches r state = unfold Registry.step in by_call r (invalidate_call state)

    pub invalidate_if-Reaches :
        (test : Bool) (app : ℕ → AppState) (r : XswdSessionRegistry) (state : ℕ)
        → Reaches P r (invalidate_if test (record { alive = alive; app = app }) state r)
    invalidate_if-Reaches true app r state = invalidate_state-Reaches r state
    invalidate_if-Reaches false app r state = stays r

    pub invalidate_each-Reaches :
        (states : List ℕ) (r : XswdSessionRegistry) → Reaches P r (invalidate_each alive states r)
    unfolding invalidate_each
    invalidate_each-Reaches [] r = stays r
    invalidate_each-Reaches (s ∷ ss) r =
        Reaches-trans (invalidate_state-Reaches r s)
          (invalidate_each-Reaches ss (invalidate_state alive r s))

  module _ (m : Moment) (here : P m.alive) where
    pub summary-Reaches :
        {F : Type 0} (r : XswdSessionRegistry) (state : ℕ) (t : XswdRequestType F)
        → Reaches P r (create_event_summary m r state t).0
    unfolding create_event_summary
    summary-Reaches r state t =
        subst (Reaches P r) (same (register m.alive r state))
          (unfold Registry.step in by_call m.alive here r (register_call state))
      where
        same :
            (x : XswdSessionRegistry × Option (Result XswdSessionReferenceError ℕ))
            → x.0 ≡ (summary_of m state t (registered x)).0
        same (q, none) = refl
        same (q, some (ok n)) = refl
        same (q, some (err e)) = refl

    pub notification-Reaches :
        (F : Type 0) (r : XswdSessionRegistry) (state : ℕ) (kind : XswdNotificationKind)
        (flag : Bool)
        → Reaches P r (prepare_xswd_lifecycle_notification {F = F} m r state kind flag).0
    unfolding prepare_xswd_lifecycle_notification
    notification-Reaches F r state kind flag =
        subst (Reaches P r) (same (Registry.project m.alive r state))
          (unfold Registry.step in by_call m.alive here r (project_call state))
      where
        same :
            (x : XswdSessionRegistry × Result XswdSessionReferenceError ℕ)
            → x.0
              ≡ (notification_with {F = F} state kind flag
                  (summary_of m state (notification_type kind) x)).0
        same (q, ok n) = refl
        same (q, err e) = refl
