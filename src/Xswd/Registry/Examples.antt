-- ===== src/Xswd/Registry/Examples.antt =====
-- A concrete session that is registered and invalidated.
use xelis_wallet_flutter.Base.{ℕ, ◌≡◌, ◌≢◌, refl, Bool, true, some, List, [], ◌∷◌, nat_eq}
use xelis_wallet_flutter.Base.Results.{err}
use xelis_wallet_flutter.Xswd.Registry.{
  XswdSessionRegistry, XswdSessionReferenceError, project, register, resolve, invalidate_state,
  Call, register_call, clear_call, invalidate_call, run, empty_registry,
}
use xelis_wallet_flutter.Xswd.Registry.Keys.{Drawn, reachable-Drawn}
use xelis_wallet_flutter.Xswd.Registry.Lookup.{register-resolve, invalidated_for_good}

abbrev all_alive : ℕ → Bool
all_alive state = true

-- The session 5 was registered under the reference 1.
abbrev used_registry : XswdSessionRegistry
used_registry = record {
  sessions = record { session_ref = 1; state = 5; active = true } ∷ [];
  next_session_reference = 2;
}

abbrev no_calls : List ((ℕ → Bool) × Call)
no_calls = []

abbrev later_calls : List ((ℕ → Bool) × Call)
later_calls = (all_alive, register_call 5) ∷ (all_alive, clear_call) ∷ []

-- Another session comes and goes.
abbrev other_calls : List ((ℕ → Bool) × Call)
other_calls = (all_alive, register_call 6) ∷ (all_alive, invalidate_call 6) ∷ []

register-resolve_example : (resolve all_alive (run used_registry other_calls) 1).1 ≡ some 5
unfolding register project run
register-resolve_example =
    register-resolve 1 no_calls other_calls all_alive all_alive used_registry 5 1 refl
      ((refl, refl), ((refl, refl), tt)) refl

invalidated_for_good_example :
    ((e : XswdSessionReferenceError) × ((register all_alive
          (run (invalidate_state all_alive (run (empty_registry 1) no_calls) 5) later_calls)
          5).1
        ≡ some (err e)))
    × ((session_ref : ℕ)
        → (resolve all_alive
            (run (invalidate_state all_alive (run (empty_registry 1) no_calls) 5) later_calls)
            session_ref).1
          ≢ some 5)
invalidated_for_good_example =
    invalidated_for_good 1 no_calls later_calls 5 all_alive all_alive (refl, (refl, tt)) refl

reachable-Drawn_example : Drawn (run (empty_registry 1) later_calls)
reachable-Drawn_example = reachable-Drawn 1 later_calls
