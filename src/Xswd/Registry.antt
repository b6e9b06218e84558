-- ===== src/Xswd/Registry.antt =====
-- rust/src/api/xswd/impl/registry.rs: the references under which sessions of applications are named.
-- An `AppState` is named by a number: a `Weak` keeps its allocation, so no two states that the
-- registry knows compare equal. `alive` says whose strong count is positive when a method runs.
pub mod Entries
pub mod Keys
pub mod Revocation
pub mod Standing
pub mod Lookup
pub mod Examples
use xelis_wallet_flutter.Base.{
  ℕ, ◌+◌, Bool, true, false, not, ◌&&◌, Option, none, some, List, [], ◌∷◌, map, Eq, nat_eq, ◌==◌,
  String, keep_if, any, if◌then◌else◌,
}
use xelis_wallet_flutter.Base.Results.{Result, ok, err}
use xelis_wallet_flutter.Base.Words.{u64_max, checked_add}

pub data XswdSessionReferenceError : Type 0 where
  exhausted invalid : XswdSessionReferenceError

pub code : XswdSessionReferenceError → String
code exhausted = "XSWD_SESSION_REFERENCE_EXHAUSTED"
code invalid = "XSWD_SESSION_REFERENCE_INVALID"

-- One entry of the map, with its key.
pub record XswdSessionEntry : Type 0 where
  pub session_ref : ℕ
  pub state : ℕ
  pub active : Bool

-- The registry, and the static counter that all registries of the process draw from.
pub record XswdSessionRegistry : Type 0 where
  pub sessions : List XswdSessionEntry
  pub next_session_reference : ℕ

abbrev pub find_if : (XswdSessionEntry → Bool) → List XswdSessionEntry → Option XswdSessionEntry
find_if p [] = none
find_if p (e ∷ es) = let rest = find_if p es in if p e then some e else rest

abbrev pub of_state : ℕ → XswdSessionEntry → Bool
of_state state e = e.state == state

abbrev pub of_ref : ℕ → XswdSessionEntry → Bool
of_ref session_ref e = e.session_ref == session_ref

-- `HashMap::insert`.
unfoldable pub insert : XswdSessionEntry → List XswdSessionEntry → List XswdSessionEntry
insert entry entries = entry ∷ keep_if (λ e. not (of_ref entry.session_ref e)) entries

-- `fetch_update` with `checked_add`, which gives the previous value.
unfoldable pub draw_reference : XswdSessionRegistry → XswdSessionRegistry × Option ℕ
draw_reference r = elim (checked_add u64_max r.next_session_reference 1) [
  | none ↦ (r, none)
  | some next ↦ (record r { next_session_reference = next }, some r.next_session_reference)
]

unfoldable pub insert_drawn :
    ℕ → Bool → XswdSessionRegistry × Option ℕ → XswdSessionRegistry × Option ℕ
unfolding insert
insert_drawn state active (r, none) = (r, none)
insert_drawn state active (r, some session_ref) = (
  record r {
    sessions =
        insert (record { session_ref = session_ref; state = state; active = active }) r.sessions;
  },
  some session_ref,
)

abbrev pub or_exhausted :
    XswdSessionRegistry × Option ℕ → XswdSessionRegistry × Result XswdSessionReferenceError ℕ
or_exhausted (r, none) = (r, err exhausted)
or_exhausted (r, some session_ref) = (r, ok session_ref)

abbrev pub deactivate_of : ℕ → XswdSessionEntry → XswdSessionEntry
deactivate_of state e = if of_state state e then record e { active = false } else e

abbrev pub deactivate : XswdSessionEntry → XswdSessionEntry
deactivate e = record e { active = false }

-- `Some` of an upgraded state where the entry is active.
abbrev pub upgrade : (ℕ → Bool) → Option XswdSessionEntry → Option ℕ
upgrade alive none = none
upgrade alive (some e) = if e.active && alive e.state then some e.state else none

-- Indexing a missing key panics, which is `none`.
abbrev pub active_or_invalid :
    ℕ → Option XswdSessionEntry → Option (Result XswdSessionReferenceError ℕ)
active_or_invalid session_ref none = none
active_or_invalid session_ref (some e) = some (if e.active then ok session_ref else err invalid)

pub register_projected :
    XswdSessionRegistry × Result XswdSessionReferenceError ℕ
    → XswdSessionRegistry × Option (Result XswdSessionReferenceError ℕ)
register_projected (r, err e) = (r, some (err e))
register_projected (r, ok session_ref) =
    (r, active_or_invalid session_ref (find_if (of_ref session_ref) r.sessions))

pub project_found :
    XswdSessionRegistry
    → ℕ
    → Option XswdSessionEntry
    → XswdSessionRegistry × Result XswdSessionReferenceError ℕ
unfolding draw_reference insert_drawn
project_found r state (some e) = (r, ok e.session_ref)
project_found r state none = or_exhausted (insert_drawn state true (draw_reference r))

module _ (alive : ℕ → Bool) where
  unfoldable pub remove_dead : XswdSessionRegistry → XswdSessionRegistry
  remove_dead r = record r { sessions = keep_if (λ e. alive e.state) r.sessions }

  unfoldable pub project :
      XswdSessionRegistry → ℕ → XswdSessionRegistry × Result XswdSessionReferenceError ℕ
  unfolding remove_dead project_found
  project r state =
      project_found (remove_dead r) state (find_if (of_state state) (remove_dead r).sessions)

  unfoldable pub register :
      XswdSessionRegistry → ℕ → XswdSessionRegistry × Option (Result XswdSessionReferenceError ℕ)
  unfolding register_projected
  register r state = register_projected (project r state)

  unfoldable pub resolve : XswdSessionRegistry → ℕ → XswdSessionRegistry × Option ℕ
  unfolding remove_dead
  resolve r session_ref =
      (remove_dead r, upgrade alive (find_if (of_ref session_ref) (remove_dead r).sessions))

  unfoldable pub invalidate_state : XswdSessionRegistry → ℕ → XswdSessionRegistry
  unfolding remove_dead draw_reference insert_drawn
  invalidate_state r state =
      if any (of_state state) (remove_dead r).sessions
      then record (remove_dead r) { sessions = map (deactivate_of state) (remove_dead r).sessions }
      else (insert_drawn state false (draw_reference (remove_dead r))).0

  unfoldable pub clear : XswdSessionRegistry → XswdSessionRegistry
  unfolding remove_dead
  clear r = record (remove_dead r) { sessions = map deactivate (remove_dead r).sessions }

-- `default()`; the counter may have been used before.
abbrev pub empty_registry : ℕ → XswdSessionRegistry
empty_registry counter = record { sessions = []; next_session_reference = counter }

-- A call of any task on one registry, or on another registry of the process.
pub data Call : Type 0 where
  register_call project_call resolve_call invalidate_call : ℕ → Call
  clear_call elsewhere_call : Call

unfoldable pub step : (ℕ → Bool) → XswdSessionRegistry → Call → XswdSessionRegistry
step alive r (register_call state) = (register alive r state).0
step alive r (project_call state) = (project alive r state).0
step alive r (resolve_call session_ref) = (resolve alive r session_ref).0
step alive r (invalidate_call state) = invalidate_state alive r state
step alive r clear_call = clear alive r
step alive r elsewhere_call = (draw_reference r).0

-- Calls in their order, each with the states that are alive when it runs.
unfoldable pub run : XswdSessionRegistry → List ((ℕ → Bool) × Call) → XswdSessionRegistry
run r [] = r
run r ((alive, call) ∷ rest) = run (step alive r call) rest
