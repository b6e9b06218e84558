-- ===== src/Xswd/Registry/Keys.antt =====
-- The keys of the registry: each reference is drawn from the counter and given once.
use xelis_wallet_flutter.Base.{
  ℕ, ◌+◌, ◌<◌, ◌≤◌, ◌≡◌, refl, Bool, true, false, Option, none, some, List, [], ◌∷◌, map, nat_eq,
  any, All, All-map, All-imp, keep_if-All, ◌⊎◌, inl, inr, Bool-cases, Option-cases, leb, arith, ap,
  subst, sym, ◌∙◌,
}
use xelis_wallet_flutter.Base.Results.{Result, ok, err}
use xelis_wallet_flutter.Base.Words.{u64_max}
use xelis_wallet_flutter.Xswd.Registry.{
  XswdSessionEntry, XswdSessionRegistry, XswdSessionReferenceError, find_if, of_state, insert,
  draw_reference, insert_drawn, deactivate_of, deactivate, remove_dead, project, register, resolve,
  project_found, register_projected, or_exhausted, register_projected, invalidate_state, clear,
  Call, register_call, project_call, resolve_call, invalidate_call, clear_call, elsewhere_call,
  step, run, empty_registry,
}
use xelis_wallet_flutter.Xswd.Registry.Entries.{
  Distinct, keep_if-Distinct, map-Distinct, keep_if-fresh,
}

-- The keys of the map have been drawn from the counter, each once.
abbrev pub Drawn : XswdSessionRegistry → Type 0
Drawn r = All (λ e. e.session_ref < r.next_session_reference) r.sessions × Distinct r.sessions

pub remove_dead-Drawn :
    (alive : ℕ → Bool) (r : XswdSessionRegistry) → Drawn r → Drawn (remove_dead alive r)
unfolding remove_dead
remove_dead-Drawn alive r drawn = (keep_if-All _ _ _ drawn.0, keep_if-Distinct _ _ drawn.1)

pub consed-Drawn :
    (state : ℕ) (active : Bool) (r : XswdSessionRegistry)
    → Drawn r
    → Drawn (record {
      sessions =
          record { session_ref = r.next_session_reference; state = state; active = active }
          ∷ r.sessions;
      next_session_reference = r.next_session_reference + 1;
    })
consed-Drawn state active r drawn = (
  (omega arith, All-imp _ _ (λ e below. omega (arith, below)) _ drawn.0),
  (All-imp _ _ (λ e below. ground (arith, below)) _ drawn.0, drawn.1),
)

-- What an insertion under a drawn reference leaves.
pub insert_drawn-cases :
    (state : ℕ) (active : Bool) (r : XswdSessionRegistry)
    → Drawn r
    → ((insert_drawn state active (draw_reference r) ≡ (r, none))
        × (u64_max ≤ r.next_session_reference))
      ⊎ (insert_drawn state active (draw_reference r) ≡ (
        record {
          sessions =
              record { session_ref = r.next_session_reference; state = state; active = active }
              ∷ r.sessions;
          next_session_reference = r.next_session_reference + 1;
        },
        some r.next_session_reference,
      ))
        × (r.next_session_reference < u64_max)
unfolding insert_drawn draw_reference insert
insert_drawn-cases state active r drawn =
    elim (Bool-cases (leb (r.next_session_reference + 1) u64_max)) [
      | inl room ↦
          inr (
            ground (arith, keep_if-fresh r.next_session_reference r.sessions drawn.0),
            ground arith,
          )
      | inr full ↦ inl (ground arith, ground arith)
    ]

pub or_exhausted-state : (x : XswdSessionRegistry × Option ℕ) → (or_exhausted x).0 ≡ x.0
or_exhausted-state (r, none) = refl
or_exhausted-state (r, some session_ref) = refl

pub register_projected-state :
    (x : XswdSessionRegistry × Result XswdSessionReferenceError ℕ) → (register_projected x).0 ≡ x.0
unfolding register_projected
register_projected-state (r, err e) = refl
register_projected-state (r, ok session_ref) = refl

module _ (alive : ℕ → Bool) (r : XswdSessionRegistry) (state : ℕ) where
  pub project-known :
      (e : XswdSessionEntry)
      → find_if (of_state state) (remove_dead alive r).sessions ≡ some e
      → project alive r state ≡ (remove_dead alive r, ok e.session_ref)
  unfolding project project_found
  project-known e found = ap (project_found (remove_dead alive r) state) found

  pub project-new :
      find_if (of_state state) (remove_dead alive r).sessions ≡ none
      → project alive r state
        ≡ or_exhausted (insert_drawn state true (draw_reference (remove_dead alive r)))
  unfolding project project_found
  project-new absent = ap (project_found (remove_dead alive r) state) absent

  pub invalidate_state-known :
      any (of_state state) (remove_dead alive r).sessions ≡ true
      → invalidate_state alive r state ≡ record (remove_dead alive r) {
        sessions = map (deactivate_of state) (remove_dead alive r).sessions;
      }
  unfolding invalidate_state
  invalidate_state-known known = rw (known) refl

  pub invalidate_state-new :
      any (of_state state) (remove_dead alive r).sessions ≡ false
      → invalidate_state alive r state
        ≡ (insert_drawn state false (draw_reference (remove_dead alive r))).0
  unfolding invalidate_state
  invalidate_state-new absent = rw (absent) refl

advanced-Drawn :
    (r : XswdSessionRegistry)
    → Drawn r
    → Drawn (record r { next_session_reference = r.next_session_reference + 1 })
advanced-Drawn r drawn = (All-imp _ _ (λ e below. omega (arith, below)) _ drawn.0, drawn.1)

draw_reference-Drawn : (r : XswdSessionRegistry) → Drawn r → Drawn (draw_reference r).0
unfolding draw_reference
draw_reference-Drawn r drawn = elim (Bool-cases (leb (r.next_session_reference + 1) u64_max)) [
  | inl room ↦ subst Drawn (ground arith) (advanced-Drawn r drawn)
  | inr full ↦ subst Drawn (ground arith) drawn
]

insert_drawn-Drawn :
    (state : ℕ) (active : Bool) (r : XswdSessionRegistry)
    → Drawn r
    → Drawn (insert_drawn state active (draw_reference r)).0
insert_drawn-Drawn state active r drawn = elim (insert_drawn-cases state active r drawn) [
  | inl (same, full) ↦ subst (λ x. Drawn x.0) (sym same) drawn
  | inr (grown, room) ↦ subst (λ x. Drawn x.0) (sym grown) (consed-Drawn state active r drawn)
]

map-Drawn :
    (f : XswdSessionEntry → XswdSessionEntry) (r : XswdSessionRegistry)
    → ((e : XswdSessionEntry) → (f e).session_ref ≡ e.session_ref)
    → Drawn r
    → Drawn (record r { sessions = map f r.sessions })
map-Drawn f r keeps drawn =
    (All-map _ _ f (λ e below. ground (arith, keeps e)) _ drawn.0, map-Distinct f _ keeps drawn.1)

module _ (alive : ℕ → Bool) (r : XswdSessionRegistry) (drawn : Drawn r) where
  project-Drawn : (state : ℕ) → Drawn (project alive r state).0
  project-Drawn state =
      let clean = remove_dead-Drawn alive r drawn in
      elim (Option-cases (find_if (of_state state) (remove_dead alive r).sessions)) [
        | inr (e, found) ↦ subst (λ x. Drawn x.0) (sym (project-known alive r state e found)) clean
        | inl absent ↦
            subst Drawn
              (sym (ap (λ x. x.0) (project-new alive r state absent) ∙ or_exhausted-state _))
              (insert_drawn-Drawn state true (remove_dead alive r) clean)
      ]

  pub register-Drawn : (state : ℕ) → Drawn (register alive r state).0
  unfolding register
  register-Drawn state =
      subst Drawn (sym (register_projected-state (project alive r state))) (project-Drawn state)

  invalidate_state-Drawn : (state : ℕ) → Drawn (invalidate_state alive r state)
  invalidate_state-Drawn state =
      let clean = remove_dead-Drawn alive r drawn in
      elim (Bool-cases (any (of_state state) (remove_dead alive r).sessions)) [
        | inl known ↦
            subst Drawn (sym (invalidate_state-known alive r state known))
              (map-Drawn (deactivate_of state) (remove_dead alive r) (λ e. ground arith) clean)
        | inr absent ↦
            subst Drawn (sym (invalidate_state-new alive r state absent))
              (insert_drawn-Drawn state false (remove_dead alive r) clean)
      ]

  pub step-Drawn : (call : Call) → Drawn (step alive r call)
  unfolding step resolve clear
  step-Drawn (register_call state) = register-Drawn state
  step-Drawn (project_call state) = project-Drawn state
  step-Drawn (resolve_call session_ref) = remove_dead-Drawn alive r drawn
  step-Drawn (invalidate_call state) = invalidate_state-Drawn state
  step-Drawn clear_call =
      map-Drawn deactivate (remove_dead alive r) (λ e. refl) (remove_dead-Drawn alive r drawn)
  step-Drawn elsewhere_call = draw_reference-Drawn r drawn

run-Drawn :
    (r : XswdSessionRegistry) (calls : List ((ℕ → Bool) × Call)) → Drawn r → Drawn (run r calls)
unfolding run
run-Drawn r [] drawn = drawn
run-Drawn r ((alive, call) ∷ calls) drawn =
    run-Drawn (step alive r call) calls (step-Drawn alive r drawn call)

-- After any calls on an empty registry, whatever the counter stands at, every reference in it was
-- drawn before and names one entry.
pub reachable-Drawn :
    (counter : ℕ) (calls : List ((ℕ → Bool) × Call)) → Drawn (run (empty_registry counter) calls)
reachable-Drawn counter calls = run-Drawn (empty_registry counter) calls (tt, tt)
