-- ===== src/Xswd/Registry/Revocation.antt =====
-- Authority that is taken away from a session does not come back.
use xelis_wallet_flutter.Base.{
  ℕ, ◌+◌, ◌≤◌, ◌≡◌, refl, Bool, true, false, List, [], ◌∷◌, map, nat_eq, any, All, All-map, All-imp,
  keep_if-All, ◌⊎◌, inl, inr, Bool-cases, Option-cases, leb, arith, ap, subst, sym, ◌∙◌,
}
use xelis_wallet_flutter.Base.Words.{u64_max}
use xelis_wallet_flutter.Xswd.Registry.{
  XswdSessionEntry, XswdSessionRegistry, find_if, of_state, draw_reference, insert_drawn,
  deactivate_of, deactivate, remove_dead, project, register, resolve, register_projected,
  register_projected, invalidate_state, clear, Call, register_call, project_call, resolve_call,
  invalidate_call, clear_call, elsewhere_call, step, run,
}
use xelis_wallet_flutter.Xswd.Registry.Keys.{
  Drawn, remove_dead-Drawn, consed-Drawn, insert_drawn-cases, or_exhausted-state,
  register_projected-state, project-known, project-new, invalidate_state-known,
  invalidate_state-new,
}
use xelis_wallet_flutter.Xswd.Registry.Entries.{find_if-none, map-Distinct, any-alive, any-map}

abbrev pub Inactive : ℕ → XswdSessionEntry → Type 0
Inactive state e = e.state ≡ state → e.active ≡ false

-- A state is revoked when every entry of it is inactive, and it has one, or no reference is left.
pub record Revoked (state : ℕ) (r : XswdSessionRegistry) : Type 0 where
  pub drawn : Drawn r
  pub inactive : All (Inactive state) r.sessions
  pub known : (any (of_state state) r.sessions ≡ true) ⊎ (u64_max ≤ r.next_session_reference)

module _ (state : ℕ) where
  remove_dead-Revoked :
      (alive : ℕ → Bool) (r : XswdSessionRegistry)
      → alive state ≡ true
      → Revoked state r
      → Revoked state (remove_dead alive r)
  unfolding remove_dead
  remove_dead-Revoked alive r live h = record {
    drawn = remove_dead-Drawn alive r h.drawn;
    inactive = keep_if-All _ _ _ h.inactive;
    known = elim h.known [
      | inl has ↦ inl (any-alive alive state r.sessions live ∙ has)
      | inr full ↦ inr full
    ];
  }

  advanced-Revoked :
      (r : XswdSessionRegistry)
      → Revoked state r
      → Revoked state (record r { next_session_reference = r.next_session_reference + 1 })
  advanced-Revoked r h = record {
    drawn = (All-imp _ _ (λ e below. omega (arith, below)) _ h.drawn.0, h.drawn.1);
    inactive = h.inactive;
    known = ground (arith, h.known);
  }

  draw-Revoked : (r : XswdSessionRegistry) → Revoked state r → Revoked state (draw_reference r).0
  unfolding draw_reference
  draw-Revoked r h = elim (Bool-cases (leb (r.next_session_reference + 1) u64_max)) [
    | inl room ↦ subst (Revoked state) (ground arith) (advanced-Revoked r h)
    | inr full ↦ subst (Revoked state) (ground arith) h
  ]

  consed-Revoked :
      (other : ℕ) (active : Bool) (r : XswdSessionRegistry)
      → (other ≡ state → active ≡ false)
      → Revoked state r
      → Revoked state (record {
        sessions =
            record { session_ref = r.next_session_reference; state = other; active = active }
            ∷ r.sessions;
        next_session_reference = r.next_session_reference + 1;
      })
  consed-Revoked other active r harmless h = record {
    drawn = consed-Drawn other active r h.drawn;
    inactive = (harmless, h.inactive);
    known = ground (arith, h.known);
  }

  insert-Revoked :
      (other : ℕ) (active : Bool) (r : XswdSessionRegistry)
      → any (of_state other) r.sessions ≡ false
      → Revoked state r
      → Revoked state (insert_drawn other active (draw_reference r)).0
  insert-Revoked other active r fresh h = elim (insert_drawn-cases other active r h.drawn) [
    | inl (same, full) ↦ subst (λ x. Revoked state x.0) (sym same) h
    | inr (grown, room) ↦
        subst (λ x. Revoked state x.0) (sym grown)
          (consed-Revoked other active r
            (λ same.
              let absent : any (of_state state) r.sessions ≡ false =
                ap (λ x. any (of_state x) r.sessions) (sym same) ∙ fresh in
              ground arith)
            h)
  ]

  project-Revoked :
      (alive : ℕ → Bool) (r : XswdSessionRegistry) (other : ℕ)
      → alive state ≡ true
      → Revoked state r
      → Revoked state (project alive r other).0
  project-Revoked alive r other live h =
      let clean = remove_dead-Revoked alive r live h in
      elim (Option-cases (find_if (of_state other) (remove_dead alive r).sessions)) [
        | inr (e, found) ↦
            subst (λ x. Revoked state x.0) (sym (project-known alive r other e found)) clean
        | inl absent ↦
            subst (Revoked state)
              (sym (ap (λ x. x.0) (project-new alive r other absent) ∙ or_exhausted-state _))
              (insert-Revoked other true (remove_dead alive r)
                (find_if-none (of_state other) (remove_dead alive r).sessions absent) clean)
      ]

  pub register-Revoked :
      (alive : ℕ → Bool) (r : XswdSessionRegistry) (other : ℕ)
      → alive state ≡ true
      → Revoked state r
      → Revoked state (register alive r other).0
  unfolding register register_projected
  register-Revoked alive r other live h =
      subst (Revoked state) (sym (register_projected-state (project alive r other)))
        (project-Revoked alive r other live h)

  map-Revoked :
      (f : XswdSessionEntry → XswdSessionEntry) (r : XswdSessionRegistry)
      → ((e : XswdSessionEntry)
          → ((f e).session_ref ≡ e.session_ref)
            × ((f e).state ≡ e.state)
            × (e.active ≡ false → (f e).active ≡ false))
      → Revoked state r
      → Revoked state (record r { sessions = map f r.sessions })
  map-Revoked f r keeps h = record {
    drawn = (
      All-map _ _ f (λ e below. ground (arith, keeps e)) _ h.drawn.0,
      map-Distinct f _ (λ e. (keeps e).0) h.drawn.1,
    );
    inactive = All-map _ _ f (λ e quiet same. ground (arith, keeps e)) _ h.inactive;
    known = elim h.known [
      | inl has ↦ inl (any-map f state r.sessions (λ e. (keeps e).1) ∙ has)
      | inr full ↦ inr full
    ];
  }

  invalidate_state-Revoked :
      (alive : ℕ → Bool) (r : XswdSessionRegistry) (other : ℕ)
      → alive state ≡ true
      → Revoked state r
      → Revoked state (invalidate_state alive r other)
  invalidate_state-Revoked alive r other live h =
      let clean = remove_dead-Revoked alive r live h in
      elim (Bool-cases (any (of_state other) (remove_dead alive r).sessions)) [
        | inl known ↦
            subst (Revoked state) (sym (invalidate_state-known alive r other known))
              (map-Revoked (deactivate_of other) (remove_dead alive r) (λ e. ground arith) clean)
        | inr absent ↦
            subst (Revoked state) (sym (invalidate_state-new alive r other absent))
              (insert-Revoked other false (remove_dead alive r) absent clean)
      ]

  step-Revoked :
      (alive : ℕ → Bool) (r : XswdSessionRegistry) (call : Call)
      → alive state ≡ true
      → Revoked state r
      → Revoked state (step alive r call)
  unfolding step resolve clear
  step-Revoked alive r (register_call other) live h = register-Revoked alive r other live h
  step-Revoked alive r (project_call other) live h = project-Revoked alive r other live h
  step-Revoked alive r (resolve_call session_ref) live h = remove_dead-Revoked alive r live h
  step-Revoked alive r (invalidate_call other) live h =
      invalidate_state-Revoked alive r other live h
  step-Revoked alive r clear_call live h =
      map-Revoked deactivate (remove_dead alive r) (λ e. ground arith)
        (remove_dead-Revoked alive r live h)
  step-Revoked alive r elsewhere_call live h = draw-Revoked r h

  pub run-Revoked :
      (r : XswdSessionRegistry) (calls : List ((ℕ → Bool) × Call))
      → All (λ c. c.0 state ≡ true) calls
      → Revoked state r
      → Revoked state (run r calls)
  unfolding run
  run-Revoked r [] live h = h
  run-Revoked r ((alive, call) ∷ calls) live h =
      run-Revoked (step alive r call) calls live.1 (step-Revoked alive r call live.0 h)

  -- Invalidation revokes a state, whether or not the registry knew it.
  deactivated : (es : List XswdSessionEntry) → All (Inactive state) (map (deactivate_of state) es)
  deactivated [] = tt
  deactivated (e ∷ es) = (λ same. ground arith, deactivated es)

  absent-Inactive :
      (es : List XswdSessionEntry) → any (of_state state) es ≡ false → All (Inactive state) es
  absent-Inactive [] h = tt
  absent-Inactive (e ∷ es) h = (λ same. ground arith, absent-Inactive es ground arith)

  pub invalidate_state-Revokes :
      (alive : ℕ → Bool) (r : XswdSessionRegistry)
      → Drawn r
      → Revoked state (invalidate_state alive r state)
  invalidate_state-Revokes alive r drawn =
      let clean = remove_dead-Drawn alive r drawn in
      let rest = (remove_dead alive r).sessions in
      elim (Bool-cases (any (of_state state) (remove_dead alive r).sessions)) [
        | inl known ↦
            subst (Revoked state) (sym (invalidate_state-known alive r state known)) (record {
              drawn = (
                All-map _ _ (deactivate_of state) (λ e below. ground arith) _ clean.0,
                map-Distinct (deactivate_of state) _ (λ e. ground arith) clean.1,
              );
              inactive = deactivated (remove_dead alive r).sessions;
              known = inl (
                  any-map (deactivate_of state) state (remove_dead alive r).sessions
                    (λ e. ground arith)
                  ∙ known);
            })
        | inr absent ↦
            subst (Revoked state) (sym (invalidate_state-new alive r state absent))
              (elim (insert_drawn-cases state false (remove_dead alive r) clean) [
                | inl (same, full) ↦
                    subst (λ x. Revoked state x.0) (sym same)
                      (record {
                        drawn = clean;
                        inactive = absent-Inactive _ absent;
                        known = inr full;
                      })
                | inr (grown, room) ↦
                    subst (λ x. Revoked state x.0) (sym grown)
                      (record {
                        drawn = consed-Drawn state false (remove_dead alive r) clean;
                        inactive = (λ same. refl, absent-Inactive _ absent);
                        known = inl ground arith;
                      })
              ])
      ]
