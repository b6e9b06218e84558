-- ===== src/Xswd/Registry/Lookup.antt =====
-- What registering, resolving, clearing and invalidating give for a session.
use xelis_wallet_flutter.Base.{
  none, ℕ, ◌+◌, ◌≡◌, ◌≢◌, refl, Bool, true, false, some, List, [], ◌∷◌, nat_eq, eq→≡, eq_refl,
  keep_if-All, All, ◌⊎◌, inl, inr, Option-cases, ap, subst, sym, ◌∙◌, if◌then◌else◌, arith,
}
use xelis_wallet_flutter.Base.Results.{ok, err}
use xelis_wallet_flutter.Xswd.Registry.{
  XswdSessionEntry, XswdSessionRegistry, XswdSessionReferenceError, exhausted, invalid,
  or_exhausted, find_if, of_state, of_ref, active_or_invalid, remove_dead, register,
  register_projected, resolve, invalidate_state, Call, run, empty_registry,
}
use xelis_wallet_flutter.Xswd.Registry.Entries.{find_if-All, find_if-of_ref, find_if-alive}
use xelis_wallet_flutter.Xswd.Registry.Keys.{
  Drawn, remove_dead-Drawn, insert_drawn-cases, project-known, project-new, reachable-Drawn,
  register-Drawn,
}
use xelis_wallet_flutter.Xswd.Registry.Standing.{revokes, Stands, run-Stands}
use xelis_wallet_flutter.Xswd.Registry.Revocation.{
  Revoked, run-Revoked, register-Revoked, invalidate_state-Revokes,
}

everywhere : (es : List XswdSessionEntry) → All (λ x. Unit {0}) es
everywhere [] = tt
everywhere (e ∷ es) = (tt, everywhere es)

module _ (alive : ℕ → Bool) (r : XswdSessionRegistry) (state : ℕ) where
  -- The three ways in which registration ends.
  pub register-cases :
      Drawn r
      → (((e : XswdSessionEntry) × (find_if (of_state state) (remove_dead alive r).sessions
              ≡ some e)
            × (register alive r state
                ≡ (remove_dead alive r, some (if e.active then ok e.session_ref else err invalid))))
          ⊎ (register alive r state ≡ (remove_dead alive r, some (err exhausted))))
        ⊎ (register alive r state ≡ (
          record {
            sessions =
                record { session_ref = r.next_session_reference; state = state; active = true }
                ∷ (remove_dead alive r).sessions;
            next_session_reference = r.next_session_reference + 1;
          },
          some (ok r.next_session_reference),
        ))
  unfolding register register_projected remove_dead
  register-cases drawn =
      let clean = remove_dead-Drawn alive r drawn in
      elim (Option-cases (find_if (of_state state) (remove_dead alive r).sessions)) [
        | inr (e, found) ↦ inl (
            inl (
              e,
              found,
              ap register_projected (project-known alive r state e found)
                  ∙ ap (λ x. (remove_dead alive r, active_or_invalid e.session_ref x))
                      (find_if-of_ref state _ e clean.1 found),
            ))
        | inl absent ↦ elim (insert_drawn-cases state true (remove_dead alive r) clean) [
          | inl (same, full) ↦ inl (
              inr (ap register_projected (project-new alive r state absent ∙ ap or_exhausted same)))
          | inr (grown, room) ↦ inr (
              ap register_projected (project-new alive r state absent ∙ ap or_exhausted grown)
              ∙ ground arith)
        ]
      ]

found-resolve :
    (alive : ℕ → Bool) (r : XswdSessionRegistry) (session_ref : ℕ) (e : XswdSessionEntry)
    → alive e.state ≡ true
    → e.active ≡ true
    → find_if (of_ref session_ref) r.sessions ≡ some e
    → (resolve alive r session_ref).1 ≡ some e.state
unfolding resolve remove_dead
found-resolve alive r session_ref e live active found =
    ground (arith, find_if-alive alive session_ref r.sessions e live found)

registered-Stands :
    (alive : ℕ → Bool) (r r' : XswdSessionRegistry) (state session_ref : ℕ)
    → Drawn r
    → register alive r state ≡ (r', some (ok session_ref))
    → (e : XswdSessionEntry) × (e.state ≡ state) × (e.active ≡ true) × Stands session_ref e r'
unfolding remove_dead
registered-Stands alive r r' state session_ref drawn h = elim (register-cases alive r state drawn) [
  | inl known_or_full ↦ elim known_or_full [
    | inl (e, found, known) ↦
        let clean = remove_dead-Drawn alive r drawn in
        let mine : e.state ≡ state =
          eq→≡ e.state state
            (find_if-All (λ x. Unit {0}) (of_state state) (remove_dead alive r).sessions e
              (everywhere (remove_dead alive r).sessions) found).0 in
        let active : e.active ≡ true = ground arith in
        let key : e.session_ref ≡ session_ref = ground arith in
        let kept : r' ≡ remove_dead alive r = ground arith in
        let here : find_if (of_ref session_ref) r'.sessions ≡ some e =
          ap (λ x. find_if (of_ref session_ref) x.sessions) kept
          ∙ ap (λ x. find_if (of_ref x) (remove_dead alive r).sessions) (sym key)
          ∙ find_if-of_ref state _ e clean.1 found in
        (e, mine, active, here)
    | inr full ↦ absurd ground arith
  ]
  | inr new ↦
      let key : session_ref ≡ r.next_session_reference = ground arith in
      let first = eq_refl r.next_session_reference in
      (
        record { session_ref = r.next_session_reference; state = state; active = true },
        refl,
        refl,
        ground arith,
      )
]

-- In a registry that any calls made, a reference that registration gives names the session through
-- any later calls, also calls on other registries of the process, as long as the session is alive at
-- each and none of them invalidates the session or clears the registry.
pub register-resolve :
    (counter : ℕ) (before later : List ((ℕ → Bool) × Call)) (alive alive' : ℕ → Bool)
    (r' : XswdSessionRegistry) (state session_ref : ℕ)
    → register alive (run (empty_registry counter) before) state ≡ (r', some (ok session_ref))
    → All (λ c. (c.0 state ≡ true) × (revokes state c.1 ≡ false)) later
    → alive' state ≡ true
    → (resolve alive' (run r' later) session_ref).1 ≡ some state
register-resolve counter before later alive alive' r' state session_ref h kept live =
    let start = run (empty_registry counter) before in
    let drawn = reachable-Drawn counter before in
    let (e, mine, active, stands) = registered-Stands alive start r' state session_ref drawn h in
    let drawn' : Drawn r' = subst (λ x. Drawn x.0) h (register-Drawn alive start drawn state) in
    let stands' =
      run-Stands session_ref e r' later
        (subst (λ x. All (λ c. (c.0 x ≡ true) × (revokes x c.1 ≡ false)) later) (sym mine) kept)
        drawn' stands in
    found-resolve alive' (run r' later) session_ref e (ap alive' mine ∙ live) active stands'
    ∙ ap some mine

-- In a registry that any calls made, registration ends: indexing the map after it never panics.
pub register-returns :
    (counter : ℕ) (before : List ((ℕ → Bool) × Call)) (alive : ℕ → Bool) (state : ℕ)
    → (register alive (run (empty_registry counter) before) state).1 ≢ none
register-returns counter before alive state panics =
    elim (register-cases alive (run (empty_registry counter) before) state
      (reachable-Drawn counter before)) [
        | inl known_or_full ↦ elim known_or_full [
          | inl (e, found, known) ↦ ground arith
          | inr full ↦ ground arith
        ]
        | inr new ↦ ground arith
      ]

-- A revoked session is neither registered nor resolved.
module _ (alive : ℕ → Bool) (r : XswdSessionRegistry) (state : ℕ) where
  Revoked-register :
      Revoked state r
      → alive state ≡ true
      → (e : XswdSessionReferenceError) × ((register alive r state).1 ≡ some (err e))
  unfolding remove_dead
  Revoked-register h live = elim (register-cases alive r state h.drawn) [
    | inl known_or_full ↦ elim known_or_full [
      | inl (e, found, known) ↦
          let (mine, quiet) = find_if-All _ _ _ e (keep_if-All _ _ _ h.inactive) found in
          let inactive : e.active ≡ false = quiet (eq→≡ e.state state mine) in
          (invalid, ground arith)
      | inr full ↦ (exhausted, ground arith)
    ]
    | inr new ↦
        let after =
          subst (λ x. Revoked state x.0) new (register-Revoked state alive r state live h) in
        let absurd : true ≡ false = after.inactive.0 refl in cc
  ]

  Revoked-resolve :
      Revoked state r → (session_ref : ℕ) → (resolve alive r session_ref).1 ≢ some state
  unfolding resolve remove_dead
  Revoked-resolve h session_ref resolved =
      elim (Option-cases (find_if (of_ref session_ref) (remove_dead alive r).sessions)) [
        | inl absent ↦ ground arith
        | inr (e, found) ↦
            let quiet = (find_if-All _ _ _ e (keep_if-All _ _ _ h.inactive) found).1 in
            ground (arith, quiet)
      ]

-- Once a session is invalidated in a registry that any calls made, no later calls, of this registry
-- or another, in any order, give it authority again: as long as it is alive, registering it fails,
-- and no reference resolves to it.
pub invalidated_for_good :
    (counter : ℕ) (before calls : List ((ℕ → Bool) × Call)) (state : ℕ) (alive alive' : ℕ → Bool)
    → All (λ c. c.0 state ≡ true) calls
    → alive' state ≡ true
    → let after = run (invalidate_state alive (run (empty_registry counter) before) state) calls in
      ((e : XswdSessionReferenceError) × ((register alive' after state).1 ≡ some (err e)))
      × ((session_ref : ℕ) → (resolve alive' after session_ref).1 ≢ some state)
invalidated_for_good counter before calls state alive alive' live live' =
    let r = run (empty_registry counter) before in
    let after =
      run-Revoked state (invalidate_state alive r state) calls live
        (invalidate_state-Revokes state alive r (reachable-Drawn counter before)) in
    (Revoked-register alive' _ state after live', Revoked-resolve alive' _ state after)
