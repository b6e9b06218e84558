-- ===== src/Xswd/Registry/Standing.antt =====
-- A reference that was given stands until its session is dead or its authority is taken away.
use xelis_wallet_flutter.Base.{
  ℕ, ◌+◌, ◌≡◌, Bool, true, false, some, List, [], ◌∷◌, map, nat_eq, ◌==◌, any, All, inl, inr,
  Bool-cases, Option-cases, leb, arith, ap, subst, sym, ◌∙◌,
}
use xelis_wallet_flutter.Base.Words.{u64_max}
use xelis_wallet_flutter.Xswd.Registry.{
  XswdSessionEntry, XswdSessionRegistry, find_if, of_state, of_ref, draw_reference, insert_drawn,
  deactivate_of, remove_dead, project, register, resolve, invalidate_state, Call, register_call,
  project_call, resolve_call, invalidate_call, clear_call, elsewhere_call, step, run,
}
use xelis_wallet_flutter.Xswd.Registry.Keys.{
  Drawn, remove_dead-Drawn, insert_drawn-cases, or_exhausted-state, register_projected-state,
  project-known, project-new, invalidate_state-known, invalidate_state-new, step-Drawn,
}
use xelis_wallet_flutter.Xswd.Registry.Entries.{find_if-All, find_if-alive}

-- The calls that take the authority of a session away.
abbrev pub revokes : ℕ → Call → Bool
revokes state (invalidate_call other) = other == state
revokes state clear_call = true
revokes state _ = false

find_if-map :
    (f : XswdSessionEntry → XswdSessionEntry) (session_ref : ℕ) (es : List XswdSessionEntry)
    (e : XswdSessionEntry)
    → ((x : XswdSessionEntry) → (f x).session_ref ≡ x.session_ref)
    → f e ≡ e
    → find_if (of_ref session_ref) es ≡ some e
    → find_if (of_ref session_ref) (map f es) ≡ some e
find_if-map f session_ref [] e keeps fixed h = cc
find_if-map f session_ref (x ∷ es) e keeps fixed h = elim (Bool-cases (of_ref session_ref x)) [
  | inl found ↦
      let same : x ≡ e = ground arith in
      let mapped : f x ≡ e = ap f same ∙ fixed in
      let key : of_ref session_ref (f x) ≡ true = ap (λ k. k == session_ref) (keeps x) ∙ found in
      ground arith
  | inr other ↦
      let key : of_ref session_ref (f x) ≡ false = ap (λ k. k == session_ref) (keeps x) ∙ other in
      ground (arith, find_if-map f session_ref es e keeps fixed ground arith)
]

-- `e` is the entry of the reference `session_ref`.
module _ (session_ref : ℕ) (e : XswdSessionEntry) where
  abbrev pub Stands : XswdSessionRegistry → Type 0
  Stands r = find_if (of_ref session_ref) r.sessions ≡ some e

  remove_dead-Stands :
      (alive : ℕ → Bool) (r : XswdSessionRegistry)
      → alive e.state ≡ true
      → Stands r
      → Stands (remove_dead alive r)
  unfolding remove_dead
  remove_dead-Stands alive r live h = find_if-alive alive session_ref r.sessions e live h

  draw-Stands : (r : XswdSessionRegistry) → Stands r → Stands (draw_reference r).0
  unfolding draw_reference
  draw-Stands r h = elim (Bool-cases (leb (r.next_session_reference + 1) u64_max)) [
    | inl room ↦ ground arith
    | inr full ↦ ground arith
  ]

  insert-Stands :
      (other : ℕ) (active : Bool) (r : XswdSessionRegistry)
      → Drawn r
      → Stands r
      → Stands (insert_drawn other active (draw_reference r)).0
  insert-Stands other active r drawn h = elim (insert_drawn-cases other active r drawn) [
    | inl (same, full) ↦ subst (λ x. Stands x.0) (sym same) h
    | inr (grown, room) ↦
        let (mine, below) = find_if-All _ (of_ref session_ref) r.sessions e drawn.0 h in
        subst (λ x. Stands x.0) (sym grown)
          (ground (arith, nat_eq.test_iff e.session_ref session_ref))
  ]

  project-Stands :
      (alive : ℕ → Bool) (r : XswdSessionRegistry) (other : ℕ)
      → alive e.state ≡ true
      → Drawn r
      → Stands r
      → Stands (project alive r other).0
  project-Stands alive r other live drawn h =
      let clean = remove_dead-Stands alive r live h in
      elim (Option-cases (find_if (of_state other) (remove_dead alive r).sessions)) [
        | inr (x, found) ↦ subst (λ x. Stands x.0) (sym (project-known alive r other x found)) clean
        | inl absent ↦
            subst Stands
              (sym (ap (λ x. x.0) (project-new alive r other absent) ∙ or_exhausted-state _))
              (insert-Stands other true (remove_dead alive r) (remove_dead-Drawn alive r drawn)
                clean)
      ]

  register-Stands :
      (alive : ℕ → Bool) (r : XswdSessionRegistry) (other : ℕ)
      → alive e.state ≡ true
      → Drawn r
      → Stands r
      → Stands (register alive r other).0
  unfolding register
  register-Stands alive r other live drawn h =
      subst Stands (sym (register_projected-state (project alive r other)))
        (project-Stands alive r other live drawn h)

  invalidate_state-Stands :
      (alive : ℕ → Bool) (r : XswdSessionRegistry) (other : ℕ)
      → alive e.state ≡ true
      → (other == e.state) ≡ false
      → Drawn r
      → Stands r
      → Stands (invalidate_state alive r other)
  invalidate_state-Stands alive r other live differs drawn h =
      let clean = remove_dead-Stands alive r live h in
      elim (Bool-cases (any (of_state other) (remove_dead alive r).sessions)) [
        | inl known ↦
            let fixed : deactivate_of other e ≡ e =
              ground (arith, nat_eq.test_iff e.state other, nat_eq.test_iff other e.state) in
            subst Stands (sym (invalidate_state-known alive r other known)) (
              find_if-map (deactivate_of other) session_ref (remove_dead alive r).sessions e
                (λ x. ground arith) fixed clean)
        | inr absent ↦ subst Stands (sym (invalidate_state-new alive r other absent)) (
            insert-Stands other false (remove_dead alive r) (remove_dead-Drawn alive r drawn) clean)
      ]

  step-Stands :
      (alive : ℕ → Bool) (r : XswdSessionRegistry) (call : Call)
      → alive e.state ≡ true
      → revokes e.state call ≡ false
      → Drawn r
      → Stands r
      → Stands (step alive r call)
  unfolding step resolve
  step-Stands alive r (register_call other) live kept drawn h =
      register-Stands alive r other live drawn h
  step-Stands alive r (project_call other) live kept drawn h =
      project-Stands alive r other live drawn h
  step-Stands alive r (resolve_call other_ref) live kept drawn h = remove_dead-Stands alive r live h
  step-Stands alive r (invalidate_call other) live kept drawn h =
      invalidate_state-Stands alive r other live kept drawn h
  step-Stands alive r clear_call live kept drawn h = cc
  step-Stands alive r elsewhere_call live kept drawn h = draw-Stands r h

  pub run-Stands :
      (r : XswdSessionRegistry) (calls : List ((ℕ → Bool) × Call))
      → All (λ c. (c.0 e.state ≡ true) × (revokes e.state c.1 ≡ false)) calls
      → Drawn r
      → Stands r
      → Stands (run r calls)
  unfolding run
  run-Stands r [] kept drawn h = h
  run-Stands r ((alive, call) ∷ calls) kept drawn h =
      run-Stands (step alive r call) calls kept.1 (step-Drawn alive r drawn call)
        (step-Stands alive r call kept.0.0 kept.0.1 drawn h)
