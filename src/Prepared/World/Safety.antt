-- ===== src/Prepared/World/Safety.antt =====
-- The errors for an inconsistent slot, which no interleaving of the calls can produce.
use xelis_wallet_flutter.Base.{
  ℕ, ◌≡◌, inl, inr, Bool, true, false, Option, none, some, List, Eq, eq_refl, arith,
}
use xelis_wallet_flutter.Prepared.{
  PreparedTransactionError, preparation_state_inconsistent, cancellation_state_inconsistent,
  submission_state_inconsistent, empty_guard, is_submitted,
}
use xelis_wallet_flutter.Prepared.Store.{take_for_submission-cases, take_for_submission_exact-cases}
use xelis_wallet_flutter.Prepared.World.{
  World, Call, replaces, begins, commits, abandons, cancels, cancels_exact, takes, takes_exact,
  finishes, restores, interrupts, step, run, start,
}
use xelis_wallet_flutter.Prepared.World.Invariant.{
  Inv, Submission, submitting-cases, start-Inv, run-Inv,
}

-- The errors that the code has for a slot or a guard that lost track of the other.
abbrev pub is_inconsistency : Option PreparedTransactionError → Bool
is_inconsistency (some preparation_state_inconsistent) = true
is_inconsistency (some cancellation_state_inconsistent) = true
is_inconsistency (some submission_state_inconsistent) = true
is_inconsistency (some empty_guard) = true
is_inconsistency e = false

module _ {H T : Type 0} ⦃hash_eq : Eq H⦄ where
  -- A guard that is live is always honoured.
  pub consuming_succeeds :
      (w : World H T) (i : ℕ)
      → Inv w
      → Submission w.store.state w.submitting
      → ((step w (finishes i)).1 ≡ none)
        × ((step w (restores i)).1 ≡ none)
        × ((step w (interrupts i)).1 ≡ none)
  unfolding step is_submitted
  consuming_succeeds w i v (inl none_live) = (ground arith, ground arith, ground arith)
  consuming_succeeds w i v (inr (g, h, t, flying, live)) =
      (ground (arith, eq_refl h), ground (arith, eq_refl h), ground (arith, eq_refl h))

  commit_succeeds :
      (w : World H T) (i : ℕ) (hash : H) (transaction : T)
      → Inv w
      → (step w (commits i hash transaction)).1 ≡ none
  unfolding step
  commit_succeeds w i hash transaction v = ground arith

  step_consistent : (w : World H T) (c : Call H T) → Inv w → is_inconsistency (step w c).1 ≡ false
  unfolding step
  step_consistent w (replaces hash transaction) v = ground arith
  step_consistent w begins v = ground arith
  step_consistent w (commits i hash transaction) v =
      ground (arith, commit_succeeds w i hash transaction v)
  step_consistent w (abandons i) v = ground arith
  step_consistent w (cancels hash) v = ground arith
  step_consistent w (cancels_exact generation hash) v = ground arith
  step_consistent w (takes hash) v = ground (arith, take_for_submission-cases w.store hash)
  step_consistent w (takes_exact generation hash) v =
      ground (arith, take_for_submission_exact-cases w.store generation hash)
  step_consistent w (finishes i) v =
      ground (arith, (consuming_succeeds w i v (submitting-cases _ _ v.submitting)).0)
  step_consistent w (restores i) v =
      ground (arith, (consuming_succeeds w i v (submitting-cases _ _ v.submitting)).1)
  step_consistent w (interrupts i) v =
      ground (arith, (consuming_succeeds w i v (submitting-cases _ _ v.submitting)).2)

  -- After any interleaving of the calls of any tasks, no call ends in an error for an inconsistent
  -- slot or an empty guard: not `commit`, `finish` or `restore` of a guard that a task holds, nor
  -- the cancellations.
  pub run-consistent :
      (cs : List (Call H T)) (c : Call H T) → is_inconsistency (step (run start cs) c).1 ≡ false
  run-consistent cs c = step_consistent (run start cs) c (run-Inv start cs start-Inv)
