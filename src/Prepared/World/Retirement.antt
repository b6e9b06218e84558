-- ===== src/Prepared/World/Retirement.antt =====
-- A preparation id that was cancelled or finished is never valid again.
use xelis_wallet_flutter.Base.{
  ℕ, ◌≤◌, ◌≡◌, ◌≢◌, inl, inr, none, some, List, [], ◌∷◌, Eq, nat_eq, eq_refl, get_elem?, arith,
}
use xelis_wallet_flutter.Base.Results.{ok}
use xelis_wallet_flutter.Prepared.{
  PreparedTransactionState, empty, ready, in_flight, is_submitted, ready_exact,
  take_for_submission_exact, cancel_exact,
}
use xelis_wallet_flutter.Prepared.Guards.{PreparedTransactionGuard}
use xelis_wallet_flutter.Prepared.Store.{take_for_submission-cases, take_for_submission_exact-cases}
use xelis_wallet_flutter.Prepared.World.{
  World, Call, replaces, begins, commits, abandons, cancels, cancels_exact, takes, takes_exact,
  finishes, restores, interrupts, step, run, start,
}
use xelis_wallet_flutter.Prepared.World.Invariant.{
  Inv, Submission, submitting-cases, start-Inv, step-Inv, run-Inv,
}

module _ {H T : Type 0} (g : ℕ) where
  abbrev SlotWithout : PreparedTransactionState H T → Type 0
  SlotWithout empty = Unit {0}
  SlotWithout (ready g' h t) = g' ≢ g
  SlotWithout (in_flight g' h) = g' ≢ g

  -- The generation was issued and nothing holds it any more.
  pub record Retired (w : World H T) : Type 0 where
    pub slot : SlotWithout w.store.state
    pub inactive : w.store.active_preparation ≢ some g
    pub issued : g ≤ w.store.next_generation

module _ {H T : Type 0} ⦃hash_eq : Eq H⦄ (g : ℕ) where
  consuming-Retired :
      (w : World H T) (i : ℕ)
      → Inv w
      → Retired g w
      → Submission w.store.state w.submitting
      → Retired g (step w (finishes i)).0
        × Retired g (step w (restores i)).0
        × Retired g (step w (interrupts i)).0
  unfolding step is_submitted
  consuming-Retired w i v o (inl none_live) = (ground arith, ground arith, ground arith)
  consuming-Retired w i v o (inr (g', h, t, flying, live)) =
      (ground (arith, eq_refl h), ground (arith, eq_refl h), ground (arith, eq_refl h))

  step-Retired : (w : World H T) (c : Call H T) → Inv w → Retired g w → Retired g (step w c).0
  unfolding step
  step-Retired w (replaces h t) v o = ground arith
  step-Retired w begins v o = ground arith
  step-Retired w (commits i h t) v o = ground arith
  step-Retired w (abandons i) v o = ground arith
  step-Retired w (cancels h) v o = ground arith
  step-Retired w (cancels_exact g' h) v o = ground arith
  step-Retired w (takes h) v o = ground (arith, take_for_submission-cases w.store h)
  step-Retired w (takes_exact g' h) v o =
      ground (arith, take_for_submission_exact-cases w.store g' h)
  step-Retired w (finishes i) v o =
      (consuming-Retired w i v o (submitting-cases w.store.state w.submitting v.submitting)).0
  step-Retired w (restores i) v o =
      (consuming-Retired w i v o (submitting-cases w.store.state w.submitting v.submitting)).1
  step-Retired w (interrupts i) v o =
      (consuming-Retired w i v o (submitting-cases w.store.state w.submitting v.submitting)).2

  run-Retired : (w : World H T) (cs : List (Call H T)) → Inv w → Retired g w → Retired g (run w cs)
  unfolding run
  run-Retired w [] v o = o
  run-Retired w (c ∷ cs) v o = run-Retired (step w c).0 cs (step-Inv w c v) (step-Retired w c v o)

  finished-Retired :
      (w : World H T) (i : ℕ) (guard : PreparedTransactionGuard H T)
      → Inv w
      → get_elem? w.submitting i ≡ some guard
      → guard.generation ≡ g
      → Submission w.store.state w.submitting
      → Retired g (step w (finishes i)).0
  unfolding step is_submitted
  finished-Retired w i guard v at same (inl none_live) = absurd (ground arith)
  finished-Retired w i guard v at same (inr (g', h, t, flying, live)) = ground (arith, eq_refl h)

  cancelled-Retired :
      (w : World H T) (h : H)
      → Inv w
      → (step w (cancels_exact g h)).1 ≡ none
      → Retired g (step w (cancels_exact g h)).0
  unfolding step
  cancelled-Retired w h v e = ground arith

  -- No exact operation succeeds with the id, whatever the hash.
  abbrev pub IsDead : World H T → Type 0
  IsDead w =
      (h : H) (t : T)
      → (ready_exact w.store g h ≢ ok t)
        × ((take_for_submission_exact w.store g h).1 ≢ ok t)
        × ((cancel_exact w.store g h).1 ≢ ok t)

  Retired-IsDead : (w : World H T) → Retired g w → IsDead w
  unfolding ready_exact take_for_submission_exact cancel_exact
  Retired-IsDead w o h t = (ground arith, ground arith, ground arith)

  -- After `cancel_exact` succeeded for the id `g` in a reachable state, no later interleaving makes
  -- an exact read, submission or cancellation with `g` succeed.
  pub cancelled_for_good :
      (before after : List (Call H T)) (h : H)
      → (step (run start before) (cancels_exact g h)).1 ≡ none
      → IsDead (run (step (run start before) (cancels_exact g h)).0 after)
  cancelled_for_good before after h e =
      let w = run start before in
      let v = run-Inv start before start-Inv in
      Retired-IsDead _
        (run-Retired _ after (step-Inv w (cancels_exact g h) v) (cancelled-Retired w h v e))

  -- After a guard in a reachable state that took the transaction with the id `g` is finished, no
  -- later interleaving makes an exact read, submission or cancellation with `g` succeed: a
  -- finished transaction is never submitted again under its id.
  pub finished_for_good :
      (before after : List (Call H T)) (i : ℕ) (guard : PreparedTransactionGuard H T)
      → get_elem? (run start before).submitting i ≡ some guard
      → guard.generation ≡ g
      → IsDead (run (step (run start before) (finishes i)).0 after)
  finished_for_good before after i guard at same =
      let w = run start before in
      let v = run-Inv start before start-Inv in
      Retired-IsDead _ (
        run-Retired _ after (step-Inv w (finishes i) v) (
          finished-Retired w i guard v at same
            (submitting-cases w.store.state w.submitting v.submitting)))
