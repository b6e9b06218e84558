-- ===== src/Prepared/World/Capability.antt =====
-- A preparation id names one transaction for ever: the exact operations reach that one or fail.
use xelis_wallet_flutter.Base.{
  ℕ, ◌≤◌, ◌≡◌, ◌≢◌, ◌⊎◌, inl, inr, some, List, [], ◌∷◌, Eq, nat_eq, eq_refl, arith,
}
use xelis_wallet_flutter.Base.Results.{ok}
use xelis_wallet_flutter.Prepared.{
  PreparedTransactionState, empty, ready, in_flight, is_submitted, ready_exact,
  take_for_submission_exact, cancel_exact,
}
use xelis_wallet_flutter.Prepared.Guards.{PreparedTransactionGuard}
use xelis_wallet_flutter.Prepared.Store.{take_for_submission-cases, take_for_submission_exact-cases}
use xelis_wallet_flutter.Prepared.World.{
  World, Call, replaces, begins, commits, abandons, cancels, cancels_exact, takes, takes_exact,
  finishes, restores, interrupts, step, run, start,
}
use xelis_wallet_flutter.Prepared.World.Invariant.{
  Inv, Submission, submitting-cases, start-Inv, step-Inv, run-Inv,
}

module _ {H T : Type 0} (g : ℕ) (hash : H) (transaction : T) where
  -- What the slot may hold under the generation `g`.
  abbrev pub SlotOnly : PreparedTransactionState H T → Type 0
  SlotOnly empty = Unit {0}
  SlotOnly (ready g' h t) = g' ≡ g → (h ≡ hash) × (t ≡ transaction)
  SlotOnly (in_flight g' h) = g' ≡ g → h ≡ hash

  abbrev pub GuardsOnly : List (PreparedTransactionGuard H T) → Type 0
  GuardsOnly [] = Unit {0}
  GuardsOnly (guard ∷ guards) =
      (guard.generation ≡ g → (guard.hash ≡ hash) × (guard.transaction ≡ some transaction))
      × GuardsOnly guards

  pub record Only (w : World H T) : Type 0 where
    pub slot : SlotOnly w.store.state
    pub guards : GuardsOnly w.submitting
    pub committed : w.store.active_preparation ≢ some g
    pub issued : g ≤ w.store.next_generation

module _ {H T : Type 0} ⦃hash_eq : Eq H⦄ (g : ℕ) (hash : H) (transaction : T) where
  consuming-Only :
      (w : World H T) (i : ℕ)
      → Inv w
      → Only g hash transaction w
      → Submission w.store.state w.submitting
      → Only g hash transaction (step w (finishes i)).0
        × Only g hash transaction (step w (restores i)).0
        × Only g hash transaction (step w (interrupts i)).0
  unfolding step is_submitted
  consuming-Only w i v o (inl none_live) = (ground arith, ground arith, ground arith)
  consuming-Only w i v o (inr (g', h, t, flying, live)) =
      (ground (arith, eq_refl h), ground (arith, eq_refl h), ground (arith, eq_refl h))

  step-Only :
      (w : World H T) (c : Call H T)
      → Inv w
      → Only g hash transaction w
      → Only g hash transaction (step w c).0
  unfolding step
  step-Only w (replaces h t) v o = ground arith
  step-Only w begins v o = ground arith
  step-Only w (commits i h t) v o = ground arith
  step-Only w (abandons i) v o = ground arith
  step-Only w (cancels h) v o = ground arith
  step-Only w (cancels_exact g' h) v o = ground arith
  step-Only w (takes h) v o = ground (arith, take_for_submission-cases w.store h)
  step-Only w (takes_exact g' h) v o = ground (arith, take_for_submission_exact-cases w.store g' h)
  step-Only w (finishes i) v o =
      (consuming-Only w i v o (submitting-cases w.store.state w.submitting v.submitting)).0
  step-Only w (restores i) v o =
      (consuming-Only w i v o (submitting-cases w.store.state w.submitting v.submitting)).1
  step-Only w (interrupts i) v o =
      (consuming-Only w i v o (submitting-cases w.store.state w.submitting v.submitting)).2

  run-Only :
      (w : World H T) (cs : List (Call H T))
      → Inv w
      → Only g hash transaction w
      → Only g hash transaction (run w cs)
  unfolding run
  run-Only w [] v o = o
  run-Only w (c ∷ cs) v o = run-Only (step w c).0 cs (step-Inv w c v) (step-Only w c v o)

  ready-Only :
      (w : World H T) → Inv w → w.store.state ≡ ready g hash transaction → Only g hash transaction w
  ready-Only w v e = record {
    slot = ground arith;
    guards = ground arith;
    committed = ground arith;
    issued = ground arith;
  }

  -- An exact operation with the id `g` and the hash `h` hands out `t`.
  abbrev pub Reaches : World H T → H → T → Type 0
  Reaches w h t =
      (ready_exact w.store g h ≡ ok t)
      ⊎ ((take_for_submission_exact w.store g h).1 ≡ ok t)
      ⊎ ((cancel_exact w.store g h).1 ≡ ok t)

  -- Once a reachable slot holds `transaction` under the preparation id `g`, no later interleaving
  -- makes an exact read, submission or cancellation with that id reach another transaction or
  -- succeed under another hash.
  pub capability :
      (before after : List (Call H T)) (h : H) (t : T)
      → (run start before).store.state ≡ ready g hash transaction
      → Reaches (run (run start before) after) h t
      → (h ≡ hash) × (t ≡ transaction)
  unfolding ready_exact take_for_submission_exact cancel_exact
  capability before after h t e reached = ground (
    arith,
    run-Only (run start before) after (run-Inv start before start-Inv)
        (ready-Only (run start before) (run-Inv start before start-Inv) e),
    hash_eq.test_iff hash h,
  )
