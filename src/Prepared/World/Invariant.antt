-- ===== src/Prepared/World/Invariant.antt =====
-- What holds between any two calls on the slot, whatever tasks are running.
use xelis_wallet_flutter.Base.{
  ℕ, ◌≤◌, ◌<◌, ◌≡◌, refl, ◌⊎◌, inl, inr, true, Option, none, some, List, [], ◌∷◌, Eq, nat_eq,
  eq_refl, arith,
}
use xelis_wallet_flutter.Prepared.{
  PreparedTransactionState, empty, ready, in_flight, is_in_flight, is_submitted,
}
use xelis_wallet_flutter.Prepared.Guards.{
  PreparedTransactionPreparationGuard, PreparedTransactionGuard,
}
use xelis_wallet_flutter.Prepared.Store.{take_for_submission-cases, take_for_submission_exact-cases}
use xelis_wallet_flutter.Prepared.World.{
  World, Call, replaces, begins, commits, abandons, cancels, cancels_exact, takes, takes_exact,
  finishes, restores, interrupts, step, run, start,
}

-- Exactly one live guard for the active preparation.
abbrev pub PreparingMatches : Option ℕ → List PreparedTransactionPreparationGuard → Type 0
PreparingMatches none guards = guards ≡ []
PreparingMatches (some g) guards = guards ≡ record { generation = g; active = true } ∷ []

-- The generation of an active preparation is issued, and newer than that of the slot.
abbrev pub ActiveBetween : ℕ → Option ℕ → ℕ → Type 0
ActiveBetween slot none n = Unit {0}
ActiveBetween slot (some g) n = (slot < g) × (g ≤ n)

module _ {H T : Type 0} where
  abbrev pub slot_generation : PreparedTransactionState H T → ℕ
  slot_generation empty = 0
  slot_generation (ready g h t) = g
  slot_generation (in_flight g h) = g

  -- Exactly one live guard for a transaction in flight, and it holds the transaction.
  abbrev pub SubmittingMatches :
      PreparedTransactionState H T → List (PreparedTransactionGuard H T) → Type 0
  SubmittingMatches (in_flight g h) guards =
      (t : T) × (guards ≡ record { generation = g; hash = h; transaction = some t } ∷ [])
  SubmittingMatches (ready g h t) guards = guards ≡ []
  SubmittingMatches empty guards = guards ≡ []

  -- Either no guard is live, or the one of the transaction in flight.
  abbrev pub Submission :
      PreparedTransactionState H T → List (PreparedTransactionGuard H T) → Type 0
  Submission st guards =
      (guards ≡ [])
      ⊎ ((g : ℕ) × (h : H) × (t : T) × (st ≡ in_flight g h)
          × (guards ≡ record { generation = g; hash = h; transaction = some t } ∷ []))

  pub submitting-cases :
      (st : PreparedTransactionState H T) (guards : List (PreparedTransactionGuard H T))
      → SubmittingMatches st guards
      → Submission st guards
  submitting-cases empty guards e = inl e
  submitting-cases (ready g h t) guards e = inl e
  submitting-cases (in_flight g h) guards (t, e) = inr (g, h, t, refl, e)

  pub record Inv (w : World H T) : Type 0 where
    pub preparing : PreparingMatches w.store.active_preparation w.preparing
    pub submitting : SubmittingMatches w.store.state w.submitting
    pub exclusive : is_in_flight w.store.state ≡ true → w.store.active_preparation ≡ none
    pub issued : slot_generation w.store.state ≤ w.store.next_generation
    pub active_issued :
        ActiveBetween
          (slot_generation w.store.state)
          w.store.active_preparation
          w.store.next_generation

  pub start-Inv : Inv start
  start-Inv = record {
    preparing = refl;
    submitting = refl;
    exclusive = λ e. cc;
    issued = omega arith;
    active_issued = tt;
  }

module _ {H T : Type 0} ⦃hash_eq : Eq H⦄ where
  -- A call that consumes a submission guard meets the guard of the transaction in flight, or none.
  consuming-Inv :
      (w : World H T) (i : ℕ)
      → Inv w
      → Submission w.store.state w.submitting
      → Inv (step w (finishes i)).0 × Inv (step w (restores i)).0 × Inv (step w (interrupts i)).0
  unfolding step is_submitted
  consuming-Inv w i v (inl none_live) = (ground arith, ground arith, ground arith)
  consuming-Inv w i v (inr (g, h, t, flying, live)) =
      (ground (arith, eq_refl h), ground (arith, eq_refl h), ground (arith, eq_refl h))

  -- Every call of every task keeps the invariant.
  pub step-Inv : (w : World H T) (c : Call H T) → Inv w → Inv (step w c).0
  unfolding step
  step-Inv w (replaces hash transaction) v = ground arith
  step-Inv w begins v = ground arith
  step-Inv w (commits i hash transaction) v = ground arith
  step-Inv w (abandons i) v = ground arith
  step-Inv w (cancels hash) v = ground arith
  step-Inv w (cancels_exact generation hash) v = ground arith
  step-Inv w (takes hash) v = ground (arith, take_for_submission-cases w.store hash)
  step-Inv w (takes_exact generation hash) v =
      ground (arith, take_for_submission_exact-cases w.store generation hash)
  step-Inv w (finishes i) v =
      (consuming-Inv w i v (submitting-cases w.store.state w.submitting v.submitting)).0
  step-Inv w (restores i) v =
      (consuming-Inv w i v (submitting-cases w.store.state w.submitting v.submitting)).1
  step-Inv w (interrupts i) v =
      (consuming-Inv w i v (submitting-cases w.store.state w.submitting v.submitting)).2

  -- Any interleaving of the calls of any tasks keeps the invariant of the slot: exactly one live
  -- guard for an active preparation and for a transaction in flight, which the submission's guard
  -- holds, and ids that were issued, that of an active preparation being newer than the slot's.
  pub run-Inv : (w : World H T) (cs : List (Call H T)) → Inv w → Inv (run w cs)
  unfolding run
  run-Inv w [] v = v
  run-Inv w (c ∷ cs) v = run-Inv (step w c).0 cs (step-Inv w c v)
