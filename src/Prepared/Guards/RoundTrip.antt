-- ===== src/Prepared/Guards/RoundTrip.antt =====
-- What a guard that is dropped, restored or finished leaves of the slot it was made from.
use xelis_wallet_flutter.Base.{ℕ, ◌+◌, ◌≡◌, inl, inr, none, some, Eq, nat_eq, eq_refl, arith}
use xelis_wallet_flutter.Base.Results.{ok}
use xelis_wallet_flutter.Prepared.{
  ready, empty, in_flight, PreparedTransactionStore, is_submitted, take_for_submission_exact,
}
use xelis_wallet_flutter.Prepared.Store.{TakeExactCases, take_for_submission_exact-cases}
use xelis_wallet_flutter.Prepared.Guards.{
  PreparedTransactionPreparationGuard, PreparedTransactionGuard, begin, drop_preparation, commit,
  take_exact, drop_submission, restore, finish,
}

module _ {H T : Type 0} where
  -- A preparation that is given up leaves the slot with what it held before; only the generation
  -- counter has moved on by one.
  pub drop_preparation-begin :
      (s s' : PreparedTransactionStore H T) (guard : PreparedTransactionPreparationGuard)
      → begin s ≡ (s', ok guard)
      → drop_preparation guard s' ≡ record s { next_generation = s.next_generation + 1 }
  unfolding begin drop_preparation
  drop_preparation-begin s s' guard e = ground arith

  -- A preparation that begins and is committed succeeds, and puts its transaction into the slot
  -- under the next generation.
  pub commit-begin :
      (s s' : PreparedTransactionStore H T) (guard : PreparedTransactionPreparationGuard) (h : H)
      (t : T)
      → begin s ≡ (s', ok guard)
      → commit guard s' h t ≡ (
        record s {
          state = ready (s.next_generation + 1) h t;
          next_generation = s.next_generation + 1;
        },
        ok (s.next_generation + 1),
      )
  unfolding begin commit
  commit-begin s s' guard h t e = ground arith

module _ {H T : Type 0} ⦃hash_eq : Eq H⦄ where
  taken :
      (s s' : PreparedTransactionStore H T) (g : ℕ) (h : H) (guard : PreparedTransactionGuard H T)
      → take_exact s g h ≡ (s', ok guard)
      → TakeExactCases s g h
      → (t : T) × (s.state ≡ ready g h t)
        × (s' ≡ record s { state = in_flight g h })
        × (guard ≡ record { generation = g; hash = h; transaction = some t })
  unfolding take_exact
  taken s s' g h guard e (inl (x, refused, p)) = absurd (ground arith)
  taken s s' g h guard e (inr (t, slot, idle, p)) = (t, slot, ground arith, ground arith)

  -- The exact transaction of an idle slot can always be taken.
  pub take_exact-ready :
      (s : PreparedTransactionStore H T) (g : ℕ) (h : H) (t : T)
      → s.state ≡ ready g h t
      → s.active_preparation ≡ none
      → take_exact s g h ≡ (
        record s { state = in_flight g h },
        ok (record { generation = g; hash = h; transaction = some t }),
      )
  unfolding take_exact take_for_submission_exact
  take_exact-ready s g h t slot idle = ground (arith, eq_refl h)

  -- A submission that is interrupted or may be retried leaves the store exactly as it was; one that
  -- is finished empties the slot and hands out its transaction.
  pub take_exact-undone :
      (s s' : PreparedTransactionStore H T) (g : ℕ) (h : H) (guard : PreparedTransactionGuard H T)
      → take_exact s g h ≡ (s', ok guard)
      → (drop_submission guard s' ≡ s)
        × (restore guard s' ≡ (s, ok tt))
        × ((t : T) × (s.state ≡ ready g h t)
            × (finish guard s' ≡ (record s { state = empty }, ok t)))
  unfolding drop_submission restore finish is_submitted
  take_exact-undone s s' g h guard e =
      let (t, slot, moved, held) = taken s s' g h guard e (take_for_submission_exact-cases s g h) in
      (ground (arith, eq_refl h), ground (arith, eq_refl h), (t, slot, ground (arith, eq_refl h)))
