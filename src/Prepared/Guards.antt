-- ===== src/Prepared/Guards.antt =====
-- rust/src/api/wallet/transactions/prepared.rs: the two guards over the slot. A method that
-- consumes its guard ends with the guard's `Drop`, which is written out in it.
pub mod RoundTrip
pub mod Examples
use xelis_wallet_flutter.Base.{ℕ, Bool, true, false, Option, none, some, Eq, if◌then◌else◌}
use xelis_wallet_flutter.Base.Results.{ok, err, ok_or, and_then}
use xelis_wallet_flutter.Prepared.{
  PreparedTransactionStore, PreparedResult, Outcome, empty_guard, submission_state_inconsistent,
  begin_preparation, commit_preparation, abandon_preparation, take_for_submission,
  take_for_submission_exact, restore_after_submission, finish_submission,
}

-- The `store` field of a guard is the store that each method is given.
pub record PreparedTransactionPreparationGuard : Type 0 where
  pub generation : ℕ
  pub active : Bool

pub record PreparedTransactionGuard (H T : Type 0) : Type 0 where
  pub generation : ℕ
  pub hash : H
  pub transaction : Option T

module _ {H T : Type 0} where
  unfoldable pub begin :
      PreparedTransactionStore H T → Outcome H T PreparedTransactionPreparationGuard
  unfolding begin_preparation
  begin s =
      and_then (begin_preparation s)
        λ s' generation. (s', ok (record { generation = generation; active = true }))

  unfoldable pub drop_preparation :
      PreparedTransactionPreparationGuard
      → PreparedTransactionStore H T
      → PreparedTransactionStore H T
  unfolding abandon_preparation
  drop_preparation guard s = if guard.active then (abandon_preparation s guard.generation).0 else s

  commit_end : PreparedTransactionPreparationGuard → Outcome H T (Unit {0}) → Outcome H T ℕ
  unfolding drop_preparation
  commit_end guard (s, ok u) =
      (drop_preparation (record guard { active = false }) s, ok guard.generation)
  commit_end guard (s, err e) = (drop_preparation guard s, err e)

  unfoldable pub commit :
      PreparedTransactionPreparationGuard → PreparedTransactionStore H T → H → T → Outcome H T ℕ
  unfolding commit_end commit_preparation
  commit guard s hash transaction =
      commit_end guard (commit_preparation s guard.generation hash transaction)

module _ {H T : Type 0} ⦃hash_eq : Eq H⦄ where
  unfoldable pub take :
      PreparedTransactionStore H T → H → Outcome H T (PreparedTransactionGuard H T)
  take s hash = and_then (take_for_submission s hash) λ s' taken.
      (s', ok (record { generation = taken.0; hash = hash; transaction = some taken.1 }))

  unfoldable pub take_exact :
      PreparedTransactionStore H T → ℕ → H → Outcome H T (PreparedTransactionGuard H T)
  take_exact s generation hash =
      and_then (take_for_submission_exact s generation hash) λ s' transaction.
        (s', ok (record { generation = generation; hash = hash; transaction = some transaction }))

  unfoldable pub drop_submission :
      PreparedTransactionGuard H T → PreparedTransactionStore H T → PreparedTransactionStore H T
  unfolding restore_after_submission
  drop_submission guard s = elim guard.transaction [
    | none ↦ s
    | some transaction ↦ (restore_after_submission s guard.generation guard.hash transaction).0
  ]

  unfoldable pub restore :
      PreparedTransactionGuard H T → PreparedTransactionStore H T → Outcome H T (Unit {0})
  unfolding restore_after_submission
  restore guard s = elim guard.transaction [
    | none ↦ (s, err empty_guard)
    | some transaction ↦ restore_after_submission s guard.generation guard.hash transaction
  ]

  finish_end :
      PreparedTransactionGuard H T → T → PreparedTransactionStore H T × Bool → Outcome H T T
  unfolding drop_submission
  finish_end guard transaction (s, true) = (s, ok transaction)
  finish_end guard transaction (s, false) = (
    drop_submission (record guard { transaction = some transaction }) s,
    err submission_state_inconsistent,
  )

  unfoldable pub finish :
      PreparedTransactionGuard H T → PreparedTransactionStore H T → Outcome H T T
  unfolding finish_end finish_submission
  finish guard s = elim guard.transaction [
    | none ↦ (s, err empty_guard)
    | some transaction ↦
        finish_end guard transaction (finish_submission s guard.generation guard.hash)
  ]

module _ {H T : Type 0} where
  -- `transaction(&self)`.
  unfoldable pub transaction_of : PreparedTransactionGuard H T → PreparedResult T
  transaction_of guard = ok_or guard.transaction empty_guard
