-- ===== src/Transactions/Prepare.antt =====
-- rust/src/api/wallet/transactions.rs: the `prepare_*_transaction` methods. Each makes a plan (what
-- to build, what to show, the fee) under a preparation guard and then commits it to the slot.
pub mod Plans
pub mod Slot
pub mod Amounts
pub mod Examples
use xelis_wallet_flutter.Base.{
  ℕ, Bool, true, false, Option, none, some, List, [], ◌∷◌, Eq, nat_eq, ◌==◌, String, if◌then◌else◌,
}
use xelis_wallet_flutter.Base.Results.{Result, ok, err, ◌>>=◌, map_err}
use xelis_wallet_flutter.Errors.{NativeXelisError, wallet_flutter_error, internal, operation_failed}
use xelis_wallet_flutter.Errors.Foreign.{AnyhowError, wallet, WalletError, Kinds}
use xelis_wallet_flutter.Errors.Convert.{from_wallet_operation}
use xelis_wallet_flutter.Prepared.{PreparedTransactionStore, Outcome}
use xelis_wallet_flutter.Prepared.Guards.{
  PreparedTransactionPreparationGuard, begin, drop_preparation, commit,
}
use xelis_wallet_flutter.Transactions.PreparedErrors.{
  PreparedWalletTransaction, prepared_transaction_error,
}
use xelis_wallet_flutter.Transactions.Broadcast.{Request, serve_all}
use xelis_wallet_flutter.Transactions.Fees.{NativeTransactionFeePolicy, apply_fee_policy}
use xelis_wallet_flutter.Transactions.Builders.{
  TransactionTypeBuilder, NativePreparedTransactionKind, NativePreparedTransferExtraData,
}

-- The wallet crate's side of a preparation: the storage, the fee estimate, the transaction that it
-- builds and signs, and the two getters that the code calls on it.
pub record Wallet (H Address Data Tx B : Type 0) : Type 0 where
  pub balance_for : H → Result AnyhowError ℕ
  pub estimate_fees : TransactionTypeBuilder H Address Data → Result WalletError ℕ
  pub create_transaction :
      TransactionTypeBuilder H Address Data → (fee : ℕ) → Result WalletError (Tx × B)
  pub tx_hash : Tx → H
  pub tx_fee : Tx → ℕ

pub record Plan (H Address Data : Type 0) : Type 0 where
  pub transaction_type : TransactionTypeBuilder H Address Data
  pub transaction : NativePreparedTransactionKind
  pub review_extra_data : List (Option (NativePreparedTransferExtraData Data))
  pub target_fee : ℕ

pub record NativePreparedTransaction : Type 0 where
  pub hash : String
  pub preparation_id : ℕ
  pub fee : ℕ
  pub transaction : NativePreparedTransactionKind

-- The value that the slot retains.
abbrev pub Retained : Type 0 → Type 0 → Type 0 → Type 0
Retained Data Tx B = PreparedWalletTransaction Tx B (NativePreparedTransferExtraData Data)

abbrev pub Preparation : Type 0 → Type 0 → Type 0 → Type 0 → Type 0
Preparation H Data Tx B =
    PreparedTransactionStore H (Retained Data Tx B)
    × Result NativeXelisError NativePreparedTransaction

module _ {H Address Data Tx B : Type 0} (kinds : Kinds) (w : Wallet H Address Data Tx B) where
  open w use {estimate_fees, create_transaction, tx_hash, tx_fee}

  unfoldable pub estimate_target_fee :
      TransactionTypeBuilder H Address Data → NativeTransactionFeePolicy → Result NativeXelisError ℕ
  estimate_target_fee transaction_type fee_policy = do
    base_fee ←
        map_err
          (λ e.
            from_wallet_operation kinds (wallet e) operation_failed
              "TRANSACTION_FEE_ESTIMATION_FAILED")
          (estimate_fees transaction_type)
    apply_fee_policy base_fee fee_policy

  -- The end of `create_and_commit_prepared_transaction`.
  pub committed :
      (H → String)
      → Plan H Address Data
      → Tx
      → Outcome H (Retained Data Tx B) ℕ
      → Preparation H Data Tx B
  committed to_hex plan tx (s, err e) = (s, err (prepared_transaction_error e))
  committed to_hex plan tx (s, ok preparation_id) = (
    s,
    ok (record {
      hash = to_hex (tx_hash tx);
      preparation_id = preparation_id;
      fee = tx_fee tx;
      transaction = plan.transaction;
    }),
  )

  -- An error on the way drops the guard.
  pub create_and_commit_prepared_transaction :
      (H → String)
      → PreparedTransactionPreparationGuard
      → Plan H Address Data
      → PreparedTransactionStore H (Retained Data Tx B)
      → Preparation H Data Tx B
  unfolding committed
  create_and_commit_prepared_transaction to_hex guard plan s =
      elim (create_transaction plan.transaction_type plan.target_fee) [
        | err e ↦ (
          drop_preparation guard s,
          err (
              from_wallet_operation kinds (wallet e) operation_failed
                "PREPARED_TRANSACTION_CREATION_FAILED"),
        )
        | ok (tx, state) ↦
            if tx_fee tx == plan.target_fee
            then committed to_hex plan tx (
                commit guard s (tx_hash tx) (record {
                  transaction = tx;
                  state = state;
                  review_extra_data = plan.review_extra_data;
                }))
            else (
              drop_preparation guard s,
              err (wallet_flutter_error internal "PREPARED_TRANSACTION_FEE_MISMATCH"),
            )
      ]

  module _ ⦃hash_eq : Eq H⦄ where
    -- A plan under the guard that `begin` gave. `during` is what other tasks call on the slot while
    -- the plan and the transaction are made.
    pub prepare_planned :
        (H → String)
        → Result NativeXelisError (Plan H Address Data)
        → List (Request H (Retained Data Tx B))
        → Outcome H (Retained Data Tx B) PreparedTransactionPreparationGuard
        → Preparation H Data Tx B
    unfolding create_and_commit_prepared_transaction
    prepare_planned to_hex plan during (s, err e) = (s, err (prepared_transaction_error e))
    prepare_planned to_hex (err e) during (s, ok guard) =
        (drop_preparation guard (serve_all s during), err e)
    prepare_planned to_hex (ok plan) during (s, ok guard) =
        create_and_commit_prepared_transaction to_hex guard plan (serve_all s during)

    -- The shape of every `prepare_*_transaction`: the policy is checked on a zero fee, the guard is
    -- taken, and the plan is made and committed.
    unfoldable pub prepare :
        (H → String)
        → NativeTransactionFeePolicy
        → Result NativeXelisError (Plan H Address Data)
        → List (Request H (Retained Data Tx B))
        → PreparedTransactionStore H (Retained Data Tx B)
        → Preparation H Data Tx B
    unfolding prepare_planned
    prepare to_hex fee_policy plan during s = elim (apply_fee_policy 0 fee_policy) [
      | err e ↦ (s, err e)
      | ok fee ↦ prepare_planned to_hex plan during (begin s)
    ]
