-- ===== src/Transactions/Review.antt =====
-- rust/src/api/wallet/transactions.rs: what the application may do with a prepared transaction
-- before it is broadcast. `from_hex` is `Hash::from_hex`. A `u32` index always fits a `usize`.
pub mod AfterPrepare
pub mod Examples
use xelis_wallet_flutter.Base.{
  ℕ, Bool, true, false, Option, none, some, List, Eq, String, leb, if◌then◌else◌,
}
use xelis_wallet_flutter.Base.Results.{Result, ok, err, ◌>>=◌, map_err, ok_or}
use xelis_wallet_flutter.Errors.{NativeXelisError, wallet_flutter_error, invalid_input, not_found}
use xelis_wallet_flutter.Prepared.{
  PreparedTransactionStore, PreparedResult, Outcome, ready_exact, cancel, cancel_exact,
}
use xelis_wallet_flutter.Transactions.PreparedErrors.{
  PreparedWalletTransaction, prepared_transaction_error, invalid_prepared_transaction_hash,
  review_extra_data_at, transfer_count,
}

module _ {Tx B X : Type 0} where
  unfoldable pub inspect_transfer : PreparedWalletTransaction Tx B X → ℕ → Result NativeXelisError X
  unfolding review_extra_data_at transfer_count
  inspect_transfer prepared transfer_index =
      if leb (transfer_count prepared) transfer_index
      then err (wallet_flutter_error invalid_input "PREPARED_TRANSFER_INDEX_INVALID")
      else ok_or (review_extra_data_at prepared transfer_index)
          (wallet_flutter_error not_found "PREPARED_TRANSFER_EXTRA_DATA_NOT_FOUND")

module _ {H Tx B X : Type 0} ⦃hash_eq : Eq H⦄ (from_hex : String → Option H) where
  unfoldable pub inspect_prepared_transfer_extra_data :
      PreparedTransactionStore H (PreparedWalletTransaction Tx B X)
      → ℕ
      → String
      → ℕ
      → Result NativeXelisError X
  unfolding inspect_transfer
  inspect_prepared_transfer_extra_data s preparation_id tx_hash transfer_index = do
    hash ← ok_or (from_hex tx_hash) invalid_prepared_transaction_hash
    prepared ← map_err prepared_transaction_error (ready_exact s preparation_id hash)
    inspect_transfer prepared transfer_index

  abbrev pub discarded :
      {A : Type 0}
      → Outcome H (PreparedWalletTransaction Tx B X) A
      → PreparedTransactionStore H (PreparedWalletTransaction Tx B X)
        × Result NativeXelisError (Unit {0})
  discarded (s, ok a) = (s, ok tt)
  discarded (s, err e) = (s, err (prepared_transaction_error e))

  unfoldable pub cancel_prepared_transaction :
      PreparedTransactionStore H (PreparedWalletTransaction Tx B X)
      → ℕ
      → String
      → PreparedTransactionStore H (PreparedWalletTransaction Tx B X)
        × Result NativeXelisError (Unit {0})
  cancel_prepared_transaction s preparation_id tx_hash = elim (from_hex tx_hash) [
    | none ↦ (s, err invalid_prepared_transaction_hash)
    | some hash ↦ discarded (cancel_exact s preparation_id hash)
  ]
