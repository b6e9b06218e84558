-- ===== src/Transactions/PreparedErrors.antt =====
-- rust/src/api/wallet/transactions.rs: the errors of the prepared slot as bridge errors, and the
-- value that the slot retains.
use xelis_wallet_flutter.Base.{ℕ, List, Option, none, some, get_elem?, length}
use xelis_wallet_flutter.Prepared.{
  PreparedTransactionError, preparation_in_progress, replacement_during_submission,
  cancellation_during_submission, already_submitting, cannot_delete, native_kind, not_found,
  generation_overflow, preparation_state_inconsistent, cancellation_state_inconsistent,
  submission_state_inconsistent, empty_guard,
}
use xelis_wallet_flutter.Errors.{
  NativeXelisErrorCode, NativeXelisError, wallet_flutter_error, operation_in_progress, internal,
  invalid_input,
}

unfoldable pub prepared_error_code : PreparedTransactionError → NativeXelisErrorCode
prepared_error_code preparation_in_progress = operation_in_progress
prepared_error_code replacement_during_submission = operation_in_progress
prepared_error_code cancellation_during_submission = operation_in_progress
prepared_error_code already_submitting = operation_in_progress
prepared_error_code cannot_delete = NativeXelisErrorCode.not_found
prepared_error_code not_found = NativeXelisErrorCode.not_found
prepared_error_code generation_overflow = internal
prepared_error_code preparation_state_inconsistent = internal
prepared_error_code cancellation_state_inconsistent = internal
prepared_error_code submission_state_inconsistent = internal
prepared_error_code empty_guard = internal

unfoldable pub prepared_transaction_error : PreparedTransactionError → NativeXelisError
unfolding prepared_error_code
prepared_transaction_error error =
    wallet_flutter_error (prepared_error_code error) (native_kind error)

abbrev pub invalid_prepared_transaction_hash : NativeXelisError
invalid_prepared_transaction_hash =
    wallet_flutter_error invalid_input "PREPARED_TRANSACTION_HASH_INVALID"

-- `Tx` is the signed transaction, `BuilderState` the wallet crate's builder state, and `ExtraData`
-- the reviewed extra data of a transfer.
pub record PreparedWalletTransaction (Tx BuilderState ExtraData : Type 0) : Type 0 where
  pub transaction : Tx
  pub state : BuilderState
  pub review_extra_data : List (Option ExtraData)

module _ {Tx BuilderState ExtraData : Type 0} where
  unfoldable pub review_extra_data_at :
      PreparedWalletTransaction Tx BuilderState ExtraData → ℕ → Option ExtraData
  review_extra_data_at p transfer_index = elim (get_elem? p.review_extra_data transfer_index) [
    | none ↦ none
    | some data_at ↦ data_at
  ]

  unfoldable pub transfer_count : PreparedWalletTransaction Tx BuilderState ExtraData → ℕ
  transfer_count p = length p.review_extra_data
