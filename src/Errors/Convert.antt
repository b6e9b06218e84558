-- ===== src/Errors/Convert.antt =====
-- rust/src/api/error.rs: the constructors of `NativeXelisError` from the errors of the crates.
use xelis_wallet_flutter.Base.{Option, none, some, String}
use xelis_wallet_flutter.Errors.{NativeXelisErrorCode, NativeXelisError, new, xelis_wallet, storage}
use xelis_wallet_flutter.Errors.Foreign.{
  AnyhowError, json_rpc, wallet, untyped, WalletError, any_wallet, Kinds,
}
use xelis_wallet_flutter.Errors.Classify.{
  NativeErrorClassification, WalletOperationErrorPolicy, standard, authentication,
  typed_classification, classify_anyhow_error_with_policy, classify_wallet_error_with_policy,
  classify_json_rpc_error,
}

unfoldable pub from_classification : NativeErrorClassification → NativeXelisError
from_classification c = new c.source c.code c.native_kind c.native_code

abbrev pub unwrap_or {ℓ} : {A : Type ℓ} → Option A → A → A
unwrap_or none a = a
unwrap_or (some b) a = b

module _ (kinds : Kinds) where
  unfoldable pub classify_wallet_error : WalletError → NativeErrorClassification
  unfolding classify_wallet_error_with_policy
  classify_wallet_error e = classify_wallet_error_with_policy kinds e standard

  unfoldable pub classify_storage_operation_error : AnyhowError → Option NativeErrorClassification
  unfolding classify_wallet_error classify_json_rpc_error
  classify_storage_operation_error (json_rpc e) = some (classify_json_rpc_error kinds e)
  classify_storage_operation_error (wallet (any_wallet kind inner)) =
      classify_storage_operation_error inner
  classify_storage_operation_error (wallet e) = some (classify_wallet_error e)
  classify_storage_operation_error untyped = none

  unfoldable pub from_wallet_operation_with_policy :
      AnyhowError → NativeXelisErrorCode → String → WalletOperationErrorPolicy → NativeXelisError
  unfolding from_classification typed_classification classify_anyhow_error_with_policy
  from_wallet_operation_with_policy error fallback_code fallback_kind policy = from_classification (
      unwrap_or (classify_anyhow_error_with_policy kinds error policy)
        (typed_classification xelis_wallet fallback_code fallback_kind))

  unfoldable pub from_wallet_operation :
      AnyhowError → NativeXelisErrorCode → String → NativeXelisError
  unfolding from_wallet_operation_with_policy
  from_wallet_operation error fallback_code fallback_kind =
      from_wallet_operation_with_policy error fallback_code fallback_kind standard

  unfoldable pub from_wallet_authentication_operation :
      AnyhowError → NativeXelisErrorCode → String → NativeXelisError
  unfolding from_wallet_operation_with_policy
  from_wallet_authentication_operation error fallback_code fallback_kind =
      from_wallet_operation_with_policy error fallback_code fallback_kind authentication

  unfoldable pub from_wallet_storage_operation : AnyhowError → String → NativeXelisError
  unfolding from_classification typed_classification classify_storage_operation_error
  from_wallet_storage_operation error fallback_kind = from_classification (
      unwrap_or (classify_storage_operation_error error)
        (typed_classification xelis_wallet storage fallback_kind))

  -- `From<WalletError>`.
  unfoldable pub from_wallet_error : WalletError → NativeXelisError
  unfolding from_classification classify_wallet_error
  from_wallet_error error = from_classification (classify_wallet_error error)
