-- ===== src/Transactions/Prepare/Plans.antt =====
-- rust/src/api/wallet/transactions.rs: what each `prepare_*_transaction` builds, shows and pays.
use xelis_wallet_flutter.Base.{
  ℕ, Bool, Option, some, List, [], ◌∷◌, Eq, nat_eq, ◌==◌, String, if◌then◌else◌,
}
use xelis_wallet_flutter.Base.Results.{Result, ok, err, ◌>>=◌, map_err}
use xelis_wallet_flutter.Errors.{
  NativeXelisError, wallet_flutter_error, invalid_input, insufficient_funds,
}
use xelis_wallet_flutter.Errors.Foreign.{untyped, Kinds}
use xelis_wallet_flutter.Errors.Convert.{from_wallet_operation, from_wallet_storage_operation}
use xelis_wallet_flutter.Prepared.{PreparedTransactionStore}
use xelis_wallet_flutter.Transactions.Broadcast.{Request}
use xelis_wallet_flutter.Transactions.Fees.{
  NativeTransactionFeePolicy, InsufficientFunds, amount_after_fee,
}
use xelis_wallet_flutter.Transactions.Builders.{
  Formats, NativeTransactionTransferRequest, prepared_transfers, prepared_burn,
  parse_transaction_asset, parse_transaction_destination, project_prepared_transfer,
  build_atomic_transfers, build_burn_type, build_transfer_all_type, build_burn_all_type,
}
use xelis_wallet_flutter.Transactions.Prepare.{
  Wallet, Plan, Retained, Preparation, estimate_target_fee, prepare,
}

module _ {H Address Data Tx B : Type 0} ⦃hash_eq : Eq H⦄ (kinds : Kinds)
    (formats : Formats H Address Data) (xelis_asset : H) (w : Wallet H Address Data Tx B) where
  open formats use {to_hex}

  -- An `anyhow` error about the balance has no typed cause.
  abbrev insufficient :
      {A : Type 0} → String → Result InsufficientFunds A → Result NativeXelisError A
  insufficient native_kind =
      map_err (λ e. from_wallet_operation kinds untyped insufficient_funds native_kind)

  abbrev balance_of : String → H → Result NativeXelisError ℕ
  balance_of native_kind asset =
      map_err (λ e. from_wallet_storage_operation kinds e native_kind) (w.balance_for asset)

  unfoldable pub transfers_plan :
      List NativeTransactionTransferRequest
      → NativeTransactionFeePolicy
      → Result NativeXelisError (Plan H Address Data)
  transfers_plan requests fee_policy = do
    built ← build_atomic_transfers formats requests
    target_fee ← estimate_target_fee kinds w built.0 fee_policy
    ok (record {
      transaction_type = built.0;
      transaction = built.1;
      review_extra_data = built.2;
      target_fee = target_fee;
    })

  unfoldable pub transfer_all_plan :
      (destination asset : String)
      → Option String
      → Bool
      → NativeTransactionFeePolicy
      → Result NativeXelisError (Plan H Address Data)
  transfer_all_plan destination asset extra_data encrypt_extra_data fee_policy = do
    asset_hash ← parse_transaction_asset formats asset
    address ← parse_transaction_destination formats destination
    balance ← balance_of "TRANSFER_ALL_BALANCE_READ_FAILED" asset_hash
    estimated ← insufficient "TRANSFER_ALL_BALANCE_INSUFFICIENT" (
        build_transfer_all_type formats xelis_asset address balance 0 asset_hash extra_data
          (some encrypt_extra_data))
    target_fee ← estimate_target_fee kinds w estimated fee_policy
    amount ←
        insufficient "TRANSFER_ALL_BALANCE_INSUFFICIENT"
          (amount_after_fee xelis_asset balance target_fee asset_hash)
    transaction_type ← insufficient "TRANSFER_ALL_BALANCE_INSUFFICIENT" (
        build_transfer_all_type formats xelis_asset address balance target_fee asset_hash extra_data
          (some encrypt_extra_data))
    projected ←
        project_prepared_transfer formats address asset_hash amount extra_data encrypt_extra_data
    ok (record {
      transaction_type = transaction_type;
      transaction = prepared_transfers (projected.0 ∷ []);
      review_extra_data = projected.1 ∷ [];
      target_fee = target_fee;
    })

  unfoldable pub burn_plan :
      ℕ → String → NativeTransactionFeePolicy → Result NativeXelisError (Plan H Address Data)
  burn_plan amount asset fee_policy =
      if amount == 0
      then err (wallet_flutter_error invalid_input "TRANSACTION_AMOUNT_INVALID")
      else (do
        asset_hash ← parse_transaction_asset formats asset
        target_fee ←
            estimate_target_fee kinds w (build_burn_type formats asset_hash amount) fee_policy
        ok (record {
          transaction_type = build_burn_type formats asset_hash amount;
          transaction = prepared_burn (to_hex asset_hash) amount;
          review_extra_data = [];
          target_fee = target_fee;
        }))

  unfoldable pub burn_all_plan :
      String → NativeTransactionFeePolicy → Result NativeXelisError (Plan H Address Data)
  burn_all_plan asset fee_policy = do
    asset_hash ← parse_transaction_asset formats asset
    balance ← balance_of "BURN_ALL_BALANCE_READ_FAILED" asset_hash
    estimated ←
        insufficient "BURN_ALL_BALANCE_INSUFFICIENT"
          (build_burn_all_type formats xelis_asset asset_hash balance 0)
    target_fee ← estimate_target_fee kinds w estimated fee_policy
    amount ←
        insufficient "BURN_ALL_BALANCE_INSUFFICIENT"
          (amount_after_fee xelis_asset balance target_fee asset_hash)
    transaction_type ←
        insufficient "BURN_ALL_BALANCE_INSUFFICIENT"
          (build_burn_all_type formats xelis_asset asset_hash balance target_fee)
    ok (record {
      transaction_type = transaction_type;
      transaction = prepared_burn (to_hex asset_hash) amount;
      review_extra_data = [];
      target_fee = target_fee;
    })

  abbrev pub Method : Type 0
  Method =
      List (Request H (Retained Data Tx B))
      → PreparedTransactionStore H (Retained Data Tx B)
      → Preparation H Data Tx B

  pub prepare_transfers_transaction :
      List NativeTransactionTransferRequest → NativeTransactionFeePolicy → Method
  prepare_transfers_transaction requests fee_policy =
      prepare kinds w to_hex fee_policy (transfers_plan requests fee_policy)

  pub prepare_transfer_all_transaction :
      (destination asset : String) → Option String → Bool → NativeTransactionFeePolicy → Method
  prepare_transfer_all_transaction destination asset extra_data encrypt_extra_data fee_policy =
      prepare kinds w to_hex fee_policy
        (transfer_all_plan destination asset extra_data encrypt_extra_data fee_policy)

  pub prepare_burn_transaction : ℕ → String → NativeTransactionFeePolicy → Method
  prepare_burn_transaction amount asset fee_policy =
      prepare kinds w to_hex fee_policy (burn_plan amount asset fee_policy)

  pub prepare_burn_all_transaction : String → NativeTransactionFeePolicy → Method
  prepare_burn_all_transaction asset fee_policy =
      prepare kinds w to_hex fee_policy (burn_all_plan asset fee_policy)
