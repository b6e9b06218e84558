-- ===== src/Errors/Classify.antt =====
-- rust/src/api/error.rs: from the errors of the crates to the codes of the bridge.
use xelis_wallet_flutter.Base.{Option, none, some, String, ◌==◌, string_eq, if◌then◌else◌}
use xelis_wallet_flutter.Base.Int.{ℤ, negsuc}
use xelis_wallet_flutter.Errors.{
  NativeXelisErrorSource, xelis_wallet, xelis_common, NativeXelisErrorCode, invalid_input, offline,
  network, remote_rejected, insufficient_funds, conflict, not_found, unsupported, storage,
  serialization, internal, authentication_or_corrupt_data,
}
use xelis_wallet_flutter.Errors.Foreign.{
  AnyhowError, json_rpc, wallet, untyped, NetworkError, already_running, not_running, task_error,
  network_mismatch, daemon_api_error, JsonRpcError, parse_error, invalid_request, method_not_found,
  invalid_params, internal_error, server_error, no_response, timed_out, http_error,
  connection_error, socket_error, send_error, invalid_batch, missing_result, serialization_error,
  event_not_registered, any_rpc, WalletError, any_wallet, network_error, not_online_mode,
  no_network_handler, no_api_server, rpc_server_not_running, already_online_mode,
  asset_already_registered, rpc_server_already_running, tx_not_built, not_enough_funds,
  not_enough_funds_for_fee, proof_generation_insufficient_funds, proof_generation_error,
  generation_insufficient_funds, generation_error, asset_not_tracked, balance_not_found,
  database_error, invalid_encrypted_value, no_salt, no_master_key_found, no_password_salt_found,
  invalid_salt_size, no_salt_found, no_handler_available, unsupported_operation,
  aead_cipher_format_error, decompression_error, crypto_error, Kinds, cipher,
  algorithm_hashing_error, ciphertext_decode, nonce_generation, poison_error, semaphore_error,
}

pub record NativeErrorClassification : Type 0 where
  pub source : NativeXelisErrorSource
  pub code : NativeXelisErrorCode
  pub native_kind : Option String
  pub native_code : Option ℤ

pub data WalletOperationErrorPolicy : Type 0 where
  standard authentication : WalletOperationErrorPolicy

pub native_kind_option : String → Option String
native_kind_option native_kind = if native_kind == "UNSPECIFIED" then none else some native_kind

unfoldable pub typed_classification :
    NativeXelisErrorSource → NativeXelisErrorCode → String → NativeErrorClassification
typed_classification source code native_kind = record {
  source = source;
  code = code;
  native_kind = native_kind_option native_kind;
  native_code = none;
}

abbrev or_else {ℓ} : {A : Type ℓ} → Option A → A → A
or_else none a = a
or_else (some b) a = b

-- The code and the numeric code of the second part of `classify_json_rpc_error`.
unfoldable pub rpc_code : JsonRpcError → NativeXelisErrorCode
rpc_code no_response = network
rpc_code timed_out = network
rpc_code http_error = network
rpc_code connection_error = network
rpc_code socket_error = network
rpc_code send_error = network
rpc_code invalid_batch = serialization
rpc_code missing_result = serialization
rpc_code serialization_error = serialization
rpc_code event_not_registered = not_found
rpc_code (any_rpc inner) = internal
rpc_code _ = remote_rejected

unfoldable pub rpc_native_code : JsonRpcError → Option ℤ
rpc_native_code parse_error = some (negsuc 32699)
rpc_native_code invalid_request = some (negsuc 32599)
rpc_native_code method_not_found = some (negsuc 32600)
rpc_native_code invalid_params = some (negsuc 32601)
rpc_native_code internal_error = some (negsuc 32602)
rpc_native_code (server_error code) = some code
rpc_native_code _ = none

-- The rows of `classify_wallet_error` that need no look at a nested error.
unfoldable pub wallet_source : WalletError → NativeXelisErrorSource
wallet_source proof_generation_insufficient_funds = xelis_common
wallet_source generation_insufficient_funds = xelis_common
wallet_source aead_cipher_format_error = xelis_common
wallet_source generation_error = xelis_common
wallet_source proof_generation_error = xelis_common
wallet_source decompression_error = xelis_common
wallet_source _ = xelis_wallet

unfoldable pub wallet_code : WalletError → NativeXelisErrorCode
wallet_code not_online_mode = offline
wallet_code no_network_handler = offline
wallet_code no_api_server = offline
wallet_code rpc_server_not_running = offline
wallet_code already_online_mode = conflict
wallet_code asset_already_registered = conflict
wallet_code rpc_server_already_running = conflict
wallet_code tx_not_built = conflict
wallet_code not_enough_funds = insufficient_funds
wallet_code not_enough_funds_for_fee = insufficient_funds
wallet_code proof_generation_insufficient_funds = insufficient_funds
wallet_code generation_insufficient_funds = insufficient_funds
wallet_code asset_not_tracked = not_found
wallet_code balance_not_found = not_found
wallet_code database_error = storage
wallet_code invalid_encrypted_value = authentication_or_corrupt_data
wallet_code no_salt = authentication_or_corrupt_data
wallet_code no_master_key_found = authentication_or_corrupt_data
wallet_code no_password_salt_found = authentication_or_corrupt_data
wallet_code invalid_salt_size = authentication_or_corrupt_data
wallet_code no_salt_found = authentication_or_corrupt_data
wallet_code no_handler_available = unsupported
wallet_code unsupported_operation = unsupported
wallet_code cipher = internal
wallet_code crypto_error = internal
wallet_code algorithm_hashing_error = internal
wallet_code ciphertext_decode = internal
wallet_code nonce_generation = internal
wallet_code poison_error = internal
wallet_code semaphore_error = internal
wallet_code (any_wallet kind inner) = internal
wallet_code (network_error e) = network
wallet_code _ = invalid_input

module _ (kinds : Kinds) where
  open kinds use {wallet_kind, rpc_kind}

  unfoldable pub rpc_classification : JsonRpcError → NativeErrorClassification
  unfolding rpc_code rpc_native_code
  rpc_classification error = record {
    source = xelis_common;
    code = rpc_code error;
    native_kind = native_kind_option (rpc_kind error);
    native_code = rpc_native_code error;
  }

  unfoldable pub wallet_row : WalletError → NativeErrorClassification
  unfolding typed_classification wallet_source wallet_code
  wallet_row error =
      typed_classification (wallet_source error) (wallet_code error) (wallet_kind error)

  unfoldable pub crypto_row : WalletOperationErrorPolicy → NativeErrorClassification
  unfolding typed_classification wallet_row
  crypto_row authentication =
      typed_classification xelis_wallet authentication_or_corrupt_data (wallet_kind crypto_error)
  crypto_row standard = wallet_row crypto_error

  unfoldable mutual
    unfolding typed_classification rpc_classification wallet_row crypto_row

    pub classify_anyhow_error_with_policy :
        AnyhowError → WalletOperationErrorPolicy → Option NativeErrorClassification
    classify_anyhow_error_with_policy (json_rpc e) policy = some (classify_json_rpc_error e)
    classify_anyhow_error_with_policy (wallet e) policy =
        some (classify_wallet_error_with_policy e policy)
    classify_anyhow_error_with_policy untyped policy = none

    -- At the standard policy this is `classify_wallet_error`.
    pub classify_wallet_error_with_policy :
        WalletError → WalletOperationErrorPolicy → NativeErrorClassification
    classify_wallet_error_with_policy crypto_error policy = crypto_row policy
    classify_wallet_error_with_policy (any_wallet kind inner) policy =
        or_else (classify_anyhow_error_with_policy inner policy)
          (typed_classification xelis_wallet internal kind)
    classify_wallet_error_with_policy (network_error e) policy = classify_network_error e
    classify_wallet_error_with_policy e policy = wallet_row e

    pub classify_network_error : NetworkError → NativeErrorClassification
    classify_network_error already_running =
        typed_classification xelis_wallet conflict "NETWORK_ALREADY_RUNNING"
    classify_network_error not_running =
        typed_classification xelis_wallet offline "NETWORK_NOT_RUNNING"
    classify_network_error task_error =
        typed_classification xelis_wallet internal "NETWORK_TASK_ERROR"
    classify_network_error (daemon_api_error e) =
        or_else (classify_anyhow_error_with_policy e standard)
          (typed_classification xelis_wallet network "DAEMON_API_ERROR")
    classify_network_error network_mismatch =
        typed_classification xelis_wallet NativeXelisErrorCode.network_mismatch "NETWORK_MISMATCH"

    pub classify_json_rpc_error : JsonRpcError → NativeErrorClassification
    classify_json_rpc_error (any_rpc inner) =
        or_else (classify_anyhow_error_with_policy inner standard)
          (rpc_classification (any_rpc inner))
    classify_json_rpc_error e = rpc_classification e
