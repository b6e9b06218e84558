-- ===== src/Errors/Foreign.antt =====
-- The error types of the wallet and common crates, with the variants that the exhaustive matches of
-- rust/src/api/error.rs list. A payload that no code of the repository reads is left out.
-- `AnyhowError` is what `downcast_ref` finds in an `anyhow::Error`: one of the two typed errors, or
-- neither.
use xelis_wallet_flutter.Base.{String}
use xelis_wallet_flutter.Base.Int.{ℤ}

mutual
  pub data AnyhowError : Type 0 where
    json_rpc : JsonRpcError → AnyhowError
    wallet : WalletError → AnyhowError
    untyped : AnyhowError

  pub data NetworkError : Type 0 where
    already_running not_running task_error network_mismatch : NetworkError
    daemon_api_error : AnyhowError → NetworkError

  pub data JsonRpcError : Type 0 where
    parse_error invalid_request method_not_found invalid_params internal_error : JsonRpcError
    server_error : ℤ → JsonRpcError
    no_response timed_out http_error connection_error socket_error send_error : JsonRpcError
    invalid_batch missing_result serialization_error event_not_registered : JsonRpcError
    any_rpc : AnyhowError → JsonRpcError

  pub data WalletError : Type 0 where
    any_wallet : (kind : String) → AnyhowError → WalletError
    network_error : NetworkError → WalletError
    not_online_mode no_network_handler no_api_server rpc_server_not_running : WalletError
    already_online_mode asset_already_registered rpc_server_already_running : WalletError
    tx_not_built not_enough_funds not_enough_funds_for_fee : WalletError
    proof_generation_insufficient_funds proof_generation_error : WalletError
    generation_insufficient_funds generation_error : WalletError
    asset_not_tracked balance_not_found database_error invalid_encrypted_value : WalletError
    no_salt no_master_key_found no_password_salt_found invalid_salt_size : WalletError
    no_salt_found no_handler_available unsupported_operation : WalletError
    aead_cipher_format_error decompression_error invalid_datetime : WalletError
    transaction_too_big invalid_key_pair invalid_signature expected_one_tx : WalletError
    too_many_tx tx_owner_is_receiver invalid_address_params extra_data_too_big : WalletError
    rescan_topoheight_too_high invalid_fee_provided empty_name : WalletError
    not_transaction_signer cipher crypto_error algorithm_hashing_error : WalletError
    ciphertext_decode nonce_generation poison_error semaphore_error : WalletError

-- `WalletError::kind` and the conversion of a `JsonRPCError` to its name, which the crates give.
pub record Kinds : Type 0 where
  pub wallet_kind : WalletError → String
  pub rpc_kind : JsonRpcError → String
