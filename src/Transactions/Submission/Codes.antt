-- ===== src/Transactions/Submission/Codes.antt =====
-- How the class of a failed submission and the code that the bridge reports for it agree.
use xelis_wallet_flutter.Base.{◌≡◌, refl, ◌⊎◌, inl, arith}
use xelis_wallet_flutter.Errors.{NativeXelisErrorCode, offline, network, remote_rejected}
use xelis_wallet_flutter.Errors.Foreign.{
  json_rpc, wallet, untyped, JsonRpcError, any_rpc, parse_error, WalletError, any_wallet,
  not_online_mode, no_network_handler, Kinds,
}
use xelis_wallet_flutter.Errors.Convert.{from_wallet_error}
use xelis_wallet_flutter.Transactions.Submission.{SubmitErrorClass, classify_submit_error}

abbrev pub ClassMatchesCode : SubmitErrorClass → NativeXelisErrorCode → Type 0
ClassMatchesCode SubmitErrorClass.retryable code = (code ≡ offline) ⊎ (code ≡ network)
ClassMatchesCode SubmitErrorClass.daemon_rejected code = code ≡ remote_rejected
ClassMatchesCode SubmitErrorClass.local_failure code = Unit {0}

module _ (kinds : Kinds) where
  rpc_matches :
      (kind : _) (e : JsonRpcError)
      → ClassMatchesCode
          (classify_submit_error (any_wallet kind (json_rpc e)))
          (from_wallet_error kinds (any_wallet kind (json_rpc e))).code
  unfolding classify_submit_error from_wallet_error
  rpc_matches kind (any_rpc inner) = tt
  rpc_matches kind parse_error = refl
  rpc_matches kind e = ground arith

  -- A failure that is retried is reported to the application as offline or network trouble, and one
  -- that the daemon rejected as a remote rejection.
  pub classify_submit_error-ClassMatchesCode :
      (e : WalletError)
      → ClassMatchesCode (classify_submit_error e) (from_wallet_error kinds e).code
  unfolding classify_submit_error from_wallet_error
  classify_submit_error-ClassMatchesCode (any_wallet kind (json_rpc e)) = rpc_matches kind e
  classify_submit_error-ClassMatchesCode (any_wallet kind (wallet e)) = tt
  classify_submit_error-ClassMatchesCode (any_wallet kind untyped) = tt
  classify_submit_error-ClassMatchesCode not_online_mode = inl refl
  classify_submit_error-ClassMatchesCode no_network_handler = inl refl
  classify_submit_error-ClassMatchesCode e = tt
