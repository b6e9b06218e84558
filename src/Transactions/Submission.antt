-- ===== src/Transactions/Submission.antt =====
-- rust/src/api/wallet/transactions/submission.rs: what a failed submission means for the prepared
-- transaction.
pub mod Codes
pub mod Examples
use xelis_wallet_flutter.Base.{Bool, true, false, if◌then◌else◌}
use xelis_wallet_flutter.Base.Results.{Result, ok, err}
use xelis_wallet_flutter.Errors.Foreign.{
  AnyhowError, json_rpc, wallet, untyped, JsonRpcError, parse_error, invalid_request,
  method_not_found, invalid_params, internal_error, server_error, no_response, timed_out,
  http_error, connection_error, socket_error, send_error, WalletError, any_wallet, not_online_mode,
  no_network_handler,
}

pub data SubmissionResolution : Type 0 where
  submitted : SubmissionResolution
  retryable daemon_rejected local_failure : WalletError → SubmissionResolution

pub data SubmitErrorClass : Type 0 where
  retryable daemon_rejected local_failure : SubmitErrorClass

abbrev is_rpc_rejection : JsonRpcError → Bool
is_rpc_rejection parse_error = true
is_rpc_rejection invalid_request = true
is_rpc_rejection method_not_found = true
is_rpc_rejection invalid_params = true
is_rpc_rejection internal_error = true
is_rpc_rejection (server_error code) = true
is_rpc_rejection e = false

unfoldable pub is_daemon_rejection : AnyhowError → Bool
is_daemon_rejection (json_rpc e) = is_rpc_rejection e
is_daemon_rejection (wallet e) = false
is_daemon_rejection untyped = false

abbrev is_transport_failure : JsonRpcError → Bool
is_transport_failure no_response = true
is_transport_failure timed_out = true
is_transport_failure http_error = true
is_transport_failure connection_error = true
is_transport_failure socket_error = true
is_transport_failure send_error = true
is_transport_failure e = false

unfoldable pub is_retryable_rpc_error : AnyhowError → Bool
is_retryable_rpc_error (json_rpc e) = is_transport_failure e
is_retryable_rpc_error (wallet e) = false
is_retryable_rpc_error untyped = false

unfoldable pub classify_submit_error : WalletError → SubmitErrorClass
unfolding is_retryable_rpc_error is_daemon_rejection
classify_submit_error (any_wallet kind e) =
    if is_retryable_rpc_error e
    then SubmitErrorClass.retryable
    else (if is_daemon_rejection e
        then SubmitErrorClass.daemon_rejected
        else SubmitErrorClass.local_failure)
classify_submit_error not_online_mode = SubmitErrorClass.retryable
classify_submit_error no_network_handler = SubmitErrorClass.retryable
classify_submit_error e = SubmitErrorClass.local_failure

unfoldable pub resolution_of : SubmitErrorClass → WalletError → SubmissionResolution
resolution_of SubmitErrorClass.retryable e = SubmissionResolution.retryable e
resolution_of SubmitErrorClass.daemon_rejected e = SubmissionResolution.daemon_rejected e
resolution_of SubmitErrorClass.local_failure e = SubmissionResolution.local_failure e

unfoldable pub resolve_submission : Result WalletError (Unit {0}) → SubmissionResolution
unfolding classify_submit_error resolution_of
resolve_submission (ok u) = submitted
resolve_submission (err e) = resolution_of (classify_submit_error e) e
