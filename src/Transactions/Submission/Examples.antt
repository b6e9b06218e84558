-- ===== src/Transactions/Submission/Examples.antt =====
-- A concrete failed submission.
use xelis_wallet_flutter.Errors.Foreign.{json_rpc, timed_out, any_wallet, Kinds}
use xelis_wallet_flutter.Errors.Convert.{from_wallet_error}
use xelis_wallet_flutter.Transactions.Submission.{classify_submit_error}
use xelis_wallet_flutter.Transactions.Submission.Codes.{
  ClassMatchesCode, classify_submit_error-ClassMatchesCode,
}

abbrev constant_kinds : Kinds
constant_kinds = record { wallet_kind = λ e. "WALLET"; rpc_kind = λ e. "RPC" }

classify_submit_error-ClassMatchesCode_example :
    ClassMatchesCode
      (classify_submit_error (any_wallet "ANY" (json_rpc timed_out)))
      (from_wallet_error constant_kinds (any_wallet "ANY" (json_rpc timed_out))).code
classify_submit_error-ClassMatchesCode_example =
    classify_submit_error-ClassMatchesCode constant_kinds (any_wallet "ANY" (json_rpc timed_out))
