-- ===== src/Transactions/Broadcast/Examples.antt =====
-- Concrete broadcasts. The hash 7 is written "7".
use xelis_wallet_flutter.Base.{
  ℕ, ◌≡◌, refl, ◌⊎◌, true, Option, none, some, List, [], ◌∷◌, nat_eq, string_eq, ◌==◌, String,
  if◌then◌else◌,
}
use xelis_wallet_flutter.Base.Results.{ok, err}
use xelis_wallet_flutter.Errors.Foreign.{Kinds, json_rpc, timed_out, any_wallet}
use xelis_wallet_flutter.Prepared.{
  PreparedTransactionStore, ready, in_flight, empty, cancel_exact, take_for_submission_exact,
}
use xelis_wallet_flutter.Prepared.Guards.{restore, drop_submission, take_exact, transaction_of}
use xelis_wallet_flutter.Transactions.Submission.{resolve_submission}
use xelis_wallet_flutter.Prepared.World.{Call, cancels_exact, step, run}
use xelis_wallet_flutter.Transactions.PreparedErrors.{
  PreparedWalletTransaction, invalid_prepared_transaction_hash,
}
use xelis_wallet_flutter.Transactions.Broadcast.{
  Request, begin_request, cancel_request, Answers, storage_context, broadcast_prepared_transaction,
  serve, serve_all,
}
use xelis_wallet_flutter.Transactions.Broadcast.Fate.{
  fate, followed, Untouched, Submitted, broadcast_prepared_transaction-fate,
  broadcast_prepared_transaction-cases, broadcast_prepared_transaction-err,
}

abbrev plain_kinds : Kinds
plain_kinds = record { wallet_kind = λ e. "WALLET"; rpc_kind = λ e. "RPC" }

abbrev from_hex : String → Option ℕ
from_hex text = if text == "7" then some 7 else none

abbrev signed : PreparedWalletTransaction ℕ ℕ ℕ
signed = record { transaction = 70; state = 71; review_extra_data = [] }

abbrev holding : PreparedTransactionStore ℕ (PreparedWalletTransaction ℕ ℕ ℕ)
holding = record { state = ready 4 7 signed; next_generation = 4; active_preparation = none }

abbrev flying : PreparedTransactionStore ℕ (PreparedWalletTransaction ℕ ℕ ℕ)
flying = record { state = in_flight 4 7; next_generation = 4; active_preparation = none }

-- The daemon does not answer in time.
abbrev late : Answers
late = record {
  is_online = true;
  tx_version = ok tt;
  synced_topoheight = ok tt;
  top_block_hash = ok tt;
  submit = err (any_wallet "ANY" (json_rpc timed_out));
  apply_changes = ok tt;
}

abbrev meanwhile : List (Request ℕ (PreparedWalletTransaction ℕ ℕ ℕ))
meanwhile = begin_request ∷ cancel_request 7 ∷ []

-- Another task cancels the transaction that was put back, before the reply.
abbrev next_cancel : List (Call ℕ (PreparedWalletTransaction ℕ ℕ ℕ))
next_cancel = cancels_exact 4 7 ∷ []

emptied_after :
    (broadcast_prepared_transaction plain_kinds from_hex late meanwhile [] next_cancel holding 4
      "7").0.state
    ≡ empty
unfolding broadcast_prepared_transaction restore drop_submission take_exact step run cancel_exact
    serve_all take_for_submission_exact storage_context transaction_of resolve_submission serve
emptied_after = refl

broadcast_prepared_transaction-fate_example :
    broadcast_prepared_transaction plain_kinds from_hex late meanwhile [] next_cancel holding 4 "7"
    ≡ followed next_cancel (fate plain_kinds late holding signed)
unfolding storage_context
broadcast_prepared_transaction-fate_example =
    broadcast_prepared_transaction-fate plain_kinds from_hex late meanwhile [] next_cancel holding 4
      "7" 7 signed refl refl refl refl refl

broadcast_prepared_transaction-cases_example :
    Untouched plain_kinds from_hex holding (
      broadcast_prepared_transaction plain_kinds from_hex late meanwhile [] next_cancel holding 4
        "7")
    ⊎ Submitted plain_kinds from_hex late next_cancel holding 4 "7" (
        broadcast_prepared_transaction plain_kinds from_hex late meanwhile [] next_cancel holding 4
          "7")
broadcast_prepared_transaction-cases_example =
    broadcast_prepared_transaction-cases plain_kinds from_hex late meanwhile [] next_cancel holding
      4 "7"

broadcast_prepared_transaction-err_example :
    ((broadcast_prepared_transaction plain_kinds from_hex late meanwhile [] next_cancel holding 4
        "8").0
      ≡ holding)
    × ((broadcast_prepared_transaction plain_kinds from_hex late meanwhile [] next_cancel holding 4
          "8").1
        ≡ [])
unfolding broadcast_prepared_transaction
broadcast_prepared_transaction-err_example =
    broadcast_prepared_transaction-err plain_kinds from_hex late meanwhile [] next_cancel holding 4
      "8" invalid_prepared_transaction_hash refl
