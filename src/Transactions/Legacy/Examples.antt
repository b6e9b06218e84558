-- ===== src/Transactions/Legacy/Examples.antt =====
-- A concrete broadcast by hash. The hash 7 is written "7".
use xelis_wallet_flutter.Base.{
  ℕ, ◌≡◌, refl, true, Option, none, some, List, [], ◌∷◌, nat_eq, string_eq, ◌==◌, String,
  if◌then◌else◌,
}
use xelis_wallet_flutter.Base.Results.{ok, err}
use xelis_wallet_flutter.Errors.Foreign.{Kinds, json_rpc, timed_out, any_wallet}
use xelis_wallet_flutter.Prepared.{PreparedTransactionStore, ready}
use xelis_wallet_flutter.Prepared.World.{Call, replaces}
use xelis_wallet_flutter.Transactions.PreparedErrors.{PreparedWalletTransaction}
use xelis_wallet_flutter.Transactions.Broadcast.{
  Request, begin_request, afterwards, Answers, NativePreparedTransactionBroadcastOutcome,
}
use xelis_wallet_flutter.Transactions.Broadcast.Fate.{fate}
use xelis_wallet_flutter.Transactions.Legacy.{broadcast_transaction}
use xelis_wallet_flutter.Transactions.Legacy.Agreement.{legacy_of, broadcast_transaction-fate}

abbrev kinds_of_errors : Kinds
kinds_of_errors = record { wallet_kind = λ e. "WALLET"; rpc_kind = λ e. "RPC" }

abbrev read_hash : String → Option ℕ
read_hash text = if text == "7" then some 7 else none

abbrev retained : PreparedWalletTransaction ℕ ℕ ℕ
retained = record { transaction = 70; state = 71; review_extra_data = [] }

abbrev one_ready : PreparedTransactionStore ℕ (PreparedWalletTransaction ℕ ℕ ℕ)
one_ready = record { state = ready 4 7 retained; next_generation = 4; active_preparation = none }

-- The daemon does not answer in time.
abbrev no_answer : Answers
no_answer = record {
  is_online = true;
  tx_version = ok tt;
  synced_topoheight = ok tt;
  top_block_hash = ok tt;
  submit = err (any_wallet "ANY" (json_rpc timed_out));
  apply_changes = ok tt;
}

abbrev another_task : List (Request ℕ (PreparedWalletTransaction ℕ ℕ ℕ))
another_task = begin_request ∷ []

abbrev replaced : List (Call ℕ (PreparedWalletTransaction ℕ ℕ ℕ))
replaced = replaces 8 retained ∷ []

broadcast_transaction-fate_example :
    (outcome : NativePreparedTransactionBroadcastOutcome) × ((fate kinds_of_errors no_answer
        one_ready retained).2
      ≡ ok outcome)
    × (broadcast_transaction read_hash no_answer [] another_task replaced one_ready "7" ≡ (
      afterwards replaced (fate kinds_of_errors no_answer one_ready retained).0,
      (fate kinds_of_errors no_answer one_ready retained).1,
      ok (legacy_of outcome),
    ))
broadcast_transaction-fate_example =
    broadcast_transaction-fate kinds_of_errors read_hash no_answer another_task replaced one_ready 4
      "7" 7 retained refl refl refl refl refl
