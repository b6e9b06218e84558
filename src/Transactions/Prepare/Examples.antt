-- ===== src/Transactions/Prepare/Examples.antt =====
-- Concrete preparations in a wallet that holds 100 units and pays a fee of 30. Hashes, addresses and
-- extra data are strings.
use xelis_wallet_flutter.Base.{
  ℕ, ◌≡◌, refl, ◌⊎◌, true, false, none, some, List, [], ◌∷◌, nat_eq, string_eq, String,
}
use xelis_wallet_flutter.Base.Results.{ok}
use xelis_wallet_flutter.Errors.Foreign.{Kinds}
use xelis_wallet_flutter.Prepared.{PreparedTransactionStore, empty, default}
use xelis_wallet_flutter.Transactions.Fees.{automatic, apply_fee_policy, amount_after_fee}
use xelis_wallet_flutter.Transactions.Broadcast.{Request, begin_request}
use xelis_wallet_flutter.Transactions.Builders.{
  Formats, transfers, burn, build_transfer, NativePreparedTransfer, prepared_transfers,
  prepared_burn, parse_transaction_asset, parse_transaction_destination, build_burn_all_type,
  build_transfer_all_type, project_prepared_transfer,
}
use xelis_wallet_flutter.Transactions.Prepare.{Wallet, Plan, Retained, estimate_target_fee, prepare}
use xelis_wallet_flutter.Transactions.Prepare.Plans.{burn_all_plan, transfer_all_plan}
use xelis_wallet_flutter.Transactions.Prepare.Slot.{Failed, Committed, prepare-cases}
use xelis_wallet_flutter.Transactions.Prepare.Amounts.{
  Empties, burn_all_plan-Empties, transfer_all_plan-Empties,
}

abbrev sample_kinds : Kinds
sample_kinds = record { wallet_kind = λ e. "WALLET"; rpc_kind = λ e. "RPC" }

abbrev sample_formats : Formats String String String
sample_formats = record {
  from_hex = some;
  to_hex = λ h. h;
  from_string = some;
  to_string = λ a. a;
  extract_data = λ a. (none, a);
  string_data = λ s. s;
}

abbrev sample_wallet : Wallet String String String ℕ ℕ
sample_wallet = record {
  balance_for = λ asset. ok 100;
  estimate_fees = λ transaction_type. ok 30;
  create_transaction = λ transaction_type fee. ok (fee, 71);
  tx_hash = λ tx. "hash";
  tx_fee = λ tx. tx;
}

abbrev burn_plan_made : Plan String String String
burn_plan_made = record {
  transaction_type = burn (record { amount = 70; asset = "xelis" });
  transaction = prepared_burn "xelis" 70;
  review_extra_data = [];
  target_fee = 30;
}

abbrev transfer_plan_made : Plan String String String
transfer_plan_made = record {
  transaction_type =
      transfers (build_transfer sample_formats "xel:alice" 100 "other" none (some true) ∷ []);
  transaction = prepared_transfers (
      record {
        amount = 100;
        destination = "xel:alice";
        asset = "other";
        has_extra_data = false;
        encrypt_extra_data = true;
      }
      ∷ []);
  review_extra_data = none ∷ [];
  target_fee = 30;
}

abbrev nothing_held : PreparedTransactionStore String (Retained String ℕ ℕ)
nothing_held = default

abbrev preparing : PreparedTransactionStore String (Retained String ℕ ℕ)
preparing = record { state = empty; next_generation = 1; active_preparation = some 1 }

abbrev other_calls : List (Request String (Retained String ℕ ℕ))
other_calls = begin_request ∷ []

prepare-cases_example :
    Failed nothing_held (
      prepare sample_kinds sample_wallet
        (λ h. h)
        automatic
        (ok burn_plan_made)
        other_calls
        nothing_held)
    ⊎ Committed sample_wallet
        (λ h. h)
        (ok burn_plan_made)
        nothing_held
        (prepare sample_kinds sample_wallet
          (λ h. h)
          automatic
          (ok burn_plan_made)
          other_calls
          nothing_held)
prepare-cases_example =
    prepare-cases sample_kinds sample_wallet (λ h. h) (ok burn_plan_made) other_calls nothing_held
      automatic

burn_all_plan-Empties_example :
    (asset_hash : String) × (amount : ℕ) × (some "xelis" ≡ some asset_hash)
    × (burn_plan_made.transaction_type ≡ burn (record { amount = amount; asset = asset_hash }))
    × (burn_plan_made.transaction ≡ prepared_burn asset_hash amount)
    × Empties sample_kinds sample_formats "xelis" sample_wallet asset_hash 30 amount
unfolding burn_all_plan parse_transaction_asset build_burn_all_type estimate_target_fee
    apply_fee_policy amount_after_fee
burn_all_plan-Empties_example =
    burn_all_plan-Empties sample_kinds sample_formats "xelis" sample_wallet "xelis" automatic
      burn_plan_made refl

transfer_all_plan-Empties_example :
    (asset_hash : String) × (address : String) × (amount : ℕ) × (some "other" ≡ some asset_hash)
    × (some "xel:alice" ≡ some address)
    × (transfer_plan_made.transaction_type
        ≡ transfers (build_transfer sample_formats address amount asset_hash none (some true) ∷ []))
    × Empties sample_kinds sample_formats "xelis" sample_wallet asset_hash 30 amount
    × ((shown : NativePreparedTransfer) × (transfer_plan_made.transaction
          ≡ prepared_transfers (shown ∷ []))
        × (shown.amount ≡ amount)
        × (shown.asset ≡ asset_hash))
unfolding transfer_all_plan parse_transaction_asset parse_transaction_destination
    build_transfer_all_type estimate_target_fee apply_fee_policy amount_after_fee
    project_prepared_transfer
transfer_all_plan-Empties_example =
    transfer_all_plan-Empties sample_kinds sample_formats "xelis" sample_wallet "xel:alice" "other"
      none true automatic transfer_plan_made refl
