-- ===== src/Transactions/Review/Examples.antt =====
-- A concrete review of two prepared transfers, the second with extra data. Hashes, addresses and extra data are strings.
use xelis_wallet_flutter.Base.{
  ℕ, Bool, true, false, ◌≡◌, refl, none, some, [], ◌∷◌, nat_eq, string_eq, String,
}
use xelis_wallet_flutter.Base.Results.{ok}
use xelis_wallet_flutter.Errors.Foreign.{Kinds}
use xelis_wallet_flutter.Prepared.{PreparedTransactionStore, ready, default, ready_exact}
use xelis_wallet_flutter.Transactions.Builders.{
  TransferBuilder, transfers, NativePreparedTransfer, prepared_transfers,
  NativePreparedTransferExtraData, explicit,
}
use xelis_wallet_flutter.Transactions.Prepare.{Wallet, Plan, Retained, NativePreparedTransaction}
use xelis_wallet_flutter.Transactions.Review.{inspect_prepared_transfer_extra_data}

abbrev named_kinds : Kinds
named_kinds = record { wallet_kind = λ e. "WALLET"; rpc_kind = λ e. "RPC" }

abbrev paying_wallet : Wallet String String String ℕ ℕ
paying_wallet = record {
  balance_for = λ asset. ok 100;
  estimate_fees = λ transaction_type. ok 30;
  create_transaction = λ transaction_type fee. ok (fee, 71);
  tx_hash = λ tx. "hash";
  tx_fee = λ tx. tx;
}

abbrev sent : ℕ → TransferBuilder String String String
sent amount = record {
  destination = "xel:alice";
  amount = amount;
  asset = "xelis";
  extra_data = none;
  encrypt_extra_data = true;
}

abbrev shown_as : ℕ → Bool → NativePreparedTransfer
shown_as amount has_extra_data = record {
  amount = amount;
  destination = "xel:alice";
  asset = "xelis";
  has_extra_data = has_extra_data;
  encrypt_extra_data = true;
}

abbrev rent : NativePreparedTransferExtraData String
rent = record { data_element = "rent"; source = explicit; encrypted = true }

abbrev two_sent : Plan String String String
two_sent = record {
  transaction_type = transfers (sent 40 ∷ record (sent 30) { extra_data = some "rent" } ∷ []);
  transaction = prepared_transfers (shown_as 40 false ∷ shown_as 30 true ∷ []);
  review_extra_data = none ∷ some rent ∷ [];
  target_fee = 30;
}

abbrev nothing_held : PreparedTransactionStore String (Retained String ℕ ℕ)
nothing_held = default

abbrev held : PreparedTransactionStore String (Retained String ℕ ℕ)
held = record {
  state =
      ready 1 "hash"
        (record { transaction = 30; state = 71; review_extra_data = none ∷ some rent ∷ [] });
  next_generation = 1;
  active_preparation = none;
}

abbrev reply : NativePreparedTransaction
reply = record { hash = "hash"; preparation_id = 1; fee = 30; transaction = two_sent.transaction }

inspect_second : inspect_prepared_transfer_extra_data some held 1 "hash" 1 ≡ ok rent
unfolding inspect_prepared_transfer_extra_data ready_exact
inspect_second = refl
