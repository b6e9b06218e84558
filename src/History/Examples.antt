-- ===== src/History/Examples.antt =====
-- The second page of a history of five transactions, two to a page.
use xelis_wallet_flutter.Base.{
  ℕ, ◌*◌, ◌-◌, ◌≡◌, refl, true, Option, none, some, List, [], ◌∷◌, nat_eq, string_eq, String, take,
  drop, arith,
}
use xelis_wallet_flutter.Base.Results.{ok, map_err}
use xelis_wallet_flutter.Base.Words.{u64_max}
use xelis_wallet_flutter.Errors.{serialization}
use xelis_wallet_flutter.Errors.Foreign.{Kinds}
use xelis_wallet_flutter.Errors.Convert.{from_wallet_operation}
use xelis_wallet_flutter.History.{
  HistoryPageFilter, TransactionFilterOptions, PreparedHistoryFilter, TransactionEntry, others,
  AnyhowResult, Parsers, prepare_filter, exactly, collect, history,
}
use xelis_wallet_flutter.History.Pages.{history-page}

abbrev any_kinds : Kinds
any_kinds = record { wallet_kind = λ e. "WALLET"; rpc_kind = λ e. "RPC" }

abbrev any_parsers : Parsers String String String String ℕ
any_parsers = record {
  from_hex = λ text. some 7;
  from_string = some;
  extract_data = λ address. (none, address);
  to_public_key = λ address. address;
  to_bytes = λ data_element. data_element;
}

abbrev entry_of : ℕ → TransactionEntry String String ℕ
entry_of hash = record { hash = hash; entry = others }

abbrev five : List (TransactionEntry String String ℕ)
five = entry_of 1 ∷ entry_of 2 ∷ entry_of 3 ∷ entry_of 4 ∷ entry_of 5 ∷ []

abbrev limited : Option ℕ → AnyhowResult (List (TransactionEntry String String ℕ))
limited none = ok five
limited (some n) = ok (take n five)

abbrev stored :
    TransactionFilterOptions String ℕ → AnyhowResult (List (TransactionEntry String String ℕ))
stored options = limited options.limit

abbrev second_page : HistoryPageFilter
second_page = record {
  page = 2;
  limit = some 2;
  asset_hash = none;
  address = none;
  min_topoheight = none;
  max_topoheight = none;
  accept_incoming = true;
  accept_outgoing = true;
  accept_coinbase = true;
  accept_burn = true;
  accept_blob = true;
  min_timestamp = none;
  max_timestamp = none;
}

abbrev prepared_page : PreparedHistoryFilter String String ℕ
prepared_page = record {
  options = record {
    address = none;
    asset = none;
    min_topoheight = none;
    max_topoheight = none;
    accept_incoming = true;
    accept_outgoing = true;
    accept_coinbase = true;
    accept_burn = true;
    accept_blob = true;
    min_timestamp = none;
    max_timestamp = none;
    skip = some 2;
    limit = some 2;
  };
  exact_integrated_destination = none;
}

history-page_example :
    history any_kinds any_parsers u64_max stored "key" (λ t. ok t.hash) second_page
    ≡ map_err
        (λ e.
          from_wallet_operation any_kinds e serialization
            "WALLET_HISTORY_EXTRA_DATA_SERIALIZATION_FAILED")
        (collect
          (λ t. ok t.hash)
          (take 2 (drop ((2 - 1) * 2) (exactly {Key = String} {Bytes = String} none "key" five))))
unfolding prepare_filter
history-page_example =
    history-page any_kinds any_parsers u64_max stored "key" (λ t. ok t.hash) second_page
      prepared_page 2 five (λ options n. refl) refl refl (omega arith) refl
