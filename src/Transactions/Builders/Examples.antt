-- ===== src/Transactions/Builders/Examples.antt =====
-- A concrete request of two transfers, one with a text and one to an address that carries data. Hashes, addresses and extra data are strings.
use xelis_wallet_flutter.Base.{
  ◌<◌, ◌≡◌, refl, true, false, Option, none, some, List, [], ◌∷◌, String, length, ◌==◌, string_eq,
  if◌then◌else◌,
}
use xelis_wallet_flutter.Transactions.Builders.{
  Formats, NativeTransactionTransferRequest, NativePreparedTransfer, transfers, prepared_transfers,
  build_rows, build_atomic_transfers, Rows, TransferBuilder, NativePreparedTransferExtraData,
  integrated_address, explicit,
}
use xelis_wallet_flutter.Transactions.Builders.Agreement.{AllAgree, build_atomic_transfers-agree}

abbrev split_address : String → Option String × String
split_address a = if a == "xel:shop/42" then (some "42", "xel:shop") else (none, a)

abbrev text_formats : Formats String String String
text_formats = record {
  from_hex = some;
  to_hex = λ h. h;
  from_string = some;
  to_string = λ a. a;
  extract_data = split_address;
  string_data = λ s. s;
}

abbrev noted_request : NativeTransactionTransferRequest
noted_request = record {
  amount = 5;
  destination = "xel:alice";
  asset = "xelis";
  extra_data = some "rent";
  encrypt_extra_data = false;
}

abbrev shop_request : NativeTransactionTransferRequest
shop_request = record {
  amount = 7;
  destination = "xel:shop/42";
  asset = "xelis";
  extra_data = none;
  encrypt_extra_data = true;
}

abbrev two_builders : List (TransferBuilder String String String)
two_builders =
    record {
      destination = "xel:alice";
      amount = 5;
      asset = "xelis";
      extra_data = some "rent";
      encrypt_extra_data = false;
    }
    ∷ record {
      destination = "xel:shop/42";
      amount = 7;
      asset = "xelis";
      extra_data = none;
      encrypt_extra_data = true;
    }
    ∷ []

abbrev two_shown : List NativePreparedTransfer
two_shown =
    record {
      amount = 5;
      destination = "xel:alice";
      asset = "xelis";
      has_extra_data = true;
      encrypt_extra_data = false;
    }
    ∷ record {
      amount = 7;
      destination = "xel:shop";
      asset = "xelis";
      has_extra_data = true;
      encrypt_extra_data = true;
    }
    ∷ []

abbrev two_reviews : List (Option (NativePreparedTransferExtraData String))
two_reviews =
    some (record { data_element = "rent"; source = explicit; encrypted = false })
    ∷ some (record { data_element = "42"; source = integrated_address; encrypted = true })
    ∷ []

build_atomic_transfers-agree_example :
    (0 < length (noted_request ∷ shop_request ∷ []))
    × ((rows : Rows text_formats) × (transfers two_builders ≡ transfers rows.0)
        × (prepared_transfers two_shown ≡ prepared_transfers rows.1)
        × (two_reviews ≡ rows.2)
        × AllAgree text_formats (noted_request ∷ shop_request ∷ []) rows)
unfolding build_atomic_transfers build_rows
build_atomic_transfers-agree_example =
    build_atomic_transfers-agree text_formats (noted_request ∷ shop_request ∷ [])
      (transfers two_builders) (prepared_transfers two_shown) two_reviews refl
