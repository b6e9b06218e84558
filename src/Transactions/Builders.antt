-- ===== src/Transactions/Builders.antt =====
-- rust/src/api/wallet/transactions/builders.rs: requests of transfers and burns as transaction
-- builders, with the projection that the application reviews.
pub mod Agreement
pub mod Examples
use xelis_wallet_flutter.Base.{
  ℕ, Bool, true, false, Option, none, some, List, [], ◌∷◌, Eq, nat_eq, ◌==◌, String, if◌then◌else◌,
  ◌&&◌,
}
use xelis_wallet_flutter.Base.Results.{Result, ok, err, ◌>>=◌, ◌>>◌, ok_or, ensure}
use xelis_wallet_flutter.Errors.{
  NativeXelisErrorCode, NativeXelisError, wallet_flutter_error, invalid_input,
}
use xelis_wallet_flutter.Prepared.{is_some}
use xelis_wallet_flutter.Transactions.Fees.{InsufficientFunds, amount_after_fee}

-- The hash and address types of the common crate. `Data` is its `DataElement`.
pub record Formats (H Address Data : Type 0) : Type 0 where
  pub from_hex : String → Option H
  pub to_hex : H → String
  pub from_string : String → Option Address
  pub to_string : Address → String
  pub extract_data : Address → Option Data × Address
  pub string_data : String → Data

pub record NativeTransactionTransferRequest : Type 0 where
  pub amount : ℕ
  pub destination : String
  pub asset : String
  pub extra_data : Option String
  pub encrypt_extra_data : Bool

pub record NativePreparedTransfer : Type 0 where
  pub amount : ℕ
  pub destination : String
  pub asset : String
  pub has_extra_data : Bool
  pub encrypt_extra_data : Bool

pub data NativePreparedExtraDataSource : Type 0 where
  integrated_address explicit : NativePreparedExtraDataSource

-- `data_element` is kept as the crate's element.
pub record NativePreparedTransferExtraData (Data : Type 0) : Type 0 where
  pub data_element : Data
  pub source : NativePreparedExtraDataSource
  pub encrypted : Bool

pub record TransferBuilder (H Address Data : Type 0) : Type 0 where
  pub destination : Address
  pub amount : ℕ
  pub asset : H
  pub extra_data : Option Data
  pub encrypt_extra_data : Bool

pub record BurnPayload (H : Type 0) : Type 0 where
  pub amount : ℕ
  pub asset : H

-- The transaction types that this part of the program builds.
pub data TransactionTypeBuilder (H Address Data : Type 0) : Type 0 where
  transfers : List (TransferBuilder H Address Data) → TransactionTypeBuilder H Address Data
  burn : BurnPayload H → TransactionTypeBuilder H Address Data

pub data NativePreparedTransactionKind : Type 0 where
  prepared_transfers : List NativePreparedTransfer → NativePreparedTransactionKind
  prepared_burn : (asset : String) (amount : ℕ) → NativePreparedTransactionKind

abbrev pub invalid_transaction_input : String → NativeXelisError
invalid_transaction_input native_kind = wallet_flutter_error invalid_input native_kind

abbrev pub or_option {ℓ} : {A : Type ℓ} → Option A → Option A → Option A
or_option none b = b
or_option (some a) b = some a

abbrev pub map_option {ℓ κ} : {A : Type ℓ} {B : Type κ} → (A → B) → Option A → Option B
map_option f none = none
map_option f (some a) = some (f a)

unfoldable pub encrypt_extra_data_or_default : Option Bool → Bool
encrypt_extra_data_or_default none = true
encrypt_extra_data_or_default (some value) = value

module _ {H Address Data : Type 0} (formats : Formats H Address Data) where
  open formats use {from_hex, to_hex, from_string, to_string, extract_data, string_data}

  unfoldable pub parse_transaction_asset : String → Result NativeXelisError H
  parse_transaction_asset asset =
      ok_or (from_hex asset) (invalid_transaction_input "TRANSACTION_ASSET_INVALID")

  unfoldable pub parse_transaction_destination : String → Result NativeXelisError Address
  parse_transaction_destination destination =
      ok_or (from_string destination) (invalid_transaction_input "TRANSACTION_DESTINATION_INVALID")

  unfoldable pub effective_extra_data :
      Option String → Option Data → Bool → Option (NativePreparedTransferExtraData Data)
  effective_extra_data explicit_extra_data integrated_extra_data encrypt_extra_data =
      or_option
        (map_option
          (λ value. record {
            data_element = string_data value;
            source = explicit;
            encrypted = encrypt_extra_data;
          })
          explicit_extra_data)
        (map_option
          (λ value. record {
            data_element = value;
            source = integrated_address;
            encrypted = encrypt_extra_data;
          })
          integrated_extra_data)

  unfoldable pub project_prepared_transfer :
      Address
      → H
      → ℕ
      → Option String
      → Bool
      → Result NativeXelisError
          (NativePreparedTransfer × Option (NativePreparedTransferExtraData Data))
  unfolding effective_extra_data
  project_prepared_transfer destination asset amount explicit_extra_data encrypt_extra_data =
      let (integrated_extra_data, public_destination) = extract_data destination in
      let effective : Option (NativePreparedTransferExtraData Data) =
        effective_extra_data explicit_extra_data integrated_extra_data encrypt_extra_data in
      if is_some explicit_extra_data && is_some integrated_extra_data
      then err (invalid_transaction_input "TRANSACTION_EXTRA_DATA_CONFLICT")
      else ok (
        record {
          amount = amount;
          destination = to_string public_destination;
          asset = to_hex asset;
          has_extra_data = is_some effective;
          encrypt_extra_data = encrypt_extra_data;
        },
        effective,
      )

  unfoldable pub build_transfer :
      Address → ℕ → H → Option String → Option Bool → TransferBuilder H Address Data
  unfolding encrypt_extra_data_or_default
  build_transfer destination amount asset extra_data encrypt_extra_data = record {
    destination = destination;
    amount = amount;
    asset = asset;
    extra_data = map_option string_data extra_data;
    encrypt_extra_data = encrypt_extra_data_or_default encrypt_extra_data;
  }

  -- One round of the loop of `build_atomic_transfers`: a builder, its projection, its review data.
  abbrev pub Row : Type 0
  Row =
      TransferBuilder H Address Data
      × NativePreparedTransfer
      × Option (NativePreparedTransferExtraData Data)

  unfoldable pub build_row : NativeTransactionTransferRequest → Result NativeXelisError Row
  unfolding parse_transaction_asset parse_transaction_destination project_prepared_transfer
      build_transfer
  build_row transfer =
      if transfer.amount == 0
      then err (invalid_transaction_input "TRANSACTION_AMOUNT_INVALID")
      else (do
        asset ← parse_transaction_asset transfer.asset
        destination ← parse_transaction_destination transfer.destination
        projected ←
            project_prepared_transfer destination asset transfer.amount transfer.extra_data
              transfer.encrypt_extra_data
        ok (
          build_transfer destination transfer.amount asset transfer.extra_data
              (some transfer.encrypt_extra_data),
          projected.0,
          projected.1,
        ))

  abbrev pub Rows : Type 0
  Rows =
      List (TransferBuilder H Address Data)
      × List NativePreparedTransfer
      × List (Option (NativePreparedTransferExtraData Data))

  -- The loop: the three vectors that it fills, or the first error.
  unfoldable pub build_rows : List NativeTransactionTransferRequest → Result NativeXelisError Rows
  unfolding build_row
  build_rows [] = ok ([], [], [])
  build_rows (transfer ∷ rest) = build_row transfer >>= λ row.
      build_rows rest >>= λ rows. ok (row.0 ∷ rows.0, row.1 ∷ rows.1, row.2 ∷ rows.2)

  abbrev pub Built : Type 0
  Built =
      TransactionTypeBuilder H Address Data
      × NativePreparedTransactionKind
      × List (Option (NativePreparedTransferExtraData Data))

  unfoldable pub build_atomic_transfers :
      List NativeTransactionTransferRequest → Result NativeXelisError Built
  build_atomic_transfers [] = err (invalid_transaction_input "TRANSACTION_TRANSFERS_EMPTY")
  build_atomic_transfers (transfer ∷ rest) = build_rows (transfer ∷ rest) >>= λ rows.
      ok (transfers rows.0, prepared_transfers rows.1, rows.2)

  unfoldable pub build_burn_type : H → ℕ → TransactionTypeBuilder H Address Data
  build_burn_type asset amount = burn (record { amount = amount; asset = asset })

  module _ ⦃hash_eq : Eq H⦄ (xelis_asset : H) where
    unfoldable pub build_transfer_all_type :
        Address
        → ℕ
        → ℕ
        → H
        → Option String
        → Option Bool
        → Result InsufficientFunds (TransactionTypeBuilder H Address Data)
    unfolding build_transfer
    build_transfer_all_type destination balance fee asset extra_data encrypt_extra_data =
        amount_after_fee xelis_asset balance fee asset >>= λ amount.
        ok (transfers (build_transfer destination amount asset extra_data encrypt_extra_data ∷ []))

    unfoldable pub build_burn_all_type :
        H → ℕ → ℕ → Result InsufficientFunds (TransactionTypeBuilder H Address Data)
    unfolding build_burn_type
    build_burn_all_type asset balance fee =
        amount_after_fee xelis_asset balance fee asset >>= λ amount.
        ok (build_burn_type asset amount)
