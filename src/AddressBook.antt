-- ===== src/AddressBook.antt =====
-- rust/src/api/address_book_v2.rs and rust/src/api/models/address_book_v2.rs: the address book that
-- the wallet keeps in its storage. Here the data, and what the code takes from the wallet's crates.
pub mod Destination
pub mod Codec
pub mod Storage
pub mod Migration
pub mod Book
pub mod Matches
pub mod Promise
pub mod Sample
pub mod Trimmed
pub mod RoundTrip
pub mod Marker
pub mod Kept
pub mod Examples
use xelis_wallet_flutter.Base.{
  ℕ, Bool, true, false, Option, none, some, List, String, ◌==◌, string_eq, if◌then◌else◌,
}
use xelis_wallet_flutter.Base.Results.{Result}
use xelis_wallet_flutter.Errors.Foreign.{AnyhowError}

-- `DataValue` and `DataElement`. An `IndexMap` is the list of its entries in their order.
pub data DataValue (H : Type 0) : Type 0 where
  boolean : Bool → DataValue H
  text : String → DataValue H
  byte short word long wide : ℕ → DataValue H
  hash : H → DataValue H
  blob : List ℕ → DataValue H

mutual
  pub data DataElement (H : Type 0) : Type 0 where
    value : DataValue H → DataElement H
    array : Elements H → DataElement H
    fields : Fields H → DataElement H

  pub data Elements (H : Type 0) : Type 0 where
    end : Elements H
    element : DataElement H → Elements H → Elements H

  pub data Fields (H : Type 0) : Type 0 where
    close : Fields H
    field : DataValue H → DataElement H → Fields H → Fields H

module _ {H : Type 0} where
  abbrev pub is_key : String → DataValue H → Bool
  is_key name (text s) = s == name
  is_key name _ = false

  -- `IndexMap::get` and `IndexMap::insert` at `DataValue::String(name)`.
  unfoldable pub get_field : String → Fields H → Option (DataElement H)
  get_field name close = none
  get_field name (field k v fs) = if is_key name k then some v else get_field name fs

  unfoldable pub insert_field : String → DataElement H → Fields H → Fields H
  insert_field name v close = field (text name) v close
  insert_field name v (field k w fs) =
      if is_key name k then field k v fs else field k w (insert_field name v fs)

pub data NativeSavedDestinationKind : Type 0 where
  standard integrated : NativeSavedDestinationKind

pub data NativeIntegratedDataKind : Type 0 where
  bool_value string u8 u16 u32 u64 u128 hash blob array fields : NativeIntegratedDataKind

pub record NativeSavedDestination : Type 0 where
  pub address : String
  pub base_address : String
  pub kind : NativeSavedDestinationKind
  pub integrated_data_kind : Option NativeIntegratedDataKind

pub record NativeAddressBookEntry : Type 0 where
  pub id : String
  pub display_name : String
  pub destination_label : Option String
  pub note : Option String
  pub destination : NativeSavedDestination

pub data NativeAddressBookMatchKind : Type 0 where
  exact base_only ambiguous no_match : NativeAddressBookMatchKind

pub record NativeAddressBookMatch : Type 0 where
  pub kind : NativeAddressBookMatchKind
  pub entries : List NativeAddressBookEntry

pub record NativeAddressBookMigrationResult : Type 0 where
  pub migrated_entries : ℕ
  pub already_complete : Bool

-- The crates' addresses and hashes, and the case tables of Unicode. `hash_multiple` gives the hash of
-- several byte strings in hexadecimal.
pub record AddressFormats (H Address : Type 0) : Type 0 where
  pub from_string : String → Option Address
  pub to_string : Address → String
  pub is_mainnet : Address → Bool
  pub extract_data : Address → Option (DataElement H) × Address
  pub hash_multiple : List String → String
  pub to_lowercase : String → String

-- `EncryptedStorage` over its state. A write may fail after it changed the state.
pub record EncryptedStorage (S H : Type 0) : Type 0 where
  pub has_custom_data : S → String → DataValue H → Result AnyhowError Bool
  pub get_custom_data : S → String → DataValue H → Result AnyhowError (DataElement H)
  pub set_custom_data : S → String → DataValue H → DataElement H → S × Result AnyhowError (Unit {0})
  pub delete_custom_data : S → String → DataValue H → S × Result AnyhowError (Unit {0})
  pub query_db : S → String → Result AnyhowError (List (DataValue H × DataElement H))
