-- ===== src/AddressBook/Storage.antt =====
-- rust/src/api/address_book_v2.rs: the entries of the wallet's storage, read and sorted.
use xelis_wallet_flutter.Base.{
  ℕ, Bool, true, false, Option, none, some, List, [], ◌∷◌, String, ◌==◌, string_eq, ltb,
  if◌then◌else◌,
}
use Prim.Native.String.{len, slice, ◌++◌, compare}
use text.Mathlib.Text.{starts_with}
use Prim.Native.Nat.{Ordering}
use xelis_wallet_flutter.Base.Results.{Result, ok, err, ◌>>=◌, ◌>>◌, ok_or, map_err, refuse_if}
use xelis_wallet_flutter.Base.Words.{u32_max}
use xelis_wallet_flutter.Errors.{NativeXelisError, wallet_flutter_error, serialization, internal}
use xelis_wallet_flutter.Errors.Foreign.{AnyhowError, Kinds}
use xelis_wallet_flutter.Errors.Convert.{from_wallet_storage_operation}
use xelis_wallet_flutter.AddressBook.{
  DataValue, DataElement, AddressFormats, EncryptedStorage, NativeAddressBookEntry,
}
use xelis_wallet_flutter.AddressBook.Destination.{validate_entry_id}
use xelis_wallet_flutter.AddressBook.Codec.{decode_entry}

abbrev pub legacy_tree : String
legacy_tree = "address_book"

abbrev pub address_book_v2_tree : String
address_book_v2_tree = "address_book_v2"

abbrev pub migration_marker_key : String
migration_marker_key = "_meta:migration_v1_complete"

abbrev pub entry_key_prefix : String
entry_key_prefix = "entry:"

abbrev pub entry_key : {H : Type 0} → String → DataValue H
entry_key id = DataValue.text (entry_key_prefix ++ id)

-- `str::strip_prefix`.
abbrev pub strip_prefix : String → String → Option String
strip_prefix key prefix =
    if starts_with key prefix then some (slice key (len prefix) (len key)) else none

abbrev pub invalid_key : NativeXelisError
invalid_key = wallet_flutter_error serialization "ADDRESS_BOOK_ENTRY_KEY_INVALID"

-- `Ordering::then_with` of the two keys of `sort_by`.
abbrev pub then_with : Ordering → Ordering → Ordering
then_with Ordering.eq second = second
then_with first second = first

abbrev pub is_greater : Ordering → Bool
is_greater Ordering.gt = true
is_greater _ = false

module _ {H Address : Type 0} (formats : AddressFormats H Address) where
  abbrev pub comes_after : NativeAddressBookEntry → NativeAddressBookEntry → Bool
  comes_after left right = is_greater (
      then_with
        (compare (formats.to_lowercase left.display_name) (formats.to_lowercase right.display_name))
        (compare left.id right.id))

  abbrev pub insert_sorted :
      NativeAddressBookEntry → List NativeAddressBookEntry → List NativeAddressBookEntry
  insert_sorted entry [] = entry ∷ []
  insert_sorted entry (e ∷ es) =
      let rest = insert_sorted entry es in if comes_after entry e then e ∷ rest else entry ∷ e ∷ es

  -- The stable `sort_by`.
  unfoldable pub sort_entries : List NativeAddressBookEntry → List NativeAddressBookEntry
  sort_entries [] = []
  sort_entries (e ∷ es) = insert_sorted e (sort_entries es)

  abbrev pub read_entry :
      Bool → String → DataElement H → Result NativeXelisError NativeAddressBookEntry
  read_entry mainnet key stored = do
    id ← ok_or (strip_prefix key entry_key_prefix) invalid_key
    validate_entry_id id
    decode_entry formats id stored mainnet

  unfoldable pub read_rows :
      Bool
      → List (DataValue H × DataElement H)
      → Result NativeXelisError (List NativeAddressBookEntry)
  unfolding decode_entry validate_entry_id
  read_rows mainnet [] = ok []
  read_rows mainnet ((DataValue.text key, stored) ∷ rows) =
      if key == migration_marker_key then read_rows mainnet rows else (do
        entry ← read_entry mainnet key stored
        entries ← read_rows mainnet rows
        ok (entry ∷ entries))
  read_rows mainnet (_ ∷ rows) = err invalid_key

-- `hash_order` is the order in which a `HashMap` gives its values, which is not specified.
module _ {S H Address : Type 0} (formats : AddressFormats H Address) (kinds : Kinds)
    (storage : EncryptedStorage S H)
    (hash_order : List NativeAddressBookEntry → List NativeAddressBookEntry) where
  open storage use {has_custom_data, get_custom_data, set_custom_data, query_db}

  abbrev pub or_storage_error {ℓ} :
      {A : Type ℓ} → String → Result AnyhowError A → Result NativeXelisError A
  or_storage_error native_kind r =
      map_err (λ e. from_wallet_storage_operation kinds e native_kind) r

  abbrev pub set_data :
      String → S → DataValue H → DataElement H → S × Result NativeXelisError (Unit {0})
  set_data native_kind s key stored =
      let (next, result) = set_custom_data s address_book_v2_tree key stored in
      (next, or_storage_error native_kind result)

  unfoldable pub read_v2_entries : S → Bool → Result NativeXelisError (List NativeAddressBookEntry)
  unfolding read_rows sort_entries
  read_v2_entries s mainnet = do
    rows ← or_storage_error "ADDRESS_BOOK_LIST_FAILED" (query_db s address_book_v2_tree)
    entries ← read_rows formats mainnet rows
    ok (sort_entries formats entries)

  -- `u32::try_from(migrated.len())`.
  abbrev pub counted : ℕ → Result NativeXelisError ℕ
  counted n = do
    refuse_if (ltb u32_max n) (wallet_flutter_error internal "ADDRESS_BOOK_ENTRY_COUNT_OVERFLOW")
    ok n
