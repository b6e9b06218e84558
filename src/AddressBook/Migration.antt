-- ===== src/AddressBook/Migration.antt =====
-- rust/src/api/address_book_v2.rs: the migration of the book of an earlier version.
use xelis_wallet_flutter.Base.{
  ℕ, Bool, true, false, ◌&&◌, not, Option, none, some, List, [], ◌∷◌, String, ◌==◌, string_eq,
  nat_beq, length, if◌then◌else◌,
}
use xelis_wallet_flutter.Base.Results.{Result, ok, err, ◌>>=◌, ◌>>◌, refuse_if, and_then}
use xelis_wallet_flutter.Errors.{NativeXelisError, wallet_flutter_error, serialization, conflict}
use xelis_wallet_flutter.Errors.Foreign.{Kinds}
use xelis_wallet_flutter.Errors.Convert.{from_wallet_storage_operation}
use xelis_wallet_flutter.AddressBook.{
  DataValue, DataElement, Fields, AddressFormats, EncryptedStorage, NativeIntegratedDataKind,
  NativeSavedDestinationKind, NativeSavedDestination, NativeAddressBookEntry,
  NativeAddressBookMigrationResult, standard, integrated,
}
use xelis_wallet_flutter.AddressBook.Destination.{canonical_destination, normalize_entry}
use xelis_wallet_flutter.AddressBook.Codec.{
  required_field, string_field, encode_entry, decode_entry, encode_marker, decode_marker,
}
use xelis_wallet_flutter.AddressBook.Storage.{
  legacy_tree, address_book_v2_tree, migration_marker_key, entry_key, or_storage_error, set_data,
  counted,
}

-- The derived `PartialEq`.
abbrev pub same_text : Option String → Option String → Bool
same_text none none = true
same_text (some a) (some b) = a == b
same_text _ _ = false

abbrev pub kind_number : NativeIntegratedDataKind → ℕ
kind_number NativeIntegratedDataKind.bool_value = 0
kind_number NativeIntegratedDataKind.string = 1
kind_number NativeIntegratedDataKind.u8 = 2
kind_number NativeIntegratedDataKind.u16 = 3
kind_number NativeIntegratedDataKind.u32 = 4
kind_number NativeIntegratedDataKind.u64 = 5
kind_number NativeIntegratedDataKind.u128 = 6
kind_number NativeIntegratedDataKind.hash = 7
kind_number NativeIntegratedDataKind.blob = 8
kind_number NativeIntegratedDataKind.array = 9
kind_number NativeIntegratedDataKind.fields = 10

abbrev pub same_data_kind : Option NativeIntegratedDataKind → Option NativeIntegratedDataKind → Bool
same_data_kind none none = true
same_data_kind (some a) (some b) = nat_beq (kind_number a) (kind_number b)
same_data_kind _ _ = false

abbrev pub same_kind : NativeSavedDestinationKind → NativeSavedDestinationKind → Bool
same_kind standard standard = true
same_kind integrated integrated = true
same_kind _ _ = false

abbrev pub same_destination : NativeSavedDestination → NativeSavedDestination → Bool
same_destination a b =
    a.address == b.address
    && a.base_address == b.base_address
    && same_kind a.kind b.kind
    && same_data_kind a.integrated_data_kind b.integrated_data_kind

abbrev pub same_entry : NativeAddressBookEntry → NativeAddressBookEntry → Bool
same_entry a b =
    a.id == b.id
    && a.display_name == b.display_name
    && same_text a.destination_label b.destination_label
    && same_text a.note b.note
    && same_destination a.destination b.destination

-- `HashMap::insert` of an entry under its identifier, with the entry that it replaced.
unfoldable pub insert_entry :
    NativeAddressBookEntry
    → List NativeAddressBookEntry
    → List NativeAddressBookEntry × Option NativeAddressBookEntry
insert_entry entry [] = (entry ∷ [], none)
insert_entry entry (e ∷ es) =
    let (rest, previous) = insert_entry entry es in
    if e.id == entry.id then (entry ∷ es, some e) else (e ∷ rest, previous)

abbrev pub is_conflict : NativeAddressBookEntry → Option NativeAddressBookEntry → Bool
is_conflict entry none = false
is_conflict entry (some previous) = not (same_entry previous entry)

module _ {H Address : Type 0} (formats : AddressFormats H Address) where
  abbrev pub migrate_fields :
      Bool
      → String
      → Fields H
      → List NativeAddressBookEntry
      → Result NativeXelisError (List NativeAddressBookEntry)
  migrate_fields mainnet key_address fields migrated = do
    display_name ← required_field fields "name"
    field_address ← required_field fields "address"
    note ← string_field fields "note" false
    canonical_key ← canonical_destination formats key_address mainnet
    entry ← normalize_entry formats field_address display_name none note mainnet
    refuse_if (not (entry.destination.address == canonical_key.address))
        (wallet_flutter_error serialization "ADDRESS_BOOK_LEGACY_ADDRESS_MISMATCH")
    refuse_if (is_conflict entry (insert_entry entry migrated).1)
        (wallet_flutter_error conflict "ADDRESS_BOOK_MIGRATION_DUPLICATE")
    ok (insert_entry entry migrated).0

  -- The first loop of the migration.
  unfoldable pub migrate_rows :
      Bool
      → List (DataValue H × DataElement H)
      → List NativeAddressBookEntry
      → Result NativeXelisError (List NativeAddressBookEntry)
  unfolding insert_entry canonical_destination normalize_entry
  migrate_rows mainnet [] migrated = ok migrated
  migrate_rows mainnet ((DataValue.text key_address, DataElement.fields fields) ∷ rows) migrated =
      do next ← migrate_fields mainnet key_address fields migrated; migrate_rows mainnet rows next
  migrate_rows mainnet ((DataValue.text key_address, _) ∷ rows) migrated =
      err (wallet_flutter_error serialization "ADDRESS_BOOK_LEGACY_ENTRY_INVALID")
  migrate_rows mainnet (_ ∷ rows) migrated =
      err (wallet_flutter_error serialization "ADDRESS_BOOK_LEGACY_KEY_INVALID")

-- `hash_order` is the order in which a `HashMap` gives its values, which is not specified.
module _ {S H Address : Type 0} (formats : AddressFormats H Address) (kinds : Kinds)
    (storage : EncryptedStorage S H)
    (hash_order : List NativeAddressBookEntry → List NativeAddressBookEntry) where
  open storage use {has_custom_data, get_custom_data, set_custom_data, query_db}

  -- An entry that is there already must be the same.
  abbrev pub check_existing : S → Bool → NativeAddressBookEntry → Result NativeXelisError (Unit {0})
  check_existing s mainnet entry = do
    value ←
        or_storage_error formats kinds storage hash_order "ADDRESS_BOOK_MIGRATION_ENTRY_READ_FAILED"
          (get_custom_data s address_book_v2_tree (entry_key entry.id))
    existing ← decode_entry formats entry.id value mainnet
    refuse_if (not (same_entry existing entry))
        (wallet_flutter_error conflict "ADDRESS_BOOK_MIGRATION_ENTRY_CONFLICT")

  abbrev pub write_entry :
      S → Bool → NativeAddressBookEntry → Bool → S × Result NativeXelisError (Unit {0})
  write_entry s mainnet entry true = (s, check_existing s mainnet entry)
  write_entry s mainnet entry false =
      set_data formats kinds storage hash_order "ADDRESS_BOOK_MIGRATION_ENTRY_WRITE_FAILED" s
        (entry_key entry.id) (encode_entry entry)

  -- The second loop of the migration.
  unfoldable pub write_entries :
      Bool → List NativeAddressBookEntry → S → S × Result NativeXelisError (Unit {0})
  unfolding decode_entry encode_entry from_wallet_storage_operation
  write_entries mainnet [] s = (s, ok tt)
  write_entries mainnet (entry ∷ entries) s =
      and_then
        (
          s,
          or_storage_error formats kinds storage hash_order
              "ADDRESS_BOOK_MIGRATION_ENTRY_READ_FAILED"
              (has_custom_data s address_book_v2_tree (entry_key entry.id)),
        )
        λ s present.
          and_then (write_entry s mainnet entry present)
            λ s written. write_entries mainnet entries s

  abbrev pub write_marker : S → ℕ → S × Result NativeXelisError NativeAddressBookMigrationResult
  write_marker s migrated_entries =
      and_then
        (set_data formats kinds storage hash_order "ADDRESS_BOOK_MIGRATION_MARKER_WRITE_FAILED" s
          (DataValue.text migration_marker_key) (encode_marker migrated_entries))
        λ s written.
          (s, ok (record { migrated_entries = migrated_entries; already_complete = false }))

  abbrev pub legacy_entries : S → Bool → Result NativeXelisError (List NativeAddressBookEntry)
  legacy_entries s mainnet = do
    rows ←
        or_storage_error formats kinds storage hash_order
          "ADDRESS_BOOK_MIGRATION_LEGACY_READ_FAILED" (query_db s legacy_tree)
    migrate_rows formats mainnet rows []

  abbrev pub migrate_entries :
      Bool
      → S
      → List NativeAddressBookEntry
      → S × Result NativeXelisError NativeAddressBookMigrationResult
  migrate_entries mainnet s migrated =
      and_then (write_entries mainnet (hash_order migrated) s) λ s written.
        and_then (s, counted formats kinds storage hash_order (length migrated)) write_marker

  abbrev pub already_migrated : S → Result NativeXelisError NativeAddressBookMigrationResult
  already_migrated s = do
    value ←
        or_storage_error formats kinds storage hash_order
          "ADDRESS_BOOK_MIGRATION_MARKER_READ_FAILED"
          (get_custom_data s address_book_v2_tree (DataValue.text migration_marker_key))
    count ← decode_marker value
    ok (record { migrated_entries = count; already_complete = true })

  abbrev pub migrate_from :
      Bool → S → Bool → S × Result NativeXelisError NativeAddressBookMigrationResult
  migrate_from mainnet s true = (s, already_migrated s)
  migrate_from mainnet s false = and_then (s, legacy_entries s mainnet) (migrate_entries mainnet)

  unfoldable pub migrate_address_book_v2 :
      Bool → S → S × Result NativeXelisError NativeAddressBookMigrationResult
  unfolding migrate_rows write_entries encode_marker decode_marker
  migrate_address_book_v2 mainnet s =
      and_then
        (
          s,
          or_storage_error formats kinds storage hash_order
              "ADDRESS_BOOK_MIGRATION_MARKER_READ_FAILED"
              (has_custom_data s address_book_v2_tree (DataValue.text migration_marker_key)),
        )
        (migrate_from mainnet)
