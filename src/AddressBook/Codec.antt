-- ===== src/AddressBook/Codec.antt =====
-- rust/src/api/address_book_v2.rs: entries and the migration marker as data elements.
use xelis_wallet_flutter.Base.{
  ℕ, Bool, true, false, ◌||◌, not, Option, none, some, String, ◌==◌, string_eq, nat_beq,
}
use xelis_wallet_flutter.Base.Results.{Result, ok, err, ◌>>=◌, ◌>>◌, refuse_if}
use xelis_wallet_flutter.Errors.{NativeXelisError, wallet_flutter_error, serialization, unsupported}
use xelis_wallet_flutter.AddressBook.{
  DataValue, DataElement, Fields, get_field, insert_field, AddressFormats, NativeAddressBookEntry,
}
use xelis_wallet_flutter.AddressBook.Destination.{normalize_entry}

abbrev pub schema_version : ℕ
schema_version = 2

abbrev pub invalid_schema : NativeXelisError
invalid_schema = wallet_flutter_error serialization "ADDRESS_BOOK_ENTRY_SCHEMA_INVALID"

abbrev pub invalid_marker : NativeXelisError
invalid_marker = wallet_flutter_error serialization "ADDRESS_BOOK_MIGRATION_MARKER_INVALID"

-- `expect("required field checked")`. A required field that is missing is an error before it.
abbrev pub checked_field : Option String → String
checked_field none = ""
checked_field (some value) = value

module _ {H : Type 0} where
  abbrev pub text_element : String → DataElement H
  text_element s = DataElement.value (DataValue.text s)

  abbrev pub byte_element : ℕ → DataElement H
  byte_element n = DataElement.value (DataValue.byte n)

  abbrev pub read_field : Option (DataElement H) → Bool → Result NativeXelisError (Option String)
  read_field none true = err invalid_schema
  read_field none false = ok none
  read_field (some (DataElement.value (DataValue.text s))) required = ok (some s)
  read_field (some _) required = err invalid_schema

  abbrev pub string_field : Fields H → String → Bool → Result NativeXelisError (Option String)
  string_field fields name required = read_field (get_field name fields) required

  abbrev pub required_field : Fields H → String → Result NativeXelisError String
  required_field fields name = do value ← string_field fields name true; ok (checked_field value)

  abbrev pub insert_some : String → Option String → Fields H → Fields H
  insert_some name none fields = fields
  insert_some name (some s) fields = insert_field name (text_element s) fields

  unfoldable pub encode_entry : NativeAddressBookEntry → DataElement H
  unfolding insert_field
  encode_entry entry =
      let start = insert_field "schema_version" (byte_element schema_version) Fields.close in
      let named =
        insert_field "display_name" (text_element entry.display_name)
          (insert_field "id" (text_element entry.id) start) in
      let described =
        insert_some "note" entry.note
          (insert_some "destination_label" entry.destination_label named) in
      DataElement.fields (insert_field "address" (text_element entry.destination.address) described)

  -- The element of a schema version that this version of the program reads.
  abbrev pub is_supported : Option (DataElement H) → Bool
  is_supported (some (DataElement.value (DataValue.byte n))) = nat_beq n schema_version
  is_supported _ = false

  unfoldable pub encode_marker : ℕ → DataElement H
  encode_marker migrated_entries = DataElement.fields (
      Fields.field (DataValue.text "schema_version") (byte_element schema_version) (
        Fields.field (DataValue.text "migrated_entries")
          (DataElement.value (DataValue.word migrated_entries)) Fields.close))

  abbrev pub read_count : Bool → Option (DataElement H) → Result NativeXelisError ℕ
  read_count true (some (DataElement.value (DataValue.word count))) = ok count
  read_count _ _ = err invalid_marker

  unfoldable pub decode_marker : DataElement H → Result NativeXelisError ℕ
  unfolding get_field
  decode_marker (DataElement.fields fields) =
      read_count (is_supported (get_field "schema_version" fields))
        (get_field "migrated_entries" fields)
  decode_marker _ = err invalid_marker

module _ {H Address : Type 0} (formats : AddressFormats H Address) where
  abbrev pub decode_fields :
      String → Fields H → Bool → Result NativeXelisError NativeAddressBookEntry
  decode_fields key_id fields mainnet = do
    refuse_if (not (is_supported (get_field "schema_version" fields)))
        (wallet_flutter_error unsupported "ADDRESS_BOOK_SCHEMA_VERSION_UNSUPPORTED")
    stored_id ← required_field fields "id"
    display_name ← required_field fields "display_name"
    address ← required_field fields "address"
    destination_label ← string_field fields "destination_label" false
    note ← string_field fields "note" false
    normalized ← normalize_entry formats address display_name destination_label note mainnet
    refuse_if (not (stored_id == key_id) || not (normalized.id == key_id))
        (wallet_flutter_error serialization "ADDRESS_BOOK_ENTRY_ID_MISMATCH")
    ok normalized

  unfoldable pub decode_entry :
      String → DataElement H → Bool → Result NativeXelisError NativeAddressBookEntry
  unfolding get_field normalize_entry
  decode_entry key_id (DataElement.fields fields) mainnet = decode_fields key_id fields mainnet
  decode_entry key_id _ mainnet = err invalid_schema
