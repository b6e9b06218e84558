-- ===== src/AddressBook/Destination.antt =====
-- rust/src/api/address_book_v2.rs: destinations and the fields of an entry, checked and normalized.
use Prim.Native.Char.{Char, code}
use Prim.Native.String.{String, len, count}
use xelis_wallet_flutter.Base.{
  ℕ, Bool, true, false, ◌&&◌, ◌||◌, not, Option, none, some, [], ◌∷◌, string_eq, ltb, leb, nat_beq,
  if◌then◌else◌,
}
use xelis_wallet_flutter.Base.Results.{Result, ok, err, ◌>>=◌, ◌>>◌, ok_or, refuse_if}
use xelis_wallet_flutter.Errors.{
  NativeXelisError, wallet_flutter_error, invalid_input, network_mismatch,
}
use xelis_wallet_flutter.AddressBook.{
  DataValue, DataElement, AddressFormats, NativeSavedDestinationKind, NativeIntegratedDataKind,
  NativeSavedDestination, NativeAddressBookEntry, standard, integrated,
}

abbrev pub entry_id_domain : String
entry_id_domain = "xelis-wallet-flutter:address-book-entry:v2"

abbrev pub max_address_bytes : ℕ
max_address_bytes = 8192

abbrev pub max_display_name_chars : ℕ
max_display_name_chars = 128

abbrev pub max_destination_label_chars : ℕ
max_destination_label_chars = 128

abbrev pub max_note_chars : ℕ
max_note_chars = 2048

-- `char::is_whitespace`: the property White_Space of Unicode.
abbrev pub is_whitespace_code : ℕ → Bool
is_whitespace_code c =
    leb 9 c && leb c 13
    || nat_beq c 32
    || nat_beq c 133
    || nat_beq c 160
    || nat_beq c 5760
    || leb 8192 c && leb c 8202
    || nat_beq c 8232
    || nat_beq c 8233
    || nat_beq c 8239
    || nat_beq c 8287
    || nat_beq c 12288

unfoldable pub is_whitespace : Char → Bool
is_whitespace c = is_whitespace_code (code c)

abbrev pub is_empty : String → Bool
is_empty String.[] = true
is_empty (String.◌∷◌ c s) = false

-- `str::trim`.
unfoldable pub trim_start : String → String
trim_start String.[] = String.[]
trim_start (String.◌∷◌ c s) = if is_whitespace c then trim_start s else String.◌∷◌ c s

unfoldable pub trim_end : String → String
trim_end String.[] = String.[]
trim_end (String.◌∷◌ c s) =
    let rest = trim_end s in
    if is_whitespace c && is_empty rest then String.[] else String.◌∷◌ c rest

unfoldable pub trim : String → String
unfolding trim_start trim_end is_whitespace
trim s = trim_end (trim_start s)

abbrev pub invalid_entry : String → NativeXelisError
invalid_entry native_kind = wallet_flutter_error invalid_input native_kind

abbrev pub normalize_required : String → ℕ → String → Result NativeXelisError String
normalize_required value max_chars native_kind = do
  refuse_if (is_empty (trim value) || ltb max_chars (count (trim value)))
      (invalid_entry native_kind)
  ok (trim value)

abbrev pub normalize_optional : Option String → ℕ → String → Result NativeXelisError (Option String)
normalize_optional none max_chars native_kind = ok none
normalize_optional (some value) max_chars native_kind =
    if is_empty (trim value)
    then ok none
    else if ltb max_chars (count (trim value))
    then err (invalid_entry native_kind)
    else ok (some (trim value))

abbrev pub is_entry_id_code : ℕ → Bool
is_entry_id_code c = leb 48 c && leb c 57 || leb 97 c && leb c 102

unfoldable pub is_hexadecimal : String → Bool
is_hexadecimal String.[] = true
is_hexadecimal (String.◌∷◌ c s) = is_entry_id_code (code c) && is_hexadecimal s

unfoldable pub validate_entry_id : String → Result NativeXelisError (Unit {0})
unfolding is_hexadecimal
validate_entry_id id =
    refuse_if (not (nat_beq (len id) 64) || not (is_hexadecimal id))
      (invalid_entry "ADDRESS_BOOK_ENTRY_ID_INVALID")

abbrev pub data_kind : {H : Type 0} → DataElement H → NativeIntegratedDataKind
data_kind (DataElement.value (DataValue.boolean b)) = NativeIntegratedDataKind.bool_value
data_kind (DataElement.value (DataValue.text s)) = NativeIntegratedDataKind.string
data_kind (DataElement.value (DataValue.byte n)) = NativeIntegratedDataKind.u8
data_kind (DataElement.value (DataValue.short n)) = NativeIntegratedDataKind.u16
data_kind (DataElement.value (DataValue.word n)) = NativeIntegratedDataKind.u32
data_kind (DataElement.value (DataValue.long n)) = NativeIntegratedDataKind.u64
data_kind (DataElement.value (DataValue.wide n)) = NativeIntegratedDataKind.u128
data_kind (DataElement.value (DataValue.hash h)) = NativeIntegratedDataKind.hash
data_kind (DataElement.value (DataValue.blob bytes)) = NativeIntegratedDataKind.blob
data_kind (DataElement.array es) = NativeIntegratedDataKind.array
data_kind (DataElement.fields fs) = NativeIntegratedDataKind.fields

pub record CanonicalDestination (H : Type 0) : Type 0 where
  pub address : String
  pub base_address : String
  pub integrated_data : Option (DataElement H)
  pub integrated_data_kind : Option NativeIntegratedDataKind

abbrev pub kind_of : {H : Type 0} → Option (DataElement H) → NativeSavedDestinationKind
kind_of none = standard
kind_of (some v) = integrated

abbrev pub to_native : {H : Type 0} → CanonicalDestination H → NativeSavedDestination
to_native d = record {
  address = d.address;
  base_address = d.base_address;
  kind = kind_of d.integrated_data;
  integrated_data_kind = d.integrated_data_kind;
}

abbrev pub map_kind : {H : Type 0} → Option (DataElement H) → Option NativeIntegratedDataKind
map_kind none = none
map_kind (some v) = some (data_kind v)

module _ {H Address : Type 0} (formats : AddressFormats H Address) where
  open formats use {from_string, to_string, is_mainnet, extract_data, hash_multiple}

  -- The destination of a parsed address.
  abbrev pub parsed_destination : Address → CanonicalDestination H
  parsed_destination parsed = record {
    address = to_string parsed;
    base_address = to_string (extract_data parsed).1;
    integrated_data = (extract_data parsed).0;
    integrated_data_kind = map_kind (extract_data parsed).0;
  }

  abbrev pub is_network : Bool → Address → Bool
  is_network true parsed = is_mainnet parsed
  is_network false parsed = not (is_mainnet parsed)

  unfoldable pub canonical_destination :
      String → Bool → Result NativeXelisError (CanonicalDestination H)
  unfolding trim
  canonical_destination address expected_mainnet = do
    refuse_if (is_empty (trim address) || ltb max_address_bytes (len (trim address)))
        (invalid_entry "ADDRESS_BOOK_ADDRESS_INVALID")
    parsed ← ok_or (from_string (trim address)) (invalid_entry "ADDRESS_BOOK_ADDRESS_INVALID")
    refuse_if (not (is_network expected_mainnet parsed))
        (wallet_flutter_error network_mismatch "ADDRESS_BOOK_ADDRESS_NETWORK_MISMATCH")
    ok (parsed_destination parsed)

  abbrev pub entry_id : String → String
  entry_id address = hash_multiple (entry_id_domain ∷ address ∷ [])

  unfoldable pub normalize_entry :
      String
      → String
      → Option String
      → Option String
      → Bool
      → Result NativeXelisError NativeAddressBookEntry
  unfolding canonical_destination
  normalize_entry address display_name destination_label note mainnet = do
    destination ← canonical_destination address mainnet
    display_name' ←
        normalize_required display_name max_display_name_chars "ADDRESS_BOOK_DISPLAY_NAME_INVALID"
    destination_label' ←
        normalize_optional destination_label max_destination_label_chars
          "ADDRESS_BOOK_DESTINATION_LABEL_INVALID"
    note' ← normalize_optional note max_note_chars "ADDRESS_BOOK_NOTE_INVALID"
    ok (record {
      id = entry_id destination.address;
      display_name = display_name';
      destination_label = destination_label';
      note = note';
      destination = to_native destination;
    })
