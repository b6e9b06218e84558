-- ===== src/AddressBook/RoundTrip.antt =====
-- An entry that was normalized, encoded and decoded is the same entry.
use Prim.Native.String.{String, len}
use xelis_wallet_flutter.Base.{
  ◌≤◌, ◌≡◌, refl, subst, Bool, true, false, ◌||◌, not, Option, none, some, List, ltb, ◌==◌,
  string_eq, eq_refl, arith,
}
use xelis_wallet_flutter.Base.Results.{
  ok, ◌>>=◌, ◌>>◌, refuse_if, ok_or, >>=-eq-ok, ok_or-eq-ok, ok-inj,
}
use xelis_wallet_flutter.Errors.{wallet_flutter_error, serialization, network_mismatch}
use xelis_wallet_flutter.AddressBook.{
  AddressFormats, NativeSavedDestination, NativeAddressBookEntry,
}
use xelis_wallet_flutter.AddressBook.Destination.{
  is_empty, trim, invalid_entry, CanonicalDestination, canonical_destination, normalize_entry,
  validate_entry_id, normalize_required, normalize_optional, entry_id, parsed_destination,
  is_network, max_address_bytes, max_display_name_chars, max_destination_label_chars,
  max_note_chars,
}
use xelis_wallet_flutter.AddressBook.Codec.{encode_entry, decode_entry}
use xelis_wallet_flutter.AddressBook.Trimmed.{normalize_required-again, normalize_optional-again}

-- What the address book relies on: an address that is printed is read back, and its text has no
-- space around it and is no longer than one that it was read from; a hash in hexadecimal is 64
-- digits in lower case.
pub record AddressLaws {H Address : Type 0} (formats : AddressFormats H Address) : Type 0 where
  pub reparse : (a : Address) → formats.from_string (formats.to_string a) ≡ some a
  pub trimmed : (a : Address) → trim (formats.to_string a) ≡ formats.to_string a
  pub nonempty : (a : Address) → is_empty (formats.to_string a) ≡ false
  pub no_longer :
      (s : String) (a : Address)
      → formats.from_string s ≡ some a
      → len (formats.to_string a) ≤ len s
  pub hexadecimal : (parts : List String) → validate_entry_id (formats.hash_multiple parts) ≡ ok tt

module _ {H Address : Type 0} (formats : AddressFormats H Address)
    (laws : AddressLaws formats) where
  canonical_destination-printed :
      (parsed : Address) (mainnet : Bool)
      → is_network formats mainnet parsed ≡ true
      → len (formats.to_string parsed) ≤ max_address_bytes
      → canonical_destination formats (formats.to_string parsed) mainnet
        ≡ ok (parsed_destination formats parsed)
  unfolding canonical_destination
  canonical_destination-printed parsed mainnet belongs short =
      rw (laws.trimmed parsed, laws.nonempty parsed, is_short, laws.reparse parsed, belongs) refl
    where
      is_short : ltb max_address_bytes (len (formats.to_string parsed)) ≡ false
      is_short = ground (arith, short)

  canonical_destination-again :
      (address : String) (mainnet : Bool) {d : CanonicalDestination H}
      → canonical_destination formats address mainnet ≡ ok d
      → canonical_destination formats d.address mainnet ≡ ok d
  unfolding canonical_destination
  canonical_destination-again address mainnet h =
      let invalid = invalid_entry "ADDRESS_BOOK_ADDRESS_INVALID" in
      let (u, fits, rest) =
        >>=-eq-ok
          (refuse_if (is_empty (trim address) || ltb max_address_bytes (len (trim address)))
            invalid)
          _ h in
      let (parsed, read, rest') =
        >>=-eq-ok (ok_or (formats.from_string (trim address)) invalid) _ rest in
      let (v, belongs, done) =
        >>=-eq-ok
          (refuse_if (not (is_network formats mainnet parsed))
            (wallet_flutter_error network_mismatch "ADDRESS_BOOK_ADDRESS_NETWORK_MISMATCH"))
          _ rest' in
      let short = laws.no_longer (trim address) parsed (ok_or-eq-ok _ invalid read) in
      let printed =
        canonical_destination-printed parsed mainnet (ground arith) (ground (arith, short)) in
      subst (λ d. canonical_destination formats d.address mainnet ≡ ok d) (ok-inj done) printed

  pub normalize_entry-again :
      (address name : String) (label note : Option String) (mainnet : Bool)
      {e : NativeAddressBookEntry}
      → normalize_entry formats address name label note mainnet ≡ ok e
      → (normalize_entry formats e.destination.address e.display_name e.destination_label e.note
            mainnet
          ≡ ok e)
        × (e.id ≡ entry_id formats e.destination.address)
  unfolding normalize_entry
  normalize_entry-again address name label note mainnet h =
      let (d, at, rest) = >>=-eq-ok (canonical_destination formats address mainnet) _ h in
      let (name', named, rest') =
        >>=-eq-ok
          (normalize_required name max_display_name_chars "ADDRESS_BOOK_DISPLAY_NAME_INVALID") _
          rest in
      let (label', labelled, rest'') =
        >>=-eq-ok
          (normalize_optional label max_destination_label_chars
            "ADDRESS_BOOK_DESTINATION_LABEL_INVALID")
          _ rest' in
      let (note', noted, done) =
        >>=-eq-ok (normalize_optional note max_note_chars "ADDRESS_BOOK_NOTE_INVALID") _ rest'' in
      subst
        (λ e.
          (normalize_entry formats e.destination.address e.display_name e.destination_label e.note
              mainnet
            ≡ ok e)
          × (e.id ≡ entry_id formats e.destination.address))
        (ok-inj done)
        (
          rw
              (
                canonical_destination-again address mainnet at,
                normalize_required-again name _ _ "ADDRESS_BOOK_DISPLAY_NAME_INVALID" named,
                normalize_optional-again label _ _ "ADDRESS_BOOK_DESTINATION_LABEL_INVALID"
                    labelled,
                normalize_optional-again note _ _ "ADDRESS_BOOK_NOTE_INVALID" noted,
              )
              refl,
          refl,
        )

  decoded :
      (key id name : String) (label note : Option String) (d : NativeSavedDestination)
      (mainnet : Bool)
      → decode_entry formats key
          (encode_entry {H = H} (record {
            id = id;
            display_name = name;
            destination_label = label;
            note = note;
            destination = d;
          }))
          mainnet
        ≡ (do
          normalized ← normalize_entry formats d.address name label note mainnet
          refuse_if
              (not (id == key) || not (normalized.id == key))
              (wallet_flutter_error serialization "ADDRESS_BOOK_ENTRY_ID_MISMATCH")
          ok normalized)
  unfolding decode_entry encode_entry
  decoded key id name none none d mainnet = refl
  decoded key id name none (some n) d mainnet = refl
  decoded key id name (some l) none d mainnet = refl
  decoded key id name (some l) (some n) d mainnet = refl

  -- An entry that the program normalized decodes, from what it is encoded as and under its own
  -- identifier, to itself, if addresses print and parse as `AddressLaws` says.
  pub decode_entry-encode_entry :
      (address display_name : String) (destination_label note : Option String) (mainnet : Bool)
      {entry : NativeAddressBookEntry}
      → normalize_entry formats address display_name destination_label note mainnet ≡ ok entry
      → decode_entry formats entry.id (encode_entry entry) mainnet ≡ ok entry
  decode_entry-encode_entry address display_name destination_label note mainnet {entry} h =
      let (again, named) =
        normalize_entry-again address display_name destination_label note mainnet h in
      rw
        (
          decoded entry.id entry.id entry.display_name entry.destination_label entry.note
              entry.destination mainnet,
          again,
          eq_refl entry.id,
        )
        refl
