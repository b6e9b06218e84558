-- ===== src/AddressBook/Book.antt =====
-- rust/src/api/address_book_v2.rs: the operations of the address book. Each migrates first; between
-- the two parts of one, no other task changes the storage.
use xelis_wallet_flutter.Base.{
  ℕ, take, drop, Bool, false, ◌||◌, not, Option, none, some, List, String, leb, ltb, nat_beq,
  length, keep_if,
}
use Prim.Native.String.{find, len}
use xelis_wallet_flutter.Base.Results.{Result, ok, ◌>>=◌, ◌>>◌, refuse_if, and_then}
use xelis_wallet_flutter.Base.Words.{checked_add}
use xelis_wallet_flutter.Errors.{NativeXelisError, wallet_flutter_error, not_found}
use xelis_wallet_flutter.Errors.Foreign.{Kinds}
use xelis_wallet_flutter.AddressBook.{
  AddressFormats, EncryptedStorage, NativeAddressBookEntry, NativeAddressBookMatch,
}
use xelis_wallet_flutter.AddressBook.Destination.{
  canonical_destination, normalize_entry, normalize_optional, validate_entry_id, invalid_entry,
}
use xelis_wallet_flutter.AddressBook.Codec.{encode_entry, decode_entry}
use xelis_wallet_flutter.AddressBook.Storage.{
  address_book_v2_tree, entry_key, or_storage_error, set_data, counted, read_v2_entries,
}
use xelis_wallet_flutter.AddressBook.Migration.{migrate_address_book_v2}
use xelis_wallet_flutter.AddressBook.Matches.{match_destination}

abbrev pub max_query_chars : ℕ
max_query_chars = 256

abbrev pub max_page_size : ℕ
max_page_size = 500

pub record NativeAddressBookPage : Type 0 where
  pub entries : List NativeAddressBookEntry
  pub total : ℕ
  pub has_more : Bool

abbrev pub not_found_entry : NativeXelisError
not_found_entry = wallet_flutter_error not_found "ADDRESS_BOOK_ENTRY_NOT_FOUND"

abbrev pub is_bad_page_size : Option ℕ → Bool
is_bad_page_size none = false
is_bad_page_size (some n) = nat_beq n 0 || ltb max_page_size n

-- `str::contains`: `find` is past the end where nothing is found.
abbrev pub contains : String → String → Bool
contains s query = leb (find s query) (len s)

abbrev pub some_contains : (String → String) → Option String → String → Bool
some_contains to_lowercase none query = false
some_contains to_lowercase (some s) query = contains (to_lowercase s) query

abbrev pub lowercase_query : (String → String) → Option String → Option String
lowercase_query to_lowercase none = none
lowercase_query to_lowercase (some query) = some (to_lowercase query)

abbrev pub take_some : Option ℕ → List NativeAddressBookEntry → List NativeAddressBookEntry
take_some none es = es
take_some (some n) es = take n es

module _ {S H Address : Type 0} (formats : AddressFormats H Address) (kinds : Kinds)
    (storage : EncryptedStorage S H)
    (hash_order : List NativeAddressBookEntry → List NativeAddressBookEntry) (mainnet : Bool) where
  open storage use {has_custom_data, get_custom_data, delete_custom_data}
  open formats use {to_lowercase}

  -- The rest of an operation, after `self.migrate_address_book_v2().await?`.
  abbrev pub migrated :
      {A : Type 0} → S → (S → S × Result NativeXelisError A) → S × Result NativeXelisError A
  migrated s rest =
      and_then (migrate_address_book_v2 formats kinds storage hash_order mainnet s)
        λ s result. rest s

  abbrev pub write_upserted :
      S → NativeAddressBookEntry → S × Result NativeXelisError NativeAddressBookEntry
  write_upserted s entry =
      and_then
        (set_data formats kinds storage hash_order "ADDRESS_BOOK_ENTRY_WRITE_FAILED" s
          (entry_key entry.id) (encode_entry entry))
        λ s written. (s, ok entry)

  unfoldable pub upsert_address_book_entry_v2 :
      String
      → String
      → Option String
      → Option String
      → S
      → S × Result NativeXelisError NativeAddressBookEntry
  unfolding migrate_address_book_v2 normalize_entry encode_entry
  upsert_address_book_entry_v2 address display_name destination_label note s = migrated s λ s.
      and_then (s, normalize_entry formats address display_name destination_label note mainnet)
        write_upserted

  -- The checks that `remove` and `find` start with.
  abbrev pub ensure_present : String → S → Result NativeXelisError (Unit {0})
  ensure_present entry_id s = do
    validate_entry_id entry_id
    present ←
        or_storage_error formats kinds storage hash_order "ADDRESS_BOOK_ENTRY_READ_FAILED"
          (has_custom_data s address_book_v2_tree (entry_key entry_id))
    refuse_if (not present) not_found_entry

  abbrev pub delete_entry : String → S → S × Result NativeXelisError (Unit {0})
  delete_entry entry_id s =
      let (next, result) = delete_custom_data s address_book_v2_tree (entry_key entry_id) in
      (
        next,
        or_storage_error formats kinds storage hash_order "ADDRESS_BOOK_ENTRY_DELETE_FAILED" result,
      )

  unfoldable pub remove_address_book_entry_v2 : String → S → S × Result NativeXelisError (Unit {0})
  unfolding migrate_address_book_v2 validate_entry_id
  remove_address_book_entry_v2 entry_id s =
      migrated s λ s. and_then (s, ensure_present entry_id s) λ s present. delete_entry entry_id s

  abbrev pub read_found : String → S → Result NativeXelisError NativeAddressBookEntry
  read_found entry_id s = do
    ensure_present entry_id s
    stored ←
        or_storage_error formats kinds storage hash_order "ADDRESS_BOOK_ENTRY_READ_FAILED"
          (get_custom_data s address_book_v2_tree (entry_key entry_id))
    decode_entry formats entry_id stored mainnet

  unfoldable pub find_address_book_entry_v2 :
      String → S → S × Result NativeXelisError NativeAddressBookEntry
  unfolding migrate_address_book_v2 validate_entry_id decode_entry
  find_address_book_entry_v2 entry_id s = migrated s λ s. (s, read_found entry_id s)

  abbrev pub matched_address : String → S → Result NativeXelisError NativeAddressBookMatch
  matched_address address s = do
    destination ← canonical_destination formats address mainnet
    entries ← read_v2_entries formats kinds storage hash_order s mainnet
    ok (match_destination entries destination)

  unfoldable pub match_address_book_address_v2 :
      String → S → S × Result NativeXelisError NativeAddressBookMatch
  unfolding migrate_address_book_v2 canonical_destination read_v2_entries match_destination
  match_address_book_address_v2 address s = migrated s λ s. (s, matched_address address s)

  abbrev pub matches_query : String → NativeAddressBookEntry → Bool
  matches_query query entry =
      contains (to_lowercase entry.display_name) query
      || some_contains to_lowercase entry.destination_label query
      || contains (to_lowercase entry.destination.address) query

  abbrev pub retain_query :
      Option String → List NativeAddressBookEntry → List NativeAddressBookEntry
  retain_query none entries = entries
  retain_query (some query) entries = keep_if (matches_query query) entries

  -- `usize_max` is the largest `usize` of the target. (The page is never as long as a `u32`
  -- overflows: its list has at most `total` entries.)
  abbrev pub page_of : ℕ → ℕ → Option ℕ → List NativeAddressBookEntry → ℕ → NativeAddressBookPage
  page_of usize_max skip take entries total =
      let page = take_some take (drop skip entries) in
      record {
        entries = page;
        total = total;
        has_more = is_before (checked_add usize_max skip (length page)) total;
      }
    where
      is_before : Option ℕ → ℕ → Bool
      is_before none total = false
      is_before (some n) total = ltb n total

  abbrev pub listed :
      ℕ → Option String → ℕ → Option ℕ → S → Result NativeXelisError NativeAddressBookPage
  listed usize_max query skip take s = do
    refuse_if (is_bad_page_size take) (invalid_entry "ADDRESS_BOOK_PAGE_SIZE_INVALID")
    query' ← normalize_optional query max_query_chars "ADDRESS_BOOK_QUERY_INVALID"
    entries ← read_v2_entries formats kinds storage hash_order s mainnet
    total ←
        counted formats kinds storage hash_order
          (length (retain_query (lowercase_query to_lowercase query') entries))
    refuse_if (ltb usize_max skip) (invalid_entry "ADDRESS_BOOK_PAGE_OFFSET_INVALID")
    ok (
        page_of usize_max skip take (retain_query (lowercase_query to_lowercase query') entries)
          total)

  unfoldable pub list_address_book_entries_v2 :
      ℕ → Option String → ℕ → Option ℕ → S → S × Result NativeXelisError NativeAddressBookPage
  unfolding migrate_address_book_v2 read_v2_entries
  list_address_book_entries_v2 usize_max query skip take s =
      migrated s λ s. (s, listed usize_max query skip take s)
