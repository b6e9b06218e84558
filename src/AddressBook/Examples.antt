-- ===== src/AddressBook/Examples.antt =====
-- Concrete runs of the address book over `Sample`.
use xelis_wallet_flutter.Base.{◌≡◌, refl, true, false, none, some, List, [], ◌∷◌}
use xelis_wallet_flutter.Base.Results.{ok, err}
use xelis_wallet_flutter.Errors.Foreign.{Kinds}
use xelis_wallet_flutter.AddressBook.{
  NativeAddressBookEntry, NativeIntegratedDataKind, integrated, base_only,
}
use xelis_wallet_flutter.AddressBook.Destination.{normalize_entry, parsed_destination}
use xelis_wallet_flutter.AddressBook.Codec.{encode_entry, decode_entry, encode_marker}
use xelis_wallet_flutter.AddressBook.Storage.{address_book_v2_tree, migration_marker_key}
use xelis_wallet_flutter.AddressBook.Migration.{migrate_address_book_v2}
use xelis_wallet_flutter.AddressBook.Book.{
  upsert_address_book_entry_v2, remove_address_book_entry_v2, find_address_book_entry_v2,
  not_found_entry,
}
use xelis_wallet_flutter.AddressBook.Matches.{match_destination}
use xelis_wallet_flutter.AddressBook.Promise.{Promise}
use xelis_wallet_flutter.AddressBook.RoundTrip.{decode_entry-encode_entry}
use xelis_wallet_flutter.AddressBook.Kept.{migrate-again, upsert-find, remove-find}
use xelis_wallet_flutter.AddressBook.Sample.{
  Rows, home, tagged_id, sample_formats, sample_laws, sample_storage, sample_storage_laws,
}

abbrev no_kinds : Kinds
no_kinds = record { wallet_kind = λ e. "WALLET"; rpc_kind = λ e. "RPC" }

abbrev same_order : List NativeAddressBookEntry → List NativeAddressBookEntry
same_order es = es

abbrev exchange : NativeAddressBookEntry
exchange = record {
  id = tagged_id;
  display_name = "Exchange";
  destination_label = some "Deposit 42";
  note = none;
  destination = record {
    address = "xel:tagged";
    base_address = "xel:home";
    kind = integrated;
    integrated_data_kind = some NativeIntegratedDataKind.u64;
  };
}

normal_exchange :
    normalize_entry sample_formats " xel:tagged" " Exchange " (some "Deposit 42") (some "  ") true
    ≡ ok exchange
unfolding normalize_entry
normal_exchange = refl

decode_entry-encode_entry_example :
    decode_entry sample_formats exchange.id (encode_entry exchange) true ≡ ok exchange
decode_entry-encode_entry_example =
    decode_entry-encode_entry sample_formats sample_laws " xel:tagged" " Exchange "
      (some "Deposit 42") (some "  ") true normal_exchange

abbrev marked : Rows
marked = ((address_book_v2_tree, migration_marker_key), encode_marker 0) ∷ []

migrate_empty :
    migrate_address_book_v2 sample_formats no_kinds sample_storage same_order true []
    ≡ (marked, ok (record { migrated_entries = 0; already_complete = false }))
unfolding migrate_address_book_v2 sample_storage
migrate_empty = refl

migrate-again_example :
    migrate_address_book_v2 sample_formats no_kinds sample_storage same_order true marked
    ≡ (marked, ok (record { migrated_entries = 0; already_complete = true }))
migrate-again_example =
    migrate-again sample_formats no_kinds sample_storage sample_storage_laws same_order true []
      marked migrate_empty

abbrev saved_rows : Rows
saved_rows =
    (
      (
        address_book_v2_tree,
        "entry:ffeeddccbbaa99887766554433221100ffeeddccbbaa99887766554433221100",
      ),
      encode_entry exchange,
    )
    ∷ marked

save_exchange :
    upsert_address_book_entry_v2 sample_formats no_kinds sample_storage same_order true
      " xel:tagged" " Exchange "
      (some "Deposit 42")
      (some "  ")
      []
    ≡ (saved_rows, ok exchange)
unfolding upsert_address_book_entry_v2 sample_storage
save_exchange = refl

upsert-find_example :
    find_address_book_entry_v2 sample_formats no_kinds sample_storage same_order true exchange.id
      saved_rows
    ≡ (saved_rows, ok exchange)
upsert-find_example =
    upsert-find sample_formats no_kinds sample_storage sample_storage_laws same_order true
      sample_laws " xel:tagged" " Exchange " (some "Deposit 42") (some "  ") [] saved_rows
      save_exchange

remove_exchange :
    remove_address_book_entry_v2 sample_formats no_kinds sample_storage same_order true tagged_id
      saved_rows
    ≡ (marked, ok tt)
unfolding remove_address_book_entry_v2 sample_storage
remove_exchange = refl

remove-find_example :
    (find_address_book_entry_v2 sample_formats no_kinds sample_storage same_order true tagged_id
        marked
      ≡ (marked, err not_found_entry))
    × (remove_address_book_entry_v2 sample_formats no_kinds sample_storage same_order true tagged_id
          marked
        ≡ (marked, err not_found_entry))
remove-find_example =
    remove-find sample_formats no_kinds sample_storage sample_storage_laws same_order true tagged_id
      saved_rows marked remove_exchange

match_base :
    (match_destination (exchange ∷ []) (parsed_destination sample_formats home)).kind ≡ base_only
unfolding match_destination
match_base = refl
