-- ===== src/AddressBook/Kept.antt =====
-- What the address book keeps from one operation to the next, over a storage that keeps what is
-- written to it.
use Prim.Native.String.{String, ◌++◌}
use xelis_wallet_flutter.Base.{
  ℕ, ◌≡◌, refl, ap, subst, ◌∙◌, Bool, true, false, Option, List, string_eq,
}
use xelis_wallet_flutter.Base.Results.{
  ok, err, and_then-eq-ok, >>=-eq-ok, map_err-eq-ok_pair, ok-inj,
}
use xelis_wallet_flutter.Errors.Foreign.{Kinds}
use xelis_wallet_flutter.Errors.Convert.{from_wallet_storage_operation}
use xelis_wallet_flutter.AddressBook.{
  DataElement, AddressFormats, EncryptedStorage, NativeAddressBookEntry,
  NativeAddressBookMigrationResult,
}
use xelis_wallet_flutter.AddressBook.Destination.{normalize_entry, validate_entry_id}
use xelis_wallet_flutter.AddressBook.Codec.{encode_entry, decode_entry}
use xelis_wallet_flutter.AddressBook.Storage.{
  address_book_v2_tree, entry_key_prefix, entry_key, set_data,
}
use xelis_wallet_flutter.AddressBook.Migration.{migrate_address_book_v2}
use xelis_wallet_flutter.AddressBook.Book.{
  upsert_address_book_entry_v2, remove_address_book_entry_v2, find_address_book_entry_v2,
  not_found_entry, write_upserted, ensure_present,
}
use xelis_wallet_flutter.AddressBook.RoundTrip.{
  AddressLaws, decode_entry-encode_entry, normalize_entry-again,
}
use xelis_wallet_flutter.AddressBook.Marker.{
  StorageLaws, migrate, Migrated, Migrated-migrate, set_data-ok, migrate-Migrated, set-Migrated,
  delete-Migrated,
}

module _ {S H Address : Type 0} (formats : AddressFormats H Address) (kinds : Kinds)
    (storage : EncryptedStorage S H) (laws : StorageLaws storage)
    (hash_order : List NativeAddressBookEntry → List NativeAddressBookEntry) (mainnet : Bool) where
  open storage use {has_custom_data, get_custom_data, set_custom_data, delete_custom_data}

  -- Over a storage that behaves as `StorageLaws` says, a migration that succeeds is not done again:
  -- the next one changes nothing and reports the same count as complete.
  pub migrate-again :
      (s next : S) {r : NativeAddressBookMigrationResult}
      → migrate_address_book_v2 formats kinds storage hash_order mainnet s ≡ (next, ok r)
      → migrate_address_book_v2 formats kinds storage hash_order mainnet next
        ≡ (next, ok (record { migrated_entries = r.migrated_entries; already_complete = true }))
  migrate-again s next {r} h =
      Migrated-migrate formats kinds storage laws hash_order mainnet r.migrated_entries next
        (migrate-Migrated formats kinds storage laws hash_order mainnet s next h)

  find-present :
      (n : ℕ) (s : S) (id : String) (v : DataElement H)
      → Migrated formats kinds storage laws hash_order mainnet n s
      → validate_entry_id id ≡ ok tt
      → has_custom_data s address_book_v2_tree (entry_key id) ≡ ok true
      → get_custom_data s address_book_v2_tree (entry_key id) ≡ ok v
      → find_address_book_entry_v2 formats kinds storage hash_order mainnet id s
        ≡ (s, decode_entry formats id v mainnet)
  unfolding find_address_book_entry_v2
  find-present n s id v m valid has get =
      rw (Migrated-migrate formats kinds storage laws hash_order mainnet n s m, valid, has, get)
        refl

  -- An entry that was saved is found under its identifier as it was returned, and to find it changes
  -- nothing, if addresses, hashes and the storage behave as `AddressLaws` and `StorageLaws` say.
  pub upsert-find :
      (address_laws : AddressLaws formats) (address display_name : String)
      (destination_label comment : Option String) (s next : S) {entry : NativeAddressBookEntry}
      → upsert_address_book_entry_v2 formats kinds storage hash_order mainnet address display_name
          destination_label comment s
        ≡ (next, ok entry)
      → find_address_book_entry_v2 formats kinds storage hash_order mainnet entry.id next
        ≡ (next, ok entry)
  unfolding upsert_address_book_entry_v2
  upsert-find address_laws address display_name label comment s next {entry} h =
      let (s', r, migrates, rest) =
        and_then-eq-ok (migrate formats kinds storage laws hash_order mainnet s) _ h in
      let (s'', e, normal, rest') =
        and_then-eq-ok (s', normalize_entry formats address display_name label comment mainnet)
          (write_upserted formats kinds storage hash_order mainnet) rest in
      let (last, u, sets, done) =
        and_then-eq-ok
          (set_data formats kinds storage hash_order "ADDRESS_BOOK_ENTRY_WRITE_FAILED" s''
            (entry_key e.id) (encode_entry e))
          _ rest' in
      let stored =
        set_data-ok formats kinds storage laws hash_order mainnet _ s'' last (entry_key e.id)
          (encode_entry e) sets in
      let normal' = ap (λ x. x.1) normal in
      let migrated =
        set-Migrated formats kinds storage laws hash_order mainnet r.migrated_entries s'' last e.id
          (encode_entry e) stored
          (subst (Migrated formats kinds storage laws hash_order mainnet r.migrated_entries)
            (ap (λ x. x.0) normal)
            (migrate-Migrated formats kinds storage laws hash_order mainnet s s' migrates)) in
      let (again, named) =
        normalize_entry-again formats address_laws address display_name label comment mainnet
          normal' in
      let found =
        find-present r.migrated_entries last e.id (encode_entry e) migrated
          (ap validate_entry_id named ∙ address_laws.hexadecimal _)
          (laws.has-set s'' last address_book_v2_tree (entry_key_prefix ++ e.id) _ stored)
          (laws.get-set s'' last address_book_v2_tree (entry_key_prefix ++ e.id) _ stored) in
      let decoded =
        decode_entry-encode_entry formats address_laws address display_name label comment mainnet
          normal' in
      let found' = found ∙ ap (λ x. (last, x)) decoded in
      subst
        (λ e.
          find_address_book_entry_v2 formats kinds storage hash_order mainnet e.id next
          ≡ (next, ok e))
        (ok-inj (ap (λ x. x.1) done))
        (subst
          (λ s.
            find_address_book_entry_v2 formats kinds storage hash_order mainnet e.id s ≡ (s, ok e))
          (ap (λ x. x.0) done) found')

  find-absent :
      (n : ℕ) (s : S) (id : String)
      → Migrated formats kinds storage laws hash_order mainnet n s
      → validate_entry_id id ≡ ok tt
      → has_custom_data s address_book_v2_tree (entry_key id) ≡ ok false
      → find_address_book_entry_v2 formats kinds storage hash_order mainnet id s
        ≡ (s, err not_found_entry)
  unfolding find_address_book_entry_v2
  find-absent n s id m valid has =
      rw (Migrated-migrate formats kinds storage laws hash_order mainnet n s m, valid, has) refl

  -- Over a storage that behaves as `StorageLaws` says, an entry that was removed is not found any more,
  -- nor removed again: both fail with the same error and change nothing.
  pub remove-find :
      (id : String) (s next : S)
      → remove_address_book_entry_v2 formats kinds storage hash_order mainnet id s ≡ (next, ok tt)
      → (find_address_book_entry_v2 formats kinds storage hash_order mainnet id next
          ≡ (next, err not_found_entry))
        × (remove_address_book_entry_v2 formats kinds storage hash_order mainnet id next
            ≡ (next, err not_found_entry))
  unfolding remove_address_book_entry_v2
  remove-find id s next h =
      let (s', r, migrates, rest) =
        and_then-eq-ok (migrate formats kinds storage laws hash_order mainnet s) _ h in
      let (s'', u, present, deletes) =
        and_then-eq-ok (s', ensure_present formats kinds storage hash_order mainnet id s') _ rest in
      let (v, valid, rest') = >>=-eq-ok (validate_entry_id id) _ (ap (λ x. x.1) present) in
      let deleted =
        map_err-eq-ok_pair
          (λ e. from_wallet_storage_operation kinds e "ADDRESS_BOOK_ENTRY_DELETE_FAILED")
          (delete_custom_data s'' address_book_v2_tree (entry_key id)) deletes in
      let migrated =
        delete-Migrated formats kinds storage laws hash_order mainnet r.migrated_entries s'' next id
          deleted
          (subst (Migrated formats kinds storage laws hash_order mainnet r.migrated_entries)
            (ap (λ x. x.0) present)
            (migrate-Migrated formats kinds storage laws hash_order mainnet s s' migrates)) in
      let has = laws.has-delete s'' next address_book_v2_tree (entry_key_prefix ++ id) deleted in
      (
        find-absent r.migrated_entries next id migrated valid has,
        rw
            (
              Migrated-migrate formats kinds storage laws hash_order mainnet r.migrated_entries next
                  migrated,
              valid,
              has,
            )
            refl,
      )
