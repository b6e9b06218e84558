-- ===== src/AddressBook/Marker.antt =====
-- The marker of the migration, over a storage that keeps what is written to it.
use Prim.Native.String.{String, ◌++◌, slice}
use text.Mathlib.TextPositions.{slice-append_left}
use xelis_wallet_flutter.Errors.Convert.{from_wallet_storage_operation}
use xelis_wallet_flutter.Base.{
  ℕ, ◌≡◌, refl, ap, sym, subst, ◌∙◌, Bool, true, false, List, ◌==◌, string_eq, eq→≡, Bool-cases,
  inl, inr, length,
}
use xelis_wallet_flutter.Base.Results.{
  Result, ok, map_err, and_then-eq-ok, >>=-eq-ok, map_err-eq-ok, map_err-eq-ok_pair, ok-inj,
}
use xelis_wallet_flutter.Errors.{NativeXelisError}
use xelis_wallet_flutter.Errors.Foreign.{Kinds}
use xelis_wallet_flutter.AddressBook.{
  DataValue, DataElement, AddressFormats, EncryptedStorage, NativeAddressBookEntry,
  NativeAddressBookMigrationResult,
}
use xelis_wallet_flutter.AddressBook.Codec.{encode_marker, decode_marker}
use xelis_wallet_flutter.AddressBook.Storage.{
  address_book_v2_tree, migration_marker_key, entry_key_prefix, entry_key, counted, set_data,
}
use xelis_wallet_flutter.AddressBook.Migration.{
  already_migrated, migrate_from, legacy_entries, write_entries, write_marker,
  migrate_address_book_v2,
}

module _ {S H : Type 0} (storage : EncryptedStorage S H) where
  open storage use {has_custom_data, get_custom_data, set_custom_data, delete_custom_data}

  -- `EncryptedStorage` at the keys that are strings: a write that succeeds is read back, a deletion
  -- that succeeds is seen, and neither changes what another key of the tree holds.
  pub record StorageLaws : Type 0 where
    pub has-set :
        (s next : S) (tree key : String) (v : DataElement H)
        → set_custom_data s tree (DataValue.text key) v ≡ (next, ok tt)
        → has_custom_data next tree (DataValue.text key) ≡ ok true
    pub get-set :
        (s next : S) (tree key : String) (v : DataElement H)
        → set_custom_data s tree (DataValue.text key) v ≡ (next, ok tt)
        → get_custom_data next tree (DataValue.text key) ≡ ok v
    pub set-other :
        (s next : S) (tree key other : String) (v : DataElement H)
        → set_custom_data s tree (DataValue.text key) v ≡ (next, ok tt)
        → (key == other) ≡ false
        → (has_custom_data next tree (DataValue.text other)
            ≡ has_custom_data s tree (DataValue.text other))
          × (get_custom_data next tree (DataValue.text other)
              ≡ get_custom_data s tree (DataValue.text other))
    pub has-delete :
        (s next : S) (tree key : String)
        → delete_custom_data s tree (DataValue.text key) ≡ (next, ok tt)
        → has_custom_data next tree (DataValue.text key) ≡ ok false
    pub delete-other :
        (s next : S) (tree key other : String)
        → delete_custom_data s tree (DataValue.text key) ≡ (next, ok tt)
        → (key == other) ≡ false
        → (has_custom_data next tree (DataValue.text other)
            ≡ has_custom_data s tree (DataValue.text other))
          × (get_custom_data next tree (DataValue.text other)
              ≡ get_custom_data s tree (DataValue.text other))

entry_key-marker : (id : String) → ((entry_key_prefix ++ id) == migration_marker_key) ≡ false
entry_key-marker id = elim (Bool-cases ((entry_key_prefix ++ id) == migration_marker_key)) [
  | inr h ↦ h
  | inl h ↦ absurd (eq→≡ (entry_key_prefix ++ id) migration_marker_key h)
]
  where
    starts : String → Bool
    starts s = slice s 0 6 == entry_key_prefix

    absurd :
        (entry_key_prefix ++ id) ≡ migration_marker_key
        → ((entry_key_prefix ++ id) == migration_marker_key) ≡ false
    absurd same =
        cc (ap starts same, ap (λ s. s == entry_key_prefix) (slice-append_left entry_key_prefix id))

module _ {S H Address : Type 0} (formats : AddressFormats H Address) (kinds : Kinds)
    (storage : EncryptedStorage S H) (laws : StorageLaws storage)
    (hash_order : List NativeAddressBookEntry → List NativeAddressBookEntry) (mainnet : Bool) where
  open storage use {has_custom_data, get_custom_data, set_custom_data}

  abbrev pub migrate : S → S × Result NativeXelisError NativeAddressBookMigrationResult
  migrate = migrate_address_book_v2 formats kinds storage hash_order mainnet

  -- A storage whose marker says that `n` entries were migrated.
  pub record Migrated (n : ℕ) (s : S) : Type 0 where
    pub stored : DataElement H
    pub present :
        has_custom_data s address_book_v2_tree (DataValue.text migration_marker_key) ≡ ok true
    pub read :
        get_custom_data s address_book_v2_tree (DataValue.text migration_marker_key) ≡ ok stored
    pub counts : decode_marker stored ≡ ok n

  pub Migrated-migrate :
      (n : ℕ) (s : S)
      → Migrated n s
      → migrate s ≡ (s, ok (record { migrated_entries = n; already_complete = true }))
  unfolding migrate_address_book_v2
  Migrated-migrate n s m = rw (m.present, m.read, m.counts) refl

  pub set_data-ok :
      (native_kind : String) (s next : S) (key : DataValue H) (v : DataElement H)
      → set_data formats kinds storage hash_order native_kind s key v ≡ (next, ok tt)
      → set_custom_data s address_book_v2_tree key v ≡ (next, ok tt)
  set_data-ok native_kind s next key v h =
      map_err-eq-ok_pair (λ e. from_wallet_storage_operation kinds e native_kind)
        (set_custom_data s address_book_v2_tree key v) h

  decode_marker-encode_marker : (n : ℕ) → decode_marker {H = H} (encode_marker n) ≡ ok n
  unfolding decode_marker encode_marker
  decode_marker-encode_marker n = refl

  write_marker-Migrated :
      (s next : S) (n : ℕ) {r : NativeAddressBookMigrationResult}
      → write_marker formats kinds storage hash_order s n ≡ (next, ok r)
      → Migrated n next × (r.migrated_entries ≡ n)
  write_marker-Migrated s next n h =
      let (next', u, written, done) =
        and_then-eq-ok
          (set_data formats kinds storage hash_order "ADDRESS_BOOK_MIGRATION_MARKER_WRITE_FAILED" s
            (DataValue.text migration_marker_key) (encode_marker n))
          _ h in
      let stored =
        set_data-ok _ s next' (DataValue.text migration_marker_key) (encode_marker n) written in
      let same = ap (λ x. x.0) done in
      (
        subst (Migrated n) same (record {
          stored = encode_marker n;
          present = laws.has-set s next' address_book_v2_tree migration_marker_key _ stored;
          read = laws.get-set s next' address_book_v2_tree migration_marker_key _ stored;
          counts = decode_marker-encode_marker n;
        }),
        sym (ap (λ r. r.migrated_entries) (ok-inj (ap (λ x. x.1) done))),
      )

  already_migrated-Migrated :
      (s : S) {r : NativeAddressBookMigrationResult}
      → has_custom_data s address_book_v2_tree (DataValue.text migration_marker_key) ≡ ok true
      → already_migrated formats kinds storage hash_order s ≡ ok r
      → Migrated r.migrated_entries s
  already_migrated-Migrated s present h =
      let (stored, read, rest) =
        >>=-eq-ok
          (map_err _ (get_custom_data s address_book_v2_tree (DataValue.text migration_marker_key)))
          _ h in
      let (n, counts, done) = >>=-eq-ok (decode_marker stored) _ rest in
      record {
        stored = stored;
        present = present;
        read = map_err-eq-ok _ _ read;
        counts = counts ∙ ap (λ r. ok r.migrated_entries) (ok-inj done);
      }

  migrate_from-Migrated :
      (s next : S) (present : Bool) {r : NativeAddressBookMigrationResult}
      → has_custom_data s address_book_v2_tree (DataValue.text migration_marker_key) ≡ ok present
      → migrate_from formats kinds storage hash_order mainnet s present ≡ (next, ok r)
      → Migrated r.migrated_entries next
  migrate_from-Migrated s next true {r} present h =
      subst (Migrated r.migrated_entries) (ap (λ x. x.0) h)
        (already_migrated-Migrated s present (ap (λ x. x.1) h))
  migrate_from-Migrated s next false {r} present h =
      let (s', entries, legacy, rest) =
        and_then-eq-ok (s, legacy_entries formats kinds storage hash_order s mainnet) _ h in
      let (s'', u, written, rest') =
        and_then-eq-ok
          (write_entries formats kinds storage hash_order mainnet (hash_order entries) s') _ rest in
      let (last, n, few, marked) =
        and_then-eq-ok (s'', counted formats kinds storage hash_order (length entries)) _ rest' in
      let (migrated, same) = write_marker-Migrated last next n marked in
      subst (λ k. Migrated k next) (sym same) migrated

  pub migrate-Migrated :
      (s next : S) {r : NativeAddressBookMigrationResult}
      → migrate s ≡ (next, ok r)
      → Migrated r.migrated_entries next
  unfolding migrate_address_book_v2
  migrate-Migrated s next h =
      let (s', present, read, rest) =
        and_then-eq-ok
          (
            s,
            map_err _
                (has_custom_data s address_book_v2_tree (DataValue.text migration_marker_key)),
          )
          _ h in
      migrate_from-Migrated s' next present
        (subst
          (λ s.
            has_custom_data s address_book_v2_tree (DataValue.text migration_marker_key)
            ≡ ok present)
          (ap (λ x. x.0) read) (map_err-eq-ok _ _ (ap (λ x. x.1) read)))
        rest

  -- A change of an entry leaves the marker.
  pub set-Migrated :
      (n : ℕ) (s next : S) (id : String) (v : DataElement H)
      → set_custom_data s address_book_v2_tree (entry_key id) v ≡ (next, ok tt)
      → Migrated n s
      → Migrated n next
  set-Migrated n s next id v h m =
      let (has, get) =
        laws.set-other s next address_book_v2_tree (entry_key_prefix ++ id) migration_marker_key v h
          (entry_key-marker id) in
      record {
        stored = m.stored;
        present = has ∙ m.present;
        read = get ∙ m.read;
        counts = m.counts;
      }

  pub delete-Migrated :
      (n : ℕ) (s next : S) (id : String)
      → storage.delete_custom_data s address_book_v2_tree (entry_key id) ≡ (next, ok tt)
      → Migrated n s
      → Migrated n next
  delete-Migrated n s next id h m =
      let (has, get) =
        laws.delete-other s next address_book_v2_tree (entry_key_prefix ++ id) migration_marker_key
          h (entry_key-marker id) in
      record {
        stored = m.stored;
        present = has ∙ m.present;
        read = get ∙ m.read;
        counts = m.counts;
      }
