-- ===== src/AddressBook/Matches.antt =====
-- rust/src/api/address_book_v2.rs: `match_destination`, an address against the saved entries.
use xelis_wallet_flutter.Base.{
  Bool, Option, none, some, List, [], ◌∷◌, String, ◌==◌, string_eq, keep_if, if◌then◌else◌,
}
use xelis_wallet_flutter.AddressBook.{
  NativeAddressBookEntry, NativeAddressBookMatchKind, NativeAddressBookMatch, exact, base_only,
  ambiguous, no_match,
}
use xelis_wallet_flutter.AddressBook.Destination.{CanonicalDestination}

abbrev pub has_address : String → NativeAddressBookEntry → Bool
has_address address entry = entry.destination.address == address

abbrev pub has_base : String → NativeAddressBookEntry → Bool
has_base base_address entry = entry.destination.base_address == base_address

-- `iter().find(..)`.
abbrev pub find :
    (NativeAddressBookEntry → Bool) → List NativeAddressBookEntry → Option NativeAddressBookEntry
find test [] = none
find test (e ∷ es) = let rest = find test es in if test e then some e else rest

abbrev pub base_match_kind : List NativeAddressBookEntry → NativeAddressBookMatchKind
base_match_kind [] = no_match
base_match_kind (e ∷ []) = base_only
base_match_kind (e ∷ f ∷ es) = ambiguous

unfoldable pub match_destination :
    {H : Type 0} → List NativeAddressBookEntry → CanonicalDestination H → NativeAddressBookMatch
match_destination entries destination = elim (find (has_address destination.address) entries) [
  | some entry ↦ record { kind = exact; entries = entry ∷ [] }
  | none ↦
      let base_matches = keep_if (has_base destination.base_address) entries in
      record { kind = base_match_kind base_matches; entries = base_matches }
]
