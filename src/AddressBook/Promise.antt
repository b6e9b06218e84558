-- ===== src/AddressBook/Promise.antt =====
-- What a match against the saved entries promises, for each of its kinds.
use mathlib.Core.List.{Mem}
use xelis_wallet_flutter.Base.{◌≤◌, ◌≡◌, ◌≢◌, List, [], ◌∷◌, string_eq, length, All}
use xelis_wallet_flutter.AddressBook.{
  NativeAddressBookEntry, NativeAddressBookMatchKind, exact, base_only, ambiguous, no_match,
}
use xelis_wallet_flutter.AddressBook.Destination.{CanonicalDestination}

module _ {H : Type 0} (saved : List NativeAddressBookEntry) (d : CanonicalDestination H) where
  abbrev pub Shares : NativeAddressBookEntry → Type 0
  Shares e = Mem e saved × (e.destination.base_address ≡ d.base_address)

  -- No entry is for exactly this destination.
  abbrev pub NoneExact : Type 0
  NoneExact = All (λ e. e.destination.address ≢ d.address) saved

  -- The kinds as the comment on the type of a match describes them.
  abbrev pub Promise : NativeAddressBookMatchKind → List NativeAddressBookEntry → Type 0
  Promise exact es =
      (e : NativeAddressBookEntry) × (es ≡ e ∷ [])
      × Mem e saved
      × (e.destination.address ≡ d.address)
  Promise base_only es = (e : NativeAddressBookEntry) × (es ≡ e ∷ []) × Shares e × NoneExact
  Promise ambiguous es = (2 ≤ length es) × All Shares es × NoneExact
  Promise no_match es =
      (es ≡ []) × All (λ e. e.destination.base_address ≢ d.base_address) saved × NoneExact
