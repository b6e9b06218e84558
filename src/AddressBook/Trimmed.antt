-- ===== src/AddressBook/Trimmed.antt =====
-- `str::trim` and the normalized fields: to trim or normalize again changes nothing.
use Prim.Native.String.{String}
use xelis_wallet_flutter.Base.{ℕ, ◌≡◌, refl, Option, none, some, arith}
use xelis_wallet_flutter.Base.Results.{ok}
use xelis_wallet_flutter.AddressBook.Destination.{
  trim_start, trim_end, trim, normalize_required, normalize_optional,
}

trim_end_idem : (s : String) → trim_end (trim_end s) ≡ trim_end s
unfolding trim_end
trim_end_idem String.[] = refl
trim_end_idem (String.◌∷◌ c s) = ground (arith, trim_end_idem s)

trim_start-kept : (s : String) → trim_start (trim_end (trim_start s)) ≡ trim_end (trim_start s)
unfolding trim_start trim_end
trim_start-kept String.[] = refl
trim_start-kept (String.◌∷◌ c s) = ground (arith, trim_start-kept s)

pub trim_idem : (s : String) → trim (trim s) ≡ trim s
unfolding trim
trim_idem s = rw (trim_start-kept s, trim_end_idem (trim_start s)) refl

pub normalize_required-again :
    (value : String) (max_chars : ℕ) (kind kind' : String) {normal : String}
    → normalize_required value max_chars kind ≡ ok normal
    → normalize_required normal max_chars kind' ≡ ok normal
normalize_required-again value max_chars kind kind' h = ground (arith, trim_idem value)

pub normalize_optional-again :
    (value : Option String) (max_chars : ℕ) (kind kind' : String) {normal : Option String}
    → normalize_optional value max_chars kind ≡ ok normal
    → normalize_optional normal max_chars kind' ≡ ok normal
normalize_optional-again none max_chars kind kind' h = ground arith
normalize_optional-again (some value) max_chars kind kind' h = ground (arith, trim_idem value)
