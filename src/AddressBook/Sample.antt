-- ===== src/AddressBook/Sample.antt =====
-- A small network of two addresses and a storage in memory, for the examples.
use Prim.Native.String.{String, len}
use xelis_wallet_flutter.Base.{
  ℕ, ◌≡◌, refl, ap, subst, Bool, true, false, ◌&&◌, Option, none, some, List, [], ◌∷◌, ◌==◌,
  string_eq, eq_refl, Bool-cases, inl, inr, arith, if◌then◌else◌,
}
use text.Mathlib.TextEquality.{eq_iff}
use xelis_wallet_flutter.Base.Results.{Result, ok, err, ok_or}
use xelis_wallet_flutter.Errors.Foreign.{AnyhowError, untyped}
use xelis_wallet_flutter.AddressBook.{DataValue, DataElement, AddressFormats, EncryptedStorage}
use xelis_wallet_flutter.AddressBook.Destination.{trim, is_empty, validate_entry_id}
use xelis_wallet_flutter.AddressBook.RoundTrip.{AddressLaws}
use xelis_wallet_flutter.AddressBook.Marker.{StorageLaws}

pub data SampleAddress : Type 0 where
  home tagged : SampleAddress

abbrev pub sample_text : SampleAddress → String
sample_text home = "xel:home"
sample_text tagged = "xel:tagged"

abbrev pub sample_read : String → Option SampleAddress
sample_read s =
    if s == "xel:home" then some home else if s == "xel:tagged" then some tagged else none

abbrev pub sample_extract : SampleAddress → Option (DataElement ℕ) × SampleAddress
sample_extract home = (none, home)
sample_extract tagged = (some (DataElement.value (DataValue.long 42)), home)

abbrev pub home_id : String
home_id = "00112233445566778899aabbccddeeff00112233445566778899aabbccddeeff"

abbrev pub tagged_id : String
tagged_id = "ffeeddccbbaa99887766554433221100ffeeddccbbaa99887766554433221100"

abbrev pub sample_hash : List String → String
sample_hash (domain ∷ address ∷ []) = if address == "xel:home" then home_id else tagged_id
sample_hash _ = home_id

abbrev pub sample_formats : AddressFormats ℕ SampleAddress
sample_formats = record {
  from_string = sample_read;
  to_string = sample_text;
  is_mainnet = λ a. true;
  extract_data = sample_extract;
  hash_multiple = sample_hash;
  to_lowercase = λ s. s;
}

valid_home : validate_entry_id home_id ≡ ok tt
unfolding validate_entry_id
valid_home = refl

valid_tagged : validate_entry_id tagged_id ≡ ok tt
unfolding validate_entry_id
valid_tagged = refl

valid_hash : (parts : List String) → validate_entry_id (sample_hash parts) ≡ ok tt
valid_hash (domain ∷ address ∷ []) = elim (Bool-cases (address == "xel:home")) [
  | inl h ↦ rw (h) valid_home
  | inr h ↦ rw (h) valid_tagged
]
valid_hash _ = valid_home

read_back : (s : String) (a : SampleAddress) → sample_read s ≡ some a → s ≡ sample_text a
read_back s home h = ground (arith, eq_iff s "xel:home", eq_iff s "xel:tagged")
read_back s tagged h = ground (arith, eq_iff s "xel:home", eq_iff s "xel:tagged")

sample_reparse : (a : SampleAddress) → sample_read (sample_text a) ≡ some a
sample_reparse home = refl
sample_reparse tagged = refl

sample_trimmed : (a : SampleAddress) → trim (sample_text a) ≡ sample_text a
unfolding trim
sample_trimmed home = refl
sample_trimmed tagged = refl

sample_nonempty : (a : SampleAddress) → is_empty (sample_text a) ≡ false
sample_nonempty home = refl
sample_nonempty tagged = refl

pub sample_laws : AddressLaws sample_formats
sample_laws = record {
  reparse = sample_reparse;
  trimmed = sample_trimmed;
  nonempty = sample_nonempty;
  no_longer = λ s a h. ground (arith, ap len (read_back s a h));
  hexadecimal = valid_hash;
}

abbrev pub Rows : Type 0
Rows = List ((String × String) × DataElement ℕ)

abbrev same_row : String → String → String × String → Bool
same_row tree key row = row.0 == tree && row.1 == key

unfoldable look_up : String → String → Rows → Option (DataElement ℕ)
look_up tree key [] = none
look_up tree key ((place, v) ∷ rows) =
    let rest = look_up tree key rows in if same_row tree key place then some v else rest

unfoldable delete_row : String → String → Rows → Rows
delete_row tree key [] = []
delete_row tree key ((place, v) ∷ rows) =
    let rest = delete_row tree key rows in
    if same_row tree key place then rest else (place, v) ∷ rest

unfoldable tree_rows : String → Rows → List (DataValue ℕ × DataElement ℕ)
tree_rows tree [] = []
tree_rows tree ((place, v) ∷ rows) =
    let rest = tree_rows tree rows in
    if place.0 == tree then (DataValue.text place.1, v) ∷ rest else rest

abbrev is_there : Option (DataElement ℕ) → Bool
is_there none = false
is_there (some v) = true

unfoldable sample_has : Rows → String → DataValue ℕ → Result AnyhowError Bool
unfolding look_up
sample_has s tree (DataValue.text key) = ok (is_there (look_up tree key s))
sample_has s tree _ = ok false

unfoldable sample_get : Rows → String → DataValue ℕ → Result AnyhowError (DataElement ℕ)
unfolding look_up
sample_get s tree (DataValue.text key) = ok_or (look_up tree key s) untyped
sample_get s tree _ = err untyped

unfoldable sample_set :
    Rows → String → DataValue ℕ → DataElement ℕ → Rows × Result AnyhowError (Unit {0})
sample_set s tree (DataValue.text key) v = (((tree, key), v) ∷ s, ok tt)
sample_set s tree _ v = (s, err untyped)

unfoldable sample_delete : Rows → String → DataValue ℕ → Rows × Result AnyhowError (Unit {0})
unfolding delete_row
sample_delete s tree (DataValue.text key) = (delete_row tree key s, ok tt)
sample_delete s tree _ = (s, err untyped)

unfoldable pub sample_storage : EncryptedStorage Rows ℕ
unfolding sample_has sample_get sample_set sample_delete tree_rows
sample_storage = record {
  has_custom_data = sample_has;
  get_custom_data = sample_get;
  set_custom_data = sample_set;
  delete_custom_data = sample_delete;
  query_db = λ s tree. ok (tree_rows tree s);
}

same_row-other :
    (tree key other : String) (place : String × String)
    → (key == other) ≡ false
    → same_row tree key place ≡ true
    → same_row tree other place ≡ false
same_row-other tree key other (t, k) h same =
    ground (arith, eq_iff t tree, eq_iff k key, eq_iff k other, eq_iff key other)

look_up-deleted :
    (tree key : String) (rows : Rows) → look_up tree key (delete_row tree key rows) ≡ none
unfolding look_up delete_row
look_up-deleted tree key [] = refl
look_up-deleted tree key ((place, v) ∷ rows) = ground (arith, look_up-deleted tree key rows)

look_up-delete_other :
    (tree key other : String) (rows : Rows)
    → (key == other) ≡ false
    → look_up tree other (delete_row tree key rows) ≡ look_up tree other rows
unfolding look_up delete_row
look_up-delete_other tree key other [] h = refl
look_up-delete_other tree key other ((place, v) ∷ rows) h =
    ground
      (arith, look_up-delete_other tree key other rows h, same_row-other tree key other place h)

look_up-set :
    (tree key : String) (v : DataElement ℕ) (s : Rows)
    → look_up tree key (((tree, key), v) ∷ s) ≡ some v
unfolding look_up
look_up-set tree key v s = rw (eq_refl tree, eq_refl key) refl

look_up-set_other :
    (tree key other : String) (v : DataElement ℕ) (s : Rows)
    → (key == other) ≡ false
    → look_up tree other (((tree, key), v) ∷ s) ≡ look_up tree other s
unfolding look_up
look_up-set_other tree key other v s h = rw (eq_refl tree, h) refl

-- What `has` and `get` answer after a write that left `changed`.
seen :
    (tree key : String) (o : Option (DataElement ℕ)) (changed next : Rows)
    {r r' : Result AnyhowError (Unit {0})}
    → look_up tree key changed ≡ o
    → ◌≡◌ {A = Rows × Result AnyhowError (Unit {0})} (changed, r) (next, r')
    → (sample_has next tree (DataValue.text key) ≡ ok (is_there o))
      × (sample_get next tree (DataValue.text key) ≡ ok_or o untyped)
unfolding sample_has sample_get
seen tree key o changed next found h =
    let found' = subst (λ x. look_up tree key x ≡ o) (ap (λ x. x.0) h) found in
    (rw (found') refl, rw (found') refl)

pub sample_storage_laws : StorageLaws sample_storage
unfolding sample_storage
sample_storage_laws = record {
  has-set = λ s next tree key v h. (seen tree key (some v) _ next (look_up-set tree key v s) h).0;
  get-set = λ s next tree key v h. (seen tree key (some v) _ next (look_up-set tree key v s) h).1;
  set-other = λ s next tree key other v h k.
      seen tree other (look_up tree other s) _ next (look_up-set_other tree key other v s k) h;
  has-delete = λ s next tree key h. (seen tree key none _ next (look_up-deleted tree key s) h).0;
  delete-other = λ s next tree key other h k.
      seen tree other (look_up tree other s) _ next (look_up-delete_other tree key other s k) h;
}
