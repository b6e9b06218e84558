-- ===== src/Xswd/Permissions/Updates.antt =====
-- An update of permissions takes effect as a whole, or not at all.
use xelis_wallet_flutter.Base.{
  ◌⊎◌, ◌≡◌, refl, ap, ◌∙◌, true, false, not, Option, none, some, List, [], ◌∷◌, map, String,
  string_eq, ◌==◌, any, arith, inl, inr, Bool-cases, if◌then◌else◌,
}
use text.Mathlib.TextEquality.{eq_iff}
use text.Mathlib.Text.{starts_with}
use xelis_wallet_flutter.Base.Results.{ok, err}
use xelis_wallet_flutter.Xswd.Dispatcher.{Permission, PermissionPolicy}
use xelis_wallet_flutter.Xswd.Dispatcher.Prepare.{policy_of}
use xelis_wallet_flutter.Xswd.Permissions.{
  permission_from_policy, PermissionUpdateError, prefixed_unsupported, not_found, has_key, get,
  set_value, write_updates, apply_permission_updates,
}

-- No key stands twice.
abbrev pub Unique {ℓ} : {V : Type ℓ} → List (String × V) → Type 0
Unique [] = Unit
Unique ((k, v) ∷ m) = (has_key k m ≡ false) × Unique m

keys-set_value {ℓ} :
    {V : Type ℓ} (k : String) (v : V) (m : List (String × V))
    → map (λ e. e.0) (set_value k v m) ≡ map (λ e. e.0) m
unfolding set_value
keys-set_value k v [] = refl
keys-set_value k v ((j, w) ∷ m) = ground (arith, keys-set_value k v m)

get-set_value :
    (k j : String) (v : Permission) (m : List (String × Permission))
    → has_key k m ≡ true
    → get j (set_value k v m) ≡ (if k == j then some v else get j m)
unfolding set_value
get-set_value k j v [] h = cc
get-set_value k j v ((i, w) ∷ m) h =
    ground (arith, eq_iff k j, eq_iff i k, eq_iff i j, get-set_value k j v m)

has_key-set_value :
    (k j : String) (v : Permission) (m : List (String × Permission))
    → has_key j (set_value k v m) ≡ has_key j m
unfolding set_value
has_key-set_value k j v [] = refl
has_key-set_value k j v ((i, w) ∷ m) = ground (arith, has_key-set_value k j v m)

-- What an update asks for a key.
abbrev pub asked_of : Option PermissionPolicy → Option Permission → Option Permission
asked_of none old = old
asked_of (some policy) old = some (permission_from_policy policy)

missing-set_value :
    (k : String) (v : Permission) (m : List (String × Permission))
    (updates : List (String × PermissionPolicy))
    → any (λ u. not (has_key u.0 m)) updates ≡ false
    → any (λ u. not (has_key u.0 (set_value k v m))) updates ≡ false
missing-set_value k v m [] h = refl
missing-set_value k v m (u ∷ us) h =
    ground (arith, has_key-set_value k u.0 v m, missing-set_value k v m us)

get-none :
    (k : String) (m : List (String × PermissionPolicy)) → has_key k m ≡ false → get k m ≡ none
get-none k [] h = refl
get-none k ((j, v) ∷ m) h = ground (arith, get-none k m)

write_updates-get :
    (updates : List (String × PermissionPolicy)) (m : List (String × Permission)) (k : String)
    → Unique updates
    → any (λ u. not (has_key u.0 m)) updates ≡ false
    → get k (write_updates updates m) ≡ asked_of (get k updates) (get k m)
unfolding write_updates
write_updates-get [] m k unique known = refl
write_updates-get ((j, p) ∷ us) m k unique known =
    let v = permission_from_policy p in
    ground (
      arith,
      write_updates-get us (set_value j v m) k unique.1,
      missing-set_value j v m us,
      get-set_value j k v m,
      eq_iff j k,
      get-none k us,
    )

write_updates-keys :
    (updates : List (String × PermissionPolicy)) (m : List (String × Permission))
    → map (λ e. e.0) (write_updates updates m) ≡ map (λ e. e.0) m
unfolding write_updates
write_updates-keys [] m = refl
write_updates-keys ((j, p) ∷ us) m =
    write_updates-keys us (set_value j (permission_from_policy p) m)
    ∙ keys-set_value j (permission_from_policy p) m

-- What the application's information shows for a key.
abbrev pub shown : Option Permission → Option PermissionPolicy
shown none = none
shown (some permission) = some (policy_of permission)

abbrev pub or_before : Option PermissionPolicy → Option PermissionPolicy → Option PermissionPolicy
or_before none old = old
or_before (some policy) old = some policy

shown-asked :
    (asked : Option PermissionPolicy) (old : Option Permission)
    → shown (asked_of asked old) ≡ or_before asked (shown old)
unfolding permission_from_policy
shown-asked none old = refl
shown-asked (some PermissionPolicy.accept) old = refl
shown-asked (some PermissionPolicy.reject) old = refl
shown-asked (some PermissionPolicy.ask) old = refl

-- An update of permissions with no key twice either fails and changes nothing, or it succeeds, keeps
-- the keys in their places, and what is then shown for a key is the policy that the update has for
-- it, or what was shown before where it has none.
pub apply_permission_updates-whole :
    (current : List (String × Permission)) (updates : List (String × PermissionPolicy))
    → Unique updates
    → let (after, result) = apply_permission_updates current updates in
      ((e : PermissionUpdateError) × (result ≡ err e) × (after ≡ current))
      ⊎ ((result ≡ ok tt)
          × (map (λ e. e.0) after ≡ map (λ e. e.0) current)
          × ((k : String)
              → shown (get k after) ≡ or_before (get k updates) (shown (get k current))))
unfolding apply_permission_updates
apply_permission_updates-whole current updates unique =
    elim (Bool-cases (any (λ u. starts_with u.0 "wallet.") updates)) [
      | inl prefixed ↦
          inl (prefixed_unsupported, ground (arith, prefixed), ground (arith, prefixed))
      | inr free ↦ elim (Bool-cases (any (λ u. not (has_key u.0 current)) updates)) [
        | inl missing ↦
            inl (not_found, ground (arith, free, missing), ground (arith, free, missing))
        | inr known ↦ inr (
          ground (arith, free, known),
          rw (free, known) (write_updates-keys updates current),
          λ k.
              rw (free, known)
                (ap shown (write_updates-get updates current k unique known)
                  ∙ shown-asked (get k updates) (get k current)),
        )
      ]
    ]
