-- ===== src/Xswd/Permissions.antt =====
-- From rust/src/api/xswd/impl.rs: the permissions of an application are shown and changed.
pub mod Updates
pub mod Examples
use xelis_wallet_flutter.Base.{
  ℕ, Bool, true, false, not, Option, none, some, List, [], ◌∷◌, map, String, string_eq, ◌==◌, any,
  if◌then◌else◌,
}
use text.Mathlib.Text.{starts_with}
use xelis_wallet_flutter.Base.Results.{Result, ok, err}
use xelis_wallet_flutter.Xswd.Dispatcher.{Permission, PermissionPolicy}

unfoldable pub permission_from_policy : PermissionPolicy → Permission
permission_from_policy PermissionPolicy.accept = Permission.allow
permission_from_policy PermissionPolicy.reject = Permission.reject
permission_from_policy PermissionPolicy.ask = Permission.ask

pub data PermissionUpdateError : Type 0 where
  prefixed_unsupported not_found : PermissionUpdateError

abbrev pub has_key {ℓ} : {V : Type ℓ} → String → List (String × V) → Bool
has_key k [] = false
has_key k ((j, v) ∷ m) = let rest = has_key k m in if j == k then true else rest

abbrev pub get {ℓ} : {V : Type ℓ} → String → List (String × V) → Option V
get k [] = none
get k ((j, v) ∷ m) = let rest = get k m in if j == k then some v else rest

-- Writing through `get_mut`.
unfoldable pub set_value {ℓ} : {V : Type ℓ} → String → V → List (String × V) → List (String × V)
set_value k v [] = []
set_value k v ((j, w) ∷ m) =
    let rest = set_value k v m in if j == k then (j, v) ∷ m else (j, w) ∷ rest

unfoldable pub write_updates :
    List (String × PermissionPolicy) → List (String × Permission) → List (String × Permission)
unfolding set_value permission_from_policy
write_updates [] current = current
write_updates ((key, policy) ∷ updates) current =
    write_updates updates (set_value key (permission_from_policy policy) current)

-- The map that the call leaves, and its result. The updates are a map.
unfoldable pub apply_permission_updates :
    List (String × Permission)
    → List (String × PermissionPolicy)
    → List (String × Permission) × Result PermissionUpdateError (Unit {0})
unfolding write_updates
apply_permission_updates current updates =
    if any (λ u. starts_with u.0 "wallet.") updates
    then (current, err prefixed_unsupported)
    else if any (λ u. not (has_key u.0 current)) updates
    then (current, err not_found)
    else (write_updates updates current, ok tt)
