-- ===== src/Xswd/Permissions/Examples.antt =====
-- A concrete update of permissions.
use xelis_wallet_flutter.Base.{◌⊎◌, ◌≡◌, refl, List, [], ◌∷◌, map, String}
use xelis_wallet_flutter.Base.Results.{ok, err}
use xelis_wallet_flutter.Xswd.Dispatcher.{Permission, PermissionPolicy}
use xelis_wallet_flutter.Xswd.Permissions.{PermissionUpdateError, get, apply_permission_updates}
use xelis_wallet_flutter.Xswd.Permissions.Updates.{shown, or_before, apply_permission_updates-whole}

abbrev two_permissions : List (String × Permission)
two_permissions = ("get_balance", Permission.ask) ∷ ("sign", Permission.allow) ∷ []

abbrev reject_sign : List (String × PermissionPolicy)
reject_sign = ("sign", PermissionPolicy.reject) ∷ []

apply_reject :
    apply_permission_updates two_permissions reject_sign
    ≡ (("get_balance", Permission.ask) ∷ ("sign", Permission.reject) ∷ [], ok tt)
unfolding apply_permission_updates
apply_reject = refl

apply_permission_updates-whole_example :
    let (after, result) = apply_permission_updates two_permissions reject_sign in
    ((e : PermissionUpdateError) × (result ≡ err e) × (after ≡ two_permissions))
    ⊎ ((result ≡ ok tt)
        × (map (λ e. e.0) after ≡ map (λ e. e.0) two_permissions)
        × ((k : String)
            → shown (get k after) ≡ or_before (get k reject_sign) (shown (get k two_permissions))))
apply_permission_updates-whole_example =
    apply_permission_updates-whole two_permissions reject_sign (refl, tt)
