-- ===== src/Base/Equality.antt =====
-- `PartialEq` and `Eq` as an interface: an equality test that decides equality.
use mathlib.Core.Path.{◌≡◌, refl}
use mathlib.Core.Logic.{◌↔◌}
use mathlib.Core.Bool.{Bool, true}
use text.Mathlib.TextEquality.{eq_iff}
use text.Mathlib.Text.{◌==◌ as str_eq}
use Prim.Native.String.{String}
use Prim.Native.Nat.{ℕ}
use xelis_wallet_flutter.Base.Tests.{nat_beq, nat_beq_iff}

pub record Eq {κ} (T : Type κ) : Type κ where
  pub test : T → T → Bool
  pub test_iff : (x y : T) → (test x y ≡ true) ↔ (x ≡ y)

infix 50 ◌==◌
abbrev pub ◌==◌ {κ} : {T : Type κ} ⦃equality : Eq T⦄ → (left right : T) → Bool
◌==◌ ⦃equality⦄ left right = equality.test left right

module _ {κ} {T : Type κ} ⦃equality : Eq T⦄ where
  pub eq_refl : (x : T) → (x == x) ≡ true
  eq_refl x = (equality.test_iff x x).1 refl

  pub eq→≡ : (x y : T) → (x == y) ≡ true → x ≡ y
  eq→≡ x y h = (equality.test_iff x y).0 h

instance abbrev pub string_eq : Eq String
string_eq = record { test = str_eq; test_iff = eq_iff }

instance abbrev pub nat_eq : Eq ℕ
nat_eq = record { test = nat_beq; test_iff = nat_beq_iff }
