-- ===== src/Transactions/Fees.antt =====
-- rust/src/api/wallet/transactions/builders.rs: fee policies and the amount that a fee leaves.
-- A `u64` is a natural number; the theorems state its bound.
pub mod Examples
use xelis_wallet_flutter.Base.{
  ℕ, zero, ◌+◌, ◌-◌, ◌*◌, ◌/◌, ◌≤◌, ◌<◌, ◌≡◌, ◌≢◌, refl, ◌↔◌, Bool, true, false, Option, none, some,
  Eq, nat_eq, ◌==◌, eq→≡, Bool-cases, inl, inr, ltb, leb, ◌⊎◌, if◌then◌else◌, arith,
}
use xelis_wallet_flutter.Base.Results.{Result, ok, err, ◌>>=◌, ok_or}
use xelis_wallet_flutter.Base.Words.{u64_max, u128_max, checked_add, checked_mul, checked_sub, fit}
use xelis_wallet_flutter.Errors.{NativeXelisError, wallet_flutter_error, invalid_input}

pub data NativeTransactionFeePolicy : Type 0 where
  automatic : NativeTransactionFeePolicy
  fixed : ℕ → NativeTransactionFeePolicy
  tip : ℕ → NativeTransactionFeePolicy
  multiplier : ℕ → NativeTransactionFeePolicy

abbrev pub fee_basis_points_scale : ℕ
fee_basis_points_scale = 10000

abbrev pub fee_overflow : NativeXelisError
fee_overflow = wallet_flutter_error invalid_input "TRANSACTION_FEE_OVERFLOW"

abbrev pub fee_policy_invalid : NativeXelisError
fee_policy_invalid = wallet_flutter_error invalid_input "TRANSACTION_FEE_POLICY_INVALID"

unfoldable pub apply_fee_policy : ℕ → NativeTransactionFeePolicy → Result NativeXelisError ℕ
apply_fee_policy base_fee automatic = ok base_fee
apply_fee_policy base_fee (fixed fee) = ok fee
apply_fee_policy base_fee (tip t) = ok_or (checked_add u64_max base_fee t) fee_overflow
apply_fee_policy base_fee (multiplier basis_points) =
    if basis_points == 0 then err fee_policy_invalid else (do
      product ← ok_or (checked_mul u128_max base_fee basis_points) fee_overflow
      numerator ← ok_or (checked_add u128_max product (fee_basis_points_scale - 1)) fee_overflow
      ok_or (fit u64_max (numerator / fee_basis_points_scale)) fee_overflow)

-- `anyhow` errors of this file are told apart by nothing but their text.
pub data InsufficientFunds : Type 0 where
  insufficient_funds_context : InsufficientFunds

module _ {H : Type 0} ⦃hash_eq : Eq H⦄ (xelis_asset : H) where
  unfoldable pub amount_after_fee : ℕ → ℕ → H → Result InsufficientFunds ℕ
  amount_after_fee amount fee asset = do
    left ←
        if asset == xelis_asset
        then ok_or (checked_sub amount fee) insufficient_funds_context
        else ok amount
    if ltb 0 left then ok left else err insufficient_funds_context

-- The product of two `u64`, and the rounding on top of it, stay within a `u128`.
product_fits :
    (base basis_points : ℕ)
    → base ≤ u64_max
    → basis_points ≤ u64_max
    → base * basis_points + 9999 ≤ u128_max
product_fits base basis_points h k =
    let e : base * basis_points ≤ u64_max * basis_points = grind arith in omega arith

-- A multiplier gives the product rounded up to the next whole unit, and never loses to rounding:
-- the fee in basis points is at least the product and less than one unit above it.
pub multiplier_rounds_up :
    (base basis_points fee : ℕ)
    → apply_fee_policy base (multiplier basis_points) ≡ ok fee
    → (0 < basis_points)
      × (fee ≤ u64_max)
      × (base * basis_points ≤ fee * fee_basis_points_scale)
      × (fee * fee_basis_points_scale < base * basis_points + fee_basis_points_scale)
unfolding apply_fee_policy
multiplier_rounds_up base basis_points fee h = ground arith

-- On `u64` inputs the 128-bit arithmetic never overflows: a positive multiplier fails only when
-- the rounded-up fee does not fit a `u64`, and else gives it.
pub multiplier_exact :
    (base basis_points : ℕ)
    → base ≤ u64_max
    → basis_points ≤ u64_max
    → 0 < basis_points
    → apply_fee_policy base (multiplier basis_points) ≡ (
        if leb (base * basis_points) (u64_max * fee_basis_points_scale)
        then ok ((base * basis_points + (fee_basis_points_scale - 1)) / fee_basis_points_scale)
        else err fee_overflow)
unfolding apply_fee_policy
multiplier_exact base basis_points h k pos = ground (arith, product_fits base basis_points h k)

module _ {H : Type 0} ⦃hash_eq : Eq H⦄ (xelis_asset : H) where
  -- The amount left after the fee is positive; for the native asset amount and fee add up to the
  -- balance, and every other asset is moved whole.
  pub amount_after_fee-ok :
      (balance fee : ℕ) (asset : H) (left : ℕ)
      → amount_after_fee xelis_asset balance fee asset ≡ ok left
      → (0 < left)
        × (asset ≡ xelis_asset → left + fee ≡ balance)
        × (asset ≢ xelis_asset → left ≡ balance)
  unfolding amount_after_fee
  amount_after_fee-ok balance fee asset left h = ground (arith, hash_eq.test_iff asset xelis_asset)

  -- The amount after a fee is refused exactly when the asset is the native one and its balance
  -- does not exceed the fee, or when the balance is zero.
  pub amount_after_fee-err :
      (balance fee : ℕ) (asset : H)
      → (amount_after_fee xelis_asset balance fee asset ≡ err insufficient_funds_context)
        ↔ ((asset ≡ xelis_asset) × (balance ≤ fee)) ⊎ (balance ≡ 0)
  unfolding amount_after_fee
  amount_after_fee-err balance fee asset = (
    ground (arith, hash_eq.test_iff asset xelis_asset),
    ground (arith, hash_eq.test_iff asset xelis_asset),
  )
