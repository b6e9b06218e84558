-- ===== src/Transactions/Fees/Examples.antt =====
-- Concrete fees.
use xelis_wallet_flutter.Base.{
  ℕ, ◌+◌, ◌-◌, ◌*◌, ◌/◌, ◌<◌, ◌≡◌, ◌≢◌, refl, nat_eq, leb, if◌then◌else◌, arith,
}
use xelis_wallet_flutter.Base.Results.{ok, err}
use xelis_wallet_flutter.Base.Words.{u64_max}
use xelis_wallet_flutter.Transactions.Fees.{
  fee_basis_points_scale, fee_overflow, multiplier, apply_fee_policy, amount_after_fee,
  multiplier_exact, amount_after_fee-ok,
}

multiplier_exact_example : apply_fee_policy 1 (multiplier 15001) ≡ (
    if leb (1 * 15001) (u64_max * fee_basis_points_scale)
    then ok ((1 * 15001 + (fee_basis_points_scale - 1)) / fee_basis_points_scale)
    else err fee_overflow)
multiplier_exact_example = multiplier_exact 1 15001 (omega arith) (omega arith) (omega arith)

-- The native asset is 0.
amount_after_fee-ok_example :
    (0 < 70)
    × (◌≡◌ {A = ℕ} 0 0 → ◌≡◌ {A = ℕ} (70 + 30) 100)
    × (◌≢◌ {A = ℕ} 0 0 → ◌≡◌ {A = ℕ} 70 100)
unfolding amount_after_fee
amount_after_fee-ok_example = amount_after_fee-ok 0 100 30 0 70 refl
