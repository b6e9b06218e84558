-- ===== src/Transactions/Prepare/Amounts.antt =====
-- What the two methods that empty a balance build: the amount that the fee leaves.
use xelis_wallet_flutter.Base.{
  ℕ, ◌+◌, ◌<◌, ◌≡◌, ◌≢◌, Bool, Option, some, [], ◌∷◌, Eq, String, arith,
}
use xelis_wallet_flutter.Base.Results.{ok, map_err, >>=-elim, map_err-eq-ok, ok_or-eq-ok}
use xelis_wallet_flutter.Errors.Foreign.{Kinds}
use xelis_wallet_flutter.Transactions.Fees.{
  NativeTransactionFeePolicy, amount_after_fee, amount_after_fee-ok,
}
use xelis_wallet_flutter.Transactions.Builders.{
  Formats, NativePreparedTransfer, transfers, burn, prepared_transfers, prepared_burn,
  parse_transaction_asset, parse_transaction_destination, project_prepared_transfer, build_transfer,
  build_burn_type, build_transfer_all_type, build_burn_all_type,
}
use xelis_wallet_flutter.Transactions.Prepare.{Wallet, Plan, estimate_target_fee}
use xelis_wallet_flutter.Transactions.Prepare.Plans.{burn_all_plan, transfer_all_plan}

module _ {H Address Data Tx B : Type 0} ⦃hash_eq : Eq H⦄ (kinds : Kinds)
    (formats : Formats H Address Data) (xelis_asset : H) (w : Wallet H Address Data Tx B) where
  -- An amount that empties the balance of an asset: positive, and for the native asset the balance
  -- less the fee of the plan.
  abbrev pub Empties : (asset : H) (fee amount : ℕ) → Type 0
  Empties asset fee amount =
      (balance : ℕ) × (w.balance_for asset ≡ ok balance)
      × (0 < amount)
      × (asset ≡ xelis_asset → amount + fee ≡ balance)
      × (asset ≢ xelis_asset → amount ≡ balance)

  -- A plan to burn everything burns an amount that empties the balance under its own fee, and
  -- shows that amount and asset.
  pub burn_all_plan-Empties :
      (asset : String) (fee_policy : NativeTransactionFeePolicy) (plan : Plan H Address Data)
      → burn_all_plan kinds formats xelis_asset w asset fee_policy ≡ ok plan
      → (asset_hash : H) × (amount : ℕ) × (formats.from_hex asset ≡ some asset_hash)
        × (plan.transaction_type ≡ burn (record { amount = amount; asset = asset_hash }))
        × (plan.transaction ≡ prepared_burn (formats.to_hex asset_hash) amount)
        × Empties asset_hash plan.target_fee amount
  unfolding burn_all_plan parse_transaction_asset build_burn_all_type build_burn_type
  burn_all_plan-Empties asset fee_policy plan h =
      >>=-elim (parse_transaction_asset formats asset) _ h λ asset_hash parsed h1.
        >>=-elim (map_err _ (w.balance_for asset_hash)) _ h1 λ balance read h2.
          >>=-elim (map_err _ (build_burn_all_type formats xelis_asset asset_hash balance 0)) _ h2
            λ estimated e2 h3.
              >>=-elim (estimate_target_fee kinds w estimated fee_policy) _ h3 λ fee e3 h4.
                >>=-elim (map_err _ (amount_after_fee xelis_asset balance fee asset_hash)) _ h4
                  λ amount e4 h5.
                    >>=-elim
                      (map_err _ (build_burn_all_type formats xelis_asset asset_hash balance fee)) _
                      h5
                      λ built e5 h6.
                        let left : amount_after_fee xelis_asset balance fee asset_hash ≡ ok amount =
                          map_err-eq-ok _ _ e4 in
                        let (pos, native, other) =
                          amount_after_fee-ok xelis_asset balance fee asset_hash amount left in
                        let built_burn : build_burn_all_type formats xelis_asset asset_hash balance
                              fee
                            ≡ ok built =
                          map_err-eq-ok _ _ e5 in
                        (
                          asset_hash,
                          amount,
                          ok_or-eq-ok _ _ parsed,
                          ground arith,
                          ground arith,
                          (balance, map_err-eq-ok _ _ read, pos, ground (arith, native), other),
                        )

  -- A plan to transfer everything builds one transfer to the requested address, of an amount that
  -- empties the balance under the fee of the plan, and shows one transfer of that amount.
  pub transfer_all_plan-Empties :
      (destination asset : String) (extra_data : Option String) (encrypt : Bool)
      (fee_policy : NativeTransactionFeePolicy) (plan : Plan H Address Data)
      → transfer_all_plan kinds formats xelis_asset w destination asset extra_data encrypt
          fee_policy
        ≡ ok plan
      → (asset_hash : H) × (address : Address) × (amount : ℕ) × (formats.from_hex asset
          ≡ some asset_hash)
        × (formats.from_string destination ≡ some address)
        × (plan.transaction_type
            ≡ transfers
                (build_transfer formats address amount asset_hash extra_data (some encrypt) ∷ []))
        × Empties asset_hash plan.target_fee amount
        × ((shown : NativePreparedTransfer) × (plan.transaction ≡ prepared_transfers (shown ∷ []))
            × (shown.amount ≡ amount)
            × (shown.asset ≡ formats.to_hex asset_hash))
  unfolding transfer_all_plan parse_transaction_asset parse_transaction_destination
      build_transfer_all_type project_prepared_transfer
  transfer_all_plan-Empties destination asset extra_data encrypt fee_policy plan h =
      >>=-elim (parse_transaction_asset formats asset) _ h λ asset_hash parsed h1.
        >>=-elim (parse_transaction_destination formats destination) _ h1 λ address parsed' h2.
          >>=-elim (map_err _ (w.balance_for asset_hash)) _ h2 λ balance read h3.
            >>=-elim
              (map_err _ (
                build_transfer_all_type formats xelis_asset address balance 0 asset_hash extra_data
                  (some encrypt)))
              _ h3
              λ estimated e3 h4.
                >>=-elim (estimate_target_fee kinds w estimated fee_policy) _ h4 λ fee e4 h5.
                  >>=-elim (map_err _ (amount_after_fee xelis_asset balance fee asset_hash)) _ h5
                    λ amount e5 h6.
                      >>=-elim
                        (map_err _ (
                          build_transfer_all_type formats xelis_asset address balance fee asset_hash
                            extra_data (some encrypt)))
                        _ h6
                        λ built e6 h7.
                          >>=-elim
                            (project_prepared_transfer formats address asset_hash amount extra_data
                              encrypt)
                            _ h7
                            λ projected e7 h8.
                              let left : amount_after_fee xelis_asset balance fee asset_hash
                                  ≡ ok amount =
                                map_err-eq-ok _ _ e5 in
                              let (pos, native, other) =
                                amount_after_fee-ok xelis_asset balance fee asset_hash amount
                                  left in
                              let built_all : build_transfer_all_type formats xelis_asset address
                                    balance fee asset_hash extra_data (some encrypt)
                                  ≡ ok built =
                                map_err-eq-ok _ _ e6 in
                              (
                                asset_hash,
                                address,
                                amount,
                                ok_or-eq-ok _ _ parsed,
                                ok_or-eq-ok _ _ parsed',
                                ground arith,
                                (
                                  balance,
                                  map_err-eq-ok _ _ read,
                                  pos,
                                  ground (arith, native),
                                  other,
                                ),
                                (projected.0, ground arith, ground arith, ground arith),
                              )
