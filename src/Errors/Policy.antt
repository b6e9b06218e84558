-- ===== src/Errors/Policy.antt =====
-- What the storage boundary and the authentication policy change of a classification.
use xelis_wallet_flutter.Base.{◌≡◌, refl, Bool, true, false, some, String, if◌then◌else◌, arith}
use xelis_wallet_flutter.Errors.{xelis_wallet, storage, authentication_or_corrupt_data}
use xelis_wallet_flutter.Errors.Foreign.{
  AnyhowError, json_rpc, wallet, untyped, any_wallet, crypto_error, Kinds,
}
use xelis_wallet_flutter.Errors.Classify.{
  standard, authentication, typed_classification, native_kind_option,
  classify_anyhow_error_with_policy,
}
use xelis_wallet_flutter.Errors.Convert.{from_wallet_storage_operation}

-- No typed error stands behind the wrappers of `WalletError::Any`.
abbrev pub is_untyped_cause : AnyhowError → Bool
is_untyped_cause untyped = true
is_untyped_cause (wallet (any_wallet kind inner)) = is_untyped_cause inner
is_untyped_cause (wallet e) = false
is_untyped_cause (json_rpc e) = false

-- The error behind the wrappers is `WalletError::CryptoError`.
abbrev pub is_crypto_cause : AnyhowError → Bool
is_crypto_cause (wallet crypto_error) = true
is_crypto_cause (wallet (any_wallet kind inner)) = is_crypto_cause inner
is_crypto_cause (wallet e) = false
is_crypto_cause (json_rpc e) = false
is_crypto_cause untyped = false

module _ (kinds : Kinds) where
  -- An error that no typed cause explains is reported at a storage boundary as a storage error of
  -- the operation's own kind, however many wrappers surround it.
  pub from_wallet_storage_operation-untyped :
      (e : AnyhowError) (fallback_kind : String)
      → is_untyped_cause e ≡ true
      → ((from_wallet_storage_operation kinds e fallback_kind).code ≡ storage)
        × ((from_wallet_storage_operation kinds e fallback_kind).native_kind
            ≡ native_kind_option fallback_kind)
  unfolding from_wallet_storage_operation
  from_wallet_storage_operation-untyped untyped kind h = (refl, refl)
  from_wallet_storage_operation-untyped (wallet (any_wallet k inner)) kind h =
      from_wallet_storage_operation-untyped inner kind h
  from_wallet_storage_operation-untyped (wallet e) kind h = cc
  from_wallet_storage_operation-untyped (json_rpc e) kind h = cc

  -- The authentication policy gives a wrapped or plain crypto error the code for a wrong password
  -- or corrupt data, and classifies every other error as the standard policy does.
  pub classify-authentication :
      (e : AnyhowError)
      → classify_anyhow_error_with_policy kinds e authentication ≡ (
          if is_crypto_cause e
          then some (
              typed_classification xelis_wallet authentication_or_corrupt_data
                (kinds.wallet_kind crypto_error))
          else classify_anyhow_error_with_policy kinds e standard)
  unfolding classify_anyhow_error_with_policy
  classify-authentication (json_rpc e) = refl
  classify-authentication untyped = refl
  classify-authentication (wallet crypto_error) = refl
  classify-authentication (wallet (any_wallet k inner)) =
      ground (arith, classify-authentication inner)
  classify-authentication (wallet e) = refl
