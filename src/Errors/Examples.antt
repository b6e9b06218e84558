-- ===== src/Errors/Examples.antt =====
-- Concrete errors.
use xelis_wallet_flutter.Base.{◌≡◌, some, if◌then◌else◌}
use xelis_wallet_flutter.Errors.{xelis_wallet, authentication_or_corrupt_data}
use xelis_wallet_flutter.Errors.Foreign.{
  AnyhowError, wallet, untyped, any_wallet, crypto_error, Kinds,
}
use xelis_wallet_flutter.Errors.Classify.{
  standard, authentication, typed_classification, classify_anyhow_error_with_policy,
}
use xelis_wallet_flutter.Errors.Policy.{is_crypto_cause, classify-authentication}

abbrev some_kinds : Kinds
some_kinds = record { wallet_kind = λ e. "WALLET"; rpc_kind = λ e. "RPC" }

abbrev wrapped_twice : AnyhowError
wrapped_twice = wallet (any_wallet "ANY" (wallet (any_wallet "ANY" untyped)))

abbrev wrapped_crypto : AnyhowError
wrapped_crypto = wallet (any_wallet "ANY" (wallet crypto_error))

classify-authentication_example :
    classify_anyhow_error_with_policy some_kinds wrapped_crypto authentication ≡ (
      if is_crypto_cause wrapped_crypto
      then some (typed_classification xelis_wallet authentication_or_corrupt_data "WALLET")
      else classify_anyhow_error_with_policy some_kinds wrapped_crypto standard)
classify-authentication_example = classify-authentication some_kinds wrapped_crypto
