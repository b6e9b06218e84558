-- ===== src/Transactions/Review/AfterPrepare.antt =====
-- What a review and a cancellation find after a preparation that succeeded.
use xelis_wallet_flutter.Base.{Option, none, some, nat_eq}
use xelis_wallet_flutter.Base.Results.{Result, ok, err}
use xelis_wallet_flutter.Errors.{NativeXelisError, wallet_flutter_error, invalid_input, not_found}

-- What the review of a transfer should give, by what the plan has at its index, if anything.
abbrev pub reviewed_at : {X : Type 0} → Option (Option X) → Result NativeXelisError X
reviewed_at none = err (wallet_flutter_error invalid_input "PREPARED_TRANSFER_INDEX_INVALID")
reviewed_at (some none) =
    err (wallet_flutter_error not_found "PREPARED_TRANSFER_EXTRA_DATA_NOT_FOUND")
reviewed_at (some (some x)) = ok x
