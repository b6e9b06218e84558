-- ===== src/Prepared/Guards/Examples.antt =====
-- Concrete uses of the guards over the prepared slot.
use xelis_wallet_flutter.Base.{ℕ, ◌≡◌, refl, none, some, nat_eq, true}
use xelis_wallet_flutter.Base.Results.{ok}
use xelis_wallet_flutter.Prepared.{
  PreparedTransactionStore, empty, ready, in_flight, take_for_submission_exact,
}
use xelis_wallet_flutter.Prepared.Guards.{
  PreparedTransactionPreparationGuard, PreparedTransactionGuard, take_exact, drop_submission,
  restore, finish,
}
use xelis_wallet_flutter.Prepared.Guards.RoundTrip.{take_exact-undone}

abbrev holding : PreparedTransactionStore ℕ ℕ
holding = record { state = ready 4 7 70; next_generation = 4; active_preparation = none }

abbrev preparing : PreparedTransactionStore ℕ ℕ
preparing = record { state = ready 4 7 70; next_generation = 5; active_preparation = some 5 }

abbrev preparation : PreparedTransactionPreparationGuard
preparation = record { generation = 5; active = true }

abbrev flying : PreparedTransactionStore ℕ ℕ
flying = record { state = in_flight 4 7; next_generation = 4; active_preparation = none }

abbrev submission : PreparedTransactionGuard ℕ ℕ
submission = record { generation = 4; hash = 7; transaction = some 70 }

take_exact-undone_example :
    (drop_submission submission flying ≡ holding)
    × (restore submission flying ≡ (holding, ok tt))
    × ((t : ℕ) × (holding.state ≡ ready 4 7 t)
        × (finish submission flying ≡ (record flying { state = empty }, ok t)))
unfolding take_exact take_for_submission_exact
take_exact-undone_example = take_exact-undone holding flying 4 7 submission refl
