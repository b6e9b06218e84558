-- ===== src/Prepared/World/Examples.antt =====
-- Concrete runs of the calls on the prepared slot.
use xelis_wallet_flutter.Base.{ℕ, ◌≡◌, refl, inl, some, List, [], ◌∷◌, nat_eq, false}
use xelis_wallet_flutter.Prepared.{take_for_submission_exact, ready_exact}
use xelis_wallet_flutter.Prepared.World.{
  Call, begins, commits, takes_exact, cancels_exact, finishes, restores, replaces, step, run, start,
}
use xelis_wallet_flutter.Prepared.World.Invariant.{Inv, start-Inv, run-Inv}
use xelis_wallet_flutter.Prepared.World.Safety.{is_inconsistency, run-consistent}
use xelis_wallet_flutter.Prepared.World.Capability.{capability}
use xelis_wallet_flutter.Prepared.World.Retirement.{IsDead, cancelled_for_good, finished_for_good}

-- A preparation of the transaction 70 with the hash 7, under the id 1.
abbrev prepared_once : List (Call ℕ ℕ)
prepared_once = begins ∷ commits 0 7 70 ∷ []

abbrev retried_once : List (Call ℕ ℕ)
retried_once = takes_exact 1 7 ∷ restores 0 ∷ []

abbrev taken_once : List (Call ℕ ℕ)
taken_once = begins ∷ commits 0 7 70 ∷ takes_exact 1 7 ∷ []

abbrev replaced_once : List (Call ℕ ℕ)
replaced_once = replaces 7 70 ∷ takes_exact 1 7 ∷ []

run-Inv_example : Inv (run start taken_once)
run-Inv_example = run-Inv start taken_once start-Inv

run-consistent_example : is_inconsistency (step (run start taken_once) (finishes 0)).1 ≡ false
run-consistent_example = run-consistent taken_once (finishes 0)

capability_example : (◌≡◌ {A = ℕ} 7 7) × (◌≡◌ {A = ℕ} 70 70)
unfolding run step ready_exact take_for_submission_exact
capability_example = capability 1 7 70 prepared_once retried_once 7 70 refl (inl refl)

cancelled_for_good_example :
    IsDead 1 (run (step (run start prepared_once) (cancels_exact 1 7)).0 replaced_once)
unfolding run step
cancelled_for_good_example = cancelled_for_good 1 prepared_once replaced_once 7 refl

finished_for_good_example :
    IsDead 1 (run (step (run start taken_once) (finishes 0)).0 replaced_once)
unfolding run step take_for_submission_exact
finished_for_good_example =
    finished_for_good 1 taken_once replaced_once 0
      (record { generation = 1; hash = 7; transaction = some 70 }) refl refl
