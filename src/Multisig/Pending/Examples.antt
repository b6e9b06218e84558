-- ===== src/Multisig/Pending/Examples.antt =====
-- Concrete requests for signatures.
use xelis_wallet_flutter.Base.{ℕ, ◌≡◌, refl, ◌⊎◌, none, some, List, [], ◌∷◌, nat_eq}
use xelis_wallet_flutter.Base.Results.{Result, ok, err}
use xelis_wallet_flutter.Multisig.Pending.{
  MultisigError, PendingRequest, PendingMultisigStore, no_request, insert, validate, take_validated,
  PendingCall, inserts, takes, pending_step, pending_run,
}
use xelis_wallet_flutter.Multisig.Pending.Once.{IsSpent, take_validated-cases, taken_once}

abbrev accepts : ℕ → Result MultisigError ℕ
accepts payload = ok 1

abbrev requested : List (PendingCall ℕ ℕ ℕ)
requested = inserts 7 70 ∷ []

abbrev requested_again : List (PendingCall ℕ ℕ ℕ)
requested_again = inserts 7 70 ∷ takes 1 7 accepts ∷ []

abbrev waiting : PendingMultisigStore ℕ ℕ
waiting = record {
  request = some (record { request_id = 1; signing_hash = 7; payload = 70 });
  next_generation = 1;
}

take_validated-cases_example :
    ((e : MultisigError) × (take_validated waiting 1 7 accepts ≡ (waiting, err e)))
    ⊎ ((r : PendingRequest ℕ ℕ) × (result : ℕ) × (waiting.request ≡ some r)
        × (r.request_id ≡ 1)
        × (r.signing_hash ≡ 7)
        × (accepts r.payload ≡ ok result)
        × (take_validated waiting 1 7 accepts
            ≡ (record waiting { request = none }, ok (r.payload, result))))
take_validated-cases_example = take_validated-cases waiting 1 7 accepts

taken_once_example :
    IsSpent ℕ 1 (
      pending_run (take_validated (pending_run no_request requested) 1 7 accepts).0 requested_again)
unfolding pending_run pending_step insert take_validated validate
taken_once_example = taken_once requested requested_again 1 7 accepts 70 1 refl
