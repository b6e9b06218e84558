-- ===== src/Multisig/Pending.antt =====
-- rust/src/api/wallet/multisig.rs: the pending request for signatures. `H` is the hash type and `T`
-- the payload that waits for the signatures.
pub mod Once
pub mod Examples
use xelis_wallet_flutter.Base.{
  ℕ, ◌&&◌, Bool, true, false, Option, none, some, List, [], ◌∷◌, Eq, nat_eq, ◌==◌, String,
  if◌then◌else◌,
}
use xelis_wallet_flutter.Base.Results.{Result, ok, err, ◌>>=◌, ◌>>◌}
use xelis_wallet_flutter.Base.Words.{u64_max, checked_add}
use xelis_wallet_flutter.Errors.{
  NativeXelisErrorCode, NativeXelisError, wallet_flutter_error, conflict, internal,
}
use xelis_wallet_flutter.Errors.Foreign.{AnyhowError, Kinds}
use xelis_wallet_flutter.Errors.Convert.{from_wallet_operation}
use xelis_wallet_flutter.Prepared.{is_some}

pub data PendingMultisigError : Type 0 where
  already_pending generation_overflow not_found request_mismatch : PendingMultisigError

-- The `anyhow` error of the methods: one of the above, or what a validation failed with.
pub data MultisigError : Type 0 where
  pending : PendingMultisigError → MultisigError
  validation : AnyhowError → MultisigError

pub record PendingRequest (H T : Type 0) : Type 0 where
  pub request_id : ℕ
  pub signing_hash : H
  pub payload : T

pub record PendingMultisigStore (H T : Type 0) : Type 0 where
  pub request : Option (PendingRequest H T)
  pub next_generation : ℕ

abbrev pub PendingOutcome : Type 0 → Type 0 → Type 0 → Type 0
PendingOutcome H T A = PendingMultisigStore H T × Result MultisigError A

module _ {H T : Type 0} where
  abbrev pub no_request : PendingMultisigStore H T
  no_request = record { request = none; next_generation = 0 }

  unfoldable pub insert : PendingMultisigStore H T → H → T → PendingOutcome H T ℕ
  insert s signing_hash payload =
      if is_some s.request
      then (s, err (pending already_pending))
      else (elim (checked_add u64_max s.next_generation 1) [
        | none ↦ (s, err (pending generation_overflow))
        | some generation ↦ (
          record {
            request = some (record {
              request_id = generation;
              signing_hash = signing_hash;
              payload = payload;
            });
            next_generation = generation;
          },
          ok generation,
        )
      ])

  unfoldable pub pending_signing_hash : PendingMultisigStore H T → Option H
  pending_signing_hash s = elim s.request [ none ↦ none | some r ↦ some r.signing_hash ]

  abbrev pub payload_of : Option (PendingRequest H T) → Result MultisigError T
  payload_of none = err (pending not_found)
  payload_of (some r) = ok r.payload

module _ {H T : Type 0} ⦃hash_eq : Eq H⦄ where
  abbrev pub expected : ℕ → H → Option (PendingRequest H T) → Result MultisigError (Unit {0})
  expected request_id hash none = err (pending not_found)
  expected request_id hash (some r) =
      if r.request_id == request_id && r.signing_hash == hash
      then ok tt
      else err (pending request_mismatch)

  unfoldable pub ensure_expected_request :
      PendingMultisigStore H T → ℕ → H → Result MultisigError (Unit {0})
  ensure_expected_request s request_id hash = expected request_id hash s.request

  unfoldable pub cancel : PendingMultisigStore H T → ℕ → H → PendingOutcome H T (Unit {0})
  unfolding ensure_expected_request
  cancel s request_id hash = elim (ensure_expected_request s request_id hash) [
    | err e ↦ (s, err e)
    | ok u ↦ (record s { request = none }, ok tt)
  ]

  unfoldable pub validate :
      {R : Type 0}
      → PendingMultisigStore H T
      → ℕ
      → H
      → (T → Result MultisigError R)
      → Result MultisigError R
  unfolding ensure_expected_request
  validate s request_id hash check =
      ensure_expected_request s request_id hash >> (payload_of s.request >>= check)

  abbrev pub taken :
      {R : Type 0}
      → PendingMultisigStore H T
      → R
      → Result MultisigError T
      → PendingOutcome H T (T × R)
  taken s validation_result (err e) = (s, err e)
  taken s validation_result (ok payload) =
      (record s { request = none }, ok (payload, validation_result))

  unfoldable pub take_validated :
      {R : Type 0}
      → PendingMultisigStore H T
      → ℕ
      → H
      → (T → Result MultisigError R)
      → PendingOutcome H T (T × R)
  unfolding validate
  take_validated s request_id hash check = elim (validate s request_id hash check) [
    | err e ↦ (s, err e)
    | ok result ↦ taken s result (payload_of s.request)
  ]

pub pending_error : PendingMultisigError → NativeXelisError
pending_error already_pending = wallet_flutter_error conflict "MULTISIG_REQUEST_ALREADY_PENDING"
pending_error generation_overflow =
    wallet_flutter_error internal "MULTISIG_REQUEST_GENERATION_OVERFLOW"
pending_error not_found =
    wallet_flutter_error NativeXelisErrorCode.not_found "MULTISIG_REQUEST_NOT_FOUND"
pending_error request_mismatch = wallet_flutter_error conflict "MULTISIG_REQUEST_MISMATCH"

unfoldable pub map_pending_multisig_error :
    Kinds → MultisigError → NativeXelisErrorCode → String → NativeXelisError
unfolding pending_error
map_pending_multisig_error kinds (pending e) code native_kind = pending_error e
map_pending_multisig_error kinds (validation e) code native_kind =
    from_wallet_operation kinds e code native_kind

-- The calls of any tasks that change the store, in the order in which they hold its lock.
pub data PendingCall (H T R : Type 0) : Type 0 where
  inserts : H → T → PendingCall H T R
  cancels : ℕ → H → PendingCall H T R
  takes : ℕ → H → (T → Result MultisigError R) → PendingCall H T R

module _ {H T R : Type 0} ⦃hash_eq : Eq H⦄ where
  unfoldable pub pending_step :
      PendingMultisigStore H T → PendingCall H T R → PendingMultisigStore H T
  pending_step s (inserts hash payload) = (insert s hash payload).0
  pending_step s (cancels request_id hash) = (cancel s request_id hash).0
  pending_step s (takes request_id hash check) = (take_validated s request_id hash check).0

  unfoldable pub pending_run :
      PendingMultisigStore H T → List (PendingCall H T R) → PendingMultisigStore H T
  pending_run s [] = s
  pending_run s (c ∷ cs) = pending_run (pending_step s c) cs
