-- ===== src/Prepared.antt =====
-- rust/src/api/wallet/transactions/prepared.rs: the single slot of a prepared transaction.
-- A `&mut self` method is a function from the store to the store it leaves and its result; a
-- `&self` method has the result only. `H` is the hash type and `T` the prepared value.
pub mod Guards
pub mod Store
pub mod World
use xelis_wallet_flutter.Base.{
  ℕ, ◌&&◌, Bool, true, false, Option, none, some, Eq, ◌==◌, nat_eq, String, if◌then◌else◌,
}
use xelis_wallet_flutter.Base.Words.{u64_max, checked_add}
use xelis_wallet_flutter.Base.Results.{Result, ok, err, ◌>>◌, and_then}

pub data PreparedTransactionError : Type 0 where
  preparation_in_progress replacement_during_submission : PreparedTransactionError
  cancellation_during_submission already_submitting : PreparedTransactionError
  cannot_delete not_found generation_overflow : PreparedTransactionError
  preparation_state_inconsistent cancellation_state_inconsistent : PreparedTransactionError
  submission_state_inconsistent empty_guard : PreparedTransactionError

pub native_kind : PreparedTransactionError → String
native_kind preparation_in_progress = "PREPARED_TRANSACTION_PREPARATION_IN_PROGRESS"
native_kind replacement_during_submission = "PREPARED_TRANSACTION_SUBMISSION_IN_PROGRESS"
native_kind cancellation_during_submission = "PREPARED_TRANSACTION_CANCELLATION_IN_PROGRESS"
native_kind already_submitting = "PREPARED_TRANSACTION_ALREADY_SUBMITTING"
native_kind cannot_delete = "PREPARED_TRANSACTION_NOT_FOUND"
native_kind not_found = "PREPARED_TRANSACTION_NOT_FOUND"
native_kind generation_overflow = "PREPARED_TRANSACTION_GENERATION_OVERFLOW"
native_kind preparation_state_inconsistent = "PREPARED_TRANSACTION_PREPARATION_STATE_INCONSISTENT"
native_kind cancellation_state_inconsistent = "PREPARED_TRANSACTION_CANCELLATION_STATE_INCONSISTENT"
native_kind submission_state_inconsistent = "PREPARED_TRANSACTION_SUBMISSION_STATE_INCONSISTENT"
native_kind empty_guard = "PREPARED_TRANSACTION_GUARD_EMPTY"

abbrev pub PreparedResult : Type 0 → Type 0
PreparedResult A = Result PreparedTransactionError A

pub data PreparedTransactionState (H T : Type 0) : Type 0 where
  empty : PreparedTransactionState H T
  ready : (generation : ℕ) (hash : H) (transaction : T) → PreparedTransactionState H T
  in_flight : (generation : ℕ) (hash : H) → PreparedTransactionState H T

pub record PreparedTransactionStore (H T : Type 0) : Type 0 where
  pub state : PreparedTransactionState H T
  pub next_generation : ℕ
  pub active_preparation : Option ℕ

abbrev pub is_some {ℓ} : {A : Type ℓ} → Option A → Bool
is_some none = false
is_some (some a) = true

abbrev pub is_active : Option ℕ → ℕ → Bool
is_active none generation = false
is_active (some active) generation = active == generation

-- The store after the method, and what the method returns.
abbrev pub Outcome : Type 0 → Type 0 → Type 0 → Type 0
Outcome H T A = PreparedTransactionStore H T × PreparedResult A

module _ {H T : Type 0} where
  abbrev pub is_in_flight : PreparedTransactionState H T → Bool
  is_in_flight empty = false
  is_in_flight (ready g h t) = false
  is_in_flight (in_flight g h) = true

  -- `Default`.
  abbrev pub default : PreparedTransactionStore H T
  default = record { state = empty; next_generation = 0; active_preparation = none }

  unfoldable pub allocate_generation : PreparedTransactionStore H T → Outcome H T ℕ
  allocate_generation s = elim (checked_add u64_max s.next_generation 1) [
    | none ↦ (s, err generation_overflow)
    | some generation ↦ (record s { next_generation = generation }, ok generation)
  ]

  unfoldable pub ensure_replaceable : PreparedTransactionStore H T → PreparedResult (Unit {0})
  ensure_replaceable s =
      if is_some s.active_preparation
      then err preparation_in_progress
      else (if is_in_flight s.state then err replacement_during_submission else ok tt)

  unfoldable pub ensure_slot_operation_available :
      PreparedTransactionStore H T → PreparedResult (Unit {0})
  ensure_slot_operation_available s =
      if is_some s.active_preparation then err preparation_in_progress else ok tt

  -- `?` on a check of the store, before the rest of a method that changes it.
  abbrev pub checked :
      {A : Type 0}
      → PreparedTransactionStore H T
      → PreparedResult (Unit {0})
      → Outcome H T A
      → Outcome H T A
  checked s (ok u) rest = rest
  checked s (err e) rest = (s, err e)

  unfoldable pub replace : PreparedTransactionStore H T → H → T → Outcome H T ℕ
  unfolding allocate_generation ensure_replaceable
  replace s hash transaction = checked s (ensure_replaceable s) (
      and_then (allocate_generation s)
        λ s' generation. (record s' { state = ready generation hash transaction }, ok generation))

  unfoldable pub begin_preparation : PreparedTransactionStore H T → Outcome H T ℕ
  unfolding allocate_generation ensure_replaceable
  begin_preparation s = checked s (ensure_replaceable s) (
      and_then (allocate_generation s)
        λ s' generation. (record s' { active_preparation = some generation }, ok generation))

  unfoldable pub commit_preparation :
      PreparedTransactionStore H T → ℕ → H → T → Outcome H T (Unit {0})
  commit_preparation s generation hash transaction =
      if is_active s.active_preparation generation
      then (if is_in_flight s.state then (s, err replacement_during_submission) else (
        record s { state = ready generation hash transaction; active_preparation = none },
        ok tt,
      ))
      else (s, err preparation_state_inconsistent)

  unfoldable pub abandon_preparation :
      PreparedTransactionStore H T → ℕ → PreparedTransactionStore H T × Bool
  abandon_preparation s generation =
      if is_active s.active_preparation generation
      then (record s { active_preparation = none }, true)
      else (s, false)

  -- `mem::take` of the state, `Ready` handed on as in flight or put back.
  unfoldable pub take_ready_for_submission : PreparedTransactionStore H T → Outcome H T (ℕ × T)
  take_ready_for_submission s = elim s.state [
    | ready generation hash transaction ↦
        (record s { state = in_flight generation hash }, ok (generation, transaction))
    | _ ↦ (s, err submission_state_inconsistent)
  ]

  -- `mem::take` of the state, `Ready` handed out or put back: the end of both cancellations.
  unfoldable pub take_ready_for_cancellation : PreparedTransactionStore H T → Outcome H T T
  take_ready_for_cancellation s = elim s.state [
    | ready generation hash transaction ↦ (record s { state = empty }, ok transaction)
    | _ ↦ (s, err cancellation_state_inconsistent)
  ]

-- The two pattern guards of the methods, on a slot's generation and hash.
module _ {H : Type 0} ⦃hash_eq : Eq H⦄ where
  abbrev pub same : ℕ → H → ℕ → H → Bool
  same generation hash g h = g == generation && h == hash

  abbrev pub same_hash : H → ℕ → H → Bool
  same_hash hash g h = h == hash

module _ {H T : Type 0} ⦃hash_eq : Eq H⦄ where
  -- The `match` on the state that guards an operation. `exact` is the whole pattern guard on a
  -- slot's generation and hash; the operations differ in the errors for the other cases.
  abbrev pub slot_check :
      (ℕ → H → Bool)
      → PreparedTransactionError
      → PreparedTransactionError
      → PreparedTransactionState H T
      → PreparedResult (Unit {0})
  slot_check exact busy missing empty = err missing
  slot_check exact busy missing (ready g h t) = if exact g h then ok tt else err missing
  slot_check exact busy missing (in_flight g h) = if exact g h then err busy else err missing

  unfoldable pub ensure_ready_exact :
      PreparedTransactionStore H T → ℕ → H → PreparedResult (Unit {0})
  unfolding ensure_slot_operation_available
  ensure_ready_exact s generation hash =
      ensure_slot_operation_available s
      >> slot_check (same generation hash) already_submitting not_found s.state

  unfoldable pub ready_exact : PreparedTransactionStore H T → ℕ → H → PreparedResult T
  unfolding ensure_ready_exact
  ready_exact s generation hash =
      ensure_ready_exact s generation hash
      >> (elim s.state [ ready g h transaction ↦ ok transaction | _ ↦ err not_found ])

  unfoldable pub cancel : PreparedTransactionStore H T → H → Outcome H T T
  unfolding ensure_slot_operation_available take_ready_for_cancellation
  cancel s hash = checked s (ensure_slot_operation_available s) (
      checked s (slot_check (same_hash hash) cancellation_during_submission cannot_delete s.state)
        (take_ready_for_cancellation s))

  unfoldable pub cancel_exact : PreparedTransactionStore H T → ℕ → H → Outcome H T T
  unfolding ensure_slot_operation_available take_ready_for_cancellation
  cancel_exact s generation hash = checked s (ensure_slot_operation_available s) (
      checked s (slot_check (same generation hash) cancellation_during_submission not_found s.state)
        (take_ready_for_cancellation s))

  unfoldable pub take_for_submission : PreparedTransactionStore H T → H → Outcome H T (ℕ × T)
  unfolding ensure_slot_operation_available take_ready_for_submission
  take_for_submission s hash = checked s (ensure_slot_operation_available s) (
      checked s (slot_check (same_hash hash) already_submitting not_found s.state)
        (take_ready_for_submission s))

  unfoldable pub take_for_submission_exact : PreparedTransactionStore H T → ℕ → H → Outcome H T T
  unfolding ensure_slot_operation_available take_ready_for_submission
  take_for_submission_exact s generation hash = checked s (ensure_slot_operation_available s) (
      checked s (slot_check (same generation hash) already_submitting not_found s.state) (
        and_then (take_ready_for_submission s) λ s' taken.
          if taken.0 == generation
          then (s', ok taken.1)
          else (s', err submission_state_inconsistent)))

  unfoldable pub is_submitted : PreparedTransactionState H T → ℕ → H → Bool
  is_submitted (in_flight g h) generation hash = same generation hash g h
  is_submitted (ready g h t) generation hash = false
  is_submitted empty generation hash = false

  unfoldable pub restore_after_submission :
      PreparedTransactionStore H T → ℕ → H → T → Outcome H T (Unit {0})
  unfolding is_submitted
  restore_after_submission s generation hash transaction =
      if is_submitted s.state generation hash
      then (record s { state = ready generation hash transaction }, ok tt)
      else (s, err submission_state_inconsistent)

  unfoldable pub finish_submission :
      PreparedTransactionStore H T → ℕ → H → PreparedTransactionStore H T × Bool
  unfolding is_submitted
  finish_submission s generation hash =
      if is_submitted s.state generation hash
      then (record s { state = empty }, true)
      else (s, false)
