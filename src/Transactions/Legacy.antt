-- ===== src/Transactions/Legacy.antt =====
-- rust/src/api/wallet/transactions.rs: `broadcast_transaction` and `clear_transaction_internal`,
-- which name the prepared transaction by its hash alone.
pub mod Agreement
pub mod Examples
use xelis_wallet_flutter.Base.{
  ℕ, Bool, true, false, Option, none, some, List, [], ◌∷◌, Eq, String, if◌then◌else◌,
}
use xelis_wallet_flutter.Base.Results.{Result, ok, err, ◌>>◌, map_err}
use xelis_wallet_flutter.Errors.Foreign.{AnyhowError, WalletError}
use xelis_wallet_flutter.Prepared.{
  PreparedTransactionStore, PreparedTransactionError, Outcome, cancel,
}
use xelis_wallet_flutter.Prepared.Guards.{
  PreparedTransactionGuard, take, drop_submission, restore, finish, transaction_of,
}
use xelis_wallet_flutter.Prepared.World.{Call}
use xelis_wallet_flutter.Transactions.PreparedErrors.{PreparedWalletTransaction}
use xelis_wallet_flutter.Transactions.Submission.{
  SubmissionResolution, submitted, retryable, daemon_rejected, local_failure, resolve_submission,
}
use xelis_wallet_flutter.Transactions.Broadcast.{
  Request, serve_all, afterwards, Answers, Effect, submit_transaction, apply_state,
  delete_unconfirmed_balances,
}

pub data BroadcastTransactionOutcome : Type 0 where
  legacy_submitted legacy_retryable legacy_rejected : BroadcastTransactionOutcome
  legacy_local_failure legacy_submitted_needs_resync : BroadcastTransactionOutcome

-- The `anyhow` error of the two methods, by where it comes from.
pub data LegacyError : Type 0 where
  wallet_offline hash_invalid : LegacyError
  storage_failed : AnyhowError → LegacyError
  slot_refused : PreparedTransactionError → LegacyError

unfoldable pub ensure_wallet_online : Bool → Result LegacyError (Unit {0})
ensure_wallet_online is_online = if is_online then ok tt else err wallet_offline

abbrev pub legacy_storage_context : Answers → Result LegacyError (Unit {0})
legacy_storage_context a =
    map_err storage_failed (a.tx_version >> a.synced_topoheight >> a.top_block_hash)

abbrev pub LegacyReply : Type 0 → Type 0 → Type 0 → Type 0 → Type 0
LegacyReply H Tx B X =
    PreparedTransactionStore H (PreparedWalletTransaction Tx B X)
    × List (Effect Tx B)
    × Result LegacyError BroadcastTransactionOutcome

module _ {H Tx B X : Type 0} ⦃hash_eq : Eq H⦄ where
  abbrev pub legacy_apply :
      Answers
      → List (Call H (PreparedWalletTransaction Tx B X))
      → Outcome H (PreparedWalletTransaction Tx B X) (PreparedWalletTransaction Tx B X)
      → LegacyReply H Tx B X
  legacy_apply a after (s, err e) = (s, [], err (slot_refused e))
  legacy_apply a after (s, ok p) = elim a.apply_changes [
    | ok u ↦ (afterwards after s, apply_state p.state p.transaction ∷ [], ok legacy_submitted)
    | err e ↦ (
      afterwards after s,
      apply_state p.state p.transaction ∷ delete_unconfirmed_balances ∷ [],
      ok legacy_submitted_needs_resync,
    )
  ]

  abbrev pub legacy_clear :
      {A : Type 0}
      → BroadcastTransactionOutcome
      → List (Call H (PreparedWalletTransaction Tx B X))
      → Outcome H (PreparedWalletTransaction Tx B X) A
      → LegacyReply H Tx B X
  legacy_clear outcome after (s, err e) = (s, [], err (slot_refused e))
  legacy_clear outcome after (s, ok r) =
      (afterwards after s, delete_unconfirmed_balances ∷ [], ok outcome)

module _ {H Tx B X : Type 0} ⦃hash_eq : Eq H⦄ where
  abbrev pub legacy_complete :
      Answers
      → List (Call H (PreparedWalletTransaction Tx B X))
      → PreparedTransactionGuard H (PreparedWalletTransaction Tx B X)
      → SubmissionResolution
      → PreparedTransactionStore H (PreparedWalletTransaction Tx B X)
      → LegacyReply H Tx B X
  legacy_complete a after guard submitted s = legacy_apply a after (finish guard s)
  legacy_complete a after guard (retryable e) s =
      legacy_clear legacy_retryable after (restore guard s)
  legacy_complete a after guard (daemon_rejected e) s =
      legacy_clear legacy_rejected after (finish guard s)
  legacy_complete a after guard (local_failure e) s =
      legacy_clear legacy_local_failure after (finish guard s)

  abbrev pub legacy_submitting :
      Answers
      → List (Call H (PreparedWalletTransaction Tx B X))
      → PreparedTransactionGuard H (PreparedWalletTransaction Tx B X)
      → PreparedWalletTransaction Tx B X
      → PreparedTransactionStore H (PreparedWalletTransaction Tx B X)
      → LegacyReply H Tx B X
  legacy_submitting a after guard p s =
      let (s', effects, reply) = legacy_complete a after guard (resolve_submission a.submit) s in
      (s', submit_transaction p.transaction ∷ effects, reply)

  unfoldable pub legacy_after_take :
      Answers
      → List (Request H (PreparedWalletTransaction Tx B X))
      → List (Call H (PreparedWalletTransaction Tx B X))
      → Outcome H
          (PreparedWalletTransaction Tx B X)
          (PreparedTransactionGuard H (PreparedWalletTransaction Tx B X))
      → LegacyReply H Tx B X
  legacy_after_take a during after (s, err e) = (s, [], err (slot_refused e))
  legacy_after_take a during after (s, ok guard) = elim (transaction_of guard) [
    | err e ↦ (drop_submission guard s, [], err (slot_refused e))
    | ok p ↦ legacy_submitting a after guard p (serve_all s during)
  ]

  -- `before` is what other tasks call while the storage is read, `during` what they call while the
  -- daemon answers, `after` what they call after this task gave the transaction up, until it replies.
  unfoldable pub broadcast_transaction :
      (String → Option H)
      → Answers
      → (before during : List (Request H (PreparedWalletTransaction Tx B X)))
      → List (Call H (PreparedWalletTransaction Tx B X))
      → PreparedTransactionStore H (PreparedWalletTransaction Tx B X)
      → String
      → LegacyReply H Tx B X
  unfolding legacy_after_take ensure_wallet_online
  broadcast_transaction from_hex a before during after s tx_hash =
      elim (ensure_wallet_online a.is_online) [
        | err e ↦ (s, [], err e)
        | ok u ↦ elim (legacy_storage_context a) [
          | err e ↦ (serve_all s before, [], err e)
          | ok v ↦ elim (from_hex tx_hash) [
            | none ↦ (serve_all s before, [], err hash_invalid)
            | some hash ↦ legacy_after_take a during after (take (serve_all s before) hash)
          ]
        ]
      ]

  abbrev pub cleared :
      Outcome H (PreparedWalletTransaction Tx B X) (PreparedWalletTransaction Tx B X)
      → PreparedTransactionStore H (PreparedWalletTransaction Tx B X) × Result LegacyError (Tx × B)
  cleared (s, err e) = (s, err (slot_refused e))
  cleared (s, ok p) = (s, ok (p.transaction, p.state))

  unfoldable pub clear_transaction_internal :
      (String → Option H)
      → PreparedTransactionStore H (PreparedWalletTransaction Tx B X)
      → String
      → PreparedTransactionStore H (PreparedWalletTransaction Tx B X) × Result LegacyError (Tx × B)
  clear_transaction_internal from_hex s tx_hash = elim (from_hex tx_hash) [
    | none ↦ (s, err hash_invalid)
    | some hash ↦ cleared (cancel s hash)
  ]
