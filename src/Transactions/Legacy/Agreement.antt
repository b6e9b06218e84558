-- ===== src/Transactions/Legacy/Agreement.antt =====
-- The broadcast by hash against the exact broadcast.
use xelis_wallet_flutter.Base.{
  ℕ, ◌≡◌, refl, true, Option, none, some, List, [], Eq, nat_eq, eq_refl, String, arith, ◌⊎◌, inl,
  inr,
}
use xelis_wallet_flutter.Base.Results.{ok, Result-cases}
use xelis_wallet_flutter.Errors.Foreign.{Kinds, wallet}
use xelis_wallet_flutter.Errors.Convert.{from_wallet_error, from_wallet_storage_operation}
use xelis_wallet_flutter.Prepared.{
  PreparedTransactionStore, ready, in_flight, is_submitted, take_for_submission,
}
use xelis_wallet_flutter.Prepared.Guards.{take, restore, finish, transaction_of}
use xelis_wallet_flutter.Prepared.World.{Call}
use xelis_wallet_flutter.Transactions.PreparedErrors.{PreparedWalletTransaction}
use xelis_wallet_flutter.Transactions.Submission.{
  SubmitErrorClass, classify_submit_error, resolve_submission,
}
use xelis_wallet_flutter.Transactions.Broadcast.{
  Request, Answers, NativePreparedTransactionBroadcastOutcome, broadcast_submitted, serve_all,
  afterwards, broadcast_retryable, broadcast_rejected, broadcast_local_failure,
  broadcast_submitted_needs_resync,
}
use xelis_wallet_flutter.Transactions.Broadcast.Fate.{fate, serve_all-in_flight}
use xelis_wallet_flutter.Transactions.Legacy.{
  BroadcastTransactionOutcome, legacy_submitted, legacy_retryable, legacy_rejected,
  legacy_local_failure, legacy_submitted_needs_resync, broadcast_transaction, ensure_wallet_online,
  legacy_after_take, legacy_storage_context,
}

-- The outcome without its failure.
abbrev pub legacy_of : NativePreparedTransactionBroadcastOutcome → BroadcastTransactionOutcome
legacy_of broadcast_submitted = legacy_submitted
legacy_of (broadcast_retryable failure) = legacy_retryable
legacy_of (broadcast_rejected failure) = legacy_rejected
legacy_of (broadcast_local_failure failure) = legacy_local_failure
legacy_of (broadcast_submitted_needs_resync failure) = legacy_submitted_needs_resync

class-cases :
    (c : SubmitErrorClass)
    → (c ≡ SubmitErrorClass.retryable)
      ⊎ ((c ≡ SubmitErrorClass.daemon_rejected) ⊎ (c ≡ SubmitErrorClass.local_failure))
class-cases SubmitErrorClass.retryable = inl refl
class-cases SubmitErrorClass.daemon_rejected = inr (inl refl)
class-cases SubmitErrorClass.local_failure = inr (inr refl)

module _ {H Tx B X : Type 0} ⦃hash_eq : Eq H⦄ (kinds : Kinds) (from_hex : String → Option H) where
  taken_ready :
      (s : PreparedTransactionStore H (PreparedWalletTransaction Tx B X)) (g : ℕ) (hash : H)
      (p : PreparedWalletTransaction Tx B X)
      → s.state ≡ ready g hash p
      → s.active_preparation ≡ none
      → take s hash ≡ (
        record s { state = in_flight g hash },
        ok (record { generation = g; hash = hash; transaction = some p }),
      )
  unfolding take take_for_submission
  taken_ready s g hash p slot idle = ground (arith, eq_refl hash)

  -- A broadcast by the hash of the ready transaction, online, with a readable storage and no other
  -- task ahead of it, does to the slot and the wallet what an exact broadcast does, and replies its
  -- outcome without the failure. Other tasks change nothing until it gives the transaction up, and
  -- what they call from then until the reply is all that happens to the slot afterwards.
  pub broadcast_transaction-fate :
      (a : Answers) (during : List (Request H (PreparedWalletTransaction Tx B X)))
      (after : List (Call H (PreparedWalletTransaction Tx B X)))
      (s : PreparedTransactionStore H (PreparedWalletTransaction Tx B X)) (g : ℕ) (tx_hash : String)
      (hash : H) (p : PreparedWalletTransaction Tx B X)
      → from_hex tx_hash ≡ some hash
      → s.state ≡ ready g hash p
      → s.active_preparation ≡ none
      → a.is_online ≡ true
      → legacy_storage_context a ≡ ok tt
      → (outcome : NativePreparedTransactionBroadcastOutcome) × ((fate kinds a s p).2 ≡ ok outcome)
        × (broadcast_transaction from_hex a [] during after s tx_hash
            ≡ (afterwards after (fate kinds a s p).0, (fate kinds a s p).1, ok (legacy_of outcome)))
  unfolding broadcast_transaction ensure_wallet_online fate legacy_after_take finish restore
      transaction_of is_submitted resolve_submission serve_all
  broadcast_transaction-fate a during after s g tx_hash hash p parsed slot idle online read =
      let moved = taken_ready s g hash p slot idle in
      let kept =
        serve_all-in_flight (record s { state = in_flight g hash }) during g hash refl idle in
      elim (Result-cases a.submit) [
        | inr (u, sent) ↦ elim (Result-cases a.apply_changes) [
          | inr (v, applied) ↦
              (broadcast_submitted, ground arith, ground (arith, moved, kept, eq_refl hash))
          | inl (e, failed) ↦ (
            broadcast_submitted_needs_resync (
                from_wallet_storage_operation kinds (wallet e)
                  "PREPARED_TRANSACTION_LOCAL_APPLY_FAILED"),
            ground arith,
            ground (arith, moved, kept, eq_refl hash),
          )
        ]
        | inl (e, refused) ↦ elim (class-cases (classify_submit_error e)) [
          | inl again ↦ (
            broadcast_retryable (from_wallet_error kinds e),
            ground arith,
            ground (arith, moved, kept, eq_refl hash),
          )
          | inr final ↦ elim final [
            | inl rejected ↦ (
              broadcast_rejected (from_wallet_error kinds e),
              ground arith,
              ground (arith, moved, kept, eq_refl hash),
            )
            | inr local ↦ (
              broadcast_local_failure (from_wallet_error kinds e),
              ground arith,
              ground (arith, moved, kept, eq_refl hash),
            )
          ]
        ]
      ]
