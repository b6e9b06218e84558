-- ===== src/Transactions/Broadcast.antt =====
-- rust/src/api/wallet/transactions.rs: `broadcast_prepared_transaction`. The calls of the wallet
-- crate are answers that the environment gives, the changes that the code asks of it are a list of
-- effects, and what other tasks do to the slot at the three points where the code waits is a list of
-- their calls. (No other task can hold a guard until this one gives its own up:
-- Prepared/World/Invariant.antt. After that they call what they like, guards included.)
pub mod Fate
pub mod Examples
use xelis_wallet_flutter.Base.{
  ℕ, Bool, true, false, Option, none, some, List, [], ◌∷◌, Eq, String, if◌then◌else◌,
}
use xelis_wallet_flutter.Base.Results.{Result, ok, err, ◌>>=◌, ◌>>◌, map_err, ok_or}
use xelis_wallet_flutter.Errors.{NativeXelisError}
use xelis_wallet_flutter.Errors.Foreign.{AnyhowError, wallet, WalletError, not_online_mode, Kinds}
use xelis_wallet_flutter.Errors.Convert.{from_wallet_error, from_wallet_storage_operation}
use xelis_wallet_flutter.Prepared.{
  PreparedTransactionStore, Outcome, replace, begin_preparation, cancel, cancel_exact,
  take_for_submission, take_for_submission_exact, ensure_ready_exact,
}
use xelis_wallet_flutter.Prepared.Guards.{
  PreparedTransactionGuard, take_exact, drop_submission, restore, finish, transaction_of,
}
use xelis_wallet_flutter.Prepared.World.{Call}
use xelis_wallet_flutter.Prepared.World
use xelis_wallet_flutter.Transactions.PreparedErrors.{
  PreparedWalletTransaction, prepared_transaction_error, invalid_prepared_transaction_hash,
}
use xelis_wallet_flutter.Transactions.Submission.{
  SubmissionResolution, submitted, retryable, daemon_rejected, local_failure, resolve_submission,
}

pub data NativePreparedTransactionBroadcastOutcome : Type 0 where
  broadcast_submitted : NativePreparedTransactionBroadcastOutcome
  broadcast_retryable broadcast_rejected broadcast_local_failure broadcast_submitted_needs_resync :
      (failure : NativeXelisError) → NativePreparedTransactionBroadcastOutcome

-- What another task may call on the slot while a submission is under way.
pub data Request (H T : Type 0) : Type 0 where
  replace_request : H → T → Request H T
  begin_request : Request H T
  cancel_request : H → Request H T
  cancel_exact_request : ℕ → H → Request H T
  take_request : H → Request H T
  take_exact_request : ℕ → H → Request H T

module _ {H T : Type 0} ⦃hash_eq : Eq H⦄ where
  unfoldable pub serve : PreparedTransactionStore H T → Request H T → PreparedTransactionStore H T
  serve s (replace_request h t) = (replace s h t).0
  serve s begin_request = (begin_preparation s).0
  serve s (cancel_request h) = (cancel s h).0
  serve s (cancel_exact_request g h) = (cancel_exact s g h).0
  serve s (take_request h) = (take_for_submission s h).0
  serve s (take_exact_request g h) = (take_for_submission_exact s g h).0

  unfoldable pub serve_all :
      PreparedTransactionStore H T → List (Request H T) → PreparedTransactionStore H T
  serve_all s [] = s
  serve_all s (r ∷ rs) = serve_all (serve s r) rs

-- The answers of the wallet crate in one call.
pub record Answers : Type 0 where
  pub is_online : Bool
  pub tx_version : Result AnyhowError (Unit {0})
  pub synced_topoheight : Result AnyhowError (Unit {0})
  pub top_block_hash : Result AnyhowError (Unit {0})
  pub submit : Result WalletError (Unit {0})
  pub apply_changes : Result WalletError (Unit {0})

pub data Effect (Tx BuilderState : Type 0) : Type 0 where
  submit_transaction : Tx → Effect Tx BuilderState
  apply_state : BuilderState → Tx → Effect Tx BuilderState
  delete_unconfirmed_balances : Effect Tx BuilderState

module _ (kinds : Kinds) where
  -- The three reads of the storage, for the log.
  pub storage_context : Answers → Result NativeXelisError (Unit {0})
  storage_context a =
      map_err
        (λ e.
          from_wallet_storage_operation kinds e "PREPARED_TRANSACTION_STORAGE_VERSION_READ_FAILED")
        a.tx_version
      >> map_err
          (λ e. from_wallet_storage_operation kinds e "PREPARED_TRANSACTION_TOPOHEIGHT_READ_FAILED")
          a.synced_topoheight
      >> map_err
          (λ e. from_wallet_storage_operation kinds e "PREPARED_TRANSACTION_TOP_BLOCK_READ_FAILED")
          a.top_block_hash

-- The store, the effects in their order, and the reply.
abbrev pub Broadcast : Type 0 → Type 0 → Type 0 → Type 0 → Type 0
Broadcast H Tx B X =
    PreparedTransactionStore H (PreparedWalletTransaction Tx B X)
    × List (Effect Tx B)
    × Result NativeXelisError NativePreparedTransactionBroadcastOutcome

module _ {H Tx B X : Type 0} where
  abbrev pub failed :
      PreparedTransactionStore H (PreparedWalletTransaction Tx B X)
      → NativeXelisError
      → Broadcast H Tx B X
  failed s e = (s, [], err e)

module _ {H Tx B X : Type 0} ⦃hash_eq : Eq H⦄ where
  -- What other tasks make of the slot once the guard is given up, with calls of any kind.
  abbrev pub afterwards :
      List (Call H (PreparedWalletTransaction Tx B X))
      → PreparedTransactionStore H (PreparedWalletTransaction Tx B X)
      → PreparedTransactionStore H (PreparedWalletTransaction Tx B X)
  afterwards after s =
      (World.run (record { store = s; preparing = []; submitting = [] }) after).store

  -- `apply_changes` after a submission that the daemon accepted. `after` is what other tasks call
  -- until the storage is written.
  pub apply_locally :
      Kinds
      → Answers
      → List (Call H (PreparedWalletTransaction Tx B X))
      → Outcome H (PreparedWalletTransaction Tx B X) (PreparedWalletTransaction Tx B X)
      → Broadcast H Tx B X
  apply_locally kinds a after (s, err e) = failed s (prepared_transaction_error e)
  apply_locally kinds a after (s, ok p) = elim a.apply_changes [
    | ok u ↦ (afterwards after s, apply_state p.state p.transaction ∷ [], ok broadcast_submitted)
    | err e ↦ (
      afterwards after s,
      apply_state p.state p.transaction ∷ delete_unconfirmed_balances ∷ [],
      ok (
          broadcast_submitted_needs_resync (
            from_wallet_storage_operation kinds (wallet e)
              "PREPARED_TRANSACTION_LOCAL_APPLY_FAILED")),
    )
  ]

  -- `clear_unconfirmed_transaction_state` after the guard was restored or finished.
  pub clear_unconfirmed :
      {A : Type 0}
      → NativePreparedTransactionBroadcastOutcome
      → List (Call H (PreparedWalletTransaction Tx B X))
      → Outcome H (PreparedWalletTransaction Tx B X) A
      → Broadcast H Tx B X
  clear_unconfirmed outcome after (s, err e) = failed s (prepared_transaction_error e)
  clear_unconfirmed outcome after (s, ok r) =
      (afterwards after s, delete_unconfirmed_balances ∷ [], ok outcome)

module _ {H Tx B X : Type 0} ⦃hash_eq : Eq H⦄ (kinds : Kinds) where
  -- The `match` on the resolution.
  pub complete :
      Answers
      → List (Call H (PreparedWalletTransaction Tx B X))
      → PreparedTransactionGuard H (PreparedWalletTransaction Tx B X)
      → SubmissionResolution
      → PreparedTransactionStore H (PreparedWalletTransaction Tx B X)
      → Broadcast H Tx B X
  unfolding apply_locally clear_unconfirmed
  complete a after guard submitted s = apply_locally kinds a after (finish guard s)
  complete a after guard (retryable e) s =
      clear_unconfirmed (broadcast_retryable (from_wallet_error kinds e)) after (restore guard s)
  complete a after guard (daemon_rejected e) s =
      clear_unconfirmed (broadcast_rejected (from_wallet_error kinds e)) after (finish guard s)
  complete a after guard (local_failure e) s =
      clear_unconfirmed (broadcast_local_failure (from_wallet_error kinds e)) after (finish guard s)

  abbrev pub submitting :
      Answers
      → List (Call H (PreparedWalletTransaction Tx B X))
      → PreparedTransactionGuard H (PreparedWalletTransaction Tx B X)
      → PreparedWalletTransaction Tx B X
      → PreparedTransactionStore H (PreparedWalletTransaction Tx B X)
      → Broadcast H Tx B X
  submitting a after guard p s =
      let (s', effects, reply) = complete a after guard (resolve_submission a.submit) s in
      (s', submit_transaction p.transaction ∷ effects, reply)

  -- From the guard to the reply. An error before the submission drops the guard.
  pub broadcast_held :
      Answers
      → List (Request H (PreparedWalletTransaction Tx B X))
      → List (Call H (PreparedWalletTransaction Tx B X))
      → PreparedTransactionGuard H (PreparedWalletTransaction Tx B X)
      → PreparedTransactionStore H (PreparedWalletTransaction Tx B X)
      → Broadcast H Tx B X
  unfolding complete
  broadcast_held a during after guard s = elim (storage_context kinds a) [
    | err e ↦ failed (drop_submission guard s) e
    | ok u ↦ elim (transaction_of guard) [
      | err e ↦ failed (drop_submission guard s) (prepared_transaction_error e)
      | ok p ↦ submitting a after guard p (serve_all s during)
    ]
  ]

  pub after_take :
      Answers
      → (before during : List (Request H (PreparedWalletTransaction Tx B X)))
      → List (Call H (PreparedWalletTransaction Tx B X))
      → Outcome H
          (PreparedWalletTransaction Tx B X)
          (PreparedTransactionGuard H (PreparedWalletTransaction Tx B X))
      → Broadcast H Tx B X
  unfolding broadcast_held
  after_take a before during after (s, err e) = failed s (prepared_transaction_error e)
  after_take a before during after (s, ok guard) =
      broadcast_held a during after guard (serve_all s before)

  pub offline_prepared_transaction_outcome :
      PreparedTransactionStore H (PreparedWalletTransaction Tx B X)
      → ℕ
      → H
      → Result NativeXelisError NativePreparedTransactionBroadcastOutcome
  offline_prepared_transaction_outcome s preparation_id hash =
      map_err prepared_transaction_error (ensure_ready_exact s preparation_id hash)
      >> ok (broadcast_retryable (from_wallet_error kinds not_online_mode))

  -- `from_hex` is `Hash::from_hex`. `before` is what other tasks call while the storage is read,
  -- `during` what they call while the daemon answers, `after` what they call after this task gave
  -- the transaction up, until it replies.
  pub broadcast_prepared_transaction :
      (String → Option H)
      → Answers
      → (before during : List (Request H (PreparedWalletTransaction Tx B X)))
      → List (Call H (PreparedWalletTransaction Tx B X))
      → PreparedTransactionStore H (PreparedWalletTransaction Tx B X)
      → ℕ
      → String
      → Broadcast H Tx B X
  unfolding after_take offline_prepared_transaction_outcome
  broadcast_prepared_transaction from_hex a before during after s preparation_id tx_hash =
      elim (from_hex tx_hash) [
        | none ↦ failed s invalid_prepared_transaction_hash
        | some hash ↦
            if a.is_online
            then after_take a before during after (take_exact s preparation_id hash)
            else (s, [], offline_prepared_transaction_outcome s preparation_id hash)
      ]
