-- ===== src/Transactions/Broadcast/Fate.antt =====
-- What a broadcast does to the prepared slot, on every branch, and what other tasks find there.
use xelis_wallet_flutter.Base.{
  ℕ, ◌≡◌, refl, ◌⊎◌, inl, inr, ◌∙◌, true, Option, none, some, List, [], ◌∷◌, Eq, nat_eq, eq_refl,
  Bool-cases, Option-cases, ◌≢◌, sym, ap, String, arith,
}
use xelis_wallet_flutter.Base.Results.{ok, err, Result-cases}
use xelis_wallet_flutter.Errors.{NativeXelisError}
use xelis_wallet_flutter.Errors.Foreign.{Kinds, wallet}
use xelis_wallet_flutter.Errors.Convert.{from_wallet_error, from_wallet_storage_operation}
use xelis_wallet_flutter.Prepared.{
  PreparedTransactionStore, ready, in_flight, empty, replace, begin_preparation, cancel,
  cancel_exact, is_submitted,
}
use xelis_wallet_flutter.Prepared.Store.{
  TakeExactCases, take_for_submission-cases, take_for_submission_exact-cases,
}
use xelis_wallet_flutter.Prepared.Guards.{
  take_exact, drop_submission, restore, finish, transaction_of,
}
use xelis_wallet_flutter.Prepared.World.{Call}
use xelis_wallet_flutter.Prepared.Guards.RoundTrip.{take_exact-ready}
use xelis_wallet_flutter.Transactions.PreparedErrors.{PreparedWalletTransaction}
use xelis_wallet_flutter.Transactions.Submission.{
  SubmitErrorClass, classify_submit_error, resolve_submission,
}
use xelis_wallet_flutter.Transactions.Broadcast.{
  Request, replace_request, begin_request, cancel_request, cancel_exact_request, take_request,
  take_exact_request, serve, serve_all, afterwards, Answers, submit_transaction, apply_state,
  delete_unconfirmed_balances, storage_context, Broadcast, broadcast_prepared_transaction,
  broadcast_submitted, broadcast_retryable, broadcast_rejected, broadcast_local_failure,
  broadcast_submitted_needs_resync,
}

module _ {H T : Type 0} ⦃hash_eq : Eq H⦄ where
  serve-in_flight :
      (s : PreparedTransactionStore H T) (r : Request H T) (g : ℕ) (h : H)
      → s.state ≡ in_flight g h
      → s.active_preparation ≡ none
      → serve s r ≡ s
  unfolding serve replace begin_preparation cancel cancel_exact
  serve-in_flight s (replace_request h' t) g h flying idle = ground arith
  serve-in_flight s begin_request g h flying idle = ground arith
  serve-in_flight s (cancel_request h') g h flying idle = ground arith
  serve-in_flight s (cancel_exact_request g' h') g h flying idle = ground arith
  serve-in_flight s (take_request h') g h flying idle =
      ground (arith, take_for_submission-cases s h')
  serve-in_flight s (take_exact_request g' h') g h flying idle =
      ground (arith, take_for_submission_exact-cases s g' h')

  -- While a transaction is in flight, no call of another task changes the slot.
  pub serve_all-in_flight :
      (s : PreparedTransactionStore H T) (rs : List (Request H T)) (g : ℕ) (h : H)
      → s.state ≡ in_flight g h
      → s.active_preparation ≡ none
      → serve_all s rs ≡ s
  unfolding serve_all
  serve_all-in_flight s [] g h flying idle = refl
  serve_all-in_flight s (r ∷ rs) g h flying idle =
      ground (arith, serve-in_flight s r g h flying idle, serve_all-in_flight s rs g h flying idle)

module _ {H Tx B X : Type 0} (kinds : Kinds) where
  -- What a submission that took place does, by the daemon's answer, at the moment when the task
  -- gives the transaction up.
  unfoldable pub fate :
      Answers
      → PreparedTransactionStore H (PreparedWalletTransaction Tx B X)
      → PreparedWalletTransaction Tx B X
      → Broadcast H Tx B X
  fate a s p = elim a.submit [
    | ok u ↦ elim a.apply_changes [
      | ok v ↦ (
        record s { state = empty },
        submit_transaction p.transaction ∷ apply_state p.state p.transaction ∷ [],
        ok broadcast_submitted,
      )
      | err e ↦ (
        record s { state = empty },
        submit_transaction p.transaction
            ∷ apply_state p.state p.transaction
            ∷ delete_unconfirmed_balances
            ∷ [],
        ok (
            broadcast_submitted_needs_resync (
              from_wallet_storage_operation kinds (wallet e)
                "PREPARED_TRANSACTION_LOCAL_APPLY_FAILED")),
      )
    ]
    | err e ↦ elim (classify_submit_error e) [
      | SubmitErrorClass.retryable ↦ (
        s,
        submit_transaction p.transaction ∷ delete_unconfirmed_balances ∷ [],
        ok (broadcast_retryable (from_wallet_error kinds e)),
      )
      | SubmitErrorClass.daemon_rejected ↦ (
        record s { state = empty },
        submit_transaction p.transaction ∷ delete_unconfirmed_balances ∷ [],
        ok (broadcast_rejected (from_wallet_error kinds e)),
      )
      | SubmitErrorClass.local_failure ↦ (
        record s { state = empty },
        submit_transaction p.transaction ∷ delete_unconfirmed_balances ∷ [],
        ok (broadcast_local_failure (from_wallet_error kinds e)),
      )
    ]
  ]

-- A broadcast whose slot other tasks go on to call.
abbrev pub followed :
    {H Tx B X : Type 0}
    → ⦃hash_eq : Eq H⦄ → List (Call H (PreparedWalletTransaction Tx B X))
    → Broadcast H Tx B X
    → Broadcast H Tx B X
followed after (s, effects, reply) = (afterwards after s, effects, reply)

module _ {H Tx B X : Type 0} ⦃hash_eq : Eq H⦄ (kinds : Kinds) (from_hex : String → Option H) where
  -- An exact broadcast of the ready transaction, online, with a readable storage, submits it once,
  -- and gives it up as `fate` tells: it leaves the slot when the daemon took or rejected it or the
  -- failure is local, and is put back, unchanged, when the failure may be retried. What other tasks
  -- call until then changes nothing. What they call from then until the reply, such as a
  -- cancellation of the transaction that was put back, is all that happens to the slot afterwards,
  -- and changes neither the reply nor what was asked of the wallet.
  pub broadcast_prepared_transaction-fate :
      (a : Answers) (before during : List (Request H (PreparedWalletTransaction Tx B X)))
      (after : List (Call H (PreparedWalletTransaction Tx B X)))
      (s : PreparedTransactionStore H (PreparedWalletTransaction Tx B X)) (g : ℕ) (tx_hash : String)
      (hash : H) (p : PreparedWalletTransaction Tx B X)
      → from_hex tx_hash ≡ some hash
      → s.state ≡ ready g hash p
      → s.active_preparation ≡ none
      → a.is_online ≡ true
      → storage_context kinds a ≡ ok tt
      → broadcast_prepared_transaction kinds from_hex a before during after s g tx_hash
        ≡ followed after (fate kinds a s p)
  unfolding broadcast_prepared_transaction fate finish restore transaction_of is_submitted
      resolve_submission
  broadcast_prepared_transaction-fate a before during after s g tx_hash hash p parsed slot idle
        online read =
      let held = record s { state = in_flight g hash } in
      ground (
        arith,
        take_exact-ready s g hash p slot idle,
        serve_all-in_flight held before g hash refl idle,
        serve_all-in_flight held during g hash refl idle,
        eq_refl hash,
      )

  abbrev pub Untouched :
      PreparedTransactionStore H (PreparedWalletTransaction Tx B X) → Broadcast H Tx B X → Type 0
  Untouched s b = (b.0 ≡ s) × (b.1 ≡ [])

  abbrev pub Submitted :
      Answers
      → List (Call H (PreparedWalletTransaction Tx B X))
      → PreparedTransactionStore H (PreparedWalletTransaction Tx B X)
      → ℕ
      → String
      → Broadcast H Tx B X
      → Type 0
  Submitted a after s g tx_hash b =
      (hash : H) × (p : PreparedWalletTransaction Tx B X) × (from_hex tx_hash ≡ some hash)
      × (s.state ≡ ready g hash p)
      × (a.is_online ≡ true)
      × (b ≡ followed after (fate kinds a s p))

  online_cases :
      (a : Answers) (before during : List (Request H (PreparedWalletTransaction Tx B X)))
      (after : List (Call H (PreparedWalletTransaction Tx B X)))
      (s : PreparedTransactionStore H (PreparedWalletTransaction Tx B X)) (g : ℕ) (tx_hash : String)
      (hash : H)
      → from_hex tx_hash ≡ some hash
      → a.is_online ≡ true
      → TakeExactCases s g hash
      → let b = broadcast_prepared_transaction kinds from_hex a before during after s g tx_hash in
        Untouched s b ⊎ Submitted a after s g tx_hash b
  unfolding broadcast_prepared_transaction take_exact drop_submission is_submitted
  online_cases a before during after s g tx_hash hash parsed online (inl (e, refusal, refused)) =
      inl (ground arith)
  online_cases a before during after s g tx_hash hash parsed online (inr (p, slot, idle, taken)) =
      elim (Result-cases (storage_context kinds a)) [
        | inl (e, unread) ↦ inl (
            ground (
              arith,
              serve_all-in_flight (record s { state = in_flight g hash }) before g hash refl idle,
              eq_refl hash,
            ))
        | inr (u, read) ↦ inr (
          hash,
          p,
          parsed,
          slot,
          online,
          broadcast_prepared_transaction-fate a before during after s g tx_hash hash p parsed slot
              idle online read,
        )
      ]

  -- A broadcast with an id and a hash either submits nothing and leaves the slot untouched, or the
  -- slot held exactly that id and hash, `fate` tells the reply and what this task made of the slot,
  -- and the rest is what other tasks called after it gave the transaction up. What they call before
  -- that changes nothing.
  pub broadcast_prepared_transaction-cases :
      (a : Answers) (before during : List (Request H (PreparedWalletTransaction Tx B X)))
      (after : List (Call H (PreparedWalletTransaction Tx B X)))
      (s : PreparedTransactionStore H (PreparedWalletTransaction Tx B X)) (g : ℕ) (tx_hash : String)
      → let b = broadcast_prepared_transaction kinds from_hex a before during after s g tx_hash in
        Untouched s b ⊎ Submitted a after s g tx_hash b
  unfolding broadcast_prepared_transaction
  broadcast_prepared_transaction-cases a before during after s g tx_hash =
      elim (Option-cases (from_hex tx_hash)) [
        | inl malformed ↦ inl (ground arith)
        | inr (hash, parsed) ↦ elim (Bool-cases a.is_online) [
          | inl online ↦
              online_cases a before during after s g tx_hash hash parsed online
                (take_for_submission_exact-cases s g hash)
          | inr offline ↦ inl (ground arith)
        ]
      ]

  fate-not_err :
      (a : Answers) (s : PreparedTransactionStore H (PreparedWalletTransaction Tx B X))
      (p : PreparedWalletTransaction Tx B X) (e : NativeXelisError)
      → (fate kinds a s p).2 ≢ err e
  unfolding fate
  fate-not_err a s p e = ground arith

  -- An error reply means that nothing was submitted and the slot is as it was; so after a
  -- submission the caller always gets an outcome.
  pub broadcast_prepared_transaction-err :
      (a : Answers) (before during : List (Request H (PreparedWalletTransaction Tx B X)))
      (after : List (Call H (PreparedWalletTransaction Tx B X)))
      (s : PreparedTransactionStore H (PreparedWalletTransaction Tx B X)) (g : ℕ) (tx_hash : String)
      (e : NativeXelisError)
      → (broadcast_prepared_transaction kinds from_hex a before during after s g tx_hash).2 ≡ err e
      → ((broadcast_prepared_transaction kinds from_hex a before during after s g tx_hash).0 ≡ s)
        × ((broadcast_prepared_transaction kinds from_hex a before during after s g tx_hash).1 ≡ [])
  broadcast_prepared_transaction-err a before during after s g tx_hash e failed =
      elim (broadcast_prepared_transaction-cases a before during after s g tx_hash) [
        | inl untouched ↦ untouched
        | inr (hash, p, parsed, slot, online, done) ↦
            absurd (fate-not_err a s p e (sym (ap (λ b. b.2) done) ∙ failed))
      ]
