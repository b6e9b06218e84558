-- ===== src/Transactions/Prepare/Slot.antt =====
-- What a preparation leaves in the slot: nothing new, or exactly the transaction that was planned.
use xelis_wallet_flutter.Base.{
  ℕ, ◌+◌, ◌≤◌, ◌≡◌, refl, ◌⊎◌, inl, inr, true, false, none, some, List, [], ◌∷◌, Eq, nat_eq, String,
  Option-cases, Bool-cases, leb, arith, subst, ◌==◌, eq→≡,
}
use xelis_wallet_flutter.Base.Results.{Result, ok, err, Result-cases}
use xelis_wallet_flutter.Base.Words.{u64_max}
use xelis_wallet_flutter.Errors.{NativeXelisError, operation_failed, internal, wallet_flutter_error}
use xelis_wallet_flutter.Errors.Convert.{from_wallet_operation}
use xelis_wallet_flutter.Errors.Foreign.{Kinds, wallet}
use xelis_wallet_flutter.Prepared.{
  PreparedTransactionStore, PreparedTransactionError, preparation_in_progress,
  replacement_during_submission, generation_overflow, ready, replace, begin_preparation, cancel,
  cancel_exact, is_in_flight,
}
use xelis_wallet_flutter.Prepared.Guards.{
  PreparedTransactionPreparationGuard, begin, drop_preparation, commit,
}
use xelis_wallet_flutter.Prepared.Store.{take_for_submission-cases, take_for_submission_exact-cases}
use xelis_wallet_flutter.Transactions.PreparedErrors.{prepared_transaction_error}
use xelis_wallet_flutter.Transactions.Broadcast.{
  Request, replace_request, begin_request, cancel_request, cancel_exact_request, take_request,
  take_exact_request, serve, serve_all,
}
use xelis_wallet_flutter.Transactions.Fees.{NativeTransactionFeePolicy, apply_fee_policy}
use xelis_wallet_flutter.Transactions.Prepare.{
  Wallet, Plan, Retained, Preparation, prepare, prepare_planned,
  create_and_commit_prepared_transaction, committed,
}

module _ {H T : Type 0} ⦃hash_eq : Eq H⦄ where
  serve-preparing :
      (s : PreparedTransactionStore H T) (r : Request H T) (g : ℕ)
      → s.active_preparation ≡ some g
      → serve s r ≡ s
  unfolding serve replace begin_preparation cancel cancel_exact
  serve-preparing s (replace_request h' t) g busy = ground arith
  serve-preparing s begin_request g busy = ground arith
  serve-preparing s (cancel_request h') g busy = ground arith
  serve-preparing s (cancel_exact_request g' h') g busy = ground arith
  serve-preparing s (take_request h') g busy = ground (arith, take_for_submission-cases s h')
  serve-preparing s (take_exact_request g' h') g busy =
      ground (arith, take_for_submission_exact-cases s g' h')

  -- While a preparation is under way, no call of another task changes the slot.
  pub serve_all-preparing :
      (s : PreparedTransactionStore H T) (rs : List (Request H T)) (g : ℕ)
      → s.active_preparation ≡ some g
      → serve_all s rs ≡ s
  unfolding serve_all
  serve_all-preparing s [] g busy = refl
  serve_all-preparing s (r ∷ rs) g busy =
      ground (arith, serve-preparing s r g busy, serve_all-preparing s rs g busy)

  begin-cases :
      (s : PreparedTransactionStore H T)
      → ((e : PreparedTransactionError) × (begin s ≡ (s, err e)))
        ⊎ ((s.active_preparation ≡ none)
            × (begin s ≡ (
              record s {
                next_generation = s.next_generation + 1;
                active_preparation = some (s.next_generation + 1);
              },
              ok (record { generation = s.next_generation + 1; active = true }),
            ))
            × (is_in_flight s.state ≡ false))
  unfolding begin
  begin-cases s = elim (Option-cases s.active_preparation) [
    | inr (g, busy) ↦ inl (preparation_in_progress, ground arith)
    | inl idle ↦ elim (Bool-cases (is_in_flight s.state)) [
      | inl flying ↦ inl (replacement_during_submission, ground arith)
      | inr free ↦ elim (Bool-cases (leb (s.next_generation + 1) u64_max)) [
        | inl room ↦ inr (idle, ground arith, free)
        | inr full ↦ inl (generation_overflow, ground arith)
      ]
    ]
  ]

module _ {H Data Tx B : Type 0} where
  -- The slot keeps what it held; at most the generation counter has moved.
  abbrev pub SlotKept : (s s' : PreparedTransactionStore H (Retained Data Tx B)) → Type 0
  SlotKept s s' =
      (s'.state ≡ s.state)
      × (s'.active_preparation ≡ s.active_preparation)
      × (s.next_generation ≤ s'.next_generation)
      × (s'.next_generation ≤ s.next_generation + 1)

  abbrev pub Failed :
      PreparedTransactionStore H (Retained Data Tx B) → Preparation H Data Tx B → Type 0
  Failed s r = SlotKept s r.0 × ((e : NativeXelisError) × (r.1 ≡ err e))

module _ {H Address Data Tx B : Type 0} where
  -- The slot holds the planned transaction under a fresh generation, which the reply names.
  abbrev pub Committed :
      Wallet H Address Data Tx B
      → (H → String)
      → Result NativeXelisError (Plan H Address Data)
      → PreparedTransactionStore H (Retained Data Tx B)
      → Preparation H Data Tx B
      → Type 0
  Committed w to_hex planned s r =
      (plan : Plan H Address Data) × (tx : Tx) × (state : B) × (planned ≡ ok plan)
      × (w.create_transaction plan.transaction_type plan.target_fee ≡ ok (tx, state))
      × (w.tx_fee tx ≡ plan.target_fee)
      × (s.active_preparation ≡ none)
      × (r ≡ (
        record s {
          state = ready (s.next_generation + 1) (w.tx_hash tx) (record {
            transaction = tx;
            state = state;
            review_extra_data = plan.review_extra_data;
          });
          next_generation = s.next_generation + 1;
        },
        ok (record {
          hash = to_hex (w.tx_hash tx);
          preparation_id = s.next_generation + 1;
          fee = plan.target_fee;
          transaction = plan.transaction;
        }),
      ))

module _ {H Address Data Tx B : Type 0} ⦃hash_eq : Eq H⦄ (kinds : Kinds)
    (w : Wallet H Address Data Tx B) (to_hex : H → String)
    (planned : Result NativeXelisError (Plan H Address Data))
    (during : List (Request H (Retained Data Tx B)))
    (s : PreparedTransactionStore H (Retained Data Tx B)) where
  abbrev begun : PreparedTransactionStore H (Retained Data Tx B)
  begun = record s {
    next_generation = s.next_generation + 1;
    active_preparation = some (s.next_generation + 1);
  }

  abbrev guard : PreparedTransactionPreparationGuard
  guard = record { generation = s.next_generation + 1; active = true }

  kept : (e : NativeXelisError) {r : Preparation H Data Tx B} → r ≡ (s, err e) → Failed s r
  kept e same = (ground arith, (e, ground arith))

  dropped :
      (e : NativeXelisError) {r : Preparation H Data Tx B}
      → s.active_preparation ≡ none
      → r ≡ (drop_preparation guard begun, err e)
      → Failed s r
  unfolding drop_preparation
  dropped e idle same = (ground arith, (e, ground arith))

  created-cases :
      (plan : Plan H Address Data)
      → planned ≡ ok plan
      → s.active_preparation ≡ none
      → is_in_flight s.state ≡ false
      → let r = create_and_commit_prepared_transaction kinds w to_hex guard plan begun in
        Failed s r ⊎ Committed w to_hex planned s r
  unfolding create_and_commit_prepared_transaction committed drop_preparation commit
  created-cases plan made idle free =
      elim (Result-cases (w.create_transaction plan.transaction_type plan.target_fee)) [
        | inl (e, refused) ↦ inl (
            dropped
              (from_wallet_operation kinds (wallet e) operation_failed
                "PREPARED_TRANSACTION_CREATION_FAILED")
              idle (ground arith))
        | inr ((tx, state), created) ↦ elim (Bool-cases (w.tx_fee tx == plan.target_fee)) [
          | inl agrees ↦ inr (
            plan,
            tx,
            state,
            made,
            created,
            eq→≡ (w.tx_fee tx) plan.target_fee agrees,
            idle,
            ground (arith, eq→≡ (w.tx_fee tx) plan.target_fee agrees),
          )
          | inr differs ↦ inl (
              dropped (wallet_flutter_error internal "PREPARED_TRANSACTION_FEE_MISMATCH") idle
                (ground arith))
        ]
      ]

  -- Every preparation either fails and keeps the slot as it was, or its plan succeeded, the wallet
  -- built the planned transaction with exactly the planned fee, and the slot holds it under the
  -- generation and hash that the reply names. This holds whatever other tasks call meanwhile.
  pub prepare-cases :
      (fee_policy : NativeTransactionFeePolicy)
      → let r = prepare kinds w to_hex fee_policy planned during s in
        Failed s r ⊎ Committed w to_hex planned s r
  unfolding prepare prepare_planned
  prepare-cases fee_policy = elim (Result-cases (apply_fee_policy 0 fee_policy)) [
    | inl (e, refused) ↦ inl (kept e ground arith)
    | inr (fee, allowed) ↦ elim (begin-cases s) [
      | inl (e, began) ↦ inl (kept (prepared_transaction_error e) ground arith)
      | inr (idle, began, free) ↦ elim (Result-cases planned) [
        | inl (e, failed) ↦ inl (
            dropped e idle
              (ground (arith, serve_all-preparing begun during (s.next_generation + 1) refl)))
        | inr (plan, made) ↦
            subst (λ r. Failed s r ⊎ Committed w to_hex planned s r)
              (ground (arith, serve_all-preparing begun during (s.next_generation + 1) refl))
              (created-cases plan made idle free)
      ]
    ]
  ]
