-- ===== src/Prepared/World.antt =====
-- rust/src/api/wallet/transactions/prepared.rs under concurrency. Every method takes the store's
-- lock once, so the calls of all tasks interleave as a sequence of whole methods; the guards that
-- tasks hold between their calls are kept in two lists.
pub mod Invariant
pub mod Safety
pub mod Capability
pub mod Retirement
pub mod Examples
use xelis_wallet_flutter.Base.{ℕ, Option, none, some, List, [], ◌∷◌, ◌++◌, Eq, get_elem?, erase_idx}
use xelis_wallet_flutter.Base.Results.{Result, ok, err}
use xelis_wallet_flutter.Prepared.{
  PreparedTransactionError, PreparedTransactionStore, Outcome, default, replace, cancel,
  cancel_exact,
}
use xelis_wallet_flutter.Prepared.Guards.{
  PreparedTransactionPreparationGuard, PreparedTransactionGuard, begin, drop_preparation, commit,
  take, take_exact, drop_submission, restore, finish,
}

pub record World (H T : Type 0) : Type 0 where
  pub store : PreparedTransactionStore H T
  pub preparing : List PreparedTransactionPreparationGuard
  pub submitting : List (PreparedTransactionGuard H T)

-- A call names the guard that it consumes by its place in the list.
pub data Call (H T : Type 0) : Type 0 where
  replaces : H → T → Call H T
  begins : Call H T
  commits : ℕ → H → T → Call H T
  abandons : ℕ → Call H T
  cancels : H → Call H T
  cancels_exact : ℕ → H → Call H T
  takes : H → Call H T
  takes_exact : ℕ → H → Call H T
  finishes : ℕ → Call H T
  restores : ℕ → Call H T
  interrupts : ℕ → Call H T

abbrev pub error_of :
    {A : Type 0} → Result PreparedTransactionError A → Option PreparedTransactionError
error_of (ok a) = none
error_of (err e) = some e

-- The world after a call, and the error that the caller sees.
abbrev pub Reply : Type 0 → Type 0 → Type 0
Reply H T = World H T × Option PreparedTransactionError

abbrev pub added : {A : Type 0} → Result PreparedTransactionError A → List A → List A
added (ok a) xs = a ∷ xs
added (err e) xs = xs

module _ {H T : Type 0} where
  abbrev pub start : World H T
  start = record { store = default; preparing = []; submitting = [] }

  abbrev pub plain : {A : Type 0} → World H T → Outcome H T A → Reply H T
  plain w (s, r) = (record w { store = s }, error_of r)

  abbrev pub preparation : World H T → Outcome H T PreparedTransactionPreparationGuard → Reply H T
  preparation w (s, r) = (record w { store = s; preparing = added r w.preparing }, error_of r)

  abbrev pub submission : World H T → Outcome H T (PreparedTransactionGuard H T) → Reply H T
  submission w (s, r) = (record w { store = s; submitting = added r w.submitting }, error_of r)

  -- The methods that consume a preparation guard. No guard at the place means no call.
  abbrev pub with_preparation :
      World H T → ℕ → (PreparedTransactionPreparationGuard → Outcome H T (Unit {0})) → Reply H T
  with_preparation w i method = elim (get_elem? w.preparing i) [
    | none ↦ (w, none)
    | some guard ↦ plain (record w { preparing = erase_idx w.preparing i }) (method guard)
  ]

  abbrev pub with_submission :
      World H T → ℕ → (PreparedTransactionGuard H T → Outcome H T (Unit {0})) → Reply H T
  with_submission w i method = elim (get_elem? w.submitting i) [
    | none ↦ (w, none)
    | some guard ↦ plain (record w { submitting = erase_idx w.submitting i }) (method guard)
  ]

  abbrev pub discard : {A : Type 0} → Outcome H T A → Outcome H T (Unit {0})
  discard (s, ok a) = (s, ok tt)
  discard (s, err e) = (s, err e)

module _ {H T : Type 0} ⦃hash_eq : Eq H⦄ where
  unfoldable pub step : World H T → Call H T → Reply H T
  unfolding replace cancel cancel_exact begin drop_preparation commit take take_exact
      drop_submission restore finish
  step w (replaces hash transaction) = plain w (replace w.store hash transaction)
  step w begins = preparation w (begin w.store)
  step w (commits i hash transaction) =
      with_preparation w i λ guard. discard (commit guard w.store hash transaction)
  step w (abandons i) = with_preparation w i λ guard. (drop_preparation guard w.store, ok tt)
  step w (cancels hash) = plain w (cancel w.store hash)
  step w (cancels_exact generation hash) = plain w (cancel_exact w.store generation hash)
  step w (takes hash) = submission w (take w.store hash)
  step w (takes_exact generation hash) = submission w (take_exact w.store generation hash)
  step w (finishes i) = with_submission w i λ guard. discard (finish guard w.store)
  step w (restores i) = with_submission w i λ guard. restore guard w.store
  step w (interrupts i) = with_submission w i λ guard. (drop_submission guard w.store, ok tt)

  unfoldable pub run : World H T → List (Call H T) → World H T
  run w [] = w
  run w (c ∷ cs) = run (step w c).0 cs
