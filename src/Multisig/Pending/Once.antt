-- ===== src/Multisig/Pending/Once.antt =====
-- A request for signatures is consumed at most once.
use xelis_wallet_flutter.Base.{
  ℕ, ◌≤◌, ◌≡◌, ◌≢◌, ◌⊎◌, inl, inr, Option, none, some, List, [], ◌∷◌, Eq, nat_eq, Option-cases,
  Bool-cases, ◌==◌, ◌&&◌, arith,
}
use xelis_wallet_flutter.Base.Results.{Result, ok, err, Result-cases}
use xelis_wallet_flutter.Multisig.Pending.{
  MultisigError, pending, not_found, request_mismatch, PendingRequest, PendingMultisigStore,
  no_request, insert, cancel, validate, take_validated, PendingCall, inserts, cancels, takes,
  pending_step, pending_run,
}

module _ {H T : Type 0} where
  abbrev Holds : (ℕ → Type 0) → Option (PendingRequest H T) → Type 0
  Holds P none = Unit {0}
  Holds P (some r) = P r.request_id

  -- The pending request, if any, has an id that was issued.
  abbrev pub Issued : PendingMultisigStore H T → Type 0
  Issued s = Holds (λ id. id ≤ s.next_generation) s.request

  -- The id was issued, and is not that of the pending request.
  pub record Spent (g : ℕ) (s : PendingMultisigStore H T) : Type 0 where
    pub issued : g ≤ s.next_generation
    pub other : Holds (λ id. id ≢ g) s.request

module _ {H T : Type 0} ⦃hash_eq : Eq H⦄ (R : Type 0) (g : ℕ) (s : PendingMultisigStore H T) where
  -- No operation on the request with this id succeeds, whatever results a validation has.
  abbrev pub IsSpent : Type 0
  IsSpent =
      (hash : H) (check : T → Result MultisigError R) (result : R) (payload : T)
      → (validate s g hash check ≢ ok result)
        × ((take_validated s g hash check).1 ≢ ok (payload, result))
        × ((cancel s g hash).1 ≢ ok tt)

  Spent-IsSpent : Spent g s → IsSpent
  unfolding validate take_validated cancel
  Spent-IsSpent v hash check result payload = (ground arith, ground arith, ground arith)

module _ {H T R : Type 0} ⦃hash_eq : Eq H⦄ where
  -- A request is taken only under its own id and hash and when its validation succeeds; then it is
  -- handed out with the result and gone. Otherwise the store stays as it is, so that the request can
  -- be validated again.
  pub take_validated-cases :
      (s : PendingMultisigStore H T) (id : ℕ) (hash : H) (check : T → Result MultisigError R)
      → ((e : MultisigError) × (take_validated s id hash check ≡ (s, err e)))
        ⊎ ((r : PendingRequest H T) × (result : R) × (s.request ≡ some r)
            × (r.request_id ≡ id)
            × (r.signing_hash ≡ hash)
            × (check r.payload ≡ ok result)
            × (take_validated s id hash check
                ≡ (record s { request = none }, ok (r.payload, result))))
  unfolding take_validated
  take_validated-cases s id hash check = elim (Option-cases s.request) [
    | inl absent ↦ inl (pending not_found, ground arith)
    | inr (r, present) ↦ elim (Bool-cases (r.request_id == id && r.signing_hash == hash)) [
      | inr mismatch ↦ inl (pending request_mismatch, ground arith)
      | inl matching ↦ elim (Result-cases (check r.payload)) [
        | inl (e, refused) ↦ inl (e, ground arith)
        | inr (result, accepted) ↦ inr (
          r,
          result,
          present,
          ground arith,
          ground (arith, hash_eq.test_iff r.signing_hash hash),
          accepted,
          ground arith,
        )
      ]
    ]
  ]

  step-Issued :
      (s : PendingMultisigStore H T) (c : PendingCall H T R) → Issued s → Issued (pending_step s c)
  unfolding pending_step insert cancel
  step-Issued s (inserts h p) v = ground arith
  step-Issued s (cancels id h) v = ground arith
  step-Issued s (takes id h check) v = ground (arith, take_validated-cases s id h check)

  step-Spent :
      (g : ℕ) (s : PendingMultisigStore H T) (c : PendingCall H T R)
      → Spent g s
      → Spent g (pending_step s c)
  unfolding pending_step insert cancel
  step-Spent g s (inserts h p) v = ground arith
  step-Spent g s (cancels id h) v = ground arith
  step-Spent g s (takes id h check) v = ground (arith, take_validated-cases s id h check)

  run-Issued :
      (s : PendingMultisigStore H T) (cs : List (PendingCall H T R))
      → Issued s
      → Issued (pending_run s cs)
  unfolding pending_run
  run-Issued s [] v = v
  run-Issued s (c ∷ cs) v = run-Issued (pending_step s c) cs (step-Issued s c v)

  run-Spent :
      (g : ℕ) (s : PendingMultisigStore H T) (cs : List (PendingCall H T R))
      → Spent g s
      → Spent g (pending_run s cs)
  unfolding pending_run
  run-Spent g s [] v = v
  run-Spent g s (c ∷ cs) v = run-Spent g (pending_step s c) cs (step-Spent g s c v)

  -- Once a request was taken in a reachable store, no later calls of any tasks make a validation, a
  -- taking or a cancellation with its id succeed: its signatures are used for one transaction.
  pub taken_once :
      (before after : List (PendingCall H T R)) (g : ℕ) (hash : H)
      (check : T → Result MultisigError R) (payload : T) (result : R)
      → (take_validated (pending_run no_request before) g hash check).1 ≡ ok (payload, result)
      → IsSpent R g
          (pending_run (take_validated (pending_run no_request before) g hash check).0 after)
  taken_once before after g hash check payload result done =
      let s = pending_run no_request before in
      let issued = run-Issued no_request before tt in
      let spent : Spent g (take_validated s g hash check).0 = record {
        issued = ground (arith, take_validated-cases s g hash check);
        other = ground (arith, take_validated-cases s g hash check);
      } in
      Spent-IsSpent R g _ (run-Spent g _ after spent)

  -- Once a request was cancelled in a reachable store, no later calls of any tasks make a
  -- validation, a taking or a cancellation with its id succeed.
  pub cancelled_once :
      (before after : List (PendingCall H T R)) (g : ℕ) (hash : H)
      → (cancel (pending_run no_request before) g hash).1 ≡ ok tt
      → IsSpent R g (pending_run (cancel (pending_run no_request before) g hash).0 after)
  unfolding cancel
  cancelled_once before after g hash done =
      let s = pending_run no_request before in
      let issued = run-Issued no_request before tt in
      let spent : Spent g (cancel s g hash).0 = record {
        issued = ground arith;
        other = ground arith;
      } in
      Spent-IsSpent R g _ (run-Spent g _ after spent)
