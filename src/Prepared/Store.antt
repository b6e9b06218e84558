-- ===== src/Prepared/Store.antt =====
-- How the methods that move the slot behave, case by case.
use xelis_wallet_flutter.Base.{
  ℕ, ◌≡◌, refl, ◌⊎◌, inl, inr, Bool, true, false, Option, none, some, Eq, nat_eq, ◌==◌, eq→≡,
  Bool-cases, arith,
}
use xelis_wallet_flutter.Base.Results.{ok, err}
use xelis_wallet_flutter.Prepared.{
  PreparedTransactionError, PreparedTransactionState, empty, ready, in_flight, same,
  preparation_in_progress, not_found, already_submitting, PreparedTransactionStore,
  take_for_submission, take_for_submission_exact,
}

-- The errors of a call that came at the wrong time or for another transaction.
abbrev pub is_refusal : PreparedTransactionError → Bool
is_refusal preparation_in_progress = true
is_refusal already_submitting = true
is_refusal not_found = true
is_refusal e = false

module _ {H : Type 0} ⦃hash_eq : Eq H⦄ where
  pub same-eq :
      (g : ℕ) (hash : H) (g' : ℕ) (h : H) → same g hash g' h ≡ true → (g' ≡ g) × (h ≡ hash)
  same-eq g hash g' h e = ground (arith, hash_eq.test_iff h hash)

module _ {H T : Type 0} ⦃hash_eq : Eq H⦄ where
  abbrev pub TakeCases : PreparedTransactionStore H T → H → Type 0
  TakeCases s hash =
      ((e : PreparedTransactionError) × (is_refusal e ≡ true)
        × (take_for_submission s hash ≡ (s, err e)))
      ⊎ ((g : ℕ) × (t : T) × (s.state ≡ ready g hash t)
          × (s.active_preparation ≡ none)
          × (take_for_submission s hash ≡ (record s { state = in_flight g hash }, ok (g, t))))

  take_slot :
      (st : PreparedTransactionState H T) (n : ℕ) (a : Option ℕ) (hash : H)
      → TakeCases (record { state = st; next_generation = n; active_preparation = a }) hash
  unfolding take_for_submission
  take_slot st n (some g) hash = inl (preparation_in_progress, refl, refl)
  take_slot empty n none hash = inl (not_found, refl, refl)
  take_slot (ready g h t) n none hash = elim (Bool-cases (h == hash)) [
    | inl e ↦ inr (g, t, ground (arith, eq→≡ h hash e), refl, ground (arith, eq→≡ h hash e))
    | inr e ↦ inl (not_found, refl, rw e)
  ]
  take_slot (in_flight g h) n none hash = elim (Bool-cases (h == hash)) [
    | inl e ↦ inl (already_submitting, refl, rw e)
    | inr e ↦ inl (not_found, refl, rw e)
  ]

  -- `take_for_submission` fails and changes nothing, or moves the ready transaction of that hash,
  -- with no preparation under way, in flight.
  pub take_for_submission-cases : (s : PreparedTransactionStore H T) (hash : H) → TakeCases s hash
  take_for_submission-cases s hash = take_slot s.state s.next_generation s.active_preparation hash

  abbrev pub TakeExactCases : PreparedTransactionStore H T → ℕ → H → Type 0
  TakeExactCases s g hash =
      ((e : PreparedTransactionError) × (is_refusal e ≡ true)
        × (take_for_submission_exact s g hash ≡ (s, err e)))
      ⊎ ((t : T) × (s.state ≡ ready g hash t)
          × (s.active_preparation ≡ none)
          × (take_for_submission_exact s g hash ≡ (record s { state = in_flight g hash }, ok t)))

  take_exact_slot :
      (st : PreparedTransactionState H T) (n : ℕ) (a : Option ℕ) (g : ℕ) (hash : H)
      → TakeExactCases (record { state = st; next_generation = n; active_preparation = a }) g hash
  unfolding take_for_submission_exact
  take_exact_slot st n (some a) g hash = inl (preparation_in_progress, refl, refl)
  take_exact_slot empty n none g hash = inl (not_found, refl, refl)
  take_exact_slot (ready g' h t) n none g hash = elim (Bool-cases (same g hash g' h)) [
    | inl e ↦ let q = same-eq g hash g' h e in inr (t, ground (arith, q), refl, ground (arith, q))
    | inr e ↦ inl (not_found, refl, rw e)
  ]
  take_exact_slot (in_flight g' h) n none g hash = elim (Bool-cases (same g hash g' h)) [
    | inl e ↦ inl (already_submitting, refl, rw e)
    | inr e ↦ inl (not_found, refl, rw e)
  ]

  pub take_for_submission_exact-cases :
      (s : PreparedTransactionStore H T) (g : ℕ) (hash : H) → TakeExactCases s g hash
  take_for_submission_exact-cases s g hash =
      take_exact_slot s.state s.next_generation s.active_preparation g hash
