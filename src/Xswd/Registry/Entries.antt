-- ===== src/Xswd/Registry/Entries.antt =====
-- Lemmas on the entries of the registry.
use xelis_wallet_flutter.Base.{
  ℕ, ◌<◌, ◌≡◌, ◌≢◌, refl, Bool, true, false, not, none, some, List, [], ◌∷◌, map, nat_eq, eq_refl,
  keep_if-All, All-map, keep_if, any, All, inl, inr, Bool-cases, arith, ap, sym, subst, ◌∙◌,
}
use xelis_wallet_flutter.Xswd.Registry.{XswdSessionEntry, find_if, of_state, of_ref}

module _ {κ} (P : XswdSessionEntry → Type κ) where
  pub find_if-All :
      (p : XswdSessionEntry → Bool) (es : List XswdSessionEntry) (e : XswdSessionEntry)
      → All P es
      → find_if p es ≡ some e
      → (p e ≡ true) × P e
  find_if-All p [] e all h = cc
  find_if-All p (x ∷ es) e all h = elim (Bool-cases (p x)) [
    | inl found ↦ let same : x ≡ e = ground arith in (ap p (sym same) ∙ found, subst P same all.0)
    | inr other ↦ find_if-All p es e all.1 ground arith
  ]

pub find_if-none :
    (p : XswdSessionEntry → Bool) (es : List XswdSessionEntry)
    → find_if p es ≡ none
    → any p es ≡ false
find_if-none p [] h = refl
find_if-none p (x ∷ es) h = ground (arith, find_if-none p es)

-- An entry whose key is new replaces nothing.
pub keep_if-fresh :
    (next : ℕ) (es : List XswdSessionEntry)
    → All (λ e. e.session_ref < next) es
    → keep_if (λ e. not (of_ref next e)) es ≡ es
keep_if-fresh next [] all = refl
keep_if-fresh next (x ∷ es) all = ground (arith, keep_if-fresh next es all.1)

pub any-alive :
    (alive : ℕ → Bool) (state : ℕ) (es : List XswdSessionEntry)
    → alive state ≡ true
    → any (of_state state) (keep_if (λ e. alive e.state) es) ≡ any (of_state state) es
any-alive alive state [] h = refl
any-alive alive state (x ∷ es) h = elim (Bool-cases (of_state state x)) [
  | inl same ↦
      let known : x.state ≡ state = ground arith in
      let live : alive x.state ≡ true = ap alive known ∙ h in ground arith
  | inr other ↦ ground (arith, any-alive alive state es h)
]

pub any-map :
    (f : XswdSessionEntry → XswdSessionEntry) (state : ℕ) (es : List XswdSessionEntry)
    → ((e : XswdSessionEntry) → (f e).state ≡ e.state)
    → any (of_state state) (map f es) ≡ any (of_state state) es
any-map f state [] h = refl
any-map f state (x ∷ es) h = ground (arith, any-map f state es h, h x)

-- No two entries have one key.
abbrev pub Distinct : List XswdSessionEntry → Type 0
Distinct [] = Unit
Distinct (e ∷ es) = All (λ x. x.session_ref ≢ e.session_ref) es × Distinct es

pub keep_if-Distinct :
    (p : XswdSessionEntry → Bool) (es : List XswdSessionEntry)
    → Distinct es
    → Distinct (keep_if p es)
keep_if-Distinct p [] distinct = tt
keep_if-Distinct p (e ∷ es) distinct = elim (Bool-cases (p e)) [
  | inl kept ↦ rw (kept) (keep_if-All _ p es distinct.0, keep_if-Distinct p es distinct.1)
  | inr removed ↦ rw (removed) (keep_if-Distinct p es distinct.1)
]

pub map-Distinct :
    (f : XswdSessionEntry → XswdSessionEntry) (es : List XswdSessionEntry)
    → ((e : XswdSessionEntry) → (f e).session_ref ≡ e.session_ref)
    → Distinct es
    → Distinct (map f es)
map-Distinct f [] same distinct = tt
map-Distinct f (e ∷ es) same distinct = (
  All-map _ _ f (λ x differs h. differs (sym (same x) ∙ h ∙ same e)) es distinct.0,
  map-Distinct f es same distinct.1,
)

-- The entry of a state is the one that its own key finds.
pub find_if-of_ref :
    (state : ℕ) (es : List XswdSessionEntry) (e : XswdSessionEntry)
    → Distinct es
    → find_if (of_state state) es ≡ some e
    → find_if (of_ref e.session_ref) es ≡ some e
find_if-of_ref state [] e distinct h = cc
find_if-of_ref state (x ∷ es) e distinct h = elim (Bool-cases (of_state state x)) [
  | inl found ↦
      let same : x ≡ e = ground arith in
      let key : of_ref e.session_ref x ≡ true =
        ap (λ y. of_ref y.session_ref x) (sym same) ∙ eq_refl x.session_ref in
      ground arith
  | inr other ↦
      let later : find_if (of_state state) es ≡ some e = ground arith in
      let differs = (find_if-All _ (of_state state) es e distinct.0 later).1 in
      ground (arith, find_if-of_ref state es e distinct.1 later)
]

-- The entry that a key finds is still found without the dead entries, where its state is alive.
pub find_if-alive :
    (alive : ℕ → Bool) (session_ref : ℕ) (es : List XswdSessionEntry) (e : XswdSessionEntry)
    → alive e.state ≡ true
    → find_if (of_ref session_ref) es ≡ some e
    → find_if (of_ref session_ref) (keep_if (λ x. alive x.state) es) ≡ some e
find_if-alive alive session_ref [] e live h = cc
find_if-alive alive session_ref (x ∷ es) e live h = elim (Bool-cases (of_ref session_ref x)) [
  | inl found ↦
      let same : x ≡ e = ground arith in
      let kept : alive x.state ≡ true = ap (λ y. alive y.state) same ∙ live in ground arith
  | inr other ↦ ground (arith, find_if-alive alive session_ref es e live)
]
