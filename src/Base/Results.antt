-- ===== src/Base/Results.antt =====
-- Rust's `Result` with `?` as bind.
use mathlib.Core.Path.{◌≡◌, refl, ap}
use mathlib.Core.Logic.{◌⊎◌, inl, inr}
use mathlib.Core.Bool.{Bool, true, false}
use native.Mathlib.Omega.{arith}
use mathlib.Core.Option.{Option, none, some}

infixl 5 ◌>>◌ ◌>>=◌
-- `Result<A, E>`.
pub data Result {ε α} (E : Type ε) (A : Type α) : Type (ε ⊔ α) where
  ok : (value : A) → Result E A
  err : (error : E) → Result E A

abbrev pub ◌>>=◌ {ε α β} :
    {E : Type ε} {A : Type α} {B : Type β} (first : Result E A) (next : A → Result E B) → Result E B
err error >>= next = err error
ok value >>= next = next value

abbrev pub ◌>>◌ {ε β} : {E : Type ε} {B : Type β} → Result E (Unit {0}) → Result E B → Result E B
check >> rest = check >>= λ passed. rest

-- `ensure!(test, error)`, or `if !test { return Err(error) }`.
abbrev pub ensure {ℓ} : {E : Type ℓ} → Bool → E → Result E (Unit {0})
ensure true e = ok tt
ensure false e = err e

-- `if test { return Err(error) }`.
abbrev pub refuse_if {ℓ} : {E : Type ℓ} → Bool → E → Result E (Unit {0})
refuse_if true e = err e
refuse_if false e = ok tt

-- `ok_or`.
abbrev pub ok_or {ℓ κ} : {E : Type ℓ} {A : Type κ} → Option A → E → Result E A
ok_or none e = err e
ok_or (some a) e = ok a

abbrev pub map_err {ℓ κ μ} :
    {E : Type ℓ} {F : Type κ} {A : Type μ} → (E → F) → Result E A → Result F A
map_err f (ok a) = ok a
map_err f (err e) = err (f e)

-- A chain that succeeds, taken apart at its first step.
pub >>=-elim {ℓ κ μ ν} :
    {E : Type ℓ} {A : Type κ} {B : Type μ} {C : Type ν} (m : Result E A) (f : A → Result E B)
    {b : B}
    → (m >>= f) ≡ ok b
    → ((a : A) → m ≡ ok a → f a ≡ ok b → C)
    → C
>>=-elim (ok a) f h k = k a refl h
>>=-elim (err e) f h k = cc

pub >>=-eq-ok {ε α β} :
    {E : Type ε} {A : Type α} {B : Type β} {last : B} (first : Result E A) (next : A → Result E B)
    → (first >>= next) ≡ ok last
    → (value : A) × (first ≡ ok value) × (next value ≡ ok last)
>>=-eq-ok first next done = >>=-elim first next done λ value start rest. (value, start, rest)

pub map_err-eq-ok {ℓ κ μ} :
    {E : Type ℓ} {F : Type κ} {A : Type μ} (f : E → F) (m : Result E A) {a : A}
    → map_err f m ≡ ok a
    → m ≡ ok a
map_err-eq-ok f (ok a) h = ground arith
map_err-eq-ok f (err e) h = cc

pub ok_or-eq-ok {ℓ κ} :
    {E : Type ℓ} {A : Type κ} (o : Option A) (e : E) {a : A} → ok_or o e ≡ ok a → o ≡ some a
ok_or-eq-ok none e h = cc
ok_or-eq-ok (some a) e h = ground arith

-- `?` on the result of a method that changes the state `S`: an error leaves the state it reached.
abbrev pub and_then {ℓ κ μ ν} :
    {S : Type ℓ} {E : Type κ} {A : Type μ} {B : Type ν}
    → S × Result E A
    → (S → A → S × Result E B)
    → S × Result E B
and_then (s, ok a) f = f s a
and_then (s, err e) f = (s, err e)

-- Such a chain that succeeds, taken apart at its first step.
pub and_then-eq-ok {ℓ κ μ ν} :
    {S : Type ℓ} {E : Type κ} {A : Type μ} {B : Type ν} (first : S × Result E A)
    (next : S → A → S × Result E B) {end : S} {last : B}
    → and_then first next ≡ (end, ok last)
    → (s : S) × (a : A) × (first ≡ (s, ok a)) × (next s a ≡ (end, ok last))
and_then-eq-ok (s, ok a) next h = (s, a, refl, h)
and_then-eq-ok (s, err e) next h = cc (ap (λ x. x.1) h)

pub map_err-eq-ok_pair {ℓ κ μ ν} :
    {S : Type ℓ} {E : Type κ} {F : Type μ} {A : Type ν} (f : E → F) (x : S × Result E A) {end : S}
    {last : A}
    → ◌≡◌ {A = S × Result F A} (x.0, map_err f x.1) (end, ok last)
    → x ≡ (end, ok last)
map_err-eq-ok_pair f (s, ok a) h = cc (ap (λ x. x.0) h, map_err-eq-ok f (ok a) (ap (λ x. x.1) h))
map_err-eq-ok_pair f (s, err e) h = cc (ap (λ x. x.1) h)

pub ok-inj {ℓ κ} : {E : Type ℓ} {A : Type κ} {a b : A} → ◌≡◌ {A = Result E A} (ok a) (ok b) → a ≡ b
ok-inj h = cc h

pub Result-cases {ℓ κ} :
    {E : Type ℓ} {A : Type κ} (r : Result E A) → ((e : E) × (r ≡ err e)) ⊎ ((a : A) × (r ≡ ok a))
Result-cases (ok a) = inr (a, refl)
Result-cases (err e) = inl (e, refl)
