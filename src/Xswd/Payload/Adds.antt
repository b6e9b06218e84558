-- ===== src/Xswd/Payload/Adds.antt =====
-- What a step of the projection adds to it when it succeeds.
use xelis_wallet_flutter.Base.{
  ℕ, ◌+◌, ◌≤◌, ◌≡◌, subst, List, [], ◌∷◌, ◌++◌, length, length-append, String, arith,
}
use Prim.Native.String.{len}
use mathlib.Core.List.{append-nil, append_assoc}
use xelis_wallet_flutter.Base.Results.{ok, ◌>>=◌, >>=-eq-ok}
use xelis_wallet_flutter.Base.Words.{u32_max}
use xelis_wallet_flutter.Xswd.Payload.{
  NativeXswdPayloadToken, with_length, PayloadProjection, push, validate_container_length, add_text,
  check_depth, Projected, NativeXswdPayloadTokenKind,
}
use xelis_wallet_flutter.Xswd.Payload.Flat.{start_token}

abbrev pub extend :
    {F : Type 0} → List (NativeXswdPayloadToken F) → ℕ → PayloadProjection F → PayloadProjection F
extend ts n p = record p { tokens = p.tokens ++ ts; total_text_bytes = p.total_text_bytes + n }

-- `q` is `p` with `ts` and `n` bytes of text added, and keeps within the totals where `p` does.
pub record Adds {F : Type 0} (ts : List (NativeXswdPayloadToken F)) (n : ℕ)
    (p q : PayloadProjection F) : Type 0 where
  pub extended : q ≡ extend ts n p
  pub few : length p.tokens ≤ p.limits.max_tokens → length (p.tokens ++ ts) ≤ p.limits.max_tokens
  pub short :
      p.total_text_bytes ≤ p.limits.max_total_text_bytes
      → p.total_text_bytes + n ≤ p.limits.max_total_text_bytes

module _ {F : Type 0} where
  pub with_length-small :
      (kind : NativeXswdPayloadTokenKind) (n : ℕ)
      → n ≤ u32_max
      → with_length {F = F} kind n ≡ start_token kind n
  with_length-small kind n h = ground arith

  pub Adds-trans :
      {ts us : List (NativeXswdPayloadToken F)} {m n : ℕ} {p q r : PayloadProjection F}
      → Adds ts m p q
      → Adds us n q r
      → Adds (ts ++ us) (m + n) p r
  Adds-trans {ts} {us} {m} {n} {p} {q} {r} a b = record {
    extended = ground (arith, append_assoc p.tokens ts us, a.extended, b.extended);
    few = λ g. ground (arith, append_assoc p.tokens ts us, a.extended, a.few g, b.few);
    short = λ g. ground (arith, a.extended, a.short g, b.short);
  }

  pub Adds-cons :
      {t : NativeXswdPayloadToken F} {us : List (NativeXswdPayloadToken F)} {n : ℕ}
      {p q r : PayloadProjection F}
      → Adds (t ∷ []) 0 p q
      → Adds us n q r
      → Adds (t ∷ us) n p r
  Adds-cons {t} {us} {n} {p} {r} a b =
      subst (λ k. Adds (t ∷ us) k p r) (omega arith) (Adds-trans a b)

  pub push-Adds :
      (token : NativeXswdPayloadToken F) (p : PayloadProjection F) {q : PayloadProjection F}
      → push token p ≡ ok q
      → Adds (token ∷ []) 0 p q
  unfolding push
  push-Adds token p h = record {
    extended = ground arith;
    few = λ g. ground (arith, length-append {0} p.tokens (token ∷ []));
    short = λ g. ground arith;
  }

  pub add_text-Adds :
      (usize_max : ℕ) (s : String) (p : PayloadProjection F) {q : PayloadProjection F}
      → add_text usize_max s p ≡ ok q
      → Adds [] (len s) p q × (len s ≤ p.limits.max_text_bytes)
  unfolding add_text
  add_text-Adds u s p h = (
    record {
      extended = ground (arith, append-nil p.tokens);
      few = λ g. rw append-nil g;
      short = λ g. ground arith;
    },
    ground arith,
  )

  pub check_depth-ok :
      (d : ℕ) (p : PayloadProjection F) {q : PayloadProjection F}
      → check_depth d p ≡ ok q
      → (d ≤ p.limits.max_depth) × (q ≡ p)
  check_depth-ok d p h = ground arith

  pub validate-ok :
      (n : ℕ) (p : PayloadProjection F) {q : PayloadProjection F}
      → validate_container_length n p ≡ ok q
      → (n ≤ p.limits.max_container_members) × (q ≡ p)
  unfolding validate_container_length
  validate-ok n p h = ground arith

  pub at_depth :
      (d : ℕ) (p : PayloadProjection F) (f : PayloadProjection F → Projected F)
      {q : PayloadProjection F}
      → (check_depth d p >>= f) ≡ ok q
      → (d ≤ p.limits.max_depth) × (f p ≡ ok q)
  at_depth d p f {q} h =
      let (p', start, rest) = >>=-eq-ok (check_depth d p) f h in
      let (within, same) = check_depth-ok d p start in (within, subst (λ x. f x ≡ ok q) same rest)

  -- The opening of a container.
  pub at_container :
      (d n : ℕ) (kind : NativeXswdPayloadTokenKind) (p : PayloadProjection F)
      (f : PayloadProjection F → Projected F) {q : PayloadProjection F}
      → p.limits.max_container_members ≤ u32_max
      → (check_depth d p >>= validate_container_length n >>= push (with_length kind n) >>= f) ≡ ok q
      → (d ≤ p.limits.max_depth)
        × (n ≤ p.limits.max_container_members)
        × ((o : PayloadProjection F) × Adds (start_token kind n ∷ []) 0 p o × (f o ≡ ok q))
  at_container d n kind p f u h =
      let token = with_length kind n in
      let (o, pushed, rest) =
        >>=-eq-ok (check_depth d p >>= validate_container_length n >>= push token) f h in
      let (p', valid, push_ok) =
        >>=-eq-ok (check_depth d p >>= validate_container_length n) (push token) pushed in
      let (deep, valid_ok) = at_depth d p (validate_container_length n) valid in
      let (fits, same) = validate-ok n p valid_ok in
      (
        deep,
        fits,
        (
          o,
          subst (λ t. Adds (t ∷ []) 0 p o) (with_length-small kind n (omega arith))
              (push-Adds token p (subst (λ x. push token x ≡ ok o) same push_ok)),
          rest,
        ),
      )
