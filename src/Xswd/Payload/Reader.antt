-- ===== src/Xswd/Payload/Reader.antt =====
-- The tokens of a projection are lossless: a reader of the stream gives the value back.
use xelis_wallet_flutter.Base.{
  ℕ, zero, suc, ◌+◌, ◌*◌, ◌≤◌, ◌≡◌, refl, subst, Option, none, some, List, [], ◌∷◌, ◌++◌, length,
  length-append, arith,
}
use mathlib.Core.List.{append-nil, append_assoc}
use xelis_wallet_flutter.Base.Results.{ok}
use xelis_wallet_flutter.Base.Words.{u32_max}
use xelis_wallet_flutter.Xswd.Limits.{NativeXswdProjectionLimits, validate}
use xelis_wallet_flutter.Xswd.Payload.{
  Value, Items, Fields, null, boolean, number, text, array, object, end, item, close, field,
  JsonNumbers, NativeXswdPayloadToken, null_kind, bool_kind, string_value, integer_kind, float_kind,
  array_start_kind, object_start_kind, object_key_kind, number_token, length_items, length_fields,
  project,
}
use xelis_wallet_flutter.Xswd.Payload.Flat.{
  flatten, flatten_items, flatten_fields, Within, WithinItems, WithinFields,
}
use xelis_wallet_flutter.Xswd.Payload.Accepted.{project-accepts}

infixl 5 ◌>>=◌
abbrev ◌>>=◌ : {A B : Type 0} → Option A → (A → Option B) → Option B
none >>= next = none
some a >>= next = next a

module _ {N F : Type 0} (read_number : NativeXswdPayloadToken F → Option N) where
  -- A value, and the tokens behind it. A container says how many members follow.
  unfoldable mutual
    pub read_value :
        ℕ → List (NativeXswdPayloadToken F) → Option (Value N × List (NativeXswdPayloadToken F))
    read_value zero ts = none
    read_value (suc fuel) [] = none
    read_value (suc fuel) (t ∷ ts) = elim t.kind [
      | null_kind ↦ some (null, ts)
      | bool_kind ↦ t.bool_value >>= λ b. some (boolean b, ts)
      | string_value ↦ t.text_value >>= λ s. some (text s, ts)
      | integer_kind ↦ read_number t >>= λ n. some (number n, ts)
      | float_kind ↦ read_number t >>= λ n. some (number n, ts)
      | array_start_kind ↦ t.length >>= λ n. read_items fuel n ts >>= λ r. some (array r.0, r.1)
      | object_start_kind ↦ t.length >>= λ n. read_fields fuel n ts >>= λ r. some (object r.0, r.1)
      | object_key_kind ↦ none
    ]

    pub read_items :
        ℕ → ℕ → List (NativeXswdPayloadToken F) → Option (Items N × List (NativeXswdPayloadToken F))
    read_items fuel zero ts = some (end, ts)
    read_items zero (suc n) ts = none
    read_items (suc fuel) (suc n) ts =
        read_value fuel ts >>= λ v. read_items fuel n v.1 >>= λ r. some (item v.0 r.0, r.1)

    pub read_fields :
        ℕ
        → ℕ
        → List (NativeXswdPayloadToken F)
        → Option (Fields N × List (NativeXswdPayloadToken F))
    read_fields fuel zero ts = some (close, ts)
    read_fields zero (suc n) ts = none
    read_fields (suc fuel) (suc n) [] = none
    read_fields (suc fuel) (suc n) (t ∷ ts) = t.text_value >>= λ k.
        read_value fuel ts >>= λ v. read_fields fuel n v.1 >>= λ r. some (field k v.0 r.0, r.1)

  -- Each token takes two calls at most.
  unfoldable pub read_payload :
      List (NativeXswdPayloadToken F) → Option (Value N × List (NativeXswdPayloadToken F))
  unfolding read_value
  read_payload ts = read_value (2 * length ts) ts

module _ {N F : Type 0} (numbers : JsonNumbers N F)
    (read_number : NativeXswdPayloadToken F → Option N)
    (reads : (n : N) (token : NativeXswdPayloadToken F)
      → number_token numbers n ≡ some token
      → read_number token ≡ some n) where
  number-read :
      (fuel : ℕ) (n : N) (token : NativeXswdPayloadToken F) (rest : List (NativeXswdPayloadToken F))
      → number_token numbers n ≡ some token
      → read_value read_number (suc fuel) (token ∷ rest) ≡ some (number n, rest)
  unfolding read_value number_token
  number-read fuel n token rest h = ground (arith, reads n token h)

  module _ (limits : NativeXswdProjectionLimits) where
    flatten-pos : (v : Value N) (d : ℕ) → Within numbers limits d v → 1 ≤ length (flatten numbers v)
    unfolding flatten Within
    flatten-pos null d w = omega arith
    flatten-pos (boolean b) d w = omega arith
    flatten-pos (text s) d w = omega arith
    flatten-pos (number n) d w = rw w.1.1 (omega arith)
    flatten-pos (array vs) d w = omega arith
    flatten-pos (object fs) d w = omega arith

    mutual
      unfolding flatten Within read_value

      read_value-flatten :
          (v : Value N) (d fuel : ℕ) (rest : List (NativeXswdPayloadToken F))
          → Within numbers limits d v
          → 2 * length (flatten numbers v) ≤ fuel
          → read_value read_number fuel (flatten numbers v ++ rest) ≡ some (v, rest)
      read_value-flatten v d zero rest w h = absurd (omega (arith, flatten-pos v d w))
      read_value-flatten null d (suc fuel) rest w h = refl
      read_value-flatten (boolean b) d (suc fuel) rest w h = refl
      read_value-flatten (text s) d (suc fuel) rest w h = refl
      read_value-flatten (number n) d (suc fuel) rest w h =
          rw w.1.1 (number-read fuel n w.1.0 rest w.1.1)
      read_value-flatten (array vs) d (suc fuel) rest w h =
          rw (read_items-flatten vs (d + 1) fuel rest w.2 (omega arith))
      read_value-flatten (object fs) d (suc fuel) rest w h =
          rw (read_fields-flatten fs (d + 1) fuel rest w.2 (omega arith))

      read_items-flatten :
          (vs : Items N) (d fuel : ℕ) (rest : List (NativeXswdPayloadToken F))
          → WithinItems numbers limits d vs
          → 2 * length (flatten_items numbers vs) + 1 ≤ fuel
          → read_items read_number fuel (length_items vs) (flatten_items numbers vs ++ rest)
            ≡ some (vs, rest)
      read_items-flatten end d fuel rest w h = refl
      read_items-flatten (item v vs) d zero rest w h = absurd (omega (arith, h))
      read_items-flatten (item v vs) d (suc fuel) rest w h =
          let long = length-append (flatten numbers v) (flatten_items numbers vs) in
          rw (append_assoc (flatten numbers v) (flatten_items numbers vs) rest) (
            rw
              (read_value-flatten v d fuel (flatten_items numbers vs ++ rest) w.0
                (omega (arith, h, long)))
              (rw (
                read_items-flatten vs d fuel rest w.1
                  (omega (arith, h, long, flatten-pos v d w.0)))))

      read_fields-flatten :
          (fs : Fields N) (d fuel : ℕ) (rest : List (NativeXswdPayloadToken F))
          → WithinFields numbers limits d fs
          → 2 * length (flatten_fields numbers fs) + 1 ≤ fuel
          → read_fields read_number fuel (length_fields fs) (flatten_fields numbers fs ++ rest)
            ≡ some (fs, rest)
      read_fields-flatten close d fuel rest w h = refl
      read_fields-flatten (field k v fs) d zero rest w h = absurd (omega (arith, h))
      read_fields-flatten (field k v fs) d (suc fuel) rest w h =
          let long = length-append (flatten numbers v) (flatten_fields numbers fs) in
          rw (append_assoc (flatten numbers v) (flatten_fields numbers fs) rest) (
            rw
              (read_value-flatten v d fuel (flatten_fields numbers fs ++ rest) w.1
                (omega (arith, h, long)))
              (rw (
                read_fields-flatten fs d fuel rest w.2
                  (omega (arith, h, long, flatten-pos v d w.1)))))

  -- Under limits that passed `validate`, where a usize has 32 bits or more, and with a reader of
  -- numbers that undoes their tokens, reading the tokens that the projection of a value returns
  -- gives the value, and leaves no token.
  pub read_payload-project :
      (usize_max : ℕ) (limits : NativeXswdProjectionLimits) (v : Value N)
      (ts : List (NativeXswdPayloadToken F))
      → validate limits ≡ ok limits
      → u32_max ≤ usize_max
      → project numbers usize_max limits (some v) ≡ ok ts
      → read_payload read_number ts ≡ some (v, [])
  unfolding read_payload
  read_payload-project usize_max limits v ts w x h =
      let (accepted, same) = (project-accepts numbers usize_max limits v ts w x).0 h in
      rw same (
        subst (λ t. read_value read_number (2 * length (flatten numbers v)) t ≡ some (v, []))
          (append-nil (flatten numbers v))
          (read_value-flatten limits v 1 (2 * length (flatten numbers v)) [] accepted.within
            (omega arith)))
