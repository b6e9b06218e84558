-- ===== src/Xswd/Payload.antt =====
-- `NativeXswdPayload::project` of rust/src/api/models/xswd_dtos.rs: a JSON object as a flat stream
-- of tokens, cut off by limits.
pub mod Flat
pub mod Adds
pub mod Sound
pub mod Complete
pub mod Accepted
pub mod Reader
pub mod Examples
use xelis_wallet_flutter.Base.{
  ℕ, suc, ◌+◌, ◌%◌, ◌^◌, Bool, true, false, Option, none, some, List, [], ◌∷◌, ◌++◌, length, ltb,
  leb, String, if◌then◌else◌,
}
use Prim.Native.String.{len}
use xelis_wallet_flutter.Base.Int.{ℤ}
use xelis_wallet_flutter.Base.Results.{Result, ok, err, ◌>>◌, ◌>>=◌, refuse_if, ok_or}
use xelis_wallet_flutter.Base.Words.{checked_add, u32_max}
use xelis_wallet_flutter.Xswd.Limits.{NativeXswdProjectionLimits}

-- `serde_json::Value` over its numbers. A map is the list of its entries.
mutual
  pub data Value (N : Type 0) : Type 0 where
    null : Value N
    boolean : Bool → Value N
    number : N → Value N
    text : String → Value N
    array : Items N → Value N
    object : Fields N → Value N

  pub data Items (N : Type 0) : Type 0 where
    end : Items N
    item : Value N → Items N → Items N

  pub data Fields (N : Type 0) : Type 0 where
    close : Fields N
    field : String → Value N → Fields N → Fields N

module _ {N : Type 0} where
  abbrev pub length_items : Items N → ℕ
  length_items end = 0
  length_items (item v vs) = suc (length_items vs)

  abbrev pub length_fields : Fields N → ℕ
  length_fields close = 0
  length_fields (field k v fs) = suc (length_fields fs)

  abbrev pub is_object : Value N → Bool
  is_object (object fs) = true
  is_object _ = false

-- `serde_json::Number`, and the printing of Rust's integers.
pub record JsonNumbers (N F : Type 0) : Type 0 where
  pub as_i64 : N → Option ℤ
  pub as_u64 : N → Option ℕ
  pub as_f64 : N → Option F
  pub i64_to_string : ℤ → String
  pub u64_to_string : ℕ → String

pub data NativeXswdPayloadTokenKind : Type 0 where
  null_kind bool_kind string_value integer_kind float_kind : NativeXswdPayloadTokenKind
  array_start_kind object_start_kind object_key_kind : NativeXswdPayloadTokenKind

pub record NativeXswdPayloadToken (F : Type 0) : Type 0 where
  pub kind : NativeXswdPayloadTokenKind
  pub bool_value : Option Bool
  pub text_value : Option String
  pub float_value : Option F
  pub length : Option ℕ

module _ {F : Type 0} where
  abbrev pub with_kind : NativeXswdPayloadTokenKind → NativeXswdPayloadToken F
  with_kind k = record {
    kind = k;
    bool_value = none;
    text_value = none;
    float_value = none;
    length = none;
  }

  abbrev pub with_text : NativeXswdPayloadTokenKind → String → NativeXswdPayloadToken F
  with_text k s = record (with_kind k) { text_value = some s }

  -- `length as u32`.
  abbrev pub with_length : NativeXswdPayloadTokenKind → ℕ → NativeXswdPayloadToken F
  with_length k n = record (with_kind k) { length = some (n % 2 ^ 32) }

  abbrev pub bool_token : Bool → NativeXswdPayloadToken F
  bool_token b = record (with_kind bool_kind) { bool_value = some b }

  abbrev pub float_token : F → NativeXswdPayloadToken F
  float_token x = record (with_kind float_kind) { float_value = some x }

pub data XswdPayloadProjectionError : Type 0 where
  serialization root_not_object depth_limit token_limit : XswdPayloadProjectionError
  container_limit text_limit total_text_limit : XswdPayloadProjectionError
  unsupported_number : XswdPayloadProjectionError

pub record PayloadProjection (F : Type 0) : Type 0 where
  pub limits : NativeXswdProjectionLimits
  pub tokens : List (NativeXswdPayloadToken F)
  pub total_text_bytes : ℕ

-- A method on `&mut self` that may fail. The projection is dropped on an error.
abbrev pub Projected : Type 0 → Type 0
Projected F = Result XswdPayloadProjectionError (PayloadProjection F)

module _ {F : Type 0} where
  unfoldable pub push : NativeXswdPayloadToken F → PayloadProjection F → Projected F
  push token p = do
    refuse_if (leb p.limits.max_tokens (length p.tokens)) token_limit
    ok (record p { tokens = p.tokens ++ token ∷ [] })

  unfoldable pub validate_container_length : ℕ → PayloadProjection F → Projected F
  validate_container_length n p = do
    refuse_if (ltb p.limits.max_container_members n) container_limit
    ok p

  -- `usize_max` is the largest `usize` of the target.
  unfoldable pub add_text : ℕ → String → PayloadProjection F → Projected F
  add_text usize_max value p = do
    refuse_if (ltb p.limits.max_text_bytes (len value)) text_limit
    total ← ok_or (checked_add usize_max p.total_text_bytes (len value)) total_text_limit
    refuse_if (ltb p.limits.max_total_text_bytes total) total_text_limit
    ok (record p { total_text_bytes = total })

  abbrev pub check_depth : ℕ → PayloadProjection F → Projected F
  check_depth depth p = do refuse_if (ltb p.limits.max_depth depth) depth_limit; ok p

module _ {N F : Type 0} (numbers : JsonNumbers N F) where
  open numbers use {as_i64, as_u64, as_f64, i64_to_string, u64_to_string}

  -- The token of a number; `none` for one that is neither an integer of 64 bits nor a float.
  unfoldable pub number_token : N → Option (NativeXswdPayloadToken F)
  number_token n = elim (as_i64 n) [
    | some i ↦ some (with_text integer_kind (i64_to_string i))
    | none ↦ elim (as_u64 n) [
      | some u ↦ some (with_text integer_kind (u64_to_string u))
      | none ↦ elim (as_f64 n) [ some x ↦ some (float_token x) | none ↦ none ]
    ]
  ]

  module _ (usize_max : ℕ) where
    unfoldable mutual
      unfolding push validate_container_length add_text number_token

      pub project_value : Value N → ℕ → PayloadProjection F → Projected F
      project_value null depth p = check_depth depth p >>= push (with_kind null_kind)
      project_value (boolean b) depth p = check_depth depth p >>= push (bool_token b)
      project_value (text s) depth p =
          check_depth depth p >>= add_text usize_max s >>= push (with_text string_value s)
      project_value (number n) depth p = do
        q ← check_depth depth p
        token ← ok_or (number_token n) unsupported_number
        push token q
      project_value (array vs) depth p =
          check_depth depth p
          >>= validate_container_length (length_items vs)
          >>= push (with_length array_start_kind (length_items vs))
          >>= project_items vs (depth + 1)
      project_value (object fs) depth p =
          check_depth depth p
          >>= validate_container_length (length_fields fs)
          >>= push (with_length object_start_kind (length_fields fs))
          >>= project_fields fs (depth + 1)

      pub project_items : Items N → ℕ → PayloadProjection F → Projected F
      project_items end depth p = ok p
      project_items (item v vs) depth p = project_value v depth p >>= project_items vs depth

      pub project_fields : Fields N → ℕ → PayloadProjection F → Projected F
      project_fields close depth p = ok p
      project_fields (field k v fs) depth p =
          add_text usize_max k p
          >>= push (with_text object_key_kind k)
          >>= project_value v depth
          >>= project_fields fs depth

    -- `value` is what `serde_json::to_value` gives, `none` where it fails.
    unfoldable pub project :
        NativeXswdProjectionLimits
        → Option (Value N)
        → Result XswdPayloadProjectionError (List (NativeXswdPayloadToken F))
    unfolding project_value
    project limits value = do
      v ← ok_or value serialization
      refuse_if (if is_object v then false else true) root_not_object
      p ← project_value v 1 (record { limits = limits; tokens = []; total_text_bytes = 0 })
      ok p.tokens
