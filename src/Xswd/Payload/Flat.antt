-- ===== src/Xswd/Payload/Flat.antt =====
-- What a projection should be, without limits and without state: the tokens of a value in the order
-- of its text, and the sizes that the limits bound.
use xelis_wallet_flutter.Base.{ℕ, ◌+◌, ◌≤◌, ◌≡◌, Option, none, some, List, [], ◌∷◌, ◌++◌}
use Prim.Native.String.{len}
use xelis_wallet_flutter.Xswd.Limits.{NativeXswdProjectionLimits}
use xelis_wallet_flutter.Xswd.Payload.{
  Value, Items, Fields, null, boolean, number, text, array, object, end, item, close, field,
  JsonNumbers, NativeXswdPayloadToken, NativeXswdPayloadTokenKind, null_kind, string_value,
  array_start_kind, object_start_kind, object_key_kind, with_kind, with_text, bool_token,
  number_token, length_items, length_fields,
}

abbrev pub start_token : {F : Type 0} → NativeXswdPayloadTokenKind → ℕ → NativeXswdPayloadToken F
start_token kind n = record (with_kind kind) { length = some n }

abbrev pub to_list : {A : Type 0} → Option A → List A
to_list none = []
to_list (some a) = a ∷ []

module _ {N : Type 0} where
  -- The bytes of all texts and keys.
  unfoldable mutual
    pub text_bytes : Value N → ℕ
    text_bytes null = 0
    text_bytes (boolean b) = 0
    text_bytes (number n) = 0
    text_bytes (text s) = len s
    text_bytes (array vs) = text_bytes_items vs
    text_bytes (object fs) = text_bytes_fields fs

    pub text_bytes_items : Items N → ℕ
    text_bytes_items end = 0
    text_bytes_items (item v vs) = text_bytes v + text_bytes_items vs

    pub text_bytes_fields : Fields N → ℕ
    text_bytes_fields close = 0
    text_bytes_fields (field k v fs) = len k + (text_bytes v + text_bytes_fields fs)

module _ {N F : Type 0} (numbers : JsonNumbers N F) where
  unfoldable mutual
    pub flatten : Value N → List (NativeXswdPayloadToken F)
    flatten null = with_kind null_kind ∷ []
    flatten (boolean b) = bool_token b ∷ []
    flatten (number n) = to_list (number_token numbers n)
    flatten (text s) = with_text string_value s ∷ []
    flatten (array vs) = start_token array_start_kind (length_items vs) ∷ flatten_items vs
    flatten (object fs) = start_token object_start_kind (length_fields fs) ∷ flatten_fields fs

    pub flatten_items : Items N → List (NativeXswdPayloadToken F)
    flatten_items end = []
    flatten_items (item v vs) = flatten v ++ flatten_items vs

    pub flatten_fields : Fields N → List (NativeXswdPayloadToken F)
    flatten_fields close = []
    flatten_fields (field k v fs) = with_text object_key_kind k ∷ (flatten v ++ flatten_fields fs)

  module _ (limits : NativeXswdProjectionLimits) where
    -- Each value is nested at most `max_depth` deep, each container has at most
    -- `max_container_members` members, each text at most `max_text_bytes` bytes, and each number has
    -- a token.
    unfoldable mutual
      pub Within : ℕ → Value N → Type 0
      Within d null = d ≤ limits.max_depth
      Within d (boolean b) = d ≤ limits.max_depth
      Within d (number n) =
          (d ≤ limits.max_depth)
          × ((token : NativeXswdPayloadToken F) × (number_token numbers n ≡ some token))
      Within d (text s) = (d ≤ limits.max_depth) × (len s ≤ limits.max_text_bytes)
      Within d (array vs) =
          (d ≤ limits.max_depth)
          × (length_items vs ≤ limits.max_container_members)
          × WithinItems (d + 1) vs
      Within d (object fs) =
          (d ≤ limits.max_depth)
          × (length_fields fs ≤ limits.max_container_members)
          × WithinFields (d + 1) fs

      pub WithinItems : ℕ → Items N → Type 0
      WithinItems d end = Unit
      WithinItems d (item v vs) = Within d v × WithinItems d vs

      pub WithinFields : ℕ → Fields N → Type 0
      WithinFields d close = Unit
      WithinFields d (field k v fs) =
          (len k ≤ limits.max_text_bytes) × Within d v × WithinFields d fs
