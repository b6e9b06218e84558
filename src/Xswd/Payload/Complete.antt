-- ===== src/Xswd/Payload/Complete.antt =====
-- The projection succeeds on every value within its limits.
use xelis_wallet_flutter.Base.{
  ℕ, ◌+◌, ◌≤◌, ◌≡◌, ap, ◌∙◌, List, [], ◌∷◌, ◌++◌, length, length-append, String, arith,
}
use Prim.Native.String.{len}
use mathlib.Core.List.{append-nil, append_assoc}
use xelis_wallet_flutter.Base.Results.{ok, ◌>>=◌}
use xelis_wallet_flutter.Base.Words.{u32_max}
use xelis_wallet_flutter.Xswd.Payload.{
  Value, Items, Fields, null, boolean, number, text, array, object, end, item, close, field,
  JsonNumbers, NativeXswdPayloadToken, null_kind, string_value, array_start_kind, object_start_kind,
  object_key_kind, with_kind, with_text, with_length, bool_token, length_items, length_fields,
  PayloadProjection, push, validate_container_length, add_text, check_depth, project_value,
  project_items, project_fields, NativeXswdPayloadTokenKind,
}
use xelis_wallet_flutter.Xswd.Payload.Flat.{
  flatten, flatten_items, flatten_fields, start_token, text_bytes, text_bytes_items,
  text_bytes_fields, Within, WithinItems, WithinFields,
}
use xelis_wallet_flutter.Xswd.Payload.Adds.{extend, with_length-small}

-- There is room for `ts` and `n` bytes of text; the limits are those of the machine.
pub record Room {F : Type 0} (usize_max : ℕ) (ts : List (NativeXswdPayloadToken F)) (n : ℕ)
    (p : PayloadProjection F) : Type 0 where
  pub words :
      (p.limits.max_container_members ≤ u32_max) × (p.limits.max_total_text_bytes ≤ usize_max)
  pub few : length p.tokens + length ts ≤ p.limits.max_tokens
  pub short : p.total_text_bytes + n ≤ p.limits.max_total_text_bytes

module _ {F : Type 0} where
  push-room :
      (token : NativeXswdPayloadToken F) (p : PayloadProjection F)
      → length p.tokens + 1 ≤ p.limits.max_tokens
      → push token p ≡ ok (extend (token ∷ []) 0 p)
  unfolding push
  push-room token p h = ground arith

  add_text-room :
      (usize_max : ℕ) (s : String) (p : PayloadProjection F)
      → len s ≤ p.limits.max_text_bytes
      → p.limits.max_total_text_bytes ≤ usize_max
      → p.total_text_bytes + len s ≤ p.limits.max_total_text_bytes
      → add_text usize_max s p ≡ ok (extend [] (len s) p)
  unfolding add_text
  add_text-room u s p h w t = ground (arith, append-nil p.tokens)

  container-room :
      (d n : ℕ) (kind : NativeXswdPayloadTokenKind) (p : PayloadProjection F)
      → d ≤ p.limits.max_depth
      → n ≤ p.limits.max_container_members
      → p.limits.max_container_members ≤ u32_max
      → length p.tokens + 1 ≤ p.limits.max_tokens
      → (check_depth d p >>= validate_container_length n >>= push (with_length kind n))
        ≡ ok (extend (start_token kind n ∷ []) 0 p)
  unfolding validate_container_length
  container-room d n kind p h c w r =
      ground (arith, push-room (start_token kind n) p, with_length-small {F = F} kind n)

  extend-extend :
      (ts us : List (NativeXswdPayloadToken F)) (m n : ℕ) (p : PayloadProjection F)
      → extend us n (extend ts m p) ≡ extend (ts ++ us) (m + n) p
  extend-extend ts us m n p = ground (arith, append_assoc p.tokens ts us)

  key-room :
      (u : ℕ) (k : String) (p : PayloadProjection F)
      → len k ≤ p.limits.max_text_bytes
      → p.limits.max_total_text_bytes ≤ u
      → p.total_text_bytes + len k ≤ p.limits.max_total_text_bytes
      → length p.tokens + 1 ≤ p.limits.max_tokens
      → (add_text u k p >>= push (with_text object_key_kind k))
        ≡ ok (extend (with_text object_key_kind k ∷ []) (len k) p)
  key-room u k p h w t few = rw (add_text-room u k p h w t) (
      push-room (with_text object_key_kind k) (extend [] (len k) p)
        (omega (arith, few, ap length (append-nil p.tokens)))
      ∙ ap ok (ground (arith, append-nil p.tokens)))

  -- Room for two parts is room for the first, and then for the second.
  Room-first :
      (u : ℕ) (ts us : List (NativeXswdPayloadToken F)) (m n : ℕ) (p : PayloadProjection F)
      → Room u (ts ++ us) (m + n) p
      → Room u ts m p
  Room-first u ts us m n p r = record {
    words = r.words;
    few = omega (arith, r.few, length-append ts us);
    short = omega (arith, r.short);
  }

  Room-second :
      (u : ℕ) (ts us : List (NativeXswdPayloadToken F)) (m n : ℕ) (p : PayloadProjection F)
      → Room u (ts ++ us) (m + n) p
      → Room u us n (extend ts m p)
  Room-second u ts us m n p r = record {
    words = r.words;
    few = omega (arith, r.few, length-append ts us, length-append p.tokens ts);
    short = omega (arith, r.short);
  }

  -- The rest of a container, behind its opening.
  Room-inside :
      (u : ℕ) (t : NativeXswdPayloadToken F) (us : List (NativeXswdPayloadToken F)) (n : ℕ)
      (p : PayloadProjection F)
      → Room u (t ∷ us) n p
      → Room u us n (extend (t ∷ []) 0 p)
  Room-inside u t us n p r = record {
    words = r.words;
    few = omega (arith, r.few, length-append p.tokens (t ∷ []));
    short = omega (arith, r.short);
  }

  extend-inside :
      (t : NativeXswdPayloadToken F) (us : List (NativeXswdPayloadToken F)) (n : ℕ)
      (p : PayloadProjection F)
      → extend us n (extend (t ∷ []) 0 p) ≡ extend (t ∷ us) n p
  extend-inside t us n p = ground (arith, append_assoc p.tokens (t ∷ []) us)

module _ {N F : Type 0} (numbers : JsonNumbers N F) (usize_max : ℕ) where
  mutual
    unfolding project_value flatten text_bytes Within

    pub project_value-Room :
        (v : Value N) (d : ℕ) (p : PayloadProjection F)
        → Within numbers p.limits d v
        → Room usize_max (flatten numbers v) (text_bytes v) p
        → project_value numbers usize_max v d p ≡ ok (extend (flatten numbers v) (text_bytes v) p)
    project_value-Room null d p w r = ground (arith, r.few, push-room (with_kind null_kind) p)
    project_value-Room (boolean b) d p w r = ground (arith, r.few, push-room (bool_token b) p)
    project_value-Room (text s) d p w r = ground (
      arith,
      r.few,
      r.short,
      r.words,
      w,
      append-nil p.tokens,
      add_text-room usize_max s p,
      push-room (with_text string_value s) (extend [] (len s) p),
    )
    project_value-Room (number n) d p w r = ground (arith, r.few, w, push-room w.1.0 p)
    project_value-Room (array vs) d p w r =
        let t : NativeXswdPayloadToken F = start_token array_start_kind (length_items vs) in
        let rest = flatten_items numbers vs in
        let n = text_bytes_items vs in
        rw
          (container-room d (length_items vs) array_start_kind p w.0 w.1 r.words.0
            (omega (arith, r.few)))
          (project_items-Room vs (d + 1) (extend (t ∷ []) 0 p) w.2
              (Room-inside usize_max t rest n p r)
            ∙ ap ok (extend-inside t rest n p))
    project_value-Room (object vs) d p w r =
        let t : NativeXswdPayloadToken F = start_token object_start_kind (length_fields vs) in
        let rest = flatten_fields numbers vs in
        let n = text_bytes_fields vs in
        rw
          (container-room d (length_fields vs) object_start_kind p w.0 w.1 r.words.0
            (omega (arith, r.few)))
          (project_fields-Room vs (d + 1) (extend (t ∷ []) 0 p) w.2
              (Room-inside usize_max t rest n p r)
            ∙ ap ok (extend-inside t rest n p))

    project_items-Room :
        (vs : Items N) (d : ℕ) (p : PayloadProjection F)
        → WithinItems numbers p.limits d vs
        → Room usize_max (flatten_items numbers vs) (text_bytes_items vs) p
        → project_items numbers usize_max vs d p
          ≡ ok (extend (flatten_items numbers vs) (text_bytes_items vs) p)
    project_items-Room end d p w r = ground (arith, append-nil p.tokens)
    project_items-Room (item v vs) d p w r =
        rw
          (project_value-Room v d p w.0 (
            Room-first usize_max (flatten numbers v) (flatten_items numbers vs) (text_bytes v)
              (text_bytes_items vs) p r))
          (project_items-Room vs d (extend (flatten numbers v) (text_bytes v) p) w.1 (
              Room-second usize_max (flatten numbers v) (flatten_items numbers vs) (text_bytes v)
                (text_bytes_items vs) p r)
            ∙ ap ok (
                extend-extend (flatten numbers v) (flatten_items numbers vs) (text_bytes v)
                  (text_bytes_items vs) p))

    project_fields-Room :
        (fs : Fields N) (d : ℕ) (p : PayloadProjection F)
        → WithinFields numbers p.limits d fs
        → Room usize_max (flatten_fields numbers fs) (text_bytes_fields fs) p
        → project_fields numbers usize_max fs d p
          ≡ ok (extend (flatten_fields numbers fs) (text_bytes_fields fs) p)
    project_fields-Room close d p w r = ground (arith, append-nil p.tokens)
    project_fields-Room (field k v fs) d p w r =
        let key = with_text object_key_kind k ∷ [] in
        let first = flatten numbers v in
        let rest = flatten_fields numbers fs in
        let opened = extend key (len k) p in
        let inside =
          Room-second usize_max key (first ++ rest) (len k) (text_bytes v + text_bytes_fields fs) p
            r in
        rw (key-room usize_max k p w.0 r.words.1 (omega (arith, r.short)) (omega (arith, r.few))) (
          rw
            (project_value-Room v d opened w.1
              (Room-first usize_max first rest (text_bytes v) (text_bytes_fields fs) opened inside))
            (project_fields-Room fs d (extend first (text_bytes v) opened) w.2 (
                Room-second usize_max first rest (text_bytes v) (text_bytes_fields fs) opened
                  inside)
              ∙ ap ok (
                  extend-extend first rest (text_bytes v) (text_bytes_fields fs) opened
                  ∙ extend-extend key (first ++ rest) (len k) (text_bytes v + text_bytes_fields fs)
                      p)))
