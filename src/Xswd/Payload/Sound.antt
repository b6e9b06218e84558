-- ===== src/Xswd/Payload/Sound.antt =====
-- What the projection of a value adds when it succeeds.
use xelis_wallet_flutter.Base.{ℕ, ◌+◌, ◌≤◌, ◌≡◌, sym, subst, [], ◌∷◌, ◌++◌, arith}
use mathlib.Core.List.{append-nil}
use xelis_wallet_flutter.Base.Results.{ok, ◌>>=◌, >>=-eq-ok, ok_or, ok_or-eq-ok}
use xelis_wallet_flutter.Base.Words.{u32_max}
use xelis_wallet_flutter.Xswd.Payload.{
  Value, Items, Fields, null, boolean, number, text, array, object, end, item, close, field,
  JsonNumbers, null_kind, string_value, array_start_kind, object_start_kind, object_key_kind,
  with_kind, with_text, bool_token, number_token, length_items, length_fields, PayloadProjection,
  push, add_text, check_depth, project_value, project_items, project_fields, unsupported_number,
}
use xelis_wallet_flutter.Xswd.Payload.Flat.{
  flatten, flatten_items, flatten_fields, to_list, text_bytes, text_bytes_items, text_bytes_fields,
  Within, WithinItems, WithinFields,
}
use xelis_wallet_flutter.Xswd.Payload.Adds.{
  Adds, Adds-trans, Adds-cons, push-Adds, add_text-Adds, at_depth, at_container,
}

module _ {N F : Type 0} (numbers : JsonNumbers N F) (usize_max : ℕ) where
  mutual
    unfolding project_value flatten text_bytes Within

    pub project_value-Adds :
        (v : Value N) (d : ℕ) (p : PayloadProjection F) {q : PayloadProjection F}
        → p.limits.max_container_members ≤ u32_max
        → project_value numbers usize_max v d p ≡ ok q
        → Adds (flatten numbers v) (text_bytes v) p q × Within numbers p.limits d v
    project_value-Adds null d p u h =
        let (deep, rest) = at_depth d p (push (with_kind null_kind)) h in (push-Adds _ p rest, deep)
    project_value-Adds (boolean b) d p u h =
        let (deep, rest) = at_depth d p (push (bool_token b)) h in (push-Adds _ p rest, deep)
    project_value-Adds (text s) d p {q} u h =
        let (o, added, pushed) =
          >>=-eq-ok (check_depth d p >>= add_text usize_max s) (push (with_text string_value s))
            h in
        let (deep, rest) = at_depth d p (add_text usize_max s) added in
        let (adds, short) = add_text-Adds usize_max s p rest in
        (
          subst (λ k. Adds (with_text string_value s ∷ []) k p q) (omega arith)
              (Adds-trans adds (push-Adds _ o pushed)),
          (deep, short),
        )
    project_value-Adds (number n) d p {q} u h =
        let (deep, rest) = at_depth d p _ h in
        let (token, known, pushed) =
          >>=-eq-ok (ok_or (number_token numbers n) unsupported_number) (λ token. push token p)
            rest in
        let known' = ok_or-eq-ok _ _ known in
        (
          subst (λ t. Adds (to_list t) 0 p q) (sym known') (push-Adds token p pushed),
          (deep, (token, known')),
        )
    project_value-Adds (array vs) d p u h =
        let (deep, fits, (o, opened, rest)) =
          at_container d (length_items vs) array_start_kind p
            (project_items numbers usize_max vs (d + 1)) u h in
        let (adds, within) =
          project_items-Adds vs (d + 1) o
            (subst (λ x. x.limits.max_container_members ≤ u32_max) (sym opened.extended) u) rest in
        (
          Adds-cons opened adds,
          (deep, fits, subst (λ x. WithinItems numbers x.limits (d + 1) vs) opened.extended within),
        )
    project_value-Adds (object fs) d p u h =
        let (deep, fits, (o, opened, rest)) =
          at_container d (length_fields fs) object_start_kind p
            (project_fields numbers usize_max fs (d + 1)) u h in
        let (adds, within) =
          project_fields-Adds fs (d + 1) o
            (subst (λ x. x.limits.max_container_members ≤ u32_max) (sym opened.extended) u) rest in
        (
          Adds-cons opened adds,
          (
            deep,
            fits,
            subst (λ x. WithinFields numbers x.limits (d + 1) fs) opened.extended within,
          ),
        )

    project_items-Adds :
        (vs : Items N) (d : ℕ) (p : PayloadProjection F) {q : PayloadProjection F}
        → p.limits.max_container_members ≤ u32_max
        → project_items numbers usize_max vs d p ≡ ok q
        → Adds (flatten_items numbers vs) (text_bytes_items vs) p q
          × WithinItems numbers p.limits d vs
    project_items-Adds end d p u h = (
      record {
        extended = ground (arith, append-nil p.tokens);
        few = λ g. rw append-nil g;
        short = λ g. ground arith;
      },
      tt,
    )
    project_items-Adds (item v vs) d p u h =
        let (o, first, rest) =
          >>=-eq-ok (project_value numbers usize_max v d p) (project_items numbers usize_max vs d)
            h in
        let (adds, within) = project_value-Adds v d p u first in
        let (adds', within') =
          project_items-Adds vs d o
            (subst (λ x. x.limits.max_container_members ≤ u32_max) (sym adds.extended) u) rest in
        (
          Adds-trans adds adds',
          (within, subst (λ x. WithinItems numbers x.limits d vs) adds.extended within'),
        )

    project_fields-Adds :
        (fs : Fields N) (d : ℕ) (p : PayloadProjection F) {q : PayloadProjection F}
        → p.limits.max_container_members ≤ u32_max
        → project_fields numbers usize_max fs d p ≡ ok q
        → Adds (flatten_fields numbers fs) (text_bytes_fields fs) p q
          × WithinFields numbers p.limits d fs
    project_fields-Adds close d p u h = (
      record {
        extended = ground (arith, append-nil p.tokens);
        few = λ g. rw append-nil g;
        short = λ g. ground arith;
      },
      tt,
    )
    project_fields-Adds (field key v fs) d p {q} u h =
        let (o, valued, rest) = >>=-eq-ok _ (project_fields numbers usize_max fs d) h in
        let (n, named, value_ok) = >>=-eq-ok _ (project_value numbers usize_max v d) valued in
        let (m, keyed, pushed) =
          >>=-eq-ok (add_text usize_max key p) (push (with_text object_key_kind key)) named in
        let (key_adds, short) = add_text-Adds usize_max key p keyed in
        let opened = Adds-trans key_adds (push-Adds _ m pushed) in
        let (adds, within) =
          project_value-Adds v d n
            (subst (λ x. x.limits.max_container_members ≤ u32_max) (sym opened.extended) u)
            value_ok in
        let both = Adds-trans opened adds in
        let (adds', within') =
          project_fields-Adds fs d o
            (subst (λ x. x.limits.max_container_members ≤ u32_max) (sym both.extended) u) rest in
        (
          subst
              (λ n.
                Adds
                  (with_text object_key_kind key ∷ (flatten numbers v ++ flatten_fields numbers fs))
                  n p q)
              (omega arith) (Adds-trans both adds'),
          (
            short,
            subst (λ x. Within numbers x.limits d v) opened.extended within,
            subst (λ x. WithinFields numbers x.limits d fs) both.extended within',
          ),
        )
