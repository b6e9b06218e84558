-- ===== src/Xswd/Payload/Accepted.antt =====
-- The projection succeeds exactly on the values within its limits, with their tokens.
use xelis_wallet_flutter.Base.{
  ℕ, ◌≤◌, ◌≡◌, sym, ap, ◌↔◌, true, false, some, List, [], length, arith, if◌then◌else◌,
}
use xelis_wallet_flutter.Base.Results.{ok, refuse_if, >>=-eq-ok}
use xelis_wallet_flutter.Base.Words.{u32_max}
use xelis_wallet_flutter.Xswd.Limits.{NativeXswdProjectionLimits, validate, validate-bounds}
use xelis_wallet_flutter.Xswd.Payload.{
  Value, JsonNumbers, NativeXswdPayloadToken, PayloadProjection, root_not_object, project_value,
  project, is_object,
}
use xelis_wallet_flutter.Xswd.Payload.Flat.{flatten, text_bytes, Within}
use xelis_wallet_flutter.Xswd.Payload.Sound.{project_value-Adds}
use xelis_wallet_flutter.Xswd.Payload.Complete.{project_value-Room}

-- The values that `project` accepts under its limits.
pub record IsAccepted {N F : Type 0} (numbers : JsonNumbers N F)
    (limits : NativeXswdProjectionLimits) (v : Value N) : Type 0 where
  pub rooted : is_object v ≡ true
  pub within : Within numbers limits 1 v
  pub few : length (flatten numbers v) ≤ limits.max_tokens
  pub short : text_bytes v ≤ limits.max_total_text_bytes

module _ {N F : Type 0} (numbers : JsonNumbers N F) (usize_max : ℕ)
    (limits : NativeXswdProjectionLimits) (v : Value N) (ts : List (NativeXswdPayloadToken F)) where
  abbrev fresh : PayloadProjection F
  fresh = record { limits = limits; tokens = []; total_text_bytes = 0 }

  project_sound :
      limits.max_container_members ≤ u32_max
      → project numbers usize_max limits (some v) ≡ ok ts
      → IsAccepted numbers limits v × (ts ≡ flatten numbers v)
  unfolding project
  project_sound w h =
      let (u, rooted, rest) =
        >>=-eq-ok (refuse_if (if is_object v then false else true) root_not_object) _ h in
      let (q, walked, out) =
        >>=-eq-ok (project_value numbers usize_max v 1 fresh) (λ p. ok p.tokens) rest in
      let (adds, within) = project_value-Adds numbers usize_max v 1 fresh w walked in
      (
        record {
          rooted = ground arith;
          within = within;
          few = adds.few (omega arith);
          short = omega (arith, adds.short);
        },
        ground (arith, adds.extended),
      )

  project_complete :
      limits.max_container_members ≤ u32_max
      → limits.max_total_text_bytes ≤ usize_max
      → IsAccepted numbers limits v × (ts ≡ flatten numbers v)
      → project numbers usize_max limits (some v) ≡ ok ts
  unfolding project
  project_complete w x (a, same) =
      rw
        (
          a.rooted,
          project_value-Room numbers usize_max v 1 fresh a.within (record {
            words = (w, x);
            few = omega (arith, a.few);
            short = omega (arith, a.short);
          }),
        )
        (ap ok (sym same))

-- Under limits that passed `validate`, where a usize has 32 bits or more, the projection of a value
-- succeeds exactly when the value is an object, nests no deeper than the limit, has no container and
-- no text above its limit, no number without a token, and neither more tokens nor more bytes of text
-- than the limits; and the tokens are then those of the value, in its order.
pub project-accepts :
    {N F : Type 0} (numbers : JsonNumbers N F) (usize_max : ℕ) (limits : NativeXswdProjectionLimits)
    (v : Value N) (ts : List (NativeXswdPayloadToken F))
    → validate limits ≡ ok limits
    → u32_max ≤ usize_max
    → (project numbers usize_max limits (some v) ≡ ok ts)
      ↔ (IsAccepted numbers limits v × (ts ≡ flatten numbers v))
project-accepts numbers usize_max limits v ts valid wide =
    let (w, x) = validate-bounds limits valid in
    (
      project_sound numbers usize_max limits v ts w,
      project_complete numbers usize_max limits v ts w (omega arith),
    )
