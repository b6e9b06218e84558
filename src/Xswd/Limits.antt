-- ===== src/Xswd/Limits.antt =====
-- `NativeXswdProjectionLimits` of rust/src/api/models/xswd_dtos.rs. The fields are u32.
use xelis_wallet_flutter.Base.{ℕ, ◌*◌, ◌≤◌, ◌≡◌, Bool, ◌||◌, nat_eq, ◌==◌, String, ltb, arith}
use xelis_wallet_flutter.Base.Results.{Result, ok, ◌>>◌, refuse_if}
use xelis_wallet_flutter.Base.Words.{u32_max}

pub record NativeXswdProjectionLimits : Type 0 where
  pub max_depth : ℕ
  pub max_tokens : ℕ
  pub max_container_members : ℕ
  pub max_text_bytes : ℕ
  pub max_total_text_bytes : ℕ

pub data XswdProjectionLimitsError : Type 0 where
  depth tokens container_members text_bytes total_text_bytes : XswdProjectionLimitsError

pub code : XswdProjectionLimitsError → String
code depth = "XSWD_LIMIT_MAX_DEPTH_INVALID"
code tokens = "XSWD_LIMIT_MAX_TOKENS_INVALID"
code container_members = "XSWD_LIMIT_MAX_CONTAINER_MEMBERS_INVALID"
code text_bytes = "XSWD_LIMIT_MAX_TEXT_BYTES_INVALID"
code total_text_bytes = "XSWD_LIMIT_MAX_TOTAL_TEXT_BYTES_INVALID"

abbrev pub default_limits : NativeXswdProjectionLimits
default_limits = record {
  max_depth = 64;
  max_tokens = 65536;
  max_container_members = 4096;
  max_text_bytes = 4 * 1024 * 1024;
  max_total_text_bytes = 8 * 1024 * 1024;
}

abbrev pub technical_max : NativeXswdProjectionLimits
technical_max = record {
  max_depth = 128;
  max_tokens = 262144;
  max_container_members = 65536;
  max_text_bytes = 8 * 1024 * 1024;
  max_total_text_bytes = 16 * 1024 * 1024;
}

-- `value == 0 || value > technical`.
abbrev pub outside : ℕ → ℕ → Bool
outside value technical = value == 0 || ltb technical value

unfoldable pub validate :
    NativeXswdProjectionLimits → Result XswdProjectionLimitsError NativeXswdProjectionLimits
validate l = do
  refuse_if (outside l.max_depth technical_max.max_depth) depth
  refuse_if (outside l.max_tokens technical_max.max_tokens) tokens
  refuse_if (outside l.max_container_members technical_max.max_container_members) container_members
  refuse_if (outside l.max_text_bytes technical_max.max_text_bytes) text_bytes
  refuse_if
      (outside l.max_total_text_bytes technical_max.max_total_text_bytes
        || ltb l.max_total_text_bytes l.max_text_bytes)
      total_text_bytes
  ok l

-- What the projection relies on.
pub validate-bounds :
    (l : NativeXswdProjectionLimits) {m : NativeXswdProjectionLimits}
    → validate l ≡ ok m
    → (l.max_container_members ≤ u32_max) × (l.max_total_text_bytes ≤ u32_max)
unfolding validate
validate-bounds l h = (ground arith, ground arith)
