-- ===== src/Xswd/Payload/Examples.antt =====
-- A concrete payload under the default limits. Its numbers are zero, an integer, and others, floats.
use xelis_wallet_flutter.Base.{
  ℕ, ◌≡◌, ◌↔◌, refl, true, Option, none, some, List, [], leb, if◌then◌else◌, arith,
}
use xelis_wallet_flutter.Base.Results.{ok}
use xelis_wallet_flutter.Base.Words.{u64_max}
use xelis_wallet_flutter.Xswd.Limits.{default_limits, validate}
use xelis_wallet_flutter.Xswd.Payload.{
  Value, null, boolean, number, text, array, object, end, item, close, field, JsonNumbers,
  NativeXswdPayloadToken, number_token, project,
}
use xelis_wallet_flutter.Xswd.Payload.Flat.{flatten}
use xelis_wallet_flutter.Xswd.Payload.Accepted.{IsAccepted, project-accepts}
use xelis_wallet_flutter.Xswd.Payload.Reader.{read_payload, read_payload-project}

abbrev zero_or_float : JsonNumbers ℕ ℕ
zero_or_float = record {
  as_i64 = λ n. none;
  as_u64 = λ n. if leb n 0 then some n else none;
  as_f64 = λ n. some n;
  i64_to_string = λ i. "";
  u64_to_string = λ n. "0";
}

abbrev read_zero_or_float : NativeXswdPayloadToken ℕ → Option ℕ
read_zero_or_float t = elim t.float_value [ some x ↦ some x | none ↦ some 0 ]

reads_back :
    (n : ℕ) (token : NativeXswdPayloadToken ℕ)
    → number_token zero_or_float n ≡ some token
    → read_zero_or_float token ≡ some n
unfolding number_token
reads_back n token h = ground arith

abbrev transfer : Value ℕ
transfer = object (
    field "amounts" (array (item (number 0) (item (number 7) (item null end))))
      (field "memo" (text "hé") (field "final" (boolean true) close)))

abbrev tokens_of_transfer : List (NativeXswdPayloadToken ℕ)
unfolding flatten number_token
tokens_of_transfer = flatten zero_or_float transfer

default-valid : validate default_limits ≡ ok default_limits
unfolding validate
default-valid = refl

projected : project zero_or_float u64_max default_limits (some transfer) ≡ ok tokens_of_transfer
unfolding project flatten number_token
projected = refl

project-accepts_example :
    (project zero_or_float u64_max default_limits (some transfer) ≡ ok tokens_of_transfer) ↔ (
      IsAccepted zero_or_float default_limits transfer
      × (tokens_of_transfer ≡ flatten zero_or_float transfer))
project-accepts_example =
    project-accepts zero_or_float u64_max default_limits transfer tokens_of_transfer default-valid
      (omega arith)

read_payload-project_example :
    read_payload read_zero_or_float tokens_of_transfer ≡ some (transfer, [])
read_payload-project_example =
    read_payload-project zero_or_float read_zero_or_float reads_back u64_max default_limits transfer
      tokens_of_transfer default-valid (omega arith) projected
