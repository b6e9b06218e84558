-- ===== src/Errors.antt =====
-- rust/src/api/error.rs: the structured error of the native bridge. The diagnostic message, which
-- the source keeps for privileged diagnostics only and never reads again, is left out.
pub mod Foreign
pub mod Classify
pub mod Convert
pub mod Policy
pub mod Examples
use xelis_wallet_flutter.Base.{ℕ, Option, none, some, String}
use xelis_wallet_flutter.Base.Int.{ℤ}

abbrev pub native_xelis_error_version : ℕ
native_xelis_error_version = 1

pub data NativeXelisErrorSource : Type 0 where
  xelis_wallet_flutter_source xelis_wallet xelis_common dependency unknown : NativeXelisErrorSource

pub data NativeXelisErrorCode : Type 0 where
  invalid_input offline network remote_rejected insufficient_funds : NativeXelisErrorCode
  conflict not_found unsupported storage serialization : NativeXelisErrorCode
  initialization internal authentication_or_corrupt_data : NativeXelisErrorCode
  network_mismatch cancelled operation_in_progress operation_failed : NativeXelisErrorCode
  stream_lagged stream_closed_unexpectedly : NativeXelisErrorCode

pub record NativeXelisError : Type 0 where
  pub version : ℕ
  pub source : NativeXelisErrorSource
  pub code : NativeXelisErrorCode
  pub native_kind : Option String
  pub native_code : Option ℤ

abbrev pub new :
    NativeXelisErrorSource → NativeXelisErrorCode → Option String → Option ℤ → NativeXelisError
new source code native_kind native_code = record {
  version = native_xelis_error_version;
  source = source;
  code = code;
  native_kind = native_kind;
  native_code = native_code;
}

abbrev pub wallet_flutter_error : NativeXelisErrorCode → String → NativeXelisError
wallet_flutter_error code native_kind = new xelis_wallet_flutter_source code (some native_kind) none
