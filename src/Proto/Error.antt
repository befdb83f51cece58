-- ===== src/Proto/Error.antt =====
-- crates/zyris-proto/src/error.rs: error codes and the error that crosses the wire.
use zyris_protocol.Prelude.{Bool, true, false, Text, Option, none, some, ◌++◌, codes}
use zyris_protocol.Proto.Value.{Payload}

pub data ErrorCode : Type 0 where
  parse_error unsupported_version unauthorized forbidden_scope : ErrorCode
  method_not_found_code invalid_params_code capability_not_announced : ErrorCode
  capability_rejected capability_unavailable node_offline connection_lost_code : ErrorCode
  stream_lagged credit_violation payload_too_large overloaded canceled_code : ErrorCode
  timeout unsupported internal_code : ErrorCode
  other : Text → ErrorCode

unfoldable pub default_retriable : ErrorCode → Bool
default_retriable node_offline = true
default_retriable connection_lost_code = true
default_retriable stream_lagged = true
default_retriable overloaded = true
default_retriable timeout = true
default_retriable _ = false

pub record WireError : Type 0 where
  pub code : ErrorCode
  pub message : Text
  pub is_retriable : Bool
  pub payload : Option Payload

unfoldable pub new : ErrorCode → Text → WireError
unfolding default_retriable
new code message = record {
  code = code;
  message = message;
  is_retriable = default_retriable code;
  payload = none;
}

unfoldable pub retriable : WireError → Bool → WireError
retriable e b = record e { is_retriable = b }

unfoldable pub with_data : WireError → Payload → WireError
with_data e p = record e { payload = some p }

unfoldable pub method_not_found : Text → WireError
unfolding new
method_not_found method = new method_not_found_code (codes "unknown method " ++ method)

unfoldable pub invalid_params : Text → WireError
unfolding new
invalid_params detail = new invalid_params_code detail

unfoldable pub canceled : WireError
unfolding new
canceled = new canceled_code (codes "request canceled")

unfoldable pub connection_lost : WireError
unfolding new
connection_lost = new connection_lost_code (codes "connection lost")

unfoldable pub internal : Text → WireError
unfolding new
internal detail = new internal_code detail
