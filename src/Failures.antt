-- ===== src/Failures.antt =====
-- internal/apperr/mapper.go: the HTTP status, the code and the message of a failed call.
pub mod Bounds
use xuandu_gateway.Prelude.{
  ℕ, ◌/◌, Bool, true, false, ◌||◌, Option, none, some, Text, bytes, has_prefix, pad6, if◌then◌else◌,
  ltb,
}

-- The errors of rpcxcommon that the program uses, with their codes and messages.
pub data Common : Type 0 where
  invalid_argument identity_required permission_denied not_found conflict internal : Common
  dependency_unavailable : Common

pub record CommonErrors : Type 0 where
  pub code : Common → ℕ
  pub message : Common → Text

-- What errors.Is and errors.As find in an error of a call: a business error with its code, of which
-- a negative one stands as 0, and its message; the text of a protocol error of the codec; the named
-- errors; whether there is a TransError for the protocol; whether a net.Error is a timeout.
pub record CallError : Type 0 where
  pub type_name : Text
  pub biz : Option (ℕ × Text)
  pub protocol : Option Text
  pub deadline_exceeded : Bool
  pub rpc_timeout : Bool
  pub service_discovery : Bool
  pub loadbalance : Bool
  pub no_more_instance : Bool
  pub payload_validation : Bool
  pub get_connection : Bool
  pub remote_or_network : Bool
  pub trans_protocol : Bool
  pub net_timeout : Option Bool

-- The results of FromCommon and Map.
pub record Failure : Type 0 where
  pub status : ℕ
  pub code : Text
  pub message : Text

module _ (common : CommonErrors) where
  unfoldable pub from_common : ℕ → Common → Failure
  from_common status e = record {
    status = status;
    code = pad6 (common.code e);
    message = common.message e;
  }

  unfoldable pub from_biz : ℕ → Text → Failure
  from_biz code message =
      if ltb code 100000 || ltb 999999 code then from_common 500 internal else record {
        status = if ltb (code / 1000) 400 || ltb 599 (code / 1000) then 400 else code / 1000;
        code = pad6 code;
        message = message;
      }

  -- Map after the business and the protocol errors.
  unfoldable pub from_transport : CallError → Failure
  from_transport e =
      if e.deadline_exceeded || e.rpc_timeout
      then from_common 504 dependency_unavailable
      else if e.service_discovery || e.loadbalance || e.no_more_instance
      then from_common 503 dependency_unavailable
      else if e.payload_validation
      then from_common 400 invalid_argument
      else if e.get_connection || e.remote_or_network
      then from_common 502 dependency_unavailable
      else if e.trans_protocol
      then from_common 400 invalid_argument
      else elim e.net_timeout [
        | some timeout ↦ from_common (if timeout then 504 else 502) dependency_unavailable
        | none ↦ from_common 500 internal
      ]

  unfoldable pub from_protocol : Text → Failure
  from_protocol text =
      if has_prefix text (bytes "thrift marshal, Write failed:")
      then from_common 400 invalid_argument
      else from_common 502 dependency_unavailable

  -- Map
  unfoldable pub map_error : CallError → Failure
  map_error e = elim e.biz [
    | some (code, message) ↦ from_biz code message
    | none ↦ elim e.protocol [ some text ↦ from_protocol text | none ↦ from_transport e ]
  ]
