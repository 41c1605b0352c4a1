-- ===== src/Failures/Bounds.antt =====
-- internal/apperr/mapper.go: the statuses that it gives.
use xuandu_gateway.Prelude.{ℕ, ◌≤◌, inl, inr, Text, Option-cases, arith}
use xuandu_gateway.Failures.{
  CommonErrors, CallError, from_common, from_biz, from_transport, from_protocol, map_error,
}

-- A status of an HTTP error.
abbrev pub IsErrorStatus : ℕ → Type 0
IsErrorStatus n = (400 ≤ n) × (n ≤ 599)

module _ (common : CommonErrors) where
  from_biz-IsErrorStatus :
      (code : ℕ) (message : Text) → IsErrorStatus (from_biz common code message).status
  unfolding from_biz from_common
  from_biz-IsErrorStatus code message = (ground arith, ground arith)

  from_transport-IsErrorStatus : (e : CallError) → IsErrorStatus (from_transport common e).status
  unfolding from_transport from_common
  from_transport-IsErrorStatus e = (ground arith, ground arith)

  from_protocol-IsErrorStatus : (text : Text) → IsErrorStatus (from_protocol common text).status
  unfolding from_protocol from_common
  from_protocol-IsErrorStatus text = (ground arith, ground arith)

  -- Map gives every error a status of an HTTP error, 400 to 599, whatever code a business error
  -- carries.
  pub map_error-IsErrorStatus : (e : CallError) → IsErrorStatus (map_error common e).status
  unfolding map_error
  map_error-IsErrorStatus e = elim (Option-cases e.biz) [
    | inr ((code, message), biz) ↦ ground (arith, from_biz-IsErrorStatus code message)
    | inl other ↦ elim (Option-cases e.protocol) [
      | inr (text, protocol) ↦ ground (arith, from_protocol-IsErrorStatus text)
      | inl transport ↦ ground (arith, from_transport-IsErrorStatus e)
    ]
  ]
