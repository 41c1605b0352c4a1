-- ===== src/Executor.antt =====
-- internal/executor/executor.go: one call of an upstream service. `W` is the state of the upstream.
pub mod Outcome
pub mod Headers
use xuandu_gateway.Prelude.{
  ℕ, Bool, true, false, not, ◌&&◌, ◌||◌, Option, none, some, or_default, List, [], ◌∷◌, ◌++◌, map,
  Text, bytes, ◌==◌, equal_fold, to_lower, trim_space, split, mem_text, Result, ok, err, ◌>>=◌,
  ◌>>◌, refuse, if◌then◌else◌, ltb, leb, eqb,
}
use xuandu_gateway.Idl.Ast.{Route}
use xuandu_gateway.Failures.{
  CommonErrors, invalid_argument, identity_required, permission_denied, not_found, conflict,
  internal, dependency_unavailable, CallError, Failure, from_common, map_error,
}

-- The `data` of a Response: nil, the decoded body of an upstream response, or raw JSON.
pub data Data (Body : Type 0) : Type 0 where
  null : Data Body
  decoded : Body → Data Body
  raw : Text → Data Body

-- A header with its values, in any order of the names.
pub record Header : Type 0 where
  pub name : Text
  pub values : List Text

-- generic.HTTPResponse. A negative status stands as 1: both are below 200 and not 0.
pub record Upstream (Body : Type 0) : Type 0 where
  pub status : ℕ
  pub body : Body
  pub raw_body : Option Text
  pub headers : List Header

-- What GenericCall returns; `unexpected` is a nil response, or one of another type.
pub data Answer (Body : Type 0) : Type 0 where
  failed : CallError → Answer Body
  unexpected : Answer Body
  responded : Upstream Body → Answer Body

-- encoding/json: Marshal of a Response with its code, message and data; json.Valid; whether
-- bytes.TrimSpace leaves nothing is read off `trim_space`.
pub record Json (Body : Type 0) : Type 0 where
  pub marshal : Text → Text → Data Body → Option Text
  pub valid : Text → Bool

-- executor.Result; `headers` has an entry for each call of Add.
pub record Reply : Type 0 where
  pub status : ℕ
  pub payload : Text
  pub headers : List (Text × Text)
  pub code : Text
  pub message : Text
  pub source : Text
  pub reason : Text
  pub error_type : Text

-- Why a call fails: the source, the reason and the type of the error for the log.
pub record Fault : Type 0 where
  pub failure : Failure
  pub source : Text
  pub reason : Text
  pub error_type : Text

unfoldable pub success_code : Text
success_code = bytes "000000"

unfoldable pub framing_headers : List Text
framing_headers =
    bytes "content-type"
    ∷ bytes "content-length"
    ∷ bytes "content-encoding"
    ∷ bytes "transfer-encoding"
    ∷ bytes "connection"
    ∷ bytes "trailer"
    ∷ bytes "upgrade"
    ∷ bytes "keep-alive"
    ∷ bytes "proxy-authenticate"
    ∷ bytes "proxy-authorization"
    ∷ bytes "te"
    ∷ bytes "x-request-id"
    ∷ bytes "etag"
    ∷ bytes "content-md5"
    ∷ bytes "content-range"
    ∷ []

unfoldable pub token_name : Text → Text
token_name name = to_lower (trim_space name)

unfoldable pub value_tokens : List Text → List Text
value_tokens [] = []
value_tokens (v ∷ vs) = map token_name (split b',' v) ++ value_tokens vs

-- The names that the Connection headers of the response list.
unfoldable pub connection_tokens : List Header → List Text
connection_tokens [] = []
connection_tokens (h ∷ hs) =
    let rest = connection_tokens hs in
    if equal_fold h.name (bytes "Connection") then value_tokens h.values ++ rest else rest

unfoldable pub blocked_names : List Header → List Text
blocked_names hs = framing_headers ++ connection_tokens hs

unfoldable pub name_values : Text → List Text → List (Text × Text)
name_values k [] = []
name_values k (v ∷ vs) = (k, v) ∷ name_values k vs

unfoldable pub passed_headers : List Text → List Header → List (Text × Text)
passed_headers blocked [] = []
passed_headers blocked (h ∷ hs) =
    let rest = passed_headers blocked hs in
    if mem_text (to_lower h.name) blocked then rest else name_values h.name h.values ++ rest

module _ {Body : Type 0} (common : CommonErrors) (j : Json Body) where
  unfoldable pub fault : Text → Text → Text → Failure → Fault
  fault source reason error_type f = record {
    failure = f;
    source = source;
    reason = reason;
    error_type = error_type;
  }

  unfoldable pub upstream_fault : Text → Fault
  upstream_fault reason =
      fault (bytes "upstream_response") reason [] (from_common common 502 dependency_unavailable)

  unfoldable pub upstream_error : ℕ → Failure
  upstream_error status = from_common common status (
      if eqb status 400
      then invalid_argument
      else if eqb status 401
      then identity_required
      else if eqb status 403
      then permission_denied
      else if eqb status 404
      then not_found
      else if eqb status 409
      then conflict
      else internal)

  -- The data of the envelope.
  unfoldable pub response_data : Upstream Body → Result Fault (Data Body)
  response_data out = elim out.raw_body [
    | none ↦ ok (decoded out.body)
    | some text ↦
        if trim_space text == []
        then ok null
        else if j.valid text
        then ok (raw text)
        else err (upstream_fault (bytes "invalid_response_json"))
  ]

  unfoldable pub encode : Data Body → Result Fault Text
  encode data_ = elim (j.marshal success_code (bytes "success") data_) [
    | none ↦ err (upstream_fault (bytes "response_encoding_failed"))
    | some payload ↦ ok payload
  ]

  -- The part after the call, on a response of the right type.
  unfoldable pub check_response : Upstream Body → Result Fault Reply
  check_response out =
      let status = if eqb out.status 0 then 200 else out.status in
      (do
        refuse (ltb status 200 || ltb 599 status) (upstream_fault (bytes "invalid_http_status"))
        refuse (leb 400 status) (
            fault (bytes "upstream_response") (bytes "upstream_http_error") []
              (upstream_error status))
        refuse (leb 300 status) (upstream_fault (bytes "unexpected_redirect"))
        data_ ← response_data out
        payload ← encode data_
        ok (record {
          status = if eqb status 204 || eqb status 205 then 200 else status;
          payload = payload;
          headers = passed_headers (blocked_names out.headers) out.headers;
          code = success_code;
          message = bytes "success";
          source = [];
          reason = [];
          error_type = [];
        }))

  unfoldable pub check_answer : Answer Body → Result Fault Reply
  check_answer (failed e) = err (elim e.biz [
    | some b ↦
        fault (bytes "upstream_business") (bytes "business_error") e.type_name (map_error common e)
    | none ↦ fault (bytes "upstream_rpc") (bytes "rpc_call_failed") e.type_name (map_error common e)
  ])
  check_answer unexpected = err (upstream_fault (bytes "invalid_response_type"))
  check_answer (responded out) = check_response out

  -- `fail`: the reply to a fault.
  unfoldable pub fail : Fault → Reply
  fail f = record {
    status = f.failure.status;
    payload = or_default (j.marshal f.failure.code f.failure.message null) [];
    headers = [];
    code = f.failure.code;
    message = f.failure.message;
    source = f.source;
    reason = f.reason;
    error_type = f.error_type;
  }

  unfoldable pub settle : Result Fault Reply → Reply
  settle (ok reply) = reply
  settle (err f) = fail f

  -- Execute: `user` is the user of the request, `convertible` tells that generic.FromHTTPRequest
  -- accepts it, and `call` is GenericCall on it.
  unfoldable pub execute :
      {W : Type 0} → (W → W × Answer Body) → Route → Text → Bool → W → W × Reply
  execute call route user convertible w =
      if route.require_login && user == []
      then (
        w,
        fail (
            fault (bytes "gateway_validation") (bytes "identity_required") []
              (from_common common 401 identity_required)),
      )
      else if not convertible
      then (
        w,
        fail (
            fault (bytes "gateway_validation") (bytes "invalid_http_request") []
              (from_common common 400 invalid_argument)),
      )
      else (let (w', answer) = call w in (w', settle (check_answer answer)))
