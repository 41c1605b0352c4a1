-- ===== src/Mcp/Call.antt =====
-- internal/mcp/service.go: call, the execution of a tool, without its log record and request id.
pub mod Checked
use xuandu_gateway.Prelude.{
  ℕ, ◌*◌, ◌^◌, Bool, true, false, not, ◌&&◌, Option, none, some, Text, bytes, ◌==◌, Result, ok, err,
  if◌then◌else◌, ltb, length,
}
use xuandu_gateway.Idl.Ast.{Route}
use xuandu_gateway.Router.{KitexRouter, Target}
use xuandu_gateway.Runtime.Heap.{Address, Heap}
use xuandu_gateway.Runtime.Manager.{Snapshot, match_in}
use xuandu_gateway.Failures.{CommonErrors}
use xuandu_gateway.Executor.{Answer, Json, Reply, execute}
use xuandu_gateway.Mcp.Build.{Binding}

-- The request that the arguments of a tool make.
pub record ToolRequest : Type 0 where
  pub method : Text
  pub path : Text

-- requestScope: what ServeHTTP has authorized, with the snapshot of its lease and the user.
pub record CallScope : Type 0 where
  pub snapshot : Snapshot
  pub runtime : Address
  pub server_id : Text
  pub user : Text

-- Binding.Request with its error message; the call of a runtime; whether the request is converted for
-- it; whether the payload is JSON that the output schema of the tool accepts; and the length of the
-- result with that payload, where it can be encoded. `W` is the state of the upstream services.
pub record Tooling (W Body : Type 0) : Type 0 where
  pub request : Binding → Text → Result Text ToolRequest
  pub call : Address → Route → ToolRequest → W → W × Answer Body
  pub convertible : ToolRequest → Bool
  pub conforms : Binding → Text → Bool
  pub encoded_length : Text → Option ℕ

-- sdk.CallToolResult: the payload, or an error with a business code and a message.
pub data ToolResult : Type 0 where
  structured : Text → ToolResult
  failure : Text → Text → ToolResult

abbrev pub same_flag : Bool → Bool → Bool
same_flag true b = b
same_flag false b = not b

-- Equality of two values of idl.Route.
unfoldable pub same_route : Route → Route → Bool
same_route r s =
    same_flag r.require_login s.require_login
    && r.idl_path == s.idl_path
    && r.http_method == s.http_method
    && r.path == s.path
    && r.rpc_service == s.rpc_service
    && r.rpc_method == s.rpc_method

unfoldable pub max_payload : ℕ
max_payload = 2 * 2 ^ 20

unfoldable pub max_result : ℕ
max_result = 4 * 2 ^ 20

unfoldable pub fits_result : {W Body : Type 0} → Tooling W Body → Text → Bool
fits_result x payload = elim (x.encoded_length payload) [
  | none ↦ false
  | some n ↦ not (ltb max_result n)
]

-- The target of the request is the route of the tool, in the application of the runtime.
unfoldable pub is_target : Heap → CallScope → Binding → Option Target → Bool
unfolding same_route
is_target h s b none = false
is_target h s b (some t) = t.app_name == (h s.runtime).info.app_name && same_route t.route b.route

module _ {W Body : Type 0} (k : KitexRouter) (common : CommonErrors) (j : Json Body)
    (x : Tooling W Body) where
  -- What is made of the answer of the executor.
  unfoldable pub judge : Binding → Reply → ToolResult
  unfolding fits_result
  judge b reply =
      if not (reply.code == bytes "000000")
      then failure reply.code reply.message
      else if ltb max_payload (length reply.payload)
      then failure (bytes "500001") (bytes "MCP result exceeds size limit")
      else if not (x.conforms b reply.payload)
      then failure (bytes "500001") (bytes "Upstream response does not match contract")
      else if not (fits_result x reply.payload)
      then failure (bytes "500001") (bytes "MCP result exceeds size limit")
      else structured reply.payload

  unfoldable pub call_scoped : Heap → CallScope → Binding → Text → W → W × ToolResult
  unfolding is_target judge
  call_scoped h s b raw w = elim (x.request b raw) [
    | err message ↦ (w, failure (bytes "400001") message)
    | ok req ↦
        let found = match_in k s.snapshot (h s.runtime).info.app_name req.method req.path in
        let (w', reply) =
          execute common j (x.call s.runtime b.route req) b.route s.user (x.convertible req) w in
        if is_target h s b found
        then (w', judge b reply)
        else (w, failure (bytes "400001") (bytes "参数未匹配所选接口"))
  ]

  -- call; without a scope, or with that of another server, access is denied.
  unfoldable pub call : Heap → Option CallScope → Binding → Text → W → W × ToolResult
  unfolding call_scoped
  call h none b raw w = (w, failure (bytes "403001") (bytes "MCP access denied"))
  call h (some s) b raw w =
      if s.server_id == b.config.server_id
      then call_scoped h s b raw w
      else (w, failure (bytes "403001") (bytes "MCP access denied"))
