-- ===== src/Mcp/Call/Checked.antt =====
-- internal/mcp/service.go: which calls of tools reach an upstream service, and what they return.
use xuandu_gateway.Prelude.{
  ℕ, ◌≤◌, ◌≡◌, inl, inr, refl, subst, Bool, true, false, ◌&&◌, Option, none, some, Text, bytes,
  ◌==◌, eq_iff, ok, ltb, length, Bool-cases, Option-cases, Result-cases, arith,
}
use xuandu_gateway.Idl.Ast.{Route}
use xuandu_gateway.Router.{KitexRouter, Target}
use xuandu_gateway.Runtime.Heap.{Heap}
use xuandu_gateway.Runtime.Manager.{match_in}
use xuandu_gateway.Failures.{CommonErrors}
use xuandu_gateway.Executor.{Json, Reply, execute}
use xuandu_gateway.Mcp.Build.{Binding}
use xuandu_gateway.Mcp.Call.{
  ToolRequest, CallScope, Tooling, ToolResult, structured, failure, same_flag, same_route,
  max_payload, max_result, fits_result, judge, is_target, call_scoped, call,
}

eq_of-same_flag : (a b : Bool) → same_flag a b ≡ true → a ≡ b
eq_of-same_flag true b e = ground arith
eq_of-same_flag false b e = ground arith

eq_of-same_route : (r s : Route) → same_route r s ≡ true → r ≡ s
unfolding same_route
eq_of-same_route r s e = ground (
  arith,
  eq_of-same_flag r.require_login s.require_login,
  eq_iff r.idl_path s.idl_path,
  eq_iff r.http_method s.http_method,
  eq_iff r.path s.path,
  eq_iff r.rpc_service s.rpc_service,
  eq_iff r.rpc_method s.rpc_method,
)

module _ {W Body : Type 0} (k : KitexRouter) (common : CommonErrors) (j : Json Body)
    (x : Tooling W Body) where
  -- The call is for the server of the scope, and its request leads, in the snapshot of the scope, to
  -- the application of the runtime and to the very route of the tool.
  pub record IsAllowed (h : Heap) (s : CallScope) (b : Binding) (raw : Text) (w : W) (w' : W)
      (reply : Reply) : Type 0 where
    pub server : s.server_id ≡ b.config.server_id
    pub request : ToolRequest
    pub made : x.request b raw ≡ ok request
    pub target : Target
    pub matched :
        match_in k s.snapshot (h s.runtime).info.app_name request.method request.path ≡ some target
    pub same_app : target.app_name ≡ (h s.runtime).info.app_name
    pub same_target : target.route ≡ b.route
    pub ran :
        execute common j (x.call s.runtime b.route request) b.route s.user (x.convertible request) w
        ≡ (w', reply)

  -- A result of a tool that is not an error.
  pub record IsPayload (b : Binding) (payload : Text) (reply : Reply) : Type 0 where
    pub from_reply : payload ≡ reply.payload
    pub success : reply.code ≡ bytes "000000"
    pub small : length payload ≤ max_payload
    pub conforming : x.conforms b payload ≡ true
    pub encoded : ℕ
    pub encodes : x.encoded_length payload ≡ some encoded
    pub encoded_small : encoded ≤ max_result

  -- What a call may do: an error is returned with nothing called, or after an allowed call; a payload
  -- only after one.
  pub data IsChecked (h : Heap) (s : Option CallScope) (b : Binding) (raw : Text) (w : W)
      : W × ToolResult → Type 0 where
    denied : (code message : Text) → IsChecked h s b raw w (w, failure code message)
    called :
        (scope : CallScope) (w' : W) (reply : Reply) (code message : Text)
        → s ≡ some scope
        → IsAllowed h scope b raw w w' reply
        → IsChecked h s b raw w (w', failure code message)
    returned :
        (scope : CallScope) (w' : W) (reply : Reply) (payload : Text)
        → s ≡ some scope
        → IsAllowed h scope b raw w w' reply
        → IsPayload b payload reply
        → IsChecked h s b raw w (w', structured payload)

  fits_result-encodes :
      (payload : Text)
      → fits_result x payload ≡ true
      → (n : ℕ) × (x.encoded_length payload ≡ some n) × (n ≤ max_result)
  unfolding fits_result
  fits_result-encodes payload e = elim (Option-cases (x.encoded_length payload)) [
    | inl no_result ↦ absurd (ground arith)
    | inr (n, is) ↦ (n, is, ground arith)
  ]

  judge-IsChecked :
      (h : Heap) (s : CallScope) (b : Binding) (raw : Text) (w w' : W) (reply : Reply)
      → IsAllowed h s b raw w w' reply
      → IsChecked h (some s) b raw w (w', judge k common j x b reply)
  unfolding judge
  judge-IsChecked h s b raw w w' reply allowed =
      let Ends : ToolResult → Type 0 = λ r. IsChecked h (some s) b raw w (w', r) in
      let last = judge k common j x b reply in
      let refused = λ (code message : Text). called s w' reply code message refl allowed in
      let too_large = bytes "MCP result exceeds size limit" in
      let mismatch = bytes "Upstream response does not match contract" in
      let internal = bytes "500001" in
      elim (Bool-cases (reply.code == bytes "000000")) [
        | inr bad ↦
            subst Ends {x = failure reply.code reply.message} {y = last} (ground arith)
              (refused reply.code reply.message)
        | inl good ↦ elim (Bool-cases (ltb max_payload (length reply.payload))) [
          | inl large ↦
              subst Ends {x = failure internal too_large} {y = last} (ground arith)
                (refused internal too_large)
          | inr small ↦ elim (Bool-cases (x.conforms b reply.payload)) [
            | inr other ↦
                subst Ends {x = failure internal mismatch} {y = last} (ground arith)
                  (refused internal mismatch)
            | inl conforming ↦ elim (Bool-cases (fits_result x reply.payload)) [
              | inr wide ↦
                  subst Ends {x = failure internal too_large} {y = last} (ground arith)
                    (refused internal too_large)
              | inl fits ↦
                  let (n, encodes, bounded) = fits_result-encodes reply.payload fits in
                  subst Ends {x = structured reply.payload} {y = last} (ground arith) (
                    returned s w' reply reply.payload refl allowed (record {
                      from_reply = refl;
                      success = ground (arith, eq_iff reply.code (bytes "000000"));
                      small = ground arith;
                      conforming = conforming;
                      encoded = n;
                      encodes = encodes;
                      encoded_small = bounded;
                    }))
            ]
          ]
        ]
      ]

  call_scoped-IsChecked :
      (h : Heap) (s : CallScope) (b : Binding) (raw : Text) (w : W)
      → s.server_id ≡ b.config.server_id
      → IsChecked h (some s) b raw w (call_scoped k common j x h s b raw w)
  unfolding call_scoped is_target
  call_scoped-IsChecked h s b raw w server =
      let Ends = IsChecked h (some s) b raw w in
      let last = call_scoped k common j x h s b raw w in
      elim (Result-cases (x.request b raw)) [
        | inr (message, bad) ↦
            subst Ends {x = (w, failure (bytes "400001") message)} {y = last} (ground arith)
              (denied (bytes "400001") message)
        | inl (req, made) ↦
            let app = (h s.runtime).info.app_name in
            let found = match_in k s.snapshot app req.method req.path in
            let unmatched = bytes "参数未匹配所选接口" in
            let no_target : Ends (w, failure (bytes "400001") unmatched) =
              denied (bytes "400001") unmatched in
            elim (Option-cases found) [
              | inl missing ↦
                  subst Ends {x = (w, failure (bytes "400001") unmatched)} {y = last} (ground arith)
                    no_target
              | inr (t, matched) ↦
                  elim (Bool-cases (t.app_name == app && same_route t.route b.route)) [
                    | inr other ↦
                        subst Ends {x = (w, failure (bytes "400001") unmatched)} {y = last}
                          (ground arith) no_target
                    | inl hit ↦
                        let out =
                          execute common j (x.call s.runtime b.route req) b.route s.user
                            (x.convertible req) w in
                        let allowed : IsAllowed h s b raw w out.0 out.1 = record {
                          server = server;
                          request = req;
                          made = made;
                          target = t;
                          matched = matched;
                          same_app = ground (arith, eq_iff t.app_name app);
                          same_target = ground (arith, eq_of-same_route t.route b.route);
                          ran = refl;
                        } in
                        subst Ends {x = (out.0, judge k common j x b out.1)} {y = last}
                          (ground arith) (judge-IsChecked h s b raw w out.0 out.1 allowed)
                  ]
            ]
      ]

  -- A tool reaches its upstream service only for a scope of its own server, and only if its request
  -- leads, in the snapshot of that scope, to the application of the runtime and to the very route of
  -- the tool; otherwise nothing is called and an error is returned. A result that is not an error is
  -- the payload of a successful reply, accepted by the output schema, of at most 2 MiB, and at most
  -- 4 MiB when encoded.
  pub call-IsChecked :
      (h : Heap) (s : Option CallScope) (b : Binding) (raw : Text) (w : W)
      → IsChecked h s b raw w (call k common j x h s b raw w)
  unfolding call
  call-IsChecked h none b raw w = denied (bytes "403001") (bytes "MCP access denied")
  call-IsChecked h (some s) b raw w =
      let Ends = IsChecked h (some s) b raw w in
      let last = call k common j x h (some s) b raw w in
      let code = bytes "403001" in
      let message = bytes "MCP access denied" in
      elim (Bool-cases (s.server_id == b.config.server_id)) [
        | inr other ↦
            subst Ends {x = (w, failure code message)} {y = last} (ground arith)
              (denied code message)
        | inl same ↦
            let server : s.server_id ≡ b.config.server_id =
              ground (arith, eq_iff s.server_id b.config.server_id) in
            subst Ends {x = call_scoped k common j x h s b raw w} {y = last} (ground arith)
              (call_scoped-IsChecked h s b raw w server)
      ]
