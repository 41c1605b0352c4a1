-- ===== src/Mcp/Serve.antt =====
-- internal/mcp/service.go: ServeHTTP, up to the call of the SDK's handler for the server, and
-- Release of the lease after it.
pub mod Access
pub mod Lease
use xuandu_gateway.Prelude.{
  ℕ, ◌-◌, Bool, true, false, not, ◌&&◌, ◌||◌, Option, none, some, List, [], ◌∷◌, Text, bytes, ◌==◌,
  equal_fold, contains, cut, Dict, lookup, or_default, Result, ok, err, ◌>>=◌, ◌>>◌, refuse,
  map_err, if◌then◌else◌, ltb, length, is_none, is_some,
}
use xuandu_gateway.Platform.{Platform, Url}
use xuandu_gateway.Metadata.Domain.{request_domain}
use xuandu_gateway.Runtime.Heap.{Address, Heap}
use xuandu_gateway.Runtime.Manager.{Snapshot, Manager, has_app, acquire, release}
use xuandu_gateway.Mcp.Model.{ServerConfig, KeyConfig, key_hash}
use xuandu_gateway.Mcp.Build.{Binding, CompiledServer, McpSnapshot}

-- `path` is the decoded path, `escaped_path` the encoded one. The values of a header stand in order.
pub record Request : Type 0 where
  pub path : Text
  pub escaped_path : Text
  pub host : Text
  pub headers : Dict Text

-- The responses of http.Error, one for each message.
pub data Refusal : Type 0 where
  metadata_unavailable not_found gateway_unavailable contract_synchronizing : Refusal
  domain_forbidden origin_forbidden key_required invalid_key service_unavailable access_denied :
      Refusal

unfoldable pub status_of : Refusal → ℕ
status_of metadata_unavailable = 503
status_of not_found = 404
status_of gateway_unavailable = 503
status_of contract_synchronizing = 503
status_of domain_forbidden = 403
status_of origin_forbidden = 403
status_of key_required = 401
status_of invalid_key = 401
status_of service_unavailable = 503
status_of access_denied = 403

-- requestScope, with the view that the handler finds by it.
pub record Scope : Type 0 where
  pub runtime : Address
  pub key_id : Text
  pub server_id : Text
  pub view : List Binding

-- http.Header.Values
unfoldable pub header_values : Text → Dict Text → List Text
header_values name [] = []
header_values name ((k, v) ∷ hs) =
    let rest = header_values name hs in if equal_fold k name then v ∷ rest else rest

-- http.Header.Get
unfoldable pub header_get : Text → Dict Text → Text
header_get name hs = elim (header_values name hs) [ [] ↦ [] | v ∷ vs ↦ v ]

unfoldable pub same_origin : Text → Text → Url → Bool
same_origin host origin u =
    (u.scheme == bytes "http" || u.scheme == bytes "https")
    && not u.has_user
    && u.path == []
    && u.raw_query == []
    && not u.force_query
    && not (contains origin (bytes "#"))
    && equal_fold u.host host

unfoldable pub origin_allowed : Platform → Text → Text → Bool
origin_allowed p host origin =
    origin == [] || elim (p.parse_url origin) [ none ↦ false | some u ↦ same_origin host origin u ]

-- The key of a request: the value of the server's header, or what follows Bearer in it.
unfoldable pub token_of : ServerConfig → Dict Text → Result Refusal Text
token_of cfg hs = elim (header_values cfg.header hs) [
  | [] ↦ err key_required
  | v ∷ vs ↦ elim vs [
    | w ∷ ws ↦ err key_required
    | [] ↦
        if cfg.bearer
        then (elim (cut b' ' v) [
          | none ↦ err invalid_key
          | some (kind, value) ↦
              if equal_fold kind (bytes "Bearer") then ok value else err invalid_key
        ])
        else ok v
  ]
]

-- The loop over the keys: the id of the last one that is enabled and has the hash.
unfoldable pub find_key : Text → List KeyConfig → Text → Text
find_key hash [] found = found
find_key hash (k ∷ ks) found =
    find_key hash ks (if hash == k.hash && k.enabled then k.id else found)

unfoldable pub max_age : ℕ
max_age = 60000000000

-- ServeHTTP before Acquire: the id of the server and the server. `now` and `fresh` are nanoseconds.
unfoldable pub select_server :
    ℕ → Option McpSnapshot → Request → Result Refusal (McpSnapshot × Text × CompiledServer)
select_server now none r = err metadata_unavailable
select_server now (some p) r = do
  refuse (ltb max_age (now - p.fresh)) metadata_unavailable
  let id = or_default (lookup r.escaped_path p.endpoints) [] in
      elim (lookup id p.servers) [
        | none ↦ err not_found
        | some cs ↦ if cs.config.enabled then ok (p, id, cs) else err not_found
      ]

unfoldable pub find_runtime : Heap → Snapshot → CompiledServer → Result Refusal Address
find_runtime h s cs = elim (lookup cs.config.app s.runtimes) [
  | none ↦ err contract_synchronizing
  | some r ↦ if (h r).info.revision == cs.revision then ok r else err contract_synchronizing
]

-- ServeHTTP from the loop over the keys on.
unfoldable pub find_view :
    McpSnapshot → Text → CompiledServer → Address → Text → Platform → Result Refusal Scope
find_view m id cs runtime token p =
    let key_id = find_key (key_hash p token) m.catalog.keys [] in
    (do
      refuse (key_id == []) invalid_key
      refuse (is_some cs.error) service_unavailable
      elim (lookup key_id cs.views) [
        | none ↦ err access_denied
        | some view ↦
            ok (record { runtime = runtime; key_id = key_id; server_id = id; view = view })
      ])

-- ServeHTTP with a lease of the snapshot `s`.
unfoldable pub authorize :
    Platform
    → Heap
    → Snapshot
    → McpSnapshot
    → Text
    → CompiledServer
    → Request
    → Result Refusal Scope
authorize p h s m id cs r = do
  runtime ← find_runtime h s cs
  domain ← map_err (λ e. domain_forbidden) (request_domain p r.host)
  refuse (not (has_app s domain cs.config.app)) domain_forbidden
  refuse (not (origin_allowed p r.host (header_get (bytes "Origin") r.headers))) origin_forbidden
  token ← token_of cs.config r.headers
  refuse (ltb 256 (length token)) invalid_key
  find_view m id cs runtime token p

pub data Answer : Type 0 where
  healthy : Answer
  answered : Result Refusal Scope → Answer

unfoldable pub serve_http : Platform → ℕ → Option McpSnapshot → Request → Manager → Manager × Answer
serve_http p now current r m =
    if r.path == bytes "/healthz" then (m, healthy) else elim (select_server now current r) [
      | err e ↦ (m, answered (err e))
      | ok (snapshot, id, cs) ↦
          let (m', lease) = acquire m in
          elim lease [
            | none ↦ (m', answered (err gateway_unavailable))
            | some s ↦ (release s m', answered (authorize p m'.heap s snapshot id cs r))
          ]
    ]
