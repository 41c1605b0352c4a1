-- ===== src/Mcp/Serve/Access.antt =====
-- internal/mcp/service.go: what a request has shown when it reaches the tools of a server.
use xuandu_gateway.Prelude.{
  refuse-ok, map_err-ok, ℕ, ◌-◌, ◌≤◌, ◌≡◌, refl, sym, ap, subst, ◌∙◌, ◌⊎◌, inl, inr, true, false,
  not, ◌&&◌, Option, none, some, is_some, List, [], ◌∷◌, Text, bytes, ◌==◌, eq_iff, lookup,
  or_default, ok, map_err, ltb, length, Some, Bool-cases, Option-cases, Result-cases, >>=-eq-ok,
  arith,
}
use xuandu_gateway.Platform.{Platform}
use xuandu_gateway.Metadata.Domain.{request_domain}
use xuandu_gateway.Runtime.Heap.{Address, Heap}
use xuandu_gateway.Runtime.Manager.{Snapshot, Manager, has_app, acquire}
use xuandu_gateway.Mcp.Model.{KeyConfig, key_hash}
use xuandu_gateway.Mcp.Build.{CompiledServer, McpSnapshot}
use xuandu_gateway.Mcp.Serve.{
  Request, domain_forbidden, origin_forbidden, invalid_key, service_unavailable, Scope, header_get,
  origin_allowed, token_of, find_key, max_age, select_server, find_runtime, find_view, authorize,
  answered, serve_http,
}

-- An enabled key with that id and the hash.
abbrev pub HasKey : Text → Text → KeyConfig → Type 0
HasKey hash id k = (k.id ≡ id) × (k.enabled ≡ true) × (k.hash ≡ hash)

find_key_lem :
    (hash : Text) (ks : List KeyConfig) (found : Text)
    → (find_key hash ks found ≡ found) ⊎ Some (HasKey hash (find_key hash ks found)) ks
unfolding find_key
find_key_lem hash [] found = inl refl
find_key_lem hash (k ∷ ks) found = elim (Bool-cases (hash == k.hash && k.enabled)) [
  | inl hit ↦ elim (find_key_lem hash ks k.id) [
    | inl last ↦ inr (inl (ground arith, ground arith, ground (arith, eq_iff hash k.hash)))
    | inr later ↦ inr (inr (subst (λ id. Some (HasKey hash id) ks) (ground arith) later))
  ]
  | inr miss ↦ elim (find_key_lem hash ks found) [
    | inl last ↦ inl (ground arith)
    | inr later ↦ inr (inr (subst (λ id. Some (HasKey hash id) ks) (ground arith) later))
  ]
]

-- What select_server has checked.
pub record IsSelected (now : ℕ) (current : Option McpSnapshot) (r : Request) (s : McpSnapshot)
    (id : Text) (cs : CompiledServer) : Type 0 where
  pub loaded : current ≡ some s
  pub recent : now - s.fresh ≤ max_age
  pub at_endpoint : id ≡ or_default (lookup r.escaped_path s.endpoints) []
  pub known : lookup id s.servers ≡ some cs
  pub enabled : cs.config.enabled ≡ true

pub select_server-IsSelected :
    (now : ℕ) (current : Option McpSnapshot) (r : Request) (s : McpSnapshot) (id : Text)
    (cs : CompiledServer)
    → select_server now current r ≡ ok (s, id, cs)
    → IsSelected now current r s id cs
unfolding select_server
select_server-IsSelected now none r s id cs e = cc
select_server-IsSelected now (some p) r s id cs e =
    elim (Bool-cases (ltb max_age (now - p.fresh))) [
      | inl old ↦ absurd (ground arith)
      | inr young ↦
          elim (Option-cases
            (lookup (or_default (lookup r.escaped_path p.endpoints) []) p.servers)) [
              | inl missing ↦ absurd (ground arith)
              | inr (ds, found) ↦ elim (Bool-cases ds.config.enabled) [
                | inr off ↦ absurd (ground arith)
                | inl on ↦ record {
                  loaded = ground arith;
                  recent = ground arith;
                  at_endpoint = ground arith;
                  known = ground arith;
                  enabled = ground arith;
                }
              ]
            ]
    ]

-- What authorize has checked.
pub record IsAuthorized (p : Platform) (h : Heap) (s : Snapshot) (m : McpSnapshot)
    (cs : CompiledServer) (r : Request) (scope : Scope) : Type 0 where
  pub published : lookup cs.config.app s.runtimes ≡ some scope.runtime
  pub compiled_for : (h scope.runtime).info.revision ≡ cs.revision
  pub at_domain :
      (domain : Text) × (request_domain p r.host ≡ ok domain)
      × (has_app s domain cs.config.app ≡ true)
  pub origin : origin_allowed p r.host (header_get (bytes "Origin") r.headers) ≡ true
  pub key :
      (token : Text) × (token_of cs.config r.headers ≡ ok token)
      × (length token ≤ 256)
      × Some (HasKey (key_hash p token) scope.key_id) m.catalog.keys
  pub compiled : cs.error ≡ none
  pub granted : lookup scope.key_id cs.views ≡ some scope.view

find_runtime_lem :
    (h : Heap) (s : Snapshot) (cs : CompiledServer) (a : Address)
    → find_runtime h s cs ≡ ok a
    → (lookup cs.config.app s.runtimes ≡ some a) × ((h a).info.revision ≡ cs.revision)
unfolding find_runtime
find_runtime_lem h s cs a e = elim (Option-cases (lookup cs.config.app s.runtimes)) [
  | inl missing ↦ absurd (ground arith)
  | inr (b, found) ↦ elim (Bool-cases ((h b).info.revision == cs.revision)) [
    | inr differs ↦ absurd (ground arith)
    | inl same ↦
        let is_it : b ≡ a = ground arith in
        (
          ground arith,
          subst (λ o. (h o).info.revision ≡ cs.revision) is_it
              (ground (arith, eq_iff (h b).info.revision cs.revision)),
        )
  ]
]

-- The last steps of authorize, once the token is known.
finish :
    (p : Platform) (m : McpSnapshot) (cs : CompiledServer) (runtime : Address) (id token : Text)
    (scope : Scope)
    → find_view m id cs runtime token p ≡ ok scope
    → (scope.runtime ≡ runtime)
      × (scope.server_id ≡ id)
      × Some (HasKey (key_hash p token) scope.key_id) m.catalog.keys
      × (cs.error ≡ none)
      × (lookup scope.key_id cs.views ≡ some scope.view)
unfolding find_view
finish p m cs runtime id token scope e =
    let found = find_key (key_hash p token) m.catalog.keys [] in
    let (named, e2) = refuse-ok (found == []) invalid_key _ e in
    let (fine, e3) = refuse-ok (is_some cs.error) service_unavailable _ e2 in
    elim (Option-cases (lookup found cs.views)) [
      | inl missing ↦ absurd (ground arith)
      | inr (view, at_key) ↦
          let same : found ≡ scope.key_id = ground arith in
          let has_key : Some (HasKey (key_hash p token) found) m.catalog.keys =
            elim (find_key_lem (key_hash p token) m.catalog.keys []) [
              | inl nobody ↦ absurd (ground (arith, eq_iff found []))
              | inr somebody ↦ somebody
            ] in
          (
            ground arith,
            ground arith,
            subst (λ o. Some (HasKey (key_hash p token) o) m.catalog.keys) same has_key,
            elim (Option-cases cs.error) [ inl n ↦ n | inr (o, bad) ↦ absurd (ground arith) ],
            ground arith,
          )
    ]

pub authorize-IsAuthorized :
    (p : Platform) (h : Heap) (s : Snapshot) (m : McpSnapshot) (id : Text) (cs : CompiledServer)
    (r : Request) (scope : Scope)
    → authorize p h s m id cs r ≡ ok scope
    → IsAuthorized p h s m cs r scope × (scope.server_id ≡ id)
unfolding authorize
authorize-IsAuthorized p h s m id cs r scope e =
    let (runtime, at_app, e1) = >>=-eq-ok (find_runtime h s cs) _ e in
    let (domain, parsed, e2) =
      >>=-eq-ok (map_err (λ e. domain_forbidden) (request_domain p r.host)) _ e1 in
    let (allowed, e3) = refuse-ok (not (has_app s domain cs.config.app)) domain_forbidden _ e2 in
    let (same, e4) =
      refuse-ok (not (origin_allowed p r.host (header_get (bytes "Origin") r.headers)))
        origin_forbidden _ e3 in
    let (token, given, e5) = >>=-eq-ok (token_of cs.config r.headers) _ e4 in
    let (short, e6) = refuse-ok (ltb 256 (length token)) invalid_key _ e5 in
    let (is_runtime, is_server, key, fine, view) = finish p m cs runtime id token scope e6 in
    let (found, revision) = find_runtime_lem h s cs runtime at_app in
    (
      record {
        published = found ∙ ap some (sym is_runtime);
        compiled_for = subst (λ o. (h o).info.revision ≡ cs.revision) (sym is_runtime) revision;
        at_domain = (
          domain,
          map_err-ok (λ e. domain_forbidden) (request_domain p r.host) parsed,
          ground arith,
        );
        origin = ground arith;
        key = (token, given, ground arith, key);
        compiled = fine;
        granted = view;
      },
      is_server,
    )

-- Why a request was served: the snapshot and the server that it selects, and the lease under which
-- it was authorized.
pub record IsServed (p : Platform) (now : ℕ) (current : Option McpSnapshot) (r : Request)
    (m : Manager) (scope : Scope) : Type 0 where
  pub snapshot : McpSnapshot
  pub server : CompiledServer
  pub selected : IsSelected now current r snapshot scope.server_id server
  pub open_ : m.closed ≡ false
  pub authorized : IsAuthorized p (acquire m).0.heap m.current snapshot server r scope

-- A request gets to the tools of an MCP server only if the loaded snapshot is at most 60 seconds
-- old, the endpoint is that of an enabled server without error, the manager is open and publishes a
-- runtime of the revision for which the server was compiled, the host is a domain of the server's
-- application, an Origin is the host's own, and the one value of the server's header gives a token
-- of at most 256 bytes whose SHA-256 sum is the hash of an enabled key of the catalog; the tools are
-- those of the view of a key of that id.
pub serve_http-IsServed :
    (p : Platform) (now : ℕ) (current : Option McpSnapshot) (r : Request) (m : Manager)
    (scope : Scope)
    → (serve_http p now current r m).1 ≡ answered (ok scope)
    → IsServed p now current r m scope
unfolding serve_http acquire
serve_http-IsServed p now current r m scope e = elim (Bool-cases (r.path == bytes "/healthz")) [
  | inl health ↦ absurd (ground arith)
  | inr other ↦ elim (Result-cases (select_server now current r)) [
    | inr (refusal, refused) ↦ absurd (ground arith)
    | inl ((snapshot, id, cs), selected) ↦ elim (Bool-cases m.closed) [
      | inl shut ↦ absurd (ground arith)
      | inr running ↦
          let granted : authorize p (acquire m).0.heap m.current snapshot id cs r ≡ ok scope =
            ground arith in
          let (authorized, is_id) =
            authorize-IsAuthorized p (acquire m).0.heap m.current snapshot id cs r scope granted in
          record {
            snapshot = snapshot;
            server = cs;
            selected =
                subst (λ o. IsSelected now current r snapshot o cs) (sym is_id)
                  (select_server-IsSelected now current r snapshot id cs selected);
            open_ = running;
            authorized = authorized;
          }
    ]
  ]
]
