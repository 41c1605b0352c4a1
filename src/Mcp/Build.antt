-- ===== src/Mcp/Build.antt =====
-- internal/mcp/service.go: build, which compiles a catalog for the runtimes of a snapshot. The
-- OpenAPI generator and the compiler of single tools are parameters.
pub mod Views
pub mod Sound
use xuandu_gateway.Prelude.{
  ℕ, ◌+◌, Bool, true, false, not, ◌&&◌, ◌||◌, Option, none, some, is_none, List, [], ◌∷◌, Text,
  ◌==◌, mem_text, text_le, Dict, lookup, put, values, or_default, Result, ok, err, ◌>>=◌,
  if◌then◌else◌, ltb, eqb, keep,
}
use xuandu_gateway.Platform.{Platform}
use xuandu_gateway.Idl.Ast.{Route}
use xuandu_gateway.Metadata.Model.{App}
use xuandu_gateway.Runtime.Heap.{Heap}
use xuandu_gateway.Runtime.Manager.{Snapshot}
use xuandu_gateway.Mcp.Model.{
  ServerConfig, ToolConfig, Grant, KeyConfig, Catalog, McpError, endpoint_key,
}

-- The fields of a Binding that build reads; `size` is the length of its encoded definition.
pub record Binding : Type 0 where
  pub config : ToolConfig
  pub route : Route
  pub size : ℕ

pub data BuildError : Type 0 where
  app_not_ready contract_unavailable openapi_failed document_failed : BuildError
  too_many_tools definitions_too_large : BuildError
  -- The name of the tool and the message of compile.
  tool_failed : Text → Text → BuildError

-- The stored contracts, openapi.Generate with documentFrom, and compile. `D` is the parsed document.
pub record Compiler (D : Type 0) : Type 0 where
  pub get_contract : Text → Option (Dict Text)
  pub generate : Text → Text → Dict Text → Result BuildError D
  pub compile : ToolConfig → D → List Route → Text → Result Text Binding

-- A view is the list of the bindings that it offers as tools.
pub record CompiledServer : Type 0 where
  pub config : ServerConfig
  pub revision : Text
  pub bindings : Dict Binding
  pub views : Dict (List Binding)
  pub error : Option BuildError

pub record McpSnapshot : Type 0 where
  pub catalog : Catalog
  pub servers : Dict CompiledServer
  pub endpoints : Dict Text
  pub fresh : ℕ
  pub runtime_version : ℕ

unfoldable pub max_tools : ℕ
max_tools = 100

unfoldable pub max_definitions : ℕ
max_definitions = 4194304

unfoldable pub insert_binding : Binding → List Binding → List Binding
insert_binding b [] = b ∷ []
insert_binding b (c ∷ cs) =
    let rest = insert_binding b cs in
    if text_le b.config.name c.config.name then b ∷ c ∷ cs else c ∷ rest

-- sortedBindings
unfoldable pub sorted_bindings : List Binding → List Binding
sorted_bindings [] = []
sorted_bindings (b ∷ bs) = insert_binding b (sorted_bindings bs)

-- What AddTool has put into the view of a grant.
unfoldable pub view_of : List Binding → Grant → List Binding
view_of bs g = keep (λ b. mem_text b.config.id g.tool_ids) (sorted_bindings bs)

unfoldable pub grant_views :
    Text → Text → List Binding → List Grant → Dict (List Binding) → Dict (List Binding)
grant_views id key_id bs [] views = views
grant_views id key_id bs (g ∷ gs) views =
    grant_views id key_id bs gs
      (if g.server_id == id then put key_id (view_of bs g) views else views)

unfoldable pub key_views :
    Text → List Binding → List KeyConfig → Dict (List Binding) → Dict (List Binding)
key_views id bs [] views = views
key_views id bs (k ∷ ks) views =
    key_views id bs ks (if k.enabled then grant_views id k.id bs k.grants views else views)

unfoldable pub add_endpoints : Platform → Text → List Text → Dict Text → Dict Text
add_endpoints p id [] endpoints = endpoints
add_endpoints p id (raw ∷ raws) endpoints =
    let k : Text = elim (endpoint_key p raw) [ ok key ↦ key | err e ↦ [] ] in
    add_endpoints p id raws (put k id endpoints)

-- The server of `old` that is used again.
unfoldable pub reused : Option McpSnapshot → Catalog → ℕ → Text → Text → Option CompiledServer
reused none c version id revision = none
reused (some old) c version id revision =
    if eqb old.catalog.version c.version && eqb old.runtime_version version
    then (elim (lookup id old.servers) [
      | none ↦ none
      | some previous ↦
          if is_none previous.error && previous.revision == revision then some previous else none
    ])
    else none

-- `enabled[app]`: the last application of the name counts.
unfoldable pub enabled_app : List App → Text → Bool → Bool
enabled_app [] name seen = seen
enabled_app (a ∷ more) name seen =
    enabled_app more name (if a.name == name then a.enabled else seen)

module _ {D : Type 0} (x : Compiler D) where
  -- The document of an application; `docs` are those of the servers before.
  unfoldable pub document_of : Text → Text → Dict D → Result BuildError (D × Dict D)
  document_of app revision docs = elim (lookup app docs) [
    | some d ↦ ok (d, docs)
    | none ↦ elim (x.get_contract revision) [
      | none ↦ err contract_unavailable
      | some files ↦ elim (x.generate app revision files) [
        | err e ↦ err e
        | ok d ↦ ok (d, put app d docs)
      ]
    ]
  ]

  -- The loop over the tools: the bindings, and the error that ends it.
  unfoldable pub compile_tools :
      D
      → List Route
      → ServerConfig
      → List ToolConfig
      → ℕ
      → ℕ
      → Dict Binding
      → Dict Binding × Option BuildError
  compile_tools d routes cfg [] count total bs = (bs, none)
  compile_tools d routes cfg (t ∷ ts) count total bs = elim (t.server_id == cfg.id) [
    | false ↦ compile_tools d routes cfg ts count total bs
    | true ↦ elim (ltb max_tools (count + 1)) [
      | true ↦ (bs, some too_many_tools)
      | false ↦ elim (x.compile t d routes cfg.header) [
        | err message ↦ (bs, some (tool_failed t.name message))
        | ok b ↦ elim (ltb max_definitions (total + b.size)) [
          | true ↦ (bs, some definitions_too_large)
          | false ↦ compile_tools d routes cfg ts (count + 1) (total + b.size) (put t.id b bs)
        ]
      ]
    ]
  ]

  abbrev pub blank : ServerConfig → Text → Option BuildError → CompiledServer
  blank cfg revision e = record {
    config = cfg;
    revision = revision;
    bindings = [];
    views = [];
    error = e;
  }

  unfoldable pub finish_server : Catalog → D → List Route → ServerConfig → Text → CompiledServer
  finish_server c d routes cfg revision =
      let (bs, failed) = compile_tools d routes cfg c.tools 0 0 [] in
      record {
        config = cfg;
        revision = revision;
        bindings = bs;
        error = failed;
        views = elim failed [ some e ↦ [] | none ↦ key_views cfg.id (values bs) c.keys [] ];
      }

  unfoldable pub compile_server :
      Option McpSnapshot
      → Catalog
      → List App
      → Heap
      → Snapshot
      → ServerConfig
      → Dict D
      → CompiledServer × Dict D
  compile_server old c apps h s cfg docs =
      if not cfg.enabled then (blank cfg [] none, docs) else elim (lookup cfg.app s.runtimes) [
        | none ↦ (blank cfg [] (some app_not_ready), docs)
        | some r ↦
            if not (enabled_app apps cfg.app false)
            then (blank cfg [] (some app_not_ready), docs)
            else (let revision = (h r).info.revision in
                elim (reused old c s.version cfg.id revision) [
                  | some previous ↦ (previous, docs)
                  | none ↦ elim (document_of cfg.app revision docs) [
                    | err e ↦ (blank cfg revision (some e), docs)
                    | ok dd ↦ (finish_server c dd.0 (h r).info.routes cfg revision, dd.1)
                  ]
                ])
      ]

  unfoldable pub build_servers :
      Platform
      → Option McpSnapshot
      → Catalog
      → List App
      → Heap
      → Snapshot
      → List ServerConfig
      → Dict D
      → Dict CompiledServer
      → Dict Text
      → Dict CompiledServer × Dict Text
  build_servers p old c apps h s [] docs servers endpoints = (servers, endpoints)
  build_servers p old c apps h s (cfg ∷ cfgs) docs servers endpoints =
      let (cs, docs') = compile_server old c apps h s cfg docs in
      build_servers p old c apps h s cfgs docs' (put cfg.id cs servers)
        (add_endpoints p cfg.id cfg.endpoints endpoints)

  unfoldable pub build :
      Platform → ℕ → Option McpSnapshot → Catalog → List App → Heap → Snapshot → McpSnapshot
  build p now old c apps h s =
      let (servers, endpoints) = build_servers p old c apps h s c.servers [] [] [] in
      record {
        catalog = c;
        servers = servers;
        endpoints = endpoints;
        fresh = now;
        runtime_version = s.version;
      }
