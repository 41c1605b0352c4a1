-- ===== src/Mcp/Service.antt =====
-- internal/mcp: the catalog in Consul (ConsulRepository of model.go), and the operations of
-- service.go that load, change and publish it. `W` is the state of Consul.
pub mod Commit
pub mod Stored
pub mod Granted
use xuandu_gateway.Prelude.{
  ℕ, Bool, true, false, not, ◌&&◌, ◌||◌, ◌*◌, ◌^◌, Option, none, some, List, [], ◌∷◌, ◌++◌, Text,
  bytes, ◌==◌, has_suffix, trim_suffix, Dict, lookup, Result, ok, err, ◌>>=◌, ◌>>◌, refuse, map_err,
  if◌then◌else◌, ltb, eqb, length,
}
use xuandu_gateway.Platform.{Platform}
use xuandu_gateway.Metadata.Consul.{Pair, Consul}
use xuandu_gateway.Metadata.Model.{App}
use xuandu_gateway.Runtime.Manager.{Snapshot, Manager, acquire, release}
use xuandu_gateway.Mcp.Model.{
  Catalog, Mutation, McpError, load_failed, too_large, corrupt, save_failed, conflict,
  apps_unavailable, shutting_down,
}
use xuandu_gateway.Mcp.Validate.{validate}
use xuandu_gateway.Mcp.Mutate.{Changed, Random, change_catalog}
use xuandu_gateway.Mcp.Build.{BuildError, Compiler, CompiledServer, McpSnapshot, build}

-- encoding/json on catalogs; Marshal does not fail on this type.
pub record Codec : Type 0 where
  pub encode : Catalog → Text
  pub decode : Text → Option Catalog

-- The key of NewRepository, from the prefix without the slashes at its ends.
unfoldable pub catalog_key : Text → Text
catalog_key prefix =
    if has_suffix prefix (bytes "/apps")
    then trim_suffix prefix (bytes "/apps") ++ bytes "/mcp/catalog"
    else prefix ++ bytes "-mcp/catalog"

unfoldable pub max_catalog_bytes : ℕ
max_catalog_bytes = 256 * 2 ^ 10

abbrev pub empty_catalog : Catalog
empty_catalog = record { version = 0; servers = []; tools = []; keys = [] }

unfoldable pub decode_pair : Codec → Option Pair → Result McpError Catalog
decode_pair j none = ok empty_catalog
decode_pair j (some pair) =
    if ltb max_catalog_bytes (length pair.value)
    then err too_large
    else elim (j.decode pair.value) [
      | none ↦ err corrupt
      | some c ↦ ok (record c { version = pair.modify_index })
    ]

pub data ServiceError : Type 0 where
  refused : McpError → ServiceError
  -- The changed server does not compile.
  uncompiled : BuildError → ServiceError

-- The answer of Mutate.
pub record Saved : Type 0 where
  pub id : Text
  pub version : ℕ
  pub secret : Text

pub record State (W : Type 0) : Type 0 where
  pub world : W
  pub current : Option McpSnapshot
  pub manager : Manager

-- The server whose compilation decides about a mutation.
unfoldable pub checked_server : Mutation → Text → Option Text
checked_server m id =
    if m.delete
    then none
    else if m.kind == bytes "tool"
    then some m.tool.server_id
    else if m.kind == bytes "server"
    then some id
    else none

unfoldable pub compile_error : Mutation → Text → McpSnapshot → Option BuildError
compile_error m id candidate = elim (checked_server m id) [
  | none ↦ none
  | some server ↦ elim (lookup server candidate.servers) [
    | none ↦ none
    | some cs ↦ if cs.config.enabled then cs.error else none
  ]
]

-- `key` is the path of the catalog, `list` the read of the applications.
module _ {W D : Type 0} (p : Platform) (x : Compiler D) (c : Consul W) (j : Codec) (key : Text)
    (list : W → Option (List App)) where
  unfoldable pub load : W → Result McpError Catalog
  load w = elim (c.get key w) [ none ↦ err load_failed | some pair ↦ decode_pair j pair ]

  unfoldable pub save : Catalog → ℕ → W → W × Result McpError (Unit {0})
  save catalog version w =
      let b = j.encode (record catalog { version = 0 }) in
      if ltb max_catalog_bytes (length b)
      then (w, err too_large)
      else (let (w', answer) = c.put_cas key b version w in
          (
            w',
            elim answer [
              | none ↦ err save_failed
              | some done ↦ if done then ok tt else err conflict
            ],
          ))

  unfoldable pub list_apps : W → Result McpError (List App)
  list_apps w = elim (list w) [ none ↦ err apps_unavailable | some apps ↦ ok apps ]

  unfoldable pub load_valid : W → Result McpError Catalog
  load_valid w = do catalog ← load w; validate p catalog; ok catalog

  -- Mutate before Acquire.
  unfoldable pub requested : Random → Mutation → W → Result McpError (Changed × List App)
  requested r m w = do
    catalog ← load w
    refuse (not (eqb catalog.version m.version)) conflict
    changed ← change_catalog p r catalog m
    validate p changed.catalog
    apps ← list_apps w
    ok (changed, apps)

  -- Mutate from Save on, with a lease of the snapshot `s`.
  unfoldable pub commit :
      ℕ → Snapshot → Changed → List App → ℕ → State W → State W × Result ServiceError Saved
  commit now s changed apps version st =
      let (w, saved) = save changed.catalog version st.world in
      elim saved [
        | err e ↦ (record st { world = w }, err (refused e))
        | ok u ↦ elim (load_valid w) [
          | err e ↦ (record st { world = w; current = none }, err (refused e))
          | ok catalog ↦ (
            record st {
              world = w;
              current = some (build x p now st.current catalog apps st.manager.heap s);
            },
            ok (record { id = changed.id; version = catalog.version; secret = changed.secret }),
          )
        ]
      ]

  -- Mutate with a lease.
  unfoldable pub leased :
      ℕ → Snapshot → Mutation → Changed → List App → State W → State W × Result ServiceError Saved
  leased now s m changed apps st =
      let candidate =
        build x p now st.current (record (changed.catalog) { version = 0 }) apps st.manager.heap
          s in
      elim (compile_error m changed.id candidate) [
        | some e ↦ (st, err (uncompiled e))
        | none ↦ commit now s changed apps m.version st
      ]

  unfoldable pub mutate : ℕ → Random → Mutation → State W → State W × Result ServiceError Saved
  mutate now r m st = elim (requested r m st.world) [
    | err e ↦ (st, err (refused e))
    | ok (changed, apps) ↦
        let (manager, lease) = acquire st.manager in
        elim lease [
          | none ↦ (record st { manager = manager }, err (refused shutting_down))
          | some s ↦
              let (st', answer) = leased now s m changed apps (record st { manager = manager }) in
              (record st' { manager = release s st'.manager }, answer)
        ]
  ]

  -- Refresh before Acquire.
  unfoldable pub refreshed : W → Result McpError (Catalog × List App)
  refreshed w = do catalog ← load_valid w; apps ← list_apps w; ok (catalog, apps)

  unfoldable pub refresh : ℕ → State W → State W × Result McpError (Unit {0})
  refresh now st = elim (refreshed st.world) [
    | err e ↦ (st, err e)
    | ok (catalog, apps) ↦
        let (manager, lease) = acquire st.manager in
        elim lease [
          | none ↦ (record st { manager = manager }, err shutting_down)
          | some s ↦ (
            record st {
              current = some (build x p now st.current catalog apps manager.heap s);
              manager = release s manager;
            },
            ok tt,
          )
        ]
  ]
