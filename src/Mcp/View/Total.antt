-- ===== src/Mcp/View/Total.antt =====
-- internal/mcp/service.go: View of a snapshot that build has made.
use xuandu_gateway.Prelude.{
  ℕ, ◌≡◌, refl, ap, inl, inr, true, Option, some, is_some, List, [], ◌∷◌, map, Text, ==_refl, Dict,
  lookup, put, lookup-put, ok, All, length, Option-cases, arith,
}
use xuandu_gateway.Platform.{Platform}
use xuandu_gateway.Metadata.Model.{App}
use xuandu_gateway.Runtime.Heap.{Heap}
use xuandu_gateway.Runtime.Manager.{Snapshot}
use xuandu_gateway.Mcp.Model.{Catalog, KeyConfig, ServerConfig, safe_catalog, hide_hash}
use xuandu_gateway.Mcp.Build.{
  Compiler, CompiledServer, McpSnapshot, add_endpoints, compile_server, build_servers, build,
}
use xuandu_gateway.Mcp.View.{Listener, Status, View, status_text, statuses_of, view}

abbrev Has : Dict CompiledServer → Text → Type 0
Has servers id = is_some (lookup id servers) ≡ true

module _ {D : Type 0} (x : Compiler D) (p : Platform) (old : Option McpSnapshot) (c : Catalog)
    (apps : List App) (h : Heap) (s : Snapshot) where
  build_servers-keeps :
      (cfgs : List ServerConfig) (docs : Dict D) (servers : Dict CompiledServer)
      (endpoints : Dict Text) (id : Text)
      → Has servers id
      → Has (build_servers x p old c apps h s cfgs docs servers endpoints).0 id
  unfolding build_servers
  build_servers-keeps [] docs servers endpoints id has = has
  build_servers-keeps (cfg ∷ cfgs) docs servers endpoints id has =
      let (cs, docs') = compile_server x old c apps h s cfg docs in
      build_servers-keeps cfgs docs' (put cfg.id cs servers)
        (add_endpoints p cfg.id cfg.endpoints endpoints) id
        (ground (arith, lookup-put cfg.id id cs servers))

  build_servers-covers :
      (cfgs : List ServerConfig) (docs : Dict D) (servers : Dict CompiledServer)
      (endpoints : Dict Text)
      → All
          (λ cfg. Has (build_servers x p old c apps h s cfgs docs servers endpoints).0 cfg.id)
          cfgs
  unfolding build_servers
  build_servers-covers [] docs servers endpoints = tt
  build_servers-covers (cfg ∷ cfgs) docs servers endpoints =
      let (cs, docs') = compile_server x old c apps h s cfg docs in
      let more = put cfg.id cs servers in
      let points = add_endpoints p cfg.id cfg.endpoints endpoints in
      (
        build_servers-keeps cfgs docs' more points cfg.id
            (ground (arith, lookup-put cfg.id cfg.id cs servers, ==_refl cfg.id)),
        build_servers-covers cfgs docs' more points,
      )

abbrev ids : List ServerConfig → List Text
ids cfgs = map (λ (cfg : ServerConfig). cfg.id) cfgs

abbrev status_ids : List Status → List Text
status_ids statuses = map (λ (status : Status). status.server_id) statuses

statuses_of-total :
    (l : Listener) (now : ℕ) (p : McpSnapshot) (cfgs : List ServerConfig)
    → All (λ cfg. Has p.servers cfg.id) cfgs
    → (statuses : List Status) × (statuses_of l now p cfgs ≡ ok statuses)
      × (status_ids statuses ≡ ids cfgs)
unfolding statuses_of
statuses_of-total l now p [] has = ([], refl, refl)
statuses_of-total l now p (cfg ∷ cfgs) (this, has) =
    let (more, rest, same) = statuses_of-total l now p cfgs has in
    elim (Option-cases (lookup cfg.id p.servers)) [
      | inl missing ↦ absurd (ground arith)
      | inr (cs, found) ↦
          let first : Status = record {
            server_id = cfg.id;
            status = status_text l now p cfg cs;
            error = cs.error;
            revision = cs.revision;
            tool_count = length cs.bindings;
          } in
          (first ∷ more, ground (arith, found, rest), ap (λ ts. cfg.id ∷ ts) same)
    ]

-- The view of a catalog: a status for each server, in their order, and no hash of a key.
pub record IsView (c : Catalog) (v : View) : Type 0 where
  pub servers : status_ids v.statuses ≡ ids c.servers
  pub hidden : All (λ (key : KeyConfig). key.hash ≡ []) v.catalog.keys

hide-hidden :
    (keys : List KeyConfig) → All (λ (key : KeyConfig). key.hash ≡ []) (map hide_hash keys)
unfolding hide_hash
hide-hidden [] = tt
hide-hidden (key ∷ keys) = (refl, hide-hidden keys)

-- View of a snapshot that build has made never dereferences a missing server: it succeeds, with one
-- status for each server of the catalog, in their order, and shows no hash of a key.
pub view-total :
    {D : Type 0} (x : Compiler D) (p : Platform) (now : ℕ) (old : Option McpSnapshot) (c : Catalog)
    (apps : List App) (h : Heap) (s : Snapshot) (l : Listener) (later : ℕ)
    → (v : View) × (view l later (some (build x p now old c apps h s)) ≡ ok v) × IsView c v
unfolding view build safe_catalog
view-total x p now old c apps h s l later =
    let q = build x p now old c apps h s in
    let (statuses, shown, same) =
      statuses_of-total l later q c.servers
        (build_servers-covers x p old c apps h s c.servers [] [] []) in
    let v : View = record {
      catalog = safe_catalog c;
      listener_enabled = l.enabled;
      listener_error = l.failed;
      statuses = statuses;
    } in
    (v, ground (arith, shown), record { servers = same; hidden = hide-hidden c.keys })
