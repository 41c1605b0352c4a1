-- ===== src/Mcp/Build/Sound.antt =====
-- internal/mcp/service.go: a built snapshot gives no key a tool that it has not been granted.
use xuandu_gateway.Prelude.{
  ℕ, ◌≡◌, refl, subst, inl, inr, false, Option, none, some, List, [], ◌∷◌, Text, ◌==◌, eq_iff, Dict,
  lookup, lookup-put, put, values, Bool-cases, Option-cases, Result-cases, arith,
}
use xuandu_gateway.Platform.{Platform}
use xuandu_gateway.Idl.Ast.{Route}
use xuandu_gateway.Metadata.Model.{App}
use xuandu_gateway.Runtime.Heap.{Heap}
use xuandu_gateway.Runtime.Manager.{Snapshot}
use xuandu_gateway.Mcp.Model.{ServerConfig, Catalog}
use xuandu_gateway.Mcp.Build.{
  Compiler, BuildError, app_not_ready, CompiledServer, McpSnapshot, compile_tools, blank, key_views,
  add_endpoints, reused, enabled_app, document_of, finish_server, compile_server, build_servers,
  build,
}
use xuandu_gateway.Mcp.Build.Views.{
  SoundViews, SoundServer, SoundServers, IsSound, SoundBefore, key_views-SoundViews, no_views,
  reused-Sound,
}

moved :
    (c : Catalog) (id : Text) (cs ds : CompiledServer)
    → cs ≡ ds
    → SoundServer c id cs
    → SoundServer c id ds
moved c id cs ds e = subst (SoundServer c id) e

module _ {D : Type 0} (x : Compiler D) where
  finish_server-Sound :
      (c : Catalog) (d : D) (routes : List Route) (cfg : ServerConfig) (revision : Text)
      → SoundServer c cfg.id (finish_server x c d routes cfg revision)
  unfolding finish_server
  finish_server-Sound c d routes cfg revision =
      let tools = compile_tools x d routes cfg c.tools 0 0 [] in
      elim (Option-cases tools.1) [
        | inl fine ↦
            let views : key_views cfg.id (values tools.0) c.keys []
                ≡ (finish_server x c d routes cfg revision).views =
              ground arith in
            (
              refl,
              subst (SoundViews c.keys cfg.id) views
                  (key_views-SoundViews cfg.id (values tools.0) c.keys),
            )
        | inr (e, failed) ↦
            let views : [] ≡ (finish_server x c d routes cfg revision).views = ground arith in
            (refl, subst (SoundViews c.keys cfg.id) views (no_views c.keys cfg.id))
      ]

  compile_server-Sound :
      (old : Option McpSnapshot) (c : Catalog) (apps : List App) (h : Heap) (s : Snapshot)
      (cfg : ServerConfig) (docs : Dict D)
      → SoundBefore old c
      → SoundServer c cfg.id (compile_server x old c apps h s cfg docs).0
  unfolding compile_server
  compile_server-Sound old c apps h s cfg docs before =
      let off : (revision : Text) (e : Option BuildError)
          → SoundServer c cfg.id (blank x cfg revision e) =
        λ revision e. (refl, no_views c.keys cfg.id) in
      let out = (compile_server x old c apps h s cfg docs).0 in
      elim (Bool-cases cfg.enabled) [
        | inr disabled ↦ moved c cfg.id (blank x cfg [] none) out (ground arith) (off [] none)
        | inl on ↦ elim (Option-cases (lookup cfg.app s.runtimes)) [
          | inl missing ↦
              moved c cfg.id (blank x cfg [] (some app_not_ready)) out (ground arith)
                (off [] (some app_not_ready))
          | inr (r, found) ↦ elim (Bool-cases (enabled_app apps cfg.app false)) [
            | inr inactive ↦
                moved c cfg.id (blank x cfg [] (some app_not_ready)) out (ground arith)
                  (off [] (some app_not_ready))
            | inl active ↦ elim (Option-cases (reused old c s.version cfg.id (h r).info.revision)) [
              | inr (previous, again) ↦
                  moved c cfg.id (previous) out (ground arith)
                    (reused-Sound old c s.version cfg.id (h r).info.revision previous before again)
              | inl fresh ↦ elim (Result-cases (document_of x cfg.app (h r).info.revision docs)) [
                | inl (dd, parsed) ↦
                    moved c cfg.id
                      (finish_server x c dd.0 (h r).info.routes cfg (h r).info.revision) out
                      (ground arith)
                      (finish_server-Sound c dd.0 (h r).info.routes cfg (h r).info.revision)
                | inr (e, failed) ↦
                    moved c cfg.id (blank x cfg (h r).info.revision (some e)) out (ground arith)
                      (off (h r).info.revision (some e))
              ]
            ]
          ]
        ]
      ]

  put-SoundServers :
      (c : Catalog) (id : Text) (cs : CompiledServer) (servers : Dict CompiledServer)
      → SoundServer c id cs
      → SoundServers c servers
      → SoundServers c (put id cs servers)
  put-SoundServers c id cs servers new h j ds e = elim (Bool-cases (id == j)) [
    | inl hit ↦
        let at_j : id ≡ j = ground (arith, eq_iff id j) in
        let is_it : cs ≡ ds = ground (arith, lookup-put id j cs servers) in
        subst (λ o. SoundServer c o ds) at_j (subst (SoundServer c id) is_it new)
    | inr miss ↦ h j ds (ground (arith, lookup-put id j cs servers))
  ]

  build_servers-Sound :
      (p : Platform) (old : Option McpSnapshot) (c : Catalog) (apps : List App) (h : Heap)
      (s : Snapshot) (cfgs : List ServerConfig) (docs : Dict D) (servers : Dict CompiledServer)
      (endpoints : Dict Text)
      → SoundBefore old c
      → SoundServers c servers
      → SoundServers c (build_servers x p old c apps h s cfgs docs servers endpoints).0
  unfolding build_servers
  build_servers-Sound p old c apps h s [] docs servers endpoints before sound = sound
  build_servers-Sound p old c apps h s (cfg ∷ cfgs) docs servers endpoints before sound =
      let r = compile_server x old c apps h s cfg docs in
      build_servers-Sound p old c apps h s cfgs r.1 (put cfg.id r.0 servers)
        (add_endpoints p cfg.id cfg.endpoints endpoints) before
        (put-SoundServers c cfg.id r.0 servers (compile_server-Sound old c apps h s cfg docs before)
          sound)

  -- In the snapshot that build makes, every server stands under its id, and every tool in the view
  -- of a key is in the grant that some enabled key of that id in the new catalog has for that
  -- server. This holds also for servers used again from the snapshot before, if that one was such a
  -- snapshot and had this catalog if it had its version.
  pub build-IsSound :
      (p : Platform) (now : ℕ) (old : Option McpSnapshot) (c : Catalog) (apps : List App) (h : Heap)
      (s : Snapshot)
      → SoundBefore old c
      → IsSound (build x p now old c apps h s)
  unfolding build lookup
  build-IsSound p now old c apps h s before =
      build_servers-Sound p old c apps h s c.servers [] [] [] before (λ id cs e. cc)
