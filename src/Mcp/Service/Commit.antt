-- ===== src/Mcp/Service/Commit.antt =====
-- internal/mcp/service.go: what Mutate leaves in Consul and in the published snapshot.
use xuandu_gateway.Prelude.{
  ℕ, ◌≡◌, ◌≢◌, refl, sym, ap, subst, ◌∙◌, ◌⊎◌, inl, inr, true, Option, none, some, List, Text,
  Result, ok, err, ltb, length, Bool-cases, Option-cases, Result-cases, arith,
}
use xuandu_gateway.Platform.{Platform}
use xuandu_gateway.Metadata.Consul.{Consul}
use xuandu_gateway.Metadata.Model.{App}
use xuandu_gateway.Runtime.Heap.{Heap}
use xuandu_gateway.Runtime.Manager.{Snapshot, Manager, acquire, release}
use xuandu_gateway.Mcp.Model.{Catalog, Mutation, McpError, shutting_down}
use xuandu_gateway.Mcp.Mutate.{Changed, Random}
use xuandu_gateway.Mcp.Build.{Compiler, McpSnapshot, build}
use xuandu_gateway.Mcp.Service.{
  Codec, max_catalog_bytes, ServiceError, refused, uncompiled, Saved, State, compile_error, load,
  save, load_valid, requested, commit, leased, mutate,
}

module _ {W D : Type 0} (p : Platform) (x : Compiler D) (c : Consul W) (j : Codec) (key : Text)
    (list : W → Option (List App)) where
  -- The store has refused the write of a catalog, or its answer is unknown.
  abbrev pub SaveRefused : Mutation → W → Type 0
  SaveRefused m w = (value : Text) × ((c.put_cas key value m.version w).1 ≢ some true)

  abbrev pub Leaves : ℕ → Mutation → State W → State W → Result ServiceError Saved → Type 0
  Leaves now m st st' (ok saved) =
      (snapshot : McpSnapshot) × (st'.current ≡ some snapshot)
      × (load_valid p x c j key list st'.world ≡ ok snapshot.catalog)
      × (snapshot.catalog.version ≡ saved.version)
      × (snapshot.fresh ≡ now)
  Leaves now m st st' (err e) =
      (st'.current ≡ none)
      ⊎ ((st'.current ≡ st.current) × ((st'.world ≡ st.world) ⊎ SaveRefused m st.world))

  build_catalog :
      (now : ℕ) (old : Option McpSnapshot) (catalog : Catalog) (apps : List App) (h : Heap)
      (s : Snapshot)
      → (build x p now old catalog apps h s).catalog ≡ catalog
  unfolding build
  build_catalog now old catalog apps h s = refl

  build_fresh :
      (now : ℕ) (old : Option McpSnapshot) (catalog : Catalog) (apps : List App) (h : Heap)
      (s : Snapshot)
      → (build x p now old catalog apps h s).fresh ≡ now
  unfolding build
  build_fresh now old catalog apps h s = refl

  save_lem :
      (m : Mutation) (catalog : Catalog) (w : W) (e : McpError)
      → (save p x c j key list catalog m.version w).1 ≡ err e
      → ((save p x c j key list catalog m.version w).0 ≡ w) ⊎ SaveRefused m w
  unfolding save
  save_lem m catalog w e h =
      let b = j.encode (record catalog { version = 0 }) in
      elim (Bool-cases (ltb max_catalog_bytes (length b))) [
        | inl large ↦ inl (ground arith)
        | inr fits ↦ inr (b, λ done. ground (arith, done))
      ]

  moved :
      (now : ℕ) (m : Mutation) (st : State W) (q r : State W × Result ServiceError Saved)
      → q ≡ r
      → Leaves now m st q.0 q.1
      → Leaves now m st r.0 r.1
  unfolding load_valid load
  moved now m st q r e = subst (λ o. Leaves now m st o.0 o.1) e

  commit-Leaves :
      (now : ℕ) (s : Snapshot) (m : Mutation) (changed : Changed) (apps : List App) (st : State W)
      → let r = commit p x c j key list now s changed apps m.version st in Leaves now m st r.0 r.1
  unfolding commit
  commit-Leaves now s m changed apps st =
      let out = commit p x c j key list now s changed apps m.version st in
      let (w, answer) = save p x c j key list changed.catalog m.version st.world in
      elim (Result-cases answer) [
        | inr (e, failed) ↦
            moved now m st (record st { world = w }, err (refused e)) out (ground arith)
              (inr (refl, save_lem m changed.catalog st.world e failed))
        | inl (u, done) ↦ elim (Result-cases (load_valid p x c j key list w)) [
          | inr (e, lost) ↦
              moved now m st (record st { world = w; current = none }, err (refused e)) out
                (ground arith) (inl refl)
          | inl (catalog, found) ↦
              let next = build x p now st.current catalog apps st.manager.heap s in
              let is_next : next.catalog ≡ catalog =
                build_catalog now st.current catalog apps st.manager.heap s in
              moved now m st
                (
                  record st { world = w; current = some next },
                  ok (record {
                    id = changed.id;
                    version = catalog.version;
                    secret = changed.secret;
                  }),
                )
                out (ground arith)
                (
                  next,
                  refl,
                  found ∙ ap ok (sym is_next),
                  ap (λ o. o.version) is_next,
                  build_fresh now st.current catalog apps st.manager.heap s,
                )
        ]
      ]

  leased-Leaves :
      (now : ℕ) (s : Snapshot) (m : Mutation) (changed : Changed) (apps : List App) (st : State W)
      → let r = leased p x c j key list now s m changed apps st in Leaves now m st r.0 r.1
  unfolding leased
  leased-Leaves now s m changed apps st =
      let out = leased p x c j key list now s m changed apps st in
      let candidate =
        build x p now st.current (record (changed.catalog) { version = 0 }) apps st.manager.heap
          s in
      elim (Option-cases (compile_error m changed.id candidate)) [
        | inr (e, bad) ↦
            moved now m st (st, err (uncompiled e)) out (ground arith) (inr (refl, inl refl))
        | inl fine ↦
            moved now m st (commit p x c j key list now s changed apps m.version st) out
              (ground arith) (commit-Leaves now s m changed apps st)
      ]

  keep_manager :
      (now : ℕ) (m : Mutation) (st st' : State W) (before after : Manager)
      (r : Result ServiceError Saved)
      → Leaves now m (record st { manager = before }) st' r
      → Leaves now m st (record st' { manager = after }) r
  unfolding load_valid load
  keep_manager now m st st' before after (ok saved) h = h
  keep_manager now m st st' before after (err e) h = h

  -- Mutate publishes only what it has read back from the store: if it returns a version, the
  -- current snapshot is of now and its catalog is the valid catalog of that version that the store
  -- holds. If it returns an error, either nothing is published any more, or the snapshot is the one
  -- before and the write was not made, was refused or has no known answer.
  pub mutate-Leaves :
      (now : ℕ) (r : Random) (m : Mutation) (st : State W)
      → let out = mutate p x c j key list now r m st in Leaves now m st out.0 out.1
  unfolding mutate acquire
  mutate-Leaves now r m st =
      let whole = mutate p x c j key list now r m st in
      elim (Result-cases (requested p x c j key list r m st.world)) [
        | inr (e, bad) ↦
            moved now m st (st, err (refused e)) whole (ground arith) (inr (refl, inl refl))
        | inl ((changed, apps), good) ↦ elim (Bool-cases st.manager.closed) [
          | inl shut ↦
              moved now m st (record st { manager = st.manager }, err (refused shutting_down)) whole
                (ground arith) (inr (refl, inl refl))
          | inr open_ ↦
              let held = record st { manager = (acquire st.manager).0 } in
              let out = leased p x c j key list now st.manager.current m changed apps held in
              let after = release st.manager.current out.0.manager in
              moved now m st (record (out.0) { manager = after }, out.1) whole (ground arith)
                (keep_manager now m st out.0 (acquire st.manager).0 after out.1
                  (leased-Leaves now st.manager.current m changed apps held))
        ]
      ]
