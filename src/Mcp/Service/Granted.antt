-- ===== src/Mcp/Service/Granted.antt =====
-- internal/mcp/service.go: which tools a request gets after any history of the service.
use xuandu_gateway.Prelude.{
  ℕ, ◌-◌, ◌≤◌, ◌<◌, ◌≡◌, sym, ap, subst, ◌∙◌, inl, inr, Option, none, some, List, Text, Result, ok,
  ltb, length, Bool-cases, Option-cases, Result-cases, >>=-eq-ok, arith,
}
use xuandu_gateway.Platform.{Platform}
use xuandu_gateway.Metadata.Consul.{Consul, Pair}
use xuandu_gateway.Metadata.Model.{App}
use xuandu_gateway.Runtime.Heap.{Heap}
use xuandu_gateway.Runtime.Manager.{Snapshot, Manager, acquire, release}
use xuandu_gateway.Mcp.Model.{Catalog, Mutation, McpError}
use xuandu_gateway.Mcp.Mutate.{Changed, Random}
use xuandu_gateway.Mcp.Build.{Compiler, McpSnapshot, build}
use xuandu_gateway.Mcp.Build.Views.{Granted, IsSound, SoundBefore}
use xuandu_gateway.Mcp.Build.Sound.{build-IsSound}
use xuandu_gateway.Mcp.Serve.{Request, Scope, answered, serve_http, max_age}
use xuandu_gateway.Mcp.Serve.Access.{serve_http-IsServed}
use xuandu_gateway.Mcp.Service.{
  Codec, max_catalog_bytes, decode_pair, State, compile_error, load, save, load_valid, list_apps,
  requested, commit, leased, mutate, refreshed, refresh,
}
use xuandu_gateway.Mcp.Service.Stored.{load_of_valid}

-- What Consul documents of the ModifyIndex, along one history of its states: a write leads to a later
-- state, a pair has an index above 0, and a key that has the same index again has the same value.
pub record Timed {W : Type 0} (c : Consul W) : Type 1 where
  pub Precedes : W → W → Type 0
  pub same : (w : W) → Precedes w w
  pub chain : (u v w : W) → Precedes u v → Precedes v w → Precedes u w
  pub written : (k v : Text) (i : ℕ) (w : W) → Precedes w (c.put_cas k v i w).0
  pub positive : (k : Text) (w : W) (a : Pair) → c.get k w ≡ some (some a) → 0 < a.modify_index
  pub indexed :
      (k : Text) (v w : W) (a b : Pair)
      → Precedes v w
      → c.get k v ≡ some (some a)
      → c.get k w ≡ some (some b)
      → a.modify_index ≡ b.modify_index
      → a.value ≡ b.value

-- What a pair that can be read is read as.
decode_pair-version :
    (j : Codec) (pair : Pair) (a : Catalog)
    → decode_pair j (some pair) ≡ ok a
    → a.version ≡ pair.modify_index
unfolding decode_pair
decode_pair-version j pair a e = elim (Bool-cases (ltb max_catalog_bytes (length pair.value))) [
  | inl large ↦ absurd (ground arith)
  | inr fits ↦ elim (Option-cases (j.decode pair.value)) [
    | inl bad ↦ absurd (ground arith)
    | inr (read, good) ↦ ground arith
  ]
]

decode_pair-same :
    (j : Codec) (a b : Pair)
    → a.value ≡ b.value
    → a.modify_index ≡ b.modify_index
    → decode_pair j (some a) ≡ decode_pair j (some b)
unfolding decode_pair
decode_pair-same j a b value index = ground (arith, value, index, ap j.decode value)

module _ {W D : Type 0} (p : Platform) (x : Compiler D) (c : Consul W) (j : Codec) (key : Text)
    (list : W → Option (List App)) (time : Timed c) where
  pairs-same :
      (v w : W) (first second : Option Pair) (a b : Catalog)
      → time.Precedes v w
      → c.get key v ≡ some first
      → c.get key w ≡ some second
      → decode_pair j first ≡ ok a
      → decode_pair j second ≡ ok b
      → a.version ≡ b.version
      → a ≡ b
  unfolding decode_pair
  pairs-same v w none none a b before got again at_v at_w version = ground arith
  pairs-same v w none (some second) a b before got again at_v at_w version =
      absurd (ground (arith, decode_pair-version j second b at_w, time.positive key w second again))
  pairs-same v w (some first) none a b before got again at_v at_w version =
      absurd (ground (arith, decode_pair-version j first a at_v, time.positive key v first got))
  pairs-same v w (some first) (some second) a b before got again at_v at_w version =
      let index : first.modify_index ≡ second.modify_index =
        ground (arith, decode_pair-version j first a at_v, decode_pair-version j second b at_w) in
      let value = time.indexed key v w first second before got again index in
      let both : Path (Result McpError Catalog) (ok a) (ok b) =
        sym at_v ∙ (decode_pair-same j first second value index ∙ at_w) in
      ground arith

  -- The versions that are read along one history belong to one catalog each.
  load-same :
      (v w : W) (a b : Catalog)
      → time.Precedes v w
      → load p x c j key list v ≡ ok a
      → load p x c j key list w ≡ ok b
      → a.version ≡ b.version
      → a ≡ b
  unfolding load
  load-same v w a b before at_v at_w version = elim (Option-cases (c.get key v)) [
    | inl lost ↦ absurd (ground arith)
    | inr (first, got) ↦ elim (Option-cases (c.get key w)) [
      | inl lost ↦ absurd (ground arith)
      | inr (second, again) ↦
          pairs-same v w first second a b before got again (ground arith) (ground arith) version
    ]
  ]

  -- A snapshot is sound, and its catalog has been read in a state before this one.
  abbrev IsFromStore : W → Option McpSnapshot → Type 0
  IsFromStore w none = Unit
  IsFromStore w (some s) =
      IsSound s × ((v : W) × (load p x c j key list v ≡ ok s.catalog) × time.Precedes v w)

  IsFromStore-later :
      (v w : W) (current : Option McpSnapshot)
      → time.Precedes v w
      → IsFromStore v current
      → IsFromStore w current
  IsFromStore-later v w none before h = tt
  IsFromStore-later v w (some s) before (sound, (u, read, past)) =
      (sound, (u, read, time.chain u v w past before))

  sound_before :
      (w : W) (old : Option McpSnapshot) (catalog : Catalog)
      → IsFromStore w old
      → load p x c j key list w ≡ ok catalog
      → SoundBefore old catalog
  sound_before w none catalog h read = tt
  sound_before w (some s) catalog (sound, (u, at_u, past)) read =
      (sound, λ version. load-same u w s.catalog catalog past at_u read version)

  build-IsFromStore :
      (now : ℕ) (w : W) (old : Option McpSnapshot) (catalog : Catalog) (apps : List App) (h : Heap)
      (s : Snapshot)
      → IsFromStore w old
      → load p x c j key list w ≡ ok catalog
      → IsFromStore w (some (build x p now old catalog apps h s))
  build-IsFromStore now w old catalog apps h s from read = (
    build-IsSound x p now old catalog apps h s (sound_before w old catalog from read),
    (w, unfold build in read, time.same w),
  )

  save-Precedes :
      (catalog : Catalog) (version : ℕ) (w : W)
      → time.Precedes w (save p x c j key list catalog version w).0
  unfolding save
  save-Precedes catalog version w =
      let b = j.encode (record catalog { version = 0 }) in
      elim (Bool-cases (ltb max_catalog_bytes (length b))) [
        | inl large ↦
            subst (time.Precedes w) {x = w} {y = (save p x c j key list catalog version w).0}
              (ground arith) (time.same w)
        | inr fits ↦
            subst (time.Precedes w) {x = (c.put_cas key b version w).0}
              {y = (save p x c j key list catalog version w).0} (ground arith)
              (time.written key b version w)
      ]

  -- What a step leaves: a snapshot of the store, which has gone on.
  abbrev Goes : State W → State W → Type 0
  Goes st st' = IsFromStore st.world st.current → IsFromStore st'.world st'.current

  moved : (st u v : State W) → u ≡ v → Goes st u → Goes st v
  moved st u v e = subst (Goes st) e

  commit-Goes :
      (now : ℕ) (s : Snapshot) (changed : Changed) (apps : List App) (version : ℕ) (st : State W)
      → Goes st (commit p x c j key list now s changed apps version st).0
  unfolding commit
  commit-Goes now s changed apps version st from =
      let out = (commit p x c j key list now s changed apps version st).0 in
      let (w, answer) = save p x c j key list changed.catalog version st.world in
      let later =
        IsFromStore-later st.world w st.current (save-Precedes changed.catalog version st.world)
          from in
      elim (Result-cases answer) [
        | inr (e, failed) ↦ moved st (record st { world = w }) out (ground arith) (λ h. later) from
        | inl (u, done) ↦ elim (Result-cases (load_valid p x c j key list w)) [
          | inr (e, lost) ↦
              moved st (record st { world = w; current = none }) out (ground arith) (λ h. tt) from
          | inl (catalog, found) ↦
              let next = build x p now st.current catalog apps st.manager.heap s in
              moved st (record st { world = w; current = some next }) out (ground arith)
                (λ h.
                  build-IsFromStore now w st.current catalog apps st.manager.heap s later
                    (load_of_valid p x c j key list w catalog found))
                from
        ]
      ]

  leased-Goes :
      (now : ℕ) (s : Snapshot) (m : Mutation) (changed : Changed) (apps : List App) (st : State W)
      → Goes st (leased p x c j key list now s m changed apps st).0
  unfolding leased
  leased-Goes now s m changed apps st =
      let out = (leased p x c j key list now s m changed apps st).0 in
      let candidate =
        build x p now st.current (record (changed.catalog) { version = 0 }) apps st.manager.heap
          s in
      elim (Option-cases (compile_error m changed.id candidate)) [
        | inr (e, bad) ↦ moved st st out (ground arith) (λ h. h)
        | inl fine ↦
            moved st (commit p x c j key list now s changed apps m.version st).0 out (ground arith)
              (commit-Goes now s changed apps m.version st)
      ]

  mutate-Goes :
      (now : ℕ) (r : Random) (m : Mutation) (st : State W)
      → Goes st (mutate p x c j key list now r m st).0
  unfolding mutate acquire
  mutate-Goes now r m st =
      let whole = (mutate p x c j key list now r m st).0 in
      elim (Result-cases (requested p x c j key list r m st.world)) [
        | inr (e, bad) ↦ moved st st whole (ground arith) (λ h. h)
        | inl ((changed, apps), good) ↦ elim (Bool-cases st.manager.closed) [
          | inl shut ↦ moved st st whole (ground arith) (λ h. h)
          | inr open_ ↦
              let s = st.manager.current in
              let held : State W = record st { manager = (acquire st.manager).0 } in
              let out = (leased p x c j key list now s m changed apps held).0 in
              moved st (record out { manager = release s out.manager }) whole (ground arith)
                (leased-Goes now s m changed apps held)
        ]
      ]

  refresh-Goes : (now : ℕ) (st : State W) → Goes st (refresh p x c j key list now st).0
  unfolding refresh refreshed acquire
  refresh-Goes now st from =
      let whole = (refresh p x c j key list now st).0 in
      elim (Result-cases (refreshed p x c j key list st.world)) [
        | inr (e, bad) ↦ moved st st whole (ground arith) (λ h. h) from
        | inl ((catalog, apps), good) ↦ elim (Bool-cases st.manager.closed) [
          | inl shut ↦ moved st st whole (ground arith) (λ h. h) from
          | inr open_ ↦
              let s = st.manager.current in
              let manager = (acquire st.manager).0 in
              let (read, found, e1) = >>=-eq-ok (load_valid p x c j key list st.world) _ good in
              let (apps', listed, e2) = >>=-eq-ok (list_apps p x c j key list st.world) _ e1 in
              let is_it : read ≡ catalog = ground arith in
              let next = build x p now st.current catalog apps manager.heap s in
              moved st (record st { current = some next; manager = release s manager }) whole
                (ground arith)
                (λ h.
                  build-IsFromStore now st.world st.current catalog apps manager.heap s from
                    (load_of_valid p x c j key list st.world catalog (found ∙ ap ok is_it)))
                from
        ]
      ]

  -- The states of a service that starts without a snapshot: it changes the catalog and refreshes its
  -- snapshot, and in between others write to the store and use the manager.
  pub data Reached : State W → Type 0 where
    starts : (w : W) (m : Manager) → Reached (record { world = w; current = none; manager = m })
    mutates :
        {st : State W} (now : ℕ) (r : Random) (m : Mutation)
        → Reached st
        → Reached (mutate p x c j key list now r m st).0
    refreshes : {st : State W} (now : ℕ) → Reached st → Reached (refresh p x c j key list now st).0
    elsewhere :
        {st : State W} (w : W) (m : Manager)
        → time.Precedes st.world w
        → Reached st
        → Reached (record st { world = w; manager = m })

  Reached-IsFromStore : {st : State W} → Reached st → IsFromStore st.world st.current
  Reached-IsFromStore (starts w m) = tt
  Reached-IsFromStore (mutates {st} now r m h) = mutate-Goes now r m st (Reached-IsFromStore h)
  Reached-IsFromStore (refreshes {st} now h) = refresh-Goes now st (Reached-IsFromStore h)
  Reached-IsFromStore (elsewhere {st} w m past h) =
      IsFromStore-later st.world w st.current past (Reached-IsFromStore h)

  -- The tools that a request gets are granted by a catalog that the store has held.
  pub record IsGranted (now : ℕ) (st : State W) (scope : Scope) : Type 0 where
    pub snapshot : McpSnapshot
    pub published : st.current ≡ some snapshot
    pub recent : now - snapshot.fresh ≤ max_age
    pub held : (w : W) × (load p x c j key list w ≡ ok snapshot.catalog) × time.Precedes w st.world
    pub granted : Granted snapshot.catalog.keys scope.server_id scope.key_id scope.view

  -- Whatever Mutate and Refresh have done since the start, and whatever others write to the store and
  -- do with the manager in between: the tools that a served request gets all stand in the grant that
  -- one enabled key, of the id under which the request was authorized, has for the selected server in
  -- the catalog of a snapshot of at most 60 seconds, and that catalog is one that the store has held
  -- before. The index of a pair in Consul is assumed to tell its values apart.
  pub serve_http-IsGranted :
      (st : State W) (now : ℕ) (r : Request) (scope : Scope)
      → Reached st
      → (serve_http p now st.current r st.manager).1 ≡ answered (ok scope)
      → IsGranted now st scope
  serve_http-IsGranted st now r scope reached e =
      let v = serve_http-IsServed p now st.current r st.manager scope e in
      let from : IsFromStore st.world (some v.snapshot) =
        subst (IsFromStore st.world) v.selected.loaded (Reached-IsFromStore reached) in
      record {
        snapshot = v.snapshot;
        published = v.selected.loaded;
        recent = v.selected.recent;
        held = from.1;
        granted =
            (from.0 scope.server_id v.server v.selected.known).1 scope.key_id scope.view
              v.authorized.granted;
      }
