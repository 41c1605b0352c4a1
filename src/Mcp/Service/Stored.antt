-- ===== src/Mcp/Service/Stored.antt =====
-- internal/mcp/service.go: what a successful Mutate has stored.
use xuandu_gateway.Prelude.{
  refuse-ok, ℕ, ◌≡◌, sym, ap, subst, ◌∙◌, inl, inr, true, not, Option, some, List, Text, ok, ltb,
  eqb, length, Bool-cases, Option-cases, Result-cases, >>=-eq-ok, arith,
}
use xuandu_gateway.Platform.{Platform}
use xuandu_gateway.Metadata.Consul.{Consul, Holds}
use xuandu_gateway.Metadata.Model.{App}
use xuandu_gateway.Runtime.Manager.{Snapshot, acquire}
use xuandu_gateway.Mcp.Model.{Catalog, Mutation, conflict}
use xuandu_gateway.Mcp.Validate.{validate}
use xuandu_gateway.Mcp.Mutate.{Changed, Random, change_catalog}
use xuandu_gateway.Mcp.Build.{Compiler, build}
use xuandu_gateway.Mcp.Service.{
  Codec, max_catalog_bytes, decode_pair, Saved, State, compile_error, load, save, list_apps,
  load_valid, requested, commit, leased, mutate,
}

-- A check-and-set that succeeds has written its value.
pub record CasStores {W : Type 0} (c : Consul W) : Type 0 where
  pub stores :
      (k v : Text) (i : ℕ) (w : W)
      → (c.put_cas k v i w).1 ≡ some true
      → Holds c (c.put_cas k v i w).0 k v

module _ {W D : Type 0} (p : Platform) (x : Compiler D) (c : Consul W) (j : Codec) (key : Text)
    (list : W → Option (List App)) where
  -- The change that a request asks for, of the catalog that the store holds.
  pub record IsRequested (r : Random) (m : Mutation) (w : W) (changed : Changed) : Type 0 where
    pub before : Catalog
    pub loaded : load p x c j key list w ≡ ok before
    pub same_version : before.version ≡ m.version
    pub change : change_catalog p r before m ≡ ok changed
    pub valid : validate p changed.catalog ≡ ok tt

  requested-IsRequested :
      (r : Random) (m : Mutation) (w : W) (changed : Changed) (apps : List App)
      → requested p x c j key list r m w ≡ ok (changed, apps)
      → IsRequested r m w changed
  unfolding requested
  requested-IsRequested r m w changed apps e =
      let (before, loaded, e1) = >>=-eq-ok (load p x c j key list w) _ e in
      let (same, e2) = refuse-ok (not (eqb before.version m.version)) conflict _ e1 in
      let (changed', change, e3) = >>=-eq-ok (change_catalog p r before m) _ e2 in
      let (u, valid, e4) = >>=-eq-ok (validate p changed'.catalog) _ e3 in
      let (apps', listed, e5) = >>=-eq-ok (list_apps p x c j key list w) _ e4 in
      let is_it : changed' ≡ changed = ground arith in
      record {
        before = before;
        loaded = loaded;
        same_version = ground arith;
        change = change ∙ ap ok is_it;
        valid = subst (λ o. validate p o.catalog ≡ ok tt) is_it valid;
      }

  -- json.Unmarshal reads what json.Marshal has written for this catalog.
  abbrev pub IsReadBack : Catalog → Type 0
  IsReadBack catalog = j.decode (j.encode catalog) ≡ some catalog

  abbrev pub ReadsBack : Random → Mutation → W → Type 0
  ReadsBack r m w =
      (x : Changed) → IsRequested r m w x → IsReadBack (record (x.catalog) { version = 0 })

  -- The written value decodes to the catalog, up to its version.
  save-load :
      CasStores c
      → (catalog read : Catalog) (version : ℕ) (w : W) → IsReadBack (record catalog { version = 0 })
      → (save p x c j key list catalog version w).1 ≡ ok tt
      → load p x c j key list (save p x c j key list catalog version w).0 ≡ ok read
      → read ≡ record catalog { version = read.version }
  unfolding save load decode_pair
  save-load stores catalog read version w codec done again =
      let b = j.encode (record catalog { version = 0 }) in
      elim (Bool-cases (ltb max_catalog_bytes (length b))) [
        | inl large ↦ absurd (ground arith)
        | inr fits ↦
            let wrote : (c.put_cas key b version w).1 ≡ some true = ground arith in
            let (pair, held, value) = stores.stores key b version w wrote in
            let decoded : j.decode pair.value ≡ some (record catalog { version = 0 }) =
              ap j.decode value ∙ codec in
            ground arith
      ]

  pub load_of_valid :
      (w : W) (catalog : Catalog)
      → load_valid p x c j key list w ≡ ok catalog
      → load p x c j key list w ≡ ok catalog
  unfolding load_valid
  load_of_valid w catalog e =
      let (read, loaded, e1) = >>=-eq-ok (load p x c j key list w) _ e in
      let (u, valid, e2) = >>=-eq-ok (validate p read) _ e1 in ground arith

  -- What Mutate has stored when it returns: the change of the catalog that was stored before, under
  -- the version that it returns.
  pub record IsStored (r : Random) (m : Mutation) (w w' : W) (saved : Saved) : Type 0 where
    pub changed : Changed
    pub requested_ : IsRequested r m w changed
    pub stored :
        load p x c j key list w' ≡ ok (record (changed.catalog) { version = saved.version })
    pub answer : (saved.id ≡ changed.id) × (saved.secret ≡ changed.secret)

  commit-stored :
      CasStores c
      → (now : ℕ) (s : Snapshot) (changed : Changed) (apps : List App) (version : ℕ) (st : State W)
        (saved : Saved)
      → IsReadBack (record (changed.catalog) { version = 0 })
      → (commit p x c j key list now s changed apps version st).1 ≡ ok saved
      → (load p x c j key list (commit p x c j key list now s changed apps version st).0.world
          ≡ ok (record (changed.catalog) { version = saved.version }))
        × (saved.id ≡ changed.id)
        × (saved.secret ≡ changed.secret)
  unfolding commit
  commit-stored stores now s changed apps version st saved codec e =
      let out = save p x c j key list changed.catalog version st.world in
      elim (Result-cases out.1) [
        | inr (f, failed) ↦ absurd (ground arith)
        | inl (u, done) ↦ elim (Result-cases (load_valid p x c j key list out.0)) [
          | inr (f, lost) ↦ absurd (ground arith)
          | inl (read, found) ↦
              let again = load_of_valid out.0 read found in
              let same =
                save-load stores changed.catalog read version st.world codec (ground arith) again in
              let is_version : read.version ≡ saved.version = ground arith in
              let world : (commit p x c j key list now s changed apps version st).0.world ≡ out.0 =
                ground arith in
              (
                subst
                    (λ o.
                      load p x c j key list o
                      ≡ ok (record (changed.catalog) { version = saved.version }))
                    (sym world)
                    (again
                      ∙ ap ok
                          (same ∙ ap (λ v. record (changed.catalog) { version = v }) is_version)),
                ground arith,
                ground arith,
              )
        ]
      ]

  leased-commit :
      (now : ℕ) (s : Snapshot) (m : Mutation) (changed : Changed) (apps : List App) (st : State W)
      (saved : Saved)
      → (leased p x c j key list now s m changed apps st).1 ≡ ok saved
      → leased p x c j key list now s m changed apps st
        ≡ commit p x c j key list now s changed apps m.version st
  unfolding leased
  leased-commit now s m changed apps st saved e =
      let candidate =
        build x p now st.current (record (changed.catalog) { version = 0 }) apps st.manager.heap
          s in
      elim (Option-cases (compile_error m changed.id candidate)) [
        | inr (f, bad) ↦ absurd (ground arith)
        | inl fine ↦ ground arith
      ]

  -- With a store whose check-and-set writes what it accepts, and a JSON codec that reads the changed
  -- catalog as it has written it, a Mutate that returns has taken the catalog that the store held, under the version that
  -- the request names, and has stored the valid change that the request asks for.
  pub mutate-IsStored :
      CasStores c
      → (now : ℕ) (r : Random) (m : Mutation) (st : State W) (saved : Saved)
      → ReadsBack r m st.world
      → (mutate p x c j key list now r m st).1 ≡ ok saved
      → IsStored r m st.world (mutate p x c j key list now r m st).0.world saved
  unfolding mutate acquire
  mutate-IsStored stores now r m st saved codec e =
      elim (Result-cases (requested p x c j key list r m st.world)) [
        | inr (f, bad) ↦ absurd (ground arith)
        | inl ((changed, apps), good) ↦ elim (Bool-cases st.manager.closed) [
          | inl shut ↦ absurd (ground arith)
          | inr open_ ↦
              let s = st.manager.current in
              let held = record st { manager = (acquire st.manager).0 } in
              let done : (leased p x c j key list now s m changed apps held).1 ≡ ok saved =
                ground arith in
              let same = leased-commit now s m changed apps held saved done in
              let world : (mutate p x c j key list now r m st).0.world
                  ≡ (commit p x c j key list now s changed apps m.version held).0.world =
                ground (arith, same) in
              let asked = requested-IsRequested r m st.world changed apps good in
              let (stored, id, secret) =
                commit-stored stores now s changed apps m.version held saved (codec changed asked)
                  (ground (arith, same)) in
              record {
                changed = changed;
                requested_ = asked;
                stored =
                    subst
                      (λ o.
                        load p x c j key list o
                        ≡ ok (record (changed.catalog) { version = saved.version }))
                      (sym world) stored;
                answer = (id, secret);
              }
        ]
      ]
