-- ===== src/Mcp/Build/Views.antt =====
-- internal/mcp/service.go: the tools that a view offers.
use xuandu_gateway.Prelude.{
  ℕ, ◌≡◌, subst, ◌⊎◌, inl, inr, Bool, true, ◌&&◌, Option, none, some, List, [], ◌∷◌, Text, ◌==◌,
  eq_iff, mem_text, Dict, lookup, lookup-put, put, eqb, keep, All, Some, Bool-cases, Option-cases,
  arith,
}
use xuandu_gateway.Mcp.Model.{Grant, KeyConfig, Catalog}
use xuandu_gateway.Mcp.Build.{
  Binding, CompiledServer, McpSnapshot, view_of, grant_views, key_views, reused,
}

-- A grant of the server lists every tool of the view.
abbrev pub Grants : Text → List Binding → Grant → Type 0
Grants id view g = (g.server_id ≡ id) × All (λ b. mem_text b.config.id g.tool_ids ≡ true) view

-- An enabled key of that id has such a grant.
abbrev pub KeyGrants : Text → Text → List Binding → KeyConfig → Type 0
KeyGrants id kid view k = (k.id ≡ kid) × (k.enabled ≡ true) × Some (Grants id view) k.grants

abbrev pub Granted : List KeyConfig → Text → Text → List Binding → Type 0
Granted ks id kid view = Some (KeyGrants id kid view) ks

abbrev pub SoundViews : List KeyConfig → Text → Dict (List Binding) → Type 0
SoundViews ks id views =
    (kid : Text) (view : List Binding) → lookup kid views ≡ some view → Granted ks id kid view

keep_all : {A : Type 0} (p : A → Bool) (xs : List A) → All (λ x. p x ≡ true) (keep p xs)
keep_all p [] = tt
keep_all p (x ∷ xs) = ground (arith, keep_all p xs)

view_of-granted :
    (bs : List Binding) (g : Grant)
    → All (λ b. mem_text b.config.id g.tool_ids ≡ true) (view_of bs g)
unfolding view_of
view_of-granted bs g = keep_all (λ b. mem_text b.config.id g.tool_ids) _

-- What a key adds: a view comes from before or from one of its grants.
grant_views_lem :
    (id key_id : Text) (bs : List Binding) (gs : List Grant) (views : Dict (List Binding))
    (kid : Text) (view : List Binding)
    → lookup kid (grant_views id key_id bs gs views) ≡ some view
    → (lookup kid views ≡ some view) ⊎ ((key_id ≡ kid) × Some (Grants id view) gs)
unfolding grant_views
grant_views_lem id key_id bs [] views kid view e = inl e
grant_views_lem id key_id bs (g ∷ gs) views kid view e = elim (Bool-cases (g.server_id == id)) [
  | inl same ↦
      let rest =
        grant_views_lem id key_id bs gs (put key_id (view_of bs g) views) kid view (ground arith) in
      elim rest [
        | inl was ↦ elim (Bool-cases (key_id == kid)) [
          | inl hit ↦
              let this : view_of bs g ≡ view =
                ground (arith, lookup-put key_id kid (view_of bs g) views) in
              inr (
                ground (arith, eq_iff key_id kid),
                inl (
                  ground (arith, eq_iff g.server_id id),
                  subst (All (λ b. mem_text b.config.id g.tool_ids ≡ true)) this
                      (view_of-granted bs g),
                ),
              )
          | inr miss ↦ inl (ground (arith, lookup-put key_id kid (view_of bs g) views))
        ]
        | inr later ↦ inr (later.0, inr later.1)
      ]
  | inr other ↦
      let rest = grant_views_lem id key_id bs gs views kid view (ground arith) in
      elim rest [ inl was ↦ inl was | inr later ↦ inr (later.0, inr later.1) ]
]

key_views_lem :
    (id : Text) (bs : List Binding) (ks : List KeyConfig) (views : Dict (List Binding)) (kid : Text)
    (view : List Binding)
    → lookup kid (key_views id bs ks views) ≡ some view
    → (lookup kid views ≡ some view) ⊎ Granted ks id kid view
unfolding key_views
key_views_lem id bs [] views kid view e = inl e
key_views_lem id bs (k ∷ ks) views kid view e = elim (Bool-cases k.enabled) [
  | inl on ↦
      elim (key_views_lem id bs ks (grant_views id k.id bs k.grants views) kid view
        (ground arith)) [
          | inl was ↦ elim (grant_views_lem id k.id bs k.grants views kid view was) [
            | inl before ↦ inl before
            | inr here ↦ inr (inl (here.0, on, here.1))
          ]
          | inr later ↦ inr (inr later)
        ]
  | inr off ↦ elim (key_views_lem id bs ks views kid view (ground arith)) [
    | inl was ↦ inl was
    | inr later ↦ inr (inr later)
  ]
]

pub key_views-SoundViews :
    (id : Text) (bs : List Binding) (ks : List KeyConfig) → SoundViews ks id (key_views id bs ks [])
unfolding lookup
key_views-SoundViews id bs ks kid view e = elim (key_views_lem id bs ks [] kid view e) [
  | inl impossible ↦ cc
  | inr found ↦ found
]

pub no_views : (ks : List KeyConfig) (id : Text) → SoundViews ks id []
unfolding lookup
no_views ks id kid view e = cc

abbrev pub SoundServer : Catalog → Text → CompiledServer → Type 0
SoundServer c id cs = (cs.config.id ≡ id) × SoundViews c.keys id cs.views

-- Every server stands under its id, and each of its views offers tools that an enabled key of the
-- catalog has been granted.
abbrev pub SoundServers : Catalog → Dict CompiledServer → Type 0
SoundServers c servers =
    (id : Text) (cs : CompiledServer) → lookup id servers ≡ some cs → SoundServer c id cs

abbrev pub IsSound : McpSnapshot → Type 0
IsSound s = SoundServers s.catalog s.servers

-- The snapshot before is sound, and its catalog is this one if it has its version.
abbrev pub SoundBefore : Option McpSnapshot → Catalog → Type 0
SoundBefore none c = Unit
SoundBefore (some old) c = IsSound old × (old.catalog.version ≡ c.version → old.catalog ≡ c)

pub reused-Sound :
    (old : Option McpSnapshot) (c : Catalog) (version : ℕ) (id revision : Text)
    (cs : CompiledServer)
    → SoundBefore old c
    → reused old c version id revision ≡ some cs
    → SoundServer c id cs
unfolding reused
reused-Sound none c version id revision cs h e = cc
reused-Sound (some old) c version id revision cs h e =
    elim (Bool-cases (eqb old.catalog.version c.version && eqb old.runtime_version version)) [
      | inr differs ↦ absurd (ground arith)
      | inl same ↦ elim (Option-cases (lookup id old.servers)) [
        | inl missing ↦ absurd (ground arith)
        | inr (previous, found) ↦
            let is_it : previous ≡ cs = ground arith in
            let same_version : old.catalog.version ≡ c.version = ground arith in
            subst (SoundServer c id) is_it
              (subst (λ o. SoundServer o id previous) (h.1 same_version) (h.0 id previous found))
      ]
    ]
