-- ===== src/Mcp/Mutate/Access.antt =====
-- internal/mcp/service.go: an access mutation sets the grants of one server, for all keys.
use xuandu_gateway.Prelude.{
  ◌≡◌, refl, inl, inr, Bool, not, Option, none, some, List, [], ◌∷◌, ◌++◌, Text, bytes, ◌==◌,
  eq_iff, ==_refl, map, Dict, lookup, put, ok, if◌then◌else◌, keep, Option-cases, >>=-eq-ok, subst,
  sym, ◌∙◌, is_some, lookup-put, arith,
}
use mathlib.Core.List.{append-nil}
use xuandu_gateway.Platform.{Platform}
use xuandu_gateway.Mcp.Model.{Grant, KeyConfig, Catalog, ServerAccess, Mutation}
use xuandu_gateway.Mcp.Mutate.{
  access_loop, drop_grants, set_access, Changed, Random, mutate_access, change_catalog,
}
use xuandu_gateway.Mcp.Mutate.Catalogs.{dispatch_access, dispatch_of_change}

abbrev pub find_access : Text → List ServerAccess → Option (List Text)
find_access k [] = none
find_access k (g ∷ gs) = if g.key_id == k then some g.tool_ids else find_access k gs

access_loop-lookup :
    (k : Text) (ks : List KeyConfig) (gs : List ServerAccess) (acc acc' : Dict (List Text))
    → access_loop ks gs acc ≡ ok acc'
    → lookup k acc' ≡ (if is_some (lookup k acc) then lookup k acc else find_access k gs)
unfolding access_loop
access_loop-lookup k ks [] acc acc' e = ground arith
access_loop-lookup k ks (g ∷ gs) acc acc' e = ground (
  arith,
  access_loop-lookup k ks gs (put g.key_id g.tool_ids acc) acc',
  lookup-put g.key_id k g.tool_ids acc,
  eq_iff g.key_id k,
)

-- The grants of one server, and those of the others.
abbrev pub grants_of : Text → List Grant → List Grant
grants_of id = keep λ g. g.server_id == id

abbrev pub other_grants : Text → List Grant → List Grant
other_grants id = keep λ g. not (g.server_id == id)

abbrev pub granted : Text → Option (List Text) → List Grant
granted id none = []
granted id (some ids) = record { server_id = id; tool_ids = ids } ∷ []

-- What an access mutation of a server does to a key.
pub record IsAccessed (id : Text) (gs : List ServerAccess) (k k' : KeyConfig) : Type 0 where
  pub same_id : k'.id ≡ k.id
  pub same_name : k'.name ≡ k.name
  pub same_enabled : k'.enabled ≡ k.enabled
  pub same_hash : k'.hash ≡ k.hash
  pub set_to : grants_of id k'.grants ≡ granted id (find_access k.id gs)
  pub others_kept : other_grants id k'.grants ≡ other_grants id k.grants

keep_twice :
    (id : Text) (gs : List Grant) → other_grants id (other_grants id gs) ≡ other_grants id gs
keep_twice id [] = refl
keep_twice id (g ∷ gs) = ground (arith, keep_twice id gs)

keep_both : (id : Text) (gs : List Grant) → grants_of id (other_grants id gs) ≡ []
keep_both id [] = refl
keep_both id (g ∷ gs) = ground (arith, keep_both id gs)

keep-append {ℓ} :
    {A : Type ℓ} (p : A → Bool) (xs ys : List A) → keep p (xs ++ ys) ≡ keep p xs ++ keep p ys
keep-append p [] ys = refl
keep-append p (x ∷ xs) ys = ground (arith, keep-append p xs ys)

append_granted :
    (id : Text) (o : Option (List Text)) (gs : List Grant)
    → (grants_of id (other_grants id gs ++ granted id o) ≡ granted id o)
      × (other_grants id (other_grants id gs ++ granted id o) ≡ other_grants id gs)
append_granted id none gs = (
  rw (append-nil (other_grants id gs)) (keep_both id gs),
  rw (append-nil (other_grants id gs)) (keep_twice id gs),
)
append_granted id (some ids) gs =
    let new : List Grant = granted id (some ids) in
    (
      rw
          (
            keep-append (λ g. g.server_id == id) (other_grants id gs) new,
            keep_both id gs,
            ==_refl id,
          )
          refl,
      rw
          (
            keep-append (λ g. not (g.server_id == id)) (other_grants id gs) new,
            keep_twice id gs,
            ==_refl id,
          )
          (append-nil (other_grants id gs)),
    )

set_access-IsAccessed :
    (id : Text) (gs : List ServerAccess) (access : Dict (List Text)) (k : KeyConfig)
    → lookup k.id access ≡ find_access k.id gs
    → IsAccessed id gs k (set_access id access k)
unfolding set_access drop_grants
set_access-IsAccessed id gs access k e =
    let both = append_granted id (find_access k.id gs) k.grants in
    elim (Option-cases (find_access k.id gs)) [
      | inl f ↦ record {
        same_id = ground arith;
        same_name = ground arith;
        same_enabled = ground arith;
        same_hash = ground arith;
        set_to = ground (arith, both, append-nil (other_grants id k.grants));
        others_kept = ground (arith, both, append-nil (other_grants id k.grants));
      }
      | inr (ids, f) ↦ record {
        same_id = ground arith;
        same_name = ground arith;
        same_enabled = ground arith;
        same_hash = ground arith;
        set_to = ground (arith, both);
        others_kept = ground (arith, both);
      }
    ]

abbrev pub AllAccessed : Text → List ServerAccess → List KeyConfig → List KeyConfig → Type 0
AllAccessed id gs [] [] = Unit
AllAccessed id gs (k ∷ ks) (k' ∷ ks') = IsAccessed id gs k k' × AllAccessed id gs ks ks'
AllAccessed id gs [] (k' ∷ ks') = ⊥
AllAccessed id gs (k ∷ ks) [] = ⊥

map-AllAccessed :
    (id : Text) (gs : List ServerAccess) (access : Dict (List Text)) (ks : List KeyConfig)
    → ((k : Text) → lookup k access ≡ find_access k gs)
    → AllAccessed id gs ks (map (set_access id access) ks)
map-AllAccessed id gs access [] h = tt
map-AllAccessed id gs access (k ∷ ks) h =
    (set_access-IsAccessed id gs access k (h k.id), map-AllAccessed id gs access ks h)

-- An access mutation sets the keys of the catalog, and nothing else of it.
abbrev pub SetsAccess : Mutation → Catalog → Catalog → Type 0
SetsAccess m c c' =
    AllAccessed m.id m.access c.keys c'.keys
    × (c'.servers ≡ c.servers)
    × (c'.tools ≡ c.tools)
    × (c'.version ≡ c.version)

mutate_access-SetsAccess :
    (c : Catalog) (m : Mutation) (x : Changed) → mutate_access c m ≡ ok x → SetsAccess m c x.catalog
unfolding mutate_access lookup
mutate_access-SetsAccess c m x e =
    let (access, looped, rest) = >>=-eq-ok (access_loop c.keys m.access []) _ e in
    let found : (k : Text) → lookup k access ≡ find_access k m.access =
      λ k. access_loop-lookup k c.keys m.access [] access looped in
    let same : map (set_access m.id access) c.keys ≡ x.catalog.keys = ground arith in
    (
      subst (AllAccessed m.id m.access c.keys) same
          (map-AllAccessed m.id m.access access c.keys found),
      ground arith,
      ground arith,
      ground arith,
    )

-- An access mutation of a server goes over all keys in order and changes their grants only: a key
-- then has one grant of that server, with the tools that the request lists for the key, or none if
-- it does not name the key; its grants of other servers, its id, its name, its hash and whether it is
-- enabled stay. The servers, the tools and the version of the catalog stay as well.
pub access_sets_grants :
    (p : Platform) (r : Random) (c : Catalog) (m : Mutation) (x : Changed)
    → m.kind ≡ bytes "access"
    → change_catalog p r c m ≡ ok x
    → SetsAccess m c x.catalog
access_sets_grants p r c m x k e =
    mutate_access-SetsAccess c m x
      (sym (dispatch_access p r c m k) ∙ dispatch_of_change p r c m x e)
