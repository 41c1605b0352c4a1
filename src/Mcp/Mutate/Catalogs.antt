-- ===== src/Mcp/Mutate/Catalogs.antt =====
-- internal/mcp/service.go: what a mutation leaves in the catalog.
use xuandu_gateway.Prelude.{
  ◌≡◌, refl, ◌⊎◌, inl, inr, Bool, true, false, not, List, [], ◌∷◌, Text, bytes, ◌==◌, ==_refl, map,
  ok, if◌then◌else◌, any, keep, All, All-append, All-mono, Bool-cases, >>=-eq-ok, subst, arith,
}
use xuandu_gateway.Platform.{Platform}
use xuandu_gateway.Mcp.Model.{ToolConfig, Grant, KeyConfig, Catalog, Mutation, key_hash}
use xuandu_gateway.Mcp.Mutate.{
  change_first, drop_grants, drop_granted, drop_tool, Changed, Random, mutate_access, creates,
  mutate_server, mutate_tool, changed_key, mutate_key, dispatch, change_catalog,
}

-- No tool and no grant names the server.
abbrev pub NoTool : Text → List ToolConfig → Type 0
NoTool id = All λ t. (t.server_id == id) ≡ false

abbrev pub NoGrant : Text → List KeyConfig → Type 0
NoGrant id = All λ k. All (λ g. (g.server_id == id) ≡ false) k.grants

keep-NoTool :
    (id : Text) (ts : List ToolConfig) → NoTool id (keep (λ t. not (t.server_id == id)) ts)
keep-NoTool id [] = tt
keep-NoTool id (t ∷ ts) = ground (arith, keep-NoTool id ts)

keep_grants :
    (id : Text) (gs : List Grant)
    → All (λ g. (g.server_id == id) ≡ false) (keep (λ g. not (g.server_id == id)) gs)
keep_grants id [] = tt
keep_grants id (g ∷ gs) = ground (arith, keep_grants id gs)

map-NoGrant : (id : Text) (ks : List KeyConfig) → NoGrant id (map (drop_grants id) ks)
unfolding drop_grants
map-NoGrant id [] = tt
map-NoGrant id (k ∷ ks) = (keep_grants id k.grants, map-NoGrant id ks)

dispatch_server :
    (p : Platform) (r : Random) (c : Catalog) (m : Mutation)
    → m.kind ≡ bytes "server"
    → dispatch p r c m ≡ ok (mutate_server r c m)
unfolding dispatch bytes ◌==◌
dispatch_server p r c m e = simp e

dispatch_tool :
    (p : Platform) (r : Random) (c : Catalog) (m : Mutation)
    → m.kind ≡ bytes "tool"
    → dispatch p r c m ≡ ok (mutate_tool r c m)
unfolding dispatch bytes ◌==◌
dispatch_tool p r c m e = simp e

dispatch_key :
    (p : Platform) (r : Random) (c : Catalog) (m : Mutation)
    → m.kind ≡ bytes "key"
    → dispatch p r c m ≡ ok (mutate_key p r c m)
unfolding dispatch bytes ◌==◌
dispatch_key p r c m e = simp e

pub dispatch_access :
    (p : Platform) (r : Random) (c : Catalog) (m : Mutation)
    → m.kind ≡ bytes "access"
    → dispatch p r c m ≡ mutate_access c m
unfolding dispatch bytes ◌==◌
dispatch_access p r c m e = simp e

-- A mutation that deletes a server takes all its tools, and its grants from every key, out of the
-- catalog.
pub delete_server-cascades :
    (p : Platform) (r : Random) (c : Catalog) (m : Mutation) (x : Changed)
    → m.kind ≡ bytes "server"
    → m.delete ≡ true
    → change_catalog p r c m ≡ ok x
    → NoTool m.id x.catalog.tools × NoGrant m.id x.catalog.keys
unfolding change_catalog mutate_server creates
delete_server-cascades p r c m x k d e = (
  ground (arith, dispatch_server p r c m, keep-NoTool m.id c.tools),
  ground (arith, dispatch_server p r c m, map-NoGrant m.id c.keys),
)

-- No grant lists the tool.
abbrev pub NoToolGrant : Text → List KeyConfig → Type 0
NoToolGrant id = All λ k. All (λ g. All (λ v. (v == id) ≡ false) g.tool_ids) k.grants

keep_ids :
    (id : Text) (vs : List Text) → All (λ v. (v == id) ≡ false) (keep (λ v. not (v == id)) vs)
keep_ids id [] = tt
keep_ids id (v ∷ vs) = ground (arith, keep_ids id vs)

map-granted :
    (id : Text) (gs : List Grant)
    → All (λ g. All (λ v. (v == id) ≡ false) g.tool_ids) (map (drop_granted id) gs)
unfolding drop_granted
map-granted id [] = tt
map-granted id (g ∷ gs) = (keep_ids id g.tool_ids, map-granted id gs)

map-NoToolGrant : (id : Text) (ks : List KeyConfig) → NoToolGrant id (map (drop_tool id) ks)
unfolding drop_tool
map-NoToolGrant id [] = tt
map-NoToolGrant id (k ∷ ks) = (map-granted id k.grants, map-NoToolGrant id ks)

-- A mutation that deletes a tool takes its id out of every grant of every key.
delete_tool-cascades :
    (p : Platform) (r : Random) (c : Catalog) (m : Mutation) (x : Changed)
    → m.kind ≡ bytes "tool"
    → m.delete ≡ true
    → change_catalog p r c m ≡ ok x
    → NoToolGrant m.id x.catalog.keys
unfolding change_catalog mutate_tool creates
delete_tool-cascades p r c m x k d e =
    ground (arith, dispatch_tool p r c m, map-NoToolGrant m.id c.keys)

All-change_first {ℓ κ} :
    {A : Type ℓ} (P Q : A → Type κ) (p : A → Bool) (f : A → List A)
    → ((x : A) → P x → Q x)
    → ((x : A) → P x → All Q (f x))
    → (xs : List A) → All P xs
    → All Q (change_first p f xs)
unfolding change_first
All-change_first P Q p f old new [] h = tt
All-change_first P Q p f old new (x ∷ xs) h = elim (Bool-cases (p x)) [
  | inl hit ↦ rw hit (All-append Q (f x) xs (new x h.0) (All-mono P old xs h.1))
  | inr miss ↦ rw miss (old x h.0, All-change_first P Q p f old new xs h.1)
]

-- The hash of some key of the catalog.
abbrev pub KnownHash : List KeyConfig → Text → Type 0
KnownHash ks hash = any (λ o. o.hash == hash) ks ≡ true

KnownHash-more :
    (o : KeyConfig) (ks : List KeyConfig) (hash : Text)
    → KnownHash ks hash
    → KnownHash (o ∷ ks) hash
KnownHash-more o ks hash h = ground arith

KnownHash-self : (ks : List KeyConfig) → All (λ k. KnownHash ks k.hash) ks
KnownHash-self [] = tt
KnownHash-self (k ∷ ks) = (
  ground (arith, ==_refl k.hash),
  All-mono (λ o. KnownHash ks o.hash) (λ o. KnownHash-more k ks o.hash) ks (KnownHash-self ks),
)

abbrev pub GoodHash : Platform → Random → List KeyConfig → KeyConfig → Type 0
GoodHash p r ks k = (k.hash ≡ key_hash p r.secret) ⊎ KnownHash ks k.hash

GoodHash-changed :
    (p : Platform) (r : Random) (c : Catalog) (m : Mutation) (v : KeyConfig)
    → KnownHash c.keys v.hash
    → All (GoodHash p r c.keys) (if m.delete then [] else changed_key p r m v ∷ [])
unfolding changed_key
GoodHash-changed p r c m v h = ground arith

mutate_key-GoodHash :
    (p : Platform) (r : Random) (c : Catalog) (m : Mutation)
    → All (GoodHash p r c.keys) (mutate_key p r c m).catalog.keys
unfolding mutate_key
mutate_key-GoodHash p r c m =
    let body =
      All-change_first (λ v. KnownHash c.keys v.hash) (GoodHash p r c.keys) (λ o. o.id == m.id)
        (λ v. if m.delete then [] else changed_key p r m v ∷ []) (λ v. inr)
        (GoodHash-changed p r c m) c.keys (KnownHash-self c.keys) in
    elim (Bool-cases (creates m)) [
      | inl new ↦ rw new (All-append (GoodHash p r c.keys) _ _ body (inl refl, tt))
      | inr old ↦ rw old body
    ]

pub dispatch_of_change :
    (p : Platform) (r : Random) (c : Catalog) (m : Mutation) (x : Changed)
    → change_catalog p r c m ≡ ok x
    → dispatch p r c m ≡ ok x
unfolding change_catalog
dispatch_of_change p r c m x e = let (y, d, rest) = >>=-eq-ok (dispatch p r c m) _ e in ground arith

-- After a mutation of keys each hash is that of the secret drawn in this call, or was in the
-- catalog before: the request cannot bring in a hash of its own.
pub key_hashes_known :
    (p : Platform) (r : Random) (c : Catalog) (m : Mutation) (x : Changed)
    → m.kind ≡ bytes "key"
    → change_catalog p r c m ≡ ok x
    → All (GoodHash p r c.keys) x.catalog.keys
key_hashes_known p r c m x k e =
    let same : mutate_key p r c m ≡ x =
      cc (dispatch_key p r c m k, dispatch_of_change p r c m x e) in
    subst (λ y. All (GoodHash p r c.keys) y.catalog.keys) same (mutate_key-GoodHash p r c m)
