-- ===== src/Mcp/Mutate.antt =====
-- internal/mcp/service.go: the change that Mutate makes to a catalog.
pub mod Catalogs
pub mod Access
use xuandu_gateway.Prelude.{
  ℕ, Bool, true, false, not, ◌&&◌, ◌||◌, Option, none, some, is_some, List, [], ◌∷◌, ◌++◌, Text,
  bytes, ◌==◌, map, Dict, lookup, put, Result, ok, err, ◌>>=◌, ◌>>◌, refuse, if◌then◌else◌, any,
  keep,
}
use xuandu_gateway.Platform.{Platform}
use xuandu_gateway.Mcp.Model.{
  ServerConfig, ToolConfig, Grant, KeyConfig, Catalog, ServerAccess, Mutation, McpError, key_hash,
  duplicate_access, unknown_key, unknown_kind, unknown_id,
}

-- The loop that changes, or deletes, the first element that passes the test and breaks.
unfoldable pub change_first {ℓ} : {A : Type ℓ} → (A → Bool) → (A → List A) → List A → List A
change_first p f [] = []
change_first p f (x ∷ xs) = let rest = change_first p f xs in if p x then f x ++ xs else x ∷ rest

unfoldable pub has_key : Text → List KeyConfig → Bool
has_key id = any λ k. k.id == id

-- The map `access` of an access mutation.
unfoldable pub access_loop :
    List KeyConfig → List ServerAccess → Dict (List Text) → Result McpError (Dict (List Text))
access_loop ks [] access = ok access
access_loop ks (g ∷ gs) access = do
  refuse (is_some (lookup g.key_id access)) duplicate_access
  refuse (not (has_key g.key_id ks)) unknown_key
  access_loop ks gs (put g.key_id g.tool_ids access)

-- slices.DeleteFunc on the grants of one server.
unfoldable pub drop_grants : Text → KeyConfig → KeyConfig
drop_grants id k = record k { grants = keep (λ g. not (g.server_id == id)) k.grants }

unfoldable pub set_access : Text → Dict (List Text) → KeyConfig → KeyConfig
set_access id access k =
    let k' = drop_grants id k in
    elim (lookup k.id access) [
      | none ↦ k'
      | some ids ↦ record k' {
        grants = k'.grants ++ (record { server_id = id; tool_ids = ids } ∷ []);
      }
    ]

unfoldable pub drop_granted : Text → Grant → Grant
drop_granted id g = record g { tool_ids = keep (λ v. not (v == id)) g.tool_ids }

unfoldable pub drop_tool : Text → KeyConfig → KeyConfig
drop_tool id k = record k { grants = map (drop_granted id) k.grants }

-- The catalog, the id and the secret after the switch, and whether the id exists.
pub record Changed : Type 0 where
  pub catalog : Catalog
  pub id : Text
  pub secret : Text
  pub exists_ : Bool

-- The random texts that the call draws: randomId() and "xuandu_" + hexSecret(). A key whose id is
-- empty, which `validate` excludes, would draw a second secret.
pub record Random : Type 0 where
  pub id : Text
  pub secret : Text

unfoldable pub mutate_access : Catalog → Mutation → Result McpError Changed
mutate_access c m = do
  access ← access_loop c.keys m.access []
  ok (record {
    catalog = record c { keys = map (set_access m.id access) c.keys };
    id = m.id;
    secret = [];
    exists_ = any (λ s. s.id == m.id) c.servers;
  })

-- `id == "" && !m.Delete`
unfoldable pub creates : Mutation → Bool
creates m = m.id == [] && not m.delete

unfoldable pub mutate_server : Random → Catalog → Mutation → Changed
mutate_server r c m =
    let is_it = λ (s : ServerConfig). s.id == m.id in
    let changed =
      change_first is_it (λ s. if m.delete then [] else record (m.server) { id = m.id } ∷ [])
        c.servers in
    let id = if creates m then r.id else m.id in
    let servers =
      if creates m then changed ++ (record (m.server) { id = r.id } ∷ []) else changed in
    record {
      catalog =
          if m.delete
          then record c {
            servers = servers;
            tools = keep (λ t. not (t.server_id == id)) c.tools;
            keys = map (drop_grants id) c.keys;
          }
          else record c { servers = servers };
      id = id;
      secret = [];
      exists_ = any is_it c.servers || creates m;
    }

unfoldable pub mutate_tool : Random → Catalog → Mutation → Changed
mutate_tool r c m =
    let is_it = λ (t : ToolConfig). t.id == m.id in
    let changed =
      change_first is_it (λ t. if m.delete then [] else record (m.tool) { id = m.id } ∷ [])
        c.tools in
    let id = if creates m then r.id else m.id in
    let tools = if creates m then changed ++ (record (m.tool) { id = r.id } ∷ []) else changed in
    record {
      catalog =
          if m.delete
          then record c { tools = tools; keys = map (drop_tool id) c.keys }
          else record c { tools = tools };
      id = id;
      secret = [];
      exists_ = any is_it c.tools || creates m;
    }

-- The key that takes the place of `v`.
unfoldable pub changed_key : Platform → Random → Mutation → KeyConfig → KeyConfig
changed_key p r m v = record (m.key) {
  id = m.id;
  hash = if m.rotate then key_hash p r.secret else v.hash;
}

unfoldable pub mutate_key : Platform → Random → Catalog → Mutation → Changed
mutate_key p r c m =
    let is_it = λ (k : KeyConfig). k.id == m.id in
    let changed =
      change_first is_it (λ v. if m.delete then [] else changed_key p r m v ∷ []) c.keys in
    let fresh : KeyConfig = record (m.key) { id = r.id; hash = key_hash p r.secret } in
    let rotated = any is_it c.keys && not m.delete && m.rotate in
    record {
      catalog = record c { keys = if creates m then changed ++ (fresh ∷ []) else changed };
      id = if creates m then r.id else m.id;
      secret = if creates m || rotated then r.secret else [];
      exists_ = any is_it c.keys || creates m;
    }

unfoldable pub dispatch : Platform → Random → Catalog → Mutation → Result McpError Changed
dispatch p r c m =
    if m.kind == bytes "access"
    then mutate_access c m
    else if m.kind == bytes "server"
    then ok (mutate_server r c m)
    else if m.kind == bytes "tool"
    then ok (mutate_tool r c m)
    else if m.kind == bytes "key"
    then ok (mutate_key p r c m)
    else err unknown_kind

-- The switch of Mutate and the test after it.
unfoldable pub change_catalog : Platform → Random → Catalog → Mutation → Result McpError Changed
change_catalog p r c m = do x ← dispatch p r c m; refuse (not x.exists_) unknown_id; ok x
