-- ===== src/Mcp/Validate/Sound.antt =====
-- internal/mcp/model.go: the catalogs that validate accepts.
use xuandu_gateway.Prelude.{
  ◌≤◌, ◌≡◌, subst, ◌⊎◌, inl, inr, true, false, List, [], ◌++◌, Text, mem_text, Dict, lookup, ok,
  ◌>>=◌, length, All, All-mono, Fresh, Fresh-append, Fresh-IsDistinct, IsDistinct, Bool-cases,
  >>=-eq-ok, arith,
}
use xuandu_gateway.Platform.{Platform}
use xuandu_gateway.Mcp.Model.{ServerConfig, ToolConfig, Grant, KeyConfig, Catalog, tool_name}
use xuandu_gateway.Mcp.Validate.{
  too_many_items, no_server, bad_tool_grant, server_loop, tool_loop, key_loop, validate,
}
use xuandu_gateway.Mcp.Validate.Servers.{
  Paths, server_ids, all_endpoints, GoodHeaders, ServersChecked, server_loop_lem,
}
use xuandu_gateway.Mcp.Validate.Tools.{
  tool_ids, name_keys, has_tool, ToolsChecked, tool_loop_lem, grant_servers, GrantChecked, key_ids,
  KeyChecked, key_loop_lem,
}

-- A grant names a server of the catalog and tools of that server.
abbrev pub GoodGrant : Catalog → Grant → Type 0
GoodGrant c g =
    (mem_text g.server_id (server_ids c.servers) ≡ true)
    × All (λ id. has_tool g.server_id id c.tools ≡ true) g.tool_ids

abbrev pub GoodKey : Catalog → KeyConfig → Type 0
GoodKey c k =
    (length k.hash ≡ 64) × IsDistinct (grant_servers k.grants) × All (GoodGrant c) k.grants

-- An independent account of a catalog that the service can use.
pub record IsCatalog (p : Platform) (c : Catalog) : Type 0 where
  -- At most 50 servers, 500 tools and 100 keys.
  pub bounded : (length c.servers ≤ 50) × (length c.tools ≤ 500) × (length c.keys ≤ 100)
  -- No id twice, be it a server's, a tool's or a key's.
  pub ids : IsDistinct (server_ids c.servers ++ (tool_ids c.tools ++ key_ids c.keys))
  -- Every endpoint of a server has a path, and no two of all endpoints have the same.
  pub endpoints : (ks : List Text) × Paths p (all_endpoints c.servers) ks × IsDistinct ks
  pub headers : GoodHeaders c.servers
  -- A tool belongs to a server of the catalog, which has no other tool of its name.
  pub owned : All (λ t. mem_text t.server_id (server_ids c.servers) ≡ true) c.tools
  pub named : All (λ t. tool_name t.name ≡ true) c.tools
  pub names : IsDistinct (name_keys c.tools)
  pub keys : All (GoodKey c) c.keys

bounds_of_count :
    (c : Catalog)
    → too_many_items c ≡ false
    → (length c.servers ≤ 50) × (length c.tools ≤ 500) × (length c.keys ≤ 100)
unfolding too_many_items
bounds_of_count c h = (ground arith, ground arith, ground arith)

known_server :
    (c : Catalog) (servers : Dict ServerConfig)
    → ((id : Text)
        → no_server id servers ≡ false
        → (no_server id [] ≡ false) ⊎ (mem_text id (server_ids c.servers) ≡ true))
    → (id : Text) → no_server id servers ≡ false
    → mem_text id (server_ids c.servers) ≡ true
unfolding no_server lookup
known_server c servers known id h = ground (arith, known id h)

known_tool :
    (c : Catalog) (tools : Dict ToolConfig)
    → ((server id : Text)
        → bad_tool_grant tools server id ≡ false
        → (bad_tool_grant [] server id ≡ false) ⊎ (has_tool server id c.tools ≡ true))
    → (server id : Text) → bad_tool_grant tools server id ≡ false
    → has_tool server id c.tools ≡ true
unfolding bad_tool_grant lookup
known_tool c tools known server id h = ground (arith, known server id h)

module _ (p : Platform) (c : Catalog) (servers : Dict ServerConfig) (tools : Dict ToolConfig)
    (ids ids' : List Text) (ss : ServersChecked p c.servers [] [] [] ids servers)
    (ts : ToolsChecked servers c.tools ids [] [] ids' tools)
    (ks : Fresh ids' (key_ids c.keys) × All (KeyChecked servers tools) c.keys) where
  all_ids : IsDistinct (server_ids c.servers ++ (tool_ids c.tools ++ key_ids c.keys))
  all_ids =
      let tail : Fresh ids (tool_ids c.tools ++ key_ids c.keys) =
        Fresh-append ids (tool_ids c.tools) (key_ids c.keys) ts.fresh
          (subst (λ q. Fresh q (key_ids c.keys)) ts.ids_after ks.0) in
      Fresh-IsDistinct _ (
        Fresh-append [] (server_ids c.servers) _ ss.fresh
          (subst (λ q. Fresh q (tool_ids c.tools ++ key_ids c.keys)) ss.ids_after tail))

  good_grant : (g : Grant) → GrantChecked servers tools g → GoodGrant c g
  good_grant g h = (
    known_server c servers ss.known g.server_id h.0,
    All-mono (λ id. bad_tool_grant tools g.server_id id ≡ false)
        (known_tool c tools ts.known g.server_id) g.tool_ids h.1,
  )

  good_key : (k : KeyConfig) → KeyChecked servers tools k → GoodKey c k
  good_key k h =
      (h.0, Fresh-IsDistinct _ h.1, All-mono (GrantChecked servers tools) good_grant k.grants h.2)

  checked-IsCatalog : too_many_items c ≡ false → IsCatalog p c
  checked-IsCatalog few =
      let (paths, are_paths, fresh) = ss.paths in
      record {
        bounded = bounds_of_count c few;
        ids = all_ids;
        endpoints = (paths, are_paths, Fresh-IsDistinct paths fresh);
        headers = ss.headers;
        owned =
            All-mono (λ t. no_server t.server_id servers ≡ false)
              (λ t. known_server c servers ss.known t.server_id) c.tools ts.owned;
        named = ts.named;
        names = Fresh-IsDistinct _ ts.fresh_names;
        keys = All-mono (KeyChecked servers tools) good_key c.keys ks.1;
      }

-- A catalog that validate accepts is one that the service can use (IsCatalog): it is small enough,
-- no id occurs twice, every endpoint has a path and no two have the same, the headers for keys may
-- carry one, every tool belongs to a server of the catalog and has a name that no other tool of it
-- has, every key has a hash of 64 bytes and at most one grant for a server, and every grant names a
-- server of the catalog and tools of that server.
pub validate-IsCatalog : (p : Platform) (c : Catalog) → validate p c ≡ ok tt → IsCatalog p c
unfolding validate
validate-IsCatalog p c e = elim (Bool-cases (too_many_items c)) [
  | inl many ↦ absurd (ground arith)
  | inr few ↦
      let loops : (server_loop p c.servers [] [] [] >>= λ r.
      tool_loop r.1 c.tools r.0 [] [] >>= λ q. key_loop r.1 q.1 c.keys q.0)
          ≡ ok tt =
        ground arith in
      let ((ids, servers), first, rest) = >>=-eq-ok (server_loop p c.servers [] [] []) _ loops in
      let ((ids', tools), second, third) = >>=-eq-ok (tool_loop servers c.tools ids [] []) _ rest in
      checked-IsCatalog p c servers tools ids ids'
        (server_loop_lem p c.servers [] [] [] ids servers first)
        (tool_loop_lem servers c.tools ids [] [] ids' tools second)
        (key_loop_lem servers tools c.keys ids' third) few
]
