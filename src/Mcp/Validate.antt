-- ===== src/Mcp/Validate.antt =====
-- internal/mcp/model.go: validate. The maps that it fills are lists of the keys that they hold, or
-- dictionaries where it reads a value.
pub mod Servers
pub mod Tools
pub mod Sound
use xuandu_gateway.Prelude.{
  ℕ, Bool, true, false, not, ◌&&◌, ◌||◌, Option, none, some, List, [], ◌∷◌, ◌++◌, Text, bytes, ◌==◌,
  equal_fold, trim_space, mem_text, Dict, lookup, put, Result, ok, err, ◌>>=◌, ◌>>◌, refuse,
  if◌then◌else◌, ltb, eqb, length, any,
}
use xuandu_gateway.Platform.{Platform}
use xuandu_gateway.Mcp.Model.{
  ServerConfig, ToolConfig, Grant, KeyConfig, Catalog, McpError, too_many, bad_server, bad_header,
  bearer_required, duplicate_path, bad_tool, duplicate_tool, bad_key, bad_grant, bad_grant_tool,
  endpoint_key, sensitive_header, header_name, tool_name,
}

unfoldable pub too_many_items : Catalog → Bool
too_many_items c = ltb 50 (length c.servers) || ltb 500 (length c.tools) || ltb 100 (length c.keys)

unfoldable pub bad_server_fields : List Text → ServerConfig → Bool
bad_server_fields ids s =
    s.id == []
    || mem_text s.id ids
    || trim_space s.name == []
    || s.app == []
    || ltb 100 (length s.name)
    || eqb (length s.endpoints) 0
    || ltb 10 (length s.endpoints)

unfoldable pub bad_server_header : Text → Bool
bad_server_header h =
    not (header_name h)
    || (sensitive_header h
        && not (equal_fold h (bytes "Authorization"))
        && not (equal_fold h (bytes "X-API-Key"))
        && not (equal_fold h (bytes "X-MCP-Key")))

-- The loop over the endpoints of a server; `seen` are the paths so far.
unfoldable pub endpoint_loop : Platform → List Text → List Text → Result McpError (List Text)
endpoint_loop p [] seen = ok seen
endpoint_loop p (raw ∷ raws) seen = do
  k ← endpoint_key p raw
  refuse (mem_text k seen) duplicate_path
  endpoint_loop p raws (k ∷ seen)

-- `ids`, `endpoints` and `servers`.
unfoldable pub server_loop :
    Platform
    → List ServerConfig
    → List Text
    → List Text
    → Dict ServerConfig
    → Result McpError (List Text × Dict ServerConfig)
server_loop p [] ids seen servers = ok (ids, servers)
server_loop p (s ∷ ss) ids seen servers = do
  refuse (bad_server_fields ids s) bad_server
  refuse (bad_server_header s.header) bad_header
  refuse (equal_fold s.header (bytes "Authorization") && not s.bearer) bearer_required
  seen' ← endpoint_loop p s.endpoints seen
  server_loop p ss (s.id ∷ ids) seen' (put s.id s servers)

-- `servers[id].Id == ""`: Go's zero value stands for a missing server.
unfoldable pub no_server : Text → Dict ServerConfig → Bool
no_server id servers = elim (lookup id servers) [ none ↦ true | some s ↦ s.id == [] ]

unfoldable pub bad_tool_fields : List Text → Dict ServerConfig → ToolConfig → Bool
bad_tool_fields ids servers t =
    t.id == []
    || mem_text t.id ids
    || not (tool_name t.name)
    || no_server t.server_id servers
    || t.operation_id == []
    || ltb 4000 (length t.description)

unfoldable pub name_key : ToolConfig → Text
name_key t = t.server_id ++ (b':' ∷ t.name)

unfoldable pub tool_loop :
    Dict ServerConfig
    → List ToolConfig
    → List Text
    → List Text
    → Dict ToolConfig
    → Result McpError (List Text × Dict ToolConfig)
tool_loop servers [] ids names tools = ok (ids, tools)
tool_loop servers (t ∷ ts) ids names tools = do
  refuse (bad_tool_fields ids servers t) bad_tool
  refuse (mem_text (name_key t) names) duplicate_tool
  tool_loop servers ts (t.id ∷ ids) (name_key t ∷ names) (put t.id t tools)

unfoldable pub bad_tool_grant : Dict ToolConfig → Text → Text → Bool
bad_tool_grant tools server id = elim (lookup id tools) [
  | none ↦ true
  | some t ↦ t.id == [] || not (t.server_id == server)
]

unfoldable pub grant_loop :
    Dict ServerConfig → Dict ToolConfig → List Grant → List Text → Result McpError (Unit {0})
grant_loop servers tools [] seen = ok tt
grant_loop servers tools (g ∷ gs) seen = do
  refuse (no_server g.server_id servers || mem_text g.server_id seen) bad_grant
  refuse (any (bad_tool_grant tools g.server_id) g.tool_ids) bad_grant_tool
  grant_loop servers tools gs (g.server_id ∷ seen)

unfoldable pub bad_key_fields : List Text → KeyConfig → Bool
bad_key_fields ids k =
    k.id == []
    || mem_text k.id ids
    || trim_space k.name == []
    || ltb 100 (length k.name)
    || not (eqb (length k.hash) 64)

unfoldable pub key_loop :
    Dict ServerConfig → Dict ToolConfig → List KeyConfig → List Text → Result McpError (Unit {0})
key_loop servers tools [] ids = ok tt
key_loop servers tools (k ∷ ks) ids = do
  refuse (bad_key_fields ids k) bad_key
  grant_loop servers tools k.grants []
  key_loop servers tools ks (k.id ∷ ids)

unfoldable pub validate : Platform → Catalog → Result McpError (Unit {0})
validate p c = do
  refuse (too_many_items c) too_many
  (ids, servers) ← server_loop p c.servers [] [] []
  (ids', tools) ← tool_loop servers c.tools ids [] []
  key_loop servers tools c.keys ids'
