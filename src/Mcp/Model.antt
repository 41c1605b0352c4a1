-- ===== src/Mcp/Model.antt =====
-- internal/mcp/model.go: the catalog and its texts.
use xuandu_gateway.Prelude.{
  ℕ, Bool, false, not, ◌&&◌, ◌||◌, none, some, List, [], ◌∷◌, Text, bytes, ◌==◌, has_prefix,
  has_suffix, to_lower, contains_any, contains, split, mem_text, is_digit, is_lower, is_upper,
  Result, ok, err, ◌>>◌, refuse, leb, eqb, any, all, map, length,
}
use xuandu_gateway.Platform.{Platform, Url}

pub record ServerConfig : Type 0 where
  pub id : Text
  pub name : Text
  pub app : Text
  pub endpoints : List Text
  pub header : Text
  pub bearer : Bool
  pub enabled : Bool

pub record ToolConfig : Type 0 where
  pub id : Text
  pub server_id : Text
  pub name : Text
  pub description : Text
  pub operation_id : Text

pub record Grant : Type 0 where
  pub server_id : Text
  pub tool_ids : List Text

pub record KeyConfig : Type 0 where
  pub id : Text
  pub name : Text
  pub enabled : Bool
  pub hash : Text
  pub grants : List Grant

pub record Catalog : Type 0 where
  pub version : ℕ
  pub servers : List ServerConfig
  pub tools : List ToolConfig
  pub keys : List KeyConfig

pub record ServerAccess : Type 0 where
  pub key_id : Text
  pub tool_ids : List Text

pub record Mutation : Type 0 where
  pub access : List ServerAccess
  pub version : ℕ
  pub kind : Text
  pub delete : Bool
  pub rotate : Bool
  pub id : Text
  pub server : ServerConfig
  pub tool : ToolConfig
  pub key : KeyConfig

-- The errors of model.go and service.go, one for each message.
pub data McpError : Type 0 where
  load_failed too_large corrupt save_failed conflict : McpError
  path_has_query not_absolute_path bad_path dot_segment : McpError
  too_many bad_server bad_header bearer_required duplicate_path : McpError
  bad_tool duplicate_tool bad_key bad_grant bad_grant_tool : McpError
  duplicate_access unknown_key unknown_kind unknown_id : McpError
  apps_unavailable shutting_down not_loaded : McpError

-- ^[A-Za-z][A-Za-z0-9_-]{0,63}$
unfoldable pub tool_name : Text → Bool
tool_name [] = false
tool_name (c ∷ s) =
    (is_lower c || is_upper c)
    && leb (length s) 63
    && all (λ d. is_lower d || is_upper d || is_digit d || eqb d b'_' || eqb d b'-') s

-- ^[A-Za-z][A-Za-z0-9-]{0,63}$
unfoldable pub header_name : Text → Bool
header_name [] = false
header_name (c ∷ s) =
    (is_lower c || is_upper c)
    && leb (length s) 63
    && all (λ d. is_lower d || is_upper d || is_digit d || eqb d b'-') s

unfoldable pub key_hash : Platform → Text → Text
key_hash p key = p.sha256_hex key

unfoldable pub has_extras : Text → Url → Bool
has_extras raw u =
    u.has_user
    || not (u.raw_query == [])
    || u.force_query
    || not (u.fragment == [])
    || contains raw (bytes "#")
    || not (u.opaque_part == [])

unfoldable pub is_bad_path : Url → Bool
is_bad_path u =
    u.path == []
    || u.path == bytes "/"
    || u.path == bytes "/healthz"
    || not (u.raw_path == [])
    || not (u.escaped_path == u.path)
    || has_suffix u.path (bytes "/")
    || contains_any u.path (bytes "\\{}:*")
    || contains u.path (bytes "//")

unfoldable pub endpoint_key : Platform → Text → Result McpError Text
endpoint_key p raw = elim (p.parse_url raw) [
  | none ↦ err path_has_query
  | some u ↦ (do
    refuse (has_extras raw u) path_has_query
    refuse (not (u.scheme == []) || not (u.host == []) || not (has_prefix raw (bytes "/")))
        not_absolute_path
    refuse (is_bad_path u) bad_path
    refuse (any (λ s. s == bytes "." || s == bytes "..") (split b'/' u.path)) dot_segment
    ok u.path)
]

unfoldable pub sensitive_names : List Text
sensitive_names =
    bytes "x-app-code"
    ∷ bytes "origin"
    ∷ bytes "accept"
    ∷ bytes "expect"
    ∷ bytes "upgrade"
    ∷ bytes "te"
    ∷ bytes "trailer"
    ∷ bytes "proxy-authorization"
    ∷ bytes "authorization"
    ∷ bytes "cookie"
    ∷ bytes "x-user-id"
    ∷ bytes "x-device-id"
    ∷ bytes "x-device-type"
    ∷ bytes "x-device-name"
    ∷ bytes "host"
    ∷ bytes "connection"
    ∷ bytes "content-length"
    ∷ bytes "content-type"
    ∷ bytes "transfer-encoding"
    ∷ bytes "x-api-key"
    ∷ bytes "x-mcp-key"
    ∷ []

unfoldable pub sensitive_header : Text → Bool
sensitive_header h =
    let l = to_lower h in
    mem_text l sensitive_names
    || has_prefix l (bytes "mcp-")
    || has_prefix l (bytes "x-forwarded-")
    || has_prefix l (bytes "x-internal-")

unfoldable pub hide_hash : KeyConfig → KeyConfig
hide_hash k = record k { hash = [] }

-- safeCatalog: the catalog without the hashes of its keys.
unfoldable pub safe_catalog : Catalog → Catalog
safe_catalog c = record c { keys = map hide_hash c.keys }
