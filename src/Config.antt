-- ===== src/Config.antt =====
-- internal/config/config.go: the configuration, its completion and its checks.
pub mod Usable
use xuandu_gateway.Prelude.{
  ℕ, Bool, true, false, not, ◌&&◌, ◌||◌, Option, none, some, List, [], ◌∷◌, Text, bytes, ◌==◌,
  contains, trim_space, Result, ok, err, ◌>>=◌, ◌>>◌, refuse, if◌then◌else◌, eqb, all, dir,
  join_path, is_abs,
}
use xuandu_gateway.Platform.{Platform, Url}

-- A duration or a limit below 0 stands as 0: the program only tests that they are positive.
pub record ServerConfig : Type 0 where
  pub address : Text
  pub read_timeout : ℕ
  pub write_timeout : ℕ
  pub idle_timeout : ℕ
  pub max_request_body_bytes : ℕ

pub record ConsulConfig : Type 0 where
  pub address : Text
  pub scheme : Text
  pub token_env : Text
  pub token_file : Text
  pub token : Text
  pub metadata_prefix : Text

-- AdminConfig and McpConfig
pub record ListenerConfig : Type 0 where
  pub enabled : Bool
  pub address : Text

pub record Config : Type 0 where
  pub mcp : ListenerConfig
  pub server : ServerConfig
  pub consul : ConsulConfig
  pub admin : ListenerConfig

pub data ConfigError : Type 0 where
  unreadable not_one_document bad_consul_url token_unreadable token_empty : ConfigError
  bad_mcp_address mcp_address_taken bad_server_address not_positive consul_required : ConfigError
  bad_scheme bad_admin_address admin_address_taken : ConfigError

-- net.SplitHostPort accepts an address; os.LookupEnv of CONSUL_HTTP_ADDR; os.ReadFile. `document` is
-- the configuration that the YAML decoder reads from a file, and whether the file ends after it; it is
-- `none` if the file cannot be opened or decoded.
pub record Host : Type 0 where
  pub splits : Text → Bool
  pub consul_env : Option Text
  pub read_file : Text → Option Text
  pub document : Text → Option (Config × Bool)

-- strings.Trim of slashes and spaces leaves nothing.
unfoldable pub is_blank_prefix : Text → Bool
is_blank_prefix s = all (λ c. eqb c b'/' || eqb c b' ') s

unfoldable pub with_mcp_default : Config → Config
with_mcp_default c =
    if c.mcp.address == []
    then record c { mcp = record c.mcp { address = bytes "0.0.0.0:8081" } }
    else c

unfoldable pub check_mcp : Host → Config → Result ConfigError (Unit {0})
check_mcp h c =
    if c.mcp.enabled
    then (do
      refuse (not (h.splits c.mcp.address)) bad_mcp_address
      refuse (c.mcp.address == c.server.address || c.mcp.address == c.admin.address)
          mcp_address_taken)
    else ok tt

unfoldable pub check_admin : Host → Config → Result ConfigError (Unit {0})
check_admin h c =
    if c.admin.enabled
    then (do
      refuse (not (h.splits c.admin.address)) bad_admin_address
      refuse (c.admin.address == c.server.address) admin_address_taken)
    else ok tt

unfoldable pub not_positive_limits : ServerConfig → Bool
not_positive_limits s =
    eqb s.read_timeout 0
    || eqb s.write_timeout 0
    || eqb s.idle_timeout 0
    || eqb s.max_request_body_bytes 0

-- Validate, after the default of the MCP address.
unfoldable pub check : Host → Config → Result ConfigError (Unit {0})
unfolding check_mcp check_admin not_positive_limits is_blank_prefix
check h c = do
  check_mcp h c
  refuse (not (h.splits c.server.address)) bad_server_address
  refuse (not_positive_limits c.server) not_positive
  refuse (c.consul.address == [] || is_blank_prefix c.consul.metadata_prefix) consul_required
  refuse (not (c.consul.scheme == bytes "http") && not (c.consul.scheme == bytes "https"))
      bad_scheme
  check_admin h c

-- Validate: the completed configuration, if it passes.
unfoldable pub validate : Host → Config → Result ConfigError Config
unfolding check with_mcp_default
validate h c = check h (with_mcp_default c) >>= λ u. ok (with_mcp_default c)

unfoldable pub bad_consul : Url → Bool
bad_consul u =
    (not (u.scheme == bytes "http") && not (u.scheme == bytes "https"))
    || u.host == []
    || u.has_user
    || (not (u.path == []) && not (u.path == bytes "/"))
    || not (u.raw_query == [])
    || u.force_query
    || not (u.fragment == [])

-- An address that is a URL is split into its scheme and its host.
unfoldable pub split_address : Platform → ConsulConfig → Result ConfigError ConsulConfig
unfolding bad_consul
split_address p c =
    if contains c.address (bytes "://")
    then (elim (p.parse_url c.address) [
      | none ↦ err bad_consul_url
      | some u ↦
          if bad_consul u
          then err bad_consul_url
          else ok (record c { address = u.host; scheme = u.scheme })
    ])
    else ok c

unfoldable pub or_text : Text → Text → Text
or_text s default = if s == [] then default else s

-- The token of the file, whose path is relative to the configuration.
unfoldable pub read_token : Host → Text → ConsulConfig → Result ConfigError ConsulConfig
read_token h path c =
    if c.token_file == []
    then ok c
    else (let full =
          if is_abs c.token_file then c.token_file else join_path (dir path) c.token_file in
        elim (h.read_file full) [
          | none ↦ err token_unreadable
          | some content ↦
              if trim_space content == []
              then err token_empty
              else ok (record c { token = trim_space content })
        ])

unfoldable pub complete_consul :
    Platform → Host → Text → ConsulConfig → Result ConfigError ConsulConfig
unfolding split_address or_text read_token
complete_consul p h path c = do
  c' ←
      split_address p
        (elim h.consul_env [ none ↦ c | some address ↦ record c { address = trim_space address } ])
  read_token h path (record c' {
    scheme = or_text c'.scheme (bytes "http");
    token_env = or_text c'.token_env (bytes "CONSUL_HTTP_TOKEN");
  })

unfoldable pub one_document : Option (Config × Bool) → Result ConfigError Config
one_document none = err unreadable
one_document (some (c, ends)) = if ends then ok c else err not_one_document

-- Load
unfoldable pub load : Platform → Host → Text → Result ConfigError Config
unfolding one_document complete_consul validate
load p h path = do
  c ← one_document (h.document path)
  consul ← complete_consul p h path c.consul
  validate h (record c { consul = consul })
