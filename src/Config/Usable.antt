-- ===== src/Config/Usable.antt =====
-- internal/config/config.go: what a configuration that has been loaded promises.
use xuandu_gateway.Prelude.{
  ◌<◌, ◌≡◌, ◌≢◌, ◌⊎◌, inl, inr, refl, sym, subst, true, false, not, ◌&&◌, ◌||◌, [], Text, bytes,
  ◌==◌, eq_iff, ok, >>=-eq-ok, refuse-ok, if◌then◌else◌, Bool-cases, Option-cases, arith,
  trim_space, is_abs, join_path, dir,
}
use xuandu_gateway.Platform.{Platform}
use xuandu_gateway.Config.{
  Config, ConsulConfig, Host, is_blank_prefix, with_mcp_default, check_mcp, check_admin,
  not_positive_limits, check, validate, split_address, read_token, complete_consul, one_document,
  load, or_text, bad_server_address, not_positive, consul_required, bad_scheme,
}

-- The listeners can be opened beside each other, the limits are positive, and Consul can be reached.
pub record IsUsable (h : Host) (c : Config) : Type 0 where
  pub server_splits : h.splits c.server.address ≡ true
  pub mcp_named : (c.mcp.address == []) ≡ false
  pub mcp_splits : c.mcp.enabled ≡ true → h.splits c.mcp.address ≡ true
  pub mcp_apart :
      c.mcp.enabled ≡ true → (c.mcp.address ≢ c.server.address) × (c.mcp.address ≢ c.admin.address)
  pub admin_splits : c.admin.enabled ≡ true → h.splits c.admin.address ≡ true
  pub admin_apart : c.admin.enabled ≡ true → c.admin.address ≢ c.server.address
  pub limits :
      (0 < c.server.read_timeout)
      × (0 < c.server.write_timeout)
      × (0 < c.server.idle_timeout)
      × (0 < c.server.max_request_body_bytes)
  pub consul_named : (c.consul.address == []) ≡ false
  pub prefix : is_blank_prefix c.consul.metadata_prefix ≡ false
  pub scheme : (c.consul.scheme ≡ bytes "http") ⊎ (c.consul.scheme ≡ bytes "https")

==-refuted : (a b : Text) → (a == b) ≡ false → a ≢ b
==-refuted a b e same = ground (arith, eq_iff a b)

check-IsUsable :
    (h : Host) (c : Config) → (c.mcp.address == []) ≡ false → check h c ≡ ok tt → IsUsable h c
unfolding check check_mcp check_admin not_positive_limits
check-IsUsable h c named e =
    let (u, mcp, e1) = >>=-eq-ok (check_mcp h c) _ e in
    let (server, e2) = refuse-ok (not (h.splits c.server.address)) bad_server_address _ e1 in
    let (limits, e3) = refuse-ok (not_positive_limits c.server) not_positive _ e2 in
    let (consul, e4) =
      refuse-ok (c.consul.address == [] || is_blank_prefix c.consul.metadata_prefix) consul_required
        _ e3 in
    let (scheme, admin) =
      refuse-ok (not (c.consul.scheme == bytes "http") && not (c.consul.scheme == bytes "https"))
        bad_scheme _ e4 in
    record {
      server_splits = ground arith;
      mcp_named = named;
      mcp_splits = λ on. ground arith;
      mcp_apart = λ on. (
        ==-refuted c.mcp.address c.server.address (ground arith),
        ==-refuted c.mcp.address c.admin.address (ground arith),
      );
      admin_splits = λ on. ground arith;
      admin_apart = λ on. ==-refuted c.admin.address c.server.address (ground arith);
      limits = (ground arith, ground arith, ground arith, ground arith);
      consul_named = ground arith;
      prefix = ground arith;
      scheme =
          ground
            (arith, eq_iff c.consul.scheme (bytes "http"), eq_iff c.consul.scheme (bytes "https"));
    }

default-named : (c : Config) → ((with_mcp_default c).mcp.address == []) ≡ false
unfolding with_mcp_default bytes ◌==◌
default-named c = elim (Bool-cases (c.mcp.address == [])) [
  | inl empty ↦ ground arith
  | inr named ↦ ground arith
]

validate-IsUsable : (h : Host) (c c' : Config) → validate h c ≡ ok c' → IsUsable h c'
unfolding validate
validate-IsUsable h c c' e =
    let (u, passed, last) = >>=-eq-ok (check h (with_mcp_default c)) _ e in
    let same : with_mcp_default c ≡ c' = ground arith in
    subst (IsUsable h) same (check-IsUsable h (with_mcp_default c) (default-named c) passed)

abbrev pub HasToken : ConsulConfig → Type 0
HasToken c = (c.token_file == []) ≡ false → (c.token == []) ≡ false

read_token-HasToken :
    (h : Host) (path : Text) (c c' : ConsulConfig)
    → read_token h path c ≡ ok c'
    → HasToken c' × (c'.token_env ≡ c.token_env)
unfolding read_token
read_token-HasToken h path c c' e =
    let full = if is_abs c.token_file then c.token_file else join_path (dir path) c.token_file in
    elim (Bool-cases (c.token_file == [])) [
      | inl without ↦ (λ has. ground arith, ground arith)
      | inr with_file ↦ elim (Option-cases (h.read_file full)) [
        | inl missing ↦ absurd (ground arith)
        | inr (content, read) ↦ elim (Bool-cases (trim_space content == [])) [
          | inl empty ↦ absurd (ground arith)
          | inr there ↦ (λ has. ground arith, ground arith)
        ]
      ]
    ]

or_text-named : (s default : Text) → (default == []) ≡ false → (or_text s default == []) ≡ false
unfolding or_text
or_text-named s default named = ground arith

variable-named : (bytes "CONSUL_HTTP_TOKEN" == []) ≡ false
unfolding bytes ◌==◌
variable-named = refl

complete_consul-HasToken :
    (p : Platform) (h : Host) (path : Text) (c c' : ConsulConfig)
    → complete_consul p h path c ≡ ok c'
    → HasToken c' × ((c'.token_env == []) ≡ false)
unfolding complete_consul
complete_consul-HasToken p h path c c' e =
    let (split, found, rest) = >>=-eq-ok (split_address p _) _ e in
    let (token, env) = read_token-HasToken h path _ c' rest in
    let named = or_text-named split.token_env (bytes "CONSUL_HTTP_TOKEN") variable-named in
    (token, subst (λ x. (x == []) ≡ false) (sym env) named)

validate-consul : (h : Host) (c c' : Config) → validate h c ≡ ok c' → c'.consul ≡ c.consul
unfolding validate with_mcp_default
validate-consul h c c' e =
    let (u, passed, last) = >>=-eq-ok (check h (with_mcp_default c)) _ e in ground arith

-- A configuration that Load returns without an error is usable: the addresses of the enabled
-- listeners split into host and port, that of the MCP listener differs from both others and that of
-- the administration from the data server's; the limits are positive; Consul has an address, a prefix
-- and the scheme http or https; the name of the token's variable is not empty; and a token file that
-- is named has given a token.
pub load-IsUsable :
    (p : Platform) (h : Host) (path : Text) (c : Config)
    → load p h path ≡ ok c
    → IsUsable h c × ((c.consul.token_env == []) ≡ false) × HasToken c.consul
unfolding load
load-IsUsable p h path c e =
    let (first, decoded, e1) = >>=-eq-ok (one_document (h.document path)) _ e in
    let (consul, completed, checked) = >>=-eq-ok (complete_consul p h path first.consul) _ e1 in
    let whole : Config = record first { consul = consul } in
    let (token, env) = complete_consul-HasToken p h path first.consul consul completed in
    let same = sym (validate-consul h whole c checked) in
    (
      validate-IsUsable h whole c checked,
      subst (λ (x : ConsulConfig). (x.token_env == []) ≡ false) same env,
      subst HasToken same token,
    )
