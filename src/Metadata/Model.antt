-- ===== src/Metadata/Model.antt =====
-- internal/metadata/model.go: applications and their validation.
use xuandu_gateway.Prelude.{
  ℕ, Bool, false, not, ◌&&◌, ◌||◌, none, some, is_none, [], ◌∷◌, Text, bytes, ◌==◌, trim_space,
  is_digit, is_lower, is_upper, Result, ok, err, ◌>>=◌, ◌>>◌, refuse, map_err, if◌then◌else◌, leb,
  eqb, all, length,
}
use xuandu_gateway.Platform.{Platform, Url}
use xuandu_gateway.Metadata.Domain.{DomainError, normalize_domain}

pub record IdlSource : Type 0 where
  pub kind : Text
  pub url : Text
  pub resolved_revision : Text

pub record App : Type 0 where
  pub catalog_index : ℕ
  pub name : Text
  pub domain : Text
  pub service_name : Text
  pub enabled : Bool
  pub rpc_timeout : Text
  pub idl : IdlSource
  pub modify_index : ℕ

pub data ModelError : Type 0 where
  domain : DomainError → ModelError
  invalid_name invalid_timeout not_zip invalid_url revision_required : ModelError

-- ^[a-zA-Z0-9][a-zA-Z0-9_-]{0,127}$
unfoldable pub name_pattern : Text → Bool
name_pattern [] = false
name_pattern (c ∷ s) =
    (is_lower c || is_upper c || is_digit c)
    && leb (length s) 127
    && all (λ d. is_lower d || is_upper d || is_digit d || eqb d b'_' || eqb d b'-') s

-- ^[0-9a-f]{64}$
unfoldable pub revision_pattern : Text → Bool
revision_pattern s = eqb (length s) 64 && all (λ c. is_digit c || (leb b'a' c && leb c b'f')) s

unfoldable pub valid_download : Url → Bool
valid_download u =
    (u.scheme == bytes "http" || u.scheme == bytes "https")
    && not (u.host == [])
    && not u.has_user
    && u.fragment == []

unfoldable pub validate_download_url : Platform → Text → Result ModelError (Unit {0})
unfolding valid_download
validate_download_url p raw = elim (p.parse_url raw) [
  | none ↦ err invalid_url
  | some u ↦ refuse (not (valid_download u)) invalid_url
]

unfoldable pub check_domain : Platform → Text → Result ModelError (Unit {0})
check_domain p d = map_err domain (normalize_domain p d) >>= λ _. ok tt

unfoldable pub validate_stored : Platform → App → Result ModelError (Unit {0})
unfolding check_domain name_pattern revision_pattern validate_download_url
validate_stored p a = do
  (if a.domain == [] then ok tt else check_domain p a.domain)
  refuse (not (name_pattern a.name) || trim_space a.service_name == []) invalid_name
  refuse (is_none (p.parse_duration a.rpc_timeout)) invalid_timeout
  refuse (not (a.idl.kind == bytes "zip")) not_zip
  (if not (a.idl.url == [])
      then validate_download_url p a.idl.url
      else refuse (not (revision_pattern a.idl.resolved_revision)) revision_required)

unfoldable pub validate : Platform → App → Result ModelError (Unit {0})
unfolding validate_stored check_domain
validate p a = do check_domain p a.domain; validate_stored p a
