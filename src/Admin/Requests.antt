-- ===== src/Admin/Requests.antt =====
-- internal/admin/service.go: the requests of the administrators, and the applications that they make.
use xuandu_gateway.Prelude.{
  ℕ, Bool, true, Option, none, some, [], Text, bytes, ◌==◌, or_default, Result, ok, ◌>>=◌, ◌>>◌,
  map_err, if◌then◌else◌,
}
use xuandu_gateway.Platform.{Platform}
use xuandu_gateway.Metadata.Domain.{normalize_domain}
use xuandu_gateway.Metadata.Model.{App, validate, validate_download_url}
use xuandu_gateway.Admin.{AdminError, bad_domain, bad_app}

-- ImportSource
pub record ImportSource : Type 0 where
  pub kind : Text
  pub url : Text

-- CreateAppRequest
pub record CreateRequest : Type 0 where
  pub name : Text
  pub domain : Text
  pub service_name : Text
  pub rpc_timeout : Text
  pub idl : ImportSource
  pub enabled : Option Bool

-- UpdateAppRequest
pub record UpdateRequest : Type 0 where
  pub domain : Option Text
  pub service_name : Option Text
  pub rpc_timeout : Option Text
  pub enabled : Option Bool
  pub idl : Option ImportSource

-- UpdateResult
pub record UpdateResult : Type 0 where
  pub changed : Bool
  pub old_revision : Text
  pub new_revision : Text
  pub route_count : ℕ

abbrev pub kind_or_zip : Text → Text
kind_or_zip kind = if kind == [] then bytes "zip" else kind

-- CreateApp: the application of the request.
unfoldable pub requested_app : Platform → CreateRequest → Result AdminError App
requested_app p req = do
  domain ← map_err bad_domain (normalize_domain p req.domain)
  let a : App = record {
    catalog_index = 0;
    name = req.name;
    domain = domain;
    service_name = req.service_name;
    enabled = or_default req.enabled true;
    rpc_timeout = req.rpc_timeout;
    idl = record { kind = kind_or_zip req.idl.kind; url = req.idl.url; resolved_revision = [] };
    modify_index = 0;
  }
  map_err bad_app (validate p a)
  ok a

-- A new source replaces the old one, but for the revision.
unfoldable pub set_source : Platform → Option ImportSource → App → Result AdminError App
set_source p none a = ok a
set_source p (some source) a = map_err bad_app (validate_download_url p source.url) >>= λ u.
    ok (record a {
      idl = record {
        kind = kind_or_zip source.kind;
        url = source.url;
        resolved_revision = a.idl.resolved_revision;
      };
    })

-- UpdateAppWithRequest: the application as the request changes it.
unfoldable pub changed_app : Platform → UpdateRequest → App → Result AdminError App
unfolding set_source
changed_app p req a = do
  a' ← set_source p req.idl (record a {
    domain = or_default req.domain a.domain;
    service_name = or_default req.service_name a.service_name;
    rpc_timeout = or_default req.rpc_timeout a.rpc_timeout;
    enabled = or_default req.enabled a.enabled;
  })
  domain ← map_err bad_domain (normalize_domain p a'.domain)
  map_err bad_app (validate p (record a' { domain = domain }))
  ok (record a' { domain = domain; idl = record a'.idl { url = [] } })
