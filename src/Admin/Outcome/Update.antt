-- ===== src/Admin/Outcome/Update.antt =====
-- internal/admin/service.go: what is stored and published when UpdateAppWithRequest returns.
use xuandu_gateway.Prelude.{
  ℕ, ◌≡◌, ◌⊎◌, Bool, true, false, Option, none, some, Text, Result, ok, err, map_err, >>=-eq-ok,
  arith, or_default, is_some,
}
use xuandu_gateway.Metadata.Domain.{normalize_domain}
use xuandu_gateway.Metadata.Model.{App, validate, validate_download_url}
use xuandu_gateway.Archive.{Revision}
use xuandu_gateway.Platform.{Platform}
use xuandu_gateway.Admin.{
  AdminError, Deps, State, runtime_of, pinned_app, bad_domain, bad_app, store,
}
use xuandu_gateway.Admin.Requests.{
  ImportSource, UpdateRequest, UpdateResult, changed_app, set_source,
}
use xuandu_gateway.Admin.Reconcile.{refresh}
use xuandu_gateway.Admin.Operations.{route_count, source_revision}
use xuandu_gateway.Admin.Outcome.Build.{SameCurrent}
use xuandu_gateway.Admin.Outcome.Install.{IsWritten}

-- What UpdateAppWithRequest returns, `old` being the revision before it.
abbrev result_of : Bool → Text → Text → ℕ → UpdateResult
result_of changed old new routes = record {
  changed = changed;
  old_revision = old;
  new_revision = new;
  route_count = routes;
}

set_source-index :
    (p : Platform) (source : Option ImportSource) (a b : App)
    → set_source p source a ≡ ok b
    → (b.modify_index ≡ a.modify_index) × (b.catalog_index ≡ a.catalog_index)
unfolding set_source
set_source-index p none a b e = ground arith
set_source-index p (some source) a b e =
    let (u, checked, last) = >>=-eq-ok (map_err bad_app (validate_download_url p source.url)) _ e in
    ground (arith, last)

-- A change leaves the indices, on which the write rests.
pub changed_app-indices :
    (p : Platform) (req : UpdateRequest) (a b : App)
    → changed_app p req a ≡ ok b
    → (b.modify_index ≡ a.modify_index) × (b.catalog_index ≡ a.catalog_index)
unfolding changed_app
changed_app-indices p req a b e =
    let start : App = record a {
      domain = or_default req.domain a.domain;
      service_name = or_default req.service_name a.service_name;
      rpc_timeout = or_default req.rpc_timeout a.rpc_timeout;
      enabled = or_default req.enabled a.enabled;
    } in
    let (a', sourced, e1) = >>=-eq-ok (set_source p req.idl start) _ e in
    let (domain, parsed, e2) = >>=-eq-ok (map_err bad_domain (normalize_domain p a'.domain)) _ e1 in
    let (u, checked, last) = >>=-eq-ok (map_err bad_app (validate p _)) _ e2 in
    ground (arith, set_source-index p req.idl start a' sourced, last)

-- The same application but for the indices.
pub record SameApp (a b : App) : Type 0 where
  pub name : a.name ≡ b.name
  pub domain : a.domain ≡ b.domain
  pub service_name : a.service_name ≡ b.service_name
  pub enabled : a.enabled ≡ b.enabled
  pub rpc_timeout : a.rpc_timeout ≡ b.rpc_timeout
  pub kind : a.idl.kind ≡ b.idl.kind
  pub url : a.idl.url ≡ b.idl.url
  pub revision : a.idl.resolved_revision ≡ b.idl.resolved_revision

module _ {W : Type 0} (d : Deps W) where
  -- There is nothing to do: the request changes no field, its revision is the one of the application,
  -- which has a runtime or is not to have one.
  pub record IsIdle (name : Text) (original b : App) (source : Revision) (r : UpdateResult)
      (s : State W) : Type 0 where
    pub same_app : SameApp original b
    pub same_revision : source.digest ≡ original.idl.resolved_revision
    pub served : (is_some (runtime_of s name) ≡ true) ⊎ (b.enabled ≡ false)
    pub reported : r.new_revision ≡ original.idl.resolved_revision

  -- The ways in which an update of the application `original` ends: with an error and the snapshot as
  -- it was; with nothing to do; or with the change written over the version that it was made from, and
  -- served.
  pub data Updated (name : Text) (req : UpdateRequest) (original : App) (s s' : State W)
      : Result AdminError UpdateResult → Type 0 where
    failed :
        (e : AdminError)
        → s'.manager.current ≡ s.manager.current
        → Updated name req original s s' (err e)
    unchanged :
        (r : UpdateResult) (b : App) (source : Revision)
        → r.changed ≡ false
        → changed_app d.platform req original ≡ ok b
        → source_revision d req original.idl.resolved_revision s.world ≡ ok source
        → IsIdle name original b source r s
        → s'.manager ≡ s.manager
        → s'.world ≡ s.world
        → Updated name req original s s' (ok r)
    changed :
        (r : UpdateResult) (b : App) (source : Revision)
        → r.changed ≡ true
        → changed_app d.platform req original ≡ ok b
        → source_revision d req original.idl.resolved_revision s.world ≡ ok source
        → r.new_revision ≡ source.digest
        → (b.modify_index ≡ original.modify_index) × (b.catalog_index ≡ original.catalog_index)
        → IsWritten d name (pinned_app b r.new_revision) s'
        → Updated name req original s s' (ok r)

  abbrev UpdatedIn :
      Text → UpdateRequest → App → State W → State W × Result AdminError UpdateResult → Type 0
  UpdatedIn name req original s out = Updated name req original s out.0 out.1

  -- What UpdateAppWithRequest has done when it returns: an error before the update itself leaves the
  -- snapshot of the state before, or that of the refresh.
  abbrev pub IsUpdated :
      Text → UpdateRequest → State W → State W × Result AdminError UpdateResult → Type 0
  IsUpdated name req s (s', err e) = SameCurrent s s' ⊎ SameCurrent (refresh d name s).0 s'
  IsUpdated name req s (s', ok r) =
      (a : App) × (epoch : ℕ) × (d.store.get name (refresh d name s).0.world ≡ ok a)
      × ((refresh d name s).1 ≡ ok epoch)
      × Updated name req (record a { catalog_index = epoch }) (refresh d name s).0 s' (ok r)
