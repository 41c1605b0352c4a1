-- ===== src/Admin.antt =====
-- internal/admin/service.go: the state of the administration service, what it calls, and the steps
-- that its operations share. `W` is the state of the outside: the metadata store, the downloads and
-- the clock. The service lock makes each operation one step; a deadline or a cancelled context shows
-- as a failure of the call that it interrupts.
pub mod Reconcile
pub mod Accounts
pub mod Protocol
pub mod Desired
pub mod Requests
pub mod Operations
pub mod Views
pub mod Life
pub mod Outcome
pub mod Wired
use xuandu_gateway.Prelude.{
  ℕ, suc, Bool, true, false, not, ◌&&◌, Option, none, some, is_some, List, [], ◌∷◌, Text, bytes,
  ◌==◌, Dict, lookup, put, Result, ok, err, ◌>>=◌, map_err, if◌then◌else◌, eqb, length,
}
use xuandu_gateway.Platform.{Platform}
use xuandu_gateway.Idl.Ast.{Parser, Bundle, Route, IdlError}
use xuandu_gateway.Idl.Loader.{load_archive}
use xuandu_gateway.Archive.{Revision, ArchiveError, Download, resolve}
use xuandu_gateway.Metadata.Backend.{Store}
use xuandu_gateway.Metadata.Contracts.{ContractError}
use xuandu_gateway.Metadata.Model.{App, IdlSource, ModelError}
use xuandu_gateway.Metadata.Domain.{DomainError}
use xuandu_gateway.Metadata.Store.{StoreError}
use xuandu_gateway.Router.{KitexRouter}
use xuandu_gateway.Runtime.Heap.{Info, Cell, Address, Heap, update}
use xuandu_gateway.Runtime.Manager.{Manager, PublishError, publish, close_runtime}

pub data AdminError : Type 0 where
  shutting_down already_exists not_converged exact_revision_required build_failed : AdminError
  bad_domain : DomainError → AdminError
  bad_app : ModelError → AdminError
  store : StoreError → AdminError
  contract : ContractError → AdminError
  fetch : ArchiveError → AdminError
  idl : IdlError → AdminError
  publication : PublishError → AdminError

-- Status
pub record Status : Type 0 where
  pub current_revision : Text
  pub target_revision : Text
  pub runtime_status : Text
  pub route_count : ℕ
  pub last_update_time : ℕ
  pub last_update_result : Text

abbrev pub no_status : Status
no_status = record {
  current_revision = [];
  target_revision = [];
  runtime_status = [];
  route_count = 0;
  last_update_time = 0;
  last_update_result = [];
}

-- The fields of Service that are set once. `build` is RuntimeBuilder.Build, which allocates its
-- result; `fetch` is the HTTP client of the fetcher, `now` the clock.
pub record Deps (W : Type 0) : Type 0 where
  pub platform : Platform
  pub router : KitexRouter
  pub parse : Parser
  pub store : Store W
  pub fetch : W → Text → Option Download
  pub build : App → Revision → List Bundle → List Route → W → Option Info
  pub now : W → ℕ

-- The runtimes that have been built have the addresses below `fresh`.
pub record State (W : Type 0) : Type 0 where
  pub world : W
  pub manager : Manager
  pub fresh : Address
  pub status : Dict Status
  pub loaded : Bool
  pub stopping : Bool

abbrev pub new_cell : Info → Cell
new_cell info = record { info = info; refs = 0; retired = false; closed = false }

abbrev pub eq_bool : Bool → Bool → Bool
eq_bool true b = b
eq_bool false b = not b

-- same: all fields but the indices.
unfoldable pub same : App → App → Bool
same a b =
    a.name == b.name
    && a.domain == b.domain
    && a.service_name == b.service_name
    && eq_bool a.enabled b.enabled
    && a.rpc_timeout == b.rpc_timeout
    && a.idl.kind == b.idl.kind
    && a.idl.url == b.idl.url
    && a.idl.resolved_revision == b.idl.resolved_revision

-- The contract of an application with its revision set, and the URL cleared.
unfoldable pub pinned_app : App → Text → App
pinned_app a digest = record a { idl = record a.idl { url = []; resolved_revision = digest } }

-- `a.Enabled`: what an update publishes for a candidate.
abbrev pub next_of : App → Address → Option Address
next_of a r = if a.enabled then some r else none

unfoldable pub outcome_of : App → Bool → Text × Text
outcome_of a failed =
    if failed
    then (if a.idl.kind == bytes "zip" && a.domain == []
        then (bytes "unconfigured", bytes "application domain required")
        else (bytes "degraded", bytes "build or publication failed"))
    else (if a.enabled then bytes "ready" else bytes "disabled", bytes "success")

module _ {W : Type 0} where
  abbrev pub runtime_of : State W → Text → Option Address
  runtime_of s name = lookup name s.manager.current.runtimes

  abbrev pub info_of : State W → Address → Info
  info_of s r = (s.manager.heap r).info

  abbrev pub with_world : W → State W → State W
  with_world w s = record s { world = w }

  -- The allocation in Builder.Build.
  unfoldable pub allocate : Info → State W → State W × Address
  unfolding update
  allocate info s = (
    record s {
      manager = record s.manager { heap = update s.manager.heap s.fresh (new_cell info) };
      fresh = suc s.fresh;
    },
    s.fresh,
  )

  -- `candidate.Close()`
  unfoldable pub discard : Address → State W → State W
  unfolding close_runtime
  discard r s = record s { manager = close_runtime r s.manager }

  module _ (d : Deps W) where
    unfoldable pub status_of : App → Bool → State W → Status
    unfolding outcome_of
    status_of a failed s =
        let (state, result) = outcome_of a failed in
        let live = runtime_of s a.name in
        record {
          current_revision = elim live [ none ↦ [] | some r ↦ (info_of s r).revision ];
          target_revision = a.idl.resolved_revision;
          runtime_status = state;
          route_count = elim live [ none ↦ 0 | some r ↦ length (info_of s r).routes ];
          last_update_time = d.now s.world;
          last_update_result = result;
        }

    -- `record`: an update of the application has ended, with an error or without.
    unfoldable pub note : App → Bool → State W → State W
    unfolding status_of
    note a failed s = record s { status = put a.name (status_of a failed s) s.status }

    -- Manager.Publish
    unfoldable pub publish_app :
        (W → W × Bool) → Text → Option Address → State W → State W × Result AdminError (Unit {0})
    unfolding publish
    publish_app persist name next s =
        let ((w, m), r) = publish d.platform d.router persist name next s.world s.manager in
        (record s { world = w; manager = m }, map_err publication r)

    -- RemoveApp and ReplaceApp: there is nothing to persist.
    unfoldable pub republish :
        Text → Option Address → State W → State W × Result AdminError (Unit {0})
    unfolding publish_app
    republish name next s = publish_app (λ w. (w, true)) name next s

    -- LoadArchive and Builder.Build.
    unfoldable pub compile : App → Revision → W → Result AdminError (Info × List Route)
    compile a r w = do
      (bundles, routes) ← map_err idl (load_archive d.parse r.files)
      elim (d.build a r bundles routes w) [
        | none ↦ err build_failed
        | some info ↦ ok (info, routes)
      ]

    -- The revision to build: that of the URL, or the stored one with the digest.
    unfoldable pub revision_for : App → Text → W → Result AdminError Revision
    revision_for a digest w =
        if digest == []
        then map_err fetch (resolve d.platform (d.fetch w) a.idl.url [])
        else map_err contract (d.store.get_contract digest w)

    -- `build` after the candidate has been made: a downloaded revision is stored.
    unfoldable pub keep_contract :
        Text → Revision → Address → State W → State W × Result AdminError Address
    unfolding discard
    keep_contract digest r candidate s =
        if digest == []
        then (let (w, saved) = d.store.put_contract r s.world in
            elim saved [
              | err e ↦ (discard candidate (with_world w s), err (contract e))
              | ok u ↦ (with_world w s, ok candidate)
            ])
        else (s, ok candidate)

    -- `build`; the second result is the application as it has been changed.
    unfoldable pub build : App → Text → State W → State W × (App × Result AdminError Address)
    unfolding compile revision_for keep_contract allocate pinned_app
    build a digest s = elim (revision_for a digest s.world) [
      | err e ↦ (s, (a, err e))
      | ok r ↦
          let a' = pinned_app a r.digest in
          elim (compile a' r s.world) [
            | err e ↦ (s, (a', err e))
            | ok (info, routes) ↦
                let (s1, candidate) = allocate info s in
                let (s2, built) = keep_contract digest r candidate s1 in (s2, (a', built))
          ]
    ]
