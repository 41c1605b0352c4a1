-- ===== src/Examples/Admins.antt =====
-- Witnesses for internal/admin: a store that holds one application, and downloads of one archive.
use xuandu_gateway.Prelude.{
  ℕ, suc, ◌≡◌, refl, true, false, Option, none, some, List, [], ◌∷◌, Text, bytes, ok, arith, is_ok,
  lookup, ◌==◌, trim_suffix, to_lower, trim_space, split, sort_texts, mem_text, put, remove,
}
use xuandu_gateway.Archive.{Revision, Download}
use xuandu_gateway.Metadata.Backend.{Store}
use xuandu_gateway.Metadata.Domain.{normalize_domain}
use xuandu_gateway.Router
use xuandu_gateway.Runtime.Manager.Fits.{Fits}
use xuandu_gateway.Admin.Protocol.Sound.{IsSound}
use xuandu_gateway.Runtime.Builder.{Kitex, made}
use xuandu_gateway.Admin.{Deps, State, same}
use xuandu_gateway.Admin.Requests.{CreateRequest, UpdateRequest}
use xuandu_gateway.Admin.Reconcile.{refresh, reconcile}
use xuandu_gateway.Admin.Operations.{create_app, delete_app}
use xuandu_gateway.Admin.Protocol.{Accounts}
use xuandu_gateway.Admin.Desired.{Only, IsWanted}
use xuandu_gateway.Admin.Desired.Refresh.{Implements, refresh-Implements}
use xuandu_gateway.Admin.Life.{
  Event, creates, updates, deletes, reconciles, changes, leases, releases, others, new_service,
  live,
}
use xuandu_gateway.Admin.Life.Reached.{no_runtime_leaks}
use xuandu_gateway.Admin.Outcome.Create.{IsCreated, create_app-IsCreated}
use xuandu_gateway.Admin.Outcome.Delete.{IsDeleted, delete_app-IsDeleted}
use xuandu_gateway.Admin.Wired.{wired, wired-BuildsConfig, reached_reconcile-IsWanted}
use xuandu_gateway.Examples.World.{
  platform, digest, first_router, app_name, host, route, app, info, heap, snapshot, manager,
}
use xuandu_gateway.Examples.Archives.{parse}

abbrev revision : Revision
revision = record {
  archive = bytes "PK";
  digest = digest;
  files = (bytes "idl/a.thrift", bytes "main") ∷ [];
}

-- The world counts the writes.
abbrev store : Store ℕ
store = record {
  put_contract = λ r w. (w, ok tt);
  get_contract = λ d w. ok revision;
  get = λ name w. ok app;
  list = λ w. ok (app ∷ []);
  create = λ a w. (suc w, ok tt);
  compare_and_swap = λ a i w. (suc w, ok tt);
  delete = λ name i w. (suc w, ok tt);
  catalog = some (λ w. ok (app ∷ [], 5));
}

abbrev kitex : Kitex
kitex = record {
  provider = λ b. made;
  codec = λ b. made;
  resolver = made;
  client = λ name b. made;
  cancelled = λ b. (false, false);
}

abbrev fetch : ℕ → Text → Option Download
fetch w url = some (record { status = 200; content_length = 0; body = some (bytes "PK") })

abbrev deps : Deps ℕ
deps = wired platform first_router parse (λ w. kitex) store fetch (λ w. w)

abbrev create_request : CreateRequest
create_request = record {
  name = bytes "other";
  domain = host;
  service_name = bytes "s";
  rpc_timeout = bytes "1s";
  idl = record { kind = []; url = bytes "http://x/y.zip" };
  enabled = none;
}

abbrev update_request : UpdateRequest
update_request = record {
  domain = none;
  service_name = some (bytes "t");
  rpc_timeout = none;
  enabled = none;
  idl = none;
}

-- A catalog is published and leased; then the application is changed, deleted, and the lease given
-- back.
abbrev history : List (Event ℕ)
history =
    changes
    ∷ leases
    ∷ updates app_name update_request
    ∷ others 5
    ∷ deletes app_name
    ∷ releases snapshot
    ∷ creates create_request
    ∷ []

no_runtime_leaks_example : Accounts (live deps history (new_service 0 heap))
no_runtime_leaks_example = no_runtime_leaks deps 0 heap history

abbrev start : State ℕ
start = new_service 0 heap

create_app-IsCreated_example :
    IsCreated deps create_request start (create_app deps create_request start)
create_app-IsCreated_example =
    create_app-IsCreated deps
      (wired-BuildsConfig platform first_router parse (λ w. kitex) store fetch (λ w. w))
      create_request start

delete_app-IsDeleted_example : IsDeleted deps app_name start (delete_app deps app_name start)
delete_app-IsDeleted_example = delete_app-IsDeleted deps app_name start

abbrev before : List (Event ℕ)
before = reconciles (record app { enabled = false } ∷ []) ∷ leases ∷ []

open_before : (live deps before start).manager.closed ≡ false
unfolding live new_service remove lookup
open_before = refl

working_before : (live deps before start).stopping ≡ false
unfolding live new_service remove lookup
working_before = refl

reached_reconcile-IsWanted_example :
    Only (IsWanted (app ∷ [])) (reconcile deps (app ∷ []) (live deps before start)).manager
reached_reconcile-IsWanted_example =
    reached_reconcile-IsWanted platform first_router parse (λ w. kitex) store fetch (λ w. w) 0 heap
      before (app ∷ []) open_before working_before

-- The application is published.
abbrev running : State ℕ
running = record {
  world = 0;
  manager = manager;
  fresh = 8;
  status = [];
  loaded = true;
  stopping = false;
}

domain_fits : is_ok (normalize_domain platform host) ≡ true
unfolding normalize_domain trim_suffix to_lower trim_space split ◌==◌ bytes sort_texts mem_text
    lookup put same wired Router.build refresh
domain_fits = refl

routes_fit : is_ok (Router.build first_router ((app_name, route ∷ []) ∷ [])) ≡ true
unfolding Router.build sort_texts lookup ◌==◌ bytes mem_text wired put same refresh
routes_fit = refl

running-Fits : Fits platform first_router app_name info
running-Fits = record { domain_ok = domain_fits; routes_ok = routes_fit }

running-IsSound : IsSound deps 8 manager
unfolding wired lookup ◌==◌ bytes
running-IsSound = record { maps = (refl, tt); below = (omega arith, tt); fits = (running-Fits, tt) }

refreshes : (refresh deps [] running).1 ≡ ok 5
unfolding refresh ◌==◌ bytes wired lookup put same mem_text
refreshes = refl

refresh-Implements_example : Implements deps [] (app ∷ []) (refresh deps [] running).0
unfolding wired ◌==◌ bytes lookup
refresh-Implements_example =
    refresh-Implements deps []
      (wired-BuildsConfig platform first_router parse (λ w. kitex) store fetch (λ w. w)) running
      (λ w. ok (app ∷ [], 5)) (app ∷ []) 5 running-IsSound refl refl refl refl ((refl, refl), tt)
      refreshes
