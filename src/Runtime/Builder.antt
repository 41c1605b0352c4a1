-- ===== src/Runtime/Builder.antt =====
-- internal/runtime/builder.go and multi_client.go: the clients of a runtime, one for each bundle. A
-- provider, the codec around it and the client around that are one chain, which the number of its
-- bundle stands for: closing the outermost closes what it wraps.
pub mod Cleanup
pub mod Clients
use xuandu_gateway.Prelude.{
  ℕ, suc, Bool, true, false, not, ◌&&◌, Option, none, some, List, [], ◌∷◌, Text, Dict, lookup, put,
  values, or_default, Result, ok, err, ◌>>=◌, map_err, if◌then◌else◌, eqb, keep,
}
use xuandu_gateway.Platform.{Platform}
use xuandu_gateway.Idl.Ast.{Bundle, Route, Parser, IdlError}
use xuandu_gateway.Idl.Routes.{extract_routes}
use xuandu_gateway.Archive.{Revision}
use xuandu_gateway.Metadata.Model.{App, ModelError, validate}
use xuandu_gateway.Router.{KitexRouter, Table, Target, RouterError, match_route}
use xuandu_gateway.Router
use xuandu_gateway.Runtime.Heap.{Info}

-- A call of Kitex returns, fails or panics.
pub data Attempt : Type 0 where
  made failed panicked : Attempt

-- Kitex and the Consul resolver. `cancelled` is what ctx.Err() tells at the start and at the end of
-- the work on a bundle.
pub record Kitex : Type 0 where
  pub provider : Bundle → Attempt
  pub codec : Bundle → Attempt
  pub resolver : Attempt
  pub client : Text → Bundle → Attempt
  pub cancelled : Bundle → Bool × Bool

pub data BuildFailure : Type 0 where
  routes : RouterError → BuildFailure
  app : ModelError → BuildFailure
  extraction : IdlError → BuildFailure
  interrupted no_provider no_codec no_resolver no_client invalid_descriptor : BuildFailure

unfoldable pub close_chain : ℕ → List ℕ → List ℕ
close_chain n open_ = keep (λ m. not (eqb m n)) open_

-- What an attempt that has not succeeded returns, `e` being the error of one that has failed.
unfoldable pub refused_by : Attempt → BuildFailure → Option BuildFailure
refused_by made e = none
refused_by failed e = some e
refused_by panicked e = some invalid_descriptor

-- The error of buildOne after the provider has been made, if there is one.
unfoldable pub client_error : Kitex → App → Bundle → Option BuildFailure
unfolding refused_by
client_error x a b = elim (refused_by (x.codec b) no_codec) [
  | some e ↦ some e
  | none ↦ elim (refused_by x.resolver no_resolver) [
    | some e ↦ some e
    | none ↦ elim (refused_by (x.client a.service_name b) no_client) [
      | some e ↦ some e
      | none ↦ if (x.cancelled b).1 then some interrupted else none
    ]
  ]
]

unfoldable pub check_bundle :
    Platform → KitexRouter → Kitex → App → Bundle → List Route → Result BuildFailure (Unit {0})
unfolding refused_by
check_bundle p k x a b rs = map_err routes (Router.build k ((a.name, rs) ∷ [])) >>= λ table.
    (if (x.cancelled b).0 then err interrupted else ok tt) >>= λ u.
    map_err app (validate p a) >>= λ v. elim (refused_by (x.provider b) no_provider) [
      | some e ↦ err e
      | none ↦ ok tt
    ]

-- buildOne: the chain `n` is open afterwards exactly if there is no error.
unfoldable pub build_one :
    Platform
    → KitexRouter
    → Kitex
    → App
    → Bundle
    → List Route
    → ℕ
    → List ℕ
    → List ℕ × Result BuildFailure (Unit {0})
unfolding check_bundle client_error close_chain
build_one p k x a b rs n open_ = elim (check_bundle p k x a b rs) [
  | err e ↦ (open_, err e)
  | ok u ↦ elim (client_error x a b) [
    | some e ↦ (close_chain n (n ∷ open_), err e)
    | none ↦ (n ∷ open_, ok tt)
  ]
]

-- multiClient: the clients and the routes of its bundles.
pub record MultiClient : Type 0 where
  pub clients : Dict ℕ
  pub by_file : Dict (List Route)

-- The loop of Build over the bundles, the next chain being `n`.
unfoldable pub bundle_loop :
    Platform
    → KitexRouter
    → Parser
    → Kitex
    → App
    → List Bundle
    → ℕ
    → List ℕ
    → MultiClient
    → List ℕ × (MultiClient × Result BuildFailure (Unit {0}))
unfolding build_one
bundle_loop p k parse x a [] n open_ group = (open_, (group, ok tt))
bundle_loop p k parse x a (b ∷ bs) n open_ group = elim (extract_routes parse b) [
  | err e ↦ (open_, (group, err (extraction e)))
  | ok rs ↦
      let (open', one) = build_one p k x a b rs n open_ in
      elim one [
        | err e ↦ (open', (group, err e))
        | ok u ↦ bundle_loop p k parse x a bs (suc n) open' (record {
          clients = put b.main_path n group.clients;
          by_file = put b.main_path rs group.by_file;
        })
      ]
]

-- multiClient.Close
unfoldable pub close_group : List ℕ → List ℕ → List ℕ
unfolding close_chain
close_group [] open_ = open_
close_group (n ∷ ns) open_ = close_group ns (close_chain n open_)

-- The timeout of an application that has been validated is a duration.
unfoldable pub info_for : Platform → App → Revision → List Route → Info
info_for p a r rs = record {
  app_name = a.name;
  service_name = a.service_name;
  revision = r.digest;
  routes = rs;
  timeout = or_default (p.parse_duration a.rpc_timeout) 0;
  config = a;
}

-- The end of Build: the table of the group.
unfoldable pub seal :
    Platform
    → KitexRouter
    → App
    → Revision
    → List Route
    → MultiClient
    → Result BuildFailure (Info × Table)
unfolding info_for
seal p k a r rs group =
    map_err routes (Router.build k group.by_file) >>= λ table. ok (info_for p a r rs, table)

-- Build: the chains that are open afterwards, and the runtime with the routes of its client.
unfoldable pub build :
    Platform
    → KitexRouter
    → Parser
    → Kitex
    → App
    → Revision
    → List Bundle
    → List Route
    → List ℕ × Result BuildFailure (Info × (MultiClient × Table))
unfolding bundle_loop close_group seal
build p k parse x a r bundles rs = elim (Router.build k ((a.name, rs) ∷ [])) [
  | err e ↦ ([], err (routes e))
  | ok first ↦
      let start : MultiClient = record { clients = []; by_file = [] } in
      let (open_, (group, looped)) = bundle_loop p k parse x a bundles 0 [] start in
      let sealed = looped >>= λ u. seal p k a r rs group in
      elim sealed [
        | err e ↦ (close_group (values group.clients) open_, err e)
        | ok (info, table) ↦ (open_, ok (info, (group, table)))
      ]
]

-- multiClient.GenericCall: the client of the bundle that has the route, `none` without one.
unfoldable pub client_for : KitexRouter → MultiClient → Table → Text → Text → Option ℕ
client_for k group table method path = elim (match_route k table method path) [
  | none ↦ none
  | some target ↦ lookup target.app_name group.clients
]
