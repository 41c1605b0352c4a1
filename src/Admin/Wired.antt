-- ===== src/Admin/Wired.antt =====
-- internal/app/wire.go wires the administration service with the Consul store, the HTTP fetcher and
-- the builder of internal/runtime/builder.go.
use xuandu_gateway.Prelude.{
  ℕ, ◌≡◌, ◌∙◌, ap, inl, inr, false, Option, none, some, List, [], ◌∷◌, Text, ok, err, ◌>>=◌,
  map_err, >>=-eq-ok, Result-cases, arith,
}
use xuandu_gateway.Platform.{Platform}
use xuandu_gateway.Idl.Ast.{Bundle, Route, Parser}
use xuandu_gateway.Archive.{Revision, Download}
use xuandu_gateway.Metadata.Backend.{Store}
use xuandu_gateway.Metadata.Model.{App}
use xuandu_gateway.Router.{KitexRouter}
use xuandu_gateway.Router
use xuandu_gateway.Runtime.Heap.{Info, Heap}
use xuandu_gateway.Runtime.Builder.{Kitex, MultiClient, bundle_loop, seal, build, info_for, routes}
use xuandu_gateway.Admin.{Deps}
use xuandu_gateway.Admin.Reconcile.{reconcile}
use xuandu_gateway.Admin.Desired.{BuildsConfig, Only, IsWanted}
use xuandu_gateway.Admin.Desired.Reconcile.{reconcile-IsWanted}
use xuandu_gateway.Admin.Life.{Event, new_service, live}
use xuandu_gateway.Admin.Life.Reached.{reached-IsSound}

build-config :
    (p : Platform) (k : KitexRouter) (parse : Parser) (x : Kitex) (a : App) (r : Revision)
    (bundles : List Bundle) (rs : List Route) {info : Info} {rest : MultiClient × Router.Table}
    → (build p k parse x a r bundles rs).1 ≡ ok (info, rest)
    → info.config ≡ a
unfolding build seal info_for
build-config p k parse x a r bundles rs {info = info} {rest = rest} e =
    elim (Result-cases (Router.build k ((a.name, rs) ∷ []))) [
      | inr (f, bad) ↦ absurd (ground arith)
      | inl (first, checked) ↦
          let start : MultiClient = record { clients = []; by_file = [] } in
          let (open_, (group, looped)) = bundle_loop p k parse x a bundles 0 [] start in
          elim (Result-cases (looped >>= λ u. seal p k a r rs group)) [
            | inr (f, bad) ↦ absurd (ground arith)
            | inl ((made, table), good) ↦
                let (u, through, sealed) = >>=-eq-ok looped _ good in
                let (t, built, last) =
                  >>=-eq-ok (map_err routes (Router.build k group.by_file)) _ sealed in
                ground (arith, last)
          ]
    ]

module _ {W : Type 0} (p : Platform) (k : KitexRouter) (parse : Parser) (kitex : W → Kitex) where
  -- Builder.Build, as the service calls it.
  unfoldable pub build_info : App → Revision → List Bundle → List Route → W → Option Info
  build_info a r bundles rs w = elim (build p k parse (kitex w) a r bundles rs).1 [
    | err e ↦ none
    | ok (info, rest) ↦ some info
  ]

  unfoldable pub wired : Store W → (W → Text → Option Download) → (W → ℕ) → Deps W
  unfolding build_info
  wired store fetch now = record {
    platform = p;
    router = k;
    parse = parse;
    store = store;
    fetch = fetch;
    build = build_info;
    now = now;
  }

  -- The builder keeps the application in the runtime.
  pub wired-BuildsConfig :
      (store : Store W) (fetch : W → Text → Option Download) (now : W → ℕ)
      → BuildsConfig (wired store fetch now)
  unfolding wired
  wired-BuildsConfig store fetch now a r bundles rs w info e =
      elim (Result-cases (build p k parse (kitex w) a r bundles rs).1) [
        | inr (f, bad) ↦ absurd (ground arith)
        | inl ((made, rest), built) ↦
            let same : info ≡ made = ground arith in
            ap (λ (i : Info). i.config) same
            ∙ build-config p k parse (kitex w) a r bundles rs {info = made} {rest = rest} built
      ]

  -- In every state that the wired service reaches and in which it is not stopping and its manager is
  -- open, a Reconcile leaves only runtimes that belong to an enabled application of the list with
  -- their name and their domain, whatever has failed before or fails now: a domain that an
  -- application has left is not served any more, even if the new revision cannot be built.
  pub reached_reconcile-IsWanted :
      (store : Store W) (fetch : W → Text → Option Download) (now : W → ℕ) (w : W) (h : Heap)
      (events : List (Event W)) (apps : List App)
      → let d = wired store fetch now in
        let s = live d events (new_service w h) in
        s.manager.closed ≡ false
        → s.stopping ≡ false
        → Only (IsWanted apps) (reconcile d apps s).manager
  reached_reconcile-IsWanted store fetch now w h events apps was working =
      let d = wired store fetch now in
      reconcile-IsWanted d (wired-BuildsConfig store fetch now) apps
        (live d events (new_service w h)) (reached-IsSound d w h events) was working
