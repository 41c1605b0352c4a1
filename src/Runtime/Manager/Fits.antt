-- ===== src/Runtime/Manager/Fits.antt =====
-- internal/runtime/snapshot.go: which runtimes Publish can make a snapshot of.
use xuandu_gateway.Prelude.{
  ◌≡◌, refl, inl, inr, true, false, none, [], ◌∷◌, Text, Dict, put, ok, is_ok, map_err, map_err-ok,
  All, Result-cases, >>=-eq-ok, arith,
}
use xuandu_gateway.Prelude.Maps.{All-remove}
use xuandu_gateway.Platform.{Platform}
use xuandu_gateway.Metadata.Domain.{normalize_domain}
use xuandu_gateway.Router.{KitexRouter, build}
use xuandu_gateway.Runtime.Heap.{Address, Heap, Info}
use xuandu_gateway.Runtime.Manager.{
  Manager, Plan, add_app, plan_step, plan_tables, replace_runtime, bad_domain, bad_routes, publish,
}
use xuandu_gateway.Runtime.Manager.Effect.{no_plan}

module _ (p : Platform) (k : KitexRouter) where
  -- The domain can be normalised, and the routes make a table.
  pub record Fits (name : Text) (info : Info) : Type 0 where
    pub domain_ok : is_ok (normalize_domain p info.config.domain) ≡ true
    pub routes_ok : is_ok (build k ((name, info.routes) ∷ [])) ≡ true

  abbrev pub FitsEntry : Heap → Text × Address → Type 0
  FitsEntry h e = Fits e.0 (h e.1).info

  plan_step-Fits :
      (name : Text) (info : Info) (plan plan' : Plan)
      → plan_step p k name info plan ≡ ok plan'
      → Fits name info
  unfolding plan_step
  plan_step-Fits name info plan plan' e =
      let (domain, parsed, e1) =
        >>=-eq-ok (map_err bad_domain (normalize_domain p info.config.domain)) _ e in
      let (table, made, e2) =
        >>=-eq-ok (map_err bad_routes (build k ((name, info.routes) ∷ []))) _ e1 in
      record {
        domain_ok = ground (arith, map_err-ok bad_domain _ parsed);
        routes_ok = ground (arith, map_err-ok bad_routes _ made);
      }

  -- The runtimes of a plan fit.
  pub plan_tables-Fits :
      (h : Heap) (rs : Dict Address) (plan plan' : Plan)
      → plan_tables p k h rs plan ≡ ok plan'
      → All (FitsEntry h) rs
  unfolding plan_tables
  plan_tables-Fits h [] plan plan' e = tt
  plan_tables-Fits h ((name, r) ∷ rs) plan plan' e =
      let (mid, first, rest) = >>=-eq-ok (plan_step p k name (h r).info plan) _ e in
      (plan_step-Fits name (h r).info plan mid first, plan_tables-Fits h rs mid plan' rest)

  Fits-plan_step :
      (name : Text) (info : Info) (plan : Plan)
      → Fits name info
      → (plan' : Plan) × (plan_step p k name info plan ≡ ok plan')
  unfolding plan_step
  Fits-plan_step name info plan fits = elim (Result-cases (normalize_domain p info.config.domain)) [
    | inr (e, bad) ↦ absurd (ground (arith, fits.domain_ok))
    | inl (domain, parsed) ↦ elim (Result-cases (build k ((name, info.routes) ∷ []))) [
      | inr (e, bad) ↦ absurd (ground (arith, fits.routes_ok))
      | inl (table, made) ↦
          let plan' : Plan = record {
            routes = put name table plan.routes;
            domains = add_app domain name plan.domains;
          } in
          (plan', ground (arith, parsed, made))
    ]
  ]

  -- Runtimes that fit have a plan.
  pub Fits-plan_tables :
      (h : Heap) (rs : Dict Address) (plan : Plan)
      → All (FitsEntry h) rs
      → (plan' : Plan) × (plan_tables p k h rs plan ≡ ok plan')
  unfolding plan_tables
  Fits-plan_tables h [] plan fits = (plan, refl)
  Fits-plan_tables h ((name, r) ∷ rs) plan (fits, more) =
      let (mid, first) = Fits-plan_step name (h r).info plan fits in
      let (plan', rest) = Fits-plan_tables h rs mid more in (plan', ground (arith, first, rest))

  -- A Publish that takes a runtime away and has nothing to persist does not fail while the manager is
  -- open.
  pub removal-ok :
      {W : Type 0} (name : Text) (w : W) (m : Manager)
      → m.closed ≡ false
      → All (FitsEntry m.heap) m.current.runtimes
      → (publish p k (λ v. (v, true)) name none w m).1 ≡ ok tt
  unfolding publish replace_runtime
  removal-ok name w m was fits =
      let (plan, planned) =
        Fits-plan_tables m.heap (replace_runtime name none m.current.runtimes) no_plan
          (All-remove (FitsEntry m.heap) name m.current.runtimes fits) in
      ground (arith, planned)
