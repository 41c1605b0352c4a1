-- ===== src/Runtime/Manager/Tables.antt =====
-- internal/runtime/snapshot.go: the routes of a published snapshot lead to its runtimes.
use xuandu_gateway.Prelude.{
  map_err-ok, ◌≡◌, refl, sym, ap, subst, ◌∙◌, ◌⊎◌, inl, inr, Bool, true, Option, some, is_some,
  List, [], ◌∷◌, ◌++◌, Text, ◌==◌, eq_iff, Dict, lookup, put, lookup-put, or_default, sort_texts,
  insert_text, ok, map_err, All, All-append, Bool-cases, Result-cases, >>=-eq-ok, arith,
}
use xuandu_gateway.Platform.{Platform}
use xuandu_gateway.Idl.Ast.{Route}
use xuandu_gateway.Metadata.Domain.{normalize_domain}
use xuandu_gateway.Router.{
  Table, Target, KitexRouter, Owners, add_route, add_routes, add_apps, build,
}
use xuandu_gateway.Runtime.Heap.{Address, Heap, Info}
use xuandu_gateway.Runtime.Manager.{
  Snapshot, Manager, Plan, plan_step, plan_tables, bad_domain, bad_routes, commit_publish,
  replace_runtime, close_runtime, close_list, publish,
}

-- Every route of the table is one of the application.
abbrev pub BelongsTo : Text → Table → Type 0
BelongsTo name t = All (λ target. target.app_name ≡ name) t.targets

add_route-BelongsTo :
    (k : KitexRouter) (name : Text) (r : Route) (s s' : Owners × Table)
    → add_route k name r s ≡ ok s'
    → BelongsTo name s.1
    → BelongsTo name s'.1
unfolding add_route
add_route-BelongsTo k name r s s' e h =
    let new : Target = record { app_name = name; route = r } in
    let more = All-append (λ target. target.app_name ≡ name) s.1.targets (new ∷ []) h (refl, tt) in
    let grown : s'.1.targets ≡ s.1.targets ++ (new ∷ []) = ground arith in
    subst (All (λ target. target.app_name ≡ name)) (sym grown) more

add_routes-BelongsTo :
    (k : KitexRouter) (name : Text) (rs : List Route) (s s' : Owners × Table)
    → add_routes k name rs s ≡ ok s'
    → BelongsTo name s.1
    → BelongsTo name s'.1
unfolding add_routes
add_routes-BelongsTo k name [] s s' e h =
    let same : s.1.targets ≡ s'.1.targets = ground arith in
    subst (All (λ target. target.app_name ≡ name)) same h
add_routes-BelongsTo k name (r ∷ rs) s s' e h =
    let (t, first, rest) = >>=-eq-ok (add_route k name r s) _ e in
    add_routes-BelongsTo k name rs t s' rest (add_route-BelongsTo k name r s t first h)

build-BelongsTo :
    (k : KitexRouter) (name : Text) (rs : List Route) (t : Table)
    → build k ((name, rs) ∷ []) ≡ ok t
    → BelongsTo name t
unfolding build add_apps sort_texts insert_text lookup
build-BelongsTo k name rs t e =
    let start : Owners × Table = ([], record { targets = [] }) in
    let routes = or_default (lookup name ((name, rs) ∷ [])) [] in
    elim (Result-cases (add_routes k name routes start)) [
      | inr (f, bad) ↦ absurd (ground arith)
      | inl ((seen, u), added) ↦
          let whole = add_routes-BelongsTo k name routes start (seen, u) added tt in
          let same : u.targets ≡ t.targets = ground arith in
          subst (All (λ target. target.app_name ≡ name)) same whole
    ]

-- A table of a plan is that of a runtime, or was there before.
Planned : Dict Address → Plan → Plan → Type 0
Planned rs plan plan' =
    (name : Text) (t : Table)
    → lookup name plan'.routes ≡ some t
    → (lookup name plan.routes ≡ some t) ⊎ (BelongsTo name t × (is_some (lookup name rs) ≡ true))

plan_step-tables :
    (p : Platform) (k : KitexRouter) (name : Text) (info : Info) (plan plan' : Plan)
    → plan_step p k name info plan ≡ ok plan'
    → (t : Table) × BelongsTo name t × (plan'.routes ≡ put name t plan.routes)
unfolding plan_step
plan_step-tables p k name info plan plan' e =
    let (domain, parsed, e1) =
      >>=-eq-ok (map_err bad_domain (normalize_domain p info.config.domain)) _ e in
    let (table, built, e2) =
      >>=-eq-ok (map_err bad_routes (build k ((name, info.routes) ∷ []))) _ e1 in
    (table, build-BelongsTo k name info.routes table (map_err-ok bad_routes _ built), ground arith)

plan_tables-Planned :
    (p : Platform) (k : KitexRouter) (h : Heap) (rs : Dict Address) (plan plan' : Plan)
    → plan_tables p k h rs plan ≡ ok plan'
    → Planned rs plan plan'
unfolding plan_tables Planned lookup
plan_tables-Planned p k h [] plan plan' e n t found = inl (ground arith)
plan_tables-Planned p k h ((name, r) ∷ rs) plan plan' e n t found =
    let (mid, first, rest) = >>=-eq-ok (plan_step p k name (h r).info plan) _ e in
    let (u, belongs, grown) = plan_step-tables p k name (h r).info plan mid first in
    elim (plan_tables-Planned p k h rs mid plan' rest n t found) [
      | inr later ↦ inr (later.0, ground (arith, later.1))
      | inl was ↦ elim (Bool-cases (name == n)) [
        | inl hit ↦
            let is_it : u ≡ t = ground (arith, grown, lookup-put name n u plan.routes) in
            let at_n : name ≡ n = ground (arith, eq_iff name n) in
            inr
              (subst (λ o. BelongsTo o t) at_n (subst (BelongsTo name) is_it belongs), ground arith)
        | inr miss ↦ inl (ground (arith, grown, lookup-put name n u plan.routes))
      ]
    ]

-- Every table of the snapshot stands under an application that has a runtime, and leads to it.
abbrev pub IsRouted : Snapshot → Type 0
IsRouted s =
    (name : Text) (t : Table)
    → lookup name s.routes ≡ some t
    → BelongsTo name t × (is_some (lookup name s.runtimes) ≡ true)

planned-IsRouted :
    (p : Platform) (k : KitexRouter) (h : Heap) (rs : Dict Address) (plan : Plan)
    → plan_tables p k h rs (record { routes = []; domains = [] }) ≡ ok plan
    → (name : Text) (t : Table) → lookup name plan.routes ≡ some t
    → BelongsTo name t × (is_some (lookup name rs) ≡ true)
unfolding Planned lookup
planned-IsRouted p k h rs plan e name t found =
    elim (plan_tables-Planned p k h rs (record { routes = []; domains = [] }) plan e name t found) [
      | inl impossible ↦ cc
      | inr planned ↦ planned
    ]

pub close_list-current : (rs : List Address) (m : Manager) → (close_list rs m).current ≡ m.current
unfolding close_list close_runtime
close_list-current [] m = refl
close_list-current (r ∷ rs) m = close_list-current rs (close_runtime r m) ∙ refl

pub commit_publish-snapshot :
    (old : Snapshot) (name : Text) (next : Option Address) (plan : Plan) (m : Manager)
    → let s = (commit_publish old name next plan m).0.current in
      (s.routes ≡ plan.routes) × (s.runtimes ≡ replace_runtime name next old.runtimes)
unfolding commit_publish
commit_publish-snapshot old name next plan m = (ground arith, ground arith)

-- Publish, whatever its branch, leaves a snapshot in which each table stands under an application
-- that has a runtime, and every target of the table is one of that application.
pub publish-IsRouted :
    {W : Type 0} (p : Platform) (k : KitexRouter) (persist : W → W × Bool) (name : Text)
    (next : Option Address) (w : W) (m : Manager)
    → IsRouted m.current
    → IsRouted (publish p k persist name next w m).0.1.current
unfolding publish
publish-IsRouted p k persist name next w m routed =
    let after = (publish p k persist name next w m).0.1.current in
    elim (Bool-cases m.closed) [
      | inl shut ↦ subst IsRouted {x = m.current} {y = after} (ground arith) routed
      | inr open_ ↦
          elim (Result-cases (
            plan_tables p k m.heap (replace_runtime name next m.current.runtimes)
              (record { routes = []; domains = [] }))) [
                | inr (e, bad) ↦ subst IsRouted {x = m.current} {y = after} (ground arith) routed
                | inl (plan, planned) ↦ elim (Bool-cases (persist w).1) [
                  | inr lost ↦ subst IsRouted {x = m.current} {y = after} (ground arith) routed
                  | inl saved ↦
                      let out = commit_publish m.current name next plan m in
                      let is_out : out.0.current ≡ after =
                        ground (arith, close_list-current out.1 out.0) in
                      let (routes, runtimes) = commit_publish-snapshot m.current name next plan m in
                      subst IsRouted is_out λ n t found.
                        let r =
                          planned-IsRouted p k m.heap (replace_runtime name next m.current.runtimes)
                            plan planned n t (ap (lookup n) (sym routes) ∙ found) in
                        (r.0, ap (λ o. is_some (lookup n o)) runtimes ∙ r.1)
                ]
              ]
    ]
