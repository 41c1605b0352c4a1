-- ===== src/Router/Names.antt =====
-- internal/router/table.go: the targets of a table belong to the applications that it was built from.
use xuandu_gateway.Prelude.{
  ◌≡◌, sym, ◌∙◌, subst, inl, inr, true, some, List, [], ◌∷◌, ◌++◌, Text, ==_refl, mem_text,
  sort_texts, Dict, lookup, keys, or_default, ok, All, All-append, All-mono, All-at, Option-cases,
  Result-cases, >>=-eq-ok, arith,
}
use xuandu_gateway.Prelude.Sorted.{mem-sort_texts}
use xuandu_gateway.Idl.Ast.{Route}
use xuandu_gateway.Router.{
  Target, KitexRouter, Table, Owners, add_route, add_routes, add_apps, build, match_route, patterns,
}

abbrev IsNamed : List Text → Target → Type 0
IsNamed names t = mem_text t.app_name names ≡ true

add_route-IsNamed :
    (k : KitexRouter) (names : List Text) (name : Text) (r : Route) (s s' : Owners × Table)
    → mem_text name names ≡ true
    → add_route k name r s ≡ ok s'
    → All (IsNamed names) s.1.targets
    → All (IsNamed names) s'.1.targets
unfolding add_route
add_route-IsNamed k names name r s s' here e h =
    let new : Target = record { app_name = name; route = r } in
    let grown : s'.1.targets ≡ s.1.targets ++ (new ∷ []) = ground arith in
    subst (All (IsNamed names)) (sym grown)
      (All-append (IsNamed names) s.1.targets (new ∷ []) h (here, tt))

add_routes-IsNamed :
    (k : KitexRouter) (names : List Text) (name : Text) (rs : List Route) (s s' : Owners × Table)
    → mem_text name names ≡ true
    → add_routes k name rs s ≡ ok s'
    → All (IsNamed names) s.1.targets
    → All (IsNamed names) s'.1.targets
unfolding add_routes
add_routes-IsNamed k names name [] s s' here e h =
    let same : s.1.targets ≡ s'.1.targets = ground arith in subst (All (IsNamed names)) same h
add_routes-IsNamed k names name (r ∷ rs) s s' here e h =
    let (t, first, rest) = >>=-eq-ok (add_route k name r s) _ e in
    add_routes-IsNamed k names name rs t s' here rest
      (add_route-IsNamed k names name r s t here first h)

add_apps-IsNamed :
    (k : KitexRouter) (all_names : List Text) (apps : Dict (List Route)) (names : List Text)
    (s s' : Owners × Table)
    → All (λ n. mem_text n all_names ≡ true) names
    → add_apps k apps names s ≡ ok s'
    → All (IsNamed all_names) s.1.targets
    → All (IsNamed all_names) s'.1.targets
unfolding add_apps
add_apps-IsNamed k all_names apps [] s s' here e h =
    let same : s.1.targets ≡ s'.1.targets = ground arith in subst (All (IsNamed all_names)) same h
add_apps-IsNamed k all_names apps (name ∷ names) s s' (this, here) e h =
    let rs = or_default (lookup name apps) [] in
    let (t, first, rest) = >>=-eq-ok (add_routes k name rs s) _ e in
    add_apps-IsNamed k all_names apps names t s' here rest
      (add_routes-IsNamed k all_names name rs s t this first h)

members : (names : List Text) → All (λ n. mem_text n names ≡ true) names
unfolding mem_text
members [] = tt
members (n ∷ names) = (
  ground (arith, ==_refl n),
  All-mono (λ j. mem_text j names ≡ true) (λ j h. ground (arith, h)) names (members names),
)

-- Every target of a table that Build accepts names one of the applications of the map.
build-IsNamed :
    (k : KitexRouter) (apps : Dict (List Route)) (t : Table)
    → build k apps ≡ ok t
    → All (λ target. mem_text target.app_name (keys apps) ≡ true) t.targets
unfolding build
build-IsNamed k apps t e =
    let names = sort_texts (keys apps) in
    let start : Owners × Table = ([], record { targets = [] }) in
    elim (Result-cases (add_apps k apps names start)) [
      | inr (f, bad) ↦ absurd (ground arith)
      | inl ((seen, u), added) ↦
          let whole =
            add_apps-IsNamed k names apps names start (seen, u) (members names) added tt in
          let same : u.targets ≡ t.targets = ground arith in
          All-mono (IsNamed names) (λ x h. sym (mem-sort_texts x.app_name (keys apps)) ∙ h)
            t.targets (subst (All (IsNamed names)) same whole)
    ]

-- What a table finds is the target of one of the applications of the map.
pub match-named :
    (k : KitexRouter) (apps : Dict (List Route)) (t : Table) (method path : Text) (target : Target)
    → build k apps ≡ ok t
    → match_route k t method path ≡ some target
    → mem_text target.app_name (keys apps) ≡ true
unfolding match_route
match-named k apps t method path target made found =
    elim (Option-cases (k.find (patterns t) method path)) [
      | inl missing ↦ absurd (ground arith)
      | inr (i, at) ↦
          All-at (λ x. mem_text x.app_name (keys apps) ≡ true) t.targets i target
            (build-IsNamed k apps t made) (ground arith)
    ]
