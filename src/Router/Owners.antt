-- ===== src/Router/Owners.antt =====
-- internal/router/table.go: a table has each method and path once.
use xuandu_gateway.Prelude.{
  ◌≡◌, refl, inl, inr, false, none, List, [], ◌∷◌, ◌++◌, Text, eq_iff, mem_text, mem-append,
  sort_texts, Dict, lookup, keys, or_default, Result, ok, err, IsDistinct, Result-cases,
  Option-cases, Bool-cases, >>=-eq-ok, arith,
}
use xuandu_gateway.Idl.Ast.{Route}
use xuandu_gateway.Idl.Routes.{route_key}
use xuandu_gateway.Router.{
  Target, KitexRouter, patterns, Table, RouterError, Owners, supported, add_route, add_routes,
  add_apps, build,
}

abbrev pub route_keys : List Target → List Text
route_keys [] = []
route_keys (t ∷ ts) = route_key t.route.http_method t.route.path ∷ route_keys ts

-- Every key of the table is owned, the keys are distinct, and the methods are supported.
record IsOwned (s : Owners × Table) : Type 0 where
  distinct : IsDistinct (route_keys s.1.targets)
  covered : (k : Text) → lookup k s.0 ≡ none → mem_text k (route_keys s.1.targets) ≡ false

pub route_keys-append :
    (xs ys : List Target) → route_keys (xs ++ ys) ≡ route_keys xs ++ route_keys ys
route_keys-append [] ys = refl
route_keys-append (x ∷ xs) ys = rw (route_keys-append xs ys)

IsDistinct-snoc :
    (xs : List Text) (k : Text)
    → IsDistinct xs
    → mem_text k xs ≡ false
    → IsDistinct (xs ++ (k ∷ []))
unfolding mem_text
IsDistinct-snoc [] k d h = (refl, tt)
IsDistinct-snoc (x ∷ xs) k d h = (
  ground (arith, mem-append x xs (k ∷ []), eq_iff x k, eq_iff k x),
  IsDistinct-snoc xs k d.1 (ground arith),
)

abbrev Keeps : Result RouterError (Owners × Table) → Type 0
Keeps (err e) = Unit
Keeps (ok s) = IsOwned s

push-IsOwned :
    (name : Text) (r : Route) (seen : Owners) (t : Table)
    → IsOwned (seen, t)
    → lookup (route_key r.http_method r.path) seen ≡ none
    → IsOwned (
      (route_key r.http_method r.path, name) ∷ seen,
      record { targets = t.targets ++ (record { app_name = name; route = r } ∷ []) },
    )
unfolding mem_text lookup
push-IsOwned name r seen t h new = record {
  distinct =
      rw (route_keys-append t.targets _)
        (IsDistinct-snoc (route_keys t.targets) _ h.distinct (h.covered _ new));
  covered = λ j absent. rw (route_keys-append t.targets _) (
      ground (
        arith,
        mem-append j (route_keys t.targets) (route_key r.http_method r.path ∷ []),
        h.covered j,
        eq_iff (route_key r.http_method r.path) j,
        eq_iff j (route_key r.http_method r.path),
      ));
}

add_route-Keeps :
    (k : KitexRouter) (name : Text) (r : Route) (seen : Owners) (t : Table)
    → IsOwned (seen, t)
    → Keeps (add_route k name r (seen, t))
unfolding add_route
add_route-Keeps k name r seen t h =
    elim (Option-cases (lookup (route_key r.http_method r.path) seen)) [
      | inr (owner, e) ↦ rw (e, Keeps, add_route) tt
      | inl e ↦
          rw (e, Keeps, add_route)
            (elim (Bool-cases (supported r.http_method)) [
              | inr no_method ↦ rw (no_method, Keeps) tt
              | inl good ↦
                  rw (good, Keeps)
                    (elim (Bool-cases
                      (k.panics (patterns t) (record { method = r.http_method; path = r.path }))) [
                        | inl bad ↦ rw (bad, Keeps) tt
                        | inr fine ↦ rw (fine, Keeps) (push-IsOwned name r seen t h e)
                      ])
            ])
    ]

add_routes-Keeps :
    (k : KitexRouter) (name : Text) (rs : List Route) (s : Owners × Table)
    → IsOwned s
    → Keeps (add_routes k name rs s)
unfolding add_routes
add_routes-Keeps k name [] s h = h
add_routes-Keeps k name (r ∷ rs) (seen, t) h =
    let kept : Keeps (add_route k name r (seen, t)) = add_route-Keeps k name r seen t h in
    elim (Result-cases (add_route k name r (seen, t))) [
      | inr (x, e) ↦ rw e tt
      | inl (s', e) ↦ rw e (add_routes-Keeps k name rs s' (rw e at kept))
    ]

add_apps-Keeps :
    (k : KitexRouter) (apps : Dict (List Route)) (names : List Text) (s : Owners × Table)
    → IsOwned s
    → Keeps (add_apps k apps names s)
unfolding add_apps
add_apps-Keeps k apps [] s h = h
add_apps-Keeps k apps (name ∷ names) s h =
    let rs = or_default (lookup name apps) [] in
    let kept : Keeps (add_routes k name rs s) = add_routes-Keeps k name rs s h in
    elim (Result-cases (add_routes k name rs s)) [
      | inr (x, e) ↦ rw e tt
      | inl (s', e) ↦ rw e (add_apps-Keeps k apps names s' (rw e at kept))
    ]

-- A table that Build returns has no method and path twice, whichever applications claim them.
pub build-IsDistinct :
    (k : KitexRouter) (apps : Dict (List Route)) (t : Table)
    → build k apps ≡ ok t
    → IsDistinct (route_keys t.targets)
unfolding build
build-IsDistinct k apps t e =
    let ((seen, t'), added, same) =
      >>=-eq-ok (add_apps k apps (sort_texts (keys apps)) ([], record { targets = [] })) _ e in
    let kept : Keeps (add_apps k apps (sort_texts (keys apps)) ([], record { targets = [] })) =
      add_apps-Keeps k apps (sort_texts (keys apps)) ([], record { targets = [] })
        (record { distinct = tt; covered = λ j h. unfold mem_text in refl }) in
    let owned : IsOwned (seen, t') = rw added at kept in ground (arith, owned.distinct)
