-- ===== src/Router/Reference.antt =====
-- internal/router/table.go: Build against a description of its table as a whole.
use mathlib.Core.List.{append-nil, append_assoc}
use xuandu_gateway.Prelude.{
  ◌≡◌, refl, sym, ap, inl, inr, Bool, true, not, ◌&&◌, Option, none, some, is_some, List, [], ◌∷◌,
  ◌++◌, map, Text, eq_iff, mem_text, mem-append, sort_texts, Dict, lookup, keys, or_default, all,
  Result, ok, err, ◌>>=◌, if◌then◌else◌, Result-cases, Option-cases, arith,
}
use xuandu_gateway.Idl.Ast.{Route}
use xuandu_gateway.Idl.Routes.{route_key}
use xuandu_gateway.Router.{
  Target, KitexRouter, Table, RouterError, Owners, pattern_of, patterns, supported, add_route,
  add_routes, add_apps, build,
}
use xuandu_gateway.Router.Owners.{route_keys, route_keys-append}

unfoldable pub targets_for : Text → List Route → List Target
targets_for name [] = []
targets_for name (r ∷ rs) = record { app_name = name; route = r } ∷ targets_for name rs

-- The routes of the applications, in the order of the names.
unfoldable pub all_targets : Dict (List Route) → List Text → List Target
unfolding targets_for
all_targets apps [] = []
all_targets apps (name ∷ names) =
    targets_for name (or_default (lookup name apps) []) ++ all_targets apps names

unfoldable pub distinct_texts : List Text → Bool
distinct_texts [] = true
distinct_texts (k ∷ ks) = not (mem_text k ks) && distinct_texts ks

-- Kitex takes the patterns one after another, `before` being those that it has.
unfoldable pub handled : KitexRouter → List Target → List Target → Bool
handled k before [] = true
handled k before (t ∷ ts) =
    not (k.panics (map pattern_of before) (pattern_of t)) && handled k (before ++ (t ∷ [])) ts

abbrev pub all_supported : List Target → Bool
all_supported ts = all (λ t. supported t.route.http_method) ts

-- The table of all routes, if none appears twice and each can be registered.
unfoldable pub reference : KitexRouter → Dict (List Route) → Option Table
unfolding all_targets distinct_texts handled
reference k apps =
    let ts = all_targets apps (sort_texts (keys apps)) in
    if (distinct_texts (route_keys ts) && all_supported ts) && handled k [] ts
    then some (record { targets = ts })
    else none

abbrev pub to_option : {E A : Type 0} → Result E A → Option A
to_option (err e) = none
to_option (ok a) = some a

abbrev key_of : Target → Text
key_of t = route_key t.route.http_method t.route.path

unfoldable add_all :
    KitexRouter → List Target → Owners × Table → Result RouterError (Owners × Table)
add_all k [] s = ok s
add_all k (t ∷ ts) s = add_route k t.app_name t.route s >>= λ u. add_all k ts u

add_all-append :
    (k : KitexRouter) (xs ys : List Target) (s : Owners × Table)
    → add_all k (xs ++ ys) s ≡ (add_all k xs s >>= λ u. add_all k ys u)
unfolding add_all
add_all-append k [] ys s = refl
add_all-append k (x ∷ xs) ys s = elim (Result-cases (add_route k x.app_name x.route s)) [
  | inl (u, e) ↦ ground (arith, add_all-append k xs ys u)
  | inr (f, e) ↦ ground arith
]

add_routes-add_all :
    (k : KitexRouter) (name : Text) (rs : List Route) (s : Owners × Table)
    → add_routes k name rs s ≡ add_all k (targets_for name rs) s
unfolding add_all add_routes targets_for
add_routes-add_all k name [] s = refl
add_routes-add_all k name (r ∷ rs) s = elim (Result-cases (add_route k name r s)) [
  | inl (u, e) ↦ ground (arith, add_routes-add_all k name rs u)
  | inr (f, e) ↦ ground arith
]

add_apps-add_all :
    (k : KitexRouter) (apps : Dict (List Route)) (names : List Text) (s : Owners × Table)
    → add_apps k apps names s ≡ add_all k (all_targets apps names) s
unfolding add_apps all_targets
add_apps-add_all k apps [] s = unfold add_all in refl
add_apps-add_all k apps (name ∷ names) s =
    let rs = or_default (lookup name apps) [] in
    let split = add_all-append k (targets_for name rs) (all_targets apps names) s in
    let first = add_routes-add_all k name rs s in
    elim (Result-cases (add_routes k name rs s)) [
      | inl (u, e) ↦ ground (arith, add_apps-add_all k apps names u)
      | inr (f, e) ↦ ground arith
    ]

-- The keys seen are those of the table.
abbrev Tracks : Owners → List Target → Type 0
Tracks seen ts = (j : Text) → is_some (lookup j seen) ≡ mem_text j (route_keys ts)

push-Tracks :
    (t : Target) (name : Text) (seen : Owners) (ts : List Target)
    → Tracks seen ts
    → Tracks ((key_of t, name) ∷ seen) (ts ++ (t ∷ []))
unfolding lookup mem_text
push-Tracks t name seen ts h j = rw (route_keys-append ts (t ∷ [])) (
    ground (
      arith,
      mem-append j (route_keys ts) (key_of t ∷ []),
      h j,
      eq_iff (key_of t) j,
      eq_iff j (key_of t),
    ))

-- The tests that a route passes before it is added to the others.
abbrev fits : KitexRouter → List Target → Target → Bool
fits k before t =
    not (mem_text (key_of t) (route_keys before))
    && supported t.route.http_method
    && not (k.panics (map pattern_of before) (pattern_of t))

unfoldable fits_all : KitexRouter → List Target → List Target → Bool
fits_all k before [] = true
fits_all k before (t ∷ ts) = fits k before t && fits_all k (before ++ (t ∷ [])) ts

add_route-fits :
    (k : KitexRouter) (t : Target) (seen : Owners) (ts : List Target)
    → Tracks seen ts
    → to_option (add_route k t.app_name t.route (seen, record { targets = ts })) ≡ (
        if fits k ts t
        then some ((key_of t, t.app_name) ∷ seen, record { targets = ts ++ (t ∷ []) })
        else none)
unfolding add_route patterns pattern_of
add_route-fits k t seen ts h =
    let known = h (key_of t) in
    elim (Option-cases (lookup (key_of t) seen)) [
      | inl new ↦ ground arith
      | inr (owner, old) ↦ ground arith
    ]

abbrev made : Result RouterError (Owners × Table) → Option Table
made (err e) = none
made (ok s) = some s.1

add_all-fits :
    (k : KitexRouter) (ts : List Target) (seen : Owners) (before : List Target)
    → Tracks seen before
    → made (add_all k ts (seen, record { targets = before }))
      ≡ (if fits_all k before ts then some (record { targets = before ++ ts }) else none)
unfolding add_all fits_all
add_all-fits k [] seen before h =
    let table : List Target → Table = λ x. record { targets = x } in
    ap (λ x. some (table x)) (sym (append-nil before))
add_all-fits k (t ∷ ts) seen before h =
    let one = add_route-fits k t seen before h in
    let grown : Owners = (key_of t, t.app_name) ∷ seen in
    let rest =
      add_all-fits k ts grown (before ++ (t ∷ [])) (push-Tracks t t.app_name seen before h) in
    let joined = append_assoc before (t ∷ []) ts in
    elim (Result-cases (add_route k t.app_name t.route (seen, record { targets = before }))) [
      | inl (u, e) ↦ ground (arith, rest, joined)
      | inr (f, e) ↦ ground arith
    ]

abbrev apart : List Target → List Target → Bool
apart before ts = all (λ t. not (mem_text (key_of t) (route_keys before))) ts

apart-snoc :
    (before ts : List Target) (t : Target)
    → apart (before ++ (t ∷ [])) ts ≡ (apart before ts && not (mem_text (key_of t) (route_keys ts)))
unfolding mem_text
apart-snoc before [] t = refl
apart-snoc before (u ∷ ts) t = rw (route_keys-append before (t ∷ [])) (
    ground (
      arith,
      mem-append (key_of u) (route_keys before) (key_of t ∷ []),
      apart-snoc before ts t,
      eq_iff (key_of u) (key_of t),
      eq_iff (key_of t) (key_of u),
    ))

apart-nil : (ts : List Target) → apart [] ts ≡ true
unfolding mem_text
apart-nil [] = refl
apart-nil (t ∷ ts) = ground (arith, apart-nil ts)

fits_all-split :
    (k : KitexRouter) (before ts : List Target)
    → fits_all k before ts ≡ (
        (apart before ts && distinct_texts (route_keys ts) && all_supported ts)
        && handled k before ts)
unfolding fits_all distinct_texts handled
fits_all-split k before [] = refl
fits_all-split k before (t ∷ ts) =
    ground (arith, fits_all-split k (before ++ (t ∷ [])) ts, apart-snoc before ts t)

made-to_option :
    (r : Result RouterError (Owners × Table)) → to_option (r >>= λ (seen, t). ok t) ≡ made r
made-to_option (err e) = refl
made-to_option (ok s) = refl

-- Build gives the table of the routes of all applications, in the order of their names, if no method
-- and path appears twice, whichever applications claim it, every method is supported and Kitex takes
-- the patterns in this order; otherwise it gives no table.
pub build-eq-reference :
    (k : KitexRouter) (apps : Dict (List Route)) → to_option (build k apps) ≡ reference k apps
unfolding build reference
build-eq-reference k apps =
    let names = sort_texts (keys apps) in
    let ts = all_targets apps names in
    let start : Owners × Table = ([], record { targets = [] }) in
    let flat = add_apps-add_all k apps names start in
    let whole = add_all-fits k ts [] [] (λ j. unfold lookup mem_text in refl) in
    ground (
      arith,
      flat,
      whole,
      fits_all-split k [] ts,
      apart-nil ts,
      made-to_option (add_apps k apps names start),
    )
