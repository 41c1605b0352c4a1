-- ===== src/Router.antt =====
-- internal/router/table.go: the route table of an application.
pub mod Owners
pub mod Names
pub mod Reference
use xuandu_gateway.Prelude.{
  ℕ, suc, Bool, not, ◌&&◌, Option, none, some, is_some, List, [], ◌∷◌, ◌++◌, map, Text, bytes, ◌==◌,
  mem_text, sort_texts, Dict, lookup, keys, or_default, get_elem?, Result, ok, err, ◌>>=◌, ◌>>◌,
  refuse, if◌then◌else◌,
}
use xuandu_gateway.Idl.Ast.{Route}
use xuandu_gateway.Idl.Routes.{route_key}

pub record Target : Type 0 where
  pub app_name : Text
  pub route : Route

-- A method and a path pattern.
pub record Pattern : Type 0 where
  pub method : Text
  pub path : Text

-- Kitex's descriptor.Router as a function of the patterns that Handle has taken so far: whether the
-- next call of Handle panics, and the position of the pattern that Lookup finds.
pub record KitexRouter : Type 0 where
  pub panics : List Pattern → Pattern → Bool
  pub find : List Pattern → Text → Text → Option ℕ

-- The targets stand in the order of the calls of Handle.
pub record Table : Type 0 where
  pub targets : List Target

pub data RouterError : Type 0 where
  -- A ConflictError: two routes with one key, and the owner of the first.
  owned : Text → Text → RouterError
  -- A ConflictError: Handle has panicked.
  conflicting_pattern : RouterError
  unsupported_method : RouterError

unfoldable pub pattern_of : Target → Pattern
pattern_of t = record { method = t.route.http_method; path = t.route.path }

unfoldable pub patterns : Table → List Pattern
unfolding pattern_of
patterns t = map pattern_of t.targets

unfoldable pub supported : Text → Bool
supported method = mem_text method (bytes "GET" ∷ bytes "POST" ∷ bytes "PUT" ∷ bytes "DELETE" ∷ [])

-- The map `seen`: the owner of each key.
abbrev pub Owners : Type 0
Owners = Dict Text

unfoldable pub add_route :
    KitexRouter → Text → Route → Owners × Table → Result RouterError (Owners × Table)
unfolding route_key supported patterns
add_route k name r (seen, t) =
    let key = route_key r.http_method r.path in
    let target : Target = record { app_name = name; route = r } in
    elim (lookup key seen) [
      | some owner ↦ err (owned key owner)
      | none ↦
          (if not (supported r.http_method)
            then err unsupported_method
            else (if k.panics (patterns t) (record { method = r.http_method; path = r.path })
                then err conflicting_pattern
                else ok ((key, name) ∷ seen, record { targets = t.targets ++ (target ∷ []) })))
    ]

unfoldable pub add_routes :
    KitexRouter → Text → List Route → Owners × Table → Result RouterError (Owners × Table)
unfolding add_route
add_routes k name [] s = ok s
add_routes k name (r ∷ rs) s = do s' ← add_route k name r s; add_routes k name rs s'

unfoldable pub add_apps :
    KitexRouter
    → Dict (List Route)
    → List Text
    → Owners × Table
    → Result RouterError (Owners × Table)
unfolding add_routes
add_apps k apps [] s = ok s
add_apps k apps (name ∷ names) s = do
  s' ← add_routes k name (or_default (lookup name apps) []) s
  add_apps k apps names s'

unfoldable pub build : KitexRouter → Dict (List Route) → Result RouterError Table
unfolding add_apps
build k apps = do
  (seen, t) ← add_apps k apps (sort_texts (keys apps)) ([], record { targets = [] })
  ok t

-- table.Match
unfoldable pub match_route : KitexRouter → Table → Text → Text → Option Target
unfolding patterns
match_route k t method path = elim (k.find (patterns t) method path) [
  | none ↦ none
  | some i ↦ get_elem? t.targets i
]

-- table.Routes
unfoldable pub table_routes : Table → List Route
table_routes t = map (λ x. x.route) t.targets
