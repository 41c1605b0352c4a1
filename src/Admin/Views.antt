-- ===== src/Admin/Views.antt =====
-- internal/admin/service.go: what the service shows: List, Get and Ready.
use xuandu_gateway.Prelude.{
  Bool, true, not, ◌&&◌, none, some, List, [], ◌∷◌, Text, bytes, ◌==◌, Dict, lookup, or_default,
  Result, ok, ◌>>=◌, map_err, if◌then◌else◌, length,
}
use xuandu_gateway.Idl.Ast.{Route}
use xuandu_gateway.Metadata.Model.{App}
use xuandu_gateway.Admin.{AdminError, Deps, State, Status, no_status, runtime_of, info_of, store}

-- View
pub record View : Type 0 where
  pub app : App
  pub status : Status

-- Detail
pub record Detail : Type 0 where
  pub view : View
  pub routes : List Route

-- Ready, for the statuses: whether each degraded application still serves a revision, and which are
-- degraded.
unfoldable pub degraded : Dict Status → Bool × Dict Status
degraded [] = (true, [])
degraded ((name, v) ∷ more) =
    let (served, out) = degraded more in
    if v.runtime_status == bytes "degraded"
    then (not (v.current_revision == []) && served, (name, v) ∷ out)
    else (served, out)

-- Ready
unfoldable pub ready : {W : Type 0} → State W → Bool × Dict Status
unfolding degraded
ready s = let (served, out) = degraded s.status in (s.loaded && not s.stopping && served, out)

-- Stop
unfoldable pub stop : {W : Type 0} → State W → State W
stop s = record s { stopping = true }

module _ {W : Type 0} (d : Deps W) where
  -- List
  unfoldable pub view_all : List App → State W → List View
  view_all [] s = []
  view_all (a ∷ more) s =
      record { app = a; status = or_default (lookup a.name s.status) no_status } ∷ view_all more s

  unfoldable pub list_apps : State W → Result AdminError (List View)
  unfolding view_all
  list_apps s = map_err store (d.store.list s.world) >>= λ apps. ok (view_all apps s)

  -- Get: the status with the revision and the routes that are live.
  unfoldable pub get_detail : Text → State W → Result AdminError Detail
  get_detail name s = do
    a ← map_err store (d.store.get name s.world)
    let status = or_default (lookup name s.status) no_status
    elim (runtime_of s name) [
      | none ↦ ok (record { view = record { app = a; status = status }; routes = [] })
      | some r ↦
          let info = info_of s r in
          ok (record {
            view = record {
              app = a;
              status = record status {
                current_revision = info.revision;
                route_count = length info.routes;
              };
            };
            routes = info.routes;
          })
    ]
