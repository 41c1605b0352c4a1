-- ===== src/Admin/Life.antt =====
-- The life of an administration service beside the requests that lease its snapshots: operations of
-- internal/admin/service.go, and Acquire, Release and Close of internal/runtime/snapshot.go.
pub mod Leases
pub mod Reached
use xuandu_gateway.Prelude.{if◌then◌else◌, ℕ, false, List, [], ◌∷◌, Text}
use xuandu_gateway.Metadata.Model.{App}
use xuandu_gateway.Runtime.Heap.{Heap}
use xuandu_gateway.Runtime.Manager.{
  Snapshot, Manager, new_manager, acquire, release, close_manager, close_list,
}
use xuandu_gateway.Admin.{Deps, State}
use xuandu_gateway.Admin.Requests.{CreateRequest, UpdateRequest}
use xuandu_gateway.Admin.Reconcile.{reconcile, on_change}
use xuandu_gateway.Admin.Operations.{create_app, update_app, delete_app}
use xuandu_gateway.Admin.Views.{stop}

-- Each is done as a whole. A release gives back a snapshot; any, so that the order and the number of
-- the releases are free. Other replicas, the services that are downloaded from and the clock can take
-- the outside to any state in between.
pub data Event (W : Type 0) : Type 0 where
  creates : CreateRequest → Event W
  updates : Text → UpdateRequest → Event W
  deletes : Text → Event W
  reconciles : List App → Event W
  changes : Event W
  stops : Event W
  leases : Event W
  releases : Snapshot → Event W
  closes : Event W
  others : W → Event W

-- NewService with NewManager.
unfoldable pub new_service : {W : Type 0} → W → Heap → State W
unfolding new_manager
new_service w h = record {
  world = w;
  manager = new_manager h;
  fresh = 0;
  status = [];
  loaded = false;
  stopping = false;
}

-- Manager.Close, without the wait for the leases.
unfoldable pub shut : Manager → Manager
unfolding close_manager close_list
shut m = let (m', closing) = close_manager m in if m.closed then m else close_list closing m'

module _ {W : Type 0} (d : Deps W) where
  unfoldable pub happen : Event W → State W → State W
  unfolding create_app update_app delete_app reconcile on_change stop acquire release shut
  happen (creates req) s = (create_app d req s).0
  happen (updates name req) s = (update_app d name req s).0
  happen (deletes name) s = (delete_app d name s).0
  happen (reconciles apps) s = reconcile d apps s
  happen changes s = on_change d s
  happen stops s = stop s
  happen leases s = record s { manager = (acquire s.manager).0 }
  happen (releases snapshot) s = record s { manager = release snapshot s.manager }
  happen closes s = record s { manager = shut s.manager }
  happen (others w) s = record s { world = w }

  unfoldable pub live : List (Event W) → State W → State W
  unfolding happen
  live [] s = s
  live (event ∷ events) s = live events (happen event s)
