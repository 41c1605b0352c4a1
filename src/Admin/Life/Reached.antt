-- ===== src/Admin/Life/Reached.antt =====
-- What holds of an administration service in every state that it reaches.
use xuandu_gateway.Prelude.{
  ◌<◌, ◌≡◌, refl, sym, ap, subst, none, List, [], ◌∷◌, All, All-mono, arith,
}
use xuandu_gateway.Prelude.Maps.{IsMap}
use xuandu_gateway.Runtime.Heap.{Address, Heap, unpin}
use xuandu_gateway.Runtime.Heap.Counts.{pin_lem, unpin_lem, retire_all_lem}
use xuandu_gateway.Runtime.Manager.{
  Snapshot, Manager, new_manager, acquire, release, drop_refs, drop_active, close_manager,
  pinned_by,
}
use xuandu_gateway.Runtime.Manager.Tables.{close_list-current}
use xuandu_gateway.Runtime.Manager.Fits.{FitsEntry, Fits}
use xuandu_gateway.Admin.{Deps, State}
use xuandu_gateway.Admin.Views.{stop}
use xuandu_gateway.Admin.Accounts.{Keeps}
use xuandu_gateway.Admin.Protocol.{Run, started, aside, Accounts, Run-AccountsBut}
use xuandu_gateway.Admin.Protocol.Reconcile.{reconcile-Run, on_change-Run}
use xuandu_gateway.Admin.Protocol.Operations.{create_app-Run, update_app-Run, delete_app-Run}
use xuandu_gateway.Admin.Protocol.Sound.{IsSound, Run-IsSound}
use xuandu_gateway.Admin.Life.{
  Event, creates, updates, deletes, reconciles, changes, stops, leases, releases, closes, others,
  new_service, shut, happen, live,
}
use xuandu_gateway.Admin.Life.Leases.{acquire-Keeps, release-Keeps, shut-Keeps, close_list-cell}

-- The same snapshot, with the same descriptions of the runtimes.
pub record SameView (m m' : Manager) : Type 0 where
  pub snapshots : m'.current ≡ m.current
  pub infos : (a : Address) → (m'.heap a).info ≡ (m.heap a).info

acquire-SameView : (m : Manager) → SameView m (acquire m).0
unfolding acquire
acquire-SameView m = record {
  snapshots = ground arith;
  infos = λ a. ground (arith, pin_lem (pinned_by m.current) m.heap a);
}

release-SameView : (s : Snapshot) (m : Manager) → SameView m (release s m)
unfolding release drop_refs drop_active
release-SameView s m =
    let rs = pinned_by s in
    let (h, closing) = unpin rs m.heap in
    let m1 : Manager = record m { heap = h } in
    record {
      snapshots = close_list-current closing m1;
      infos = λ a. ground (arith, unpin_lem rs m.heap a, close_list-cell closing m1 a);
    }

shut-SameView : (m : Manager) → SameView m (shut m)
unfolding shut close_manager
shut-SameView m =
    let rs = pinned_by m.current in
    let (m1, closing) = close_manager m in
    record {
      snapshots = ground (arith, close_list-current closing m1);
      infos = λ a. ground (arith, retire_all_lem rs m.heap a, close_list-cell closing m1 a);
    }

module _ {W : Type 0} (d : Deps W) where
  view-IsSound :
      (fresh : Address) (m m' : Manager) → SameView m m' → IsSound d fresh m → IsSound d fresh m'
  view-IsSound fresh m m' view sound =
      let p = d.platform in
      let k = d.router in
      let back = ap (λ (s : Snapshot). s.runtimes) (sym view.snapshots) in
      record {
        maps = subst IsMap back sound.maps;
        below = subst (All (λ e. e.1 < fresh)) back sound.below;
        fits = subst (All (FitsEntry p k m'.heap)) back (
            All-mono (FitsEntry p k m.heap)
              (λ e fit. subst (Fits p k e.0) (sym (view.infos e.1)) fit) m.current.runtimes
              sound.fits);
      }

  -- An operation is a run, or leaves the view and all that is accounted for.
  data Moves (s s' : State W) : Type 0 where
    ran : Run d s none s' → Moves s s'
    viewed :
        s'.fresh ≡ s.fresh → Keeps s.manager s'.manager → SameView s.manager s'.manager → Moves s s'

  happen-Moves : (event : Event W) (s : State W) → Moves s (happen d event s)
  unfolding happen stop
  happen-Moves (creates req) s = ran (create_app-Run d s req s started)
  happen-Moves (updates name req) s = ran (update_app-Run d s name req s started)
  happen-Moves (deletes name) s = ran (delete_app-Run d s name s started)
  happen-Moves (reconciles apps) s = ran (reconcile-Run d s apps s started)
  happen-Moves changes s = ran (on_change-Run d s s started)
  happen-Moves (others w) s = ran (aside started refl refl)
  happen-Moves stops s = ran (aside started refl refl)
  happen-Moves leases s = viewed refl (acquire-Keeps s.manager) (acquire-SameView s.manager)
  happen-Moves (releases snapshot) s =
      viewed refl (release-Keeps snapshot s.manager) (release-SameView snapshot s.manager)
  happen-Moves closes s = viewed refl (shut-Keeps s.manager) (shut-SameView s.manager)

  Moves-Accounts : (s s' : State W) → Moves s s' → Accounts s → Accounts s'
  Moves-Accounts s s' (ran run) known = Run-AccountsBut d run known
  Moves-Accounts s s' (viewed same_fresh keeps view) known =
      λ a below. keeps a (known a (ground (arith, below)))

  Moves-IsSound :
      (s s' : State W) → Moves s s' → IsSound d s.fresh s.manager → IsSound d s'.fresh s'.manager
  Moves-IsSound s s' (ran run) sound = (Run-IsSound d run sound).0
  Moves-IsSound s s' (viewed same_fresh keeps view) sound =
      subst (λ n. IsSound d n s'.manager) (sym same_fresh)
        (view-IsSound s.fresh s.manager s'.manager view sound)

  live-Accounts : (events : List (Event W)) (s : State W) → Accounts s → Accounts (live d events s)
  unfolding live
  live-Accounts [] s known = known
  live-Accounts (event ∷ events) s known =
      let s' = happen d event s in
      live-Accounts events s' (Moves-Accounts s s' (happen-Moves event s) known)

  live-IsSound :
      (events : List (Event W)) (s : State W)
      → IsSound d s.fresh s.manager
      → let s' = live d events s in IsSound d s'.fresh s'.manager
  unfolding live
  live-IsSound [] s sound = sound
  live-IsSound (event ∷ events) s sound =
      let s' = happen d event s in
      live-IsSound events s' (Moves-IsSound s s' (happen-Moves event s) sound)

  -- No runtime leaks: whatever happens to a new service, in any order of operations, watch events,
  -- changes of the outside by others, leases and releases, every runtime that it has had built is published, closed, or retired while
  -- leases hold it, so that their Release closes it.
  pub no_runtime_leaks :
      (w : W) (h : Heap) (events : List (Event W)) → Accounts (live d events (new_service w h))
  unfolding new_service
  no_runtime_leaks w h events =
      live-Accounts events (new_service w h) (λ a below. absurd (omega (arith, below)))

  -- Whatever happens to a new service, each of its published names has one runtime, which it has had
  -- built, whose domain can be normalised and whose routes make a table.
  pub reached-IsSound :
      (w : W) (h : Heap) (events : List (Event W))
      → let s = live d events (new_service w h) in IsSound d s.fresh s.manager
  unfolding new_service new_manager
  reached-IsSound w h events =
      live-IsSound events (new_service w h) (record { maps = tt; below = tt; fits = tt })
