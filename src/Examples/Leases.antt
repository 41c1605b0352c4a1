-- ===== src/Examples/Leases.antt =====
-- Witnesses for internal/runtime/snapshot.go: a runtime is published, leased, replaced and released.
use xuandu_gateway.Prelude.{
  ◌≤◌, ◌<◌, ◌≡◌, ◌↔◌, refl, Bool, true, false, none, some, [], ◌∷◌, lookup, remove, put, ◌==◌,
  bytes, sum, arith,
}
use xuandu_gateway.Runtime.Heap.{Address, update, pin, unpin, retire, close_cell, retire_all}
use xuandu_gateway.Runtime.Heap.Counts.{occ}
use xuandu_gateway.Runtime.Manager.{
  Plan, new_manager, acquire, drop_refs, drop_active, close_runtime, replace_runtime,
  commit_publish, close_manager, pinned_by, publish,
}
use xuandu_gateway.Runtime.Manager.Tables.{IsRouted, publish-IsRouted}
use xuandu_gateway.Runtime.System.{
  Lease, held, closing, System, start, idle, publishing, finishing, acquire_step, drop_step,
  lease_close_step, finish_step, commit_step, shut_step, begins, commits, leaves, acquires, drops,
  lease_closes, finishes, shuts, Reach, here, more,
}
use xuandu_gateway.Runtime.System.Counts.{total_pins, unfinished}
use xuandu_gateway.Runtime.System.Safety.{
  IsUnused, refs-eq-total_pins, held_runtime_open, published_runtime_open, retired_runtime_closed,
  drained_once,
}
use xuandu_gateway.Examples.World.{app_name, snapshot, heap, manager, platform, first_router}

heap-IsUnused : IsUnused heap
heap-IsUnused a = (refl, refl)

abbrev plan : Plan
plan = record { routes = snapshot.routes; domains = snapshot.domains }

abbrev no_plan : Plan
no_plan = record { routes = []; domains = [] }

abbrev begun : System
begun = record (start heap) {
  publisher = publishing (start heap).manager.current app_name (some 7) plan;
}

abbrev committed : System
committed = commit_step (start heap).manager.current app_name (some 7) plan begun

abbrev published : System
published = record committed { publisher = idle }

abbrev leased : System
leased = acquire_step published

abbrev removing : System
removing = record leased { publisher = publishing leased.manager.current app_name none no_plan }

-- The runtime is removed while a lease holds it.
abbrev removed : System
removed = record (commit_step leased.manager.current app_name none no_plan removing) {
  publisher = idle;
}

abbrev lease : Lease
lease = record { snapshot = leased.manager.current; phase = held }

abbrev dropped : System
dropped = drop_step 0 lease removed

abbrev dropped_lease : Lease
dropped_lease = record lease { phase = closing (7 ∷ []) }

abbrev closed : System
closed = lease_close_step 0 dropped_lease 7 [] dropped

abbrev finished : System
finished = finish_step 0 (record lease { phase = closing [] }) closed

to_published : Reach (start heap) published
unfolding start new_manager commit_step commit_publish replace_runtime remove put lookup retire
    update ◌==◌ bytes
to_published =
    more
      (more
        (more here (
          begins app_name (some 7) plan refl refl
            (record { unretired = refl; unclosed = refl; unpublished = refl }) refl))
        (commits (start heap).manager.current app_name (some 7) plan refl refl))
      (leaves refl refl)

to_removed : Reach (start heap) removed
unfolding start new_manager commit_step commit_publish replace_runtime remove put lookup retire
    update ◌==◌ bytes acquire_step acquire pin
to_removed =
    more
      (more
        (more (more to_published (acquires refl)) (begins app_name none no_plan refl refl tt refl))
        (commits leased.manager.current app_name none no_plan refl refl))
      (leaves refl refl)

to_finished : Reach (start heap) finished
unfolding start new_manager commit_step commit_publish replace_runtime remove put lookup retire
    update ◌==◌ bytes acquire_step acquire pin drop_step drop_refs unpin lease_close_step
    close_runtime close_cell
to_finished =
    more
      (more (more to_removed (drops 0 lease refl refl refl))
        (lease_closes 0 dropped_lease 7 [] refl refl refl))
      (finishes 0 (record lease { phase = closing [] }) refl refl refl)

refs-eq-total_pins_example : (removed.manager.heap 7).refs ≡ total_pins 7 removed
refs-eq-total_pins_example = refs-eq-total_pins heap heap-IsUnused to_removed 7

-- The removed runtime stays open for the lease.
held_runtime_open_example : (removed.manager.heap 7).closed ≡ false
unfolding start new_manager commit_step commit_publish replace_runtime remove put lookup retire
    update ◌==◌ bytes acquire_step acquire pin
held_runtime_open_example =
    held_runtime_open heap heap-IsUnused to_removed 0 lease 7 refl refl (omega arith)

published_runtime_open_example :
    (occ 7 (pinned_by published.manager.current) ≤ 1)
    × (0 < occ 7 (pinned_by published.manager.current)
        → ((published.manager.heap 7).retired ≡ false)
          × ((published.manager.heap 7).closed ≡ false))
unfolding start new_manager commit_step commit_publish lookup
published_runtime_open_example = published_runtime_open heap heap-IsUnused to_published refl 7

retired_runtime_closed_example : (finished.manager.heap 7).closed ≡ true
unfolding start new_manager commit_step commit_publish replace_runtime remove put lookup retire
    update ◌==◌ bytes acquire_step acquire pin drop_step drop_refs unpin lease_close_step
    close_runtime close_cell finish_step drop_active
retired_runtime_closed_example =
    retired_runtime_closed heap heap-IsUnused to_finished refl refl 7 refl

abbrev shut : System
shut = record (shut_step published) { publisher = finishing (7 ∷ []) }

to_shut : Reach (start heap) shut
unfolding start new_manager commit_step commit_publish replace_runtime remove put lookup retire
    update ◌==◌ bytes shut_step close_manager retire_all
to_shut = more to_published (shuts refl refl refl)

drained_once_example :
    (shut.manager.drained ≤ 1)
    × ((shut.manager.drained ≡ 1)
        ↔ ((shut.manager.closed ≡ true) × (sum unfinished shut.leases ≡ 0)))
    × (shut.manager.drained ≡ 1
        → shut.publisher ≡ idle
        → (a : Address) → 0 < occ a (pinned_by shut.manager.current)
        → (shut.manager.heap a).closed ≡ true)
drained_once_example = drained_once heap heap-IsUnused to_shut

pub snapshot-IsRouted : IsRouted snapshot
unfolding lookup ◌==◌ bytes
snapshot-IsRouted name t e = ground (arith, e)

abbrev persist : Bool → Bool × Bool
persist b = (true, true)

publish-IsRouted_example :
    IsRouted (publish platform first_router persist app_name (some 7) false manager).0.1.current
publish-IsRouted_example =
    publish-IsRouted platform first_router persist app_name (some 7) false manager snapshot-IsRouted
