-- ===== src/Runtime/System/Invariant.antt =====
-- internal/runtime/snapshot.go: the invariant of the manager, seen at one runtime.
pub mod Leases
pub mod Publication
pub mod Drain
use xuandu_gateway.Prelude.{
  ℕ, ◌+◌, ◌-◌, ◌≤◌, ◌<◌, ◌≡◌, refl, ◌⊎◌, inl, inr, Bool, true, false, ◌&&◌, Option, none, some,
  List, [], ◌∷◌, ◌++◌, Text, ◌==◌, eq_iff, Dict, lookup, remove, put, values, sum, keep,
  if◌then◌else◌, eqb, arith,
}
use xuandu_gateway.Runtime.Heap.{
  Cell, Address, Heap, update, pin, unpin, retire, retire_all, close_cell,
}
use xuandu_gateway.Runtime.Heap.Counts.{
  occ, pin_lem, unpin_lem, unpin_closing, retire_all_lem, occ-keep,
}
use xuandu_gateway.Runtime.Manager.{Snapshot, Manager, Plan, pinned_by}
use xuandu_gateway.Runtime.System.{
  Phase, held, closing, released, Lease, Publisher, idle, publishing, finishing, System, Candidates,
  next_is,
}
use xuandu_gateway.Runtime.System.Counts.{total_pins, total_queue, unfinished}

-- What a Publish between its holds of `mu` relies on: the snapshot that it read is the current one,
-- the manager is open, and its candidate is still one.
abbrev pub PublisherAt : Address → Manager → Publisher → Type 0
PublisherAt a m idle = Unit
PublisherAt a m (finishing rs) = Unit
PublisherAt a m (publishing old name next plan) =
    (old ≡ m.current)
    × (m.closed ≡ false)
    × (next_is a next ≡ true
        → ((m.heap a).retired ≡ false)
          × ((m.heap a).closed ≡ false)
          × (occ a (values (remove name m.current.runtimes)) ≡ 0))

pub record At (a : Address) (s : System) : Type 0 where
  -- The counter is the number of leases that hold the runtime.
  pub counted : (s.manager.heap a).refs ≡ total_pins a s
  -- A closed runtime has no lease.
  pub unpinned : (s.manager.heap a).closed ≡ true → (s.manager.heap a).refs ≡ 0
  -- What waits to be closed is retired and has no lease.
  pub queued :
      0 < total_queue a s → ((s.manager.heap a).retired ≡ true) × ((s.manager.heap a).refs ≡ 0)
  -- What is retired and has no lease is closed, or waits to be.
  pub complete :
      (s.manager.heap a).retired ≡ true
      → (s.manager.heap a).refs ≡ 0
      → ((s.manager.heap a).closed ≡ true) ⊎ (0 < total_queue a s)
  -- While the manager is open, what is published is neither retired nor closed.
  pub live :
      0 < occ a (pinned_by s.manager.current)
      → s.manager.closed ≡ false
      → ((s.manager.heap a).retired ≡ false) × ((s.manager.heap a).closed ≡ false)
  -- A closed manager has retired all that is published.
  pub shut :
      s.manager.closed ≡ true
      → 0 < occ a (pinned_by s.manager.current)
      → (s.manager.heap a).retired ≡ true
  -- A runtime is published once.
  pub once : occ a (pinned_by s.manager.current) ≤ 1
  pub publisher : PublisherAt a s.manager s.publisher

pub record Totals (s : System) : Type 0 where
  pub active : s.manager.active ≡ sum unfinished s.leases
  pub drained : s.manager.drained ≡ (if s.manager.closed && eqb s.manager.active 0 then 1 else 0)
