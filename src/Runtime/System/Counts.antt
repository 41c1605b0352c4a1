-- ===== src/Runtime/System/Counts.antt =====
-- internal/runtime/snapshot.go: what the leases and the publisher of a system amount to.
use xuandu_gateway.Prelude.{ℕ, ◌+◌, List, sum}
use xuandu_gateway.Runtime.Heap.{Address}
use xuandu_gateway.Runtime.Heap.Counts.{occ}
use xuandu_gateway.Runtime.Manager.{pinned_by}
use xuandu_gateway.Runtime.System.{
  Phase, held, closing, released, Lease, Publisher, idle, publishing, finishing, System,
}

-- How often an unreleased lease counts a runtime.
abbrev pub phase_pins : Address → List Address → Phase → ℕ
phase_pins a rs held = occ a rs
phase_pins a rs (closing q) = 0
phase_pins a rs released = 0

abbrev pub pins : Address → Lease → ℕ
pins a l = phase_pins a (pinned_by l.snapshot) l.phase

-- How often Release has still to close a runtime.
abbrev pub phase_queue : Address → Phase → ℕ
phase_queue a held = 0
phase_queue a (closing q) = occ a q
phase_queue a released = 0

abbrev pub queues : Address → Lease → ℕ
queues a l = phase_queue a l.phase

abbrev pub phase_active : Phase → ℕ
phase_active held = 1
phase_active (closing q) = 1
phase_active released = 0

abbrev pub unfinished : Lease → ℕ
unfinished l = phase_active l.phase

abbrev pub publisher_queue : Address → Publisher → ℕ
publisher_queue a idle = 0
publisher_queue a (publishing old name next plan) = 0
publisher_queue a (finishing q) = occ a q

abbrev pub total_pins : Address → System → ℕ
total_pins a s = sum (pins a) s.leases

abbrev pub total_queue : Address → System → ℕ
total_queue a s = sum (queues a) s.leases + publisher_queue a s.publisher
