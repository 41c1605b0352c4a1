-- ===== src/Runtime/System.antt =====
-- internal/runtime/snapshot.go: the interleavings of Acquire, Release, Publish and Close. A step is
-- one hold of `mu`, or one `Close` of a runtime between two of them. `publishMu` lets one
-- publisher at a time in: a Publish, or a Close of the manager.
pub mod Counts
pub mod Invariant
pub mod Safety
use xuandu_gateway.Prelude.{
  ℕ, suc, ◌+◌, ◌≡◌, Bool, true, false, Option, none, some, List, [], ◌∷◌, ◌++◌, Text, Dict, remove,
  values, Result, ok, if◌then◌else◌, eqb, get_elem?, set,
}
use xuandu_gateway.Runtime.Heap.{Address, Heap}
use xuandu_gateway.Runtime.Heap.Counts.{occ}
use xuandu_gateway.Runtime.Manager.{
  Snapshot, Manager, Plan, new_manager, acquire, drop_refs, drop_active, close_runtime,
  commit_publish, close_manager, pinned_by,
}

-- Where the holder of a lease is: before Release, between its two holds of `mu` with the runtimes
-- that it still closes, or after it. sync.Once makes a further Release do nothing.
pub data Phase : Type 0 where
  held : Phase
  closing : List Address → Phase
  released : Phase

pub record Lease : Type 0 where
  pub snapshot : Snapshot
  pub phase : Phase

-- Who holds `publishMu`: nobody; a Publish between its holds of `mu`, with the snapshot that it
-- read and its arguments; or a caller that closes runtimes at its end.
pub data Publisher : Type 0 where
  idle : Publisher
  publishing : Snapshot → Text → Option Address → Plan → Publisher
  finishing : List Address → Publisher

pub record System : Type 0 where
  pub manager : Manager
  pub leases : List Lease
  pub publisher : Publisher

unfoldable pub start : Heap → System
unfolding new_manager
start h = record { manager = new_manager h; leases = []; publisher = idle }

abbrev pub granted : Option Snapshot → List Lease
granted none = []
granted (some s) = record { snapshot = s; phase = held } ∷ []

unfoldable pub acquire_step : System → System
unfolding acquire
acquire_step s =
    let (m, lease) = acquire s.manager in
    record s { manager = m; leases = granted lease ++ s.leases }

unfoldable pub drop_step : ℕ → Lease → System → System
unfolding drop_refs
drop_step i l s =
    let (m, rs) = drop_refs l.snapshot s.manager in
    record s { manager = m; leases = set s.leases i (record l { phase = closing rs }) }

unfoldable pub lease_close_step : ℕ → Lease → Address → List Address → System → System
unfolding close_runtime
lease_close_step i l r rs s = record s {
  manager = close_runtime r s.manager;
  leases = set s.leases i (record l { phase = closing rs });
}

unfoldable pub finish_step : ℕ → Lease → System → System
unfolding drop_active
finish_step i l s = record s {
  manager = drop_active s.manager;
  leases = set s.leases i (record l { phase = released });
}

unfoldable pub commit_step : Snapshot → Text → Option Address → Plan → System → System
unfolding commit_publish
commit_step old name next plan s =
    let (m, rs) = commit_publish old name next plan s.manager in
    record s { manager = m; publisher = finishing rs }

unfoldable pub shut_step : System → System
unfolding close_manager
shut_step s =
    let (m, rs) = close_manager s.manager in record s { manager = m; publisher = finishing rs }

unfoldable pub publisher_close_step : Address → List Address → System → System
unfolding close_runtime
publisher_close_step r rs s = record s {
  manager = close_runtime r s.manager;
  publisher = finishing rs;
}

-- A candidate for publication under a name: a runtime that is neither retired nor closed, nor
-- published under another name. The builder makes a new one for each call.
pub record IsCandidate (m : Manager) (name : Text) (r : Address) : Type 0 where
  pub unretired : (m.heap r).retired ≡ false
  pub unclosed : (m.heap r).closed ≡ false
  pub unpublished : occ r (values (remove name m.current.runtimes)) ≡ 0

abbrev pub Candidates : Manager → Text → Option Address → Type 0
Candidates m name none = Unit
Candidates m name (some r) = IsCandidate m name r

abbrev pub next_is : Address → Option Address → Bool
next_is r none = false
next_is r (some n) = eqb n r

abbrev pub IsNotNext : Address → Publisher → Type 0
IsNotNext r idle = Unit
IsNotNext r (publishing old name next plan) = next_is r next ≡ false
IsNotNext r (finishing rs) = Unit

unfoldable pub discard_step : Address → System → System
unfolding close_runtime
discard_step r s = record s { manager = close_runtime r s.manager }

pub data Step (s t : System) : Type 0 where
  acquires : t ≡ acquire_step s → Step s t
  drops :
      (i : ℕ) (l : Lease)
      → get_elem? s.leases i ≡ some l
      → l.phase ≡ held
      → t ≡ drop_step i l s
      → Step s t
  lease_closes :
      (i : ℕ) (l : Lease) (r : Address) (rs : List Address)
      → get_elem? s.leases i ≡ some l
      → l.phase ≡ closing (r ∷ rs)
      → t ≡ lease_close_step i l r rs s
      → Step s t
  finishes :
      (i : ℕ) (l : Lease)
      → get_elem? s.leases i ≡ some l
      → l.phase ≡ closing []
      → t ≡ finish_step i l s
      → Step s t
  -- Publish passes its first hold of `mu` with the runtimes `next` and any plan.
  begins :
      (name : Text) (next : Option Address) (plan : Plan)
      → s.publisher ≡ idle
      → s.manager.closed ≡ false
      → Candidates s.manager name next
      → t ≡ record s { publisher = publishing s.manager.current name next plan }
      → Step s t
  -- The domains, the tables or the durable write are refused.
  aborts :
      (old : Snapshot) (name : Text) (next : Option Address) (plan : Plan)
      → s.publisher ≡ publishing old name next plan
      → t ≡ record s { publisher = idle }
      → Step s t
  commits :
      (old : Snapshot) (name : Text) (next : Option Address) (plan : Plan)
      → s.publisher ≡ publishing old name next plan
      → t ≡ commit_step old name next plan s
      → Step s t
  shuts : s.publisher ≡ idle → s.manager.closed ≡ false → t ≡ shut_step s → Step s t
  publisher_closes :
      (r : Address) (rs : List Address)
      → s.publisher ≡ finishing (r ∷ rs)
      → t ≡ publisher_close_step r rs s
      → Step s t
  -- The caller closes a runtime that is not published and of which no lease is left, such as the
  -- candidate of a refused Publish.
  discards :
      (r : Address)
      → (s.manager.heap r).refs ≡ 0
      → occ r (pinned_by s.manager.current) ≡ 0
      → IsNotNext r s.publisher
      → t ≡ discard_step r s
      → Step s t
  leaves : s.publisher ≡ finishing [] → t ≡ record s { publisher = idle } → Step s t

pub data Reach (s : System) : System → Type 0 where
  here : Reach s s
  more : {t u : System} → Reach s t → Step t u → Reach s u
