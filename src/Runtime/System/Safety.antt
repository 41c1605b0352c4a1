-- ===== src/Runtime/System/Safety.antt =====
-- internal/runtime/snapshot.go: what holds in every state that the manager can reach.
use xuandu_gateway.Prelude.{
  ℕ, ◌≤◌, ◌<◌, ◌≡◌, refl, sym, subst, ◌↔◌, true, false, Option, some, Text, get_elem?, le-sum, sum,
  arith,
}
use xuandu_gateway.Runtime.Heap.{Address, Heap}
use xuandu_gateway.Runtime.Heap.Counts.{occ}
use xuandu_gateway.Runtime.Manager.{Snapshot, Plan, pinned_by}
use xuandu_gateway.Runtime.System.{
  held, Lease, idle, publishing, System, start, commit_step, Step, acquires, drops, lease_closes,
  finishes, begins, aborts, commits, shuts, publisher_closes, discards, leaves, Reach, here, more,
}
use xuandu_gateway.Runtime.System.Counts.{pins, total_pins, unfinished}
use xuandu_gateway.Runtime.System.Invariant.{PublisherAt, At, Totals}
use xuandu_gateway.Runtime.System.Invariant.Leases.{
  acquire_step-At, drop_step-At, lease_close_step-At, finish_step-At,
}
use xuandu_gateway.Runtime.System.Invariant.Publication.{
  begin-At, abort-At, leave-At, publisher_close_step-At, discard_step-At, shut_step-At,
  commit_current-At,
}
use xuandu_gateway.Runtime.System.Invariant.Drain.{
  acquire_step-Totals, drop_step-Totals, lease_close_step-Totals, finish_step-Totals,
  commit_step-Totals, shut_step-Totals, publisher_close_step-Totals, discard_step-Totals,
  pins_of_finished,
}

record Inv (s : System) : Type 0 where
  at : (a : Address) → At a s
  totals : Totals s

-- No runtime has been used yet.
abbrev pub IsUnused : Heap → Type 0
IsUnused h = (a : Address) → ((h a).refs ≡ 0) × ((h a).retired ≡ false)

start-Inv : (h : Heap) → IsUnused h → Inv (start h)
unfolding start
start-Inv h unused = record {
  at = λ a.
      let u = unused a in
      record {
        counted = u.0;
        unpinned = λ c. u.0;
        queued = λ q. absurd (omega arith);
        complete = λ r z. ground (arith, u.1);
        live = λ p o. absurd (omega arith);
        shut = λ c p. absurd (omega arith);
        once = omega arith;
        publisher = tt;
      };
  totals = record { active = refl; drained = refl };
}

publishing_at :
    (s : System) (old : Snapshot) (name : Text) (next : Option Address) (plan : Plan)
    → Inv s
    → s.publisher ≡ publishing old name next plan
    → (a : Address) → PublisherAt a s.manager (publishing old name next plan)
publishing_at s old name next plan v e a = subst (PublisherAt a s.manager) e (v.at a).publisher

Step-Inv : {s t : System} → Step s t → Inv s → Inv t
Step-Inv {s} (acquires e) v =
    rw e
      (record { at = λ a. acquire_step-At a s (v.at a); totals = acquire_step-Totals s v.totals })
Step-Inv {s} (drops i l g p e) v = rw e (record {
  at = λ a. drop_step-At a i l s g p (v.at a);
  totals = drop_step-Totals i l s g p v.totals;
})
Step-Inv {s} (lease_closes i l r rs g p e) v = rw e (record {
  at = λ a. lease_close_step-At a i l s g r rs p (v.at a);
  totals = lease_close_step-Totals i l s g r rs p v.totals;
})
Step-Inv {s} (finishes i l g p e) v = rw e (record {
  at = λ a. finish_step-At a i l s g p (v.at a);
  totals = finish_step-Totals i l s g p v.totals;
})
Step-Inv {s} (begins name next plan free open_ c e) v = rw e (record {
  at = λ a. begin-At a name next plan s free open_ c (v.at a);
  totals = record { active = v.totals.active; drained = v.totals.drained };
})
Step-Inv {s} (aborts old name next plan p e) v = rw e (record {
  at = λ a. abort-At a old name next plan s p (v.at a);
  totals = record { active = v.totals.active; drained = v.totals.drained };
})
Step-Inv {s} (commits old name next plan p e) v = rw e (record {
  at = λ a.
      let was = publishing_at s old name next plan v p a in
      subst (λ o. At a (commit_step o name next plan s)) (sym was.0)
        (commit_current-At a name next plan s
          (subst (λ o. s.publisher ≡ publishing o name next plan) was.0 p) was.1 was.2 (v.at a));
  totals = commit_step-Totals old name next plan s v.totals;
})
Step-Inv {s} (shuts free open_ e) v = rw e (record {
  at = λ a. shut_step-At a s free open_ (v.at a);
  totals = shut_step-Totals s open_ v.totals;
})
Step-Inv {s} (publisher_closes r rs p e) v = rw e (record {
  at = λ a. publisher_close_step-At a r rs s p (v.at a);
  totals = publisher_close_step-Totals r rs s v.totals;
})
Step-Inv {s} (discards r z u n e) v = rw e (record {
  at = λ a. discard_step-At a r s z u n (v.at a);
  totals = discard_step-Totals r s v.totals;
})
Step-Inv {s} (leaves p e) v = rw e (record {
  at = λ a. leave-At a s p (v.at a);
  totals = record { active = v.totals.active; drained = v.totals.drained };
})

Reach-Inv : {s t : System} → Inv s → Reach s t → Inv t
Reach-Inv v here = v
Reach-Inv v (more r st) = Step-Inv st (Reach-Inv v r)

module _ (h : Heap) (unused : IsUnused h) {s : System} (reached : Reach (start h) s) where
  reached-Inv : Inv s
  reached-Inv = Reach-Inv (start-Inv h unused) reached

  -- In every reachable state the reference counter of a runtime is the number of times that the
  -- leases which have not begun their Release hold it, so that no `refs--` goes below 0.
  pub refs-eq-total_pins : (a : Address) → (s.manager.heap a).refs ≡ total_pins a s
  refs-eq-total_pins a = (reached-Inv.at a).counted

  -- In every reachable state a lease that has not begun its Release holds runtimes that have not
  -- been closed, whatever has been published, removed or shut down since it was acquired.
  pub held_runtime_open :
      (i : ℕ) (l : Lease) (a : Address)
      → get_elem? s.leases i ≡ some l
      → l.phase ≡ held
      → 0 < occ a (pinned_by l.snapshot)
      → (s.manager.heap a).closed ≡ false
  held_runtime_open i l a at_i phase pinned =
      let v = reached-Inv.at a in
      let counts : pins a l ≡ occ a (pinned_by l.snapshot) = ground arith in
      ground (arith, v.counted, v.unpinned, counts, le-sum (pins a) s.leases i l at_i)

  -- While the manager is open, the runtimes of the current snapshot are neither retired nor closed,
  -- and no runtime is published under two names.
  pub published_runtime_open :
      s.manager.closed ≡ false
      → (a : Address)
      → (occ a (pinned_by s.manager.current) ≤ 1)
        × (0 < occ a (pinned_by s.manager.current)
            → ((s.manager.heap a).retired ≡ false) × ((s.manager.heap a).closed ≡ false))
  published_runtime_open open_ a = let v = reached-Inv.at a in (v.once, λ p. v.live p open_)

  -- Nothing leaks: once every lease is released and no Publish or Close is on its way, every
  -- retired runtime has been closed.
  pub retired_runtime_closed :
      sum unfinished s.leases ≡ 0
      → s.publisher ≡ idle
      → (a : Address) → (s.manager.heap a).retired ≡ true
      → (s.manager.heap a).closed ≡ true
  retired_runtime_closed quiet free a gone =
      let v = reached-Inv.at a in
      let none_left = pins_of_finished a s.leases quiet in
      ground (arith, v.counted, v.complete, none_left)

  -- The channel `drained` is closed at most once, and it is closed exactly if the manager is closed
  -- and no lease is active. Then, when the caller of Close has done its part, every runtime of the
  -- last snapshot has been closed.
  pub drained_once :
      (s.manager.drained ≤ 1)
      × ((s.manager.drained ≡ 1) ↔ ((s.manager.closed ≡ true) × (sum unfinished s.leases ≡ 0)))
      × (s.manager.drained ≡ 1
          → s.publisher ≡ idle
          → (a : Address) → 0 < occ a (pinned_by s.manager.current)
          → (s.manager.heap a).closed ≡ true)
  drained_once =
      let t = reached-Inv.totals in
      (
        ground (arith, t.drained),
        ((λ e. ground (arith, t.drained, t.active)), λ e. ground (arith, t.drained, t.active)),
        λ e free a p.
            let v = reached-Inv.at a in
            let none_left = pins_of_finished a s.leases (ground (arith, t.drained, t.active)) in
            ground (arith, v.counted, v.complete, v.shut, none_left, t.drained),
      )
