-- ===== src/Runtime/System/Invariant/Drain.antt =====
-- internal/runtime/snapshot.go: `active` and the channel `drained`.
use xuandu_gateway.Prelude.{
  ℕ, ◌≡◌, refl, false, Option, some, List, [], ◌∷◌, Text, sum, sum-set, le-sum, get_elem?, arith,
}
use xuandu_gateway.Runtime.Heap.{Address, unpin}
use xuandu_gateway.Runtime.Manager.{Snapshot, Plan, pinned_by}
use xuandu_gateway.Runtime.System.{
  held, closing, released, Lease, System, acquire_step, drop_step, lease_close_step, finish_step,
  commit_step, shut_step, publisher_close_step, discard_step,
}
use xuandu_gateway.Runtime.System.Counts.{pins, queues, unfinished}
use xuandu_gateway.Runtime.System.Invariant.{Totals}

pub acquire_step-Totals : (s : System) → Totals s → Totals (acquire_step s)
unfolding acquire_step
acquire_step-Totals s h = record {
  active = ground (arith, h.active);
  drained = ground (arith, h.drained);
}

module _ (i : ℕ) (l : Lease) (s : System) (at_i : get_elem? s.leases i ≡ some l) where
  pub drop_step-Totals : l.phase ≡ held → Totals s → Totals (drop_step i l s)
  unfolding drop_step
  drop_step-Totals phase h =
      let rs = (unpin (pinned_by l.snapshot) s.manager.heap).1 in
      let moved = sum-set unfinished s.leases i l (record l { phase = closing rs }) at_i in
      record { active = ground (arith, h.active, moved); drained = ground (arith, h.drained) }

  pub lease_close_step-Totals :
      (r : Address) (rs : List Address)
      → l.phase ≡ closing (r ∷ rs)
      → Totals s
      → Totals (lease_close_step i l r rs s)
  unfolding lease_close_step
  lease_close_step-Totals r rs phase h =
      let moved = sum-set unfinished s.leases i l (record l { phase = closing rs }) at_i in
      record { active = ground (arith, h.active, moved); drained = ground (arith, h.drained) }

  pub finish_step-Totals : l.phase ≡ closing [] → Totals s → Totals (finish_step i l s)
  unfolding finish_step
  finish_step-Totals phase h =
      let moved = sum-set unfinished s.leases i l (record l { phase = released }) at_i in
      let one = le-sum unfinished s.leases i l at_i in
      record {
        active = ground (arith, h.active, moved, one);
        drained = ground (arith, h.drained, h.active, one);
      }

pub commit_step-Totals :
    (old : Snapshot) (name : Text) (next : Option Address) (plan : Plan) (s : System)
    → Totals s
    → Totals (commit_step old name next plan s)
unfolding commit_step
commit_step-Totals old name next plan s h = record {
  active = ground (arith, h.active);
  drained = ground (arith, h.drained);
}

pub shut_step-Totals : (s : System) → s.manager.closed ≡ false → Totals s → Totals (shut_step s)
unfolding shut_step
shut_step-Totals s open_ h = record {
  active = ground (arith, h.active);
  drained = ground (arith, h.drained);
}

pub publisher_close_step-Totals :
    (r : Address) (rs : List Address) (s : System) → Totals s → Totals (publisher_close_step r rs s)
unfolding publisher_close_step
publisher_close_step-Totals r rs s h = record {
  active = ground (arith, h.active);
  drained = ground (arith, h.drained);
}

pub discard_step-Totals : (r : Address) (s : System) → Totals s → Totals (discard_step r s)
unfolding discard_step
discard_step-Totals r s h = record {
  active = ground (arith, h.active);
  drained = ground (arith, h.drained);
}

-- When no lease is unfinished, none counts a runtime and none has one to close.
pub pins_of_finished :
    (a : Address) (ls : List Lease)
    → sum unfinished ls ≡ 0
    → (sum (pins a) ls ≡ 0) × (sum (queues a) ls ≡ 0)
pins_of_finished a [] e = (refl, refl)
pins_of_finished a (l ∷ ls) e = ground (arith, pins_of_finished a ls)
