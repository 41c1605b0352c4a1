-- ===== src/Runtime/System/Invariant/Publication.antt =====
-- internal/runtime/snapshot.go: Publish and Close keep the invariant.
use xuandu_gateway.Prelude.{
  ◌≤◌, ◌<◌, ◌≡◌, refl, inl, inr, true, false, Option, none, some, List, [], ◌∷◌, Text, Dict, lookup,
  remove, put, values, eqb, arith, Option-cases,
}
use xuandu_gateway.Runtime.Heap.{Address, retire, close_cell}
use xuandu_gateway.Runtime.Heap.Counts.{occ, retire_all_lem, occ-keep}
use xuandu_gateway.Runtime.Manager.{Snapshot, Manager, Plan, pinned_by, close_runtime}
use xuandu_gateway.Runtime.System.{
  Publisher, idle, publishing, finishing, System, Candidates, IsNotNext, next_is, commit_step,
  shut_step, publisher_close_step, discard_step,
}
use xuandu_gateway.Runtime.System.Invariant.{PublisherAt, At}

-- Taking a name out of a map takes out its runtime, and nothing else.
occ-remove-le :
    (a : Address) (name : Text) (m : Dict Address)
    → occ a (values (remove name m)) ≤ occ a (values m)
unfolding remove
occ-remove-le a name [] = omega arith
occ-remove-le a name ((j, r) ∷ m) = ground (arith, occ-remove-le a name m)

occ-lookup :
    (a r : Address) (name : Text) (m : Dict Address)
    → lookup name m ≡ some r
    → eqb r a ≡ true
    → 0 < occ a (values m)
unfolding lookup
occ-lookup a r name [] f e = cc
occ-lookup a r name ((j, q) ∷ m) f e = ground (arith, occ-lookup a r name m)

occ-remove_other :
    (a r : Address) (name : Text) (m : Dict Address)
    → lookup name m ≡ some r
    → eqb r a ≡ true
    → occ a (values m) ≤ 1
    → occ a (values (remove name m)) ≡ 0
unfolding remove lookup
occ-remove_other a r name [] f e o = cc
occ-remove_other a r name ((j, q) ∷ m) f e o =
    ground (arith, occ-remove_other a r name m, occ-remove-le a name m, occ-lookup a r name m)

module _ (a : Address) where
  candidate_at :
      (m : Manager) (name : Text) (next : Option Address)
      → Candidates m name next
      → next_is a next ≡ true
      → ((m.heap a).retired ≡ false)
        × ((m.heap a).closed ≡ false)
        × (occ a (values (remove name m.current.runtimes)) ≡ 0)
  candidate_at m name none c e = cc
  candidate_at m name (some n) c e = ground (arith, c.unretired, c.unclosed, c.unpublished)

  pub begin-At :
      (name : Text) (next : Option Address) (plan : Plan) (s : System)
      → s.publisher ≡ idle
      → s.manager.closed ≡ false
      → Candidates s.manager name next
      → At a s
      → At a (record s { publisher = publishing s.manager.current name next plan })
  begin-At name next plan s free open_ c h = record {
    counted = h.counted;
    unpinned = h.unpinned;
    queued = ground (arith, h.queued);
    complete = ground (arith, h.complete);
    live = h.live;
    shut = h.shut;
    once = h.once;
    publisher = (refl, open_, candidate_at s.manager name next c);
  }

  pub abort-At :
      (old : Snapshot) (name : Text) (next : Option Address) (plan : Plan) (s : System)
      → s.publisher ≡ publishing old name next plan
      → At a s
      → At a (record s { publisher = idle })
  abort-At old name next plan s e h = record {
    counted = h.counted;
    unpinned = h.unpinned;
    queued = ground (arith, h.queued);
    complete = ground (arith, h.complete);
    live = h.live;
    shut = h.shut;
    once = h.once;
    publisher = tt;
  }

  pub leave-At :
      (s : System) → s.publisher ≡ finishing [] → At a s → At a (record s { publisher = idle })
  leave-At s e h = record {
    counted = h.counted;
    unpinned = h.unpinned;
    queued = ground (arith, h.queued);
    complete = ground (arith, h.complete);
    live = h.live;
    shut = h.shut;
    once = h.once;
    publisher = tt;
  }

  pub publisher_close_step-At :
      (r : Address) (rs : List Address) (s : System)
      → s.publisher ≡ finishing (r ∷ rs)
      → At a s
      → At a (publisher_close_step r rs s)
  unfolding publisher_close_step close_cell
  publisher_close_step-At r rs s e h = record {
    counted = ground (arith, h.counted);
    unpinned = ground (arith, h.unpinned, h.queued);
    queued = ground (arith, h.queued);
    complete = ground (arith, h.complete);
    live = λ p o. ground (arith, h.live, h.queued);
    shut = ground (arith, h.shut);
    once = h.once;
    publisher = tt;
  }

  discard_publisher :
      (r : Address) (m : Manager) (p : Publisher)
      → IsNotNext r p
      → PublisherAt a m p
      → PublisherAt a (close_runtime r m) p
  unfolding close_runtime close_cell
  discard_publisher r m idle n h = tt
  discard_publisher r m (finishing rs) n h = tt
  discard_publisher r m (publishing old name none plan) n h = (h.0, h.1, λ e. cc)
  discard_publisher r m (publishing old name (some x) plan) n h =
      (h.0, h.1, λ e. ground (arith, h.2))

  pub discard_step-At :
      (r : Address) (s : System)
      → (s.manager.heap r).refs ≡ 0
      → occ r (pinned_by s.manager.current) ≡ 0
      → IsNotNext r s.publisher
      → At a s
      → At a (discard_step r s)
  unfolding discard_step close_cell
  discard_step-At r s z unpublished n h = record {
    counted = ground (arith, h.counted);
    unpinned = ground (arith, h.unpinned);
    queued = ground (arith, h.queued);
    complete = ground (arith, h.complete);
    live = ground (arith, h.live);
    shut = ground (arith, h.shut);
    once = h.once;
    publisher = discard_publisher r s.manager s.publisher n h.publisher;
  }

  pub shut_step-At :
      (s : System) → s.publisher ≡ idle → s.manager.closed ≡ false → At a s → At a (shut_step s)
  unfolding shut_step
  shut_step-At s free open_ h =
      let rs = pinned_by s.manager.current in
      let cell = retire_all_lem rs s.manager.heap a in
      let list = occ-keep (λ r. eqb (s.manager.heap r).refs 0) rs a in
      record {
        counted = ground (arith, h.counted, cell);
        unpinned = ground (arith, h.unpinned, cell);
        queued = ground (arith, h.queued, cell, list);
        complete = ground (arith, h.complete, cell, list);
        live = λ p o. cc;
        shut = ground (arith, cell);
        once = h.once;
        publisher = tt;
      }

  -- What the new snapshot and its retired runtime satisfy.
  pub commit_current-At :
      (name : Text) (next : Option Address) (plan : Plan) (s : System)
      → s.publisher ≡ publishing s.manager.current name next plan
      → s.manager.closed ≡ false
      → (next_is a next ≡ true
          → ((s.manager.heap a).retired ≡ false)
            × ((s.manager.heap a).closed ≡ false)
            × (occ a (values (remove name s.manager.current.runtimes)) ≡ 0))
      → At a s
      → At a (commit_step s.manager.current name next plan s)
  unfolding commit_step retire put
  commit_current-At name none plan s e open_ c h =
      let rs = s.manager.current.runtimes in
      let small = occ-remove-le a name rs in
      elim (Option-cases (lookup name rs)) [
        | inl absent ↦ record {
          counted = ground (arith, h.counted);
          unpinned = ground (arith, h.unpinned);
          queued = ground (arith, h.queued);
          complete = ground (arith, h.complete);
          live = ground (arith, h.live, small);
          shut = ground (arith, h.shut);
          once = ground (arith, h.once, small);
          publisher = tt;
        }
        | inr (r, found) ↦
            let gone = occ-remove_other a r name rs found in
            record {
              counted = ground (arith, h.counted);
              unpinned = ground (arith, h.unpinned);
              queued = ground (arith, h.queued);
              complete = ground (arith, h.complete);
              live = ground (arith, h.live, small, gone, h.once);
              shut = ground (arith, h.shut);
              once = ground (arith, h.once, small);
              publisher = tt;
            }
      ]
  commit_current-At name (some n) plan s e open_ c h =
      let rs = s.manager.current.runtimes in
      let small = occ-remove-le a name rs in
      elim (Option-cases (lookup name rs)) [
        | inl absent ↦ record {
          counted = ground (arith, h.counted);
          unpinned = ground (arith, h.unpinned);
          queued = ground (arith, h.queued);
          complete = ground (arith, h.complete);
          live = ground (arith, h.live, small, c);
          shut = ground (arith, h.shut);
          once = ground (arith, h.once, small, c);
          publisher = tt;
        }
        | inr (r, found) ↦
            let gone = occ-remove_other a r name rs found in
            record {
              counted = ground (arith, h.counted);
              unpinned = ground (arith, h.unpinned);
              queued = ground (arith, h.queued, c);
              complete = ground (arith, h.complete);
              live = ground (arith, h.live, small, gone, h.once, c);
              shut = ground (arith, h.shut);
              once = ground (arith, h.once, small, c);
              publisher = tt;
            }
      ]
