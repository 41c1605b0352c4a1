-- ===== src/Runtime/System/Invariant/Leases.antt =====
-- internal/runtime/snapshot.go: Acquire and Release keep the invariant.
use xuandu_gateway.Prelude.{
  ℕ, ◌≤◌, ◌≡◌, true, some, List, [], ◌∷◌, sum-set, le-sum, get_elem?, eqb, arith,
}
use xuandu_gateway.Runtime.Heap.{Address, unpin, close_cell}
use xuandu_gateway.Runtime.Heap.Counts.{occ, pin_lem, unpin_lem, unpin_closing}
use xuandu_gateway.Runtime.Manager.{Manager, pinned_by, close_runtime}
use xuandu_gateway.Runtime.System.{
  held, closing, released, Lease, Publisher, idle, publishing, finishing, System, acquire_step,
  drop_step, lease_close_step, finish_step,
}
use xuandu_gateway.Runtime.System.Counts.{pins, queues}
use xuandu_gateway.Runtime.System.Invariant.{PublisherAt, At}

module _ (a : Address) where
  pub PublisherAt-heap :
      (m n : Manager) (p : Publisher)
      → n.current ≡ m.current
      → n.closed ≡ m.closed
      → (n.heap a).retired ≡ (m.heap a).retired
      → (n.heap a).closed ≡ (m.heap a).closed
      → PublisherAt a m p
      → PublisherAt a n p
  PublisherAt-heap m n idle c d r x h = tt
  PublisherAt-heap m n (finishing rs) c d r x h = tt
  PublisherAt-heap m n (publishing old name next plan) c d r x h = ground (arith, h.2)

  pub PublisherAt-close :
      (m : Manager) (r : Address) (p : Publisher)
      → (eqb r a ≡ true → (m.heap a).retired ≡ true)
      → PublisherAt a m p
      → PublisherAt a (close_runtime r m) p
  unfolding close_runtime close_cell
  PublisherAt-close m r idle d h = tt
  PublisherAt-close m r (finishing rs) d h = tt
  PublisherAt-close m r (publishing old name next plan) d h = (h.0, h.1, λ n. ground (arith, h.2))

  pub acquire_step-At : (s : System) → At a s → At a (acquire_step s)
  unfolding acquire_step
  acquire_step-At s h =
      let cell = pin_lem (pinned_by s.manager.current) s.manager.heap a in
      record {
        counted = ground (arith, h.counted, cell);
        unpinned = ground (arith, h.unpinned, h.live, cell);
        queued = ground (arith, h.queued, h.live, cell);
        complete = ground (arith, h.complete, cell);
        live = ground (arith, h.live, cell);
        shut = ground (arith, h.shut, cell);
        once = ground (arith, h.once);
        publisher =
            PublisherAt-heap s.manager (acquire_step s).manager s.publisher (ground arith)
              (ground arith) (ground (arith, cell)) (ground (arith, cell)) h.publisher;
      }

  -- A lease that is released for the first time pins what its snapshot has.
  module _ (i : ℕ) (l : Lease) (s : System) (at_i : get_elem? s.leases i ≡ some l) where
    pub drop_step-At : l.phase ≡ held → At a s → At a (drop_step i l s)
    unfolding drop_step
    drop_step-At phase h =
        let rs = pinned_by l.snapshot in
        let here : pins a l ≡ occ a rs = ground arith in
        let none_queued : queues a l ≡ 0 = ground arith in
        let closing_list = (unpin rs s.manager.heap).1 in
        let l' : Lease = record l { phase = closing closing_list } in
        let cell = unpin_lem rs s.manager.heap a in
        let fits : occ a rs ≤ (s.manager.heap a).refs =
          omega (arith, le-sum (pins a) s.leases i l at_i, h.counted, here) in
        let ends = unpin_closing rs s.manager.heap a fits in
        let pinned = sum-set (pins a) s.leases i l l' at_i in
        let queue = sum-set (queues a) s.leases i l l' at_i in
        record {
          counted = ground (arith, h.counted, cell, pinned, here);
          unpinned = ground (arith, h.unpinned, cell);
          queued = λ q. ground (arith, h.queued, cell, queue, none_queued, ends.0);
          complete = λ r z. ground (arith, h.complete, cell, queue, none_queued, ends.1);
          live = ground (arith, h.live, cell);
          shut = ground (arith, h.shut, cell);
          once = ground (arith, h.once);
          publisher =
              PublisherAt-heap s.manager (drop_step i l s).manager s.publisher (ground arith)
                (ground arith) (ground (arith, cell)) (ground (arith, cell)) h.publisher;
        }

    pub lease_close_step-At :
        (r : Address) (rs : List Address)
        → l.phase ≡ closing (r ∷ rs)
        → At a s
        → At a (lease_close_step i l r rs s)
    unfolding lease_close_step close_cell
    lease_close_step-At r rs phase h =
        let l' : Lease = record l { phase = closing rs } in
        let no_pin : pins a l ≡ 0 = ground arith in
        let waits : queues a l ≡ occ a (r ∷ rs) = ground arith in
        let some_queue = le-sum (queues a) s.leases i l at_i in
        let pinned = sum-set (pins a) s.leases i l l' at_i in
        let queue = sum-set (queues a) s.leases i l l' at_i in
        record {
          counted = ground (arith, h.counted, pinned, no_pin);
          unpinned = λ c. ground (arith, h.unpinned, h.queued, some_queue, waits);
          queued = λ q. ground (arith, h.queued, queue, waits);
          complete = λ d z. ground (arith, h.complete, queue, waits);
          live = λ p o. ground (arith, h.live, h.queued, some_queue, waits);
          shut = ground (arith, h.shut);
          once = ground (arith, h.once);
          publisher =
              PublisherAt-close s.manager r s.publisher
                (λ e. ground (arith, h.queued, some_queue, waits)) h.publisher;
        }

    pub finish_step-At : l.phase ≡ closing [] → At a s → At a (finish_step i l s)
    unfolding finish_step
    finish_step-At phase h =
        let l' : Lease = record l { phase = released } in
        let no_pin : pins a l ≡ 0 = ground arith in
        let no_queue : queues a l ≡ 0 = ground arith in
        let pinned = sum-set (pins a) s.leases i l l' at_i in
        let queue = sum-set (queues a) s.leases i l l' at_i in
        record {
          counted = ground (arith, h.counted, pinned, no_pin);
          unpinned = ground (arith, h.unpinned);
          queued = λ q. ground (arith, h.queued, queue, no_queue);
          complete = λ r z. ground (arith, h.complete, queue, no_queue);
          live = ground (arith, h.live);
          shut = ground (arith, h.shut);
          once = ground (arith, h.once);
          publisher =
              PublisherAt-heap s.manager (finish_step i l s).manager s.publisher (ground arith)
                (ground arith) (ground arith) (ground arith) h.publisher;
        }
