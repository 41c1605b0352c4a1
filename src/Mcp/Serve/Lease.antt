-- ===== src/Mcp/Serve/Lease.antt =====
-- internal/mcp/service.go: the lease of a request.
use xuandu_gateway.Prelude.{
  ℕ, ◌+◌, ◌-◌, ◌≤◌, ◌<◌, ◌≡◌, refl, subst, inl, inr, false, Option, List, [], ◌∷◌, ◌==◌, bytes, eqb,
  Bool-cases, Result-cases, arith,
}
use xuandu_gateway.Platform.{Platform}
use xuandu_gateway.Runtime.Heap.{Address, Heap, update, pin, unpin}
use xuandu_gateway.Runtime.Heap.Counts.{occ, pin_lem, unpin_lem, unpin_closing}
use xuandu_gateway.Runtime.Manager.{
  Manager, pinned_by, acquire, drop_refs, drop_active, close_list, release,
}
use xuandu_gateway.Mcp.Build.{McpSnapshot}
use xuandu_gateway.Mcp.Serve.{Request, select_server, serve_http}

-- Nothing that the manager holds differs.
pub record IsRestored (m n : Manager) : Type 0 where
  pub cells : (a : Address) → n.heap a ≡ m.heap a
  pub active : n.active ≡ m.active
  pub drained : n.drained ≡ m.drained
  pub current : n.current ≡ m.current
  pub closed : n.closed ≡ m.closed

abbrev pub PublishedUnretired : Manager → Type 0
PublishedUnretired m = (a : Address) → 0 < occ a (pinned_by m.current) → (m.heap a).retired ≡ false

occ-unpin : (rs : List Address) (h : Heap) (a : Address) → occ a (unpin rs h).1 ≤ occ a rs
unfolding unpin
occ-unpin [] h a = omega arith
occ-unpin (r ∷ rs) h a =
    ground (arith, occ-unpin rs (update h r (record (h r) { refs = (h r).refs - 1 })) a)

no_occ : (rs : List Address) → ((a : Address) → occ a rs ≡ 0) → rs ≡ []
no_occ [] h = refl
no_occ (r ∷ rs) h = absurd (ground (arith, h r))

unpin-pin_closing :
    (rs : List Address) (h : Heap)
    → ((a : Address) → 0 < occ a rs → (h a).retired ≡ false)
    → (a : Address) → occ a (unpin rs (pin rs h)).1 ≡ 0
unpin-pin_closing rs h live a =
    let le : occ a rs ≤ (pin rs h a).refs = ground (arith, pin_lem rs h a) in
    let closes = unpin_closing rs (pin rs h) a le in
    let retired : (pin rs h a).retired ≡ (h a).retired = ground (arith, pin_lem rs h a) in
    let refs : (pin rs h a).refs ≡ (h a).refs + occ a rs = ground (arith, pin_lem rs h a) in
    elim (Bool-cases (eqb (occ a (unpin rs (pin rs h)).1) 0)) [
      | inl zero_ ↦ ground arith
      | inr some_ ↦
          let why = closes.0 (ground arith) in
          elim (Bool-cases (eqb (occ a rs) 0)) [
            | inl absent ↦ ground (arith, occ-unpin rs (pin rs h) a)
            | inr present ↦ absurd (ground (arith, live a, why.0))
          ]
    ]

unpin-pin_cell : (rs : List Address) (h : Heap) (a : Address) → (unpin rs (pin rs h)).0 a ≡ h a
unpin-pin_cell rs h a = ground (arith, unpin_lem rs (pin rs h) a, pin_lem rs h a)

release-acquire :
    (m : Manager)
    → PublishedUnretired m
    → m.closed ≡ false
    → IsRestored m (release m.current (acquire m).0)
unfolding release acquire drop_refs close_list drop_active
release-acquire m live open_ =
    let rs = pinned_by m.current in
    let nothing : (unpin rs (pin rs m.heap)).1 ≡ [] = no_occ _ (unpin-pin_closing rs m.heap live) in
    record {
      cells = λ a. ground (arith, nothing, unpin-pin_cell rs m.heap a);
      active = ground (arith, nothing);
      drained = ground (arith, nothing);
      current = ground (arith, nothing);
      closed = ground (arith, nothing);
    }

-- A request acquires at most one lease and gives it back on every branch: with runtimes of the
-- current snapshot that are not retired and no other step between, the references, the flags of all
-- runtimes, the count of leases and the current snapshot are afterwards what they were.
pub serve_http-IsRestored :
    (p : Platform) (now : ℕ) (current : Option McpSnapshot) (r : Request) (m : Manager)
    → PublishedUnretired m
    → IsRestored m (serve_http p now current r m).0
unfolding serve_http acquire
serve_http-IsRestored p now current r m live =
    let same : IsRestored m m = record {
      cells = λ a. refl;
      active = refl;
      drained = refl;
      current = refl;
      closed = refl;
    } in
    elim (Bool-cases (r.path == bytes "/healthz")) [
      | inl health ↦ subst (IsRestored m) (ground arith) same
      | inr other ↦ elim (Result-cases (select_server now current r)) [
        | inr (refusal, refused) ↦ subst (IsRestored m) (ground arith) same
        | inl ((snapshot, id, cs), selected) ↦ elim (Bool-cases m.closed) [
          | inl shut ↦ subst (IsRestored m) (ground arith) same
          | inr running ↦ subst (IsRestored m) (ground arith) (release-acquire m live running)
        ]
      ]
    ]
