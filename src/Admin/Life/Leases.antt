-- ===== src/Admin/Life/Leases.antt =====
-- What Acquire, Release and Close leave of the runtimes that are accounted for.
use xuandu_gateway.Prelude.{
  ◌<◌, ◌-◌, ◌≡◌, refl, ap, ◌∙◌, lookup, subst, ◌⊎◌, inl, inr, true, ◌&&◌, List, [], ◌∷◌, Bool-cases,
  arith, eqb,
}
use xuandu_gateway.Runtime.Heap.{Address, Heap, update, unpin, close_cell}
use xuandu_gateway.Runtime.Heap.Counts.{occ, pin_lem, unpin_lem, retire_all_lem}
use xuandu_gateway.Runtime.Manager.{
  Snapshot, Manager, acquire, release, drop_refs, drop_active, close_runtime, close_list,
  close_manager, pinned_by,
}
use xuandu_gateway.Runtime.Manager.Effect.{IsLeased}
use xuandu_gateway.Runtime.Manager.Tables.{close_list-current}
use xuandu_gateway.Admin.Life.{shut}
use xuandu_gateway.Admin.Accounts.{
  IsAccounted, Keeps, published, closed, leased, close_runtime-Keeps,
}

unpin_held :
    (rs : List Address) (h : Heap) (a : Address)
    → (h a).retired ≡ true
    → 0 < (h a).refs
    → (0 < ((unpin rs h).0 a).refs) ⊎ (0 < occ a (unpin rs h).1)
unfolding unpin update
unpin_held [] h a retired held = inl held
unpin_held (r ∷ rs) h a retired held =
    let c = record (h r) { refs = (h r).refs - 1 } in
    let h1 = update h r c in
    elim (Bool-cases (eqb r a && eqb c.refs 0)) [
      | inl last ↦ inr (ground arith)
      | inr more ↦ elim (unpin_held rs h1 a (ground arith) (ground arith)) [
        | inl still ↦ inl (ground arith)
        | inr listed ↦ inr (ground arith)
      ]
    ]

close_list-closed :
    (rs : List Address) (m : Manager) (a : Address)
    → (0 < occ a rs) ⊎ ((m.heap a).closed ≡ true)
    → ((close_list rs m).heap a).closed ≡ true
unfolding close_list close_runtime close_cell update
close_list-closed [] m a (inl none_left) = absurd (omega arith)
close_list-closed [] m a (inr shut) = shut
close_list-closed (r ∷ rs) m a h = close_list-closed rs (close_runtime r m) a (elim h [
  | inr shut ↦ inr (ground arith)
  | inl listed ↦ elim (Bool-cases (eqb r a)) [
    | inl hit ↦ inr (ground arith)
    | inr other ↦ inl (ground arith)
  ]
])

close_list-Keeps : (rs : List Address) (m : Manager) → Keeps m (close_list rs m)
unfolding close_list
close_list-Keeps [] m a known = known
close_list-Keeps (r ∷ rs) m a known =
    close_list-Keeps rs (close_runtime r m) a (close_runtime-Keeps r m a known)

pub close_list-cell :
    (rs : List Address) (m : Manager) (a : Address)
    → (((close_list rs m).heap a).refs ≡ (m.heap a).refs)
      × (((close_list rs m).heap a).retired ≡ (m.heap a).retired)
      × (((close_list rs m).heap a).info ≡ (m.heap a).info)
unfolding close_list close_runtime close_cell update
close_list-cell [] m a = (refl, refl, refl)
close_list-cell (r ∷ rs) m a = ground (arith, close_list-cell rs (close_runtime r m) a)

-- A change that leaves the snapshot, no closed runtime open, and no retired runtime forgotten.
cells-Keeps :
    (m m' : Manager)
    → m'.current ≡ m.current
    → ((a : Address) → (m.heap a).closed ≡ true → (m'.heap a).closed ≡ true)
    → ((a : Address) → IsLeased m a → ((m'.heap a).closed ≡ true) ⊎ IsLeased m' a)
    → Keeps m m'
cells-Keeps m m' same_current shuts holds a (published name found) =
    published name (ap (λ (s : Snapshot). lookup name s.runtimes) same_current ∙ found)
cells-Keeps m m' same_current shuts holds a (closed shut) = closed (shuts a shut)
cells-Keeps m m' same_current shuts holds a (leased held) = elim (holds a held) [
  | inl shut ↦ closed shut
  | inr still ↦ leased still
]

pub acquire-Keeps : (m : Manager) → Keeps m (acquire m).0
unfolding acquire
acquire-Keeps m =
    cells-Keeps m (acquire m).0 (ground arith)
      (λ a shut. ground (arith, pin_lem (pinned_by m.current) m.heap a))
      (λ a held. inr (ground (arith, pin_lem (pinned_by m.current) m.heap a)))

pub release-Keeps : (s : Snapshot) (m : Manager) → Keeps m (release s m)
unfolding release drop_refs drop_active
release-Keeps s m =
    let rs = pinned_by s in
    let (h, closing) = unpin rs m.heap in
    let m1 : Manager = record m { heap = h } in
    cells-Keeps m (release s m) (close_list-current closing m1)
      (λ a shut. close_list-closed closing m1 a (inr (ground (arith, unpin_lem rs m.heap a))))
      (λ a held. elim (unpin_held rs m.heap a held.0 held.1) [
        | inr listed ↦ inl (close_list-closed closing m1 a (inl listed))
        | inl still ↦ inr (ground (arith, unpin_lem rs m.heap a, close_list-cell closing m1 a))
      ])

pub shut-Keeps : (m : Manager) → Keeps m (shut m)
unfolding shut close_manager
shut-Keeps m a known = elim (Bool-cases m.closed) [
  | inl already ↦ subst (λ x. IsAccounted x a) {x = m} {y = shut m} (ground arith) known
  | inr open_ ↦
      let rs = pinned_by m.current in
      let (m1, closing) = close_manager m in
      let retired =
        cells-Keeps m m1 refl (λ b shut. ground (arith, retire_all_lem rs m.heap b))
          (λ b held. inr (ground (arith, retire_all_lem rs m.heap b))) in
      subst (λ x. IsAccounted x a) {x = close_list closing m1} {y = shut m} (ground arith)
        (close_list-Keeps closing m1 a (retired a known))
]
