-- ===== src/Runtime/Heap/Counts.antt =====
-- internal/runtime: what the loops over runtimes do to each cell.
use xuandu_gateway.Prelude.{
  ℕ, ◌+◌, ◌-◌, ◌≤◌, ◌<◌, ◌≡◌, Bool, true, List, [], ◌∷◌, if◌then◌else◌, eqb, keep, arith,
}
use xuandu_gateway.Runtime.Heap.{Address, Heap, update, pin, unpin, retire, retire_all}

-- How often an address stands in a list.
abbrev pub occ : Address → List Address → ℕ
occ a [] = 0
occ a (r ∷ rs) = (if eqb r a then 1 else 0) + occ a rs

pub pin_lem :
    (rs : List Address) (h : Heap) (a : Address)
    → pin rs h a ≡ record (h a) { refs = (h a).refs + occ a rs }
unfolding pin
pin_lem [] h a = ground arith
pin_lem (r ∷ rs) h a =
    ground (arith, pin_lem rs (update h r (record (h r) { refs = (h r).refs + 1 })) a)

pub unpin_lem :
    (rs : List Address) (h : Heap) (a : Address)
    → (unpin rs h).0 a ≡ record (h a) { refs = (h a).refs - occ a rs }
unfolding unpin
unpin_lem [] h a = ground arith
unpin_lem (r ∷ rs) h a =
    ground (arith, unpin_lem rs (update h r (record (h r) { refs = (h r).refs - 1 })) a)

-- A runtime is in the list to close exactly if this release has dropped its last reference after
-- its retirement.
pub unpin_closing :
    (rs : List Address) (h : Heap) (a : Address)
    → occ a rs ≤ (h a).refs
    → (0 < occ a (unpin rs h).1 → ((h a).retired ≡ true) × ((h a).refs ≡ occ a rs))
      × ((h a).retired ≡ true → (h a).refs ≡ occ a rs → 0 < occ a rs → 0 < occ a (unpin rs h).1)
unfolding unpin
unpin_closing [] h a le = (λ p. absurd (omega arith), λ p q r. absurd (omega arith))
unpin_closing (r ∷ rs) h a le =
    let le' : occ a rs ≤ (update h r (record (h r) { refs = (h r).refs - 1 }) a).refs =
      ground arith in
    let ih = unpin_closing rs (update h r (record (h r) { refs = (h r).refs - 1 })) a le' in
    (λ p. ground (arith, ih.0), λ p q s. ground (arith, ih.1))

pub retire_all_lem :
    (rs : List Address) (h : Heap) (a : Address)
    → retire_all rs h a ≡ (if eqb (occ a rs) 0 then h a else record (h a) { retired = true })
unfolding retire_all
retire_all_lem [] h a = ground arith
retire_all_lem (r ∷ rs) h a = ground (arith, retire_all_lem rs (retire r h) a)

pub occ-keep :
    (p : Address → Bool) (rs : List Address) (a : Address)
    → occ a (keep p rs) ≡ (if p a then occ a rs else 0)
occ-keep p [] a = ground arith
occ-keep p (r ∷ rs) a = ground (arith, occ-keep p rs a)
