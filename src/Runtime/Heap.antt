-- ===== src/Runtime/Heap.antt =====
-- internal/runtime/runtime.go: service runtimes, which snapshots share by pointer. An address stands
-- for the pointer; the fields that the manager changes are in its cell.
pub mod Counts
use xuandu_gateway.Prelude.{
  ℕ, ◌+◌, ◌-◌, Bool, true, ◌&&◌, List, [], ◌∷◌, Text, if◌then◌else◌, eqb, keep,
}
use xuandu_gateway.Metadata.Model.{App}
use xuandu_gateway.Idl.Ast.{Route}

-- The fields of ServiceRuntime that stay as the builder sets them.
pub record Info : Type 0 where
  pub app_name : Text
  pub service_name : Text
  pub revision : Text
  pub routes : List Route
  pub timeout : ℕ
  pub config : App

-- `closed` tells that closeOnce has run, and the client is closed.
pub record Cell : Type 0 where
  pub info : Info
  pub refs : ℕ
  pub retired : Bool
  pub closed : Bool

abbrev pub Address : Type 0
Address = ℕ

abbrev pub Heap : Type 0
Heap = Address → Cell

unfoldable pub update : Heap → Address → Cell → Heap
update h r c a = if eqb r a then c else h a

-- Acquire: `r.refs++` for each runtime.
unfoldable pub pin : List Address → Heap → Heap
unfolding update
pin [] h = h
pin (r ∷ rs) h = pin rs (update h r (record (h r) { refs = (h r).refs + 1 }))

-- Release: `r.refs--` for each runtime, and the list of those to close.
unfoldable pub unpin : List Address → Heap → Heap × List Address
unfolding update
unpin [] h = (h, [])
unpin (r ∷ rs) h =
    let c = record (h r) { refs = (h r).refs - 1 } in
    let (h', closing) = unpin rs (update h r c) in
    (h', if eqb c.refs 0 && c.retired then r ∷ closing else closing)

unfoldable pub retire : Address → Heap → Heap
unfolding update
retire r h = update h r (record (h r) { retired = true })

unfoldable pub retire_all : List Address → Heap → Heap
unfolding retire
retire_all [] h = h
retire_all (r ∷ rs) h = retire_all rs (retire r h)

-- ServiceRuntime.Close: closeOnce makes a second call do nothing.
unfoldable pub close_cell : Address → Heap → Heap
unfolding update
close_cell r h = update h r (record (h r) { closed = true })
