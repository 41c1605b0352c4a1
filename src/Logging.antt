-- ===== src/Logging.antt =====
-- internal/logging/file.go: the log file of a process and its rotation. The disk holds the sizes of
-- the files: number 0 is xuandu.log and number n is xuandu.log.n.
pub mod Disk
pub mod Bound
use xuandu_gateway.Prelude.{
  ℕ, zero, suc, ◌+◌, Bool, true, false, not, ◌&&◌, ◌||◌, Option, none, some, Result, ok, err,
  if◌then◌else◌, ltb, leb, eqb, or_default,
}

abbrev pub Disk : Type 0
Disk = ℕ → Option ℕ

-- `handle` tells that `file` is not nil.
pub record File : Type 0 where
  pub handle : Bool
  pub size : ℕ
  pub limit : ℕ
  pub backups : ℕ
  pub closed : Bool

-- What the operating system answers in the course of one call: whether opening, Stat, Close and the
-- renames of the files succeed, and how many bytes a write takes and whether it succeeds. A call can
-- open the log twice: `reopens` and `restats` answer at the end of a rotation.
pub record Os : Type 0 where
  pub opens : Bool
  pub stats : Bool
  pub reopens : Bool
  pub restats : Bool
  pub closes : Bool
  pub renames : ℕ → Bool
  pub write : ℕ → ℕ × Bool

pub data LogError : Type 0 where
  file_closed entry_too_large open_failed close_failed rename_failed write_failed : LogError

unfoldable pub set_file : ℕ → Option ℕ → Disk → Disk
set_file n v d k = if eqb n k then v else d k

abbrev pub at_rotation : Os → Os
at_rotation os = record os { opens = os.reopens; stats = os.restats }

-- reopen: the file is created if it is not there.
unfoldable pub reopen : Os → File → Disk → (File × Disk) × Result LogError (Unit {0})
reopen os f d =
    let size = or_default (d 0) 0 in
    let d' = set_file 0 (some size) d in
    if not os.opens
    then ((f, d), err open_failed)
    else if not os.stats
    then ((f, d'), err open_failed)
    else ((record f { handle = true; size = size }, d'), ok tt)

-- open, after the directory has been made; Open gives it 50 MiB and 5 backups.
unfoldable pub open_log : Os → ℕ → ℕ → Disk → (File × Disk) × Result LogError (Unit {0})
open_log os limit backups d =
    reopen os
      (record { handle = false; size = 0; limit = limit; backups = backups; closed = false }) d

unfoldable pub move : ℕ → ℕ → Disk → Disk
move n m d = set_file n none (set_file m (d n) d)

-- The loop of rotate from `n` down to 2; a file that is missing is passed over.
unfoldable pub shift : Os → ℕ → Disk → Disk × Result LogError (Unit {0})
shift os zero d = (d, ok tt)
shift os (suc zero) d = (d, ok tt)
shift os (suc (suc n)) d = elim (d (suc n)) [
  | none ↦ shift os (suc n) d
  | some size ↦ elim (os.renames (suc n)) [
    | false ↦ (d, err rename_failed)
    | true ↦ shift os (suc n) (move (suc n) (suc (suc n)) d)
  ]
]

-- The last rename of rotate; xuandu.log is there, as it has been open.
unfoldable pub rename_log : Os → Disk → Disk × Result LogError (Unit {0})
rename_log os d = elim (d 0) [
  | none ↦ (d, err rename_failed)
  | some size ↦ if os.renames 0 then (move 0 1 d, ok tt) else (d, err rename_failed)
]

unfoldable pub rotate : Os → File → Disk → (File × Disk) × Result LogError (Unit {0})
rotate os f d =
    let f' : File = record f { handle = false } in
    if not os.closes
    then ((f', d), err close_failed)
    else (let (d', shifted) = shift os f.backups d in
        elim shifted [
          | err e ↦ ((f', d'), err e)
          | ok u ↦
              let (d2, renamed) = rename_log os d' in
              elim renamed [ err e ↦ ((f', d2), err e) | ok v ↦ reopen (at_rotation os) f' d2 ]
        ])

-- The write itself, on an open file.
unfoldable pub append : Os → ℕ → File → Disk → (File × Disk) × Result LogError ℕ
append os len f d =
    let (n, done) = os.write len in
    (
      (record f { size = f.size + n }, set_file 0 (some (f.size + n)) d),
      if done then ok n else err write_failed,
    )

unfoldable pub make_room : Os → ℕ → File → Disk → (File × Disk) × Result LogError (Unit {0})
make_room os len f d = if ltb f.limit (f.size + len) then rotate os f d else ((f, d), ok tt)

unfoldable pub ensure_open : Os → File → Disk → (File × Disk) × Result LogError (Unit {0})
ensure_open os f d = if f.handle then ((f, d), ok tt) else reopen os f d

-- Write of `len` bytes.
unfoldable pub write : Os → ℕ → File → Disk → (File × Disk) × Result LogError ℕ
write os len f d =
    if f.closed
    then ((f, d), err file_closed)
    else if ltb f.limit len
    then ((f, d), err entry_too_large)
    else (let ((f1, d1), opened) = ensure_open os f d in
        elim opened [
          | err e ↦ ((f1, d1), err e)
          | ok u ↦
              let ((f2, d2), room) = make_room os len f1 d1 in
              elim room [ err e ↦ ((f2, d2), err e) | ok v ↦ append os len f2 d2 ]
        ])

-- Close; closing the handle changes nothing on the disk.
unfoldable pub close : File → File
close f = record f { closed = true }
