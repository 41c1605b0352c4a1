-- ===== src/Logging/Bound.antt =====
-- internal/logging/file.go: the bound on the disk space.
use xuandu_gateway.Prelude.{
  ℕ, ◌+◌, ◌≤◌, ◌≡◌, refl, subst, inl, inr, true, false, none, some, or_default, Result, ok, err,
  ltb, Bool-cases, Result-cases, arith,
}
use xuandu_gateway.Logging.{
  Disk, File, Os, LogError, open_failed, close_failed, set_file, at_rotation, reopen, shift,
  rename_log, rotate, append, make_room, ensure_open, write,
}
use xuandu_gateway.Logging.Disk.{
  IsBounded, set_file-IsBounded, shift-IsBounded, rename_log-IsBounded,
}

-- The invariant of a log file: its disk is bounded, and the size of an open file is known.
pub record IsLog (f : File) (d : Disk) : Type 0 where
  pub bounded : IsBounded f.limit f.backups d
  pub known : f.handle ≡ true → d 0 ≡ some f.size

-- The outcome of a step before the write.
pub record Stepped (f : File) (out : (File × Disk) × Result LogError (Unit {0})) : Type 0 where
  pub log : IsLog out.0.0 out.0.1
  pub same_limit : out.0.0.limit ≡ f.limit
  pub same_backups : out.0.0.backups ≡ f.backups
  pub opened : out.1 ≡ ok tt → out.0.0.handle ≡ true

abbrev Out : Type 0
Out = (File × Disk) × Result LogError (Unit {0})

stepped : (f : File) (x y : Out) → x ≡ y → Stepped f x → Stepped f y
stepped f x y e = subst (Stepped f) e

-- A step that fails without a handle.
failed :
    (f g : File) (d : Disk) (e : LogError)
    → IsBounded f.limit f.backups d
    → g ≡ record f { handle = false }
    → Stepped f ((g, d), err e)
failed f g d e h same = record {
  log = record { bounded = ground (arith, h); known = λ o. absurd (ground arith) };
  same_limit = ground arith;
  same_backups = ground arith;
  opened = λ o. cc;
}

reopen-Stepped :
    (os : Os) (f : File) (d : Disk)
    → IsBounded f.limit f.backups d
    → f.handle ≡ false
    → Stepped f (reopen os f d)
unfolding reopen set_file
reopen-Stepped os f d h none_open =
    let size = or_default (d 0) 0 in
    let fits : size ≤ f.limit = ground (arith, h.small 0 size) in
    let d' = set_file 0 (some size) d in
    let bounded = set_file-IsBounded f.limit f.backups 0 size d (omega arith) fits h in
    elim (Bool-cases os.opens) [
      | inr fails ↦
          stepped f ((f, d), err open_failed) (reopen os f d) (ground arith)
            (failed f f d open_failed h (ground arith))
      | inl opens ↦ elim (Bool-cases os.stats) [
        | inr fails ↦
            stepped f ((f, d'), err open_failed) (reopen os f d) (ground arith)
              (failed f f d' open_failed bounded (ground arith))
        | inl stats ↦
            stepped f ((record f { handle = true; size = size }, d'), ok tt) (reopen os f d)
              (ground arith)
              (record {
                log = record { bounded = bounded; known = λ o. refl };
                same_limit = refl;
                same_backups = refl;
                opened = λ o. refl;
              })
      ]
    ]

reopen-size :
    (os : Os) (f : File) (d : Disk)
    → d 0 ≡ none
    → (reopen os f d).1 ≡ ok tt
    → (reopen os f d).0.0.size ≡ 0
unfolding reopen
reopen-size os f d gone e = ground arith

rotate-Stepped :
    (os : Os) (f : File) (d : Disk)
    → 1 ≤ f.backups
    → IsBounded f.limit f.backups d
    → Stepped f (rotate os f d) × ((rotate os f d).1 ≡ ok tt → (rotate os f d).0.0.size ≡ 0)
unfolding rotate
rotate-Stepped os f d le h =
    let f' : File = record f { handle = false } in
    let whole = rotate os f d in
    let (d1, shifted) = shift os f.backups d in
    let h1 = shift-IsBounded os f.limit f.backups f.backups d (omega arith) h in
    elim (Bool-cases os.closes) [
      | inr fails ↦ (
        stepped f ((f', d), err close_failed) whole (ground arith)
            (failed f f' d close_failed h refl),
        λ e. absurd (ground arith),
      )
      | inl closes ↦ elim (Result-cases shifted) [
        | inr (e, fails) ↦ (
          stepped f ((f', d1), err e) whole (ground arith) (failed f f' d1 e h1 refl),
          λ o. absurd (ground arith),
        )
        | inl (u, moves) ↦
            let (d2, renamed) = rename_log os d1 in
            let (h2, gone) = rename_log-IsBounded os f.limit f.backups d1 le h1 in
            elim (Result-cases renamed) [
              | inr (e, fails) ↦ (
                stepped f ((f', d2), err e) whole (ground arith) (failed f f' d2 e h2 refl),
                λ o. absurd (ground arith),
              )
              | inl (v, done) ↦
                  let again = reopen-Stepped (at_rotation os) f' d2 h2 refl in
                  let same : reopen (at_rotation os) f' d2 ≡ whole = ground arith in
                  (
                    stepped f (reopen (at_rotation os) f' d2) whole same (record {
                      log = again.log;
                      same_limit = again.same_limit;
                      same_backups = again.same_backups;
                      opened = again.opened;
                    }),
                    λ o. ground (arith, same, reopen-size (at_rotation os) f' d2 (gone done)),
                  )
            ]
      ]
    ]

make_room-Stepped :
    (os : Os) (len : ℕ) (f : File) (d : Disk)
    → 1 ≤ f.backups
    → len ≤ f.limit
    → IsLog f d
    → f.handle ≡ true
    → Stepped f (make_room os len f d)
      × ((make_room os len f d).1 ≡ ok tt → (make_room os len f d).0.0.size + len ≤ f.limit)
unfolding make_room
make_room-Stepped os len f d le short h open_ = elim (Bool-cases (ltb f.limit (f.size + len))) [
  | inl full ↦
      let (r, empty) = rotate-Stepped os f d le h.bounded in
      (
        stepped f (rotate os f d) (make_room os len f d) (ground arith) r,
        λ o. ground (arith, empty),
      )
  | inr room ↦ (
    stepped f ((f, d), ok tt) (make_room os len f d) (ground arith)
        (record { log = h; same_limit = refl; same_backups = refl; opened = λ o. open_ }),
    λ o. ground arith,
  )
]

ensure_open-Stepped : (os : Os) (f : File) (d : Disk) → IsLog f d → Stepped f (ensure_open os f d)
unfolding ensure_open
ensure_open-Stepped os f d h = elim (Bool-cases f.handle) [
  | inl open_ ↦
      stepped f ((f, d), ok tt) (ensure_open os f d) (ground arith)
        (record { log = h; same_limit = refl; same_backups = refl; opened = λ o. open_ })
  | inr shut ↦
      stepped f (reopen os f d) (ensure_open os f d) (ground arith)
        (reopen-Stepped os f d h.bounded shut)
]

append-IsLog :
    (os : Os) (len : ℕ) (f : File) (d : Disk)
    → (os.write len).0 ≤ len
    → f.size + len ≤ f.limit
    → IsLog f d
    → IsLog (append os len f d).0.0 (append os len f d).0.1
unfolding append set_file
append-IsLog os len f d short room h = record {
  bounded =
      set_file-IsBounded f.limit f.backups 0 (f.size + (os.write len).0) d (omega arith)
        (omega (arith, short, room)) h.bounded;
  known = λ o. refl;
}

-- Write keeps the log within its bounds, whatever fails in its course: with a backup or more and an
-- operating system that takes no more bytes than it is given, there are afterwards no more files
-- than the log and its backups, none of them is longer than the limit, and the size that an open
-- file remembers is the one on the disk.
pub write-IsLog :
    (os : Os) (len : ℕ) (f : File) (d : Disk)
    → 1 ≤ f.backups
    → (os.write len).0 ≤ len
    → IsLog f d
    → IsLog (write os len f d).0.0 (write os len f d).0.1
unfolding write
write-IsLog os len f d le short h =
    let whole = write os len f d in
    let done : (o : File × Disk) → o ≡ whole.0 → IsLog o.0 o.1 → IsLog whole.0.0 whole.0.1 =
      λ o e. subst (λ (q : File × Disk). IsLog q.0 q.1) e in
    elim (Bool-cases f.closed) [
      | inl shut ↦ done (f, d) (ground arith) h
      | inr live ↦ elim (Bool-cases (ltb f.limit len)) [
        | inl large ↦ done (f, d) (ground arith) h
        | inr fits ↦
            let s1 = ensure_open-Stepped os f d h in
            let ((f1, d1), opened) = ensure_open os f d in
            elim (Result-cases opened) [
              | inr (e, fails) ↦ done (f1, d1) (ground arith) s1.log
              | inl (u, is_open) ↦
                  let (s2, room) =
                    make_room-Stepped os len f1 d1 (omega (arith, s1.same_backups, le))
                      (ground (arith, s1.same_limit)) s1.log (s1.opened is_open) in
                  let ((f2, d2), made) = make_room os len f1 d1 in
                  elim (Result-cases made) [
                    | inr (e, fails) ↦ done (f2, d2) (ground arith) s2.log
                    | inl (v, is_made) ↦ done (append os len f2 d2).0 (ground arith) (
                        append-IsLog os len f2 d2 short (omega (arith, room is_made, s2.same_limit))
                          s2.log)
                  ]
            ]
      ]
    ]
