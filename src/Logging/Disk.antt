-- ===== src/Logging/Disk.antt =====
-- internal/logging/file.go: what the renames leave on the disk.
use xuandu_gateway.Prelude.{
  ℕ, zero, suc, ◌≤◌, ◌<◌, ◌≡◌, subst, inl, inr, none, some, ok, Bool-cases, Option-cases, arith,
}
use xuandu_gateway.Logging.{Disk, Os, set_file, move, shift, rename_log}

-- No more files than the log and its backups, and none longer than the limit.
pub record IsBounded (limit backups : ℕ) (d : Disk) : Type 0 where
  pub few : (n : ℕ) → backups < n → d n ≡ none
  pub small : (n s : ℕ) → d n ≡ some s → s ≤ limit

pub set_file-IsBounded :
    (limit backups n size : ℕ) (d : Disk)
    → n ≤ backups
    → size ≤ limit
    → IsBounded limit backups d
    → IsBounded limit backups (set_file n (some size) d)
unfolding set_file
set_file-IsBounded limit backups n size d le fits h = record {
  few = λ k far. ground (arith, h.few k far);
  small = λ k s e. ground (arith, h.small k s);
}

move-IsBounded :
    (limit backups n m : ℕ) (d : Disk)
    → m ≤ backups
    → IsBounded limit backups d
    → IsBounded limit backups (move n m d)
unfolding move set_file
move-IsBounded limit backups n m d le h = record {
  few = λ k far. ground (arith, h.few k far);
  small = λ k s e. ground (arith, h.small k s, h.small n s);
}

pub shift-IsBounded :
    (os : Os) (limit backups n : ℕ) (d : Disk)
    → n ≤ backups
    → IsBounded limit backups d
    → IsBounded limit backups (shift os n d).0
unfolding shift
shift-IsBounded os limit backups zero d le h = h
shift-IsBounded os limit backups (suc zero) d le h = h
shift-IsBounded os limit backups (suc (suc n)) d le h =
    let whole = (shift os (suc (suc n)) d).0 in
    elim (Option-cases (d (suc n))) [
      | inl missing ↦
          subst (IsBounded limit backups) {x = (shift os (suc n) d).0} {y = whole} (ground arith)
            (shift-IsBounded os limit backups (suc n) d (omega arith) h)
      | inr (size, found) ↦ elim (Bool-cases (os.renames (suc n))) [
        | inr fails ↦ subst (IsBounded limit backups) {x = d} {y = whole} (ground arith) h
        | inl moves ↦
            let d' = move (suc n) (suc (suc n)) d in
            subst (IsBounded limit backups) {x = (shift os (suc n) d').0} {y = whole} (ground arith)
              (shift-IsBounded os limit backups (suc n) d' (omega arith)
                (move-IsBounded limit backups (suc n) (suc (suc n)) d le h))
      ]
    ]

pub rename_log-IsBounded :
    (os : Os) (limit backups : ℕ) (d : Disk)
    → 1 ≤ backups
    → IsBounded limit backups d
    → IsBounded limit backups (rename_log os d).0
      × ((rename_log os d).1 ≡ ok tt → (rename_log os d).0 0 ≡ none)
unfolding rename_log move set_file
rename_log-IsBounded os limit backups d le h =
    let out = rename_log os d in
    elim (Option-cases (d 0)) [
      | inl missing ↦ (
        subst (IsBounded limit backups) {x = d} {y = out.0} (ground arith) h,
        λ e. absurd (ground arith),
      )
      | inr (size, found) ↦ elim (Bool-cases (os.renames 0)) [
        | inr fails ↦ (
          subst (IsBounded limit backups) {x = d} {y = out.0} (ground arith) h,
          λ e. absurd (ground arith),
        )
        | inl moves ↦ (
          subst (IsBounded limit backups) {x = move 0 1 d} {y = out.0} (ground arith)
              (move-IsBounded limit backups 0 1 d le h),
          λ e. ground arith,
        )
      ]
    ]
