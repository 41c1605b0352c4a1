-- ===== src/Idl/Loader/Fuel.antt =====
-- internal/idl/loader.go: the depth-first search ends within its fuel.
use xuandu_gateway.Prelude.{
  ℕ, zero, suc, ◌+◌, ◌≤◌, ◌<◌, ◌≡◌, refl, ◌≢◌, ◌∙◌, inl, inr, false, not, some, List, [], ◌∷◌, Text,
  ◌==◌, eq_iff, ==_refl, mem_text, lookup, Result, ok, err, ◌>>=◌, if◌then◌else◌, keep, length,
  Bool-cases, Option-cases, Result-cases, arith,
}
use xuandu_gateway.Idl.Ast.{Thrift, IdlError, out_of_fuel}
use xuandu_gateway.Idl.Loader.{
  Marks, Asts, Check, include_loop, enter, leave, check, escapes, target, enough_fuel,
}

-- How many files are not being visited.
abbrev pub unvisited : List Text → Asts → ℕ
unvisited v [] = 0
unvisited v ((name, ast) ∷ asts) = (if mem_text name v then 0 else 1) + unvisited v asts

unvisited-le :
    (name : Text) (v : List Text) (asts : Asts) → unvisited (name ∷ v) asts ≤ unvisited v asts
unfolding mem_text
unvisited-le name v [] = omega arith
unvisited-le name v ((j, ast) ∷ asts) = ground (arith, unvisited-le name v asts)

unvisited-lt :
    (name : Text) (v : List Text) (asts : Asts) (ast : Thrift)
    → lookup name asts ≡ some ast
    → mem_text name v ≡ false
    → unvisited (name ∷ v) asts < unvisited v asts
unfolding mem_text lookup
unvisited-lt name v [] ast h n = cc
unvisited-lt name v ((j, a) ∷ asts) ast h n =
    ground
      (arith, unvisited-le name v asts, unvisited-lt name v asts ast, eq_iff j name, eq_iff name j)

pub unvisited-le-length : (v : List Text) (asts : Asts) → unvisited v asts ≤ length asts
unvisited-le-length v [] = omega arith
unvisited-le-length v ((j, a) ∷ asts) = ground (arith, unvisited-le-length v asts)

keep_absent :
    (name : Text) (v : List Text) → mem_text name v ≡ false → keep (λ j. not (j == name)) v ≡ v
unfolding mem_text
keep_absent name [] h = refl
keep_absent name (j ∷ v) h = ground (arith, keep_absent name v, eq_iff j name, eq_iff name j)

visiting-leave :
    (name : Text) (m m' : Marks)
    → mem_text name m.visiting ≡ false
    → m'.visiting ≡ (enter name m).visiting
    → (leave name m').visiting ≡ m.visiting
unfolding enter leave
visiting-leave name m m' h e = rw e (ground (arith, ==_refl name, keep_absent name m.visiting h))

-- A search that starts with enough fuel does not run out, and restores `visiting`.
abbrev pub Restores : Marks → Result IdlError Marks → Type 0
Restores m (ok m') = m'.visiting ≡ m.visiting
Restores m (err e) = e ≢ out_of_fuel

Restores-move :
    (m n : Marks) (r : Result IdlError Marks)
    → m.visiting ≡ n.visiting
    → Restores m r
    → Restores n r
Restores-move m n (ok m') e h = h ∙ e
Restores-move m n (err x) e h = h

include_loop-Restores :
    (c : Check) (name : Text) (incs : List Text) (v : List Text)
    → ((n : Text) (m : Marks) → m.visiting ≡ v → Restores m (c n m))
    → (m : Marks) → m.visiting ≡ v
    → Restores m (include_loop c name incs m)
unfolding include_loop
include_loop-Restores c name [] v h m e = refl
include_loop-Restores c name (inc ∷ incs) v h m e = elim (Bool-cases (escapes name inc)) [
  | inl out ↦ rw out (λ p. cc)
  | inr inside ↦ rw inside (elim (Result-cases (c (target name inc) m)) [
    | inl (m', r) ↦
        let same : Restores m (c (target name inc) m) = h (target name inc) m e in
        let back : m'.visiting ≡ m.visiting = rw r at same in
        rw r (Restores-move m' m _ back (include_loop-Restores c name incs v h m' (back ∙ e)))
    | inr (x, r) ↦
        let kept : Restores m (c (target name inc) m) = h (target name inc) m e in
        let same : Restores m (err x) = rw r at kept in rw r same
  ])
]

descend-Restores :
    (name : Text) (m : Marks) (r : Result IdlError Marks)
    → mem_text name m.visiting ≡ false
    → Restores (enter name m) r
    → Restores m (r >>= λ m'. ok (leave name m'))
descend-Restores name m (ok m') n h = visiting-leave name m m' n h
descend-Restores name m (err e) n h = h

unvisited-enter :
    (fuel : ℕ) (name : Text) (m : Marks) (asts : Asts) (ast : Thrift)
    → lookup name asts ≡ some ast
    → mem_text name m.visiting ≡ false
    → unvisited m.visiting asts < suc fuel
    → unvisited (enter name m).visiting asts < fuel
unfolding enter
unvisited-enter fuel name m asts ast found new h =
    omega (arith, unvisited-lt name m.visiting asts ast found new)

pub check-Restores :
    (asts : Asts) (fuel : ℕ) (name : Text) (m : Marks)
    → unvisited m.visiting asts < fuel
    → Restores m (check asts fuel name m)
unfolding check
check-Restores asts zero name m h = absurd (omega arith)
check-Restores asts (suc fuel) name m h = elim (Bool-cases (mem_text name m.visiting)) [
  | inl open_ ↦ rw open_ (λ p. cc)
  | inr new ↦ rw new (elim (Bool-cases (mem_text name m.finished)) [
    | inl done ↦ rw done refl
    | inr fresh ↦ rw fresh (elim (Option-cases (lookup name asts)) [
      | inl missing ↦ rw missing (λ p. cc)
      | inr (ast, found) ↦ rw found (
          descend-Restores name m _ new (
            include_loop-Restores (check asts fuel) name ast.includes (enter name m).visiting
              (λ n m' e.
                check-Restores asts fuel n m'
                  (rw e (unvisited-enter fuel name m asts ast found new h)))
              (enter name m) refl))
    ])
  ])
]

-- Every name is checked with enough fuel, whatever the marks.
pub check-fueled :
    (asts : Asts) (name : Text) (m : Marks) → check asts (enough_fuel asts) name m ≢ err out_of_fuel
unfolding enough_fuel
check-fueled asts name m e =
    let h : Restores m (check asts (suc (length asts)) name m) =
      check-Restores asts (suc (length asts)) name m
        (omega (arith, unvisited-le-length m.visiting asts)) in
    (rw e at h) refl
