-- ===== src/Idl/Loader/Order.antt =====
-- internal/idl/loader.go: an accepted archive is ordered along its includes.
use xuandu_gateway.Prelude.{
  ℕ, zero, suc, ◌≡◌, ◌∙◌, inl, inr, true, false, some, List, [], ◌∷◌, Text, eq_iff, ==_refl,
  mem_text, Dict, lookup, keys, sort_texts, Result, ok, err, ◌>>=◌, All, Bool-cases, Option-cases,
  Result-cases, >>=-eq-ok, arith,
}
use xuandu_gateway.Prelude.Sorted.{mem-sort_texts}
use xuandu_gateway.Idl.Ast.{Thrift, Parser, Bundle, Route, IdlError}
use xuandu_gateway.Idl.Loader.{
  Marks, Asts, Check, include_loop, enter, leave, check, escapes, target, enough_fuel, parse_all,
  bundle_step, name_loop, load_archive,
}

-- Each include of `name` stays below idl/ and names a file of `order`.
abbrev pub IncludesIn : Text → List Text → List Text → Type 0
IncludesIn name order =
    All λ inc. (escapes name inc ≡ false) × (mem_text (target name inc) order ≡ true)

-- Every file stands before the files that it includes, all of which are in the archive.
abbrev pub IsOrdered : Asts → List Text → Type 0
IsOrdered asts [] = Unit
IsOrdered asts (name ∷ order) =
    ((ast : Thrift) × (lookup name asts ≡ some ast) × IncludesIn name order ast.includes)
    × IsOrdered asts order

abbrev pub Within : List Text → List Text → Type 0
Within xs ys = (j : Text) → mem_text j xs ≡ true → mem_text j ys ≡ true

-- What a search that succeeds has found.
abbrev Grows : Asts → Text → Marks → Result IdlError Marks → Type 0
Grows asts name m (err e) = Unit
Grows asts name m (ok m') =
    IsOrdered asts m'.finished × (mem_text name m'.finished ≡ true) × Within m.finished m'.finished

abbrev LoopGrows : Asts → Text → List Text → Marks → Result IdlError Marks → Type 0
LoopGrows asts name incs m (err e) = Unit
LoopGrows asts name incs m (ok m') =
    IsOrdered asts m'.finished × IncludesIn name m'.finished incs × Within m.finished m'.finished

LoopGrows-cons :
    (asts : Asts) (name inc : Text) (incs : List Text) (m m' : Marks) (r : Result IdlError Marks)
    → escapes name inc ≡ false
    → Grows asts (target name inc) m (ok m')
    → LoopGrows asts name incs m' r
    → LoopGrows asts name (inc ∷ incs) m r
LoopGrows-cons asts name inc incs m m' (err e) h g l = tt
LoopGrows-cons asts name inc incs m m' (ok n) h g l =
    (l.0, ((h, l.2 _ g.1), l.1), λ j p. l.2 j (g.2 j p))

include_loop-Grows :
    (asts : Asts) (c : Check) (name : Text) (incs : List Text)
    → ((n : Text) (m : Marks) → IsOrdered asts m.finished → Grows asts n m (c n m))
    → (m : Marks) → IsOrdered asts m.finished
    → LoopGrows asts name incs m (include_loop c name incs m)
unfolding include_loop
include_loop-Grows asts c name [] h m o = (o, tt, λ j p. p)
include_loop-Grows asts c name (inc ∷ incs) h m o = elim (Bool-cases (escapes name inc)) [
  | inl out ↦ rw out tt
  | inr inside ↦ rw inside (elim (Result-cases (c (target name inc) m)) [
    | inl (m', r) ↦
        let g : Grows asts (target name inc) m (ok m') = rw r at (h (target name inc) m o) in
        rw r (
          LoopGrows-cons asts name inc incs m m' _ inside g
            (include_loop-Grows asts c name incs h m' g.0))
    | inr (x, r) ↦ rw r tt
  ])
]

leave-Grows :
    (asts : Asts) (name : Text) (ast : Thrift) (m : Marks) (r : Result IdlError Marks)
    → lookup name asts ≡ some ast
    → LoopGrows asts name ast.includes (enter name m) r
    → Grows asts name m (r >>= λ m'. ok (leave name m'))
unfolding leave enter mem_text
leave-Grows asts name ast m (err e) found l = tt
leave-Grows asts name ast m (ok m') found l =
    (((ast, found, l.1), l.0), ground (arith, ==_refl name), λ j p. ground (arith, l.2 j p))

pub check-Grows :
    (asts : Asts) (fuel : ℕ) (name : Text) (m : Marks)
    → IsOrdered asts m.finished
    → Grows asts name m (check asts fuel name m)
unfolding check
check-Grows asts zero name m o = tt
check-Grows asts (suc fuel) name m o = elim (Bool-cases (mem_text name m.visiting)) [
  | inl open_ ↦ rw open_ tt
  | inr new ↦ rw new (elim (Bool-cases (mem_text name m.finished)) [
    | inl done ↦ rw done (o, done, λ j p. p)
    | inr fresh ↦ rw fresh (elim (Option-cases (lookup name asts)) [
      | inl missing ↦ rw missing tt
      | inr (ast, found) ↦ rw found (
          leave-Grows asts name ast m _ found (
            include_loop-Grows asts (check asts fuel) name ast.includes (check-Grows asts fuel)
              (enter name m) (unfold enter in o)))
    ])
  ])
]

abbrev NamesGrow :
    Asts → List Text → Marks → Result IdlError (Marks × (List Bundle × List Route)) → Type 0
NamesGrow asts names m (err e) = Unit
NamesGrow asts names m (ok (m', found)) =
    IsOrdered asts m'.finished × Within names m'.finished × Within m.finished m'.finished

NamesGrow-cons :
    (asts : Asts) (name : Text) (names : List Text) (m m' : Marks)
    (r : Result IdlError (Marks × (List Bundle × List Route)))
    → Grows asts name m (ok m')
    → NamesGrow asts names m' r
    → NamesGrow asts (name ∷ names) m r
unfolding mem_text
NamesGrow-cons asts name names m m' (err e) g n = tt
NamesGrow-cons asts name names m m' (ok (k, found)) g n =
    (n.0, λ j p. ground (arith, n.1 j, n.2 j, g.1, eq_iff j name), λ j p. n.2 j (g.2 j p))

module _ (parse : Parser) (files : Dict Text) (asts : Asts) where
  name_loop-NamesGrow :
      (names : List Text) (m : Marks) (found : List Bundle × List Route)
      → IsOrdered asts m.finished
      → NamesGrow asts names m (name_loop parse files asts names m found)
  unfolding name_loop
  name_loop-NamesGrow [] m found o = (o, (λ j p. unfold mem_text in cc), (λ j p. p))
  name_loop-NamesGrow (name ∷ names) m found o =
      elim (Result-cases (check asts (enough_fuel asts) name m)) [
        | inr (e, r) ↦ rw r tt
        | inl (m', r) ↦
            let g : Grows asts name m (ok m') =
              rw r at (check-Grows asts (enough_fuel asts) name m o) in
            rw r (elim (Result-cases (bundle_step parse files asts name found)) [
              | inr (e, q) ↦ rw q tt
              | inl (found', q) ↦ rw q (
                  NamesGrow-cons asts name names m m' _ g (name_loop-NamesGrow names m' found' g.0))
            ])
      ]

-- An archive that is accepted has an order of its files in which each file stands before all that
-- it includes: the includes stay below idl/, every one names a file of the archive, and there is no
-- cycle. The order holds every file, also one that no service uses.
pub load_archive-IsOrdered :
    (parse : Parser) (files : Dict Text) (out : List Bundle × List Route)
    → load_archive parse files ≡ ok out
    → (asts : Asts) × (parse_all parse files ≡ ok asts)
      × ((order : List Text) × IsOrdered asts order × Within (keys files) order)
unfolding load_archive
load_archive-IsOrdered parse files out e =
    let (asts, parsed, rest) = >>=-eq-ok (parse_all parse files) _ e in
    let ((m, found), looped, _) =
      >>=-eq-ok (name_loop parse files asts (sort_texts (keys files)) start ([], [])) _ rest in
    let g : NamesGrow asts (sort_texts (keys files)) start (ok (m, found)) =
      rw looped at
        (name_loop-NamesGrow parse files asts (sort_texts (keys files)) start ([], []) tt) in
    (asts, parsed, (m.finished, g.0, λ j p. g.1 j (mem-sort_texts j (keys files) ∙ p)))
  where
    start : Marks
    start = record { visiting = []; finished = [] }
