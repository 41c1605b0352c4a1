-- ===== src/Idl/Loader.antt =====
-- internal/idl/loader.go: the include graph of an archive and its bundles. The maps `visiting` and
-- `done` of LoadArchive are the lists of the names that they hold.
pub mod Fuel
pub mod Order
use xuandu_gateway.Prelude.{
  ℕ, zero, suc, Bool, not, ◌&&◌, ◌||◌, Option, none, some, List, [], ◌∷◌, ◌++◌, Text, bytes, ◌==◌,
  has_prefix, contains_any, mem_text, Dict, lookup, keys, sort_texts, Result, ok, err, ◌>>=◌, ◌>>◌,
  refuse, if◌then◌else◌, keep, length, clean, join_path, dir, is_abs,
}
use xuandu_gateway.Idl.Ast.{
  Service, Thrift, Parser, Bundle, Route, IdlError, invalid_thrift, cyclic_include, missing_include,
  include_escapes, no_routes, out_of_fuel,
}
use xuandu_gateway.Idl.Routes.{extract_routes}

-- The names that are being visited, and those that are done.
pub record Marks : Type 0 where
  pub visiting : List Text
  pub finished : List Text

abbrev pub Asts : Type 0
Asts = Dict Thrift

-- The file that an include line of `name` names.
unfoldable pub target : Text → Text → Text
target name inc = clean (join_path (dir name) inc)

unfoldable pub escapes : Text → Text → Bool
escapes name inc =
    is_abs inc || contains_any inc (bytes "\\") || not (has_prefix (target name inc) (bytes "idl/"))

abbrev pub Check : Type 0
Check = Text → Marks → Result IdlError Marks

unfoldable pub include_loop : Check → Text → List Text → Marks → Result IdlError Marks
include_loop check name [] m = ok m
include_loop check name (inc ∷ incs) m = do
  refuse (escapes name inc) include_escapes
  m' ← check (target name inc) m
  include_loop check name incs m'

unfoldable pub enter : Text → Marks → Marks
enter name m = record m { visiting = name ∷ m.visiting }

unfoldable pub leave : Text → Marks → Marks
leave name m = record {
  visiting = keep (λ j. not (j == name)) m.visiting;
  finished = name ∷ m.finished;
}

unfoldable pub check : Asts → ℕ → Check
check asts zero name m = err out_of_fuel
check asts (suc fuel) name m =
    let descend = λ (ast : Thrift).
      include_loop (check asts fuel) name ast.includes (enter name m) >>= λ m'.
      ok (leave name m') in
    if mem_text name m.visiting
    then err cyclic_include
    else if mem_text name m.finished
    then ok m
    else elim (lookup name asts) [ none ↦ err missing_include | some ast ↦ descend ast ]

unfoldable pub parse_all : Parser → Dict Text → Result IdlError Asts
parse_all parse [] = ok []
parse_all parse ((name, body) ∷ files) = elim (parse name body) [
  | none ↦ err invalid_thrift
  | some ast ↦ parse_all parse files >>= λ asts. ok ((name, ast) ∷ asts)
]

-- One depth for each file, and one for the name that is missing or closes a cycle.
unfoldable pub enough_fuel : Asts → ℕ
enough_fuel asts = suc (length asts)

-- What the loop over the sorted names does with one that has passed `check`.
unfoldable pub bundle_step :
    Parser
    → Dict Text
    → Asts
    → Text
    → List Bundle × List Route
    → Result IdlError (List Bundle × List Route)
bundle_step parse files asts name (bundles, routes) =
    let b : Bundle = record { main_path = name; files = files } in
    let serves : List Service = elim (lookup name asts) [ none ↦ [] | some ast ↦ ast.services ] in
    elim serves [
      | [] ↦ ok (bundles, routes)
      | _ ↦ (do
        rs ← extract_routes parse b
        elim rs [
          | [] ↦ ok (bundles, routes)
          | r ∷ more ↦ ok (bundles ++ (b ∷ []), routes ++ (r ∷ more))
        ])
    ]

unfoldable pub name_loop :
    Parser
    → Dict Text
    → Asts
    → List Text
    → Marks
    → List Bundle × List Route
    → Result IdlError (Marks × (List Bundle × List Route))
name_loop parse files asts [] m found = ok (m, found)
name_loop parse files asts (name ∷ names) m found = do
  m' ← check asts (enough_fuel asts) name m
  found' ← bundle_step parse files asts name found
  name_loop parse files asts names m' found'

unfoldable pub load_archive : Parser → Dict Text → Result IdlError (List Bundle × List Route)
load_archive parse files = do
  asts ← parse_all parse files
  (m, (bundles, routes)) ←
      name_loop parse files asts (sort_texts (keys files)) (record { visiting = []; finished = [] })
        ([], [])
  elim routes [ [] ↦ err no_routes | r ∷ rs ↦ ok (bundles, r ∷ rs) ]
