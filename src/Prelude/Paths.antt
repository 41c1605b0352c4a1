-- ===== src/Prelude/Paths.antt =====
-- Go's slash-separated paths: the functions of package path that the program calls.
use mathlib.Core.Bool.{Bool, ◌||◌}
use mathlib.Core.Option.{none, some}
use mathlib.Core.List.{List, [], ◌∷◌, ◌++◌, reverse}
use xuandu_gateway.Prelude.Tests.{eqb, if◌then◌else◌}
use xuandu_gateway.Prelude.Texts.{Text, bytes, ◌==◌, has_prefix, split, join, cut_last}

-- path.IsAbs
unfoldable pub is_abs : Text → Bool
unfolding has_prefix bytes
is_abs p = has_prefix p (bytes "/")

pop_segment : Bool → List Text → List Text
unfolding bytes ◌==◌
pop_segment rooted [] = if rooted then [] else bytes ".." ∷ []
pop_segment rooted (s ∷ acc) = if s == bytes ".." then bytes ".." ∷ s ∷ acc else acc

clean_segments : Bool → List Text → List Text → List Text
unfolding bytes ◌==◌ pop_segment
clean_segments rooted [] acc = reverse acc
clean_segments rooted (s ∷ ss) acc = clean_segments rooted ss (
    if s == [] || s == bytes "."
    then acc
    else if s == bytes ".."
    then pop_segment rooted acc
    else s ∷ acc)

-- path.Clean
unfoldable pub clean : Text → Text
unfolding bytes ◌==◌ is_abs split join clean_segments
clean p =
    let body = join b'/' (clean_segments (is_abs p) (split b'/' p) []) in
    if is_abs p then b'/' ∷ body else if body == [] then bytes "." else body

-- path.Dir
unfoldable pub dir : Text → Text
unfolding bytes cut_last clean
dir p = elim (cut_last b'/' p) [ none ↦ bytes "." | some (a, b) ↦ clean (a ++ bytes "/") ]

-- path.Join of two elements.
unfoldable pub join_path : Text → Text → Text
unfolding bytes ◌==◌ clean
join_path a b =
    if a == []
    then (if b == [] then [] else clean b)
    else if b == []
    then clean a
    else clean (a ++ (b'/' ∷ b))

drop_slashes : Text → Text
drop_slashes [] = []
drop_slashes (c ∷ s) = let rest = drop_slashes s in if eqb c b'/' then rest else c ∷ s

base_of : Text → Text
unfolding bytes ◌==◌ cut_last
base_of p = if p == [] then bytes "/" else elim (cut_last b'/' p) [ none ↦ p | some (a, b) ↦ b ]

-- path.Base
unfoldable pub base : Text → Text
unfolding bytes ◌==◌ drop_slashes base_of
base p = if p == [] then bytes "." else base_of (reverse (drop_slashes (reverse p)))

-- The last element without its extension: strings.TrimSuffix(base, path.Ext(base)).
unfoldable pub stem : Text → Text
unfolding base cut_last
stem p = elim (cut_last b'.' (base p)) [ none ↦ base p | some (a, b) ↦ a ]
