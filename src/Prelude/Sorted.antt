-- ===== src/Prelude/Sorted.antt =====
-- sort.Strings keeps the texts that it sorts.
use mathlib.Core.Path.{◌≡◌, refl}
use mathlib.Core.Bool.{◌||◌}
use mathlib.Core.List.{List, [], ◌∷◌}
use native.Mathlib.Omega.{arith}
use xuandu_gateway.Prelude.Texts.{Text, ◌==◌, mem_text, insert_text, sort_texts}

mem-insert_text :
    (k s : Text) (ts : List Text) → mem_text k (insert_text s ts) ≡ (k == s || mem_text k ts)
unfolding mem_text insert_text
mem-insert_text k s [] = refl
mem-insert_text k s (t ∷ ts) = ground (arith, mem-insert_text k s ts)

pub mem-sort_texts : (k : Text) (ts : List Text) → mem_text k (sort_texts ts) ≡ mem_text k ts
unfolding sort_texts mem_text
mem-sort_texts k [] = refl
mem-sort_texts k (t ∷ ts) = ground (arith, mem-insert_text k t (sort_texts ts), mem-sort_texts k ts)
