-- ===== src/Prelude/Distinct.antt =====
-- Texts that all differ, and the maps of seen keys by which the program finds a repetition.
use mathlib.Core.Path.{◌≡◌, refl}
use mathlib.Core.Bool.{false}
use mathlib.Core.List.{List, [], ◌∷◌, ◌++◌}
use native.Mathlib.Omega.{arith}
use xuandu_gateway.Prelude.Lists.{All, All-mono}
use xuandu_gateway.Prelude.Texts.{Text, eq_iff, mem_text}

-- No text twice.
abbrev pub IsDistinct : List Text → Type 0
IsDistinct [] = Unit
IsDistinct (k ∷ ks) = (mem_text k ks ≡ false) × IsDistinct ks

-- Each text is new when it is met, `seen` being those before it.
abbrev pub Fresh : List Text → List Text → Type 0
Fresh seen [] = Unit
Fresh seen (k ∷ ks) = (mem_text k seen ≡ false) × Fresh (k ∷ seen) ks

-- What has been seen after some more texts.
abbrev pub push : List Text → List Text → List Text
push [] seen = seen
push (k ∷ ks) seen = push ks (k ∷ seen)

pub Fresh-append :
    (seen ks ls : List Text) → Fresh seen ks → Fresh (push ks seen) ls → Fresh seen (ks ++ ls)
Fresh-append seen [] ls h g = g
Fresh-append seen (k ∷ ks) ls h g = (h.0, Fresh-append (k ∷ seen) ks ls h.1 g)

pub push-append : (seen ks ls : List Text) → push (ks ++ ls) seen ≡ push ls (push ks seen)
push-append seen [] ls = refl
push-append seen (k ∷ ks) ls = push-append (k ∷ seen) ks ls

not-mem_of_All :
    (k : Text) (seen ks : List Text)
    → All (λ j. mem_text j (k ∷ seen) ≡ false) ks
    → mem_text k ks ≡ false
unfolding mem_text
not-mem_of_All k seen [] h = refl
not-mem_of_All k seen (j ∷ ks) h =
    ground (arith, not-mem_of_All k seen ks h.1, eq_iff j k, eq_iff k j)

drop_seen :
    (k : Text) (seen : List Text) (j : Text)
    → mem_text j (k ∷ seen) ≡ false
    → mem_text j seen ≡ false
unfolding mem_text
drop_seen k seen j h = ground arith

Fresh-split :
    (seen ks : List Text) → Fresh seen ks → IsDistinct ks × All (λ j. mem_text j seen ≡ false) ks
Fresh-split seen [] h = (tt, tt)
Fresh-split seen (k ∷ ks) h =
    let r = Fresh-split (k ∷ seen) ks h.1 in
    (
      (not-mem_of_All k seen ks r.1, r.0),
      (h.0, All-mono (λ j. mem_text j (k ∷ seen) ≡ false) (drop_seen k seen) ks r.1),
    )

pub Fresh-IsDistinct : (ks : List Text) → Fresh [] ks → IsDistinct ks
Fresh-IsDistinct ks h = (Fresh-split [] ks h).0
