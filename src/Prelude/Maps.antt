-- ===== src/Prelude/Maps.antt =====
-- Entries of a map: what holds for all of them, and that a key has one value.
use mathlib.Core.Path.{◌≡◌, subst}
use mathlib.Core.Logic.{inl, inr}
use mathlib.Core.Bool.{false}
use mathlib.Core.Option.{some}
use mathlib.Core.List.{[], ◌∷◌}
use native.Mathlib.Omega.{arith}
use xuandu_gateway.Prelude.Tests.{Bool-cases}
use xuandu_gateway.Prelude.Lists.{All, All-mono}
use xuandu_gateway.Prelude.Texts.{Text, ◌==◌, eq_iff, ==_refl}
use xuandu_gateway.Prelude.Dicts.{Dict, lookup, remove, put, lookup-remove, lookup-put}

module _ {V : Type 0} where
  abbrev Ne : (Text × V → Type 0) → Text → Text × V → Type 0
  Ne P k e = P e × ((k == e.0) ≡ false)

  All-remove_ne :
      (P : Text × V → Type 0) (k : Text) (m : Dict V) → All P m → All (Ne P k) (remove k m)
  unfolding remove
  All-remove_ne P k [] h = tt
  All-remove_ne P k ((j, v) ∷ m) (h, hs) =
      let rest = All-remove_ne P k m hs in
      elim (Bool-cases (j == k)) [
        | inl hit ↦ rw hit rest
        | inr miss ↦ rw miss ((h, ground (arith, eq_iff j k, eq_iff k j)), rest)
      ]

  pub All-remove : (P : Text × V → Type 0) (k : Text) (m : Dict V) → All P m → All P (remove k m)
  All-remove P k m h = All-mono (Ne P k) (λ e p. p.0) (remove k m) (All-remove_ne P k m h)

  pub All-put :
      (P : Text × V → Type 0) (k : Text) (v : V) (m : Dict V)
      → All P m
      → P (k, v)
      → All P (put k v m)
  unfolding put
  All-put P k v m h p = (p, All-remove P k m h)

  abbrev Finds : Dict V → Text × V → Type 0
  Finds m e = lookup e.0 m ≡ some e.1

  -- A key has one value.
  abbrev pub IsMap : Dict V → Type 0
  IsMap m = All (λ e. lookup e.0 m ≡ some e.1) m

  pub remove-IsMap : (k : Text) (m : Dict V) → IsMap m → IsMap (remove k m)
  remove-IsMap k m h =
      All-mono (Ne (Finds m) k) (λ e p. ground (arith, p.0, p.1, lookup-remove k e.0 m))
        (remove k m) (All-remove_ne (Finds m) k m h)

  pub put-IsMap : (k : Text) (v : V) (m : Dict V) → IsMap m → IsMap (put k v m)
  unfolding put
  put-IsMap k v m h = (
    ground (arith, lookup-put k k v m, ==_refl k),
    All-mono (Ne (Finds m) k) (λ e p. ground (arith, p.0, p.1, lookup-put k e.0 v m)) (remove k m)
        (All-remove_ne (Finds m) k m h),
  )

  -- What a lookup gives is an entry.
  pub All-lookup :
      (P : Text × V → Type 0) (m : Dict V) (k : Text) (v : V)
      → All P m
      → lookup k m ≡ some v
      → P (k, v)
  unfolding lookup
  All-lookup P [] k v h found = absurd (ground arith)
  All-lookup P ((j, u) ∷ m) k v (h, hs) found = elim (Bool-cases (j == k)) [
    | inr miss ↦ All-lookup P m k v hs (ground arith)
    | inl hit ↦
        let same_key : j ≡ k = ground (arith, eq_iff j k) in
        let same_value : u ≡ v = ground arith in
        subst (λ x. P (x, v)) same_key (subst (λ x. P (j, x)) same_value h)
  ]
