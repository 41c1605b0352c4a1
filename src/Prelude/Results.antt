-- ===== src/Prelude/Results.antt =====
-- Results of fallible code, with `do`.
use mathlib.Core.Path.{◌≡◌, refl}
use mathlib.Core.Logic.{◌⊎◌, inl, inr}
use mathlib.Core.Bool.{Bool, true, false}

-- A Go pair `(value, error)`, of which exactly one is set.
pub data Result (E A : Type 0) : Type 0 where
  ok : A → Result E A
  err : E → Result E A

-- `if bad { return err }`
abbrev pub refuse : {E : Type 0} → Bool → E → Result E (Unit {0})
refuse bad e = elim bad [ true ↦ err e | false ↦ ok tt ]

abbrev pub is_ok : {E A : Type 0} → Result E A → Bool
is_ok (err e) = false
is_ok (ok a) = true

abbrev pub map_err : {E F A : Type 0} → (E → F) → Result E A → Result F A
map_err f (err e) = err (f e)
map_err f (ok a) = ok a

infixl 5 ◌>>◌ ◌>>=◌
-- What follows a call, unless the call has failed.
abbrev pub ◌>>=◌ : {E A B : Type 0} → Result E A → (A → Result E B) → Result E B
err e >>= next = err e
ok a >>= next = next a

abbrev pub ◌>>◌ : {E B : Type 0} → Result E (Unit {0}) → Result E B → Result E B
guard >> rest = guard >>= λ _. rest

pub Result-cases :
    {E A : Type 0} (r : Result E A) → ((a : A) × (r ≡ ok a)) ⊎ ((e : E) × (r ≡ err e))
Result-cases (ok a) = inl (a, refl)
Result-cases (err e) = inr (e, refl)

-- A chain that succeeds: what its first call has given, and that the rest succeeds with it.
pub >>=-eq-ok :
    {E A B : Type 0} (first : Result E A) (rest : A → Result E B) {b : B}
    → (first >>= rest) ≡ ok b
    → (a : A) × (first ≡ ok a) × (rest a ≡ ok b)
>>=-eq-ok (err e) rest whole = cc
>>=-eq-ok (ok given) rest whole = (given, refl, whole)

-- A guard that has passed.
pub refuse-ok :
    {E B : Type 0} (bad : Bool) (e : E) (k : Result E B) {b : B}
    → (refuse bad e >> k) ≡ ok b
    → (bad ≡ false) × (k ≡ ok b)
refuse-ok true e k h = cc
refuse-ok false e k h = (refl, h)

pub map_err-ok :
    {E F A : Type 0} (f : E → F) (m : Result E A) {a : A} → map_err f m ≡ ok a → m ≡ ok a
map_err-ok f (ok b) h = cc
map_err-ok f (err e) h = cc
