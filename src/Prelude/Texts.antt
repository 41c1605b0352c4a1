-- ===== src/Prelude/Texts.antt =====
-- Go strings as lists of bytes, and the functions of package strings that the program calls. The
-- case functions fold ASCII letters, and `trim_space` drops ASCII white space.
use Prim.Native.Nat.{ℕ, zero, suc, ◌+◌, ◌-◌, ◌*◌, ◌/◌, ◌%◌, ◌<◌}
use Prim.Native.Char.{code}
use Prim.Native.String.{String}
use mathlib.Core.Path.{◌≡◌, refl}
use mathlib.Core.Logic.{◌↔◌, inl, inr}
use mathlib.Core.Bool.{Bool, true, false, ◌&&◌, ◌||◌}
use mathlib.Core.Option.{Option, none, some}
use mathlib.Core.List.{List, [], ◌∷◌, ◌++◌, map, reverse}
use native.Mathlib.Omega.{arith}
use xuandu_gateway.Prelude.Tests.{ltb, ltb→lt, leb, eqb, Bool-cases, if◌then◌else◌}
use xuandu_gateway.Prelude.Lists.{length, any, all}

abbrev pub Text : Type 0
Text = List ℕ

-- The bytes of an ASCII literal.
unfoldable pub bytes : String → Text
bytes String.[] = []
bytes (String.◌∷◌ c s) = code c ∷ bytes s

infix 50 ◌==◌
unfoldable pub ◌==◌ : Text → Text → Bool
[] == [] = true
[] == (y ∷ ys) = false
(x ∷ xs) == [] = false
(x ∷ xs) == (y ∷ ys) = eqb x y && xs == ys

pub eq_of_== : (s t : Text) → (s == t) ≡ true → s ≡ t
unfolding ◌==◌
eq_of_== [] [] h = refl
eq_of_== [] (y ∷ ys) h = cc
eq_of_== (x ∷ xs) [] h = cc
eq_of_== (x ∷ xs) (y ∷ ys) h = ground (arith, eq_of_== xs ys)

pub ==_refl : (s : Text) → (s == s) ≡ true
unfolding ◌==◌
==_refl [] = refl
==_refl (x ∷ xs) = ground (arith, ==_refl xs)

pub ==_of_eq : (s t : Text) → s ≡ t → (s == t) ≡ true
==_of_eq s t e = rw e (==_refl t)

pub eq_iff : (s t : Text) → ((s == t) ≡ true) ↔ (s ≡ t)
eq_iff s t = (eq_of_== s t, ==_of_eq s t)

unfoldable pub has_prefix : Text → Text → Bool
has_prefix s [] = true
has_prefix [] (y ∷ ys) = false
has_prefix (x ∷ xs) (y ∷ ys) = eqb x y && has_prefix xs ys

unfoldable pub has_suffix : Text → Text → Bool
unfolding has_prefix
has_suffix s t = has_prefix (reverse s) (reverse t)

abbrev pub drop_bytes : ℕ → Text → Text
drop_bytes zero s = s
drop_bytes (suc n) [] = []
drop_bytes (suc n) (x ∷ s) = drop_bytes n s

unfoldable pub trim_prefix : Text → Text → Text
unfolding has_prefix
trim_prefix s t = if has_prefix s t then drop_bytes (length t) s else s

unfoldable pub trim_suffix : Text → Text → Text
unfolding has_suffix
trim_suffix s t = if has_suffix s t then reverse (drop_bytes (length t) (reverse s)) else s

unfoldable pub lower : ℕ → ℕ
lower c = if leb b'A' c && leb c b'Z' then c + 32 else c

unfoldable pub upper : ℕ → ℕ
upper c = if leb b'a' c && leb c b'z' then c - 32 else c

unfoldable pub to_lower : Text → Text
unfolding lower
to_lower s = map lower s

unfoldable pub to_upper : Text → Text
unfolding upper
to_upper s = map upper s

-- strings.EqualFold
unfoldable pub equal_fold : Text → Text → Bool
unfolding to_lower ◌==◌
equal_fold s t = to_lower s == to_lower t

unfoldable pub contains_any : Text → Text → Bool
contains_any s cs = any (λ c. any (eqb c) cs) s

-- strings.Contains
unfoldable pub contains : Text → Text → Bool
unfolding has_prefix
contains [] t = has_prefix [] t
contains (x ∷ s) t = has_prefix (x ∷ s) t || contains s t

abbrev pub is_space : ℕ → Bool
is_space c = eqb c 32 || (leb 9 c && leb c 13)

unfoldable pub trim_left : Text → Text
trim_left [] = []
trim_left (c ∷ s) = if is_space c then trim_left s else c ∷ s

-- strings.TrimSpace
unfoldable pub trim_space : Text → Text
unfolding trim_left
trim_space s = reverse (trim_left (reverse (trim_left s)))

abbrev add_byte : ℕ → List Text → List Text
add_byte c [] = (c ∷ []) ∷ []
add_byte c (p ∷ ps) = (c ∷ p) ∷ ps

-- strings.Split at one byte; the result is never empty.
unfoldable pub split : ℕ → Text → List Text
split sep [] = [] ∷ []
split sep (c ∷ s) = let rest = split sep s in if eqb c sep then [] ∷ rest else add_byte c rest

-- strings.Join with one byte.
unfoldable pub join : ℕ → List Text → Text
join sep [] = []
join sep (p ∷ []) = p
join sep (p ∷ q ∷ ps) = p ++ (sep ∷ join sep (q ∷ ps))

-- strings.Cut at one byte.
unfoldable pub cut : ℕ → Text → Option (Text × Text)
cut sep [] = none
cut sep (c ∷ s) =
    let rest = cut sep s in
    if eqb c sep then some ([], s) else elim rest [ none ↦ none | some (a, b) ↦ some (c ∷ a, b) ]

abbrev pub is_digit : ℕ → Bool
is_digit c = leb b'0' c && leb c b'9'

abbrev pub is_lower : ℕ → Bool
is_lower c = leb b'a' c && leb c b'z'

abbrev pub is_upper : ℕ → Bool
is_upper c = leb b'A' c && leb c b'Z'

pub lower_idem : (c : ℕ) → lower (lower c) ≡ lower c
unfolding lower
lower_idem c = ground arith

pub to_lower_idem : (s : Text) → to_lower (to_lower s) ≡ to_lower s
unfolding to_lower
to_lower_idem [] = refl
to_lower_idem (c ∷ s) = cc (lower_idem c, to_lower_idem s)

-- The bytes before and after the last separator.
unfoldable pub cut_last : ℕ → Text → Option (Text × Text)
cut_last sep [] = none
cut_last sep (c ∷ s) = elim (cut_last sep s) [
  | some (a, b) ↦ some (c ∷ a, b)
  | none ↦ if eqb c sep then some ([], s) else none
]

-- Go's `<=` on strings, byte by byte.
unfoldable pub text_le : Text → Text → Bool
text_le [] t = true
text_le (c ∷ s) [] = false
text_le (c ∷ s) (d ∷ t) = ltb c d || (eqb c d && text_le s t)

unfoldable pub insert_text : Text → List Text → List Text
unfolding text_le
insert_text s [] = s ∷ []
insert_text s (t ∷ ts) = let rest = insert_text s ts in if text_le s t then s ∷ t ∷ ts else t ∷ rest

-- sort.Strings
unfoldable pub sort_texts : List Text → List Text
unfolding insert_text
sort_texts [] = []
sort_texts (s ∷ ts) = insert_text s (sort_texts ts)

unfoldable pub mem_text : Text → List Text → Bool
unfolding ◌==◌
mem_text k ks = any (λ j. k == j) ks

pub mem-append :
    (k : Text) (xs ys : List Text) → mem_text k (xs ++ ys) ≡ (mem_text k xs || mem_text k ys)
unfolding mem_text
mem-append k [] ys = refl
mem-append k (x ∷ xs) ys = ground (arith, mem-append k xs ys)

unfoldable pub digits : ℕ → Text → Option ℕ
digits n [] = some n
digits n (c ∷ s) = let rest = digits (n * 10 + (c - b'0')) s in if is_digit c then rest else none

-- strconv.Atoi as far as its callers look: `none` for an error and for a negative number, which
-- each of them refuses as well.
unfoldable pub atoi : Text → Option ℕ
unfolding digits
atoi [] = none
atoi (c ∷ []) = digits 0 (c ∷ [])
atoi (c ∷ d ∷ s) = if eqb c b'+' then digits 0 (d ∷ s) else digits 0 (c ∷ d ∷ s)

decimal : ℕ → ℕ → Text
decimal zero n = []
decimal (suc f) n =
    let front = decimal f (n / 10) in
    if ltb n 10 then (b'0' + n) ∷ [] else front ++ ((b'0' + n % 10) ∷ [])

-- strconv.Itoa of a number that is not negative.
unfoldable pub itoa : ℕ → Text
unfolding decimal
itoa n = decimal (suc n) n

pad : ℕ → Text → Text
pad zero s = s
pad (suc k) s = b'0' ∷ pad k s

-- fmt.Sprintf("%06d", n)
unfoldable pub pad6 : ℕ → Text
unfolding itoa pad
pad6 n = pad (6 - length (itoa n)) (itoa n)

digits-snoc :
    (a c : ℕ) (s : Text)
    → digits a (s ++ (c ∷ [])) ≡ elim (digits a s) [
      | none ↦ none
      | some n ↦ if is_digit c then some (n * 10 + (c - b'0')) else none
    ]
unfolding digits
digits-snoc a c [] = ground arith
digits-snoc a c (d ∷ s) = ground (arith, digits-snoc (a * 10 + (d - b'0')) c s)

digits_one : (n : ℕ) → n < 10 → digits 0 ((b'0' + n) ∷ []) ≡ some n
unfolding digits
digits_one n h = ground arith

digits-decimal : (f n : ℕ) → n < f → digits 0 (decimal f n) ≡ some n
unfolding decimal
digits-decimal zero n h = absurd (omega arith)
digits-decimal (suc f) n h = elim (Bool-cases (ltb n 10)) [
  | inl small ↦ rw small (digits_one n (ltb→lt n 10 small))
  | inr big ↦
      rw
        (
          big,
          digits-snoc 0 (b'0' + n % 10) (decimal f (n / 10)),
          digits-decimal f (n / 10) (ground arith),
        )
        (ground arith)
]

snoc-ne-nil : (s : Text) (c : ℕ) → (s ++ (c ∷ [])) == [] ≡ false
unfolding ◌==◌
snoc-ne-nil [] c = refl
snoc-ne-nil (d ∷ s) c = refl

decimal-ne-nil : (f n : ℕ) → (decimal (suc f) n == []) ≡ false
unfolding decimal ◌==◌
decimal-ne-nil f n = ground (arith, snoc-ne-nil (decimal f (n / 10)) (b'0' + n % 10))

atoi-digits : (s : Text) (n : ℕ) → (s == []) ≡ false → digits 0 s ≡ some n → atoi s ≡ some n
unfolding atoi ◌==◌
atoi-digits [] n h e = cc
atoi-digits (c ∷ []) n h e = e
atoi-digits (c ∷ d ∷ s) n h e = ground arith

-- A number is read back from its decimal digits.
pub atoi-itoa : (n : ℕ) → atoi (itoa n) ≡ some n
unfolding itoa
atoi-itoa n = atoi-digits _ n (decimal-ne-nil n n) (digits-decimal (suc n) n (omega arith))

pub all-append : (q : ℕ → Bool) (s t : Text) → all q (s ++ t) ≡ (all q s && all q t)
all-append q [] t = refl
all-append q (c ∷ s) t = ground (arith, all-append q s t)

decimal-is_digit : (f n : ℕ) → all is_digit (decimal f n) ≡ true
unfolding decimal
decimal-is_digit zero n = refl
decimal-is_digit (suc f) n = ground (
  arith,
  decimal-is_digit f (n / 10),
  all-append is_digit (decimal f (n / 10)) ((b'0' + n % 10) ∷ []),
)

pub itoa-is_digit : (n : ℕ) → all is_digit (itoa n) ≡ true
unfolding itoa
itoa-is_digit n = decimal-is_digit (suc n) n
