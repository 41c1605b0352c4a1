-- ===== src/Metadata/Domain/Canonical.antt =====
-- internal/metadata/domain.go: a normalized domain is what the requests for it ask for.
use mathlib.Core.List.{reverse, reverse_aux, reverse-append, reverse-reverse}
use xuandu_gateway.Prelude.{
  ℕ, ◌≡◌, refl, sym, ◌∙◌, ap, subst, ◌⊎◌, inl, inr, Bool, true, false, not, ◌&&◌, ◌||◌, none, some,
  List, [], ◌∷◌, ◌++◌, Text, bytes, ◌==◌, has_prefix, has_suffix, trim_suffix, trim_space,
  trim_left, is_space, to_lower, lower, split, ok, eqb, all, Bool-cases, Option-cases, arith,
}
use xuandu_gateway.Platform.{Platform, IsCanonicalIp}
use xuandu_gateway.Metadata.Domain.{
  label_byte, valid_label, valid_host, fold_host, normalize_domain,
}

-- The bytes of host names and of IP literals.
abbrev pub host_byte : ℕ → Bool
host_byte c = label_byte c || eqb c b'.' || eqb c b':'

tail_labels : List Text → List Text
tail_labels [] = []
tail_labels (l ∷ ls) = ls

abbrev filled : List Text → Bool
filled ls = all (λ l. not (l == [])) ls

split-cases : (c : ℕ) (s : Text) → (l : Text) × ((ls : List Text) × (split c s ≡ l ∷ ls))
unfolding split
split-cases c [] = ([], ([], refl))
split-cases c (d ∷ s) =
    let (l, (ls, e)) = split-cases c s in
    elim (Bool-cases (eqb d c)) [
      | inl hit ↦ ([], (split c s, ground arith))
      | inr miss ↦ (d ∷ l, (ls, ground arith))
    ]

-- A text that ends with the separator has an empty label after the first.
split-snoc : (c : ℕ) (s : Text) → filled (tail_labels (split c (s ++ (c ∷ [])))) ≡ false
unfolding split tail_labels ◌==◌
split-snoc c [] = ground arith
split-snoc c (d ∷ s) =
    let (l, (ls, e)) = split-cases c (s ++ (c ∷ [])) in ground (arith, split-snoc c s)

all-labels : (s : Text) → all (λ l. all label_byte l) (split b'.' s) ≡ true → all host_byte s ≡ true
unfolding split
all-labels [] h = refl
all-labels (d ∷ s) h = let (l, (ls, e)) = split-cases b'.' s in ground (arith, all-labels s)

all-reverse_aux : (q : ℕ → Bool) (s r : Text) → all q (reverse_aux s r) ≡ (all q s && all q r)
all-reverse_aux q [] r = refl
all-reverse_aux q (x ∷ s) r = ground (arith, all-reverse_aux q s (x ∷ r))

-- A text that is not empty has a last byte.
last-cases : (x : ℕ) (s : Text) → (front : Text) × ((c : ℕ) × (x ∷ s ≡ front ++ (c ∷ [])))
last-cases x [] = ([], (x, refl))
last-cases x (y ∷ s) = let (front, (c, e)) = last-cases y s in (x ∷ front, (c, ap (λ z. x ∷ z) e))

abbrev pub is_solid : ℕ → Bool
is_solid c = not (is_space c)

trim_left-solid : (s : Text) → all is_solid s ≡ true → trim_left s ≡ s
unfolding trim_left
trim_left-solid [] h = refl
trim_left-solid (c ∷ s) h = ground arith

pub solid : (s : Text) → all host_byte s ≡ true → all is_solid s ≡ true
solid [] h = refl
solid (c ∷ s) h = ground (arith, solid s)

to_lower-plain : (s : Text) → all host_byte s ≡ true → to_lower s ≡ s
unfolding to_lower lower
to_lower-plain [] h = refl
to_lower-plain (c ∷ s) h = cc (byte, to_lower-plain s (ground arith))
  where
    byte : lower c ≡ c
    byte = ground arith

all-reverse : (q : ℕ → Bool) (s : Text) → all q s ≡ true → all q (reverse s) ≡ true
all-reverse q s h = ground (arith, all-reverse_aux q s [])

pub trim_space-solid : (s : Text) → all is_solid s ≡ true → trim_space s ≡ s
unfolding trim_space
trim_space-solid s h =
    ap (λ x. reverse (trim_left (reverse x))) (trim_left-solid s h)
    ∙ (ap reverse (trim_left-solid (reverse s) (all-reverse is_solid s h)) ∙ reverse-reverse s)

fold_host-plain :
    (s : Text) → all host_byte s ≡ true → has_suffix s (bytes ".") ≡ false → fold_host s ≡ s
unfolding fold_host trim_suffix
fold_host-plain s h open_ =
    let trimmed = trim_space-solid s (solid s h) in
    let folded : to_lower (trim_space s) ≡ s = ap to_lower trimmed ∙ to_lower-plain s h in
    let kept : trim_suffix s (bytes ".") ≡ s = ground arith in
    ap (λ x. trim_suffix x (bytes ".")) folded ∙ kept

valid_label-bytes :
    (l : Text) → valid_label l ≡ true → (all label_byte l ≡ true) × ((l == []) ≡ false)
unfolding valid_label ◌==◌
valid_label-bytes [] h = cc
valid_label-bytes (c ∷ s) h = (ground arith, refl)

labels-bytes :
    (ls : List Text)
    → all valid_label ls ≡ true
    → (all (λ l. all label_byte l) ls ≡ true) × (filled ls ≡ true)
labels-bytes [] h = (refl, refl)
labels-bytes (l ∷ ls) h =
    let (bytes_, there) = valid_label-bytes l (ground arith) in
    let (rest, filled_) = labels-bytes ls (ground arith) in (ground arith, ground arith)

ends-dot : (front : Text) (c : ℕ) → has_suffix (front ++ (c ∷ [])) (bytes ".") ≡ eqb c b'.'
unfolding has_suffix has_prefix bytes
ends-dot front c = ground (arith, reverse-append front (c ∷ []))

filled-tail : (ls : List Text) → filled ls ≡ true → filled (tail_labels ls) ≡ true
unfolding tail_labels
filled-tail [] h = refl
filled-tail (l ∷ ls) h = ground arith

filled-open : (s : Text) → filled (split b'.' s) ≡ true → has_suffix s (bytes ".") ≡ false
filled-open [] h = unfold has_suffix has_prefix bytes in refl
filled-open (x ∷ s) h =
    let (front, (c, e)) = last-cases x s in
    elim (Bool-cases (eqb c b'.')) [
      | inr other ↦
          subst (λ t. has_suffix t (bytes ".") ≡ false) (sym e) (ground (arith, ends-dot front c))
      | inl dot ↦ absurd (ground (arith, split-snoc c front, filled-tail (split b'.' (x ∷ s)) h))
    ]

-- The canonical text of an address is made of host bytes, the last of which is no dot.
pub record IsPlainIp (p : Platform) : Type 0 where
  pub canonical : IsCanonicalIp p
  pub plain : (s t : Text) → p.parse_ip s ≡ some t → all host_byte t ≡ true
  pub open_end : (s t : Text) → p.parse_ip s ≡ some t → has_suffix t (bytes ".") ≡ false

abbrev IsPlain : Text → Type 0
IsPlain s = (all host_byte s ≡ true) × (has_suffix s (bytes ".") ≡ false)

valid_host-IsPlain : (h : Text) → valid_host h ≡ true → IsPlain h
unfolding valid_host
valid_host-IsPlain h valid =
    let (bytes_, filled_) = labels-bytes (split b'.' h) (ground arith) in
    (all-labels h bytes_, filled-open h filled_)

-- Normalizing gives an address or a valid name.
normalize_domain-cases :
    (p : Platform) (value h : Text)
    → normalize_domain p value ≡ ok h
    → (p.parse_ip (fold_host value) ≡ some h) ⊎ ((p.parse_ip h ≡ none) × (valid_host h ≡ true))
unfolding normalize_domain
normalize_domain-cases p value h e = elim (Option-cases (p.parse_ip (fold_host value))) [
  | inr (ip, found) ↦ inl (ground arith)
  | inl name ↦ elim (Bool-cases (valid_host (fold_host value))) [
    | inr bad ↦ absurd (ground arith)
    | inl good ↦
        let same : fold_host value ≡ h = ground arith in
        inr (subst (λ x. (p.parse_ip x ≡ none) × (valid_host x ≡ true)) same (name, good))
  ]
]

pub normalize_domain-IsPlain :
    (p : Platform) → IsPlainIp p → (value h : Text) → normalize_domain p value ≡ ok h → IsPlain h
normalize_domain-IsPlain p law value h e = elim (normalize_domain-cases p value h e) [
  | inl ip ↦ (law.plain _ h ip, law.open_end _ h ip)
  | inr (name, valid) ↦ valid_host-IsPlain h valid
]

pub normalize_domain-idempotent :
    (p : Platform)
    → IsPlainIp p
    → (value h : Text) → normalize_domain p value ≡ ok h
    → normalize_domain p h ≡ ok h
unfolding normalize_domain
normalize_domain-idempotent p law value h e =
    let (plain, open_) = normalize_domain-IsPlain p law value h e in
    let folded = fold_host-plain h plain open_ in
    elim (normalize_domain-cases p value h e) [
      | inl ip ↦ let again = law.canonical.canonical _ h ip in ground (arith, folded)
      | inr (name, valid) ↦ ground (arith, folded)
    ]
