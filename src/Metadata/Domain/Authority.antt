-- ===== src/Metadata/Domain/Authority.antt =====
-- internal/metadata/domain.go: the authorities that ask for a normalized domain.
use mathlib.Core.List.{reverse-append, reverse-reverse, append_assoc}
use xuandu_gateway.Prelude.{
  ℕ, ◌≤◌, ◌≡◌, refl, inl, inr, true, false, none, some, [], ◌∷◌, ◌++◌, Text, bytes, ◌==◌, ==_refl,
  has_prefix, has_suffix, trim_suffix, contains_any, cut, cut_last, itoa, atoi-itoa, itoa-is_digit,
  all-append, is_digit, ok, if◌then◌else◌, all, Bool-cases, Option-cases, arith,
}
use xuandu_gateway.Platform.{Platform}
use xuandu_gateway.Metadata.Domain.{
  normalize_domain, split_host_port, strip_brackets, valid_port, request_domain,
}
use xuandu_gateway.Metadata.Domain.Canonical.{
  host_byte, IsPlainIp, normalize_domain-IsPlain, normalize_domain-idempotent, trim_space-solid,
  is_solid, solid,
}

-- How an authority names a domain: an IPv6 address stands in brackets.
unfoldable pub authority_of : Text → Text
authority_of h = if contains_any h (bytes ":") then b'[' ∷ (h ++ (b']' ∷ [])) else h

no_brackets : (s : Text) → all host_byte s ≡ true → contains_any s (bytes "[]") ≡ false
unfolding contains_any bytes
no_brackets [] h = refl
no_brackets (c ∷ s) h = ground (arith, no_brackets s)

no_opening : (s : Text) → all host_byte s ≡ true → contains_any s (bytes "[") ≡ false
unfolding contains_any bytes
no_opening [] h = refl
no_opening (c ∷ s) h = ground (arith, no_opening s)

starts_plain : (s : Text) → all host_byte s ≡ true → has_prefix s (bytes "[") ≡ false
unfolding has_prefix bytes
starts_plain [] h = refl
starts_plain (c ∷ s) h = ground arith

cut-close : (s b : Text) → all host_byte s ≡ true → cut b']' (s ++ (b']' ∷ b)) ≡ some (s, b)
unfolding cut
cut-close [] b h = refl
cut-close (c ∷ s) b h = ground (arith, cut-close s b)

cut_last-none : (s : Text) → contains_any s (bytes ":") ≡ false → cut_last b':' s ≡ none
unfolding cut_last contains_any bytes
cut_last-none [] h = refl
cut_last-none (c ∷ s) h = ground (arith, cut_last-none s)

cut_last-append :
    (s d : Text) → cut_last b':' d ≡ none → cut_last b':' (s ++ (b':' ∷ d)) ≡ some (s, d)
unfolding cut_last
cut_last-append [] d h = ground arith
cut_last-append (c ∷ s) d h = ground (arith, cut_last-append s d h)

digits-plain :
    (d : Text) → all is_digit d ≡ true → (all host_byte d ≡ true) × (cut_last b':' d ≡ none)
unfolding cut_last
digits-plain [] h = (refl, refl)
digits-plain (c ∷ d) h =
    let (plain, uncut) = digits-plain d (ground arith) in (ground arith, ground arith)

trim_suffix-close : (s : Text) → trim_suffix (s ++ (b']' ∷ [])) (bytes "]") ≡ s
unfolding trim_suffix has_suffix has_prefix bytes
trim_suffix-close s = ground (arith, reverse-append s (b']' ∷ []), reverse-reverse s)

valid_port-itoa : (n : ℕ) → 1 ≤ n → n ≤ 65535 → valid_port (itoa n) ≡ true
unfolding valid_port
valid_port-itoa n low high = ground (arith, atoi-itoa n)

split_plain :
    (h d : Text)
    → all host_byte h ≡ true
    → contains_any h (bytes ":") ≡ false
    → all host_byte d ≡ true
    → cut_last b':' d ≡ none
    → split_host_port (h ++ (b':' ∷ d)) ≡ some (h, d)
unfolding split_host_port
split_plain h d plain apart digits uncut =
    let whole : all host_byte (h ++ (b':' ∷ d)) ≡ true =
      ground (arith, all-append host_byte h (b':' ∷ d)) in
    ground (
      arith,
      cut_last-append h d uncut,
      starts_plain (h ++ (b':' ∷ d)) whole,
      no_brackets (h ++ (b':' ∷ d)) whole,
    )

split_bare : (h : Text) → contains_any h (bytes ":") ≡ false → split_host_port h ≡ none
unfolding split_host_port
split_bare h apart = ground (arith, cut_last-none h apart)

split_closed :
    (h : Text) → all host_byte h ≡ true → split_host_port (b'[' ∷ (h ++ (b']' ∷ []))) ≡ none
unfolding split_host_port cut has_prefix bytes ◌==◌
split_closed h plain = elim (Option-cases (cut_last b':' (b'[' ∷ (h ++ (b']' ∷ []))))) [
  | inl none_ ↦ ground arith
  | inr ((host, port), found) ↦ ground (arith, cut-close h [] plain)
]

split_bracketed :
    (h d : Text)
    → all host_byte h ≡ true
    → all host_byte d ≡ true
    → cut_last b':' d ≡ none
    → split_host_port ((b'[' ∷ (h ++ (b']' ∷ []))) ++ (b':' ∷ d)) ≡ some (h, d)
unfolding split_host_port cut has_prefix bytes ◌==◌ contains_any
split_bracketed h d plain digits uncut =
    let joined : (h ++ (b']' ∷ [])) ++ (b':' ∷ d) ≡ h ++ (b']' ∷ (b':' ∷ d)) =
      append_assoc h (b']' ∷ []) (b':' ∷ d) in
    ground (
      arith,
      cut_last-append (b'[' ∷ (h ++ (b']' ∷ []))) d uncut,
      cut-close h (b':' ∷ d) plain,
      joined,
      no_opening h plain,
      no_brackets d digits,
      ==_refl d,
    )

module _ (p : Platform) where
  asked_with_port :
      (s h d : Text)
      → all is_solid s ≡ true
      → split_host_port s ≡ some (h, d)
      → valid_port d ≡ true
      → normalize_domain p h ≡ ok h
      → request_domain p s ≡ ok h
  unfolding request_domain
  asked_with_port s h d trimmed parts port again =
      ground (arith, trim_space-solid s trimmed, ==_refl s)

  asked_bare :
      (s h : Text)
      → all is_solid s ≡ true
      → split_host_port s ≡ none
      → strip_brackets s ≡ h
      → normalize_domain p h ≡ ok h
      → request_domain p s ≡ ok h
  unfolding request_domain
  asked_bare s h trimmed parts bare again = ground (arith, trim_space-solid s trimmed, ==_refl s)

strip_brackets-plain : (h : Text) → all host_byte h ≡ true → strip_brackets h ≡ h
unfolding strip_brackets
strip_brackets-plain h plain = ground (arith, starts_plain h plain)

strip_brackets-closed : (h : Text) → strip_brackets (b'[' ∷ (h ++ (b']' ∷ []))) ≡ h
unfolding strip_brackets has_prefix has_suffix bytes
strip_brackets-closed h = ground (arith, trim_suffix-close h, reverse-append (b'[' ∷ h) (b']' ∷ []))

closed-solid : (h : Text) → all host_byte h ≡ true → all is_solid (b'[' ∷ (h ++ (b']' ∷ []))) ≡ true
closed-solid h plain = ground (arith, all-append is_solid h (b']' ∷ []), solid h plain)

port-solid :
    (s d : Text)
    → all is_solid s ≡ true
    → all host_byte d ≡ true
    → all is_solid (s ++ (b':' ∷ d)) ≡ true
port-solid s d front digits = ground (arith, all-append is_solid s (b':' ∷ d), solid d digits)

-- A domain that NormalizeDomain has given is what it gives again, and what RequestDomain gives for an
-- authority that names it, with any port from 1 to 65535 or without one, an IPv6 address standing in
-- brackets, if the canonical texts of IP addresses are made of host bytes, end with no dot and are
-- read back.
pub request_domain-authority_of :
    (p : Platform)
    → IsPlainIp p
    → (value h : Text) (n : ℕ) → normalize_domain p value ≡ ok h
    → 1 ≤ n
    → n ≤ 65535
    → (normalize_domain p h ≡ ok h)
      × (request_domain p (authority_of h) ≡ ok h)
      × (request_domain p (authority_of h ++ (b':' ∷ itoa n)) ≡ ok h)
unfolding authority_of
request_domain-authority_of p law value h n e low high =
    let again = normalize_domain-idempotent p law value h e in
    let plain = (normalize_domain-IsPlain p law value h e).0 in
    let (digits, uncut) = digits-plain (itoa n) (itoa-is_digit n) in
    let port = valid_port-itoa n low high in
    let closed = b'[' ∷ (h ++ (b']' ∷ [])) in
    elim (Bool-cases (contains_any h (bytes ":"))) [
      | inl colons ↦ rw colons (
        again,
        asked_bare p closed h (closed-solid h plain) (split_closed h plain)
            (strip_brackets-closed h) again,
        asked_with_port p (closed ++ (b':' ∷ itoa n)) h (itoa n)
            (port-solid closed (itoa n) (closed-solid h plain) digits)
            (split_bracketed h (itoa n) plain digits uncut) port again,
      )
      | inr apart ↦ rw apart (
        again,
        asked_bare p h h (solid h plain) (split_bare h apart) (strip_brackets-plain h plain) again,
        asked_with_port p (h ++ (b':' ∷ itoa n)) h (itoa n)
            (port-solid h (itoa n) (solid h plain) digits)
            (split_plain h (itoa n) plain apart digits uncut) port again,
      )
    ]
