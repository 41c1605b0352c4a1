-- ===== src/Metadata/Domain.antt =====
-- internal/metadata/domain.go, with net.SplitHostPort.
pub mod Canonical
pub mod Authority
use xuandu_gateway.Prelude.{
  ℕ, Bool, false, not, ◌&&◌, ◌||◌, Option, none, some, [], ◌∷◌, Text, bytes, ◌==◌, has_prefix,
  has_suffix, trim_suffix, trim_space, to_lower, contains_any, split, cut, cut_last, atoi, is_digit,
  is_lower, Result, ok, err, ◌>>◌, refuse, if◌then◌else◌, leb, eqb, all, length, drop,
}
use xuandu_gateway.Platform.{Platform}

pub data DomainError : Type 0 where
  -- ErrInvalidDomain
  invalid_domain : DomainError
  invalid_host invalid_port : DomainError

abbrev pub last_byte : ℕ → Text → ℕ
last_byte c [] = c
last_byte c (d ∷ s) = last_byte d s

abbrev pub label_byte : ℕ → Bool
label_byte c = is_lower c || is_digit c || eqb c b'-'

unfoldable pub valid_label : Text → Bool
valid_label [] = false
valid_label (c ∷ s) =
    leb (length (c ∷ s)) 63
    && not (eqb c b'-')
    && not (eqb (last_byte c s) b'-')
    && all label_byte (c ∷ s)

-- The tests that NormalizeDomain makes of a host that is no IP literal.
unfoldable pub valid_host : Text → Bool
unfolding valid_label
valid_host host = not (host == []) && leb (length host) 253 && all valid_label (split b'.' host)

unfoldable pub fold_host : Text → Text
fold_host value = trim_suffix (to_lower (trim_space value)) (bytes ".")

unfoldable pub normalize_domain : Platform → Text → Result DomainError Text
unfolding valid_host fold_host
normalize_domain p value =
    let host = fold_host value in
    elim (p.parse_ip host) [
      | some ip ↦ ok ip
      | none ↦ if valid_host host then ok host else err invalid_domain
    ]

-- net.SplitHostPort, `none` for each of its errors.
unfoldable pub split_host_port : Text → Option (Text × Text)
split_host_port s = elim (cut_last b':' s) [
  | none ↦ none
  | some (host, port) ↦
      if has_prefix s (bytes "[")
      then (elim (cut b']' s) [
        | none ↦ none
        | some (inner, after) ↦
            if not (after == (b':' ∷ port))
              || contains_any (drop 1 inner) (bytes "[")
              || contains_any after (bytes "[]")
            then none
            else some (drop 1 inner, port)
      ])
      else (if contains_any host (bytes ":") || contains_any s (bytes "[]")
          then none
          else some (host, port))
]

unfoldable pub strip_brackets : Text → Text
strip_brackets s =
    if has_prefix s (bytes "[") && has_suffix s (bytes "]")
    then trim_suffix (drop 1 s) (bytes "]")
    else s

unfoldable pub valid_port : Text → Bool
valid_port port = elim (atoi port) [ none ↦ false | some n ↦ leb 1 n && leb n 65535 ]

unfoldable pub request_domain : Platform → Text → Result DomainError Text
unfolding split_host_port strip_brackets valid_port normalize_domain
request_domain p authority = do
  refuse (not (trim_space authority == authority)) invalid_host
  elim (split_host_port authority) [
    | some (host, port) ↦ (if valid_port port then normalize_domain p host else err invalid_port)
    | none ↦ normalize_domain p (strip_brackets authority)
  ]
