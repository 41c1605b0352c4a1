-- ===== src/Examples/Domains.antt =====
-- A platform that reads two spellings of the IPv6 loopback address, and the authorities for it.
use xuandu_gateway.Prelude.{
  ◌≡◌, refl, subst, true, false, ◌||◌, Option, none, some, ◌∷◌, ◌++◌, Text, bytes, ◌==◌, ok, itoa,
  has_suffix, has_prefix, if◌then◌else◌, all, arith, trim_suffix, trim_space, trim_left, to_lower,
  lower,
}
use xuandu_gateway.Platform.{Platform}
use xuandu_gateway.Metadata.Domain.{normalize_domain, fold_host, request_domain}
use xuandu_gateway.Metadata.Domain.Canonical.{IsPlainIp, host_byte}
use xuandu_gateway.Metadata.Domain.Authority.{authority_of, request_domain-authority_of}
use xuandu_gateway.Examples.World.{platform}

abbrev loopback : Text
loopback = bytes "::1"

abbrev spelled_out : Text
spelled_out = bytes "0:0:0:0:0:0:0:1"

abbrev read_loopback : Text → Option Text
read_loopback s = if s == loopback || s == spelled_out then some loopback else none

abbrev ip_platform : Platform
ip_platform = record platform { parse_ip = read_loopback }

reads : (s t : Text) → read_loopback s ≡ some t → loopback ≡ t
reads s t e = ground arith

loopback-plain : all host_byte loopback ≡ true
unfolding bytes
loopback-plain = refl

loopback-open : has_suffix loopback (bytes ".") ≡ false
unfolding bytes has_suffix has_prefix
loopback-open = refl

loopback-again : read_loopback loopback ≡ some loopback
unfolding bytes ◌==◌
loopback-again = refl

ip_platform-IsPlainIp : IsPlainIp ip_platform
ip_platform-IsPlainIp = record {
  canonical = record {
    canonical = λ s t e. subst (λ x. read_loopback x ≡ some x) (reads s t e) loopback-again;
  };
  plain = λ s t e. subst (λ x. all host_byte x ≡ true) (reads s t e) loopback-plain;
  open_end = λ s t e. subst (λ x. has_suffix x (bytes ".") ≡ false) (reads s t e) loopback-open;
}

normalizes : normalize_domain ip_platform spelled_out ≡ ok loopback
unfolding normalize_domain fold_host trim_suffix trim_space trim_left to_lower lower has_suffix
    has_prefix bytes ◌==◌
normalizes = refl

request_domain-authority_of_example :
    (normalize_domain ip_platform loopback ≡ ok loopback)
    × (request_domain ip_platform (authority_of loopback) ≡ ok loopback)
    × (request_domain ip_platform (authority_of loopback ++ (b':' ∷ itoa 8080)) ≡ ok loopback)
request_domain-authority_of_example =
    request_domain-authority_of ip_platform ip_platform-IsPlainIp spelled_out loopback 8080
      normalizes (omega arith) (omega arith)
