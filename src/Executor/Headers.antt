-- ===== src/Executor/Headers.antt =====
-- internal/executor/executor.go: the headers of the upstream that reach the caller.
use xuandu_gateway.Prelude.{
  ◌≡◌, refl, ap, sym, ◌∙◌, Bool, ◌&&◌, ◌||◌, List, [], ◌∷◌, ◌++◌, map, Text, bytes, ◌==◌, to_lower,
  lower, equal_fold, trim_space, split, mem_text, mem-append, ok, refuse-ok, any, if◌then◌else◌,
  ltb, leb, eqb, >>=-eq-ok, arith,
}
use xuandu_gateway.Failures.{CommonErrors}
use xuandu_gateway.Executor.{
  Header, Upstream, Json, Reply, framing_headers, token_name, value_tokens, connection_tokens,
  blocked_names, name_values, passed_headers, response_data, encode, check_response,
}

-- The headers that belong to the upstream's representation, its framing or its connection, or that the
-- gateway sets itself, in whatever case they are written.
unfoldable pub is_framing : Text → Bool
is_framing name = any (equal_fold name) (
    bytes "Content-Type"
    ∷ bytes "Content-Length"
    ∷ bytes "Content-Encoding"
    ∷ bytes "Transfer-Encoding"
    ∷ bytes "Connection"
    ∷ bytes "Trailer"
    ∷ bytes "Upgrade"
    ∷ bytes "Keep-Alive"
    ∷ bytes "Proxy-Authenticate"
    ∷ bytes "Proxy-Authorization"
    ∷ bytes "TE"
    ∷ bytes "X-Request-ID"
    ∷ bytes "ETag"
    ∷ bytes "Content-MD5"
    ∷ bytes "Content-Range"
    ∷ [])

-- The comma-separated values of a Connection header have the name among them.
unfoldable pub is_listed : List Header → Text → Bool
is_listed hs name =
    any
      (λ h.
        equal_fold h.name (bytes "Connection")
        && any (λ v. any (λ part. equal_fold name (trim_space part)) (split b',' v)) h.values)
      hs

-- The headers of `hs` that a gateway may pass on, `all_hs` being all headers of the response.
unfoldable pub end_to_end : List Header → List Header → List (Text × Text)
unfolding is_framing is_listed
end_to_end all_hs [] = []
end_to_end all_hs (h ∷ hs) =
    let rest = end_to_end all_hs hs in
    if is_framing h.name || is_listed all_hs h.name
    then rest
    else map (λ v. (h.name, v)) h.values ++ rest

is_framing-eq : (name : Text) → mem_text (to_lower name) framing_headers ≡ is_framing name
unfolding is_framing framing_headers mem_text equal_fold to_lower lower bytes
is_framing-eq name = refl

any-map :
    (k : Text) (f : Text → Text) (xs : List Text) → mem_text k (map f xs) ≡ any (λ x. k == f x) xs
unfolding mem_text
any-map k f [] = refl
any-map k f (x ∷ xs) = ground (arith, any-map k f xs)

value_tokens-eq :
    (name : Text) (vs : List Text)
    → mem_text (to_lower name) (value_tokens vs)
      ≡ any (λ v. any (λ part. equal_fold name (trim_space part)) (split b',' v)) vs
unfolding value_tokens token_name equal_fold
value_tokens-eq name [] = unfold mem_text in refl
value_tokens-eq name (v ∷ vs) = ground (
  arith,
  mem-append (to_lower name) (map token_name (split b',' v)) (value_tokens vs),
  any-map (to_lower name) token_name (split b',' v),
  value_tokens-eq name vs,
)

connection_tokens-eq :
    (name : Text) (hs : List Header)
    → mem_text (to_lower name) (connection_tokens hs) ≡ is_listed hs name
unfolding connection_tokens is_listed
connection_tokens-eq name [] = unfold mem_text in refl
connection_tokens-eq name (h ∷ hs) = ground (
  arith,
  mem-append (to_lower name) (value_tokens h.values) (connection_tokens hs),
  value_tokens-eq name h.values,
  connection_tokens-eq name hs,
)

blocked_names-eq :
    (name : Text) (hs : List Header)
    → mem_text (to_lower name) (blocked_names hs) ≡ (is_framing name || is_listed hs name)
unfolding blocked_names
blocked_names-eq name hs = ground (
  arith,
  mem-append (to_lower name) framing_headers (connection_tokens hs),
  is_framing-eq name,
  connection_tokens-eq name hs,
)

name_values-eq : (k : Text) (vs : List Text) → name_values k vs ≡ map (λ v. (k, v)) vs
unfolding name_values
name_values-eq k [] = refl
name_values-eq k (v ∷ vs) = ap (λ x. (k, v) ∷ x) (name_values-eq k vs)

passed_headers-eq :
    (all_hs hs : List Header) → passed_headers (blocked_names all_hs) hs ≡ end_to_end all_hs hs
unfolding passed_headers end_to_end
passed_headers-eq all_hs [] = refl
passed_headers-eq all_hs (h ∷ hs) = ground (
  arith,
  blocked_names-eq h.name all_hs,
  name_values-eq h.name h.values,
  passed_headers-eq all_hs hs,
)

-- The reply has the headers of the response that may be passed on.
abbrev pub Passes : List Header → Reply → Type 0
Passes hs reply = reply.headers ≡ end_to_end hs hs

module _ {Body : Type 0} (common : CommonErrors) (j : Json Body) where
  -- A reply to a successful upstream response passes on, with all their values and in their order, the
  -- headers of the response that are neither headers of the representation, the framing or the
  -- connection nor named in the list of a Connection header of the response, in whatever case the names
  -- are written, and no others.
  pub check_response-Passes :
      (out : Upstream Body) (reply : Reply)
      → check_response common j out ≡ ok reply
      → Passes out.headers reply
  unfolding check_response
  check_response-Passes out reply e =
      let status = if eqb out.status 0 then 200 else out.status in
      let (a, e1) = refuse-ok (ltb status 200 || ltb 599 status) _ _ e in
      let (b, e2) = refuse-ok (leb 400 status) _ _ e1 in
      let (c, e3) = refuse-ok (leb 300 status) _ _ e2 in
      let (d, found, e4) = >>=-eq-ok (response_data common j out) _ e3 in
      let (payload, encoded, e5) = >>=-eq-ok (encode common j d) _ e4 in
      let same : passed_headers (blocked_names out.headers) out.headers ≡ reply.headers =
        ground arith in
      sym same ∙ passed_headers-eq out.headers out.headers
