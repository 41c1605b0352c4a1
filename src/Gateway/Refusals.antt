-- ===== src/Gateway/Refusals.antt =====
-- internal/httpgateway/handler.go: the replies to requests that are refused.
use xuandu_gateway.Prelude.{
  ℕ, ◌≡◌, refl, inl, inr, Bool, true, false, not, ◌&&◌, or_default, [], Text, bytes, ◌==◌, lookup,
  Result, ok, err, ◌>>=◌, ◌>>◌, refuse, map_err, ltb, eqb, length, Bool-cases, Option-cases, arith,
}
use xuandu_gateway.Platform.{Platform}
use xuandu_gateway.Metadata.Domain.{request_domain}
use xuandu_gateway.Router.{KitexRouter}
use xuandu_gateway.Runtime.Manager.{Snapshot, has_app, match_in}
use xuandu_gateway.Failures.{
  Common, CommonErrors, invalid_argument, permission_denied, not_found, from_common,
}
use xuandu_gateway.Failures.Bounds.{IsErrorStatus}
use xuandu_gateway.Executor.{Json, Fault, fault}
use xuandu_gateway.Executor.Outcome.{IsFault}
use xuandu_gateway.Gateway.{
  Request, Client, app_codes, single, refusal, unknown_domain, app_code_mismatch, route_not_found,
  find_domain, find_app, find_target, choose_target, check_body,
}

module _ {W Body : Type 0} (p : Platform) (k : KitexRouter) (common : CommonErrors) (j : Json Body)
    (client : Client W Body) (limit : ℕ) where
  pub refusal-IsFault :
      (source reason : Text) (status : ℕ) (e : Common)
      → (source == []) ≡ false
      → IsErrorStatus status
      → IsFault common (refusal p k common j client limit source reason status e)
  unfolding refusal fault from_common
  refusal-IsFault source reason status e h g = (h, g, inl (status, e, refl))

  pub gateway_source : (bytes "gateway" == []) ≡ false
  unfolding bytes ◌==◌
  gateway_source = refl

  validation_source : (bytes "gateway_validation" == []) ≡ false
  unfolding bytes ◌==◌
  validation_source = refl

  abbrev pub IsRefused : {A : Type 0} → Result Fault A → Type 0
  IsRefused (ok a) = Unit
  IsRefused (err f) = IsFault common f

  refuse-IsRefused :
      {A : Type 0} (bad : Bool) (f : Fault) (m : Result Fault A)
      → IsFault common f
      → IsRefused m
      → IsRefused (refuse bad f >> m)
  refuse-IsRefused true f m h g = h
  refuse-IsRefused false f m h g = g

  last_refuse : (bad : Bool) (f : Fault) → IsFault common f → IsRefused (refuse bad f)
  last_refuse true f h = h
  last_refuse false f h = tt

  bind-IsRefused :
      {A B : Type 0} (m : Result Fault A) (f : A → Result Fault B)
      → IsRefused m
      → ((a : A) → IsRefused (f a))
      → IsRefused (m >>= f)
  bind-IsRefused (ok a) f h g = g a
  bind-IsRefused (err e) f h g = h

  map_err-IsRefused :
      {E A : Type 0} (m : Result E A) (f : Fault)
      → IsFault common f
      → IsRefused (map_err (λ (e : E). f) m)
  map_err-IsRefused (ok a) f h = tt
  map_err-IsRefused (err e) f h = h

  find_domain-IsRefused :
      (s : Snapshot) (r : Request) → IsRefused (find_domain p k common j client limit s r)
  unfolding find_domain unknown_domain
  find_domain-IsRefused s r =
      let f =
        refusal-IsFault (bytes "gateway_validation") (bytes "unknown_domain") 404 not_found
          validation_source (ground arith, ground arith) in
      bind-IsRefused _ _ (map_err-IsRefused (request_domain p r.host) _ f) λ domain.
        refuse-IsRefused {A = Text} (eqb (length (or_default (lookup domain s.domains) [])) 0)
          (unknown_domain p k common j client limit) (ok domain) f tt

  find_app-IsRefused :
      (s : Snapshot) (domain : Text) (r : Request)
      → IsRefused (find_app p k common j client limit s domain r)
  unfolding find_app app_code_mismatch
  find_app-IsRefused s domain r =
      let f =
        refusal-IsFault (bytes "gateway_validation") (bytes "app_code_mismatch") 403
          permission_denied validation_source (ground arith, ground arith) in
      elim (Option-cases (single (app_codes r.headers))) [
        | inl several ↦ rw (several, IsRefused) f
        | inr (app, one) ↦
            rw (one, IsRefused)
              (elim (Bool-cases (has_app s domain app)) [
                | inl member ↦ rw (member, IsRefused) tt
                | inr other ↦ rw (other, IsRefused) f
              ])
      ]

  find_target-IsRefused :
      (s : Snapshot) (app : Text) (r : Request)
      → IsRefused (find_target p k common j client limit s app r)
  unfolding find_target route_not_found
  find_target-IsRefused s app r =
      let f =
        refusal-IsFault (bytes "gateway") (bytes "route_not_found") 404 not_found gateway_source
          (ground arith, ground arith) in
      elim (Option-cases (match_in k s app r.method r.path)) [
        | inl none_ ↦ rw (none_, IsRefused) f
        | inr (target, found) ↦ rw (found, IsRefused) tt
      ]

  pub choose_target-IsRefused :
      (s : Snapshot) (r : Request) → IsRefused (choose_target p k common j client limit s r)
  unfolding choose_target
  choose_target-IsRefused s r = bind-IsRefused _ _ (find_domain-IsRefused s r) λ domain.
      bind-IsRefused _ _ (find_app-IsRefused s domain r) λ app. find_target-IsRefused s app r

  pub check_body-IsRefused : (r : Request) → IsRefused (check_body p k common j client limit r)
  unfolding check_body
  check_body-IsRefused r =
      let large =
        refusal p k common j client limit (bytes "gateway_validation") (bytes "body_too_large") 413
          invalid_argument in
      let invalid =
        refusal p k common j client limit (bytes "gateway_validation") (bytes "invalid_json") 400
          invalid_argument in
      let foreign =
        refusal p k common j client limit (bytes "gateway_validation")
          (bytes "invalid_http_request") 400 invalid_argument in
      let last = last_refuse (not r.representable) foreign (
        refusal-IsFault (bytes "gateway_validation") (bytes "invalid_http_request") 400
          invalid_argument validation_source (ground arith, ground arith)) in
      let second =
        refuse-IsRefused {A = Unit {0}} (ltb 0 (length r.body) && not (j.valid r.body)) invalid
          (refuse (not r.representable) foreign)
          (refusal-IsFault (bytes "gateway_validation") (bytes "invalid_json") 400 invalid_argument
            validation_source (ground arith, ground arith))
          last in
      refuse-IsRefused {A = Unit {0}} (ltb limit (length r.body)) large
        (refuse (ltb 0 (length r.body) && not (j.valid r.body)) invalid
          >> refuse (not r.representable) foreign)
        (refusal-IsFault (bytes "gateway_validation") (bytes "body_too_large") 413 invalid_argument
          validation_source (ground arith, ground arith))
        second
