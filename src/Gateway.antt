-- ===== src/Gateway.antt =====
-- internal/httpgateway/handler.go: Serve, without its log record and the request id.
pub mod Refusals
pub mod Routing
pub mod Serving
use xuandu_gateway.Prelude.{
  ℕ, Bool, true, false, not, ◌&&◌, ◌||◌, Option, none, some, or_default, List, [], ◌∷◌, Text, bytes,
  ◌==◌, equal_fold, Dict, lookup, Result, ok, err, ◌>>=◌, ◌>>◌, refuse, map_err, if◌then◌else◌, ltb,
  eqb, length,
}
use xuandu_gateway.Platform.{Platform}
use xuandu_gateway.Idl.Ast.{Route}
use xuandu_gateway.Metadata.Domain.{request_domain}
use xuandu_gateway.Router.{Target, KitexRouter}
use xuandu_gateway.Runtime.Heap.{Address}
use xuandu_gateway.Runtime.Manager.{Snapshot, Manager, has_app, match_in, acquire, release}
use xuandu_gateway.Failures.{
  Common, CommonErrors, invalid_argument, permission_denied, not_found, dependency_unavailable,
  from_common,
}
use xuandu_gateway.Executor.{Answer, Json, Reply, Fault, fault, fail, execute}

-- The parts of the request that Serve reads; `representable` tells that http.NewRequest accepts it.
pub record Request : Type 0 where
  pub method : Text
  pub path : Text
  pub host : Text
  pub headers : Dict Text
  pub body : Text
  pub representable : Bool

-- The runtime client: who the request's user is, whether generic.FromHTTPRequest accepts the
-- request, and the call of a method of a runtime. `W` is the state of the upstream services.
pub record Client (W Body : Type 0) : Type 0 where
  pub user_of : Request → Text
  pub convertible : Request → Bool
  pub call : Address → Route → Request → W → W × Answer Body

-- `panicked`: the code has dereferenced a nil runtime.
pub data Outcome : Type 0 where
  replied : Reply → Outcome
  panicked : Outcome

-- The values of X-App-Code.
unfoldable pub app_codes : Dict Text → List Text
app_codes [] = []
app_codes ((k, v) ∷ hs) =
    let rest = app_codes hs in if equal_fold k (bytes "X-App-Code") then v ∷ rest else rest

unfoldable pub single : List Text → Option Text
single [] = none
single (v ∷ []) = some v
single (v ∷ w ∷ vs) = none

module _ {W Body : Type 0} (p : Platform) (k : KitexRouter) (common : CommonErrors) (j : Json Body)
    (client : Client W Body) (limit : ℕ) where
  unfoldable pub refusal : Text → Text → ℕ → Common → Fault
  refusal source reason status e = fault common j source reason [] (from_common common status e)

  unfoldable pub unknown_domain : Fault
  unknown_domain = refusal (bytes "gateway_validation") (bytes "unknown_domain") 404 not_found

  unfoldable pub app_code_mismatch : Fault
  app_code_mismatch =
      refusal (bytes "gateway_validation") (bytes "app_code_mismatch") 403 permission_denied

  unfoldable pub route_not_found : Fault
  route_not_found = refusal (bytes "gateway") (bytes "route_not_found") 404 not_found

  -- The domain of the request, which some application has.
  unfoldable pub find_domain : Snapshot → Request → Result Fault Text
  find_domain s r = do
    domain ← map_err (λ e. unknown_domain) (request_domain p r.host)
    refuse (eqb (length (or_default (lookup domain s.domains) [])) 0) unknown_domain
    ok domain

  unfoldable pub find_app : Snapshot → Text → Request → Result Fault Text
  find_app s domain r = elim (single (app_codes r.headers)) [
    | none ↦ err app_code_mismatch
    | some app ↦ if has_app s domain app then ok app else err app_code_mismatch
  ]

  unfoldable pub find_target : Snapshot → Text → Request → Result Fault Target
  find_target s app r = elim (match_in k s app r.method r.path) [
    | none ↦ err route_not_found
    | some target ↦ ok target
  ]

  unfoldable pub choose_target : Snapshot → Request → Result Fault Target
  choose_target s r = do domain ← find_domain s r; app ← find_app s domain r; find_target s app r

  unfoldable pub check_body : Request → Result Fault (Unit {0})
  check_body r = do
    refuse (ltb limit (length r.body))
        (refusal (bytes "gateway_validation") (bytes "body_too_large") 413 invalid_argument)
    refuse (ltb 0 (length r.body) && not (j.valid r.body))
        (refusal (bytes "gateway_validation") (bytes "invalid_json") 400 invalid_argument)
    refuse (not r.representable)
        (refusal (bytes "gateway_validation") (bytes "invalid_http_request") 400 invalid_argument)

  unfoldable pub forward : Address → Target → Request → W → W × Outcome
  forward a target r w = elim (check_body r) [
    | err f ↦ (w, replied (fail common j f))
    | ok u ↦
        let (w', reply) =
          execute common j (client.call a target.route r) target.route (client.user_of r)
            (client.convertible r) w in
        (w', replied reply)
  ]

  -- Serve with a lease of the snapshot `s`.
  unfoldable pub handle : Snapshot → Request → W → W × Outcome
  handle s r w = elim (choose_target s r) [
    | err f ↦ (w, replied (fail common j f))
    | ok target ↦ elim (lookup target.app_name s.runtimes) [
      | none ↦ (w, panicked)
      | some a ↦ forward a target r w
    ]
  ]

  unfoldable pub serve : Request → W → Manager → (W × Manager) × Outcome
  serve r w m =
      let (m', lease) = acquire m in
      elim lease [
        | none ↦ (
          (w, m'),
          replied (
              fail common j
                (refusal (bytes "gateway") (bytes "shutting_down") 503 dependency_unavailable)),
        )
        | some s ↦ let (w', outcome) = handle s r w in ((w', release s m'), outcome)
      ]
