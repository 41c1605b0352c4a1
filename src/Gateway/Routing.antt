-- ===== src/Gateway/Routing.antt =====
-- internal/httpgateway/handler.go: what the checks of a request establish.
use xuandu_gateway.Prelude.{
  refuse-ok, map_err-ok, ℕ, ◌≤◌, ◌≡◌, ap, subst, ◌∙◌, ◌⊎◌, inl, inr, true, not, ◌&&◌, some, is_some,
  or_default, [], Text, lookup, ok, map_err, ltb, eqb, length, All-at, Bool-cases, Option-cases,
  >>=-eq-ok, arith,
}
use xuandu_gateway.Platform.{Platform}
use xuandu_gateway.Metadata.Domain.{request_domain}
use xuandu_gateway.Router.{Target, KitexRouter, match_route, patterns}
use xuandu_gateway.Runtime.Manager.{Snapshot, has_app, match_in}
use xuandu_gateway.Runtime.Manager.Tables.{IsRouted}
use xuandu_gateway.Failures.{CommonErrors}
use xuandu_gateway.Executor.{Json}
use xuandu_gateway.Gateway.{
  Request, Client, app_codes, single, unknown_domain, find_domain, find_app, find_target,
  choose_target, check_body,
}

pub match_in_lem :
    (k : KitexRouter) (s : Snapshot) (app method path : Text) (target : Target)
    → IsRouted s
    → match_in k s app method path ≡ some target
    → (target.app_name ≡ app) × (is_some (lookup app s.runtimes) ≡ true)
unfolding match_in match_route
match_in_lem k s app method path target routed e = elim (Option-cases (lookup app s.routes)) [
  | inl missing ↦ absurd (ground arith)
  | inr (table, found) ↦
      let (belongs, has_runtime) = routed app table found in
      elim (Option-cases (k.find (patterns table) method path)) [
        | inl nothing ↦ absurd (ground arith)
        | inr (i, at) ↦ (
          All-at (λ t. t.app_name ≡ app) table.targets i target belongs (ground arith),
          has_runtime,
        )
      ]
]

module _ {W Body : Type 0} (p : Platform) (k : KitexRouter) (common : CommonErrors) (j : Json Body)
    (client : Client W Body) (limit : ℕ) where
  -- Why a request is forwarded.
  pub record IsForwarded (s : Snapshot) (r : Request) : Type 0 where
    pub app : Text
    pub target : Target
    pub at_domain :
        (domain : Text) × (request_domain p r.host ≡ ok domain) × (has_app s domain app ≡ true)
    pub one_code : single (app_codes r.headers) ≡ some app
    pub matched : match_in k s app r.method r.path ≡ some target
    pub own : target.app_name ≡ app
    pub short : length r.body ≤ limit
    pub json : (length r.body ≡ 0) ⊎ (j.valid r.body ≡ true)

  pub record IsChosen (s : Snapshot) (r : Request) (target : Target) : Type 0 where
    pub app : Text
    pub at_domain :
        (domain : Text) × (request_domain p r.host ≡ ok domain) × (has_app s domain app ≡ true)
    pub one_code : single (app_codes r.headers) ≡ some app
    pub matched : match_in k s app r.method r.path ≡ some target

  find_domain_lem :
      (s : Snapshot) (r : Request) (domain : Text)
      → find_domain p k common j client limit s r ≡ ok domain
      → request_domain p r.host ≡ ok domain
  unfolding find_domain
  find_domain_lem s r domain e =
      let (found, parsed, e1) =
        >>=-eq-ok
          (map_err (λ e. unknown_domain p k common j client limit) (request_domain p r.host)) _ e in
      let (known, e2) =
        refuse-ok (eqb (length (or_default (lookup found s.domains) [])) 0)
          (unknown_domain p k common j client limit) (ok found) e1 in
      let same : found ≡ domain = ground arith in
      subst (λ o. request_domain p r.host ≡ ok o) same
        (map_err-ok (λ e. unknown_domain p k common j client limit) (request_domain p r.host)
          parsed)

  find_app_lem :
      (s : Snapshot) (domain : Text) (r : Request) (app : Text)
      → find_app p k common j client limit s domain r ≡ ok app
      → (single (app_codes r.headers) ≡ some app) × (has_app s domain app ≡ true)
  unfolding find_app
  find_app_lem s domain r app e = elim (Option-cases (single (app_codes r.headers))) [
    | inl several ↦ absurd (ground arith)
    | inr (code, one) ↦ elim (Bool-cases (has_app s domain code)) [
      | inr other ↦ absurd (ground arith)
      | inl member ↦
          let same : code ≡ app = ground arith in
          (one ∙ ap some same, subst (λ o. has_app s domain o ≡ true) same member)
    ]
  ]

  find_target_lem :
      (s : Snapshot) (app : Text) (r : Request) (target : Target)
      → find_target p k common j client limit s app r ≡ ok target
      → match_in k s app r.method r.path ≡ some target
  unfolding find_target
  find_target_lem s app r target e = elim (Option-cases (match_in k s app r.method r.path)) [
    | inl none_ ↦ absurd (ground arith)
    | inr (found, at) ↦ ground arith
  ]

  pub choose_target-IsChosen :
      (s : Snapshot) (r : Request) (target : Target)
      → choose_target p k common j client limit s r ≡ ok target
      → IsChosen s r target
  unfolding choose_target
  choose_target-IsChosen s r target e =
      let (domain, at_domain, e1) = >>=-eq-ok (find_domain p k common j client limit s r) _ e in
      let (app, at_app, e2) = >>=-eq-ok (find_app p k common j client limit s domain r) _ e1 in
      let (one, member) = find_app_lem s domain r app at_app in
      record {
        app = app;
        at_domain = (domain, find_domain_lem s r domain at_domain, member);
        one_code = one;
        matched = find_target_lem s app r target e2;
      }

  pub check_body_lem :
      (r : Request)
      → check_body p k common j client limit r ≡ ok tt
      → (length r.body ≤ limit) × ((length r.body ≡ 0) ⊎ (j.valid r.body ≡ true))
  unfolding check_body
  check_body_lem r e =
      let (short, e1) = refuse-ok (ltb limit (length r.body)) _ _ e in
      let (json, e2) = refuse-ok (ltb 0 (length r.body) && not (j.valid r.body)) _ _ e1 in
      (ground arith, ground arith)
