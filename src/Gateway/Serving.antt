-- ===== src/Gateway/Serving.antt =====
-- internal/httpgateway/handler.go: which requests reach an upstream service, and the replies.
use xuandu_gateway.Prelude.{
  ℕ, ◌≡◌, sym, ap, subst, ◌∙◌, ◌⊎◌, inl, inr, false, is_some, bytes, lookup, Result, err,
  Bool-cases, Option-cases, Result-cases, arith,
}
use xuandu_gateway.Platform.{Platform}
use xuandu_gateway.Idl.Ast.{Route}
use xuandu_gateway.Router.{Target, KitexRouter}
use xuandu_gateway.Runtime.Heap.{Address}
use xuandu_gateway.Runtime.Manager.{Snapshot, Manager, acquire}
use xuandu_gateway.Runtime.Manager.Tables.{IsRouted}
use xuandu_gateway.Failures.{CommonErrors, dependency_unavailable}
use xuandu_gateway.Executor.{Json, Fault, fail}
use xuandu_gateway.Executor.Outcome.{IsSuccess, IsFailure, IsFault, execute-cases, fail-IsFailure}
use xuandu_gateway.Gateway.Refusals.{
  IsRefused, refusal-IsFault, gateway_source, choose_target-IsRefused, check_body-IsRefused,
}
use xuandu_gateway.Gateway.Routing.{
  match_in_lem, IsForwarded, IsChosen, choose_target-IsChosen, check_body_lem,
}
use xuandu_gateway.Gateway.{
  Request, Client, Outcome, replied, panicked, choose_target, check_body, forward, handle, serve,
}

module _ {W Body : Type 0} (p : Platform) (k : KitexRouter) (common : CommonErrors) (j : Json Body)
    (client : Client W Body) (limit : ℕ) where
  -- A reply with the envelope of a success, for what the upstream answers to this request, or of an
  -- error.
  abbrev pub IsReplied : Request → W → Outcome → Type 0
  IsReplied r w (replied reply) =
      ((a : Address) × (route : Route) × IsSuccess j (client.call a route r w).1 reply)
      ⊎ IsFailure j common reply
  IsReplied r w panicked = ⊥

  refused-IsReplied :
      {A : Type 0} (r : Request) (w : W) (m : Result Fault A) (f : Fault)
      → m ≡ err f
      → IsRefused p k common j client limit m
      → IsReplied r w (replied (fail common j f))
  refused-IsReplied r w m f e h =
      let is_fault : IsFault common f = subst (IsRefused p k common j client limit) e h in
      inr (fail-IsFailure common j f is_fault)

  forward-IsReplied :
      (a : Address) (target : Target) (r : Request) (w : W)
      → IsReplied r w (forward p k common j client limit a target r w).1
  unfolding forward
  forward-IsReplied a target r w = elim (Result-cases (check_body p k common j client limit r)) [
    | inr (f, bad) ↦
        rw (bad, IsReplied)
          (refused-IsReplied r w (check_body p k common j client limit r) f bad
            (check_body-IsRefused p k common j client limit r))
    | inl (u, good) ↦
        rw (good, IsReplied)
          (elim (execute-cases common j (client.call a target.route r) target.route
            (client.user_of r) (client.convertible r) w) [
              | inl success ↦ inl (a, target.route, success)
              | inr failure ↦ inr failure
            ])
  ]

  handle-IsReplied :
      (s : Snapshot) (r : Request) (w : W)
      → IsRouted s
      → IsReplied r w (handle p k common j client limit s r w).1
  unfolding handle
  handle-IsReplied s r w routed =
      elim (Result-cases (choose_target p k common j client limit s r)) [
        | inr (f, bad) ↦
            rw (bad, IsReplied)
              (refused-IsReplied r w (choose_target p k common j client limit s r) f bad
                (choose_target-IsRefused p k common j client limit s r))
        | inl (target, chosen) ↦
            let c = choose_target-IsChosen p k common j client limit s r target chosen in
            let (own, has_runtime) =
              match_in_lem k s c.app r.method r.path target routed c.matched in
            elim (Option-cases (lookup target.app_name s.runtimes)) [
              | inl missing ↦ absurd (ground (arith, ap (λ o. is_some (lookup o s.runtimes)) own))
              | inr (a, found) ↦ rw (chosen, found, IsReplied) (forward-IsReplied a target r w)
            ]
      ]

  -- Every request gets a reply, if each table of the published snapshot leads to a runtime of its
  -- application, as Publish leaves it: Serve does not dereference a nil runtime, and the reply is the
  -- envelope of a success or of an error. A success has a status from 200 to 299 that allows a body,
  -- and its payload is the code 000000, the message success and the data of what a runtime has
  -- answered to this request. An error has a status from 400 to 599, a source for the log and no header
  -- of an upstream, and its payload is the code and the message of a common error, or those that Map
  -- gives an error of a call, without data (empty if this cannot be encoded).
  pub serve-IsReplied :
      (r : Request) (w : W) (m : Manager)
      → IsRouted m.current
      → IsReplied r w (serve p k common j client limit r w m).1
  unfolding serve acquire
  serve-IsReplied r w m routed = elim (Bool-cases m.closed) [
    | inl shut ↦
        rw (shut, IsReplied)
          (inr (
            fail-IsFailure common j _ (
              refusal-IsFault p k common j client limit (bytes "gateway") (bytes "shutting_down")
                503 dependency_unavailable (gateway_source p k common j client limit)
                (ground arith, ground arith))))
    | inr open_ ↦ rw (open_, IsReplied) (handle-IsReplied m.current r w routed)
  ]

  forward-IsForwarded :
      (s : Snapshot) (a : Address) (target : Target) (r : Request) (w : W)
      → IsRouted s
      → IsChosen p k common j client limit s r target
      → ((forward p k common j client limit a target r w).0 ≡ w)
        ⊎ IsForwarded p k common j client limit s r
  unfolding forward
  forward-IsForwarded s a target r w routed c =
      elim (Result-cases (check_body p k common j client limit r)) [
        | inr (f, bad) ↦ inl (ground arith)
        | inl (u, good) ↦
            let (short, json) = check_body_lem p k common j client limit r good in
            let (own, has_runtime) =
              match_in_lem k s c.app r.method r.path target routed c.matched in
            inr (record {
              app = c.app;
              target = target;
              at_domain = c.at_domain;
              one_code = c.one_code;
              matched = c.matched;
              own = own;
              short = short;
              json = json;
            })
      ]

  handle-IsForwarded :
      (s : Snapshot) (r : Request) (w : W)
      → IsRouted s
      → ((handle p k common j client limit s r w).0 ≡ w) ⊎ IsForwarded p k common j client limit s r
  unfolding handle
  handle-IsForwarded s r w routed =
      elim (Result-cases (choose_target p k common j client limit s r)) [
        | inr (f, bad) ↦ inl (ground arith)
        | inl (target, chosen) ↦ elim (Option-cases (lookup target.app_name s.runtimes)) [
          | inl missing ↦ inl (ground arith)
          | inr (a, found) ↦
              let forwarded =
                forward-IsForwarded s a target r w routed
                  (choose_target-IsChosen p k common j client limit s r target chosen) in
              let same : (forward p k common j client limit a target r w).0
                  ≡ (handle p k common j client limit s r w).0 =
                ground arith in
              elim forwarded [ inl quiet ↦ inl (sym same ∙ quiet) | inr why ↦ inr why ]
        ]
      ]

  -- A request reaches an upstream service only under these conditions: the manager is open, the
  -- host names a domain of an application whose code is the one value of X-App-Code, a route of that
  -- application matches, and the body is within the limit and empty or valid JSON. Otherwise Serve
  -- leaves the upstream services as they were.
  pub serve-IsForwarded :
      (r : Request) (w : W) (m : Manager)
      → IsRouted m.current
      → ((serve p k common j client limit r w m).0.0 ≡ w)
        ⊎ ((m.closed ≡ false) × IsForwarded p k common j client limit m.current r)
  unfolding serve acquire
  serve-IsForwarded r w m routed = elim (Bool-cases m.closed) [
    | inl shut ↦ inl (ground arith)
    | inr open_ ↦
        let same : (handle p k common j client limit m.current r w).0
            ≡ (serve p k common j client limit r w m).0.0 =
          ground arith in
        elim (handle-IsForwarded m.current r w routed) [
          | inl quiet ↦ inl (sym same ∙ quiet)
          | inr why ↦ inr (open_, why)
        ]
  ]
