-- ===== src/Executor/Outcome.antt =====
-- internal/executor/executor.go: the replies to callers.
use xuandu_gateway.Prelude.{
  ℕ, ◌≤◌, ◌≡◌, ◌≢◌, refl, ◌⊎◌, inl, inr, Bool, true, false, ◌&&◌, ◌||◌, [], Text, bytes, ◌==◌, none,
  some, or_default, trim_space, eq_of_==, subst, Result, ok, err, ◌>>=◌, ◌>>◌, refuse,
  if◌then◌else◌, ltb, leb, eqb, Bool-cases, Option-cases, arith,
}
use xuandu_gateway.Idl.Ast.{Route}
use xuandu_gateway.Failures.{
  Common, CommonErrors, CallError, Failure, from_common, map_error, invalid_argument,
  identity_required, dependency_unavailable,
}
use xuandu_gateway.Failures.Bounds.{IsErrorStatus, map_error-IsErrorStatus}
use xuandu_gateway.Executor.{
  Data, Upstream, Answer, failed, unexpected, responded, decoded, raw, null, Json, Reply, Fault,
  success_code, fault, upstream_fault, upstream_error, response_data, encode, check_response,
  check_answer, fail, settle, execute,
}

-- A failure has the code and the message of a common error, or those that Map gives an error of a call.
abbrev pub IsKnown : CommonErrors → Failure → Type 0
IsKnown common f =
    ((status : ℕ) × (e : Common) × (f ≡ from_common common status e))
    ⊎ ((e : CallError) × (f ≡ map_error common e))

abbrev pub IsFault : CommonErrors → Fault → Type 0
IsFault common f =
    ((f.source == []) ≡ false) × IsErrorStatus f.failure.status × IsKnown common f.failure

module _ {Body : Type 0} (j : Json Body) where
  -- The data of the envelope for an upstream response: its decoded body, or its raw body, which is
  -- JSON, or null if that is blank.
  pub data Carries (out : Upstream Body) : Data Body → Type 0 where
    carries_decoded : out.raw_body ≡ none → Carries out (decoded out.body)
    carries_null :
        (text : Text) → out.raw_body ≡ some text → trim_space text ≡ [] → Carries out null
    carries_raw :
        (text : Text) → out.raw_body ≡ some text → j.valid text ≡ true → Carries out (raw text)

  -- A reply to an answer with the envelope of a success: a status of a success that allows a body, and
  -- as the payload the code, the message and the data of the answer.
  pub record IsSuccess (answer : Answer Body) (r : Reply) : Type 0 where
    pub source : r.source ≡ []
    pub code : r.code ≡ bytes "000000"
    pub message : r.message ≡ bytes "success"
    pub status : (200 ≤ r.status) × (r.status ≤ 299) × (r.status ≢ 204) × (r.status ≢ 205)
    pub out : Upstream Body
    pub responded_ : answer ≡ responded out
    pub content : Data Body
    pub carries : Carries out content
    pub payload : j.marshal r.code r.message content ≡ some r.payload

  -- A reply with the envelope of an error: a status of an error, a source for the log, no header of the
  -- upstream, and as the payload the code and the message of the error with no data.
  pub record IsFailure (common : CommonErrors) (r : Reply) : Type 0 where
    pub source : (r.source == []) ≡ false
    pub headers : r.headers ≡ []
    pub failure : Failure
    pub known : IsKnown common failure
    pub status : r.status ≡ failure.status
    pub is_error : IsErrorStatus r.status
    pub code : r.code ≡ failure.code
    pub message : r.message ≡ failure.message
    pub payload : r.payload ≡ or_default (j.marshal r.code r.message null) []

module _ {Body : Type 0} (common : CommonErrors) (j : Json Body) where
  abbrev IsChecked : Answer Body → Result Fault Reply → Type 0
  IsChecked answer (ok r) = IsSuccess j answer r
  IsChecked answer (err f) = IsFault common f

  upstream_fault-IsFault : (reason : Text) → IsFault common (upstream_fault common j reason)
  unfolding upstream_fault fault from_common bytes ◌==◌
  upstream_fault-IsFault reason =
      (refl, (ground arith, ground arith), inl (502, dependency_unavailable, refl))

  upstream_error-IsFault :
      (status : ℕ)
      → IsErrorStatus status
      → IsFault common (
          fault common j
            (bytes "upstream_response")
            (bytes "upstream_http_error")
            []
            (upstream_error common j status))
  unfolding fault upstream_error from_common bytes ◌==◌
  upstream_error-IsFault status h = (refl, h, inl (status, _, refl))

  refuse-IsChecked :
      (answer : Answer Body) (bad : Bool) (f : Fault) (k : Result Fault Reply)
      → (bad ≡ true → IsFault common f)
      → (bad ≡ false → IsChecked answer k)
      → IsChecked answer (refuse bad f >> k)
  refuse-IsChecked answer true f k h g = h refl
  refuse-IsChecked answer false f k h g = g refl

  response_data-IsFault :
      (out : Upstream Body) (f : Fault) → response_data common j out ≡ err f → IsFault common f
  unfolding response_data
  response_data-IsFault out f e =
      ground (arith, upstream_fault-IsFault (bytes "invalid_response_json"))

  encode-IsFault : (d : Data Body) (f : Fault) → encode common j d ≡ err f → IsFault common f
  unfolding encode
  encode-IsFault d f e = ground (arith, upstream_fault-IsFault (bytes "response_encoding_failed"))

  bind-IsChecked :
      {A : Type 0} (answer : Answer Body) (m : Result Fault A) (k : A → Result Fault Reply)
      → ((f : Fault) → m ≡ err f → IsFault common f)
      → ((a : A) → m ≡ ok a → IsChecked answer (k a))
      → IsChecked answer (m >>= k)
  bind-IsChecked answer (ok a) k h g = g a refl
  bind-IsChecked answer (err f) k h g = h f refl

  response_data-Carries :
      (out : Upstream Body) (d : Data Body) → response_data common j out ≡ ok d → Carries j out d
  unfolding response_data
  response_data-Carries out d e = elim (Option-cases out.raw_body) [
    | inl none_ ↦
        let same : decoded out.body ≡ d = ground arith in
        subst (Carries j out) same (carries_decoded none_)
    | inr (text, found) ↦ elim (Bool-cases (trim_space text == [])) [
      | inl blank ↦
          let same : null ≡ d = ground arith in
          subst (Carries j out) same (carries_null text found (eq_of_== (trim_space text) [] blank))
      | inr full ↦ elim (Bool-cases (j.valid text)) [
        | inl good ↦
            let same : raw text ≡ d = ground arith in
            subst (Carries j out) same (carries_raw text found good)
        | inr bad ↦ absurd (ground arith)
      ]
    ]
  ]

  encode-marshal :
      (d : Data Body) (payload : Text)
      → encode common j d ≡ ok payload
      → j.marshal success_code (bytes "success") d ≡ some payload
  unfolding encode
  encode-marshal d payload e = ground arith

  check_response-IsChecked :
      (out : Upstream Body) → IsChecked (responded out) (check_response common j out)
  unfolding check_response success_code
  check_response-IsChecked out =
      let status = if eqb out.status 0 then 200 else out.status in
      refuse-IsChecked _ (ltb status 200 || ltb 599 status) _ _
        (λ bad. upstream_fault-IsFault (bytes "invalid_http_status"))
        λ good.
          refuse-IsChecked _ (leb 400 status) _ _
            (λ bad. upstream_error-IsFault status (ground arith, ground arith))
            λ fine.
              refuse-IsChecked _ (leb 300 status) _ _
                (λ bad. upstream_fault-IsFault (bytes "unexpected_redirect"))
                λ direct.
                  bind-IsChecked _ (response_data common j out) _ (response_data-IsFault out)
                    λ d found.
                      bind-IsChecked _ (encode common j d) _ (encode-IsFault d) λ payload encoded.
                        record {
                          source = refl;
                          code = refl;
                          message = refl;
                          status = (ground arith, ground arith, ground arith, ground arith);
                          out = out;
                          responded_ = refl;
                          content = d;
                          carries = response_data-Carries out d found;
                          payload = encode-marshal d payload encoded;
                        }

  check_answer-IsChecked : (a : Answer Body) → IsChecked a (check_answer common j a)
  unfolding check_answer fault bytes ◌==◌
  check_answer-IsChecked (failed e) = elim (Option-cases e.biz) [
    | inl none_ ↦ rw none_ (refl, map_error-IsErrorStatus common e, inr (e, refl))
    | inr (b, biz) ↦ rw biz (refl, map_error-IsErrorStatus common e, inr (e, refl))
  ]
  check_answer-IsChecked unexpected = upstream_fault-IsFault (bytes "invalid_response_type")
  check_answer-IsChecked (responded out) = check_response-IsChecked out

  pub fail-IsFailure : (f : Fault) → IsFault common f → IsFailure j common (fail common j f)
  unfolding fail
  fail-IsFailure f h = record {
    source = h.0;
    headers = refl;
    failure = f.failure;
    known = h.2;
    status = refl;
    is_error = h.1;
    code = refl;
    message = refl;
    payload = refl;
  }

  settle-cases :
      (answer : Answer Body) (r : Result Fault Reply)
      → IsChecked answer r
      → IsSuccess j answer (settle common j r) ⊎ IsFailure j common (settle common j r)
  unfolding settle
  settle-cases answer (ok reply) h = inl h
  settle-cases answer (err f) h = inr (fail-IsFailure f h)

  -- Whatever the upstream answers, the caller gets the envelope with a status that allows a body. A
  -- success has a status from 200 to 299 other than 204 and 205, and its payload is the code 000000,
  -- the message success and the data of the upstream's response: the decoded body, or the raw body if
  -- that is JSON, or null if that is blank. Anything else has a status from 400 to 599, a source for the
  -- log and none of the upstream's headers, and its payload is the code and the message of a common
  -- error, or those that Map gives an error of a call, without data (empty if this cannot be encoded).
  pub execute-cases :
      {W : Type 0} (call : W → W × Answer Body) (route : Route) (user : Text) (convertible : Bool)
      (w : W)
      → let reply = (execute common j call route user convertible w).1 in
        IsSuccess j (call w).1 reply ⊎ IsFailure j common reply
  unfolding execute fault from_common bytes ◌==◌
  execute-cases call route user convertible w =
      elim (Bool-cases (route.require_login && user == [])) [
        | inl anonymous ↦ rw anonymous (
            inr (
              fail-IsFailure _
                (refl, (ground arith, ground arith), inl (401, identity_required, refl))))
        | inr known ↦ rw known (elim (Bool-cases convertible) [
          | inr bad ↦ rw bad (
              inr (
                fail-IsFailure _
                  (refl, (ground arith, ground arith), inl (400, invalid_argument, refl))))
          | inl good ↦ rw good (
              settle-cases (call w).1 (check_answer common j (call w).1)
                (check_answer-IsChecked (call w).1))
        ])
      ]
