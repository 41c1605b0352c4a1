-- ===== src/Examples/Requests.antt =====
-- Witnesses for internal/httpgateway, internal/executor and internal/apperr.
use xuandu_gateway.Prelude.{
  refl, ok, ℕ, ◌+◌, ◌≡◌, ◌⊎◌, true, false, none, some, [], ◌∷◌, bytes, mem_text, to_lower,
}
use xuandu_gateway.Failures.{CallError, map_error}
use xuandu_gateway.Failures.Bounds.{IsErrorStatus, map_error-IsErrorStatus}
use xuandu_gateway.Executor.{
  Reply, blocked_names, check_response, Upstream, Answer, responded, Json, execute, response_data,
  encode, passed_headers, success_code, framing_headers,
}
use xuandu_gateway.Executor.Headers.{Passes, check_response-Passes}
use xuandu_gateway.Executor.Outcome.{IsSuccess, IsFailure, execute-cases}
use xuandu_gateway.Gateway.{Request, Client, serve}
use xuandu_gateway.Gateway.Routing.{IsForwarded}
use xuandu_gateway.Gateway.Serving.{IsReplied, serve-IsReplied, serve-IsForwarded}
use xuandu_gateway.Examples.World.{
  platform, first_router, common_errors, app_name, host, route, manager,
}
use xuandu_gateway.Examples.Leases.{snapshot-IsRouted}

abbrev timed_out : CallError
timed_out = record {
  type_name = bytes "timeout";
  biz = some (404123, bytes "missing");
  protocol = none;
  deadline_exceeded = true;
  rpc_timeout = false;
  service_discovery = false;
  loadbalance = false;
  no_more_instance = false;
  payload_validation = false;
  get_connection = false;
  remote_or_network = false;
  trans_protocol = false;
  net_timeout = none;
}

map_error-IsErrorStatus_example : IsErrorStatus (map_error common_errors timed_out).status
map_error-IsErrorStatus_example = map_error-IsErrorStatus common_errors timed_out

abbrev pub json : Json ℕ
json = record { marshal = λ code message data_. some (bytes "{}"); valid = λ s. true }

abbrev created : Upstream ℕ
created = record {
  status = 204;
  body = 5;
  raw_body = none;
  headers = record { name = bytes "ETag"; values = bytes "1" ∷ [] } ∷ [];
}

-- The state counts the calls.
abbrev pub answer_created : ℕ → ℕ × Answer ℕ
answer_created n = (n + 1, responded created)

execute-cases_example :
    IsSuccess json
      (answer_created 0).1
      (execute common_errors json answer_created route [] true 0).1
    ⊎ IsFailure json common_errors (execute common_errors json answer_created route [] true 0).1
execute-cases_example = execute-cases common_errors json answer_created route [] true 0

abbrev client : Client ℕ ℕ
client = record { user_of = λ r. []; convertible = λ r. true; call = λ a t r n. answer_created n }

abbrev request : Request
request = record {
  method = bytes "GET";
  path = bytes "/x";
  host = host;
  headers = (bytes "x-app-code", app_name) ∷ [];
  body = [];
  representable = true;
}

serve-IsReplied_example :
    IsReplied platform first_router common_errors json client 10 request 0
      (serve platform first_router common_errors json client 10 request 0 manager).1
serve-IsReplied_example =
    serve-IsReplied platform first_router common_errors json client 10 request 0 manager
      snapshot-IsRouted

serve-IsForwarded_example :
    ((serve platform first_router common_errors json client 10 request 0 manager).0.0 ≡ 0)
    ⊎ ((manager.closed ≡ false)
        × IsForwarded platform first_router common_errors json client 10 manager.current request)
serve-IsForwarded_example =
    serve-IsForwarded platform first_router common_errors json client 10 request 0 manager
      snapshot-IsRouted

abbrev passed : Reply
passed = record {
  status = 200;
  payload = bytes "{}";
  headers = [];
  code = bytes "000000";
  message = bytes "success";
  source = [];
  reason = [];
  error_type = [];
}

passes : check_response common_errors json created ≡ ok passed
unfolding check_response response_data encode passed_headers success_code mem_text framing_headers
    to_lower bytes blocked_names
passes = refl

check_response-Passes_example : Passes created.headers passed
check_response-Passes_example = check_response-Passes common_errors json created passed passes
