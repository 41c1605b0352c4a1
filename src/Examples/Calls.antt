-- ===== src/Examples/Calls.antt =====
-- Witnesses for internal/mcp/service.go: a call of a tool.
use xuandu_gateway.Prelude.{ℕ, true, some, [], bytes, ok}
use xuandu_gateway.Mcp.Build.{Binding}
use xuandu_gateway.Mcp.Call.{CallScope, Tooling, call}
use xuandu_gateway.Mcp.Call.Checked.{IsChecked, call-IsChecked}
use xuandu_gateway.Examples.World.{first_router, route, heap, snapshot, common_errors}
use xuandu_gateway.Examples.Requests.{json, answer_created}
use xuandu_gateway.Examples.Servers.{tool}

abbrev binding : Binding
binding = record { config = tool; route = route; size = 1 }

abbrev scope : CallScope
scope = record { snapshot = snapshot; runtime = 7; server_id = tool.server_id; user = bytes "u" }

abbrev tooling : Tooling ℕ ℕ
tooling = record {
  request = λ b raw. ok (record { method = bytes "GET"; path = bytes "/x" });
  call = λ r route req w. answer_created w;
  convertible = λ req. true;
  conforms = λ b payload. true;
  encoded_length = λ payload. some 10;
}

call-IsChecked_example :
    IsChecked first_router common_errors json tooling heap
      (some scope)
      binding
      []
      0
      (call first_router common_errors json tooling heap (some scope) binding [] 0)
call-IsChecked_example =
    call-IsChecked first_router common_errors json tooling heap (some scope) binding [] 0
