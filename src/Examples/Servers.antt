-- ===== src/Examples/Servers.antt =====
-- Witnesses for internal/mcp/service.go.
use xuandu_gateway.Runtime.Manager.{
  acquire, close_list, close_runtime, drop_active, drop_refs, has_app, release,
}
use xuandu_gateway.Runtime.Heap.{close_cell, pin, unpin, update}
use xuandu_gateway.Metadata.Domain.{
  fold_host, normalize_domain, request_domain, split_host_port, strip_brackets, valid_host,
  valid_label, valid_port,
}
use xuandu_gateway.Prelude.{
  ℕ, ◌≡◌, refl, true, false, none, some, List, [], ◌∷◌, Text, bytes, Result, ok, ◌==◌, lookup, put,
  contains, has_suffix, contains_any, split, remove, atoi, cut, cut_last, digits, equal_fold,
  has_prefix, lower, mem_text, text_le, to_lower, trim_left, trim_space, trim_suffix,
}
use xuandu_gateway.Idl.Ast.{Route}
use xuandu_gateway.Mcp.Model.{
  ServerConfig, ToolConfig, KeyConfig, Catalog, endpoint_key, has_extras, is_bad_path, key_hash,
}
use xuandu_gateway.Mcp.Build.{
  Binding, Compiler, McpSnapshot, build, build_servers, add_endpoints, compile_server,
  compile_tools, document_of, enabled_app, finish_server, grant_views, insert_binding, key_views,
  max_definitions, max_tools, reused, sorted_bindings, view_of,
}
use xuandu_gateway.Mcp.Build.Views.{IsSound}
use xuandu_gateway.Mcp.Build.Sound.{build-IsSound}
use xuandu_gateway.Mcp.Serve.{
  Request, Scope, answered, serve_http, select_server, max_age, authorize, find_key, find_runtime,
  find_view, header_get, header_values, origin_allowed, same_origin, token_of,
}
use xuandu_gateway.Mcp.Serve.Access.{IsServed, serve_http-IsServed}
use xuandu_gateway.Mcp.Serve.Lease.{IsRestored, PublishedUnretired, serve_http-IsRestored}
use xuandu_gateway.Examples.World.{
  platform, digest, app_name, host, route, app, heap, snapshot, manager,
}

abbrev pub server : ServerConfig
server = record {
  id = bytes "s1";
  name = bytes "server";
  app = app_name;
  endpoints = bytes "/m" ∷ [];
  header = bytes "X-API-Key";
  bearer = false;
  enabled = true;
}

abbrev pub tool : ToolConfig
tool = record {
  id = bytes "t1";
  server_id = bytes "s1";
  name = bytes "tool";
  description = [];
  operation_id = bytes "op";
}

abbrev pub key : KeyConfig
key = record {
  id = bytes "k1";
  name = bytes "key";
  enabled = true;
  hash = digest;
  grants = record { server_id = bytes "s1"; tool_ids = bytes "t1" ∷ [] } ∷ [];
}

abbrev pub catalog : Catalog
catalog = record { version = 0; servers = server ∷ []; tools = tool ∷ []; keys = key ∷ [] }

abbrev compile_tool : ToolConfig → ℕ → List Route → Text → Result Text Binding
compile_tool t d routes header = ok (record { config = t; route = route; size = 1 })

abbrev pub compiler : Compiler ℕ
compiler = record {
  get_contract = λ revision. some [];
  generate = λ app revision files. ok 0;
  compile = compile_tool;
}

abbrev built : McpSnapshot
built = build compiler platform 0 none catalog (app ∷ []) heap snapshot

build-IsSound_example : IsSound built
build-IsSound_example = build-IsSound compiler platform 0 none catalog (app ∷ []) heap snapshot tt

abbrev pub request : Request
request = record {
  path = bytes "/m";
  escaped_path = bytes "/m";
  host = host;
  headers = (bytes "X-API-Key", bytes "secret") ∷ [];
}

abbrev view : List Binding
view = record { config = tool; route = route; size = 1 } ∷ []

abbrev pub scope : Scope
scope = record { runtime = 7; key_id = bytes "k1"; server_id = bytes "s1"; view = view }

served : (serve_http platform 0 (some built) request manager).1 ≡ answered (ok scope)
unfolding serve_http ◌==◌ select_server max_age lookup build_servers put add_endpoints endpoint_key
    has_extras contains is_bad_path has_suffix contains_any split compile_server compile_tools
    document_of enabled_app finish_server grant_views insert_binding key_views max_definitions
    max_tools reused sorted_bindings view_of key_hash authorize find_key find_runtime find_view
    header_get header_values origin_allowed same_origin token_of fold_host normalize_domain
    request_domain split_host_port strip_brackets valid_host valid_label valid_port remove atoi cut
    cut_last digits equal_fold has_prefix lower mem_text text_le to_lower trim_left trim_space
    trim_suffix close_cell pin unpin update acquire close_list close_runtime drop_active drop_refs
    has_app release bytes build
served = refl

serve_http-IsServed_example : IsServed platform 0 (some built) request manager scope
serve_http-IsServed_example =
    serve_http-IsServed platform 0 (some built) request manager scope served

manager-PublishedUnretired : PublishedUnretired manager
manager-PublishedUnretired a h = refl

serve_http-IsRestored_example :
    IsRestored manager (serve_http platform 0 (some built) request manager).0
serve_http-IsRestored_example =
    serve_http-IsRestored platform 0 (some built) request manager manager-PublishedUnretired
