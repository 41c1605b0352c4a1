-- ===== src/Examples/Histories.antt =====
-- Witnesses for the histories of internal/mcp/service.go: a store of one value whose index grows with
-- every write, and a service that has refreshed its snapshot from it.
use xuandu_gateway.Prelude.{
  ℕ, suc, ◌<◌, ◌≡◌, ◌⊎◌, refl, ◌∙◌, sym, subst, ap, inl, inr, Option, none, some, List, [], ◌∷◌,
  Text, bytes, true, false, ok, eqb, Bool-cases, if◌then◌else◌, arith, ◌==◌, lookup, put, contains,
  has_suffix, contains_any, split, remove, atoi, cut, cut_last, digits, equal_fold, has_prefix,
  lower, mem_text, text_le, to_lower, trim_left, trim_space, trim_suffix,
}
use xuandu_gateway.Metadata.Consul.{Consul, Pair}
use xuandu_gateway.Metadata.Model.{App}
use xuandu_gateway.Mcp.Serve.{
  answered, serve_http, select_server, max_age, authorize, find_key, find_runtime, find_view,
  header_get, header_values, origin_allowed, same_origin, token_of,
}
use xuandu_gateway.Mcp.Service.{
  Codec, State, refresh, load, decode_pair, max_catalog_bytes, list_apps, load_valid, refreshed,
}
use xuandu_gateway.Mcp.Service.Granted.{Timed, starts, refreshes, IsGranted, serve_http-IsGranted}
use xuandu_gateway.Runtime.Manager.{
  acquire, close_list, close_runtime, drop_active, drop_refs, has_app, release,
}
use xuandu_gateway.Runtime.Heap.{close_cell, pin, unpin, update}
use xuandu_gateway.Metadata.Domain.{
  fold_host, normalize_domain, request_domain, split_host_port, strip_brackets, valid_host,
  valid_label, valid_port,
}
use xuandu_gateway.Mcp.Model.{
  endpoint_key, has_extras, is_bad_path, key_hash, header_name, sensitive_header, sensitive_names,
  tool_name,
}
use xuandu_gateway.Mcp.Build.{
  build, build_servers, add_endpoints, compile_server, compile_tools, document_of, enabled_app,
  finish_server, grant_views, insert_binding, key_views, max_definitions, max_tools, reused,
  sorted_bindings, view_of,
}
use xuandu_gateway.Mcp.Validate.{
  validate, too_many_items, server_loop, bad_server_fields, bad_server_header, endpoint_loop,
  bad_key_fields, bad_tool_fields, bad_tool_grant, grant_loop, key_loop, name_key, no_server,
  tool_loop,
}
use xuandu_gateway.Examples.World.{platform, app, manager}
use xuandu_gateway.Examples.Servers.{catalog, compiler, request, scope}

abbrev Store : Type 0
Store = Option (ℕ × Text)

abbrev index : Store → ℕ
index none = 0
index (some (n, v)) = suc n

abbrev pair_at : Text → Store → Option Pair
pair_at k none = none
pair_at k (some (n, v)) = some (record { key = k; value = v; modify_index = suc n })

abbrev store : Consul Store
store = record {
  get = λ k w. some (pair_at k w);
  list = λ k w. some [];
  put_cas = λ k v i w. if eqb i (index w) then (some (index w, v), some true) else (w, some false);
  transact = λ k i v op j n w. (w, none);
}

abbrev Before : Store → Store → Type 0
Before v w = (v ≡ w) ⊎ (index v < index w)

chained : (u v w : Store) → Before u v → Before v w → Before u w
chained u v w (inl same) later = subst (λ o. Before o w) (sym same) later
chained u v w (inr less) (inl same) = inr (subst (λ o. index u < index o) same less)
chained u v w (inr less) (inr more) = inr (omega arith)

writes : (k v : Text) (i : ℕ) (w : Store) → Before w (store.put_cas k v i w).0
writes k v i w = elim (Bool-cases (eqb i (index w))) [
  | inl same ↦ rw same (inr (omega arith))
  | inr other ↦ rw other (inl refl)
]

pair-index : (k : Text) (w : Store) (a : Pair) → pair_at k w ≡ some a → a.modify_index ≡ index w
pair-index k none a e = cc
pair-index k (some (n, v)) a e = ground arith

pair-positive : (k : Text) (w : Store) (a : Pair) → pair_at k w ≡ some a → 0 < a.modify_index
pair-positive k none a e = cc
pair-positive k (some (n, v)) a e = ground arith

index-value :
    (k : Text) (v w : Store) (a b : Pair)
    → Before v w
    → pair_at k v ≡ some a
    → pair_at k w ≡ some b
    → a.modify_index ≡ b.modify_index
    → a.value ≡ b.value
index-value k v w a b (inl same) at_v at_w e =
    let both : Path (Option Pair) (some a) (some b) = sym at_v ∙ (ap (pair_at k) same ∙ at_w) in
    ground arith
index-value k v w a b (inr less) at_v at_w e =
    absurd (ground (arith, pair-index k v a at_v, pair-index k w b at_w))

inner : {a b : Option Pair} → Path (Option (Option Pair)) (some a) (some b) → a ≡ b
inner e = ground arith

store-Timed : Timed store
store-Timed = record {
  Precedes = Before;
  same = λ w. inl refl;
  chain = chained;
  written = writes;
  positive = λ k w a e. pair-positive k w a (inner e);
  indexed = λ k v w a b before e f. index-value k v w a b before (inner e) (inner f);
}

abbrev codec : Codec
codec = record { encode = λ c. bytes "1"; decode = λ s. some catalog }

abbrev apps_of : Store → Option (List App)
apps_of w = some (app ∷ [])

abbrev first : State Store
first = record { world = some (2, bytes "1"); current = none; manager = manager }

abbrev second : State Store
second = (refresh platform compiler store codec [] apps_of 0 first).0

served : (serve_http platform 0 second.current request second.manager).1 ≡ answered (ok scope)
unfolding serve_http ◌==◌ select_server max_age lookup build_servers put add_endpoints endpoint_key
    has_extras contains is_bad_path has_suffix contains_any split compile_server compile_tools
    document_of enabled_app finish_server grant_views insert_binding key_views max_definitions
    max_tools reused sorted_bindings view_of key_hash authorize find_key find_runtime find_view
    header_get header_values origin_allowed same_origin token_of fold_host normalize_domain
    request_domain split_host_port strip_brackets valid_host valid_label valid_port remove atoi cut
    cut_last digits equal_fold has_prefix lower mem_text text_le to_lower trim_left trim_space
    trim_suffix close_cell pin unpin update acquire close_list close_runtime drop_active drop_refs
    has_app release bytes build decode_pair max_catalog_bytes load validate too_many_items
    server_loop bad_server_fields tool_name list_apps load_valid bad_server_header header_name
    sensitive_header sensitive_names endpoint_loop tool_loop bad_tool_fields no_server key_loop
    bad_key_fields bad_tool_grant grant_loop name_key refresh refreshed
served = refl

serve_http-IsGranted_example :
    IsGranted platform compiler store codec [] apps_of store-Timed 0 second scope
serve_http-IsGranted_example =
    serve_http-IsGranted platform compiler store codec [] apps_of store-Timed second 0 request scope
      (refreshes {st = first} 0 (starts (some (2, bytes "1")) manager)) served
