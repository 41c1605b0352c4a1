-- ===== src/Examples/Catalogs.antt =====
-- Witnesses for internal/mcp: the checks and the mutations of a catalog.
use xuandu_gateway.Runtime.Manager.{
  acquire, close_list, close_runtime, drop_active, drop_refs, release,
}
use xuandu_gateway.Runtime.Heap.{close_cell, pin, unpin, update}
use xuandu_gateway.Mcp.Build.{
  add_endpoints, build, build_servers, compile_server, compile_tools, document_of, enabled_app,
  finish_server, grant_views, insert_binding, key_views, max_definitions, max_tools, reused,
  sorted_bindings, view_of,
}
use xuandu_gateway.Prelude.{
  ℕ, suc, ◌≡◌, inl, inr, refl, sym, subst, ◌∙◌, Bool, true, false, ◌==◌, if◌then◌else◌, Option,
  none, some, List, [], ◌∷◌, Text, bytes, Result, ok, err, arith, eqb, All, Bool-cases, mem_text,
  trim_space, to_lower, equal_fold, contains, lookup, put, remove, contains_any, has_prefix,
  has_suffix, lower, split, trim_left, text_le,
}
use xuandu_gateway.Metadata.Consul.{Pair, Consul}
use xuandu_gateway.Metadata.Model.{App}
use xuandu_gateway.Mcp.Model.{
  Catalog, Mutation, header_name, sensitive_header, sensitive_names, endpoint_key, has_extras,
  is_bad_path, tool_name, key_hash,
}
use xuandu_gateway.Mcp.Validate.{
  validate, too_many_items, server_loop, bad_server_fields, bad_server_header, endpoint_loop,
  bad_key_fields, bad_tool_fields, bad_tool_grant, grant_loop, key_loop, name_key, no_server,
  tool_loop,
}
use xuandu_gateway.Mcp.Validate.Sound.{IsCatalog, validate-IsCatalog}
use xuandu_gateway.Mcp.Mutate.{
  Changed, Random, change_catalog, dispatch, mutate_access, access_loop, has_key, mutate_server,
  mutate_tool, mutate_key, creates, change_first, changed_key, drop_granted, drop_grants, drop_tool,
  set_access,
}
use xuandu_gateway.Mcp.Mutate.Access.{SetsAccess, access_sets_grants}
use xuandu_gateway.Mcp.Mutate.Catalogs.{
  NoTool, NoGrant, GoodHash, delete_server-cascades, key_hashes_known,
}
use xuandu_gateway.Mcp.Service.{
  Codec, Saved, State, load, mutate, requested, decode_pair, max_catalog_bytes, checked_server,
  commit, compile_error, leased, list_apps, load_valid, save,
}
use xuandu_gateway.Mcp.Service.Commit.{Leaves, mutate-Leaves}
use xuandu_gateway.Mcp.Service.Stored.{CasStores, ReadsBack, IsStored, mutate-IsStored}
use xuandu_gateway.Examples.World.{platform, app, manager}
use xuandu_gateway.Examples.Servers.{server, tool, key, catalog, compiler}

is_catalog : validate platform catalog ≡ ok tt
unfolding validate too_many_items server_loop bad_server_fields mem_text trim_space
    bad_server_header header_name sensitive_header sensitive_names to_lower equal_fold endpoint_loop
    endpoint_key has_extras contains is_bad_path tool_name bad_key_fields bad_tool_fields
    bad_tool_grant grant_loop key_loop name_key no_server tool_loop lookup put remove contains_any
    has_prefix has_suffix lower split trim_left dispatch mutate_access access_loop has_key ◌==◌
    bytes mutate_server mutate_tool mutate_key change_catalog
is_catalog = refl

validate-IsCatalog_example : IsCatalog platform catalog
validate-IsCatalog_example = validate-IsCatalog platform catalog is_catalog

abbrev random : Random
random = record { id = bytes "new"; secret = bytes "xuandu_1" }

abbrev mutation : Text → Bool → Text → Mutation
mutation kind delete id = record {
  access = record { key_id = bytes "k1"; tool_ids = [] } ∷ [];
  version = 0;
  kind = kind;
  delete = delete;
  rotate = true;
  id = id;
  server = server;
  tool = tool;
  key = key;
}

abbrev change : Mutation → Changed
change m = elim (change_catalog platform random catalog m) [
  | ok x ↦ x
  | err e ↦ record { catalog = catalog; id = []; secret = []; exists_ = false }
]

access_changes :
    change_catalog platform random catalog (mutation (bytes "access") false (bytes "s1"))
    ≡ ok (change (mutation (bytes "access") false (bytes "s1")))
unfolding change_catalog dispatch ◌==◌ bytes mutate_access access_loop lookup has_key mutate_server
    mutate_tool mutate_key
access_changes = refl

server_changes :
    change_catalog platform random catalog (mutation (bytes "server") true (bytes "s1"))
    ≡ ok (change (mutation (bytes "server") true (bytes "s1")))
unfolding change_catalog dispatch ◌==◌ bytes mutate_server mutate_tool mutate_key
server_changes = refl

tool_changes :
    change_catalog platform random catalog (mutation (bytes "tool") true (bytes "t1"))
    ≡ ok (change (mutation (bytes "tool") true (bytes "t1")))
unfolding change_catalog dispatch ◌==◌ bytes mutate_tool mutate_key
tool_changes = refl

key_changes :
    change_catalog platform random catalog (mutation (bytes "key") false (bytes "k1"))
    ≡ ok (change (mutation (bytes "key") false (bytes "k1")))
unfolding change_catalog dispatch ◌==◌ bytes mutate_key
key_changes = refl

access_sets_grants_example :
    SetsAccess
      (mutation (bytes "access") false (bytes "s1"))
      catalog
      (change (mutation (bytes "access") false (bytes "s1"))).catalog
access_sets_grants_example =
    access_sets_grants platform random catalog (mutation (bytes "access") false (bytes "s1"))
      (change (mutation (bytes "access") false (bytes "s1"))) refl access_changes

delete_server-cascades_example :
    NoTool (bytes "s1") (change (mutation (bytes "server") true (bytes "s1"))).catalog.tools
    × NoGrant (bytes "s1") (change (mutation (bytes "server") true (bytes "s1"))).catalog.keys
delete_server-cascades_example =
    delete_server-cascades platform random catalog (mutation (bytes "server") true (bytes "s1"))
      (change (mutation (bytes "server") true (bytes "s1"))) refl refl server_changes

key_hashes_known_example :
    All
      (GoodHash platform random catalog.keys)
      (change (mutation (bytes "key") false (bytes "k1"))).catalog.keys
key_hashes_known_example =
    key_hashes_known platform random catalog (mutation (bytes "key") false (bytes "k1"))
      (change (mutation (bytes "key") false (bytes "k1"))) refl key_changes

-- A store of one value; its index grows with every write.
abbrev Store : Type 0
Store = Option Pair

abbrev index : Store → ℕ
index none = 0
index (some pair) = pair.modify_index

abbrev written : Text → Text → Store → Store
written k v w = some (record { key = k; value = v; modify_index = suc (index w) })

abbrev store : Consul Store
store = record {
  get = λ k w. some w;
  list = λ k w. some [];
  put_cas = λ k v i w. if eqb i (index w) then (written k v w, some true) else (w, some false);
  transact = λ k i v op j n w. (w, none);
}

store-CasStores : CasStores store
store-CasStores = record {
  stores = λ k v i w e. elim (Bool-cases (eqb i (index w))) [
    | inl same ↦ rw same (_, refl, refl)
    | inr other ↦ absurd (ground arith)
  ];
}

abbrev removal : Mutation
removal = mutation (bytes "key") true (bytes "k1")

abbrev without_key : Catalog
without_key = record catalog { keys = [] }

-- Texts stand for the two catalogs of the example.
abbrev codec : Codec
codec = record {
  encode = λ c. elim c.keys [ [] ↦ bytes "0" | k ∷ ks ↦ bytes "1" ];
  decode = λ s. if s == bytes "0" then some without_key else some catalog;
}

abbrev apps_of : Store → Option (List App)
apps_of w = some (app ∷ [])

abbrev stored : Store
stored = some (record { key = []; value = bytes "1"; modify_index = 3 })

abbrev state : State Store
state = record { world = stored; current = none; manager = manager }

abbrev request : Mutation
request = record removal { version = 3 }

mutate-Leaves_example :
    Leaves platform compiler store codec [] apps_of 0 request state
      (mutate platform compiler store codec [] apps_of 0 random request state).0
      (mutate platform compiler store codec [] apps_of 0 random request state).1
mutate-Leaves_example =
    mutate-Leaves platform compiler store codec [] apps_of 0 random request state

abbrev answer : Saved
answer = record { id = bytes "k1"; version = 4; secret = [] }

succeeds : (mutate platform compiler store codec [] apps_of 0 random request state).1 ≡ ok answer
unfolding mutate requested decode_pair max_catalog_bytes creates change_first trim_space bytes ◌==◌
    dispatch mutate_key load change_catalog validate too_many_items server_loop bad_server_fields
    mem_text tool_name add_endpoints build build_servers compile_server compile_tools document_of
    enabled_app finish_server grant_views insert_binding key_views max_definitions max_tools reused
    sorted_bindings view_of key_hash changed_key drop_granted drop_grants drop_tool set_access
    checked_server commit compile_error leased list_apps load_valid save text_le close_cell pin
    unpin update acquire close_list close_runtime drop_active drop_refs release bad_server_header
    header_name sensitive_header sensitive_names to_lower equal_fold endpoint_loop endpoint_key
    has_extras contains is_bad_path has_suffix contains_any split tool_loop bad_tool_fields
    no_server lookup put key_loop
succeeds = refl

loads : load platform compiler store codec [] apps_of stored ≡ ok (record catalog { version = 3 })
unfolding load decode_pair max_catalog_bytes bytes ◌==◌ dispatch mutate_key creates change_first
    change_catalog
loads = refl

abbrev removed : Changed
removed = record {
  catalog = record without_key { version = 3 };
  id = bytes "k1";
  secret = [];
  exists_ = true;
}

removes : change_catalog platform random (record catalog { version = 3 }) request ≡ ok removed
unfolding change_catalog dispatch ◌==◌ bytes mutate_key creates change_first
removes = refl

ok-injective : {E A : Type 0} {a b : A} → Path (Result E A) (ok a) (ok b) → a ≡ b
ok-injective e = ground arith

reads_removed : codec.decode (codec.encode without_key) ≡ some without_key
unfolding ◌==◌ bytes
reads_removed = refl

reads_back : ReadsBack platform compiler store codec [] apps_of random request stored
reads_back x asked =
    let before : record catalog { version = 3 } ≡ asked.before =
      ok-injective (sym loads ∙ asked.loaded) in
    let changes : change_catalog platform random (record catalog { version = 3 }) request ≡ ok x =
      subst (λ o. change_catalog platform random o request ≡ ok x) (sym before) asked.change in
    let is_removed : removed ≡ x = ok-injective (sym removes ∙ changes) in
    subst
      (λ o.
        codec.decode (codec.encode (record (o.catalog) { version = 0 }))
        ≡ some (record (o.catalog) { version = 0 }))
      is_removed reads_removed

mutate-IsStored_example :
    IsStored platform compiler store codec [] apps_of random request stored
      (mutate platform compiler store codec [] apps_of 0 random request state).0.world
      answer
mutate-IsStored_example =
    mutate-IsStored platform compiler store codec [] apps_of store-CasStores 0 random request state
      answer reads_back succeeds
