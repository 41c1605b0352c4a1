-- ===== src/Examples/Archives.antt =====
-- Witnesses for internal/archiveidl, internal/idl, internal/metadata/contracts.go and internal/router.
use xuandu_gateway.Metadata.Model.{revision_pattern}
use xuandu_gateway.Idl.Routes.{
  annotation_loop, annotation_path, api_method, auth_loop, check_signature, extract_routes,
  function_loop, is_struct, route_key, struct_depth, unsupported_method,
}
use xuandu_gateway.Prelude.{
  ◌<◌, ◌≤◌, ◌≡◌, ◌≢◌, inl, inr, refl, ap, subst, true, false, ◌==◌, eq_iff, if◌then◌else◌, Option,
  none, some, List, [], ◌∷◌, Text, bytes, Dict, lookup, put, lookup-put, keys, ok, err, arith, All,
  sum, length, Option-cases, sort_texts, mem_text, is_abs, contains_any, clean, join_path, dir,
  base, stem, cut, cut_last, equal_fold, has_prefix, insert_text, join, lower, split, text_le,
  to_lower, to_upper, trim_prefix, upper, trim_suffix, remove, has_suffix, pad6, itoa,
}
use xuandu_gateway.Idl.Ast.{Function, Thrift, Parser, Bundle, out_of_fuel}
use xuandu_gateway.Idl.Loader.{
  Asts, check, parse_all, enough_fuel, load_archive, name_loop, include_loop, escapes, target,
  bundle_step, enter, leave,
}
use xuandu_gateway.Idl.Loader.Order.{IsOrdered, Within, load_archive-IsOrdered}
use xuandu_gateway.Idl.Loader.Fuel.{check-fueled}
use xuandu_gateway.Archive.{
  Revision, unpack, max_expanded_bytes, max_files, max_archive_bytes, is_zip_header, unpack_entries,
  unpack_entry, bad_name, unpack_file, not_thrift_file, max_file_bytes, read_entry, any_conflict,
  parent_in,
}
use xuandu_gateway.Archive.Limits.{GoodFile, file_size, unpack_bounds}
use xuandu_gateway.Metadata.Consul.{Pair, Consul, Holds, CreatesOnly}
use xuandu_gateway.Metadata.Contracts.{
  put_contract, get_contract, contract_key, invalid_contract, put_archive, put_chunks,
  put_immutable, settle, chunk_size, chunk_key, marker_key, compare_stored,
}
use xuandu_gateway.Metadata.Contracts.RoundTrip.{get-put_contract}
use xuandu_gateway.Router.{build}
use xuandu_gateway.Router.Reference.{to_option, reference, build-eq-reference}
use xuandu_gateway.Examples.World.{platform, digest, first_router, app_name, route, table}

abbrev get_x : Function
get_x = record {
  name = bytes "M";
  annotations = record { key = bytes "api.get"; values = bytes "/x" ∷ [] } ∷ [];
  arguments = bytes "Req" ∷ [];
  function_type = some (bytes "Req");
  oneway = false;
}

abbrev main_ast : Thrift
main_ast = record {
  includes = bytes "b.thrift" ∷ [];
  services = record { name = bytes "S"; extends = []; functions = get_x ∷ [] } ∷ [];
  structs = bytes "Req" ∷ [];
  typedefs = [];
}

abbrev part_ast : Thrift
part_ast = record { includes = []; services = []; structs = []; typedefs = [] }

abbrev pub parse : Parser
parse name body = if body == bytes "part" then some part_ast else some main_ast

abbrev sources : Dict Text
sources = (bytes "idl/a.thrift", bytes "main") ∷ (bytes "idl/b.thrift", bytes "part") ∷ []

abbrev asts : Asts
asts = (bytes "idl/a.thrift", main_ast) ∷ (bytes "idl/b.thrift", part_ast) ∷ []

abbrev bundle : Bundle
bundle = record { main_path = bytes "idl/a.thrift"; files = sources }

loads : load_archive parse sources ≡ ok (bundle ∷ [], route ∷ [])
unfolding load_archive name_loop sort_texts mem_text include_loop escapes is_abs contains_any target
    clean join_path dir bundle_step enter leave annotation_loop annotation_path api_method auth_loop
    check_signature extract_routes function_loop is_struct route_key struct_depth unsupported_method
    base stem cut cut_last equal_fold has_prefix insert_text join lower split text_le to_lower
    to_upper trim_prefix upper max_archive_bytes is_zip_header unpack_entries unpack_entry bad_name
    trim_suffix unpack_file not_thrift_file max_file_bytes read_entry any_conflict parent_in remove
    has_suffix contract_key revision_pattern invalid_contract put_archive put_chunks put_immutable
    settle chunk_size chunk_key marker_key pad6 compare_stored itoa lookup ◌==◌ bytes parse_all
    check enough_fuel unpack max_files max_expanded_bytes put_contract put build
loads = refl

load_archive-IsOrdered_example :
    (found : Asts) × (parse_all parse sources ≡ ok found)
    × ((order : List Text) × IsOrdered found order × Within (keys sources) order)
load_archive-IsOrdered_example =
    load_archive-IsOrdered parse sources (bundle ∷ [], route ∷ []) loads

check-fueled_example :
    check asts (enough_fuel asts) (bytes "idl/a.thrift") (record { visiting = []; finished = [] })
    ≢ err out_of_fuel
check-fueled_example =
    check-fueled asts (bytes "idl/a.thrift") (record { visiting = []; finished = [] })

abbrev archive : Text
archive = b'P' ∷ b'K' ∷ 3 ∷ 4 ∷ []

abbrev unpacked : Dict Text
unpacked = (bytes "idl/a.thrift", bytes "ok") ∷ []

unpacks : unpack platform archive ≡ ok unpacked
unfolding unpack read_entry pad6 sort_texts lookup ◌==◌ bytes mem_text max_archive_bytes
    is_zip_header max_files unpack_entries unpack_entry bad_name trim_suffix clean contains_any
    unpack_file not_thrift_file max_file_bytes max_expanded_bytes put_contract contract_key
    revision_pattern invalid_contract put_archive put_chunks put_immutable settle chunk_size put
    chunk_key marker_key build any_conflict parent_in dir
unpacks = refl

unpack_bounds_example :
    All GoodFile unpacked
    × (sum file_size unpacked ≤ max_expanded_bytes)
    × (0 < length unpacked)
    × (length unpacked ≤ max_files)
unpack_bounds_example = unpack_bounds platform archive unpacked unpacks

abbrev Store : Type 0
Store = Dict Text

abbrev pair_of : Text → Option Text → Option Pair
pair_of k none = none
pair_of k (some v) = some (record { key = k; value = v; modify_index = 1 })

-- A check-and-set with any index creates the key or leaves the store.
abbrev store : Consul Store
store = record {
  get = λ k w. some (pair_of k (lookup k w));
  list = λ k w. some [];
  put_cas =
      λ k v i w. elim (lookup k w) [ none ↦ (put k v w, some true) | some old ↦ (w, some false) ];
  transact = λ k i v op j n w. (w, none);
}

holds : (w : Store) (k v : Text) → lookup k w ≡ some v → Holds store w k v
holds w k v e =
    (record { key = k; value = v; modify_index = 1 }, ap (λ o. some (pair_of k o)) e, refl)

held : (w : Store) (k v : Text) → Holds store w k v → lookup k w ≡ some v
held w k v (pair, found, value) = elim (Option-cases (lookup k w)) [
  | inl missing ↦ absurd (ground arith)
  | inr (u, is_u) ↦ ground arith
]

store-CreatesOnly : CreatesOnly store
store-CreatesOnly = record {
  created = λ k v w e. elim (Option-cases (lookup k w)) [
    | inl free ↦
        let next : put k v w ≡ (store.put_cas k v 0 w).0 = ground arith in
        subst (λ o. Holds store o k v) next
          (holds (put k v w) k v (ground (arith, lookup-put k k v w, eq_iff k k)))
    | inr (u, taken) ↦ absurd (ground arith)
  ];
  kept = λ k v j u w h. elim (Option-cases (lookup k w)) [
    | inl free ↦
        let next : put k v w ≡ (store.put_cas k v 0 w).0 = ground arith in
        subst (λ o. Holds store o j u) next
          (holds (put k v w) j u (ground (arith, lookup-put k j v w, eq_iff k j, held w j u h)))
    | inr (o, taken) ↦
        let next : w ≡ (store.put_cas k v 0 w).0 = ground arith in
        subst (λ o. Holds store o j u) next h
  ];
}

abbrev revision : Revision
revision = record { archive = archive; digest = digest; files = unpacked }

stores : (put_contract store platform (bytes "xuandu") revision []).1 ≡ ok tt
unfolding put_contract pad6 sort_texts lookup ◌==◌ bytes mem_text contract_key revision_pattern
    invalid_contract max_archive_bytes put_archive put_chunks put_immutable settle chunk_size put
    chunk_key trim_suffix marker_key build
stores = refl

get-put_contract_example :
    get_contract store platform
      (bytes "xuandu")
      digest
      (put_contract store platform (bytes "xuandu") revision []).0
    ≡ ok revision
get-put_contract_example =
    get-put_contract store store-CreatesOnly platform (bytes "xuandu") revision [] stores unpacks

builds : build first_router ((app_name, route ∷ []) ∷ []) ≡ ok table
unfolding build sort_texts lookup ◌==◌ bytes mem_text
builds = refl

build-eq-reference_example :
    to_option (build first_router ((app_name, route ∷ []) ∷ []))
    ≡ reference first_router ((app_name, route ∷ []) ∷ [])
build-eq-reference_example = build-eq-reference first_router ((app_name, route ∷ []) ∷ [])
