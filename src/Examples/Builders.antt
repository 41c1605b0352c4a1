-- ===== src/Examples/Builders.antt =====
-- Witnesses for internal/runtime/builder.go: an archive with one bundle.
use xuandu_gateway.Metadata.Domain.{normalize_domain, fold_host, valid_host, valid_label}
use xuandu_gateway.Metadata.Model.{
  validate, check_domain, name_pattern, revision_pattern, valid_download, validate_download_url,
  validate_stored,
}
use xuandu_gateway.Idl.Routes.{
  extract_routes, api_method, annotation_loop, annotation_path, auth_loop, check_signature,
  function_loop, is_struct, route_key, struct_depth, unsupported_method,
}
use xuandu_gateway.Prelude.{
  ◌≡◌, refl, false, is_some, [], ◌∷◌, bytes, ok, mem_text, sort_texts, lookup, ◌==◌, equal_fold,
  to_upper, trim_prefix, cut, contains_any, trim_suffix, trim_space, put, remove, base, clean, dir,
  is_abs, join_path, stem, cut_last, has_prefix, has_suffix, insert_text, join, lower, split,
  text_le, to_lower, trim_left, upper,
}
use xuandu_gateway.Idl.Ast.{Bundle}
use xuandu_gateway.Archive.{Revision}
use xuandu_gateway.Router
use xuandu_gateway.Router.{
  Table, match_route, add_apps, add_route, add_routes, pattern_of, patterns, supported,
}
use xuandu_gateway.Runtime.Builder.{
  Kitex, MultiClient, made, failed, build, client_for, build_one, bundle_loop, check_bundle,
  client_error, close_chain, close_group, info_for, refused_by, seal,
}
use xuandu_gateway.Runtime.Builder.Cleanup.{IsCleaned, build-IsCleaned}
use xuandu_gateway.Runtime.Builder.Clients.{client_for-total}
use xuandu_gateway.Examples.World.{platform, digest, first_router, route, app, info}
use xuandu_gateway.Examples.Archives.{parse}

abbrev revision : Revision
revision = record {
  archive = bytes "PK";
  digest = digest;
  files = (bytes "idl/a.thrift", bytes "main") ∷ [];
}

abbrev bundle : Bundle
bundle = record { main_path = bytes "idl/a.thrift"; files = revision.files }

abbrev kitex : Kitex
kitex = record {
  provider = λ b. made;
  codec = λ b. made;
  resolver = made;
  client = λ name b. made;
  cancelled = λ b. (false, false);
}

-- A Kitex whose clients cannot be made.
abbrev no_clients : Kitex
no_clients = record kitex { client = λ name b. failed }

build-IsCleaned_example :
    IsCleaned platform first_router parse no_clients app revision
      (route ∷ [])
      (build platform first_router parse no_clients app revision (bundle ∷ []) (route ∷ []))
unfolding mem_text
build-IsCleaned_example =
    build-IsCleaned platform first_router parse no_clients app revision (bundle ∷ []) (route ∷ [])
      (refl, tt)

abbrev group : MultiClient
group = record {
  clients = (bundle.main_path, 0) ∷ [];
  by_file = (bundle.main_path, route ∷ []) ∷ [];
}

abbrev group_table : Table
group_table = record { targets = record { app_name = bundle.main_path; route = route } ∷ [] }

builds :
    (build platform first_router parse kitex app revision (bundle ∷ []) (route ∷ [])).1
    ≡ ok (info, (group, group_table))
unfolding build mem_text sort_texts lookup ◌==◌ extract_routes equal_fold api_method to_upper
    trim_prefix cut contains_any validate normalize_domain trim_suffix trim_space annotation_loop
    annotation_path auth_loop check_signature function_loop is_struct route_key struct_depth
    unsupported_method fold_host valid_host valid_label check_domain name_pattern revision_pattern
    valid_download validate_download_url validate_stored put remove base clean dir is_abs join_path
    stem cut_last has_prefix has_suffix insert_text join lower split text_le to_lower trim_left
    upper add_apps add_route add_routes pattern_of patterns supported build_one bundle_loop
    check_bundle client_error close_chain close_group info_for refused_by seal bytes Router.build
builds = refl

client_for-total_example :
    is_some (client_for first_router group group_table (bytes "GET") (bytes "/x"))
    ≡ is_some (match_route first_router group_table (bytes "GET") (bytes "/x"))
unfolding mem_text
client_for-total_example =
    client_for-total platform first_router parse kitex app revision (bundle ∷ []) (route ∷ []) info
      group group_table (bytes "GET") (bytes "/x") (refl, tt) builds
