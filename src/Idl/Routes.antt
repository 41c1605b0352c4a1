-- ===== src/Idl/Routes.antt =====
-- internal/idl/routes.go.
use xuandu_gateway.Prelude.{
  ℕ, zero, suc, ◌+◌, Bool, true, false, not, ◌||◌, none, some, List, [], ◌∷◌, ◌++◌, Text, bytes,
  ◌==◌, has_prefix, trim_prefix, to_upper, equal_fold, contains_any, cut, mem_text, Dict, lookup,
  Result, ok, err, ◌>>=◌, ◌>>◌, refuse, if◌then◌else◌, ltb, eqb, any, length, or_default, stem,
  clean, join_path, dir,
}
use xuandu_gateway.Idl.Ast.{
  Annotation, Function, Service, Typedef, Parser, Bundle, Route, IdlError, invalid_thrift,
  one_service_required, inheritance_unsupported, auth_annotation, method_unsupported,
  one_struct_argument, struct_response, one_path, invalid_path, reserved_route, duplicate_route,
  one_annotation,
}

-- The first loop over the annotations: whether `xuandu.auth` was seen, and what it requires.
unfoldable pub auth_loop : List Annotation → Bool → Bool → Result IdlError Bool
auth_loop [] seen login = ok login
auth_loop (a ∷ rest) seen login =
    let skipped = auth_loop rest seen login in
    let taken = auth_loop rest true (any (λ v. v == bytes "required") a.values) in
    if not (equal_fold a.key (bytes "xuandu.auth"))
    then skipped
    else if seen
        || not (eqb (length a.values) 1)
        || not (any (λ v. v == bytes "required" || v == bytes "optional") a.values)
    then err auth_annotation
    else taken

-- The HTTP method of an annotation, empty for any other.
unfoldable pub api_method : Text → Text
api_method key =
    if mem_text key (bytes "api.get" ∷ bytes "api.post" ∷ bytes "api.put" ∷ bytes "api.delete" ∷ [])
    then to_upper (trim_prefix key (bytes "api."))
    else []

unfoldable pub unsupported_method : Text → Bool
unsupported_method key =
    mem_text key (bytes "api.patch" ∷ bytes "api.head" ∷ bytes "api.options" ∷ [])

unfoldable pub route_key : Text → Text → Text
route_key method path = method ++ (bytes " " ++ path)

module _ (parse : Parser) where
  resolve_include : (Text → Text → Bool) → Text → Text → List Text → Text → Bool
  resolve_include struct path prefix [] rest = false
  resolve_include struct path prefix (inc ∷ incs) rest =
      let others = resolve_include struct path prefix incs rest in
      if stem inc == prefix then struct (clean (join_path (dir path) inc)) rest else others

  resolve_typedef : (Text → Text → Bool) → Text → Text → List Typedef → Bool
  resolve_typedef struct path name [] = false
  resolve_typedef struct path name (t ∷ ts) =
      let others = resolve_typedef struct path name ts in
      elim t.type_name [
        | none ↦ others
        | some target ↦ if t.alias == name then struct path target else others
      ]

  -- `depth > 32` ends the recursion of isStruct: the fuel counts down from 33.
  unfoldable pub is_struct : ℕ → Dict Text → Text → Text → Bool
  unfolding resolve_include resolve_typedef
  is_struct zero files path name = false
  is_struct (suc fuel) files path name =
      let next = is_struct fuel files in
      elim (parse path (or_default (lookup path files) [])) [
        | none ↦ false
        | some ast ↦ elim (cut b'.' name) [
          | some (prefix, rest) ↦ resolve_include next path prefix ast.includes rest
          | none ↦ mem_text name ast.structs || resolve_typedef next path name ast.typedefs
        ]
      ]

  unfoldable pub struct_depth : ℕ
  struct_depth = 33

  -- The checks on a function that carries an HTTP annotation.
  unfoldable pub check_signature : Bundle → Function → Result IdlError (Unit {0})
  unfolding is_struct struct_depth
  check_signature b fn = do
    let struct = is_struct struct_depth b.files b.main_path
    refuse (not (eqb (length fn.arguments) 1) || not (any struct fn.arguments) || fn.oneway)
        one_struct_argument
    refuse (elim fn.function_type [ none ↦ true | some t ↦ not (struct t) ]) struct_response

  -- The checks on the path of an HTTP annotation.
  unfoldable pub annotation_path : List Text → Result IdlError Text
  annotation_path (p ∷ []) = do
    refuse (not (has_prefix p (bytes "/")) || contains_any p (bytes "?#")) invalid_path
    refuse (p == bytes "/healthz" || p == bytes "/readyz") reserved_route
    ok p
  annotation_path _ = err one_path

  -- The second loop over the annotations. It returns how many HTTP annotations the function has,
  -- and the keys and routes so far.
  unfoldable pub annotation_loop :
      Bundle
      → Service
      → Function
      → Bool
      → List Annotation
      → ℕ
      → List Text
      → List Route
      → Result IdlError (ℕ × List Text × List Route)
  unfolding check_signature annotation_path
  annotation_loop b svc fn login [] count seen routes = ok (count, seen, routes)
  annotation_loop b svc fn login (a ∷ rest) count seen routes =
      let method = api_method a.key in
      let skipped = annotation_loop b svc fn login rest count seen routes in
      let taken = λ (p : Text).
        annotation_loop b svc fn login rest (count + 1) (route_key method p ∷ seen) (
          routes
          ++ (record {
            require_login = login;
            idl_path = b.main_path;
            http_method = method;
            path = p;
            rpc_service = svc.name;
            rpc_method = fn.name;
          }
              ∷ [])) in
      if method == []
      then (if unsupported_method a.key then err method_unsupported else skipped)
      else (do
        check_signature b fn
        p ← annotation_path a.values
        refuse (mem_text (route_key method p) seen) duplicate_route
        taken p)

  unfoldable pub function_loop :
      Bundle → Service → List Function → List Text → List Route → Result IdlError (List Route)
  unfolding annotation_loop auth_loop
  function_loop b svc [] seen routes = ok routes
  function_loop b svc (fn ∷ fns) seen routes = do
    login ← auth_loop fn.annotations false false
    (count, seen', routes') ← annotation_loop b svc fn login fn.annotations 0 seen routes
    refuse (ltb 1 count) one_annotation
    function_loop b svc fns seen' routes'

  unfoldable pub extract_routes : Bundle → Result IdlError (List Route)
  unfolding function_loop
  extract_routes b = elim (parse b.main_path (or_default (lookup b.main_path b.files) [])) [
    | none ↦ err invalid_thrift
    | some ast ↦ elim ast.services [
      | svc ∷ [] ↦ (do
        refuse (not (svc.extends == [])) inheritance_unsupported
        function_loop b svc svc.functions [] [])
      | _ ↦ err one_service_required
    ]
  ]
