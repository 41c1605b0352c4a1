-- ===== src/Idl/Ast.antt =====
-- What internal/idl reads of the syntax tree that thriftgo's parser returns, and the route that it
-- makes of it. The parser itself is a parameter.
use xuandu_gateway.Prelude.{Bool, Option, List, Text, Dict}

pub record Annotation : Type 0 where
  pub key : Text
  pub values : List Text

-- parser.Function: the type names of the arguments, and of the result where there is one.
pub record Function : Type 0 where
  pub name : Text
  pub annotations : List Annotation
  pub arguments : List Text
  pub function_type : Option Text
  pub oneway : Bool

pub record Service : Type 0 where
  pub name : Text
  pub extends : Text
  pub functions : List Function

pub record Typedef : Type 0 where
  pub alias : Text
  pub type_name : Option Text

pub record Thrift : Type 0 where
  -- The paths of the include lines.
  pub includes : List Text
  pub services : List Service
  -- The names of the structs.
  pub structs : List Text
  pub typedefs : List Typedef

-- parser.ParseString on a file's name and content.
abbrev pub Parser : Type 0
Parser = Text → Text → Option Thrift

pub record Bundle : Type 0 where
  pub main_path : Text
  pub files : Dict Text

pub record Route : Type 0 where
  pub require_login : Bool
  pub idl_path : Text
  pub http_method : Text
  pub path : Text
  pub rpc_service : Text
  pub rpc_method : Text

-- The errors of routes.go and loader.go, one for each message.
pub data IdlError : Type 0 where
  invalid_thrift one_service_required inheritance_unsupported auth_annotation : IdlError
  method_unsupported one_struct_argument struct_response one_path invalid_path : IdlError
  reserved_route duplicate_route one_annotation : IdlError
  cyclic_include missing_include include_escapes no_routes : IdlError
  -- The model's fuel ran out; the code has no such error.
  out_of_fuel : IdlError
