-- ===== src/Examples/World.antt =====
-- A small world: concrete functions for the parameters of the model, and the data of the witnesses.
use xuandu_gateway.Prelude.{ℕ, zero, suc, true, false, none, some, [], ◌∷◌, Text, bytes}
use xuandu_gateway.Platform.{Platform, Url, ZipEntry}
use xuandu_gateway.Idl.Ast.{Route}
use xuandu_gateway.Metadata.Model.{App}
use xuandu_gateway.Router.{KitexRouter, Table}
use xuandu_gateway.Runtime.Heap.{Info, Heap}
use xuandu_gateway.Runtime.Manager.{Snapshot, Manager}
use xuandu_gateway.Failures.{CommonErrors}

abbrev pub repeat : ℕ → ℕ → Text
repeat zero c = []
repeat (suc n) c = c ∷ repeat n c

-- A digest that is the same for all texts.
abbrev pub digest : Text
digest = repeat 64 b'a'

abbrev pub path_url : Text → Url
path_url s = record {
  scheme = [];
  host = [];
  path = s;
  raw_path = [];
  escaped_path = s;
  raw_query = [];
  fragment = [];
  opaque_part = [];
  has_user = false;
  force_query = false;
}

abbrev pub thrift_entry : ZipEntry
thrift_entry = record {
  name = bytes "idl/a.thrift";
  special = false;
  is_dir = false;
  is_regular = true;
  size = 2;
  content = some (some (bytes "ok"));
}

abbrev pub platform : Platform
platform = record {
  parse_ip = λ s. none;
  parse_duration = λ s. some 1;
  parse_url = λ s. some (path_url s);
  sha256_hex = λ s. digest;
  read_zip = λ s. some (thrift_entry ∷ []);
}

-- A router that finds the first pattern.
abbrev pub first_router : KitexRouter
first_router = record { panics = λ ps p. false; find = λ ps method path. some 0 }

abbrev pub host : Text
host = bytes "a.b"

abbrev pub app_name : Text
app_name = bytes "app"

abbrev pub route : Route
route = record {
  require_login = false;
  idl_path = bytes "idl/a.thrift";
  http_method = bytes "GET";
  path = bytes "/x";
  rpc_service = bytes "S";
  rpc_method = bytes "M";
}

abbrev pub app : App
app = record {
  catalog_index = 0;
  name = app_name;
  domain = host;
  service_name = bytes "s";
  enabled = true;
  rpc_timeout = bytes "1s";
  idl = record { kind = bytes "zip"; url = []; resolved_revision = digest };
  modify_index = 1;
}

abbrev pub info : Info
info = record {
  app_name = app_name;
  service_name = bytes "s";
  revision = digest;
  routes = route ∷ [];
  timeout = 1;
  config = app;
}

-- Every address holds a runtime that has not been used.
abbrev pub heap : Heap
heap a = record { info = info; refs = 0; retired = false; closed = false }

abbrev pub table : Table
table = record { targets = record { app_name = app_name; route = route } ∷ [] }

abbrev pub snapshot : Snapshot
snapshot = record {
  version = 1;
  routes = (app_name, table) ∷ [];
  domains = (host, app_name ∷ []) ∷ [];
  runtimes = (app_name, 7) ∷ [];
}

abbrev pub manager : Manager
manager = record { current = snapshot; heap = heap; closed = false; active = 0; drained = 0 }

abbrev pub common_errors : CommonErrors
common_errors = record { code = λ e. 1; message = λ e. bytes "error" }
