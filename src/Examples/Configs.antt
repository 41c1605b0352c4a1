-- ===== src/Examples/Configs.antt =====
-- Witnesses for internal/config.
use xuandu_gateway.Prelude.{◌≡◌, refl, true, false, none, some, [], bytes, ok, ◌==◌, contains}
use xuandu_gateway.Config.{Config, Host, load}
use xuandu_gateway.Config.Usable.{IsUsable, HasToken, load-IsUsable}
use xuandu_gateway.Examples.World.{platform}

abbrev config : Config
config = record {
  mcp = record { enabled = true; address = bytes "0.0.0.0:8081" };
  server = record {
    address = bytes "a:1";
    read_timeout = 1;
    write_timeout = 1;
    idle_timeout = 1;
    max_request_body_bytes = 1;
  };
  consul = record {
    address = bytes "c:8500";
    scheme = bytes "http";
    token_env = bytes "T";
    token_file = [];
    token = [];
    metadata_prefix = bytes "x";
  };
  admin = record { enabled = true; address = bytes "b:2" };
}

abbrev machine : Host
machine = record {
  splits = λ s. true;
  consul_env = none;
  read_file = λ path. none;
  document = λ path. some (config, true);
}

loads : load platform machine (bytes "f") ≡ ok config
unfolding load contains bytes ◌==◌
loads = refl

load-IsUsable_example :
    IsUsable machine config × ((config.consul.token_env == []) ≡ false) × HasToken config.consul
load-IsUsable_example = load-IsUsable platform machine (bytes "f") config loads
