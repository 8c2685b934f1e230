-- ===== src/Components/Exports/Brokers.antt =====
-- The exports of a broker, pkg/triggermesh/components/broker/broker.go, and the deployment of a service,
-- pkg/triggermesh/components/service/service.go. The order of the list of variables stands for the order
-- of the `range` over the map.
use tmctl.Adapter.Runtime.{plain, env_to_string}
use tmctl.Base.{String, List, [], ◌∷◌, map, Result, ok, panic, ◌>>=◌, ◌<>◌, Dict, split, join}
use tmctl.Broker.Container.{Broker}
use tmctl.Components.Exports.{Deployment}
use tmctl.Service.{Service, ComposeService}
use tmctl.Service.Images.{ImageSource, AppService}

pub record BrokerService : Type 0 where
  pub service : ComposeService
  pub entrypoint : List String

-- `open_port` is what `strconv.Itoa(pkg.OpenPort())` gives.
unfoldable pub broker_compose : String → Dict String → Broker → BrokerService
unfolding env_to_string ◌<>◌
broker_compose open_port extra b = record {
  service = record {
    container = b.name;
    image = b.image;
    ports = (open_port <> ":8080") ∷ [];
    environment = map (λ kv. env_to_string (plain kv)) extra;
  };
  entrypoint = b.entrypoint;
}

pub record BrokerApp : Type 0 where
  pub app : AppService
  pub run_command : String

-- The parts at `[0]` and `[1]`, where the second one can be missing.
abbrev repository_tag : List String → Result ImageSource
repository_tag (repository ∷ tag ∷ rest) =
    ok (record { registry = "triggermesh"; repository = repository; tag = tag })
repository_tag parts = panic

-- The part at `[2]`, which can be missing.
unfoldable pub broker_image_source : List String → Result ImageSource
unfolding split
broker_image_source (host ∷ owner ∷ name ∷ rest) = repository_tag (split b':' name)
broker_image_source parts = panic

unfoldable pub broker_digital_ocean : Dict String → Broker → Result BrokerApp
unfolding split join broker_image_source
broker_digital_ocean extra b = broker_image_source (split b'/' b.image) >>= λ image. ok (record {
  app = record { name = b.name; image = image; envs = extra };
  run_command = join " " b.entrypoint;
})

pub record BrokerDeployment : Type 0 where
  pub deployment : Deployment
  pub command : List String

unfoldable pub broker_deployment : Dict String → Broker → BrokerDeployment
broker_deployment extra b = record {
  deployment = record { name = b.name; image = b.image; envs = map plain extra };
  command = b.entrypoint;
}

unfoldable pub service_deployment : Dict String → Service → Deployment
service_deployment extra s = record { name = s.name; image = s.image; envs = map plain extra }
