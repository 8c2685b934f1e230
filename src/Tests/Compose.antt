-- ===== src/Tests/Compose.antt =====
-- The dump of a broker, a service and a secret for Docker Compose.
use tmctl.Base.{
  String, false, Option, none, some, List, [], ◌∷◌, any, Result, ok, ◌<>◌, ◌==◌, String_eq,
  if◌then◌else◌, Dict, insert, ◌≡◌, refl,
}
use tmctl.Components.Found.{Found, broker, secret}
use tmctl.Dump.Static.{static_broker_config, static_triggers, static_round, found_kind, found_name}
use tmctl.Dump.Workloads.{
  ComposeObject, broker_container, compose_export, with_variables, variables_of, configured,
  by_name, exported_workload, dump_workloads, add_service,
}
use tmctl.Dump.Workloads.Names.{has_service, exports, has_service-dump_workloads}
use tmctl.Kubernetes.{Object}
use tmctl.Components.Exports.Brokers.{broker_compose}
use tmctl.Adapter.Runtime.{env_to_string}
use tmctl.Tests.Adapters.{library}
use tmctl.Tests.Imports.{marking}
use tmctl.Tests.Parts.{parsers}
use tmctl.Tests.Samples.{named_object}

abbrev found : String → Result (Option Found)
found name =
    if name == "foo"
    then ok (some (broker (record { name = "foo"; image = "gcr.io/x/y:1"; entrypoint = [] })))
    else ok (some (secret (record { name = name; context = "foo"; content = [] })))

abbrev objects : List Object
objects = named_object "foo" "RedisBroker" ∷ named_object "foo-secret" "Secret" ∷ []

abbrev composed : Option (Dict ComposeObject)
composed = some (
    (
      "foo",
      broker_container (record {
        service = record {
          container = "foo";
          image = "gcr.io/x/y:1";
          ports = "3000:8080" ∷ [];
          environment = "BROKER_CONFIG={}" ∷ [];
        };
        entrypoint = [];
      }),
    )
    ∷ [])

composes :
    dump_workloads marking [] "docker-compose" false
      (λ c. ok "{}")
      found
      objects
      (compose_export parsers
        (λ s fs. ok tt)
        (λ v. ok v)
        (λ status o. ok o)
        library
        []
        (λ n. "3000"))
      add_service
      objects
      none
    ≡ ok composed
unfolding dump_workloads exported_workload compose_export with_variables variables_of configured
    by_name found_kind found_name static_broker_config static_triggers static_round broker_compose
    insert add_service env_to_string ◌<>◌
composes = refl

has_service-dump_workloads_example :
    has_service "foo" composed ≡ any (λ o. exports "foo" (found o.metadata.name)) objects
has_service-dump_workloads_example =
    has_service-dump_workloads parsers (λ s fs. ok tt) (λ v. ok v) (λ status o. ok o) library []
      (λ n. "3000") marking "docker-compose" false (λ c. ok "{}") found objects "foo" composed
      composes
