-- ===== src/Dump/Apps.antt =====
-- The dump of cmd/dump/dump.go for Digital Ocean: an application with services and workers. Its name and
-- region, and the size of an instance that is put into all of its parts, are not here.
use tmctl.Adapter.{Library, sources_api}
use tmctl.Base.{
  String, Option, none, some, List, [], ◌∷◌, ◌++◌, Result, ok, ◌==◌, if◌then◌else◌, String_eq, Dict,
}
use tmctl.Broker.Trigger.{api_version}
use tmctl.Components.Exports.{target_digital_ocean, transformation_digital_ocean}
use tmctl.Components.Exports.Brokers.{BrokerApp, broker_digital_ocean}
use tmctl.Components.Exports.Sources.{source_digital_ocean}
use tmctl.Components.Found.{
  Found, source, target, transformation, broker, trigger, aimed, service, secret,
}
use tmctl.Components.Objects.{source_object, target_object, transformation_object, api_version_of}
use tmctl.Crd.Objects.{Crd}
use tmctl.Crd.Process.{Parsers}
use tmctl.Crd.Schema.{Schema}
use tmctl.Dump.{definition}
use tmctl.Dump.Workloads.{source_unstructured, mapped}
use tmctl.Kubernetes.{Object}
use tmctl.Kubernetes.Value.{Value, Fields}
use tmctl.Service.{service_api}
use tmctl.Service.Images.{AppService, as_digital_ocean_object}

-- What `AsDigitalOceanObject` gives: `godo.AppWorkerSpec` for a source, `godo.AppServiceSpec` else.
pub data AppObject : Type 0 where
  worker_spec : AppService → AppObject
  service_spec : AppService → AppObject
  broker_spec : BrokerApp → AppObject

-- The lists `services` and `workers` of the output.
pub record Apps : Type 0 where
  pub services : List AppObject
  pub workers : List AppObject

module _ (y : Parsers) (validate : Schema → Option Fields → Result (Unit {0}))
    (crds : Dict Crd) where
  -- `GetAPIVersion`
  unfoldable pub found_api_version : Found → String
  unfolding api_version_of source_object target_object transformation_object definition
  found_api_version (source s) =
      api_version_of (source_object y validate (definition crds s.kind) s)
  found_api_version (target t) =
      api_version_of (target_object y validate (definition crds t.kind) t)
  found_api_version (transformation t) =
      api_version_of (transformation_object y validate (definition crds "transformation") t)
  found_api_version (broker b) = api_version
  found_api_version (trigger t) = api_version
  found_api_version (aimed t c) = api_version
  found_api_version (service s) = service_api
  found_api_version (secret s) = "v1"

  -- The object, with the API version of its component.
  abbrev with_version : Found → Result AppObject → Option (Result (String × AppObject))
  unfolding found_api_version
  with_version c r = some (mapped (λ a. (found_api_version c, a)) r)

  module _ (deep_copy : Value → Result Value) (set_status : Dict String → Object → Result Object)
      (lib : Library) where
    unfoldable pub digital_ocean_export : Found → Dict String → Option (Result (String × AppObject))
    unfolding with_version source_unstructured source_digital_ocean target_digital_ocean
        transformation_digital_ocean broker_digital_ocean as_digital_ocean_object definition
    digital_ocean_export (source s) env = with_version (source s) (
        mapped worker_spec (
          source_digital_ocean lib s.name s.version s.broker
            (source_unstructured y validate deep_copy set_status (definition crds s.kind) s)
            (some env)))
    digital_ocean_export (target t) env = with_version (target t) (
        mapped service_spec
          (target_digital_ocean y validate deep_copy lib (definition crds t.kind) (some env) t))
    digital_ocean_export (transformation t) env = with_version (transformation t) (
        mapped service_spec (
          transformation_digital_ocean y validate deep_copy lib (definition crds "transformation")
            (some env) t))
    digital_ocean_export (broker b) env =
        with_version (broker b) (mapped broker_spec (broker_digital_ocean env b))
    digital_ocean_export (service s) env =
        with_version (service s) (ok (service_spec (as_digital_ocean_object env s)))
    digital_ocean_export (trigger t) env = none
    digital_ocean_export (aimed t c) env = none
    digital_ocean_export (secret s) env = none

abbrev apps_of : Option Apps → Apps
apps_of none = record { services = []; workers = [] }
apps_of (some a) = a

-- How an object goes into the output, for `dump_workloads`.
unfoldable pub add_app : Object → String → String × AppObject → Option Apps → Option Apps
add_app o name (version, a) output =
    let apps = apps_of output in
    if version == sources_api
    then some (record apps { workers = apps.workers ++ a ∷ [] })
    else some (record apps { services = apps.services ++ a ∷ [] })
