-- ===== src/Tests/Adapters.antt =====
-- The tables of the adapters, with a library that converts every object.
use tmctl.Base.{
  false, ◌||◌, none, some, List, [], ◌∷◌, Dict, ok, ◌≡◌, refl, if◌then◌else◌, ◌==◌, String_eq,
  String,
}
use tmctl.Adapter.{Library, EnvVar}
use tmctl.Adapter.Ce
use tmctl.Adapter.Ce.{Attributes}
use tmctl.Adapter.Env
use tmctl.Adapter.Kinds.{is_ok, attributes-build_target}
use tmctl.Adapter.Runtime.{image, adapter_port, event_attributes}
use tmctl.Kubernetes.{Object}
use tmctl.Service.{Container}
use tmctl.Tests.Samples.{named_object}

abbrev pub library : Library
library = record {
  Typed = Object;
  from_unstructured = λ kind o. ok o;
  event_types = λ o. "*" ∷ [];
  event_source = λ o. o.metadata.name;
  accepted_event_types = λ o. [];
  app_env = λ kind o. [];
  try_app_env = λ kind o. ok [];
}

abbrev object_of : String → String → Object
object_of api kind = record (named_object "sample" kind) { api_version = api }

abbrev poller : Object
poller = object_of "sources.triggermesh.io/v1alpha1" "HTTPPollerSource"

abbrev confluent : Object
confluent = object_of "targets.triggermesh.io/v1alpha1" "ConfluentTarget"

attributes-build_target_example :
    (is_ok (Ce.attributes library confluent) ≡ (
      if "GoogleCloudPubSubTarget" == confluent.kind
      then false
      else "ConfluentTarget" == confluent.kind || is_ok (Env.build library confluent)))
    × (is_ok (Env.build library confluent) ≡ (
        if "ConfluentTarget" == confluent.kind
        then false
        else "GoogleCloudPubSubTarget" == confluent.kind
          || is_ok (Ce.attributes library confluent)))
attributes-build_target_example = attributes-build_target library confluent confluent refl refl

abbrev poller_attributes : Attributes
poller_attributes = record { produced_source = "sample"; produced_types = []; accepted_types = [] }

poller_attributes_ok : event_attributes library poller ≡ ok poller_attributes
unfolding event_attributes Ce.attributes Ce.sources
poller_attributes_ok = refl

abbrev variables : List EnvVar
variables =
    record { name = "TOKEN"; value = ""; secret_key = some "token" }
    ∷ record { name = "URL"; value = "http://example.com"; secret_key = none }
    ∷ []

abbrev secrets : Dict String
secrets = ("token", "abc") ∷ ("password", "def") ∷ []

abbrev container : Container
container = record {
  name = "t";
  image = image poller "v1";
  params = record {
    image_name = image poller "v1";
    env = "A=1" ∷ [];
    port = adapter_port;
    host_port = adapter_port;
  };
}
