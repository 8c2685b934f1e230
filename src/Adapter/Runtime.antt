-- ===== src/Adapter/Runtime.antt =====
-- pkg/triggermesh/adapter/adapter.go: the image, the environment and the event attributes that the
-- components use.
pub mod Secrets
use tmctl.Base.{
  String, Bool, true, false, ◌||◌, ◌&&◌, not, Option, none, some, List, [], ◌∷◌, ◌++◌, map, Result,
  ok, err, panic, ◌>>=◌, wrap, ◌<>◌, ◌==◌, if◌then◌else◌, String_eq, Dict, lookup, delete, to_lower,
}
use tmctl.Adapter.{Library, EnvVar, one_of}
use tmctl.Adapter.Ce.{Attributes}
use tmctl.Adapter.Ce
use tmctl.Adapter.Env
use tmctl.Kubernetes.{Object}
use tmctl.Kubernetes.Value.{Value, Fields, get, obj, text}

abbrev registry : String
registry = "gcr.io/triggermesh"

abbrev pub adapter_port : String
adapter_port = "8080/tcp"

-- The part of the image's name that stands for the kind.
unfoldable adapter_name : String → String
unfolding to_lower
adapter_name kind =
    if one_of ("AWSS3Source" ∷ "AWSEventBridgeSource" ∷ []) kind
    then "awssqssource"
    else if one_of ("AzureServiceBusTopicSource" ∷ "AzureServiceBusQueueSource" ∷ []) kind
    then "azureservicebussource"
    else if kind == "AzureBlobStorageSource"
    then "azureeventhubssource"
    else if one_of
        ("GoogleCloudAuditLogsSource" ∷ "GoogleCloudStorageSource"
          ∷ "GoogleCloudSourceRepositoriesSource" ∷ [])
        kind
    then "googlecloudpubsubsource"
    else to_lower kind

unfoldable pub image : Object → String → String
unfolding ◌<>◌ adapter_name
image o version = registry <> "/" <> adapter_name o.kind <> "-adapter:" <> version

-- The loop over the adapter's variables, which takes the secrets out of `extra`, where that is not
-- `nil`: the variables that are appended, and the secrets that are left.
unfoldable pub resolve : List EnvVar → Dict String → List EnvVar × Dict String
resolve [] extra = ([], extra)
resolve (v ∷ vs) extra = elim (v.secret_key) [
  | none ↦ let (env, left) = resolve vs extra in (v ∷ env, left)
  | some key ↦ elim (lookup key extra) [
    | none ↦ resolve vs extra
    | some secret ↦
        let (env, left) = resolve vs (delete key extra) in
        (record { name = v.name; value = secret; secret_key = none } ∷ env, left)
  ]
]

-- The same where `additionalEnvs` is `nil`, which keeps the references.
abbrev pub resolved : List EnvVar → Option (Dict String) → List EnvVar × Dict String
resolved vs none = (vs, [])
resolved vs (some extra) = resolve vs extra

abbrev pub plain : String × String → EnvVar
plain (k, v) = record { name = k; value = v; secret_key = none }

-- `unstructured.NestedString(object, "spec", "sink", "uri")`
unfoldable pub sink_uri : Option Fields → Result (Option String)
unfolding get
sink_uri none = ok none
sink_uri (some spec) = elim (get "sink" spec) [
  | none ↦ ok none
  | some (obj sink) ↦ elim (get "uri" sink) [
    | none ↦ ok none
    | some (text uri) ↦ ok (some uri)
    | some v ↦ err "accessor error: value of the type string expected"
  ]
  | some v ↦ err "accessor error: value of the type map[string]interface{} expected"
]

abbrev pub sink_env : Option String → List EnvVar
sink_env none = []
sink_env (some uri) = plain ("K_SINK", uri) ∷ []

unfoldable pub env_to_string : EnvVar → String
unfolding ◌<>◌
env_to_string v = v.name <> "=" <> v.value

-- The options for the container and the host: the image and the environment, and the port.
pub record Params : Type 0 where
  pub image_name : String
  pub env : List String
  pub port : String
  pub host_port : String

abbrev wildcard : String → Bool
wildcard t = t == "*" || t == "-"

abbrev normal_types : List String → List String
normal_types [] = []
normal_types (t ∷ []) = if wildcard t then [] else t ∷ []
normal_types (t ∷ u ∷ ts) = t ∷ u ∷ ts

abbrev normal : Attributes → Attributes
normal a = record {
  produced_source = if wildcard a.produced_source then "" else a.produced_source;
  produced_types = normal_types a.produced_types;
  accepted_types = normal_types a.accepted_types;
}

module _ (lib : Library) where
  -- A broker and a service have no adapter.
  abbrev pub adapter_env : Object → Result (List EnvVar)
  adapter_env o =
      if not (o.kind == "RedisBroker") && not (o.kind == "Service")
      then wrap "adapter environment" (Env.build lib o)
      else ok []

  unfoldable pub runtime_params : Object → String → Option (Dict String) → Result Params
  unfolding resolve sink_uri env_to_string
  runtime_params o image_name extra = do
    vs ← adapter_env o
    let (env, left) = resolved vs extra
    uri ← wrap "sink URI type" (sink_uri o.spec)
    ok (record {
      image_name = image_name;
      env = map env_to_string (env ++ map plain left ++ sink_env uri);
      port = adapter_port;
      host_port = adapter_port;
    })

  unfoldable pub event_attributes : Object → Result Attributes
  event_attributes o = Ce.attributes lib o >>= λ a. ok (normal a)
