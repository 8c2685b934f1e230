-- ===== src/Service.antt =====
-- pkg/triggermesh/components/service/service.go: a user's service, its objects and its exports; and the
-- branch of `GetObject` (pkg/triggermesh/components/components.go) that reads one.
pub mod Reading
pub mod Images
use tmctl.Adapter.{Library}
use tmctl.Adapter.Runtime.{Params, runtime_params, env_to_string, plain}
use tmctl.Base.{
  String, Bool, true, false, Option, none, some, List, [], ◌∷◌, map, Result, ok, err, panic, ◌>>=◌,
  wrap, ◌<>◌, ◌==◌, if◌then◌else◌, String_eq, Dict, insert, lookup, split, to_upper,
}
use tmctl.Kubernetes.{Object}
use tmctl.Kubernetes.Value.{Value, null, text, arr, obj, Items, nil, cons, Fields, end, field, get}

-- `Consumer` and `Producer` are the texts "target" and "source".
abbrev pub service_api : String
service_api = "serving.knative.dev/v1"

abbrev pub service_kind : String
service_kind = "Service"

abbrev pub role_label : String
role_label = "triggermesh.io/role"

pub record Service : Type 0 where
  pub name : String
  pub broker : String
  pub image : String
  pub role : String
  pub params : Dict String

unfoldable pub new : String → String → String → String → Dict String → Service
unfolding ◌<>◌
new name image broker role params = record {
  name = if name == "" then broker <> "-" <> role <> "-service" else name;
  broker = broker;
  image = image;
  role = role;
  params = params;
}

unfoldable pub is_source : Service → Bool
is_source s = s.role == "source"

unfoldable pub is_target : Service → Bool
is_target s = s.role == "target"

unfoldable pub params_to_env : Dict String → Items
unfolding to_upper
params_to_env [] = nil
params_to_env ((k, v) ∷ rest) =
    cons (obj (field "name" (text (to_upper k)) (field "value" (text v) end))) (params_to_env rest)

unfoldable pub kservice_spec : String → Dict String → Fields
unfolding params_to_env
kservice_spec image params =
    let container = obj (
      field "image" (text image)
        (field "name" (text "user-container") (field "env" (arr (params_to_env params)) end))) in
    field "template"
      (obj (field "spec" (obj (field "containers" (arr (cons container nil)) end)) end)) end

-- The parameters in the manifest, with the sink of a source.
unfoldable pub manifest_params : Service → Dict String
unfolding is_source insert ◌<>◌
manifest_params s =
    if is_source s
    then insert "K_SINK" ("http://" <> s.broker <> "-rb-broker:8080") s.params
    else s.params

unfoldable pub as_k8s_object : Service → Object
unfolding manifest_params kservice_spec
as_k8s_object s = record {
  api_version = service_api;
  kind = service_kind;
  metadata = record {
    name = s.name;
    namespace = "local";
    labels = some (("triggermesh.io/context", s.broker) ∷ (role_label, s.role) ∷ []);
    annotations = none;
  };
  spec = some (kservice_spec s.image (manifest_params s));
  content = none;
  type = "";
}

unfoldable pub as_unstructured : Service → Object
unfolding kservice_spec
as_unstructured s = record {
  api_version = service_api;
  kind = service_kind;
  metadata = record { name = s.name; namespace = "local"; labels = none; annotations = none };
  spec = some (kservice_spec s.image s.params);
  content = none;
  type = "";
}

-- The loop of `asContainer` and of `SetSpec`: the entries are written over the parameters.
unfoldable pub add_params : Dict String → Dict String → Dict String
unfolding insert
add_params [] params = params
add_params ((k, v) ∷ rest) params = add_params rest (insert k v params)

pub record Container : Type 0 where
  pub name : String
  pub image : String
  pub params : Params

-- The container, and the service with the parameters that this adds to it.
unfoldable pub as_container : Library → Dict String → Service → Result Container × Service
unfolding as_unstructured add_params runtime_params
as_container lib extra s =
    let s' = record s { params = add_params extra s.params } in
    (
      wrap "creating adapter params"
            (runtime_params lib (as_unstructured s) s.image (some s'.params))
          >>= λ params. ok (record { name = s.name; image = s.image; params = params }),
      s',
    )

unfoldable pub get_event_types : Service → List String
unfolding lookup split
get_event_types s = elim (lookup "CE_TYPE" s.params) [ none ↦ [] | some et ↦ split b',' et ]

unfoldable pub get_event_source : Service → String
unfolding lookup
get_event_source s = elim (lookup "CE_SOURCE" s.params) [ none ↦ "" | some es ↦ es ]

-- `docker.ComposeService`
pub record ComposeService : Type 0 where
  pub container : String
  pub image : String
  pub ports : List String
  pub environment : List String

-- `open_port` is what `strconv.Itoa(pkg.OpenPort())` gives.
unfoldable pub as_docker_compose_object : String → Dict String → Service → ComposeService
unfolding env_to_string ◌<>◌
as_docker_compose_object open_port extra s = record {
  container = s.name;
  image = s.image;
  ports = (open_port <> ":8080") ∷ [];
  environment = map (λ kv. env_to_string (plain kv)) extra;
}
