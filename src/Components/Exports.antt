-- ===== src/Components/Exports.antt =====
-- The container of a target and of a transformation, and their exports to Docker Compose, Digital
-- Ocean and Kubernetes: pkg/triggermesh/components/target/target.go and
-- transformation/transformation.go, with CreateDeployment of pkg/kubernetes/object.go.
pub mod Agreement
pub mod Sources
pub mod Brokers
use tmctl.Adapter.{Library, EnvVar}
use tmctl.Adapter.Env
use tmctl.Adapter.Runtime.{
  Params, image, resolved, plain, env_to_string, runtime_params, event_attributes,
}
use tmctl.Base.{
  String, Option, none, some, List, [], ◌∷◌, ◌++◌, map, Result, ok, err, panic, wrap, ◌>>=◌, ◌<>◌,
  Dict, split, trim_right,
}
use tmctl.Components.{Target}
use tmctl.Components.Objects.{target_meta}
use tmctl.Crd.Objects.{Crd, create_unstructured}
use tmctl.Crd.Process.{Parsers}
use tmctl.Crd.Schema.{Schema}
use tmctl.Kubernetes.{Object}
use tmctl.Kubernetes.Value.{Value, Fields}
use tmctl.Service.{Container, ComposeService}
use tmctl.Service.Images.{ImageSource, AppService, last_part}
use tmctl.Transformation.{Transformation}
use tmctl.Transformation

-- `appsv1.Deployment`, with the fields that vary.
pub record Deployment : Type 0 where
  pub name : String
  pub image : String
  pub envs : List EnvVar

abbrev pub as_pair : EnvVar → String × String
as_pair v = (v.name, v.value)

-- The repository is the last part of the image without its version and the colon.
unfoldable pub digital_ocean_image : Object → String → ImageSource
unfolding split trim_right last_part image
digital_ocean_image o version = record {
  registry = "triggermesh";
  repository = trim_right b':' (last_part (split b'/' (image o "")));
  tag = version;
}

-- `resource` is what `asUnstructured` gives for the component.
module _ (lib : Library) where
  -- The loops over the adapter's variables and over the secrets that are left.
  unfoldable pub exported_env : Object → Option (Dict String) → Result (List EnvVar)
  exported_env o extra = wrap "adapter environment" (Env.build lib o) >>= λ vs.
      let (env, left) = resolved vs extra in ok (env ++ map plain left)

  unfoldable pub compose_object :
      String → String → String → Result Object → Option (Dict String) → Result ComposeService
  unfolding exported_env env_to_string image ◌<>◌
  compose_object open_port name version resource extra = wrap "creating object" resource >>= λ o.
      exported_env o extra >>= λ envs. ok (record {
        container = name;
        image = image o version;
        ports = (open_port <> ":8080") ∷ [];
        environment = map env_to_string envs;
      })

  unfoldable pub digital_ocean_object :
      String → String → Result Object → Option (Dict String) → Result AppService
  unfolding exported_env digital_ocean_image
  digital_ocean_object name version resource extra = wrap "creating object" resource >>= λ o.
      exported_env o extra >>= λ envs.
      ok (record { name = name; image = digital_ocean_image o version; envs = map as_pair envs })

  unfoldable pub kubernetes_deployment :
      String → String → Result Object → Option (Dict String) → Result Deployment
  unfolding exported_env image
  kubernetes_deployment name version resource extra = wrap "creating object" resource >>= λ o.
      exported_env o extra >>= λ envs.
      ok (record { name = name; image = image o version; envs = envs })

  unfoldable pub component_container :
      String → String → Result Object → Option (Dict String) → Result Container
  unfolding runtime_params image
  component_container name version resource extra = wrap "creating object" resource >>= λ o.
      wrap "creating adapter params" (runtime_params lib o (image o version) extra) >>= λ params.
      ok (record { name = name; image = image o version; params = params })

-- `asUnstructured` of a target and of a transformation.
module _ (y : Parsers) (validate : Schema → Option Fields → Result (Unit {0}))
    (deep_copy : Value → Result Value) where
  unfoldable pub target_unstructured : Crd → Target → Result Object
  unfolding target_meta create_unstructured
  target_unstructured c t = create_unstructured y validate deep_copy c (target_meta t) t.spec

  unfoldable pub transformation_unstructured : Crd → Transformation → Result Object
  unfolding create_unstructured
  transformation_unstructured c t =
      create_unstructured y validate deep_copy c (Transformation.get_meta t) t.spec

  -- The methods of both. The secrets that an export takes out of the map that it is given are not seen.
  module _ (lib : Library) (c : Crd) (extra : Option (Dict String)) where
    unfoldable pub target_compose : String → Target → Result ComposeService
    unfolding compose_object target_unstructured
    target_compose open_port t =
        compose_object lib open_port t.name t.version (target_unstructured c t) extra

    unfoldable pub target_digital_ocean : Target → Result AppService
    unfolding digital_ocean_object target_unstructured
    target_digital_ocean t =
        digital_ocean_object lib t.name t.version (target_unstructured c t) extra

    unfoldable pub target_deployment : Target → Result Deployment
    unfolding kubernetes_deployment target_unstructured
    target_deployment t = kubernetes_deployment lib t.name t.version (target_unstructured c t) extra

    unfoldable pub target_container : Target → Result Container
    unfolding component_container target_unstructured
    target_container t = component_container lib t.name t.version (target_unstructured c t) extra

    unfoldable pub transformation_compose : String → Transformation → Result ComposeService
    unfolding compose_object transformation_unstructured
    transformation_compose open_port t =
        compose_object lib open_port t.name t.version (transformation_unstructured c t) extra

    unfoldable pub transformation_digital_ocean : Transformation → Result AppService
    unfolding digital_ocean_object transformation_unstructured
    transformation_digital_ocean t =
        digital_ocean_object lib t.name t.version (transformation_unstructured c t) extra

    unfoldable pub transformation_deployment : Transformation → Result Deployment
    unfolding kubernetes_deployment transformation_unstructured
    transformation_deployment t =
        kubernetes_deployment lib t.name t.version (transformation_unstructured c t) extra

    unfoldable pub transformation_container : Transformation → Result Container
    unfolding component_container transformation_unstructured
    transformation_container t =
        component_container lib t.name t.version (transformation_unstructured c t) extra
