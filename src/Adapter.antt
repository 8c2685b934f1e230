-- ===== src/Adapter.antt =====
-- pkg/triggermesh/adapter: what the adapter of a component is run with, and the events it handles.
-- The packages of triggermesh.io/triggermesh are the parameter `Library`. In a message a kind stands
-- in plain quotes.
pub mod Ce
pub mod Env
pub mod Kinds
pub mod Runtime
use tmctl.Base.{String, Bool, any, List, Option, Result, err, ◌<>◌, ◌==◌, String_eq}
use tmctl.Kubernetes.{Object}

-- `corev1.EnvVar`: `secret_key` is the key of `ValueFrom.SecretKeyRef`, or `none` where `ValueFrom`
-- is `nil`. The reconcilers set no other reference.
pub record EnvVar : Type 0 where
  pub name : String
  pub value : String
  pub secret_key : Option String

-- `from_unstructured kind` converts to the Go type of the kind. `app_env` and `try_app_env` are the
-- functions `MakeAppEnv` of the kinds' reconcilers, without an error and with one.
pub record Library : Type 1 where
  pub Typed : Type 0
  pub from_unstructured : String → Object → Result Typed
  pub event_types : Typed → List String
  pub event_source : Typed → String
  pub accepted_event_types : Typed → List String
  pub app_env : String → Typed → List EnvVar
  pub try_app_env : String → Typed → Result (List EnvVar)

abbrev pub one_of : List String → String → Bool
one_of kinds kind = any (λ k. k == kind) kinds

abbrev pub sources_api : String
sources_api = "sources.triggermesh.io/v1alpha1"

abbrev pub targets_api : String
targets_api = "targets.triggermesh.io/v1alpha1"

abbrev pub flow_api : String
flow_api = "flow.triggermesh.io/v1alpha1"

abbrev pub extensions_api : String
extensions_api = "extensions.triggermesh.io/v1alpha1"

abbrev pub routing_api : String
routing_api = "routing.triggermesh.io/v1alpha1"

unfoldable pub multitenant {ℓ} : {A : Type ℓ} → String → Result A
unfolding ◌<>◌
multitenant kind =
    err ("kind \"" <> kind <> "\" is multitenant and not suitable for local environment")

unfoldable pub unsupported {ℓ} : {A : Type ℓ} → String → Result A
unfolding ◌<>◌
unsupported kind = err ("kind \"" <> kind <> "\" is not supported")

unfoldable pub unsupported_group {ℓ} : {A : Type ℓ} → String → Result A
unfolding ◌<>◌
unsupported_group kind = err ("API group \"" <> kind <> "\" is not supported")
