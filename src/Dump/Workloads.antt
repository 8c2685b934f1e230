-- ===== src/Dump/Workloads.antt =====
-- The platforms of cmd/dump/dump.go that run the components as containers: what is exported for a
-- component, and the loop over the objects of the manifest. The size of an instance, which is put into
-- all objects for Digital Ocean, is not here. `set_status` is the call of `SetNestedMap` that puts a
-- source's status into its object, and `open_port` gives, for the name of a component, what its call of
-- `strconv.Itoa(pkg.OpenPort())` gives.
pub mod Names
use tmctl.Adapter.{Library}
use tmctl.Base.{
  String, Bool, true, false, ◌&&◌, Option, none, some, List, [], ◌∷◌, ◌++◌, Result, ok, err, panic,
  wrap, ◌>>=◌, ◌<>◌, ◌==◌, if◌then◌else◌, String_eq, Dict, insert,
}
use tmctl.Broker.Config.{Configuration}
use tmctl.Broker.Trigger.{broker_kind}
use tmctl.Components.{Source, Target}
use tmctl.Components.Exports.{
  Deployment, target_compose, target_deployment, transformation_compose, transformation_deployment,
}
use tmctl.Components.Exports.Brokers.{
  BrokerService, broker_compose, BrokerDeployment, broker_deployment, service_deployment,
}
use tmctl.Components.Exports.Sources.{source_compose, source_deployment}
use tmctl.Components.External
use tmctl.Components.Found.{
  Found, source, target, transformation, broker, trigger, aimed, service, secret,
}
use tmctl.Crd.Objects.{Crd, create_unstructured}
use tmctl.Crd.Process.{Parsers}
use tmctl.Crd.Schema.{Schema}
use tmctl.Crd.Secrets.{Base64}
use tmctl.Dump.{parent_of, spec_left, redacted, definition}
use tmctl.Dump.Static.{found_kind, found_name, static_broker_config}
use tmctl.Kubernetes.{Object}
use tmctl.Kubernetes.Value.{Value, Fields}
use tmctl.Secrets.{Parent, process_secrets}
use tmctl.Service.{ComposeService, as_docker_compose_object}

-- `asUnstructured` of a source.
unfoldable pub source_unstructured :
    Parsers
    → (Schema → Option Fields → Result (Unit {0}))
    → (Value → Result Value)
    → (Dict String → Object → Result Object)
    → Crd
    → Source
    → Result Object
unfolding External.get_meta create_unstructured
source_unstructured y validate deep_copy set_status c s =
    create_unstructured y validate deep_copy c (External.get_meta s) s.spec >>= λ o.
    wrap "object status" (set_status s.status o)

-- What the methods of the components give for Docker Compose and for Kubernetes.
pub data ComposeObject : Type 0 where
  container : ComposeService → ComposeObject
  broker_container : BrokerService → ComposeObject

pub data Workload : Type 0 where
  workload : Deployment → Workload
  broker_workload : BrokerDeployment → Workload

abbrev pub mapped : {A B : Type 0} → (A → B) → Result A → Result B
mapped f r = r >>= λ a. ok (f a)

-- The component after `ProcessSecrets`, which takes the secrets out of its spec.
abbrev pub without_secrets : Base64 → Parent → Found → Found
without_secrets b p (source s) = source (record s { spec = spec_left b p s.spec })
without_secrets b p (target t) = target (record t { spec = spec_left b p t.spec })
without_secrets b p c = c

module _ (y : Parsers) (validate : Schema → Option Fields → Result (Unit {0}))
    (deep_copy : Value → Result Value) (set_status : Dict String → Object → Result Object)
    (lib : Library) (crds : Dict Crd) (open_port : String → String) where
  -- `AsDockerComposeObject`; a component that is not exportable gives nothing.
  unfoldable pub compose_export : Found → Dict String → Option (Result ComposeObject)
  unfolding source_unstructured source_compose target_compose transformation_compose broker_compose
      as_docker_compose_object definition
  compose_export (source s) env = some (
      mapped container (
        source_compose lib s.name s.version s.broker
          (source_unstructured y validate deep_copy set_status (definition crds s.kind) s)
          (some env)))
  compose_export (target t) env = some (
      mapped container (
        target_compose y validate deep_copy lib (definition crds t.kind) (some env)
          (open_port t.name) t))
  compose_export (transformation t) env = some (
      mapped container (
        transformation_compose y validate deep_copy lib (definition crds "transformation")
          (some env) (open_port t.name) t))
  compose_export (broker b) env =
      some (ok (broker_container (broker_compose (open_port b.name) env b)))
  compose_export (service s) env =
      some (ok (container (as_docker_compose_object (open_port s.name) env s)))
  compose_export (trigger t) env = none
  compose_export (aimed t c) env = none
  compose_export (secret s) env = none

  -- `AsKubernetesDeployment`
  unfoldable pub deployment_export : Found → Dict String → Option (Result Workload)
  unfolding source_unstructured source_deployment target_deployment transformation_deployment
      broker_deployment service_deployment definition
  deployment_export (source s) env = some (
      mapped workload (
        source_deployment lib s.name s.version s.broker
          (source_unstructured y validate deep_copy set_status (definition crds s.kind) s)
          (some env)))
  deployment_export (target t) env = some (
      mapped workload
        (target_deployment y validate deep_copy lib (definition crds t.kind) (some env) t))
  deployment_export (transformation t) env = some (
      mapped workload (
        transformation_deployment y validate deep_copy lib (definition crds "transformation")
          (some env) t))
  deployment_export (broker b) env = some (ok (broker_workload (broker_deployment env b)))
  deployment_export (service s) env = some (ok (workload (service_deployment env s)))
  deployment_export (trigger t) env = none
  deployment_export (aimed t c) env = none
  deployment_export (secret s) env = none

abbrev pub services_of {ℓ} : {V : Type ℓ} → Option (Dict V) → Dict V
services_of none = []
services_of (some m) = m

abbrev pub added_to :
    {A O : Type 0} → (Object → String → A → O → O) → Object → Option (String × A) → O → O
added_to add o none output = output
added_to add o (some (n, a)) output = add o n a output

-- The services by the names of the components; without any, the output is `nil`.
unfoldable pub add_service : {A : Type 0} → Object → String → A → Option (Dict A) → Option (Dict A)
unfolding insert
add_service o n a output = some (insert n a (services_of output))

-- Each deployment with the service of `CreateService`, of which only the name varies.
abbrev pub add_deployment :
    Object → String → Workload → List (Workload × String) → List (Workload × String)
add_deployment o n w output = output ++ (w, o.metadata.name) ∷ []

module _ (b : Base64) (crds : Dict Crd) (platform : String) (no_secrets : Bool)
    (to_json : Configuration → Result String) (look_up : String → Result (Option Found))
    (objects : List Object) where
  unfoldable pub variables_of : Found → Option Parent → Result (Found × Dict String)
  unfolding process_secrets
  variables_of c none = ok (c, [])
  variables_of c (some p) =
      wrap "processing secrets" (process_secrets b p objects) >>= λ (secrets, env).
      ok (without_secrets b p c, env)

  -- The component after its secrets are taken out, and the variables that they give.
  unfoldable pub with_variables : Found → Result (Found × Dict String)
  unfolding parent_of variables_of
  with_variables c = variables_of c (parent_of crds (some c))

  -- A broker gets its configuration as a variable.
  unfoldable pub configured : Found × Dict String → Result (Found × Dict String)
  unfolding found_kind static_broker_config insert
  configured (c, env) =
      if found_kind c == broker_kind
      then (wrap "broker static config" (static_broker_config to_json platform look_up objects)
          >>= λ config. ok (c, insert "BROKER_CONFIG" config env))
      else ok (c, env)

  -- The name of a component, and what its method gives if it has one.
  unfoldable pub by_name : {A : Type 0} → Found → Option (Result A) → Result (Option (String × A))
  unfolding found_name ◌<>◌
  by_name c none = ok none
  by_name c (some r) =
      wrap ("unable to export component \"" <> found_name c <> "\" to \"" <> platform <> "\"") r
      >>= λ a. ok (some (found_name c, a))

  -- A round of the loop. The methods of a component that is `nil` panic; a secret is not exportable,
  -- with its values or without.
  unfoldable pub exported_workload :
      {A : Type 0}
      → (Found → Dict String → Option (Result A))
      → Option Found
      → Result (Option (String × A))
  unfolding with_variables configured by_name
  exported_workload export none = if no_secrets then panic else ok none
  exported_workload export (some c) =
      with_variables c >>= configured >>= λ (c', env). by_name c' (export c' env)

  -- The loop, where `add` puts an object into the output.
  unfoldable pub dump_workloads :
      {A O : Type 0}
      → (Found → Dict String → Option (Result A))
      → (Object → String → A → O → O)
      → List Object
      → O
      → Result O
  unfolding exported_workload
  dump_workloads export add [] output = ok output
  dump_workloads export add (o ∷ os) output = elim (look_up o.metadata.name) [
    | ok c ↦
        exported_workload export c >>= λ r. dump_workloads export add os (added_to add o r output)
    | err e ↦ dump_workloads export add os output
    | panic ↦ panic
  ]
