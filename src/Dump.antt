-- ===== src/Dump.antt =====
-- cmd/dump/dump.go: the objects of a manifest for the platforms Kubernetes and Knative; the other
-- platforms are in Dump/Static.antt, Dump/Workloads.antt and Dump/Apps.antt. `fmt.Println` and
-- the warning about running components with external resources, which asks the docker client, are not
-- here. `encoding/json` is the parameter `Json`; `sigs.k8s.io/yaml` is that of the manifest.
pub mod Static
pub mod Workloads
pub mod Apps
pub mod Hidden
pub mod Again
pub mod Restored
use tmctl.Adapter.{sources_api}
use tmctl.Base.{
  String, Bool, true, false, Option, none, some, List, [], ◌∷◌, ◌++◌, map, Result, ok, err, panic,
  ◌>>=◌, wrap, ◌<>◌, ◌==◌, if◌then◌else◌, String_eq, Dict, lookup, to_lower,
}
use tmctl.Broker.Trigger.{broker_kind, trigger_kind, api_version}
use tmctl.Components.Found.{
  Found, source, target, transformation, broker, trigger, aimed, service, secret,
}
use tmctl.Crd.Objects.{Crd, get_object_crd}
use tmctl.Crd.Secrets.{Base64}
use tmctl.Crd.Schema.{Schema}
use tmctl.Disk.{Disk}
use tmctl.Kubernetes.{Object}
use tmctl.Kubernetes.Value.{Value, null, text, obj, Fields, end, field, get, put}
use tmctl.Load.{user_input_tag}
use tmctl.Manifest.{Yaml, header, clear_namespace}
use tmctl.Secrets.{Secret, Parent, get_children, process_secrets}
use tmctl.Secrets

abbrev pub knative_eventing : String
knative_eventing = "eventing.knative.dev/v1"

-- A key that is not there, or a map that is `nil`, gives `nil`.
abbrev or_null : Option Value → Value
or_null none = null
or_null (some v) = v

abbrev spec_of : Option Fields → Fields
spec_of none = end
spec_of (some fs) = fs

-- The new spec of a trigger.
unfoldable pub knative_trigger_spec : String → Fields → Fields
unfolding get put
knative_trigger_spec context spec =
    let base =
      field "broker" (text context) (field "subscriber" (or_null (get "target" spec)) end) in
    elim (get "filters" spec) [ none ↦ base | some f ↦ put "filters" f base ]

unfoldable pub broker_sink : String → Value
broker_sink context = obj (
    field "ref"
      (obj (
        field "name" (text context)
          (field "kind" (text "Broker") (field "apiVersion" (text knative_eventing) end))))
      end)

-- Writing to the spec of a source panics if it is `nil`.
abbrev pub with_sink : String → Object → Option Fields → Result Object
unfolding put broker_sink
with_sink context o none = panic
with_sink context o (some fs) = ok (record o { spec = some (put "sink" (broker_sink context) fs) })

unfoldable pub knative_eventing_transformation : String → Object → Result Object
unfolding knative_trigger_spec put broker_sink
knative_eventing_transformation context o =
    if o.api_version == api_version
    then if o.kind == broker_kind
      then ok (record o { api_version = knative_eventing; kind = "Broker" })
      else if o.kind == trigger_kind
      then ok (record o {
        api_version = knative_eventing;
        spec = some (knative_trigger_spec context (spec_of o.spec));
      })
      else ok o
    else if o.api_version == sources_api
    then with_sink context o o.spec
    else ok o

-- The secret with the tag for the user's input in place of each value.
unfoldable pub redacted : String → Secret → Secret
redacted context s = record {
  name = s.name;
  context = context;
  content = map (λ e. (e.0, user_input_tag)) s.content;
}

-- The object that is exported for a component. The methods of a component that is `nil` panic.
unfoldable pub shown : String → Bool → Option Found → Object → Result Object
unfolding redacted
shown context false c o = ok o
shown context true none o = panic
shown context true (some (secret s)) o = ok (Secrets.as_k8s_object (redacted context s))
shown context true (some c) o = ok o

-- The definition of a kind; a kind that has none has a definition without versions.
unfoldable pub definition : Dict Crd → String → Crd
unfolding lookup to_lower
definition crds kind = elim (lookup (to_lower kind) crds) [
  | none ↦ record { group = ""; kind = ""; versions = [] }
  | some c ↦ c
]

abbrev schema_of : Crd → Result Schema
unfolding get_object_crd
schema_of c = get_object_crd c >>= λ (s, version). ok s

-- What implements `Parent`. The kind of the component stands for that of its object, which is the
-- same in lower case where it has its suffix.
unfoldable pub parent_of : Dict Crd → Option Found → Option Parent
unfolding definition get_object_crd
parent_of crds (some (source s)) = some (record {
  name = s.name;
  broker = s.broker;
  schema = schema_of (definition crds s.kind);
  spec = spec_of s.spec;
})
parent_of crds (some (target t)) = some (record {
  name = t.name;
  broker = t.broker;
  schema = schema_of (definition crds t.kind);
  spec = spec_of t.spec;
})
parent_of crds c = none

module _ (b : Base64) where
  -- The secrets that `ProcessSecrets` takes out of the component's spec go out of the object's, which
  -- is the same map.
  abbrev pub spec_left : Parent → Option Fields → Option Fields
  spec_left p none = none
  spec_left p (some fs) = elim (get_children b p) [
    | ok (secrets, gs) ↦ some gs
    | err e ↦ some fs
    | panic ↦ some fs
  ]

  unfoldable pub with_secrets_processed : List Object → Option Parent → Object → Result Object
  unfolding process_secrets get_children
  with_secrets_processed objects none o = ok o
  with_secrets_processed objects (some p) o =
      wrap "processing secrets" (process_secrets b p objects) >>= λ _.
      ok (record o { spec = spec_left p o.spec })

-- The platforms that give objects, and the names that are no platform's.
pub data Platform : Type 0 where
  knative : Platform
  kubernetes : Platform
  unsupported : String → Platform

unfoldable pub platform_object : Platform → String → Object → Result Object
unfolding knative_eventing_transformation ◌<>◌
platform_object knative context o = knative_eventing_transformation context (clear_namespace o)
platform_object kubernetes context o = ok (clear_namespace o)
platform_object (unsupported name) context o = err ("platform \"" <> name <> "\" is not supported")

-- `context`, `platform` and `no_secrets` are the fields `Config.Context`, `Platform` and `NoSecrets`.
-- `look_up` is `GetObject` at the manifest, where a stack overflow is a panic.
module _ (b : Base64) (crds : Dict Crd) (context : String) (platform : Platform) (no_secrets : Bool)
    (look_up : String → Result (Option Found)) (objects : List Object) where
  -- The object that a round of the loop exports.
  unfoldable pub exported : Option Found → Object → Result Object
  unfolding shown with_secrets_processed parent_of platform_object
  exported c o = shown context no_secrets c o >>= λ p.
      with_secrets_processed b objects (parent_of crds c) p >>= λ q.
      platform_object platform context q

  -- The loop over the objects; one whose component is not found for an error is skipped.
  unfoldable pub dump_objects : List Object → List Object → Result (List Object)
  unfolding exported
  dump_objects [] output = ok output
  dump_objects (o ∷ os) output = elim (look_up o.metadata.name) [
    | ok c ↦ exported c o >>= λ p. dump_objects os (output ++ p ∷ [])
    | err e ↦ dump_objects os output
    | panic ↦ panic
  ]

-- `json.MarshalIndent`; the texts of `nil` in both formats.
pub record Json (d : Disk) : Type 0 where
  pub marshal : Object → Result d.Bytes
  pub marshal_nil : Result d.Bytes
  pub yaml_nil : Result d.Bytes

module _ (d : Disk) (y : Yaml d) (j : Json d) where
  -- The loops of `format`.
  unfoldable pub format_json : d.Bytes → List Object → Result d.Bytes
  format_json result [] = ok result
  format_json result (o ∷ os) = wrap "object encoding error" (j.marshal o) >>= λ item.
      format_json (d.append result (d.append item (d.of_string "\n"))) os

  unfoldable pub format_yaml : d.Bytes → List Object → Result d.Bytes
  format_yaml result [] = ok result
  format_yaml result (o ∷ os) = wrap "object encoding error" (y.marshal o) >>= λ item.
      format_yaml (d.append result (d.append (header d y) item)) os

  -- A list that has got no object is `nil`.
  unfoldable pub format : String → List Object → Result d.Bytes
  unfolding format_json format_yaml ◌<>◌
  format name [] =
      if name == "json"
      then j.marshal_nil
      else if name == "yaml"
      then j.yaml_nil
      else err ("format \"" <> name <> "\" is not supported")
  format name (o ∷ os) =
      if name == "json"
      then format_json d.nothing (o ∷ os)
      else if name == "yaml"
      then format_yaml d.nothing (o ∷ os)
      else err ("format \"" <> name <> "\" is not supported")

  -- The command up to the printing of what it gives.
  unfoldable pub dump :
      Base64
      → Dict Crd
      → String
      → Platform
      → Bool
      → String
      → (String → Result (Option Found))
      → List Object
      → Result d.Bytes
  unfolding dump_objects format
  dump b crds context platform no_secrets name look_up objects =
      dump_objects b crds context platform no_secrets look_up objects objects [] >>= λ output.
      wrap "output format error" (format name output)
