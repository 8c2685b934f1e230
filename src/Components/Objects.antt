-- ===== src/Components/Objects.antt =====
-- `AsK8sObject` of sources, targets and transformations: pkg/triggermesh/components/source/source.go,
-- target/target.go and transformation/transformation.go. The definition of the kind is an argument.
use tmctl.Base.{String, Option, none, some, [], ◌∷◌, Result, ok, err, panic}
use tmctl.Broker.Trigger.{broker_kind, api_version}
use tmctl.Components.{Source, Target}
use tmctl.Components.External
use tmctl.Crd.Objects.{Crd, create_object}
use tmctl.Crd.Process.{Parsers}
use tmctl.Crd.Schema.{Schema}
use tmctl.Kubernetes.{Object, Metadata}
use tmctl.Kubernetes.Value.{Value, text, obj, Fields, end, field, put}
use tmctl.Transformation.{Transformation}
use tmctl.Transformation

unfoldable pub target_meta : Target → Metadata
target_meta t = record {
  name = t.name;
  namespace = "local";
  labels = some (("triggermesh.io/context", t.broker) ∷ []);
  annotations = none;
}

-- The reference to the broker that a source sends to.
unfoldable pub sink_of : Source → Value
sink_of s = obj (
    field "ref"
      (obj (
        field "name" (text s.broker)
          (field "kind" (text broker_kind) (field "apiVersion" (text api_version) end))))
      end)

abbrev copied : Option Fields → Fields
copied none = end
copied (some fs) = fs

-- `GetAPIVersion`, from what `AsK8sObject` gives.
unfoldable pub api_version_of : Result Object → String
api_version_of (ok o) = o.api_version
api_version_of (err e) = ""
api_version_of panic = ""

module _ (y : Parsers) (validate : Schema → Option Fields → Result (Unit {0})) where
  unfoldable pub source_object : Crd → Source → Result Object
  unfolding sink_of put
  source_object c s =
      create_object y validate c (External.get_meta s)
        (some (put "sink" (sink_of s) (copied s.spec)))

  unfoldable pub target_object : Crd → Target → Result Object
  unfolding target_meta
  target_object c t = create_object y validate c (target_meta t) t.spec

  unfoldable pub transformation_object : Crd → Transformation → Result Object
  transformation_object c t = create_object y validate c (Transformation.get_meta t) t.spec
