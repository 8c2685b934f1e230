-- ===== src/Crd/Objects.antt =====
-- `CreateObject` and `getObjectCRD` of pkg/kubernetes/object.go: an object of the manifest from a
-- definition, its metadata and a spec. The validation of k8s.io/kube-openapi is a parameter, and what
-- `GetSchema` makes of a version's schema by way of JSON stands in the version.
use tmctl.Base.{
  String, Bool, Option, none, some, List, [], ◌∷◌, Result, ok, err, ◌>>=◌, wrap, ◌<>◌,
  if◌then◌else◌,
}
use tmctl.Crd.Process.{Parsers, process}
use tmctl.Crd.Schema.{Schema}
use tmctl.Kubernetes.{Object, Metadata}
use tmctl.Kubernetes.Value.{Value, text, texts, arr, Items, nil, cons, Fields, end, field}

pub record Version : Type 0 where
  pub name : String
  pub served : Bool
  pub schema : Result Schema

pub record Crd : Type 0 where
  pub group : String
  pub kind : String
  pub versions : List Version

abbrev named : String → Schema → Result (Schema × String)
named version s = ok (s, version)

-- The first version that is served.
unfoldable pub served_schema : List Version → Result (Schema × String)
served_schema [] = err "CRD schema not found"
served_schema (v ∷ vs) =
    if v.served then wrap "CRD schema" v.schema >>= named v.name else served_schema vs

unfoldable pub get_object_crd : Crd → Result (Schema × String)
unfolding served_schema
get_object_crd c = served_schema c.versions

abbrev text_items : List String → Items
text_items [] = nil
text_items (s ∷ ss) = cons (text s) (text_items ss)

module _ (y : Parsers) (validate : Schema → Option Fields → Result (Unit {0})) where
  -- A map that is `nil` is returned as it is.
  unfoldable pub process_spec : Schema → Option Fields → Result (Option Fields)
  process_spec s none = ok none
  process_spec s (some fs) = process y s fs >>= λ gs. ok (some gs)

  abbrev created : Crd → Metadata → Option Fields → Schema × String → Result Object
  unfolding process_spec ◌<>◌
  created c m spec (s, version) = wrap "spec processing" (process_spec s spec) >>= λ processed.
      wrap "CR validation" (validate s processed) >>= λ _. ok (record {
        api_version = c.group <> "/" <> version;
        kind = c.kind;
        metadata = m;
        spec = processed;
        content = none;
        type = "";
      })

  unfoldable pub create_object : Crd → Metadata → Option Fields → Result Object
  unfolding get_object_crd process_spec ◌<>◌
  create_object c m spec = wrap "object schema" (get_object_crd c) >>= created c m spec

  -- `CreateUnstructured` without a status. `deep_copy` is the copy that the package unstructured makes of
  -- a value, which panics on types that JSON does not have; a list of texts is set as an array.
  unfoldable pub set_nested : (Value → Result Value) → Fields → Result Fields
  set_nested deep_copy end = ok end
  set_nested deep_copy (field k (texts ss) fs) =
      set_nested deep_copy fs >>= λ gs. ok (field k (arr (text_items ss)) gs)
  set_nested deep_copy (field k v fs) =
      deep_copy v >>= λ w. set_nested deep_copy fs >>= λ gs. ok (field k w gs)

  abbrev set_spec : (Value → Result Value) → Option Fields → Result (Option Fields)
  set_spec deep_copy none = ok none
  set_spec deep_copy (some end) = ok none
  set_spec deep_copy (some (field k v fs)) =
      set_nested deep_copy (field k v fs) >>= λ gs. ok (some gs)

  abbrev with_spec : (Value → Result Value) → Object → Result Object
  with_spec deep_copy o = set_spec deep_copy o.spec >>= λ fs. ok (record o { spec = fs })

  unfoldable pub create_unstructured :
      (Value → Result Value) → Crd → Metadata → Option Fields → Result Object
  unfolding create_object set_nested
  create_unstructured deep_copy c m spec = create_object c m spec >>= with_spec deep_copy
