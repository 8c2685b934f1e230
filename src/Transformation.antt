-- ===== src/Transformation.antt =====
-- pkg/triggermesh/components/transformation/transformation.go: the attributes of the events that a
-- transformation produces, which are kept in the operations of its spec.
pub mod Attributes
use tmctl.Base.{
  String, Bool, true, false, Option, none, some, List, [], ◌∷◌, Result, ok, err, panic, ◌>>=◌, ◌<>◌,
  ◌==◌, if◌then◌else◌, String_eq, Dict, insert,
}
use tmctl.Kubernetes.{Metadata}
use tmctl.Kubernetes.Value.{
  Value, null, text, arr, obj, Items, nil, cons, Fields, end, field, get, put,
}

-- The CRD is left out: only the objects and the containers of the transformation depend on it. A spec
-- that is `nil` is `none`.
pub record Transformation : Type 0 where
  pub name : String
  pub broker : String
  pub version : String
  pub spec : Option Fields
  pub labels : Dict String

unfoldable pub new : String → String → String → Option Fields → Transformation
unfolding ◌<>◌
new name broker version spec = record {
  name = if name == "" then broker <> "-transformation" else name;
  broker = broker;
  version = version;
  spec = spec;
  labels = ("triggermesh.io/context", broker) ∷ [];
}

unfoldable pub get_meta : Transformation → Metadata
get_meta t = record {
  name = t.name;
  namespace = "local";
  labels = some t.labels;
  annotations = none;
}

unfoldable pub set_label : String → String → Transformation → Transformation
unfolding insert
set_label key value t = record t { labels = insert key value t.labels }

unfoldable pub set_spec : Option Fields → Transformation → Transformation
set_spec spec t = record t { spec = spec }

-- `v == text`, for a value of a map that may not be there.
abbrev is_text : String → Option Value → Bool
is_text t (some (text s)) = s == t
is_text t v = false

-- What one path gives for the key: `none` where the loop goes on.
unfoldable pub path_value : String → Value → Option (Result String)
unfolding get
path_value key (obj pm) =
    if is_text key (get "key" pm)
    then elim (get "value" pm) [
      | none ↦ none
      | some null ↦ none
      | some (text s) ↦ some (ok s)
      | some v ↦ some panic
    ]
    else none
path_value key v = none

abbrev pub or_next : Option (Result String) → Option (Result String) → Option (Result String)
or_next none rest = rest
or_next (some r) rest = some r

unfoldable pub paths_value : String → Items → Option (Result String)
unfolding path_value
paths_value key nil = none
paths_value key (cons p ps) = or_next (path_value key p) (paths_value key ps)

abbrev operation_paths : String → Option Value → Option (Result String)
unfolding paths_value
operation_paths key (some (arr ps)) = paths_value key ps
operation_paths key v = none

unfoldable pub operation_value : String → Value → Option (Result String)
unfolding paths_value get
operation_value key (obj spec) =
    if is_text "add" (get "operation" spec) then operation_paths key (get "paths" spec) else none
operation_value key v = none

unfoldable pub operations_value : String → Items → Option (Result String)
unfolding operation_value
operations_value key nil = none
operations_value key (cons o os) = or_next (operation_value key o) (operations_value key os)

-- The first value that an operation adds, in a list of at most one.
abbrev pub found : Option (Result String) → Result (List String)
found none = ok []
found (some r) = r >>= λ s. ok (s ∷ [])

abbrev pub context_of : Option Fields → Option Value
unfolding get
context_of none = none
context_of (some spec) = get "context" spec

abbrev pub value_in : String → Option Value → Result (List String)
unfolding operations_value
value_in key none = ok []
value_in key (some (arr os)) = found (operations_value key os)
value_in key (some v) = panic

unfoldable pub get_context_transformation_value : String → Transformation → Result (List String)
get_context_transformation_value key t = value_in key (context_of t.spec)

unfoldable pub get_event_types : Transformation → Result (List String)
unfolding get_context_transformation_value ◌<>◌
get_event_types t = get_context_transformation_value "type" t >>= λ et. elim et [
  | [] ↦ err ("\"" <> t.name <> "\" does not expose event type attributes")
  | e ∷ es ↦ ok (e ∷ es)
]

unfoldable pub get_event_source : Transformation → Result String
unfolding get_context_transformation_value ◌<>◌
get_event_source t = get_context_transformation_value "source" t >>= λ src. elim src [
  | [] ↦ err ("\"" <> t.name <> "\" does not expose event source attribute")
  | s ∷ ss ↦ ok s
]

unfoldable pub attribute_paths : Dict String → Items
attribute_paths [] = nil
attribute_paths ((key, value) ∷ rest) =
    cons (obj (field "key" (text key) (field "value" (text value) end))) (attribute_paths rest)

unfoldable pub add_operation : Dict String → Value
unfolding attribute_paths
add_operation attributes =
    obj (field "operation" (text "add") (field "paths" (arr (attribute_paths attributes)) end))

-- `append(list, item)`
unfoldable pub append_item : Items → Value → Items
append_item nil v = cons v nil
append_item (cons x xs) v = cons x (append_item xs v)

abbrev pub with_operation : Option Value → Value → Result Items
unfolding append_item
with_operation none o = ok (cons o nil)
with_operation (some (arr os)) o = ok (append_item os o)
with_operation (some v) o = panic

-- A spec that is `nil` cannot be written to.
unfoldable pub set_event_attributes : Dict String → Transformation → Result Transformation
unfolding add_operation put get
set_event_attributes attributes t = elim (t.spec) [
  | none ↦ panic
  | some spec ↦ with_operation (get "context" spec) (add_operation attributes) >>= λ os.
      ok (record t { spec = some (put "context" (arr os) spec) })
]
