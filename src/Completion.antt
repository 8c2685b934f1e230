-- ===== src/Completion.antt =====
-- pkg/completion/completion.go: the lists that the shell's completion suggests. `ListEventTypes`, which
-- asks the components for their types, is not here.
pub mod Types
use tmctl.Adapter.{sources_api, targets_api, flow_api}
use tmctl.Base.{
  String, Bool, true, false, ◌||◌, ◌&&◌, not, Option, none, some, List, [], ◌∷◌, ◌++◌, map, keep,
  Result, ok, err, panic, ◌==◌, if◌then◌else◌, String_eq, Dict, lookup,
}
use tmctl.Broker.Config.{Tools, Trigger}
use tmctl.Broker.Trigger.{trigger_kind, new_trigger, lookup_target}
use tmctl.Crd.Completion.{Property, get_attributes_completion}
use tmctl.Crd.Objects.{Crd, Version}
use tmctl.Crd.Schema.{Schema}
use tmctl.Disk.{Disk}
use tmctl.Kubernetes.{Object}
use tmctl.Kubernetes.Value.{Filter}
use tmctl.Service.{service_api, role_label}

abbrev name_of : Object → String
name_of o = o.metadata.name

-- The object has the label of the role.
abbrev has_role : String → Option (Dict String) → Bool
unfolding lookup
has_role role none = false
has_role role (some labels) = elim (lookup role_label labels) [ none ↦ false | some r ↦ r == role ]

-- The tests of the two lists; the API versions of both tests differ.
unfoldable pub is_listed : String → String → Object → Bool
unfolding has_role
is_listed api role o =
    o.api_version == api
    || o.api_version == flow_api
    || (o.api_version == service_api && has_role role o.metadata.labels)

unfoldable pub list_sources : List Object → List String
unfolding is_listed
list_sources objects = map name_of (keep (is_listed sources_api "source") objects)

unfoldable pub list_targets : List Object → List String
unfolding is_listed
list_targets objects = map name_of (keep (is_listed targets_api "target") objects)

unfoldable pub list_objects_by_api : String → List Object → List String
list_objects_by_api api objects = map name_of (keep (λ o. o.api_version == api) objects)

unfoldable pub list_objects_by_kind : String → List Object → List String
list_objects_by_kind kind objects = map name_of (keep (λ o. o.kind == kind) objects)

unfoldable pub list_all : List Object → List String
list_all objects = map name_of objects

-- `filter.Exact["type"]`
unfoldable pub exact_type : Filter → List String
unfolding lookup
exact_type f = elim (f.exact) [
  | none ↦ []
  | some m ↦ elim (lookup "type" m) [ none ↦ [] | some type ↦ type ∷ [] ]
]

unfoldable pub types_in : List Filter → List String
unfolding exact_type
types_in [] = []
types_in (f ∷ fs) = exact_type f ++ types_in fs

module _ (d : Disk) (x : Tools d) (s : d.State) (broker base : String) where
  abbrev pub types_of : Result Trigger → List String → Result (List String)
  unfolding types_in lookup_target
  types_of (ok t) types = ok (types ++ types_in (lookup_target d x s t).filters)
  types_of (err e) types = ok types
  types_of panic types = panic

  unfoldable pub list_filtered_event_types : List Object → List String → Result (List String)
  unfolding types_of new_trigger
  list_filtered_event_types [] types = ok types
  list_filtered_event_types (o ∷ os) types =
      if not (o.kind == trigger_kind)
      then list_filtered_event_types os types
      else elim (types_of (new_trigger d x o.metadata.name broker base none none) types) [
        | ok more ↦ list_filtered_event_types os more
        | err e ↦ err e
        | panic ↦ panic
      ]

-- The schema of the first version that is served; without any it stays `nil`.
unfoldable pub completion_schema : List Version → Option (Result Schema)
completion_schema [] = none
completion_schema (v ∷ vs) =
    let rest = completion_schema vs in if v.served then some v.schema else rest

-- `SpecFromCRD`; `without_lines` is `strings.ReplaceAll(s, "\n", " ")`.
unfoldable pub spec_from_crd : (String → String) → Crd → List String → Result (Bool × Dict Property)
unfolding completion_schema get_attributes_completion
spec_from_crd without_lines c path = elim (completion_schema c.versions) [
  | none ↦ panic
  | some r ↦ elim r [
    | ok s ↦ ok (get_attributes_completion without_lines s path)
    | err e ↦ ok (false, [])
    | panic ↦ panic
  ]
]
