-- ===== src/Completion/Types.antt =====
-- `ListFilteredEventTypes` of pkg/completion/completion.go, by the broker's configuration file.
use tmctl.Base.{
  String, false, Option, none, some, List, [], ◌∷◌, ◌++◌, All, append-nil, append_assoc, map, ok,
  >>=-ok, ◌==◌, if◌then◌else◌, String_eq, Dict, lookup, ◌≡◌, refl, sym, ap, ◌∙◌, Bool-cases, inl,
  inr,
}
use tmctl.Broker.Config.{LocalTriggerSpec, Tools, config_file, read_broker_config, entries}
use tmctl.Broker.Config.Entries.{stored}
use tmctl.Broker.Trigger.{trigger_kind, new_trigger, lookup_target}
use tmctl.Broker.Trigger.Lookup.{bare, new_trigger-bare}
use tmctl.Completion.{exact_type, types_in, types_of, list_filtered_event_types}
use tmctl.Disk.{Disk}
use tmctl.Kubernetes.{Object}
use tmctl.Kubernetes.Value.{Filter}

-- The value that a filter asks the attribute `type` to have exactly.
abbrev pub wanted_type : Filter → Option String
unfolding lookup
wanted_type f = elim (f.exact) [ none ↦ none | some attributes ↦ lookup "type" attributes ]

-- The values that are there, in their order.
abbrev pub somes : List (Option String) → List String
somes [] = []
somes (none ∷ rest) = somes rest
somes (some t ∷ rest) = t ∷ somes rest

abbrev pub types_at : Option LocalTriggerSpec → List String
unfolding wanted_type
types_at none = []
types_at (some spec) = somes (map wanted_type spec.filters)

types_in-cons :
    (m : Dict String) (type : Option String) (f : Filter) (fs : List Filter)
    → f.exact ≡ some m
    → lookup "type" m ≡ type
    → types_in fs ≡ somes (map wanted_type fs)
    → types_in (f ∷ fs) ≡ somes (map wanted_type (f ∷ fs))
unfolding types_in exact_type wanted_type
types_in-cons m none f fs e l ih = rw e (rw (l, exact_type) ih)
types_in-cons m (some t) f fs e l ih = rw e (rw (l, exact_type) (ap (t ∷◌) ih))

-- The types that are gathered are those that the filters ask for.
types_in-somes : (fs : List Filter) → types_in fs ≡ somes (map wanted_type fs)
unfolding types_in exact_type wanted_type
types_in-somes [] = refl
types_in-somes (f ∷ fs) = by_exact f.exact refl (types_in-somes fs)
  where
    by_exact :
        (r : Option (Dict String))
        → f.exact ≡ r
        → types_in fs ≡ somes (map wanted_type fs)
        → types_in (f ∷ fs) ≡ somes (map wanted_type (f ∷ fs))
    by_exact none e ih = rw e ih
    by_exact (some m) e ih = types_in-cons m (lookup "type" m) f fs e refl ih

-- The types of the entries under the names of the triggers.
abbrev pub types_by_name : Dict LocalTriggerSpec → List Object → List String
types_by_name m [] = []
types_by_name m (o ∷ os) =
    let rest = types_by_name m os in
    if o.kind == trigger_kind then types_at (lookup o.metadata.name m) ++ rest else rest

-- All triggers have names.
abbrev pub NamedTriggers : List Object → Type 0
NamedTriggers = All (λ (o : Object). (o.metadata.name == "") ≡ false)

module _ (d : Disk) (x : Tools d) (s : d.State) (broker base : String) where
  types_at-found :
      (n : String) (m : Dict LocalTriggerSpec) (r : Option LocalTriggerSpec)
      → lookup n m ≡ r
      → stored d x s (config_file base broker) ≡ ok m
      → types_in (lookup_target d x s (bare n broker base)).filters ≡ types_at r
  unfolding lookup_target types_in
  types_at-found n m none k h =
      let (c, q, e) = >>=-ok (read_broker_config d x s (config_file base broker)) _ h in
      let same : entries c.triggers ≡ m = cc q in rw (e, lookup_target) (rw same (rw k refl))
  types_at-found n m (some spec) k h =
      let (c, q, e) = >>=-ok (read_broker_config d x s (config_file base broker)) _ h in
      let same : entries c.triggers ≡ m = cc q in
      rw (e, lookup_target) (rw same (rw k (types_in-somes spec.filters)))

  step :
      (o : Object) (m : Dict LocalTriggerSpec) (types : List String)
      → stored d x s (config_file base broker) ≡ ok m
      → (o.metadata.name == "") ≡ false
      → types_of d x s broker base (new_trigger d x o.metadata.name broker base none none) types
        ≡ ok (types ++ types_at (lookup o.metadata.name m))
  unfolding types_of
  step o m types h n =
      ap (λ r. types_of d x s broker base r types)
        (new_trigger-bare d x o.metadata.name broker base n)
      ∙ ap (λ ts. ok (types ++ ts))
          (types_at-found o.metadata.name m (lookup o.metadata.name m) refl h)

  types_from :
      (objects : List Object) (m : Dict LocalTriggerSpec) (types : List String)
      → stored d x s (config_file base broker) ≡ ok m
      → NamedTriggers objects
      → list_filtered_event_types d x s broker base objects types
        ≡ ok (types ++ types_by_name m objects)
  unfolding list_filtered_event_types
  types_from [] m types h a = ap ok (sym (append-nil types))
  types_from (o ∷ os) m types h (n, a) = elim (Bool-cases (o.kind == trigger_kind)) [
    | inl k ↦
        rw (k, list_filtered_event_types)
          (rw (step o m types h n) (
            types_from os m (types ++ types_at (lookup o.metadata.name m)) h a
            ∙ ap ok
                (append_assoc types (types_at (lookup o.metadata.name m)) (types_by_name m os))))
    | inr k ↦ rw (k, list_filtered_event_types) (types_from os m types h a)
  ]

  -- Where the configuration file of the broker can be read and the objects have names, the types that
  -- are listed are the exact values of the attribute `type` in the filters of the file's entries under
  -- the names of the manifest's triggers, in the order of the manifest and of the filters.
  pub list_filtered_event_types_lem :
      (objects : List Object) (m : Dict LocalTriggerSpec)
      → stored d x s (config_file base broker) ≡ ok m
      → NamedTriggers objects
      → list_filtered_event_types d x s broker base objects [] ≡ ok (types_by_name m objects)
  list_filtered_event_types_lem objects m = types_from objects m []
