-- ===== src/Broker/Trigger.antt =====
-- pkg/triggermesh/components/broker/trigger.go, and `GetTargetTriggers` of config.go.
pub mod Filters
pub mod Lookup
use tmctl.Base.{
  String, Bool, true, false, Option, none, some, List, [], ◌∷◌, Result, ok, err, panic, wrap, ◌>>=◌,
  ◌<>◌, Dict, lookup, length, ◌==◌, if◌then◌else◌, String_eq,
}
use tmctl.Broker.Config.{
  LocalTriggerSpec, Configuration, Tools, Trigger, config_file, entries, read_broker_config,
}
use tmctl.Component.{Component}
use tmctl.Disk.{Disk}
use tmctl.Kubernetes.{Object}
use tmctl.Kubernetes.Value.{Filter, KReference, Fields, end, field, reference, destination, filters}

abbrev pub broker_kind : String
broker_kind = "RedisBroker"

abbrev pub trigger_kind : String
trigger_kind = "Trigger"

abbrev pub api_version : String
api_version = "eventing.triggermesh.io/v1alpha1"

-- The spec of `AsK8sObject`: no filters, no key.
abbrev pub trigger_spec : Trigger → Fields
trigger_spec t =
    let base = field "target" (destination t.target) end in
    field "broker" (reference t.broker)
      (elim (t.filters) [ [] ↦ base | f ∷ fs ↦ field "filters" (filters (f ∷ fs)) base ])

unfoldable pub as_k8s_object : Trigger → Object
as_k8s_object t = record {
  api_version = api_version;
  kind = trigger_kind;
  metadata = record {
    name = t.name;
    namespace = "local";
    labels = some (("triggermesh.io/context", t.broker.name) ∷ []);
    annotations = none;
  };
  spec = some (trigger_spec t);
  content = none;
  type = "";
}

unfoldable pub get_spec : Trigger → Fields
get_spec t = field "filters" (filters t.filters) (field "target" (destination t.target) end)

-- A trigger as a component: it neither produces nor consumes events.
unfoldable pub as_component : Trigger → Component
unfolding as_k8s_object get_spec
as_component t = record {
  name = t.name;
  kind = trigger_kind;
  api_version = api_version;
  spec = some (get_spec t);
  as_k8s_object = ok (as_k8s_object t);
  producer = none;
  consumer = none;
}

abbrev pub target_reference : Component → KReference
target_reference c = record {
  kind = c.kind;
  name = c.name;
  api_version = c.api_version;
  group = "";
}

abbrev pub docker_host : String
docker_host = "http://host.docker.internal"

abbrev pub with_filter : Option Filter → Trigger → Trigger
with_filter none t = t
with_filter (some f) t = record t { filters = f ∷ [] }

module _ (d : Disk) (x : Tools d) where
  -- A target that is `nil` or that is no consumer makes the calls on it panic.
  unfoldable pub trigger_name : String → String → Option Component → Option Filter → Result String
  unfolding ◌<>◌
  trigger_name name broker target filter =
      if name == ""
      then elim target [
        | none ↦ panic
        | some c ↦ ok (broker <> "-trigger-" <> x.digest (c.name <> "-" <> x.filter_yaml filter))
      ]
      else ok name

  unfoldable pub target_url : Component → Result (Option String)
  target_url c = elim (c.consumer) [
    | none ↦ panic
    | some consumer ↦ wrap "target local port" consumer.port >>= λ port.
        wrap "target local URL" (x.parse_url (docker_host <> ":" <> port))
  ]

  unfoldable pub new_trigger :
      String → String → String → Option Component → Option Filter → Result Trigger
  unfolding trigger_name target_url
  new_trigger name broker base target filter = do
    name' ← trigger_name name broker target filter
    let fresh : Trigger = record {
      name = name';
      config_base = base;
      local_url = none;
      broker = record {
        kind = broker_kind;
        name = broker;
        api_version = "";
        group = "eventing.triggermesh.io";
      };
      filters = [];
      target = none;
    }
    elim target [
      | none ↦ ok (with_filter filter fresh)
      | some c ↦ target_url c >>= λ url. ok (
          with_filter filter (record fresh { local_url = url; target = some (target_reference c) }))
    ]

  -- Where the port is not known the URL stays; where it cannot be parsed the URL becomes `nil`.
  unfoldable pub set_target : Component → Trigger → Trigger
  set_target c t =
      let t' = record t { target = some (target_reference c) } in
      elim (c.consumer) [
        | none ↦ t'
        | some consumer ↦ elim (consumer.port) [
          | ok port ↦ elim (x.parse_url (docker_host <> ":" <> port)) [
            | ok url ↦ record t' { local_url = url }
            | _ ↦ record t' { local_url = none }
          ]
          | _ ↦ t'
        ]
      ]

  -- What an entry of the configuration says of a trigger.
  abbrev pub looked_up : LocalTriggerSpec → Trigger → Trigger
  looked_up spec t = record t {
    local_url = elim (x.parse_url spec.target.url) [ ok (some url) ↦ some url | _ ↦ t.local_url ];
    filters = spec.filters;
    target =
        some (record { kind = ""; name = spec.target.component; api_version = ""; group = "" });
  }

  unfoldable pub lookup_target : d.State → Trigger → Trigger
  lookup_target s t = elim (read_broker_config d x s (config_file t.config_base t.broker.name)) [
    | ok c ↦ elim (lookup t.name (entries c.triggers)) [ none ↦ t | some spec ↦ looked_up spec t ]
    | _ ↦ t
  ]

  -- The loop of `GetTargetTriggers` over the entries of the configuration.
  unfoldable pub select_triggers :
      d.State → String → String → String → Dict LocalTriggerSpec → Result (List Trigger)
  select_triggers s target broker base [] = ok []
  select_triggers s target broker base ((name, spec) ∷ m) =
      let rest = select_triggers s target broker base m in
      if spec.target.component == target
      then (do
        t ← wrap "creating trigger" (new_trigger name broker base none none)
        ts ← rest
        ok (lookup_target s t ∷ ts))
      else rest

  unfoldable pub get_target_triggers : d.State → String → String → String → Result (List Trigger)
  unfolding select_triggers
  get_target_triggers s target broker base = do
    c ← wrap "read broker config" (read_broker_config d x s (config_file base broker))
    select_triggers s target broker base (entries c.triggers)
