-- ===== src/Components/Found.antt =====
-- `GetObject` of pkg/triggermesh/components/components.go. The YAML round trip of a trigger's spec is
-- the parameter `read_trigger_spec`, which gives the filters and the reference of the target. The
-- trigger of a found target is given with it: `SetTarget` is in Broker/Trigger.antt. The call for the
-- target has fuel.
pub mod Depth
use tmctl.Adapter.{sources_api, targets_api, flow_api}
use tmctl.Base.{
  ℕ, zero, suc, String, Bool, true, false, Option, none, some, List, [], ◌∷◌, Result, ok, err,
  panic, ◌>>=◌, wrap, ◌==◌, if◌then◌else◌, String_eq, Dict, lookup,
}
use tmctl.Broker.Config.{Trigger, Tools}
use tmctl.Broker.Container.{Broker}
use tmctl.Broker.Container
use tmctl.Broker.Trigger.{new_trigger, broker_kind, trigger_kind, api_version}
use tmctl.Components.{Source, Target, new_source, new_target}
use tmctl.Components.External.{read_status}
use tmctl.Disk.{Disk}
use tmctl.Kubernetes.{Object}
use tmctl.Kubernetes.Value.{Fields, Filter, KReference}
use tmctl.Secrets.{Secret}
use tmctl.Service.{Service, service_api}
use tmctl.Service.Reading.{read_service}
use tmctl.Settings.{Config}
use tmctl.Transformation.{Transformation}
use tmctl.Transformation

pub data Found : Type 0 where
  source : Source → Found
  target : Target → Found
  transformation : Transformation → Found
  broker : Broker → Found
  trigger : Trigger → Found
  aimed : Trigger → Found → Found
  service : Service → Found
  secret : Secret → Found

abbrev pub context_of : Object → Option String
unfolding lookup
context_of o = elim (o.metadata.labels) [
  | none ↦ none
  | some labels ↦ lookup "triggermesh.io/context" labels
]

abbrev one_filter : List Filter → Option Filter
one_filter (f ∷ []) = some f
one_filter fs = none

abbrev entries : Option (Dict String) → Dict String
entries none = []
entries (some m) = m

-- What a call gives: `none` where the fuel runs out, and else what Go returns, `ok none` for `nil`.
abbrev pub Outcome : Type 0
Outcome = Option (Result (Option Found))

-- A trigger with what the look-up of its target gives, whose error is dropped.
abbrev pub with_target : Trigger → Outcome → Outcome
with_target t none = none
with_target t (some (ok (some c))) = some (ok (some (aimed t c)))
with_target t (some panic) = some panic
with_target t (some r) = some (ok (some (trigger t)))

module _ (d : Disk) (x : Tools d) (config : Config) (base : String)
    (read_trigger_spec : Option Fields → Result (List Filter × Option KReference)) where
  -- A target without a reference is a pointer that is `nil`.
  unfoldable pub parse_trigger_spec : Option Fields → Result (String × Option Filter)
  parse_trigger_spec spec = read_trigger_spec spec >>= λ (filters, ref). elim ref [
    | none ↦ panic
    | some r ↦ ok (r.name, one_filter filters)
  ]

  -- The trigger without a target, and the name of its target.
  unfoldable pub found_trigger : String → Object → Result (String × Trigger)
  unfolding parse_trigger_spec
  found_trigger context o = wrap "trigger spec" (parse_trigger_spec o.spec) >>= λ (name, filter).
      wrap "trigger object" (new_trigger d x o.metadata.name context base none filter) >>= λ t.
      ok (name, t)

  abbrev aim : (String → Outcome) → Result (String × Trigger) → Outcome
  aim again (ok (name, t)) = with_target t (again name)
  aim again (err e) = some (err e)
  aim again panic = some panic

  abbrev or_rest : Result (Option Service) → Outcome → Outcome
  or_rest (ok none) rest = rest
  or_rest (ok (some s)) rest = some (ok (some (service s)))
  or_rest (err e) rest = some (err e)
  or_rest panic rest = some panic

  -- The body of the loop for an object of the name, where `again` is the call of `GetObject` and `rest`
  -- what the loop gives for the objects after this one.
  unfoldable pub of_object : (String → Outcome) → String → Object → Outcome → Outcome
  unfolding found_trigger read_service read_status
  of_object again context o rest =
      let version = config.triggermesh.components_version in
      if o.api_version == sources_api
      then some (
          ok (
            some (
              source (
                new_source o.metadata.name o.kind context version o.spec
                  (read_status o.metadata)))))
      else if o.api_version == targets_api
      then some (ok (some (target (new_target o.metadata.name o.kind context version o.spec))))
      else if o.api_version == flow_api
      then some
          (ok (some (transformation (Transformation.new o.metadata.name context version o.spec))))
      else if o.api_version == api_version
      then if o.kind == broker_kind
        then some (ok (some (broker (Container.new o.metadata.name config.triggermesh.broker))))
        else if o.kind == trigger_kind
        then aim again (found_trigger context o)
        else rest
      else if o.api_version == service_api
      then or_rest (read_service context o) rest
      else if o.api_version == "v1"
      then if o.kind == "Secret"
        then some (
            ok (
              some (
                secret (record {
                  name = o.metadata.name;
                  context = context;
                  content = entries o.content;
                }))))
        else rest
      else rest

  unfoldable pub look_through : (String → Outcome) → String → List Object → Outcome
  unfolding of_object
  look_through again name [] = some (ok none)
  look_through again name (o ∷ os) =
      let rest = look_through again name os in
      if o.metadata.name == name
      then elim (context_of o) [
        | none ↦ some (err "context label not set")
        | some context ↦ of_object again context o rest
      ]
      else rest

  unfoldable pub get_object : ℕ → List Object → String → Outcome
  unfolding look_through
  get_object zero objects name = none
  get_object (suc fuel) objects name = look_through (get_object fuel objects) name objects
