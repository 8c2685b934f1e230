-- ===== src/Dump/Static.antt =====
-- `getStaticBrokerConfig` of cmd/dump/dump.go: the broker's configuration for the platforms that run the
-- components as containers. `json.Marshal` is the parameter `to_json`.
pub mod Entries
use tmctl.Base.{
  String, Bool, true, false, not, ◌&&◌, ◌||◌, Option, none, some, List, [], ◌∷◌, any, All, Result,
  ok, err, panic, ◌>>=◌, ◌<>◌, ◌==◌, if◌then◌else◌, String_eq, Dict, lookup, insert, lookup-insert,
  ◌≡◌, ◌≢◌, ◌⊎◌, inl, inr, refl, sym, ap, ◌∙◌, Bool-cases, arith, eq_iff,
}
use tmctl.Broker.Config.{LocalTriggerSpec, Configuration, Trigger}
use tmctl.Broker.Trigger.{broker_kind, trigger_kind}
use tmctl.Components.Found.{
  Found, source, target, transformation, broker, trigger, aimed, service, secret,
}
use tmctl.Kubernetes.{Object}

-- `GetKind` and `GetName`.
unfoldable pub found_kind : Found → String
found_kind (source s) = s.kind
found_kind (target t) = t.kind
found_kind (transformation t) = "transformation"
found_kind (broker b) = broker_kind
found_kind (trigger t) = trigger_kind
found_kind (aimed t c) = trigger_kind
found_kind (service s) = "Service"
found_kind (secret s) = "Secret"

unfoldable pub found_name : Found → String
found_name (source s) = s.name
found_name (target t) = t.name
found_name (transformation t) = t.name
found_name (broker b) = b.name
found_name (trigger t) = t.name
found_name (aimed t c) = t.name
found_name (service s) = s.name
found_name (secret s) = s.name

-- The name that a trigger's target has, where the target has a reference.
abbrev pub aim_of : Trigger → Option String
aim_of t = elim (t.target) [ none ↦ none | some ref ↦ some ref.name ]

-- The component as a trigger, with the name of its target.
unfoldable pub as_trigger : Found → Option (Trigger × Option String)
unfolding found_name
as_trigger (trigger t) = some (t, aim_of t)
as_trigger (aimed t c) = some (t, some (found_name c))
as_trigger c = none

abbrev pub is_docker : String → Bool
is_docker platform = platform == "docker-compose" || platform == "kubernetes-generic"

-- The text of the URL, where `Ref.Name` panics on a `nil` reference.
unfoldable pub static_url : String → Option String → Result String
unfolding ◌<>◌
static_url platform ref =
    if platform == "digitalocean"
    then elim ref [ none ↦ panic | some name ↦ ok ("${" <> name <> ".PRIVATE_URL}") ]
    else if is_docker platform
    then elim ref [ none ↦ panic | some name ↦ ok ("http://" <> name <> ":8080") ]
    else ok ""

unfoldable pub static_entry : Trigger → String → LocalTriggerSpec
static_entry t url = record {
  filters = t.filters;
  target = record { url = url; component = ""; delivery = none };
}

abbrev pub entries : Option (Dict LocalTriggerSpec) → Dict LocalTriggerSpec
entries none = []
entries (some m) = m

-- The assertion that the component is a trigger panics where only its kind is that of one.
unfoldable pub added :
    String
    → Option (Dict LocalTriggerSpec)
    → Option (Trigger × Option String)
    → Result (Option (Dict LocalTriggerSpec))
unfolding static_entry static_url
added platform triggers none = panic
added platform triggers (some (t, ref)) = static_url platform ref >>= λ url.
    ok (some (insert t.name (static_entry t url) (entries triggers)))

module _ (platform : String) (look_up : String → Result (Option Found)) where
  -- A round of the loop, with what the look-up of the object's name gives.
  unfoldable pub static_round :
      Result (Option Found)
      → Option (Dict LocalTriggerSpec)
      → Result (Option (Dict LocalTriggerSpec))
  unfolding found_kind as_trigger added
  static_round (ok none) triggers = ok triggers
  static_round (ok (some c)) triggers =
      if found_kind c == trigger_kind then added platform triggers (as_trigger c) else ok triggers
  static_round (err e) triggers = ok triggers
  static_round panic triggers = panic

  unfoldable pub static_triggers :
      List Object → Option (Dict LocalTriggerSpec) → Result (Option (Dict LocalTriggerSpec))
  unfolding static_round
  static_triggers [] triggers = ok triggers
  static_triggers (o ∷ os) triggers =
      static_round (look_up o.metadata.name) triggers >>= static_triggers os

unfoldable pub static_broker_config :
    (Configuration → Result String)
    → String
    → (String → Result (Option Found))
    → List Object
    → Result String
unfolding static_triggers
static_broker_config to_json platform look_up objects =
    static_triggers platform look_up objects none >>= λ m. to_json (record { triggers = m })
