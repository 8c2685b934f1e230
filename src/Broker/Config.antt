-- ===== src/Broker/Config.antt =====
-- pkg/triggermesh/components/broker/config.go: the file that tells the broker where events go.
-- `gopkg.in/yaml.v3`, the URL parser of `knative.dev/pkg/apis` and MD5 are the parameter `Tools`.
-- A URL is the text that its `String` method gives; `nil` is `none`, whose text is empty.
pub mod Entries
use tmctl.Base.{
  String, Option, none, some, List, [], ◌∷◌, Result, ok, err, panic, wrap, ◌>>=◌, ◌<>◌, Dict,
  lookup, insert, delete,
}
use tmctl.Disk.{Disk, Read, found, missing, failed}
use tmctl.Kubernetes.Value.{Filter, KReference}

-- `delivery` is the text of the options of the `brokers` package, which nothing here looks into.
pub record LocalTarget : Type 0 where
  pub url : String
  pub component : String
  pub delivery : Option String

pub record LocalTriggerSpec : Type 0 where
  pub filters : List Filter
  pub target : LocalTarget

pub record Configuration : Type 0 where
  pub triggers : Option (Dict LocalTriggerSpec)

pub record Tools (d : Disk) : Type 0 where
  pub marshal : Configuration → Result d.Bytes
  pub unmarshal : d.Bytes → Result Configuration
  pub filter_yaml : Option Filter → String
  -- The first four bytes of the MD5 sum, in hexadecimal.
  pub digest : String → String
  pub parse_url : String → Result (Option String)

-- The part of the struct `Trigger` that its methods read: `broker` and `target` are the references
-- of the embedded `TriggerSpec`.
pub record Trigger : Type 0 where
  pub name : String
  pub config_base : String
  pub local_url : Option String
  pub broker : KReference
  pub filters : List Filter
  pub target : Option KReference

-- `filepath.Join(base, broker, triggermesh.BrokerConfigFile)`, for a clean base.
unfoldable pub config_file : String → String → String
unfolding ◌<>◌
config_file base broker = base <> "/" <> broker <> "/broker.conf"

abbrev pub url_text : Option String → String
url_text none = ""
url_text (some u) = u

-- A lookup or a `range` on a `nil` map finds nothing.
abbrev pub entries {ℓ} : {V : Type ℓ} → Option (Dict V) → Dict V
entries none = []
entries (some m) = m

-- The entry that `WriteLocalConfig` makes: over an old one it sets the filters and the target.
abbrev pub local_spec : Trigger → KReference → Option LocalTriggerSpec → LocalTriggerSpec
local_spec t ref none = record {
  filters = t.filters;
  target = record { url = url_text t.local_url; component = ref.name; delivery = none };
}
local_spec t ref (some old) = record old {
  filters = t.filters;
  target = record { url = url_text t.local_url; component = ref.name; delivery = none };
}

-- `delete` on a `nil` map does nothing.
abbrev pub without : Trigger → Configuration → Configuration
without t c = elim (c.triggers) [
  | none ↦ record { triggers = none }
  | some m ↦ record { triggers = some (delete t.name m) }
]

module _ (d : Disk) (x : Tools d) where
  unfoldable pub read_broker_config : d.State → String → Result Configuration
  read_broker_config s path = elim (d.read s path) [
    | found b ↦ x.unmarshal b
    | missing ↦ err "read file: no such file or directory"
    | failed e ↦ err ("read file: " <> e)
  ]

  abbrev pub saved : Option String × d.State → Result (Unit {0}) × d.State
  saved (none, s) = (ok tt, s)
  saved (some e, s) = (err e, s)

  unfoldable pub write_broker_config :
      d.State → String → Configuration → Result (Unit {0}) × d.State
  write_broker_config s path c = elim (x.marshal c) [
    | ok b ↦ saved (d.write s path b)
    | err e ↦ (err ("marshal broker configuration: " <> e), s)
    | panic ↦ (panic, s)
  ]

  -- `t.Target.Ref.Name` panics on a `nil` reference.
  unfoldable pub updated : Trigger → Configuration → Result Configuration
  updated t c = elim (t.target) [
    | none ↦ panic
    | some ref ↦ ok (record {
      triggers = some (
          insert t.name (local_spec t ref (lookup t.name (entries c.triggers)))
            (entries c.triggers));
    })
  ]

  unfoldable pub write_local_config : Trigger → d.State → Result (Unit {0}) × d.State
  unfolding updated
  write_local_config t s =
      let path = config_file t.config_base t.broker.name in
      elim (wrap "broker config" (read_broker_config s path) >>= updated t) [
        | ok c ↦ write_broker_config s path c
        | err e ↦ (err e, s)
        | panic ↦ (panic, s)
      ]

  unfoldable pub remove_from_local_config : Trigger → d.State → Result (Unit {0}) × d.State
  remove_from_local_config t s =
      let path = config_file t.config_base t.broker.name in
      elim (wrap "broker config" (read_broker_config s path)) [
        | ok c ↦ write_broker_config s path (without t c)
        | err e ↦ (err e, s)
        | panic ↦ (panic, s)
      ]
