-- ===== src/Settings.antt =====
-- pkg/config: the settings of the tool, with their file and the overrides for old versions of it.
-- `gopkg.in/yaml.v3`, the query of the releases at GitHub and `os.MkdirAll` are the parameter `Host`.
-- `Get` and `Set` are in Settings/Keys.antt.
pub mod Reload
pub mod Keys
use tmctl.Base.{
  String, Bool, true, false, ◌||◌, Option, none, some, List, [], ◌∷◌, Result, ok, err, panic, ◌<>◌,
  ◌==◌, if◌then◌else◌, String_eq, split,
}
use tmctl.Disk.{Disk, Read, found, missing, failed}

pub record InMemoryBrokerConfig : Type 0 where
  pub buffer_size : String
  pub produce_timeout : String

pub record RedisBrokerConfig : Type 0 where
  pub address : String
  pub username : String
  pub password : String
  pub tls_enabled : Bool
  pub skip_verify : Bool

pub record BrokerConfig : Type 0 where
  pub image : String
  pub version : String
  pub memory : Option InMemoryBrokerConfig
  pub redis : Option RedisBrokerConfig
  pub config_polling_period : String

pub record TmConfig : Type 0 where
  pub components_version : String
  pub broker : BrokerConfig

pub record Docker : Type 0 where
  pub start_timeout : String

pub record Config : Type 0 where
  pub config_home : String
  pub context : String
  pub schema_registry : String
  pub triggermesh : TmConfig
  pub docker : Docker

-- `latest` is the tag of a project's latest release, or `none` where the query fails. `home` is what
-- `HomeAbsPath` gives.
pub record Host (d : Disk) : Type 0 where
  pub home : String
  pub windows : Bool
  pub latest : String → Option String
  pub make_directory : String → d.State → Option String × d.State
  pub marshal : Config → Result d.Bytes
  -- The settings of the file, over those that are there.
  pub unmarshal : d.Bytes → Config → Result Config

abbrev pub default_tm_version : String
default_tm_version = "v1.23.0"

abbrev pub default_broker_version : String
default_broker_version = "v1.1.0"

abbrev pub default_docker_timeout : String
default_docker_timeout = "5s"

abbrev pub default_schema_registry : String
default_schema_registry = "https://registry.staging.triggermesh.io"

abbrev pub memory_broker_image : String
memory_broker_image = "gcr.io/triggermesh/memory-broker"

abbrev pub redis_broker_image : String
redis_broker_image = "gcr.io/triggermesh/redis-broker"

-- `Config{ConfigHome: …}`: all other fields are zero.
abbrev pub blank : String → Config
blank home = record {
  config_home = home;
  context = "";
  schema_registry = "";
  triggermesh = record {
    components_version = "";
    broker = record {
      image = "";
      version = "";
      memory = none;
      redis = none;
      config_polling_period = "";
    };
  };
  docker = record { start_timeout = "" };
}

-- `filepath.Join(c.ConfigHome, defaultConfigFile)`, for a clean home.
unfoldable pub config_path : String → String
unfolding ◌<>◌
config_path home = home <> "/config.yaml"

unfoldable pub docker_timeout_append : Config → Config × Bool
docker_timeout_append c =
    if c.docker.start_timeout == ""
    then (record c { docker = record { start_timeout = default_docker_timeout } }, true)
    else (c, false)

unfoldable pub schema_registry_append : Config → Config × Bool
schema_registry_append c =
    if c.schema_registry == ""
    then (record c { schema_registry = default_schema_registry }, true)
    else (c, false)

abbrev with_broker : BrokerConfig → Config → Config
with_broker b c = record c { triggermesh = record c.triggermesh { broker = b } }

module _ (d : Disk) (host : Host d) where
  unfoldable pub latest_or_default_tag : String → String → String
  latest_or_default_tag project default = elim (host.latest project) [
    | none ↦ default
    | some tag ↦ tag
  ]

  -- The version that the parts of a deprecated image give, for a version that is not set.
  abbrev image_version : List String → String
  image_version (name ∷ tag ∷ []) =
      if tag == "latest" then latest_or_default_tag "brokers" default_broker_version else tag
  image_version parts = ""

  abbrev version_or_latest : String → String
  version_or_latest v =
      if v == "" then latest_or_default_tag "brokers" default_broker_version else v

  unfoldable pub broker_image_replacement : Config → Config × Bool
  unfolding split
  broker_image_replacement c =
      let b = c.triggermesh.broker in
      if b.image == "" then (c, false) else (
        with_broker
            (record b {
              version =
                  version_or_latest
                    (if b.version == "" then image_version (split b':' b.image) else b.version);
              image = "";
            })
            c,
        true,
      )

  -- The loop of `applyOverrides`.
  unfoldable pub overridden : Config → Config × Bool
  overridden c =
      let (c₁, b₁) = broker_image_replacement c in
      let (c₂, b₂) = docker_timeout_append c₁ in
      let (c₃, b₃) = schema_registry_append c₂ in (c₃, b₁ || b₂ || b₃)

  abbrev pub saved : Option String × d.State → Result (Unit {0}) × d.State
  saved (none, s) = (ok tt, s)
  saved (some e, s) = (err e, s)

  unfoldable pub save : Config → d.State → Result (Unit {0}) × d.State
  save c s = elim (host.marshal c) [
    | ok b ↦ saved (d.write s (config_path c.config_home) b)
    | err e ↦ (err e, s)
    | panic ↦ (panic, s)
  ]

  -- A setting and the files after a step that may fail.
  abbrev pub returned : Config → Result (Unit {0}) × d.State → Result Config × d.State
  returned c (ok u, s) = (ok c, s)
  returned c (err e, s) = (err e, s)
  returned c (panic, s) = (panic, s)

  unfoldable pub apply_overrides : Config → d.State → Result Config × d.State
  apply_overrides c s =
      let (c', overwritten) = overridden c in
      if overwritten then returned c' (save c' s) else (ok c', s)

  unfoldable pub default_config : Config
  default_config =
      let c = blank host.home in
      record c {
        docker = record { start_timeout = default_docker_timeout };
        triggermesh = record {
          components_version = latest_or_default_tag "triggermesh" default_tm_version;
          broker = record {
            image = "";
            version = latest_or_default_tag "brokers" default_broker_version;
            memory = some (record { buffer_size = "100"; produce_timeout = "1s" });
            redis = none;
            config_polling_period = if host.windows then "PT2S" else "";
          };
        };
      }

  abbrev pub created : Option String × d.State → Result Config × d.State
  created (some e, s) = (err e, s)
  created (none, s) = returned default_config (save default_config s)

  -- `createDefault` of a configuration that is blank.
  unfoldable pub create_default : d.State → Result Config × d.State
  create_default s = created (host.make_directory host.home s)

  abbrev pub overrides_of : Result Config × d.State → Result Config × d.State
  overrides_of (ok c, s) = apply_overrides c s
  overrides_of (err e, s) = (err e, s)
  overrides_of (panic, s) = (panic, s)

  -- `loadDefaultConfig`, and what `New` does with its error.
  unfoldable pub load_or_create : d.State → Result Config × d.State
  load_or_create s = elim (d.read s (config_path host.home)) [
    | found b ↦ (host.unmarshal b (blank host.home), s)
    | missing ↦ create_default s
    | failed e ↦ (err e, s)
  ]

  unfoldable pub new : d.State → Result Config × d.State
  new s = overrides_of (load_or_create s)
