-- ===== src/Broker/Container.antt =====
-- pkg/triggermesh/components/broker/broker.go: the broker as an object and as a container, and the
-- files that it is given. What the docker daemon does with the container is not here.
pub mod Names
pub mod Files
use tmctl.Adapter.{Library}
use tmctl.Adapter.Runtime.{Params, runtime_params}
use tmctl.Base.{
  String, Bool, true, false, Option, none, some, List, [], ◌∷◌, ◌++◌, Result, ok, err, panic, wrap,
  ◌>>=◌, ◌<>◌, ◌==◌, not, if◌then◌else◌, String_eq, Dict, has_suffix,
}
use tmctl.Broker.Trigger.{broker_kind, api_version}
use tmctl.Disk.{Disk}
use tmctl.Kubernetes.{Object}
use tmctl.Settings.{
  BrokerConfig, InMemoryBrokerConfig, RedisBrokerConfig, memory_broker_image, redis_broker_image,
}

-- The field `spec` is left out: `New` leaves it `nil`, and no method but `SetSpec` and `GetSpec`
-- touches it.
pub record Broker : Type 0 where
  pub name : String
  pub image : String
  pub entrypoint : List String

unfoldable pub image : BrokerConfig → String
unfolding ◌<>◌
image c = elim (c.memory) [
  | some m ↦ memory_broker_image <> ":" <> c.version
  | none ↦ elim (c.redis) [ some r ↦ redis_broker_image <> ":" <> c.version | none ↦ "" ]
]

abbrev flag : Bool → String → List String
flag set name = if set then name ∷ [] else []

abbrev memory_arguments : InMemoryBrokerConfig → List String
memory_arguments m =
    "/memory-broker" ∷ "start" ∷ "--memory.buffer-size" ∷ m.buffer_size ∷ "--memory.produce-timeout"
    ∷ m.produce_timeout ∷ []

abbrev redis_arguments : RedisBrokerConfig → List String
redis_arguments r =
    ("/redis-broker" ∷ "start" ∷ "--redis.username" ∷ r.username ∷ "--redis.password" ∷ r.password
      ∷ "--redis.address" ∷ r.address ∷ [])
    ++ flag r.tls_enabled "--redis.tls-enabled"
    ++ flag r.skip_verify "--redis.tls-skip-verify"

abbrev polling_arguments : String → List String
polling_arguments period = if period == "" then [] else "--config-polling-period" ∷ period ∷ []

unfoldable pub broker_entrypoint : BrokerConfig → List String
broker_entrypoint c =
    elim (c.memory) [
      | some m ↦ memory_arguments m
      | none ↦ elim (c.redis) [ some r ↦ redis_arguments r | none ↦ [] ]
    ]
    ++ polling_arguments c.config_polling_period
    ++ "--broker-config-path" ∷ "/etc/triggermesh/broker.conf" ∷ []

unfoldable pub new : String → BrokerConfig → Broker
unfolding image broker_entrypoint
new name c = record { name = name; image = image c; entrypoint = broker_entrypoint c }

unfoldable pub as_k8s_object : Broker → Object
as_k8s_object b = record {
  api_version = api_version;
  kind = broker_kind;
  metadata = record {
    name = b.name;
    namespace = "local";
    labels = some (("triggermesh.io/context", b.name) ∷ []);
    annotations = none;
  };
  spec = none;
  content = none;
  type = "";
}

-- `asUnstructured`, whose only field besides the name and the kind is an empty spec.
unfoldable pub as_unstructured : Broker → Object
as_unstructured b = record {
  api_version = api_version;
  kind = broker_kind;
  metadata = record { name = b.name; namespace = "local"; labels = none; annotations = none };
  spec = none;
  content = none;
  type = "";
}

-- The name of the container in `asContainer`.
unfoldable pub broker_container_name : String → String
unfolding ◌<>◌ has_suffix
broker_container_name name = if not (has_suffix name "-broker") then name <> "-broker" else name

pub record Container : Type 0 where
  pub name : String
  pub image : String
  pub params : Params
  pub entrypoint : List String
  pub bind : String

-- `home` is `config.HomeAbsPath()`.
unfoldable pub as_container : Library → String → Broker → Option (Dict String) → Result Container
unfolding ◌<>◌ broker_container_name as_unstructured runtime_params
as_container lib home b extra =
    wrap "creating adapter params" (runtime_params lib (as_unstructured b) b.image extra)
    >>= λ params. ok (record {
      name = broker_container_name b.name;
      image = b.image;
      params = params;
      entrypoint = b.entrypoint;
      bind = home <> "/" <> b.name <> "/broker.conf" <> ":/etc/triggermesh/broker.conf";
    })

-- What `os.Stat` gives: `os.IsNotExist` tells `not_there` from the other errors.
pub data Stat : Type 0 where
  there : Stat
  not_there : Stat
  unknown : String → Stat

-- `os.MkdirAll`, `os.Stat` and `os.Create`.
pub record Folders (d : Disk) : Type 0 where
  pub make_directory : String → d.State → Option String × d.State
  pub stat : d.State → String → Stat
  pub create : String → d.State → Option String × d.State

module _ (d : Disk) (f : Folders d) where
  abbrev pub created : String → Option String × d.State → Result (Unit {0}) × d.State
  created context (none, s) = (ok tt, s)
  created context (some e, s) = (err (context <> ": " <> e), s)

  -- A file that is not there is created, and one that is there stays.
  unfoldable pub ensure : String → String → String → d.State → Result (Unit {0}) × d.State
  unfolding ◌<>◌
  ensure creation access path s = elim (f.stat s path) [
    | there ↦ (ok tt, s)
    | not_there ↦ created creation (f.create path s)
    | unknown e ↦ (err (access <> ": " <> e), s)
  ]

  abbrev pub followed :
      Result (Unit {0}) × d.State
      → (d.State → Result (Unit {0}) × d.State)
      → Result (Unit {0}) × d.State
  followed (ok u, s) g = g s
  followed (err e, s) g = (err e, s)
  followed (panic, s) g = (panic, s)

  -- `broker_home` is the folder of the broker below the configuration's. The path that is returned is that of
  -- the file `broker.conf` in it.
  unfoldable pub create_broker_config : String → d.State → Result (Unit {0}) × d.State
  unfolding ◌<>◌
  create_broker_config broker_home s =
      followed (created "broker dir creation" (f.make_directory broker_home s)) (λ s₁.
        followed
          (ensure "manifest file creation" "manifest file access" (broker_home <> "/manifest.yaml")
            s₁)
          (ensure "creating broker config" "broker config read" (broker_home <> "/broker.conf")))
