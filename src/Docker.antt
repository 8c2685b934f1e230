-- ===== src/Docker.antt =====
-- pkg/docker/client.go: finding, inspecting and removing containers by their names. The docker daemon
-- and its client library, the clock, and `encoding/json` are the parameter `Daemon`.
pub mod Options
pub mod Logs
pub mod Waiting
pub mod Starting
pub mod Lookup
use tmctl.Base.{
  ℕ, String, Bool, true, false, ◌||◌, Option, none, some, List, [], ◌∷◌, any, Result, ok, err,
  panic, ◌>>=◌, ◌<>◌, ◌==◌, if◌then◌else◌, String_eq, Dict,
}
use tmctl.Kubernetes.Value.{Fields}

-- `container.Config`, with the fields that the program sets.
pub record ContainerConfig : Type 0 where
  pub image : String
  pub env : List String
  pub exposed_ports : List String
  pub entrypoint : List String

-- `container.HostConfig`. A binding of a container's port has the host's address and its port.
pub record HostConfig : Type 0 where
  pub binds : List String
  pub port_bindings : Dict (List (String × String))
  pub extra_hosts : List String

-- What `ContainerList` tells of a container.
pub record Summary : Type 0 where
  pub id : String
  pub names : List String

-- What `ContainerInspect` tells.
pub record Inspection : Type 0 where
  pub running : Bool
  pub status : String
  pub host : HostConfig
  pub config : ContainerConfig

-- `imagePullEvent`: what is decoded of a line of a pull's progress.
pub record ImagePullEvent : Type 0 where
  pub status : String
  pub error : String
  pub progress : String

-- What the decoder gives, up to the end of the stream.
pub data Decoded : Type 0 where
  event : ImagePullEvent → Decoded
  malformed : String → Decoded

pub record Daemon : Type 1 where
  pub State : Type 0
  pub list : State → Result (List Summary)
  pub inspect : State → String → Result Inspection
  pub pull : String → State → Result (List Decoded) × State
  pub create : ContainerConfig → HostConfig → String → State → Result String × State
  pub start : String → State → Option String × State
  -- `ContainerRemove` with its volumes, and by force.
  pub remove : String → State → Option String × State
  -- The lines of the container's log that a `bufio.Scanner` gives, a character for a byte.
  pub logs : State → String → Result (List String)
  -- What happens while the program waits for so many milliseconds.
  pub wait : ℕ → State → State
  -- `time.ParseDuration`, and how often the ticker of the waiting loop wins before a timer of that
  -- duration does.
  pub parse_duration : String → Result ℕ
  pub rounds : ℕ → ℕ
  -- `json.Unmarshal` into a map.
  pub unmarshal : String → Option Fields

-- The options are functions that change a configuration in place.
pub record Container : Type 0 where
  pub id : String
  pub name : String
  pub image : String
  pub online : Bool
  pub create_container_options : List (ContainerConfig → ContainerConfig)
  pub create_host_options : List (HostConfig → HostConfig)
  pub runtime_host : HostConfig
  pub runtime_container : ContainerConfig

-- `cName == "/"+name`, for one of the container's names.
unfoldable pub has_name : String → Summary → Bool
unfolding ◌<>◌
has_name name c = any (λ n. n == "/" <> name) c.names

-- The loop of `nameToID`: a name that no container has gives the empty text, and no error.
unfoldable pub find_id : String → List Summary → String
find_id name [] = ""
find_id name (c ∷ cs) = if has_name name c then c.id else find_id name cs

-- `HostPort`: the first binding that a `range` meets.
unfoldable pub host_port : Dict (List (String × String)) → String
host_port [] = ""
host_port ((port, []) ∷ rest) = host_port rest
host_port ((port, (address, p) ∷ bindings) ∷ rest) = p

module _ (d : Daemon) where
  unfoldable pub name_to_id : d.State → String → Result String
  name_to_id s name = d.list s >>= λ cs. ok (find_id name cs)

  -- The container that is looked up is the one that is changed and returned.
  unfoldable pub lookup_host_config : d.State → Container → Result Container
  lookup_host_config s c = do
    id ← name_to_id s c.name
    i ← d.inspect s id
    ok (record c {
      id = id;
      online = i.running || c.online;
      runtime_host = i.host;
      runtime_container = i.config;
    })

  abbrev pub reported : Option String × d.State → Result (Unit {0}) × d.State
  reported (none, s) = (ok tt, s)
  reported (some e, s) = (err e, s)

  unfoldable pub force_stop : String → d.State → Result (Unit {0}) × d.State
  force_stop name s = elim (name_to_id s name) [
    | ok id ↦ reported (d.remove id s)
    | err e ↦ (err e, s)
    | panic ↦ (panic, s)
  ]

  unfoldable pub remove : Container → d.State → Result (Unit {0}) × d.State
  remove c s = elim (name_to_id s c.name) [
    | ok id ↦ reported (d.remove id s)
    | err e ↦ (err e, s)
    | panic ↦ (panic, s)
  ]
