-- ===== src/Docker/Starting.antt =====
-- pkg/docker/client.go: `Start`, which finds a running container or makes a new one.
pub mod Launch
pub mod Outcome
use tmctl.Base.{
  ℕ, String, Bool, true, false, not, ◌||◌, Option, none, some, List, [], ◌∷◌, Result, ok, err,
  panic, ◌>>=◌, wrap, ◌<>◌, ◌==◌, if◌then◌else◌, String_eq,
}
use tmctl.Docker.{Daemon, ContainerConfig, HostConfig, Container, lookup_host_config, remove}
use tmctl.Docker.Logs.{read_logs, check_logs}
use tmctl.Docker.Waiting.{pull_image, is_running}

-- `container.Config{}` and `container.HostConfig{}`
abbrev pub no_config : ContainerConfig
no_config = record { image = ""; env = []; exposed_ports = []; entrypoint = [] }

abbrev pub no_host_config : HostConfig
no_host_config = record { binds = []; port_bindings = []; extra_hosts = [] }

-- The options change the configuration, the first one first.
unfoldable pub apply_options {ℓ} : {A : Type ℓ} → List (A → A) → A → A
apply_options [] a = a
apply_options (f ∷ fs) a = apply_options fs (f a)

unfoldable pub container_config : Container → ContainerConfig
unfolding apply_options
container_config c = apply_options c.create_container_options no_config

unfoldable pub host_config : Container → HostConfig
unfolding apply_options
host_config c = apply_options c.create_host_options no_host_config

module _ (d : Daemon) where
  infixl 5 ◌and_then◌
  -- A step that may fail, and the daemon after it.
  abbrev pub ◌and_then◌ {ℓ κ} :
      {A : Type ℓ} {B : Type κ}
      → Result A × d.State
      → (A → d.State → Result B × d.State)
      → Result B × d.State
  (ok a, s) and_then f = f a s
  (err e, s) and_then f = (err e, s)
  (panic, s) and_then f = (panic, s)

  abbrev context {ℓ} : {A : Type ℓ} → String → Result A × d.State → Result A × d.State
  context c (r, s) = (wrap c r, s)

  abbrev started : Option String × d.State → Result (Unit {0}) × d.State
  started (none, s) = (ok tt, s)
  started (some e, s) = (err e, s)

  -- The part that reads what the new container has logged so far.
  unfoldable pub check_start : Container → d.State → Result Container × d.State
  check_start c s = (
    wrap "docker read logs" (d.logs s c.id) >>= λ lines.
        check_logs d (read_logs lines) >>= λ _. ok c,
    s,
  )

  -- From `ContainerCreate` on. `setting` is what `config.Get("docker.timeout")` gives.
  unfoldable pub create_and_run : Result String → Container → d.State → Result Container × d.State
  create_and_run setting c s =
      context "docker create" (d.create (container_config c) (host_config c) c.name s)
      and_then λ id s₁. context "docker start" (started (d.start id s₁)) and_then λ _ s₂.
          (wrap "config read" setting >>= λ t. wrap "config timeout value" (d.parse_duration t), s₂)
          and_then λ timeout s₃.
              context "docker connect" (is_running d (d.rounds timeout) id s₃) and_then λ _ s₄.
              check_start
                (record c {
                  id = id;
                  runtime_host = host_config c;
                  runtime_container = container_config c;
                })
                (d.wait 2000 s₄)

  -- A container that is there is the one that is started, with what the look-up has set; its image
  -- is compared with itself.
  unfoldable pub start_looked_up :
      Result String → Result Container → Container → Bool → d.State → Result Container × d.State
  start_looked_up setting (ok existing) c restart s =
      if restart || not (existing.image == existing.image)
      then create_and_run setting existing (remove d existing s).1
      else if existing.online
      then (ok existing, s)
      else create_and_run setting existing s
  start_looked_up setting (err e) c restart s =
      if restart then create_and_run setting c (remove d c s).1 else create_and_run setting c s
  start_looked_up setting panic c restart s = (panic, s)

  unfoldable pub start : Result String → Container → Bool → d.State → Result Container × d.State
  start setting c restart s = context "pulling image" (pull_image d c.image s) and_then λ _ t.
      start_looked_up setting (lookup_host_config d t c) c restart t
