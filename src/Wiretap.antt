-- ===== src/Wiretap.antt =====
-- pkg/wiretap/wiretap.go, and `watch` of cmd/watch/watch.go: a container and a trigger that show the
-- events of a broker for a while. The logs that are printed meanwhile, which are read only, are not
-- here: of `BrokerLogs` and of `Logs` there are the errors, `broker_logs` and `display_logs`. `setting` is the docker timeout of the
-- settings, and `open_port` what `strconv.Itoa(pkg.OpenPort())` gives.
pub mod Clean
use tmctl.Base.{
  String, Bool, true, false, Option, none, some, [], ◌∷◌, Result, ok, err, panic, wrap, ◌>>=◌, ◌<>◌,
}
use tmctl.Broker.Config.{Tools, Trigger, write_local_config, remove_from_local_config}
use tmctl.Broker.Trigger.{docker_host}
use tmctl.Disk.{Disk}
use tmctl.Docker.{Daemon, Container, host_port, force_stop}
use tmctl.Docker.Options.{with_image, with_env, with_port, with_host_port_binding, with_extra_host}
use tmctl.Docker.Starting.{no_config, no_host_config, start}
use tmctl.Kubernetes.Value.{KReference}

-- The docker client is the daemon of the model.
pub record Wiretap : Type 0 where
  pub broker : String
  pub config_base : String
  pub destination : String

abbrev pub image : String
image = "gcr.io/knative-releases/knative.dev/eventing/cmd/event_display"

abbrev pub port : String
port = "8080/tcp"

unfoldable pub wiretap_container : String → Wiretap → Container
unfolding with_image with_env with_port with_host_port_binding with_extra_host ◌<>◌
wiretap_container open_port w = record {
  id = "";
  name = w.broker <> "-wiretap";
  image = image;
  online = false;
  create_container_options =
      with_image image ∷ with_port port ∷ with_env ("K_CONFIG_TRACING={}" ∷ []) ∷ [];
  create_host_options = with_host_port_binding open_port port ∷ with_extra_host ∷ [];
  runtime_host = no_host_config;
  runtime_container = no_config;
}

abbrev reference_to : String → KReference
reference_to name = record { kind = ""; name = name; api_version = ""; group = "" }

-- The trigger with its URL and its target, which the clean-up leaves out.
unfoldable pub wiretap_trigger : Wiretap → Option String → Option KReference → Trigger
wiretap_trigger w url target = record {
  name = "wiretap";
  config_base = w.config_base;
  local_url = url;
  broker = reference_to w.broker;
  filters = [];
  target = target;
}

module _ (d : Disk) (x : Tools d) (daemon : Daemon) where
  pub record World : Type 0 where
    pub disk : d.State
    pub containers : daemon.State

  -- `CreateAdapter`, with the wiretap and its destination in place of the logs.
  unfoldable pub create_adapter :
      Result String
      → String
      → Result (Unit {0})
      → Wiretap
      → daemon.State
      → Result Wiretap × daemon.State
  unfolding wiretap_container start host_port ◌<>◌
  create_adapter setting open_port display_logs w s =
      let (r, t) = start daemon setting (wiretap_container open_port w) true s in
      (
        wrap "starting container" r >>= λ c. display_logs >>= λ _. ok (record w {
          destination = docker_host <> ":" <> host_port c.runtime_host.port_bindings;
        }),
        t,
      )

  abbrev store_at : Wiretap → d.State → Result (Option String) → Result (Unit {0}) × d.State
  store_at w s (ok url) =
      write_local_config d x (wiretap_trigger w url (some (reference_to "wiretap"))) s
  store_at w s (err e) = (err ("wiretap URL: " <> e), s)
  store_at w s panic = (panic, s)

  unfoldable pub create_trigger : Wiretap → d.State → Result (Unit {0}) × d.State
  unfolding wiretap_trigger write_local_config ◌<>◌
  create_trigger w s = store_at w s (x.parse_url w.destination)

  abbrev stopped : String → World → Result (Unit {0}) → Result (Unit {0}) × World
  stopped name v (ok u) =
      let (r, s) = force_stop daemon name v.containers in (r, record v { containers = s })
  stopped name v (err e) = (err ("removing trigger: " <> e), v)
  stopped name v panic = (panic, v)

  unfoldable pub cleanup : Wiretap → World → Result (Unit {0}) × World
  unfolding wiretap_trigger remove_from_local_config force_stop ◌<>◌
  cleanup w v =
      let (r, s) = remove_from_local_config d x (wiretap_trigger w none none) v.disk in
      stopped (w.broker <> "-wiretap") (record v { disk = s }) r

  -- What `watch` returns, what its deferred clean-up gives, which is only logged, and the world.
  pub record Watched : Type 0 where
    pub outcome : Result (Unit {0})
    pub cleaned : Result (Unit {0})
    pub world : World

  abbrev then_clean : Wiretap → Result (Unit {0}) → World → Watched
  then_clean w r v = let (c, u) = cleanup w v in record { outcome = r; cleaned = c; world = u }

  abbrev connected : Result (Unit {0}) → Wiretap → World → Result Wiretap × daemon.State → Watched
  connected broker_logs w v (ok w', s) =
      let (r, t) = create_trigger w' v.disk in
      then_clean w' (wrap "create trigger" r >>= λ _. wrap "broker logs" broker_logs)
        (record { disk = t; containers = s })
  connected broker_logs w v (err e, s) =
      then_clean w (err ("create container: " <> e)) (record v { containers = s })
  connected broker_logs w v (panic, s) = then_clean w panic (record v { containers = s })

  unfoldable pub watch :
      Result String → String → Result (Unit {0}) → Result (Unit {0}) → Wiretap → World → Watched
  unfolding create_adapter create_trigger cleanup ◌<>◌
  watch setting open_port display_logs broker_logs w v =
      connected broker_logs w v (create_adapter setting open_port display_logs w v.containers)
