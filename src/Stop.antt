-- ===== src/Stop.antt =====
-- cmd/stop/stop.go: `tmctl stop`, from the point where the docker client is there. An error of
-- `docker.ForceStop` is only logged; log lines are left out.
pub mod Containers
use tmctl.Base.{
  String, Bool, true, false, ◌||◌, List, [], ◌∷◌, Result, ok, ◌<>◌, ◌==◌, if◌then◌else◌, String_eq,
}
use tmctl.Broker.Trigger.{broker_kind, trigger_kind}
use tmctl.Docker.{Daemon, force_stop}
use tmctl.Kubernetes.{Object}

unfoldable pub is_skipped : Object → Bool
is_skipped o = o.kind == trigger_kind || o.kind == "Secret"

module _ (d : Daemon) where
  -- The body of the loop. A broker's wiretap is stopped before the broker.
  unfoldable pub stop_object : Object → d.State → d.State
  unfolding is_skipped ◌<>◌
  stop_object o s =
      if is_skipped o
      then s
      else if o.kind == broker_kind
      then (let s₁ = (force_stop d (o.metadata.name <> "-wiretap") s).1 in
          (force_stop d (o.metadata.name <> "-broker") s₁).1)
      else (force_stop d o.metadata.name s).1

  unfoldable pub stop_objects : List Object → d.State → d.State
  stop_objects [] s = s
  stop_objects (o ∷ os) s = stop_objects os (stop_object o s)

  unfoldable pub stop : List Object → d.State → Result (Unit {0}) × d.State
  unfolding stop_objects
  stop objects s = (ok tt, stop_objects objects s)
