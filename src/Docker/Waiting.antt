-- ===== src/Docker/Waiting.antt =====
-- pkg/docker/client.go: `pullImage` and `isRunning`, which wait for the daemon.
pub mod Liveness
use tmctl.Base.{
  ℕ, zero, suc, String, Bool, true, false, List, [], ◌∷◌, Result, ok, err, panic, ◌<>◌,
  if◌then◌else◌,
}
use tmctl.Docker.{Daemon, Decoded, event, malformed, Inspection}

-- The decoding loop of `pullImage`. What it prints is left out.
unfoldable pub read_events : List Decoded → Result (Unit {0})
read_events [] = ok tt
read_events (event e ∷ rest) = read_events rest
read_events (malformed e ∷ rest) = err e

module _ (d : Daemon) where
  unfoldable pub pull_image : String → d.State → Result (Unit {0}) × d.State
  pull_image image s =
      let (opened, t) = d.pull image s in
      elim opened [ ok events ↦ (read_events events, t) | err e ↦ (err e, t) | panic ↦ (panic, t) ]

  -- `rounds` is how often the ticker wins the `select` before the timeout does. Each round inspects
  -- the container, waits for the ticker and looks at what it saw before the wait.
  unfoldable pub is_running : ℕ → String → d.State → Result (Unit {0}) × d.State
  unfolding ◌<>◌
  is_running zero id s = elim (d.inspect s id) [
    | ok i ↦ (err ("container init timeout, state: " <> i.status), s)
    | err e ↦ (err e, s)
    | panic ↦ (panic, s)
  ]
  is_running (suc rounds) id s = elim (d.inspect s id) [
    | ok i ↦
        let later = is_running rounds id (d.wait 500 s) in
        if i.running then (ok tt, d.wait 500 s) else later
    | err e ↦ (err e, s)
    | panic ↦ (panic, s)
  ]
