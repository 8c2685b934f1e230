-- ===== src/Docker/Starting/Outcome.antt =====
-- What `Start` of pkg/docker/client.go has done when it returns a container.
use tmctl.Base.{
  String, Bool, true, false, ◌||◌, Result, ok, err, panic, >>=-ok, if◌then◌else◌, String_eq, ◌≡◌,
  ◌⊎◌, inl, inr, refl, sym, ap, ◌∙◌, eq_refl,
}
use tmctl.Docker.{Daemon, Container, Inspection, lookup_host_config, name_to_id, remove}
use tmctl.Docker.Starting.{
  container_config, host_config, context, create_and_run, start_looked_up, start,
}
use tmctl.Docker.Waiting.{pull_image}
use tmctl.Docker.Starting.Launch.{Launched, and_then-ok, context-ok, create_and_run-ok}

module _ (d : Daemon) where
  -- A look-up changes neither the name nor the options of the container.
  lookup-ok :
      (t : d.State) (c e : Container)
      → lookup_host_config d t c ≡ ok e
      → (id : String) × (i : Inspection) × (record c {
        id = id;
        online = i.running || c.online;
        runtime_host = i.host;
        runtime_container = i.config;
      }
          ≡ e)
  unfolding lookup_host_config
  lookup-ok t c e h =
      let (id, k, p) = >>=-ok (name_to_id d t c.name) _ h in
      let (i, l, q) = >>=-ok (d.inspect t id) _ k in (id, i, cc l)

  -- Where the container to launch is looked for among those that the daemon has.
  abbrev pub before_launch : Bool → Container → d.State → d.State
  before_launch restart c t = if restart then (remove d c t).1 else t

  abbrev pub Started : Result String → Container → Bool → d.State → Container → d.State → Type 0
  Started setting c restart t new u =
      ((restart ≡ false) × (lookup_host_config d t c ≡ ok new) × (new.online ≡ true) × (u ≡ t))
      ⊎ Launched d setting c new (before_launch restart c t) u

  -- The container `c` after a look-up.
  abbrev found : Container → String → Inspection → Container
  found c id i = record c {
    id = id;
    online = i.running || c.online;
    runtime_host = i.host;
    runtime_container = i.config;
  }

  relaunched :
      (setting : Result String) (c new : Container) (id : String) (i : Inspection) (s u : d.State)
      → Launched d setting (found c id i) new s u
      → Launched d setting c new s u
  unfolding container_config host_config
  relaunched setting c new id i s u l = record {
    created_state = l.created_state;
    started_state = l.started_state;
    seen_state = l.seen_state;
    timeout_text = l.timeout_text;
    timeout = l.timeout;
    lines = l.lines;
    created = l.created;
    ran = l.ran;
    set = l.set;
    parsed = l.parsed;
    seen = l.seen;
    logged = l.logged;
    healthy = l.healthy;
    settled = l.settled;
  }

  -- The comparison of the image with itself never asks for a restart.
  no_restart :
      (setting : Result String) (c e : Container) (t : d.State)
      → start_looked_up d setting (ok e) c false t
        ≡ (if e.online then (ok e, t) else create_and_run d setting e t)
  unfolding start_looked_up
  no_restart setting c e t = rw (eq_refl e.image) refl

  start_found :
      (setting : Result String) (c new : Container) (restart : Bool) (id : String) (i : Inspection)
      (t u : d.State)
      → start_looked_up d setting (ok (found c id i)) c restart t ≡ (ok new, u)
      → ((restart ≡ false) × (found c id i ≡ new) × ((i.running || c.online) ≡ true) × (u ≡ t))
        ⊎ Launched d setting c new (before_launch restart c t) u
  unfolding start_looked_up remove
  start_found setting c new true id i t u h =
      inr (relaunched setting c new id i _ u (create_and_run-ok d setting (found c id i) new _ u h))
  start_found setting c new false id i t u h =
      by_state (i.running || c.online) refl (rw (no_restart setting c (found c id i) t) at h)
    where
      by_state :
          (on : Bool)
          → (i.running || c.online) ≡ on
          → ◌≡◌ {A = Result Container × d.State}
              (if on then (ok (found c id i), t) else create_and_run d setting (found c id i) t)
              (ok new, u)
          → ((false ≡ false) × (found c id i ≡ new) × ((i.running || c.online) ≡ true) × (u ≡ t))
            ⊎ Launched d setting c new (before_launch false c t) u
      by_state true on e = inl (refl, cc (ap (λ x. x.0) e), on, sym (ap (λ x. x.1) e))
      by_state false off e =
          inr (
            relaunched setting c new id i t u
              (create_and_run-ok d setting (found c id i) new t u e))

  start_existing :
      (setting : Result String) (c e new : Container) (restart : Bool) (t u : d.State)
      → lookup_host_config d t c ≡ ok e
      → start_looked_up d setting (ok e) c restart t ≡ (ok new, u)
      → Started setting c restart t new u
  start_existing setting c e new restart t u l h =
      let (id, i, same) = lookup-ok t c e l in
      elim (start_found setting c new restart id i t u
        (ap (λ x. start_looked_up d setting (ok x) c restart t) same ∙ h)) [
          | inl (r, n, on, v) ↦
              inl (r, l ∙ ap ok (sym same ∙ n), ap (λ x. x.online) (sym n) ∙ on, v)
          | inr done ↦ inr done
        ]

  start_missing :
      (setting : Result String) (c new : Container) (restart : Bool) (z : String) (t u : d.State)
      → start_looked_up d setting (err z) c restart t ≡ (ok new, u)
      → Started setting c restart t new u
  unfolding start_looked_up
  start_missing setting c new true z t u h = inr (create_and_run-ok d setting c new _ u h)
  start_missing setting c new false z t u h = inr (create_and_run-ok d setting c new t u h)

  -- Where `Start` returns a container, the image has been pulled before, and: either no restart was
  -- asked for and the container is the one that the look-up gave, marked as online, the daemon being
  -- as the pull left it; or it was created with the configuration that the options build (after the
  -- removal of the old one for a restart, whether or not that succeeded), started, seen running
  -- within the timeout of the settings, and each of its first log lines is no failure.
  pub start-ok :
      (setting : Result String) (c new : Container) (restart : Bool) (s u : d.State)
      → start d setting c restart s ≡ (ok new, u)
      → (t : d.State) × (pull_image d c.image s ≡ (ok tt, t)) × Started setting c restart t new u
  unfolding start start_looked_up
  start-ok setting c new restart s u h =
      let (pulled, t, e, k) =
        and_then-ok d (context d "pulling image" (pull_image d c.image s)) _ h in
      (
        t,
        context-ok d "pulling image" (pull_image d c.image s) e,
        by_look_up t (lookup_host_config d t c) refl k,
      )
    where
      by_look_up :
          (t : d.State) (r : Result Container)
          → lookup_host_config d t c ≡ r
          → start_looked_up d setting r c restart t ≡ (ok new, u)
          → Started setting c restart t new u
      by_look_up t (ok e) l k = start_existing setting c e new restart t u l k
      by_look_up t (err z) l k = start_missing setting c new restart z t u k
      by_look_up t panic l k = absurd (cc (ap (λ x. x.0) k))
