-- ===== src/Docker/Starting/Launch.antt =====
-- How the part of `Start` of pkg/docker/client.go from `ContainerCreate` on succeeds.
use tmctl.Base.{
  ℕ, String, false, Option, none, some, List, All, Result, ok, err, panic, >>=-ok, wrap-ok, ◌>>=◌,
  wrap, String_eq, ◌≡◌, refl, sym, ap, ◌∙◌,
}
use tmctl.Docker.{Daemon, Container}
use tmctl.Docker.Logs.{read_logs, check_logs, is_failure}
use tmctl.Docker.Logs.Failures.{check_logs_iff}
use tmctl.Docker.Starting.{
  container_config, host_config, ◌and_then◌, context, started, check_start, create_and_run,
}
use tmctl.Docker.Waiting.{is_running}

module _ (d : Daemon) where
  pub and_then-ok {ℓ κ} :
      {A : Type ℓ} {B : Type κ} {b : B} {u : d.State} (m : Result A × d.State)
      (f : A → d.State → Result B × d.State)
      → ◌and_then◌ d m f ≡ (ok b, u)
      → (a : A) × (t : d.State) × (m ≡ (ok a, t)) × (f a t ≡ (ok b, u))
  and_then-ok (ok a, t) f h = (a, t, refl, h)
  and_then-ok (err e, t) f h = absurd (cc (ap (λ x. x.0) h))
  and_then-ok (panic, t) f h = absurd (cc (ap (λ x. x.0) h))

  pub context-ok {ℓ} :
      {A : Type ℓ} {a : A} {t : d.State} (k : String) (m : Result A × d.State)
      → context d k m ≡ (ok a, t)
      → m ≡ (ok a, t)
  context-ok k (ok a, t) h = h
  context-ok k (err e, t) h = absurd (cc (ap (λ x. x.0) h))
  context-ok k (panic, t) h = absurd (cc (ap (λ x. x.0) h))

  pub started-ok :
      {t : d.State} (m : Option String × d.State) → started d m ≡ (ok tt, t) → m ≡ (none, t)
  started-ok (none, t) h = cc h
  started-ok (some e, t) h = absurd (cc (ap (λ x. x.0) h))

  -- A container was created with the configuration that the options of `c` build, started, seen
  -- running before the timeout of the settings, and its first log lines are no failures.
  pub record Launched (setting : Result String) (c new : Container) (s u : d.State) : Type 0 where
    pub created_state : d.State
    pub started_state : d.State
    pub seen_state : d.State
    pub timeout_text : String
    pub timeout : ℕ
    pub lines : List String
    pub created :
        d.create (container_config c) (host_config c) c.name s ≡ (ok new.id, created_state)
    pub ran : d.start new.id created_state ≡ (none, started_state)
    pub set : setting ≡ ok timeout_text
    pub parsed : d.parse_duration timeout_text ≡ ok timeout
    pub seen : is_running d (d.rounds timeout) new.id started_state ≡ (ok tt, seen_state)
    pub logged : d.logs (d.wait 2000 seen_state) new.id ≡ ok lines
    pub healthy : All (λ l. is_failure d l ≡ ok false) (read_logs lines)
    pub settled : u ≡ d.wait 2000 seen_state

  pub check_start-ok :
      (c new : Container) (s u : d.State)
      → check_start d c s ≡ (ok new, u)
      → (lines : List String) × (d.logs s c.id ≡ ok lines)
        × (check_logs d (read_logs lines) ≡ ok tt)
        × (c ≡ new)
        × (s ≡ u)
  unfolding check_start
  check_start-ok c new s u h =
      let (lines, h₁, e₁) =
        >>=-ok (wrap "docker read logs" (d.logs s c.id))
          (λ lines. check_logs d (read_logs lines) >>= λ _. ok c) (ap (λ x. x.0) h) in
      let (u', h₂, e₂) = >>=-ok (check_logs d (read_logs lines)) (λ _. ok c) h₁ in
      (lines, wrap-ok "docker read logs" (d.logs s c.id) e₁, e₂, cc h₂, ap (λ x. x.1) h)

  -- The steps of a launch, the container's identifier being that of the new container.
  assemble :
      (setting : Result String) (c new : Container) (s u : d.State) (id value : String)
      (timeout : ℕ) (lines : List String) (s₁ s₂ s₃ s₄ : d.State)
      → id ≡ new.id
      → d.create (container_config c) (host_config c) c.name s ≡ (ok id, s₁)
      → d.start id s₁ ≡ (none, s₂)
      → setting ≡ ok value
      → d.parse_duration value ≡ ok timeout
      → s₂ ≡ s₃
      → is_running d (d.rounds timeout) id s₃ ≡ (ok tt, s₄)
      → d.logs (d.wait 2000 s₄) id ≡ ok lines
      → All (λ l. is_failure d l ≡ ok false) (read_logs lines)
      → u ≡ d.wait 2000 s₄
      → Launched setting c new s u
  assemble setting c new s u id value timeout lines s₁ s₂ s₃ s₄ same e₁ e₂ p q m e₄ l k v = record {
    created_state = s₁;
    started_state = s₂;
    seen_state = s₄;
    timeout_text = value;
    timeout = timeout;
    lines = lines;
    created = e₁ ∙ ap (λ i. (ok i, s₁)) same;
    ran = ap (λ i. d.start i s₁) (sym same) ∙ e₂;
    set = p;
    parsed = q;
    seen =
        ap (λ i. is_running d (d.rounds timeout) i s₂) (sym same)
        ∙ ap (is_running d (d.rounds timeout) id) m
        ∙ e₄;
    logged = ap (d.logs (d.wait 2000 s₄)) (sym same) ∙ l;
    healthy = k;
    settled = v;
  }

  pub create_and_run-ok :
      (setting : Result String) (c new : Container) (s u : d.State)
      → create_and_run d setting c s ≡ (ok new, u)
      → Launched setting c new s u
  unfolding create_and_run
  create_and_run-ok setting c new s u h =
      let (id, s₁, e₁, h₁) =
        and_then-ok
          (context d "docker create" (d.create (container_config c) (host_config c) c.name s)) _
          h in
      let (ran, s₂, e₂, h₂) =
        and_then-ok (context d "docker start" (started d (d.start id s₁))) _ h₁ in
      let (timeout, s₃, e₃, h₃) =
        and_then-ok
          (wrap "config read" setting >>= λ t. wrap "config timeout value" (d.parse_duration t), s₂)
          _ h₂ in
      let (seen, s₄, e₄, h₄) =
        and_then-ok (context d "docker connect" (is_running d (d.rounds timeout) id s₃)) _ h₃ in
      let (value, p, q) =
        >>=-ok (wrap "config read" setting) (λ t. wrap "config timeout value" (d.parse_duration t))
          (ap (λ x. x.0) e₃) in
      let (lines, l, k, n, v) = check_start-ok _ new (d.wait 2000 s₄) u h₄ in
      assemble setting c new s u id value timeout lines s₁ s₂ s₃ s₄ (ap (λ x. x.id) n)
        (context-ok "docker create" _ e₁) (started-ok _ (context-ok "docker start" _ e₂))
        (wrap-ok "config read" setting q)
        (wrap-ok "config timeout value" (d.parse_duration value) p) (ap (λ x. x.1) e₃)
        (context-ok "docker connect" _ e₄) l ((check_logs_iff d (read_logs lines)).0 k) (sym v)
