-- ===== src/Settings/Reload.antt =====
-- What `New` of pkg/config leaves behind is what it finds the next time.
use tmctl.Base.{
  String, Bool, true, false, Option, none, some, Result, ok, err, panic, ◌==◌, String_eq, ◌≡◌, refl,
  sym, ap, ◌∙◌, arith, eq_refl, Bool-cases, inl, inr,
}
use tmctl.Disk.{Disk, Read, found, missing, failed, IsLawful as IsLawfulDisk}
use tmctl.Settings.{
  Config, Host, blank, config_path, docker_timeout_append, schema_registry_append,
  broker_image_replacement, overridden, saved, save, returned, apply_overrides, default_config,
  create_default, created, overrides_of, load_or_create, new,
}

-- YAML keeps the settings, and sets no others.
pub record IsLawful (d : Disk) (host : Host d) : Type 0 where
  pub unmarshal-marshal :
      (c : Config) (b : d.Bytes)
      → host.marshal c ≡ ok b
      → host.unmarshal b (blank c.config_home) ≡ ok c
  pub home-unmarshal :
      (c : Config) (b : d.Bytes) (home : String)
      → host.unmarshal b (blank home) ≡ ok c
      → c.config_home ≡ home

module _ (d : Disk) (dl : IsLawfulDisk d) (host : Host d) (hl : IsLawful d host) where
  -- No override has anything to do.
  abbrev Settled : Config → Type 0
  Settled c =
      ((c.triggermesh.broker.image == "") ≡ true)
      × ((c.docker.start_timeout == "") ≡ false)
      × ((c.schema_registry == "") ≡ false)

  replaced-image :
      (c : Config) → ((broker_image_replacement d host c).0.triggermesh.broker.image == "") ≡ true
  unfolding broker_image_replacement
  replaced-image c = elim (Bool-cases (c.triggermesh.broker.image == "")) [
    | inl e ↦ rw e e
    | inr e ↦ rw e refl
  ]

  appended-timeout : (c : Config) → ((docker_timeout_append c).0.docker.start_timeout == "") ≡ false
  unfolding docker_timeout_append
  appended-timeout c = elim (Bool-cases (c.docker.start_timeout == "")) [
    | inl e ↦ rw e refl
    | inr e ↦ rw e e
  ]

  appended-registry : (c : Config) → ((schema_registry_append c).0.schema_registry == "") ≡ false
  unfolding schema_registry_append
  appended-registry c = elim (Bool-cases (c.schema_registry == "")) [
    | inl e ↦ rw e refl
    | inr e ↦ rw e e
  ]

  image-appended : (c : Config) → (docker_timeout_append c).0.triggermesh ≡ c.triggermesh
  unfolding docker_timeout_append
  image-appended c = ground arith

  image-registered : (c : Config) → (schema_registry_append c).0.triggermesh ≡ c.triggermesh
  unfolding schema_registry_append
  image-registered c = ground arith

  timeout-registered : (c : Config) → (schema_registry_append c).0.docker ≡ c.docker
  unfolding schema_registry_append
  timeout-registered c = ground arith

  overridden-Settled : (c : Config) → Settled (overridden d host c).0
  unfolding overridden
  overridden-Settled c =
      let c₁ = (broker_image_replacement d host c).0 in
      let c₂ = (docker_timeout_append c₁).0 in
      (
        rw (image-registered c₂) (rw (image-appended c₁) (replaced-image c)),
        rw (timeout-registered c₂) (appended-timeout c₁),
        appended-registry c₂,
      )

  overridden-Settled_same : (c : Config) → Settled c → overridden d host c ≡ (c, false)
  unfolding overridden broker_image_replacement docker_timeout_append schema_registry_append
  overridden-Settled_same c (i, t, r) = rw i (rw t (rw r refl))

  home-overridden : (c : Config) → (overridden d host c).0.config_home ≡ c.config_home
  unfolding overridden broker_image_replacement docker_timeout_append schema_registry_append
  home-overridden c = ground arith

  unchanged-overridden :
      (c : Config) → (overridden d host c).1 ≡ false → (overridden d host c).0 ≡ c
  unfolding overridden broker_image_replacement docker_timeout_append schema_registry_append
  unchanged-overridden c h = ground arith

  saved-ok :
      (r : Option String × d.State) → (saved d host r).0 ≡ ok tt → r ≡ (none, (saved d host r).1)
  saved-ok (none, s) h = refl
  saved-ok (some e, s) h = absurd (cc h)

  pub written_bytes :
      (c : Config) (s : d.State) (r : Result d.Bytes)
      → host.marshal c ≡ r
      → (save d host c s).0 ≡ ok tt
      → (b : d.Bytes) × (host.marshal c ≡ ok b)
        × (d.write s (config_path c.config_home) b ≡ (none, (save d host c s).1))
  unfolding save
  written_bytes c s (ok b) e h =
      (b, e, saved-ok (d.write s (config_path c.config_home) b) (rw (e, save) at h) ∙ rw (e, save))
  written_bytes c s (err z) e h = absurd (cc (rw (e, save) at h))
  written_bytes c s panic e h = absurd (cc (rw (e, save) at h))

  -- Settings that are saved are the ones that are loaded then.
  load-save :
      (c : Config) (s : d.State)
      → c.config_home ≡ host.home
      → (save d host c s).0 ≡ ok tt
      → load_or_create d host (save d host c s).1 ≡ (ok c, (save d host c s).1)
  unfolding load_or_create
  load-save c s e h =
      let (b, m, w) = written_bytes c s (host.marshal c) refl h in
      let t = (save d host c s).1 in
      let r : d.read t (config_path c.config_home) ≡ found b =
        dl.read-write s t (config_path c.config_home) (config_path c.config_home) b w
        ∙ rw (eq_refl (config_path c.config_home)) refl in
      let r' : d.read t (config_path host.home) ≡ found b =
        ap (λ p. d.read t (config_path p)) (sym e) ∙ r in
      rw (r', load_or_create)
        (λ i. ((ap (λ p. host.unmarshal b (blank p)) (sym e) ∙ hl.unmarshal-marshal c b m) i, t))

  returned-ok :
      (c c' : Config) (r : Result (Unit {0}) × d.State)
      → (returned d host c r).0 ≡ ok c'
      → (c ≡ c') × (r ≡ (ok tt, (returned d host c r).1))
  returned-ok c c' (ok tt, s) h = (cc h, refl)
  returned-ok c c' (err e, s) h = absurd (cc h)
  returned-ok c c' (panic, s) h = absurd (cc h)

  -- After an override that changes the settings they are saved, and else they are as loaded.
  apply_overrides-new :
      (c c' : Config) (s : d.State) (b : Bool)
      → (overridden d host c).1 ≡ b
      → c.config_home ≡ host.home
      → load_or_create d host s ≡ (ok c, s)
      → (apply_overrides d host c s).0 ≡ ok c'
      → Settled c'
        × (load_or_create d host (apply_overrides d host c s).1
            ≡ (ok c', (apply_overrides d host c s).1))
  unfolding apply_overrides
  apply_overrides-new c c' s true o e l h =
      let c₁ = (overridden d host c).0 in
      let (p, q) = returned-ok c₁ c' (save d host c₁ s) (rw (o, apply_overrides) at h) in
      let l' = load-save c₁ s (home-overridden c ∙ e) (ap (λ r. r.0) q) in
      rw (o, apply_overrides) (rw⁻¹ p (overridden-Settled c, rw (sym (ap (λ r. r.1) q)) l'))
  apply_overrides-new c c' s false o e l h =
      let same = unchanged-overridden c o in
      let p : c ≡ c' = cc (rw (o, apply_overrides) at h) in
      rw (o, apply_overrides) (rw⁻¹ p (rw⁻¹ same (overridden-Settled c), l))

  load-created :
      (c : Config) (r : Option String × d.State)
      → (created d host r).0 ≡ ok c
      → (c.config_home ≡ host.home)
        × (load_or_create d host (created d host r).1 ≡ (ok c, (created d host r).1))
  unfolding default_config
  load-created c (some z, s) h = absurd (cc h)
  load-created c (none, s) h =
      let c₀ = default_config d host in
      let (p, q) = returned-ok c₀ c (save d host c₀ s) h in
      let l = load-save c₀ s refl (ap (λ r. r.0) q) in rw⁻¹ p (refl, rw (sym (ap (λ r. r.1) q)) l)

  at_same_files :
      (s t : d.State) (c : Config)
      → t ≡ s
      → load_or_create d host s ≡ (ok c, s)
      → load_or_create d host t ≡ (ok c, t)
  at_same_files s t c e l = rw e l

  load-home_created :
      (s : d.State) (c : Config) (r : Option String × d.State)
      → load_or_create d host s ≡ created d host r
      → (load_or_create d host s).0 ≡ ok c
      → (c.config_home ≡ host.home)
        × (load_or_create d host (load_or_create d host s).1 ≡ (ok c, (load_or_create d host s).1))
  load-home_created s c r w h = rw w (load-created c r (rw w at h))

  load-home :
      (s : d.State) (c : Config) (r : Read d.Bytes)
      → d.read s (config_path host.home) ≡ r
      → (load_or_create d host s).0 ≡ ok c
      → (c.config_home ≡ host.home)
        × (load_or_create d host (load_or_create d host s).1 ≡ (ok c, (load_or_create d host s).1))
  unfolding load_or_create create_default
  load-home s c (found b) e h =
      let m : host.unmarshal b (blank host.home) ≡ ok c = rw (e, load_or_create) at h in
      let whole : load_or_create d host s ≡ (ok c, s) = rw (e, load_or_create) (λ i. (m i, s)) in
      (
        hl.home-unmarshal c b host.home m,
        at_same_files s (load_or_create d host s).1 c (ap (λ r. r.1) whole) whole,
      )
  load-home s c missing e h =
      load-home_created s c (host.make_directory host.home s)
        (rw (e, load_or_create, create_default) refl) h
  load-home s c (failed z) e h = absurd (cc (rw (e, load_or_create) at h))

  new-Settled :
      (c : Config) (s : d.State)
      → Settled c
      → load_or_create d host s ≡ (ok c, s)
      → new d host s ≡ (ok c, s)
  unfolding new apply_overrides
  new-Settled c s w l = rw l (rw (overridden-Settled_same c w) refl)

  overrides-new :
      (s : d.State) (c : Config) (r : Result Config × d.State)
      → load_or_create d host s ≡ r
      → (overrides_of d host r).0 ≡ ok c
      → new d host (overrides_of d host r).1 ≡ (ok c, (overrides_of d host r).1)
  overrides-new s c (ok c₀, s₁) e h =
      let (home, l) = load-home s c₀ (d.read s (config_path host.home)) refl (ap (λ r. r.0) e) in
      let l₁ : load_or_create d host s₁ ≡ (ok c₀, s₁) = rw⁻¹ (ap (λ r. r.1) e) l in
      let (w, l₂) = apply_overrides-new c₀ c s₁ (overridden d host c₀).1 refl home l₁ h in
      new-Settled c (apply_overrides d host c₀ s₁).1 w l₂
  overrides-new s c (err z, s₁) e h = absurd (cc h)
  overrides-new s c (panic, s₁) e h = absurd (cc h)

  -- With files and YAML that obey their laws: when `New` has returned settings, it returns them
  -- again from then on, and changes no file.
  pub new_twice :
      (s : d.State) (c : Config)
      → (new d host s).0 ≡ ok c
      → new d host (new d host s).1 ≡ (ok c, (new d host s).1)
  unfolding new
  new_twice s c h = overrides-new s c (load_or_create d host s) refl h
