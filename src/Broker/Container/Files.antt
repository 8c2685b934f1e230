-- ===== src/Broker/Container/Files.antt =====
-- `CreateBrokerConfig` of broker.go: the files of a broker exist afterwards, and none is lost.
use tmctl.Base.{String, ◌<>◌, Option, none, some, ◌≡◌, refl, sym, ap, ◌∙◌, Result, ok, err, panic}
use tmctl.Broker.Container.{
  Stat, there, not_there, unknown, Folders, created, ensure, followed, create_broker_config,
}
use tmctl.Disk.{Disk}

-- What is there in the first state is there in the second, with the same contents.
abbrev pub Keeps : (d : Disk) → Folders d → d.State → d.State → Type 0
Keeps d f s t = (q : String) → f.stat s q ≡ there → (f.stat t q ≡ there) × (d.read t q ≡ d.read s q)

-- A file that is created is there, and all that was there stays.
pub record IsLawful (d : Disk) (f : Folders d) : Type 0 where
  pub create_keeps :
      (s t : d.State) (p : String)
      → f.stat s p ≡ not_there
      → f.create p s ≡ (none, t)
      → (f.stat t p ≡ there) × Keeps d f s t
  pub make_keeps : (s t : d.State) (p : String) → f.make_directory p s ≡ (none, t) → Keeps d f s t

module _ (d : Disk) (f : Folders d) (fl : IsLawful d f) where
  Keeps-trans : (s t u : d.State) → Keeps d f s t → Keeps d f t u → Keeps d f s u
  Keeps-trans s t u a b q h = let (h₁, e₁) = a q h in let (h₂, e₂) = b q h₁ in (h₂, e₂ ∙ e₁)

  created-ok :
      (context : String) (r : Option String × d.State)
      → (created d f context r).0 ≡ ok tt
      → r ≡ (none, (created d f context r).1)
  created-ok context (none, s) h = refl
  created-ok context (some e, s) h = absurd (cc h)

  followed-ok :
      (p : Result (Unit {0}) × d.State) (g : d.State → Result (Unit {0}) × d.State)
      → (followed d f p g).0 ≡ ok tt
      → (p.0 ≡ ok tt) × (followed d f p g ≡ g p.1)
  followed-ok (ok tt, s) g h = (refl, refl)
  followed-ok (err e, s) g h = absurd (cc h)
  followed-ok (panic, s) g h = absurd (cc h)

  ensure-Keeps :
      (a b p : String) (s : d.State) (r : Stat)
      → f.stat s p ≡ r
      → (ensure d f a b p s).0 ≡ ok tt
      → (f.stat (ensure d f a b p s).1 p ≡ there) × Keeps d f s (ensure d f a b p s).1
  unfolding ensure
  ensure-Keeps a b p s there e h = rw (e, ensure) (e, λ q k. (k, refl))
  ensure-Keeps a b p s not_there e h =
      rw (e, ensure)
        (fl.create_keeps s (created d f a (f.create p s)).1 p e
          (created-ok a (f.create p s) (rw (e, ensure) at h)))
  ensure-Keeps a b p s (unknown z) e h = absurd (cc (rw (e, ensure) at h))

  -- With folders that obey their laws: where the function reports no error, the manifest and the
  -- configuration file of the broker are there, and every file that was there before is there
  -- with the same contents.
  pub create_broker_config_lem :
      (home : String) (s : d.State)
      → (create_broker_config d f home s).0 ≡ ok tt
      → let t = (create_broker_config d f home s).1 in
        (f.stat t (home <> "/manifest.yaml") ≡ there)
        × (f.stat t (home <> "/broker.conf") ≡ there)
        × Keeps d f s t
  unfolding create_broker_config
  create_broker_config_lem home s h =
      let made = created d f "broker dir creation" (f.make_directory home s) in
      let manifest =
        ensure d f "manifest file creation" "manifest file access" (home <> "/manifest.yaml") in
      let config =
        ensure d f "creating broker config" "broker config read" (home <> "/broker.conf") in
      let (m₀, e₁) = followed-ok made (λ s₁. followed d f (manifest s₁) config) h in
      let h₁ : (followed d f (manifest made.1) config).0 ≡ ok tt = sym (ap (λ r. r.0) e₁) ∙ h in
      let (m₁, e₂) = followed-ok (manifest made.1) config h₁ in
      let h₂ : (config (manifest made.1).1).0 ≡ ok tt = sym (ap (λ r. r.0) e₂) ∙ h₁ in
      let k₀ =
        fl.make_keeps s made.1 home
          (created-ok "broker dir creation" (f.make_directory home s) m₀) in
      let (p₁, k₁) =
        ensure-Keeps "manifest file creation" "manifest file access" (home <> "/manifest.yaml")
          made.1 (f.stat made.1 (home <> "/manifest.yaml")) refl m₁ in
      let (p₂, k₂) =
        ensure-Keeps "creating broker config" "broker config read" (home <> "/broker.conf")
          (manifest made.1).1 (f.stat (manifest made.1).1 (home <> "/broker.conf")) refl h₂ in
      let end = ap (λ r. r.1) (e₁ ∙ e₂) in
      rw end (
        (k₂ (home <> "/manifest.yaml") p₁).0,
        p₂,
        Keeps-trans s made.1 (config (manifest made.1).1).1 k₀
            (Keeps-trans made.1 (manifest made.1).1 (config (manifest made.1).1).1 k₁ k₂),
      )
