-- ===== src/Settings/Keys/Written.antt =====
-- What `Set` of pkg/config/config.go writes, `Get` reads, and no other setting changes.
use tmctl.Base.{
  String, Bool, true, false, any, All, List, [], ◌∷◌, Result, ok, err, panic, ◌==◌, if◌then◌else◌,
  String_eq, ◌≡◌, refl, sym, ap, ◌∙◌, eq_iff, eq_refl, Bool-cases, inl, inr,
}
use tmctl.Disk.{Disk, Read, found, missing, failed, IsLawful as IsLawfulDisk}
use tmctl.Settings.{Config, Host, blank, config_path, save}
use tmctl.Settings.Keys.{tag_is, value_at, with_value, load_default_config, get, set}
use tmctl.Settings.Reload.{IsLawful, written_bytes}

-- The keys of the texts that are in no pointer.
abbrev pub text_keys : List String
text_keys =
    "context" ∷ "schemaRegistry" ∷ "triggermesh.version" ∷ "triggermesh.broker.image"
    ∷ "triggermesh.broker.version" ∷ "triggermesh.broker.config-polling-period" ∷ "docker.timeout"
    ∷ []

abbrev pub is_text_key : String → Bool
is_text_key k = any (λ j. j == k) text_keys

-- Setting `k` succeeds with `c'`: it reads as the value, the other keys as before.
abbrev Sets : String → Config → String → Type 0
Sets value c k =
    (c' : Config) × (with_value k value c ≡ ok c')
    × (c'.config_home ≡ c.config_home)
    × All (λ j. value_at j c' ≡ (if k == j then value else value_at j c)) text_keys

with_value-Sets : (value : String) (c : Config) → All (Sets value c) text_keys
unfolding with_value value_at tag_is
with_value-Sets value c = (
  (_, refl, refl, (refl, (refl, (refl, (refl, (refl, (refl, (refl, tt)))))))),
  (
    (_, refl, refl, (refl, (refl, (refl, (refl, (refl, (refl, (refl, tt)))))))),
    (
      (_, refl, refl, (refl, (refl, (refl, (refl, (refl, (refl, (refl, tt)))))))),
      (
        (_, refl, refl, (refl, (refl, (refl, (refl, (refl, (refl, (refl, tt)))))))),
        (
          (_, refl, refl, (refl, (refl, (refl, (refl, (refl, (refl, (refl, tt)))))))),
          (
            (_, refl, refl, (refl, (refl, (refl, (refl, (refl, (refl, (refl, tt)))))))),
            ((_, refl, refl, (refl, (refl, (refl, (refl, (refl, (refl, (refl, tt)))))))), tt),
          ),
        ),
      ),
    ),
  ),
)

at_listed {ℓ} :
    (P : String → Type ℓ) (ks : List String) (k : String)
    → All P ks
    → any (λ j. j == k) ks ≡ true
    → P k
at_listed P [] k a h = absurd (cc h)
at_listed P (j ∷ ks) k (p, a) h = elim (Bool-cases (j == k)) [
  | inl e ↦ rw⁻¹ ((eq_iff j k).0 e) p
  | inr e ↦ at_listed P ks k a (rw e at h)
]

ok-if : (b : Bool) (v w : String) → ok (if b then v else w) ≡ (if b then ok v else ok w)
ok-if true v w = refl
ok-if false v w = refl

module _ (d : Disk) (dl : IsLawfulDisk d) (host : Host d) (hl : IsLawful d host) where
  home-loaded :
      (s : d.State) (c : Config) (r : Read d.Bytes)
      → d.read s (config_path host.home) ≡ r
      → load_default_config d host s ≡ ok c
      → c.config_home ≡ host.home
  unfolding load_default_config
  home-loaded s c (found b) e h = hl.home-unmarshal c b host.home (rw (e, load_default_config) at h)
  home-loaded s c missing e h = absurd (cc (rw (e, load_default_config) at h))
  home-loaded s c (failed z) e h = absurd (cc (rw (e, load_default_config) at h))

  get-save :
      (c : Config) (s : d.State) (k : String)
      → c.config_home ≡ host.home
      → (save d host c s).0 ≡ ok tt
      → get d host k (save d host c s).1 ≡ ok (value_at k c)
  unfolding get load_default_config
  get-save c s k e h =
      let (b, m, w) = written_bytes d dl host hl c s (host.marshal c) refl h in
      let t = (save d host c s).1 in
      let r : d.read t (config_path c.config_home) ≡ found b =
        dl.read-write s t (config_path c.config_home) (config_path c.config_home) b w
        ∙ rw (eq_refl (config_path c.config_home)) refl in
      let r' : d.read t (config_path host.home) ≡ found b =
        ap (λ p. d.read t (config_path p)) (sym e) ∙ r in
      let u : host.unmarshal b (blank host.home) ≡ ok c =
        ap (λ p. host.unmarshal b (blank p)) (sym e) ∙ hl.unmarshal-marshal c b m in
      rw (r', get, load_default_config) (rw u refl)

  set_loaded :
      (k value : String) (s : d.State) (c c' : Config)
      → load_default_config d host s ≡ ok c
      → with_value k value c ≡ ok c'
      → set d host k value s ≡ save d host c' s
  unfolding set
  set_loaded k value s c c' e w = rw (e, set) (rw w refl)

  get_loaded :
      (j : String) (s : d.State) (c : Config)
      → load_default_config d host s ≡ ok c
      → get d host j s ≡ ok (value_at j c)
  unfolding get
  get_loaded j s c e = rw (e, get) refl

  get-set_loaded :
      (k value j : String) (s : d.State) (r : Result Config)
      → load_default_config d host s ≡ r
      → is_text_key k ≡ true
      → is_text_key j ≡ true
      → (set d host k value s).0 ≡ ok tt
      → get d host j (set d host k value s).1 ≡ (if k == j then ok value else get d host j s)
  unfolding get set
  get-set_loaded k value j s (ok c) e hk hj h =
      let (c', w, e', a) = at_listed (Sets value c) text_keys k (with_value-Sets value c) hk in
      let at_j =
        at_listed (λ i. value_at i c' ≡ (if k == i then value else value_at i c)) text_keys j a
          hj in
      let home = e' ∙ home-loaded s c (d.read s (config_path host.home)) refl e in
      let saves = set_loaded k value s c c' e w in
      rw (saves, get_loaded j s c e)
        (get-save c' s j home (ap (λ r. r.0) (sym saves) ∙ h)
          ∙ ap ok at_j
          ∙ ok-if (k == j) value (value_at j c))
  get-set_loaded k value j s (err z) e hk hj h = absurd (cc (rw (e, set) at h))
  get-set_loaded k value j s panic e hk hj h = absurd (cc (rw (e, set) at h))

  -- With files and YAML that obey their laws: when setting a text that is in no pointer has
  -- succeeded, reading that key gives the value that was set, and reading another such key gives
  -- what it gave before.
  pub get-set :
      (k value j : String) (s : d.State)
      → is_text_key k ≡ true
      → is_text_key j ≡ true
      → (set d host k value s).0 ≡ ok tt
      → get d host j (set d host k value s).1 ≡ (if k == j then ok value else get d host j s)
  get-set k value j s hk hj h =
      get-set_loaded k value j s (load_default_config d host s) refl hk hj h
