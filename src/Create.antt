-- ===== src/Create.antt =====
-- cmd/create: the steps that create components. The look-up of components by their names is not
-- here: `trigger_for` is `trigger` from where the target and the filters are known.
pub mod Arguments
pub mod Creation
pub mod Triggers
use tmctl.Base.{
  ℕ, suc, ◌+◌, String, Bool, true, false, ◌&&◌, Option, none, some, List, [], ◌∷◌, Result, ok, err,
  panic, wrap, ◌>>=◌, ◌<>◌, ◌==◌, if◌then◌else◌, String_eq, Dict, insert, delete, has_prefix,
}
use tmctl.Broker.Config.{Tools, Trigger, write_local_config, remove_from_local_config}
use tmctl.Broker.Trigger.{new_trigger, set_target, get_target_triggers, as_component, trigger_kind}
use tmctl.Component.{Component}
use tmctl.Disk.{Disk}
use tmctl.Kubernetes.{Object}
use tmctl.Kubernetes.Value.{Filter}
use tmctl.Manifest
use tmctl.Manifest.{Manifest, Yaml}

-- `o.Config.Context` and `o.Config.ConfigHome`
pub record Config : Type 0 where
  pub context : String
  pub config_home : String

-- `fmt.Sprintf("%s-%d", name, i)` uses the digits of the number, which `digits` gives.
unfoldable pub numbered : (ℕ → String) → String → ℕ → String
unfolding ◌<>◌
numbered digits name i = if name == "" then name else name <> "-" <> digits i

module _ (d : Disk) (y : Yaml d) (x : Tools d) (config : Config) where
  pub record World : Type 0 where
    pub manifest : Manifest
    pub disk : d.State

  -- `WriteLocalConfig` and `RemoveFromLocalConfig` in the world.
  unfoldable pub store_trigger : Trigger → World → Result (Unit {0}) × World
  store_trigger t w = let (r, s) = write_local_config d x t w.disk in (r, record w { disk = s })

  unfoldable pub unstore_trigger : Trigger → World → Result (Unit {0}) × World
  unstore_trigger t w =
      let (r, s) = remove_from_local_config d x t w.disk in (r, record w { disk = s })

  -- `o.Manifest.Add`, without what it says of changes.
  unfoldable pub add_component : Component → World → Result (Unit {0}) × World
  add_component c w =
      let a = Manifest.add d y c w.manifest w.disk in
      (a.outcome, record { manifest = a.manifest; disk = a.disk })

  unfoldable pub remove_component : String → String → World → Result (Unit {0}) × World
  remove_component name kind w =
      let r = Manifest.remove d y name kind w.manifest w.disk in
      (r.outcome, record { manifest = r.manifest; disk = r.disk })

  -- A second step where the first one has no error.
  abbrev pub then_do :
      Result (Unit {0}) × World → (World → Result (Unit {0}) × World) → Result (Unit {0}) × World
  then_do (ok u, w) f = f w
  then_do (err e, w) f = (err e, w)
  then_do (panic, w) f = (panic, w)

  unfoldable pub create_trigger :
      String → Component → Option Filter → World → Result (Unit {0}) × World
  create_trigger name target filter w =
      elim (new_trigger d x name config.context config.config_home (some target) filter) [
        | ok t ↦ then_do (store_trigger t w) (add_component (as_component t))
        | err e ↦ (err e, w)
        | panic ↦ (panic, w)
      ]

  -- The loop of `updateTriggers`.
  unfoldable pub update_each : Component → List Trigger → World → Result (Unit {0}) × World
  update_each target [] w = (ok tt, w)
  update_each target (t ∷ ts) w =
      let (r, w') = store_trigger (set_target d x target t) w in
      then_do (wrap "broker config update" r, w') (update_each target ts)

  unfoldable pub update_triggers : Component → World → Result (Unit {0}) × World
  update_triggers target w =
      elim (get_target_triggers d x w.disk target.name config.context config.config_home) [
        | ok ts ↦ update_each target ts w
        | err e ↦ (err ("target triggers: " <> e), w)
        | panic ↦ (panic, w)
      ]

  -- A trigger that cannot be made is skipped.
  unfoldable pub list_triggers : String → List Object → Dict Trigger → Result (Dict Trigger)
  list_triggers prefix [] result = ok result
  list_triggers prefix (o ∷ os) result =
      if o.kind == trigger_kind && has_prefix o.metadata.name prefix
      then elim (new_trigger d x o.metadata.name config.context config.config_home none none) [
        | ok t ↦ list_triggers prefix os (insert o.metadata.name t result)
        | err e ↦ list_triggers prefix os result
        | panic ↦ panic
      ]
      else list_triggers prefix os result

  -- The loop of `trigger` over the filters from the i-th, with the old triggers that are not renewed.
  unfoldable pub create_each :
      (ℕ → String)
      → String
      → Component
      → ℕ
      → List Filter
      → Dict Trigger
      → World
      → Result (Dict Trigger) × World
  create_each digits name target i [] old w = (ok old, w)
  create_each digits name target i (f ∷ fs) old w =
      let new = numbered digits name i in
      let (r, w') = create_trigger new target (some f) w in
      let rest = create_each digits name target (i + 1) fs (delete new old) w' in
      elim r [ ok u ↦ rest | err e ↦ (err e, w') | panic ↦ (panic, w') ]

  unfoldable pub remove_old : Dict Trigger → World → Result (Unit {0}) × World
  remove_old [] w = (ok tt, w)
  remove_old ((name, t) ∷ old) w =
      then_do (unstore_trigger t w)
        (λ w'. then_do (remove_component t.name trigger_kind w') (remove_old old))

  abbrev pub renewed : Result (Dict Trigger) × World → Result (Unit {0}) × World
  renewed (ok old, w) = remove_old old w
  renewed (err e, w) = (err e, w)
  renewed (panic, w) = (panic, w)

  abbrev pub unfiltered : String → Component → List Filter → World → Result (Unit {0}) × World
  unfiltered name target [] w = create_trigger name target none w
  unfiltered name target (f ∷ fs) w = (ok tt, w)

  unfoldable pub trigger_for :
      (ℕ → String) → String → Component → List Filter → World → Result (Unit {0}) × World
  trigger_for digits name target filters w = then_do (unfiltered name target filters w) (λ w'.
      elim (list_triggers (name <> "-") w'.manifest.objects []) [
        | ok old ↦ renewed (create_each digits name target 1 filters old w')
        | err e ↦ (err e, w')
        | panic ↦ (panic, w')
      ])
