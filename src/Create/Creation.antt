-- ===== src/Create/Creation.antt =====
-- `createTrigger` of cmd/create/target.go: a trigger is in the manifest and in the broker's file.
use tmctl.Base.{
  String, false, Option, some, ◌≡◌, refl, sym, ap, ◌∙◌, Result, ok, err, panic, ◌==◌, String_eq,
  Dict, insert,
}
use tmctl.Broker.Config.{Tools, Trigger, LocalTriggerSpec, read_broker_config, config_file}
use tmctl.Broker.Config.Entries.{
  IsLawful as IsLawfulTools, stored, entry_of, write_local_config-insert,
}
use tmctl.Broker.Trigger.{new_trigger, as_component, as_k8s_object}
use tmctl.Component.{Component}
use tmctl.Create.{Config, World, create_trigger, store_trigger, add_component, then_do}
use tmctl.Create.Triggers.{then_do-ok}
use tmctl.Disk.{Disk, IsLawful as IsLawfulDisk}
use tmctl.Kubernetes.{Object}
use tmctl.Kubernetes.Value.{Filter, KReference}
use tmctl.Manifest.{Yaml}
use tmctl.Manifest.Keys.{upserted, add-upsert}
use tmctl.Manifest.Persist.{IsLawful}
use tmctl.Manifest.Persist.Elsewhere.{read-add}

module _ (d : Disk) (dl : IsLawfulDisk d) (y : Yaml d) (yl : IsLawful d y) (x : Tools d)
    (xl : IsLawfulTools d x) (config : Config) where
  stored-read :
      (s t : d.State) (path : String)
      → d.read s path ≡ d.read t path
      → stored d x s path ≡ stored d x t path
  unfolding read_broker_config
  stored-read s t path e = rw (e, read_broker_config) refl

  create_trigger-steps :
      (name : String) (target : Component) (filter : Option Filter) (t : Trigger)
      (w : World d y x config)
      → new_trigger d x name config.context config.config_home (some target) filter ≡ ok t
      → create_trigger d y x config name target filter w
        ≡ then_do d y x config
            (store_trigger d y x config t w)
            (add_component d y x config (as_component t))
  unfolding create_trigger
  create_trigger-steps name target filter t w e = rw (e, create_trigger) refl

  then_do-first :
      (p : Result (Unit {0}) × World d y x config)
      (f : World d y x config → Result (Unit {0}) × World d y x config)
      → (then_do d y x config p f).0 ≡ ok tt
      → p.0 ≡ ok tt
  then_do-first (ok tt, w) f h = refl
  then_do-first (err e, w) f h = absurd (cc h)
  then_do-first (panic, w) f h = absurd (cc h)

  objects-add_component :
      (c : Component) (w : World d y x config)
      → (add_component d y x config c w).1.manifest.objects
        ≡ upserted c.as_k8s_object w.manifest.objects
  unfolding add_component
  objects-add_component c w = add-upsert d y c w.manifest w.disk

  read-add_component :
      (c : Component) (o : Object) (w : World d y x config) (q : String)
      → c.as_k8s_object ≡ ok o
      → (w.manifest.path == q) ≡ false
      → (add_component d y x config c w).0 ≡ ok tt
      → d.read (add_component d y x config c w).1.disk q ≡ d.read w.disk q
  unfolding add_component
  read-add_component c o w q e apart h = read-add d dl y yl c o w.manifest w.disk q e apart h

  manifest-store_trigger :
      (t : Trigger) (w : World d y x config)
      → (store_trigger d y x config t w).1.manifest ≡ w.manifest
  unfolding store_trigger
  manifest-store_trigger t w = refl

  stored-store_trigger :
      (t : Trigger) (ref : KReference) (m : Dict LocalTriggerSpec) (w : World d y x config)
      → t.target ≡ some ref
      → stored d x w.disk (config_file t.config_base t.broker.name) ≡ ok m
      → (store_trigger d y x config t w).0 ≡ ok tt
      → stored d x (store_trigger d y x config t w).1.disk (config_file t.config_base t.broker.name)
        ≡ ok (insert t.name (entry_of t ref) m)
  unfolding store_trigger
  stored-store_trigger t ref m w e before h =
      write_local_config-insert d dl x xl t ref w.disk m e before h

  object-as_component : (t : Trigger) → (as_component t).as_k8s_object ≡ ok (as_k8s_object t)
  unfolding as_component
  object-as_component t = refl

  -- With files and YAML that obey their laws: when a trigger with a target has been created
  -- without an error, the manifest is the old one with the trigger's object added, and the
  -- broker's file, which is not the manifest's, has the old entries with the trigger's.
  pub create_trigger_lem :
      (name : String) (target : Component) (filter : Option Filter) (t : Trigger) (ref : KReference)
      (m : Dict LocalTriggerSpec) (w : World d y x config)
      → new_trigger d x name config.context config.config_home (some target) filter ≡ ok t
      → t.target ≡ some ref
      → stored d x w.disk (config_file t.config_base t.broker.name) ≡ ok m
      → (w.manifest.path == config_file t.config_base t.broker.name) ≡ false
      → (create_trigger d y x config name target filter w).0 ≡ ok tt
      → let w' = (create_trigger d y x config name target filter w).1 in
        (w'.manifest.objects ≡ upserted (ok (as_k8s_object t)) w.manifest.objects)
        × (stored d x w'.disk (config_file t.config_base t.broker.name)
            ≡ ok (insert t.name (entry_of t ref) m))
  create_trigger_lem name target filter t ref m w e target_is before apart h =
      let c = as_component t in
      let place = config_file t.config_base t.broker.name in
      let first = store_trigger d y x config t w in
      let steps = create_trigger-steps name target filter t w e in
      let h₁ = sym (ap (λ r. r.0) steps) ∙ h in
      let same = steps ∙ then_do-ok d y x config first (add_component d y x config c) h₁ in
      let h₂ : (add_component d y x config c first.1).0 ≡ ok tt = sym (ap (λ r. r.0) same) ∙ h in
      let kept = manifest-store_trigger t w in
      let apart₁ : (first.1.manifest.path == place) ≡ false =
        ap (λ n. n.path == place) kept ∙ apart in
      (
        ap (λ r. r.1.manifest.objects) same
            ∙ objects-add_component c first.1
            ∙ (λ i. upserted (object-as_component t i) (kept i).objects),
        ap (λ r. stored d x r.1.disk place) same
            ∙ stored-read (add_component d y x config c first.1).1.disk first.1.disk place (
                read-add_component c (as_k8s_object t) first.1 place (object-as_component t) apart₁
                  h₂)
            ∙ stored-store_trigger t ref m w target_is before
                (then_do-first first (add_component d y x config c) h₁),
      )
