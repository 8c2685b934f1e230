-- ===== src/Delete/Cleanup.antt =====
-- `cleanupTriggers` of cmd/delete/cmd.go: it does not panic, and takes no object but triggers.
use tmctl.Base.{
  String, Bool, true, false, not, any, keep, List, [], ◌∷◌, Result, ok, err, panic, ◌==◌, String_eq,
  ◌≡◌, ◌≢◌, ◌⊎◌, refl, ap, ◌∙◌, arith, inl, inr, keep-keep_of_implies, any-keep,
}
use tmctl.Broker.Config.{Tools, Trigger, Configuration, entries, read_broker_config, config_file}
use tmctl.Broker.Trigger.{trigger_kind, get_target_triggers}
use tmctl.Broker.Trigger.Lookup.{Named, select_triggers_lem}
use tmctl.Disk.{Disk, Read, found, missing, failed}
use tmctl.Kubernetes.{Object}
use tmctl.Manifest
use tmctl.Manifest.{Manifest, Yaml, named}
use tmctl.Settings.{Config}
use tmctl.Delete.{
  Outside, World, objects, drop_trigger, clean_trigger, clean_triggers, cleanup_triggers,
}

-- The configuration files that can be read name their triggers, and reading one does not panic.
pub record WellNamed (d : Disk) (x : Tools d) : Type 0 where
  pub named : (b : d.Bytes) (c : Configuration) → x.unmarshal b ≡ ok c → Named (entries c.triggers)
  pub returns : (b : d.Bytes) → x.unmarshal b ≢ panic

module _ (d : Disk) (y : Yaml d) (x : Tools d) (out : Outside) where
  objects-clean_trigger :
      (t : Trigger) (w : World d y x out)
      → (objects d y x out (clean_trigger d y x out t w) ≡ objects d y x out w)
        ⊎ (objects d y x out (clean_trigger d y x out t w)
            ≡ keep (λ o. not (named t.name trigger_kind o)) (objects d y x out w))
  unfolding clean_trigger Manifest.remove
  objects-clean_trigger t w = by_outcome (drop_trigger d y x out t w).0 refl
    where
      by_outcome :
          (r : Result (Unit {0}))
          → (drop_trigger d y x out t w).0 ≡ r
          → (objects d y x out (clean_trigger d y x out t w) ≡ objects d y x out w)
            ⊎ (objects d y x out (clean_trigger d y x out t w)
                ≡ keep (λ o. not (named t.name trigger_kind o)) (objects d y x out w))
      by_outcome (ok u) e = inr (rw (e, clean_trigger) refl)
      by_outcome (err z) e = inl (rw (e, clean_trigger) refl)
      by_outcome panic e = inl (rw (e, clean_trigger) refl)

  -- A test that triggers fail is not touched by the removal of triggers.
  pub keep-clean_triggers :
      (p : Object → Bool)
      → ((o : Object) → p o ≡ true → (o.kind == trigger_kind) ≡ false)
      → (ts : List Trigger) (w : World d y x out)
      → keep p (objects d y x out (clean_triggers d y x out ts w)) ≡ keep p (objects d y x out w)
  unfolding clean_triggers
  keep-clean_triggers p skip [] w = refl
  keep-clean_triggers p skip (t ∷ ts) w =
      keep-clean_triggers p skip ts (clean_trigger d y x out t w)
      ∙ elim (objects-clean_trigger t w) [
        | inl e ↦ ap (keep p) e
        | inr e ↦
            ap (keep p) e
            ∙ keep-keep_of_implies p (λ o. not (named t.name trigger_kind o))
                (λ o h. ground (arith, skip o)) (objects d y x out w)
      ]

  pub any-clean_triggers :
      (p : Object → Bool) (ts : List Trigger) (w : World d y x out)
      → any p (objects d y x out w) ≡ false
      → any p (objects d y x out (clean_triggers d y x out ts w)) ≡ false
  unfolding clean_triggers
  any-clean_triggers p [] w h = h
  any-clean_triggers p (t ∷ ts) w h =
      any-clean_triggers p ts (clean_trigger d y x out t w) (elim (objects-clean_trigger t w) [
        | inl e ↦ ap (any p) e ∙ h
        | inr e ↦
            ap (any p) e
            ∙ any-keep p (λ o. not (named t.name trigger_kind o)) (objects d y x out w) h
      ])

  read-Named :
      (s : d.State) (path : String) (c : Configuration) (r : Read d.Bytes)
      → d.read s path ≡ r
      → WellNamed d x
      → read_broker_config d x s path ≡ ok c
      → Named (entries c.triggers)
  unfolding read_broker_config
  read-Named s path c (found b) e fine h = fine.named b c (rw (e, read_broker_config) at h)
  read-Named s path c missing e fine h = absurd (cc (rw (e, read_broker_config) at h))
  read-Named s path c (failed z) e fine h = absurd (cc (rw (e, read_broker_config) at h))

  read-ne-panic :
      (s : d.State) (path : String) (r : Read d.Bytes)
      → d.read s path ≡ r
      → WellNamed d x
      → read_broker_config d x s path ≢ panic
  unfolding read_broker_config
  read-ne-panic s path (found b) e fine h = fine.returns b (rw (e, read_broker_config) at h)
  read-ne-panic s path missing e fine h = cc (rw (e, read_broker_config) at h)
  read-ne-panic s path (failed z) e fine h = cc (rw (e, read_broker_config) at h)

  get_target_triggers-ne-panic :
      (s : d.State) (name broker base : String) (r : Result Configuration)
      → read_broker_config d x s (config_file base broker) ≡ r
      → WellNamed d x
      → get_target_triggers d x s name broker base ≢ panic
  unfolding get_target_triggers
  get_target_triggers-ne-panic s name broker base (ok c) e fine h = ground (
    arith,
    (rw (e, get_target_triggers) at h),
    select_triggers_lem d x s name broker base (entries c.triggers)
        (read-Named s (config_file base broker) c (d.read s (config_file base broker)) refl fine e),
  )
  get_target_triggers-ne-panic s name broker base (err z) e fine h =
      cc (rw (e, get_target_triggers) at h)
  get_target_triggers-ne-panic s name broker base panic e fine h =
      read-ne-panic s (config_file base broker) (d.read s (config_file base broker)) refl fine e

  pub cleanup_triggers_lem :
      (config : Config) (name : String) (w : World d y x out) (r : Result (List Trigger))
      → get_target_triggers d x w.disk name config.context config.config_home ≡ r
      → WellNamed d x
      → (ts : List Trigger) × (cleanup_triggers d y x out config name w
          ≡ ok (clean_triggers d y x out ts w))
  unfolding cleanup_triggers
  cleanup_triggers_lem config name w (ok ts) e fine = (ts, rw (e, cleanup_triggers))
  cleanup_triggers_lem config name w (err z) e fine =
      ([], rw (e, cleanup_triggers) (unfold clean_triggers in refl))
  cleanup_triggers_lem config name w panic e fine = absurd (
      get_target_triggers-ne-panic w.disk name config.context config.config_home
        (read_broker_config d x w.disk (config_file config.config_home config.context)) refl fine e)
