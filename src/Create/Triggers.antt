-- ===== src/Create/Triggers.antt =====
-- `listTriggers` of cmd/create/trigger.go: the triggers that an earlier `create trigger` has made.
use tmctl.Base.{
  String, Bool, true, false, ◌&&◌, not, any, keep, keep-keep, keep_ext, keep_all, Option, none,
  some, List, [], ◌∷◌, Result, ok, err, panic, ◌==◌, if◌then◌else◌, String_eq, Dict, lookup, insert,
  lookup-insert, has_prefix, ◌≡◌, refl, sym, ap, ◌∙◌, arith, eq_iff, Bool-cases, inl, inr,
}
use tmctl.Broker.Config.{Tools, Trigger}
use tmctl.Broker.Trigger.{trigger_kind}
use tmctl.Broker.Trigger.Lookup.{bare, new_trigger-bare}
use tmctl.Create.{
  Config, World, list_triggers, then_do, unstore_trigger, remove_component, remove_old,
}
use tmctl.Disk.{Disk}
use tmctl.Kubernetes.{Object}
use tmctl.Manifest
use tmctl.Manifest.{Yaml, named}

-- Whether an object is a trigger whose name has the prefix.
abbrev pub is_old : String → Object → Bool
is_old prefix o = o.kind == trigger_kind && has_prefix o.metadata.name prefix

abbrev pub is_old_named : String → String → Object → Bool
is_old_named prefix name o = is_old prefix o && o.metadata.name == name

unnamed-has_prefix :
    (name prefix : String)
    → (prefix == "") ≡ false
    → has_prefix name prefix ≡ true
    → (name == "") ≡ false
unfolding has_prefix
unnamed-has_prefix String.[] String.[] h p = h
unnamed-has_prefix String.[] (String.◌∷◌ c s) h p = absurd (cc p)
unnamed-has_prefix (String.◌∷◌ c s) prefix h p = elim (Bool-cases (String.◌∷◌ c s == "")) [
  | inl e ↦ absurd (cc ((eq_iff (String.◌∷◌ c s) "").0 e))
  | inr e ↦ e
]

module _ (d : Disk) (y : Yaml d) (x : Tools d) (config : Config) where
  abbrev fresh : String → Trigger
  fresh name = bare name config.context config.config_home

  abbrev looked : String → List Object → Dict Trigger → String → Option Trigger
  looked prefix os result name =
      if any (is_old_named prefix name) os then some (fresh name) else lookup name result

  list_triggers-result :
      (prefix : String) (os : List Object) (result : Dict Trigger)
      → (prefix == "") ≡ false
      → (m : Dict Trigger) × (list_triggers d y x config prefix os result ≡ ok m)
        × ((name : String) → lookup name m ≡ looked prefix os result name)
  unfolding list_triggers
  list_triggers-result prefix [] result h = (result, refl, λ name. refl)
  list_triggers-result prefix (o ∷ os) result h = elim (Bool-cases (is_old prefix o)) [
    | inl e ↦
        let n = o.metadata.name in
        let (m, r, l) = list_triggers-result prefix os (insert n (fresh n) result) h in
        let named = unnamed-has_prefix n prefix h (ground arith) in
        (
          m,
          rw e (rw (new_trigger-bare d x n config.context config.config_home named) r),
          λ name. l name ∙ ground (arith, lookup-insert n name (fresh n) result, eq_iff n name),
        )
    | inr e ↦
        let (m, r, l) = list_triggers-result prefix os result h in
        (m, rw e r, λ name. l name ∙ ground arith)
  ]

  -- `listTriggers` finds exactly the triggers of the manifest whose names have the prefix, each with
  -- its name, the broker of the settings and nothing else, and does not panic, if the prefix is not
  -- empty.
  pub list_triggers_lem :
      (prefix : String) (os : List Object)
      → (prefix == "") ≡ false
      → (m : Dict Trigger) × (list_triggers d y x config prefix os [] ≡ ok m)
        × ((name : String)
            → lookup name m ≡ (
                if any (is_old_named prefix name) os
                then some (bare name config.context config.config_home)
                else none))
  unfolding lookup
  list_triggers_lem prefix os h = list_triggers-result prefix os [] h

  pub then_do-ok :
      (p : Result (Unit {0}) × World d y x config)
      (f : World d y x config → Result (Unit {0}) × World d y x config)
      → (then_do d y x config p f).0 ≡ ok tt
      → then_do d y x config p f ≡ f p.1
  then_do-ok (ok tt, w) f h = refl
  then_do-ok (err e, w) f h = absurd (cc h)
  then_do-ok (panic, w) f h = absurd (cc h)

  objects-unstore :
      (t : Trigger) (w : World d y x config)
      → (unstore_trigger d y x config t w).1.manifest.objects ≡ w.manifest.objects
  unfolding unstore_trigger
  objects-unstore t w = refl

  objects-remove_component :
      (name kind : String) (w : World d y x config)
      → (remove_component d y x config name kind w).1.manifest.objects
        ≡ keep (λ o. not (named name kind o)) w.manifest.objects
  unfolding remove_component Manifest.remove
  objects-remove_component name kind w = refl

  -- Where the old triggers are removed without an error, the manifest loses the triggers that have
  -- their names and nothing else.
  pub remove_old_lem :
      (old : Dict Trigger) (w : World d y x config)
      → (remove_old d y x config old w).0 ≡ ok tt
      → (remove_old d y x config old w).1.manifest.objects
        ≡ keep (λ o. not (any (λ e. named e.1.name trigger_kind o) old)) w.manifest.objects
  unfolding remove_old
  remove_old_lem [] w h = sym (keep_all _ (λ o. refl) w.manifest.objects)
  remove_old_lem ((name, t) ∷ old) w h =
      let first = unstore_trigger d y x config t w in
      let second = remove_component d y x config t.name trigger_kind first.1 in
      let e₁ =
        then_do-ok first
          (λ w'.
            then_do d y x config (remove_component d y x config t.name trigger_kind w')
              (remove_old d y x config old))
          h in
      let h₁ : (then_do d y x config second (remove_old d y x config old)).0 ≡ ok tt =
        sym (ap (λ r. r.0) e₁) ∙ h in
      let e₂ = then_do-ok second (remove_old d y x config old) h₁ in
      let h₂ : (remove_old d y x config old second.1).0 ≡ ok tt = sym (ap (λ r. r.0) e₂) ∙ h₁ in
      ap (λ r. r.1.manifest.objects) (e₁ ∙ e₂)
      ∙ remove_old_lem old second.1 h₂
      ∙ ap (keep _)
          (objects-remove_component t.name trigger_kind first.1 ∙ ap (keep _) (objects-unstore t w))
      ∙ keep-keep _ _ w.manifest.objects
      ∙ keep_ext
          (λ o.
            not (named t.name trigger_kind o) && not (any (λ e. named e.1.name trigger_kind o) old))
          (λ o. not (any (λ e. named e.1.name trigger_kind o) ((name, t) ∷ old)))
          (λ o. ground arith) w.manifest.objects
