-- ===== src/Delete/Objects.antt =====
-- What the loops of cmd/delete/cmd.go leave in the manifest.
use tmctl.Base.{
  String, Bool, true, false, ◌&&◌, not, any, keep, All, List, [], ◌∷◌, ok, ◌<>◌, ◌==◌, String_eq,
  ◌≡◌, refl, sym, ◌∙◌, arith, eq_iff, eq_refl, keep-keep, keep_cong, keep_ext, keep_all, Bool-cases,
  inl, inr,
}
use tmctl.Broker.Config.{Tools, Trigger}
use tmctl.Broker.Trigger.Lookup.{bare, new_trigger-bare}
use tmctl.Broker.Trigger.{trigger_kind}
use tmctl.Disk.{Disk}
use tmctl.Kubernetes.{Object}
use tmctl.Manifest
use tmctl.Manifest.{Manifest, Yaml, named}
use tmctl.Settings.{Config}
use tmctl.Delete.{
  Outside, World, objects, drop_object, drop_trigger, remove_one, remove_objects, remove_object,
  is_secret_of, clean_secrets, cleanup_secrets,
}

-- Whether an object of this name and of the kind of `o` is in the list.
abbrev twin : String → Object → Object → Bool
twin name o p = name == p.metadata.name && p.kind == o.kind

abbrev doomed : String → List Object → Object → Bool
doomed name os o = name == o.metadata.name && any (twin name o) os

module _ (d : Disk) (y : Yaml d) (x : Tools d) (out : Outside) where
  pub objects-drop_object :
      (name kind : String) (w : World d y x out)
      → objects d y x out (drop_object d y x out name kind w)
        ≡ keep (λ o. not (named name kind o)) (objects d y x out w)
  unfolding drop_object Manifest.remove
  objects-drop_object name kind w = refl

  pub objects-drop_trigger :
      (t : Trigger) (w : World d y x out)
      → objects d y x out (drop_trigger d y x out t w).1 ≡ objects d y x out w
  unfolding drop_trigger
  objects-drop_trigger t w = refl

  remove_one_lem :
      (config : Config) (o : Object) (w : World d y x out)
      → (o.metadata.name == "") ≡ false
      → (w' : World d y x out) × (remove_one d y x out config o w ≡ ok w')
        × (objects d y x out w'
            ≡ keep (λ p. not (named o.metadata.name o.kind p)) (objects d y x out w))
  unfolding remove_one
  remove_one_lem config o w h = elim (Bool-cases (o.kind == trigger_kind)) [
    | inl e ↦
        let t = bare o.metadata.name config.context config.config_home in
        (
          drop_object d y x out o.metadata.name o.kind (drop_trigger d y x out t w).1,
          rw e (rw (new_trigger-bare d x o.metadata.name config.context config.config_home h)),
          objects-drop_object o.metadata.name o.kind (drop_trigger d y x out t w).1,
        )
    | inr e ↦ (
      drop_object d y x out o.metadata.name o.kind w,
      rw e,
      objects-drop_object o.metadata.name o.kind w,
    )
  ]

  -- One more round of the loop takes the objects with the kind of `p` too.
  doomed-cons :
      (name : String) (p : Object) (os : List Object)
      → (name == p.metadata.name) ≡ true
      → (o : Object)
      → (not (named p.metadata.name p.kind o) && not (doomed name os o))
        ≡ not (doomed name (p ∷ os) o)
  doomed-cons name p os h o = ground (
    arith,
    eq_iff name p.metadata.name,
    eq_iff name o.metadata.name,
    eq_iff o.metadata.name p.metadata.name,
    eq_iff o.kind p.kind,
    eq_iff p.kind o.kind,
  )

  remove_objects_lem :
      (config : Config) (name : String) (os : List Object) (w : World d y x out)
      → (name == "") ≡ false
      → (w' : World d y x out) × (remove_objects d y x out config name os w ≡ ok w')
        × (objects d y x out w' ≡ keep (λ o. not (doomed name os o)) (objects d y x out w))
  unfolding remove_objects
  remove_objects_lem config name [] w h =
      (w, refl, sym (keep_all _ (λ o. ground arith) (objects d y x out w)))
  remove_objects_lem config name (p ∷ os) w h = elim (Bool-cases (name == p.metadata.name)) [
    | inl e ↦
        let (w₁, r₁, k₁) =
          remove_one_lem config p w (ground (arith, eq_iff name p.metadata.name)) in
        let (w₂, r₂, k₂) = remove_objects_lem config name os w₁ h in
        (
          w₂,
          rw e (rw r₁ r₂),
          k₂
              ∙ rw k₁ (
                  keep-keep _ _ (objects d y x out w)
                  ∙ keep_ext _ _ (doomed-cons name p os e) (objects d y x out w)),
        )
    | inr e ↦
        let (w₂, r₂, k₂) = remove_objects_lem config name os w h in
        (w₂, rw e r₂, k₂ ∙ keep_ext _ _ (λ o. ground arith) (objects d y x out w))
  ]

  -- Each object of the list that has the name is doomed.
  All-doomed :
      (name : String) (os whole : List Object)
      → ((o : Object) → any (twin name o) os ≡ true → any (twin name o) whole ≡ true)
      → All (λ o. not (doomed name whole o) ≡ not (name == o.metadata.name)) os
  All-doomed name [] whole sub = tt
  All-doomed name (o ∷ os) whole sub = (
    ground (arith, sub o, eq_refl o.kind),
    All-doomed name os whole (λ p h. sub p (ground arith)),
  )

  -- `removeObject` leaves exactly the objects with another name, also where the files cannot be
  -- written, and does not panic, if the name is not empty.
  pub remove_object_lem :
      (config : Config) (name : String) (w : World d y x out)
      → (name == "") ≡ false
      → (w' : World d y x out) × (remove_object d y x out config name w ≡ ok w')
        × (objects d y x out w' ≡ keep (λ o. not (name == o.metadata.name)) (objects d y x out w))
  unfolding remove_object
  remove_object_lem config name w h =
      let os = objects d y x out w in
      let (w', r, k) = remove_objects_lem config name os w h in
      (w', r, k ∙ keep_cong _ _ os (All-doomed name os os (λ o h. h)))

  drop_secret :
      (name : String) (p : Object) (w : World d y x out)
      → is_secret_of name p ≡ true
      → objects d y x out (drop_object d y x out p.metadata.name p.kind w)
        ≡ keep (λ o. not (is_secret_of name o)) (objects d y x out w)
  drop_secret name p w h =
      objects-drop_object p.metadata.name p.kind w
      ∙ keep_ext _ _
          (λ o. ground (
            arith,
            eq_iff p.metadata.name (name <> "-secret"),
            eq_iff p.kind "Secret",
            eq_iff o.metadata.name p.metadata.name,
            eq_iff o.metadata.name (name <> "-secret"),
            eq_iff o.kind p.kind,
            eq_iff o.kind "Secret",
          ))
          (objects d y x out w)

  clean_secrets_lem :
      (name : String) (os : List Object) (w : World d y x out)
      → objects d y x out (clean_secrets d y x out name os w)
        ≡ keep (λ o. not (any (is_secret_of name) os && is_secret_of name o)) (objects d y x out w)
  unfolding clean_secrets
  clean_secrets_lem name [] w = sym (
      keep_all (λ o. not (any (is_secret_of name) [] && is_secret_of name o)) (λ o. ground arith)
        (objects d y x out w))
  clean_secrets_lem name (p ∷ os) w = elim (Bool-cases (is_secret_of name p)) [
    | inl e ↦ rw e (
        clean_secrets_lem name os (drop_object d y x out p.metadata.name p.kind w)
        ∙ rw (drop_secret name p w e) (
            keep-keep _ _ (objects d y x out w)
            ∙ keep_ext
                (λ o.
                  not (is_secret_of name o)
                  && not (any (is_secret_of name) os && is_secret_of name o))
                _ (λ o. ground arith) (objects d y x out w)))
    | inr e ↦ rw e (clean_secrets_lem name os w)
  ]

  any_of_All :
      (name : String) (os whole : List Object)
      → ((o : Object) → any (is_secret_of name) os ≡ true → any (is_secret_of name) whole ≡ true)
      → All
          (λ o.
            not (any (is_secret_of name) whole && is_secret_of name o) ≡ not (is_secret_of name o))
          os
  any_of_All name [] whole sub = tt
  any_of_All name (o ∷ os) whole sub =
      (ground (arith, sub o), any_of_All name os whole (λ p h. sub p (ground arith)))

  -- `cleanupSecrets` leaves exactly the objects that are not the component's secret.
  pub cleanup_secrets_lem :
      (name : String) (w : World d y x out)
      → objects d y x out (cleanup_secrets d y x out name w)
        ≡ keep (λ o. not (is_secret_of name o)) (objects d y x out w)
  unfolding cleanup_secrets
  cleanup_secrets_lem name w =
      let os = objects d y x out w in
      clean_secrets_lem name os w ∙ keep_cong _ _ os (any_of_All name os os (λ o h. h))
