-- ===== src/Adapter/Kinds.antt =====
-- The kinds that the tables of pkg/triggermesh/adapter/ce and pkg/triggermesh/adapter/env know.
use tmctl.Base.{
  String, Bool, true, false, ◌||◌, ◌&&◌, List, [], ◌∷◌, ◌++◌, Result, ok, ◌==◌, if◌then◌else◌,
  String_eq, arith, eq_iff, sym, ◌∙◌, ◌≡◌, inl, inr, refl, Bool-cases, any-append,
}
use tmctl.Adapter.{Library, one_of, sources_api, targets_api, multitenant, unsupported}
use tmctl.Adapter.Ce.{full_kinds, producing_kinds, accepting_kinds, silent_kinds, multitenant_kinds}
use tmctl.Adapter.Ce
use tmctl.Adapter.Env.{target_kinds, failing_kinds}
use tmctl.Adapter.Env
use tmctl.Kubernetes.{Object}

-- All kinds of the second list are in the first.
abbrev covers : List String → List String → Bool
covers ks [] = true
covers ks (j ∷ js) = one_of ks j && covers ks js

one_of-covers :
    (ks js : List String) (k : String)
    → covers ks js ≡ true
    → one_of js k ≡ true
    → one_of ks k ≡ true
one_of-covers ks [] k c h = ground arith
one_of-covers ks (j ∷ js) k c h = ground (arith, eq_iff j k, one_of-covers ks js k)

one_of_same :
    (ks js : List String) (k : String)
    → covers ks js ≡ true
    → covers js ks ≡ true
    → one_of ks k ≡ one_of js k
one_of_same ks js k c b = ground (arith, one_of-covers ks js k c, one_of-covers js ks k b)

one_of-append :
    (ks js : List String) (k : String) → one_of (ks ++ js) k ≡ (one_of ks k || one_of js k)
one_of-append ks js k = any-append (λ j. j == k) ks js

abbrev env_source_kinds : List String
env_source_kinds = Env.source_kinds ++ failing_kinds ++ "TwilioSource" ∷ []

abbrev ce_target_kinds : List String
ce_target_kinds = full_kinds ++ producing_kinds ++ accepting_kinds ++ silent_kinds

source_kinds_same : (k : String) → one_of Ce.source_kinds k ≡ one_of env_source_kinds k
source_kinds_same k = one_of_same Ce.source_kinds env_source_kinds k refl refl

target_kinds_same :
    (k : String)
    → ("GoogleCloudPubSubTarget" == k || one_of ce_target_kinds k)
      ≡ ("ConfluentTarget" == k || one_of target_kinds k)
target_kinds_same k =
    one_of_same ("GoogleCloudPubSubTarget" ∷ ce_target_kinds) ("ConfluentTarget" ∷ target_kinds) k
      refl refl

no_pubsub :
    (k : String) → ("GoogleCloudPubSubTarget" == k) ≡ true → one_of ce_target_kinds k ≡ false
no_pubsub k h = rw⁻¹ ((eq_iff "GoogleCloudPubSubTarget" k).0 h) refl

no_confluent : (k : String) → ("ConfluentTarget" == k) ≡ true → one_of target_kinds k ≡ false
no_confluent k h = rw⁻¹ ((eq_iff "ConfluentTarget" k).0 h) refl

but_for_two :
    (p c a t : Bool)
    → (p || a) ≡ (c || t)
    → (p ≡ true → a ≡ false)
    → (c ≡ true → t ≡ false)
    → (a ≡ (if p then false else c || t)) × (t ≡ (if c then false else p || a))
but_for_two p c a t h f g = ground (arith, f, g)

abbrev pub is_ok {ℓ} : {A : Type ℓ} → Result A → Bool
is_ok (ok a) = true
is_ok r = false

module _ (lib : Library) where
  ce_sources_ok :
      (o : Object) (v : lib.Typed)
      → lib.from_unstructured o.kind o ≡ ok v
      → is_ok (Ce.sources lib o) ≡ one_of Ce.source_kinds o.kind
  unfolding Ce.sources multitenant unsupported
  ce_sources_ok o v h = elim (Bool-cases (one_of Ce.source_kinds o.kind)) [
    | inl e ↦ rw (e, h) refl
    | inr e ↦ rw e (elim (Bool-cases (one_of multitenant_kinds o.kind)) [
      | inl f ↦ rw f refl
      | inr f ↦ rw f refl
    ])
  ]

  env_sources_ok :
      (o : Object) (v : lib.Typed)
      → lib.from_unstructured o.kind o ≡ ok v
      → is_ok (lib.try_app_env o.kind v) ≡ true
      → is_ok (Env.sources lib o) ≡ one_of env_source_kinds o.kind
  unfolding Env.sources multitenant unsupported
  env_sources_ok o v h g =
      rw (one_of-append Env.source_kinds (failing_kinds ++ "TwilioSource" ∷ []) o.kind) (
        rw (one_of-append failing_kinds ("TwilioSource" ∷ []) o.kind)
          (elim (Bool-cases (one_of Env.source_kinds o.kind)) [
            | inl e ↦ rw (e, h) refl
            | inr e ↦ rw e (elim (Bool-cases (one_of failing_kinds o.kind)) [
              | inl f ↦ rw (f, h) g
              | inr f ↦
                  rw f (ground (arith, eq_iff o.kind "TwilioSource", eq_iff "TwilioSource" o.kind))
            ])
          ]))

  ce_targets_ok :
      (o : Object) (v : lib.Typed)
      → lib.from_unstructured o.kind o ≡ ok v
      → is_ok (Ce.targets lib o) ≡ one_of ce_target_kinds o.kind
  unfolding Ce.targets unsupported
  ce_targets_ok o v h =
      rw (one_of-append full_kinds (producing_kinds ++ accepting_kinds ++ silent_kinds) o.kind) (
        rw (one_of-append producing_kinds (accepting_kinds ++ silent_kinds) o.kind)
          (rw (one_of-append accepting_kinds silent_kinds o.kind) (ce_targets_cases o v h)))
    where
      ce_targets_cases :
          (o : Object) (v : lib.Typed)
          → lib.from_unstructured o.kind o ≡ ok v
          → is_ok (Ce.targets lib o) ≡ (
              one_of full_kinds o.kind
              || (one_of producing_kinds o.kind
                  || (one_of accepting_kinds o.kind || one_of silent_kinds o.kind)))
      ce_targets_cases o v h = elim (Bool-cases (one_of full_kinds o.kind)) [
        | inl e ↦ rw (e, h) refl
        | inr e ↦ rw e (elim (Bool-cases (one_of producing_kinds o.kind)) [
          | inl f ↦ rw (f, h) refl
          | inr f ↦ rw f (elim (Bool-cases (one_of accepting_kinds o.kind)) [
            | inl g ↦ rw (g, h) refl
            | inr g ↦ rw g (elim (Bool-cases (one_of silent_kinds o.kind)) [
              | inl k ↦ rw k refl
              | inr k ↦ rw k refl
            ])
          ])
        ])
      ]

  env_targets_ok :
      (o : Object) (v : lib.Typed)
      → lib.from_unstructured o.kind o ≡ ok v
      → is_ok (Env.targets lib o) ≡ one_of target_kinds o.kind
  unfolding Env.targets unsupported
  env_targets_ok o v h = elim (Bool-cases (one_of target_kinds o.kind)) [
    | inl e ↦ rw (e, h) refl
    | inr e ↦ rw e refl
  ]

  not_source :
      (o : Object) → (o.api_version == targets_api) ≡ true → (o.api_version == sources_api) ≡ false
  not_source o a = rw ((eq_iff o.api_version targets_api).0 a) refl

  -- A source that converts to the type of its kind, and whose environment can be made, has event
  -- attributes exactly if it has an environment: the two tables know the same kinds.
  pub attributes-build_source :
      (o : Object) (v : lib.Typed)
      → (o.api_version == sources_api) ≡ true
      → lib.from_unstructured o.kind o ≡ ok v
      → is_ok (lib.try_app_env o.kind v) ≡ true
      → is_ok (Ce.attributes lib o) ≡ is_ok (Env.build lib o)
  unfolding Ce.attributes Env.build
  attributes-build_source o v a h g =
      rw a (ce_sources_ok o v h ∙ source_kinds_same o.kind ∙ sym (env_sources_ok o v h g))

  -- A target that converts to the type of its kind has event attributes exactly if it has an
  -- environment, but for two kinds: `ConfluentTarget` has no environment, and
  -- `GoogleCloudPubSubTarget` has no attributes.
  pub attributes-build_target :
      (o : Object) (v : lib.Typed)
      → (o.api_version == targets_api) ≡ true
      → lib.from_unstructured o.kind o ≡ ok v
      → (is_ok (Ce.attributes lib o) ≡ (
          if "GoogleCloudPubSubTarget" == o.kind
          then false
          else "ConfluentTarget" == o.kind || is_ok (Env.build lib o)))
        × (is_ok (Env.build lib o) ≡ (
            if "ConfluentTarget" == o.kind
            then false
            else "GoogleCloudPubSubTarget" == o.kind || is_ok (Ce.attributes lib o)))
  unfolding Ce.attributes Env.build
  attributes-build_target o v a h = rw (not_source o a) (
      rw a (
        rw (ce_targets_ok o v h) (
          rw (env_targets_ok o v h) (
            but_for_two ("GoogleCloudPubSubTarget" == o.kind) ("ConfluentTarget" == o.kind)
              (one_of ce_target_kinds o.kind) (one_of target_kinds o.kind)
              (target_kinds_same o.kind) (no_pubsub o.kind) (no_confluent o.kind)))))
