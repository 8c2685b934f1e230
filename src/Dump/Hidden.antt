-- ===== src/Dump/Hidden.antt =====
-- `tmctl dump --no-secrets` of cmd/dump/dump.go: what becomes of the secrets.
use tmctl.Base.{
  String, Bool, true, Option, none, some, List, [], ◌∷◌, ◌++◌, map, All, Result, ok, err, panic,
  >>=-ok, wrap, ◌==◌, String_eq, Dict, ◌≡◌, inl, inr, refl, ◌∙◌, Bool-cases,
}
use tmctl.Adapter.{sources_api}
use tmctl.Broker.Trigger.{broker_kind, trigger_kind, api_version}
use tmctl.Manifest.{clear_namespace}
use tmctl.Secrets
use tmctl.Components.Found.{Found, secret}
use tmctl.Crd.Objects.{Crd}
use tmctl.Crd.Secrets.{Base64}
use tmctl.Dump.{
  Platform, knative, kubernetes, unsupported, shown, parent_of, with_secrets_processed,
  knative_eventing_transformation, platform_object, exported, dump_objects, with_sink,
}
use tmctl.Kubernetes.{Object}
use tmctl.Kubernetes.Value.{Fields}
use tmctl.Load.{user_input_tag}
use tmctl.Secrets.{Secret, Parent, get_children, process_secrets}

abbrev pub is_secret : Object → Bool
is_secret o = o.kind == "Secret"

abbrev values : Option (Dict String) → Dict String
values none = []
values (some m) = m

abbrev IsTag : String × String → Type 0
IsTag e = e.1 ≡ user_input_tag

-- All values of the object's data are the tag.
abbrev pub OnlyTags : Object → Type 0
OnlyTags o = All IsTag (values o.content)

abbrev pub Hides : Object → Type 0
Hides o = is_secret o ≡ true → OnlyTags o

-- The look-up of a secret's name gives a secret.
abbrev pub FindsSecrets : (String → Result (Option Found)) → Object → Type 0
FindsSecrets look_up o =
    is_secret o ≡ true → (s : Secret) × (look_up o.metadata.name ≡ ok (some (secret s)))

-- The second object has the data of the first one, and is a secret only if that is one.
record Copy (o p : Object) : Type 0 where
  content : p.content ≡ o.content
  kind : is_secret p ≡ true → is_secret o ≡ true

same : {a p : Object} → ◌≡◌ {A = Result Object} (ok a) (ok p) → a ≡ p
same h = cc h

Copy-self : (o : Object) → Copy o o
Copy-self o = record { content = refl; kind = λ k. k }

Copy-trans : {o p q : Object} → Copy o p → Copy p q → Copy o q
Copy-trans a c = record { content = c.content ∙ a.content; kind = λ k. a.kind (c.kind k) }

knative-Copy :
    (context : String) (o p : Object) → knative_eventing_transformation context o ≡ ok p → Copy o p
unfolding knative_eventing_transformation
knative-Copy context o p h = elim (Bool-cases (o.api_version == api_version)) [
  | inl a ↦ elim (Bool-cases (o.kind == broker_kind)) [
    | inl k ↦ rw⁻¹ (same (rw (a, k) at h)) (record { content = refl; kind = λ e. absurd (cc e) })
    | inr k ↦ elim (Bool-cases (o.kind == trigger_kind)) [
      | inl t ↦ rw⁻¹ (same (rw (a, k, t) at h)) (record { content = refl; kind = λ e. e })
      | inr t ↦ rw⁻¹ (same (rw (a, k, t) at h)) (Copy-self o)
    ]
  ]
  | inr a ↦ elim (Bool-cases (o.api_version == sources_api)) [
    | inl z ↦ with_sink-Copy context o p o.spec (rw (a, z) at h)
    | inr z ↦ rw⁻¹ (same (rw (a, z) at h)) (Copy-self o)
  ]
]
  where
    with_sink-Copy :
        (context : String) (o p : Object) (spec : Option Fields)
        → with_sink context o spec ≡ ok p
        → Copy o p
    with_sink-Copy context o p none h = absurd (cc h)
    with_sink-Copy context o p (some fs) h =
        rw⁻¹ (same h) (record { content = refl; kind = λ e. e })

platform-Copy :
    (f : Platform) (context : String) (o p : Object) → platform_object f context o ≡ ok p → Copy o p
unfolding platform_object
platform-Copy knative context o p h =
    let c = knative-Copy context (clear_namespace o) p h in
    record { content = c.content; kind = c.kind }
platform-Copy kubernetes context o p h = rw⁻¹ (same h) (record { content = refl; kind = λ e. e })
platform-Copy (unsupported n) context o p h = absurd (cc h)

listed : {xs ys : List Object} → ◌≡◌ {A = Result (List Object)} (ok xs) (ok ys) → xs ≡ ys
listed h = cc h

redacted-OnlyTags :
    (m : Dict String) → All IsTag (map (λ (e : String × String). (e.0, user_input_tag)) m)
redacted-OnlyTags [] = tt
redacted-OnlyTags (e ∷ m) = (refl, redacted-OnlyTags m)

-- With `NoSecrets`, a secret that is found is shown with tags.
shown-Hides :
    (context : String) (c : Option Found) (o q : Object)
    → (is_secret o ≡ true → (s : Secret) × (c ≡ some (secret s)))
    → shown context true c o ≡ ok q
    → Hides q
unfolding shown Secrets.as_k8s_object
shown-Hides context none o q finds h = absurd (cc h)
shown-Hides context (some (secret s)) o q finds h = rw⁻¹ (same h) (λ k. redacted-OnlyTags s.content)
shown-Hides context (some c) o q finds h =
    rw⁻¹ (same h) (λ k. let (s, e) = finds k in absurd (cc e))

Hides-Copy : {q p : Object} → Copy q p → Hides q → Hides p
Hides-Copy c h k = rw (c.content) (h (c.kind k))

All-snoc : (os : List Object) (p : Object) → All Hides os → Hides p → All Hides (os ++ p ∷ [])
All-snoc [] p a h = (h, tt)
All-snoc (o ∷ os) p (x, a) h = (x, All-snoc os p a h)

module _ (b : Base64) (crds : Dict Crd) (context : String) (f : Platform)
    (look_up : String → Result (Option Found)) (objects : List Object) where
  processed-Copy :
      (parent : Option Parent) (o q : Object)
      → with_secrets_processed b objects parent o ≡ ok q
      → Copy o q
  unfolding with_secrets_processed
  processed-Copy none o q h = rw⁻¹ (same h) (Copy-self o)
  processed-Copy (some p) o q h =
      let (r, e, w) = >>=-ok (wrap "processing secrets" (process_secrets b p objects)) _ h in
      rw⁻¹ (same e) (record { content = refl; kind = λ k. k })

  -- The rest of a round after the component's object is chosen.
  exported-Copy :
      (flag : Bool) (c : Option Found) (o p : Object)
      → exported b crds context f flag look_up objects c o ≡ ok p
      → (q : Object) × (shown context flag c o ≡ ok q) × Copy q p
  unfolding exported
  exported-Copy flag c o p h =
      let (q, e, w) = >>=-ok (shown context flag c o) _ h in
      let (r, e', w') = >>=-ok (with_secrets_processed b objects (parent_of crds c) q) _ e in
      (q, w, Copy-trans (processed-Copy (parent_of crds c) q r w') (platform-Copy f context r p e'))

  exported-Hides :
      (c : Option Found) (o p : Object)
      → (is_secret o ≡ true → (s : Secret) × (c ≡ some (secret s)))
      → exported b crds context f true look_up objects c o ≡ ok p
      → Hides p
  exported-Hides c o p finds h =
      let (q, w, copy) = exported-Copy true c o p h in
      Hides-Copy copy (shown-Hides context c o q finds w)

  -- A round of the loop, where `again` is about the rounds after it.
  dumped-Hides :
      (o : Object) (os output result : List Object) (r : Result (Option Found))
      → look_up o.metadata.name ≡ r
      → FindsSecrets look_up o
      → All Hides output
      → ((out : List Object)
          → All Hides out
          → dump_objects b crds context f true look_up objects os out ≡ ok result
          → All Hides result)
      → dump_objects b crds context f true look_up objects (o ∷ os) output ≡ ok result
      → All Hides result
  unfolding dump_objects
  dumped-Hides o os output result (ok c) w x h again e =
      let (p, e', v) =
        >>=-ok (exported b crds context f true look_up objects c o) _ (rw (w, dump_objects) at e) in
      let found : is_secret o ≡ true → (s : Secret) × (c ≡ some (secret s)) =
        λ k. let (s, q) = x k in (s, cc (q, w)) in
      again (output ++ p ∷ []) (All-snoc output p h (exported-Hides c o p found v)) e'
  dumped-Hides o os output result (err z) w x h again e = again output h (rw (w, dump_objects) at e)
  dumped-Hides o os output result panic w x h again e = absurd (cc (rw (w, dump_objects) at e))

  dump_objects-Hides :
      (os output result : List Object)
      → All (FindsSecrets look_up) os
      → All Hides output
      → dump_objects b crds context f true look_up objects os output ≡ ok result
      → All Hides result
  unfolding dump_objects
  dump_objects-Hides [] output result a h e = rw⁻¹ (listed e) h
  dump_objects-Hides (o ∷ os) output result (x, a) h e =
      dumped-Hides o os output result (look_up o.metadata.name) refl x h
        (λ out. dump_objects-Hides os out result a) e

  -- With `NoSecrets`, where the look-up of a secret's name gives a secret for every secret of the
  -- manifest: each value in the data of each secret that is put out is the tag for the user's input.
  pub dump-Hides :
      (result : List Object)
      → All (FindsSecrets look_up) objects
      → dump_objects b crds context f true look_up objects objects [] ≡ ok result
      → All Hides result
  dump-Hides result a e = dump_objects-Hides objects [] result a tt e
