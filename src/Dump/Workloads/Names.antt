-- ===== src/Dump/Workloads/Names.antt =====
-- Which services `tmctl dump` of cmd/dump/dump.go gives for Docker Compose.
use tmctl.Adapter.{Library}
use tmctl.Base.{
  String, Bool, true, false, ◌&&◌, ◌||◌, Option, none, some, List, [], ◌∷◌, any, Result, ok, err,
  panic, wrap, ◌>>=◌, >>=-ok, ◌<>◌, ◌==◌, String_eq, Dict, lookup, lookup-insert, ◌≡◌, refl, sym,
  ap, ◌∙◌, Bool-cases, inl, inr,
}
use tmctl.Broker.Config.{Configuration}
use tmctl.Broker.Trigger.{broker_kind}
use tmctl.Components.Found.{
  Found, source, target, transformation, broker, trigger, aimed, service, secret,
}
use tmctl.Crd.Objects.{Crd}
use tmctl.Crd.Process.{Parsers}
use tmctl.Crd.Schema.{Schema}
use tmctl.Crd.Secrets.{Base64}
use tmctl.Dump.{parent_of}
use tmctl.Dump.Static.{found_kind, found_name, static_broker_config}
use tmctl.Dump.Workloads.{
  ComposeObject, compose_export, services_of, without_secrets, with_variables, variables_of,
  configured, by_name, exported_workload, added_to, dump_workloads, add_service,
}
use tmctl.Kubernetes.{Object}
use tmctl.Kubernetes.Value.{Value, Fields}
use tmctl.Secrets.{Parent, process_secrets}

-- The components that implement `Exportable`.
abbrev pub is_exportable : Found → Bool
is_exportable (trigger t) = false
is_exportable (aimed t c) = false
is_exportable (secret s) = false
is_exportable c = true

abbrev is_some : {A : Type 0} → Option A → Bool
is_some none = false
is_some (some a) = true

abbrev pub has_service : String → Option (Dict ComposeObject) → Bool
has_service n m = is_some (lookup n (services_of m))

-- The look-up gives an exportable component of the name.
abbrev pub exports : String → Result (Option Found) → Bool
unfolding found_name
exports n (ok (some c)) = is_exportable c && found_name c == n
exports n (ok none) = false
exports n (err e) = false
exports n panic = false

abbrev named : {A : Type 0} → String → Option (String × A) → Bool
named n none = false
named n (some (k, a)) = k == n

-- The second component has the name of the first one, and is exportable if that is.
record Twin (c e : Found) : Type 0 where
  name : found_name e ≡ found_name c
  exportable : is_exportable e ≡ is_exportable c

Twin-self : (c : Found) → Twin c c
Twin-self c = record { name = refl; exportable = refl }

Twin-without_secrets : (b : Base64) (p : Parent) (c : Found) → Twin c (without_secrets b p c)
unfolding found_name
Twin-without_secrets b p (source s) = record { name = refl; exportable = refl }
Twin-without_secrets b p (target t) = record { name = refl; exportable = refl }
Twin-without_secrets b p (transformation t) = Twin-self (transformation t)
Twin-without_secrets b p (broker x) = Twin-self (broker x)
Twin-without_secrets b p (trigger t) = Twin-self (trigger t)
Twin-without_secrets b p (aimed t c) = Twin-self (aimed t c)
Twin-without_secrets b p (service s) = Twin-self (service s)
Twin-without_secrets b p (secret s) = Twin-self (secret s)

paired_same :
    {A B : Type 0} {a c : A} {x y : B} → ◌≡◌ {A = Result (A × B)} (ok (a, x)) (ok (c, y)) → a ≡ c
paired_same h = cc h

same : {A : Type 0} {a c : A} → ◌≡◌ {A = Result A} (ok a) (ok c) → a ≡ c
same h = cc h

has_service-add :
    (n k : String) (o : Object) (a : ComposeObject) (m : Option (Dict ComposeObject))
    → has_service n (add_service o k a m) ≡ ((k == n) || has_service n m)
unfolding add_service
has_service-add n k o a m =
    ap is_some (lookup-insert k n a (services_of m))
    ∙ (elim (Bool-cases (k == n)) [ inl e ↦ rw e refl | inr e ↦ rw e refl ])

has_service-added :
    (n : String) (o : Object) (r : Option (String × ComposeObject))
    (m : Option (Dict ComposeObject))
    → has_service n (added_to add_service o r m) ≡ (named n r || has_service n m)
has_service-added n o none m = refl
has_service-added n o (some (k, a)) m = has_service-add n k o a m

or_rotate : (a b c : Bool) → (a || (b || c)) ≡ ((b || a) || c)
or_rotate true true c = refl
or_rotate true false c = refl
or_rotate false true c = refl
or_rotate false false c = refl

or_false : (a : Bool) → (a || false) ≡ a
or_false true = refl
or_false false = refl

module _ (y : Parsers) (validate : Schema → Option Fields → Result (Unit {0}))
    (deep_copy : Value → Result Value) (set_status : Dict String → Object → Result Object)
    (lib : Library) (crds : Dict Crd) (open_port : String → String) (b : Base64) (platform : String)
    (no_secrets : Bool) (to_json : Configuration → Result String)
    (look_up : String → Result (Option Found)) (objects : List Object) where
  abbrev export : Found → Dict String → Option (Result ComposeObject)
  export = compose_export y validate deep_copy set_status lib crds open_port

  Twin-variables_of :
      (c c' : Found) (p : Option Parent) (env : Dict String)
      → variables_of b crds platform no_secrets to_json look_up objects c p ≡ ok (c', env)
      → Twin c c'
  unfolding variables_of
  Twin-variables_of c c' none env h = rw⁻¹ (paired_same h) (Twin-self c)
  Twin-variables_of c c' (some p) env h =
      let (r, e, w) = >>=-ok (wrap "processing secrets" (process_secrets b p objects)) _ h in
      rw⁻¹ (paired_same e) (Twin-without_secrets b p c)

  same-configured :
      (c c' : Found) (env vars : Dict String)
      → configured b crds platform no_secrets to_json look_up objects (c, env) ≡ ok (c', vars)
      → c ≡ c'
  unfolding configured
  same-configured c c' env vars h = elim (Bool-cases (found_kind c == broker_kind)) [
    | inl k ↦
        let (config, e, w) =
          >>=-ok
            (wrap "broker static config" (static_broker_config to_json platform look_up objects)) _
            (rw (k, configured) at h) in
        paired_same e
    | inr k ↦ paired_same (rw (k, configured) at h)
  ]

  abbrev export_context : Found → String
  unfolding found_name ◌<>◌
  export_context c =
      "unable to export component \"" <> found_name c <> "\" to \"" <> platform <> "\""

  named-by_name :
      (n : String) (c : Found) (e : Option (Result ComposeObject))
      (r : Option (String × ComposeObject))
      → by_name b crds platform no_secrets to_json look_up objects c e ≡ ok r
      → named n r ≡ (is_some e && found_name c == n)
  unfolding by_name
  named-by_name n c none r h = rw⁻¹ (same h) refl
  named-by_name n c (some x) r h =
      let (a, e, w) = >>=-ok (wrap (export_context c) x) _ h in
      let q : some (found_name c, a) ≡ r = same e in ap (named n) (sym q)

  is_some-export : (c : Found) (env : Dict String) → is_some (export c env) ≡ is_exportable c
  unfolding compose_export
  is_some-export (source s) env = refl
  is_some-export (target t) env = refl
  is_some-export (transformation t) env = refl
  is_some-export (broker x) env = refl
  is_some-export (trigger t) env = refl
  is_some-export (aimed t c) env = refl
  is_some-export (service s) env = refl
  is_some-export (secret s) env = refl

  named-exported :
      (n : String) (c : Option Found) (r : Option (String × ComposeObject))
      → exported_workload b crds platform no_secrets to_json look_up objects export c ≡ ok r
      → named n r ≡ exports n (ok c)
  unfolding exported_workload with_variables
  named-exported n none r h = elim (Bool-cases no_secrets) [
    | inl k ↦ absurd (cc (rw (k, exported_workload) at h))
    | inr k ↦ rw⁻¹ (same (rw (k, exported_workload) at h)) refl
  ]
  named-exported n (some c) r h =
      let ((c₂, env₂), e₂, w₂) =
        >>=-ok
          (with_variables b crds platform no_secrets to_json look_up objects c
            >>= configured b crds platform no_secrets to_json look_up objects)
          _ h in
      let ((c₁, env₁), e₁, w₁) =
        >>=-ok (with_variables b crds platform no_secrets to_json look_up objects c) _ w₂ in
      let twin = Twin-variables_of c c₁ (parent_of crds (some c)) env₁ w₁ in
      let q = same-configured c₁ c₂ env₁ env₂ e₁ in
      let names = named-by_name n c₂ (export c₂ env₂) r e₂ in
      names
      ∙ ap (λ x. x && found_name c₂ == n) (is_some-export c₂ env₂)
      ∙ ap (λ z. is_exportable z && found_name z == n) (sym q)
      ∙ (λ i. twin.exportable i && twin.name i == n)

  abbrev exports_at : String → Object → Bool
  exports_at n o = exports n (look_up o.metadata.name)

  abbrev run : List Object → Option (Dict ComposeObject) → Result (Option (Dict ComposeObject))
  run = dump_workloads b crds platform no_secrets to_json look_up objects export add_service

  has_service-step :
      (n : String) (o : Object) (os : List Object) (out m : Option (Dict ComposeObject))
      (r : Result (Option Found))
      → look_up o.metadata.name ≡ r
      → ((out : Option (Dict ComposeObject))
          → run os out ≡ ok m
          → has_service n m ≡ (any (exports_at n) os || has_service n out))
      → run (o ∷ os) out ≡ ok m
      → has_service n m ≡ ((exports n r || any (exports_at n) os) || has_service n out)
  unfolding dump_workloads
  has_service-step n o os out m (ok c) e again h =
      let (r, f, w) =
        >>=-ok (exported_workload b crds platform no_secrets to_json look_up objects export c) _
          (rw (e, dump_workloads) at h) in
      again (added_to add_service o r out) f
      ∙ ap (λ x. any (exports_at n) os || x) (has_service-added n o r out)
      ∙ or_rotate (any (exports_at n) os) (named n r) (has_service n out)
      ∙ ap (λ x. (x || any (exports_at n) os) || has_service n out) (named-exported n c r w)
  has_service-step n o os out m (err z) e again h = again out (rw (e, dump_workloads) at h)
  has_service-step n o os out m panic e again h = absurd (cc (rw (e, dump_workloads) at h))

  has_service-dump :
      (n : String) (os : List Object) (out m : Option (Dict ComposeObject))
      → run os out ≡ ok m
      → has_service n m ≡ (any (exports_at n) os || has_service n out)
  unfolding dump_workloads
  has_service-dump n [] out m h = ap (has_service n) (sym (same h))
  has_service-dump n (o ∷ os) out m h =
      has_service-step n o os out m (look_up o.metadata.name) refl
        (λ out'. has_service-dump n os out' m) h

  -- Where a dump for Docker Compose succeeds, it has a service under a name exactly if the look-up of
  -- some object of the manifest gives an exportable component with this name.
  pub has_service-dump_workloads :
      (n : String) (m : Option (Dict ComposeObject))
      → dump_workloads b crds platform no_secrets to_json look_up objects export add_service objects
          none
        ≡ ok m
      → has_service n m ≡ any (λ o. exports n (look_up o.metadata.name)) objects
  unfolding lookup
  has_service-dump_workloads n m h =
      has_service-dump n objects none m h
      ∙ or_false (any (λ o. exports n (look_up o.metadata.name)) objects)
