-- ===== src/Secrets/Again.antt =====
-- `ProcessSecrets` of pkg/triggermesh/components/components.go before and after the secrets of a
-- component have gone into the manifest.
use tmctl.Base.{
  String, List, [], ◌∷◌, map, keep, Result, ok, err, panic, >>=-ok, wrap-ok, ◌>>=◌, wrap, ◌<>◌,
  String_eq, Dict, ◌≡◌, ◌≢◌, ◌⊎◌, inl, inr, refl, sym, ap, ◌∙◌, to_lower,
}
use tmctl.Crd.Schema.{Schema}
use tmctl.Crd.Secrets.{Base64, secret_name, extract_secrets}
use tmctl.Crd.Secrets.Extraction.{extract_secrets_again}
use tmctl.Kubernetes.{Object}
use tmctl.Kubernetes.Value.{Fields}
use tmctl.Secrets.{
  Secret, as_k8s_object, Parent, children, with_children, paired, get_children, is_own_secret,
  stored, read_secrets, decode_secrets, process_secrets,
}

module _ (b : Base64) where
  -- The variables of the secrets.
  abbrev pub variables : Parent → List Object → Result (Dict String)
  variables p objects = process_secrets b p objects >>= λ r. ok r.1

  last_step :
      (secrets : List Secret) (r : Result (Dict String))
      → (r >>= paired secrets >>= λ r. ok r.1) ≡ r
  last_step secrets (ok env) = refl
  last_step secrets (err e) = refl
  last_step secrets panic = refl

  variables_lem :
      (p : Parent) (objects : List Object) (secrets : List Secret)
      → read_secrets b p objects ≡ ok secrets
      → variables p objects ≡ wrap "decoding secret" (decode_secrets b secrets [])
  unfolding process_secrets
  variables_lem p objects secrets e =
      rw (e, process_secrets)
        (last_step secrets (wrap "decoding secret" (decode_secrets b secrets [])))

  children-cons :
      (p : Parent) (s : Secret) (secrets : Dict String)
      → children p secrets ≡ s ∷ []
      → (secrets ≢ [])
        × (s ≡ record { name = secret_name p.name; context = p.broker; content = secrets })
  children-cons p s [] h = absurd (cc h)
  children-cons p s (x ∷ xs) h = (λ e. cc e, cc h)

  read_first :
      (p : Parent) (objects : List Object) (secrets : List Secret) (fs : Fields)
      → get_children b p ≡ ok (secrets, fs)
      → read_secrets b p objects ≡ ok secrets
  unfolding read_secrets
  read_first p objects secrets fs h = rw (h, read_secrets) refl

  -- What is left of the spec has no secrets that can be extracted.
  children_again :
      (p : Parent) (s : Secret) (fs : Fields)
      → get_children b p ≡ ok (s ∷ [], fs)
      → (e : String) × (get_children b (record p { spec = fs }) ≡ err e)
  unfolding get_children
  children_again p s fs h =
      let ((secrets, gs), m, q) =
        >>=-ok (wrap "extracting secrets" (p.schema >>= λ s. extract_secrets b p.name s p.spec))
          (with_children p) h in
      let (sch, k, l) =
        >>=-ok p.schema (λ s. extract_secrets b p.name s p.spec)
          (wrap-ok "extracting secrets" _ q) in
      by_again sch secrets gs l (cc m) (cc m)
        (extract_secrets_again b p.name sch p.spec gs secrets k)
    where
      by_again :
          (sch : Schema) (secrets : Dict String) (gs : Fields)
          → p.schema ≡ ok sch
          → children p secrets ≡ s ∷ []
          → gs ≡ fs
          → ((secrets ≡ []) × (extract_secrets b p.name sch gs ≡ ok ([], gs)))
            ⊎ ((secrets ≢ []) × ((e : String) × (extract_secrets b p.name sch gs ≡ err e)))
          → (e : String) × (get_children b (record p { spec = fs }) ≡ err e)
      by_again sch secrets gs l some_child same (inl (empty, again)) =
          absurd ((children-cons p s secrets some_child).0 empty)
      by_again sch secrets gs l some_child same (inr (found, (e, fails))) = (
        "extracting secrets" <> ": " <> e,
        rw (← same) (
            ap
              (λ r.
                wrap "extracting secrets" (r >>= λ s. extract_secrets b p.name s gs)
                >>= with_children p)
              l
            ∙ ap (λ r. wrap "extracting secrets" r >>= with_children p) fails),
      )

  -- Where a component's name has no upper-case letters and its spec has secrets, and the secret that
  -- they give is the only one of that name in the manifest, processing the secrets of what is left
  -- of the spec gives, from the manifest, the same variables as the spec gave with its secrets in it.
  pub process_secrets_again :
      (p : Parent) (s : Secret) (fs : Fields) (before after : List Object)
      → get_children b p ≡ ok (s ∷ [], fs)
      → to_lower p.name ≡ p.name
      → keep (is_own_secret p.name) after ≡ as_k8s_object s ∷ []
      → variables (record p { spec = fs }) after ≡ variables p before
  unfolding read_secrets as_k8s_object decode_secrets
  process_secrets_again p s fs before after h lower only =
      let (e, fails) = children_again p s fs h in
      variables_lem (record p { spec = fs }) after (stored (as_k8s_object s) ∷ [])
        (rw (fails, read_secrets) (ap (λ os. ok (map stored os)) only))
      ∙ sym (variables_lem p before (s ∷ []) (read_first p before (s ∷ []) fs h))
