-- ===== src/Components/Exports/Sources.antt =====
-- The exports of a source: pkg/triggermesh/components/source/source.go. `resource` is what
-- `asUnstructured` gives for the source, whose status the adapter's variables may depend on.
use tmctl.Adapter.{Library, EnvVar}
use tmctl.Adapter.Env
use tmctl.Adapter.Runtime.{image, resolve, resolved, plain, env_to_string}
use tmctl.Base.{
  String, Option, none, some, List, [], ◌∷◌, ◌++◌, map, Result, ok, wrap, ◌>>=◌, ◌<>◌, Dict, lookup,
  delete, ◌≡◌, refl, ap, ◌∙◌, append_assoc,
}
use tmctl.Components.Exports.{Deployment, as_pair, digital_ocean_image}
use tmctl.Kubernetes.{Object}
use tmctl.Service.{ComposeService}
use tmctl.Service.Images.{AppService}

-- The variable for the broker, which the adapter's variables get.
unfoldable pub broker_sink : String → EnvVar
unfolding ◌<>◌
broker_sink broker = plain ("K_SINK", "http://" <> broker <> ":8080")

abbrev unpacked : List EnvVar × Dict String → List EnvVar
unpacked (env, left) = env ++ map plain left

module _ (lib : Library) (name version broker : String) where
  abbrev sunk : Object → Option (Dict String) → Result (List EnvVar)
  unfolding broker_sink
  sunk o extra = wrap "adapter environment" (Env.build lib o) >>= λ vs.
      ok (unpacked (resolved (vs ++ broker_sink broker ∷ []) extra))

  unfoldable pub source_deployment : Result Object → Option (Dict String) → Result Deployment
  unfolding image sunk
  source_deployment resource extra = wrap "creating object" resource >>= λ o.
      sunk o extra >>= λ envs. ok (record { name = name; image = image o version; envs = envs })

  unfoldable pub source_compose : Result Object → Option (Dict String) → Result ComposeService
  unfolding image sunk env_to_string
  source_compose resource extra = wrap "creating object" resource >>= λ o. sunk o extra >>= λ envs.
      ok (record {
        container = name;
        image = image o version;
        ports = "8080" ∷ [];
        environment = map env_to_string envs;
      })

  -- A worker of Digital Ocean gets the broker's private URL.
  unfoldable pub source_digital_ocean : Result Object → Option (Dict String) → Result AppService
  unfolding digital_ocean_image ◌<>◌
  source_digital_ocean resource extra = wrap "creating object" resource >>= λ o.
      wrap "adapter environment" (Env.build lib o) >>= λ vs. ok (record {
        name = name;
        image = digital_ocean_image o version;
        envs =
            map as_pair (unpacked (resolved vs extra))
            ++ ("K_SINK", "${" <> broker <> ".PRIVATE_URL}/" <> broker) ∷ [];
      })

-- A variable that is no reference goes through the loop over the variables.
abbrev Appends : List EnvVar → String × String → Dict String → Type 0
Appends vs e extra =
    resolve (vs ++ plain e ∷ []) extra
    ≡ ((resolve vs extra).0 ++ plain e ∷ [], (resolve vs extra).1)

resolve-snoc_reference :
    (v : EnvVar) (vs : List EnvVar) (e : String × String) (extra : Dict String) (key : String)
    (r : Option String)
    → v.secret_key ≡ some key
    → lookup key extra ≡ r
    → ((left : Dict String) → Appends vs e left)
    → Appends (v ∷ vs) e extra
unfolding resolve
resolve-snoc_reference v vs e extra key none k f ih = rw (k, resolve) (rw (f, resolve) (ih extra))
resolve-snoc_reference v vs e extra key (some secret) k f ih =
    let first : EnvVar = record { name = v.name; value = secret; secret_key = none } in
    rw (k, resolve)
      (rw (f, resolve)
        (ap (λ (p : List EnvVar × Dict String). (first ∷ p.0, p.1)) (ih (delete key extra))))

resolve-snoc_first :
    (v : EnvVar) (vs : List EnvVar) (e : String × String) (extra : Dict String) (r : Option String)
    → v.secret_key ≡ r
    → ((left : Dict String) → Appends vs e left)
    → Appends (v ∷ vs) e extra
unfolding resolve
resolve-snoc_first v vs e extra none k ih =
    rw (k, resolve) (ap (λ (p : List EnvVar × Dict String). (v ∷ p.0, p.1)) (ih extra))
resolve-snoc_first v vs e extra (some key) k ih =
    resolve-snoc_reference v vs e extra key (lookup key extra) k refl ih

resolve-snoc : (vs : List EnvVar) (e : String × String) (extra : Dict String) → Appends vs e extra
unfolding resolve
resolve-snoc [] e extra = refl
resolve-snoc (v ∷ vs) e extra =
    resolve-snoc_first v vs e extra v.secret_key refl (resolve-snoc vs e)

resolved-snoc :
    (vs : List EnvVar) (e : String × String) (extra : Option (Dict String))
    → resolved (vs ++ plain e ∷ []) extra
      ≡ ((resolved vs extra).0 ++ plain e ∷ [], (resolved vs extra).1)
resolved-snoc vs e none = refl
resolved-snoc vs e (some extra) = resolve-snoc vs e extra

module _ (lib : Library) (name version broker : String) where
  -- For an object whose adapter has variables, the exports of a source succeed: to Kubernetes and
  -- Docker Compose with the adapter's variables, their secrets put in, then the broker's address,
  -- then the secrets that are left; to Digital Ocean with the same and the broker's private URL last.
  pub source_exports_agree :
      (o : Object) (extra : Option (Dict String)) (vs : List EnvVar)
      → Env.build lib o ≡ ok vs
      → let (env, left) = resolved vs extra in
        let sink : EnvVar = plain ("K_SINK", "http://" <> broker <> ":8080") in
        let envs = env ++ sink ∷ map plain left in
        (source_deployment lib name version broker (ok o) extra
          ≡ ok (record { name = name; image = image o version; envs = envs }))
        × (source_compose lib name version broker (ok o) extra
            ≡ ok (record {
              container = name;
              image = image o version;
              ports = "8080" ∷ [];
              environment = map env_to_string envs;
            }))
        × (source_digital_ocean lib name version broker (ok o) extra
            ≡ ok (record {
              name = name;
              image = digital_ocean_image o version;
              envs =
                  map as_pair (env ++ map plain left)
                  ++ ("K_SINK", "${" <> broker <> ".PRIVATE_URL}/" <> broker) ∷ [];
            }))
  unfolding source_deployment source_compose source_digital_ocean
  source_exports_agree o extra vs e =
      let sink : String × String = ("K_SINK", "http://" <> broker <> ":8080") in
      let (env, left) = resolved vs extra in
      let same : unpacked (resolved (vs ++ plain sink ∷ []) extra)
          ≡ env ++ plain sink ∷ map plain left =
        ap unpacked (resolved-snoc vs sink extra)
        ∙ append_assoc env (plain sink ∷ []) (map plain left) in
      (
        rw (e, source_deployment)
            (λ i. ok (record { name = name; image = image o version; envs = same i })),
        rw (e, source_compose)
            (λ i. ok (record {
              container = name;
              image = image o version;
              ports = "8080" ∷ [];
              environment = map env_to_string (same i);
            })),
        rw (e, source_digital_ocean) refl,
      )
