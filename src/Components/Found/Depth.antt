-- ===== src/Components/Found/Depth.antt =====
-- When the calls of `GetObject` of pkg/triggermesh/components/components.go for the targets of triggers
-- come to an end, and when they do not.
use tmctl.Adapter.{sources_api, targets_api, flow_api}
use tmctl.Base.{
  ℕ, zero, suc, ◌<◌, String, true, Option, none, some, List, [], ◌∷◌, All, Result, ok, err, panic,
  ◌==◌, if◌then◌else◌, String_eq, ◌≡◌, ◌≢◌, refl, ap, ◌∙◌, arith, Bool-cases, inl, inr, eq_iff,
  eq_refl,
}
use tmctl.Broker.Config.{Trigger, Tools}
use tmctl.Broker.Trigger.{broker_kind, trigger_kind, api_version}
use tmctl.Components.Found.{
  Outcome, with_target, context_of, found_trigger, aim, or_rest, of_object, look_through,
  get_object,
}
use tmctl.Disk.{Disk}
use tmctl.Kubernetes.{Object}
use tmctl.Kubernetes.Value.{Fields, Filter, KReference}
use tmctl.Service.{Service}
use tmctl.Service.Reading.{read_service}
use tmctl.Settings.{Config}

with_target-ne-none : (t : Trigger) (r : Outcome) → r ≢ none → with_target t r ≢ none
with_target-ne-none t none h = absurd (h refl)
with_target-ne-none t (some (ok none)) h = λ e. cc e
with_target-ne-none t (some (ok (some c))) h = λ e. cc e
with_target-ne-none t (some (err z)) h = λ e. cc e
with_target-ne-none t (some panic) h = λ e. cc e

module _ (d : Disk) (x : Tools d) (config : Config) (base : String)
    (read_trigger_spec : Option Fields → Result (List Filter × Option KReference)) where
  or_rest-ne-none :
      (r : Result (Option Service)) (rest : Outcome)
      → rest ≢ none
      → or_rest d x config base read_trigger_spec r rest ≢ none
  or_rest-ne-none (ok none) rest h = h
  or_rest-ne-none (ok (some s)) rest h = λ e. cc e
  or_rest-ne-none (err z) rest h = λ e. cc e
  or_rest-ne-none panic rest h = λ e. cc e

  aim-ne-none :
      (again : String → Outcome) (r : Result (String × Trigger))
      → ((name : String) (t : Trigger) → r ≡ ok (name, t) → again name ≢ none)
      → aim d x config base read_trigger_spec again r ≢ none
  aim-ne-none again (ok (name, t)) h = with_target-ne-none t (again name) (h name t refl)
  aim-ne-none again (err z) h = λ e. cc e
  aim-ne-none again panic h = λ e. cc e

  -- Each trigger's target has a lower rank than the trigger.
  abbrev pub Ranked : (String → ℕ) → Object → Type 0
  Ranked rank o =
      (context target : String) (t : Trigger)
      → (o.api_version == api_version) ≡ true
      → (o.kind == trigger_kind) ≡ true
      → found_trigger d x config base read_trigger_spec context o ≡ ok (target, t)
      → rank target < rank o.metadata.name

  of_object-ne-none :
      (again : String → Outcome) (context : String) (o : Object) (rest : Outcome)
      → rest ≢ none
      → ((o.api_version == api_version) ≡ true
          → (o.kind == trigger_kind) ≡ true
          → aim d x config base read_trigger_spec again
              (found_trigger d x config base read_trigger_spec context o)
            ≢ none)
      → of_object d x config base read_trigger_spec again context o rest ≢ none
  unfolding of_object
  of_object-ne-none again context o rest h aimed_fine =
      ground (arith, or_rest-ne-none (read_service context o) rest h, aimed_fine)

  look_through-ne-none :
      (again : String → Outcome) (rank : String → ℕ) (name : String) (os : List Object)
      → All (Ranked rank) os
      → ((target : String) → rank target < rank name → again target ≢ none)
      → look_through d x config base read_trigger_spec again name os ≢ none
  unfolding look_through
  look_through-ne-none again rank name [] r ih = λ e. cc e
  look_through-ne-none again rank name (o ∷ os) (first, r) ih =
      elim (Bool-cases (o.metadata.name == name)) [
        | inl e ↦ rw e (by_context e (context_of o) (look_through-ne-none again rank name os r ih))
        | inr e ↦ rw e (look_through-ne-none again rank name os r ih)
      ]
    where
      by_context :
          (o.metadata.name == name) ≡ true
          → (context : Option String)
          → look_through d x config base read_trigger_spec again name os ≢ none
          → (elim context [
            | none ↦ some (err "context label not set")
            | some c ↦
                of_object d x config base read_trigger_spec again c o
                  (look_through d x config base read_trigger_spec again name os)
          ])
            ≢ none
      by_context e none h = λ z. cc z
      by_context e (some c) h =
          of_object-ne-none again c o (look_through d x config base read_trigger_spec again name os)
            h
            (λ api kind.
              aim-ne-none again (found_trigger d x config base read_trigger_spec c o) (λ target t f.
                ih target (rw (← (eq_iff o.metadata.name name).0 e) (first c target t api kind f))))

  -- Where the objects can be ranked so that each trigger's target has a lower rank than the trigger,
  -- fuel above the rank of the name that is asked for is enough: the calls come to an end.
  pub get_object-ne-none :
      (rank : String → ℕ) (fuel : ℕ) (objects : List Object) (name : String)
      → All (Ranked rank) objects
      → rank name < fuel
      → get_object d x config base read_trigger_spec fuel objects name ≢ none
  unfolding get_object
  get_object-ne-none rank zero objects name r lt = absurd (omega arith)
  get_object-ne-none rank (suc fuel) objects name r lt =
      look_through-ne-none (get_object d x config base read_trigger_spec fuel objects) rank name
        objects r (λ target below. get_object-ne-none rank fuel objects target r (omega arith))

  of_object-trigger :
      (again : String → Outcome) (context : String) (o : Object) (rest : Outcome)
      → o.api_version ≡ api_version
      → o.kind ≡ trigger_kind
      → of_object d x config base read_trigger_spec again context o rest
        ≡ aim d x config base read_trigger_spec again
            (found_trigger d x config base read_trigger_spec context o)
  unfolding of_object
  of_object-trigger again context o rest a k = ground (
    arith,
    ap (λ s. s == sources_api) a,
    ap (λ s. s == targets_api) a,
    ap (λ s. s == flow_api) a,
    ap (λ s. s == api_version) a,
    ap (λ s. s == broker_kind) k,
    ap (λ s. s == trigger_kind) k,
  )

  -- Where the first object of the manifest is a trigger that can be read and whose target has the
  -- trigger's own name, no fuel is enough: `GetObject` calls itself for ever.
  pub get_object_diverges :
      (fuel : ℕ) (o : Object) (os : List Object) (context : String) (t : Trigger)
      → o.api_version ≡ api_version
      → o.kind ≡ trigger_kind
      → context_of o ≡ some context
      → found_trigger d x config base read_trigger_spec context o ≡ ok (o.metadata.name, t)
      → get_object d x config base read_trigger_spec fuel (o ∷ os) o.metadata.name ≡ none
  unfolding get_object look_through of_object
  get_object_diverges zero o os context t a k c f = refl
  get_object_diverges (suc fuel) o os context t a k c f =
      ap (λ b. if b then found_here else elsewhere) (eq_refl o.metadata.name)
      ∙ ap
          (λ c. elim c [
            | none ↦ some (err "context label not set")
            | some context ↦ of_object d x config base read_trigger_spec again context o elsewhere
          ])
          c
      ∙ of_object-trigger again context o elsewhere a k
      ∙ ap (aim d x config base read_trigger_spec again) f
      ∙ ap (with_target t) (get_object_diverges fuel o os context t a k c f)
    where
      again : String → Outcome
      again = get_object d x config base read_trigger_spec fuel (o ∷ os)

      elsewhere : Outcome
      elsewhere = look_through d x config base read_trigger_spec again o.metadata.name os

      found_here : Outcome
      found_here = elim (context_of o) [
        | none ↦ some (err "context label not set")
        | some context ↦ of_object d x config base read_trigger_spec again context o elsewhere
      ]
