-- ===== src/Dump/Static/Entries.antt =====
-- What the broker's configuration of `getStaticBrokerConfig` of cmd/dump/dump.go holds.
use tmctl.Base.{
  String, Bool, true, false, ◌||◌, Option, none, some, List, [], ◌∷◌, any, All, Result, ok, err,
  panic, ◌<>◌, ◌==◌, if◌then◌else◌, String_eq, Dict, lookup, insert, lookup-insert, ◌≡◌, ◌≢◌, ◌⊎◌,
  inl, inr, refl, ap, ◌∙◌, Bool-cases,
}
use tmctl.Broker.Config.{LocalTriggerSpec, Configuration, Trigger}
use tmctl.Broker.Trigger.{trigger_kind, broker_kind}
use tmctl.Components.Found.{
  Found, source, target, transformation, broker, trigger, aimed, service, secret,
}
use tmctl.Dump.Static.{
  found_kind, found_name, as_trigger, is_docker, static_url, static_entry, entries, added,
  static_round, static_triggers, static_broker_config,
}
use tmctl.Kubernetes.{Object}
use tmctl.Kubernetes.Value.{KReference}

-- The platforms that the configuration is made for.
abbrev pub is_static : String → Bool
is_static platform = platform == "digitalocean" || is_docker platform

-- The address of a component on the platform.
abbrev pub address : String → String → String
unfolding ◌<>◌
address platform name =
    if platform == "digitalocean"
    then "${" <> name <> ".PRIVATE_URL}"
    else "http://" <> name <> ":8080"

static_url-none : (p : String) → is_static p ≡ true → static_url p none ≡ panic
unfolding static_url
static_url-none p h = elim (Bool-cases (p == "digitalocean")) [
  | inl e ↦ rw e refl
  | inr e ↦ rw e (rw (rw e at h) refl)
]

static_url-some :
    (p name : String) → is_static p ≡ true → static_url p (some name) ≡ ok (address p name)
unfolding static_url ◌<>◌
static_url-some p name h = elim (Bool-cases (p == "digitalocean")) [
  | inl e ↦ rw e refl
  | inr e ↦ rw e (rw (rw e at h) refl)
]

-- A trigger without a reference to its target, and a source or target of the kind of a trigger.
abbrev pub is_lost : Result (Option Found) → Bool
is_lost (ok (some (trigger t))) = elim (t.target) [ none ↦ true | some ref ↦ false ]
is_lost (ok (some (source s))) = s.kind == "Trigger"
is_lost (ok (some (target t))) = t.kind == "Trigger"
is_lost (ok (some c)) = false
is_lost (ok none) = false
is_lost (err e) = false
is_lost panic = false

-- The trigger's filters, and the address of its target.
abbrev pub entry_for : String → Trigger → String → LocalTriggerSpec
unfolding address
entry_for p t name = record {
  filters = t.filters;
  target = record { url = address p name; component = ""; delivery = none };
}

-- The entry that a trigger gives, under its name: the target is that of its reference, or the
-- component that has been found for it.
abbrev pub given : String → Result (Option Found) → Option (String × LocalTriggerSpec)
unfolding entry_for found_name
given p (ok (some (trigger t))) = elim (t.target) [
  | none ↦ none
  | some ref ↦ some (t.name, entry_for p t ref.name)
]
given p (ok (some (aimed t c))) = some (t.name, entry_for p t (found_name c))
given p (ok (some c)) = none
given p (ok none) = none
given p (err e) = none
given p panic = none

abbrev pub at : String → Option (String × LocalTriggerSpec) → Option LocalTriggerSpec
at n none = none
at n (some (k, e)) = if k == n then some e else none

abbrev pub over : Option LocalTriggerSpec → Option LocalTriggerSpec → Option LocalTriggerSpec
over (some e) old = some e
over none old = old

over_assoc : (a b c : Option LocalTriggerSpec) → over a (over b c) ≡ over (over a b) c
over_assoc (some e) b c = refl
over_assoc none b c = refl

over-insert :
    (n k : String) (e : LocalTriggerSpec) (m : Dict LocalTriggerSpec)
    → lookup n (insert k e m) ≡ over (at n (some (k, e))) (lookup n m)
over-insert n k e m =
    lookup-insert k n e m ∙ elim (Bool-cases (k == n)) [ inl q ↦ rw q refl | inr q ↦ rw q refl ]

module _ (p : String) (static : is_static p ≡ true) where
  abbrev Round :
      Bool
      → (String → Option LocalTriggerSpec)
      → Option (Dict LocalTriggerSpec)
      → Result (Option (Dict LocalTriggerSpec))
      → Type 0
  Round lost new old r =
      ((lost ≡ true) × (r ≡ panic))
      ⊎ ((lost ≡ false)
          × ((m : Option (Dict LocalTriggerSpec)) × (r ≡ ok m)
              × ((n : String) → lookup n (entries m) ≡ over (new n) (lookup n (entries old)))))

  added_named-Round :
      (t : Trigger) (name : String) (old : Option (Dict LocalTriggerSpec))
      → Round false
          (λ n. at n (some (t.name, entry_for p t name)))
          old
          (added p old (some (t, some name)))
  unfolding static_entry added entry_for
  added_named-Round t name old = inr (
    refl,
    (
      some (insert t.name (entry_for p t name) (entries old)),
      rw (static_url-some p name static) refl,
      λ n. over-insert n t.name (entry_for p t name) (entries old),
    ),
  )

  added_lost-Round :
      (t : Trigger) (old : Option (Dict LocalTriggerSpec))
      → Round true (λ n. none) old (added p old (some (t, none)))
  unfolding added
  added_lost-Round t old = inl (refl, rw (static_url-none p static) refl)

-- No look-up of an object's name panics.
abbrev pub Finds : (String → Result (Option Found)) → List Object → Type 0
Finds look_up objects = All (λ o. look_up o.metadata.name ≢ panic) objects

module _ (p : String) (look_up : String → Result (Option Found)) where
  -- The last entry that an object gives for a name.
  abbrev pub last_entry : String → List Object → Option LocalTriggerSpec
  last_entry n [] = none
  last_entry n (o ∷ os) = over (last_entry n os) (at n (given p (look_up o.metadata.name)))

module _ (p : String) (look_up : String → Result (Option Found)) (static : is_static p ≡ true) where
  abbrev RoundOf : Option (Dict LocalTriggerSpec) → Result (Option Found) → Type 0
  RoundOf old r =
      Round p static (is_lost r) (λ n. at n (given p r)) old (static_round p look_up r old)

  trigger-Round :
      (t : Trigger) (old : Option (Dict LocalTriggerSpec)) (ref : Option KReference)
      → t.target ≡ ref
      → RoundOf old (ok (some (trigger t)))
  unfolding static_round as_trigger found_kind
  trigger-Round t old none e = rw e (added_lost-Round p static (record t { target = none }) old)
  trigger-Round t old (some ref) e =
      rw e (added_named-Round p static (record t { target = some ref }) ref.name old)

  -- A component that is no trigger: its entry is none, and it is lost if its kind is that of one.
  kind-Round :
      (kind : String) (old : Option (Dict LocalTriggerSpec))
      → Round p static
          (kind == trigger_kind)
          (λ n. none)
          old
          (if kind == trigger_kind then added p old none else ok old)
  unfolding added
  kind-Round kind old = elim (Bool-cases (kind == trigger_kind)) [
    | inl e ↦ rw e (inl (refl, refl))
    | inr e ↦ rw e (inr (refl, (old, refl, λ n. refl)))
  ]

  static_round-Round :
      (r : Result (Option Found)) (old : Option (Dict LocalTriggerSpec)) → r ≢ panic → RoundOf old r
  unfolding static_round as_trigger found_kind
  static_round-Round (ok none) old h = inr (refl, (old, refl, λ n. refl))
  static_round-Round (ok (some (trigger t))) old h = trigger-Round t old t.target refl
  static_round-Round (ok (some (aimed t c))) old h = added_named-Round p static t (found_name c) old
  static_round-Round (ok (some (source s))) old h = kind-Round s.kind old
  static_round-Round (ok (some (target t))) old h = kind-Round t.kind old
  static_round-Round (ok (some (transformation t))) old h = kind-Round "transformation" old
  static_round-Round (ok (some (broker b))) old h = kind-Round broker_kind old
  static_round-Round (ok (some (service s))) old h = kind-Round "Service" old
  static_round-Round (ok (some (secret s))) old h = kind-Round "Secret" old
  static_round-Round (err e) old h = inr (refl, (old, refl, λ n. refl))
  static_round-Round panic old h = absurd (h refl)

  static_triggers-Round :
      (objects : List Object) (old : Option (Dict LocalTriggerSpec))
      → Finds look_up objects
      → Round p static
          (any (λ o. is_lost (look_up o.metadata.name)) objects)
          (λ n. last_entry p look_up n objects)
          old
          (static_triggers p look_up objects old)
  unfolding static_triggers
  static_triggers-Round [] old h = inr (refl, (old, refl, λ n. refl))
  static_triggers-Round (o ∷ os) old (x, h) =
      elim (static_round-Round (look_up o.metadata.name) old x) [
        | inl (l, e) ↦ inl (rw l refl, rw e refl)
        | inr (l, (m, e, s)) ↦ elim (static_triggers-Round os m h) [
          | inl (k, f) ↦ inl (rw (l, k) refl, rw e f)
          | inr (k, (m', f, s')) ↦ inr (
            rw (l, k) refl,
            (
              m',
              rw e f,
              λ n.
                  s' n
                  ∙ ap (over (last_entry p look_up n os)) (s n)
                  ∙ over_assoc (last_entry p look_up n os)
                      (at n (given p (look_up o.metadata.name))) (lookup n (entries old)),
            ),
          )
        ]
      ]

  -- For a platform of containers, where no look-up of an object's name panics: the configuration
  -- panics if some object gives a trigger without a target, or a source or target of the kind
  -- "Trigger", and else it has, for each name, the last entry that an object gives for it, with the
  -- trigger's filters and the address of its target on the platform.
  pub static_broker_config_lem :
      (to_json : Configuration → Result String) (objects : List Object)
      → Finds look_up objects
      → ((any (λ o. is_lost (look_up o.metadata.name)) objects ≡ true)
          × (static_broker_config to_json p look_up objects ≡ panic))
        ⊎ ((any (λ o. is_lost (look_up o.metadata.name)) objects ≡ false)
            × ((m : Option (Dict LocalTriggerSpec)) × (static_broker_config to_json p look_up
                    objects
                  ≡ to_json (record { triggers = m }))
                × ((n : String) → lookup n (entries m) ≡ last_entry p look_up n objects)))
  unfolding static_broker_config lookup
  static_broker_config_lem to_json objects h = elim (static_triggers-Round objects none h) [
    | inl (l, e) ↦ inl (l, rw e refl)
    | inr (l, (m, e, s)) ↦
        inr (l, (m, rw e refl, λ n. s n ∙ over-none (last_entry p look_up n objects)))
  ]
    where
      over-none : (a : Option LocalTriggerSpec) → over a none ≡ a
      over-none (some e) = refl
      over-none none = refl
