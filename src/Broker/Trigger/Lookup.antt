-- ===== src/Broker/Trigger/Lookup.antt =====
-- `LookupTarget` and `GetTargetTriggers` find what `WriteLocalConfig` has written.
use tmctl.Base.{
  String, false, ◌≡◌, refl, ◌∙◌, none, some, List, [], ◌∷◌, ok, Dict, lookup, insert, lookup-insert,
  arith, eq_refl, ◌==◌, String_eq, if◌then◌else◌, map, All, Option, Result, err, panic, Bool-cases,
  inl, inr, ap, sym,
}
use tmctl.Disk.{Disk, IsLawful as IsLawfulDisk}
use tmctl.Kubernetes.Value.{KReference}
use tmctl.Broker.Config.{
  LocalTriggerSpec, Tools, Trigger, config_file, read_broker_config, write_local_config,
}
use tmctl.Broker.Config.Entries.{IsLawful, stored, entry_of, stored_ok, write_local_config-insert}
use tmctl.Broker.Trigger.{
  new_trigger, trigger_name, lookup_target, looked_up, select_triggers, get_target_triggers,
  broker_kind,
}

-- The names of the entries whose target is this component.
abbrev pub names_for : String → Dict LocalTriggerSpec → List String
names_for target [] = []
names_for target ((name, spec) ∷ m) =
    let rest = names_for target m in if spec.target.component == target then name ∷ rest else rest

-- No entry has the empty name.
abbrev pub Named : Dict LocalTriggerSpec → Type 0
Named = All (λ (name, _). (name == "") ≡ false)

-- A trigger with a name, and with neither target nor filter.
abbrev pub bare : String → String → String → Trigger
bare name broker base = record {
  name = name;
  config_base = base;
  local_url = none;
  broker = record {
    kind = broker_kind;
    name = broker;
    api_version = "";
    group = "eventing.triggermesh.io";
  };
  filters = [];
  target = none;
}

abbrev parsed_url : Result (Option String) → Option String
parsed_url (ok (some url)) = some url
parsed_url r = none

module _ (d : Disk) (x : Tools d) where
  -- The trigger that an entry of the file describes.
  abbrev described : String → String → String → LocalTriggerSpec → Trigger
  described name broker base spec = record {
    name = name;
    config_base = base;
    local_url = parsed_url (x.parse_url spec.target.url);
    broker = record {
      kind = "RedisBroker";
      name = broker;
      api_version = "";
      group = "eventing.triggermesh.io";
    };
    filters = spec.filters;
    target =
        some (record { kind = ""; name = spec.target.component; api_version = ""; group = "" });
  }

  -- The triggers of these names, each by the entry that the file has for its name.
  abbrev pub described_triggers :
      List String → String → String → Dict LocalTriggerSpec → List Trigger
  described_triggers [] broker base m = []
  described_triggers (name ∷ names) broker base m = elim (lookup name m) [
    | none ↦ described_triggers names broker base m
    | some spec ↦ described name broker base spec ∷ described_triggers names broker base m
  ]

  pub new_trigger-bare :
      (name broker base : String)
      → (name == "") ≡ false
      → new_trigger d x name broker base none none ≡ ok (bare name broker base)
  unfolding new_trigger
  new_trigger-bare name broker base h = rw (h, trigger_name)

  abbrev pub target_triggers :
      d.State → String → String → String → Dict LocalTriggerSpec → List Trigger
  target_triggers s target broker base m =
      map (λ name. lookup_target d x s (bare name broker base)) (names_for target m)

  pub select_triggers_lem :
      (s : d.State) (target broker base : String) (m : Dict LocalTriggerSpec)
      → Named m
      → select_triggers d x s target broker base m ≡ ok (target_triggers s target broker base m)
  unfolding select_triggers
  select_triggers_lem s target broker base [] h = refl
  select_triggers_lem s target broker base ((name, spec) ∷ m) h =
      ground
        (arith, select_triggers_lem s target broker base m h.1, new_trigger-bare name broker base)

module _ (d : Disk) (dl : IsLawfulDisk d) (x : Tools d) (xl : IsLawful d x) where
  lookup_target_found :
      (s : d.State) (t : Trigger) (m : Dict LocalTriggerSpec) (spec : LocalTriggerSpec)
      → stored d x s (config_file t.config_base t.broker.name) ≡ ok m
      → lookup t.name m ≡ some spec
      → lookup_target d x s t ≡ looked_up d x spec t
  unfolding lookup_target
  lookup_target_found s t m spec there found =
      let (c, e, same) =
        stored_ok d dl x xl (read_broker_config d x s (config_file t.config_base t.broker.name))
          there in
      rw (e, lookup_target) (rw (same, found))

  -- With files and YAML that obey their laws: a trigger that is written and looked up again, by a
  -- trigger value that knows no more than its name, its broker and its configuration folder, has
  -- the filters and the name of the target that were written, and the URL if it parses to itself.
  pub lookup_target-write_local_config :
      (t t' : Trigger) (ref : KReference) (url : String) (s : d.State) (m : Dict LocalTriggerSpec)
      → t.target ≡ some ref
      → t.local_url ≡ some url
      → x.parse_url url ≡ ok (some url)
      → stored d x s (config_file t.config_base t.broker.name) ≡ ok m
      → (write_local_config d x t s).0 ≡ ok tt
      → t'.name ≡ t.name
      → t'.config_base ≡ t.config_base
      → t'.broker.name ≡ t.broker.name
      → lookup_target d x (write_local_config d x t s).1 t' ≡ record t' {
        local_url = t.local_url;
        filters = t.filters;
        target = some (record { kind = ""; name = ref.name; api_version = ""; group = "" });
      }
  lookup_target-write_local_config t t' ref url s m target known parses before done n b k =
      lookup_target_found (write_local_config d x t s).1 t' (insert t.name (entry_of t ref) m)
        (entry_of t ref)
        (rw (b, k) (write_local_config-insert d dl x xl t ref s m target before done))
        (rw (n, lookup-insert, eq_refl))
      ∙ ground arith

  -- The look-up fills in all that the entry says.
  lookup_target-bare :
      (s : d.State) (name broker base : String) (m : Dict LocalTriggerSpec)
      (spec : LocalTriggerSpec)
      → stored d x s (config_file base broker) ≡ ok m
      → lookup name m ≡ some spec
      → lookup_target d x s (bare name broker base) ≡ described d x name broker base spec
  lookup_target-bare s name broker base m spec there found =
      lookup_target_found s (bare name broker base) m spec there found
      ∙ by_url (x.parse_url spec.target.url) refl
    where
      by_url :
          (r : Result (Option String))
          → x.parse_url spec.target.url ≡ r
          → looked_up d x spec (bare name broker base) ≡ described d x name broker base spec
      by_url (ok none) e = rw e refl
      by_url (ok (some u)) e = rw e refl
      by_url (err z) e = rw e refl
      by_url panic e = rw e refl

  -- Each of the names has an entry.
  abbrev Present : Dict LocalTriggerSpec → List String → Type 0
  Present m = All (λ name. (spec : LocalTriggerSpec) × (lookup name m ≡ some spec))

  Present-cons :
      (name : String) (spec : LocalTriggerSpec) (m : Dict LocalTriggerSpec) (names : List String)
      → Present m names
      → Present ((name, spec) ∷ m) names
  unfolding lookup
  Present-cons name spec m [] h = tt
  Present-cons name spec m (n ∷ ns) h = (
    elim (Bool-cases (name == n)) [
      | inl e ↦ (spec, rw (e, lookup) refl)
      | inr e ↦ (h.0.0, rw (e, lookup) h.0.1)
    ],
    Present-cons name spec m ns h.1,
  )

  names_for-Present : (target : String) (m : Dict LocalTriggerSpec) → Present m (names_for target m)
  unfolding lookup
  names_for-Present target [] = tt
  names_for-Present target ((name, spec) ∷ m) =
      let later = Present-cons name spec m (names_for target m) (names_for-Present target m) in
      elim (Bool-cases (spec.target.component == target)) [
        | inl e ↦ rw e ((spec, rw (eq_refl, lookup) refl), later)
        | inr e ↦ rw e later
      ]

  described_found :
      (n : String) (ns : List String) (broker base : String) (m : Dict LocalTriggerSpec)
      (spec : LocalTriggerSpec)
      → lookup n m ≡ some spec
      → described_triggers d x (n ∷ ns) broker base m
        ≡ described d x n broker base spec ∷ described_triggers d x ns broker base m
  described_found n ns broker base m spec found = rw (found, described_triggers) refl

  map-lookup_target :
      (s : d.State) (broker base : String) (m : Dict LocalTriggerSpec) (names : List String)
      → stored d x s (config_file base broker) ≡ ok m
      → Present m names
      → map (λ name. lookup_target d x s (bare name broker base)) names
        ≡ described_triggers d x names broker base m
  map-lookup_target s broker base m [] there h = refl
  map-lookup_target s broker base m (n ∷ ns) there h =
      let ((spec, found), later) = h in
      ap (λ t. t ∷ map (λ name. lookup_target d x s (bare name broker base)) ns)
        (lookup_target-bare s n broker base m spec there found)
      ∙ ap (λ ts. described d x n broker base spec ∷ ts)
          (map-lookup_target s broker base m ns there later)
      ∙ sym (described_found n ns broker base m spec found)

  -- With files and YAML that obey their laws: `GetTargetTriggers` gives the triggers of all entries
  -- whose target is the component, in their order, and no other, if no entry has the empty name.
  -- Each has its name, its broker, its configuration folder, and from its entry the filters, the
  -- name of the target, and the address of the target where it parses as a URL.
  pub get_target_triggers_lem :
      (s : d.State) (target broker base : String) (m : Dict LocalTriggerSpec)
      → stored d x s (config_file base broker) ≡ ok m
      → Named m
      → get_target_triggers d x s target broker base
        ≡ ok (described_triggers d x (names_for target m) broker base m)
  unfolding get_target_triggers
  get_target_triggers_lem s target broker base m there named =
      let (c, e, same) =
        stored_ok d dl x xl (read_broker_config d x s (config_file base broker)) there in
      rw (e, get_target_triggers) (rw same (select_triggers_lem d x s target broker base m named))
      ∙ ap ok (
          map-lookup_target s broker base m (names_for target m) there (names_for-Present target m))
