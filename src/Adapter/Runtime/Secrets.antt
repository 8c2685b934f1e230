-- ===== src/Adapter/Runtime/Secrets.antt =====
-- The loop of `RuntimeParams` over the adapter's variables, and the attributes of events.
use tmctl.Base.{
  String, Bool, false, ◌||◌, any, All, Option, none, some, List, [], ◌∷◌, Result, ok, err, panic,
  ◌==◌, if◌then◌else◌, String_eq, Dict, lookup, delete, arith, eq_iff, ◌≡◌, ◌≢◌, ◌⊎◌, refl, ◌∙◌,
  lookup-delete, Bool-cases, inl, inr,
}
use tmctl.Adapter.{Library, EnvVar}
use tmctl.Adapter.Ce
use tmctl.Adapter.Runtime.{resolve, event_attributes, normal, normal_types}
use tmctl.Adapter.Ce.{Attributes}
use tmctl.Kubernetes.{Object}

-- Whether a variable refers to the secret.
abbrev pub refers : String → EnvVar → Bool
refers key v = elim (v.secret_key) [ none ↦ false | some k ↦ k == key ]

abbrev pub IsPlain : EnvVar → Type 0
IsPlain v = v.secret_key ≡ none

absent_lem :
    (k key : String) (extra : Dict String) (b : Bool)
    → lookup k extra ≡ none
    → (if b then none else lookup key extra) ≡ (if k == key || b then none else lookup key extra)
absent_lem k key extra b f = elim (Bool-cases (k == key)) [
  | inl e ↦ rw e (rw⁻¹ ((eq_iff k key).0 e) (rw f (ground arith)))
  | inr e ↦ rw e refl
]

deleted_lem :
    (k key : String) (extra : Dict String) (b : Bool)
    → (if b then none else lookup key (delete k extra))
      ≡ (if k == key || b then none else lookup key extra)
deleted_lem k key extra b = rw (lookup-delete k key extra) (ground arith)

abbrev Resolves : List EnvVar → Dict String → String → Type 0
Resolves vs extra key =
    All IsPlain (resolve vs extra).0
    × (lookup key (resolve vs extra).1 ≡ (if any (refers key) vs then none else lookup key extra))

resolve-reference :
    (v : EnvVar) (vs : List EnvVar) (extra : Dict String) (key k : String) (r : Option String)
    → v.secret_key ≡ some k
    → lookup k extra ≡ r
    → ((left : Dict String) → Resolves vs left key)
    → Resolves (v ∷ vs) extra key
unfolding resolve
resolve-reference v vs extra key k none e f ih =
    let (h, l) = ih extra in
    rw e (rw (f, All, resolve) (h, l ∙ absent_lem k key extra (any (refers key) vs) f))
resolve-reference v vs extra key k (some secret) e f ih =
    let (h, l) = ih (delete k extra) in
    rw e (rw (f, All, resolve) ((refl, h), l ∙ deleted_lem k key extra (any (refers key) vs)))

resolve-cons :
    (v : EnvVar) (vs : List EnvVar) (extra : Dict String) (key : String) (r : Option String)
    → v.secret_key ≡ r
    → ((left : Dict String) → Resolves vs left key)
    → Resolves (v ∷ vs) extra key
unfolding resolve
resolve-cons v vs extra key none e ih = let (h, l) = ih extra in rw e ((refl, h), l)
resolve-cons v vs extra key (some k) e ih =
    resolve-reference v vs extra key k (lookup k extra) e refl ih

-- The variables for the adapter hold no reference to a secret any more, and a secret is left exactly
-- if no variable refers to it.
pub resolve_lem :
    (vs : List EnvVar) (extra : Dict String) (key : String)
    → All IsPlain (resolve vs extra).0
      × (lookup key (resolve vs extra).1 ≡ (if any (refers key) vs then none else lookup key extra))
unfolding resolve
resolve_lem [] extra key = (tt, refl)
resolve_lem (v ∷ vs) extra key =
    resolve-cons v vs extra key v.secret_key refl (λ left. resolve_lem vs left key)

abbrev pub IsWild : String → Type 0
IsWild t = (t ≡ "*") ⊎ (t ≡ "-")

normal-source : (s : String) → ¬ IsWild (if s == "*" || s == "-" then "" else s)
normal-source s w = elim (Bool-cases (s == "*" || s == "-")) [
  | inl e ↦ elim (rw e at w) [ inl p ↦ cc p | inr p ↦ cc p ]
  | inr e ↦ elim (rw e at w) [
    | inl p ↦ ground (arith, eq_iff s "*")
    | inr p ↦ ground (arith, eq_iff s "-")
  ]
]

normal-types : (ts : List String) (t : String) → IsWild t → normal_types ts ≢ t ∷ []
normal-types [] t w p = cc p
normal-types (u ∷ []) t w p = elim (Bool-cases (u == "*" || u == "-")) [
  | inl e ↦ cc (rw e at p)
  | inr e ↦ elim w [
    | inl q ↦ ground (arith, (rw e at p), eq_iff u "*")
    | inr q ↦ ground (arith, (rw e at p), eq_iff u "-")
  ]
]
normal-types (u ∷ v ∷ ts) t w p = cc p

-- No attribute that a component gets is a wildcard.
pub event_attributes_lem :
    (lib : Library) (o : Object) (a : Attributes)
    → event_attributes lib o ≡ ok a
    → ¬ IsWild a.produced_source
      × ((t : String) → IsWild t → (a.produced_types ≢ t ∷ []) × (a.accepted_types ≢ t ∷ []))
unfolding event_attributes
event_attributes_lem lib o a h = by_result (Ce.attributes lib o) refl
  where
    by_result :
        (r : Result Attributes)
        → Ce.attributes lib o ≡ r
        → ¬ IsWild a.produced_source
          × ((t : String) → IsWild t → (a.produced_types ≢ t ∷ []) × (a.accepted_types ≢ t ∷ []))
    by_result (ok b) e =
        let p : ok (normal b) ≡ ok a = rw (e, event_attributes) at h in
        let q : normal b ≡ a = cc p in
        rw⁻¹ q (
          normal-source b.produced_source,
          λ t w. (normal-types b.produced_types t w, normal-types b.accepted_types t w),
        )
    by_result (err z) e = absurd (cc (rw (e, event_attributes) at h))
    by_result panic e = absurd (cc (rw (e, event_attributes) at h))
