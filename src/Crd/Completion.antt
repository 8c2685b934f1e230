-- ===== src/Crd/Completion.antt =====
-- `GetAttributesCompletion` of pkg/triggermesh/crd/schema.go: the properties that the command line can
-- complete at a path.
use tmctl.Base.{
  String, Bool, true, false, ◌||◌, Option, none, some, List, [], ◌∷◌, any, ◌==◌, if◌then◌else◌,
  String_eq, Dict, insert, lookup, lookup-insert, join, ◌≡◌, ◌⊎◌, inl, inr, sym, ap, ◌∙◌, eq_iff,
  Bool-cases,
}
use tmctl.Crd.Schema.{
  Schema, Properties, done, property, properties, types, required, description, find,
}
use tmctl.Crd.Secrets.{secret_ref}

-- The new lines of the description are spaces.
pub record Property : Type 0 where
  pub required : Bool
  pub type : String
  pub description : String

-- The properties at the path. An empty key stays where it is.
unfoldable pub walk : List String → Properties → Option Properties
unfolding find
walk [] ps = some ps
walk (key ∷ path) ps =
    if key == ""
    then walk path ps
    else elim (find key ps) [ none ↦ none | some s ↦ walk path (properties s) ]

unfoldable pub is_hidden : Properties → String → Bool
unfolding find
is_hidden ps name =
    (elim (find "valueFromSecret" ps) [ none ↦ false | some s ↦ name == "value" ])
    || name == "sink"
    || name == "valueFromSecret"
    || name == "secretKeyRef"

abbrev is_some {ℓ} : {A : Type ℓ} → Option A → Bool
is_some none = false
is_some (some a) = true

-- `without_lines` is `strings.ReplaceAll(s, "\n", " ")`. `needed` are the required properties.
module _ (without_lines : String → String) (needed : List String) where
  unfoldable pub property_of : String → Schema → Property
  unfolding secret_ref join
  property_of name s = record {
    required = any (λ r. r == name) needed;
    type = if is_some (secret_ref (properties s)) then "string/secret" else join "," (types s);
    description = without_lines (description s);
  }

  -- The loop over the properties; `all` are those at the path.
  unfoldable pub gather : Properties → Properties → Dict Property → Dict Property
  unfolding is_hidden property_of insert
  gather all done result = result
  gather all (property name s ps) result =
      gather all ps (if is_hidden all name then result else insert name (property_of name s) result)

-- Whether the path is there, and the properties at it.
unfoldable pub get_attributes_completion :
    (String → String) → Schema → List String → Bool × Dict Property
unfolding walk gather
get_attributes_completion without_lines s path = elim (walk path (properties s)) [
  | none ↦ (false, [])
  | some ps ↦ (true, gather without_lines (required s) ps ps [])
]

-- What is known of an entry that was put there.
entry :
    (f : String → String) (needed : List String) (all : Properties) (name n : String) (s : Schema)
    (p : Property)
    → is_hidden all name ≡ false
    → name ≡ n
    → some (property_of f needed name s) ≡ some p
    → (is_hidden all n ≡ false) × (p.required ≡ any (λ r. r == n) needed)
unfolding property_of
entry f needed all name n s p e same g =
    let put : property_of f needed name s ≡ p = cc g in
    (rw (← same) e, ap (λ q. q.required) (sym put) ∙ ap (λ m. any (λ r. r == m) needed) same)

gathered :
    (f : String → String) (needed : List String) (all ps : Properties) (result : Dict Property)
    (n : String) (p : Property)
    → lookup n (gather f needed all ps result) ≡ some p
    → (lookup n result ≡ some p)
      ⊎ ((is_hidden all n ≡ false) × (p.required ≡ any (λ r. r == n) needed))
unfolding gather
gathered f needed all done result n p h = inl h
gathered f needed all (property name s ps) result n p h = elim (Bool-cases (is_hidden all name)) [
  | inl e ↦ gathered f needed all ps result n p (rw (e, gather) at h)
  | inr e ↦
      elim (gathered f needed all ps (insert name (property_of f needed name s) result) n p
        (rw (e, gather) at h)) [
          | inl found ↦
              by_name e (Bool-cases (name == n))
                (sym (lookup-insert name n (property_of f needed name s) result) ∙ found)
          | inr fine ↦ inr fine
        ]
]
  where
    by_name :
        is_hidden all name ≡ false
        → ((name == n) ≡ true) ⊎ ((name == n) ≡ false)
        → (if name == n then some (property_of f needed name s) else lookup n result) ≡ some p
        → (lookup n result ≡ some p)
          ⊎ ((is_hidden all n ≡ false) × (p.required ≡ any (λ r. r == n) needed))
    by_name e (inl same) g =
        inr (entry f needed all name n s p e ((eq_iff name n).0 same) (rw same at g))
    by_name e (inr other) g = inl (rw other at g)

-- Each property that is completed at a path is not hidden there, and counts as required exactly where
-- the schema itself, not the one at the path, requires a property of its name.
pub get_attributes_completion_lem :
    (f : String → String) (s : Schema) (path : List String) (ps : Properties) (n : String)
    (p : Property)
    → walk path (properties s) ≡ some ps
    → lookup n (get_attributes_completion f s path).1 ≡ some p
    → (is_hidden ps n ≡ false) × (p.required ≡ any (λ r. r == n) (required s))
unfolding get_attributes_completion lookup
get_attributes_completion_lem f s path ps n p w h =
    elim (gathered f (required s) ps ps [] n p (rw (w, get_attributes_completion) at h)) [
      | inl none_there ↦ absurd (cc none_there)
      | inr fine ↦ fine
    ]
