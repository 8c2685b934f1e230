-- ===== src/Crd/Process.antt =====
-- `Process` of pkg/triggermesh/crd/schema.go: the texts of a spec are given the types of the schema.
-- The Go code writes into the map that it is given; here the result is a new one, so what a failed
-- call has written already is not seen. `gopkg.in/yaml.v3` and `strconv.Atoi` are the parameter
-- `Parsers`. In a message a key stands in plain quotes, and the type of a value is left out.
pub mod Conversion
pub mod Types
use tmctl.Base.{
  ℕ, String, Bool, true, false, ◌||◌, ◌&&◌, Dict, lookup, Option, none, some, List, [], ◌∷◌, map,
  Result, ok, err, panic, wrap, ◌>>=◌, ◌<>◌, ◌==◌, if◌then◌else◌, String_eq, split, join,
}
use tmctl.Crd.Schema.{
  Schema, schema, Properties, done, property, Additional, no_additional, no_schema, additional,
  ItemSchema, no_items, items, Schemas, last, choice, types, keys,
}
use tmctl.Kubernetes.Value.{
  ℤ, Value, text, flag, int, int64, texts, arr, obj, Items, nil, cons, Fields, end, field, put,
}

-- `atoi` gives the number also where it gives an error.
pub record Parsers : Type 0 where
  pub atoi : String → ℤ × Option String
  pub yaml_object : String → Result Fields
  pub yaml_objects : String → Result (List Fields)

-- The parts of a pair, cut at a colon or else at an equals sign.
abbrev two_parts : List String → Option (String × String)
two_parts (key ∷ value ∷ []) = some (key, value)
two_parts parts = none

unfoldable pub cut_pair : String → Result (String × String)
unfolding split ◌<>◌
cut_pair pair = elim (two_parts (split b':' pair)) [
  | some kv ↦ ok kv
  | none ↦ elim (two_parts (split b'=' pair)) [
    | some kv ↦ ok kv
    | none ↦ err ("cannot split \"" <> pair <> "\" into key-value pair")
  ]
]

-- The elements of an array, where `nested` processes an object. One that fails is dropped.
unfoldable pub process_elements : (Fields → Result Fields) → Items → Result Items
process_elements nested nil = ok nil
process_elements nested (cons (obj fs) xs) = elim (nested fs) [
  | ok fs' ↦ process_elements nested xs >>= λ ys. ok (cons (obj fs') ys)
  | err e ↦ process_elements nested xs
  | panic ↦ panic
]
process_elements nested (cons x xs) = process_elements nested xs >>= λ ys. ok (cons x ys)

abbrev objects : List Fields → Items
objects [] = nil
objects (fs ∷ rest) = cons (obj fs) (objects rest)

-- What `strings.Split` makes of a text for an array.
unfoldable pub array_texts : String → List String
unfolding split
array_texts s = elim (split b' ' s) [ one ∷ [] ↦ split b',' s | parts ↦ parts ]

abbrev only_object : List String → Bool
only_object (type ∷ []) = type == "object"
only_object type = false

module _ (y : Parsers) where
  -- A value of an additional property of the type.
  unfoldable pub typed_value : String → String → Result Value
  unfolding ◌<>◌
  typed_value type value =
      if type == "string" || type == "object"
      then ok (text value)
      else if type == "boolean"
      then ok (flag (value == "true"))
      else if type == "integer"
      then elim ((y.atoi value).1) [
        | none ↦ ok (int64 (y.atoi value).0)
        | some e ↦ err ("input value type conversion: " <> e)
      ]
      else err ("property type \"" <> type <> "\" is not supported")

  -- The loop over the pairs of a text, which adds to `result`.
  unfoldable pub read_pairs : String → List String → Fields → Result Fields
  unfolding cut_pair typed_value
  read_pairs type [] result = ok result
  read_pairs type (pair ∷ pairs) result = do
    (key, value) ← cut_pair pair
    v ← typed_value type value
    read_pairs type pairs (put key v result)

  abbrev pairs_of : List String → Value → Result Fields
  pairs_of [] v = panic
  pairs_of (type ∷ rest) v = if type == "" then ok end else elim v [
    | text input ↦ read_pairs type (split b',' input) end
    | other ↦ err "input value type is not supported"
  ]

  unfoldable mutual
    unfolding read_pairs split

    pub additional_properties_spec : Schema → Value → Result Fields
    additional_properties_spec s (obj fs) = ok fs
    additional_properties_spec (schema ps a i t r last d) v = pairs_of t v
    additional_properties_spec (schema ps a i t r (choice c cs) d) v = any_of (choice c cs) v end

    -- The last of the schemas that the value fits gives the result.
    pub any_of : Schemas → Value → Fields → Result Fields
    any_of last v result = ok result
    any_of (choice c cs) v result = elim (additional_properties_spec c v) [
      | ok fs ↦ any_of cs v fs
      | err e ↦ any_of cs v result
      | panic ↦ panic
    ]

  -- A function that brings a value of a key into form.
  abbrev pub Step : Type 0
  Step = Value → Result Value

  -- The loop of `Process`, where `steps` has the function of each property.
  unfoldable pub process_fields : Dict Step → Fields → Result Fields
  unfolding lookup ◌<>◌ join
  process_fields steps end = ok end
  process_fields steps (field k v fs) = elim (lookup k steps) [
    | none ↦ err (
        "property \""
        <> k
        <> "\" does not exist, available values are: "
        <> join ", " (map (λ step. step.0) steps))
    | some step ↦ step v >>= λ v'. process_fields steps fs >>= λ fs'. ok (field k v' fs')
  ]

  -- A text for a property of the type "array", with the step for the objects that it may hold.
  abbrev array_value : Option (Fields → Result Fields) → String → Result Value
  array_value none s = ok (texts (array_texts s))
  array_value (some nested) s = elim (y.yaml_objects s) [
    | ok inputs ↦ process_elements nested (objects inputs) >>= λ xs. ok (arr xs)
    | err e ↦ ok (texts (array_texts s))
    | panic ↦ panic
  ]

  abbrev object_value : String → List String → String → Result Value
  unfolding ◌<>◌ join
  object_value k available s = elim (y.yaml_object s) [
    | ok fs ↦ ok (obj fs)
    | err e ↦
        err ("\"" <> k <> "\" is expected to be an object with properties: " <> join ", " available)
    | panic ↦ panic
  ]

  -- The case of a text, for the first of the schema's types.
  unfoldable pub text_value :
      String → List String → List String → Option (Fields → Result Fields) → String → Result Value
  unfolding array_texts process_elements ◌<>◌ join
  text_value k [] available nested s = ok (text s)
  text_value k (type ∷ rest) available nested s =
      if type == "array"
      then array_value nested s
      else if type == "integer"
      then ok (int64 (y.atoi s).0)
      else if type == "boolean"
      then ok (flag (s == "true"))
      else if type == "object"
      then object_value k available s
      else ok (text s)

  -- The `switch` on the type of the value. `own` processes an object by the schema itself, `inner` by
  -- the schema of the items, `panic` where there is none.
  unfoldable pub switch_value :
      String
      → List String
      → List String
      → Option (Fields → Result Fields)
      → (Fields → Result Fields)
      → (Fields → Result Fields)
      → Step
  unfolding text_value process_elements
  switch_value k type available nested own inner (text s) = text_value k type available nested s
  switch_value k type available nested own inner (int n) = ok (int64 n)
  switch_value k type available nested own inner (obj fs) = own fs >>= λ fs'. ok (obj fs')
  switch_value k type available nested own inner (arr xs) =
      process_elements inner xs >>= λ ys. ok (arr ys)
  switch_value k type available nested own inner v = ok v

  unfoldable mutual
    unfolding process_fields switch_value additional_properties_spec keys

    -- What the body of the loop makes of a value, where the key has the schema.
    pub process_value : String → Schema → Step
    process_value k (schema ps no_schema i t r c d) v =
        err ("additional properties schema is missing in \"" <> k <> "\"")
    process_value k (schema ps (additional s) i t r c d) v =
        wrap ("additional properties \"" <> k <> "\"") (additional_properties_spec s v) >>= λ fs.
        ok (obj fs)
    process_value k (schema ps no_additional no_items t r c d) v =
        switch_value k t (keys ps) none (process_fields (steps ps)) (λ fs. panic) v
    process_value k (schema ps no_additional (items s) t r c d) v =
        switch_value k t (keys ps) (if only_object (types s) then some (process s) else none)
          (process_fields (steps ps)) (process s) v

    pub steps : Properties → Dict Step
    steps done = []
    steps (property k s ps) = (k, process_value k s) ∷ steps ps

    pub process : Schema → Fields → Result Fields
    process (schema ps a i t r c d) fs = process_fields (steps ps) fs
