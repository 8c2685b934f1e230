-- ===== src/Crd/Process/Conversion.antt =====
-- The values that `Process` of pkg/triggermesh/crd/schema.go makes of those of a spec.
use tmctl.Base.{
  String, Bool, true, false, Option, none, some, List, [], ◌∷◌, Result, ok, err, panic, >>=-ok,
  wrap, ◌<>◌, ◌==◌, if◌then◌else◌, String_eq, ◌≡◌, refl, ap, ◌∙◌, any, split, ◌⊎◌, Bool-cases, inl,
  inr, eq_iff,
}
use tmctl.Crd.Process.{
  Parsers, array_texts, only_object, process_elements, objects, array_value, object_value,
  text_value, switch_value, process_value, process, additional_properties_spec,
}
use tmctl.Crd.Schema.{
  Schema, schema, no_additional, no_schema, additional, no_items, items, keys, types,
}
use tmctl.Kubernetes.Value.{Value, text, texts, flag, int, int64, Items, arr, obj, Fields}

-- A list of texts or of values.
abbrev pub is_array : Value → Bool
is_array (texts ss) = true
is_array (arr xs) = true
is_array v = false

-- The pieces of a text between its spaces or between its commas, or the values of a YAML text.
abbrev pub Pieces : String → Value → Type 0
Pieces s w = (w ≡ texts (split b' ' s)) ⊎ (w ≡ texts (split b',' s)) ⊎ ((xs : Items) × (w ≡ arr xs))

-- The value for a text, by the first of the types.
abbrev pub FromText : Parsers → List String → String → Value → Type 0
FromText y [] s w = w ≡ text s
FromText y (type ∷ rest) s w =
    ((type ≡ "array") × Pieces s w)
    ⊎ ((type ≡ "integer") × (w ≡ int64 (y.atoi s).0))
    ⊎ ((type ≡ "boolean") × (w ≡ flag (s == "true")))
    ⊎ ((type ≡ "object") × ((gs : Fields) × (y.yaml_object s ≡ ok gs) × (w ≡ obj gs)))
    ⊎ ((any (λ t. type == t) ("array" ∷ "integer" ∷ "boolean" ∷ "object" ∷ []) ≡ false)
        × (w ≡ text s))

-- The value for a value of a key with this schema.
abbrev pub Converted : Parsers → Schema → Value → Value → Type 0
Converted y s (text t) w = FromText y (types s) t w
Converted y s (int n) w = w ≡ int64 n
Converted y s (obj fs) w = (gs : Fields) × (process y s fs ≡ ok gs) × (w ≡ obj gs)
Converted y s (arr xs) w = is_array w ≡ true
Converted y s v w = w ≡ v

-- With additional properties the value is an object of what is read for them.
abbrev pub Fits : Parsers → Schema → Value → Value → Type 0
Fits y (schema ps no_additional i t r c d) v w = Converted y (schema ps no_additional i t r c d) v w
Fits y (schema ps no_schema i t r c d) v w = ⊥
Fits y (schema ps (additional s) i t r c d) v w =
    (gs : Fields) × (additional_properties_spec y s v ≡ ok gs) × (w ≡ obj gs)

value_of : (v w : Value) → ok v ≡ ok w → w ≡ v
value_of v w h = cc h

module _ (y : Parsers) where
  array_texts-Pieces : (s : String) (w : Value) → w ≡ texts (array_texts s) → Pieces s w
  unfolding array_texts
  array_texts-Pieces s w h = by_parts (split b' ' s) refl
    where
      by_parts : (parts : List String) → split b' ' s ≡ parts → Pieces s w
      by_parts [] e = inl (h ∙ rw (e, array_texts) refl)
      by_parts (one ∷ []) e = inr (inl (h ∙ rw (e, array_texts) refl))
      by_parts (one ∷ two ∷ more) e = inl (h ∙ rw (e, array_texts) refl)

  array_value-Pieces :
      (nested : Option (Fields → Result Fields)) (s : String) (w : Value)
      → array_value y nested s ≡ ok w
      → Pieces s w
  array_value-Pieces none s w h = array_texts-Pieces s w (value_of _ w h)
  array_value-Pieces (some nested) s w h = by_parse (y.yaml_objects s) refl
    where
      by_parse : (r : Result (List Fields)) → y.yaml_objects s ≡ r → Pieces s w
      by_parse (ok inputs) e =
          let (xs, k, p) =
            >>=-ok (process_elements nested (objects inputs)) (λ xs. ok (arr xs))
              (rw (e, array_value) at h) in
          inr (inr (xs, value_of (arr xs) w k))
      by_parse (err z) e = array_texts-Pieces s w (value_of _ w (rw (e, array_value) at h))
      by_parse panic e = absurd (cc (rw (e, array_value) at h))

  object_value-obj :
      (k s : String) (available : List String) (w : Value) (r : Result Fields)
      → y.yaml_object s ≡ r
      → object_value y k available s ≡ ok w
      → (gs : Fields) × (y.yaml_object s ≡ ok gs) × (w ≡ obj gs)
  unfolding object_value
  object_value-obj k s available w (ok fs) e h =
      (fs, e, value_of (obj fs) w (rw (e, object_value) at h))
  object_value-obj k s available w (err z) e h = absurd (cc (rw (e, object_value) at h))
  object_value-obj k s available w panic e h = absurd (cc (rw (e, object_value) at h))

  text_value-FromText :
      (k : String) (type available : List String) (nested : Option (Fields → Result Fields))
      (s : String) (w : Value)
      → text_value y k type available nested s ≡ ok w
      → FromText y type s w
  unfolding text_value
  text_value-FromText k [] available nested s w h = value_of _ w h
  text_value-FromText k (type ∷ rest) available nested s w h = elim (Bool-cases (type == "array")) [
    | inl a ↦
        inl ((eq_iff type "array").0 a, array_value-Pieces nested s w (rw (a, text_value) at h))
    | inr a ↦ by_scalar a (rw (a, text_value) at h)
  ]
    where
      by_object :
          (type == "array") ≡ false
          → (type == "integer") ≡ false
          → (type == "boolean") ≡ false
          → (if type == "object" then object_value y k available s else ok (text s)) ≡ ok w
          → FromText y (type ∷ rest) s w
      by_object a b c g = elim (Bool-cases (type == "object")) [
        | inl o ↦ inr (
            inr (
              inr (
                inl (
                  (eq_iff type "object").0 o,
                  object_value-obj k s available w (y.yaml_object s) refl (rw o at g),
                ))))
        | inr o ↦ inr (inr (inr (inr (rw (a, b, c, o) refl, value_of (text s) w (rw o at g)))))
      ]

      by_scalar :
          (type == "array") ≡ false
          → (if type == "integer"
              then ok (int64 (y.atoi s).0)
              else if type == "boolean"
              then ok (flag (s == "true"))
              else if type == "object"
              then object_value y k available s
              else ok (text s))
            ≡ ok w
          → FromText y (type ∷ rest) s w
      by_scalar a g = elim (Bool-cases (type == "integer")) [
        | inl b ↦ inr (inl ((eq_iff type "integer").0 b, value_of _ w (rw b at g)))
        | inr b ↦ elim (Bool-cases (type == "boolean")) [
          | inl c ↦
              inr (inr (inl ((eq_iff type "boolean").0 c, value_of _ w (rw c at (rw b at g)))))
          | inr c ↦ by_object a b c (rw c at (rw b at g))
        ]
      ]

  switch_value-Converted :
      (k : String) (available : List String) (nested : Option (Fields → Result Fields))
      (inner : Fields → Result Fields) (s : Schema) (v w : Value)
      → switch_value y k (types s) available nested (process y s) inner v ≡ ok w
      → Converted y s v w
  unfolding switch_value
  switch_value-Converted k available nested inner s (text t) w h =
      text_value-FromText k (types s) available nested t w h
  switch_value-Converted k available nested inner s (obj fs) w h =
      let (gs, e, p) = >>=-ok (process y s fs) (λ fs'. ok (obj fs')) h in
      (gs, p, value_of (obj gs) w e)
  switch_value-Converted k available nested inner s (arr xs) w h =
      let (ys, e, p) = >>=-ok (process_elements inner xs) (λ ys. ok (arr ys)) h in
      ap is_array (value_of (arr ys) w e)
  switch_value-Converted k available nested inner s (int n) w h = value_of (int64 n) w h
  switch_value-Converted k available nested inner s v w h = value_of v w h

  pub process_value-Fits :
      (k : String) (s : Schema) (v w : Value) → process_value y k s v ≡ ok w → Fits y s v w
  unfolding process_value process
  process_value-Fits k (schema ps no_schema i t r c d) v w h = absurd (cc h)
  process_value-Fits k (schema ps (additional a) i t r c d) v w h =
      let (fs, e, p) =
        >>=-ok (wrap ("additional properties \"" <> k <> "\"") (additional_properties_spec y a v))
          (λ fs. ok (obj fs)) h in
      (fs, wrap-ok (additional_properties_spec y a v) refl p, value_of (obj fs) w e)
    where
      wrap-ok :
          {fs : Fields} (r : Result Fields)
          → additional_properties_spec y a v ≡ r
          → wrap ("additional properties \"" <> k <> "\"") r ≡ ok fs
          → additional_properties_spec y a v ≡ ok fs
      wrap-ok (ok gs) q p = q ∙ p
      wrap-ok (err z) q p = absurd (cc p)
      wrap-ok panic q p = absurd (cc p)
  process_value-Fits k (schema ps no_additional no_items t r c d) v w h =
      switch_value-Converted k (keys ps) none (λ fs. panic)
        (schema ps no_additional no_items t r c d) v w h
  process_value-Fits k (schema ps no_additional (items s) t r c d) v w h =
      switch_value-Converted k (keys ps)
        (if only_object (types s) then some (process y s) else none) (process y s)
        (schema ps no_additional (items s) t r c d) v w h
