-- ===== src/Transformation/Attributes.antt =====
-- The event attributes of pkg/triggermesh/components/transformation/transformation.go, written and
-- read back.
use tmctl.Base.{
  String, Option, none, some, List, [], ◌∷◌, Result, ok, err, panic, >>=-ok, ◌==◌, String_eq, Dict,
  lookup, ◌≡◌, refl, sym, ap, ◌∙◌, eq_refl, Bool-cases, inl, inr,
}
use tmctl.Kubernetes.Value.{Value, arr, Items, nil, cons, Fields, end, field, get, put}
use tmctl.Transformation.{
  Transformation, path_value, paths_value, or_next, operation_value, operations_value, found,
  context_of, value_in, get_context_transformation_value, attribute_paths, add_operation,
  append_item, with_operation, set_event_attributes,
}

abbrev given : Option String → Option (Result String)
given none = none
given (some v) = some (ok v)

paths_value_lem :
    (key : String) (attributes : Dict String)
    → paths_value key (attribute_paths attributes) ≡ given (lookup key attributes)
unfolding paths_value path_value attribute_paths lookup get
paths_value_lem key [] = refl
paths_value_lem key ((k, v) ∷ rest) = elim (Bool-cases (k == key)) [
  | inl e ↦ rw e refl
  | inr e ↦ rw e (paths_value_lem key rest)
]

operation_value_lem :
    (key : String) (attributes : Dict String)
    → operation_value key (add_operation attributes) ≡ given (lookup key attributes)
unfolding operation_value add_operation get
operation_value_lem key attributes = paths_value_lem key attributes

or_next_assoc : (a b c : Option (Result String)) → or_next a (or_next b c) ≡ or_next (or_next a b) c
or_next_assoc none b c = refl
or_next_assoc (some r) b c = refl

or_next-none : (a : Option (Result String)) → or_next a none ≡ a
or_next-none none = refl
or_next-none (some r) = refl

-- An appended operation comes last.
operations_value-append :
    (key : String) (os : Items) (o : Value)
    → operations_value key (append_item os o)
      ≡ or_next (operations_value key os) (operation_value key o)
unfolding operations_value append_item
operations_value-append key nil o = or_next-none (operation_value key o)
operations_value-append key (cons x os) o =
    ap (or_next (operation_value key x)) (operations_value-append key os o)
    ∙ or_next_assoc (operation_value key x) (operations_value key os) (operation_value key o)

get-put : (k : String) (v : Value) (fs : Fields) → get k (put k v fs) ≡ some v
unfolding get put
get-put k v end = rw (eq_refl k) refl
get-put k v (field j w fs) = elim (Bool-cases (j == k)) [
  | inl e ↦ rw e (rw (eq_refl k) refl)
  | inr e ↦ rw e (rw e (get-put k v fs))
]

-- What was found before, and else the new attribute.
abbrev pub or_attribute : Result (List String) → Option String → Result (List String)
or_attribute (ok []) none = ok []
or_attribute (ok []) (some v) = ok (v ∷ [])
or_attribute (ok (x ∷ xs)) new = ok (x ∷ xs)
or_attribute (err e) new = err e
or_attribute panic new = panic

found-given :
    (r : Option (Result String)) (new : Option String)
    → found (or_next r (given new)) ≡ or_attribute (found r) new
found-given none none = refl
found-given none (some v) = refl
found-given (some (ok s)) new = refl
found-given (some (err e)) new = refl
found-given (some panic) new = refl

value_in_lem :
    (key : String) (attributes : Dict String) (old : Option Value) (os : Items)
    → with_operation old (add_operation attributes) ≡ ok os
    → value_in key (some (arr os)) ≡ or_attribute (value_in key old) (lookup key attributes)
unfolding operations_value append_item
value_in_lem key attributes none os h =
    let same : cons (add_operation attributes) nil ≡ os = cc h in
    ap (λ x. found (operations_value key x)) (sym same)
    ∙ ap found (
        or_next-none (operation_value key (add_operation attributes))
        ∙ operation_value_lem key attributes)
    ∙ found-given none (lookup key attributes)
value_in_lem key attributes (some (arr xs)) os h =
    let same : append_item xs (add_operation attributes) ≡ os = cc h in
    ap (λ x. found (operations_value key x)) (sym same)
    ∙ ap found (
        operations_value-append key xs (add_operation attributes)
        ∙ ap (or_next (operations_value key xs)) (operation_value_lem key attributes))
    ∙ found-given (operations_value key xs) (lookup key attributes)
value_in_lem key attributes (some v) os h = absurd (cc h)

read_after_set :
    (attributes : Dict String) (key : String) (t t' : Transformation) (spec : Option Fields)
    → t.spec ≡ spec
    → set_event_attributes attributes t ≡ ok t'
    → get_context_transformation_value key t'
      ≡ or_attribute (get_context_transformation_value key t) (lookup key attributes)
unfolding set_event_attributes get_context_transformation_value
read_after_set attributes key t t' none e h = absurd (cc (rw (e, set_event_attributes) at h))
read_after_set attributes key t t' (some fs) e h =
    let (os, m, p) =
      >>=-ok (with_operation (get "context" fs) (add_operation attributes))
        (λ os. ok (record t { spec = some (put "context" (arr os) fs) }))
        (rw (e, set_event_attributes) at h) in
    let same : record t { spec = some (put "context" (arr os) fs) } ≡ t' = cc m in
    ap (λ x. value_in key (context_of x.spec)) (sym same)
    ∙ ap (value_in key) (get-put "context" (arr os) fs)
    ∙ value_in_lem key attributes (get "context" fs) os p
    ∙ ap (λ s. or_attribute (value_in key (context_of s)) (lookup key attributes)) (sym e)

-- After event attributes are set on a transformation, the value of a context attribute is the one
-- that its operations gave before, and only where they gave none the new one; where reading the old
-- operations panics, it still does.
pub set_event_attributes_lem :
    (attributes : Dict String) (key : String) (t t' : Transformation)
    → set_event_attributes attributes t ≡ ok t'
    → get_context_transformation_value key t'
      ≡ or_attribute (get_context_transformation_value key t) (lookup key attributes)
unfolding set_event_attributes get_context_transformation_value
set_event_attributes_lem attributes key t t' h = read_after_set attributes key t t' t.spec refl h
