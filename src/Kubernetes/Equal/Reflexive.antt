-- ===== src/Kubernetes/Equal/Reflexive.antt =====
-- An object whose maps have no double keys is deeply equal to itself.
use tmctl.Base.{
  String, true, false, ◌≡◌, refl, Option, none, some, List, [], ◌∷◌, Dict, lookup, arith, eq_refl,
  eq_iff, All,
}
use tmctl.Kubernetes.Value.{
  ℤ, pos, negsuc, KReference, Filter, Value, null, text, flag, int, int64, texts, arr, obj,
  reference, destination, filters, Items, nil, cons, Fields, end, field, get,
}
use tmctl.Kubernetes.{Object}
use tmctl.Kubernetes.Equal.{
  int_equal, texts_equal, entries_in, map_equal, reference_equal, filter_equal, filters_equal,
  value_equal, items_equal, fields_in, spec_equal, deep_equal,
}

-- No key twice, which every Go map has.
abbrev pub DistinctKeys : Dict String → Type 0
DistinctKeys [] = Unit
DistinctKeys ((k, v) ∷ d) = (lookup k d ≡ none) × DistinctKeys d

abbrev pub DistinctMap : Option (Dict String) → Type 0
DistinctMap none = Unit
DistinctMap (some d) = DistinctKeys d

abbrev pub DistinctFilter : Filter → Type 0
DistinctFilter f = DistinctMap f.exact × DistinctMap f.prefix × DistinctMap f.suffix

abbrev mutual
  pub Distinct : Value → Type 0
  Distinct (arr xs) = DistinctItems xs
  Distinct (obj fs) = DistinctFields fs
  Distinct (filters fs) = All DistinctFilter fs
  Distinct _ = Unit

  pub DistinctItems : Items → Type 0
  DistinctItems nil = Unit
  DistinctItems (cons v xs) = Distinct v × DistinctItems xs

  pub DistinctFields : Fields → Type 0
  DistinctFields end = Unit
  DistinctFields (field k v fs) = (get k fs ≡ none) × Distinct v × DistinctFields fs

entries_in_self :
    (d m : Dict String)
    → ((k v : String) → lookup k d ≡ some v → lookup k m ≡ some v)
    → DistinctKeys d
    → entries_in d m ≡ true
unfolding entries_in lookup
entries_in_self [] m sub u = refl
entries_in_self ((k, v) ∷ d) m sub u = ground (
  arith,
  sub k v,
  eq_refl k,
  eq_refl v,
  entries_in_self d m (λ j w h. sub j w (ground (arith, eq_iff k j, eq_refl k))) u.1,
)

map_equal_refl : (m : Option (Dict String)) → DistinctMap m → map_equal m m ≡ true
unfolding map_equal
map_equal_refl none u = refl
map_equal_refl (some d) u = ground (arith, entries_in_self d d (λ k v h. h) u)

texts_equal_refl : (l : List String) → texts_equal l l ≡ true
unfolding texts_equal
texts_equal_refl [] = refl
texts_equal_refl (s ∷ l) = ground (arith, eq_refl s, texts_equal_refl l)

reference_equal_refl : (r : KReference) → reference_equal r r ≡ true
unfolding reference_equal
reference_equal_refl r =
    ground (arith, eq_refl r.kind, eq_refl r.name, eq_refl r.api_version, eq_refl r.group)

filter_equal_refl : (f : Filter) → DistinctFilter f → filter_equal f f ≡ true
unfolding filter_equal
filter_equal_refl f (a, b, c) = ground (
  arith,
  map_equal_refl f.exact a,
  map_equal_refl f.prefix b,
  map_equal_refl f.suffix c,
  eq_refl f.others,
)

filters_equal_refl : (fs : List Filter) → All DistinctFilter fs → filters_equal fs fs ≡ true
unfolding filters_equal
filters_equal_refl [] u = refl
filters_equal_refl (f ∷ fs) (a, u) = ground (arith, filter_equal_refl f a, filters_equal_refl fs u)

int_equal_refl : (n : ℤ) → int_equal n n ≡ true
unfolding int_equal
int_equal_refl (pos n) = ground arith
int_equal_refl (negsuc n) = ground arith

mutual
  unfolding value_equal items_equal fields_in get

  value_equal_refl : (v : Value) → Distinct v → value_equal v v ≡ true
  value_equal_refl null u = refl
  value_equal_refl (text s) u = eq_refl s
  value_equal_refl (flag true) u = refl
  value_equal_refl (flag false) u = refl
  value_equal_refl (int n) u = int_equal_refl n
  value_equal_refl (int64 n) u = int_equal_refl n
  value_equal_refl (texts l) u = texts_equal_refl l
  value_equal_refl (arr xs) u = items_equal_refl xs u
  value_equal_refl (obj fs) u = ground (arith, fields_in_self fs fs (λ k v h. h) u)
  value_equal_refl (reference r) u = reference_equal_refl r
  value_equal_refl (destination none) u = refl
  value_equal_refl (destination (some r)) u = reference_equal_refl r
  value_equal_refl (filters fs) u = filters_equal_refl fs u

  items_equal_refl : (xs : Items) → DistinctItems xs → items_equal xs xs ≡ true
  items_equal_refl nil u = refl
  items_equal_refl (cons v xs) u = ground (arith, value_equal_refl v u.0, items_equal_refl xs u.1)

  fields_in_self :
      (fs gs : Fields)
      → ((k : String) (v : Value) → get k fs ≡ some v → get k gs ≡ some v)
      → DistinctFields fs
      → fields_in fs gs ≡ true
  fields_in_self end gs sub u = refl
  fields_in_self (field k v fs) gs sub u = ground (
    arith,
    sub k v,
    eq_refl k,
    value_equal_refl v u.1,
    fields_in_self fs gs (λ j w h. sub j w (ground (arith, eq_iff k j, eq_refl k))) u.2,
  )

abbrev pub DistinctSpec : Option Fields → Type 0
DistinctSpec none = Unit
DistinctSpec (some fs) = DistinctFields fs

spec_equal_refl : (s : Option Fields) → DistinctSpec s → spec_equal s s ≡ true
unfolding spec_equal
spec_equal_refl none u = refl
spec_equal_refl (some fs) u = ground (arith, fields_in_self fs fs (λ k v h. h) u)

pub record IsDistinct (o : Object) : Type 0 where
  pub labels : DistinctMap o.metadata.labels
  pub annotations : DistinctMap o.metadata.annotations
  pub spec : DistinctSpec o.spec
  pub content : DistinctMap o.content

pub deep_equal_refl : (o : Object) → IsDistinct o → deep_equal o o ≡ true
unfolding deep_equal
deep_equal_refl o u = ground (
  arith,
  eq_refl o.api_version,
  eq_refl o.kind,
  eq_refl o.metadata.name,
  eq_refl o.metadata.namespace,
  map_equal_refl o.metadata.labels u.labels,
  map_equal_refl o.metadata.annotations u.annotations,
  spec_equal_refl o.spec u.spec,
  map_equal_refl o.content u.content,
  eq_refl o.type,
)
