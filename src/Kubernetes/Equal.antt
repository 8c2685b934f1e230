-- ===== src/Kubernetes/Equal.antt =====
-- `reflect.DeepEqual` on objects: maps are compared as maps, a `nil` map differs from an empty one,
-- and values of different dynamic types differ.
pub mod Reflexive
use tmctl.Base.{
  ℕ, suc, String, Bool, true, false, ◌&&◌, Option, none, some, List, [], ◌∷◌, Dict, lookup, length,
  ◌==◌, ℕ_eq, String_eq,
}
use tmctl.Kubernetes.Value.{
  ℤ, pos, negsuc, KReference, Filter, Value, null, text, flag, int, int64, texts, arr, obj,
  reference, destination, filters, Items, nil, cons, Fields, end, field, get,
}
use tmctl.Kubernetes.{Metadata, Object}

bool_equal : Bool → Bool → Bool
bool_equal true b = b
bool_equal false true = false
bool_equal false false = true

int_equal : ℤ → ℤ → Bool
int_equal (pos n) (pos m) = n == m
int_equal (negsuc n) (negsuc m) = n == m
int_equal _ _ = false

texts_equal : List String → List String → Bool
texts_equal [] [] = true
texts_equal (a ∷ as') (b ∷ bs) = a == b && texts_equal as' bs
texts_equal _ _ = false

-- Every entry of the first map is in the second.
entries_in : Dict String → Dict String → Bool
entries_in [] m = true
entries_in ((k, v) ∷ d) m = elim (lookup k m) [ none ↦ false | some w ↦ v == w ] && entries_in d m

map_equal : Option (Dict String) → Option (Dict String) → Bool
map_equal none none = true
map_equal (some a) (some b) = length a == length b && entries_in a b
map_equal _ _ = false

reference_equal : KReference → KReference → Bool
reference_equal a b =
    a.kind == b.kind && a.name == b.name && a.api_version == b.api_version && a.group == b.group

destination_equal : Option KReference → Option KReference → Bool
destination_equal none none = true
destination_equal (some a) (some b) = reference_equal a b
destination_equal _ _ = false

filter_equal : Filter → Filter → Bool
filter_equal a b =
    map_equal a.exact b.exact
    && map_equal a.prefix b.prefix
    && map_equal a.suffix b.suffix
    && a.others == b.others

filters_equal : List Filter → List Filter → Bool
unfolding filter_equal map_equal entries_in lookup
filters_equal [] [] = true
filters_equal (a ∷ as') (b ∷ bs) = filter_equal a b && filters_equal as' bs
filters_equal _ _ = false

size_fields : Fields → ℕ
size_fields end = 0
size_fields (field k v fs) = suc (size_fields fs)

unfoldable mutual
  unfolding bool_equal int_equal texts_equal reference_equal destination_equal filters_equal
      size_fields get

  pub value_equal : Value → Value → Bool
  value_equal null null = true
  value_equal (text s) (text t) = s == t
  value_equal (flag a) (flag b) = bool_equal a b
  value_equal (int n) (int m) = int_equal n m
  value_equal (int64 n) (int64 m) = int_equal n m
  value_equal (texts a) (texts b) = texts_equal a b
  value_equal (arr xs) (arr ys) = items_equal xs ys
  value_equal (obj fs) (obj gs) = size_fields fs == size_fields gs && fields_in fs gs
  value_equal (reference a) (reference b) = reference_equal a b
  value_equal (destination a) (destination b) = destination_equal a b
  value_equal (filters a) (filters b) = filters_equal a b
  value_equal _ _ = false

  pub items_equal : Items → Items → Bool
  items_equal nil nil = true
  items_equal (cons v xs) (cons w ys) = value_equal v w && items_equal xs ys
  items_equal _ _ = false

  pub fields_in : Fields → Fields → Bool
  fields_in end gs = true
  fields_in (field k v fs) gs =
      elim (get k gs) [ none ↦ false | some w ↦ value_equal v w ] && fields_in fs gs

spec_equal : Option Fields → Option Fields → Bool
spec_equal none none = true
spec_equal (some fs) (some gs) = size_fields fs == size_fields gs && fields_in fs gs
spec_equal _ _ = false

metadata_equal : Metadata → Metadata → Bool
metadata_equal a b =
    a.name == b.name
    && a.namespace == b.namespace
    && map_equal a.labels b.labels
    && map_equal a.annotations b.annotations

-- `reflect.DeepEqual(a, b)`
unfoldable pub deep_equal : Object → Object → Bool
unfolding bool_equal int_equal texts_equal entries_in map_equal reference_equal destination_equal
    filter_equal filters_equal size_fields value_equal spec_equal metadata_equal get lookup
deep_equal a b =
    a.api_version == b.api_version
    && a.kind == b.kind
    && metadata_equal a.metadata b.metadata
    && spec_equal a.spec b.spec
    && map_equal a.content b.content
    && a.type == b.type
