-- ===== src/Components/External.antt =====
-- The external resources of a source: `getMeta` of pkg/triggermesh/components/source/source.go writes
-- them into an annotation, and `GetObject` reads them back.
pub mod Finalization
use tmctl.Base.{
  String, Option, none, some, List, [], ◌∷◌, ◌++◌, map, All, append-nil, append_assoc, ◌<>◌, ◌==◌,
  String_eq, ℕ_eq, Dict, insert, lookup, insert_absent, Fresh, Fresh-append, Fresh-nil, Distinct,
  split, join, split_absent, split-append, Lacks, ◌≡◌, refl, sym, ap, ◌∙◌,
}
use tmctl.Components.{Source}
use tmctl.Kubernetes.{Metadata}

abbrev pub external_resources_annotation : String
external_resources_annotation = "triggermesh.io/external-resources"

unfoldable pub resource_text : String × String → String
unfolding ◌<>◌
resource_text (k, v) = k <> "=" <> v

abbrev annotated : List String → Dict String
unfolding join
annotated [] = []
annotated (r ∷ rs) = (external_resources_annotation, join "," (r ∷ rs)) ∷ []

unfoldable pub get_meta : Source → Metadata
unfolding resource_text join
get_meta s = record {
  name = s.name;
  namespace = "local";
  labels = some (("triggermesh.io/context", s.broker) ∷ []);
  annotations = some (annotated (map resource_text s.status));
}

-- An entry that does not have two parts is dropped.
abbrev add_entry : List String → Dict String → Dict String
unfolding insert
add_entry (k ∷ v ∷ []) status = insert k v status
add_entry parts status = status

unfoldable pub read_resources : List String → Dict String → Dict String
unfolding split insert
read_resources [] status = status
read_resources (r ∷ rs) status = read_resources rs (add_entry (split b'=' r) status)

abbrev pub annotation_of : Option (Dict String) → Option String
unfolding lookup
annotation_of none = none
annotation_of (some annotations) = lookup external_resources_annotation annotations

-- The status that `GetObject` reads from the annotations.
unfoldable pub read_status : Metadata → Dict String
unfolding read_resources split
read_status m = elim (annotation_of m.annotations) [
  | none ↦ []
  | some resources ↦ read_resources (split b',' resources) []
]

split-join :
    (r : String) (rs : List String)
    → All (Lacks (λ c. c == b',')) (r ∷ rs)
    → split b',' (join "," (r ∷ rs)) ≡ r ∷ rs
unfolding join ◌<>◌
split-join r [] (h, g) = split_absent b',' r h
split-join r (q ∷ rs) (h, g) =
    split-append "," r (join "," (q ∷ rs)) h ∙ ap (◌∷◌ r) (split-join q rs g)

-- Neither the key nor the value has an equals sign, and both together have no comma.
abbrev pub Separable : String × String → Type 0
Separable (k, v) =
    Lacks (λ c. c == b',') (resource_text (k, v))
    × Lacks (λ c. c == b'=') k
    × Lacks (λ c. c == b'=') v

split-resource_text :
    (k v : String)
    → Lacks (λ c. c == b'=') k
    → Lacks (λ c. c == b'=') v
    → split b'=' (resource_text (k, v)) ≡ k ∷ v ∷ []
unfolding resource_text ◌<>◌
split-resource_text k v p q = split-append "=" k v p ∙ ap (◌∷◌ k) (split_absent b'=' v q)

read_resources_lem :
    (m status : Dict String)
    → All Separable m
    → Distinct m
    → Fresh m status
    → read_resources (map resource_text m) status ≡ status ++ m
unfolding read_resources
read_resources_lem [] status s d f = sym (append-nil status)
read_resources_lem ((k, v) ∷ m) status ((c, p, q), s) (n, d) (f, g) =
    ap (λ parts. read_resources (map resource_text m) (add_entry parts status))
      (split-resource_text k v p q)
    ∙ ap (read_resources (map resource_text m)) (insert_absent k v status f)
    ∙ read_resources_lem m (status ++ (k, v) ∷ []) s d (Fresh-append m status k v n g)
    ∙ append_assoc status ((k, v) ∷ []) m

Lacks-commas :
    (m : Dict String) → All Separable m → All (Lacks (λ c. c == b',')) (map resource_text m)
Lacks-commas [] s = tt
Lacks-commas ((k, v) ∷ m) ((c, p, q), s) = (c, Lacks-commas m s)

-- The external resources of a source whose keys are different, and whose keys and values have no
-- comma and no equals sign, are read back from the annotations that the source writes.
pub read_status-get_meta :
    (s : Source) → All Separable s.status → Distinct s.status → read_status (get_meta s) ≡ s.status
unfolding read_status get_meta lookup
read_status-get_meta s h d = by_status s.status h d
  where
    by_status :
        (m : Dict String)
        → All Separable m
        → Distinct m
        → read_status (record (get_meta s) { annotations = some (annotated (map resource_text m)) })
          ≡ m
    by_status [] h d = refl
    by_status ((k, v) ∷ m) h d =
        ap (λ parts. read_resources parts [])
          (split-join (resource_text (k, v)) (map resource_text m) (Lacks-commas ((k, v) ∷ m) h))
        ∙ read_resources_lem ((k, v) ∷ m) [] h d (Fresh-nil ((k, v) ∷ m))
