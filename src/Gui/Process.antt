-- ===== src/Gui/Process.antt =====
-- pkg/gui/transformation/process.go: how the editor changes the list of transformations. A slice that
-- is `nil` and an empty one are both `[]`: the code makes an empty `Paths` only by appending nothing.
use tmctl.Base.{
  ℕ, zero, suc, String, Bool, true, false, ◌||◌, ◌&&◌, not, any, Option, none, some, List, [], ◌∷◌,
  ◌++◌, ◌<>◌, ◌==◌, if◌then◌else◌, String_eq, Dict, lookup, split,
}

-- `v1alpha1.Path` and `v1alpha1.Transform`
pub record TransformPath : Type 0 where
  pub key : String
  pub value : String

pub record Transform : Type 0 where
  pub operation : String
  pub paths : List TransformPath

unfoldable pub remove_empty_strings : List String → List String
remove_empty_strings [] = []
remove_empty_strings (s ∷ ss) =
    let rest = remove_empty_strings ss in if not (s == "") then s ∷ rest else rest

-- `-1` is `none`.
unfoldable pub index : String → List TransformPath → Option ℕ
index key [] = none
index key (p ∷ ps) =
    let rest = index key ps in
    if p.key == key then some 0 else elim rest [ none ↦ none | some i ↦ some (suc i) ]

-- `paths[i] = path`
unfoldable pub set_path : ℕ → TransformPath → List TransformPath → List TransformPath
set_path i path [] = []
set_path zero path (p ∷ ps) = path ∷ ps
set_path (suc i) path (p ∷ ps) = p ∷ set_path i path ps

abbrev is_pair : List String → Bool
is_pair (a ∷ b ∷ []) = not (a == "") && not (b == "")
is_pair parts = false

-- The `switch` of `sanitize`: whether the path is not skipped.
unfoldable pub accepts : String → TransformPath → Bool
unfolding split
accepts operation p =
    if operation == "delete" || operation == "parse"
    then true
    else if operation == "add" || operation == "store"
    then not (p.value == "" || p.key == "")
    else if operation == "shift"
    then is_pair (split b':' p.key)
    else true

-- The end of a round of the loop of `sanitize`.
unfoldable pub store_path : TransformPath → List TransformPath → List TransformPath
unfolding index set_path
store_path p result = elim (index p.key result) [
  | some i ↦ set_path i p result
  | none ↦ result ++ p ∷ []
]

unfoldable pub sanitize_paths :
    String → List TransformPath → List TransformPath → List TransformPath
sanitize_paths operation [] result = result
sanitize_paths operation (p ∷ ps) result =
    sanitize_paths operation ps (if accepts operation p then store_path p result else result)

unfoldable pub sanitize : Transform → Transform
sanitize t = record { operation = t.operation; paths = sanitize_paths t.operation t.paths [] }

-- The variables of `rearrange`.
pub record Bins : Type 0 where
  pub stores : List Transform
  pub deletes : List Transform
  pub adds : List Transform
  pub shifts : List Transform
  pub parses : List Transform
  pub wipe_data : Bool

abbrev pub no_bins : Bins
no_bins = record {
  stores = [];
  deletes = [];
  adds = [];
  shifts = [];
  parses = [];
  wipe_data = false;
}

abbrev pub wipe : Transform
wipe = record { operation = "delete"; paths = record { key = ""; value = "" } ∷ [] }

-- The `case "delete"`: a path with no key wipes the event, and stands for all deletes.
unfoldable pub bin_delete : Transform → Bins → Bins
bin_delete t b =
    if any (λ p. p.key == "") t.paths
    then record b { deletes = wipe ∷ []; wipe_data = true }
    else if b.wipe_data
    then b
    else record b { deletes = b.deletes ++ t ∷ [] }

-- The `switch` of `rearrange`.
unfoldable pub bin : Transform → Bins → Bins
bin t b =
    if t.operation == "parse"
    then record b { parses = b.parses ++ t ∷ [] }
    else if t.operation == "store"
    then record b { stores = b.stores ++ t ∷ [] }
    else if t.operation == "delete"
    then bin_delete t b
    else if t.operation == "add"
    then record b { adds = b.adds ++ t ∷ [] }
    else if t.operation == "shift"
    then record b { shifts = b.shifts ++ t ∷ [] }
    else b

abbrev pub has_paths : Transform → Bool
has_paths t = elim (t.paths) [ [] ↦ false | p ∷ ps ↦ true ]

unfoldable pub bin_all : List Transform → Bins → Bins
bin_all [] b = b
bin_all (t ∷ ts) b = bin_all ts (if has_paths (sanitize t) then bin (sanitize t) b else b)

unfoldable pub in_order : Bins → List Transform
in_order b = (b.parses ++ b.stores) ++ b.deletes ++ (b.adds ++ b.shifts)

unfoldable pub rearrange : List Transform → List Transform
unfolding in_order
rearrange ts = in_order (bin_all ts no_bins)

-- The two cases that change what the operation works on.
unfoldable pub operands : String → String → String → String × String
unfolding ◌<>◌
operands operation path value =
    if operation == "store"
    then (value, path)
    else if operation == "shift"
    then (path <> ":" <> value, "")
    else (path, value)

unfoldable pub add_path : String → TransformPath → List Transform → List Transform
add_path operation p [] = record { operation = operation; paths = p ∷ [] } ∷ []
add_path operation p (t ∷ ts) =
    let rest = add_path operation p ts in
    if t.operation == operation then record t { paths = t.paths ++ p ∷ [] } ∷ ts else t ∷ rest

unfoldable pub update_transformations : List Transform → String → String → String → List Transform
unfolding operands add_path
update_transformations ts operation path value =
    let (key, value') = operands operation path value in
    add_path operation (record { key = key; value = value' }) ts

-- The name and the text of a transformation that exists.
pub record TransformationObject : Type 0 where
  pub name : String
  pub spec : String

unfoldable pub existing_transformation :
    String → String → Dict TransformationObject → TransformationObject
unfolding ◌<>◌ lookup
existing_transformation source target ts =
    let label = if not (target == "") then source <> "-" <> target else source in
    elim (lookup label ts) [ some t ↦ t | none ↦ record { name = ""; spec = "" } ]
