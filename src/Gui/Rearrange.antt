-- ===== src/Gui/Rearrange.antt =====
-- `rearrange` of pkg/gui/transformation/process.go: the order of the operations.
pub mod Twice
use tmctl.Base.{
  String, Bool, true, false, ◌||◌, ◌&&◌, not, any, any-append, List, [], ◌∷◌, ◌++◌, ◌==◌,
  if◌then◌else◌, String_eq, ◌≡◌, refl, sym, ap, ◌∙◌, arith, eq_iff, Bool-cases, inl, inr,
  append-nil, append_assoc, keep, All,
}
use tmctl.Gui.Process.{
  TransformPath, Transform, sanitize_paths, accepts, store_path, index, Bins, no_bins, wipe,
  bin_delete, bin, bin_all, has_paths, in_order, sanitize, rearrange,
}
use tmctl.Gui.Sanitize.{sanitize_twice}

-- The sanitised transformations of one operation, without those that have no path.
abbrev of_operation : String → List Transform → List Transform
of_operation operation [] = []
of_operation operation (t ∷ ts) =
    let rest = of_operation operation ts in
    if has_paths (sanitize t) && t.operation == operation then sanitize t ∷ rest else rest

abbrev wipes : List Transform → Bool
wipes = any (λ t. any (λ p. p.key == "") t.paths)

-- A wipe takes the place of all deletes.
abbrev deletions : List Transform → List Transform
deletions ts = let ds = of_operation "delete" ts in if wipes ds then wipe ∷ [] else ds

-- What `rearrange` promises.
abbrev pub arranged : List Transform → List Transform
arranged ts =
    (of_operation "parse" ts ++ of_operation "store" ts)
    ++ deletions ts
    ++ (of_operation "add" ts ++ of_operation "shift" ts)

abbrev deletes_after : List Transform → Bins → List Transform
deletes_after ts b =
    let ds = of_operation "delete" ts in
    if wipes ds then wipe ∷ [] else if b.wipe_data then b.deletes else b.deletes ++ ds

abbrev after : List Transform → Bins → Bins
after ts b = record {
  stores = b.stores ++ of_operation "store" ts;
  deletes = deletes_after ts b;
  adds = b.adds ++ of_operation "add" ts;
  shifts = b.shifts ++ of_operation "shift" ts;
  parses = b.parses ++ of_operation "parse" ts;
  wipe_data = b.wipe_data || wipes (of_operation "delete" ts);
}

apart : (k a b : String) → (a == b) ≡ false → (k == a) ≡ true → (k == b) ≡ false
apart k a b h e = ground (arith, eq_iff k a, eq_iff k b, eq_iff a b)

-- `bin` as five independent choices.
abbrev choose : Transform → Bins → Bins
choose t b = record {
  stores = if t.operation == "store" then b.stores ++ t ∷ [] else b.stores;
  deletes = if t.operation == "delete" then (bin_delete t b).deletes else b.deletes;
  adds = if t.operation == "add" then b.adds ++ t ∷ [] else b.adds;
  shifts = if t.operation == "shift" then b.shifts ++ t ∷ [] else b.shifts;
  parses = if t.operation == "parse" then b.parses ++ t ∷ [] else b.parses;
  wipe_data = if t.operation == "delete" then (bin_delete t b).wipe_data else b.wipe_data;
}

bin-choose : (t : Transform) (b : Bins) → bin t b ≡ choose t b
unfolding bin bin_delete
bin-choose t b = ground (
  arith,
  apart t.operation "parse" "store" refl,
  apart t.operation "parse" "delete" refl,
  apart t.operation "parse" "add" refl,
  apart t.operation "parse" "shift" refl,
  apart t.operation "store" "delete" refl,
  apart t.operation "store" "add" refl,
  apart t.operation "store" "shift" refl,
  apart t.operation "delete" "add" refl,
  apart t.operation "delete" "shift" refl,
  apart t.operation "add" "shift" refl,
)

append_if :
    (xs ys : List Transform) (t : Transform) (c : Bool)
    → (if c then xs ++ t ∷ [] else xs) ++ ys ≡ xs ++ (if c then t ∷ ys else ys)
append_if xs ys t true = append_assoc xs (t ∷ []) ys
append_if xs ys t false = refl

deletes_if :
    (t : Transform) (ds : List Transform) (b : Bins) (c : Bool)
    → (if wipes ds
        then wipe ∷ []
        else if (if c then (bin_delete t b).wipe_data else b.wipe_data)
        then (if c then (bin_delete t b).deletes else b.deletes)
        else (if c then (bin_delete t b).deletes else b.deletes) ++ ds)
      ≡ (let ds' = if c then t ∷ ds else ds in
          if wipes ds' then wipe ∷ [] else if b.wipe_data then b.deletes else b.deletes ++ ds')
unfolding bin_delete
deletes_if t ds b c = ground (arith, append_assoc b.deletes (t ∷ []) ds)

wipe_if :
    (t : Transform) (ds : List Transform) (b : Bins) (c : Bool)
    → ((if c then (bin_delete t b).wipe_data else b.wipe_data) || wipes ds)
      ≡ (b.wipe_data || wipes (if c then t ∷ ds else ds))
unfolding bin_delete
wipe_if t ds b c = ground arith

after-choose :
    (t : Transform) (ts : List Transform) (b : Bins)
    → has_paths (sanitize t) ≡ true
    → after ts (choose (sanitize t) b) ≡ after (t ∷ ts) b
unfolding sanitize
after-choose t ts b h = rw h (λ i. record {
  stores = append_if b.stores (of_operation "store" ts) (sanitize t) (t.operation == "store") i;
  deletes = deletes_if (sanitize t) (of_operation "delete" ts) b (t.operation == "delete") i;
  adds = append_if b.adds (of_operation "add" ts) (sanitize t) (t.operation == "add") i;
  shifts = append_if b.shifts (of_operation "shift" ts) (sanitize t) (t.operation == "shift") i;
  parses = append_if b.parses (of_operation "parse" ts) (sanitize t) (t.operation == "parse") i;
  wipe_data = wipe_if (sanitize t) (of_operation "delete" ts) b (t.operation == "delete") i;
})

kept_deletes : (b : Bins) → (if b.wipe_data then b.deletes else b.deletes ++ []) ≡ b.deletes
kept_deletes b = ground (arith, append-nil b.deletes)

kept_wipe : (b : Bins) → (b.wipe_data || false) ≡ b.wipe_data
kept_wipe b = ground arith

after_nil : (b : Bins) → after [] b ≡ b
after_nil b = λ i. record {
  stores = append-nil b.stores i;
  deletes = kept_deletes b i;
  adds = append-nil b.adds i;
  shifts = append-nil b.shifts i;
  parses = append-nil b.parses i;
  wipe_data = kept_wipe b i;
}

bin_all_lem : (ts : List Transform) (b : Bins) → bin_all ts b ≡ after ts b
unfolding bin_all
bin_all_lem [] b = sym (after_nil b)
bin_all_lem (t ∷ ts) b = elim (Bool-cases (has_paths (sanitize t))) [
  | inl e ↦
      let taken : bin_all (t ∷ ts) b ≡ bin_all ts (bin (sanitize t) b) = rw e refl in
      taken
      ∙ bin_all_lem ts (bin (sanitize t) b)
      ∙ ap (after ts) (bin-choose (sanitize t) b)
      ∙ after-choose t ts b e
  | inr e ↦
      let passed : bin_all (t ∷ ts) b ≡ bin_all ts b = rw e refl in
      let same : after ts b ≡ after (t ∷ ts) b = rw e refl in passed ∙ bin_all_lem ts b ∙ same
]

rearrange-arranged : (ts : List Transform) → rearrange ts ≡ arranged ts
unfolding rearrange in_order
rearrange-arranged ts = rw bin_all_lem refl
