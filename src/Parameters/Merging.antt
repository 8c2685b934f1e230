-- ===== src/Parameters/Merging.antt =====
-- `mergeMaps` of pkg/triggermesh/pkg/pkg.go on maps without double keys.
use tmctl.Base.{
  String, Option, none, some, ◌==◌, String_eq, ◌≡◌, refl, ap, ◌∙◌, Bool-cases, inl, inr, eq_iff,
  ne_sym,
}
use tmctl.Kubernetes.Entries.{get-put, get-put_other}
use tmctl.Kubernetes.Value.{Value, obj, Fields, end, field, get, put}
use tmctl.Parameters.{merge_maps, merge_value}

-- No key is there twice, in the map and in the maps in it.
unfoldable mutual
  pub Unique : Fields → Type 0
  Unique end = Unit
  Unique (field k v fs) = (get k fs ≡ none) × UniqueIn v × Unique fs

  pub UniqueIn : Value → Type 0
  UniqueIn (obj fs) = Unique fs
  UniqueIn v = Unit

abbrev pub UniqueAt : Option Value → Type 0
UniqueAt none = Unit
UniqueAt (some v) = UniqueIn v

pub UniqueAt-get : (k : String) (fs : Fields) → Unique fs → UniqueAt (get k fs)
unfolding get Unique
UniqueAt-get k end u = tt
UniqueAt-get k (field j v fs) (a, w, u) = elim (Bool-cases (j == k)) [
  | inl e ↦ rw e w
  | inr e ↦ rw e (UniqueAt-get k fs u)
]

pub Unique-put :
    (k : String) (v : Value) (fs : Fields) → UniqueIn v → Unique fs → Unique (put k v fs)
unfolding put Unique get
Unique-put k v end w u = (refl, w, tt)
Unique-put k v (field j x fs) w (a, y, u) = elim (Bool-cases (j == k)) [
  | inl e ↦ rw e (rw⁻¹ ((eq_iff j k).0 e) a, w, u)
  | inr e ↦ rw e (get-put_other k j v fs (ne_sym j k e) ∙ a, y, Unique-put k v fs w u)
]

mutual
  unfolding merge_maps Unique

  pub Unique-merge_maps : (src dst : Fields) → Unique src → Unique dst → Unique (merge_maps src dst)
  Unique-merge_maps end dst u w = w
  Unique-merge_maps (field k v src) dst (a, x, u) w =
      Unique-merge_maps src (put k (merge_value v (get k dst)) dst) u (
        Unique-put k (merge_value v (get k dst)) dst
          (UniqueIn-merge_value v (get k dst) x (UniqueAt-get k dst w)) w)

  UniqueIn-merge_value :
      (v : Value) (d : Option Value) → UniqueIn v → UniqueAt d → UniqueIn (merge_value v d)
  UniqueIn-merge_value v none u w = u
  UniqueIn-merge_value (obj src) (some (obj dst)) u w = Unique-merge_maps src dst u w
  UniqueIn-merge_value (obj src) (some d) u w = w
  UniqueIn-merge_value v (some d) u w = u

-- What a key of the merged map has.
abbrev pub combined : Option Value → Option Value → Option Value
combined none d = d
combined (some v) d = some (merge_value v d)

pub get-merge_maps :
    (j : String) (src dst : Fields)
    → Unique src
    → get j (merge_maps src dst) ≡ combined (get j src) (get j dst)
unfolding merge_maps Unique get
get-merge_maps j end dst u = refl
get-merge_maps j (field k v src) dst (a, w, u) = elim (Bool-cases (k == j)) [
  | inl e ↦
      let m = merge_value v (get k dst) in
      let q : k ≡ j = (eq_iff k j).0 e in
      let absent : get j src ≡ none = rw⁻¹ q a in
      let written : get j (put k m dst) ≡ some m = get-put k j m dst ∙ rw e refl in
      rw e (
        get-merge_maps j src (put k m dst) u
        ∙ ap (λ s. combined s (get j (put k m dst))) absent
        ∙ written
        ∙ ap (λ i. some (merge_value v (get i dst))) q)
  | inr e ↦
      let m = merge_value v (get k dst) in
      rw e (
        get-merge_maps j src (put k m dst) u
        ∙ ap (combined (get j src)) (get-put_other k j m dst e))
]
