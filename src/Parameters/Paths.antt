-- ===== src/Parameters/Paths.antt =====
-- `ParseArgs` of pkg/triggermesh/pkg/pkg.go: one round of its loop, at a path and beside it.
use tmctl.Base.{
  String, Bool, true, false, ◌&&◌, Option, none, some, List, [], ◌∷◌, ◌==◌, String_eq, ◌≡◌, refl,
  sym, ap, ◌∙◌, Bool-cases, inl, inr, arith, eq_iff, eq_refl, ne_sym, ℕ_eq,
}
use mathlib.Core.Path.{subst}
use tmctl.Kubernetes.Entries.{get-put_other, get-put_self}
use tmctl.Kubernetes.Value.{Value, text, obj, Fields, end, field, get}
use tmctl.Parameters.{nested_map, merge_maps, merge_value, add_argument}
use tmctl.Parameters.Merging.{
  Unique, UniqueAt, UniqueAt-get, Unique-put, Unique-merge_maps, combined, get-merge_maps,
}

-- What stands below a value, if there is one, at a path.
abbrev pub value_at : List String → Option Value → Option Value
value_at [] v = v
value_at (j ∷ js) (some (obj g)) = value_at js (get j g)
value_at (j ∷ js) v = none

-- Nothing is at the path, and nothing but maps on the way to it.
abbrev pub Open : List String → Option Value → Type 0
Open [] v = v ≡ none
Open (j ∷ js) none = Unit
Open (j ∷ js) (some (obj g)) = Open js (get j g)
Open (j ∷ js) (some v) = ⊥

-- One of the paths is the start of the other, or they are the same.
abbrev pub clash : List String → List String → Bool
clash [] q = true
clash p [] = true
clash (a ∷ p) (c ∷ q) = a == c && clash p q

abbrev nest : List String → String → Value
nest [] value = text value
nest (k ∷ ks) value = obj (field k (nest ks value) end)

nest-nested_map :
    (k : String) (ks : List String) (value : String)
    → obj (nested_map k ks value) ≡ nest (k ∷ ks) value
unfolding nested_map
nest-nested_map k [] value = refl
nest-nested_map k (j ∷ ks) value = ap (λ n. obj (field k n end)) (nest-nested_map j ks value)

pub Open-none : (p : List String) → Open p none
Open-none [] = refl
Open-none (k ∷ p) = tt

combined-none : (o : Option Value) → combined o none ≡ o
unfolding merge_value
combined-none none = refl
combined-none (some v) = refl

-- The key of a map with one key, and any other.
get-single : (a k : String) (v : Value) → (a == k) ≡ true → get a (field k v end) ≡ some v
unfolding get
get-single a k v e = ground (arith, eq_iff a k, eq_iff k a)

get-single_other : (a k : String) (v : Value) → (a == k) ≡ false → get a (field k v end) ≡ none
unfolding get
get-single_other a k v e = rw (ne_sym a k e) refl

-- Merging into a map with one key.
get-merge_single :
    (a k : String) (g : Fields) (n : Value)
    → Unique g
    → (a == k) ≡ true
    → get a (merge_maps g (field k n end)) ≡ combined (get a g) (some n)
get-merge_single a k g n u e =
    get-merge_maps a g (field k n end) u ∙ ap (combined (get a g)) (get-single a k n e)

get-merge_single_other :
    (a k : String) (g : Fields) (n : Value)
    → Unique g
    → (a == k) ≡ false
    → get a (merge_maps g (field k n end)) ≡ get a g
get-merge_single_other a k g n u e =
    get-merge_maps a g (field k n end) u
    ∙ ap (combined (get a g)) (get-single_other a k n e)
    ∙ combined-none (get a g)

pub clash-nil : (q : List String) → clash q [] ≡ true
clash-nil [] = refl
clash-nil (a ∷ q) = refl

-- A path that does not clash with one key starts with another.
unlike : (a k : String) (q : List String) → clash (a ∷ q) (k ∷ []) ≡ false → (a == k) ≡ false
unlike a k q c = elim (Bool-cases (a == k)) [
  | inl e ↦ absurd (cc (rw e at c, clash-nil q))
  | inr e ↦ e
]

module _ (value : String) where
  at-combined :
      (p : List String) (o : Option Value)
      → Open p o
      → UniqueAt o
      → value_at p (combined o (some (nest p value))) ≡ some (text value)
  unfolding Unique merge_maps
  at-combined [] o w u = rw w refl
  at-combined (k ∷ p) none w u =
      ap (value_at p) (get-single k k (nest p value) (eq_refl k))
      ∙ at-combined p none (Open-none p) tt
  at-combined (k ∷ p) (some (obj g)) w u =
      ap (value_at p) (get-merge_single k k g (nest p value) u (eq_refl k))
      ∙ at-combined p (get k g) w (UniqueAt-get k g u)
  at-combined (k ∷ p) (some v) w u = absurd w

  at-combined_other :
      (p q : List String) (o : Option Value) (r : Value)
      → clash q p ≡ false
      → UniqueAt o
      → value_at q o ≡ some r
      → value_at q (combined o (some (nest p value))) ≡ some r
  unfolding Unique merge_maps
  at-combined_other p [] o r c u h = absurd (cc c)
  at-combined_other [] (a ∷ q) o r c u h = absurd (cc c)
  at-combined_other (k ∷ p) (a ∷ q) none r c u h = absurd (cc h)
  at-combined_other (k ∷ p) (a ∷ q) (some (obj g)) r c u h = elim (Bool-cases (a == k)) [
    | inl e ↦
        ap (value_at q) (get-merge_single a k g (nest p value) u e)
        ∙ at-combined_other p q (get a g) r (rw e at c) (UniqueAt-get a g u) h
    | inr e ↦ ap (value_at q) (get-merge_single_other a k g (nest p value) u e) ∙ h
  ]
  at-combined_other (k ∷ p) (a ∷ q) (some v) r c u h = absurd (cc h)

  Open-combined :
      (p q : List String) (o : Option Value)
      → clash q p ≡ false
      → UniqueAt o
      → Open q o
      → Open q (combined o (some (nest p value)))
  unfolding Unique merge_maps
  Open-combined p [] o c u h = absurd (cc c)
  Open-combined [] (a ∷ q) o c u h = absurd (cc c)
  Open-combined (k ∷ p) (a ∷ q) none c u h = elim (Bool-cases (a == k)) [
    | inl e ↦
        rw (get-single a k (nest p value) e) (Open-combined p q none (rw e at c) tt (Open-none q))
    | inr e ↦ rw (get-single_other a k (nest p value) e) (Open-none q)
  ]
  Open-combined (k ∷ p) (a ∷ q) (some (obj g)) c u h = elim (Bool-cases (a == k)) [
    | inl e ↦
        rw (get-merge_single a k g (nest p value) u e)
          (Open-combined p q (get a g) (rw e at c) (UniqueAt-get a g u) h)
    | inr e ↦ rw (get-merge_single_other a k g (nest p value) u e) h
  ]
  Open-combined (k ∷ p) (a ∷ q) (some v) c u h = absurd h

  -- One round of the loop. The path that is added is that of the argument.
  combined-add :
      (k j : String) (ks : List String) (fs : Fields)
      → some (obj (add_argument (k ∷ j ∷ ks) value fs))
        ≡ combined (some (obj fs)) (some (nest (k ∷ j ∷ ks) value))
  unfolding add_argument merge_maps
  combined-add k j ks fs =
      ap (λ n. combined (some (obj fs)) (some n)) (nest-nested_map k (j ∷ ks) value)

  pub at-add :
      (k : String) (ks : List String) (fs : Fields)
      → Open (k ∷ ks) (some (obj fs))
      → Unique fs
      → value_at (k ∷ ks) (some (obj (add_argument (k ∷ ks) value fs))) ≡ some (text value)
  unfolding Unique add_argument
  at-add k [] fs w u = get-put_self k (text value) fs
  at-add k (j ∷ ks) fs w u =
      ap (value_at (k ∷ j ∷ ks)) (combined-add k j ks fs)
      ∙ at-combined (k ∷ j ∷ ks) (some (obj fs)) w u

  pub at-add_other :
      (p q : List String) (fs : Fields) (r : Value)
      → clash q p ≡ false
      → Unique fs
      → value_at q (some (obj fs)) ≡ some r
      → value_at q (some (obj (add_argument p value fs))) ≡ some r
  unfolding Unique add_argument
  at-add_other p [] fs r c u h = absurd (cc c)
  at-add_other [] (a ∷ q) fs r c u h = absurd (cc c)
  at-add_other (k ∷ []) (a ∷ q) fs r c u h =
      ap (value_at q) (get-put_other k a (text value) fs (ne_sym a k (unlike a k q c))) ∙ h
  at-add_other (k ∷ j ∷ ks) (a ∷ q) fs r c u h =
      ap (value_at (a ∷ q)) (combined-add k j ks fs)
      ∙ at-combined_other (k ∷ j ∷ ks) (a ∷ q) (some (obj fs)) r c u h

  pub Open-add :
      (p q : List String) (fs : Fields)
      → clash q p ≡ false
      → Unique fs
      → Open q (some (obj fs))
      → Open q (some (obj (add_argument p value fs)))
  unfolding Unique add_argument
  Open-add p [] fs c u h = absurd (cc c)
  Open-add [] (a ∷ q) fs c u h = absurd (cc c)
  Open-add (k ∷ []) (a ∷ q) fs c u h =
      rw (get-put_other k a (text value) fs (ne_sym a k (unlike a k q c))) h
  Open-add (k ∷ j ∷ ks) (a ∷ q) fs c u h =
      subst (Open (a ∷ q)) (sym (combined-add k j ks fs))
        (Open-combined (k ∷ j ∷ ks) (a ∷ q) (some (obj fs)) c u h)

  Unique-nested_map : (k : String) (ks : List String) → Unique (nested_map k ks value)
  unfolding Unique nested_map get
  Unique-nested_map k [] = (refl, tt, tt)
  Unique-nested_map k (j ∷ ks) = (refl, Unique-nested_map j ks, tt)

  pub Unique-add : (p : List String) (fs : Fields) → Unique fs → Unique (add_argument p value fs)
  unfolding add_argument Unique
  Unique-add [] fs u = u
  Unique-add (k ∷ []) fs u = Unique-put k (text value) fs tt u
  Unique-add (k ∷ j ∷ ks) fs u =
      Unique-merge_maps fs (nested_map k (j ∷ ks) value) u (Unique-nested_map k (j ∷ ks))
