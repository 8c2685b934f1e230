-- ===== src/Base/Maps.antt =====
-- Go maps with text keys, as association lists. The order of the list stands for the order that a
-- `range` loop over the map takes.
use Prim.Native.String.{String}
use mathlib.Core.Path.{◌≡◌, refl}
use mathlib.Core.Logic.{inl, inr}
use mathlib.Core.Option.{Option, none, some}
use mathlib.Core.List.{List, [], ◌∷◌, ◌++◌}
use native.Mathlib.Omega.{arith}
use text.Mathlib.TextEquality.{eq_iff}
use tmctl.Base.Tests.{◌==◌, if◌then◌else◌, String_eq, Bool-cases}

abbrev pub Dict {ℓ} : Type ℓ → Type ℓ
Dict V = List (String × V)

module _ {ℓ} {V : Type ℓ} where
  -- `v, ok := m[key]`
  unfoldable pub lookup : String → Dict V → Option V
  lookup key [] = none
  lookup key ((first, value) ∷ rest) = if first == key then some value else lookup key rest

  -- `m[key] = value`
  unfoldable pub insert : String → V → Dict V → Dict V
  insert key value [] = (key, value) ∷ []
  insert key value ((first, old) ∷ rest) =
      let below = insert key value rest in
      if first == key then (key, value) ∷ rest else (first, old) ∷ below

  -- `delete(m, key)`
  unfoldable pub delete : String → Dict V → Dict V
  delete key [] = []
  delete key ((first, old) ∷ rest) =
      let below = delete key rest in if first == key then below else (first, old) ∷ below

  pub lookup-insert :
      (key wanted : String) (value : V) (m : Dict V)
      → lookup wanted (insert key value m) ≡ (if key == wanted then some value else lookup wanted m)
  unfolding lookup insert
  lookup-insert key wanted value [] = refl
  lookup-insert key wanted value ((first, old) ∷ rest) = ground (
    arith,
    lookup-insert key wanted value rest,
    eq_iff key wanted,
    eq_iff first key,
    eq_iff first wanted,
  )

  pub lookup-delete :
      (k j : String) (m : Dict V) → lookup j (delete k m) ≡ (if k == j then none else lookup j m)
  unfolding lookup delete
  lookup-delete k j [] = ground arith
  lookup-delete k j ((i, w) ∷ m) =
      ground (arith, eq_iff k j, eq_iff i k, eq_iff i j, lookup-delete k j m)

  -- Writing what is there already changes nothing.
  pub insert-lookup_self :
      (k : String) (v : V) (m : Dict V) → lookup k m ≡ some v → insert k v m ≡ m
  unfolding lookup insert
  insert-lookup_self k v [] h = ground arith
  insert-lookup_self k v ((j, w) ∷ m) h = ground (arith, eq_iff j k, insert-lookup_self k v m)

  -- Deleting an absent key changes nothing.
  pub delete_absent : (k : String) (m : Dict V) → lookup k m ≡ none → delete k m ≡ m
  unfolding lookup delete
  delete_absent k [] h = refl
  delete_absent k ((j, w) ∷ m) h = ground (arith, delete_absent k m)

  -- Writing a new key appends it.
  pub insert_absent :
      (k : String) (v : V) (m : Dict V) → lookup k m ≡ none → insert k v m ≡ m ++ (k, v) ∷ []
  unfolding lookup insert
  insert_absent k v [] h = refl
  insert_absent k v ((j, w) ∷ m) h = ground (arith, insert_absent k v m)

  pub lookup-append_absent :
      (k : String) (m n : Dict V) → lookup k m ≡ none → lookup k n ≡ none → lookup k (m ++ n) ≡ none
  unfolding lookup
  lookup-append_absent k [] n h g = g
  lookup-append_absent k ((j, w) ∷ m) n h g = ground (arith, lookup-append_absent k m n)

  -- None of the keys is in the other map.
  abbrev pub Fresh : Dict V → Dict V → Type ℓ
  Fresh [] m = Unit
  Fresh ((k, v) ∷ rest) m = (lookup k m ≡ none) × Fresh rest m

  -- No key is there twice.
  abbrev pub Distinct : Dict V → Type ℓ
  Distinct [] = Unit
  Distinct ((k, v) ∷ rest) = (lookup k rest ≡ none) × Distinct rest

  pub Fresh-append :
      (rest m : Dict V) (k : String) (v : V)
      → lookup k rest ≡ none
      → Fresh rest m
      → Fresh rest (m ++ (k, v) ∷ [])
  unfolding lookup
  Fresh-append [] m k v h f = tt
  Fresh-append ((j, w) ∷ rest) m k v h (f, g) = elim (Bool-cases (j == k)) [
    | inl e ↦ absurd (cc (rw (e, lookup) at h))
    | inr e ↦ (
      lookup-append_absent j m ((k, v) ∷ []) f (ground (arith, eq_iff j k, eq_iff k j)),
      Fresh-append rest m k v (rw (e, lookup) at h) g,
    )
  ]

  pub Fresh-nil : (m : Dict V) → Fresh m []
  unfolding lookup
  Fresh-nil [] = tt
  Fresh-nil ((k, v) ∷ rest) = (refl, Fresh-nil rest)
