-- ===== src/Manifest/Keys.antt =====
-- The manifest holds at most one object for an API version, a kind and a name.
use tmctl.Base.{
  Bool, true, false, not, ◌≡◌, refl, List, [], ◌∷◌, ◌++◌, keep, any, arith, eq_iff, ◌||◌, Result,
  ok, err, panic, String, if◌then◌else◌,
}
use tmctl.Component.{Component}
use tmctl.Disk.{Disk}
use tmctl.Kubernetes.{Object}
use tmctl.Kubernetes.Equal.{deep_equal}
use tmctl.Manifest.{
  Yaml, Manifest, match_objects, place, Placed, absent, unchanged, replaced, after, add_object, add,
  remove, named, clear_namespace,
}

-- Whether an object with this key is in the list.
abbrev pub has_key : Object → List Object → Bool
has_key o = any (match_objects o)

-- No two objects have one key.
abbrev pub Unique : List Object → Type 0
Unique [] = Unit
Unique (o ∷ os) = (has_key o os ≡ false) × Unique os

pub match_objects_trans :
    (a b c : Object) → match_objects a b ≡ true → match_objects a c ≡ match_objects b c
unfolding match_objects
match_objects_trans a b c h = ground (
  arith,
  eq_iff a.api_version b.api_version,
  eq_iff a.kind b.kind,
  eq_iff a.metadata.name b.metadata.name,
)

pub match_objects_sym : (a b : Object) → match_objects a b ≡ match_objects b a
unfolding match_objects
match_objects_sym a b = ground (
  arith,
  eq_iff a.api_version b.api_version,
  eq_iff a.kind b.kind,
  eq_iff a.metadata.name b.metadata.name,
  eq_iff b.api_version a.api_version,
  eq_iff b.kind a.kind,
  eq_iff b.metadata.name a.metadata.name,
)

has_key_cong :
    (a b : Object) (os : List Object) → match_objects a b ≡ true → has_key a os ≡ has_key b os
has_key_cong a b [] h = refl
has_key_cong a b (o ∷ os) h = ground (arith, match_objects_trans a b o, has_key_cong a b os)

-- `Add` on the list of objects, as one recursion.
abbrev pub upsert : Object → List Object → List Object
upsert o [] = o ∷ []
upsert o (p ∷ ps) =
    let rest = upsert o ps in
    if match_objects o p then (if deep_equal o p then p else o) ∷ ps else p ∷ rest

abbrev placed : Object → List Object → Placed → List Object
placed o os absent = os ++ o ∷ []
placed o os unchanged = os
placed o os (replaced os') = os'

placed-after :
    (o p : Object) (ps : List Object) (r : Placed)
    → placed o (p ∷ ps) (after p r) ≡ p ∷ placed o ps r
placed-after o p ps absent = refl
placed-after o p ps unchanged = refl
placed-after o p ps (replaced os) = refl

placed-place : (o : Object) (os : List Object) → placed o os (place o os) ≡ upsert o os
unfolding place
placed-place o [] = refl
placed-place o (p ∷ ps) = ground (arith, placed-after o p ps (place o ps), placed-place o ps)

has_key-upsert :
    (o q : Object) (os : List Object)
    → has_key q (upsert o os) ≡ (has_key q os || match_objects q o)
has_key-upsert o q [] = ground arith
has_key-upsert o q (p ∷ ps) = ground (
  arith,
  has_key-upsert o q ps,
  match_objects_trans o p q,
  match_objects_sym o q,
  match_objects_sym p q,
)

Unique-upsert : (o : Object) (os : List Object) → Unique os → Unique (upsert o os)
Unique-upsert o [] u = ground arith
Unique-upsert o (p ∷ ps) u = ground (
  arith,
  Unique-upsert o ps u.1,
  has_key-upsert o p ps,
  has_key_cong o p ps,
  match_objects_sym o p,
)

has_key-keep :
    (q : Object) (p : Object → Bool) (os : List Object)
    → has_key q os ≡ false
    → has_key q (keep p os) ≡ false
has_key-keep q p [] h = refl
has_key-keep q p (o ∷ os) h = ground (arith, has_key-keep q p os)

Unique-keep : (p : Object → Bool) (os : List Object) → Unique os → Unique (keep p os)
Unique-keep p [] u = tt
Unique-keep p (o ∷ os) u = ground (arith, Unique-keep p os u.1, has_key-keep o p os)

-- The objects after `Add` of a component that gives this Kubernetes object.
abbrev pub upserted : Result Object → List Object → List Object
upserted (ok o) os = upsert (clear_namespace o) os
upserted _ os = os

Unique-upserted : (r : Result Object) (os : List Object) → Unique os → Unique (upserted r os)
Unique-upserted (ok o) os u = Unique-upsert (clear_namespace o) os u
Unique-upserted _ os u = u

module _ (d : Disk) (y : Yaml d) where
  pub add_object-upsert :
      (o : Object) (m : Manifest) (s : d.State)
      → (add_object d y o m s).manifest.objects ≡ upsert o m.objects
  unfolding add_object
  add_object-upsert o m s = ground (arith, placed-place o m.objects)

  pub add-upsert :
      (c : Component) (m : Manifest) (s : d.State)
      → (add d y c m s).manifest.objects ≡ upserted c.as_k8s_object m.objects
  unfolding add
  add-upsert c m s = add-upsert_of c.as_k8s_object refl
    where
      add-upsert_of :
          (r : Result Object)
          → c.as_k8s_object ≡ r
          → (add d y c m s).manifest.objects ≡ upserted r m.objects
      add-upsert_of (ok o) e = rw (e, add) (add_object-upsert (clear_namespace o) m s)
      add-upsert_of (err x) e = rw (e, add)
      add-upsert_of panic e = rw (e, add)

  -- Whatever component is added and whatever is removed, from a manifest without double keys the
  -- objects have no double keys afterwards, also where marshalling or writing the file fails.
  pub add-Unique :
      (c : Component) (name kind : String) (m : Manifest) (s : d.State)
      → Unique m.objects
      → Unique (add d y c m s).manifest.objects × Unique (remove d y name kind m s).manifest.objects
  unfolding remove
  add-Unique c name kind m s u = (
    rw add-upsert (Unique-upserted c.as_k8s_object m.objects u),
    Unique-keep (λ o. not (named name kind o)) m.objects u,
  )
