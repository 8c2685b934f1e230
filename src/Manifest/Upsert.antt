-- ===== src/Manifest/Upsert.antt =====
-- `Add` as an insertion into a map from keys to objects.
use tmctl.Base.{
  eq_refl, Bool, true, false, not, ◌≡◌, ◌∙◌, refl, List, [], ◌∷◌, arith, Option, none, some, ok,
  if◌then◌else◌,
}
use tmctl.Component.{Component}
use tmctl.Disk.{Disk}
use tmctl.Kubernetes.{Object}
use tmctl.Kubernetes.Equal.{deep_equal}
use tmctl.Kubernetes.Equal.Reflexive.{IsDistinct, deep_equal_refl}
use tmctl.Manifest.{
  Yaml, Manifest, match_objects, place, Placed, absent, unchanged, replaced, after, add_object, add,
  clear_namespace,
}
use tmctl.Manifest.Keys.{match_objects_trans, match_objects_sym, upsert, add-upsert}

-- The object with the key of `q`.
abbrev pub find : Object → List Object → Option Object
find q [] = none
find q (o ∷ os) = let rest = find q os in if match_objects q o then some o else rest

-- What the manifest holds for the key of `o` once `o` is added: an object that is deeply equal to `o`
-- stays, any other is replaced.
abbrev pub kept : Object → Option Object → Object
kept o none = o
kept o (some p) = if deep_equal o p then p else o

abbrev pub changes : Object → Option Object → Bool
changes o none = true
changes o (some p) = not (deep_equal o p)

find-upsert :
    (o q : Object) (os : List Object)
    → find q (upsert o os) ≡ (if match_objects q o then some (kept o (find o os)) else find q os)
find-upsert o q [] = refl
find-upsert o q (p ∷ ps) = ground (
  arith,
  find-upsert o q ps,
  match_objects_trans q o p,
  match_objects_trans o p q,
  match_objects_sym o q,
  match_objects_sym p q,
)

match_objects_refl : (o : Object) → match_objects o o ≡ true
unfolding match_objects
match_objects_refl o =
    ground (arith, eq_refl o.api_version, eq_refl o.kind, eq_refl o.metadata.name)

place-upsert :
    (o : Object) (os : List Object) → deep_equal o o ≡ true → place o (upsert o os) ≡ unchanged
unfolding place
place-upsert o [] h = ground (arith, match_objects_refl o)
place-upsert o (p ∷ ps) h = ground (arith, match_objects_refl o, place-upsert o ps h)

abbrev reported : Placed → Bool
reported unchanged = false
reported _ = true

reported-after : (p : Object) (r : Placed) → reported (after p r) ≡ reported r
reported-after p unchanged = refl
reported-after p absent = refl
reported-after p (replaced os) = refl

reported-place : (o : Object) (os : List Object) → reported (place o os) ≡ changes o (find o os)
unfolding place
reported-place o [] = refl
reported-place o (p ∷ ps) = ground (arith, reported-after p (place o ps), reported-place o ps)

IsDistinct-clear : (o : Object) → IsDistinct o → IsDistinct (clear_namespace o)
IsDistinct-clear o u = record {
  labels = u.labels;
  annotations = u.annotations;
  spec = u.spec;
  content = u.content;
}

module _ (d : Disk) (y : Yaml d) where
  dirty-add_object :
      (o : Object) (m : Manifest) (s : d.State)
      → (add_object d y o m s).dirty ≡ changes o (find o m.objects)
  unfolding add_object
  dirty-add_object o m s = ground (arith, reported-place o m.objects)

  add_object_unchanged :
      (o : Object) (m : Manifest) (s : d.State)
      → place o m.objects ≡ unchanged
      → add_object d y o m s ≡ record { dirty = false; outcome = ok tt; manifest = m; disk = s }
  unfolding add_object
  add_object_unchanged o m s h = rw (h, add_object)

  add_ok :
      (c : Component) (o : Object) (m : Manifest) (s : d.State)
      → c.as_k8s_object ≡ ok o
      → add d y c m s ≡ add_object d y (clear_namespace o) m s
  unfolding add
  add_ok c o m s h = rw (h, add)

  -- Adding a component a second time reports no change, writes nothing and leaves the manifest and
  -- the files as they are, if no map of its object has a key twice.
  pub add_twice :
      (c : Component) (o : Object) (m : Manifest) (s : d.State)
      → c.as_k8s_object ≡ ok o
      → IsDistinct o
      → let a = add d y c m s in
        add d y c a.manifest a.disk
        ≡ record { dirty = false; outcome = ok tt; manifest = a.manifest; disk = a.disk }
  add_twice c o m s h u =
      let o' = clear_namespace o in
      let a = add d y c m s in
      add_ok c o a.manifest a.disk h
      ∙ add_object_unchanged o' a.manifest a.disk (
          rw (add-upsert d y c m s, h)
            (place-upsert o' m.objects (deep_equal_refl o' (IsDistinct-clear o u))))

  -- Adding a component with object `o` reports a change exactly if the manifest had no object with
  -- the key of `o` or one that is not deeply equal to it. Afterwards the key of `o` holds the new
  -- object (or the equal old one), and every other key what it held before.
  pub add-find :
      (c : Component) (o q : Object) (m : Manifest) (s : d.State)
      → c.as_k8s_object ≡ ok o
      → let o' = clear_namespace o in
        let a = add d y c m s in
        (a.dirty ≡ changes o' (find o' m.objects))
        × (find q a.manifest.objects
            ≡ (if match_objects q o' then some (kept o' (find o' m.objects)) else find q m.objects))
  unfolding add
  add-find c o q m s h = (
    rw (h, add) (dirty-add_object (clear_namespace o) m s),
    rw add-upsert (rw h (find-upsert (clear_namespace o) q m.objects)),
  )
