-- ===== src/Manifest/Persist.antt =====
-- What is written to the manifest's file is what `Read` finds there.
pub mod Elsewhere
use tmctl.Base.{
  not, keep, ◌≡◌, refl, ◌∙◌, ap, ◌⊎◌, inl, inr, List, [], ◌∷◌, ◌++◌, map, arith, Option, none, some,
  Result, ok, err, panic, String, eq_refl,
}
use mathlib.Core.List.{append-nil, append_assoc}
use tmctl.Component.{Component}
use tmctl.Disk.{Disk, IsLawful as IsLawfulDisk}
use tmctl.Kubernetes.{Object}
use tmctl.Manifest.{
  Yaml, Document, object, Manifest, header, encode, written, write, collect, parse_yaml, read,
  store, named, Placed, absent, unchanged, replaced, add_object, add, remove, clear_namespace,
  place,
}

-- What may follow a document: nothing, or the start of the next one.
abbrev pub IsStream : (d : Disk) → d.Bytes → Type 0
IsStream d b = (b ≡ d.nothing) ⊎ ((r : d.Bytes) × (b ≡ d.append (d.of_string "---\n") r))

-- The marshaller's output, behind a line of dashes, is one document of a stream.
pub record IsLawful (d : Disk) (y : Yaml d) : Type 0 where
  pub documents-nothing : y.documents d.nothing ≡ []
  pub documents-append :
      (o : Object) (body rest : d.Bytes)
      → y.marshal o ≡ ok body
      → IsStream d rest
      → y.documents (d.append (d.of_string "---\n") (d.append body rest))
        ≡ object (y.reread o) ∷ y.documents rest

module _ (d : Disk) (dl : IsLawfulDisk d) (y : Yaml d) (yl : IsLawful d y) where
  abbrev pub reread_all : List Object → List Document
  reread_all = map (λ o. object (y.reread o))

  encode-cons :
      (o : Object) (os : List Object) (output b : d.Bytes) (r : Result d.Bytes)
      → y.marshal o ≡ r
      → encode d y output (o ∷ os) ≡ ok b
      → (body : d.Bytes) × (y.marshal o ≡ ok body)
        × (encode d y (d.append output (d.append (header d y) body)) os ≡ ok b)
  unfolding encode
  encode-cons o os output b (ok body) e h = (body, e, rw (e, encode) at h)
  encode-cons o os output b (err x) e h = cc (rw (e, encode) at h)
  encode-cons o os output b panic e h = cc (rw (e, encode) at h)

  pub encode-IsStream :
      (os : List Object) (output b : d.Bytes)
      → encode d y output os ≡ ok b
      → (r : d.Bytes) × (b ≡ d.append output r) × IsStream d r × (y.documents r ≡ reread_all os)
  unfolding encode
  encode-IsStream [] output b h =
      (d.nothing, rw (dl.append-nothing) (cc h), inl refl, yl.documents-nothing)
  encode-IsStream (o ∷ os) output b h =
      let (body, m, rest) = encode-cons o os output b (y.marshal o) refl h in
      let (r, e, stream, docs) =
        encode-IsStream os (d.append output (d.append (header d y) body)) b rest in
      (
        d.append (header d y) (d.append body r),
        e ∙ simp dl.append_assoc,
        inr (d.append body r, refl),
        yl.documents-append o body r m stream ∙ ap (λ ds. object (y.reread o) ∷ ds) docs,
      )

  pub collect-map :
      (os result : List Object) → collect (reread_all os) result ≡ ok (result ++ map y.reread os)
  unfolding collect
  collect-map [] result = rw append-nil
  collect-map (o ∷ os) result = collect-map os _ ∙ rw append_assoc

  -- The file holds what is in memory.
  abbrev pub InSync : Manifest → d.State → Type 0
  InSync m s = parse_yaml d y (d.read s m.path) ≡ ok (map y.reread m.objects)

  written-ok :
      (r : Option String × d.State) (t : d.State) → written d y r ≡ (ok tt, t) → r ≡ (none, t)
  written-ok (none, s) t h = ground arith
  written-ok (some e, s) t h = ground arith

  write_output :
      (m : Manifest) (s t : d.State) (r : Result d.Bytes)
      → encode d y d.nothing m.objects ≡ r
      → write d y m s ≡ (ok tt, t)
      → (b : d.Bytes) × (encode d y d.nothing m.objects ≡ ok b) × (d.write s m.path b ≡ (none, t))
  unfolding write
  write_output m s t (ok b) e h = (b, e, written-ok (d.write s m.path b) t (rw (e, write) at h))
  write_output m s t (err x) e h = absurd (cc (rw (e, write) at h))
  write_output m s t panic e h = absurd (cc (rw (e, write) at h))

  write_pair-InSync : (m : Manifest) (s t : d.State) → write d y m s ≡ (ok tt, t) → InSync m t
  unfolding parse_yaml
  write_pair-InSync m s t h =
      let (b, e, w) = write_output m s t (encode d y d.nothing m.objects) refl h in
      let (r, split, stream, docs) = encode-IsStream m.objects d.nothing b e in
      let whole : b ≡ r = split ∙ dl.nothing-append r in
      rw (dl.read-write s t m.path m.path b w, eq_refl, whole, docs) (collect-map m.objects [])

  -- After a `Write` that reports no error the file holds what is in memory.
  pub write-InSync :
      (m : Manifest) (s : d.State) → (write d y m s).0 ≡ ok tt → InSync m (write d y m s).1
  write-InSync m s h = write_pair-InSync m s (write d y m s).1 (λ i. (h i, (write d y m s).1))

  store-InSync :
      (m : Manifest) (os : List Object) (s : d.State)
      → (store d y m os s).outcome ≡ ok tt
      → InSync (store d y m os s).manifest (store d y m os s).disk
  unfolding store
  store-InSync m os s h = write-InSync (record m { objects = os }) s h

  pub remove-InSync :
      (name kind : String) (m : Manifest) (s : d.State)
      → (remove d y name kind m s).outcome ≡ ok tt
      → InSync (remove d y name kind m s).manifest (remove d y name kind m s).disk
  unfolding remove
  remove-InSync name kind m s h =
      write-InSync (record m { objects = keep (λ o. not (named name kind o)) m.objects }) s h

  add_object-InSync :
      (o : Object) (m : Manifest) (s : d.State) (p : Placed)
      → place o m.objects ≡ p
      → InSync m s
      → (add_object d y o m s).outcome ≡ ok tt
      → InSync (add_object d y o m s).manifest (add_object d y o m s).disk
  unfolding add_object
  add_object-InSync o m s absent e sync h =
      rw (e, add_object) (store-InSync m (m.objects ++ o ∷ []) s (rw (e, add_object) at h))
  add_object-InSync o m s unchanged e sync h = rw (e, add_object) sync
  add_object-InSync o m s (replaced os) e sync h =
      rw (e, add_object) (store-InSync m os s (rw (e, add_object) at h))

  add-InSync_of :
      (c : Component) (m : Manifest) (s : d.State) (r : Result Object)
      → c.as_k8s_object ≡ r
      → InSync m s
      → (add d y c m s).outcome ≡ ok tt
      → InSync (add d y c m s).manifest (add d y c m s).disk
  unfolding add
  add-InSync_of c m s (ok o) e sync h =
      rw (e, add)
        (add_object-InSync (clear_namespace o) m s (place (clear_namespace o) m.objects) refl sync
          (rw (e, add) at h))
  add-InSync_of c m s (err x) e sync h = rw (e, add) sync
  add-InSync_of c m s panic e sync h = rw (e, add) sync

  -- With files and YAML that obey their laws: if the file held what was in memory and `Add`
  -- reports no error, it still does.
  pub add-InSync :
      (c : Component) (m : Manifest) (s : d.State)
      → InSync m s
      → (add d y c m s).outcome ≡ ok tt
      → InSync (add d y c m s).manifest (add d y c m s).disk
  add-InSync c m s sync h = add-InSync_of c m s c.as_k8s_object refl sync h

  -- A manifest that is in step with its file is what `Read` gives, up to the types that YAML changes.
  pub read_of_InSync :
      (m n : Manifest) (s : d.State)
      → InSync m s
      → n.path ≡ m.path
      → read d y n s ≡ (ok tt, record n { objects = map y.reread m.objects })
  unfolding read
  read_of_InSync m n s sync same =
      rw (same, sync, read)
        (λ i. (ok tt, record n { path = same i; objects = map y.reread m.objects }))

  -- With files and YAML that obey their laws: after a `Write` that reports no error, `Read` finds
  -- the objects that were written, in their order, up to the types that YAML changes.
  pub read-write :
      (m n : Manifest) (s : d.State)
      → n.path ≡ m.path
      → (write d y m s).0 ≡ ok tt
      → read d y n (write d y m s).1 ≡ (ok tt, record n { objects = map y.reread m.objects })
  read-write m n s same h = read_of_InSync m n (write d y m s).1 (write-InSync m s h) same
