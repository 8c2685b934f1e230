-- ===== src/Manifest/Persist/Elsewhere.antt =====
-- `Add` of pkg/manifest/manifest.go touches no file but the manifest's.
use tmctl.Base.{String, false, ◌≡◌, refl, ◌∙◌, List, [], ◌∷◌, ◌++◌, ok, ◌==◌, String_eq}
use tmctl.Component.{Component}
use tmctl.Disk.{Disk, IsLawful as IsLawfulDisk}
use tmctl.Kubernetes.{Object}
use tmctl.Manifest.{
  Yaml, Manifest, encode, write, store, Placed, absent, unchanged, replaced, add_object, add,
  clear_namespace, place,
}
use tmctl.Manifest.Persist.{IsLawful, write_output}

module _ (d : Disk) (dl : IsLawfulDisk d) (y : Yaml d) (yl : IsLawful d y) where
  read-write_elsewhere :
      (m : Manifest) (s : d.State) (q : String)
      → (m.path == q) ≡ false
      → (write d y m s).0 ≡ ok tt
      → d.read (write d y m s).1 q ≡ d.read s q
  read-write_elsewhere m s q apart h =
      let t = (write d y m s).1 in
      let (b, e, w) =
        write_output d dl y yl m s t (encode d y d.nothing m.objects) refl (λ i. (h i, t)) in
      dl.read-write s t m.path q b w ∙ rw apart refl

  read-store :
      (m : Manifest) (os : List Object) (s : d.State) (q : String)
      → (m.path == q) ≡ false
      → (store d y m os s).outcome ≡ ok tt
      → d.read (store d y m os s).disk q ≡ d.read s q
  unfolding store
  read-store m os s q apart h = read-write_elsewhere (record m { objects = os }) s q apart h

  read-add_object :
      (o : Object) (m : Manifest) (s : d.State) (q : String) (p : Placed)
      → place o m.objects ≡ p
      → (m.path == q) ≡ false
      → (add_object d y o m s).outcome ≡ ok tt
      → d.read (add_object d y o m s).disk q ≡ d.read s q
  unfolding add_object
  read-add_object o m s q absent e apart h =
      rw (e, add_object) (read-store m (m.objects ++ o ∷ []) s q apart (rw (e, add_object) at h))
  read-add_object o m s q unchanged e apart h = rw (e, add_object) refl
  read-add_object o m s q (replaced os) e apart h =
      rw (e, add_object) (read-store m os s q apart (rw (e, add_object) at h))

  -- With files and YAML that obey their laws: an `Add` that reports no error leaves all other
  -- files as they were.
  pub read-add :
      (c : Component) (o : Object) (m : Manifest) (s : d.State) (q : String)
      → c.as_k8s_object ≡ ok o
      → (m.path == q) ≡ false
      → (add d y c m s).outcome ≡ ok tt
      → d.read (add d y c m s).disk q ≡ d.read s q
  unfolding add
  read-add c o m s q e apart h =
      rw (e, add)
        (read-add_object (clear_namespace o) m s q (place (clear_namespace o) m.objects) refl apart
          (rw (e, add) at h))
