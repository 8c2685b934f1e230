-- ===== src/Tests/Manifests.antt =====
-- Adding components to the manifest in memory, and reading it back.
use tmctl.Base.{map, none, some, [], ok, ◌≡◌, refl, insert, if◌then◌else◌}
use tmctl.Component.{Component}
use tmctl.Disk.Memory.{memory-IsLawful, write_memory}
use tmctl.Kubernetes.{Object}
use tmctl.Kubernetes.Equal.Reflexive.{IsDistinct}
use tmctl.Kubernetes.Value.{get}
use tmctl.Manifest.{
  match_objects, place, store, add_object, add, remove, write, encode, read, Added,
}
use tmctl.Manifest.Keys.{Unique, add-Unique}
use tmctl.Manifest.Persist.{InSync, write-InSync, add-InSync, read-write}
use tmctl.Manifest.Upsert.{find, kept, changes, add-find}
use tmctl.Tests.Samples.{Saved, disk, yaml, yaml-IsLawful, named_object, manifest, files}

abbrev poller : Object
poller = named_object "poller" "Source"

abbrev poller_component : Component
poller_component = record {
  name = "poller";
  kind = "Source";
  api_version = "v1";
  spec = none;
  as_k8s_object = ok poller;
  producer = none;
  consumer = none;
}

abbrev added : Added disk yaml
added = add disk yaml poller_component manifest files

written_ok : (write disk yaml manifest files).0 ≡ ok tt
unfolding write encode write_memory insert
written_ok = refl

abbrev written :
    InSync disk
      (memory-IsLawful Saved)
      yaml
      yaml-IsLawful
      manifest
      (write disk yaml manifest files).1
written = write-InSync disk (memory-IsLawful Saved) yaml yaml-IsLawful manifest files written_ok

read-write_example :
    read disk yaml
      (record { path = "/home/foo/manifest.yaml"; objects = [] })
      (write disk yaml manifest files).1
    ≡ (
      ok tt,
      record { path = "/home/foo/manifest.yaml"; objects = map yaml.reread manifest.objects },
    )
read-write_example =
    read-write disk (memory-IsLawful Saved) yaml yaml-IsLawful manifest
      (record { path = "/home/foo/manifest.yaml"; objects = [] }) files refl written_ok

add-Unique_example :
    Unique added.manifest.objects
    × Unique (remove disk yaml "one" "Trigger" manifest files).manifest.objects
unfolding match_objects
add-Unique_example =
    add-Unique disk yaml poller_component "one" "Trigger" manifest files
      (refl, (refl, (refl, (refl, tt))))

poller-IsDistinct : IsDistinct poller
unfolding get
poller-IsDistinct = record { labels = tt; annotations = tt; spec = (refl, tt, tt); content = tt }

add-find_example :
    (added.dirty ≡ changes poller (find poller manifest.objects))
    × (find poller added.manifest.objects ≡ (
        if match_objects poller poller
        then some (kept poller (find poller manifest.objects))
        else find poller manifest.objects))
add-find_example = add-find disk yaml poller_component poller poller manifest files refl

add-InSync_example :
    InSync disk
      (memory-IsLawful Saved)
      yaml
      yaml-IsLawful
      (add disk yaml poller_component manifest (write disk yaml manifest files).1).manifest
      (add disk yaml poller_component manifest (write disk yaml manifest files).1).disk
unfolding add add_object place match_objects store write encode write_memory insert
add-InSync_example =
    add-InSync disk (memory-IsLawful Saved) yaml yaml-IsLawful poller_component manifest
      (write disk yaml manifest files).1 written refl
