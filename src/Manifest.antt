-- ===== src/Manifest.antt =====
-- pkg/manifest/manifest.go: the objects of a broker, in memory and in its YAML file.
-- `gopkg.in/yaml.v3` and `sigs.k8s.io/yaml` are the parameter `Yaml`. A decoder's stream is the list
-- of what its calls give; where the list ends the decoder gives `io.EOF`.
pub mod Keys
pub mod Persist
pub mod Upsert
use tmctl.Base.{
  String, Bool, true, false, ◌&&◌, not, Option, none, some, List, [], ◌∷◌, ◌++◌, Result, ok, err,
  panic, ◌<>◌, ◌==◌, keep, if◌then◌else◌, String_eq,
}
use tmctl.Component.{Component}
use tmctl.Disk.{Disk, Read, found, missing, failed}
use tmctl.Kubernetes.{Object}
use tmctl.Kubernetes.Equal.{deep_equal}

pub data Document : Type 0 where
  object : Object → Document
  nil_document : Document
  bad_document : String → Document

pub record Yaml (d : Disk) : Type 0 where
  pub marshal : Object → Result d.Bytes
  pub documents : d.Bytes → List Document
  -- An object as the decoder gives it back: some values come back with another type.
  pub reread : Object → Object

pub record Manifest : Type 0 where
  pub path : String
  pub objects : List Object

pub new : String → Manifest
new path = record { path = path; objects = [] }

-- The loop of `parseYAML`; `result` holds the objects so far.
unfoldable pub collect : List Document → List Object → Result (List Object)
collect [] result = ok result
collect (nil_document ∷ rest) result = collect rest result
collect (bad_document e ∷ rest) result = err e
collect (object o ∷ rest) result = collect rest (result ++ o ∷ [])

unfoldable pub match_objects : Object → Object → Bool
match_objects a b =
    a.api_version == b.api_version && a.kind == b.kind && a.metadata.name == b.metadata.name

-- The local manifest sets no namespace.
abbrev pub clear_namespace : Object → Object
clear_namespace o = record o { metadata = record o.metadata { namespace = "" } }

-- How the loop of `Add` ends: no object matches, one that is equal does, or one is replaced.
pub data Placed : Type 0 where
  absent : Placed
  unchanged : Placed
  replaced : List Object → Placed

abbrev pub after : Object → Placed → Placed
after p (replaced os) = replaced (p ∷ os)
after p r = r

unfoldable pub place : Object → List Object → Placed
place o [] = absent
place o (p ∷ ps) =
    let rest = after p (place o ps) in
    if match_objects o p then (if deep_equal o p then unchanged else replaced (o ∷ ps)) else rest

-- The condition of `Remove`.
abbrev pub named : String → String → Object → Bool
named name kind o = o.metadata.name == name && o.kind == kind

module _ (d : Disk) (y : Yaml d) where
  abbrev pub header : d.Bytes
  header = d.of_string "---\n"

  -- The loop of `Write`.
  unfoldable pub encode : d.Bytes → List Object → Result d.Bytes
  encode output [] = ok output
  encode output (o ∷ os) = elim (y.marshal o) [
    | ok body ↦ encode (d.append output (d.append header body)) os
    | err e ↦ err e
    | panic ↦ panic
  ]

  abbrev pub written : Option String × d.State → Result (Unit {0}) × d.State
  written (none, s) = (ok tt, s)
  written (some e, s) = (err e, s)

  unfoldable pub write : Manifest → d.State → Result (Unit {0}) × d.State
  unfolding encode
  write m s = elim (encode d.nothing m.objects) [
    | ok output ↦ written (d.write s m.path output)
    | err e ↦ (err e, s)
    | panic ↦ (panic, s)
  ]

  unfoldable pub parse_yaml : Read d.Bytes → Result (List Object)
  unfolding collect
  parse_yaml (found b) = collect (y.documents b) []
  parse_yaml missing = err "manifest does not exist, please create the broker"
  parse_yaml (failed e) = err e

  -- On an error the objects stay as they were.
  unfoldable pub read : Manifest → d.State → Result (Unit {0}) × Manifest
  unfolding parse_yaml
  read m s = elim (parse_yaml (d.read s m.path)) [
    | ok os ↦ (ok tt, record m { objects = os })
    | err e ↦ (err e, m)
    | panic ↦ (panic, m)
  ]

  -- What `Add` returns, and the manifest and the files after it.
  pub record Added : Type 0 where
    pub dirty : Bool
    pub outcome : Result (Unit {0})
    pub manifest : Manifest
    pub disk : d.State

  unfoldable pub store : Manifest → List Object → d.State → Added
  unfolding write
  store m os s =
      let m' = record m { objects = os } in
      let (r, t) = write m' s in record { dirty = true; outcome = r; manifest = m'; disk = t }

  unfoldable pub add_object : Object → Manifest → d.State → Added
  unfolding place store match_objects
  add_object o m s = elim (place o m.objects) [
    | absent ↦ store m (m.objects ++ o ∷ []) s
    | unchanged ↦ record { dirty = false; outcome = ok tt; manifest = m; disk = s }
    | replaced os ↦ store m os s
  ]

  unfoldable pub add : Component → Manifest → d.State → Added
  unfolding add_object
  add c m s = elim (c.as_k8s_object) [
    | ok o ↦ add_object (clear_namespace o) m s
    | err e ↦ record {
      dirty = false;
      outcome = err ("creating k8s object: " <> e);
      manifest = m;
      disk = s;
    }
    | panic ↦ record { dirty = false; outcome = panic; manifest = m; disk = s }
  ]

  pub record Removed : Type 0 where
    pub outcome : Result (Unit {0})
    pub manifest : Manifest
    pub disk : d.State

  unfoldable pub remove : String → String → Manifest → d.State → Removed
  unfolding write
  remove name kind m s =
      let m' = record m { objects = keep (λ o. not (named name kind o)) m.objects } in
      let (r, t) = write m' s in record { outcome = r; manifest = m'; disk = t }
