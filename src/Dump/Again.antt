-- ===== src/Dump/Again.antt =====
-- What `tmctl dump` of cmd/dump/dump.go gives, `tmctl import` of pkg/load/load.go reads again.
use tmctl.Base.{
  String, Bool, Option, List, [], ◌∷◌, map, Result, ok, >>=-ok, wrap, wrap-ok, String_eq, Dict, ◌≡◌,
  ◌≢◌, refl, ◌∙◌,
}
use tmctl.Components.Found.{Found}
use tmctl.Crd.Objects.{Crd}
use tmctl.Crd.Secrets.{Base64}
use tmctl.Disk.{Disk, found, IsLawful as IsLawfulDisk}
use tmctl.Dump.{Platform, Json, dump_objects, format_yaml, format, dump}
use tmctl.Kubernetes.{Object}
use tmctl.Manifest.{Yaml, header, encode, parse_yaml}
use tmctl.Manifest.Persist.{IsLawful, encode-IsStream, collect-map}

module _ (d : Disk) (dl : IsLawfulDisk d) (y : Yaml d) (yl : IsLawful d y) (j : Json d) where
  -- The output has the form of the manifest's file.
  encode-format_yaml :
      (result b : d.Bytes) (os : List Object)
      → format_yaml d y j result os ≡ ok b
      → encode d y result os ≡ ok b
  unfolding format_yaml encode
  encode-format_yaml result b [] h = h
  encode-format_yaml result b (o ∷ os) h =
      let (item, e, w) = >>=-ok (wrap "object encoding error" (y.marshal o)) _ h in
      rw (wrap-ok "object encoding error" (y.marshal o) w, encode)
        (encode-format_yaml (d.append result (d.append (header d y) item)) b os e)

  parse_yaml-format :
      (os : List Object) (b : d.Bytes)
      → os ≢ []
      → format d y j "yaml" os ≡ ok b
      → parse_yaml d y (found b) ≡ ok (map y.reread os)
  unfolding format parse_yaml
  parse_yaml-format [] b n h = absurd (n refl)
  parse_yaml-format (o ∷ os) b n h =
      let (r, split, stream, docs) =
        encode-IsStream d dl y yl (o ∷ os) d.nothing b
          (encode-format_yaml d.nothing b (o ∷ os) h) in
      rw (split ∙ dl.nothing-append r, docs) (collect-map d dl y yl (o ∷ os) [])

  -- With files and YAML that obey their laws: where a dump in YAML puts out objects, reading what it
  -- puts out as a manifest's file gives these objects, each as the decoder gives it back.
  pub parse_yaml-dump :
      (base64 : Base64) (crds : Dict Crd) (context : String) (f : Platform) (no_secrets : Bool)
      (look_up : String → Result (Option Found)) (objects output : List Object) (b : d.Bytes)
      → dump_objects base64 crds context f no_secrets look_up objects objects [] ≡ ok output
      → output ≢ []
      → dump d y j base64 crds context f no_secrets "yaml" look_up objects ≡ ok b
      → parse_yaml d y (found b) ≡ ok (map y.reread output)
  unfolding dump
  parse_yaml-dump base64 crds context f no_secrets look_up objects output b o n h =
      parse_yaml-format output b n
        (wrap-ok "output format error" (format d y j "yaml" output) (rw (o, dump) at h))
