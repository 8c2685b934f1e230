-- ===== src/Service/Images.antt =====
-- `AsDigitalOceanObject` of pkg/triggermesh/components/service/service.go: how the image is cut.
use tmctl.Base.{
  String, List, [], ◌∷◌, ◌<>◌, ◌==◌, if◌then◌else◌, String_eq, ℕ_eq, Dict, split, split_absent,
  split-append, Lacks, ◌≡◌, ◌≢◌, refl, ap, ◌∙◌, eq_iff, Bool-cases, inl, inr,
}
use tmctl.Service.{Service}

-- `godo.ImageSourceSpec`, without the type of the registry, which is always the same.
pub record ImageSource : Type 0 where
  pub registry : String
  pub repository : String
  pub tag : String

-- `l[len(l)-1]`
unfoldable pub last_part : List String → String
last_part [] = ""
last_part (p ∷ []) = p
last_part (p ∷ q ∷ ps) = last_part (q ∷ ps)

-- The repository and the tag that the parts of the last part give.
abbrev pub tagged : List String → String × String
tagged (repository ∷ tag ∷ []) = if tag == "" then ("", "latest") else (repository, tag)
tagged parts = ("", "latest")

abbrev pub registry_of : List String → String
registry_of [] = ""
registry_of (a ∷ b ∷ c ∷ []) = b
registry_of (a ∷ rest) = a

abbrev pub source_of : String → String × String → ImageSource
source_of registry (repository, tag) = record {
  registry = registry;
  repository = repository;
  tag = tag;
}

unfoldable pub image_source : String → ImageSource
unfolding split last_part
image_source image =
    let parts = split b'/' image in
    source_of (registry_of parts) (tagged (split b':' (last_part parts)))

-- `godo.AppServiceSpec`, with the fields that vary.
pub record AppService : Type 0 where
  pub name : String
  pub image : ImageSource
  pub envs : Dict String

unfoldable pub as_digital_ocean_object : Dict String → Service → AppService
unfolding image_source
as_digital_ocean_object extra s = record {
  name = s.name;
  image = image_source s.image;
  envs = extra;
}

parts_of_three :
    (a b c : String)
    → Lacks (λ c. c == b'/') a
    → Lacks (λ c. c == b'/') b
    → Lacks (λ c. c == b'/') c
    → split b'/' (a <> "/" <> b <> "/" <> c) ≡ a ∷ b ∷ c ∷ []
unfolding ◌<>◌
parts_of_three a b c p q r =
    split-append "/" a (b <> "/" <> c) p
    ∙ ap (◌∷◌ a) (split-append "/" b c q ∙ ap (◌∷◌ b) (split_absent b'/' c r))

parts_of_two :
    (a b : String)
    → Lacks (λ c. c == b'/') a
    → Lacks (λ c. c == b'/') b
    → split b'/' (a <> "/" <> b) ≡ a ∷ b ∷ []
unfolding ◌<>◌
parts_of_two a b p q = split-append "/" a b p ∙ ap (◌∷◌ a) (split_absent b'/' b q)

name_and_tag :
    (name tag : String)
    → Lacks (λ c. c == b':') name
    → Lacks (λ c. c == b':') tag
    → tag ≢ ""
    → tagged (split b':' (name <> ":" <> tag)) ≡ (name, tag)
unfolding ◌<>◌
name_and_tag name tag p q nonempty =
    ap tagged (split-append ":" name tag p ∙ ap (◌∷◌ name) (split_absent b':' tag q))
    ∙ elim (Bool-cases (tag == "")) [
      | inl e ↦ absurd (nonempty ((eq_iff tag "").0 e))
      | inr e ↦ rw e refl
    ]

-- For an image with a host, an owner, a name and a tag, none of which has a slash or, the last two, a
-- colon, and with a tag that is not empty, the exported image has the owner as its registry, the
-- name as its repository, and the tag.
pub image_source_lem :
    (host owner name tag : String)
    → Lacks (λ c. c == b'/') host
    → Lacks (λ c. c == b'/') owner
    → Lacks (λ c. c == b'/') (name <> ":" <> tag)
    → Lacks (λ c. c == b':') name
    → Lacks (λ c. c == b':') tag
    → tag ≢ ""
    → image_source (host <> "/" <> owner <> "/" <> name <> ":" <> tag)
      ≡ record { registry = owner; repository = name; tag = tag }
unfolding image_source last_part
image_source_lem host owner name tag a b c d e f =
    ap (λ parts. source_of (registry_of parts) (tagged (split b':' (last_part parts))))
      (parts_of_three host owner (name <> ":" <> tag) a b c)
    ∙ ap (source_of owner) (name_and_tag name tag d e f)

-- For an image with an owner and a name and without a tag, none of which has a slash or, the name, a
-- colon, the exported image has no repository: the name is lost.
pub image_source_untagged :
    (owner name : String)
    → Lacks (λ c. c == b'/') owner
    → Lacks (λ c. c == b'/') name
    → Lacks (λ c. c == b':') name
    → image_source (owner <> "/" <> name)
      ≡ record { registry = owner; repository = ""; tag = "latest" }
unfolding image_source last_part
image_source_untagged owner name a b c =
    ap (λ parts. source_of (registry_of parts) (tagged (split b':' (last_part parts))))
      (parts_of_two owner name a b)
    ∙ ap (λ parts. source_of owner (tagged parts)) (split_absent b':' name c)
