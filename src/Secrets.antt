-- ===== src/Secrets.antt =====
-- The secrets of a component: pkg/triggermesh/components/secret/secret.go, `GetChildren` of sources and
-- targets, and `ProcessSecrets` of pkg/triggermesh/components/components.go. A loop that copies a map
-- is left out. What a failed extraction leaves of the spec is not seen.
pub mod Again
use tmctl.Base.{
  String, Bool, true, false, ◌&&◌, Option, none, some, List, [], ◌∷◌, map, keep, Result, ok, err,
  panic, ◌>>=◌, wrap, ◌<>◌, ◌==◌, if◌then◌else◌, String_eq, Dict, insert,
}
use tmctl.Crd.Schema.{Schema}
use tmctl.Crd.Secrets.{Base64, secret_name, extract_secrets}
use tmctl.Kubernetes.{Object}
use tmctl.Kubernetes.Value.{text, Fields, end, field}

pub record Secret : Type 0 where
  pub name : String
  pub context : String
  pub content : Dict String

unfoldable pub as_k8s_object : Secret → Object
as_k8s_object s = record {
  api_version = "v1";
  kind = "Secret";
  metadata = record {
    name = s.name;
    namespace = "local";
    labels = some (("triggermesh.io/context", s.context) ∷ []);
    annotations = none;
  };
  spec = none;
  content = some s.content;
  type = "Opaque";
}

-- `GetSpec` and `SetSpec` of a secret.
unfoldable pub get_spec : Dict String → Fields
get_spec [] = end
get_spec ((k, v) ∷ rest) = field k (text v) (get_spec rest)

unfoldable pub set_spec : Fields → Dict String → Result (Dict String)
unfolding insert
set_spec end content = ok content
set_spec (field k (text v) rest) content = set_spec rest (insert k v content)
set_spec (field k v rest) content = panic

-- What the code reads of a source or a target. `schema` is what `getObjectCRD` gives for its CRD.
pub record Parent : Type 0 where
  pub name : String
  pub broker : String
  pub schema : Result Schema
  pub spec : Fields

abbrev children : Parent → Dict String → List Secret
children p [] = []
children p (s ∷ ss) =
    record { name = secret_name p.name; context = p.broker; content = s ∷ ss } ∷ []

abbrev with_children : Parent → Dict String × Fields → Result (List Secret × Fields)
with_children p (secrets, fs) = ok (children p secrets, fs)

-- The secret, if there is one, and the spec afterwards.
unfoldable pub get_children : Base64 → Parent → Result (List Secret × Fields)
get_children b p =
    wrap "extracting secrets" (p.schema >>= λ s. extract_secrets b p.name s p.spec)
    >>= with_children p

unfoldable pub is_own_secret : String → Object → Bool
unfolding ◌<>◌
is_own_secret name o = o.kind == "Secret" && o.metadata.name == name <> "-secret"

-- A map that is `nil` has no entries.
abbrev entries : Option (Dict String) → Dict String
entries none = []
entries (some d) = d

abbrev stored : Object → Secret
stored o = record { name = o.metadata.name; context = ""; content = entries o.content }

-- An error of the extraction means that the secrets are in the manifest.
unfoldable pub read_secrets : Base64 → Parent → List Object → Result (List Secret)
unfolding is_own_secret
read_secrets b p objects = elim (get_children b p) [
  | ok (secrets, fs) ↦ ok secrets
  | err e ↦ ok (map stored (keep (is_own_secret p.name) objects))
  | panic ↦ panic
]

unfoldable pub decode_content : Base64 → Dict String → Dict String → Result (Dict String)
unfolding insert
decode_content b [] result = ok result
decode_content b ((k, v) ∷ rest) result = wrap "decoding secret value" (b.decoded v) >>= λ plain.
    decode_content b rest (insert k plain result)

unfoldable pub decode_secrets : Base64 → List Secret → Dict String → Result (Dict String)
unfolding decode_content
decode_secrets b [] result = ok result
decode_secrets b (s ∷ ss) result =
    decode_content b s.content result >>= λ after. decode_secrets b ss after

abbrev paired : List Secret → Dict String → Result (List Secret × Dict String)
paired secrets env = ok (secrets, env)

-- The secrets as components, and the variables that they give.
unfoldable pub process_secrets : Base64 → Parent → List Object → Result (List Secret × Dict String)
unfolding read_secrets decode_secrets
process_secrets b p objects = read_secrets b p objects >>= λ secrets.
    wrap "decoding secret" (decode_secrets b secrets []) >>= paired secrets
