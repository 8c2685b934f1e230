-- ===== src/Crd/Secrets.antt =====
-- pkg/triggermesh/crd/secret.go: taking the secrets out of a spec. The map that is given is changed in
-- place; here the changed one is returned, and that of a failed call is not seen. `encoding/base64` is
-- the parameter `Base64`. In a message a key stands in plain quotes, without the type of the value.
pub mod Extraction
use tmctl.Base.{
  String, Bool, true, false, ◌||◌, Option, none, some, List, [], ◌∷◌, Result, ok, err, panic, ◌>>=◌,
  ◌<>◌, ◌==◌, if◌then◌else◌, String_eq, Dict, insert, to_lower,
}
use tmctl.Crd.Schema.{Schema, schema, Properties, done, property, properties, find}
use tmctl.Kubernetes.Value.{Value, text, obj, Fields, end, field}

pub record Base64 : Type 0 where
  pub encoded : String → String
  pub decoded : String → Result String

-- `isSecretRef`: the first key, in the order of a `range`, that is that of a reference.
unfoldable pub secret_ref : Properties → Option String
secret_ref done = none
secret_ref (property k s ps) =
    if k == "valueFromSecret" || k == "secretKeyRef" then some k else secret_ref ps

-- The name of the secret of a component.
unfoldable pub secret_name : String → String
unfolding ◌<>◌ to_lower
secret_name component = to_lower component <> "-secret"

-- What stands in a spec in place of the secret at the key `k`.
unfoldable pub secret_reference : String → String → String → Value
unfolding secret_name
secret_reference component ref k =
    obj
      (field ref (obj (field "name" (text (secret_name component)) (field "key" (text k) end))) end)

-- The loop that adds the nested secrets.
unfoldable pub add_all : Dict String → Dict String → Dict String
unfolding insert
add_all [] result = result
add_all ((k, v) ∷ rest) result = add_all rest (insert k v result)

abbrev not_a_secret : String → String
unfolding ◌<>◌
not_a_secret k = "\"" <> k <> "\" is expected to contain secret string"

abbrev put_first : String → Value → Dict String × Fields → Result (Dict String × Fields)
put_first k v (secrets, fs) = ok (secrets, field k v fs)

module _ (b : Base64) (component : String) where
  -- What a value gives: the secrets after it, and the value that takes its place.
  abbrev pub Extracted : Type 0
  Extracted = Dict String × Value

  -- The value at a secret's key.
  unfoldable pub extract_text : String → String → Value → Dict String → Result Extracted
  unfolding secret_reference insert ◌<>◌
  extract_text ref k (text secret) result =
      ok (insert k (b.encoded secret) result, secret_reference component ref k)
  extract_text ref k v result = err (not_a_secret k)

  -- A value that is no object.
  unfoldable pub plain_value : Option String → String → Value → Dict String → Result Extracted
  unfolding extract_text
  plain_value (some ref) k v result = extract_text ref k v result
  plain_value none k v result = ok (result, v)

  -- An object, where `inner` is what its fields give.
  unfoldable pub object_value :
      Option String
      → String
      → Fields
      → Result (Dict String × Fields)
      → Dict String
      → Result Extracted
  unfolding extract_text add_all
  object_value (some ref) k fs inner result = extract_text ref k (obj fs) result
  object_value none k fs inner result =
      inner >>= λ (secrets, gs). ok (add_all secrets result, obj gs)

  unfoldable mutual
    -- The body of the loop, for the properties of the value's schema.
    pub extract_value : Properties → String → Value → Dict String → Result Extracted
    extract_value ps k (obj fs) result =
        object_value (secret_ref ps) k fs (extract_fields ps fs []) result
    extract_value ps k v result = plain_value (secret_ref ps) k v result

    pub extract_fields : Properties → Fields → Dict String → Result (Dict String × Fields)
    extract_fields ps end result = ok (result, end)
    extract_fields ps (field k v fs) result = elim (find k ps) [
      | none ↦ extract_fields ps fs result >>= put_first k v
      | some s ↦ extract_value (properties s) k v result >>= λ (later, w).
          extract_fields ps fs later >>= put_first k w
    ]

  unfoldable pub extract_secrets : Schema → Fields → Result (Dict String × Fields)
  extract_secrets s fs = extract_fields (properties s) fs []
