-- ===== src/Tests/Parts.antt =====
-- Schemas, secrets and components at concrete inputs.
use tmctl.Base.{
  ℕ, String, Option, none, some, List, [], ◌∷◌, Result, ok, err, ◌<>◌, ◌==◌, String_eq,
  if◌then◌else◌, Dict, lookup, to_lower, to_upper, ◌≡◌, ◌≢◌, ◌⊎◌, refl, arith,
}
use tmctl.Broker.Config.{Trigger}
use tmctl.Broker.Trigger.{api_version, trigger_kind, new_trigger}
use tmctl.Components.{Source}
use tmctl.Components.External.{resource_text, get_meta, read_status, read_status-get_meta}
use tmctl.Components.Found.{found_trigger, get_object}
use tmctl.Components.Found.Depth.{Ranked, get_object-ne-none, get_object_diverges}
use tmctl.Crd.Process.{Parsers}
use tmctl.Crd.Schema.{
  Schema, schema, done, property, no_additional, additional, no_items, last, find,
}
use tmctl.Crd.Secrets.{
  Base64, extract_secrets, extract_fields, plain_value, secret_ref, secret_reference,
}
use tmctl.Crd.Secrets.Extraction.{extract_secrets_again}
use tmctl.Kubernetes.{Object}
use tmctl.Kubernetes.Value.{
  pos, text, int64, texts, arr, obj, nil, cons, Fields, end, field, KReference, Filter,
}
use tmctl.Secrets.{Secret, Parent, get_children, is_own_secret}
use tmctl.Secrets
use tmctl.Secrets.Again.{variables, process_secrets_again}
use tmctl.Service.{Service, manifest_params, as_k8s_object}
use tmctl.Service.Reading.{read_service, read_service-as_k8s_object}
use tmctl.Settings
use tmctl.Tests.Samples.{named_object, disk, tools, sample_trigger}
use tmctl.Transformation.{
  Transformation, get_context_transformation_value, set_event_attributes, add_operation,
  append_item,
}
use tmctl.Transformation.Attributes.{or_attribute, set_event_attributes_lem}

abbrev pub parsers : Parsers
parsers = record {
  atoi = λ s. (pos 7, none);
  yaml_object = λ s. ok end;
  yaml_objects = λ s. err "no objects";
}

abbrev typed : String → Schema
typed type = schema done no_additional no_items (type ∷ []) [] last ""

abbrev sample_schema : Schema
sample_schema =
    schema
      (property "count" (typed "integer") (
        property "tags" (typed "array") (
          property "options" (schema done (additional (typed "string")) no_items [] [] last "")
            done)))
      no_additional no_items [] [] last ""

abbrev raw : Fields
raw = field "tags" (text "a,b") (field "count" (text "7") (field "options" (text "k:v") end))

abbrev processed : Fields
processed =
    field "tags" (texts ("a" ∷ "b" ∷ []))
      (field "count" (int64 (pos 7)) (field "options" (obj (field "k" (text "v") end)) end))

-- Base 64 is replaced by the identity.
abbrev base64 : Base64
base64 = record { encoded = λ s. s; decoded = λ s. ok s }

abbrev secret_schema : Schema
secret_schema =
    schema
      (property "password"
        (schema (property "valueFromSecret" (typed "object") done) no_additional no_items [] [] last
          "")
        done)
      no_additional no_items [] [] last ""

abbrev secret_spec : Fields
secret_spec = field "url" (text "u") (field "password" (text "p") end)

abbrev public_spec : Fields
public_spec =
    field "url" (text "u")
      (field "password" (secret_reference "foo" "valueFromSecret" "password") end)

abbrev secrets : Dict String
secrets = ("password", "p") ∷ []

extracted : extract_secrets base64 "foo" secret_schema secret_spec ≡ ok (secrets, public_spec)
unfolding extract_secrets extract_fields find plain_value secret_ref
extracted = refl

extract_secrets_again_example :
    ((secrets ≡ [])
      × (extract_secrets base64 "foo" secret_schema public_spec ≡ ok ([], public_spec)))
    ⊎ ((secrets ≢ [])
        × ((e : String) × (extract_secrets base64 "foo" secret_schema public_spec ≡ err e)))
extract_secrets_again_example =
    extract_secrets_again base64 "foo" secret_schema secret_spec public_spec secrets extracted

abbrev parent : Parent
parent = record { name = "foo"; broker = "b"; schema = ok secret_schema; spec = secret_spec }

abbrev child : Secret
child = record { name = "foo-secret"; context = "b"; content = secrets }

process_secrets_again_example :
    variables base64 (record parent { spec = public_spec }) (Secrets.as_k8s_object child ∷ [])
    ≡ variables base64 parent []
unfolding get_children is_own_secret Secrets.as_k8s_object to_lower extract_secrets extract_fields
    find plain_value secret_ref ◌<>◌
process_secrets_again_example =
    process_secrets_again base64 parent child public_spec [] (Secrets.as_k8s_object child ∷ []) refl
      refl refl

abbrev sample_transformation : Transformation
sample_transformation = record {
  name = "t";
  broker = "b";
  version = "";
  spec = some end;
  labels = [];
}

abbrev typed_transformation : Transformation
typed_transformation = record sample_transformation {
  spec = some (
      field "context" (arr (cons (add_operation (("type", "order") ∷ ("source", "shop") ∷ [])) nil))
        end);
}

set_event_attributes_lem_example :
    get_context_transformation_value "source" typed_transformation
    ≡ or_attribute
        (get_context_transformation_value "source" sample_transformation)
        (lookup "source" (("type", "order") ∷ ("source", "shop") ∷ []))
unfolding set_event_attributes append_item
set_event_attributes_lem_example =
    set_event_attributes_lem (("type", "order") ∷ ("source", "shop") ∷ []) "source"
      sample_transformation typed_transformation refl

abbrev sample_service : Service
sample_service = record {
  name = "s";
  broker = "b";
  image = "docker.io/user/app:1";
  role = "source";
  params = ("CE_TYPE", "order") ∷ [];
}

read_service-as_k8s_object_example :
    read_service "b" (as_k8s_object sample_service)
    ≡ ok (some (record sample_service { params = manifest_params sample_service }))
unfolding manifest_params to_upper lookup
read_service-as_k8s_object_example =
    read_service-as_k8s_object sample_service (λ e. cc e) (refl, refl, (refl, refl, tt))

abbrev sample_source : Source
sample_source = record {
  name = "s";
  broker = "b";
  kind = "awssqssource";
  version = "v1";
  spec = none;
  status = ("q", "1") ∷ [];
}

read_status-get_meta_example : read_status (get_meta sample_source) ≡ sample_source.status
unfolding lookup resource_text ◌<>◌
read_status-get_meta_example =
    read_status-get_meta sample_source (((refl, (refl, (refl, tt))), (refl, tt), (refl, tt)), tt)
      (refl, tt)

-- A trigger whose target is a service of another name, and one whose target has its own name.
abbrev labelled : Object → Object
labelled o = record o {
  metadata = record o.metadata { labels = some (("triggermesh.io/context", "b") ∷ []) };
}

abbrev trigger_object : Object
trigger_object = record (labelled (named_object "t" trigger_kind)) { api_version = api_version }

abbrev to_reference : String → Option Fields → Result (List Filter × Option KReference)
to_reference name spec =
    ok ([], some (record { kind = ""; name = name; api_version = ""; group = "" }))

abbrev settings : Settings.Config
settings = Settings.blank "/home"

abbrev rank : String → ℕ
rank name = if name == "t" then 1 else 0

get_object-ne-none_example :
    get_object disk tools settings "/home" (to_reference "s") 2 (trigger_object ∷ []) "t" ≢ none
unfolding found_trigger new_trigger
get_object-ne-none_example =
    get_object-ne-none disk tools settings "/home" (to_reference "s") rank 2 (trigger_object ∷ [])
      "t" (ranked, tt) (omega arith)
  where
    ranked : Ranked disk tools settings "/home" (to_reference "s") rank trigger_object
    ranked context target t a k h = let same : "s" ≡ target = cc h in rw (← same) (omega arith)

abbrev own_trigger : Trigger
own_trigger = record sample_trigger { name = "t"; local_url = none; target = none }

get_object_diverges_example :
    get_object disk tools settings "/home" (to_reference "t") 5 (trigger_object ∷ []) "t" ≡ none
unfolding found_trigger new_trigger lookup
get_object_diverges_example =
    get_object_diverges disk tools settings "/home" (to_reference "t") 5 trigger_object [] "b"
      (record own_trigger { broker = record own_trigger.broker { name = "b" } }) refl refl refl refl
