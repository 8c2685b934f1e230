-- ===== src/Tests/Samples.antt =====
-- A disk in memory, marshallers that keep what they are given, and some objects, for the tests.
use tmctl.Base.{String, none, some, List, [], ◌∷◌, Result, ok, err, ◌≡◌, refl, Dict}
use tmctl.Broker.Config.{LocalTriggerSpec, Configuration, Tools, Trigger}
use tmctl.Broker.Config.Entries
use tmctl.Component.{Component}
use tmctl.Delete.{Outside, World}
use tmctl.Settings.{Config, blank}
use tmctl.Disk.{Disk}
use tmctl.Disk.Memory.{Piece, plain, value, Files, memory}
use tmctl.Kubernetes.{Object}
use tmctl.Kubernetes.Value.{pos, KReference, field, end, text}
use tmctl.Manifest.{Document, object, Manifest, Yaml}
use tmctl.Manifest.Persist
use tmctl.Settings

-- What a file can hold besides text.
pub data Saved : Type 0 where
  saved_object : Object → Saved
  saved_configuration : Configuration → Saved
  saved_settings : Settings.Config → Saved

abbrev pub disk : Disk
disk = memory Saved

abbrev sample_documents : List (Piece Saved) → List Document
sample_documents [] = []
sample_documents (plain s ∷ rest) = sample_documents rest
sample_documents (value (saved_object o) ∷ rest) = object o ∷ sample_documents rest
sample_documents (value v ∷ rest) = sample_documents rest

abbrev pub yaml : Yaml disk
yaml = record {
  marshal = λ o. ok (value (saved_object o) ∷ []);
  documents = sample_documents;
  reread = λ o. o;
}

pub yaml-IsLawful : Persist.IsLawful disk yaml
yaml-IsLawful = record {
  documents-nothing = refl;
  documents-append = λ o body rest h s. rw⁻¹ (bytes o body h) refl;
}
  where
    bytes :
        (o : Object) (body : List (Piece Saved))
        → ok (value (saved_object o) ∷ []) ≡ ok body
        → value (saved_object o) ∷ [] ≡ body
    bytes o body h = cc h

abbrev no_triggers : Configuration
no_triggers = record { triggers = none }

abbrev sample_unmarshal : List (Piece Saved) → Result Configuration
sample_unmarshal (value (saved_configuration c) ∷ rest) = ok c
sample_unmarshal b = ok no_triggers

abbrev pub tools : Tools disk
tools = record {
  marshal = λ c. ok (value (saved_configuration c) ∷ []);
  unmarshal = sample_unmarshal;
  filter_yaml = λ f. "";
  digest = λ s. s;
  parse_url = λ s. ok (some s);
}

pub tools-IsLawful : Entries.IsLawful disk tools
tools-IsLawful = record { unmarshal-marshal = λ c b h. rw⁻¹ (bytes c b h) (c, refl, refl) }
  where
    bytes :
        (c : Configuration) (b : List (Piece Saved))
        → ok (value (saved_configuration c) ∷ []) ≡ ok b
        → value (saved_configuration c) ∷ [] ≡ b
    bytes c b h = cc h

abbrev pub outside : Outside
outside = record {
  Cloud = List String;
  force_stop = λ name cloud. name ∷ cloud;
  clean_up = λ o secrets cloud. (ok tt, o.metadata.name ∷ cloud);
  crds = [];
  parsers = record {
    atoi = λ s. (pos 7, none);
    yaml_object = λ s. ok end;
    yaml_objects = λ s. err "no objects";
  };
  base64 = record { encoded = λ s. s; decoded = λ s. ok s };
  validate = λ s fs. ok tt;
  deep_copy = λ v. ok v;
  set_status = λ status o. ok o;
  read_trigger_spec = λ spec. err "no trigger";
}

abbrev pub config : Config
config = record (blank "/home") { context = "foo" }

abbrev pub named_object : String → String → Object
named_object name kind = record {
  api_version = "v1";
  kind = kind;
  metadata = record { name = name; namespace = ""; labels = none; annotations = none };
  spec = some (field "key" (text name) end);
  content = none;
  type = "";
}

abbrev pub sink_target : Component
sink_target = record {
  name = "sink";
  kind = "Service";
  api_version = "v1";
  spec = none;
  as_k8s_object = ok (named_object "sink" "Service");
  producer = none;
  consumer = some (record { consumed_event_types = ok []; port = ok "8080" });
}

abbrev pub sink_reference : KReference
sink_reference = record { kind = "Service"; name = "sink"; api_version = "v1"; group = "" }

abbrev pub local_spec_for : String → LocalTriggerSpec
local_spec_for component = record {
  filters = [];
  target = record {
    url = "http://host.docker.internal:8080";
    component = component;
    delivery = none;
  };
}

abbrev pub stored_triggers : Dict LocalTriggerSpec
stored_triggers = ("one", local_spec_for "sink") ∷ ("two", local_spec_for "other") ∷ []

abbrev pub sample_trigger : Trigger
sample_trigger = record {
  name = "one";
  config_base = "/home";
  local_url = some "http://host.docker.internal:8080";
  broker = record {
    kind = "RedisBroker";
    name = "foo";
    api_version = "";
    group = "eventing.triggermesh.io";
  };
  filters = [];
  target = some sink_reference;
}

abbrev pub manifest : Manifest
manifest = record {
  path = "/home/foo/manifest.yaml";
  objects =
      named_object "sink" "Service"
      ∷ named_object "sink-secret" "Secret"
      ∷ named_object "one" "Trigger"
      ∷ named_object "other" "Source"
      ∷ [];
}

abbrev pub files : Files Saved
files = record {
  contents =
      (
        "/home/foo/broker.conf",
        value (saved_configuration (record { triggers = some stored_triggers })) ∷ [],
      )
      ∷ [];
  read_only = [];
}

abbrev pub world : World disk yaml tools outside
world = record { manifest = manifest; disk = files; cloud = [] }
