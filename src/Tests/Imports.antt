-- ===== src/Tests/Imports.antt =====
-- The dump of objects, their import again, and the arguments of a command, at concrete inputs.
use tmctl.Base.{
  ℕ, String, true, false, Bool-cases, inl, inr, eq_iff, Option, none, some, List, [], ◌∷◌, any, All,
  Result, ok, panic, ◌<>◌, ◌==◌, String_eq, if◌then◌else◌, Dict, lookup, insert, split, ◌≡◌, ◌⊎◌,
  refl, ap, arith,
}
use Prim.Native.Char.{code}
use tmctl.Crd.Secrets.{Base64}
use tmctl.Broker.Config.{LocalTriggerSpec, Configuration}
use tmctl.Components.{Target}
use tmctl.Components.Found.{Found, secret, trigger, aimed, target}
use tmctl.Disk.{found}
use tmctl.Disk.Memory.{Piece, plain, memory-IsLawful, value}
use tmctl.Dump.{Json, kubernetes, redacted, dump, dump_objects}
use tmctl.Dump.Again.{parse_yaml-dump}
use tmctl.Dump.Static.{
  static_broker_config, static_triggers, static_round, static_entry, static_url, found_kind,
  found_name, entries, as_trigger, added,
}
use tmctl.Dump.Static.Entries.{is_lost, last_entry, static_broker_config_lem}
use tmctl.Dump.Hidden.{Hides, dump-Hides}
use tmctl.Dump.Restored.{import_secret-redacted}
use tmctl.Kubernetes.{Object}
use tmctl.Kubernetes.Value.{pos, text, int, arr, nil, cons, Fields, end, field, put}
use tmctl.Load.{Terminal, parse_user_input_tags, import_secret, fill_fields}
use tmctl.Load.Answered.{NoTag, fields_have_tag, untagged-parse_user_input_tags}
use tmctl.Load.Filled.{has_key, kept_at, has_key-parse_user_input_tags}
use tmctl.Manifest.{parse_yaml, clear_namespace}
use tmctl.Parameters.{parse_args}
use tmctl.Parameters.Arguments.{Stands, parse_args-Stand}
use tmctl.Secrets.{Secret}
use tmctl.Secrets
use tmctl.Tests.Samples.{
  disk, yaml, yaml-IsLawful, Saved, saved_object, named_object, sample_trigger,
}

-- The lines that are typed, and then the end of the input.
abbrev typed : List String → Result String × List String
typed [] = (ok "", [])
typed (line ∷ rest) = (ok line, rest)

abbrev terminal : Terminal
terminal = record { Lines = List String; read_line = typed }

-- Base 64 is replaced by a letter before the text.
abbrev unmarked : String → Result String
unmarked String.[] = ok ""
unmarked (String.◌∷◌ c s) = ok s

abbrev pub marking : Base64
marking = record { encoded = λ s. "e" <> s; decoded = unmarked }

abbrev spec : Fields
spec =
    field "password" (text "<user_input>")
      (field "count" (int (pos 3)) (field "tags" (arr (cons (text "x") nil)) end))

abbrev filled : Fields
filled = field "password" (text "ep") end

fills : parse_user_input_tags marking terminal "Secret" (some spec) ("p" ∷ []) ≡ (ok filled, [])
unfolding parse_user_input_tags fill_fields put ◌<>◌
fills = refl

has_key-parse_user_input_tags_example : has_key "count" filled ≡ kept_at "count" spec
has_key-parse_user_input_tags_example =
    has_key-parse_user_input_tags marking terminal "Secret" "count" spec filled ("p" ∷ []) [] fills

-- A terminal where every line is the same.
abbrev steady : Terminal
steady = record { Lines = Unit; read_line = λ s. (ok "p", s) }

abbrev first_code : String → ℕ
first_code String.[] = 0
first_code (String.◌∷◌ c s) = code c

marked : (v : String) → (("e" <> v) == "<user_input>") ≡ false
unfolding ◌<>◌
marked v = elim (Bool-cases (("e" <> v) == "<user_input>")) [
  | inl e ↦
      let same : "e" <> v ≡ "<user_input>" = (eq_iff ("e" <> v) "<user_input>").0 e in
      let codes : first_code ("e" <> v) ≡ 60 = ap first_code same in absurd (omega (arith, codes))
  | inr e ↦ e
]

steady-NoTag : NoTag marking steady
unfolding ◌<>◌
steady-NoTag = record { line = λ s s' v h. rw⁻¹ (same v h) refl; encoded = marked }
  where
    same :
        (v : String) {s s' : Unit {0}}
        → ◌≡◌ {A = Result String × Unit {0}} (ok "p", s) (ok v, s')
        → "p" ≡ v
    same v h =
        let r : ◌≡◌ {A = Result String} (ok "p") (ok v) =
          ap (λ (x : Result String × Unit {0}). x.0) h in
        cc r

fills_steadily : parse_user_input_tags marking steady "Secret" (some spec) tt ≡ (ok filled, tt)
unfolding parse_user_input_tags fill_fields put ◌<>◌
fills_steadily = refl

untagged-parse_user_input_tags_example : fields_have_tag filled ≡ false
untagged-parse_user_input_tags_example =
    untagged-parse_user_input_tags marking steady steady-NoTag "Secret" (some spec) filled tt tt
      fills_steadily

abbrev credentials : Secret
credentials = record {
  name = "foo-secret";
  context = "foo";
  content = ("user", "eu") ∷ ("password", "ep") ∷ [];
}

import_secret-redacted_example :
    import_secret marking terminal (redacted "foo" credentials).content ("u" ∷ "p" ∷ [])
    ≡ (ok credentials.content, [])
unfolding ◌<>◌ lookup
import_secret-redacted_example =
    import_secret-redacted marking terminal "foo" credentials ("u" ∷ "p" ∷ []) [] (refl, (refl, tt))
      ("u", "p" ∷ [], refl, refl, ("p", [], refl, refl, refl))

abbrev found_secret : String → Result (Option Found)
found_secret name = ok (some (secret credentials))

abbrev objects : List Object
objects = Secrets.as_k8s_object credentials ∷ []

abbrev hidden_object : Object
hidden_object = clear_namespace (Secrets.as_k8s_object (redacted "foo" credentials))

abbrev hidden : List Object
hidden = hidden_object ∷ []

dumps : dump_objects marking [] "foo" kubernetes true found_secret objects objects [] ≡ ok hidden
unfolding dump_objects
dumps = refl

dump-Hides_example : All Hides hidden
dump-Hides_example =
    dump-Hides marking [] "foo" kubernetes found_secret objects hidden
      ((λ k. (credentials, refl)), tt) dumps

abbrev json : Json disk
json = record {
  marshal = λ o. ok (value (saved_object o) ∷ []);
  marshal_nil = ok [];
  yaml_nil = ok [];
}

abbrev yaml_text : List (Piece Saved)
yaml_text = plain "---\n" ∷ value (saved_object hidden_object) ∷ []

parse_yaml-dump_example : parse_yaml disk yaml (found yaml_text) ≡ ok hidden
unfolding dump
parse_yaml-dump_example =
    parse_yaml-dump disk (memory-IsLawful Saved) yaml yaml-IsLawful json marking [] "foo" kubernetes
      true found_secret objects hidden yaml_text dumps (λ e. cc e) refl

abbrev arguments : Dict String
arguments = ("a.b", "1") ∷ ("d", "3") ∷ ("a.c", "2") ∷ []

parse_args-Stand_example : All (Stands (parse_args arguments)) arguments
unfolding split
parse_args-Stand_example = parse_args-Stand arguments ((refl, (refl, tt)), ((refl, tt), (tt, tt)))

-- A trigger whose target is found, and one whose target is not.
abbrev sink : Target
sink = record { name = "sink"; broker = "foo"; version = "v1"; kind = "HTTPTarget"; spec = none }

abbrev found_trigger : String → Result (Option Found)
found_trigger name =
    if name == "one"
    then ok (some (aimed sample_trigger (target sink)))
    else ok (some (trigger (record sample_trigger { target = none })))

abbrev one_trigger : List Object
one_trigger = named_object "one" "Trigger" ∷ []

abbrev urls : Configuration → Result String
urls c = ok (elim (c.triggers) [ none ↦ "" | some m ↦ joined m ])
  where
    joined : Dict LocalTriggerSpec → String
    joined [] = ""
    joined ((k, e) ∷ m) = e.target.url <> joined m

static_broker_config_lem_example :
    ((any (λ o. is_lost (found_trigger o.metadata.name)) one_trigger ≡ true)
      × (static_broker_config urls "docker-compose" found_trigger one_trigger ≡ panic))
    ⊎ ((any (λ o. is_lost (found_trigger o.metadata.name)) one_trigger ≡ false)
        × ((m : Option (Dict LocalTriggerSpec)) × (static_broker_config urls "docker-compose"
                found_trigger one_trigger
              ≡ urls (record { triggers = m }))
            × ((n : String)
                → lookup n (entries m) ≡ last_entry "docker-compose" found_trigger n one_trigger)))
static_broker_config_lem_example =
    static_broker_config_lem "docker-compose" found_trigger refl urls one_trigger ((λ e. cc e), tt)

address_of_sink :
    static_broker_config urls "docker-compose" found_trigger one_trigger ≡ ok "http://sink:8080"
unfolding static_broker_config static_triggers static_round static_entry static_url found_kind
    found_name insert as_trigger added ◌<>◌
address_of_sink = refl

no_target :
    static_broker_config urls "docker-compose" found_trigger (named_object "two" "Trigger" ∷ [])
    ≡ panic
unfolding static_broker_config static_triggers static_round static_entry static_url found_kind
    as_trigger added
no_target = refl
