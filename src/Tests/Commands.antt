-- ===== src/Tests/Commands.antt =====
-- The steps of `tmctl create`, and the settings, in memory.
use tmctl.Base.{
  false, none, some, List, [], ◌∷◌, ◌<>◌, lookup, insert, Result, ok, ◌≡◌, refl, sym, ap,
}
use tmctl.Broker.Config.{read_broker_config, write_broker_config, config_file}
use tmctl.Create.{World, list_triggers, remove_old, unstore_trigger, remove_component}
use tmctl.Create.Arguments.{is_flag}
use tmctl.Create
use tmctl.Disk.Memory.{Piece, value, plain, memory-IsLawful, read_memory, write_memory}
use tmctl.Manifest
use tmctl.Manifest.{named}
use tmctl.Settings
use tmctl.Settings.{Host, config_path, new}
use tmctl.Settings.Reload
use tmctl.Settings.Reload.{new_twice}
use tmctl.Settings.Keys.{load_default_config, set, get, with_value}
use tmctl.Settings.Keys.Written.{get-set}
use tmctl.Tests.Samples.{
  Saved, saved_object, saved_configuration, saved_settings, disk, yaml, yaml-IsLawful, tools,
  tools-IsLawful, manifest, files, sample_trigger, sink_target, sink_reference, stored_triggers,
}
use tmctl.Broker.Config.{write_local_config, updated}
use tmctl.Broker.Config.Entries.{stored, entry_of}
use tmctl.Broker.Trigger.{new_trigger, trigger_name, target_url, as_component, as_k8s_object}
use tmctl.Create.{create_trigger, store_trigger, add_component}
use tmctl.Create.Creation.{create_trigger_lem}
use tmctl.Manifest.Keys.{upserted}
use tmctl.Base.{◌==◌, String_eq}

abbrev settings : Create.Config
settings = record { context = "foo"; config_home = "/home" }

abbrev world : World disk yaml tools settings
world = record { manifest = manifest; disk = files }

url_value : is_flag "http://example.com" ≡ false
unfolding is_flag
url_value = refl

abbrev settings_in : List (Piece Saved) → Settings.Config → Result Settings.Config
settings_in (value (saved_settings c) ∷ rest) old = ok (record c { config_home = old.config_home })
settings_in b old = ok old

abbrev host : Host disk
host = record {
  home = "/home";
  windows = false;
  latest = λ project. none;
  make_directory = λ path s. (none, s);
  marshal = λ c. ok (value (saved_settings c) ∷ []);
  unmarshal = settings_in;
}

ok_same : (a b : Settings.Config) → ok a ≡ ok b → a ≡ b
ok_same a b h = cc h

home-settings_in :
    (c : Settings.Config) (b : List (Piece Saved)) (old : Settings.Config)
    → settings_in b old ≡ ok c
    → c.config_home ≡ old.config_home
home-settings_in c [] old h = sym (ap (λ s. s.config_home) (ok_same old c h))
home-settings_in c (plain t ∷ rest) old h = sym (ap (λ s. s.config_home) (ok_same old c h))
home-settings_in c (value (saved_object o) ∷ rest) old h =
    sym (ap (λ s. s.config_home) (ok_same old c h))
home-settings_in c (value (saved_configuration o) ∷ rest) old h =
    sym (ap (λ s. s.config_home) (ok_same old c h))
home-settings_in c (value (saved_settings o) ∷ rest) old h =
    sym (ap (λ s. s.config_home) (ok_same (record o { config_home = old.config_home }) c h))

host-IsLawful : Reload.IsLawful disk host
host-IsLawful = record {
  unmarshal-marshal = λ c b h. rw⁻¹ (bytes c b h) refl;
  home-unmarshal = λ c b home h. home-settings_in c b (Settings.blank home) h;
}
  where
    bytes :
        (c : Settings.Config) (b : List (Piece Saved))
        → ok (value (saved_settings c) ∷ []) ≡ ok b
        → value (saved_settings c) ∷ [] ≡ b
    bytes c b h = cc h

abbrev default_settings : Settings.Config
default_settings = record (Settings.default_config disk host) {
  schema_registry = Settings.default_schema_registry;
}

created_ok : (new disk host files).0 ≡ ok default_settings
unfolding new Settings.load_or_create Settings.create_default Settings.default_config Settings.save
    Settings.apply_overrides Settings.overridden Settings.broker_image_replacement
    Settings.docker_timeout_append Settings.schema_registry_append Settings.latest_or_default_tag
    read_memory write_memory lookup insert config_path ◌<>◌
created_ok = refl

new_twice_example :
    new disk host (new disk host files).1 ≡ (ok default_settings, (new disk host files).1)
new_twice_example =
    new_twice disk (memory-IsLawful Saved) host host-IsLawful files default_settings created_ok

abbrev created_files : disk.State
created_files = (new disk host files).1

timeout_set : (set disk host "docker.timeout" "9s" created_files).0 ≡ ok tt
unfolding new Settings.load_or_create Settings.create_default Settings.default_config Settings.save
    Settings.apply_overrides Settings.overridden Settings.broker_image_replacement
    Settings.docker_timeout_append Settings.schema_registry_append Settings.latest_or_default_tag
    read_memory write_memory lookup insert config_path ◌<>◌ set load_default_config with_value
timeout_set = refl

get-set_example :
    get disk host "context" (set disk host "docker.timeout" "9s" created_files).1
    ≡ get disk host "context" created_files
get-set_example =
    get-set disk (memory-IsLawful Saved) host host-IsLawful "docker.timeout" "9s" "context"
      created_files refl refl timeout_set

made_ok : new_trigger disk tools "one" "foo" "/home" (some sink_target) none ≡ ok sample_trigger
unfolding new_trigger trigger_name target_url ◌<>◌
made_ok = refl

stored_ok : stored disk tools files (config_file "/home" "foo") ≡ ok stored_triggers
unfolding config_file read_broker_config read_memory lookup ◌<>◌
stored_ok = refl

other_file : ("/home/foo/manifest.yaml" == config_file "/home" "foo") ≡ false
unfolding config_file ◌<>◌
other_file = refl

trigger_created : (create_trigger disk yaml tools settings "one" sink_target none world).0 ≡ ok tt
unfolding create_trigger store_trigger add_component new_trigger trigger_name target_url
    as_component as_k8s_object write_local_config updated read_broker_config write_broker_config
    Manifest.add Manifest.add_object Manifest.place Manifest.match_objects Manifest.store
    Manifest.write Manifest.encode config_file read_memory write_memory lookup insert ◌<>◌
trigger_created = refl

create_trigger_lem_example :
    let w' = (create_trigger disk yaml tools settings "one" sink_target none world).1 in
    (w'.manifest.objects ≡ upserted (ok (as_k8s_object sample_trigger)) manifest.objects)
    × (stored disk tools w'.disk (config_file "/home" "foo")
        ≡ ok (insert "one" (entry_of sample_trigger sink_reference) stored_triggers))
create_trigger_lem_example =
    create_trigger_lem disk (memory-IsLawful Saved) yaml yaml-IsLawful tools tools-IsLawful settings
      "one" sink_target none sample_trigger sink_reference stored_triggers world made_ok refl
      stored_ok other_file trigger_created
