-- ===== src/Tests/Triggers.antt =====
-- Triggers in the configuration file of a broker in memory.
use tmctl.Base.{◌∷◌, [], List, ◌<>◌, ok, ◌≡◌, refl, insert, lookup, String_eq}
use tmctl.Broker.Config.{
  config_file, read_broker_config, write_broker_config, write_local_config,
  remove_from_local_config, updated,
}
use tmctl.Broker.Config.Entries.{stored}
use tmctl.Broker.Trigger.{get_target_triggers}
use tmctl.Broker.Trigger.Lookup.{names_for, described_triggers, get_target_triggers_lem}
use tmctl.Completion.{list_filtered_event_types}
use tmctl.Completion.Types.{types_by_name, list_filtered_event_types_lem}
use tmctl.Kubernetes.{Object}
use tmctl.Disk.Memory.{memory-IsLawful, read_memory, write_memory}
use tmctl.Tests.Samples.{
  Saved, disk, tools, tools-IsLawful, files, stored_triggers, sample_trigger, named_object,
}

stored_ok : stored disk tools files "/home/foo/broker.conf" ≡ ok stored_triggers
unfolding read_broker_config read_memory lookup
stored_ok = refl

stored_there : stored disk tools files (config_file "/home" "foo") ≡ ok stored_triggers
unfolding config_file ◌<>◌
stored_there = stored_ok

written_ok : (write_local_config disk tools sample_trigger files).0 ≡ ok tt
unfolding write_local_config read_broker_config write_broker_config updated config_file read_memory
    write_memory lookup insert ◌<>◌
written_ok = refl

removed_ok : (remove_from_local_config disk tools sample_trigger files).0 ≡ ok tt
unfolding remove_from_local_config read_broker_config write_broker_config config_file read_memory
    write_memory lookup insert ◌<>◌
removed_ok = refl

get_target_triggers_lem_example :
    get_target_triggers disk tools files "sink" "foo" "/home"
    ≡ ok (
        described_triggers disk tools
          (names_for "sink" stored_triggers)
          "foo"
          "/home"
          stored_triggers)
get_target_triggers_lem_example =
    get_target_triggers_lem disk (memory-IsLawful Saved) tools tools-IsLawful files "sink" "foo"
      "/home" stored_triggers stored_there (refl, (refl, tt))

abbrev one_trigger : List Object
one_trigger = named_object "one" "Trigger" ∷ []

list_filtered_event_types_lem_example :
    list_filtered_event_types disk tools files "foo" "/home" one_trigger []
    ≡ ok (types_by_name stored_triggers one_trigger)
list_filtered_event_types_lem_example =
    list_filtered_event_types_lem disk tools files "foo" "/home" one_trigger stored_triggers
      stored_there (refl, tt)
