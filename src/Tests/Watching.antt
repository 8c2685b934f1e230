-- ===== src/Tests/Watching.antt =====
-- A watch of a broker at concrete inputs.
use tmctl.Base.{ok, delete, insert, lookup, ◌<>◌, String_eq, ◌≡◌, refl}
use tmctl.Broker.Config.{
  config_file, read_broker_config, write_broker_config, write_local_config,
  remove_from_local_config,
}
use tmctl.Broker.Config.Entries.{stored}
use tmctl.Disk.Memory.{memory-IsLawful, read_memory, write_memory}
use tmctl.Docker.{host_port, has_name, find_id, name_to_id, lookup_host_config, force_stop, remove}
use tmctl.Docker.Logs.{check_logs, is_failure, read_logs}
use tmctl.Docker.Starting.{start, create_and_run, start_looked_up, check_start}
use tmctl.Docker.Waiting.{pull_image, read_events, is_running}
use tmctl.Tests.Containers.{daemon, listed}
use tmctl.Tests.Samples.{Saved, disk, tools, tools-IsLawful, files, stored_triggers}
use tmctl.Wiretap.{Wiretap, World, watch, create_adapter, create_trigger, cleanup}
use tmctl.Wiretap.Clean.{Stores, watch-Clean}

abbrev wiretap : Wiretap
wiretap = record { broker = "foo"; config_base = "/home"; destination = "" }

abbrev world : World disk tools daemon
world = record { disk = files; containers = listed }

entries_there : stored disk tools files (config_file "/home" "foo") ≡ ok stored_triggers
unfolding read_broker_config config_file read_memory lookup ◌<>◌
entries_there = refl

stores :
    Stores disk
      (memory-IsLawful Saved)
      tools
      tools-IsLawful
      daemon
      files
      (create_adapter disk tools daemon (ok "5s") "3000" (ok tt) wiretap listed)
unfolding create_adapter create_trigger start start_looked_up create_and_run check_start check_logs
    is_failure pull_image read_events read_logs lookup_host_config name_to_id find_id has_name ◌<>◌
    read_broker_config write_broker_config write_local_config config_file read_memory write_memory
    lookup insert host_port is_running remove
stores = refl

cleaned : (watch disk tools daemon (ok "5s") "3000" (ok tt) (ok tt) wiretap world).cleaned ≡ ok tt
unfolding watch cleanup create_adapter create_trigger start start_looked_up create_and_run
    check_start check_logs is_failure pull_image read_events read_logs lookup_host_config name_to_id
    find_id has_name ◌<>◌ read_broker_config write_broker_config write_local_config
    remove_from_local_config config_file read_memory write_memory lookup insert delete host_port
    force_stop is_running remove
cleaned = refl

watch-Clean_example :
    stored disk tools
      (watch disk tools daemon (ok "5s") "3000" (ok tt) (ok tt) wiretap world).world.disk
      (config_file "/home" "foo")
    ≡ ok (delete "wiretap" stored_triggers)
watch-Clean_example =
    watch-Clean disk (memory-IsLawful Saved) tools tools-IsLawful daemon (ok "5s") "3000" (ok tt)
      (ok tt) wiretap world stored_triggers entries_there stores cleaned
