-- ===== src/Tests/Brokers.antt =====
-- The broker's container and its files in memory.
use tmctl.Base.{
  String, false, ◌<>◌, none, lookup, insert, List, [], ◌==◌, String_eq, ◌≡◌, ◌↔◌, refl, ap, ◌∙◌, ok,
  if◌then◌else◌, eq_iff, arith, eq_refl, has_suffix,
}
use tmctl.Broker.Container.{
  Stat, there, not_there, Folders, ensure, broker_container_name, create_broker_config,
}
use tmctl.Broker.Container.Files.{IsLawful}
use tmctl.Broker.Container.Names.{container_name-broker}
use tmctl.Delete.{container_name}
use tmctl.Disk.{Read, found}
use tmctl.Disk.Memory.{Files, Piece, memory-IsLawful, read_memory, write_memory}
use tmctl.Tests.Samples.{Saved, disk, files, named_object}

abbrev stat_of : Read (List (Piece Saved)) → Stat
stat_of (found b) = there
stat_of r = not_there

abbrev folders : Folders disk
folders = record {
  make_directory = λ p s. (none, s);
  stat = λ s p. stat_of (read_memory s p);
  create = λ p s. write_memory s p [];
}

same-read :
    (r : Read (List (Piece Saved))) (s t : Files Saved) (p q : String)
    → read_memory t q ≡ (if p == q then found [] else read_memory s q)
    → stat_of (read_memory s p) ≡ not_there
    → stat_of (read_memory s q) ≡ there
    → read_memory t q ≡ read_memory s q
same-read r s t p q e n h = ground (arith, eq_iff p q)

read-created :
    (p : String) (s t : Files Saved) → write_memory s p [] ≡ (none, t) → read_memory t p ≡ found []
read-created p s t e = (memory-IsLawful Saved).read-write s t p p [] e ∙ rw (eq_refl p) refl

folders-IsLawful : IsLawful disk folders
folders-IsLawful = record {
  create_keeps = λ s t p n e.
      let law = (memory-IsLawful Saved).read-write s t p in
      (
        ap stat_of (read-created p s t e),
        λ q h.
            let r = same-read (read_memory s q) s t p q (law q [] e) n h in (ap stat_of r ∙ h, r),
      );
  make_keeps = λ s t p e q h. let same : s ≡ t = cc e in rw⁻¹ same (h, refl);
}

container_name-broker_example :
    (container_name (named_object "my-broker" "RedisBroker") ≡ broker_container_name "my-broker")
    ↔ (has_suffix "my-broker" "-broker" ≡ false)
container_name-broker_example = container_name-broker (named_object "my-broker" "RedisBroker") refl

configured : (create_broker_config disk folders "/home/bar" files).0 ≡ ok tt
unfolding create_broker_config ensure read_memory write_memory lookup insert ◌<>◌
configured = refl
