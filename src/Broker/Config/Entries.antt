-- ===== src/Broker/Config/Entries.antt =====
-- What writing and removing a trigger does to the entries of the configuration file.
use tmctl.Base.{
  String, ◌≡◌, refl, ap, ◌∙◌, Option, none, some, Result, ok, err, panic, ◌>>=◌, Dict, insert,
  delete, arith, eq_refl, String_eq,
}
use tmctl.Disk.{Disk, found, IsLawful as IsLawfulDisk}
use tmctl.Kubernetes.Value.{KReference}
use tmctl.Broker.Config.{
  LocalTriggerSpec, Configuration, Tools, Trigger, config_file, url_text, entries,
  read_broker_config, saved, write_broker_config, updated, local_spec, write_local_config, without,
  remove_from_local_config,
}

-- YAML keeps the entries of a configuration; a `nil` map may come back as an empty one.
pub record IsLawful (d : Disk) (x : Tools d) : Type 0 where
  pub unmarshal-marshal :
      (c : Configuration) (b : d.Bytes)
      → x.marshal c ≡ ok b
      → (c' : Configuration) × (x.unmarshal b ≡ ok c') × (entries c'.triggers ≡ entries c.triggers)

-- The entry that a trigger with a target stands for.
abbrev pub entry_of : Trigger → KReference → LocalTriggerSpec
entry_of t ref = record {
  filters = t.filters;
  target = record { url = url_text t.local_url; component = ref.name; delivery = none };
}

module _ (d : Disk) (x : Tools d) where
  -- The entries of the file at a path.
  abbrev pub stored : d.State → String → Result (Dict LocalTriggerSpec)
  stored s path = read_broker_config d x s path >>= λ c. ok (entries c.triggers)

module _ (d : Disk) (dl : IsLawfulDisk d) (x : Tools d) (xl : IsLawful d x) where
  saved-ok : (r : Option String × d.State) → (saved d x r).0 ≡ ok tt → r ≡ (none, (saved d x r).1)
  saved-ok (none, s) h = refl
  saved-ok (some e, s) h = absurd (cc h)

  read_found :
      (s : d.State) (path : String) (b : d.Bytes)
      → d.read s path ≡ found b
      → read_broker_config d x s path ≡ x.unmarshal b
  unfolding read_broker_config
  read_found s path b h = rw (h, read_broker_config)

  written_bytes :
      (s : d.State) (path : String) (c : Configuration) (r : Result d.Bytes)
      → x.marshal c ≡ r
      → (write_broker_config d x s path c).0 ≡ ok tt
      → (b : d.Bytes) × (x.marshal c ≡ ok b)
        × (d.write s path b ≡ (none, (write_broker_config d x s path c).1))
  unfolding write_broker_config
  written_bytes s path c (ok b) e h = (
    b,
    e,
    saved-ok (d.write s path b) (rw (e, write_broker_config) at h) ∙ rw (e, write_broker_config),
  )
  written_bytes s path c (err z) e h = absurd (cc (rw (e, write_broker_config) at h))
  written_bytes s path c panic e h = absurd (cc (rw (e, write_broker_config) at h))

  stored-write :
      (s : d.State) (path : String) (c : Configuration)
      → (write_broker_config d x s path c).0 ≡ ok tt
      → stored d x (write_broker_config d x s path c).1 path ≡ ok (entries c.triggers)
  stored-write s path c h =
      let (b, m, w) = written_bytes s path c (x.marshal c) refl h in
      let (c', u, same) = xl.unmarshal-marshal c b m in
      let there = dl.read-write s _ path path b w ∙ rw eq_refl in
      rw (read_found _ path b there, u, same)

  local_spec-entry_of :
      (t : Trigger) (ref : KReference) (old : Option LocalTriggerSpec)
      → local_spec t ref old ≡ entry_of t ref
  local_spec-entry_of t ref none = refl
  local_spec-entry_of t ref (some old) = refl

  abbrev pub place_of : Trigger → String
  place_of t = config_file t.config_base t.broker.name

  write_local_config_step :
      (t : Trigger) (ref : KReference) (s : d.State) (c : Configuration)
      → t.target ≡ some ref
      → read_broker_config d x s (place_of t) ≡ ok c
      → write_local_config d x t s
        ≡ write_broker_config d x s
            (place_of t)
            (record { triggers = some (insert t.name (entry_of t ref) (entries c.triggers)) })
  unfolding write_local_config updated
  write_local_config_step t ref s c target e =
      rw (e, write_local_config) (rw (target, updated) (rw local_spec-entry_of))

  remove_step :
      (t : Trigger) (s : d.State) (c : Configuration)
      → read_broker_config d x s (place_of t) ≡ ok c
      → remove_from_local_config d x t s ≡ write_broker_config d x s (place_of t) (without t c)
  unfolding remove_from_local_config
  remove_step t s c e = rw (e, remove_from_local_config)

  entries-without :
      (t : Trigger) (c : Configuration)
      → entries (without t c).triggers ≡ delete t.name (entries c.triggers)
  unfolding delete
  entries-without t c = ground arith

  -- Inversion of `stored`.
  pub stored_ok :
      (r : Result Configuration) {m : Dict LocalTriggerSpec}
      → (r >>= λ c. ok (entries c.triggers)) ≡ ok m
      → (c : Configuration) × (r ≡ ok c) × (entries c.triggers ≡ m)
  stored_ok (ok c) h = (c, refl, ground arith)
  stored_ok (err e) h = absurd (cc h)
  stored_ok panic h = absurd (cc h)

  -- With files and YAML that obey their laws: where the configuration file can be read and a
  -- trigger with a target is written to it without an error, the file's entries are those before
  -- with the trigger's entry under its name.
  pub write_local_config-insert :
      (t : Trigger) (ref : KReference) (s : d.State) (m : Dict LocalTriggerSpec)
      → t.target ≡ some ref
      → stored d x s (place_of t) ≡ ok m
      → (write_local_config d x t s).0 ≡ ok tt
      → stored d x (write_local_config d x t s).1 (place_of t)
        ≡ ok (insert t.name (entry_of t ref) m)
  write_local_config-insert t ref s m target before done =
      let (c, e, same) = stored_ok (read_broker_config d x s (place_of t)) before in
      let step = write_local_config_step t ref s c target e in
      rw (step, ← same) (stored-write s (place_of t) _ (rw step at done))

  -- With files and YAML that obey their laws: where the configuration file can be read and a
  -- trigger is removed from it without an error, the file's entries are those before without the
  -- one under the trigger's name.
  pub remove_from_local_config-delete :
      (t : Trigger) (s : d.State) (m : Dict LocalTriggerSpec)
      → stored d x s (place_of t) ≡ ok m
      → (remove_from_local_config d x t s).0 ≡ ok tt
      → stored d x (remove_from_local_config d x t s).1 (place_of t) ≡ ok (delete t.name m)
  remove_from_local_config-delete t s m before done =
      let (c, e, same) = stored_ok (read_broker_config d x s (place_of t)) before in
      let step = remove_step t s c e in
      rw (step, ← same)
        (stored-write s (place_of t) _ (rw step at done) ∙ ap ok (entries-without t c))
