-- ===== src/Wiretap/Clean.antt =====
-- What `tmctl watch` (cmd/watch/watch.go) leaves in the configuration file of the broker.
use tmctl.Base.{
  String, true, Option, none, some, [], ◌∷◌, Result, ok, err, panic, wrap, ◌>>=◌, Dict, insert,
  delete, ◌==◌, String_eq, ◌<>◌, ◌≡◌, refl, sym, ap, ◌∙◌, Bool-cases, inl, inr, eq_refl,
}
use tmctl.Broker.Config.{LocalTriggerSpec, Tools, config_file, remove_from_local_config}
use tmctl.Broker.Config.Entries.{
  IsLawful, stored, entry_of, write_local_config-insert, remove_from_local_config-delete,
}
use tmctl.Disk.{Disk, IsLawful as IsLawfulDisk}
use tmctl.Docker.{Daemon, Container, host_port}
use tmctl.Docker.Starting.{start}
use tmctl.Wiretap.{
  Wiretap, World, wiretap_container, wiretap_trigger, create_adapter, create_trigger, cleanup,
  watch, store_at, stopped, connected, reference_to,
}

delete-insert {ℓ} :
    {V : Type ℓ} (k : String) (v : V) (m : Dict V) → delete k (insert k v m) ≡ delete k m
unfolding delete insert
delete-insert k v [] = rw (eq_refl k) refl
delete-insert k v ((j, w) ∷ m) = elim (Bool-cases (j == k)) [
  | inl e ↦ rw e (rw (eq_refl k) refl)
  | inr e ↦ rw e (rw e (ap (λ r. (j, w) ∷ r) (delete-insert k v m)))
]

module _ (d : Disk) (dl : IsLawfulDisk d) (x : Tools d) (xl : IsLawful d x) (daemon : Daemon) where
  abbrev file_of : Wiretap → String
  file_of w = config_file w.config_base w.broker

  stopped-ok :
      (name : String) (v : World d x daemon) (r : Result (Unit {0}))
      → (stopped d x daemon name v r).0 ≡ ok tt
      → (r ≡ ok tt) × ((stopped d x daemon name v r).1.disk ≡ v.disk)
  stopped-ok name v (ok u) h = (refl, refl)
  stopped-ok name v (err e) h = absurd (cc h)
  stopped-ok name v panic h = absurd (cc h)

  stored-cleanup :
      (w : Wiretap) (v : World d x daemon) (m : Dict LocalTriggerSpec)
      → stored d x v.disk (file_of w) ≡ ok m
      → (cleanup d x daemon w v).0 ≡ ok tt
      → stored d x (cleanup d x daemon w v).1.disk (file_of w) ≡ ok (delete "wiretap" m)
  unfolding cleanup wiretap_trigger
  stored-cleanup w v m h c =
      let t = wiretap_trigger w none none in
      let (r, same) = stopped-ok _ _ (remove_from_local_config d x t v.disk).0 c in
      rw same (remove_from_local_config-delete d dl x xl t v.disk m h r)

  stored-store_at :
      (w : Wiretap) (s : d.State) (m : Dict LocalTriggerSpec) (url : Result (Option String))
      → stored d x s (file_of w) ≡ ok m
      → (store_at d x daemon w s url).0 ≡ ok tt
      → (m' : Dict LocalTriggerSpec) × (stored d x (store_at d x daemon w s url).1 (file_of w)
          ≡ ok m')
        × (delete "wiretap" m' ≡ delete "wiretap" m)
  unfolding wiretap_trigger
  stored-store_at w s m (ok url) h c =
      let ref = reference_to "wiretap" in
      let t = wiretap_trigger w url (some ref) in
      (
        insert "wiretap" (entry_of t ref) m,
        write_local_config-insert d dl x xl t ref s m refl h c,
        delete-insert "wiretap" (entry_of t ref) m,
      )
  stored-store_at w s m (err e) h c = absurd (cc c)
  stored-store_at w s m panic h c = absurd (cc c)

  -- The trigger is stored, where the container runs.
  abbrev pub Stores : d.State → Result Wiretap × daemon.State → Type 0
  Stores s (ok w, t) = (create_trigger d x daemon w s).0 ≡ ok tt
  Stores s (err e, t) = Unit
  Stores s (panic, t) = Unit

  abbrev SameFile : Wiretap → Result Wiretap → Type 0
  SameFile w (ok w') = file_of w' ≡ file_of w
  SameFile w r = Unit

  SameFile-create_adapter :
      (setting : Result String) (open_port : String) (display : Result (Unit {0})) (w : Wiretap)
      (s : daemon.State)
      → SameFile w (create_adapter d x daemon setting open_port display w s).0
  unfolding create_adapter
  SameFile-create_adapter setting open_port display w s =
      of_start (start daemon setting (wiretap_container open_port w) true s).0 display
    where
      of_start :
          (r : Result Container) (display : Result (Unit {0}))
          → SameFile w (
              wrap "starting container" r >>= λ c. display >>= λ _. ok (record w {
                destination =
                    "http://host.docker.internal" <> ":" <> host_port c.runtime_host.port_bindings;
              }))
      of_start (ok c) (ok u) = refl
      of_start (ok c) (err e) = tt
      of_start (ok c) panic = tt
      of_start (err e) display = tt
      of_start panic display = tt

  connected-Clean :
      (logs : Result (Unit {0})) (w : Wiretap) (v : World d x daemon) (m : Dict LocalTriggerSpec)
      (r : Result Wiretap × daemon.State)
      → SameFile w r.0
      → stored d x v.disk (file_of w) ≡ ok m
      → Stores v.disk r
      → (connected d x daemon logs w v r).cleaned ≡ ok tt
      → stored d x (connected d x daemon logs w v r).world.disk (file_of w)
        ≡ ok (delete "wiretap" m)
  unfolding create_trigger
  connected-Clean logs w v m (ok w', s) e h c k =
      let (m', n, q) =
        stored-store_at w' v.disk m (x.parse_url w'.destination) (ap (stored d x v.disk) e ∙ h) c in
      let u = (create_trigger d x daemon w' v.disk).1 in
      let left = stored-cleanup w' (record { disk = u; containers = s }) m' n k in
      ap (stored d x (cleanup d x daemon w' (record { disk = u; containers = s })).1.disk) (sym e)
      ∙ left
      ∙ ap ok q
  connected-Clean logs w v m (err z, s) e h c k =
      stored-cleanup w (record v { containers = s }) m h k
  connected-Clean logs w v m (panic, s) e h c k =
      stored-cleanup w (record v { containers = s }) m h k

  -- With files and YAML that obey their laws: where the configuration file can be read, and the
  -- trigger is stored if the container runs, a watch whose clean-up succeeds leaves the file with the
  -- entries that it had before, but for one under the name `wiretap`, however the watch ends.
  pub watch-Clean :
      (setting : Result String) (open_port : String) (display logs : Result (Unit {0}))
      (w : Wiretap) (v : World d x daemon) (m : Dict LocalTriggerSpec)
      → stored d x v.disk (file_of w) ≡ ok m
      → Stores v.disk (create_adapter d x daemon setting open_port display w v.containers)
      → (watch d x daemon setting open_port display logs w v).cleaned ≡ ok tt
      → stored d x (watch d x daemon setting open_port display logs w v).world.disk (file_of w)
        ≡ ok (delete "wiretap" m)
  unfolding watch
  watch-Clean setting open_port display logs w v m =
      connected-Clean logs w v m
        (create_adapter d x daemon setting open_port display w v.containers)
        (SameFile-create_adapter setting open_port display w v.containers)
