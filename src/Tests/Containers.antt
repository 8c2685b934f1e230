-- ===== src/Tests/Containers.antt =====
-- Starting and stopping containers, with a daemon whose state is the list of its containers.
use tmctl.Base.{
  ℕ, ◌<◌, String, true, false, not, Option, none, some, List, [], ◌∷◌, ◌++◌, any, keep, Result, ok,
  err, ◌<>◌, ◌==◌, String_eq, ◌≡◌, ◌↔◌, inl, inr, refl, if◌then◌else◌, arith, eq_iff, eq_refl,
}
use tmctl.Docker.{
  Daemon, Container, Summary, Inspection, has_name, find_id, name_to_id, lookup_host_config,
  force_stop,
}
use tmctl.Docker.Logs.{check_logs, is_failure, read_logs}
use tmctl.Docker.Lookup.{WellListed, IsLawful, Listed}
use tmctl.Docker.Options.{with_image, with_env, with_extra_host, with_host_port_binding}
use tmctl.Docker.Starting.{
  no_config, no_host_config, start, create_and_run, start_looked_up, check_start, container_config,
  host_config,
}
use tmctl.Docker.Starting.Outcome.{start-ok, Started}
use tmctl.Docker.Waiting.{is_running, pull_image, read_events}
use tmctl.Docker.Waiting.Liveness.{is_running_iff, FirstSeen}
use tmctl.Kubernetes.{Object}
use tmctl.Stop.{stop, stop_objects, stop_object}
use tmctl.Stop.Containers.{all_names, is_one_of, stop_keeps, stop_lem}
use tmctl.Tests.Samples.{named_object}

abbrev removed : String → List Summary → Option String × List Summary
removed id cs =
    if any (λ c. c.id == id) cs
    then (none, keep (λ c. not (c.id == id)) cs)
    else (some "No such container", cs)

abbrev inspected : List Summary → String → Result Inspection
inspected cs id =
    if any (λ c. c.id == id) cs
    then ok
        (record { running = true; status = "running"; host = no_host_config; config = no_config })
    else err "No such container"

abbrev pub daemon : Daemon
daemon = record {
  State = List Summary;
  list = λ cs. ok cs;
  inspect = inspected;
  pull = λ image cs. (ok [], cs);
  create = λ c h name cs. (ok "new", cs ++ record { id = "new"; names = ("/" <> name) ∷ [] } ∷ []);
  start = λ id cs. (none, cs);
  remove = removed;
  logs = λ cs id. ok ("12345678{}" ∷ []);
  wait = λ time cs. cs;
  parse_duration = λ t. ok 5000;
  rounds = λ t. 10;
  unmarshal = λ line. none;
}

abbrev one : Summary
one = record { id = "1"; names = "/foo-broker" ∷ [] }

abbrev two : Summary
two = record { id = "2"; names = "/other" ∷ [] }

abbrev pub listed : List Summary
listed = one ∷ two ∷ []

is_running_iff_example :
    ((is_running daemon 3 "1" listed).0 ≡ ok tt)
    ↔ ((k : ℕ) × (k < 3) × FirstSeen daemon k "1" listed)
is_running_iff_example = is_running_iff daemon 3 "1" listed

-- A container that is there is seen in the first round, and one that is not gives an error.
seen_at_once : is_running daemon 3 "1" listed ≡ (ok tt, listed)
unfolding is_running
seen_at_once = refl

not_there : is_running daemon 3 "9" listed ≡ (err "No such container", listed)
unfolding is_running
not_there = refl

abbrev component : String → Container
component name = record {
  id = "";
  name = name;
  image = "image";
  online = false;
  create_container_options = with_image "image" ∷ with_env ("A=1" ∷ []) ∷ [];
  create_host_options = with_host_port_binding "3000" "8080/tcp" ∷ with_extra_host ∷ [];
  runtime_host = no_host_config;
  runtime_container = no_config;
}

abbrev fresh : Container
fresh = record (component "fresh") {
  id = "new";
  runtime_host = host_config (component "fresh");
  runtime_container = container_config (component "fresh");
}

start-ok_example :
    (t : List Summary) × (pull_image daemon "image" listed ≡ (ok tt, t))
    × Started daemon
        (ok "5s")
        (component "fresh")
        false
        t
        fresh
        (listed ++ record { id = "new"; names = ("/" <> "fresh") ∷ [] } ∷ [])
unfolding start start_looked_up create_and_run check_start check_logs is_failure pull_image
    read_events read_logs is_running lookup_host_config name_to_id find_id has_name ◌<>◌
start-ok_example =
    start-ok daemon (ok "5s") (component "fresh") fresh false listed
      (listed ++ record { id = "new"; names = ("/" <> "fresh") ∷ [] } ∷ []) refl

other_name : (a b t : String) → (a == t) ≡ true → (a == b) ≡ false → (b == t) ≡ false
other_name a b t h g = ground (arith, eq_iff a t, eq_iff a b, eq_iff b t)

listed-WellListed : WellListed listed
unfolding has_name ◌<>◌
listed-WellListed = record { identified = identified; apart = apart }
  where
    identified : (c : Summary) → Listed c listed → (c.id == "") ≡ false
    identified c (inl e) = rw e refl
    identified c (inr (inl e)) = rw e refl
    identified c (inr (inr none_left)) = absurd none_left

    apart :
        (n : String) (c e : Summary)
        → Listed c listed
        → Listed e listed
        → has_name n c ≡ true
        → has_name n e ≡ (e.id == c.id)
    apart n c e (inr (inr m)) k h = absurd m
    apart n c e m (inr (inr k)) h = absurd k
    apart n c e (inl m) (inl k) h = rw k (rw m (rw m at h))
    apart n c e (inr (inl m)) (inr (inl k)) h = rw k (rw m (rw m at h))
    apart n c e (inl m) (inr (inl k)) h =
        rw k (rw m (ground (arith, rw m at h, other_name "/foo-broker" "/other" ("/" <> n))))
    apart n c e (inr (inl m)) (inl k) h =
        rw k (rw m (ground (arith, rw m at h, other_name "/other" "/foo-broker" ("/" <> n))))

daemon-IsLawful : IsLawful daemon
daemon-IsLawful = record { list-remove = list-remove; list-remove_error = list-remove_error }
  where
    list-remove :
        (s t : List Summary) (id : String) (cs : List Summary)
        → ok s ≡ ok cs
        → removed id s ≡ (none, t)
        → ok t ≡ ok (keep (λ c. not (c.id == id)) cs)
    list-remove s t id cs e h = ground arith

    list-remove_error :
        (s t : List Summary) (id e : String) → removed id s ≡ (some e, t) → ok t ≡ ok s
    list-remove_error s t id e h = ground arith

any-Listed : (c : Summary) (cs : List Summary) → Listed c cs → any (λ e. e.id == c.id) cs ≡ true
any-Listed c [] m = absurd m
any-Listed c (x ∷ cs) (inl e) = rw (← e) (rw (eq_refl c.id) refl)
any-Listed c (x ∷ cs) (inr m) = ground (arith, any-Listed c cs m)

grants :
    (t es : List Summary) (c : Summary) → ok t ≡ ok es → Listed c es → (removed c.id t).0 ≡ none
grants t es c e m = let same : es ≡ t = cc e in rw (← same) (rw (any-Listed c es m) refl)

abbrev objects : List Object
objects = named_object "foo" "RedisBroker" ∷ named_object "foo-secret" "Secret" ∷ []

stop_keeps_example :
    ((stop daemon objects listed).0 ≡ ok tt)
    × ((left : List Summary) × (daemon.list (stop daemon objects listed).1 ≡ ok left)
        × (keep (λ c. not (is_one_of (all_names objects) c)) left
            ≡ keep (λ c. not (is_one_of (all_names objects) c)) listed))
stop_keeps_example = stop_keeps daemon daemon-IsLawful objects listed listed refl listed-WellListed

stop_lem_example :
    daemon.list (stop daemon objects listed).1
    ≡ ok (keep (λ c. not (is_one_of (all_names objects) c)) listed)
stop_lem_example =
    stop_lem daemon daemon-IsLawful objects listed listed refl listed-WellListed grants

-- The broker's container is gone, and the other one stays.
stopped : (stop daemon objects listed).1 ≡ two ∷ []
unfolding stop stop_objects stop_object force_stop name_to_id find_id has_name ◌<>◌
stopped = refl
