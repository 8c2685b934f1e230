-- ===== src/Delete.antt =====
-- cmd/delete: deleting components from the manifest and from the broker's configuration.
-- What docker and the cloud services do, and the libraries, are the parameter `Outside`:
-- `force_stop` is `docker.ForceStop`, whose error the callers drop, and the definitions of the kinds,
-- `o.CRD`, stand with the functions that read them. `removeExternalServices` takes the secrets out of
-- a spec that is also the manifest's; only objects of the component's name see it, and all of these go
-- next. A look-up that never ends has used up the stack, which is a panic here. Log lines are left
-- out, and so is the docker client: where it cannot be made, a command returns its error before it
-- changes anything.
pub mod Objects
pub mod Cleanup
pub mod Everything
use tmctl.Base.{
  String, Bool, true, false, ◌||◌, ◌&&◌, not, any, List, [], ◌∷◌, Result, ok, err, panic, ◌>>=◌,
  ◌<>◌, ◌==◌, if◌then◌else◌, String_eq, none, some, Option, Dict, length, suc,
}
use tmctl.Broker.Config.{Tools, Trigger, remove_from_local_config}
use tmctl.Broker.Trigger.{new_trigger, get_target_triggers, broker_kind, trigger_kind}
use tmctl.Components.{Source}
use tmctl.Components.External.Finalization.{finalize_source}
use tmctl.Components.Found.{Found, source, Outcome, get_object}
use tmctl.Crd.Objects.{Crd}
use tmctl.Crd.Process.{Parsers}
use tmctl.Crd.Schema.{Schema}
use tmctl.Crd.Secrets.{Base64}
use tmctl.Disk.{Disk}
use tmctl.Dump.{parent_of, spec_left, definition}
use tmctl.Kubernetes.{Object}
use tmctl.Kubernetes.Value.{Value, Fields, Filter, KReference}
use tmctl.Manifest
use tmctl.Manifest.{Manifest, Yaml}
use tmctl.Secrets.{Secret, Parent, process_secrets}
use tmctl.Settings.{Config}

pub record Outside : Type 1 where
  pub Cloud : Type 0
  pub force_stop : String → Cloud → Cloud
  -- The calls of the cloud for an object with its secrets.
  pub clean_up : Object → Dict String → Cloud → Result (Unit {0}) × Cloud
  pub crds : Dict Crd
  pub parsers : Parsers
  pub base64 : Base64
  pub validate : Schema → Option Fields → Result (Unit {0})
  pub deep_copy : Value → Result Value
  pub set_status : Dict String → Object → Result Object
  pub read_trigger_spec : Option Fields → Result (List Filter × Option KReference)

abbrev pub is_secret_of : String → Object → Bool
is_secret_of component o = o.metadata.name == component <> "-secret" && o.kind == "Secret"

-- The name of the container; the object's name is changed to it in a copy of the object.
unfoldable pub container_name : Object → String
unfolding ◌<>◌
container_name o = if o.kind == broker_kind then o.metadata.name <> "-broker" else o.metadata.name

abbrev pub listed : String → List String → Bool
listed name = any (λ v. v == name)

module _ (d : Disk) (y : Yaml d) (x : Tools d) (out : Outside) where
  pub record World : Type 0 where
    pub manifest : Manifest
    pub disk : d.State
    pub cloud : out.Cloud

  abbrev pub objects : World → List Object
  objects w = w.manifest.objects

  -- `o.Manifest.Remove`, whose error is only logged.
  unfoldable pub drop_object : String → String → World → World
  drop_object name kind w =
      let r = Manifest.remove d y name kind w.manifest w.disk in
      record w { manifest = r.manifest; disk = r.disk }

  -- `RemoveFromLocalConfig` with its error.
  unfoldable pub drop_trigger : Trigger → World → Result (Unit {0}) × World
  drop_trigger t w =
      let (r, s) = remove_from_local_config d x t w.disk in (r, record w { disk = s })

  -- One round of `removeObject`, at an object that has the name.
  unfoldable pub remove_one : Config → Object → World → Result World
  unfolding drop_object drop_trigger
  remove_one config o w =
      if o.kind == trigger_kind
      then elim (new_trigger d x o.metadata.name config.context config.config_home none none) [
        | ok t ↦ ok (drop_object o.metadata.name o.kind (drop_trigger t w).1)
        | err e ↦ ok w
        | panic ↦ panic
      ]
      else ok (drop_object o.metadata.name o.kind w)

  -- The loop runs over the objects that were there at its start.
  unfoldable pub remove_objects : Config → String → List Object → World → Result World
  unfolding remove_one
  remove_objects config component [] w = ok w
  remove_objects config component (o ∷ os) w =
      (if component == o.metadata.name then remove_one config o w else ok w)
      >>= remove_objects config component os

  unfoldable pub remove_object : Config → String → World → Result World
  unfolding remove_objects
  remove_object config component w = remove_objects config component (objects w) w

  -- One round of `cleanupTriggers`: a trigger that is still in the configuration stays.
  unfoldable pub clean_trigger : Trigger → World → World
  unfolding drop_object drop_trigger
  clean_trigger t w =
      let (r, w') = drop_trigger t w in
      elim r [ ok _ ↦ drop_object t.name trigger_kind w' | _ ↦ w' ]

  unfoldable pub clean_triggers : List Trigger → World → World
  unfolding clean_trigger
  clean_triggers [] w = w
  clean_triggers (t ∷ ts) w = clean_triggers ts (clean_trigger t w)

  unfoldable pub cleanup_triggers : Config → String → World → Result World
  unfolding clean_triggers
  cleanup_triggers config target w =
      elim (get_target_triggers d x w.disk target config.context config.config_home) [
        | ok ts ↦ ok (clean_triggers ts w)
        | err e ↦ ok w
        | panic ↦ panic
      ]

  unfoldable pub clean_secrets : String → List Object → World → World
  unfolding drop_object
  clean_secrets component [] w = w
  clean_secrets component (o ∷ os) w =
      clean_secrets component os
        (if is_secret_of component o then drop_object o.metadata.name o.kind w else w)

  unfoldable pub cleanup_secrets : String → World → World
  unfolding clean_secrets
  cleanup_secrets component w = clean_secrets component (objects w) w

  abbrev pub ended : Outcome → Result (Option Found)
  ended none = panic
  ended (some r) = r

  -- `GetObject` with a call for each object and one more: if those are not enough, then a name comes
  -- twice in the chain of the targets, and the calls never end.
  unfoldable pub look_up : Config → String → World → Result (Option Found)
  unfolding get_object
  look_up config name w = ended (
      get_object d x config config.config_home out.read_trigger_spec (suc (length (objects w)))
        (objects w) name)

  abbrev pub finalize_with :
      Source → Parent → Result (List Secret × Dict String) → World → Result (Unit {0}) × out.Cloud
  unfolding finalize_source definition
  finalize_with s p (ok (secrets, env)) w =
      finalize_source out.clean_up out.parsers out.validate out.deep_copy out.set_status
        (definition out.crds s.kind) (record s { spec = spec_left out.base64 p s.spec }) env w.cloud
  finalize_with s p (err e) w = (err ("secrets extraction: " <> e), w.cloud)
  finalize_with s p panic w = (panic, w.cloud)

  -- A source is the one component that is reconcilable, and it has children.
  abbrev pub finalize_found : Result (Option Found) → World → Result (Unit {0}) × out.Cloud
  unfolding parent_of process_secrets
  finalize_found (ok (some (source s))) w = elim (parent_of out.crds (some (source s))) [
    | none ↦ (ok tt, w.cloud)
    | some p ↦ finalize_with s p (process_secrets out.base64 p (objects w)) w
  ]
  finalize_found (ok c) w = (ok tt, w.cloud)
  finalize_found (err e) w = (err e, w.cloud)
  finalize_found panic w = (panic, w.cloud)

  unfoldable pub remove_external_services : Config → String → World → Result (Unit {0}) × out.Cloud
  unfolding look_up finalize_found
  remove_external_services config name w = finalize_found (look_up config name w) w

  -- An error of `removeExternalServices` is only logged.
  unfoldable pub delete_everything : Config → Object → World → Result World
  unfolding remove_external_services container_name remove_object cleanup_triggers cleanup_secrets
  delete_everything config o w =
      let name = container_name o in
      let (r, cloud) = remove_external_services config name w in
      let w' = record w { cloud = out.force_stop name cloud } in
      let rest = (do
        w₁ ← remove_object config name w'
        w₂ ← cleanup_triggers config name w₁
        ok (cleanup_secrets name w₂)) in
      elim r [ panic ↦ panic | _ ↦ rest ]

  unfoldable pub delete_components :
      Config → List String → Bool → List Object → World → Result World
  unfolding delete_everything
  delete_components config names all [] w = ok w
  delete_components config names all (o ∷ os) w =
      (if o.kind == "Secret"
        then ok w
        else if all
        then delete_everything config o w
        else if not (listed o.metadata.name names)
        then ok w
        else if o.kind == broker_kind
        then ok w
        else delete_everything config o w)
      >>= delete_components config names all os

  unfoldable pub delete_broker_components : Config → List String → Bool → World → Result World
  unfolding delete_components
  delete_broker_components config names all w = delete_components config names all (objects w) w

  unfoldable pub delete_triggers : Config → List String → List Object → World → Result World
  unfolding delete_everything
  delete_triggers config names [] w = ok w
  delete_triggers config names (o ∷ os) w =
      (if o.kind == trigger_kind && listed o.metadata.name names
        then delete_everything config o w
        else ok w)
      >>= delete_triggers config names os

  unfoldable pub delete_trigger : Config → List String → World → Result World
  unfolding delete_triggers
  delete_trigger config names w = delete_triggers config names (objects w) w
