-- ===== src/Delete/Everything.antt =====
-- `deleteEverything` of cmd/delete/cmd.go: what goes and what stays.
use tmctl.Base.{String, Bool, false, any, keep, ◌==◌, String_eq, ◌≡◌}
use tmctl.Broker.Config.{Tools, Trigger}
use tmctl.Disk.{Disk}
use tmctl.Kubernetes.{Object}
use tmctl.Manifest.{Yaml}
use tmctl.Settings.{Config}
use tmctl.Delete.{Outside, World, objects, is_secret_of}

module _ (d : Disk) (y : Yaml d) (x : Tools d) (out : Outside) where
  -- What is left of a world by the deletion of a component, where these other objects are not of it.
  abbrev pub IsDeleted : String → (Object → Bool) → World d y x out → World d y x out → Type 0
  IsDeleted name other w w' =
      (any (λ p. name == p.metadata.name) (objects d y x out w') ≡ false)
      × (any (is_secret_of name) (objects d y x out w') ≡ false)
      × (keep other (objects d y x out w') ≡ keep other (objects d y x out w))
