-- ===== src/Components/Exports/Agreement.antt =====
-- The exports of a target or a transformation and its container run the same adapter.
use tmctl.Adapter.{Library, EnvVar}
use tmctl.Adapter.Env
use tmctl.Adapter.Runtime.{resolved, plain}
use tmctl.Base.{
  String, Bool, not, ◌&&◌, Option, List, ◌++◌, map, ok, ◌==◌, String_eq, Dict, ◌≡◌, refl,
}
use tmctl.Components.Exports.{exported_env}
use tmctl.Kubernetes.{Object}

module _ (lib : Library) where
  abbrev adapter_kind : Object → Bool
  adapter_kind o = not (o.kind == "RedisBroker") && not (o.kind == "Service")

  exported :
      (o : Object) (extra : Option (Dict String)) (vs : List EnvVar)
      → Env.build lib o ≡ ok vs
      → exported_env lib o extra ≡ ok ((resolved vs extra).0 ++ map plain (resolved vs extra).1)
  unfolding exported_env
  exported o extra vs e = rw (e, exported_env) refl
