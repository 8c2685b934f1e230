-- ===== src/Kubernetes.antt =====
-- pkg/kubernetes/object.go: the objects that the manifest holds.
pub mod Value
pub mod Equal
pub mod Entries
use tmctl.Base.{Dict, Option, String}
use tmctl.Kubernetes.Value.{Fields}

-- A map that is `nil` is `none`; an allocated map, be it empty, is `some`.
pub record Metadata : Type 0 where
  pub name : String
  pub namespace : String
  pub labels : Option (Dict String)
  pub annotations : Option (Dict String)

pub record Object : Type 0 where
  pub api_version : String
  pub kind : String
  pub metadata : Metadata
  pub spec : Option Fields
  pub content : Option (Dict String)
  pub type : String
