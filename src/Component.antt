-- ===== src/Component.antt =====
-- pkg/triggermesh/interfaces.go: what the commands can ask of a component. A component that does not
-- implement an optional interface has `none` there, as a failed type assertion does.
use tmctl.Base.{String, Option, List, Result}
use tmctl.Kubernetes.{Object}
use tmctl.Kubernetes.Value.{Fields}

pub record Producer : Type 0 where
  pub event_types : Result (List String)
  pub event_source : Result String

pub record Consumer : Type 0 where
  pub consumed_event_types : Result (List String)
  pub port : Result String

pub record Component : Type 0 where
  pub name : String
  pub kind : String
  pub api_version : String
  pub spec : Option Fields
  pub as_k8s_object : Result Object
  pub producer : Option Producer
  pub consumer : Option Consumer
