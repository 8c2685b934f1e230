-- ===== src/Kubernetes/Value.antt =====
-- The values that the program keeps in a `map[string]interface{}`, one constructor for each dynamic
-- type that it makes or tests for. `KReference`, `Filter` and `Destination` are structs of the
-- Knative and TriggerMesh packages, with the fields that the program reads and writes.
use tmctl.Base.{ℕ, String, Bool, Option, none, some, List, Dict, ◌==◌, if◌then◌else◌, String_eq}

-- `negsuc n` is -(n + 1).
pub data ℤ : Type 0 where
  pos : ℕ → ℤ
  negsuc : ℕ → ℤ

pub record KReference : Type 0 where
  pub kind : String
  pub name : String
  pub api_version : String
  pub group : String

-- The conditions that the program does not look into stand in `others`.
pub record Filter : Type 0 where
  pub exact : Option (Dict String)
  pub prefix : Option (Dict String)
  pub suffix : Option (Dict String)
  pub others : String

mutual
  pub data Value : Type 0 where
    null : Value
    text : String → Value
    flag : Bool → Value
    int : ℤ → Value
    int64 : ℤ → Value
    texts : List String → Value
    arr : Items → Value
    obj : Fields → Value
    reference : KReference → Value
    destination : Option KReference → Value
    filters : List Filter → Value

  pub data Items : Type 0 where
    nil : Items
    cons : Value → Items → Items

  pub data Fields : Type 0 where
    end : Fields
    field : String → Value → Fields → Fields

-- `v, ok := m[k]`
unfoldable pub get : String → Fields → Option Value
get k end = none
get k (field j v fs) = if j == k then some v else get k fs

-- `m[k] = v`
unfoldable pub put : String → Value → Fields → Fields
put k v end = field k v end
put k v (field j w fs) = let rest = put k v fs in if j == k then field k v fs else field j w rest
