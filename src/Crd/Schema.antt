-- ===== src/Crd/Schema.antt =====
-- `spec.Schema` of k8s.io/kube-openapi, with the fields that pkg/triggermesh/crd/schema.go reads.
use tmctl.Base.{String, List, [], ◌∷◌, Option, none, some, ◌==◌, if◌then◌else◌, String_eq}

mutual
  -- The properties, `AdditionalProperties`, `Items`, `Type`, `Required`, `AnyOf` and `Description`.
  pub data Schema : Type 0 where
    schema :
        Properties → Additional → ItemSchema → List String → List String → Schemas → String → Schema

  pub data Properties : Type 0 where
    done : Properties
    property : String → Schema → Properties → Properties

  -- `AdditionalProperties` is `nil`, has no schema, or has one.
  pub data Additional : Type 0 where
    no_additional : Additional
    no_schema : Additional
    additional : Schema → Additional

  -- `Items` or its schema is `nil`, or there is a schema.
  pub data ItemSchema : Type 0 where
    no_items : ItemSchema
    items : Schema → ItemSchema

  pub data Schemas : Type 0 where
    last : Schemas
    choice : Schema → Schemas → Schemas

abbrev pub properties : Schema → Properties
properties (schema ps a i t r c d) = ps

abbrev pub types : Schema → List String
types (schema ps a i t r c d) = t

abbrev pub required : Schema → List String
required (schema ps a i t r c d) = r

abbrev pub description : Schema → String
description (schema ps a i t r c d) = d

-- `s.Properties[k]`
unfoldable pub find : String → Properties → Option Schema
find k done = none
find k (property j s ps) = if j == k then some s else find k ps

-- The keys, in the order of a `range`.
unfoldable pub keys : Properties → List String
keys done = []
keys (property k s ps) = k ∷ keys ps
