-- ===== src/Crd/Process/Types.antt =====
-- The types of the values that `Process` of pkg/triggermesh/crd/schema.go leaves.
use tmctl.Base.{some, String_eq, ◌≡◌}
use tmctl.Crd.Process.{Parsers}
use tmctl.Crd.Schema.{Schema, Properties, find}
use tmctl.Kubernetes.Value.{Value, Fields, end, field}
use tmctl.Crd.Process.Conversion.{Fits}

-- The same keys in the same order, each a property of the schema, with the value that fits it.
abbrev pub Matched : Parsers → Properties → Fields → Fields → Type 0
Matched y ps end end = Unit
Matched y ps end (field k v fs) = ⊥
Matched y ps (field k v fs) end = ⊥
Matched y ps (field k v fs) (field j w gs) =
    (k ≡ j) × ((s : Schema) × (find k ps ≡ some s) × Fits y s v w) × Matched y ps fs gs
