-- ===== src/Parameters.antt =====
-- pkg/triggermesh/pkg/pkg.go: the spec that the arguments of a command give. The order of the list of
-- arguments stands for the order of the `range` over the map. `OpenPort` asks the operating system.
pub mod Merging
pub mod Paths
pub mod Arguments
use tmctl.Base.{String, Option, none, some, List, [], ◌∷◌, Dict, split}
use tmctl.Kubernetes.Value.{
  Value, null, text, flag, int, int64, texts, arr, obj, reference, destination, filters, Fields,
  end, field, get, put,
}

-- `nestedMap` for the keys `k ∷ ks`.
unfoldable pub nested_map : String → List String → String → Fields
nested_map k [] value = field k (text value) end
nested_map k (j ∷ ks) value = field k (obj (nested_map j ks value)) end

unfoldable mutual
  -- The loop over `src`. Where the code goes on without writing, the value that is there is written.
  pub merge_maps : Fields → Fields → Fields
  merge_maps end dst = dst
  merge_maps (field k v src) dst = merge_maps src (put k (merge_value v (get k dst)) dst)

  -- The value at a key of `src`, and that of the same key in `dst`.
  pub merge_value : Value → Option Value → Value
  merge_value v none = v
  merge_value (obj src) (some (obj dst)) = obj (merge_maps src dst)
  merge_value (obj src) (some w) = w
  merge_value v (some w) = v

-- One round of the loop over the arguments, with the keys that the argument's name is split into.
-- There is always one.
unfoldable pub add_argument : List String → String → Fields → Fields
unfolding merge_maps nested_map put
add_argument [] value result = result
add_argument (k ∷ []) value result = put k (text value) result
add_argument (k ∷ j ∷ ks) value result = merge_maps result (nested_map k (j ∷ ks) value)

unfoldable pub add_arguments : Dict String → Fields → Fields
unfolding add_argument split
add_arguments [] result = result
add_arguments ((key, value) ∷ args) result =
    add_arguments args (add_argument (split b'.' key) value result)

unfoldable pub parse_args : Dict String → Fields
unfolding add_arguments
parse_args args = add_arguments args end
