-- ===== src/Create/Arguments.antt =====
-- `argsToMap` and `isFlag` of cmd/create/cmd.go.
pub mod Flags
use tmctl.Base.{
  ℕ, ◌+◌, String, Bool, true, false, not, List, [], ◌∷◌, ◌<>◌, ◌==◌, if◌then◌else◌, String_eq, ℕ_eq,
  Dict, insert, size, split, trim_left, trim_space, ◌≡◌, refl, arith, lookup, Option, none, some,
}

-- The lengths are compared args integers, so no text of fewer than two characters is a flag.
unfoldable pub is_flag : String → Bool
unfolding size trim_left
is_flag s = size (trim_left b'-' s) + 2 == size s

-- The inner loop: the arguments up to the next flag, each after a space.
unfoldable pub with_values : String → List String → String
unfolding ◌<>◌
with_values value [] = value
with_values value (a ∷ args) =
    let rest = with_values (value <> " " <> a) args in if is_flag a then value else rest

-- The key and the start of the value.
unfoldable pub key_value : String → String × String
key_value arg = elim (split b'=' arg) [
  | [] ↦ (arg, "")
  | k ∷ vs ↦ elim vs [ [] ↦ (arg, "") | v ∷ more ↦ elim more [ [] ↦ (k, v) | w ∷ ws ↦ (arg, "") ] ]
]

-- The loop; the values that the inner loop has taken are no flags and are passed over.
unfoldable pub args_loop : List String → Dict String → Dict String
args_loop [] result = result
args_loop (a ∷ args) result =
    let (key, value) = key_value a in
    args_loop args (
      if is_flag a
      then insert (trim_left b'-' key) (trim_space (with_values value args)) result
      else result)

unfoldable pub args_to_map : List String → Dict String
args_to_map args = args_loop args []
