-- ===== src/Create/Arguments/Flags.antt =====
-- `argsToMap` of cmd/create/cmd.go on flags that are followed by their values.
use tmctl.Base.{
  String, Bool, true, false, not, ◌||◌, All, List, [], ◌∷◌, ◌++◌, ◌<>◌, ◌==◌, String_eq, ℕ_eq, Dict,
  insert, size, trim_left, trim_space, ◌≡◌, refl, arith, Lacks, Lacks-weaken, split_absent,
  trim_left_absent,
}
use tmctl.Create.Arguments.{is_flag, with_values, key_value, args_loop}

-- A key with neither dash nor equals sign.
abbrev pub IsKey : String → Type 0
IsKey = Lacks (λ c. c == b'-' || c == b'=')

-- The values up to the first flag.
abbrev pub is_value : String → Bool
is_value a = not (is_flag a)

abbrev pub starts_with_flag : List String → Bool
starts_with_flag [] = true
starts_with_flag (a ∷ args) = is_flag a

abbrev pub Values : List String → Type 0
Values = All (λ v. is_flag v ≡ false)

abbrev pub joined : String → List String → String
joined value [] = value
joined value (v ∷ vs) = joined (value <> " " <> v) vs

no_dash : (k : String) → IsKey k → trim_left b'-' k ≡ k
no_dash k h =
    trim_left_absent b'-' k
      (Lacks-weaken (λ c. c == b'-' || c == b'=') (λ c. c == b'-') (λ c e. ground arith) k h)

no_equals : (k : String) → IsKey k → Lacks (λ c. c == b'=') k
no_equals k h =
    Lacks-weaken (λ c. c == b'-' || c == b'=') (λ c. c == b'=') (λ c e. ground arith) k h

key-trim_left : (k : String) → IsKey k → trim_left b'-' ("--" <> k) ≡ k
unfolding trim_left ◌<>◌
key-trim_left k h = no_dash k h

flag-is_flag : (k : String) → IsKey k → is_flag ("--" <> k) ≡ true
unfolding is_flag size trim_left ◌<>◌
flag-is_flag k h = rw (no_dash k h) (ground arith)

flag-key_value : (k : String) → IsKey k → key_value ("--" <> k) ≡ ("--" <> k, "")
unfolding key_value ◌<>◌
flag-key_value k h =
    rw (split_absent b'=' ("--" <> k) (refl, (refl, no_equals k h)), key_value) refl

with_values-joined :
    (value : String) (vs rest : List String)
    → Values vs
    → starts_with_flag rest ≡ true
    → with_values value (vs ++ rest) ≡ joined value vs
unfolding with_values
with_values-joined value [] [] h r = refl
with_values-joined value [] (a ∷ rest) h r = ground arith
with_values-joined value (v ∷ vs) rest (e, h) r =
    ground (arith, with_values-joined (value <> " " <> v) vs rest h r)

skip-Values :
    (vs rest : List String) (result : Dict String)
    → Values vs
    → args_loop (vs ++ rest) result ≡ args_loop rest result
unfolding args_loop
skip-Values [] rest result h = refl
skip-Values (v ∷ vs) rest result (e, h) = rw (e, args_loop) (skip-Values vs rest result h)

-- A flag with its values, up to the next flag, sets its key to the values with one space between
-- them, and the loop goes on behind them.
pub args_loop-flag :
    (k : String) (vs rest : List String) (result : Dict String)
    → IsKey k
    → Values vs
    → starts_with_flag rest ≡ true
    → args_loop (("--" <> k) ∷ vs ++ rest) result
      ≡ args_loop rest (insert k (trim_space (joined "" vs)) result)
unfolding args_loop
args_loop-flag k vs rest result h v r =
    rw (flag-key_value k h, args_loop)
      (rw (flag-is_flag k h)
        (rw (with_values-joined "" vs rest v r) (rw (key-trim_left k h) (skip-Values vs rest _ v))))
