-- ===== src/Base/Strings.antt =====
-- The functions of Go's `strings` package that the program calls, on texts. A text is a list of
-- characters; where the program cuts at an ASCII character this is the same as cutting bytes.
-- `to_lower`, `to_upper` and `trim_space` know the ASCII letters and spaces only.
pub mod Laws
use Prim.Native.Nat.{ℕ, suc, ◌-◌}
use Prim.Native.Char.{Char, code}
use Prim.Native.String.{String, char_at}
use mathlib.Core.Bool.{Bool, true, false, ◌&&◌, ◌||◌}
use mathlib.Core.List.{List, [], ◌∷◌}
use tmctl.Base.Tests.{◌==◌, ltb, if◌then◌else◌, ℕ_eq, String_eq}

infixr 60 ◌<>◌
unfoldable pub ◌<>◌ : String → String → String
String.[] <> t = t
String.◌∷◌ c s <> t = String.◌∷◌ c (s <> t)

-- The number of characters.
unfoldable pub size : String → ℕ
size String.[] = 0
size (String.◌∷◌ c s) = suc (size s)

-- `strings.HasPrefix(s, prefix)`
unfoldable pub has_prefix : String → String → Bool
has_prefix s String.[] = true
has_prefix String.[] (String.◌∷◌ d p) = false
has_prefix (String.◌∷◌ c s) (String.◌∷◌ d p) = code c == code d && has_prefix s p

-- `strings.HasSuffix(s, suffix)`
unfoldable pub has_suffix : String → String → Bool
has_suffix String.[] t = t == ""
has_suffix (String.◌∷◌ c s) t = String.◌∷◌ c s == t || has_suffix s t

-- `strings.TrimLeft(s, set)` where the set has the one character `b`.
unfoldable pub trim_left : ℕ → String → String
trim_left b String.[] = ""
trim_left b (String.◌∷◌ c s) =
    let rest = trim_left b s in if code c == b then rest else String.◌∷◌ c s

-- `strings.TrimRight(s, set)` where the set has the one character `b`.
unfoldable pub trim_right : ℕ → String → String
trim_right b String.[] = ""
trim_right b (String.◌∷◌ c s) =
    let rest = trim_right b s in if code c == b && rest == "" then "" else String.◌∷◌ c rest

abbrev pub is_space : ℕ → Bool
is_space c = c == b' ' || (ltb 8 c && ltb c 14)

unfoldable trim_space_left : String → String
trim_space_left String.[] = ""
trim_space_left (String.◌∷◌ c s) =
    let rest = trim_space_left s in if is_space (code c) then rest else String.◌∷◌ c s

unfoldable trim_space_right : String → String
trim_space_right String.[] = ""
trim_space_right (String.◌∷◌ c s) =
    let rest = trim_space_right s in
    if is_space (code c) && rest == "" then "" else String.◌∷◌ c rest

-- `strings.TrimSpace(s)`
unfoldable pub trim_space : String → String
unfolding trim_space_left trim_space_right
trim_space s = trim_space_right (trim_space_left s)

abbrev cons_first : Char → List String → List String
cons_first c [] = String.◌∷◌ c "" ∷ []
cons_first c (p ∷ ps) = String.◌∷◌ c p ∷ ps

-- `strings.Split(s, sep)` where the separator is the one character `b`. There is always a part.
unfoldable pub split : ℕ → String → List String
split b String.[] = "" ∷ []
split b (String.◌∷◌ c s) =
    let rest = split b s in if code c == b then "" ∷ rest else cons_first c rest

-- `strings.Join(parts, sep)`
unfoldable pub join : String → List String → String
unfolding ◌<>◌
join sep [] = ""
join sep (p ∷ []) = p
join sep (p ∷ q ∷ ps) = p <> sep <> join sep (q ∷ ps)

abbrev lower : Char → Char
lower c =
    if ltb 64 (code c) && ltb (code c) 91
    then char_at "abcdefghijklmnopqrstuvwxyz" (code c - 65)
    else c

-- `strings.ToLower(s)`
unfoldable pub to_lower : String → String
to_lower String.[] = ""
to_lower (String.◌∷◌ c s) = String.◌∷◌ (lower c) (to_lower s)

abbrev upper : Char → Char
upper c =
    if ltb 96 (code c) && ltb (code c) 123
    then char_at "ABCDEFGHIJKLMNOPQRSTUVWXYZ" (code c - 97)
    else c

-- `strings.ToUpper(s)`
unfoldable pub to_upper : String → String
to_upper String.[] = ""
to_upper (String.◌∷◌ c s) = String.◌∷◌ (upper c) (to_upper s)
