-- ===== src/Base/Strings/Laws.antt =====
-- What the cutting functions do to texts that lack what they cut at.
use Prim.Native.Nat.{ℕ}
use Prim.Native.Char.{Char, code}
use Prim.Native.String.{String}
use mathlib.Core.Path.{◌≡◌, refl, ap, ◌∙◌}
use mathlib.Core.Logic.{inl, inr, ◌≢◌}
use mathlib.Core.Bool.{Bool, true, false}
use mathlib.Core.List.{[], ◌∷◌}
use native.Mathlib.Omega.{arith}
use text.Mathlib.TextEquality.{eq_iff}
use tmctl.Base.Tests.{Bool-cases, ◌==◌, ℕ_eq, String_eq, nat_eq_iff}
use tmctl.Base.Strings.{
  ◌<>◌, has_prefix, has_suffix, trim_left, trim_right, trim_space, trim_space_left,
  trim_space_right, split, is_space,
}

-- No character passes the test.
abbrev pub Lacks : (ℕ → Bool) → String → Type 0
Lacks p String.[] = Unit
Lacks p (String.◌∷◌ c s) = (p (code c) ≡ false) × Lacks p s

pub Lacks-weaken :
    (p q : ℕ → Bool) → ((c : ℕ) → q c ≡ true → p c ≡ true) → (s : String) → Lacks p s → Lacks q s
Lacks-weaken p q sub String.[] h = tt
Lacks-weaken p q sub (String.◌∷◌ c s) h = (ground (arith, sub (code c)), Lacks-weaken p q sub s h.1)

pub trim_left_absent : (b : ℕ) (s : String) → Lacks (λ c. c == b) s → trim_left b s ≡ s
unfolding trim_left
trim_left_absent b String.[] h = refl
trim_left_absent b (String.◌∷◌ c s) h = ground arith

trim_right_absent : (b : ℕ) (s : String) → Lacks (λ c. c == b) s → trim_right b s ≡ s
unfolding trim_right
trim_right_absent b String.[] h = refl
trim_right_absent b (String.◌∷◌ c s) h = ground (arith, trim_right_absent b s)

trim_space_left_plain : (s : String) → Lacks is_space s → trim_space_left s ≡ s
unfolding trim_space_left
trim_space_left_plain String.[] h = refl
trim_space_left_plain (String.◌∷◌ c s) h = ground arith

trim_space_right_plain : (s : String) → Lacks is_space s → trim_space_right s ≡ s
unfolding trim_space_right
trim_space_right_plain String.[] h = refl
trim_space_right_plain (String.◌∷◌ c s) h = ground (arith, trim_space_right_plain s)

pub trim_space_plain : (s : String) → Lacks is_space s → trim_space s ≡ s
unfolding trim_space
trim_space_plain s h = ap trim_space_right (trim_space_left_plain s h) ∙ trim_space_right_plain s h

abbrev is_star : ℕ → Bool
is_star c = c == b'*'

pub trim_right-star : (s : String) → Lacks is_star s → trim_right b'*' (s <> "*") ≡ s
unfolding trim_right ◌<>◌
trim_right-star String.[] h = refl
trim_right-star (String.◌∷◌ c s) h = ground (arith, trim_right-star s)

pub has_suffix-star : (s : String) → has_suffix (s <> "*") "*" ≡ true
unfolding has_suffix ◌<>◌
has_suffix-star String.[] = refl
has_suffix-star (String.◌∷◌ c s) = ground (arith, has_suffix-star s)

abbrev first_code : String → ℕ
first_code String.[] = 0
first_code (String.◌∷◌ c s) = code c

one_star : (c : Char) (s : String) → is_star (code c) ≡ false → (String.◌∷◌ c s == "*") ≡ false
one_star c s h = elim (Bool-cases (String.◌∷◌ c s == "*")) [
  | inl e ↦ absurd (ground (arith, ap first_code ((eq_iff (String.◌∷◌ c s) "*").0 e)))
  | inr e ↦ e
]

pub has_suffix_absent : (s : String) → Lacks is_star s → has_suffix s "*" ≡ false
unfolding has_suffix
has_suffix_absent String.[] h = refl
has_suffix_absent (String.◌∷◌ c s) h = ground (arith, one_star c s, has_suffix_absent s)

pub has_prefix_absent : (s : String) → Lacks is_star s → has_prefix s "*" ≡ false
unfolding has_prefix
has_prefix_absent String.[] h = refl
has_prefix_absent (String.◌∷◌ c s) h = ground arith

pub has_prefix-star : (s : String) → has_prefix ("*" <> s) "*" ≡ true
unfolding has_prefix ◌<>◌
has_prefix-star String.[] = refl
has_prefix-star (String.◌∷◌ c s) = refl

pub trim_left-star : (s : String) → trim_left b'*' ("*" <> s) ≡ trim_left b'*' s
unfolding trim_left ◌<>◌
trim_left-star s = refl

pub has_prefix_of_nonempty :
    (s : String) → s ≢ "" → Lacks is_star s → has_prefix (s <> "*") "*" ≡ false
unfolding has_prefix ◌<>◌
has_prefix_of_nonempty String.[] n h = absurd (n refl)
has_prefix_of_nonempty (String.◌∷◌ c s) n h = ground arith

pub split_absent : (b : ℕ) (s : String) → Lacks (λ c. c == b) s → split b s ≡ s ∷ []
unfolding split
split_absent b String.[] h = refl
split_absent b (String.◌∷◌ c s) h = ground (arith, split_absent b s h.1)

-- A text up to the first separator is the first part.
pub split-append :
    (c : Char) (s t : String)
    → Lacks (λ d. d == code c) s
    → split (code c) (s <> String.◌∷◌ c t) ≡ s ∷ split (code c) t
unfolding split ◌<>◌
split-append c String.[] t h = ground (arith, nat_eq_iff (code c) (code c))
split-append c (String.◌∷◌ d s) t h = ground (arith, split-append c s t h.1)
