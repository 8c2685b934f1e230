-- ===== src/Gui/Input.antt =====
-- `popInputValueView` of pkg/gui/transformation/keybindings.go: the key and the value that are read from
-- the two lines of the view.
use tmctl.Base.{
  ℕ, ◌≤◌, String, Bool, true, false, ◌||◌, ◌<>◌, size, ◌==◌, if◌then◌else◌, ℕ_eq, ◌≡◌, ◌↔◌, refl,
  sym, ap, ◌∙◌, Bool-cases, inl, inr, arith,
}
use Prim.Native.Char.{code}

-- `strings.ContainsRune(set, c)`
unfoldable pub contains_code : String → ℕ → Bool
contains_code String.[] c = false
contains_code (String.◌∷◌ d set) c = code d == c || contains_code set c

-- `strings.TrimLeft(s, set)`: it cuts all leading characters that are in the set.
unfoldable pub trim_left_set : String → String → String
unfolding contains_code
trim_left_set set String.[] = ""
trim_left_set set (String.◌∷◌ c s) =
    let rest = trim_left_set set s in if contains_code set (code c) then rest else String.◌∷◌ c s

pub record Input : Type 0 where
  pub key : String
  pub value : String

-- What is sent when the two lines of the view are entered.
unfoldable pub entered_input : String → String → Input
unfolding trim_left_set
entered_input first second = record {
  key = trim_left_set "key: " first;
  value = trim_left_set "value: " second;
}

-- The text starts with a character of the set.
abbrev pub starts_in : String → String → Bool
unfolding contains_code
starts_in set String.[] = false
starts_in set (String.◌∷◌ c s) = contains_code set (code c)

abbrev all_in : String → String → Bool
unfolding contains_code
all_in set String.[] = true
all_in set (String.◌∷◌ c s) = if contains_code set (code c) then all_in set s else false

trim_left_set-prefix :
    (set p s : String) → all_in set p ≡ true → trim_left_set set (p <> s) ≡ trim_left_set set s
unfolding trim_left_set ◌<>◌ all_in
trim_left_set-prefix set String.[] s h = refl
trim_left_set-prefix set (String.◌∷◌ c p) s h = elim (Bool-cases (contains_code set (code c))) [
  | inl e ↦ rw e (trim_left_set-prefix set p s (rw e at h))
  | inr e ↦ absurd (cc (rw e at h))
]

size-trim_left_set-le : (set s : String) → size (trim_left_set set s) ≤ size s
unfolding trim_left_set size
size-trim_left_set-le set String.[] = omega arith
size-trim_left_set-le set (String.◌∷◌ c s) = elim (Bool-cases (contains_code set (code c))) [
  | inl e ↦ rw e (omega (arith, size-trim_left_set-le set s))
  | inr e ↦ rw e (omega arith)
]

trim_left_set-same : (set s : String) → (trim_left_set set s ≡ s) ↔ (starts_in set s ≡ false)
unfolding trim_left_set size starts_in
trim_left_set-same set String.[] = (λ h. refl, λ h. refl)
trim_left_set-same set (String.◌∷◌ c s) = elim (Bool-cases (contains_code set (code c))) [
  | inl e ↦ (
    λ h. absurd (omega (arith, ap size (rw e at h), size-trim_left_set-le set s)),
    λ h. absurd (cc (e, h)),
  )
  | inr e ↦ (λ h. e, λ h. rw e refl)
]

-- The key and the value that are read from the prompts with a key and a value behind them are this key
-- and this value exactly if the key starts with none of the characters of `key: `, and the value with
-- none of those of `value: `.
pub entered_input_iff :
    (key value : String)
    → (entered_input ("key: " <> key) ("value: " <> value) ≡ record { key = key; value = value })
      ↔ ((starts_in "key: " key ≡ false) × (starts_in "value: " value ≡ false))
unfolding entered_input all_in
entered_input_iff key value =
    let k = trim_left_set-prefix "key: " "key: " key refl in
    let v = trim_left_set-prefix "value: " "value: " value refl in
    let (same_key, other_key) = trim_left_set-same "key: " key in
    let (same_value, other_value) = trim_left_set-same "value: " value in
    (
      λ h. (same_key (sym k ∙ ap (λ i. i.key) h), same_value (sym v ∙ ap (λ i. i.value) h)),
      λ (a, b). λ i. record { key = (k ∙ other_key a) i; value = (v ∙ other_value b) i },
    )
