-- ===== src/Broker/Trigger/Filters.antt =====
-- `FilterAttribute` of trigger.go: the filter that a text with a star at one end stands for.
use tmctl.Base.{
  ℕ, String, Bool, ◌≡◌, ◌≢◌, ◌||◌, none, some, [], ◌∷◌, ◌<>◌, has_prefix, has_suffix, trim_left,
  trim_right, trim_space, is_space, if◌then◌else◌, arith, ◌==◌, ℕ_eq, String_eq, trim_left_absent,
  trim_right-star, has_prefix-star, trim_left-star, has_prefix_of_nonempty, has_suffix-star,
  has_suffix_absent, has_prefix_absent, Lacks-weaken, trim_space_plain, Lacks,
}
use tmctl.Kubernetes.Value.{Filter}

-- A filter with one condition on one attribute.
abbrev pub exact_filter : String → String → Filter
exact_filter attribute value = record {
  exact = some ((attribute, value) ∷ []);
  prefix = none;
  suffix = none;
  others = "";
}

abbrev pub prefix_filter : String → String → Filter
prefix_filter attribute value = record {
  exact = none;
  prefix = some ((attribute, value) ∷ []);
  suffix = none;
  others = "";
}

abbrev pub suffix_filter : String → String → Filter
suffix_filter attribute value = record {
  exact = none;
  prefix = none;
  suffix = some ((attribute, value) ∷ []);
  others = "";
}

unfoldable pub filter_attribute : String → String → Filter
filter_attribute attribute value =
    if has_prefix value "*"
    then suffix_filter attribute (trim_space (trim_left b'*' value))
    else if has_suffix value "*"
    then prefix_filter attribute (trim_space (trim_right b'*' value))
    else exact_filter attribute (trim_space value)

-- Neither a star nor a space.
abbrev plain_char : ℕ → Bool
plain_char c = c == b'*' || is_space c

abbrev pub Plain : String → Type 0
Plain = Lacks plain_char

-- A text with no star and no space stands for itself, behind a star for all that ends in it, and
-- before a star for all that begins with it.
pub filter_attribute_forms :
    (attribute value : String)
    → Plain value
    → value ≢ ""
    → (filter_attribute attribute value ≡ exact_filter attribute value)
      × (filter_attribute attribute ("*" <> value) ≡ suffix_filter attribute value)
      × (filter_attribute attribute (value <> "*") ≡ prefix_filter attribute value)
unfolding filter_attribute
filter_attribute_forms attribute value plain h =
    let no_star = Lacks-weaken plain_char (λ c. c == b'*') (λ c e. ground arith) value plain in
    let no_space = Lacks-weaken plain_char is_space (λ c e. ground arith) value plain in
    (
      rw (has_prefix_absent value no_star)
          (rw (has_suffix_absent value no_star) (rw (trim_space_plain value no_space))),
      rw has_prefix-star (
          rw trim_left-star
            (rw (trim_left_absent b'*' value no_star) (rw (trim_space_plain value no_space)))),
      rw (has_prefix_of_nonempty value h no_star) (
          rw has_suffix-star
            (rw (trim_right-star value no_star) (rw (trim_space_plain value no_space)))),
    )
