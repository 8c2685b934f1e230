-- ===== src/Load/Answered.antt =====
-- After the import has filled in a spec, the user's answers stand for the tags.
use tmctl.Base.{
  String, Bool, true, false, ◌||◌, Option, none, some, ok, ◌==◌, any, String_eq, ◌≡◌, refl,
  Bool-cases, inl, inr,
}
use tmctl.Crd.Secrets.{Base64}
use tmctl.Kubernetes.Value.{Value, text, texts, arr, obj, Items, nil, cons, Fields, end, field, put}
use tmctl.Load.{
  Terminal, user_input_tag, append_item, entered, answer, fill_fields, fill_value, fill_items,
  parse_user_input_tags,
}
use tmctl.Load.Filled.{next-ok, ok_same}

abbrev is_tag : String → Bool
is_tag v = v == user_input_tag

-- The tag stands somewhere in the spec.
unfoldable mutual
  pub has_tag : Value → Bool
  has_tag (text v) = is_tag v
  has_tag (texts vs) = any is_tag vs
  has_tag (arr xs) = items_have_tag xs
  has_tag (obj fs) = fields_have_tag fs
  has_tag v = false

  pub items_have_tag : Items → Bool
  items_have_tag nil = false
  items_have_tag (cons v rest) = has_tag v || items_have_tag rest

  pub fields_have_tag : Fields → Bool
  fields_have_tag end = false
  fields_have_tag (field k v rest) = has_tag v || fields_have_tag rest

abbrev entry_has_tag : Option Value → Bool
entry_has_tag none = false
entry_has_tag (some v) = has_tag v

neither : (a c : Bool) → a ≡ false → c ≡ false → (a || c) ≡ false
neither a c h g = rw h g

of_neither : (a c : Bool) → (a || c) ≡ false → (a ≡ false) × (c ≡ false)
of_neither true c h = absurd (cc h)
of_neither false c h = (refl, h)

untagged-put :
    (k : String) (v : Value) (fs : Fields)
    → has_tag v ≡ false
    → fields_have_tag fs ≡ false
    → fields_have_tag (put k v fs) ≡ false
unfolding put fields_have_tag
untagged-put k v end h g = neither (has_tag v) false h refl
untagged-put k v (field j w fs) h g =
    let (x, y) = of_neither (has_tag w) (fields_have_tag fs) g in
    elim (Bool-cases (j == k)) [
      | inl e ↦ rw e (neither (has_tag v) (fields_have_tag fs) h y)
      | inr e ↦
          rw e (neither (has_tag w) (fields_have_tag (put k v fs)) x (untagged-put k v fs h y))
    ]

untagged-entered :
    (k : String) (entry : Option Value) (fs : Fields)
    → entry_has_tag entry ≡ false
    → fields_have_tag fs ≡ false
    → fields_have_tag (entered k entry fs) ≡ false
untagged-entered k none fs h g = g
untagged-entered k (some v) fs h g = untagged-put k v fs h g

untagged-append_item :
    (xs : Items) (v : Value)
    → items_have_tag xs ≡ false
    → has_tag v ≡ false
    → items_have_tag (append_item xs v) ≡ false
unfolding append_item items_have_tag
untagged-append_item nil v g h = neither (has_tag v) false h refl
untagged-append_item (cons x xs) v g h =
    let (p, q) = of_neither (has_tag x) (items_have_tag xs) g in
    neither (has_tag x) (items_have_tag (append_item xs v)) p (untagged-append_item xs v q h)

-- No line of the terminal, encoded or not, is the tag.
pub record NoTag (b : Base64) (t : Terminal) : Type 0 where
  pub line : (s s' : t.Lines) (v : String) → t.read_line s ≡ (ok v, s') → is_tag v ≡ false
  pub encoded : (v : String) → is_tag (b.encoded v) ≡ false

module _ (b : Base64) (t : Terminal) (n : NoTag b t) where
  untagged-answer :
      (kind v : String) (s s' : t.Lines)
      → t.read_line s ≡ (ok v, s')
      → has_tag (answer b t kind v) ≡ false
  unfolding has_tag
  untagged-answer kind v s s' h = elim (Bool-cases (kind == "Secret")) [
    | inl e ↦ rw e (n.encoded v)
    | inr e ↦ rw e (n.line s s' v h)
  ]

  mutual
    unfolding fill_fields has_tag

    untagged-fill_fields :
        (kind : String) (fs filled g : Fields) (s s' : t.Lines)
        → fields_have_tag filled ≡ false
        → fill_fields b t kind fs filled s ≡ (ok g, s')
        → fields_have_tag g ≡ false
    untagged-fill_fields kind end filled g s s' c h = rw⁻¹ (ok_same h) c
    untagged-fill_fields kind (field j v rest) filled g s s' c h =
        let (entry, u, e, f) = next-ok (fill_value b t kind v s) _ g s' h in
        untagged-fill_fields kind rest (entered j entry filled) g u s'
          (untagged-entered j entry filled (untagged-fill_value kind v entry s u e) c) f

    untagged-fill_value :
        (kind : String) (v : Value) (entry : Option Value) (s s' : t.Lines)
        → fill_value b t kind v s ≡ (ok entry, s')
        → entry_has_tag entry ≡ false
    untagged-fill_value kind (text v) entry s s' h = elim (Bool-cases (v == user_input_tag)) [
      | inl e ↦
          let (line, u, r, f) = next-ok (t.read_line s) _ entry s' (rw (e, fill_value) at h) in
          rw⁻¹ (ok_same f) (untagged-answer kind line s u r)
      | inr e ↦ rw⁻¹ (ok_same (rw (e, fill_value) at h)) e
    ]
    untagged-fill_value kind (obj fs) entry s s' h =
        let (g, u, r, f) = next-ok (fill_fields b t kind fs end s) _ entry s' h in
        rw⁻¹ (ok_same f) (untagged-fill_fields kind fs end g s u refl r)
    untagged-fill_value kind (arr xs) entry s s' h =
        untagged-fill_items kind xs nil none entry s s' refl refl h
    untagged-fill_value kind v entry s s' h = rw⁻¹ (ok_same h) refl

    untagged-fill_items :
        (kind : String) (xs items : Items) (old entry : Option Value) (s s' : t.Lines)
        → items_have_tag items ≡ false
        → entry_has_tag old ≡ false
        → fill_items b t kind xs items old s ≡ (ok entry, s')
        → entry_has_tag entry ≡ false
    untagged-fill_items kind nil items old entry s s' c o h = rw⁻¹ (ok_same h) o
    untagged-fill_items kind (cons (obj fs) rest) items old entry s s' c o h =
        let (g, u, r, f) = next-ok (fill_fields b t kind fs end s) _ entry s' h in
        let more =
          untagged-append_item items (obj g) c (untagged-fill_fields kind fs end g s u refl r) in
        untagged-fill_items kind rest (append_item items (obj g)) _ entry u s' more more f
    untagged-fill_items kind (cons (text v) rest) items old entry s s' c o h =
        elim (Bool-cases (v == user_input_tag)) [
          | inl e ↦
              let (line, u, r, f) = next-ok (t.read_line s) _ entry s' (rw (e, fill_items) at h) in
              let more = untagged-append_item items (text line) c (n.line s u line r) in
              untagged-fill_items kind rest (append_item items (text line)) _ entry u s' more more f
          | inr e ↦ untagged-fill_items kind rest items old entry s s' c o (rw (e, fill_items) at h)
        ]
    untagged-fill_items kind (cons v rest) items old entry s s' c o h =
        untagged-fill_items kind rest items _ entry s s' c c h

  -- Where no line of the terminal, encoded or not, is the tag, a spec that the import has filled in
  -- has no tag left, at any depth.
  pub untagged-parse_user_input_tags :
      (kind : String) (spec : Option Fields) (g : Fields) (s s' : t.Lines)
      → parse_user_input_tags b t kind spec s ≡ (ok g, s')
      → fields_have_tag g ≡ false
  unfolding parse_user_input_tags fields_have_tag
  untagged-parse_user_input_tags kind none g s s' h = rw⁻¹ (ok_same h) refl
  untagged-parse_user_input_tags kind (some fs) g s s' h =
      untagged-fill_fields kind fs end g s s' refl h
