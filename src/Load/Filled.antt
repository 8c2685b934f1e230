-- ===== src/Load/Filled.antt =====
-- What `parseUserInputTags` of pkg/load/load.go leaves of a spec.
use tmctl.Base.{
  String, Bool, true, false, ◌||◌, ◌&&◌, Option, none, some, Result, ok, err, panic, ◌==◌,
  String_eq, ◌≡◌, refl, arith, Bool-cases, inl, inr, ap, ◌∙◌, eq_iff,
}
use tmctl.Crd.Secrets.{Base64}
use tmctl.Kubernetes.Value.{Value, text, arr, obj, Items, nil, cons, Fields, end, field, get, put}
use tmctl.Kubernetes.Entries.{get-put}
use tmctl.Load.{
  Terminal, user_input_tag, next, append_item, entered, fill_fields, fill_value, fill_items,
  parse_user_input_tags,
}

abbrev is_some : Option Value → Bool
is_some none = false
is_some (some v) = true

-- A list gets an entry for an item that is the tag or no text.
abbrev pub kept_items : Items → Bool
kept_items nil = false
kept_items (cons (text v) rest) = v == user_input_tag || kept_items rest
kept_items (cons v rest) = true

-- A value gets an entry if it is a text, a map, or such a list.
abbrev pub kept : Value → Bool
kept (text v) = true
kept (obj fs) = true
kept (arr xs) = kept_items xs
kept v = false

-- Some entry of the key is kept.
abbrev pub kept_at : String → Fields → Bool
kept_at k end = false
kept_at k (field j v rest) = (j == k && kept v) || kept_at k rest

abbrev pub has_key : String → Fields → Bool
has_key k fs = is_some (get k fs)

pub next-ok :
    {S A B : Type 0} (r : Result A × S) (f : A → S → Result B × S) (c : B) (s' : S)
    → next r f ≡ (ok c, s')
    → (a : A) × (s : S) × (r ≡ (ok a, s)) × (f a s ≡ (ok c, s'))
next-ok (ok a, s) f c s' h = (a, s, refl, h)
next-ok (err e, s) f c s' h = absurd (cc (ap (λ r. r.0) h))
next-ok (panic, s) f c s' h = absurd (cc (ap (λ r. r.0) h))

has_key-put :
    (k j : String) (v : Value) (fs : Fields) → has_key k (put j v fs) ≡ (j == k || has_key k fs)
has_key-put k j v fs = rw (get-put j k v fs) (ground (arith, eq_iff j k))

and_true : (a : Bool) → (a && true) ≡ a
and_true true = refl
and_true false = refl

and_false : (a : Bool) → (a && false) ≡ false
and_false true = refl
and_false false = refl

or_false : (a : Bool) → (a || false) ≡ a
or_false true = refl
or_false false = refl

or_true : (a : Bool) → (a || true) ≡ true
or_true true = refl
or_true false = refl

or_rotate : (a b c : Bool) → (a || (b || c)) ≡ ((b || a) || c)
or_rotate true true c = refl
or_rotate true false c = refl
or_rotate false true c = refl
or_rotate false false c = refl

pub ok_same :
    {S A : Type 0} {a c : A} {s s' : S} → ◌≡◌ {A = Result A × S} (ok a, s) (ok c, s') → a ≡ c
ok_same h = cc (ap (λ r. r.0) h)

has_key-entered :
    (k j : String) (entry : Option Value) (v : Value) (filled : Fields)
    → is_some entry ≡ kept v
    → has_key k (entered j entry filled) ≡ ((j == k && kept v) || has_key k filled)
has_key-entered k j none v filled h = rw⁻¹ h (rw (and_false (j == k)) refl)
has_key-entered k j (some w) v filled h =
    rw⁻¹ h (has_key-put k j w filled ∙ rw (and_true (j == k)) refl)

module _ (b : Base64) (t : Terminal) where
  mutual
    unfolding fill_fields fill_value fill_items

    has_key-fill_fields :
        (kind k : String) (fs filled g : Fields) (s s' : t.Lines)
        → fill_fields b t kind fs filled s ≡ (ok g, s')
        → has_key k g ≡ (kept_at k fs || has_key k filled)
    has_key-fill_fields kind k end filled g s s' h = rw (ok_same h) refl
    has_key-fill_fields kind k (field j v rest) filled g s s' h =
        let (entry, u, e, f) = next-ok (fill_value b t kind v s) _ g s' h in
        has_key-fill_fields kind k rest (entered j entry filled) g u s' f
        ∙ ap (λ x. kept_at k rest || x)
            (has_key-entered k j entry v filled (is_some-fill_value kind v entry s u e))
        ∙ or_rotate (kept_at k rest) (j == k && kept v) (has_key k filled)

    is_some-fill_value :
        (kind : String) (v : Value) (entry : Option Value) (s s' : t.Lines)
        → fill_value b t kind v s ≡ (ok entry, s')
        → is_some entry ≡ kept v
    is_some-fill_value kind (text v) entry s s' h = elim (Bool-cases (v == user_input_tag)) [
      | inl e ↦
          let (line, u, r, f) = next-ok (t.read_line s) _ entry s' (rw (e, fill_value) at h) in
          rw⁻¹ (ok_same f) refl
      | inr e ↦ rw⁻¹ (ok_same (rw (e, fill_value) at h)) refl
    ]
    is_some-fill_value kind (obj fs) entry s s' h =
        let (g, u, r, f) = next-ok (fill_fields b t kind fs end s) _ entry s' h in
        rw⁻¹ (ok_same f) refl
    is_some-fill_value kind (arr xs) entry s s' h =
        is_some-fill_items kind xs nil none entry s s' h ∙ or_false (kept_items xs)
    is_some-fill_value kind v entry s s' h = rw⁻¹ (ok_same h) refl

    is_some-fill_items :
        (kind : String) (xs items : Items) (old entry : Option Value) (s s' : t.Lines)
        → fill_items b t kind xs items old s ≡ (ok entry, s')
        → is_some entry ≡ (kept_items xs || is_some old)
    is_some-fill_items kind nil items old entry s s' h = rw (ok_same h) refl
    is_some-fill_items kind (cons (obj fs) rest) items old entry s s' h =
        let (g, u, r, f) = next-ok (fill_fields b t kind fs end s) _ entry s' h in
        is_some-fill_items kind rest (append_item items (obj g)) _ entry u s' f
        ∙ or_true (kept_items rest)
    is_some-fill_items kind (cons (text v) rest) items old entry s s' h =
        elim (Bool-cases (v == user_input_tag)) [
          | inl e ↦
              let (line, u, r, f) = next-ok (t.read_line s) _ entry s' (rw (e, fill_items) at h) in
              is_some-fill_items kind rest (append_item items (text line)) _ entry u s' f
              ∙ or_true (kept_items rest)
              ∙ rw e refl
          | inr e ↦
              is_some-fill_items kind rest items old entry s s' (rw (e, fill_items) at h)
              ∙ rw e refl
        ]
    is_some-fill_items kind (cons v rest) items old entry s s' h =
        is_some-fill_items kind rest items _ entry s s' h ∙ or_true (kept_items rest)

  -- Where the import has filled in a spec, a key has an entry exactly if one of its values before was
  -- a text, a map, or a list with an item that is the tag or no text. So numbers, flags and lists of
  -- texts are lost.
  pub has_key-parse_user_input_tags :
      (kind k : String) (fs g : Fields) (s s' : t.Lines)
      → parse_user_input_tags b t kind (some fs) s ≡ (ok g, s')
      → has_key k g ≡ kept_at k fs
  unfolding parse_user_input_tags get
  has_key-parse_user_input_tags kind k fs g s s' h =
      has_key-fill_fields kind k fs end g s s' h ∙ or_false (kept_at k fs)
