-- ===== src/Dump/Restored.antt =====
-- A secret that `tmctl dump --no-secrets` of cmd/dump/dump.go has stripped, and its import by
-- pkg/load/load.go.
use tmctl.Base.{
  String, none, some, [], ◌∷◌, ◌++◌, map, ok, ◌==◌, String_eq, Dict, lookup, insert, Distinct,
  Fresh, Fresh-append, Fresh-nil, append_assoc, ◌≡◌, refl, sym, ap, ◌∙◌, Bool-cases, inl, inr,
  eq_refl, ne_sym,
}
use tmctl.Crd.Secrets.{Base64}
use tmctl.Dump.{redacted}
use tmctl.Kubernetes.Entries.{get-put_other}
use tmctl.Kubernetes.Value.{Value, text, Fields, end, field, get, put}
use tmctl.Load.{Terminal, user_input_tag, next, entered, answer, fill_fields, import_secret}
use tmctl.Secrets.{Secret, get_spec, set_spec}

abbrev tags : Dict String → Dict String
tags m = map (λ (e : String × String). (e.0, user_input_tag)) m

-- Writing to a key that is there.
insert-behind :
    (k v w : String) (before after : Dict String)
    → lookup k before ≡ none
    → insert k v (before ++ (k, w) ∷ after) ≡ before ++ (k, v) ∷ after
unfolding insert lookup
insert-behind k v w [] after h = rw (eq_refl k) refl
insert-behind k v w ((j, u) ∷ before) after h = elim (Bool-cases (j == k)) [
  | inl e ↦ absurd (cc (rw e at h))
  | inr e ↦ rw e (ap (λ m. (j, u) ∷ m) (insert-behind k v w before after (rw e at h)))
]

set_spec-tags :
    (m before : Dict String)
    → Distinct m
    → Fresh m before
    → set_spec (get_spec m) (before ++ tags m) ≡ ok (before ++ m)
unfolding set_spec get_spec
set_spec-tags [] before d f = refl
set_spec-tags ((k, v) ∷ m) before (a, d) (x, f) =
    ap (set_spec (get_spec m)) (
      insert-behind k v user_input_tag before (tags m) x
      ∙ sym (append_assoc before ((k, v) ∷ []) (tags m)))
    ∙ set_spec-tags m (before ++ (k, v) ∷ []) d (Fresh-append m before k v a f)
    ∙ ap ok (append_assoc before ((k, v) ∷ []) m)

appended : Fields → Fields → Fields
appended end gs = gs
appended (field k v fs) gs = field k v (appended fs gs)

put_absent :
    (k : String) (v : Value) (fs : Fields)
    → get k fs ≡ none
    → put k v fs ≡ appended fs (field k v end)
unfolding put get appended
put_absent k v end h = refl
put_absent k v (field j w fs) h = elim (Bool-cases (j == k)) [
  | inl e ↦ absurd (cc (rw e at h))
  | inr e ↦ rw e (ap (field j w) (put_absent k v fs (rw e at h)))
]

appended_end : (fs : Fields) → appended fs end ≡ fs
unfolding appended
appended_end end = refl
appended_end (field k v fs) = ap (field k v) (appended_end fs)

appended_assoc : (fs gs hs : Fields) → appended (appended fs gs) hs ≡ appended fs (appended gs hs)
unfolding appended
appended_assoc end gs hs = refl
appended_assoc (field k v fs) gs hs = ap (field k v) (appended_assoc fs gs hs)

-- None of the keys is among the fields.
abbrev New : Dict String → Fields → Type 0
New [] fs = Unit
New ((k, v) ∷ m) fs = (get k fs ≡ none) × New m fs

New-put :
    (k : String) (v : Value) (m : Dict String) (fs : Fields)
    → lookup k m ≡ none
    → New m fs
    → New m (put k v fs)
unfolding lookup
New-put k v [] fs h n = tt
New-put k v ((j, w) ∷ m) fs h (x, n) = elim (Bool-cases (j == k)) [
  | inl e ↦ absurd (cc (rw e at h))
  | inr e ↦ (get-put_other k j v fs (ne_sym j k e) ∙ x, New-put k v m fs (rw e at h) n)
]

New-end : (m : Dict String) → New m end
unfolding get
New-end [] = tt
New-end ((k, v) ∷ m) = (refl, New-end m)

module _ (b : Base64) (t : Terminal) where
  -- The lines that the terminal gives are the values of the data before they were encoded.
  abbrev pub Answers : Dict String → t.Lines → t.Lines → Type 0
  Answers [] s s' = s ≡ s'
  Answers ((k, v) ∷ rest) s s' =
      (line : String) × (u : t.Lines) × (t.read_line s ≡ (ok line, u))
      × (b.encoded line ≡ v)
      × Answers rest u s'

  fill_fields-tag :
      (k line : String) (rest filled : Fields) (s u : t.Lines)
      → t.read_line s ≡ (ok line, u)
      → fill_fields b t "Secret" (field k (text user_input_tag) rest) filled s
        ≡ fill_fields b t "Secret" rest (put k (text (b.encoded line)) filled) u
  unfolding fill_fields
  fill_fields-tag k line rest filled s u r =
      ap
        (λ x.
          next (next x (λ l z. (ok (some (answer b t "Secret" l)), z)))
            (λ entry z. fill_fields b t "Secret" rest (entered k entry filled) z))
        r

  fill_fields-end :
      (filled : Fields) (s : t.Lines) → fill_fields b t "Secret" end filled s ≡ (ok filled, s)
  unfolding fill_fields
  fill_fields-end filled s = refl

  fill_fields-tags :
      (m : Dict String) (filled : Fields) (s s' : t.Lines)
      → Distinct m
      → New m filled
      → Answers m s s'
      → fill_fields b t "Secret" (get_spec (tags m)) filled s
        ≡ (ok (appended filled (get_spec m)), s')
  unfolding get_spec appended
  fill_fields-tags [] filled s s' d n e =
      fill_fields-end filled s ∙ (λ i. (ok (sym (appended_end filled) i), e i))
  fill_fields-tags ((k, v) ∷ m) filled s s' (a, d) (x, n) (line, u, r, q, rest) =
      let here : put k (text (b.encoded line)) filled ≡ appended filled (field k (text v) end) =
        ap (λ z. put k (text z) filled) q ∙ put_absent k (text v) filled x in
      fill_fields-tag k line (get_spec (tags m)) filled s u r
      ∙ fill_fields-tags m (put k (text (b.encoded line)) filled) u s' d
          (New-put k (text (b.encoded line)) m filled a n) rest
      ∙ (λ i. (ok (appended (here i) (get_spec m)), s'))
      ∙ (λ i. (ok (appended_assoc filled (field k (text v) end) (get_spec m) i), s'))

  -- When a secret without double keys has been stripped for a dump, and the terminal answers the
  -- prompts of the import, in their order, with the values before they were encoded, then the
  -- imported secret has the data of the original one.
  pub import_secret-redacted :
      (context : String) (sec : Secret) (s s' : t.Lines)
      → Distinct sec.content
      → Answers sec.content s s'
      → import_secret b t (redacted context sec).content s ≡ (ok sec.content, s')
  unfolding import_secret redacted appended
  import_secret-redacted context sec s s' d a =
      rw (fill_fields-tags sec.content end s s' d (New-end sec.content) a)
        (λ i. (set_spec-tags sec.content [] d (Fresh-nil sec.content) i, s'))
