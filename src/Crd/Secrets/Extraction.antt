-- ===== src/Crd/Secrets/Extraction.antt =====
-- What `ExtractSecrets` of pkg/triggermesh/crd/secret.go leaves of a spec, and what it does to that
-- the next time.
use tmctl.Base.{
  String, Bool, true, false, Option, none, some, [], ◌∷◌, Result, ok, err, panic, >>=-ok, ◌>>=◌,
  ◌==◌, String_eq, Dict, insert, ◌≡◌, ◌≢◌, ◌⊎◌, Bool-cases, inl, inr, refl, sym, ap, ◌∙◌,
}
use tmctl.Crd.Schema.{Schema, Properties, properties, find}
use tmctl.Crd.Secrets.{
  Base64, secret_name, secret_ref, secret_reference, add_all, put_first, not_a_secret, extract_text,
  plain_value, object_value, extract_value, extract_fields, extract_secrets,
}
use tmctl.Kubernetes.Value.{Value, text, obj, Fields, end, field}

abbrev is_empty : Dict String → Bool
is_empty [] = true
is_empty (e ∷ m) = false

filled-insert : (k v : String) (m : Dict String) → is_empty (insert k v m) ≡ false
unfolding insert
filled-insert k v [] = refl
filled-insert k v ((j, w) ∷ m) = elim (Bool-cases (j == k)) [
  | inl e ↦ rw e refl
  | inr e ↦ rw e refl
]

filled-add_all :
    (secrets result : Dict String)
    → is_empty result ≡ false
    → is_empty (add_all secrets result) ≡ false
unfolding add_all
filled-add_all [] result h = h
filled-add_all ((k, v) ∷ rest) result h =
    filled-add_all rest (insert k v result) (filled-insert k v result)

filled-add_all_secrets :
    (secrets result : Dict String)
    → is_empty secrets ≡ false
    → is_empty (add_all secrets result) ≡ false
unfolding add_all
filled-add_all_secrets [] result h = absurd (cc h)
filled-add_all_secrets ((k, v) ∷ rest) result h =
    filled-add_all rest (insert k v result) (filled-insert k v result)

module _ (b : Base64) (c : String) where
  -- Extracting again from what is left either changes nothing, no secret having been found the first
  -- time, or fails, and then there are secrets.
  abbrev AgainValue : Properties → String → Value → Dict String → Dict String → Type 0
  AgainValue ps k w before after =
      ((after ≡ before) × ((acc : Dict String) → extract_value b c ps k w acc ≡ ok (acc, w)))
      ⊎ ((is_empty after ≡ false)
          × ((acc : Dict String) → (e : String) × (extract_value b c ps k w acc ≡ err e)))

  abbrev AgainFields : Properties → Fields → Dict String → Dict String → Type 0
  AgainFields ps gs before after =
      ((after ≡ before) × ((acc : Dict String) → extract_fields b c ps gs acc ≡ ok (acc, gs)))
      ⊎ ((is_empty after ≡ false)
          × ((acc : Dict String) → (e : String) × (extract_fields b c ps gs acc ≡ err e)))

  -- A reference is no text.
  again-reference :
      (ps : Properties) (ref k : String) (acc : Dict String)
      → secret_ref ps ≡ some ref
      → (e : String) × (extract_value b c ps k (secret_reference c ref k) acc ≡ err e)
  unfolding extract_value secret_reference object_value extract_text
  again-reference ps ref k acc r = (
    not_a_secret k,
    ap (λ r. object_value b c r k (held k) (extract_fields b c ps (held k) []) acc) r,
  )
    where
      held : String → Fields
      held k = field ref (obj (field "name" (text (secret_name c)) (field "key" (text k) end))) end

  extract_text-ok :
      (ref k : String) (v w : Value) (before after : Dict String)
      → extract_text b c ref k v before ≡ ok (after, w)
      → (secret_reference c ref k ≡ w) × (is_empty after ≡ false)
  unfolding extract_text
  extract_text-ok ref k (text s) w before after h =
      let grown : insert k (b.encoded s) before ≡ after = cc h in
      (cc h, ap is_empty (sym grown) ∙ filled-insert k (b.encoded s) before)
  extract_text-ok ref k v w before after h = absurd (cc h)

  again_plain :
      (ps : Properties) (k : String) (v w : Value) (before after : Dict String) (r : Option String)
      → secret_ref ps ≡ r
      → ((acc : Dict String)
          → extract_value b c ps k v acc ≡ plain_value b c (secret_ref ps) k v acc)
      → plain_value b c r k v before ≡ ok (after, w)
      → AgainValue ps k w before after
  unfolding plain_value
  again_plain ps k v w before after none e same h =
      let stays : v ≡ w = cc h in
      inl (
        cc h,
        λ acc.
            ap (λ x. extract_value b c ps k x acc) (sym stays)
            ∙ same acc
            ∙ ap (λ r. plain_value b c r k v acc) e
            ∙ ap (λ x. ok (acc, x)) stays,
      )
  again_plain ps k v w before after (some ref) e same h =
      let (stays, grown) = extract_text-ok ref k v w before after h in
      inr (grown, λ acc. rw (sym stays) (again-reference ps ref k acc e))

  -- An object whose fields can be extracted from again.
  again_object :
      (ps : Properties) (k : String) (fs : Fields) (w : Value) (before after : Dict String)
      (r : Option String)
      → secret_ref ps ≡ r
      → ((gs : Fields) (secrets : Dict String)
          → extract_fields b c ps fs [] ≡ ok (secrets, gs)
          → AgainFields ps gs [] secrets)
      → object_value b c r k fs (extract_fields b c ps fs []) before ≡ ok (after, w)
      → AgainValue ps k w before after
  unfolding object_value extract_text extract_value add_all
  again_object ps k fs w before after (some ref) e ih h = absurd (cc h)
  again_object ps k fs w before after none e ih h =
      let ((secrets, gs), m, p) =
        >>=-ok (extract_fields b c ps fs []) (λ (secrets, gs). ok (add_all secrets before, obj gs))
          h in
      let stays : obj gs ≡ w = cc m in
      let grown : add_all secrets before ≡ after = cc m in
      elim (ih gs secrets p) [
        | inl (same, again) ↦ inl (
          sym grown ∙ ap (λ s. add_all s before) same,
          λ acc. rw (← stays) (
              ap (λ r. object_value b c r k gs (extract_fields b c ps gs []) acc) e
              ∙ ap (λ x. object_value b c none k gs x acc) (again [])),
        )
        | inr (some_found, fails) ↦ inr (
          ap is_empty (sym grown) ∙ filled-add_all_secrets secrets before some_found,
          λ acc.
              let (z, q) = fails [] in
              (
                z,
                rw (← stays) (
                    ap (λ r. object_value b c r k gs (extract_fields b c ps gs []) acc) e
                    ∙ ap (λ x. object_value b c none k gs x acc) q),
              ),
        )
      ]

  again_end :
      (ps : Properties) (gs : Fields) (before after : Dict String)
      → extract_fields b c ps end before ≡ ok (after, gs)
      → AgainFields ps gs before after
  unfolding extract_fields
  again_end ps gs before after h =
      let stays : end ≡ gs = cc h in inl (cc h, λ acc. rw (← stays) refl)

  rest-ok :
      (k : String) (w : Value) (r : Result (Dict String × Fields)) (gs : Fields)
      (after : Dict String)
      → (r >>= put_first k w) ≡ ok (after, gs)
      → (hs : Fields) × (r ≡ ok (after, hs)) × (field k w hs ≡ gs)
  rest-ok k w (ok (later, hs)) gs after h =
      let same : later ≡ after = cc h in (hs, ap (λ x. ok (x, hs)) same, cc h)
  rest-ok k w (err e) gs after h = absurd (cc h)
  rest-ok k w panic gs after h = absurd (cc h)

  both-ok :
      (k : String) (r : Result (Dict String × Value))
      (next : Dict String → Result (Dict String × Fields)) (gs : Fields) (after : Dict String)
      → (r >>= λ (later, w). next later >>= put_first k w) ≡ ok (after, gs)
      → (w : Value) × (middle : Dict String) × (hs : Fields) × (r ≡ ok (middle, w))
        × (next middle ≡ ok (after, hs))
        × (field k w hs ≡ gs)
  both-ok k (ok (middle, w)) next gs after h =
      let (hs, p, stays) = rest-ok k w (next middle) gs after h in (w, middle, hs, refl, p, stays)
  both-ok k (err e) next gs after h = absurd (cc h)
  both-ok k panic next gs after h = absurd (cc h)

  -- What extracting again from the first field and from the others makes of both.
  both_again :
      (ps : Properties) (k : String) (s : Schema) (w : Value) (hs gs : Fields)
      (before middle after : Dict String)
      → find k ps ≡ some s
      → field k w hs ≡ gs
      → AgainValue (properties s) k w before middle
      → AgainFields ps hs middle after
      → AgainFields ps gs before after
  unfolding extract_fields
  both_again ps k s w hs gs before middle after e stays (inr (m, fails)) rest = inr (
    later_filled middle after m rest,
    λ acc. let (z, q) = fails acc in (z, rw (← stays) (rw (e, extract_fields) (rw q refl))),
  )
    where
      later_filled :
          (middle after : Dict String)
          → is_empty middle ≡ false
          → AgainFields ps hs middle after
          → is_empty after ≡ false
      later_filled middle after m (inl (n, later)) = ap is_empty n ∙ m
      later_filled middle after m (inr (n, fails)) = n
  both_again ps k s w hs gs before middle after e stays (inl (m, again)) (inl (n, later)) =
      inl
        (n ∙ m, λ acc. rw (← stays) (rw (e, extract_fields) (rw (again acc) (rw (later acc) refl))))
  both_again ps k s w hs gs before middle after e stays (inl (m, again)) (inr (n, fails)) = inr (
    n,
    λ acc.
        let (z, q) = fails acc in
        (z, rw (← stays) (rw (e, extract_fields) (rw (again acc) (rw q refl)))),
  )

  again_field :
      (ps : Properties) (k : String) (v : Value) (fs gs : Fields) (before after : Dict String)
      (r : Option Schema)
      → find k ps ≡ r
      → ((s : Schema) (w : Value) (middle : Dict String)
          → extract_value b c (properties s) k v before ≡ ok (middle, w)
          → AgainValue (properties s) k w before middle)
      → ((hs : Fields) (middle : Dict String)
          → extract_fields b c ps fs middle ≡ ok (after, hs)
          → AgainFields ps hs middle after)
      → extract_fields b c ps (field k v fs) before ≡ ok (after, gs)
      → AgainFields ps gs before after
  unfolding extract_fields
  again_field ps k v fs gs before after none e value rest h =
      let (hs, p, stays) =
        rest-ok k v (extract_fields b c ps fs before) gs after (rw (e, extract_fields) at h) in
      elim (rest hs before p) [
        | inl (unchanged, again) ↦
            inl (unchanged, λ acc. rw (← stays) (rw (e, extract_fields) (rw (again acc) refl)))
        | inr (n, fails) ↦ inr (
          n,
          λ acc. let (z, q) = fails acc in (z, rw (← stays) (rw (e, extract_fields) (rw q refl))),
        )
      ]
  again_field ps k v fs gs before after (some s) e value rest h =
      let (w, middle, hs, n, p, stays) =
        both-ok k (extract_value b c (properties s) k v before) (extract_fields b c ps fs) gs after
          (rw (e, extract_fields) at h) in
      both_again ps k s w hs gs before middle after e stays (value s w middle n) (rest hs middle p)

  mutual
    unfolding extract_value

    again_value :
        (ps : Properties) (k : String) (v w : Value) (before after : Dict String)
        → extract_value b c ps k v before ≡ ok (after, w)
        → AgainValue ps k w before after
    again_value ps k (obj fs) w before after h =
        again_object ps k fs w before after (secret_ref ps) refl
          (λ gs secrets e. again_fields ps fs gs [] secrets e) h
    again_value ps k v w before after h =
        again_plain ps k v w before after (secret_ref ps) refl (λ acc. refl) h

    again_fields :
        (ps : Properties) (fs gs : Fields) (before after : Dict String)
        → extract_fields b c ps fs before ≡ ok (after, gs)
        → AgainFields ps gs before after
    again_fields ps end gs before after h = again_end ps gs before after h
    again_fields ps (field k v fs) gs before after h =
        again_field ps k v fs gs before after (find k ps) refl
          (λ s w middle e. again_value (properties s) k v w before middle e)
          (λ hs middle e. again_fields ps fs hs middle after e) h

  -- Extracting the secrets again from what an extraction has left succeeds without secrets and leaves
  -- it as it is where the first extraction found none, and fails with an error exactly where it found
  -- some.
  pub extract_secrets_again :
      (s : Schema) (fs gs : Fields) (secrets : Dict String)
      → extract_secrets b c s fs ≡ ok (secrets, gs)
      → ((secrets ≡ []) × (extract_secrets b c s gs ≡ ok ([], gs)))
        ⊎ ((secrets ≢ []) × ((e : String) × (extract_secrets b c s gs ≡ err e)))
  unfolding extract_secrets
  extract_secrets_again s fs gs secrets h = elim (again_fields (properties s) fs gs [] secrets h) [
    | inl (none_found, again) ↦ inl (none_found, again [])
    | inr (some_found, fails) ↦
        inr ((λ none_found. absurd (cc (sym some_found ∙ ap is_empty none_found))), fails [])
  ]
