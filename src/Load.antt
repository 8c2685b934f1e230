-- ===== src/Load.antt =====
-- pkg/load/load.go: the import of a manifest from somewhere else. The fields of a spec that hold the
-- tag for the user's input are asked for at the terminal, one line for each.
pub mod Filled
pub mod Answered
use tmctl.Base.{
  String, Bool, true, false, Option, none, some, Result, ok, err, panic, ◌==◌, if◌then◌else◌,
  String_eq, Dict,
}
use tmctl.Crd.Secrets.{Base64}
use tmctl.Kubernetes.Value.{
  Value, null, text, flag, int, int64, texts, arr, obj, reference, destination, filters, Items, nil,
  cons, Fields, end, field, put,
}
use tmctl.Secrets.{get_spec, set_spec}

-- `triggermesh.UserInputTag`
abbrev pub user_input_tag : String
user_input_tag = "<user_input>"

-- The terminal: a call of `readStdin` gives a line, or the empty text at the end of the input.
pub record Terminal : Type 1 where
  pub Lines : Type 0
  pub read_line : Lines → Result String × Lines

module _ {S : Type 0} where
  -- A second step where the first one has no error.
  abbrev pub next : {A B : Type 0} → Result A × S → (A → S → Result B × S) → Result B × S
  next (ok a, s) f = f a s
  next (err e, s) f = (err e, s)
  next (panic, s) f = (panic, s)

-- `items = append(items, …)`
unfoldable pub append_item : Items → Value → Items
append_item nil v = cons v nil
append_item (cons x xs) v = cons x (append_item xs v)

-- A key whose value falls through the switch gets no entry.
abbrev pub entered : String → Option Value → Fields → Fields
entered k none filled = filled
entered k (some v) filled = put k v filled

module _ (b : Base64) (t : Terminal) where
  -- The line that is asked for, which is encoded in a secret.
  abbrev pub answer : String → String → Value
  answer kind line = if kind == "Secret" then text (b.encoded line) else text line

  unfoldable mutual
    -- The loop over the spec, with the entries of `filledSpec` so far.
    pub fill_fields : String → Fields → Fields → t.Lines → Result Fields × t.Lines
    fill_fields kind end filled s = (ok filled, s)
    fill_fields kind (field k v rest) filled s =
        next (fill_value kind v s) (λ entry s'. fill_fields kind rest (entered k entry filled) s')

    -- The entry that a value gets, if it gets one.
    pub fill_value : String → Value → t.Lines → Result (Option Value) × t.Lines
    fill_value kind (text v) s =
        if v == user_input_tag
        then next (t.read_line s) (λ line s'. (ok (some (answer kind line)), s'))
        else (ok (some (text v)), s)
    fill_value kind (obj fs) s =
        next (fill_fields kind fs end s) (λ filled s'. (ok (some (obj filled)), s'))
    fill_value kind (arr xs) s = fill_items kind xs nil none s
    fill_value kind v s = (ok none, s)

    -- The loop over a list, with the items so far and the entry that the key has. A text that is not
    -- the tag goes on to the next item, and so sets no entry.
    pub fill_items :
        String → Items → Items → Option Value → t.Lines → Result (Option Value) × t.Lines
    fill_items kind nil items entry s = (ok entry, s)
    fill_items kind (cons (obj fs) rest) items entry s =
        next (fill_fields kind fs end s) (λ filled s'.
          let items' = append_item items (obj filled) in
          fill_items kind rest items' (some (arr items')) s')
    fill_items kind (cons (text v) rest) items entry s =
        let skipped = fill_items kind rest items entry s in
        if v == user_input_tag
        then next (t.read_line s) (λ line s'.
          let items' = append_item items (text line) in
          fill_items kind rest items' (some (arr items')) s')
        else skipped
    fill_items kind (cons v rest) items entry s = fill_items kind rest items (some (arr items)) s

  unfoldable pub parse_user_input_tags : String → Option Fields → t.Lines → Result Fields × t.Lines
  parse_user_input_tags kind none s = (ok end, s)
  parse_user_input_tags kind (some fs) s = fill_fields kind fs end s

  -- What the loop of `Import` does with the spec of a secret, whose data is given.
  unfoldable pub import_secret : Dict String → t.Lines → Result (Dict String) × t.Lines
  unfolding parse_user_input_tags get_spec set_spec
  import_secret content s =
      next (parse_user_input_tags "Secret" (some (get_spec content)) s)
        (λ filled s'. (set_spec filled content, s'))
