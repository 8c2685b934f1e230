-- ===== src/Tests/Views.antt =====
-- The keys of the transformation editor, at a view that shows two lines of a list.
use tmctl.Base.{
  ℕ, zero, suc, ◌+◌, ◌<◌, ◌≤◌, String, true, false, Option, none, some, ok, err, List, [], ◌∷◌, ltb,
  if◌then◌else◌, ◌≡◌, ◌↔◌, refl, arith, ◌<>◌, has_suffix,
}
use tmctl.Gui.Cursor.{View, cursor_down, cursor_up, cursor_down_items, move_down, send_signal}
use tmctl.Gui.Cursor.Items.{Ends, cursor_down_items-Ends}
use tmctl.Gui.Cursor.Rows.{IsLawful, At, before, next_row, previous_row, cursor_keys-At}
use tmctl.Gui.Input.{entered_input, starts_in, entered_input_iff, trim_left_set, contains_code}
use tmctl.Kubernetes.Value.{ℤ, pos, negsuc}

record Shown : Type 0 where
  lines : List String
  cursor : ℕ × ℕ
  origin : ℕ × ℕ

abbrev nth : List String → ℕ → Option String
nth [] n = none
nth (l ∷ ls) zero = some l
nth (l ∷ ls) (suc n) = nth ls n

abbrev line_at : Shown → ℤ → Option String
line_at s (pos n) = nth s.lines (s.origin.1 + n)
line_at s (negsuc zero) = before (nth s.lines) s.origin.1
line_at s (negsuc (suc n)) = none

abbrev cursor_to : ℕ → ℤ → Shown → Option String × Shown
cursor_to x (pos n) s =
    if ltb n 2 then (none, record s { cursor = (x, n) }) else (some "invalid point", s)
cursor_to x (negsuc n) s = (some "invalid point", s)

abbrev origin_to : ℕ → ℤ → Shown → Option String × Shown
origin_to x (pos n) s = (none, record s { origin = (x, n) })
origin_to x (negsuc n) s = (some "invalid point", s)

abbrev view : View
view = record {
  State = Shown;
  cursor = λ s. s.cursor;
  origin = λ s. s.origin;
  line = line_at;
  set_cursor = cursor_to;
  set_origin = origin_to;
}

below_height : (n : ℕ) → n < 2 → ltb n 2 ≡ true
below_height n h = ground arith

not_below : (n : ℕ) → 2 ≤ n → ltb n 2 ≡ false
not_below n h = ground arith

view-IsLawful : IsLawful view
view-IsLawful = record {
  text = λ s. nth s.lines;
  height = λ s. 2;
  line-below = λ s n. refl;
  line-above = λ s. refl;
  set_cursor-inside = λ s n h.
      (record s { cursor = (s.cursor.0, n) }, rw (below_height n h) refl, refl, refl, refl, refl);
  set_cursor-below = λ s n h. ("invalid point", rw (not_below n h) refl);
  set_cursor-above = λ s. ("invalid point", refl);
  set_origin-inside = λ s n. (record s { origin = (s.origin.0, n) }, refl, refl, refl, refl, refl);
}

abbrev sources : Shown
sources = record {
  lines = "Sources:" ∷ "foo" ∷ "Targets:" ∷ "bar" ∷ [];
  cursor = (0, 1);
  origin = (0, 0);
}

cursor_keys-At_example :
    ((s' : Shown) × (cursor_down view sources ≡ (ok tt, s'))
      × At view view-IsLawful sources s' (next_row view view-IsLawful sources))
    × ((s' : Shown) × (cursor_up view sources ≡ (ok tt, s'))
        × At view view-IsLawful sources s' (previous_row view view-IsLawful sources))
unfolding view-IsLawful
cursor_keys-At_example = cursor_keys-At view view-IsLawful sources (omega arith)

abbrev top : Shown
top = record sources { cursor = (0, 0) }

cursor_down_items-Ends_example : Ends view view-IsLawful top (cursor_down_items view 3 top)
unfolding view-IsLawful
cursor_down_items-Ends_example = cursor_down_items-Ends view view-IsLawful top (omega arith)

-- From the first row, the signal is the second one; from there, the header below the last row that is
-- shown is an error.
key_down : cursor_down_items view 3 top ≡ some (ok (some "foo"), sources)
unfolding cursor_down_items move_down send_signal has_suffix
key_down = refl

key_down_again : cursor_down_items view 3 sources ≡ some (err "invalid point", sources)
unfolding cursor_down_items has_suffix
key_down_again = refl

-- The key loses its first letter.
entered_input_iff_example :
    (entered_input ("key: " <> "email") ("value: " <> "foo")
      ≡ record { key = "email"; value = "foo" })
    ↔ ((starts_in "key: " "email" ≡ false) × (starts_in "value: " "foo" ≡ false))
entered_input_iff_example = entered_input_iff "email" "foo"

letters_lost : entered_input "key: email" "value: foo" ≡ record { key = "mail"; value = "foo" }
unfolding entered_input trim_left_set contains_code
letters_lost = refl
