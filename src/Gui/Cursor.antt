-- ===== src/Gui/Cursor.antt =====
-- pkg/gui/transformation/keybindings.go: the keys that move the cursor in the lists of the
-- transformation editor. A view of `github.com/jroimartin/gocui` is the parameter `View`. A signal on
-- the handler's channel is the line that the handler gives. The functions that call themselves have
-- fuel; where it runs out they give `none`.
pub mod Rows
pub mod Items
use tmctl.Base.{
  ℕ, zero, suc, ◌+◌, String, Bool, true, false, ◌||◌, Option, none, some, Result, ok, err, panic,
  ◌==◌, if◌then◌else◌, String_eq, has_suffix, trim_space, ltb,
}
use tmctl.Kubernetes.Value.{ℤ, pos, negsuc}

-- Columns and rows count from zero; the row of a line or of the cursor is that on the screen.
pub record View : Type 1 where
  pub State : Type 0
  pub cursor : State → ℕ × ℕ
  pub origin : State → ℕ × ℕ
  -- `Line`, without the text of its error.
  pub line : State → ℤ → Option String
  pub set_cursor : ℕ → ℤ → State → Option String × State
  pub set_origin : ℕ → ℤ → State → Option String × State

-- One row up.
abbrev pub above : ℕ → ℤ
above zero = negsuc 0
above (suc n) = pos n

module _ (v : View) where
  abbrev pub Outcome : Type 0
  Outcome = Result (Option String) × v.State

  abbrev placed : Option String × v.State → Result (Unit {0}) × v.State
  placed (none, s) = (ok tt, s)
  placed (some e, s) = (err e, s)

  -- Where the cursor cannot be set, the text is scrolled.
  abbrev scrolled : ℕ → ℤ → Option String × v.State → Result (Unit {0}) × v.State
  scrolled ox y (none, s) = (ok tt, s)
  scrolled ox y (some e, s) = placed (v.set_origin ox y s)

  -- It is not scrolled above its first line.
  abbrev scrolled_up : ℕ → ℕ → Option String × v.State → Result (Unit {0}) × v.State
  scrolled_up ox oy (none, s) = (ok tt, s)
  scrolled_up ox oy (some e, s) =
      if ltb 0 oy then placed (v.set_origin ox (above oy) s) else (ok tt, s)

  unfoldable pub move_down : v.State → Result (Unit {0}) × v.State
  move_down s =
      let (ox, oy) = v.origin s in
      let (cx, cy) = v.cursor s in scrolled ox (pos (oy + 1)) (v.set_cursor cx (pos (cy + 1)) s)

  unfoldable pub move_up : v.State → Result (Unit {0}) × v.State
  move_up s =
      let (ox, oy) = v.origin s in
      let (cx, cy) = v.cursor s in scrolled_up ox oy (v.set_cursor cx (above cy) s)

  unfoldable pub cursor_down : v.State → Result (Unit {0}) × v.State
  unfolding move_down
  cursor_down s = elim (v.line s (pos ((v.cursor s).1 + 1))) [
    | none ↦ (ok tt, s)
    | some l ↦ if l == "" then (ok tt, s) else move_down s
  ]

  unfoldable pub cursor_up : v.State → Result (Unit {0}) × v.State
  unfolding move_up
  cursor_up s = elim (v.line s (above (v.cursor s).1)) [
    | none ↦ (ok tt, s)
    | some l ↦ if l == "" then (ok tt, s) else move_up s
  ]

  unfoldable pub send_signal : Result (Unit {0}) × v.State → Outcome
  send_signal (ok u, s) = elim (v.line s (pos (v.cursor s).1)) [
    | none ↦ (err "invalid point", s)
    | some l ↦ (ok (some l), s)
  ]
  send_signal (err e, s) = (err e, s)
  send_signal (panic, s) = (panic, s)

  -- A header of the list is passed over, with `again` from the row after it; where the cursor cannot
  -- be set on it, the handler fails.
  abbrev pub past_header : (v.State → Option Outcome) → Option String × v.State → Option Outcome
  past_header again (none, s) = again s
  past_header again (some e, s) = some (err e, s)

  -- `cursorDownSources` and `cursorDownTargets`, which are the same.
  unfoldable pub cursor_down_items : ℕ → v.State → Option Outcome
  unfolding has_suffix move_down send_signal
  cursor_down_items zero s = none
  cursor_down_items (suc fuel) s = elim (v.line s (pos ((v.cursor s).1 + 1))) [
    | none ↦ some (ok none, s)
    | some l ↦ elim (l == "") [
      | true ↦ some (ok none, s)
      | false ↦ elim (has_suffix l ":") [
        | true ↦
            past_header (cursor_down_items fuel)
              (v.set_cursor (v.cursor s).0 (pos ((v.cursor s).1 + 1)) s)
        | false ↦ some (send_signal (move_down s))
      ]
    ]
  ]

  -- `cursorUpSources` and `cursorUpTargets`, which are the same.
  unfoldable pub cursor_up_items : ℕ → v.State → Option Outcome
  unfolding has_suffix move_up send_signal
  cursor_up_items zero s = none
  cursor_up_items (suc fuel) s = elim (v.line s (above (v.cursor s).1)) [
    | none ↦ some (ok none, s)
    | some l ↦ elim (l == "") [
      | true ↦ some (ok none, s)
      | false ↦ elim (has_suffix l ":") [
        | true ↦
            past_header (cursor_up_items fuel)
              (v.set_cursor (v.cursor s).0 (above (v.cursor s).1) s)
        | false ↦ some (send_signal (move_up s))
      ]
    ]
  ]

  abbrev pub is_closing : String → Bool
  unfolding trim_space
  is_closing l = let t = trim_space l in t == "}" || t == "]" || t == "}," || t == "],"

  abbrev past_closing : (v.State → Option Outcome) → Result (Unit {0}) × v.State → Option Outcome
  past_closing again (ok u, s) = again s
  past_closing again (err e, s) = some (err e, s)
  past_closing again (panic, s) = some (panic, s)

  -- A line that closes a bracket is passed over, and the last one is not reached.
  unfoldable pub cursor_down_event_sample : ℕ → v.State → Option Outcome
  unfolding trim_space move_down send_signal
  cursor_down_event_sample zero s = none
  cursor_down_event_sample (suc fuel) s = elim (v.line s (pos ((v.cursor s).1 + 1))) [
    | none ↦ some (ok none, s)
    | some l ↦ elim (l == "}" || trim_space l == "") [
      | true ↦ some (ok none, s)
      | false ↦ elim (is_closing l) [
        | true ↦ past_closing (cursor_down_event_sample fuel) (move_down s)
        | false ↦ some (send_signal (move_down s))
      ]
    ]
  ]

  -- Where the cursor cannot be set on a closing line, the text is scrolled without a test.
  unfoldable pub cursor_up_event_sample : ℕ → v.State → Option Outcome
  unfolding trim_space move_up send_signal
  cursor_up_event_sample zero s = none
  cursor_up_event_sample (suc fuel) s = elim (v.line s (above (v.cursor s).1)) [
    | none ↦ some (ok none, s)
    | some l ↦ elim (l == "}" || trim_space l == "") [
      | true ↦ some (ok none, s)
      | false ↦ elim (is_closing l) [
        | true ↦ past_closing (cursor_up_event_sample fuel) (
            scrolled (v.origin s).0 (above (v.origin s).1)
              (v.set_cursor (v.cursor s).0 (above (v.cursor s).1) s))
        | false ↦ some (send_signal (move_up s))
      ]
    ]
  ]
