-- ===== src/Gui/Cursor/Items.antt =====
-- The key for down in the lists of sources and targets of pkg/gui/transformation/keybindings.go.
use tmctl.Base.{
  ℕ, zero, suc, ◌+◌, ◌≤◌, ◌<◌, String, true, false, Option, none, some, Result, ok, err, panic,
  ◌==◌, String_eq, has_suffix, ◌≡◌, refl, ap, ◌∙◌, Bool-cases, inl, inr, arith,
}
use tmctl.Gui.Cursor.{View, Outcome, move_down, send_signal, past_header, cursor_down_items}
use tmctl.Gui.Cursor.Rows.{IsLawful, has_text, row, Visible, le_or_lt, move_down-At, line-next}
use tmctl.Kubernetes.Value.{pos}

module _ (v : View) (w : IsLawful v) where
  open w use {text, height}

  -- How the key ends. With a signal, the cursor has moved down to a line that has a text and is no
  -- header, and the signal is that line. Without one, the row below the cursor has no text. With an
  -- error, the cursor is on the last row that is shown and a header is below it.
  abbrev pub Landed : v.State → Result (Option String) → v.State → Type 0
  Landed s (ok (some l)) s' =
      (row v w s < row v w s')
      × (text s (row v w s') ≡ some l)
      × ((l == "") ≡ false)
      × (has_suffix l ":" ≡ false)
  Landed s (ok none) s' = (row v w s ≤ row v w s') × (has_text (text s (row v w s' + 1)) ≡ false)
  Landed s (err e) s' =
      (row v w s ≤ row v w s')
      × ((v.cursor s').1 + 1 ≡ height s')
      × ((l : String) × (text s (row v w s' + 1) ≡ some l) × (has_suffix l ":" ≡ true))
  Landed s panic s' = ⊥

  abbrev pub Ends : v.State → Option (Outcome v) → Type 0
  Ends s o =
      (r : Result (Option String)) × (s' : v.State) × (o ≡ some (r, s'))
      × Visible v w s'
      × Landed s r s'

  signal-Ends :
      (s : v.State) (l : String)
      → Visible v w s
      → text s (row v w s + 1) ≡ some l
      → (l == "") ≡ false
      → has_suffix l ":" ≡ false
      → Ends s (some (send_signal v (move_down v s)))
  unfolding send_signal
  signal-Ends s l i e n h =
      let (s', m, at) = move_down-At v w s i in
      let here : text s (row v w s') ≡ some l = ap (text s) at.on ∙ e in
      let line : v.line s' (pos (v.cursor s').1) ≡ some l =
        w.line-below s' (v.cursor s').1 ∙ ap (λ t. t (row v w s')) at.same_text ∙ here in
      (
        ok (some l),
        s',
        rw (m, send_signal) (rw (line, send_signal) refl),
        at.visible,
        (omega (arith, at.on), here, n, h),
      )

  -- What holds from the next row holds from this one.
  Landed-next :
      (s t s' : v.State) (r : Result (Option String))
      → row v w t ≡ row v w s + 1
      → text t ≡ text s
      → Landed t r s'
      → Landed s r s'
  Landed-next s t s' (ok (some l)) o e (a, b, n, h) = (omega arith, rw⁻¹ e b, n, h)
  Landed-next s t s' (ok none) o e (a, b) = (omega arith, rw⁻¹ e b)
  Landed-next s t s' (err z) o e (a, b, (l, c, d)) = (omega arith, b, (l, rw⁻¹ e c, d))
  Landed-next s t s' panic o e h = h

  -- A header below: it is passed over, with `again` for what comes after it, or the handler fails.
  header-Ends :
      (s : v.State) (l : String) (fuel : ℕ)
      → Visible v w s
      → height s < suc fuel + (v.cursor s).1
      → text s (row v w s + 1) ≡ some l
      → has_suffix l ":" ≡ true
      → ((t : v.State)
          → Visible v w t
          → height t < fuel + (v.cursor t).1
          → Ends t (cursor_down_items v fuel t))
      → Ends s (
          past_header v
            (cursor_down_items v fuel)
            (v.set_cursor (v.cursor s).0 (pos ((v.cursor s).1 + 1)) s))
  header-Ends s l fuel i f e q again = elim (le_or_lt v w ((v.cursor s).1 + 1) (height s)) [
    | inl h ↦
        let (t, m, c, o, x, k) = w.set_cursor-inside s ((v.cursor s).1 + 1) h in
        let cy : (v.cursor t).1 ≡ (v.cursor s).1 + 1 = ap (λ p. p.1) c in
        let oy : (v.origin t).1 ≡ (v.origin s).1 = ap (λ p. p.1) o in
        let (r, s', d, visible, landed) = again t (omega (arith, k, cy)) (omega (arith, k, cy)) in
        (r, s', rw m d, visible, Landed-next s t s' r (omega (arith, cy, oy)) x landed)
    | inr h ↦
        let (z, m) = w.set_cursor-below s ((v.cursor s).1 + 1) h in
        (err z, s, rw m refl, i, (omega arith, omega arith, (l, e, q)))
  ]

  step-Ends :
      (s : v.State) (l : Option String) (fuel : ℕ)
      → Visible v w s
      → height s < suc fuel + (v.cursor s).1
      → text s (row v w s + 1) ≡ l
      → ((t : v.State)
          → Visible v w t
          → height t < fuel + (v.cursor t).1
          → Ends t (cursor_down_items v fuel t))
      → Ends s (cursor_down_items v (suc fuel) s)
  unfolding cursor_down_items
  step-Ends s none fuel i f e again =
      (ok none, s, rw (line-next v w s ∙ e, cursor_down_items) refl, i, (omega arith, rw e refl))
  step-Ends s (some l) fuel i f e again =
      let line = line-next v w s ∙ e in
      elim (Bool-cases (l == "")) [
        | inl q ↦ (
          ok none,
          s,
          rw (line, cursor_down_items) (rw q refl),
          i,
          (omega arith, rw e (rw q refl)),
        )
        | inr q ↦ elim (Bool-cases (has_suffix l ":")) [
          | inl h ↦ rw (line, cursor_down_items) (rw (q, h) (header-Ends s l fuel i f e h again))
          | inr h ↦ rw (line, cursor_down_items) (rw (q, h) (signal-Ends s l i e q h))
        ]
      ]

  ends :
      (fuel : ℕ) (s : v.State)
      → Visible v w s
      → height s < fuel + (v.cursor s).1
      → Ends s (cursor_down_items v fuel s)
  ends zero s i f = absurd (omega arith)
  ends (suc fuel) s i f = step-Ends s (text s (row v w s + 1)) fuel i f refl (ends fuel)

  -- In a view that obeys its laws and shows the cursor, with fuel for each row that it shows: the key
  -- for down in the lists of sources and targets ends, with the cursor on a row that is shown, and
  -- either with a signal, when the cursor has moved down to a line with a text that is no header,
  -- and the signal is that line; or without one, when the row below the cursor has no text; or with an
  -- error, when the cursor is on the last row that is shown and a header is below it.
  pub cursor_down_items-Ends :
      (s : v.State) → Visible v w s → Ends s (cursor_down_items v (suc (height s)) s)
  cursor_down_items-Ends s i = ends (suc (height s)) s i (omega arith)
