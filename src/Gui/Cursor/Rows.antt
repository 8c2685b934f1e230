-- ===== src/Gui/Cursor/Rows.antt =====
-- Where the keys of pkg/gui/transformation/keybindings.go leave the cursor.
use tmctl.Base.{
  ℕ, zero, suc, ◌+◌, ◌-◌, ◌≤◌, ◌<◌, String, Bool, true, false, Option, none, some, Result, ok, ◌==◌,
  if◌then◌else◌, String_eq, ◌⊎◌, ltb, ◌≡◌, refl, ap, ◌∙◌, Bool-cases, inl, inr, arith,
}
use native.Mathlib.Decide.{dec_lt}
use tmctl.Gui.Cursor.{View, above, move_down, move_up, cursor_down, cursor_up}
use tmctl.Kubernetes.Value.{pos, negsuc}

-- The line before a row, which the first one does not have.
abbrev pub before : (ℕ → Option String) → ℕ → Option String
before text zero = none
before text (suc n) = text n

-- What a view does: it shows so many rows of its text, from the origin on, and takes a cursor on
-- these rows only.
pub record IsLawful (v : View) : Type 0 where
  pub text : v.State → ℕ → Option String
  pub height : v.State → ℕ
  pub line-below : (s : v.State) (n : ℕ) → v.line s (pos n) ≡ text s ((v.origin s).1 + n)
  pub line-above : (s : v.State) → v.line s (negsuc 0) ≡ before (text s) (v.origin s).1
  pub set_cursor-inside :
      (s : v.State) (n : ℕ)
      → n < height s
      → (s' : v.State) × (v.set_cursor (v.cursor s).0 (pos n) s ≡ (none, s'))
        × (v.cursor s' ≡ ((v.cursor s).0, n))
        × (v.origin s' ≡ v.origin s)
        × (text s' ≡ text s)
        × (height s' ≡ height s)
  pub set_cursor-below :
      (s : v.State) (n : ℕ)
      → height s ≤ n
      → (e : String) × (v.set_cursor (v.cursor s).0 (pos n) s ≡ (some e, s))
  pub set_cursor-above :
      (s : v.State) → (e : String) × (v.set_cursor (v.cursor s).0 (negsuc 0) s ≡ (some e, s))
  pub set_origin-inside :
      (s : v.State) (n : ℕ)
      → (s' : v.State) × (v.set_origin (v.origin s).0 (pos n) s ≡ (none, s'))
        × (v.origin s' ≡ ((v.origin s).0, n))
        × (v.cursor s' ≡ v.cursor s)
        × (text s' ≡ text s)
        × (height s' ≡ height s)

abbrev pub has_text : Option String → Bool
has_text none = false
has_text (some l) = if l == "" then false else true

below_suc : (m : ℕ) → ltb 0 (suc m) ≡ true
below_suc m = ground arith

module _ (v : View) (w : IsLawful v) where
  open w use {text, height}

  -- The line of the text that the cursor is on.
  abbrev pub row : v.State → ℕ
  row s = (v.origin s).1 + (v.cursor s).1

  -- The cursor is on a row that the view shows.
  abbrev pub Visible : v.State → Type 0
  Visible s = (v.cursor s).1 < height s

  -- The second state shows the same text in the same rows, and the cursor is visible on the row `n`.
  pub record At (s s' : v.State) (n : ℕ) : Type 0 where
    pub on : row s' ≡ n
    pub visible : Visible s'
    pub same_text : text s' ≡ text s
    pub same_height : height s' ≡ height s

  pub le_or_lt : (a b : ℕ) → (a < b) ⊎ (b ≤ a)
  le_or_lt a b = elim (dec_lt a b) [ yes h ↦ inl h | no h ↦ inr (omega arith) ]

  pub move_down-At :
      (s : v.State)
      → Visible s
      → (s' : v.State) × (move_down v s ≡ (ok tt, s')) × At s s' (row s + 1)
  unfolding move_down
  move_down-At s i = elim (le_or_lt ((v.cursor s).1 + 1) (height s)) [
    | inl h ↦
        let (s', e, c, o, t, k) = w.set_cursor-inside s ((v.cursor s).1 + 1) h in
        (
          s',
          rw (e, move_down) refl,
          record {
            on = ap (λ p. p.1 + (v.cursor s').1) o ∙ ap (λ p. (v.origin s).1 + p.1) c ∙ omega arith;
            visible = rw (k, c) h;
            same_text = t;
            same_height = k;
          },
        )
    | inr h ↦
        let (e, q) = w.set_cursor-below s ((v.cursor s).1 + 1) h in
        let (s', r, o, c, t, k) = w.set_origin-inside s ((v.origin s).1 + 1) in
        (
          s',
          rw (q, move_down) (rw (r, move_down) refl),
          record {
            on =
                ap (λ p. p.1 + (v.cursor s').1) o
                ∙ ap (λ p. (v.origin s).1 + 1 + p.1) c
                ∙ omega arith;
            visible = rw (k, c) i;
            same_text = t;
            same_height = k;
          },
        )
  ]

  At-self : (s : v.State) → Visible s → At s s (row s)
  At-self s i = record { on = refl; visible = i; same_text = refl; same_height = refl }

  move_up-At_parts :
      (s : v.State) (cy oy : ℕ)
      → (v.cursor s).1 ≡ cy
      → (v.origin s).1 ≡ oy
      → Visible s
      → (s' : v.State) × (move_up v s ≡ (ok tt, s')) × At s s' (row s - 1)
  unfolding move_up
  move_up-At_parts s (suc n) oy c o i =
      let (s', e, c', o', t, k) = w.set_cursor-inside s n (omega arith) in
      (
        s',
        rw (c, move_up) (rw (e, move_up) refl),
        record {
          on = ap (λ p. p.1 + (v.cursor s').1) o' ∙ ap (λ p. (v.origin s).1 + p.1) c' ∙ omega arith;
          visible = rw (k, c') (omega arith);
          same_text = t;
          same_height = k;
        },
      )
  move_up-At_parts s zero (suc m) c o i =
      let (e, q) = w.set_cursor-above s in
      let (s', r, o', c', t, k) = w.set_origin-inside s m in
      (
        s',
        rw (c, move_up) (rw (o, q) (rw (r, below_suc m) refl)),
        record {
          on = ap (λ p. p.1 + (v.cursor s').1) o' ∙ ap (λ p. m + p.1) c' ∙ omega arith;
          visible = rw (k, c') i;
          same_text = t;
          same_height = k;
        },
      )
  move_up-At_parts s zero zero c o i =
      let (e, q) = w.set_cursor-above s in
      (
        s,
        rw (c, move_up) (rw (o, q) refl),
        record { on = omega arith; visible = i; same_text = refl; same_height = refl },
      )

  move_up-At :
      (s : v.State) → Visible s → (s' : v.State) × (move_up v s ≡ (ok tt, s')) × At s s' (row s - 1)
  move_up-At s i = move_up-At_parts s (v.cursor s).1 (v.origin s).1 refl refl i

  pub line-next : (s : v.State) → v.line s (pos ((v.cursor s).1 + 1)) ≡ text s (row s + 1)
  line-next s = w.line-below s ((v.cursor s).1 + 1) ∙ ap (text s) (omega arith)

  line-previous_parts :
      (s : v.State) (cy : ℕ)
      → (v.cursor s).1 ≡ cy
      → v.line s (above cy) ≡ before (text s) ((v.origin s).1 + cy)
  line-previous_parts s zero c = w.line-above s ∙ ap (before (text s)) (omega arith)
  line-previous_parts s (suc n) c =
      w.line-below s n ∙ ap (before (text s)) (sucs ((v.origin s).1) n)
    where
      sucs : (a n : ℕ) → suc (a + n) ≡ a + suc n
      sucs a n = omega arith

  line-previous : (s : v.State) → v.line s (above (v.cursor s).1) ≡ before (text s) (row s)
  line-previous s = line-previous_parts s (v.cursor s).1 refl

  -- The row below, or above, is reached exactly if it has a text.
  abbrev pub next_row : v.State → ℕ
  next_row s = if has_text (text s (row s + 1)) then row s + 1 else row s

  abbrev pub previous_row : v.State → ℕ
  previous_row s = if has_text (before (text s) (row s)) then row s - 1 else row s

  abbrev Moved : Result (Unit {0}) × v.State → v.State → ℕ → Type 0
  Moved r s n = (s' : v.State) × (r ≡ (ok tt, s')) × At s s' n

  cursor_down-At :
      (s : v.State) (l : Option String)
      → v.line s (pos ((v.cursor s).1 + 1)) ≡ l
      → Visible s
      → Moved (cursor_down v s) s (if has_text l then row s + 1 else row s)
  unfolding cursor_down
  cursor_down-At s none e i = (s, rw (e, cursor_down) refl, At-self s i)
  cursor_down-At s (some l) e i = elim (Bool-cases (l == "")) [
    | inl q ↦ (s, rw (e, cursor_down) (rw q refl), rw q (At-self s i))
    | inr q ↦ let (s', m, at) = move_down-At s i in (s', rw (e, cursor_down) (rw q m), rw q at)
  ]

  cursor_up-At :
      (s : v.State) (l : Option String)
      → v.line s (above (v.cursor s).1) ≡ l
      → Visible s
      → Moved (cursor_up v s) s (if has_text l then row s - 1 else row s)
  unfolding cursor_up
  cursor_up-At s none e i = (s, rw (e, cursor_up) refl, At-self s i)
  cursor_up-At s (some l) e i = elim (Bool-cases (l == "")) [
    | inl q ↦ (s, rw (e, cursor_up) (rw q refl), rw q (At-self s i))
    | inr q ↦ let (s', m, at) = move_up-At s i in (s', rw (e, cursor_up) (rw q m), rw q at)
  ]

  -- In a view that obeys its laws and shows the cursor: the keys for down and up never fail, keep
  -- the cursor on a row that is shown, scrolling where that is needed, change no line, and move it to
  -- the line below or above exactly where that one has a text.
  pub cursor_keys-At :
      (s : v.State)
      → Visible s
      → ((s' : v.State) × (cursor_down v s ≡ (ok tt, s')) × At s s' (next_row s))
        × ((s' : v.State) × (cursor_up v s ≡ (ok tt, s')) × At s s' (previous_row s))
  cursor_keys-At s i = (
    cursor_down-At s (text s (row s + 1)) (line-next s) i,
    cursor_up-At s (before (text s) (row s)) (line-previous s) i,
  )
