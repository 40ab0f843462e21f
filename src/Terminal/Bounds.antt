-- ===== src/Terminal/Bounds.antt =====
-- The cursor and the screen under the operations of educrtos/terminal.c.
use rtas2021_artifact.Base.{
  ℕ, zero, suc, ◌+◌, ◌-◌, ◌*◌, ◌≤◌, ◌<◌, ◌≡◌, refl, ◌∙◌, ◌&&◌, true, false, List, [], ◌∷◌, arith,
  ltb, leb, ◌==◌, if◌then◌else◌, Bool-cases, inl, inr, ok, Returns, returns, weaken, bind,
}
use rtas2021_artifact.Bits.{u8, u32}
use rtas2021_artifact.Terminal.{
  Terminal, vga_width, vga_height, vga_entry, vga_entry_color, light_grey, black, terminal_newline,
  terminal_initialize, terminal_putentryat, terminal_putchar, terminal_write, poke, clear_rows,
}
use rtas2021_artifact.Terminal.Scroll.{Shows, scrolled, scroll-Shows, fill-Shows}

pub record IsOnScreen (t : Terminal) : Type 0 where
  pub row : t.row < vga_height
  pub column : t.column < vga_width

-- The cursor is at the start of the next line; if there was none, the lines have moved up.
pub record NewLine (t t' : Terminal) : Type 0 where
  pub row : t'.row ≡ (if ltb (t.row + 1) vga_height then t.row + 1 else vga_height - 1)
  pub column : t'.column ≡ 0
  pub color : t'.color ≡ t.color
  pub cell :
      (j : ℕ) → t'.buffer j ≡ (if ltb (t.row + 1) vga_height then t.buffer j else scrolled t j)

-- A new line goes to the start of the next row, and on the last row moves the screen up instead.
pub terminal_newline-NewLine :
    (t : Terminal) → t.row < vga_height → Returns (NewLine t) (terminal_newline t)
unfolding terminal_newline
terminal_newline-NewLine t h = elim (Bool-cases (leb vga_height (u32 (t.row + 1)))) [
  | inl last ↦ rw last (
      bind (scroll-Shows _) λ t' s. returns (record {
        row = ground arith;
        column = s.column;
        color = s.color;
        cell = λ j. ground (arith, s.cell j);
      }))
  | inr room ↦ rw room (
      returns
        (record { row = ground arith; column = refl; color = refl; cell = λ j. ground arith }))
]

-- The terminal with a character at the cursor.
abbrev pub with_char : ℕ → Terminal → Terminal
with_char c t = record t {
  buffer = λ j. if j == t.row * vga_width + t.column then vga_entry (u8 c) t.color else t.buffer j;
}

-- The effect of one character.
abbrev pub Printed : ℕ → Terminal → Terminal → Type 0
Printed c t t' =
    if c == b'\n'
    then NewLine t t'
    else if ltb (t.column + 1) vga_width
    then t' ≡ record (with_char c t) { column = t.column + 1 }
    else NewLine (with_char c t) t'

putentryat-ok :
    (c : ℕ) (t : Terminal)
    → IsOnScreen t
    → terminal_putentryat c t.color t.column t.row t ≡ ok (with_char c t)
unfolding terminal_putentryat poke
putentryat-ok c t v = rw (same, inside, below)
  where
    same : u32 (t.row * vga_width + t.column) ≡ t.row * vga_width + t.column
    same = omega (arith, v.row, v.column)

    inside : leb (t.row * vga_width + t.column) (vga_width * vga_height - 1) ≡ true
    inside = ground (arith, v.row, v.column)

    below : ltb (t.row * vga_width + t.column) 0x7d0 ≡ true
    below = ground (arith, v.row, v.column)

-- With the cursor on the screen a character is printed there: a line feed starts a new line, and
-- any other fills the cell under the cursor, and then starts a new line at the end of its row.
pub terminal_putchar-Printed :
    (c : ℕ) (t : Terminal) → IsOnScreen t → Returns (Printed c t) (terminal_putchar c t)
unfolding terminal_putchar
terminal_putchar-Printed c t v = elim (Bool-cases (c == b'\n')) [
  | inl feed ↦ rw feed (weaken (terminal_newline-NewLine t v.row) λ t' n. rw feed n)
  | inr other ↦
      rw (other, putentryat-ok c t v, step)
        (elim (Bool-cases (ltb (t.column + 1) vga_width)) [
          | inl room ↦ rw (le room) (returns (rw (other, room) refl))
          | inr end ↦ rw (gt end) (
              weaken
                (terminal_newline-NewLine (record (with_char c t) { column = t.column + 1 }) v.row)
                λ t' n.
                  rw (other, end)
                    (record { row = n.row; column = n.column; color = n.color; cell = n.cell }))
        ])
]
  where
    step : u32 (t.column + 1) ≡ t.column + 1
    step = omega (arith, v.column)

    le : ltb (t.column + 1) vga_width ≡ true → leb vga_width (t.column + 1) ≡ false
    le h = ground arith

    gt : ltb (t.column + 1) vga_width ≡ false → leb vga_width (t.column + 1) ≡ true
    gt h = ground arith

pub NewLine-IsOnScreen : (t t' : Terminal) → t.row < vga_height → NewLine t t' → IsOnScreen t'
NewLine-IsOnScreen t t' h n = ground (arith, n.row, n.column)

pub Printed-IsOnScreen : (c : ℕ) (t t' : Terminal) → IsOnScreen t → Printed c t t' → IsOnScreen t'
Printed-IsOnScreen c t t' v p = elim (Bool-cases (c == b'\n')) [
  | inl feed ↦ NewLine-IsOnScreen t t' v.row (rw feed at p)
  | inr other ↦ elim (Bool-cases (ltb (t.column + 1) vga_width)) [
    | inl room ↦
        let e = rw (other, room) at p in rw e (record { row = v.row; column = ground arith })
    | inr end ↦ NewLine-IsOnScreen (with_char c t) t' v.row (rw (other, end) at p)
  ]
]

-- Any text can be written when the cursor is on the screen: no assertion fails, no access leaves
-- the screen memory, and the cursor is on the screen again.
pub terminal_write-IsOnScreen :
    (text : List ℕ) (t : Terminal) → IsOnScreen t → Returns IsOnScreen (terminal_write text t)
unfolding terminal_write
terminal_write-IsOnScreen [] t v = returns v
terminal_write-IsOnScreen (c ∷ text) t v =
    bind (terminal_putchar-Printed c t v)
      λ t' p. terminal_write-IsOnScreen text t' (Printed-IsOnScreen c t t' v p)

clear_rows-Shows :
    (n y : ℕ) (t : Terminal)
    → y + n ≤ vga_height
    → Returns
        (Shows t (λ j.
          if leb (y * vga_width) j && ltb j ((y + n) * vga_width)
          then vga_entry b' ' t.color
          else t.buffer j))
        (clear_rows n y t)
unfolding clear_rows
clear_rows-Shows zero y t h =
    returns (record { row = refl; column = refl; color = refl; cell = λ j. ground arith })
clear_rows-Shows (suc n) y t h =
    bind (fill-Shows vga_width (y * vga_width) (vga_entry b' ' t.color) t (omega arith)) λ t' f.
      weaken (clear_rows-Shows n (y + 1) t' (omega arith)) λ t'' s. record {
        row = s.row ∙ f.row;
        column = s.column ∙ f.column;
        color = s.color ∙ f.color;
        cell = λ j. ground (arith, f.cell j, s.cell j, f.color);
      }

-- The terminal starts with a blank screen and the cursor in the upper left corner.
pub terminal_initialize-blank :
    (t : Terminal)
    → Returns
        (λ t'.
          IsOnScreen t'
          × (t'.row ≡ 0)
          × (t'.column ≡ 0)
          × ((j : ℕ)
              → j < vga_width * vga_height
              → t'.buffer j ≡ vga_entry b' ' (vga_entry_color light_grey black)))
        (terminal_initialize t)
unfolding terminal_initialize
terminal_initialize-blank t = weaken (clear_rows-Shows vga_height 0 _ (omega arith)) λ t' s. (
  record { row = omega (arith, s.row); column = omega (arith, s.column) },
  s.row,
  s.column,
  λ j h. ground (arith, s.cell j),
)
