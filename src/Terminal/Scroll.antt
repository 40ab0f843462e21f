-- ===== src/Terminal/Scroll.antt =====
-- The screen after the loops of `terminal_initialize` and `terminal_newline`.
use rtas2021_artifact.Base.{
  ℕ, zero, suc, ◌+◌, ◌-◌, ◌*◌, ◌≤◌, ◌≡◌, refl, ◌∙◌, Bool, true, ◌&&◌, arith, ltb, leb,
  if◌then◌else◌, Returns, returns, weaken, bind,
}
use rtas2021_artifact.Terminal.{Terminal, vga_width, vga_height, vga_entry, fill, copy_up, scroll}

-- The cells are those of `cells`, and all else is as in `t`.
pub record Shows (t : Terminal) (cells : ℕ → ℕ) (t' : Terminal) : Type 0 where
  pub row : t'.row ≡ t.row
  pub column : t'.column ≡ t.column
  pub color : t'.color ≡ t.color
  pub cell : (j : ℕ) → t'.buffer j ≡ cells j

-- A run of `n` cells from `first` on.
abbrev pub within : ℕ → ℕ → ℕ → Bool
within first n j = leb first j && ltb j (first + n)

pub fill-Shows :
    (n first v : ℕ) (t : Terminal)
    → first + n ≤ vga_width * vga_height
    → Returns (Shows t (λ j. if within first n j then v else t.buffer j)) (fill n first v t)
unfolding fill
fill-Shows zero first v t h =
    returns (record { row = refl; column = refl; color = refl; cell = λ j. ground arith })
fill-Shows (suc n) first v t h = rw inside (
    weaken (fill-Shows n (first + 1) v _ (omega arith)) λ t' s. record {
      row = s.row;
      column = s.column;
      color = s.color;
      cell = λ j. ground (arith, s.cell j);
    })
  where
    inside : ltb first (vga_width * vga_height) ≡ true
    inside = ground arith

pub copy_up-Shows :
    (n i : ℕ) (t : Terminal)
    → i + n + vga_width ≤ vga_width * vga_height
    → Returns
        (Shows t (λ j. if within i n j then t.buffer (j + vga_width) else t.buffer j))
        (copy_up n i t)
unfolding copy_up
copy_up-Shows zero i t h =
    returns (record { row = refl; column = refl; color = refl; cell = λ j. ground arith })
copy_up-Shows (suc n) i t h =
    rw (below, inside)
      (weaken (copy_up-Shows n (i + 1) _ (omega arith)) λ t' s. record {
        row = s.row;
        column = s.column;
        color = s.color;
        cell = λ j. ground (arith, s.cell j);
      })
  where
    inside : ltb i (vga_width * vga_height) ≡ true
    inside = ground arith

    below : ltb (i + vga_width) (vga_width * vga_height) ≡ true
    below = ground arith

-- The cells after one line up: each row is the one below it, and the last row is blank.
abbrev pub scrolled : Terminal → ℕ → ℕ
scrolled t j =
    if ltb j ((vga_height - 1) * vga_width)
    then t.buffer (j + vga_width)
    else if ltb j (vga_height * vga_width)
    then vga_entry b' ' t.color
    else t.buffer j

pub scroll-Shows : (t : Terminal) → Returns (Shows t (scrolled t)) (scroll t)
unfolding scroll
scroll-Shows t = bind (copy_up-Shows ((vga_height - 1) * vga_width) 0 t (omega arith)) λ t' s.
    weaken
      (fill-Shows vga_width ((vga_height - 1) * vga_width) (vga_entry b' ' t'.color) t'
        (omega arith))
      λ t'' f. record {
        row = f.row ∙ s.row;
        column = f.column ∙ s.column;
        color = f.color ∙ s.color;
        cell = λ j. ground (arith, f.cell j, s.cell j, s.color);
      }
