-- ===== src/Terminal.antt =====
-- The VGA text terminal (educrtos/terminal.c). The static variables are a record; the screen
-- memory at 0xB8000 is a function of the index, and an access at 2000 or beyond is a fault.
pub mod Scroll
pub mod Bounds
pub mod Hex
use rtas2021_artifact.Base.{
  ℕ, zero, suc, ◌+◌, ◌-◌, ◌*◌, ◌/◌, ◌%◌, ◌^◌, Bool, true, false, List, [], ◌∷◌, bit_and, bit_or,
  ltb, leb, ◌==◌, if◌then◌else◌, Run, ok, halt, fault, ◌>>=◌, ◌>>◌, assert, codes,
}
use rtas2021_artifact.Bits.{◌<<<◌, ◌>>>◌, u8, u16, u32}

pub data VgaColor : Type 0 where
  black blue green cyan red magenta brown light_grey dark_grey light_blue light_green light_cyan
        light_red light_magenta light_brown white :
      VgaColor

pub color_code : VgaColor → ℕ
color_code black = 0
color_code blue = 1
color_code green = 2
color_code cyan = 3
color_code red = 4
color_code magenta = 5
color_code brown = 6
color_code light_grey = 7
color_code dark_grey = 8
color_code light_blue = 9
color_code light_green = 10
color_code light_cyan = 11
color_code light_red = 12
color_code light_magenta = 13
color_code light_brown = 14
color_code white = 15

pub vga_entry_color : VgaColor → VgaColor → ℕ
unfolding color_code
vga_entry_color fg bg = u8 (bit_or (color_code fg) (color_code bg <<< 4))

pub vga_entry : ℕ → ℕ → ℕ
vga_entry uc color = u16 (bit_or (u16 uc) (u16 color <<< 8))

abbrev pub vga_width : ℕ
vga_width = 80

abbrev pub vga_height : ℕ
vga_height = 25

pub record Terminal : Type 0 where
  pub row : ℕ
  pub column : ℕ
  pub color : ℕ
  pub buffer : ℕ → ℕ

-- `terminal_buffer[i]`, read and written.
pub peek : ℕ → Terminal → Run ℕ
peek i t = if ltb i (vga_width * vga_height) then ok (t.buffer i) else fault

pub poke : ℕ → ℕ → Terminal → Run Terminal
poke i v t =
    if ltb i (vga_width * vga_height)
    then ok (record t { buffer = λ j. if j == i then v else t.buffer j })
    else fault

-- `for (i = first; i < first + rounds; i++) terminal_buffer[i] = v;`
pub fill : ℕ → ℕ → ℕ → Terminal → Run Terminal
unfolding poke
fill zero first v t = ok t
fill (suc rounds) first v t = do t' ← poke first v t; fill rounds (first + 1) v t'

-- The inner loop over the columns of row `y`, and the loop over the rows.
pub clear_rows : ℕ → ℕ → Terminal → Run Terminal
clear_rows zero y t = ok t
clear_rows (suc rounds) y t = do
  t' ← fill vga_width (y * vga_width) (vga_entry b' ' t.color) t
  clear_rows rounds (y + 1) t'

pub terminal_initialize : Terminal → Run Terminal
terminal_initialize t =
    clear_rows vga_height 0
      (record t { row = 0; column = 0; color = vga_entry_color light_grey black })

pub terminal_setcolor : ℕ → Terminal → Terminal
terminal_setcolor color t = record t { color = u8 color }

-- The second test is the inline assembly `cmp; jae error_infinite_loop`, which prints nothing.
pub terminal_putentryat : ℕ → ℕ → ℕ → ℕ → Terminal → Run Terminal
terminal_putentryat c color x y t = do
  let index = u32 (y * vga_width + x)
  assert (leb index (vga_width * vga_height - 1))
      (codes "Assertion index <= VGA_WIDTH*VGA_HEIGHT-1 failed")
  assert (ltb index 0x7d0) []
  poke index (vga_entry (u8 c) color) t

-- `for (i = first; i < first + rounds; i++) terminal_buffer[i] = terminal_buffer[i + VGA_WIDTH];`
pub copy_up : ℕ → ℕ → Terminal → Run Terminal
unfolding peek poke
copy_up zero i t = ok t
copy_up (suc rounds) i t = do v ← peek (i + vga_width) t; t' ← poke i v t; copy_up rounds (i + 1) t'

-- One row up, and a blank last row.
pub scroll : Terminal → Run Terminal
scroll t = do
  t' ← copy_up ((vga_height - 1) * vga_width) 0 t
  fill vga_width ((vga_height - 1) * vga_width) (vga_entry b' ' t'.color) t'

pub terminal_newline : Terminal → Run Terminal
terminal_newline t =
    let below = record t { column = 0; row = u32 (t.row + 1) } in
    if leb vga_height below.row
    then (do t' ← scroll below; ok (record t' { row = vga_height - 1 }))
    else ok below

pub terminal_putchar : ℕ → Terminal → Run Terminal
terminal_putchar c t = if c == b'\n' then terminal_newline t else do
  t' ← terminal_putentryat c t.color t.column t.row t
  let next = record t' { column = u32 (t'.column + 1) }
  if leb vga_width next.column then terminal_newline next else ok next

-- `terminal_write` and `terminal_writestring`, of a text that stands as the list of its bytes.
pub terminal_write : List ℕ → Terminal → Run Terminal
terminal_write [] t = ok t
terminal_write (c ∷ text) t = do t' ← terminal_putchar c t; terminal_write text t'

pub hexa_digit : ℕ → ℕ
hexa_digit n = if ltb n 10 then b'0' + n else b'a' - 10 + n

pub terminal_write_hexa_digit : ℕ → Terminal → Run Terminal
terminal_write_hexa_digit n t = terminal_putchar (u8 (hexa_digit n)) t

pub terminal_write_uint8 : ℕ → Terminal → Run Terminal
terminal_write_uint8 num t = do
  t' ← terminal_write_hexa_digit (bit_and num 15) t
  terminal_write_hexa_digit (num >>> 4) t'

-- The loop with `i` at `4 * rounds - 4` and falling to 0.
pub uint32_digits : ℕ → ℕ → Terminal → Run Terminal
uint32_digits zero num t = ok t
uint32_digits (suc rounds) num t = do
  t' ← terminal_write_hexa_digit (bit_and (num >>> (4 * rounds)) 15) t
  uint32_digits rounds num t'

pub terminal_write_uint32 : ℕ → Terminal → Run Terminal
terminal_write_uint32 num t = uint32_digits 8 num t
