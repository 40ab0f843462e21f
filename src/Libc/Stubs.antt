-- ===== src/Libc/Stubs.antt =====
-- The stubs of libase/libc.c for the analyser: they fill a buffer with bytes that `rand_char` chooses,
-- and return what `rand_int` chooses.
use rtas2021_artifact.Base.{
  ℕ, zero, suc, ◌+◌, ◌^◌, ◌&&◌, Run, ok, halt, out_of_fuel, ◌>>=◌, [], ltb, if◌then◌else◌,
}
use rtas2021_artifact.Libc.{Memory, put_byte}

-- The memory, and how often each of the two was called.
pub record Stubs : Type 0 where
  pub mem : Memory
  pub chars : ℕ
  pub ints : ℕ

-- `rand_char i` and `rand_int i` are the values of their calls number `i`: an unsigned char, and the 32
-- bits of an int. `termios_size` is the size of a `struct termios`.
module _ (rand_char rand_int : ℕ → ℕ) (termios_size : ℕ) where
  -- `for(; ptr < end; ptr++) *ptr = rand_char();`
  unfoldable pub fill_loop : ℕ → (ptr end : ℕ) → Stubs → Run Stubs
  fill_loop zero ptr end s = out_of_fuel
  fill_loop (suc fuel) ptr end s =
      let rest =
        fill_loop fuel (ptr + 1) end
          (record s { mem = put_byte s.mem ptr (rand_char s.chars); chars = s.chars + 1 }) in
      if ltb ptr end then rest else ok s

  unfoldable pub next_int : Stubs → Run (ℕ × Stubs)
  next_int s = ok (rand_int s.ints, record s { ints = s.ints + 1 })

  unfoldable pub tcsetattr : (fd optional_actions termios_p : ℕ) → Stubs → Run (ℕ × Stubs)
  unfolding fill_loop next_int
  tcsetattr fd optional_actions termios_p s = do
    s' ← fill_loop (termios_size + 1) termios_p (termios_p + termios_size) s
    next_int s'

  unfoldable pub tcgetattr : (ft termios_p : ℕ) → Stubs → Run (ℕ × Stubs)
  unfolding fill_loop next_int
  tcgetattr ft termios_p s = do
    s' ← fill_loop (termios_size + 1) termios_p (termios_p + termios_size) s
    next_int s'

  -- A number that is negative or does not fit ends in `while(1)`.
  unfoldable pub snprintf : (str size format : ℕ) → Stubs → Run (ℕ × Stubs)
  unfolding fill_loop next_int
  snprintf str size format s = do
    s' ← fill_loop (size + 1) str (str + size) s
    (v, s'') ← next_int s'
    if ltb v (2 ^ 31) && ltb v size then ok (v, s'') else halt []
