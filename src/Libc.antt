-- ===== src/Libc.antt =====
-- The C functions that libase/libc.c gives to the analyser: memcpy and memset. The memory holds bytes;
-- `int` has 32 bits and `size_t` is at least as wide.
pub mod Copied
pub mod Stubs
pub mod Filled
use rtas2021_artifact.Base.{
  ℕ, zero, suc, ◌+◌, ◌^◌, Run, ok, fault, out_of_fuel, ◌>>=◌, ltb, ◌==◌, if◌then◌else◌,
}
use rtas2021_artifact.Bits.{u8}

abbrev pub Memory : Type 0
Memory = ℕ → ℕ

unfoldable pub put_byte : Memory → ℕ → ℕ → Memory
put_byte m p v a = if a == p then v else m a

-- `i++` on an int; beyond the largest one it is undefined.
unfoldable pub next_index : ℕ → Run ℕ
next_index i = if i + 1 == 2 ^ 31 then fault else ok (i + 1)

-- `for(i = 0; i < n; i++) dest[i] = src[i]`, from `i` on.
unfoldable pub memcpy_loop : ℕ → (dest src n i : ℕ) → Memory → Run Memory
memcpy_loop zero dest src n i m = out_of_fuel
memcpy_loop (suc fuel) dest src n i m =
    if ltb i n
    then next_index i
      >>= (λ i'. memcpy_loop fuel dest src n i' (put_byte m (dest + i) (m (src + i))))
    else ok m

unfoldable pub memcpy : (dst source n : ℕ) → Memory → Run (ℕ × Memory)
memcpy dst source n m = do m' ← memcpy_loop (n + 1) dst source n 0 m; ok (dst, m')

-- `for(i = 0; i < n; i ++) dest[i] = c`, from `i` on.
unfoldable pub memset_loop : ℕ → (dest c n i : ℕ) → Memory → Run Memory
memset_loop zero dest c n i m = out_of_fuel
memset_loop (suc fuel) dest c n i m =
    if ltb i n
    then next_index i >>= (λ i'. memset_loop fuel dest c n i' (put_byte m (dest + i) (u8 c)))
    else ok m

unfoldable pub memset : (dst c n : ℕ) → Memory → Run (ℕ × Memory)
memset dst c n m = do m' ← memset_loop (n + 1) dst c n 0 m; ok (dst, m')
