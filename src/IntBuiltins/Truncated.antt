-- ===== src/IntBuiltins/Truncated.antt =====
-- The logarithm of libase/utils/int_builtins_c.c where the argument of `clz` is cut to 32 bits.
use native.Mathlib.Nat.{pow-suc, one-le-pow}
use rtas2021_artifact.Base.{ℕ, zero, suc, ◌+◌, ◌-◌, ◌*◌, ◌^◌, ◌≡◌, refl, arith, ok, fault}
use rtas2021_artifact.Bits.{u32}
use rtas2021_artifact.IntBuiltins.{
  clz, inline_caml_int_builtin_log2, caml_int_builtin_log2, caml_int_builtin_log2_untagged,
  caml_int_builtin_highest_bit, shift_one,
}
use rtas2021_artifact.IntBuiltins.Floor.{IsLogarithm, CountsZeroes}

no_logarithm : (l : ℕ) → IsLogarithm 1 l → l ≡ 0
no_logarithm zero log = refl
no_logarithm (suc l) log =
    absurd (omega (arith, log.low, pow-suc 2 l, one-le-pow l 2 (omega arith)))

module _ (builtin_clzll : ℕ → ℕ) (counts : CountsZeroes builtin_clzll) where
  one_zeroes : builtin_clzll 1 ≡ 63
  one_zeroes = omega (
    arith,
    counts.short 1 (omega arith) (omega arith),
    no_logarithm _ (counts.first 1 (omega arith) (omega arith)),
  )

  -- Of every multiple of 2 ^ 31, be it ever so large, `log2` returns what it returns of 0: all bits
  -- set, which is -1. The highest bit of such a number is asked of a shift by that much, which is
  -- undefined; and the count of zeroes for the untagged logarithm of a multiple of 2 ^ 32 is undefined.
  pub log2-truncated :
      (m : ℕ)
      → (caml_int_builtin_log2 builtin_clzll (2 * (m * 2 ^ 31) + 1) ≡ ok (2 ^ 64 - 1))
        × (caml_int_builtin_highest_bit builtin_clzll (2 * (m * 2 ^ 31) + 1) ≡ fault)
        × (caml_int_builtin_log2_untagged builtin_clzll (m * 2 ^ 32) ≡ fault)
  unfolding caml_int_builtin_log2 caml_int_builtin_highest_bit inline_caml_int_builtin_log2
      caml_int_builtin_log2_untagged clz shift_one
  log2-truncated m =
      let one : u32 (2 * (m * 2 ^ 31) + 1) ≡ 1 = omega arith in
      let none : u32 (m * 2 ^ 32) ≡ 0 = omega arith in rw (one, none, one_zeroes) (refl, refl, refl)
