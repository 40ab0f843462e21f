-- ===== src/IntBuiltins.antt =====
-- Logarithms and highest bits of OCaml's integers (libase/utils/int_builtins_c.c), on a machine of 64
-- bits. An OCaml integer `n` is the value `2 * n + 1`.
pub mod Floor
pub mod Truncated
use rtas2021_artifact.Base.{ℕ, ◌+◌, ◌-◌, ◌^◌, ltb, ◌==◌, if◌then◌else◌, Run, ok, fault, ◌>>=◌}
use rtas2021_artifact.Bits.{◌<<<◌, u32, u64}

-- `8 * sizeof(value)`.
abbrev pub value_bits : ℕ
value_bits = 64

-- `1 << n` on an int: a shift that reaches the sign bit is undefined.
unfoldable pub shift_one : ℕ → Run ℕ
shift_one n = if ltb n 31 then ok (1 <<< n) else fault

-- `builtin_clzll` is the compiler's count of leading zeroes, which is undefined at 0.
module _ (builtin_clzll : ℕ → ℕ) where
  -- The argument is converted to an unsigned int.
  unfoldable pub clz : ℕ → Run ℕ
  clz v = if u32 v == 0 then fault else ok (builtin_clzll (u32 v))

  unfoldable pub inline_caml_int_builtin_log2 : ℕ → Run ℕ
  inline_caml_int_builtin_log2 i = do n ← clz i; ok (u64 (value_bits + 2 ^ 64 - 2 - n))

  unfoldable pub caml_int_builtin_log2 : ℕ → Run ℕ
  unfolding inline_caml_int_builtin_log2
  caml_int_builtin_log2 i = inline_caml_int_builtin_log2 i

  unfoldable pub caml_int_builtin_log2_untagged : ℕ → Run ℕ
  caml_int_builtin_log2_untagged i = do n ← clz i; ok (u64 (value_bits + 2 ^ 64 - 1 - n))

  unfoldable pub caml_int_builtin_highest_bit : ℕ → Run ℕ
  unfolding inline_caml_int_builtin_log2
  caml_int_builtin_highest_bit i = inline_caml_int_builtin_log2 i >>= shift_one

  unfoldable pub caml_int_builtin_highest_bit_untagged : ℕ → Run ℕ
  unfolding caml_int_builtin_log2_untagged
  caml_int_builtin_highest_bit_untagged i = caml_int_builtin_log2_untagged i >>= shift_one

  -- For the bytecode, with the macro `Val_int` of OCaml's runtime.
  module _ (val_int : ℕ → ℕ) where
    unfoldable pub caml_int_builtin_log2_byte : ℕ → Run ℕ
    unfolding inline_caml_int_builtin_log2
    caml_int_builtin_log2_byte i = do n ← inline_caml_int_builtin_log2 i; ok (val_int n)

    unfoldable pub caml_int_builtin_highest_bit_byte : ℕ → Run ℕ
    unfolding inline_caml_int_builtin_log2
    caml_int_builtin_highest_bit_byte i = do
      n ← inline_caml_int_builtin_log2 i
      b ← shift_one n
      ok (val_int b)
