-- ===== src/Tests/IntBuiltins.antt =====
-- Examples of the theorems on libase/utils/int_builtins_c.c, with a count of leading zeroes.
use native.Mathlib.Nat.{pow-suc}
use rtas2021_artifact.Base.{
  ℕ, zero, suc, ◌+◌, ◌-◌, ◌^◌, ◌<◌, ◌≤◌, ◌≡◌, arith, leb, if◌then◌else◌, Bool-cases, inl, inr, ok,
  fault, Returns,
}
use rtas2021_artifact.IntBuiltins.{
  caml_int_builtin_log2, caml_int_builtin_log2_untagged, caml_int_builtin_highest_bit,
  caml_int_builtin_highest_bit_untagged,
}
use rtas2021_artifact.IntBuiltins.Floor.{IsLogarithm, IsTopBit, CountsZeroes, highest_bit-IsTopBit}
use rtas2021_artifact.IntBuiltins.Truncated.{log2-truncated}

abbrev zeroes_below : ℕ → ℕ → ℕ
zeroes_below zero v = 64
zeroes_below (suc n) v = let rest = zeroes_below n v in if leb (2 ^ n) v then 63 - n else rest

abbrev leading_zeroes : ℕ → ℕ
leading_zeroes v = zeroes_below 64 v

zeroes_below-IsLogarithm :
    (n v : ℕ)
    → n ≤ 64
    → 0 < v
    → v < 2 ^ n
    → (zeroes_below n v < 64) × IsLogarithm v (63 - zeroes_below n v)
zeroes_below-IsLogarithm zero v few pos high = absurd (omega arith)
zeroes_below-IsLogarithm (suc n) v few pos high = elim (Bool-cases (leb (2 ^ n) v)) [
  | inl reaches ↦
      let at : 63 - (63 - n) ≡ n = omega arith in
      rw (reaches, at)
        (omega arith, record { low = ground (arith, reaches); high = omega (arith, pow-suc 2 n) })
  | inr below ↦ rw below (zeroes_below-IsLogarithm n v (omega arith) pos (ground (arith, below)))
]

leading_zeroes-CountsZeroes : CountsZeroes leading_zeroes
leading_zeroes-CountsZeroes = record {
  short = λ v pos high. (zeroes_below-IsLogarithm 64 v (omega arith) pos high).0;
  first = λ v pos high. (zeroes_below-IsLogarithm 64 v (omega arith) pos high).1;
}

highest_bit-IsTopBit_example :
    Returns (IsLogarithm 100) (caml_int_builtin_log2 leading_zeroes 201)
    × Returns (IsTopBit 100) (caml_int_builtin_highest_bit leading_zeroes 201)
    × Returns (IsLogarithm 100) (caml_int_builtin_log2_untagged leading_zeroes 100)
    × Returns (IsTopBit 100) (caml_int_builtin_highest_bit_untagged leading_zeroes 100)
highest_bit-IsTopBit_example =
    highest_bit-IsTopBit leading_zeroes leading_zeroes-CountsZeroes 100 (omega arith) (omega arith)

-- Of 2 ^ 40.
log2-truncated_example :
    (caml_int_builtin_log2 leading_zeroes (2 ^ 41 + 1) ≡ ok (2 ^ 64 - 1))
    × (caml_int_builtin_highest_bit leading_zeroes (2 ^ 41 + 1) ≡ fault)
    × (caml_int_builtin_log2_untagged leading_zeroes (2 ^ 41) ≡ fault)
log2-truncated_example = log2-truncated leading_zeroes leading_zeroes-CountsZeroes 512
