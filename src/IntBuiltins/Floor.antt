-- ===== src/IntBuiltins/Floor.antt =====
-- The logarithms and highest bits of libase/utils/int_builtins_c.c, where the count of leading zeroes
-- sees all of the number.
use native.Mathlib.Nat.{pow-suc, pow-le-pow_right}
use native.Mathlib.Decide.{dec_le}
use rtas2021_artifact.Base.{
  ℕ, zero, suc, ◌+◌, ◌-◌, ◌*◌, ◌^◌, ◌≤◌, ◌<◌, ◌≡◌, refl, true, arith, ltb, ok, Returns, returns,
  bind,
}
use rtas2021_artifact.Bits.{u32, u64}
use rtas2021_artifact.IntBuiltins.{
  clz, shift_one, inline_caml_int_builtin_log2, caml_int_builtin_log2,
  caml_int_builtin_log2_untagged, caml_int_builtin_highest_bit,
  caml_int_builtin_highest_bit_untagged,
}

-- `l` is the logarithm of `n`, rounded down.
pub record IsLogarithm (n l : ℕ) : Type 0 where
  pub low : 2 ^ l ≤ n
  pub high : n < 2 * 2 ^ l

-- `b` is the highest bit of `n`.
pub record IsTopBit (n b : ℕ) : Type 0 where
  pub place : ℕ
  pub power : b ≡ 2 ^ place
  pub low : b ≤ n
  pub high : n < 2 * b

-- What the compiler documents of `__builtin_clzll` on 64 bits: the highest of the bits of a number
-- that is not 0 is behind that many zeroes.
pub record CountsZeroes (builtin_clzll : ℕ → ℕ) : Type 0 where
  pub short : (v : ℕ) → 0 < v → v < 2 ^ 64 → builtin_clzll v < 64
  pub first : (v : ℕ) → 0 < v → v < 2 ^ 64 → IsLogarithm v (63 - builtin_clzll v)

halved :
    (n l c : ℕ)
    → 0 < n
    → c < 64
    → l ≡ 63 - c
    → IsLogarithm (2 * n + 1) l
    → IsLogarithm n (u64 (64 + 2 ^ 64 - 2 - c))
halved n zero c pos short e log = absurd (omega (arith, log.high))
halved n (suc l) c pos short e log =
    let at : u64 (64 + 2 ^ 64 - 2 - c) ≡ l = omega arith in
    rw at (record {
      low = omega (arith, pow-suc 2 l, log.low);
      high = omega (arith, pow-suc 2 l, log.high);
    })

small : (n l : ℕ) → n < 2 ^ 31 → IsLogarithm n l → l < 31
small n l h log = elim (dec_le 31 l) [
  | yes le ↦
      let raised : 2 ^ 31 ≤ 2 ^ l = pow-le-pow_right (omega arith) le in
      absurd (omega (arith, log.low, raised))
  | no gt ↦ omega (arith, gt)
]

module _ (builtin_clzll : ℕ → ℕ) (counts : CountsZeroes builtin_clzll) where
  clz-ok : (v : ℕ) → 0 < v → v < 2 ^ 32 → clz builtin_clzll v ≡ ok (builtin_clzll v)
  unfolding clz
  clz-ok v pos short = let same : u32 v ≡ v = omega arith in rw same (ground arith)

  pub log2-IsLogarithm :
      (n : ℕ)
      → 0 < n
      → n < 2 ^ 31
      → Returns (IsLogarithm n) (caml_int_builtin_log2 builtin_clzll (2 * n + 1))
  unfolding caml_int_builtin_log2 inline_caml_int_builtin_log2
  log2-IsLogarithm n pos short = rw (clz-ok (2 * n + 1) (omega arith) (omega arith)) (
      returns (
        halved n _ (builtin_clzll (2 * n + 1)) pos
          (counts.short (2 * n + 1) (omega arith) (omega arith)) refl
          (counts.first (2 * n + 1) (omega arith) (omega arith))))

  pub log2_untagged-IsLogarithm :
      (n : ℕ)
      → 0 < n
      → n < 2 ^ 32
      → Returns (IsLogarithm n) (caml_int_builtin_log2_untagged builtin_clzll n)
  unfolding caml_int_builtin_log2_untagged
  log2_untagged-IsLogarithm n pos short =
      let zeroes = counts.short n pos (omega arith) in
      let at : u64 (64 + 2 ^ 64 - 1 - builtin_clzll n) ≡ 63 - builtin_clzll n =
        omega (arith, zeroes) in
      rw (clz-ok n pos short, at) (returns (counts.first n pos (omega arith)))

  shift_one-IsTopBit : (n l : ℕ) → n < 2 ^ 31 → IsLogarithm n l → Returns (IsTopBit n) (shift_one l)
  unfolding shift_one
  shift_one-IsTopBit n l short log =
      let within : ltb l 31 ≡ true = let low = small n l short log in ground arith in
      rw within (
        returns (record {
          place = l;
          power = omega arith;
          low = omega (arith, log.low);
          high = omega (arith, log.high);
        }))

  -- For an OCaml integer from 1 to 2 ^ 31 - 1, `log2` returns its logarithm, rounded down, and
  -- `highest_bit` returns the highest power of 2 that it reaches; they do for the untagged number too.
  -- No count of zeroes is asked of 0, and no shift reaches the sign.
  pub highest_bit-IsTopBit :
      (n : ℕ)
      → 0 < n
      → n < 2 ^ 31
      → Returns (IsLogarithm n) (caml_int_builtin_log2 builtin_clzll (2 * n + 1))
        × Returns (IsTopBit n) (caml_int_builtin_highest_bit builtin_clzll (2 * n + 1))
        × Returns (IsLogarithm n) (caml_int_builtin_log2_untagged builtin_clzll n)
        × Returns (IsTopBit n) (caml_int_builtin_highest_bit_untagged builtin_clzll n)
  unfolding caml_int_builtin_highest_bit caml_int_builtin_highest_bit_untagged caml_int_builtin_log2
  highest_bit-IsTopBit n pos short =
      let tagged = log2-IsLogarithm n pos short in
      let untagged = log2_untagged-IsLogarithm n pos (omega arith) in
      (
        tagged,
        bind tagged λ l log. shift_one-IsTopBit n l short log,
        untagged,
        bind untagged λ l log. shift_one-IsTopBit n l short log,
      )
