-- ===== src/Bits/Digit.antt =====
-- The lowest binary digit of `&` and `|`. The native operations are recursions on the digits that
-- count down from their first number; any larger count gives the same.
use Prim.Native.Nat.{min, max, digits, bit_and-bitwise, bit_or-bitwise}
use native.Mathlib.Decide.{dec_le}
use rtas2021_artifact.Base.{
  bit_or, bit_and, arith, ◌∙◌, refl, ◌≡◌, ◌≤◌, ◌%◌, ◌/◌, ◌*◌, ◌+◌, suc, zero, ℕ,
}

module _ (g : (x y : ℕ) → ℕ) (rest : (y : ℕ) → ℕ) where
  -- One count more changes nothing from `a` on, so all counts from `a` on agree.
  digits-more : (n a b : ℕ) → a ≤ n → digits rest g (suc n) a b ≡ digits rest g n a b
  digits-more zero zero b h = refl
  digits-more zero (suc a) b h = absurd (omega arith)
  digits-more (suc n) zero b h = refl
  digits-more (suc n) (suc a) b h = rw (digits-more n (suc a / 2) (b / 2) (omega arith))

  digits-count : (n a b : ℕ) → a ≤ n → digits rest g n a b ≡ digits rest g a a b
  digits-count zero zero b h = refl
  digits-count zero (suc a) b h = absurd (omega arith)
  digits-count (suc n) a b h = elim (dec_le a n) [
    | yes below ↦ digits-more n a b below ∙ digits-count n a b below
    | no at ↦ let e : suc n ≡ a = omega arith in rw e
  ]

  digits-suc :
      (a b : ℕ)
      → digits rest g (suc a) (suc a) b
        ≡ digits rest g (suc a / 2) (suc a / 2) (b / 2) * 2 + g (suc a % 2) (b % 2)
  digits-suc a b = rw (digits-count a (suc a / 2) (b / 2) (omega arith))

pub zero-bit_or : (b : ℕ) → bit_or 0 b ≡ b
zero-bit_or b = bit_or-bitwise 0 b

pub zero-bit_and : (b : ℕ) → bit_and 0 b ≡ 0
zero-bit_and b = bit_and-bitwise 0 b

pub bit_or-digit : (a b : ℕ) → bit_or a b ≡ bit_or (a / 2) (b / 2) * 2 + max (a % 2) (b % 2)
bit_or-digit zero b = omega (arith, zero-bit_or b, zero-bit_or (b / 2))
bit_or-digit (suc a) b =
    rw (bit_or-bitwise (suc a) b, bit_or-bitwise (suc a / 2) (b / 2)) (digits-suc max (λ y. y) a b)

pub bit_and-digit : (a b : ℕ) → bit_and a b ≡ bit_and (a / 2) (b / 2) * 2 + min (a % 2) (b % 2)
bit_and-digit zero b = omega (arith, zero-bit_and b, zero-bit_and (b / 2))
bit_and-digit (suc a) b =
    rw (bit_and-bitwise (suc a) b, bit_and-bitwise (suc a / 2) (b / 2))
      (digits-suc min (λ y. 0) a b)
