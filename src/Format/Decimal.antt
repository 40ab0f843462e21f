-- ===== src/Format/Decimal.antt =====
-- Decimal conversions (itoa and lltoa of educrtos/lib/fprint.c) and the number that a text stands
-- for.
use mathlib.Core.Path.{subst}
use native.Mathlib.Nat.{pow-suc}
use rtas2021_artifact.Base.{
  ℕ, zero, suc, ◌+◌, ◌-◌, ◌*◌, ◌/◌, ◌^◌, ◌≤◌, ◌<◌, ◌≡◌, refl, ◌∙◌, ap, true, false, List, [], ◌∷◌,
  arith, ltb, length, ◌==◌, Bool-cases, inl, inr, ok, ◌>>=◌, ◌++◌, Returns, returns, weaken,
}
use rtas2021_artifact.Bits.{u32}
use rtas2021_artifact.Format.{decimal_loop, itoa, lltoa}

-- The number that decimal digits stand for, behind the digits of `acc`.
pub decimal_value : ℕ → List ℕ → ℕ
decimal_value acc [] = acc
decimal_value acc (c ∷ text) = decimal_value (acc * 10 + (c - b'0')) text

-- All characters are decimal digits.
abbrev pub AreDigits : List ℕ → Type 0
AreDigits [] = Unit
AreDigits (c ∷ text) = (b'0' ≤ c) × (c ≤ b'9') × AreDigits text

-- A text of at most `most` digits that stands for `number`.
pub record IsDecimal (most number : ℕ) (text : List ℕ) : Type 0 where
  pub digits : AreDigits text
  pub short : length text ≤ most
  pub value : decimal_value 0 text ≡ number

record Extends (fuel number : ℕ) (lbuf text : List ℕ) : Type 0 where
  digits : AreDigits text
  short : length text ≤ fuel + length lbuf
  value : decimal_value 0 text ≡ decimal_value number lbuf

decimal_loop-Extends :
    (fuel number : ℕ) (lbuf : List ℕ)
    → number < 10 ^ fuel
    → AreDigits lbuf
    → Returns (Extends fuel number lbuf) (decimal_loop (suc fuel) number lbuf)
unfolding decimal_loop decimal_value
decimal_loop-Extends zero number lbuf h d = rw none_left (
    returns
      (record { digits = d; short = omega arith; value = ap (λ n. decimal_value n lbuf) is_zero }))
  where
    is_zero : 0 ≡ number
    is_zero = omega arith

    none_left : (number == 0) ≡ true
    none_left = ground arith
decimal_loop-Extends (suc fuel) number lbuf h d = elim (Bool-cases (number == 0)) [
  | inl done ↦ rw done (
      returns (record {
        digits = d;
        short = omega arith;
        value = ap (λ n. decimal_value n lbuf) (is_zero done);
      }))
  | inr more ↦ rw more (
      weaken
        (decimal_loop-Extends fuel (number / 10) (last_digit ∷ lbuf)
          (omega (arith, pow-suc 10 fuel)) (omega arith, omega arith, d))
        λ text e. record {
          digits = e.digits;
          short = omega (arith, e.short);
          value = e.value ∙ ap (λ n. decimal_value n lbuf) joined;
        })
]
  where
    last_digit : ℕ
    last_digit = b'0' + (number - number / 10 * 10)

    is_zero : (number == 0) ≡ true → 0 ≡ number
    is_zero done = ground arith

    joined : number / 10 * 10 + (last_digit - b'0') ≡ number
    joined = omega arith

decimal_loop-IsDecimal :
    (fuel number : ℕ)
    → number < 10 ^ fuel
    → Returns (IsDecimal fuel number) (decimal_loop (suc fuel) number [])
unfolding decimal_value
decimal_loop-IsDecimal fuel number h =
    weaken (decimal_loop-Extends fuel number [] h tt)
      λ text e. record { digits = e.digits; short = omega (arith, e.short); value = e.value }

zero_text : (most : ℕ) → 1 ≤ most → IsDecimal most 0 (b'0' ∷ [])
unfolding decimal_value
zero_text most h = record {
  digits = (omega arith, omega arith, tt);
  short = omega arith;
  value = refl;
}

-- For every 64-bit number `lltoa` returns a text of at most 20 decimal digits, which fits its buffer
-- of 22, and which reads back as the number.
pub lltoa-IsDecimal : (number : ℕ) → number < 2 ^ 64 → Returns (IsDecimal 20 number) (lltoa number)
unfolding lltoa
lltoa-IsDecimal number h = elim (Bool-cases (number == 0)) [
  | inl nought ↦ rw nought (
      returns (subst (λ n. IsDecimal 20 n (b'0' ∷ [])) (ground arith) (zero_text 20 (omega arith))))
  | inr more ↦ rw more (decimal_loop-IsDecimal 20 number (omega arith))
]

-- For every 32-bit number that is not negative `itoa` returns a text of at most 10 decimal digits
-- that reads back as the number, whatever was on the stack.
pub itoa-IsDecimal :
    (junk number : ℕ) → number < 2 ^ 31 → Returns (IsDecimal 10 number) (itoa junk number)
unfolding itoa
itoa-IsDecimal junk number h = rw positive (elim (Bool-cases (number == 0)) [
  | inl nought ↦ rw nought (
      returns
        (subst (λ n. IsDecimal 10 n (b'0' ∷ [])) (is_zero nought) (zero_text 10 (omega arith))))
  | inr more ↦ rw more (decimal_loop-IsDecimal 10 number (omega arith))
])
  where
    positive : ltb number (2 ^ 31) ≡ true
    positive = ground arith

    is_zero : (number == 0) ≡ true → 0 ≡ number
    is_zero e = ground arith

decimal_loop-append :
    (fuel number : ℕ) (xs ys : List ℕ)
    → decimal_loop fuel number (xs ++ ys)
      ≡ (decimal_loop fuel number xs >>= λ text. ok (text ++ ys))
unfolding decimal_loop
decimal_loop-append zero number xs ys = refl
decimal_loop-append (suc fuel) number xs ys = elim (Bool-cases (number == 0)) [
  | inl done ↦ rw done refl
  | inr more ↦
      rw more
        (decimal_loop-append fuel (number / 10) ((b'0' + (number - number / 10 * 10)) ∷ xs) ys)
]

-- For a negative 32-bit number other than the least, `itoa` returns the text of its magnitude, with no
-- sign, and behind it the byte that was on the stack.
pub itoa-negative :
    (junk number : ℕ)
    → 2 ^ 31 < number
    → number < 2 ^ 32
    → itoa junk number ≡ (itoa junk (2 ^ 32 - number) >>= λ text. ok (text ++ junk ∷ []))
unfolding itoa
itoa-negative junk number low high =
    rw (negative, magnitude, smaller, nonzero)
      (decimal_loop-append 11 (2 ^ 32 - number) [] (junk ∷ []))
  where
    negative : ltb number (2 ^ 31) ≡ false
    negative = ground arith

    magnitude : u32 (2 ^ 32 - number) ≡ 2 ^ 32 - number
    magnitude = omega arith

    smaller : ltb (2 ^ 32 - number) (2 ^ 31) ≡ true
    smaller = ground arith

    nonzero : (2 ^ 32 - number == 0) ≡ false
    nonzero = ground arith
