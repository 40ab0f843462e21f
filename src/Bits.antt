-- ===== src/Bits.antt =====
-- `|`, `&` and shifts on fields of a word, as arithmetic, at every width.
mod Digit
use Digit.{bit_and-digit, bit_or-digit, zero-bit_and, zero-bit_or}
use mathlib.Core.Path.{ap}
use native.Mathlib.Nat.{pow-suc, one-le-pow}
use rtas2021_artifact.Base.{
  ℕ, zero, suc, ◌+◌, ◌-◌, ◌*◌, ◌/◌, ◌%◌, ◌^◌, ◌≤◌, ◌<◌, ◌≡◌, refl, arith, bit_and, bit_or, ◌∙◌,
}

infixl 75 ◌<<<◌ ◌>>>◌
abbrev pub ◌<<<◌ : ℕ → ℕ → ℕ
x <<< k = x * 2 ^ k

abbrev pub ◌>>>◌ : ℕ → ℕ → ℕ
x >>> k = x / 2 ^ k

-- The casts to unsigned widths.
abbrev pub u8 : ℕ → ℕ
u8 n = n % 2 ^ 8

abbrev pub u16 : ℕ → ℕ
u16 n = n % 2 ^ 16

abbrev pub u32 : ℕ → ℕ
u32 n = n % 2 ^ 32

abbrev pub u64 : ℕ → ℕ
u64 n = n % 2 ^ 64

-- One digit shifted out at the bottom of a field of `suc k` digits.
shift-suc : (a k : ℕ) → a * 2 ^ suc k ≡ 2 * (a * 2 ^ k)
shift-suc a k = omega (arith, ap (λ (t : ℕ). a * t) (pow-suc 2 k))

or-zero_below : (n a : ℕ) → a ≤ n → bit_or a 0 ≡ a
or-zero_below zero a h = ground (arith, zero-bit_or 0)
or-zero_below (suc n) a h = omega (arith, bit_or-digit a 0, or-zero_below n (a / 2) (omega arith))

pub bit_or-zero : (a : ℕ) → bit_or a 0 ≡ a
bit_or-zero a = or-zero_below a a (omega arith)

and-zero_below : (n a : ℕ) → a ≤ n → bit_and a 0 ≡ 0
and-zero_below zero a h = ground (arith, zero-bit_and 0)
and-zero_below (suc n) a h =
    omega (arith, bit_and-digit a 0, and-zero_below n (a / 2) (omega arith))

pub bit_and-zero : (a : ℕ) → bit_and a 0 ≡ 0
bit_and-zero a = and-zero_below a a (omega arith)

-- `&` and `|` work on the digits below `k` and on those from `k` on separately.
pub bit_and-split :
    (k a r b s : ℕ)
    → r < 2 ^ k
    → s < 2 ^ k
    → bit_and (a * 2 ^ k + r) (b * 2 ^ k + s) ≡ bit_and a b * 2 ^ k + bit_and r s
bit_and-split zero a r b s hr hs = ground (arith, zero-bit_and 0)
bit_and-split (suc k) a r b s hr hs = ground (
  arith,
  bit_and-digit (a * 2 ^ suc k + r) (b * 2 ^ suc k + s),
  bit_and-digit r s,
  shift-suc a k,
  shift-suc b k,
  shift-suc (bit_and a b) k,
  pow-suc 2 k,
  bit_and-split k a (r / 2) b (s / 2) (omega (arith, pow-suc 2 k)) (omega (arith, pow-suc 2 k)),
)

pub bit_or-split :
    (k a r b s : ℕ)
    → r < 2 ^ k
    → s < 2 ^ k
    → bit_or (a * 2 ^ k + r) (b * 2 ^ k + s) ≡ bit_or a b * 2 ^ k + bit_or r s
bit_or-split zero a r b s hr hs = ground (arith, zero-bit_or 0)
bit_or-split (suc k) a r b s hr hs = ground (
  arith,
  bit_or-digit (a * 2 ^ suc k + r) (b * 2 ^ suc k + s),
  bit_or-digit r s,
  shift-suc a k,
  shift-suc b k,
  shift-suc (bit_or a b) k,
  pow-suc 2 k,
  bit_or-split k a (r / 2) b (s / 2) (omega (arith, pow-suc 2 k)) (omega (arith, pow-suc 2 k)),
)

and-ones : (k r : ℕ) → r < 2 ^ k → bit_and r (2 ^ k - 1) ≡ r
and-ones zero r h = ground (arith, bit_and-zero r)
and-ones (suc k) r h = ground (
  arith,
  pow-suc 2 k,
  one-le-pow k 2,
  bit_and-digit r (2 ^ suc k - 1),
  and-ones k (r / 2) (omega (arith, pow-suc 2 k)),
)

-- A mask of the `k` lowest digits is the remainder by `2 ^ k`.
pub bit_and-mask : (k a : ℕ) → bit_and a (2 ^ k - 1) ≡ a % 2 ^ k
bit_and-mask k a = ground (
  arith,
  one-le-pow k 2,
  bit_and-split k (a / 2 ^ k) (a % 2 ^ k) 0 (2 ^ k - 1),
  bit_and-zero (a / 2 ^ k),
  and-ones k (a % 2 ^ k),
)

-- Of a field at place `k`, what a mask at the same place keeps.
pub bit_and-field : (k b a : ℕ) → bit_and a (b * 2 ^ k) ≡ bit_and (a / 2 ^ k) b * 2 ^ k
bit_and-field k b a =
    ground
      (arith, one-le-pow k 2, bit_and-split k (a / 2 ^ k) (a % 2 ^ k) b 0, bit_and-zero (a % 2 ^ k))

-- `|` of fields that do not overlap is their sum: a field above, below, or between the others.
pub bit_or-above : (k a r : ℕ) → r < 2 ^ k → bit_or r (a <<< k) ≡ a * 2 ^ k + r
bit_or-above k a r h =
    ground (arith, one-le-pow k 2, bit_or-split k 0 r a 0, bit_or-zero r, zero-bit_or a)

pub bit_or-below : (k a r : ℕ) → r < 2 ^ k → bit_or (a <<< k) r ≡ a * 2 ^ k + r
bit_or-below k a r h =
    ground (arith, one-le-pow k 2, bit_or-split k a 0 0 r, bit_or-zero a, zero-bit_or r)

pub bit_or-between :
    (j k hi lo a : ℕ)
    → lo < 2 ^ j
    → j ≤ k
    → a * 2 ^ j + lo < 2 ^ k
    → bit_or (hi * 2 ^ k + lo) (a <<< j) ≡ hi * 2 ^ k + a * 2 ^ j + lo
bit_or-between j k hi lo a h le fits =
    ground (
      arith,
      one-le-pow k 2,
      bit_or-split k hi lo 0 (a * 2 ^ j),
      bit_or-zero hi,
      bit_or-above j a lo,
    )

-- A mask without the four digits from `k` on takes them off a number that has none above them.
pub bit_and-nibble :
    (k a q : ℕ) → a < 2 ^ (k + 4) → bit_and a (q * 2 ^ (k + 4) + (2 ^ k - 1)) ≡ a % 2 ^ k
bit_and-nibble k a q h =
    ap (λ (x : ℕ). bit_and x (q * 2 ^ (k + 4) + (2 ^ k - 1))) whole
    ∙ bit_and-split (k + 4) 0 a q (2 ^ k - 1) h
        (omega (arith, sixteen, one-le-pow k 2 (omega arith)))
    ∙ omega (arith, nothing, bit_and-mask k a)
  where
    four : k + 4 ≡ suc (suc (suc (suc k)))
    four = omega arith

    sixteen : 2 ^ (k + 4) ≡ 16 * 2 ^ k
    sixteen =
        ap (λ (n : ℕ). 2 ^ n) four
        ∙ omega (
          arith,
          pow-suc 2 k,
          pow-suc 2 (suc k),
          pow-suc 2 (suc (suc k)),
          pow-suc 2 (suc (suc (suc k))),
        )

    whole : a ≡ 0 * 2 ^ (k + 4) + a
    whole = omega arith

    nothing : bit_and 0 q * 2 ^ (k + 4) ≡ 0
    nothing = ap (λ (x : ℕ). x * 2 ^ (k + 4)) (zero-bit_and q) ∙ omega arith
