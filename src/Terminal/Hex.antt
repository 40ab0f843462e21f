-- ===== src/Terminal/Hex.antt =====
-- Numbers in hexadecimal on the terminal, as the texts that they are.
use mathlib.Core.Path.{fun_ext}
use rtas2021_artifact.Base.{
  ℕ, zero, suc, ◌+◌, ◌-◌, ◌*◌, ◌/◌, ◌%◌, ◌^◌, ◌<◌, ◌≤◌, ◌⊎◌, inl, inr, Bool-cases, length, ◌≡◌,
  refl, ap, sym, ◌∙◌, >>=-ok, mod-mul, pow-hex, two-pow-pos, List, [], ◌∷◌, arith, ltb,
  if◌then◌else◌, ◌>>=◌,
}
use rtas2021_artifact.Bits.{u8, bit_and-mask}
use rtas2021_artifact.Terminal.{
  Terminal, hexa_digit, terminal_putchar, terminal_write, terminal_write_hexa_digit,
  terminal_write_uint8, uint32_digits, terminal_write_uint32,
}

-- The value of a text of hexadecimal digits, most significant first.
pub digit_value : ℕ → ℕ
digit_value c = if ltb c b'a' then c - b'0' else c - b'a' + 10

pub hex_value : ℕ → List ℕ → ℕ
unfolding digit_value
hex_value acc [] = acc
hex_value acc (c ∷ text) = hex_value (acc * 16 + digit_value c) text

-- `0` to `9` and `a` to `f`.
abbrev pub AreHexDigits : List ℕ → Type 0
AreHexDigits [] = Unit
AreHexDigits (c ∷ text) =
    (((b'0' ≤ c) × (c ≤ b'9')) ⊎ ((b'a' ≤ c) × (c ≤ b'f'))) × AreHexDigits text

-- The last `n` hexadecimal digits of a number, most significant first.
abbrev pub hex_text : ℕ → ℕ → List ℕ
hex_text zero num = []
hex_text (suc n) num = hexa_digit (num / 2 ^ (4 * n) % 16) ∷ hex_text n num

digit_small : (d : ℕ) → d < 16 → u8 (hexa_digit d) ≡ hexa_digit d
unfolding hexa_digit
digit_small d h = ground arith

uint32_digits-hex_text :
    (n num : ℕ) (t : Terminal) → uint32_digits n num t ≡ terminal_write (hex_text n num) t
unfolding uint32_digits terminal_write terminal_write_hexa_digit
uint32_digits-hex_text zero num t = refl
uint32_digits-hex_text (suc n) num t =
    rw (bit_and-mask 4 (num / 2 ^ (4 * n)), digit_small (num / 2 ^ (4 * n) % 16) (omega arith))
      (ap (λ k. terminal_putchar (hexa_digit (num / 2 ^ (4 * n) % 16)) t >>= k)
        (fun_ext λ t'. uint32_digits-hex_text n num t'))

digit_value-hexa_digit : (d : ℕ) → d < 16 → digit_value (hexa_digit d) ≡ d
unfolding digit_value hexa_digit
digit_value-hexa_digit d h = ground arith

hexa_digit-among :
    (d : ℕ)
    → d < 16
    → ((b'0' ≤ hexa_digit d) × (hexa_digit d ≤ b'9'))
      ⊎ ((b'a' ≤ hexa_digit d) × (hexa_digit d ≤ b'f'))
unfolding hexa_digit
hexa_digit-among d h = elim (Bool-cases (ltb d 10)) [
  | inl small ↦ rw small (inl (ground arith))
  | inr large ↦ rw large (inr (ground arith))
]

hex_text-AreHexDigits : (n num : ℕ) → AreHexDigits (hex_text n num)
hex_text-AreHexDigits zero num = tt
hex_text-AreHexDigits (suc n) num =
    (hexa_digit-among (num / 2 ^ (4 * n) % 16) (omega arith), hex_text-AreHexDigits n num)

-- `terminal_write_uint32` writes the eight hexadecimal digits of the number in order.
pub terminal_write_uint32-hex_text :
    (num : ℕ) (t : Terminal) → terminal_write_uint32 num t ≡ terminal_write (hex_text 8 num) t
unfolding terminal_write_uint32
terminal_write_uint32-hex_text num t = uint32_digits-hex_text 8 num t

-- `terminal_write_uint8` writes the two digits in the wrong order.
pub terminal_write_uint8_swapped :
    (num : ℕ) (t : Terminal)
    → num < 256
    → terminal_write_uint8 num t
      ≡ terminal_write (hexa_digit (num % 16) ∷ hexa_digit (num / 16) ∷ []) t
unfolding terminal_write_uint8 terminal_write terminal_write_hexa_digit
terminal_write_uint8_swapped num t h =
    rw
      (
        bit_and-mask 4 num,
        digit_small (num % 16) (omega arith),
        digit_small (num / 16) (omega arith),
      )
      (ap (λ k. terminal_putchar (hexa_digit (num % 16)) t >>= k)
        (fun_ext λ t'. sym (>>=-ok (terminal_putchar (hexa_digit (num / 16)) t'))))

-- Read back, the eight digits of a 32-bit number are the number.
hex_value-hex_text :
    (n acc num : ℕ) → hex_value acc (hex_text n num) ≡ acc * 2 ^ (4 * n) + num % 2 ^ (4 * n)
unfolding hex_value
hex_value-hex_text zero acc num = omega arith
hex_value-hex_text (suc n) acc num =
    let d = num / 2 ^ (4 * n) % 16 in
    ap (λ v. hex_value (acc * 16 + v) (hex_text n num)) (digit_value-hexa_digit d (omega arith))
    ∙ hex_value-hex_text n (acc * 16 + d) num
    ∙ rw (pow-hex n, mod-mul 16 (2 ^ (4 * n)) num (omega arith) (two-pow-pos (4 * n))) (omega arith)

-- `terminal_write_uint32` writes a text of eight hexadecimal digits, `0` to `9` and `a` to `f`, that
-- reads back as the 32-bit number.
pub terminal_write_uint32-value :
    (num : ℕ) (t : Terminal)
    → num < 2 ^ 32
    → (text : List ℕ) × (terminal_write_uint32 num t ≡ terminal_write text t)
      × (length text ≡ 8)
      × AreHexDigits text
      × (hex_value 0 text ≡ num)
terminal_write_uint32-value num t h = (
  hex_text 8 num,
  terminal_write_uint32-hex_text num t,
  refl,
  hex_text-AreHexDigits 8 num,
  hex_value-hex_text 8 0 num ∙ omega arith,
)
