-- ===== src/Tests/Format.antt =====
-- Examples of the theorems on decimal conversions.
use rtas2021_artifact.Base.{◌≤◌, length}
use rtas2021_artifact.Format.{itox}
use rtas2021_artifact.Format.Hexadecimal.{AreHexDigits, hex_value, itox-value}
use rtas2021_artifact.Base.{◌-◌, ◌^◌, ◌≡◌, arith, [], ◌∷◌, ◌++◌, ◌>>=◌, ok, Returns}
use rtas2021_artifact.Format.{itoa, lltoa}
use rtas2021_artifact.Format.Decimal.{IsDecimal, lltoa-IsDecimal, itoa-IsDecimal, itoa-negative}

lltoa-IsDecimal_example : Returns (IsDecimal 20 1000000007) (lltoa 1000000007)
lltoa-IsDecimal_example = lltoa-IsDecimal 1000000007 (omega arith)

itoa-IsDecimal_example : Returns (IsDecimal 10 42) (itoa 0 42)
itoa-IsDecimal_example = itoa-IsDecimal 0 42 (omega arith)

-- -5, with the byte 0x61 on the stack.
itoa-negative_example :
    itoa 0x61 0xFFFFFFFB ≡ (itoa 0x61 (2 ^ 32 - 0xFFFFFFFB) >>= λ text. ok (text ++ 0x61 ∷ []))
itoa-negative_example = itoa-negative 0x61 0xFFFFFFFB (omega arith) (omega arith)

itox-value_example :
    Returns
      (λ text. (length text ≤ 8) × AreHexDigits text × (hex_value 0 text ≡ 48879))
      (itox 48879)
itox-value_example = itox-value 48879 (omega arith)
