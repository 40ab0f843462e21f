-- ===== src/Format/Hexadecimal.antt =====
-- Hexadecimal conversions (itox of educrtos/lib/fprint.c).
use mathlib.Core.Path.{subst}
use native.Mathlib.Nat.{mod-lt, div-add-mod', div-lt_iff_lt-mul}
use rtas2021_artifact.Base.{
  ℕ, zero, suc, ◌+◌, ◌*◌, ◌-◌, ◌/◌, ◌%◌, ◌^◌, ◌≤◌, ◌<◌, ◌≡◌, ◌⊎◌, refl, ap, sym, ◌∙◌, true, false,
  List, [], ◌∷◌, arith, ltb, length, bit_and, if◌then◌else◌, pow-hex, two-pow-pos, Bool-cases, inl,
  inr, ◌==◌, Returns, returns, bind,
}
use rtas2021_artifact.Bits.{◌>>>◌, ◌<<<◌, u32, bit_and-nibble}
use rtas2021_artifact.Format.{hex_digit, hex_loop, top_digit, itox}

-- The number that a text of hexadecimal digits stands for, behind `acc`.
pub digit_value : ℕ → ℕ
digit_value c = if ltb c b'A' then c - b'0' else c - b'A' + 10

pub hex_value : ℕ → List ℕ → ℕ
unfolding digit_value
hex_value acc [] = acc
hex_value acc (c ∷ text) = hex_value (acc * 16 + digit_value c) text

-- `0` to `9` and `A` to `F`.
abbrev pub AreHexDigits : List ℕ → Type 0
AreHexDigits [] = Unit
AreHexDigits (c ∷ text) =
    (((b'0' ≤ c) × (c ≤ b'9')) ⊎ ((b'A' ≤ c) × (c ≤ b'F'))) × AreHexDigits text

hex_digit-among :
    (d : ℕ)
    → d < 16
    → ((b'0' ≤ hex_digit d) × (hex_digit d ≤ b'9')) ⊎ ((b'A' ≤ hex_digit d) × (hex_digit d ≤ b'F'))
unfolding hex_digit
hex_digit-among d h = elim (Bool-cases (ltb 9 d)) [
  | inl large ↦ rw large (inr (ground arith))
  | inr small ↦ rw small (inl (ground arith))
]

digit_value-hex_digit : (d : ℕ) → d < 16 → digit_value (hex_digit d) ≡ d
unfolding digit_value hex_digit
digit_value-hex_digit d h = ground arith

-- The mask keeps the digits below the one of `n`.
below : ℕ → ℕ → ℕ
below n number = bit_and number (2 ^ 32 - 1 - u32 (15 <<< (4 * n)))

below-mod :
    (n number : ℕ) → n < 8 → number < 2 ^ (4 * n + 4) → below n number ≡ number % 2 ^ (4 * n)
unfolding below
below-mod zero number l h = bit_and-nibble 0 number (2 ^ 28 - 1) h
below-mod (suc zero) number l h = bit_and-nibble 4 number (2 ^ 24 - 1) h
below-mod (suc (suc zero)) number l h = bit_and-nibble 8 number (2 ^ 20 - 1) h
below-mod (suc (suc (suc zero))) number l h = bit_and-nibble 12 number (2 ^ 16 - 1) h
below-mod (suc (suc (suc (suc zero)))) number l h = bit_and-nibble 16 number (2 ^ 12 - 1) h
below-mod (suc (suc (suc (suc (suc zero))))) number l h = bit_and-nibble 20 number (2 ^ 8 - 1) h
below-mod (suc (suc (suc (suc (suc (suc zero)))))) number l h =
    bit_and-nibble 24 number (2 ^ 4 - 1) h
below-mod (suc (suc (suc (suc (suc (suc (suc zero))))))) number l h = bit_and-nibble 28 number 0 h
below-mod (suc (suc (suc (suc (suc (suc (suc (suc n)))))))) number l h = absurd (omega arith)

-- Read back, the digits that the loop writes of a number below `16 ^ n` are the number.
hex_loop-value :
    (n acc number : ℕ)
    → n ≤ 8
    → number < 2 ^ (4 * n)
    → hex_value acc (hex_loop n number) ≡ acc * 2 ^ (4 * n) + number
unfolding hex_value hex_loop below
hex_loop-value zero acc number l h = omega arith
hex_loop-value (suc n) acc number l h =
    let p = 2 ^ (4 * n) in
    let d = number / p in
    let small : d < 16 =
      (div-lt_iff_lt-mul (two-pow-pos (4 * n))).1 (subst (λ (x : ℕ). number < x) (pow-hex n) h) in
    ap (λ v. hex_value (acc * 16 + v) (hex_loop n (below n number))) (digit_value-hex_digit d small)
    ∙ ap (λ r. hex_value (acc * 16 + d) (hex_loop n r))
        (below-mod n number (omega arith) (subst (λ (x : ℕ). number < 2 ^ x) (omega arith) h))
    ∙ hex_loop-value n (acc * 16 + d) (number % p) (omega arith)
        (mod-lt number (two-pow-pos (4 * n)))
    ∙ rw (pow-hex n) (omega (arith, div-add-mod' number p))

hex_loop-AreHexDigits :
    (n number : ℕ) → n ≤ 8 → number < 2 ^ (4 * n) → AreHexDigits (hex_loop n number)
unfolding hex_loop below
hex_loop-AreHexDigits zero number l h = tt
hex_loop-AreHexDigits (suc n) number l h =
    let small : number / 2 ^ (4 * n) < 16 =
      (div-lt_iff_lt-mul (two-pow-pos (4 * n))).1 (subst (λ (x : ℕ). number < x) (pow-hex n) h) in
    (
      hex_digit-among (number / 2 ^ (4 * n)) small,
      subst (λ r. AreHexDigits (hex_loop n r))
          (sym
            (below-mod n number (omega arith) (subst (λ (x : ℕ). number < 2 ^ x) (omega arith) h)))
          (hex_loop-AreHexDigits n (number % 2 ^ (4 * n)) (omega arith)
            (mod-lt number (two-pow-pos (4 * n)))),
    )

too_large : (m : ℕ) → m < 2 ^ 32 → ltb 15 (m >>> (4 * 7)) ≡ false
too_large m small = ground arith

-- The digits up to the one that the search gives are all of the number's.
top_digit-covers :
    (fuel number n : ℕ)
    → number < 2 ^ 32
    → n ≤ 7
    → n + fuel ≡ 9
    → Returns (λ r. (r ≤ 7) × (number < 2 ^ (4 * suc r))) (top_digit fuel number n)
unfolding top_digit
top_digit-covers zero number n h l e = absurd (omega arith)
top_digit-covers (suc fuel) number n h l e = elim (Bool-cases (ltb 15 (number >>> (4 * n)))) [
  | inl higher ↦ elim (Bool-cases (n == 7)) [
    | inl last ↦
        let at : n ≡ 7 = ground arith in
        absurd (
          ground
            (arith, too_large number h, subst (λ j. ltb 15 (number >>> (4 * j)) ≡ true) at higher))
    | inr more ↦ rw higher (top_digit-covers fuel number (n + 1) h (ground arith) (omega arith))
  ]
  | inr top ↦ rw top (
      returns (
        l,
        subst (λ (x : ℕ). number < x) (sym (pow-hex n))
            ((div-lt_iff_lt-mul (two-pow-pos (4 * n))).0 (ground arith)),
      ))
]

hex_loop-length : (n number : ℕ) → length (hex_loop n number) ≡ n
unfolding hex_loop
hex_loop-length zero number = refl
hex_loop-length (suc n) number = ap suc (hex_loop-length n _)

-- For every 32-bit number `itox` returns a text of at most eight hexadecimal digits, `0` to `9` and
-- `A` to `F`, that reads back as the number.
pub itox-value :
    (number : ℕ)
    → number < 2 ^ 32
    → Returns
        (λ text. (length text ≤ 8) × AreHexDigits text × (hex_value 0 text ≡ number))
        (itox number)
unfolding itox
itox-value number h = bind (top_digit-covers 9 number 0 h (omega arith) refl) λ n (few, covered).
    returns (
      omega (arith, hex_loop-length (suc n) number),
      hex_loop-AreHexDigits (suc n) number (omega arith) covered,
      hex_loop-value (suc n) 0 number (omega arith) covered ∙ omega arith,
    )
