-- ===== src/Format/Plain.antt =====
-- What `vfprint` of educrtos/lib/fprint.c prints of a text, and of the conversions in it.
use mathlib.Core.Path.{subst}
use rtas2021_artifact.Base.{
  ℕ, ◌<◌, ◌^◌, ◌≡◌, refl, ap, sym, false, List, [], ◌∷◌, ◌++◌, arith, has, ◌==◌, ok, Returns,
  returns, result, bind,
}
use rtas2021_artifact.Format.{Arg, word, vfprint, vfprint_from, convert, next_word, c_string}
use rtas2021_artifact.Format.Decimal.{AreDigits, IsDecimal, itoa-IsDecimal}
use rtas2021_artifact.Format.Hexadecimal.{AreHexDigits, hex_value, itox-value}

-- No character of the text starts a conversion.
abbrev pub IsPlain : List ℕ → Type 0
IsPlain text = has b'%' text ≡ false

-- Printing stops at no digit.
c_string-digits : (text : List ℕ) → AreDigits text → c_string text ≡ text
unfolding c_string
c_string-digits [] d = refl
c_string-digits (c ∷ text) d =
    let more : (c == 0) ≡ false = let low = d.0 in ground arith in
    rw more (ap (λ t. c ∷ t) (c_string-digits text d.2))

-- A plain text in front is printed as it is.
pub vfprint_from-plain :
    (junk : ℕ) (text format : List ℕ) (args : List Arg) (Q : List ℕ → Type 0)
    → IsPlain text
    → Returns (λ rest. Q (text ++ rest)) (vfprint_from junk 0 format args)
    → Returns Q (vfprint_from junk 0 (text ++ format) args)
unfolding vfprint_from
vfprint_from-plain junk [] format args Q plain prints = prints
vfprint_from-plain junk (c ∷ text) format args Q plain prints =
    let here : (c == b'%') ≡ false = ground (arith, plain) in
    rw here (
      bind
        (vfprint_from-plain junk text format args (λ rest. Q (c ∷ rest)) (ground (arith, plain))
          prints)
        λ rest q. returns q)

-- A `%d` is printed as decimal digits, and a `%x` as hexadecimal ones, that read back as the argument.
pub vfprint_from-decimal :
    (junk number : ℕ) (format : List ℕ) (args : List Arg) (Q : List ℕ → Type 0)
    → number < 2 ^ 31
    → ((s : List ℕ)
        → IsDecimal 10 number s
        → Returns (λ rest. Q (s ++ rest)) (vfprint_from junk 0 format args))
    → Returns Q (vfprint_from junk 0 (b'%' ∷ b'd' ∷ format) (word number ∷ args))
unfolding vfprint_from convert next_word
vfprint_from-decimal junk number format args Q short prints =
    let (s, same, d) = result (itoa-IsDecimal junk number short) in
    rw (same, c_string-digits s d.digits) (bind (prints s d) λ rest q. returns q)

pub vfprint_from-hexadecimal :
    (junk number : ℕ) (format : List ℕ) (args : List Arg) (Q : List ℕ → Type 0)
    → number < 2 ^ 32
    → ((s : List ℕ)
        → AreHexDigits s
        → hex_value 0 s ≡ number
        → Returns (λ rest. Q (s ++ rest)) (vfprint_from junk 0 format args))
    → Returns Q (vfprint_from junk 0 (b'%' ∷ b'x' ∷ format) (word number ∷ args))
unfolding vfprint_from convert next_word
vfprint_from-hexadecimal junk number format args Q short prints =
    let (s, same, d) = result (itox-value number short) in
    rw same (bind (prints s d.1 d.2) λ rest q. returns q)

-- A plain text is printed as it is.
pub vfprint-plain :
    (junk : ℕ) (text : List ℕ) (args : List Arg) → IsPlain text → vfprint junk text args ≡ ok text
unfolding vfprint vfprint_from
vfprint-plain junk [] args plain = refl
vfprint-plain junk (c ∷ text) args plain =
    let here : (c == b'%') ≡ false = ground (arith, plain) in
    rw (here, vfprint-plain junk text args (ground (arith, plain))) refl

-- The whole of a format, and its end.
pub vfprint-begins :
    (junk : ℕ) (format : List ℕ) (args : List Arg) (Q : List ℕ → Type 0)
    → Returns Q (vfprint_from junk 0 format args)
    → Returns Q (vfprint junk format args)
unfolding vfprint
vfprint-begins junk format args Q prints = prints

pub vfprint_from-last :
    (junk : ℕ) (text : List ℕ) (args : List Arg) (Q : List ℕ → Type 0)
    → IsPlain text
    → Q text
    → Returns Q (vfprint_from junk 0 text args)
unfolding vfprint
vfprint_from-last junk text args Q plain q =
    subst (Returns Q) (sym (vfprint-plain junk text args plain)) (returns q)
