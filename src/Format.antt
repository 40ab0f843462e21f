-- ===== src/Format.antt =====
-- Formatted printing (educrtos/lib/fprint.c). A printer returns the characters that it hands to
-- `putchar`, in order. `long` and `int` have 32 bits, as bit patterns.
pub mod Decimal
pub mod Terminates
pub mod Hexadecimal
pub mod Plain
use rtas2021_artifact.Base.{
  ℕ, zero, suc, ◌+◌, ◌-◌, ◌*◌, ◌/◌, ◌^◌, Bool, false, ◌&&◌, ◌||◌, List, [], ◌∷◌, ◌++◌, bit_and, ltb,
  ◌==◌, if◌then◌else◌, Run, ok, halt, fault, out_of_fuel, ◌>>=◌, codes,
}
use rtas2021_artifact.Bits.{◌<<<◌, ◌>>>◌, u32}

-- `while(number>0) { div=number/10; lbuf[pos++]='0'+(number-div*10); number=div; }` on fuel. `lbuf`
-- holds the characters written so far, the last one first, so its list is the text that the loop
-- after it copies to `aout`.
pub decimal_loop : ℕ → ℕ → List ℕ → Run (List ℕ)
decimal_loop zero number lbuf = out_of_fuel
decimal_loop (suc fuel) number lbuf =
    let onwards = decimal_loop fuel (number / 10) ((b'0' + (number - number / 10 * 10)) ∷ lbuf) in
    if number == 0 then ok lbuf else onwards

-- `buf[j]` up to the first 0.
pub c_string : List ℕ → List ℕ
c_string [] = []
c_string (c ∷ text) = if c == 0 then [] else c ∷ c_string text

-- `itoa`. For a negative number `pos` starts at 1: `lbuf[0]` stays as the stack had it (`junk`), and
-- the copying loop writes `aout[0]` again, over the sign. `-number` is undefined for the least number.
pub itoa : ℕ → ℕ → Run (List ℕ)
itoa junk number =
    if ltb number (2 ^ 31)
    then (if number == 0 then ok (b'0' ∷ []) else decimal_loop 11 number [])
    else let minus = u32 (2 ^ 32 - number) in
      if ltb minus (2 ^ 31) then decimal_loop 11 minus (junk ∷ []) else fault

pub lltoa : ℕ → Run (List ℕ)
lltoa number = if number == 0 then ok (b'0' ∷ []) else decimal_loop 21 number []

-- `while((number>>i)>15) i+=4;`, with `i` as `4 * n`: the least such `n` from `n` on.
pub top_digit : ℕ → ℕ → ℕ → Run ℕ
top_digit zero number n = out_of_fuel
top_digit (suc fuel) number n =
    let onwards = top_digit fuel number (n + 1) in
    if ltb 15 (number >>> (4 * n)) then onwards else ok n

pub hex_digit : ℕ → ℕ
hex_digit digit = if ltb 9 digit then b'A' + (digit - 10) else b'0' + digit

-- `while(i>=0) { digit=number>>i; …; number&=~(15<<i); i-=4; }`, with `rounds` rounds to go.
pub hex_loop : ℕ → ℕ → List ℕ
hex_loop zero number = []
hex_loop (suc n) number =
    hex_digit (number >>> (4 * n)) ∷ hex_loop n (bit_and number (2 ^ 32 - 1 - u32 (15 <<< (4 * n))))

pub itox : ℕ → Run (List ℕ)
itox number = do n ← top_digit 9 number 0; ok (hex_loop (suc n) number)

-- What `va_arg` finds: 32-bit numbers, 64-bit numbers and strings.
pub data Arg : Type 0 where
  word : ℕ → Arg
  wide : ℕ → Arg
  text : List ℕ → Arg

-- Reading an argument at another type, or one too many, is undefined.
pub next_word : List Arg → Run (ℕ × List Arg)
next_word (word n ∷ args) = ok (n, args)
next_word args = fault

pub next_wide : List Arg → Run (ℕ × List Arg)
next_wide (wide n ∷ args) = ok (n, args)
next_wide args = fault

pub next_text : List Arg → Run (List ℕ × List Arg)
next_text (text s ∷ args) = ok (s, args)
next_text args = fault

-- Whether the format goes on with these two characters.
pub goes_on : ℕ → ℕ → List ℕ → Bool
goes_on a b (c ∷ d ∷ format) = (c == a) && (d == b)
goes_on a b _ = false

-- A printed conversion, the arguments left, and how many characters of the format it took.
abbrev pub Converted : Type 0
Converted = List ℕ × List Arg × ℕ

-- The conversion that follows a `%`. At the end of the format the code steps over its terminator.
pub convert : ℕ → List ℕ → List Arg → Run Converted
unfolding itoa lltoa itox goes_on next_word next_wide next_text
convert junk [] args = fault
convert junk (c ∷ format) args =
    if (c == b'i') || (c == b'd')
    then (do (n, rest) ← next_word args; s ← itoa junk n; ok (c_string s, rest, 1))
    else if c == b'x'
    then (do (n, rest) ← next_word args; s ← itox n; ok (s, rest, 1))
    else if c == b's'
    then (do (s, rest) ← next_text args; ok (s, rest, 1))
    else if (c == b'l') && goes_on b'l' b'x' format
    then (do
      (n, rest) ← next_wide args
      high ← itox (n >>> 32)
      low ← itox (bit_and n 0xFFFFFFFF)
      ok (high ++ low, rest, 3))
    else if (c == b'l') && goes_on b'l' b'u' format
    then (do (n, rest) ← next_wide args; s ← lltoa n; ok (s, rest, 3))
    else if c == b'%'
    then ok (b'%' ∷ [], args, 1)
    else ok (codes "<unsupported conversion: `" ++ c ∷ codes "'>", args, 1)

-- `skip` characters of the format belong to the conversion before.
pub vfprint_from : ℕ → ℕ → List ℕ → List Arg → Run (List ℕ)
vfprint_from junk skip [] args = ok []
vfprint_from junk (suc skip) (c ∷ format) args = vfprint_from junk skip format args
vfprint_from junk zero (c ∷ format) args =
    let plain : Run (List ℕ) = vfprint_from junk 0 format args >>= λ rest. ok (c ∷ rest) in
    let converted : Run (List ℕ) = (do
      (s, args', taken) ← convert junk format args
      rest ← vfprint_from junk taken format args'
      ok (s ++ rest)) in
    if c == b'%' then converted else plain

-- vfprint(putchar, format, ap).
pub vfprint : ℕ → List ℕ → List Arg → Run (List ℕ)
unfolding convert vfprint_from
vfprint junk format args = vfprint_from junk 0 format args

-- fatal(format, …) and task_fatal(format, …) of educrtos/error.c: they print and never return.
unfoldable pub fatal {ℓ} : {A : Type ℓ} → ℕ → List ℕ → List Arg → Run A
unfolding vfprint
fatal junk format args = do s ← vfprint junk format args; halt s

unfoldable pub task_fatal {ℓ} : {A : Type ℓ} → ℕ → List ℕ → List Arg → Run A
unfolding vfprint
task_fatal junk format args = do s ← vfprint junk format args; halt s
