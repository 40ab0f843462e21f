-- ===== src/Base/Ending.antt =====
-- How a piece of kernel code ends, and the rules for code that ends well.
use Prim.Native.Nat.{ℕ}
use mathlib.Core.Path.{◌≡◌, refl, ap, sym, subst}
use mathlib.Core.Bool.{Bool}
use mathlib.Core.List.{List}
use rtas2021_artifact.Base.Tests.{if◌then◌else◌}

-- `halt text` is `fatal` or a failed `assert`: the text is printed and the machine stops for good.
-- `fault` is undefined behaviour of the C code (a null pointer read, an access out of bounds), and
-- `out_of_fuel` a loop of the model that was given too few rounds.
pub data Run {i} (V : Type i) : Type i where
  out_of_fuel fault : Run V
  halt : List ℕ → Run V
  ok : V → Run V

infixl 5 ◌>>=◌ ◌>>◌
abbrev pub ◌>>=◌ {i j} : {V : Type i} {W : Type j} → Run V → (V → Run W) → Run W
out_of_fuel >>= next = out_of_fuel
fault >>= next = fault
halt text >>= next = halt text
ok v >>= next = next v

abbrev pub ◌>>◌ {i j} : {V : Type i} {W : Type j} → Run V → Run W → Run W
m >> k = m >>= λ _. k

-- `assert(b)` with the text of its condition.
abbrev pub assert : Bool → List ℕ → Run (Unit {0})
assert b text = if b then ok tt else halt text

-- The code returns, with a value that satisfies `Q`.
pub data Returns {i j} {V : Type i} (Q : V → Type j) : Run V → Type (i ⊔ j) where
  returns : {v : V} → Q v → Returns Q (ok v)

pub result {i j} :
    {V : Type i} {Q : V → Type j} {r : Run V} → Returns Q r → (v : V) × (r ≡ ok v) × Q v
result (returns {v} q) = (v, refl, q)

-- The rule of consequence, and that of sequencing.
pub weaken {i j k} :
    {V : Type i} {Q : V → Type j} {Q' : V → Type k} {r : Run V}
    → Returns Q r
    → ((v : V) → Q v → Q' v)
    → Returns Q' r
weaken (returns q) imply = returns (imply _ q)

pub bind {i j k l} :
    {V : Type i} {W : Type j} {Q : V → Type k} {Q' : W → Type l} {r : Run V} {next : V → Run W}
    → Returns Q r
    → ((v : V) → Q v → Returns Q' (next v))
    → Returns Q' (r >>= next)
bind (returns q) after = after _ q

pub >>=-ok {i} : {V : Type i} (r : Run V) → (r >>= ok) ≡ r
>>=-ok out_of_fuel = refl
>>=-ok fault = refl
>>=-ok (halt text) = refl
>>=-ok (ok v) = refl

value_or {i} : {V : Type i} → V → Run V → V
value_or v (ok w) = w
value_or v (halt text) = v
value_or v fault = v
value_or v out_of_fuel = v

pub ok-inj {i} : {V : Type i} (v w : V) → ok v ≡ ok w → v ≡ w
unfolding value_or
ok-inj v w e = ap (value_or v) e

-- Two things that are true of the value.
pub both {i j k} :
    {V : Type i} {Q : V → Type j} {Q' : V → Type k} {r : Run V}
    → Returns Q r
    → Returns Q' r
    → Returns (λ v. Q v × Q' v) r
both {Q'} (returns {v} q) other =
    let (w, same, q') = result other in returns (q, subst Q' (sym (ok-inj v w same)) q')
