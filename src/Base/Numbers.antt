-- ===== src/Base/Numbers.antt =====
-- Digits of numbers, in any base.
use mathlib.Core.Path.{◌≡◌, ap, ◌∙◌}
use Prim.Native.Nat.{ℕ, suc, ◌+◌, ◌*◌, ◌/◌, ◌%◌, ◌^◌, ◌<◌}
use native.Mathlib.Nat.{
  pow-suc, one-le-pow, add-mul-mod_self_right, mod-eq_of_lt, div-add-mod', mod-lt,
}
use native.Mathlib.Omega.{arith}

below_product : (v r b p : ℕ) → v < b → r < p → v * p + r < b * p
below_product v r b p hv hr = grind arith

-- The digits below `b * p` are the digit above `p` and the digits below `p`.
pub mod-mul : (b p n : ℕ) → 0 < b → 0 < p → n % (b * p) ≡ n / p % b * p + n % p
mod-mul b p n hb hp =
    let low = n / p % b * p + n % p in
    let whole : n ≡ low + n / p / b * (b * p) =
      omega (arith, div-add-mod' n p, ap (λ (t : ℕ). t * p) (div-add-mod' (n / p) b)) in
    ap (λ (t : ℕ). t % (b * p)) whole
    ∙ add-mul-mod_self_right low (n / p / b) (b * p)
    ∙ mod-eq_of_lt (below_product (n / p % b) (n % p) b p (mod-lt (n / p) hb) (mod-lt n hp))

pub pow-hex : (n : ℕ) → 2 ^ (4 * suc n) ≡ 16 * 2 ^ (4 * n)
pow-hex n =
    let four : 4 * suc n ≡ suc (suc (suc (suc (4 * n)))) = omega arith in
    rw four (
      omega (
        arith,
        pow-suc 2 (4 * n),
        pow-suc 2 (suc (4 * n)),
        pow-suc 2 (suc (suc (4 * n))),
        pow-suc 2 (suc (suc (suc (4 * n)))),
      ))

pub two-pow-pos : (n : ℕ) → 0 < 2 ^ n
two-pow-pos n = one-le-pow n 2 (omega arith)
