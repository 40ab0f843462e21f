-- ===== src/ArrayHeap/Bag.antt =====
-- How often a context stands in an array.
use mathlib.Core.Path.{subst}
use rtas2021_artifact.Base.{
  ℕ, zero, suc, ◌+◌, ◌≤◌, ◌<◌, ◌≡◌, refl, false, arith, ◌==◌, if◌then◌else◌, Bool-cases, inl, inr,
  ap,
}
use rtas2021_artifact.Store.{Ptr}
use rtas2021_artifact.ArrayHeap.{Array, put}

abbrev pub one : Ptr → Ptr → ℕ
one p x = if p == x then 1 else 0

-- Among the first `n` cells.
abbrev pub count : Array → ℕ → Ptr → ℕ
count a zero x = 0
count a (suc n) x = count a n x + one (a n) x

pub count_next : (a : Array) (n : ℕ) (x : Ptr) → count a (n + 1) x ≡ count a n x + one (a n) x
count_next a n x = let e : n + 1 ≡ suc n = omega arith in rw e refl

pub put-at : (a : Array) (i : ℕ) (v : Ptr) → put a i v i ≡ v
unfolding put
put-at a i v = ground arith

pub put-off : (a : Array) (i j : ℕ) (v : Ptr) → (j == i) ≡ false → put a i v j ≡ a j
unfolding put
put-off a i j v h = rw h refl

pub count-put_behind :
    (a : Array) (n i : ℕ) (v x : Ptr) → n ≤ i → count (put a i v) n x ≡ count a n x
count-put_behind a zero i v x h = refl
count-put_behind a (suc n) i v x h =
    rw (put-off a i n v (ground arith))
      (ap (λ t. t + one (a n) x) (count-put_behind a n i v x (omega arith)))

pub count-put :
    (a : Array) (n i : ℕ) (v x : Ptr)
    → i < n
    → count (put a i v) n x + one (a i) x ≡ count a n x + one v x
count-put a zero i v x h = absurd (omega arith)
count-put a (suc n) i v x h = elim (Bool-cases (n == i)) [
  | inl at ↦
      let e : n ≡ i = ground arith in
      let here : one (put a n v n) x ≡ one v x = ap (λ q. one q x) (put-at a n v) in
      subst (λ j. count (put a j v) (suc n) x + one (a j) x ≡ count a (suc n) x + one v x) e
        (omega (arith, count-put_behind a n n v x (omega arith), here))
  | inr off ↦ rw (put-off a i n v off) (omega (arith, count-put a n i v x (ground arith)))
]

pub count-swap :
    (a : Array) (n i j : ℕ) (x : Ptr)
    → i < n
    → j < n
    → (j == i) ≡ false
    → count (put (put a i (a j)) j (a i)) n x ≡ count a n x
count-swap a n i j x hi hj apart =
    let second = count-put (put a i (a j)) n j (a i) x hj in
    let first = count-put a n i (a j) x hi in
    let same : one (put a i (a j) j) x ≡ one (a j) x =
      ap (λ q. one q x) (put-off a i j (a j) apart) in
    omega (arith, first, second, same)

pub count-here : (a : Array) (n c : ℕ) → c < n → 0 < count a n (a c)
count-here a zero c h = absurd (omega arith)
count-here a (suc n) c h = elim (Bool-cases (c == n)) [
  | inl at ↦ let e : c ≡ n = ground arith in rw e (ground arith)
  | inr off ↦ ground (arith, count-here a n c (ground arith))
]

pub count-found : (a : Array) (n : ℕ) (x : Ptr) → 0 < count a n x → (c : ℕ) × (c < n) × (a c ≡ x)
count-found a zero x h = absurd (omega arith)
count-found a (suc n) x h = elim (Bool-cases (a n == x)) [
  | inl at ↦ (n, omega arith, ground arith)
  | inr off ↦ let (c, l, e) = count-found a n x (ground arith) in (c, omega arith, e)
]
