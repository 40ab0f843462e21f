-- ===== src/Libc/Copied.antt =====
-- What memcpy of libase/libc.c makes of the memory.
use mathlib.Core.Path.{subst}
use rtas2021_artifact.Base.{
  ltb→lt, ℕ, zero, suc, ◌+◌, ◌^◌, ◌≤◌, ◌<◌, ◌≡◌, ◌⊎◌, refl, false, arith, ltb, ◌==◌, Bool-cases,
  inl, inr, ok, ◌∙◌, Returns, returns, weaken, bind,
}
use rtas2021_artifact.Libc.{Memory, put_byte, next_index, memcpy_loop, memcpy}

pub put_byte-at : (m : Memory) (p v : ℕ) → put_byte m p v p ≡ v
unfolding put_byte
put_byte-at m p v = ground arith

pub put_byte-off : (m : Memory) (p a v : ℕ) → (a == p) ≡ false → put_byte m p v a ≡ m a
unfolding put_byte
put_byte-off m p a v h = rw h refl

pub next_index-ok : (i : ℕ) → i + 1 < 2 ^ 31 → next_index i ≡ ok (i + 1)
unfolding next_index
next_index-ok i h = ground arith

module _ (dest src n : ℕ) where
  -- The bytes from `i` on were copied, and nothing else is written.
  pub record Copied (i : ℕ) (m m' : Memory) : Type 0 where
    pub copied : (j : ℕ) → i ≤ j → j < n → m' (dest + j) ≡ m (src + j)
    pub kept : (a : ℕ) → (a < dest + i) ⊎ (dest + n ≤ a) → m' a ≡ m a

  -- The loop writes no byte that it has yet to read.
  abbrev pub IsForward : Type 0
  IsForward = (dest ≤ src) ⊎ (src + n ≤ dest)

  unread : (i j : ℕ) → i < j → j < n → IsForward → (src + j == dest + i) ≡ false
  unread i j h l (inl before) = ground arith
  unread i j h l (inr behind) = ground arith

  pub wider : (a i : ℕ) → (a < dest + i) ⊎ (dest + n ≤ a) → (a < dest + (i + 1)) ⊎ (dest + n ≤ a)
  wider a i (inl h) = inl (omega arith)
  wider a i (inr h) = inr h

  memcpy_loop-Copied :
      (fuel i : ℕ) (m : Memory)
      → n < 2 ^ 31
      → IsForward
      → n < fuel + i
      → i ≤ n
      → Returns (Copied i m) (memcpy_loop fuel dest src n i m)
  unfolding memcpy_loop
  memcpy_loop-Copied zero i m small way f l = absurd (omega arith)
  memcpy_loop-Copied (suc fuel) i m small way f l = elim (Bool-cases (ltb i n)) [
    | inl more ↦
        rw (more, next_index-ok i (ground arith))
          (weaken
            (memcpy_loop-Copied fuel (i + 1) (put_byte m (dest + i) (m (src + i))) small way
              (omega arith) (ground arith))
            λ m' c. record {
              copied = λ j h l'. elim (Bool-cases (j == i)) [
                | inl at ↦
                    let e : i ≡ j = ground arith in
                    subst (λ d. m' (dest + d) ≡ m (src + d)) e
                      (c.kept (dest + i) (inl (omega arith))
                        ∙ put_byte-at m (dest + i) (m (src + i)))
                | inr off ↦
                    c.copied j (ground arith) l'
                    ∙ put_byte-off m (dest + i) (src + j) _ (unread i j (ground arith) l' way)
              ];
              kept = λ a h.
                  c.kept a (wider a i h)
                  ∙ put_byte-off m (dest + i) a _ (ground (arith, h, ltb→lt i n more));
            })
    | inr done ↦
        rw done (returns (record { copied = λ j h l'. absurd (ground arith); kept = λ a h. refl }))
  ]

-- For a length that an int can hold, and a destination that does not begin inside the source behind
-- its start, `memcpy` returns its destination; the bytes there are those that the source held, and
-- all others are as they were.
pub memcpy-Copied :
    (dst source n : ℕ) (m : Memory)
    → n < 2 ^ 31
    → IsForward dst source n
    → Returns (λ (p, m'). (p ≡ dst) × Copied dst source n 0 m m') (memcpy dst source n m)
unfolding memcpy
memcpy-Copied dst source n m small way =
    bind (memcpy_loop-Copied dst source n (n + 1) 0 m small way (omega arith) (omega arith))
      λ m' c. returns (refl, c)
