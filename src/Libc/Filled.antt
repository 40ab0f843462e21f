-- ===== src/Libc/Filled.antt =====
-- What memset and the stubs of libase/libc.c make of the memory.
use mathlib.Core.Path.{subst}
use rtas2021_artifact.Base.{
  ℕ, zero, suc, ◌+◌, ◌^◌, ◌≤◌, ◌<◌, ◌≡◌, ◌⊎◌, refl, ap, true, false, arith, ltb→lt, ltb, ◌==◌,
  Bool-cases, inl, inr, ◌∙◌, halt, [], Returns, returns, result, weaken, bind,
}
use rtas2021_artifact.Bits.{u8}
use rtas2021_artifact.Libc.{Memory, put_byte, memset_loop, memset}
use rtas2021_artifact.Libc.Copied.{put_byte-at, put_byte-off, next_index-ok, wider}
use rtas2021_artifact.Libc.Stubs.{Stubs, fill_loop, next_int, tcsetattr, tcgetattr, snprintf}

-- The `n` bytes from `p` on are those of `v`, and all others are as they were.
pub record Filled (p n : ℕ) (v : ℕ → ℕ) (m m' : Memory) : Type 0 where
  pub filled : (j : ℕ) → j < n → m' (p + j) ≡ v j
  pub kept : (a : ℕ) → (a < p) ⊎ (p + n ≤ a) → m' a ≡ m a

before_or_behind : (p n a : ℕ) → (a < p) ⊎ (p + suc n ≤ a) → (a < p + 1) ⊎ (p + 1 + n ≤ a)
before_or_behind p n a (inl h) = inl (omega arith)
before_or_behind p n a (inr h) = inr (omega arith)

module _ (rand_char rand_int : ℕ → ℕ) (termios_size : ℕ) where
  -- The bytes were chosen one by one.
  pub record Chosen (p n : ℕ) (s s' : Stubs) : Type 0 where
    pub bytes : Filled p n (λ j. rand_char (s.chars + j)) s.mem s'.mem
    pub chars : s'.chars ≡ s.chars + n
    pub ints : s'.ints ≡ s.ints

  -- The first byte, and those behind it.
  filled_behind :
      (n p : ℕ) (s s' : Stubs)
      → Chosen
          (p + 1)
          n
          (record s { mem = put_byte s.mem p (rand_char s.chars); chars = s.chars + 1 })
          s'
      → (j : ℕ) → j < suc n
      → s'.mem (p + j) ≡ rand_char (s.chars + j)
  filled_behind n p s s' c zero h =
      let here : p + 0 ≡ p = omega arith in
      let call : s.chars + 0 ≡ s.chars = omega arith in
      rw (here, call) (c.bytes.kept p (inl (omega arith)) ∙ put_byte-at s.mem p (rand_char s.chars))
  filled_behind n p s s' c (suc j) h =
      let here : p + suc j ≡ p + 1 + j = omega arith in
      let call : s.chars + suc j ≡ s.chars + 1 + j = omega arith in
      rw (here, call) (c.bytes.filled j (omega arith))

  fill_loop-Chosen :
      (fuel n p end : ℕ) (s : Stubs)
      → p + n ≡ end
      → n < fuel
      → Returns (Chosen p n s) (fill_loop rand_char rand_int termios_size fuel p end s)
  unfolding fill_loop
  fill_loop-Chosen zero n p end s e f = absurd (omega arith)
  fill_loop-Chosen (suc fuel) zero p end s e f =
      let done : ltb p end ≡ false = ground arith in
      rw done (
        returns (record {
          bytes = record { filled = λ j h. absurd (omega arith); kept = λ a h. refl };
          chars = omega arith;
          ints = refl;
        }))
  fill_loop-Chosen (suc fuel) (suc n) p end s e f =
      let more : ltb p end ≡ true = ground arith in
      rw more (
        weaken (fill_loop-Chosen fuel n (p + 1) end _ (omega arith) (omega arith)) λ s' c. record {
          bytes = record {
            filled = filled_behind n p s s' c;
            kept = λ a h.
                c.bytes.kept a (before_or_behind p n a h)
                ∙ put_byte-off s.mem p a _ (ground (arith, h));
          };
          chars = omega (arith, c.chars);
          ints = c.ints;
        })

  -- `tcsetattr` and `tcgetattr` fill the structure, and return the int chosen.
  tcsetattr-Chosen :
      (fd optional_actions termios_p : ℕ) (s : Stubs)
      → Returns
          (λ (r, s').
            (r ≡ rand_int s.ints)
            × Filled termios_p termios_size (λ j. rand_char (s.chars + j)) s.mem s'.mem)
          (tcsetattr rand_char rand_int termios_size fd optional_actions termios_p s)
  unfolding tcsetattr next_int
  tcsetattr-Chosen fd optional_actions termios_p s =
      bind
        (fill_loop-Chosen (termios_size + 1) termios_size termios_p (termios_p + termios_size) s
          refl (omega arith))
        λ s' c. returns (ap rand_int c.ints, c.bytes)

  tcgetattr-Chosen :
      (ft termios_p : ℕ) (s : Stubs)
      → Returns
          (λ (r, s').
            (r ≡ rand_int s.ints)
            × Filled termios_p termios_size (λ j. rand_char (s.chars + j)) s.mem s'.mem)
          (tcgetattr rand_char rand_int termios_size ft termios_p s)
  unfolding tcgetattr tcsetattr
  tcgetattr-Chosen ft termios_p s = tcsetattr-Chosen ft 0 termios_p s

  -- Whatever `rand_char` and `rand_int` choose: if the int is neither negative nor as large as `size`,
  -- `snprintf` returns it, with the `size` bytes of its buffer filled with the chars chosen, in order,
  -- and no other byte written; and otherwise it never returns.
  pub snprintf-Chosen :
      (str size format : ℕ) (s : Stubs)
      → ((rand_int s.ints < 2 ^ 31)
          × (rand_int s.ints < size)
          × Returns
              (λ (r, s').
                (r ≡ rand_int s.ints)
                × Filled str size (λ j. rand_char (s.chars + j)) s.mem s'.mem
                × (s'.ints ≡ s.ints + 1))
              (snprintf rand_char rand_int termios_size str size format s))
        ⊎ (((2 ^ 31 ≤ rand_int s.ints) ⊎ (size ≤ rand_int s.ints))
            × (snprintf rand_char rand_int termios_size str size format s ≡ halt []))
  unfolding snprintf next_int
  snprintf-Chosen str size format s =
      let (s', same, c) =
        result (fill_loop-Chosen (size + 1) size str (str + size) s refl (omega arith)) in
      rw (same, c.ints)
        (elim (Bool-cases (ltb (rand_int s.ints) (2 ^ 31))) [
          | inl positive ↦ elim (Bool-cases (ltb (rand_int s.ints) size)) [
            | inl fits ↦
                rw (positive, fits)
                  (inl
                    (ground (arith, positive), ground (arith, fits), returns (refl, c.bytes, refl)))
            | inr large ↦ rw (positive, large) (inr (inr (ground (arith, large)), refl))
          ]
          | inr negative ↦ rw negative (inr (inl (ground (arith, negative)), refl))
        ])

module _ (dest c n : ℕ) where
  -- The bytes from `i` on are set, and nothing else is written.
  record Set (i : ℕ) (m m' : Memory) : Type 0 where
    filled : (j : ℕ) → i ≤ j → j < n → m' (dest + j) ≡ u8 c
    kept : (a : ℕ) → (a < dest + i) ⊎ (dest + n ≤ a) → m' a ≡ m a

  memset_loop-Set :
      (fuel i : ℕ) (m : Memory)
      → n < 2 ^ 31
      → n < fuel + i
      → i ≤ n
      → Returns (Set i m) (memset_loop fuel dest c n i m)
  unfolding memset_loop
  memset_loop-Set zero i m small f l = absurd (omega arith)
  memset_loop-Set (suc fuel) i m small f l = elim (Bool-cases (ltb i n)) [
    | inl more ↦
        rw (more, next_index-ok i (ground arith))
          (weaken
            (memset_loop-Set fuel (i + 1) (put_byte m (dest + i) (u8 c)) small (omega arith)
              (ground arith))
            λ m' w. record {
              filled = λ j h l'. elim (Bool-cases (j == i)) [
                | inl at ↦
                    let e : i ≡ j = ground arith in
                    subst (λ d. m' (dest + d) ≡ u8 c) e
                      (w.kept (dest + i) (inl (omega arith)) ∙ put_byte-at m (dest + i) (u8 c))
                | inr off ↦ w.filled j (ground arith) l'
              ];
              kept = λ a h.
                  w.kept a (wider dest c n a i h)
                  ∙ put_byte-off m (dest + i) a _ (ground (arith, h, ltb→lt i n more));
            })
    | inr done ↦
        rw done (returns (record { filled = λ j h l'. absurd (ground arith); kept = λ a h. refl }))
  ]

-- For a length that an int can hold `memset` returns its destination; the bytes there are the low byte
-- of `c`, and all others are as they were.
memset-Filled :
    (dst c n : ℕ) (m : Memory)
    → n < 2 ^ 31
    → Returns (λ (p, m'). (p ≡ dst) × Filled dst n (λ j. u8 c) m m') (memset dst c n m)
unfolding memset
memset-Filled dst c n m small =
    bind (memset_loop-Set dst c n (n + 1) 0 m small (omega arith) (omega arith)) λ m' w. returns (
      refl,
      record {
        filled = λ j h. w.filled j (omega arith) h;
        kept = λ a h. w.kept a (start_or_behind a h);
      },
    )
  where
    start_or_behind : (a : ℕ) → (a < dst) ⊎ (dst + n ≤ a) → (a < dst + 0) ⊎ (dst + n ≤ a)
    start_or_behind a (inl h) = inl (omega arith)
    start_or_behind a (inr h) = inr h
