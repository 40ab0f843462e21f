-- ===== src/ArrayHeap/Largest.antt =====
-- The choice of the largest among a cell of the heap and those below it.
use mathlib.Core.Path.{subst}
use rtas2021_artifact.Base.{
  ◌>>=◌, ℕ, ◌+◌, ◌*◌, ◌^◌, ◌≤◌, ◌<◌, ◌≡◌, ◌≢◌, ◌⊎◌, refl, true, false, arith, ltb, ◌==◌,
  if◌then◌else◌, ok, Bool-cases, inl, inr, Returns, returns,
}
use rtas2021_artifact.Store.{null, Store}
use rtas2021_artifact.Queue.{Priority}
use rtas2021_artifact.Queue.Sorted.{gt_refl}
use rtas2021_artifact.ArrayHeap.{Array, parent_of, left_of, right_of, larger, largest_of}
use rtas2021_artifact.ArrayHeap.Holds.{keys, priority_at-ok}

module _ (order : Priority) where
  open order use {is_gt_priority}

  gt_trans :
      (a b c : ℕ)
      → is_gt_priority a b ≡ true
      → is_gt_priority b c ≡ true
      → is_gt_priority a c ≡ true
  gt_trans a b c over under = elim (Bool-cases (is_gt_priority a c)) [
    | inl higher ↦ higher
    | inr lower ↦
        absurd (ground (arith, over, order.ge_trans b c a (order.gt_asym b c under) lower))
  ]

module _ (order : Priority) (m : Store) (nb : ℕ) (small : nb < 2 ^ 31) (i size : ℕ) (a : Array)
    (inside : i < nb) (room : size ≤ nb) (filled : (c : ℕ) → c < size → a c ≢ null) where
  open order use {is_gt_priority}

  abbrev priority : ℕ → ℕ
  priority = keys order m a

  -- `j` has the highest priority, or it is `i` and has none below it of a higher one.
  pub record Largest (r : ℕ × ℕ) : Type 0 where
    pub read : r.1 ≡ priority r.0
    pub among :
        (r.0 ≡ i)
        ⊎ ((0 < r.0)
            × (r.0 < size)
            × (parent_of r.0 ≡ i)
            × (is_gt_priority (priority r.0) (priority i) ≡ true))
    pub top :
        (c : ℕ)
        → 0 < c
        → c < size
        → parent_of c ≡ i
        → is_gt_priority (priority c) (priority r.0) ≡ false

  larger-ok :
      (j l p : ℕ)
      → j < size
      → larger nb order j (l, p) a m
        ≡ ok (if is_gt_priority (priority j) p then (j, priority j) else (l, p))
  unfolding larger
  larger-ok j l p h = rw (priority_at-ok order m nb a j (omega (arith, room)) (filled j h)) refl

  left_is : left_of i ≡ 2 * i + 1
  left_is = omega arith

  right_is : right_of i ≡ 2 * i + 2
  right_is = omega arith

  abbrev left : ℕ
  left = left_of i

  abbrev right : ℕ
  right = right_of i

  below_cases : (c : ℕ) → 0 < c → parent_of c ≡ i → ((c == right) ≡ true) ⊎ ((c == left) ≡ true)
  below_cases c p e = elim (Bool-cases (c == right)) [
    | inl at ↦ inl at
    | inr off ↦ inr (ground (arith, left_is, right_is))
  ]

  -- Both cells below `i` count.
  top_of :
      (p : ℕ)
      → is_gt_priority (priority right) p ≡ false
      → is_gt_priority (priority left) p ≡ false
      → (c : ℕ) → 0 < c
      → c < size
      → parent_of c ≡ i
      → is_gt_priority (priority c) p ≡ false
  top_of p r l c pos within e = elim (below_cases c pos e) [
    | inl at ↦
        let same : right ≡ c = ground arith in
        subst (λ d. is_gt_priority (priority d) p ≡ false) same r
    | inr at ↦
        let same : left ≡ c = ground arith in
        subst (λ d. is_gt_priority (priority d) p ≡ false) same l
  ]

  left_child : left < size → (0 < left) × (left < size) × (parent_of left ≡ i)
  left_child h = (omega (arith, left_is), h, omega (arith, left_is))

  right_child : right < size → (0 < right) × (right < size) × (parent_of right ≡ i)
  right_child h = (omega (arith, right_is), h, omega (arith, right_is))

  two-Largest :
      right < size
      → Returns Largest
          (larger nb order right (i, priority i) a m >>= (λ best. larger nb order left best a m))
  two-Largest h =
      let l : left < size = omega (arith, left_is, right_is) in
      let (p, w, e) = left_child l in
      let (p', w', e') = right_child h in
      elim (Bool-cases (is_gt_priority (priority right) (priority i))) [
        | inl over ↦
            rw (larger-ok right i (priority i) h, over, larger-ok left right (priority right) l)
              (elim (Bool-cases (is_gt_priority (priority left) (priority right))) [
                | inl higher ↦ rw higher (
                    returns (record {
                      read = refl;
                      among = inr (p, w, e, gt_trans order _ _ _ higher over);
                      top =
                          top_of (priority left) (order.gt_asym _ _ higher)
                            (gt_refl order (priority left));
                    }))
                | inr lower ↦ rw lower (
                    returns (record {
                      read = refl;
                      among = inr (p', w', e', over);
                      top = top_of (priority right) (gt_refl order (priority right)) lower;
                    }))
              ])
        | inr under ↦
            rw (larger-ok right i (priority i) h, under, larger-ok left i (priority i) l)
              (elim (Bool-cases (is_gt_priority (priority left) (priority i))) [
                | inl higher ↦ rw higher (
                    returns (record {
                      read = refl;
                      among = inr (p, w, e, higher);
                      top =
                          top_of (priority left)
                            (order.ge_trans _ _ _ (order.gt_asym _ _ higher) under)
                            (gt_refl order (priority left));
                    }))
                | inr lower ↦ rw lower (
                    returns (record {
                      read = refl;
                      among = inl refl;
                      top = top_of (priority i) under lower;
                    }))
              ])
      ]

  -- The left cell alone counts.
  only_left :
      size ≤ right
      → (p : ℕ) → is_gt_priority (priority left) p ≡ false
      → (c : ℕ) → 0 < c
      → c < size
      → parent_of c ≡ i
      → is_gt_priority (priority c) p ≡ false
  only_left end p l c pos within e =
      let same : left ≡ c = omega (arith, left_is, right_is) in
      subst (λ d. is_gt_priority (priority d) p ≡ false) same l

  one-Largest :
      left < size → size ≤ right → Returns Largest (larger nb order left (i, priority i) a m)
  one-Largest l end =
      let (p, w, e) = left_child l in
      rw (larger-ok left i (priority i) l)
        (elim (Bool-cases (is_gt_priority (priority left) (priority i))) [
          | inl higher ↦ rw higher (
              returns (record {
                read = refl;
                among = inr (p, w, e, higher);
                top = only_left end (priority left) (gt_refl order (priority left));
              }))
          | inr lower ↦ rw lower (
              returns
                (record { read = refl; among = inl refl; top = only_left end (priority i) lower }))
        ])

  pub largest_of-Largest : Returns Largest (largest_of nb order i (priority i) size a m)
  unfolding largest_of
  largest_of-Largest = elim (Bool-cases (ltb right size)) [
    | inl both ↦ rw both (two-Largest (ground arith))
    | inr no_right ↦ elim (Bool-cases (ltb left size)) [
      | inl one ↦ rw (no_right, one) (one-Largest (ground arith) (ground arith))
      | inr leaf ↦
          rw (no_right, leaf)
            (returns (record {
              read = refl;
              among = inl refl;
              top = λ c p l e. absurd (ground (arith, left_is));
            }))
    ]
  ]
