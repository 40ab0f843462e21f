-- ===== src/ArrayHeap/Order.antt =====
-- The order of a binary heap: no cell has a higher priority than the one above it.
use rtas2021_artifact.Base.{
  ℕ, ◌<◌, ◌≤◌, zero, suc, ◌≡◌, ◌≢◌, true, false, arith, ◌==◌, if◌then◌else◌, Bool-cases, inl, inr,
}
use rtas2021_artifact.Queue.{Priority}
use rtas2021_artifact.Queue.Sorted.{gt_refl}
use rtas2021_artifact.ArrayHeap.{parent_of}

-- The priorities of the cells when `i` and `j` are exchanged.
abbrev pub exchange : (ℕ → ℕ) → ℕ → ℕ → ℕ → ℕ
exchange f i j c = if c == i then f j else if c == j then f i else f c

module _ (order : Priority) where
  open order use {is_gt_priority}

  -- `f` gives the priorities of the cells, of which the first `n` count.
  abbrev pub IsHeap : (ℕ → ℕ) → ℕ → Type 0
  IsHeap f n = (c : ℕ) → 0 < c → c < n → is_gt_priority (f c) (f (parent_of c)) ≡ false

  -- The cells below `i` are in order with the cell above it.
  abbrev pub IsBridged : (ℕ → ℕ) → ℕ → ℕ → Type 0
  IsBridged f n i =
      (c : ℕ)
      → 0 < i
      → 0 < c
      → c < n
      → parent_of c ≡ i
      → is_gt_priority (f c) (f (parent_of i)) ≡ false

  -- All is in order but, maybe, the cell `i` with the one above it.
  pub record IsHeapAbove (f : ℕ → ℕ) (n i : ℕ) : Type 0 where
    pub edges : (c : ℕ) → 0 < c → c < n → c ≢ i → is_gt_priority (f c) (f (parent_of c)) ≡ false
    pub bridged : IsBridged f n i

  -- All is in order but, maybe, the cell `i` with those below it.
  pub record IsHeapBelow (f : ℕ → ℕ) (n i : ℕ) : Type 0 where
    pub edges :
        (c : ℕ) → 0 < c → c < n → parent_of c ≢ i → is_gt_priority (f c) (f (parent_of c)) ≡ false
    pub bridged : IsBridged f n i

  -- The element of `i` climbs.
  pub exchange-IsHeapAbove :
      (f : ℕ → ℕ) (n i : ℕ)
      → 0 < i
      → i < n
      → is_gt_priority (f i) (f (parent_of i)) ≡ true
      → IsHeapAbove f n i
      → IsHeapAbove (exchange f i (parent_of i)) n (parent_of i)
  exchange-IsHeapAbove f n i pos inside higher v = record { edges = edges; bridged = bridged }
    where
      lower : is_gt_priority (f (parent_of i)) (f i) ≡ false
      lower = order.gt_asym _ _ higher

      edges :
          (c : ℕ)
          → 0 < c
          → c < n
          → c ≢ parent_of i
          → is_gt_priority (exchange f i (parent_of i) c) (exchange f i (parent_of i) (parent_of c))
            ≡ false
      edges c p l other = elim (Bool-cases (c == i)) [
        | inl at ↦ ground (arith, at, lower)
        | inr off ↦ elim (Bool-cases (parent_of c == i)) [
          | inl under ↦ ground (arith, off, under, v.bridged c pos p l)
          | inr beside ↦
              let edge = v.edges c p l (ground arith) in
              ground (arith, edge, off, beside, order.ge_trans (f i) (f (parent_of i)) (f c) lower)
        ]
      ]

      bridged : IsBridged (exchange f i (parent_of i)) n (parent_of i)
      bridged c p q l e =
          let above = v.edges (parent_of i) p (omega arith) (ground arith) in
          elim (Bool-cases (c == i)) [
            | inl at ↦ ground (arith, at, above)
            | inr off ↦
                let edge = v.edges c q l (ground arith) in
                ground (
                  arith,
                  above,
                  edge,
                  order.ge_trans (f (parent_of (parent_of i))) (f (parent_of i)) (f c) above,
                )
          ]

  -- It has climbed far enough.
  pub IsHeapAbove-settled :
      (f : ℕ → ℕ) (n i : ℕ)
      → (0 < i → is_gt_priority (f i) (f (parent_of i)) ≡ false)
      → IsHeapAbove f n i
      → IsHeap f n
  IsHeapAbove-settled f n i here v c p l = elim (Bool-cases (c == i)) [
    | inl at ↦ let e : i ≡ c = ground arith in ground (arith, e, here)
    | inr off ↦ v.edges c p l (ground arith)
  ]

  -- The element of `i` sinks below `j`, the largest of the cells below it.
  pub exchange-IsHeapBelow :
      (f : ℕ → ℕ) (n i j : ℕ)
      → 0 < j
      → j < n
      → parent_of j ≡ i
      → is_gt_priority (f j) (f i) ≡ true
      → ((c : ℕ) → 0 < c → c < n → parent_of c ≡ i → is_gt_priority (f c) (f j) ≡ false)
      → IsHeapBelow f n i
      → IsHeapBelow (exchange f i j) n j
  exchange-IsHeapBelow f n i j pos inside under higher largest v = record {
    edges = edges;
    bridged = bridged;
  }
    where
      lower : is_gt_priority (f i) (f j) ≡ false
      lower = order.gt_asym _ _ higher

      edges :
          (c : ℕ)
          → 0 < c
          → c < n
          → parent_of c ≢ j
          → is_gt_priority (exchange f i j c) (exchange f i j (parent_of c)) ≡ false
      edges c p l other = elim (Bool-cases (c == i)) [
        | inl at ↦ ground (arith, at, v.bridged j (ground arith) pos inside under)
        | inr off ↦ elim (Bool-cases (c == j)) [
          | inl here ↦ ground (arith, off, here, lower)
          | inr away ↦ elim (Bool-cases (parent_of c == i)) [
            | inl sibling ↦ ground (arith, off, away, sibling, largest c p l)
            | inr beside ↦ ground (arith, off, away, beside, v.edges c p l (ground arith))
          ]
        ]
      ]

      bridged : IsBridged (exchange f i j) n j
      bridged c p q l e = ground (arith, v.edges c q l (ground arith))

  -- It has sunk far enough.
  pub IsHeapBelow-settled :
      (f : ℕ → ℕ) (n i : ℕ)
      → ((c : ℕ) → 0 < c → c < n → parent_of c ≡ i → is_gt_priority (f c) (f i) ≡ false)
      → IsHeapBelow f n i
      → IsHeap f n
  IsHeapBelow-settled f n i here v c p l = elim (Bool-cases (parent_of c == i)) [
    | inl under ↦ ground (arith, under, here c p l)
    | inr beside ↦ v.edges c p l (ground arith)
  ]

  -- The first cell has the highest priority.
  pub IsHeap-first :
      (f : ℕ → ℕ) (n : ℕ)
      → IsHeap f n
      → (fuel c : ℕ) → c ≤ fuel
      → c < n
      → is_gt_priority (f c) (f 0) ≡ false
  IsHeap-first f n v zero c small l = let e : c ≡ 0 = omega arith in rw e (gt_refl order (f 0))
  IsHeap-first f n v (suc fuel) c small l = elim (Bool-cases (c == 0)) [
    | inl at ↦ let e : c ≡ 0 = ground arith in rw e (gt_refl order (f 0))
    | inr off ↦ ground (
      arith,
      order.ge_trans (f 0) (f (parent_of c)) (f c)
          (IsHeap-first f n v fuel (parent_of c) (ground arith) (ground arith))
          (v c (ground arith) l),
    )
  ]
