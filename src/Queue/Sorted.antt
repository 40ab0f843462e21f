-- ===== src/Queue/Sorted.antt =====
-- The abstract queue: a list in order of priority, and stable insertion into it.
use rtas2021_artifact.Base.{
  ℕ, suc, ◌≡◌, refl, true, false, ◌||◌, List, [], ◌∷◌, arith, has, length, ◌==◌, if◌then◌else◌,
  Bool-cases, inl, inr,
}
use rtas2021_artifact.Store.{Ptr}
use rtas2021_artifact.Queue.{Priority}

-- Nothing in the list has a higher priority than `a`.
abbrev pub NoneAbove : Priority → (Ptr → ℕ) → ℕ → List Ptr → Type 0
NoneAbove o key a [] = Unit
NoneAbove o key a (x ∷ xs) = (o.is_gt_priority (key x) a ≡ false) × NoneAbove o key a xs

abbrev pub IsSorted : Priority → (Ptr → ℕ) → List Ptr → Type 0
IsSorted o key [] = Unit
IsSorted o key (x ∷ xs) = NoneAbove o key (key x) xs × IsSorted o key xs

-- Nothing has a higher priority than itself.
pub gt_refl : (o : Priority) (a : ℕ) → o.is_gt_priority a a ≡ false
gt_refl o a = elim (Bool-cases (o.is_gt_priority a a)) [
  | inl above ↦ o.gt_asym a a above
  | inr below ↦ below
]

module _ (o : Priority) (key : Ptr → ℕ) where
  open o use {is_gt_priority, gt_asym, ge_trans}

  -- In front of the first context of lower priority.
  abbrev pub insert_by : Ptr → List Ptr → List Ptr
  insert_by e [] = e ∷ []
  insert_by e (x ∷ xs) = if is_gt_priority (key e) (key x) then e ∷ x ∷ xs else x ∷ insert_by e xs

  pub insert_by-above :
      (e x : Ptr) (xs : List Ptr)
      → is_gt_priority (key e) (key x) ≡ true
      → insert_by e (x ∷ xs) ≡ e ∷ x ∷ xs
  insert_by-above e x xs h = rw h

  pub insert_by-below :
      (e x : Ptr) (xs : List Ptr)
      → is_gt_priority (key e) (key x) ≡ false
      → insert_by e (x ∷ xs) ≡ x ∷ insert_by e xs
  insert_by-below e x xs h = rw h

  pub has-insert_by : (a e : Ptr) (xs : List Ptr) → has a (insert_by e xs) ≡ ((a == e) || has a xs)
  has-insert_by a e [] = refl
  has-insert_by a e (x ∷ xs) = ground (arith, has-insert_by a e xs)

  pub length-insert_by : (e : Ptr) (xs : List Ptr) → length (insert_by e xs) ≡ suc (length xs)
  length-insert_by e [] = refl
  length-insert_by e (x ∷ xs) = ground (arith, length-insert_by e xs)

  pub NoneAbove-insert_by :
      (a : ℕ) (e : Ptr) (xs : List Ptr)
      → NoneAbove o key a xs
      → is_gt_priority (key e) a ≡ false
      → NoneAbove o key a (insert_by e xs)
  NoneAbove-insert_by a e [] n h = (h, tt)
  NoneAbove-insert_by a e (x ∷ xs) n h = elim (Bool-cases (is_gt_priority (key e) (key x))) [
    | inl above ↦ rw above (h, n)
    | inr below ↦ rw below (n.0, NoneAbove-insert_by a e xs n.1 h)
  ]

  pub NoneAbove-trans :
      (a b : ℕ) (xs : List Ptr)
      → is_gt_priority a b ≡ false
      → NoneAbove o key a xs
      → NoneAbove o key b xs
  NoneAbove-trans a b [] h n = tt
  NoneAbove-trans a b (x ∷ xs) h n = (ge_trans b a (key x) h n.0, NoneAbove-trans a b xs h n.1)

  -- Insertion keeps the order.
  pub insert_by-IsSorted :
      (e : Ptr) (xs : List Ptr) → IsSorted o key xs → IsSorted o key (insert_by e xs)
  insert_by-IsSorted e [] s = (tt, tt)
  insert_by-IsSorted e (x ∷ xs) s = elim (Bool-cases (is_gt_priority (key e) (key x))) [
    | inl above ↦
        let less = gt_asym (key e) (key x) above in
        rw above ((less, NoneAbove-trans (key x) (key e) xs less s.0), s)
    | inr below ↦ rw below (NoneAbove-insert_by (key x) e xs s.0 below, insert_by-IsSorted e xs s.1)
  ]
