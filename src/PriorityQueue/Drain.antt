-- ===== src/PriorityQueue/Drain.antt =====
-- A client of a priority queue, in the way of the unit test of educrtos/heap.c: contexts are inserted,
-- and come back in order of priority.
use mathlib.Core.Path.{subst}
use rtas2021_artifact.Base.{
  ℕ, zero, suc, ◌+◌, ◌<◌, ◌≤◌, ◌≡◌, ◌≢◌, refl, sym, true, false, not, List, [], ◌∷◌, arith, has,
  length, ◌==◌, Bool-cases, inl, inr, Run, ok, ◌>>=◌, ◌>>◌, assert, codes, Returns, returns, weaken,
  bind,
}
use rtas2021_artifact.Store.{Ptr, null, Store}
use rtas2021_artifact.Queue.{Priority}
use rtas2021_artifact.Queue.Sorted.{NoneAbove, NoneAbove-trans, IsSorted}
use rtas2021_artifact.ArrayHeap.Bag.{one}
use rtas2021_artifact.ArrayHeap.Insert.{added}
use rtas2021_artifact.ArrayHeap.Holds.{priority_of}
use rtas2021_artifact.PriorityQueue.{PriorityQueue, Bag, without}
use rtas2021_artifact.PriorityQueue.Linked.{occurs, NoneAbove-occurs}

one_within : (bag : Bag) (x y : Ptr) → 0 < bag x → one x y ≤ bag y
one_within bag x y h = elim (Bool-cases (x == y)) [
  | inl at ↦ let e : x ≡ y = ground arith in rw at (subst (λ z. 0 < bag z) e h)
  | inr off ↦ ground (arith, off)
]

module _ (order : Priority) (m : Store) (capacity : ℕ)
    (queue : PriorityQueue order m capacity) where
  open queue use {State, Holds, init, insert_elt, remove_elt}

  -- The insertions.
  unfoldable pub insert_all : List Ptr → State → Run State
  insert_all [] q = ok q
  insert_all (x ∷ xs) q = insert_elt x q >>= insert_all xs

  -- The loop of the unit test that removes them, less what it prints: none has a higher priority than the last one before it. Its result is
  -- the list of the contexts removed.
  unfoldable pub remove_all : ℕ → ℕ → State → Run (List Ptr × State)
  remove_all zero last q = ok ([], q)
  remove_all (suc rounds) last q = do
    (x, q') ← remove_elt q
    let new = priority_of order m x
    assert (not (order.is_gt_priority new last)) (codes "Assertion new <= last failed")
    (xs, q'') ← remove_all rounds new q'
    ok (x ∷ xs, q'')

  -- From an empty queue.
  unfoldable pub insert_and_remove : List Ptr → ℕ → Run (List Ptr × State)
  insert_and_remove xs last = insert_all xs init >>= remove_all (length xs) last

  -- The contexts are not null, and distinct.
  abbrev pub IsFresh : List Ptr → Type 0
  IsFresh [] = Unit
  IsFresh (x ∷ xs) = (x ≢ null) × (has x xs ≡ false) × IsFresh xs

  numbered : (q : State) (n n' : ℕ) (bag : Bag) → n ≡ n' → Holds q n bag → Holds q n' bag
  numbered q n n' bag e is = subst (λ j. Holds q j bag) e is

  insert_all-Holds :
      (xs : List Ptr) (q : State) (n : ℕ) (bag : Bag)
      → IsFresh xs
      → ((y : Ptr) → has y xs ≡ true → bag y ≡ 0)
      → n + length xs ≤ capacity
      → Holds q n bag
      → Returns
          (λ q'.
            (bag' : Bag) × ((y : Ptr) → bag' y ≡ bag y + occurs xs y)
            × Holds q' (n + length xs) bag')
          (insert_all xs q)
  unfolding insert_all
  insert_all-Holds [] q n bag fresh new room is =
      returns (bag, (λ y. omega arith), numbered q n (n + 0) bag (omega arith) is)
  insert_all-Holds (x ∷ xs) q n bag fresh new room is =
      bind (queue.inserts x q n bag fresh.0 (omega arith) (new x (ground arith)) is) λ q' is'.
        weaken
          (insert_all-Holds xs q' (n + 1) (added x bag) fresh.2
            (λ y i. ground (arith, new y, fresh.1)) (omega arith) is')
          λ q'' (bag', counts, held). (
            bag',
            (λ y. omega (arith, counts y)),
            numbered q'' (n + 1 + length xs) (n + suc (length xs)) bag' (omega arith) held,
          )

  -- All contexts of the bag came back, the highest first.
  pub record InOrder (last : ℕ) (bag : Bag) (r : List Ptr × State) : Type 0 where
    pub below : NoneAbove order (priority_of order m) last r.0
    pub sorted : IsSorted order (priority_of order m) r.0
    pub all : (y : Ptr) → occurs r.0 y ≡ bag y

  remove_all-InOrder :
      (rounds last : ℕ) (q : State) (bag : Bag)
      → ((y : Ptr) → 0 < bag y → order.is_gt_priority (priority_of order m y) last ≡ false)
      → Holds q rounds bag
      → Returns (InOrder last bag) (remove_all rounds last q)
  unfolding remove_all
  remove_all-InOrder zero last q bag under is =
      returns (record { below = tt; sorted = tt; all = λ y. sym (queue.Holds-none q bag y is) })
  remove_all-InOrder (suc rounds) last q bag under is =
      bind (queue.removes q rounds bag (numbered q (suc rounds) (rounds + 1) bag (omega arith) is))
        λ (x, q') (top, first, rest). rw (under x top.held) (
          bind
            (remove_all-InOrder rounds (priority_of order m x) q' (without x bag)
              (λ y some. top.highest y (omega arith)) rest)
            λ (xs, q'') in_order. returns (record {
              below = (
                under x top.held,
                NoneAbove-trans order (priority_of order m) _ last xs (under x top.held)
                    in_order.below,
              );
              sorted = (in_order.below, in_order.sorted);
              all = λ y. omega (arith, in_order.all y, one_within bag x y top.held);
            }))

  -- With any queue that keeps the promises: distinct contexts that are not null and
  -- for which there is room, none of a higher priority than `last`, are inserted into an empty queue,
  -- and as many removals return exactly these, each of no higher priority than the one before it; no
  -- assertion fails.
  pub insert_and_remove-InOrder :
      (xs : List Ptr) (last : ℕ)
      → IsFresh xs
      → length xs ≤ capacity
      → NoneAbove order (priority_of order m) last xs
      → Returns (InOrder last (occurs xs)) (insert_and_remove xs last)
  unfolding insert_and_remove
  insert_and_remove-InOrder xs last fresh room under =
      bind
        (insert_all-Holds xs init 0 (λ y. 0) fresh (λ y i. refl) (omega (arith, room))
          queue.init-Holds)
        λ q (bag, counts, held).
          weaken
            (remove_all-InOrder (length xs) last q bag
              (λ y some.
                NoneAbove-occurs order (priority_of order m) last xs y under
                  (omega (arith, counts y)))
              (numbered q (0 + length xs) (length xs) bag (omega arith) held))
            λ r in_order. record {
              below = in_order.below;
              sorted = in_order.sorted;
              all = λ y. omega (arith, in_order.all y, counts y);
            }
