-- ===== src/ArrayHeap/Remove.antt =====
-- Removal from the array heap.
use mathlib.Core.Path.{subst}
use rtas2021_artifact.Base.{
  ℕ, ◌+◌, ◌-◌, ◌^◌, ◌<◌, ◌≡◌, ◌≢◌, sym, true, false, arith, leb, ◌==◌, ok, ap, ◌∙◌, Bool-cases, inl,
  inr, Returns, returns, bind,
}
use rtas2021_artifact.Store.{Ptr, null, Store}
use rtas2021_artifact.Queue.{Priority, decr}
use rtas2021_artifact.ArrayHeap.{Array, ArrayHeap, put, parent_of, remove_elt, get_first}
use rtas2021_artifact.ArrayHeap.Order.{IsHeapBelow, IsHeap-first}
use rtas2021_artifact.ArrayHeap.Bag.{
  one, count, count_next, count-put, count-found, count-here, put-at, put-off,
}
use rtas2021_artifact.ArrayHeap.Holds.{
  read_cell-ok, write_cell-ok, count-not_null, priority_of, keys, priority_at-ok, Holds,
}
use rtas2021_artifact.ArrayHeap.Sink.{sift_down-Sunk}

-- What `remove_elt` gives: a context `r.0` of the heap `h`, none of which has a higher priority, and the
-- heap without it.
pub record Taken (order : Priority) (m : Store) (nb : ℕ) (h : ArrayHeap) (bag : Ptr → ℕ)
    (r : Ptr × ArrayHeap) : Type 0 where
  pub smaller : r.1.size + 1 ≡ h.size
  pub first : get_first nb h ≡ ok r.0
  pub held : 0 < bag r.0
  pub highest :
      (y : Ptr)
      → 0 < bag y
      → order.is_gt_priority (order.get_priority (m y)) (order.get_priority (m r.0)) ≡ false
  pub left : Holds order m nb r.1 (λ y. bag y - one r.0 y)

module _ (order : Priority) (m : Store) (nb : ℕ) (small : nb < 2 ^ 31) (h : ArrayHeap)
    (bag : Ptr → ℕ) (some : 0 < h.size) (is : Holds order m nb h bag) where
  abbrev less : ℕ
  less = h.size - 1

  abbrev top : Ptr
  top = h.array 0

  abbrev lowered : Array
  lowered = put h.array 0 (h.array less)

  counted_all : (y : Ptr) → count h.array less y + one (h.array less) y ≡ bag y
  counted_all y =
      let e : less + 1 ≡ h.size = omega arith in
      sym (count_next h.array less y) ∙ ap (λ n. count h.array n y) e ∙ is.counted y

  lowered-count : (y : Ptr) → count lowered less y ≡ bag y - one top y
  lowered-count y = elim (Bool-cases (less == 0)) [
    | inl alone ↦
        let e : less ≡ 0 = ground arith in
        let all = counted_all y in
        let only : 0 + one top y ≡ bag y =
          subst (λ n. count h.array n y + one (h.array n) y ≡ bag y) e all in
        let none : count lowered less y ≡ 0 = ap (λ n. count lowered n y) e in
        omega (arith, only, none)
    | inr more ↦
        omega (arith, counted_all y, count-put h.array less 0 (h.array less) y (ground arith))
  ]

  lowered-IsHeapBelow : IsHeapBelow order (keys order m lowered) less 0
  lowered-IsHeapBelow = record {
    edges = λ c p l other.
        rw
          (
            put-off h.array 0 c (h.array less) (ground arith),
            put-off h.array 0 (parent_of c) (h.array less) (ground arith),
          )
          (is.ordered c p (omega arith));
    bridged = λ c p q l e. absurd (omega arith);
  }

  last-not_null : h.array less ≢ null
  last-not_null = count-not_null h.array h.size less (omega arith) (is.counted null ∙ is.no_null)

  highest :
      (y : Ptr)
      → 0 < bag y
      → order.is_gt_priority (priority_of order m y) (keys order m h.array 0) ≡ false
  highest y some_y =
      let (c, l, e) = count-found h.array h.size y (omega (arith, is.counted y)) in
      subst (λ q. order.is_gt_priority (priority_of order m q) (keys order m h.array 0) ≡ false) e
        (IsHeap-first order (keys order m h.array) h.size is.ordered c c (omega arith) l)

  -- From a heap that is not empty, removal returns with the context that `get_first` gives, which has
  -- a priority that none in the heap exceeds, and with the heap of the others in the order of a binary
  -- heap again: no assertion fails and no access is out of bounds; the loop needs no more rounds than
  -- the heap has elements, and one more.
  pub remove_elt-Taken : Returns (Taken order m nb h bag) (remove_elt nb order h m)
  unfolding remove_elt get_first
  remove_elt-Taken =
      rw
        (
          read_cell-ok nb h.array 0 (omega (arith, is.within)),
          fits,
          shrunk,
          read_cell-ok nb h.array less (omega (arith, is.within)),
          write_cell-ok nb h.array 0 (h.array less) (omega (arith, is.within)),
          priority_at-ok order m nb lowered 0 (omega (arith, is.within)) filled,
        )
        (bind
          (sift_down-Sunk order m nb small less (omega (arith, is.within)) (h.size + 1) 0 lowered
            (omega arith) (omega (arith, is.within)) (omega arith) (lowered-count null ∙ none)
            lowered-IsHeapBelow)
          λ a' sunk. returns (record {
            smaller = omega arith;
            first = read_cell-ok nb h.array 0 (omega (arith, is.within));
            held = omega (arith, count-here h.array h.size 0 some, is.counted top);
            highest = highest;
            left = record {
              within = omega (arith, is.within);
              counted = λ y. sunk.counted y ∙ lowered-count y;
              no_null = none;
              ordered = sunk.ordered;
            };
          }))
    where
      fits : leb h.size nb ≡ true
      fits = ground (arith, is.within)

      shrunk : decr h.size ≡ less
      shrunk = omega (arith, is.within)

      filled : lowered 0 ≢ null
      filled e = last-not_null (sym (put-at h.array 0 (h.array less)) ∙ e)

      none : bag null - one top null ≡ 0
      none = omega (arith, is.no_null)
