-- ===== src/ArrayHeap/Sink.antt =====
-- The loop that lets an element sink in the array heap.
use mathlib.Core.Path.{subst}
use rtas2021_artifact.Base.{
  ℕ, zero, suc, ◌+◌, ◌^◌, ◌≤◌, ◌<◌, ◌≡◌, refl, sym, true, false, arith, ltb, ◌==◌, ap, ◌∙◌,
  Bool-cases, inl, inr, Returns, returns, weaken, bind,
}
use rtas2021_artifact.Store.{Ptr, null, Store}
use rtas2021_artifact.Queue.{Priority}
use rtas2021_artifact.ArrayHeap.{Array, put, parent_of, sift_down}
use rtas2021_artifact.ArrayHeap.Order.{
  IsHeap, IsHeapBelow, exchange-IsHeapBelow, IsHeapBelow-settled,
}
use rtas2021_artifact.ArrayHeap.Bag.{count, count-swap, put-at}
use rtas2021_artifact.ArrayHeap.Holds.{
  read_cell-ok, write_cell-ok, swap, count-not_null, priority_of, keys, keys-swap,
}
use rtas2021_artifact.ArrayHeap.Largest.{largest_of-Largest}

module _ (order : Priority) (m : Store) (nb : ℕ) (small : nb < 2 ^ 31) (size : ℕ)
    (room : size ≤ nb) where
  open order use {is_gt_priority}

  -- The array is in order, and holds what `a` holds.
  pub record Sunk (a a' : Array) : Type 0 where
    pub ordered : IsHeap order (keys order m a') size
    pub counted : (x : Ptr) → count a' size x ≡ count a size x

  pub sift_down-Sunk :
      (k i : ℕ) (a : Array)
      → size < k + i
      → i < nb
      → i ≤ size
      → count a size null ≡ 0
      → IsHeapBelow order (keys order m a) size i
      → Returns (Sunk a) (sift_down nb order k i (keys order m a i) size a m)
  unfolding sift_down
  sift_down-Sunk zero i a f l w none v = absurd (omega arith)
  sift_down-Sunk (suc k) i a f l w none v = rw within (
      bind
        (largest_of-Largest order m nb small i size a l room
          (λ c h. count-not_null a size c h none))
        λ (j, p) best. elim (Bool-cases (j == i)) [
          | inl at ↦
              let e : j ≡ i = ground arith in
              rw at (
                returns (record {
                  ordered =
                      IsHeapBelow-settled order _ size i
                        (subst
                          (λ d.
                            (c : ℕ)
                            → 0 < c
                            → c < size
                            → parent_of c ≡ i
                            → is_gt_priority (keys order m a c) (keys order m a d) ≡ false)
                          e best.top)
                        v;
                  counted = λ x. refl;
                }))
          | inr off ↦ elim best.among [
            | inl same ↦ absurd (ground (arith, same, off))
            | inr (pos, inside, under, higher) ↦
                rw
                  (
                    off,
                    read_cell-ok nb a i l,
                    read_cell-ok nb a j (omega (arith, room)),
                    write_cell-ok nb a i (a j) l,
                    write_cell-ok nb (put a i (a j)) j (a i) (omega (arith, room)),
                  )
                  (subst (λ q. Returns (Sunk a) (sift_down nb order k j q size (swap a i j) m))
                    (ap (priority_of order m) (put-at (put a i (a j)) j (a i)))
                    (weaken
                      (sift_down-Sunk k j (swap a i j) (ground arith) (omega (arith, room))
                        (omega arith)
                        (count-swap a size i j null (ground arith) inside (ground arith) ∙ none)
                        (subst (λ f. IsHeapBelow order f size j) (sym (keys-swap order m a i j off))
                          (exchange-IsHeapBelow order (keys order m a) size i j pos inside under
                            higher best.top v)))
                      λ a' sunk. record {
                        ordered = sunk.ordered;
                        counted = λ x.
                            sunk.counted x
                            ∙ count-swap a size i j x (ground arith) inside (ground arith);
                      }))
          ]
        ])
    where
      within : ltb i nb ≡ true
      within = ground arith
