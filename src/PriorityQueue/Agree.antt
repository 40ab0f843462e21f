-- ===== src/PriorityQueue/Agree.antt =====
-- The two configurations of educrtos/heap.c against each other.
use rtas2021_artifact.Base.{ℕ, ◌+◌, ◌<◌, ◌^◌, ◌≡◌, false, refl, arith, Returns, weaken}
use rtas2021_artifact.Store.{Store}
use rtas2021_artifact.Queue
use rtas2021_artifact.Queue.{Priority, Heap}
use rtas2021_artifact.ArrayHeap
use rtas2021_artifact.ArrayHeap.{ArrayHeap}
use rtas2021_artifact.ArrayHeap.Holds.{priority_of, Holds}
use rtas2021_artifact.ArrayHeap.Remove.{remove_elt-Taken}
use rtas2021_artifact.PriorityQueue.{Bag, without}
use rtas2021_artifact.PriorityQueue.Linked.{IsLinked, removes}

module _ (order : Priority) (m : Store) (nb : ℕ) (small : nb < 2 ^ 31) where
  -- A linked queue and an array heap hold the same contexts. A removal from each returns, with two
  -- contexts neither of which has a higher priority than the other; those of the linked queue and of
  -- the array heap are the contexts that each held, without the one that it gave.
  pub remove_elt-agree :
      (q : Heap × Store) (h : ArrayHeap) (n : ℕ) (bag : Bag)
      → IsLinked order m q (n + 1) bag
      → h.size ≡ n + 1
      → Holds order m nb h bag
      → Returns
          (λ (x, q').
            IsLinked order m (q', q.1) n (without x bag)
            × Returns
                (λ (y, h').
                  (order.is_gt_priority (priority_of order m x) (priority_of order m y) ≡ false)
                  × (order.is_gt_priority (priority_of order m y) (priority_of order m x) ≡ false)
                  × Holds order m nb h' (without y bag))
                (ArrayHeap.remove_elt nb order h m))
          (Queue.remove_elt q.0 q.1)
  remove_elt-agree q h n bag linked size array =
      weaken (removes order m q n bag linked linked.members refl) λ (x, q') (top, first, rest). (
        rest,
        weaken (remove_elt-Taken order m nb small h bag (omega (arith, size)) array)
            λ (y, h') t. (t.highest x top.held, top.highest y t.held, t.left),
      )
