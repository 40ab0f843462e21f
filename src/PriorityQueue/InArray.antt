-- ===== src/PriorityQueue/InArray.antt =====
-- The array heap is a priority queue.
use rtas2021_artifact.Base.{◌^◌, ◌<◌, ◌≡◌, ℕ, arith, weaken, refl, sym, ap, ◌∙◌}
use rtas2021_artifact.Store.{Store, null}
use rtas2021_artifact.Queue.{Priority}
use rtas2021_artifact.ArrayHeap.{ArrayHeap, insert_elt, remove_elt, get_first}
use rtas2021_artifact.ArrayHeap.Bag.{count}
use rtas2021_artifact.ArrayHeap.Holds.{Holds}
use rtas2021_artifact.ArrayHeap.Insert.{insert_elt-Holds}
use rtas2021_artifact.ArrayHeap.Remove.{remove_elt-Taken}
use rtas2021_artifact.PriorityQueue.{PriorityQueue}

-- In an array of `nb` contexts; the store is only read.
unfoldable pub array_queue :
    (order : Priority) (m : Store) (nb : ℕ) → nb < 2 ^ 31 → PriorityQueue order m nb
array_queue order m nb small = record {
  State = ArrayHeap;
  Holds = λ h n bag. (h.size ≡ n) × Holds order m nb h bag;
  init = record { size = 0; array = λ c. null };
  init-Holds = (
    refl,
    record {
      within = omega arith;
      counted = λ x. refl;
      no_null = refl;
      ordered = λ c p l. absurd (omega arith);
    },
  );
  Holds-none = λ h bag y (size, is). sym (is.counted y) ∙ ap (λ n. count h.array n y) size;
  insert_elt = λ x h. insert_elt nb order x h m;
  remove_elt = λ h. remove_elt nb order h m;
  get_first = λ h. get_first nb h;
  inserts = λ x h n bag nx room new (size, is).
      weaken (insert_elt-Holds order m nb x nx h bag (omega arith) (omega arith) is)
        λ h' (grown, is'). (omega arith, is');
  removes = λ h n bag (size, is).
      weaken (remove_elt-Taken order m nb small h bag (omega arith) is) λ (x, h') t. (
        record { held = t.held; highest = t.highest },
        t.first,
        (omega (arith, t.smaller), t.left),
      );
}
