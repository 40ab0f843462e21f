-- ===== src/Tests/Heaps.antt =====
-- Examples of the theorems on the array heap.
use rtas2021_artifact.Base.{[], ◌∷◌, false, ◌==◌, ◌≡◌, ok, refl, arith, if◌then◌else◌, Returns}
use rtas2021_artifact.Store.{Store, load}
use rtas2021_artifact.PriorityScheduler.{waiting}
use rtas2021_artifact.ArrayHeap.{
  Array, ArrayHeap, insert_elt, remove_elt, put, sift_up, priority_at, read_cell, write_cell,
}
use rtas2021_artifact.ArrayHeap.Bag.{count}
use rtas2021_artifact.ArrayHeap.Holds.{Holds}
use rtas2021_artifact.ArrayHeap.Insert.{added, insert_elt-Holds}
use rtas2021_artifact.ArrayHeap.Remove.{Taken, remove_elt-Taken}
use rtas2021_artifact.Queue
use rtas2021_artifact.ArrayHeap.Holds.{priority_of}
use rtas2021_artifact.PriorityQueue.{without}
use rtas2021_artifact.PriorityQueue.Linked.{IsLinked, occurs}
use rtas2021_artifact.PriorityQueue.InArray.{array_queue}
use rtas2021_artifact.PriorityQueue.Agree.{remove_elt-agree}
use rtas2021_artifact.PriorityQueue.Drain.{insert_and_remove, insert_and_remove-InOrder, InOrder}
use rtas2021_artifact.Tests.Sample.{context, queue}

-- The context at each address wakes up at that date.
abbrev dates : Store
dates a = record context { sched_context = record context.sched_context { wakeup_date = a } }

-- 16 is above 32.
abbrev pair : Array
pair c = if c == 0 then 16 else 32

abbrev two : ArrayHeap
two = record { size = 2; array = pair }

two-Holds : Holds waiting dates 8 two (count pair 2)
unfolding waiting
two-Holds = record {
  within = omega arith;
  counted = λ x. refl;
  no_null = refl;
  ordered = λ c p l. let e : c ≡ 1 = omega arith in rw e refl;
}

insert_elt-Holds_example :
    Returns
      (λ h'. (h'.size ≡ 3) × Holds waiting dates 8 h' (added 8 (count pair 2)))
      (insert_elt 8 waiting 8 two dates)
insert_elt-Holds_example =
    insert_elt-Holds waiting dates 8 8 (ground arith) two (count pair 2) (omega arith) (omega arith)
      two-Holds

-- 8 wakes up first, and climbs to the top.
climbs :
    insert_elt 8 waiting 8 two dates ≡ ok (record { size = 3; array = put (put pair 2 16) 0 8 })
unfolding insert_elt put load sift_up priority_at read_cell write_cell waiting
climbs = refl

remove_elt-Taken_example :
    Returns (Taken waiting dates 8 two (count pair 2)) (remove_elt 8 waiting two dates)
remove_elt-Taken_example =
    remove_elt-Taken waiting dates 8 (omega arith) two (count pair 2) (omega arith) two-Holds

-- 16 alone.
abbrev single : ArrayHeap
single = record { size = 1; array = λ c. 16 }

single-Holds : Holds waiting dates 8 single (occurs (16 ∷ []))
single-Holds = record {
  within = omega arith;
  counted = λ x. refl;
  no_null = refl;
  ordered = λ c p l. absurd (omega arith);
}

queue-IsLinked : IsLinked waiting dates (queue 16, dates) 1 (occurs (16 ∷ []))
queue-IsLinked = record {
  members = 16 ∷ [];
  is = record { chain = (refl, ground arith, refl, refl); size = refl; bounded = omega arith };
  sorted = (tt, tt);
  same = refl;
  number = refl;
  counted = λ x. refl;
}

remove_elt-agree_example :
    Returns
      (λ (x, q').
        IsLinked waiting dates (q', dates) 0 (without x (occurs (16 ∷ [])))
        × Returns
            (λ (y, h').
              (waiting.is_gt_priority (priority_of waiting dates x) (priority_of waiting dates y)
                ≡ false)
              × (waiting.is_gt_priority (priority_of waiting dates y) (priority_of waiting dates x)
                  ≡ false)
              × Holds waiting dates 8 h' (without y (occurs (16 ∷ []))))
            (remove_elt 8 waiting single dates))
      (Queue.remove_elt (queue 16) dates)
remove_elt-agree_example =
    remove_elt-agree waiting dates 8 (omega arith) (queue 16, dates) single 0 (occurs (16 ∷ []))
      queue-IsLinked refl single-Holds

-- 32, 8 and 16 come back as 8, 16 and 32.
insert_and_remove-InOrder_example :
    Returns
      (InOrder waiting dates 8
        (array_queue waiting dates 8 (omega arith))
        0
        (occurs (32 ∷ 8 ∷ 16 ∷ [])))
      (insert_and_remove waiting dates 8
        (array_queue waiting dates 8 (omega arith))
        (32 ∷ 8 ∷ 16 ∷ [])
        0)
unfolding waiting
insert_and_remove-InOrder_example =
    insert_and_remove-InOrder waiting dates 8 (array_queue waiting dates 8 (omega arith))
      (32 ∷ 8 ∷ 16 ∷ []) 0 (ground arith, refl, (ground arith, refl, (ground arith, refl, tt)))
      (omega arith) (refl, (refl, (refl, tt)))
