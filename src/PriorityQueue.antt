-- ===== src/PriorityQueue.antt =====
-- What educrtos/heap.c promises of a priority queue, however it is built: a bag of contexts, out of
-- which those of the highest priority come first.
pub mod Linked
pub mod InArray
pub mod Drain
pub mod Agree
use rtas2021_artifact.Base.{ℕ, ◌+◌, ◌-◌, ◌<◌, ◌≡◌, ◌≢◌, false, Run, ok, Returns}
use rtas2021_artifact.Store.{Ptr, null, Store}
use rtas2021_artifact.Queue.{Priority}
use rtas2021_artifact.ArrayHeap.Bag.{one}
use rtas2021_artifact.ArrayHeap.Insert.{added}
use rtas2021_artifact.ArrayHeap.Holds.{priority_of}

-- How often each context is in the queue.
abbrev pub Bag : Type 0
Bag = Ptr → ℕ

-- The bag with one `x` less.
abbrev pub without : Ptr → Bag → Bag
without x bag y = bag y - one x y

module _ (order : Priority) (m : Store) where
  -- `x` is in the bag, and nothing in it has a higher priority.
  pub record IsFirst (x : Ptr) (bag : Bag) : Type 0 where
    pub held : 0 < bag x
    pub highest :
        (y : Ptr)
        → 0 < bag y
        → order.is_gt_priority (priority_of order m y) (priority_of order m x) ≡ false

  -- The operations of a queue that has room for `capacity` contexts with the priorities of the store
  -- `m`, and what they promise. `Holds q n bag`: there are `n` contexts in the queue, as `bag` says.
  pub record PriorityQueue (capacity : ℕ) : Type 1 where
    pub State : Type 0
    pub Holds : State → ℕ → Bag → Type 0
    pub init : State
    pub insert_elt : Ptr → State → Run State
    pub remove_elt : State → Run (Ptr × State)
    pub get_first : State → Run Ptr
    pub init-Holds : Holds init 0 (λ y. 0)
    pub Holds-none : (q : State) (bag : Bag) (y : Ptr) → Holds q 0 bag → bag y ≡ 0
    pub inserts :
        (x : Ptr) (q : State) (n : ℕ) (bag : Bag)
        → x ≢ null
        → n < capacity
        → bag x ≡ 0
        → Holds q n bag
        → Returns (λ q'. Holds q' (n + 1) (added x bag)) (insert_elt x q)
    pub removes :
        (q : State) (n : ℕ) (bag : Bag)
        → Holds q (n + 1) bag
        → Returns
            (λ (x, q'). IsFirst x bag × (get_first q ≡ ok x) × Holds q' n (without x bag))
            (remove_elt q)
