-- ===== src/ArrayHeap.antt =====
-- The priority queue that educrtos/heap.c makes out of `INSTANTIATE_HEAP` under
-- SCHED_PRIORITY_QUEUE_USE_HEAP: a binary heap in an array of `nb_contexts` pointers, which is the
-- function on its indices. It only reads the contexts.
pub mod Order
pub mod Bag
pub mod Holds
pub mod Largest
pub mod Insert
pub mod Sink
pub mod Remove
use rtas2021_artifact.Base.{
  ℕ, zero, suc, ◌+◌, ◌-◌, ◌*◌, ◌/◌, ◌%◌, ◌^◌, [], Run, ok, fault, out_of_fuel, ◌>>=◌, ◌>>◌, assert,
  ltb, leb, ◌==◌, if◌then◌else◌, codes,
}
use rtas2021_artifact.Store.{Ptr, Context, Store, load}
use rtas2021_artifact.Queue.{Priority, incr, decr}

abbrev pub Array : Type 0
Array = ℕ → Ptr

-- The array with `v` in the cell `i`.
unfoldable pub put : Array → ℕ → Ptr → Array
put a i v j = if j == i then v else a j

pub record ArrayHeap : Type 0 where
  pub size : ℕ
  pub array : Array

-- Twice the index and one or two more, on an unsigned int.
abbrev pub left_of : ℕ → ℕ
left_of i = (2 * i + 1) % 2 ^ 32

abbrev pub right_of : ℕ → ℕ
right_of i = (2 * i + 2) % 2 ^ 32

abbrev pub parent_of : ℕ → ℕ
parent_of i = (i - 1) / 2

-- `nb_contexts` is the length of the array.
module _ (nb_contexts : ℕ) where
  -- A read and a write; out of the array each is a fault.
  unfoldable pub read_cell : Array → ℕ → Run Ptr
  read_cell a i = if ltb i nb_contexts then ok (a i) else fault

  unfoldable pub write_cell : Array → ℕ → Ptr → Run Array
  write_cell a i v = if ltb i nb_contexts then ok (put a i v) else fault

  unfoldable pub get_first : ArrayHeap → Run Ptr
  get_first h = read_cell h.array 0

  module _ (order : Priority) where
    open order use {get_priority, is_gt_priority}

    -- `prefix_get_priority(heap->array[i])`.
    unfoldable pub priority_at : Array → ℕ → Store → Run ℕ
    priority_at a i m = do p ← read_cell a i; c ← load p m; ok (get_priority c)

    -- The loop of the insertion: where the element goes, with the cells above moved down.
    unfoldable pub sift_up : ℕ → ℕ → ℕ → Array → Store → Run (ℕ × Array)
    sift_up zero priority i a m = out_of_fuel
    sift_up (suc k) priority i a m =
        let climb : Run (ℕ × Array) = do
          above ← priority_at a (parent_of i) m
          if is_gt_priority priority above
              then (do
                p ← read_cell a (parent_of i)
                a' ← write_cell a i p
                sift_up k priority (parent_of i) a' m)
              else ok (i, a)
        in if i == 0 then ok (i, a) else climb

    unfoldable pub insert_elt : Ptr → ArrayHeap → Store → Run ArrayHeap
    insert_elt elt h m = do
      assert (ltb h.size nb_contexts)
          (codes "Assertion heap->size < user_tasks_image.nb_contexts failed")
      e ← load elt m
      (i, a) ← sift_up (h.size + 1) (get_priority e) h.size h.array m
      a' ← write_cell a i elt
      ok (record { size = incr h.size; array = a' })

    -- The larger of `largest` and the cell `i`, with its priority.
    unfoldable pub larger : ℕ → (ℕ × ℕ) → Array → Store → Run (ℕ × ℕ)
    larger i (largest, largest_priority) a m = do
      priority ← priority_at a i m
      ok (
          if is_gt_priority priority largest_priority
          then (i, priority)
          else (largest, largest_priority))

    -- Which of the cell `i`, whose priority is `i_priority`, and its children is the largest.
    unfoldable pub largest_of : (i i_priority size : ℕ) → Array → Store → Run (ℕ × ℕ)
    largest_of i i_priority size a m =
        if ltb (right_of i) size
        then larger (right_of i) (i, i_priority) a m >>= (λ best. larger (left_of i) best a m)
        else if ltb (left_of i) size
        then larger (left_of i) (i, i_priority) a m
        else ok (i, i_priority)

    -- The loop of the removal.
    unfoldable pub sift_down : ℕ → (i i_priority size : ℕ) → Array → Store → Run Array
    sift_down zero i i_priority size a m = out_of_fuel
    sift_down (suc k) i i_priority size a m = do
      assert (ltb i nb_contexts) (codes "Assertion i < user_tasks_image.nb_contexts failed")
      (largest, largest_priority) ← largest_of i i_priority size a m
      if largest == i then ok a else (do
        tmp ← read_cell a i
        p ← read_cell a largest
        a' ← write_cell a i p
        a'' ← write_cell a' largest tmp
        sift_down k largest i_priority size a'' m)

    unfoldable pub remove_elt : ArrayHeap → Store → Run (Ptr × ArrayHeap)
    remove_elt h m = do
      res ← read_cell h.array 0
      assert (leb h.size nb_contexts)
          (codes "Assertion heap->size <= user_tasks_image.nb_contexts failed")
      let size = decr h.size
      last ← read_cell h.array size
      a ← write_cell h.array 0 last
      i_priority ← priority_at a 0 m
      a' ← sift_down (h.size + 1) 0 i_priority size a m
      ok (res, record { size = size; array = a' })
